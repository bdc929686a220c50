-- ===== src/AudioConfig/Frames.antt =====
-- The frame counts that src/ppb_audio_config.c recommends and takes.
use freshplayerplugin.Base.{ℕ, ◌≤◌, ◌≡◌, some, arith}
use freshplayerplugin.Resource.{Res, Registry}
use freshplayerplugin.Resource.Find.{new_res}
use freshplayerplugin.Resource.Access.Effects.{look-free}
use freshplayerplugin.Resource.Access.Created.{Reads, Creates, make-IsFree}
use freshplayerplugin.AudioConfig.{
  AudioConfig, audio_config_type, min_frame_count, max_frame_count, clamp, no_config,
  recommend_sample_frame_count, create_stereo_16_bit, get_sample_rate, get_sample_frame_count,
}

clamp_bounds :
    (x low high : ℕ)
    → low ≤ high
    → (low ≤ clamp x low high)
      × (clamp x low high ≤ high)
      × (low ≤ x → x ≤ high → clamp x low high ≡ x)
unfolding clamp
clamp_bounds x low high h = (ground arith, ground arith, λ a b. ground arith)

-- A configuration that is made for an instance gives back its rate, and as its frame count the one
-- that is recommended for the request: it lies within the limits, is the request if that does, and
-- recommending it again gives the same.
pub create_stereo_16_bit-Reads :
    (inst rate frame_count : ℕ) (g : Registry AudioConfig)
    → let n = recommend_sample_frame_count frame_count in
      (g' : Registry AudioConfig) × Creates g
        (create_stereo_16_bit (some inst) rate frame_count g)
        g'
      × Reads g' (get_sample_rate g.res_tbl_next g') rate
      × Reads g' (get_sample_frame_count g.res_tbl_next g') n
      × (min_frame_count ≤ n)
      × (n ≤ max_frame_count)
      × (recommend_sample_frame_count n ≡ n)
unfolding create_stereo_16_bit get_sample_rate get_sample_frame_count recommend_sample_frame_count
create_stereo_16_bit-Reads inst rate frame_count g =
    let k : ℕ = g.res_tbl_next in
    let made : AudioConfig = record {
      sample_rate = rate;
      sample_frame_count = clamp frame_count min_frame_count max_frame_count;
    } in
    let q : Res AudioConfig = new_res made audio_config_type inst k in
    let (g', is, free) = make-IsFree no_config (λ _. made) audio_config_type inst g in
    let (low, high, same) =
      clamp_bounds frame_count min_frame_count max_frame_count (omega arith) in
    let again : clamp made.sample_frame_count min_frame_count max_frame_count
        ≡ made.sample_frame_count =
      (clamp_bounds made.sample_frame_count min_frame_count max_frame_count (omega arith)).2 low
        high in
    (
      g',
      is,
      look-free audio_config_type k q g' 0 (λ c. c.sample_rate) free,
      look-free audio_config_type k q g' 0 (λ c. c.sample_frame_count) free,
      low,
      high,
      again,
    )
