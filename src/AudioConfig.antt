-- ===== src/AudioConfig.antt =====
-- src/ppb_audio_config.c: the sample rate and the number of frames of an audio stream, as a resource.
pub mod Frames
use freshplayerplugin.Base.{ℕ, Bool, Option, none, some, ◌==◌, ltb, if◌then◌else◌}
use freshplayerplugin.Resource.{Registry, get_type}
use freshplayerplugin.Resource.Access.{make, look}

-- `struct pp_audio_config_s`
pub record AudioConfig : Type 0 where
  pub sample_rate : ℕ
  pub sample_frame_count : ℕ

abbrev pub audio_config_type : ℕ
audio_config_type = 10

-- PP_AUDIOMINSAMPLEFRAMECOUNT and PP_AUDIOMAXSAMPLEFRAMECOUNT
abbrev pub min_frame_count : ℕ
min_frame_count = 64

abbrev pub max_frame_count : ℕ
max_frame_count = 32768

-- `CLAMP`
unfoldable pub clamp : ℕ → ℕ → ℕ → ℕ
clamp x low high = if ltb high x then high else if ltb x low then low else x

abbrev pub no_config : AudioConfig
no_config = record { sample_rate = 0; sample_frame_count = 0 }

unfoldable pub recommend_sample_frame_count : ℕ → ℕ
unfolding clamp
recommend_sample_frame_count requested = clamp requested min_frame_count max_frame_count

unfoldable pub create_stereo_16_bit :
    Option ℕ → ℕ → ℕ → Registry AudioConfig → Option (Registry AudioConfig × ℕ)
unfolding make clamp
create_stereo_16_bit inst rate frame_count g =
    make no_config
      (λ _. record {
        sample_rate = rate;
        sample_frame_count = clamp frame_count min_frame_count max_frame_count;
      })
      audio_config_type inst g

unfoldable pub is_audio_config : ℕ → Registry AudioConfig → Bool
is_audio_config h g = get_type h g == audio_config_type

unfoldable pub get_sample_rate : ℕ → Registry AudioConfig → Option (Registry AudioConfig × ℕ)
unfolding look
get_sample_rate h g = look audio_config_type h g 0 (λ c. c.sample_rate)

unfoldable pub get_sample_frame_count : ℕ → Registry AudioConfig → Option (Registry AudioConfig × ℕ)
unfolding look
get_sample_frame_count h g = look audio_config_type h g 0 (λ c. c.sample_frame_count)

abbrev pub recommend_sample_rate : ℕ
recommend_sample_rate = 48000
