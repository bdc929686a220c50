-- ===== src/Graphics/Contexts/Creation.antt =====
-- The constructor and the scale of the contexts of src/ppb_graphics2d.c.
use freshplayerplugin.Base.{ℕ, Bool, true, false, Option, none, some, [], Bytes, replicate}
use freshplayerplugin.Resource.{Res, Registry, allocate, unref}
use freshplayerplugin.Resource.Access.{finish, with_resource, look}
use freshplayerplugin.Graphics.{
  Graphics2d, Picture, zeroed, graphics, graphics_type, calloc_size, stride_of, as_graphics,
  no_graphics,
}
use freshplayerplugin.Graphics.Contexts.{Libraries}

module _ (lib : Libraries) where
  -- The sizes of a context by its scale, with zeros in the second buffer.
  abbrev pub with_scale : ℕ → Graphics2d → Graphics2d
  with_scale scale d =
      let w = lib.scaled d.canvas_width scale in
      record d {
        scale = scale;
        scaled_width = w;
        scaled_height = lib.scaled d.canvas_height scale;
        scaled_stride = stride_of w;
      }

  abbrev pub new_graphics : ℕ → ℕ → ℕ → ℕ → Bool → Graphics2d
  new_graphics device_scale one w h opaque = with_scale device_scale (record no_graphics {
    is_always_opaque = opaque;
    external_scale = one;
    canvas_width = w;
    canvas_height = h;
    canvas_stride = stride_of w;
  })

  abbrev pub buffers : Graphics2d → Option ℕ → Option ℕ → Option Graphics2d
  buffers d (some size) (some scaled_size) = some (record d {
    canvas = record {
      pixels = replicate size 0;
      surface_width = d.canvas_width;
      surface_height = d.canvas_height;
      surface_stride = d.canvas_stride;
    };
    second_buffer = replicate scaled_size 0;
  })
  buffers d _ _ = none

  abbrev pub create_context :
      ℕ → Graphics2d → Option Graphics2d → Res Picture → Registry Picture → Registry Picture × ℕ
  create_context k failed none r g = ((unref k (finish k (λ _. graphics failed) r g)).0, 0)
  create_context k failed (some d) r g = (finish k (λ _. graphics d) r g, k)

  -- `one` is the bit pattern of 1.0.
  unfoldable pub graphics2d_create :
      ℕ → ℕ → Option ℕ → ℕ → ℕ → Bool → Registry Picture → Option (Registry Picture × ℕ)
  unfolding with_resource calloc_size
  graphics2d_create device_scale one none w h opaque g = some (g, 0)
  graphics2d_create device_scale one (some inst) w h opaque g =
      let made = allocate zeroed graphics_type inst g in
      let d = new_graphics device_scale one w h opaque in
      with_resource graphics_type made.1 made.0 (made.0, 0)
        (create_context made.1 d (
          buffers d (calloc_size d.canvas_stride d.canvas_height)
            (calloc_size d.scaled_stride d.scaled_height)))

  abbrev pub second_of : Option ℕ → Bytes
  second_of none = []
  second_of (some size) = replicate size 0

  abbrev pub rescaled : ℕ → ℕ → Graphics2d → Graphics2d × Bool
  rescaled device_scale external d =
      let d' =
        with_scale (lib.combined external device_scale) (record d { external_scale = external }) in
      let size = calloc_size d'.scaled_stride d'.scaled_height in
      (record d' { second_buffer = second_of size }, elim size [ none ↦ false | some n ↦ true ])

  -- The Boolean is that the result is not 0, which the error code is not either.
  unfoldable pub set_scale : ℕ → ℕ → ℕ → Registry Picture → Option (Registry Picture × Bool)
  unfolding with_resource calloc_size
  set_scale device_scale h external g =
      with_resource graphics_type h g (g, true)
        (λ r g'.
          let (d, done) = rescaled device_scale external (as_graphics r.body) in
          (finish h (λ _. graphics d) r g', done))

  -- The error code is given as a number to convert, `bad`.
  unfoldable pub get_scale : ℕ → ℕ → Registry Picture → Option (Registry Picture × ℕ)
  unfolding look
  get_scale bad h g = look graphics_type h g bad (λ p. (as_graphics p).external_scale)
