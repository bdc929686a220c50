-- ===== src/Graphics/Images/Sizes.antt =====
-- The memory of the images of src/ppb_image_data.c.
use freshplayerplugin.Base.{
  ℕ, ◌*◌, ◌%◌, ◌^◌, ◌<◌, ◌≡◌, ◌↔◌, refl, false, Option, none, some, ◌==◌, if◌then◌else◌, replicate,
  ltb, arith, ◌≤◌, ◌⊎◌,
}
use freshplayerplugin.Resource.{Res, Registry, find}
use freshplayerplugin.Resource.Find.{new_res}
use freshplayerplugin.Resource.Access.{make}
use freshplayerplugin.Resource.Access.Effects.{look-free}
use freshplayerplugin.Resource.Access.Created.{Reads, Creates, make-IsFree, fail_made-gone}
use freshplayerplugin.Graphics.{
  Picture, zeroed, image_type, calloc_size, stride_of, no_surface, as_image,
}
use freshplayerplugin.Graphics.Images.{
  desc_of, surface_over, new_image, image_data_create, image_data_describe, image_data_map,
}

wrapped_iff :
    (x : ℕ)
    → ((if ltb (x % 2 ^ 32) (2 ^ 31) then some (x % 2 ^ 32) else none) ≡ some x) ↔ (x < 2 ^ 31)
wrapped_iff x = (λ e. ground arith, λ l. ground arith)

-- The memory of an image of less than 2^29 pixels in width has four bytes for each pixel exactly if
-- these are less than 2^31.
pub calloc_size-exact_iff :
    (w h : ℕ) → w < 2 ^ 29 → (calloc_size (stride_of w) h ≡ some (4 * w * h)) ↔ (4 * w * h < 2 ^ 31)
unfolding calloc_size
calloc_size-exact_iff w h small =
    let exact : stride_of w ≡ 4 * w = omega arith in rw exact (wrapped_iff (4 * w * h))

-- What the constructor leaves, by the memory that it asks for.
abbrev pub Made : Option ℕ → ℕ → ℕ → ℕ → Registry Picture → Option (Registry Picture × ℕ) → Type 0
Made none format w h g out =
    (g' : Registry Picture) × (out ≡ some (g', 0))
    × (find g.res_tbl_next g' ≡ none)
    × ((j : ℕ) → (g.res_tbl_next == j) ≡ false → find j g' ≡ find j g)
Made (some size) format w h g out =
    (g' : Registry Picture) × Creates g out g'
    × Reads g' (image_data_describe g.res_tbl_next g') (
        some (record {
          desc_format = format;
          desc_width = w;
          desc_height = h;
          desc_stride = stride_of w;
        }))
    × Reads g' (image_data_map g.res_tbl_next g') (some (replicate size 0))

Made-found :
    (inst format w h : ℕ) (g : Registry Picture) (size : Option ℕ)
    → calloc_size (stride_of w) h ≡ size
    → Made size format w h g (image_data_create (some inst) format w h g)
unfolding image_data_create image_data_describe image_data_map make
Made-found inst format w h g none e =
    let (g', is, gone, table) =
      fail_made-gone zeroed (λ _. new_image format w h no_surface) image_type inst g in
    (g', rw e is, gone, table)
Made-found inst format w h g (some size) e =
    let k : ℕ = g.res_tbl_next in
    let made : Picture = new_image format w h (surface_over size w h) in
    let q : Res Picture = new_res made image_type inst k in
    let (g', (is, table), free) = make-IsFree zeroed (λ _. made) image_type inst g in
    (
      g',
      (rw e is, table),
      look-free image_type k q g' none (λ p. some (desc_of (as_image p))) free,
      look-free image_type k q g' none (λ p. some (as_image p).surface.pixels) free,
    )

-- An image for an instance, of any format and size, is a new resource if the memory can be had: it
-- is described with that format and size and a stride of four bytes for each pixel of a row, and
-- its memory is mapped, all zeros. If not, the result is 0 and the resource is gone. Either way no
-- other resource changes.
pub image_data_create-Made :
    (inst format w h : ℕ) (g : Registry Picture)
    → Made (calloc_size (stride_of w) h) format w h g (image_data_create (some inst) format w h g)
image_data_create-Made inst format w h g =
    Made-found inst format w h g (calloc_size (stride_of w) h) refl

-- Memory of a size, by the size that the image has.
abbrev pub IsAsLarge : ℕ → ℕ → Type 0
IsAsLarge n x = ((x < 2 ^ 31) × (n ≡ x)) ⊎ ((2 ^ 31 ≤ x) × (n < x))

-- The constructor's outcome, by the number of bytes of the image's pixels.
abbrev pub Sized : ℕ → Registry Picture → Option (Registry Picture × ℕ) → Type 0
Sized x g out =
    (g' : Registry Picture) × (((out ≡ some (g', 0)) × (2 ^ 31 ≤ x))
      ⊎ ((out ≡ some (g', g.res_tbl_next))
          × (n : ℕ) × Reads g' (image_data_map g.res_tbl_next g') (some (replicate n 0))
          × IsAsLarge n x))
