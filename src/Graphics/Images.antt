-- ===== src/Graphics/Images.antt =====
-- src/ppb_image_data.c: images. Their cairo surfaces are not drawn on here.
pub mod Sizes
use freshplayerplugin.Base.{ℕ, Bool, true, false, Option, none, some, ◌==◌, ◌||◌, Bytes, replicate}
use freshplayerplugin.Resource.{Res, Registry, get_type, allocate, unref}
use freshplayerplugin.Resource.Access.{finish, with_resource, look}
use freshplayerplugin.Graphics.{
  Surface, ImageData, Picture, zeroed, image, image_type, calloc_size, stride_of, no_surface,
  as_image,
}

-- `PP_IMAGEDATAFORMAT_BGRA_PREMUL`, and the other format
abbrev pub get_native_image_data_format : ℕ
get_native_image_data_format = 0

unfoldable pub is_image_data_format_supported : ℕ → Bool
is_image_data_format_supported f = f == 0 || f == 1

abbrev pub surface_over : ℕ → ℕ → ℕ → Surface
surface_over size w h = record {
  pixels = replicate size 0;
  surface_width = w;
  surface_height = h;
  surface_stride = stride_of w;
}

abbrev pub new_image : ℕ → ℕ → ℕ → Surface → Picture
new_image format w h s =
    image (record { width = w; height = h; stride = stride_of w; format = format; surface = s })

-- the rest of the constructor, with the memory that `calloc` gives
abbrev pub create_found :
    ℕ → ℕ → ℕ → ℕ → Res Picture → Registry Picture → Option ℕ → Registry Picture × ℕ
create_found k format w h r g none =
    ((unref k (finish k (λ _. new_image format w h no_surface) r g)).0, 0)
create_found k format w h r g (some size) =
    (finish k (λ _. new_image format w h (surface_over size w h)) r g, k)

unfoldable pub image_data_create :
    Option ℕ → ℕ → ℕ → ℕ → Registry Picture → Option (Registry Picture × ℕ)
unfolding with_resource calloc_size
image_data_create none format w h g = some (g, 0)
image_data_create (some inst) format w h g =
    let made = allocate zeroed image_type inst g in
    with_resource image_type made.1 made.0 (made.0, 0)
      (λ r g'. create_found made.1 format w h r g' (calloc_size (stride_of w) h))

unfoldable pub is_image_data : ℕ → Registry Picture → Bool
is_image_data h g = get_type h g == image_type

-- `struct PP_ImageDataDesc`
pub record ImageDataDesc : Type 0 where
  pub desc_format : ℕ
  pub desc_width : ℕ
  pub desc_height : ℕ
  pub desc_stride : ℕ

abbrev pub desc_of : ImageData → ImageDataDesc
desc_of d = record {
  desc_format = d.format;
  desc_width = d.width;
  desc_height = d.height;
  desc_stride = d.stride;
}

-- What is filled; `none` is PP_FALSE.
unfoldable pub image_data_describe :
    ℕ → Registry Picture → Option (Registry Picture × Option ImageDataDesc)
unfolding look
image_data_describe h g = look image_type h g none (λ p. some (desc_of (as_image p)))

-- The memory behind the pointer; `none` is NULL.
unfoldable pub image_data_map : ℕ → Registry Picture → Option (Registry Picture × Option Bytes)
unfolding look
image_data_map h g = look image_type h g none (λ p. some (as_image p).surface.pixels)

unfoldable pub image_data_unmap : ℕ → Registry Picture → Option (Registry Picture × Bool)
unfolding look
image_data_unmap h g = look image_type h g false (λ _. true)
