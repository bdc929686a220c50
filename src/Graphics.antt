-- ===== src/Graphics.antt =====
-- Pictures: what src/ppb_image_data.c and src/ppb_graphics2d.c share. An image and a graphics
-- context are resources of one table of src/pp_resource.c.
pub mod Images
pub mod Contexts
use freshplayerplugin.Base.{
  ℕ, zero, suc, ◌*◌, ◌%◌, ◌^◌, Bool, false, Option, none, some, List, [], ltb, if◌then◌else◌, Bytes,
}

-- The memory of a picture with the cairo surface over it: both are made, and handed on, together.
pub record Surface : Type 0 where
  pub pixels : Bytes
  pub surface_width : ℕ
  pub surface_height : ℕ
  pub surface_stride : ℕ

-- `struct pp_image_data_s`; a number of type int32_t stands as its bit pattern
pub record ImageData : Type 0 where
  pub width : ℕ
  pub height : ℕ
  pub stride : ℕ
  pub format : ℕ
  pub surface : Surface

pub record Point : Type 0 where
  pub x : ℕ
  pub y : ℕ

-- `struct PP_Rect`
pub record Rect : Type 0 where
  pub corner : Point
  pub rect_width : ℕ
  pub rect_height : ℕ

-- `struct g2d_paint_task_s`, with the handle of the image
pub data PaintTask : Type 0 where
  gpt_paint_id : (image_data : ℕ) → (ofs : Point) → (src : Option Rect) → PaintTask
  gpt_replace_contents : (image_data : ℕ) → PaintTask

-- `struct pp_graphics2d_s`, without the names of what the X server keeps; a scale is the bit pattern
-- of its double.
pub record Graphics2d : Type 0 where
  pub is_always_opaque : Bool
  pub canvas_width : ℕ
  pub canvas_height : ℕ
  pub canvas_stride : ℕ
  pub scale : ℕ
  pub external_scale : ℕ
  pub scaled_width : ℕ
  pub scaled_height : ℕ
  pub scaled_stride : ℕ
  pub canvas : Surface
  pub second_buffer : Bytes
  pub task_list : List PaintTask

-- What stands behind the common fields of a resource; `zeroed` is new memory.
pub data Picture : Type 0 where
  zeroed : Picture
  image : ImageData → Picture
  graphics : Graphics2d → Picture

abbrev pub image_type : ℕ
image_type = 6

abbrev pub graphics_type : ℕ
graphics_type = 7

-- `calloc(stride * height, 1)`: the product is a 32-bit number, and a negative one, as a size_t, is
-- more memory than there is.
unfoldable pub calloc_size : ℕ → ℕ → Option ℕ
calloc_size stride height =
    let size = stride * height % 2 ^ 32 in if ltb size (2 ^ 31) then some size else none

-- `4 * width` as a 32-bit number
abbrev pub stride_of : ℕ → ℕ
stride_of width = 4 * width % 2 ^ 32

abbrev pub no_surface : Surface
no_surface = record { pixels = []; surface_width = 0; surface_height = 0; surface_stride = 0 }

abbrev pub no_image : ImageData
no_image = record { width = 0; height = 0; stride = 0; format = 0; surface = no_surface }

abbrev pub no_graphics : Graphics2d
no_graphics = record {
  is_always_opaque = false;
  canvas_width = 0;
  canvas_height = 0;
  canvas_stride = 0;
  scale = 0;
  external_scale = 0;
  scaled_width = 0;
  scaled_height = 0;
  scaled_stride = 0;
  canvas = no_surface;
  second_buffer = [];
  task_list = [];
}

-- The structure behind a pointer of the type that the resource has been acquired with.
abbrev pub as_image : Picture → ImageData
as_image (image d) = d
as_image _ = no_image

abbrev pub as_graphics : Picture → Graphics2d
as_graphics (graphics d) = d
as_graphics _ = no_graphics
