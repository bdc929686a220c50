-- ===== src/Graphics/Contexts.antt =====
-- src/ppb_graphics2d.c: graphics contexts, on which images are painted when they are flushed. What
-- cairo and the arithmetic of doubles do are parameters; calls of the X server are left out.
pub mod Creation
pub mod Immediate
pub mod Replay
pub mod Replacing
pub mod Flush
use freshplayerplugin.Base.{
  ℕ, ◌*◌, ◌%◌, ◌^◌, Bool, true, false, ◌&&◌, ◌||◌, Option, none, some, List, [], ◌∷◌, ◌++◌, ◌==◌,
  leb, if◌then◌else◌, Bytes, length, take, drop, replicate, ◌>>=◌,
}
use freshplayerplugin.Resource.{
  Res, Registry, find, get_type, allocate, store, release, add_ref, unref,
}
use freshplayerplugin.Resource.Access.{finish, with_resource, look}
use freshplayerplugin.Graphics.{
  Surface, ImageData, Point, Rect, PaintTask, gpt_paint_id, gpt_replace_contents, Graphics2d,
  Picture, zeroed, image, graphics, image_type, graphics_type, calloc_size, stride_of, as_image,
  as_graphics, no_surface, no_graphics,
}

pub record Libraries : Type 0 where
  -- `width * scale + 0.5` as an int32_t, and the product of two scales
  pub scaled : ℕ → ℕ → ℕ
  pub combined : ℕ → ℕ → ℕ
  -- an image's surface painted on a surface with the operator SOURCE, at an offset, and within a
  -- rectangle if there is one
  pub paint : Surface → Surface → Point → Option Rect → Surface
  -- a surface painted with a scale over memory of a width, height and stride
  pub paint_scaled : Surface → ℕ → ℕ → ℕ → ℕ → Bytes → Bytes

-- The fields of an instance that a flush reads and sets; a callback is its function's number.
pub record Instance : Type 0 where
  pub instance_graphics : ℕ
  pub graphics_in_progress : Bool
  pub graphics_ccb : Option ℕ
  pub graphics_ccb_ml : ℕ

pub data Status : Type 0 where
  ok pending bad_resource in_progress : Status

-- The result of a flush: the Boolean is that the callback has been posted to the current loop. A
-- copy may read or write outside of the memory that was allocated.
pub data Flushed : Type 0 where
  outside : Flushed
  flushed : Instance → Registry Picture → Bool → Status → Flushed

-- An assignment through the pointer to the structure, while the resource's count may have changed.
abbrev pub write : ℕ → Graphics2d → Registry Picture → Registry Picture
write h d g = elim (find h g) [ none ↦ g | some r ↦ store h (record r { body = graphics d }) g ]

abbrev pub task_image : PaintTask → ℕ
task_image (gpt_paint_id i ofs src) = i
task_image (gpt_replace_contents i) = i

-- The end of the two functions that put a task on the list. The image is referenced while the
-- context is locked, and any resource may be given for it.
abbrev pub append_task : ℕ → PaintTask → Res Picture → Registry Picture → Registry Picture
append_task h t r g =
    let d = as_graphics r.body in
    (release h
      (write h (record d { task_list = d.task_list ++ (t ∷ []) }) (add_ref (task_image t) g).0)).0

unfoldable pub add_task : ℕ → PaintTask → Registry Picture → Option (Registry Picture)
unfolding with_resource
add_task h t g = with_resource graphics_type h g g (append_task h t)

abbrev pub point_or : Option Point → Point
point_or none = record { x = 0; y = 0 }
point_or (some p) = p

unfoldable pub paint_image_data :
    ℕ → ℕ → Option Point → Option Rect → Registry Picture → Option (Registry Picture)
unfolding add_task
paint_image_data h i top_left src g = add_task h (gpt_paint_id i (point_or top_left) src) g

unfoldable pub replace_contents : ℕ → ℕ → Registry Picture → Option (Registry Picture)
unfolding add_task
replace_contents h i g = add_task h (gpt_replace_contents i) g

unfoldable pub is_graphics2d : ℕ → Registry Picture → Bool
is_graphics2d h g = get_type h g == graphics_type

-- The exchange of the memory and the surface of a context and of an image, as the source tests it.
unfoldable pub exchange : Graphics2d → ImageData → Graphics2d × ImageData
exchange d i =
    if i.width == d.canvas_width || i.height == d.canvas_height
    then (record d { canvas = i.surface }, record i { surface = d.canvas })
    else (d, i)

-- `memcpy`; `none` if it reads or writes outside.
unfoldable pub memcpy : Bytes → Bytes → ℕ → Option Bytes
memcpy dst src n =
    if leb n (length src) && leb n (length dst) then some (take n src ++ drop n dst) else none

-- The end of a flush, after the tasks.
abbrev pub conclude : ℕ → Option ℕ → Instance → Registry Picture → Option Graphics2d → Flushed
conclude h callback pp_i g none = outside
conclude h callback pp_i g (some d) =
    let g' = (release h (write h d g)).0 in
    elim callback [
      | none ↦ flushed pp_i g' false ok
      | some f ↦ flushed pp_i g' (if pp_i.instance_graphics == h then false else true) pending
    ]

abbrev pub bind_callback : ℕ → Option ℕ → ℕ → Instance → Instance
bind_callback h callback ml pp_i =
    if pp_i.instance_graphics == h
    then record pp_i { graphics_ccb = callback; graphics_ccb_ml = ml; graphics_in_progress = true }
    else pp_i

-- the exact copy of "scale image"
unfoldable pub copied : Graphics2d → Option Graphics2d
unfolding memcpy
copied d = do
  copy ← memcpy d.second_buffer d.canvas.pixels (d.canvas_stride * d.canvas_height % 2 ^ 32)
  some (record d { second_buffer = copy })

module _ (lib : Libraries) where
  abbrev pub painted : Graphics2d → ImageData → Point → Option Rect → Graphics2d
  painted d i ofs src = record d { canvas = lib.paint d.canvas i.surface ofs src }

  -- A task: an image that cannot be acquired is passed over, and its reference is kept.
  unfoldable pub run_task :
      PaintTask → Graphics2d → Registry Picture → Option (Graphics2d × Registry Picture)
  unfolding with_resource exchange
  run_task (gpt_paint_id i ofs src) d g =
      with_resource image_type i g (d, g)
        (λ r g'. (painted d (as_image r.body) ofs src, (unref i (release i g').0).0))
  run_task (gpt_replace_contents i) d g =
      with_resource image_type i g (d, g)
        (λ r g'.
          let both = exchange d (as_image r.body) in
          (both.0, (unref i (finish i (λ _. image both.1) r g')).0))

  unfoldable pub run_tasks :
      List PaintTask → Graphics2d → Registry Picture → Option (Graphics2d × Registry Picture)
  unfolding run_task
  run_tasks [] d g = some (d, g)
  run_tasks (t ∷ ts) d g = do (d', g') ← run_task t d g; run_tasks ts d' g'

  -- "scale image"
  unfoldable pub scale_image : Graphics2d → Option Graphics2d
  unfolding copied
  scale_image d =
      if d.scaled_width == d.canvas_width && d.scaled_height == d.canvas_height
      then copied d
      else some (record d {
        second_buffer =
            lib.paint_scaled d.canvas d.scale d.scaled_width d.scaled_height d.scaled_stride
              d.second_buffer;
      })

  abbrev pub perform : ℕ → Option ℕ → Instance → Graphics2d → Registry Picture → Option Flushed
  perform h callback pp_i d0 g = do
    (d, g') ← run_tasks d0.task_list (record d0 { task_list = [] }) g
    some (conclude h callback pp_i g' (scale_image d))

  abbrev pub flush_acquired :
      ℕ → Option ℕ → ℕ → Instance → Res Picture → Registry Picture → Option Flushed
  flush_acquired h callback ml pp_i r g =
      if pp_i.graphics_in_progress
      then some (flushed pp_i (release h g).0 false in_progress)
      else perform h callback (bind_callback h callback ml pp_i) (as_graphics r.body) g

  -- The instance is that of the context. `none` is that a lock is waited for.
  unfoldable pub flush : ℕ → Option ℕ → ℕ → Instance → Registry Picture → Option Flushed
  unfolding with_resource run_tasks scale_image
  flush h callback ml pp_i g = do
    result ←
        with_resource graphics_type h g (some (flushed pp_i g false bad_resource))
          (flush_acquired h callback ml pp_i)
    result
