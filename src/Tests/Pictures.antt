-- ===== src/Tests/Pictures.antt =====
-- Images and a graphics context of src/ppb_image_data.c and src/ppb_graphics2d.c, of one pixel each.
use freshplayerplugin.Base.{
  ℕ, suc, ◌≡◌, refl, false, none, some, Option, List, [], ◌∷◌, ◌==◌, if◌then◌else◌, pos, Bytes,
  length, Bool-cases, inl, inr, arith,
}
use freshplayerplugin.Base.Assoc.{lookup}
use freshplayerplugin.Resource.{Res, Registry, empty, find}
use freshplayerplugin.Resource.Find.{new_res}
use freshplayerplugin.Graphics.{
  Surface, ImageData, Point, Rect, PaintTask, gpt_paint_id, gpt_replace_contents, Graphics2d,
  Picture, image, graphics, image_type, graphics_type, no_graphics,
}
use freshplayerplugin.Graphics.Contexts.{Libraries, Instance, run_tasks, scale_image}
use freshplayerplugin.Graphics.Contexts.Immediate.{replay, uses, Holds}
use freshplayerplugin.Graphics.Contexts.Replay.{run_tasks-replay}
use freshplayerplugin.Graphics.Contexts.Replacing.{
  IsUnscaled, Suits, scale_image-replay, replace_contents-outside,
}

-- One picture laid over another.
over : Bytes → Bytes → Bytes
over [] b = []
over (x ∷ a) [] = x ∷ a
over (x ∷ a) (y ∷ b) = y ∷ over a b

length-over : (a b : Bytes) → length (over a b) ≡ length a
unfolding over
length-over [] b = refl
length-over (x ∷ a) [] = refl
length-over (x ∷ a) (y ∷ b) = omega (arith, length-over a b)

abbrev lay : Surface → Surface → Point → Option Rect → Surface
lay a b ofs src = record a { pixels = over a.pixels b.pixels }

abbrev simple : Libraries
simple = record {
  scaled = λ w scale. w;
  combined = λ a b. a;
  paint = lay;
  paint_scaled = λ s scale w h stride b. b;
}

simple-keeps :
    (a b : Surface) (ofs : Point) (src : Option Rect)
    → length (lay a b ofs src).pixels ≡ length a.pixels
simple-keeps a b ofs src = length-over a.pixels b.pixels

abbrev surface : Bytes → Surface
surface b = record { pixels = b; surface_width = 1; surface_height = 1; surface_stride = 4 }

abbrev corner : Point
corner = record { x = 0; y = 0 }

abbrev tasks : List PaintTask
tasks = gpt_paint_id 2 corner none ∷ gpt_replace_contents 2 ∷ []

abbrev pixel : Graphics2d
pixel = record no_graphics {
  canvas_width = 1;
  canvas_height = 1;
  canvas_stride = 4;
  scaled_width = 1;
  scaled_height = 1;
  scaled_stride = 4;
  canvas = surface (0 ∷ 0 ∷ 0 ∷ 0 ∷ []);
  second_buffer = 0 ∷ 0 ∷ 0 ∷ 0 ∷ [];
  task_list = tasks;
}

abbrev dot : ImageData
dot = record {
  width = 1;
  height = 1;
  stride = 4;
  format = 0;
  surface = surface (1 ∷ 2 ∷ 3 ∷ 255 ∷ []);
}

-- An image as wide as the context, with no rows.
abbrev line : ImageData
line = record { width = 1; height = 0; stride = 4; format = 0; surface = surface [] }

abbrev context : Res Picture
context = new_res (graphics pixel) graphics_type 1 1

-- The context is the resource 1, and an image with `n` tasks the resource 2.
abbrev table : ImageData → ℕ → Registry Picture
table b n = record {
  res_tbl =
      (1, context) ∷ (2, record (new_res (image b) image_type 1 2) { ref_cnt = pos (suc n) }) ∷ [];
  res_tbl_next = 3;
  destructors = none;
}

abbrev owners : ℕ → Option ℕ
owners j = if 2 == j then some 0 else none

abbrev only : ImageData → ℕ → ImageData
only b j = b

table-Holds : Holds owners (λ j. uses j tasks) (only dot) (table dot 2)
unfolding lookup uses
table-Holds j = elim (Bool-cases (2 == j)) [
  | inl e ↦ rw e (let two : 2 ≡ j = ground arith in rw (← two) (refl, refl, refl, refl))
  | inr n ↦ rw n refl
]

run_tasks-replay_example :
    (g' : Registry Picture) × (run_tasks simple tasks pixel (table dot 2)
      ≡ some ((replay simple tasks pixel (only dot)).0, g'))
    × Holds owners (λ _. 0) (replay simple tasks pixel (only dot)).1 g'
    × ((j : ℕ) → uses j tasks ≡ 0 → find j g' ≡ find j (table dot 2))
run_tasks-replay_example =
    run_tasks-replay simple tasks pixel owners (only dot) (table dot 2) table-Holds

pixel-Suits : Suits pixel (only dot)
pixel-Suits = ((refl, refl), λ j e. refl)

pixel-IsUnscaled : IsUnscaled pixel
pixel-IsUnscaled = (refl, refl)

scale_image-replay_example :
    let d' : Graphics2d = (replay simple tasks pixel (only dot)).0 in
    scale_image simple d' ≡ some (record d' { second_buffer = d'.canvas.pixels })
scale_image-replay_example =
    scale_image-replay simple simple-keeps tasks pixel (only dot) pixel-Suits pixel-IsUnscaled

line-Holds : Holds owners (λ j. uses j (gpt_replace_contents 2 ∷ [])) (only line) (table line 1)
unfolding lookup uses
line-Holds j = elim (Bool-cases (2 == j)) [
  | inl e ↦ rw e (let two : 2 ≡ j = ground arith in rw (← two) (refl, refl, refl, refl))
  | inr n ↦ rw n refl
]

replace_contents-outside_example :
    (d' : Graphics2d) × (g' : Registry Picture) × (run_tasks simple
        (gpt_replace_contents 2 ∷ [])
        pixel
        (table line 1)
      ≡ some (d', g'))
    × (scale_image simple d' ≡ none)
replace_contents-outside_example =
    replace_contents-outside simple 2 pixel owners (only line) (table line 1) line-Holds
      pixel-IsUnscaled refl (omega arith)

abbrev plugin : Instance
plugin = record {
  instance_graphics = 1;
  graphics_in_progress = false;
  graphics_ccb = none;
  graphics_ccb_ml = 0;
}

abbrev no_images : Registry Picture
no_images = empty
