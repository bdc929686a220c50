-- ===== src/Graphics/Contexts/Immediate.antt =====
-- Painting on a context of src/ppb_graphics2d.c at once, with no list of tasks.
use freshplayerplugin.Base.{
  ℕ, suc, ◌+◌, ◌≡◌, false, Option, none, some, List, [], ◌∷◌, ◌==◌, if◌then◌else◌, pos,
}
use freshplayerplugin.Resource.{Res, Registry, find}
use freshplayerplugin.Graphics.{
  ImageData, PaintTask, gpt_paint_id, gpt_replace_contents, Graphics2d, Picture, image, image_type,
}
use freshplayerplugin.Graphics.Contexts.{Libraries, task_image, exchange, painted}

-- A task that is done at once, on the context and the images by their handles.
abbrev pub put_image : ℕ → ImageData → (ℕ → ImageData) → ℕ → ImageData
put_image i b images j = if i == j then b else images j

unfoldable pub apply :
    Libraries → PaintTask → Graphics2d → (ℕ → ImageData) → Graphics2d × (ℕ → ImageData)
apply lib (gpt_paint_id i ofs src) d images = (painted lib d (images i) ofs src, images)
apply lib (gpt_replace_contents i) d images =
    let both = exchange d (images i) in (both.0, put_image i both.1 images)

unfoldable pub replay :
    Libraries → List PaintTask → Graphics2d → (ℕ → ImageData) → Graphics2d × (ℕ → ImageData)
unfolding apply
replay lib [] d images = (d, images)
replay lib (t ∷ ts) d images = let next = apply lib t d images in replay lib ts next.0 next.1

-- How many tasks are for an image.
unfoldable pub uses : ℕ → List PaintTask → ℕ
uses j [] = 0
uses j (t ∷ ts) = (if task_image t == j then 1 else 0) + uses j ts

-- An image that has `m` more references than one and those of its `n` tasks; `none` is that it is
-- not known, and has no tasks.
abbrev pub Tracked : Option ℕ → ℕ → ImageData → Option (Res Picture) → Type 0
Tracked none n b o = n ≡ 0
Tracked (some m) n b none = ⊥
Tracked (some m) n b (some q) =
    (q.body ≡ image b)
    × (q.resource_type ≡ image_type)
    × (q.locked ≡ false)
    × (q.ref_cnt ≡ pos (suc (m + n)))

abbrev pub Holds : (ℕ → Option ℕ) → (ℕ → ℕ) → (ℕ → ImageData) → Registry Picture → Type 0
Holds others n images g = (j : ℕ) → Tracked (others j) (n j) (images j) (find j g)
