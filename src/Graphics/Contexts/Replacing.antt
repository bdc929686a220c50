-- ===== src/Graphics/Contexts/Replacing.antt =====
-- What the replacement of the contents of a context of src/ppb_graphics2d.c does to its sizes.
use freshplayerplugin.Base.{
  ℕ, ◌*◌, ◌%◌, ◌^◌, ◌<◌, ◌≡◌, refl, sym, ap, ◌∙◌, true, false, ◌&&◌, ◌||◌, Option, none, some, List,
  [], ◌∷◌, ◌++◌, ◌==◌, leb, Bytes, length, take, drop, zero, suc, Bool-cases, inl, inr, arith,
}
use freshplayerplugin.Resource.{Registry}
use freshplayerplugin.Graphics.{
  Surface, ImageData, Point, Rect, PaintTask, gpt_paint_id, gpt_replace_contents, Graphics2d,
  Picture,
}
use freshplayerplugin.Graphics.Contexts.Immediate.{apply, replay, uses, Holds}
use freshplayerplugin.Graphics.Contexts.Replay.{run_tasks-replay}
use freshplayerplugin.Graphics.Contexts.{
  Libraries, exchange, memcpy, run_tasks, copied, scale_image,
}

-- the number of bytes that the copy of an unscaled context takes
abbrev pub copy_size : Graphics2d → ℕ
copy_size d = d.canvas_stride * d.canvas_height % 2 ^ 32

abbrev pub IsUnscaled : Graphics2d → Type 0
IsUnscaled d = (d.scaled_width ≡ d.canvas_width) × (d.scaled_height ≡ d.canvas_height)

-- An image that the source would take for the contents has as much memory as the context.
abbrev pub Interchanges : Graphics2d → ImageData → Type 0
Interchanges d b =
    (b.width == d.canvas_width || b.height == d.canvas_height) ≡ true
    → length b.surface.pixels ≡ copy_size d

-- The memory of a context is as large as its sizes say.
abbrev pub IsSized : Graphics2d → Type 0
IsSized d = (length d.canvas.pixels ≡ copy_size d) × (length d.second_buffer ≡ copy_size d)

copied_small : (d : Graphics2d) → length d.canvas.pixels < copy_size d → copied d ≡ none
unfolding copied memcpy
copied_small d h =
    let less_than : leb (copy_size d) (length d.canvas.pixels) ≡ false = ground arith in
    rw less_than refl

take-length : {A : Type 0} (xs : List A) (n : ℕ) → length xs ≡ n → take n xs ≡ xs
take-length [] zero e = refl
take-length [] (suc n) e = absurd (omega arith)
take-length (x ∷ xs) zero e = absurd (omega arith)
take-length (x ∷ xs) (suc n) e = ap (◌∷◌ x) (take-length xs n (omega arith))

drop-length : {A : Type 0} (xs : List A) (n : ℕ) → length xs ≡ n → drop n xs ≡ []
drop-length [] zero e = refl
drop-length [] (suc n) e = absurd (omega arith)
drop-length (x ∷ xs) zero e = absurd (omega arith)
drop-length (x ∷ xs) (suc n) e = drop-length xs n (omega arith)

append_nil : {A : Type 0} (xs : List A) → xs ++ [] ≡ xs
append_nil [] = refl
append_nil (x ∷ xs) = ap (◌∷◌ x) (append_nil xs)

memcpy_whole :
    (dst src : Bytes) (n : ℕ) → length src ≡ n → length dst ≡ n → memcpy dst src n ≡ some src
unfolding memcpy
memcpy_whole dst src n s t =
    let all : take n src ++ drop n dst ≡ src =
      rw (take-length src n s, drop-length dst n t) (append_nil src) in
    rw all (ground arith)

copied_whole :
    (d : Graphics2d) → IsSized d → copied d ≡ some (record d { second_buffer = d.canvas.pixels })
unfolding copied
copied_whole d (c, s) = rw (memcpy_whole d.second_buffer d.canvas.pixels (copy_size d) c s) refl

scale_image-copied :
    (lib : Libraries) (d : Graphics2d) → IsUnscaled d → scale_image lib d ≡ copied d
unfolding scale_image
scale_image-copied lib d (w, h) =
    let same : (d.scaled_width == d.canvas_width && d.scaled_height == d.canvas_height) ≡ true =
      ground arith in
    rw same refl

-- What a task keeps of a context and of the images.
abbrev pub SameSizes : Graphics2d → Graphics2d → Type 0
SameSizes d d' =
    (d'.canvas_width ≡ d.canvas_width)
    × (d'.canvas_height ≡ d.canvas_height)
    × (copy_size d' ≡ copy_size d)
    × (d'.scaled_width ≡ d.scaled_width)
    × (d'.scaled_height ≡ d.scaled_height)

abbrev pub Suits : Graphics2d → (ℕ → ImageData) → Type 0
Suits d images = IsSized d × ((j : ℕ) → Interchanges d (images j))

module _ (lib : Libraries)
    (keeps : (a b : Surface) (ofs : Point) (src : Option Rect)
      → length (lib.paint a b ofs src).pixels ≡ length a.pixels) where
  apply-Suits :
      (t : PaintTask) (d : Graphics2d) (images : ℕ → ImageData)
      → Suits d images
      → Suits (apply lib t d images).0 (apply lib t d images).1
        × SameSizes d (apply lib t d images).0
  unfolding apply exchange
  apply-Suits (gpt_paint_id i ofs src) d images ((c, s), inter) =
      (((keeps d.canvas (images i).surface ofs src ∙ c, s), inter), (refl, refl, refl, refl, refl))
  apply-Suits (gpt_replace_contents i) d images ((c, s), inter) =
      elim (Bool-cases
        ((images i).width == d.canvas_width || (images i).height == d.canvas_height)) [
          | inl e ↦ rw e (
            (
              (inter i e, s),
              λ j. elim (Bool-cases (i == j)) [ inl k ↦ rw k (λ _. c) | inr k ↦ rw k (inter j) ],
            ),
            (refl, refl, refl, refl, refl),
          )
          | inr n ↦ rw n (
            (
              (c, s),
              λ j. elim (Bool-cases (i == j)) [ inl k ↦ rw k (inter i) | inr k ↦ rw k (inter j) ],
            ),
            (refl, refl, refl, refl, refl),
          )
        ]

  replay-Sized :
      (ts : List PaintTask) (d : Graphics2d) (images : ℕ → ImageData)
      → Suits d images
      → IsUnscaled d
      → IsSized (replay lib ts d images).0 × IsUnscaled (replay lib ts d images).0
  unfolding replay
  replay-Sized [] d images suits plain = (suits.0, plain)
  replay-Sized (t ∷ ts) d images suits plain =
      let next : Graphics2d × (ℕ → ImageData) = apply lib t d images in
      let (suits', (w, h, n, sw, sh)) = apply-Suits t d images suits in
      replay-Sized ts next.0 next.1 suits' (sw ∙ plain.0 ∙ sym w, sh ∙ plain.1 ∙ sym h)

  -- On a context without scaling, whose memory has its sizes, with images that have as much memory
  -- wherever the source would exchange the two, and with paint calls that keep the size of a
  -- surface, the copy at the end of a flush stays inside of the memory, and makes the second buffer
  -- just the contents of the context.
  pub scale_image-replay :
      (ts : List PaintTask) (d : Graphics2d) (images : ℕ → ImageData)
      → Suits d images
      → IsUnscaled d
      → let d' = (replay lib ts d images).0 in
        scale_image lib d' ≡ some (record d' { second_buffer = d'.canvas.pixels })
  scale_image-replay ts d images suits plain =
      let d' : Graphics2d = (replay lib ts d images).0 in
      let (sized, unscaled) = replay-Sized ts d images suits plain in
      scale_image-copied lib d' unscaled ∙ copied_whole d' sized

-- A flush exchanges the contents also with an image that has only the width, or only the height, of
-- the context. If its memory is smaller than the context's, the copy at the end of the flush of an
-- unscaled context reads outside of it.
pub replace_contents-outside :
    (lib : Libraries) (i : ℕ) (d : Graphics2d) (others : ℕ → Option ℕ) (images : ℕ → ImageData)
    (g : Registry Picture)
    → Holds others (λ j. uses j (gpt_replace_contents i ∷ [])) images g
    → IsUnscaled d
    → ((images i).width == d.canvas_width || (images i).height == d.canvas_height) ≡ true
    → length (images i).surface.pixels < copy_size d
    → (d' : Graphics2d) × (g' : Registry Picture) × (run_tasks lib (gpt_replace_contents i ∷ []) d g
        ≡ some (d', g'))
      × (scale_image lib d' ≡ none)
unfolding replay apply exchange
replace_contents-outside lib i d others images g holds plain taken small =
    let (g', is, after, frame) =
      run_tasks-replay lib (gpt_replace_contents i ∷ []) d others images g holds in
    (
      record d { canvas = (images i).surface },
      g',
      rw taken at is,
      scale_image-copied lib (record d { canvas = (images i).surface }) plain
          ∙ copied_small (record d { canvas = (images i).surface }) small,
    )
