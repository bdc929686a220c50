-- ===== src/Graphics/Contexts/Replay.antt =====
-- The tasks of a context of src/ppb_graphics2d.c against painting at once, with no list of tasks.
use freshplayerplugin.Base.{
  ℕ, suc, ◌+◌, ◌≡◌, refl, ap, ◌∙◌, false, Option, none, some, List, [], ◌∷◌, ◌==◌, if◌then◌else◌,
  pos, decr, Bool-cases, inl, inr, arith,
}
use mathlib.Core.Path.{subst}
use freshplayerplugin.Resource.{Res, Registry, find, store, release, unref}
use freshplayerplugin.Resource.Find.{acquired, less, find-unref}
use freshplayerplugin.Resource.Access.{finish}
use freshplayerplugin.Resource.Access.Effects.{
  IsFree, with_resource-free, find-finish, find-release_free,
}
use freshplayerplugin.Graphics.{
  ImageData, Point, Rect, PaintTask, gpt_paint_id, gpt_replace_contents, Graphics2d, Picture, image,
  image_type, as_image,
}
use freshplayerplugin.Graphics.Contexts.Immediate.{put_image, apply, replay, uses, Tracked, Holds}
use freshplayerplugin.Graphics.Contexts.{
  Libraries, task_image, exchange, painted, run_task, run_tasks,
}

one_less :
    (m n : ℕ) (b c : ImageData) (q : Res Picture)
    → Tracked (some m) (suc n) b (some q)
    → Tracked (some m) n c (less (some (record q { body = image c })))
one_less m n b c q (body, typed, free, counted) =
    let fewer : decr q.ref_cnt ≡ pos (suc (m + n)) =
      ap decr (counted ∙ ap (λ k. pos (suc k)) (plus_suc m n)) in
    rw fewer (refl, typed, free, refl)
  where
    plus_suc : (m n : ℕ) → m + suc n ≡ suc (m + n)
    plus_suc m n = omega arith

-- What one task leaves of the table.
Passes : ℕ → ImageData → Res Picture → Registry Picture → Registry Picture → Type 0
Passes i b q g g' =
    (j : ℕ) → find j g' ≡ (if i == j then less (some (record q { body = image b })) else find j g)

Passes-others :
    (i : ℕ) (b : ImageData) (q : Res Picture) (g g' : Registry Picture)
    → Passes i b q g g'
    → (j : ℕ) → (i == j) ≡ false
    → find j g' ≡ find j g
unfolding Passes
Passes-others i b q g g' p j n = p j ∙ rw n refl

Holds-step :
    (i m : ℕ) (b : ImageData) (q : Res Picture) (others : ℕ → Option ℕ) (u : ℕ → ℕ)
    (images images' : ℕ → ImageData) (g g' : Registry Picture)
    → others i ≡ some m
    → Tracked (some m) (suc (u i)) (images i) (some q)
    → ((j : ℕ) → images' j ≡ (if i == j then b else images j))
    → Passes i b q g g'
    → Holds others (λ j. (if i == j then 1 else 0) + u j) images g
    → Holds others u images' g'
unfolding Passes
Holds-step i m b q others u images images' g g' o t same passes holds j =
    rw (passes j, same j)
      (elim (Bool-cases (i == j)) [
        | inl e ↦
            let ij : i ≡ j = ground arith in
            rw e (
              subst (λ k. Tracked (others k) (u k) b (less (some (record q { body = image b })))) ij
                (rw o (one_less m (u i) (images i) b q t)))
        | inr n ↦
            rw n (subst (λ k. Tracked (others j) k (images j) (find j g)) (ground arith) (holds j))
      ])

-- The entry of an image that has a task.
Tracked-entry :
    (o : Option ℕ) (n : ℕ) (b : ImageData) (e : Option (Res Picture))
    → Tracked o (suc n) b e
    → (m : ℕ) × (q : Res Picture) × (o ≡ some m)
      × (e ≡ some q)
      × Tracked (some m) (suc n) b (some q)
Tracked-entry none n b e t = absurd (ground arith)
Tracked-entry (some m) n b none t = absurd t
Tracked-entry (some m) n b (some q) t = (m, q, refl, refl, t)

IsFree-Tracked :
    (i m n : ℕ) (b : ImageData) (q : Res Picture) (g : Registry Picture)
    → find i g ≡ some q
    → Tracked (some m) n b (some q)
    → IsFree image_type i q g
IsFree-Tracked i m n b q g there (body, typed, free, counted) = record {
  there = there;
  typed = typed;
  free = free;
  counted = rw counted refl;
}

Passes-paint :
    (i : ℕ) (b : ImageData) (q : Res Picture) (g : Registry Picture)
    → IsFree image_type i q g
    → q.body ≡ image b
    → Passes i b q g (unref i (release i (store i (acquired q) g)).0).0
unfolding Passes
Passes-paint i b q g free is j =
    let r : Registry Picture = (release i (store i (acquired q) g)).0 in
    find-unref i j r
    ∙ rw
        (
          find-release_free image_type i i q g free,
          find-release_free image_type i j q g free,
          free.there,
          ← is,
        )
        refl

Passes-replace :
    (i : ℕ) (b : ImageData) (q : Res Picture) (g : Registry Picture)
    → IsFree image_type i q g
    → Passes i b q g (unref i (finish i (λ _. image b) (acquired q) (store i (acquired q) g))).0
unfolding Passes
Passes-replace i b q g free j =
    let r : Registry Picture = finish i (λ _. image b) (acquired q) (store i (acquired q) g) in
    find-unref i j r
    ∙ ground (
      arith,
      find-finish image_type i i (λ _. image b) q g free,
      find-finish image_type i j (λ _. image b) q g free,
    )

-- The entry of the image of the first task.
first_entry :
    (i : ℕ) (u : ℕ → ℕ) (images : ℕ → ImageData) (others : ℕ → Option ℕ) (g : Registry Picture)
    → Holds others (λ j. (if i == j then 1 else 0) + u j) images g
    → (m : ℕ) × (q : Res Picture) × (others i ≡ some m)
      × (find i g ≡ some q)
      × Tracked (some m) (suc (u i)) (images i) (some q)
first_entry i u images others g holds =
    Tracked-entry (others i) (u i) (images i) (find i g)
      (subst (λ k. Tracked (others i) k (images i) (find i g)) (ground arith) (holds i))

module _ (lib : Libraries) (others : ℕ → Option ℕ) (u : ℕ → ℕ) (images : ℕ → ImageData)
    (g : Registry Picture) where
  -- What a task does, when its image is known.
  Does : PaintTask → Graphics2d → Type 0
  Does t d =
      let next = apply lib t d images in
      (g' : Registry Picture) × (run_task lib t d g ≡ some (next.0, g'))
      × Holds others u next.1 g'
      × ((j : ℕ) → (task_image t == j) ≡ false → find j g' ≡ find j g)

  run_task-paint :
      (i : ℕ) (ofs : Point) (src : Option Rect) (d : Graphics2d)
      → Holds others (λ j. (if i == j then 1 else 0) + u j) images g
      → Does (gpt_paint_id i ofs src) d
  unfolding Does run_task apply
  run_task-paint i ofs src d holds =
      let (m, q, o, there, t) = first_entry i u images others g holds in
      let free : IsFree image_type i q g = IsFree-Tracked i m (suc (u i)) (images i) q g there t in
      let g' : Registry Picture = (unref i (release i (store i (acquired q) g)).0).0 in
      (
        g',
        with_resource-free image_type i q g (d, g)
              (λ r x. (painted lib d (as_image r.body) ofs src, (unref i (release i x).0).0)) free
            ∙ ap (λ p. some (painted lib d (as_image p) ofs src, g')) t.0,
        Holds-step i m (images i) q others u images images g g' o t
            (λ j. elim (Bool-cases (i == j)) [
              | inl e ↦ let ij : i ≡ j = ground arith in rw (e, ij) refl
              | inr n ↦ rw n refl
            ])
            (Passes-paint i (images i) q g free t.0) holds,
        Passes-others i (images i) q g g' (Passes-paint i (images i) q g free t.0),
      )

  run_task-replace :
      (i : ℕ) (d : Graphics2d)
      → Holds others (λ j. (if i == j then 1 else 0) + u j) images g
      → Does (gpt_replace_contents i) d
  unfolding Does run_task apply
  run_task-replace i d holds =
      let (m, q, o, there, t) = first_entry i u images others g holds in
      let free : IsFree image_type i q g = IsFree-Tracked i m (suc (u i)) (images i) q g there t in
      let both : Graphics2d × ImageData = exchange d (images i) in
      let g' : Registry Picture =
        (unref i (finish i (λ _. image both.1) (acquired q) (store i (acquired q) g))).0 in
      (
        g',
        with_resource-free image_type i q g (d, g)
              (λ r x.
                let two : Graphics2d × ImageData = exchange d (as_image r.body) in
                (two.0, (unref i (finish i (λ _. image two.1) r x)).0))
              free
            ∙ ap
                (λ p.
                  let two : Graphics2d × ImageData = exchange d (as_image p) in
                  some (
                    two.0,
                    (unref i (finish i (λ _. image two.1) (acquired q) (store i (acquired q) g))).0,
                  ))
                t.0,
        Holds-step i m both.1 q others u images (put_image i both.1 images) g g' o t (λ j. refl)
            (Passes-replace i both.1 q g free) holds,
        Passes-others i both.1 q g g' (Passes-replace i both.1 q g free),
      )

  run_task-Does :
      (t : PaintTask) (d : Graphics2d)
      → Holds others (λ j. (if task_image t == j then 1 else 0) + u j) images g
      → Does t d
  run_task-Does (gpt_paint_id i ofs src) d holds = run_task-paint i ofs src d holds
  run_task-Does (gpt_replace_contents i) d holds = run_task-replace i d holds

-- The tasks of a context, run for images that are there, that no thread is inside of, and that
-- have a reference for each of their tasks and one more, come to an end with the same context and
-- the same images as painting at once in the order of the tasks. Each image has lost just the
-- references of its tasks, and is still there; what has no task is as it was.
pub run_tasks-replay :
    (lib : Libraries) (ts : List PaintTask) (d : Graphics2d) (others : ℕ → Option ℕ)
    (images : ℕ → ImageData) (g : Registry Picture)
    → Holds others (λ j. uses j ts) images g
    → (g' : Registry Picture) × (run_tasks lib ts d g ≡ some ((replay lib ts d images).0, g'))
      × Holds others (λ _. 0) (replay lib ts d images).1 g'
      × ((j : ℕ) → uses j ts ≡ 0 → find j g' ≡ find j g)
unfolding run_tasks replay uses Does
run_tasks-replay lib [] d others images g holds = (g, refl, holds, λ j none. refl)
run_tasks-replay lib (t ∷ ts) d others images g holds =
    let (g1, is1, holds1, frame1) = run_task-Does lib others (λ j. uses j ts) images g t d holds in
    let next : Graphics2d × (ℕ → ImageData) = apply lib t d images in
    let (g2, is2, holds2, frame2) = run_tasks-replay lib ts next.0 others next.1 g1 holds1 in
    (g2, rw (is1, is2) refl, holds2, λ j unused. frame2 j (ground arith) ∙ frame1 j (ground arith))
