-- ===== src/UrlRequest/PostData/Balance.antt =====
-- The references to files that the body of a request of src/ppb_url_request_info.c holds.
use freshplayerplugin.Base.{
  ℕ, zero, suc, ◌+◌, ◌≡◌, refl, ap, ◌∙◌, false, Option, none, some, List, [], ◌∷◌, ◌==◌,
  if◌then◌else◌, not, ◌||◌, ltb, length, decr-incr, incr_positive, is_nonpos, arith,
}
use freshplayerplugin.Resource.{Res, Registry, find}
use freshplayerplugin.Resource.Find.{find-add_ref, find-unref, more, less}
use freshplayerplugin.UrlRequest.{PostItem}
use freshplayerplugin.UrlRequest.PostData.{
  take_ref, copy_item, duplicate_items, post_data_duplicate, drop_ref, free_items, post_data_free,
}

unfoldable pub times {ℓ} : {X : Type ℓ} → ℕ → (X → X) → X → X
times zero f x = x
times (suc k) f x = times k f (f x)

times_add : {X : Type 0} (m n : ℕ) (f : X → X) (x : X) → times n f (times m f x) ≡ times (m + n) f x
unfolding times
times_add zero n f x = ap (λ k. times k f x) (plus_zero n)
  where
    plus_zero : (n : ℕ) → n ≡ 0 + n
    plus_zero n = omega arith
times_add (suc m) n f x = times_add m n f (f x) ∙ ap (λ k. times k f x) (plus_suc m n)
  where
    plus_suc : (m n : ℕ) → suc (m + n) ≡ suc m + n
    plus_suc m n = omega arith

times_comm : {X : Type 0} (k : ℕ) (f : X → X) (x : X) → times k f (f x) ≡ f (times k f x)
unfolding times
times_comm zero f x = refl
times_comm (suc k) f x = times_comm k f (f x)

-- How many slices of the file the items hold.
abbrev pub slice_of : ℕ → PostItem → ℕ
slice_of j i = if i.file_ref == 0 then 0 else if i.file_ref == j then 1 else 0

unfoldable pub slices : ℕ → List PostItem → ℕ
slices j [] = 0
slices j (i ∷ is) = slice_of j i + slices j is

-- The items that a copy keeps.
unfoldable pub nonempty_items : List PostItem → List PostItem
nonempty_items [] = []
nonempty_items (i ∷ is) =
    if not (i.file_ref == 0) || ltb 0 (length i.content)
    then i ∷ nonempty_items is
    else nonempty_items is

copy_item-nonempty :
    (i : PostItem) (rest : List PostItem)
    → copy_item i rest
      ≡ (if not (i.file_ref == 0) || ltb 0 (length i.content) then i ∷ rest else rest)
copy_item-nonempty i rest = ground arith

module _ {A : Type 0} where
  -- A resource that is there has a positive count.
  abbrev pub IsLive : Option (Res A) → Type 0
  IsLive none = Unit
  IsLive (some r) = is_nonpos r.ref_cnt ≡ false

  less-more : (o : Option (Res A)) → IsLive o → less (more o) ≡ o
  less-more none h = refl
  less-more (some r) h = ground (arith, decr-incr r.ref_cnt)

  more-IsLive : (o : Option (Res A)) → IsLive o → IsLive (more o)
  more-IsLive none h = tt
  more-IsLive (some r) h = incr_positive r.ref_cnt h

  times-IsLive : (k : ℕ) (o : Option (Res A)) → IsLive o → IsLive (times k more o)
  unfolding times
  times-IsLive zero o h = h
  times-IsLive (suc k) o h = times-IsLive k (more o) (more-IsLive o h)

  times-less-more : (k : ℕ) (o : Option (Res A)) → IsLive o → times k less (times k more o) ≡ o
  unfolding times
  times-less-more zero o h = refl
  times-less-more (suc k) o h =
      rw (times_comm k more o, less-more (times k more o) (times-IsLive k o h))
        (times-less-more k o h)

  find-take_ref :
      (i : PostItem) (j : ℕ) (g : Registry A)
      → find j (take_ref i g) ≡ times (slice_of j i) more (find j g)
  unfolding times
  find-take_ref i j g = ground (arith, find-add_ref i.file_ref j g)

  find-drop_ref :
      (i : PostItem) (j : ℕ) (g : Registry A)
      → find j (drop_ref i g) ≡ times (slice_of j i) less (find j g)
  unfolding times
  find-drop_ref i j g = ground (arith, find-unref i.file_ref j g)

  pub find-duplicate_items :
      (is : List PostItem) (j : ℕ) (g : Registry A)
      → find j (duplicate_items is g).1 ≡ times (slices j is) more (find j g)
  unfolding duplicate_items slices times
  find-duplicate_items [] j g = refl
  find-duplicate_items (i ∷ is) j g =
      find-duplicate_items is j (take_ref i g)
      ∙ ap (times (slices j is) more) (find-take_ref i j g)
      ∙ times_add (slice_of j i) (slices j is) more (find j g)

  pub find-free_items :
      (is : List PostItem) (j : ℕ) (g : Registry A)
      → find j (free_items is g) ≡ times (slices j is) less (find j g)
  unfolding free_items slices times
  find-free_items [] j g = refl
  find-free_items (i ∷ is) j g =
      find-free_items is j (drop_ref i g)
      ∙ ap (times (slices j is) less) (find-drop_ref i j g)
      ∙ times_add (slice_of j i) (slices j is) less (find j g)

  pub duplicate_items-copy :
      (is : List PostItem) (g : Registry A) → (duplicate_items is g).0 ≡ nonempty_items is
  unfolding duplicate_items nonempty_items
  duplicate_items-copy [] g = refl
  duplicate_items-copy (i ∷ is) g =
      ap (copy_item i) (duplicate_items-copy is (take_ref i g))
      ∙ copy_item-nonempty i (nonempty_items is)

slices-nonempty_items : (j : ℕ) (is : List PostItem) → slices j (nonempty_items is) ≡ slices j is
unfolding slices nonempty_items
slices-nonempty_items j [] = refl
slices-nonempty_items j (i ∷ is) = ground (arith, slices-nonempty_items j is)

module _ {A : Type 0} where
  -- `post_data_duplicate` copies all items but the pieces of no bytes, and takes one more reference
  -- to a file for each of its slices; `post_data_free` of the copy gives back just these: after it,
  -- every resource whose count was positive is in the table as before the copy was made.
  pub post_data_free-duplicate :
      (is : List PostItem) (g : Registry A) (j : ℕ)
      → IsLive (find j g)
      → let (copy, g1) = post_data_duplicate (some is) g in
        (copy ≡ some (nonempty_items is))
        × (find j g1 ≡ times (slices j is) more (find j g))
        × (find j (post_data_free copy g1) ≡ find j g)
  unfolding post_data_duplicate post_data_free
  post_data_free-duplicate is g j live = (
    ap some (duplicate_items-copy is g),
    find-duplicate_items is j g,
    find-free_items (duplicate_items is g).0 j (duplicate_items is g).1
        ∙ rw (duplicate_items-copy is g, slices-nonempty_items j is, find-duplicate_items is j g)
            (times-less-more (slices j is) (find j g) live),
  )
