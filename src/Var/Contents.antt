-- ===== src/Var/Contents.antt =====
-- Counting references changes no contents, and storing a reference in a container keeps the counts
-- of src/ppb_var.c right.
use freshplayerplugin.Base.{
  ℕ, zero, suc, ◌+◌, ◌≤◌, ◌<◌, ◌≡◌, refl, ◌∙◌, Option, none, some, List, [], ◌∷◌, ◌++◌, ◌==◌, incr,
  decr, Option-cases, Bool-cases, inl, inr, arith,
}
use freshplayerplugin.Base.Assoc.{lookup, lookup-insert, lookup-remove}
use freshplayerplugin.Var.{
  PpVar, VarS, VarTable, countable_id, get_var_s, put, add_ref, add_ref_id, add_ref_found, release,
  release_all, release_one, release_id, release_found, weight,
}
use freshplayerplugin.Var.Claims.{Covered, hits, is_id, holds, places, places-put, places-put_count}

-- Adding a reference changes no contents.
abbrev pub SameContents : VarS → VarS → Type 0
SameContents e e' = (e'.items ≡ e.items) × (e'.dict ≡ e.dict) × (e'.str ≡ e.str) × (e'.var ≡ e.var)

add_ref_found-contents :
    (j i : ℕ) (t : VarTable) (o : Option VarS) {e : VarS}
    → lookup j t.var_ht ≡ o
    → get_var_s i t ≡ some e
    → (e' : VarS) × (get_var_s i (add_ref_found j t o) ≡ some e') × SameContents e e'
unfolding add_ref_found
add_ref_found-contents j i t none {e} l h = (e, h, (refl, refl, refl, refl))
add_ref_found-contents j i t (some x) {e} l h = elim (Bool-cases (j == i)) [
  | inl same ↦
      let x' : VarS = record x { ref_count = incr x.ref_count } in
      (x', ground (arith, lookup-insert j i x' t.var_ht), ground arith)
  | inr other ↦ (
    e,
    ground (arith, lookup-insert j i (record x { ref_count = incr x.ref_count }) t.var_ht),
    (refl, refl, refl, refl),
  )
]

pub add_ref-contents :
    (v : PpVar) (i : ℕ) (t : VarTable) {e : VarS}
    → get_var_s i t ≡ some e
    → (e' : VarS) × (get_var_s i (add_ref v t) ≡ some e') × SameContents e e'
unfolding add_ref add_ref_id
add_ref-contents v i t {e} h = elim (Option-cases (countable_id v)) [
  | inl none_here ↦ rw none_here (e, h, (refl, refl, refl, refl))
  | inr (j, there) ↦ rw there (add_ref_found-contents j i t (lookup j t.var_ht) refl h)
]

-- An entry that is there after a release was there before it.
abbrev pub WasThere : VarTable → ℕ → VarS → Type 0
WasThere t i e' = (e : VarS) × (get_var_s i t ≡ some e) × SameContents e e'

release_found-contents :
    (v : PpVar) (j i : ℕ) (t : VarTable) (o : Option VarS) (e' : VarS)
    → lookup j t.var_ht ≡ o
    → get_var_s i (release_found v j t o).0 ≡ some e'
    → WasThere t i e'
unfolding release_found
release_found-contents v j i t none e' l h = (e', h, (refl, refl, refl, refl))
release_found-contents v j i t (some x) e' l h =
    let x' : VarS = record x { ref_count = decr x.ref_count } in
    elim (Bool-cases (j == i)) [
      | inl same ↦ (
        x,
        ground arith,
        ground (arith, lookup-insert j i x' t.var_ht, lookup-remove j i t.var_ht),
      )
      | inr other ↦ (
        e',
        ground (arith, lookup-insert j i x' t.var_ht, lookup-remove j i t.var_ht),
        (refl, refl, refl, refl),
      )
    ]

release_one-contents :
    (v : PpVar) (i : ℕ) (t : VarTable) (e' : VarS)
    → get_var_s i (release_one v t).0 ≡ some e'
    → WasThere t i e'
unfolding release_one release_id
release_one-contents v i t e' h = elim (Option-cases (countable_id v)) [
  | inl none_here ↦ (e', ground arith, (refl, refl, refl, refl))
  | inr (j, there) ↦ release_found-contents v j i t (lookup j t.var_ht) e' refl (rw there at h)
]

release_all-contents :
    (fuel : ℕ) (vs : List PpVar) (i : ℕ) (t t' : VarTable) (e' : VarS)
    → release_all fuel vs t ≡ some t'
    → get_var_s i t' ≡ some e'
    → WasThere t i e'
unfolding release_all
release_all-contents zero vs i t t' e' r h = cc
release_all-contents (suc fuel) [] i t t' e' r h = (e', ground arith, (refl, refl, refl, refl))
release_all-contents (suc fuel) (v ∷ vs) i t t' e' r h =
    let (e1, there, rest) =
      release_all-contents fuel ((release_one v t).1 ++ vs) i (release_one v t).0 t' e' r h in
    let (e, first, same) = release_one-contents v i t e1 there in
    (e, first, (rest.0 ∙ same.0, rest.1 ∙ same.1, rest.2 ∙ same.2, rest.3 ∙ same.3))

pub release-contents :
    (v : PpVar) (i : ℕ) (t t' : VarTable) (e' : VarS)
    → release v t ≡ some t'
    → get_var_s i t' ≡ some e'
    → WasThere t i e'
unfolding release
release-contents v i t t' e' r h = release_all-contents (weight t + 2) (v ∷ []) i t t' e' r h

-- Storing in entry `i` a reference that its owner keeps, and counting it.
stored_found-Covered :
    (j i : ℕ) (t : VarTable) (e e1 : VarS) (o : Option VarS) (c : ℕ → ℕ)
    → get_var_s i t ≡ some e
    → e1.ref_count ≡ e.ref_count
    → ((k : ℕ) → holds k e1 ≤ holds k e + is_id k (some j))
    → 0 < c j + places j t
    → Covered t c
    → lookup j (put i e1 t).var_ht ≡ o
    → Covered (add_ref_found j (put i e1 t) o) c
unfolding add_ref_found
stored_found-Covered j i t e e1 none c live rc more claimed cov l k =
    absurd (ground (arith, cov j, lookup-insert i j e1 t.var_ht))
stored_found-Covered j i t e e1 (some x) c live rc more claimed cov l k =
    let x' : VarS = record x { ref_count = incr x.ref_count } in
    ground (
      arith,
      cov j,
      cov k,
      cov i,
      more k,
      lookup-insert i j e1 t.var_ht,
      lookup-insert i k e1 t.var_ht,
      lookup-insert j k x' (put i e1 t).var_ht,
      places-put k i e1 e t live,
      places-put_count k j (incr x.ref_count) x (put i e1 t) l,
    )

put-Covered :
    (i : ℕ) (t : VarTable) (e e1 : VarS) (c : ℕ → ℕ)
    → get_var_s i t ≡ some e
    → e1.ref_count ≡ e.ref_count
    → ((k : ℕ) → holds k e1 ≤ holds k e)
    → Covered t c
    → Covered (put i e1 t) c
put-Covered i t e e1 c live rc fewer cov k =
    ground (arith, cov k, cov i, fewer k, lookup-insert i k e1 t.var_ht, places-put k i e1 e t live)

pub stored-Covered :
    (v : PpVar) (i : ℕ) (t : VarTable) (e e1 : VarS) (c : ℕ → ℕ)
    → get_var_s i t ≡ some e
    → e1.ref_count ≡ e.ref_count
    → ((k : ℕ) → holds k e1 ≤ holds k e + hits k v)
    → ((j : ℕ) → countable_id v ≡ some j → 0 < c j + places j t)
    → Covered t c
    → Covered (add_ref v (put i e1 t)) c
unfolding add_ref add_ref_id
stored-Covered v i t e e1 c live rc more claimed cov = elim (Option-cases (countable_id v)) [
  | inl e0 ↦ rw e0 (put-Covered i t e e1 c live rc (λ k. omega (arith, rw e0 at (more k))) cov)
  | inr (j, e0) ↦ rw e0 (
      stored_found-Covered j i t e e1 (lookup j (put i e1 t).var_ht) c live rc
        (λ k. rw e0 at (more k)) (claimed j e0) cov refl)
]

add_ref_found-frame :
    (j k : ℕ) (t : VarTable) (o : Option VarS)
    → lookup j t.var_ht ≡ o
    → (places k (add_ref_found j t o) ≡ places k t)
      × (is_id k (some j) ≡ 0 → get_var_s k (add_ref_found j t o) ≡ get_var_s k t)
unfolding add_ref_found
add_ref_found-frame j k t none l = (refl, λ h. refl)
add_ref_found-frame j k t (some x) l = (
  places-put_count k j (incr x.ref_count) x t l,
  λ h. ground (arith, lookup-insert j k (record x { ref_count = incr x.ref_count }) t.var_ht),
)

-- `ppb_var_add_ref` moves no reference and leaves the other entries alone.
pub add_ref-frame :
    (v : PpVar) (k : ℕ) (t : VarTable)
    → (places k (add_ref v t) ≡ places k t)
      × (hits k v ≡ 0 → get_var_s k (add_ref v t) ≡ get_var_s k t)
unfolding add_ref add_ref_id
add_ref-frame v k t = elim (Option-cases (countable_id v)) [
  | inl e ↦ rw e (refl, λ h. refl)
  | inr (j, e) ↦ rw e (add_ref_found-frame j k t (lookup j t.var_ht) refl)
]
