-- ===== src/Var/Claims.antt =====
-- The reference counts of src/ppb_var.c against the references that there are: the claims of the
-- code outside the table, and the places in arrays and dictionaries that hold a variable.
use freshplayerplugin.Base.{
  ℕ, zero, suc, ◌+◌, ◌≤◌, ◌<◌, ◌≡◌, refl, Option, none, some, List, [], ◌∷◌, ◌++◌, map, ◌==◌,
  if◌then◌else◌, ℤ, pos, incr, Bytes, Option-cases, inl, inr, arith,
}
use freshplayerplugin.Base.Assoc.{
  lookup, remove, sum_by, sum_by-insert, sum_by-remove, lookup-insert, lookup-remove,
}
use freshplayerplugin.Var.Release.{release_total}
use freshplayerplugin.Var.{
  PpVar, array, dictionary, VarS, VarTable, countable_id, kids, held, weight, release_one,
  release_id, release_found, release_all, release, add_ref, add_ref_id, add_ref_found, deallocate,
  put,
}

-- 1 if the variable is the counted one with this id
abbrev pub is_id : ℕ → Option ℕ → ℕ
is_id i none = 0
is_id i (some j) = if i == j then 1 else 0

abbrev pub hits : ℕ → PpVar → ℕ
hits i v = is_id i (countable_id v)

unfoldable pub count : ℕ → List PpVar → ℕ
count i [] = 0
count i (v ∷ vs) = hits i v + count i vs

pub count-append : (i : ℕ) (vs ws : List PpVar) → count i (vs ++ ws) ≡ count i vs + count i ws
unfolding count
count-append i [] ws = omega arith
count-append i (v ∷ vs) ws = omega (arith, count-append i vs ws)

abbrev pub holds : ℕ → VarS → ℕ
holds i e = count i (held e)

-- The places in the table that hold the variable.
abbrev pub places : ℕ → VarTable → ℕ
places i t = sum_by (holds i) t.var_ht

-- An entry's count is positive and covers all references to it; a missing entry has none.
abbrev pub Fits : Option VarS → ℕ → Type 0
Fits none n = n ≡ 0
Fits (some e) n = (m : ℕ) × (e.ref_count ≡ pos (suc m)) × (n ≤ suc m)

-- `claims i` are the references to the variable `i` from outside the table.
abbrev pub Covered : VarTable → (ℕ → ℕ) → Type 0
Covered t claims = (i : ℕ) → Fits (lookup i t.var_ht) (claims i + places i t)

kids-count : (i : ℕ) (v : PpVar) (e : VarS) → count i (kids v e) ≤ holds i e
unfolding kids held count
kids-count i (array j) e =
    omega (arith, count-append i e.items (map (λ (p : Bytes × PpVar). p.1) e.dict))
kids-count i (dictionary j) e =
    omega (arith, count-append i e.items (map (λ (p : Bytes × PpVar). p.1) e.dict))
kids-count i _ e = omega arith

release_found-last :
    (v : PpVar) (j : ℕ) (t : VarTable) (x : VarS)
    → x.ref_count ≡ pos 1
    → release_found v j t (some x) ≡ (
      record t { var_ht = remove j t.var_ht; deallocated = deallocate v x t.deallocated },
      kids v x,
    )
unfolding release_found
release_found-last v j t x e = rw e

release_found-more :
    (v : PpVar) (j m : ℕ) (t : VarTable) (x : VarS)
    → x.ref_count ≡ pos (suc (suc m))
    → release_found v j t (some x) ≡ (put j (record x { ref_count = pos (suc m) }) t, [])
unfolding release_found
release_found-more v j m t x e = ground arith

pub places-put :
    (i j : ℕ) (e x : VarS) (t : VarTable)
    → lookup j t.var_ht ≡ some x
    → places i (put j e t) + holds i x ≡ places i t + holds i e
places-put i j e x t there = ground (arith, sum_by-insert (holds i) j e t.var_ht)

-- A change of the count alone moves no reference.
pub places-put_count :
    (i j : ℕ) (n : ℤ) (x : VarS) (t : VarTable)
    → lookup j t.var_ht ≡ some x
    → places i (put j (record x { ref_count = n }) t) ≡ places i t
unfolding held
places-put_count i j n x t there =
    omega (arith, places-put i j (record x { ref_count = n }) x t there)

-- One release passes a claim of the caller on: to nobody, or to the variables that went with it.
release_found-Fits :
    (v : PpVar) (j : ℕ) (t : VarTable) (x : VarS) (c : ℕ → ℕ) (m : ℕ)
    → lookup j t.var_ht ≡ some x
    → x.ref_count ≡ pos (suc m)
    → 1 + c j + places j t ≤ suc m
    → (i : ℕ) → Fits (lookup i t.var_ht) (is_id i (some j) + c i + places i t)
    → Fits
        (lookup i (release_found v j t (some x)).0.var_ht)
        (count i (release_found v j t (some x)).1 + c i + places i (release_found v j t (some x)).0)
unfolding count
release_found-Fits v j t x c zero there e f i g = rw (release_found-last v j t x e) (
    ground
      (arith, sum_by-remove (holds i) j t.var_ht, lookup-remove j i t.var_ht, kids-count i v x))
release_found-Fits v j t x c (suc m) there e f i g =
    let x' : VarS = record x { ref_count = pos (suc m) } in
    rw (release_found-more v j m t x e)
      (ground (arith, places-put_count i j (pos (suc m)) x t there, lookup-insert j i x' t.var_ht))

release_id-Covered :
    (v : PpVar) (j : ℕ) (t : VarTable) (o : Option VarS) (c : ℕ → ℕ)
    → lookup j t.var_ht ≡ o
    → Covered t (λ i. is_id i (some j) + c i)
    → Covered (release_found v j t o).0 (λ i. count i (release_found v j t o).1 + c i)
release_id-Covered v j t none c e cov i = absurd (ground (arith, cov j))
release_id-Covered v j t (some x) c e cov i =
    let (m, rc, le) = rw e at (cov j) in
    release_found-Fits v j t x c m e rc (ground arith) i (cov i)

-- A call of `ppb_var_release` that the caller has a claim for passes that claim on to the nested
-- calls.
release_one-Covered :
    (v : PpVar) (t : VarTable) (c : ℕ → ℕ)
    → Covered t (λ i. hits i v + c i)
    → Covered (release_one v t).0 (λ i. count i (release_one v t).1 + c i)
unfolding release_one release_id count
release_one-Covered v t c cov = elim (Option-cases (countable_id v)) [
  | inl e ↦ rw e (λ i. rw e at (cov i))
  | inr (j, e) ↦ rw e (release_id-Covered v j t (lookup j t.var_ht) c refl (λ i. rw e at (cov i)))
]

pub Covered-eq : (t : VarTable) (c d : ℕ → ℕ) → ((i : ℕ) → c i ≡ d i) → Covered t c → Covered t d
Covered-eq t c d e cov i = rw (← e i) (cov i)

release_all-Covered :
    (fuel : ℕ) (vs : List PpVar) (t t' : VarTable) (c : ℕ → ℕ)
    → Covered t (λ i. count i vs + c i)
    → release_all fuel vs t ≡ some t'
    → Covered t' c
unfolding release_all count
release_all-Covered zero vs t t' c cov e = cc
release_all-Covered (suc fuel) [] t t' c cov e =
    let same : t ≡ t' = cc in rw (← same) (Covered-eq t (λ i. 0 + c i) c (λ i. omega arith) cov)
release_all-Covered (suc fuel) (v ∷ vs) t t' c cov e =
    release_all-Covered fuel ((release_one v t).1 ++ vs) (release_one v t).0 t' c
      (Covered-eq (release_one v t).0 (λ i. count i (release_one v t).1 + (count i vs + c i)) _
        (λ i. omega (arith, count-append i (release_one v t).1 vs))
        (release_one-Covered v t (λ i. count i vs + c i)
          (Covered-eq t (λ i. hits i v + count i vs + c i) (λ i. hits i v + (count i vs + c i))
            (λ i. omega arith) cov)))
      e

-- If every variable's count covers the claims on it, `ppb_var_release` by the owner of one claim
-- ends in a table where the counts cover the remaining claims: however many variables went with
-- this one, each that is still claimed or still held by a container is in the table, with a
-- positive count.
pub release-Covered :
    (v : PpVar) (t : VarTable) (c : ℕ → ℕ)
    → Covered t (λ i. hits i v + c i)
    → (t' : VarTable) × (release v t ≡ some t') × Covered t' c
unfolding release
release-Covered v t c cov =
    let (t', e) = release_total v t in
    (
      t',
      e,
      release_all-Covered (weight t + 2) (v ∷ []) t t' c
          (unfold count in
            Covered-eq t (λ i. hits i v + c i) (λ i. hits i v + 0 + c i) (λ i. omega arith) cov)
          e,
    )

add_ref_found-Covered :
    (j : ℕ) (t : VarTable) (o : Option VarS) (c : ℕ → ℕ)
    → lookup j t.var_ht ≡ o
    → 0 < c j + places j t
    → Covered t c
    → Covered (add_ref_found j t o) (λ i. is_id i (some j) + c i)
unfolding add_ref_found
add_ref_found-Covered j t none c e pos_claim cov i = absurd (ground (arith, cov j))
add_ref_found-Covered j t (some x) c e pos_claim cov i =
    let (m, rc, le) = rw e at (cov j) in
    let x' : VarS = record x { ref_count = incr x.ref_count } in
    ground
      (arith, cov i, places-put_count i j (incr x.ref_count) x t e, lookup-insert j i x' t.var_ht)

-- `ppb_var_add_ref` of a variable that is claimed or held gives its caller one more claim, which
-- the counts cover.
pub add_ref-Covered :
    (v : PpVar) (t : VarTable) (c : ℕ → ℕ)
    → ((j : ℕ) → countable_id v ≡ some j → 0 < c j + places j t)
    → Covered t c
    → Covered (add_ref v t) (λ i. hits i v + c i)
unfolding add_ref add_ref_id
add_ref-Covered v t c claimed cov = elim (Option-cases (countable_id v)) [
  | inl e ↦ rw e (Covered-eq t c (λ i. 0 + c i) (λ i. omega arith) cov)
  | inr (j, e) ↦ rw e (add_ref_found-Covered j t (lookup j t.var_ht) c refl (claimed j e) cov)
]
