-- ===== src/Var/Shared.antt =====
-- References of src/ppb_var.c that are added and given back while there are others.
use freshplayerplugin.Base.{
  ℕ, zero, suc, ℤ, pos, negsuc, ◌+◌, ◌≡◌, refl, ap, ◌∙◌, false, Option, none, some, List, [], ◌++◌,
  ◌==◌, incr, decr, decr-incr, incr_positive, is_nonpos, if◌then◌else◌, Option-cases, Bool-cases,
  inl, inr, arith,
}
use freshplayerplugin.Base.Assoc.{lookup-insert}
use freshplayerplugin.Var.{
  PpVar, VarS, VarTable, countable_id, get_var_s, put, add_ref, add_ref_id, add_ref_found, release,
  release_all, release_one, release_id, release_found, weight,
}
use freshplayerplugin.Var.Claims.{hits, is_id}

-- The entry of a variable after one more, and one less, reference to it.
abbrev pub one_more : Option VarS → Option VarS
one_more none = none
one_more (some e) = some (record e { ref_count = incr e.ref_count })

abbrev pub one_less : Option VarS → Option VarS
one_less none = none
one_less (some e) = some (record e { ref_count = decr e.ref_count })

-- A change of the entry of the variable that a value refers to.
abbrev pub at_its : PpVar → ℕ → (Option VarS → Option VarS) → Option VarS → Option VarS
at_its v j f o = if hits j v == 0 then o else f o

get-add_ref_found :
    (i j : ℕ) (t : VarTable) (o : Option VarS)
    → get_var_s i t ≡ o
    → get_var_s j (add_ref_found i t o)
      ≡ (if is_id j (some i) == 0 then get_var_s j t else one_more (get_var_s j t))
unfolding add_ref_found
get-add_ref_found i j t none e = ground arith
get-add_ref_found i j t (some x) e =
    ground (arith, lookup-insert i j (record x { ref_count = incr x.ref_count }) t.var_ht)

pub get-add_ref :
    (v : PpVar) (j : ℕ) (t : VarTable)
    → get_var_s j (add_ref v t) ≡ at_its v j one_more (get_var_s j t)
unfolding add_ref add_ref_id
get-add_ref v j t = elim (Option-cases (countable_id v)) [
  | inl n ↦ rw n refl
  | inr (i, e) ↦ rw e (get-add_ref_found i j t (get_var_s i t) refl)
]

-- If it is counted, the variable is there, with a reference, or with more than one.
abbrev pub IsLive : PpVar → VarTable → Type 0
IsLive v t =
    (i : ℕ)
    → countable_id v ≡ some i
    → (e : VarS) × (get_var_s i t ≡ some e) × (is_nonpos e.ref_count ≡ false)

abbrev pub IsShared : PpVar → VarTable → Type 0
IsShared v t =
    (i : ℕ)
    → countable_id v ≡ some i
    → (e : VarS) × (get_var_s i t ≡ some e) × (is_nonpos (decr e.ref_count) ≡ false)

-- The calls that one call leaves to make.
abbrev next_calls : ℕ → VarTable × List PpVar → Option VarTable
next_calls n p = release_all n (p.1 ++ []) p.0

release-one : (v : PpVar) (t t' : VarTable) → release_one v t ≡ (t', []) → release v t ≡ some t'
unfolding release release_all
release-one v t t' e =
    let fuel : weight t + 2 ≡ suc (suc (weight t)) = omega arith in
    rw fuel (ap (next_calls (suc (weight t))) e)

pub release-shared :
    (v : PpVar) (t : VarTable)
    → IsShared v t
    → (t' : VarTable) × (release v t ≡ some t')
      × ((j : ℕ) → get_var_s j t' ≡ at_its v j one_less (get_var_s j t))
unfolding release_one release_id release_found
release-shared v t shared = elim (Option-cases (countable_id v)) [
  | inl n ↦ (t, release-one v t t (rw n refl), λ j. rw n refl)
  | inr (i, e) ↦
      let (x, there, others) = shared i e in
      let x' : VarS = record x { ref_count = decr x.ref_count } in
      (
        put i x' t,
        release-one v t (put i x' t) (rw e (rw (there, others) refl)),
        λ j. rw e (ground (arith, lookup-insert i j x' t.var_ht, there)),
      )
]

one_less-more : (o : Option VarS) → one_less (one_more o) ≡ o
one_less-more none = refl
one_less-more (some e) = rw (decr-incr e.ref_count) refl

-- The entry after a reference to one value, a reference to another one, and the two given back.
pub both_back :
    (v w : PpVar) (j : ℕ) (o : Option VarS)
    → at_its v j one_less (at_its w j one_less (at_its v j one_more (at_its w j one_more o))) ≡ o
both_back v w j o = elim (Bool-cases (hits j v == 0)) [
  | inl a ↦ elim (Bool-cases (hits j w == 0)) [
    | inl b ↦ rw (a, b) refl
    | inr b ↦ rw (a, b) (one_less-more o)
  ]
  | inr a ↦ elim (Bool-cases (hits j w == 0)) [
    | inl b ↦ rw (a, b) (one_less-more o)
    | inr b ↦ rw (a, b) (ap one_less (one_less-more (one_more o)) ∙ one_less-more o)
  ]
]

-- A variable with a reference has one after another one is added, and more if it is to it.
pub add_ref-IsLive : (v w : PpVar) (t : VarTable) → IsLive v t → IsLive v (add_ref w t)
add_ref-IsLive v w t live i e =
    let (x, there, positive) = live i e in
    elim (Bool-cases (hits i w == 0)) [
      | inl a ↦ (x, get-add_ref w i t ∙ rw (a, there) refl, positive)
      | inr a ↦ (
        record x { ref_count = incr x.ref_count },
        get-add_ref w i t ∙ rw (a, there) refl,
        incr_positive x.ref_count positive,
      )
    ]

pub add_ref-IsShared : (v : PpVar) (t : VarTable) → IsLive v t → IsShared v (add_ref v t)
add_ref-IsShared v t live i e =
    let (x, there, positive) = live i e in
    let hit : (hits i v == 0) ≡ false = rw e (ground arith) in
    (
      record x { ref_count = incr x.ref_count },
      get-add_ref v i t ∙ rw (hit, there) refl,
      rw (decr-incr x.ref_count) positive,
    )

positive_before : (z : ℤ) → is_nonpos (decr z) ≡ false → is_nonpos z ≡ false
positive_before (pos zero) h = cc
positive_before (pos (suc n)) h = refl
positive_before (negsuc n) h = cc

pub IsShared-add_ref : (v w : PpVar) (t : VarTable) → IsShared v t → IsShared v (add_ref w t)
IsShared-add_ref v w t shared i e =
    let (x, there, more) = shared i e in
    elim (Bool-cases (hits i w == 0)) [
      | inl a ↦ (x, get-add_ref w i t ∙ rw (a, there) refl, more)
      | inr a ↦ (
        record x { ref_count = incr x.ref_count },
        get-add_ref w i t ∙ rw (a, there) refl,
        rw (decr-incr x.ref_count) (positive_before x.ref_count more),
      )
    ]

-- Two references that are added to a table and given back leave every entry as it was, if the first
-- value has a reference and the second one more than one.
pub release-both :
    (v w : PpVar) (t : VarTable)
    → IsShared v t
    → IsLive w t
    → (t1 : VarTable) × (t2 : VarTable) × (release w (add_ref v (add_ref w t)) ≡ some t1)
      × (release v t1 ≡ some t2)
      × ((j : ℕ) → get_var_s j t2 ≡ get_var_s j t)
release-both v w t shared live =
    let u : VarTable = add_ref v (add_ref w t) in
    let (t1, is1, table1) =
      release-shared w u (IsShared-add_ref w v (add_ref w t) (add_ref-IsShared w t live)) in
    let entry1 : (j : ℕ)
        → get_var_s j t1
          ≡ at_its w j one_less (at_its v j one_more (at_its w j one_more (get_var_s j t))) =
      λ j.
        table1 j
        ∙ ap (at_its w j one_less)
            (get-add_ref v j (add_ref w t) ∙ ap (at_its v j one_more) (get-add_ref w j t)) in
    let (t2, is2, table2) = release-shared v t1 (λ i e. kept_shared t1 i e (entry1 i)) in
    (
      t1,
      t2,
      is1,
      is2,
      λ j. table2 j ∙ ap (at_its v j one_less) (entry1 j) ∙ both_back v w j (get_var_s j t),
    )
  where
    kept_shared :
        (t1 : VarTable) (i : ℕ)
        → countable_id v ≡ some i
        → get_var_s i t1
          ≡ at_its w i one_less (at_its v i one_more (at_its w i one_more (get_var_s i t)))
        → (e : VarS) × (get_var_s i t1 ≡ some e) × (is_nonpos (decr e.ref_count) ≡ false)
    kept_shared t1 i e at_i =
        let (x, there, more) = shared i e in
        let hit : (hits i v == 0) ≡ false = rw e (ground arith) in
        let y : VarS = record x { ref_count = incr x.ref_count } in
        let is : get_var_s i t1 ≡ some y = at_i ∙ elim (Bool-cases (hits i w == 0)) [
          | inl a ↦ rw (a, hit, there) refl
          | inr a ↦ rw (a, hit, there) (one_less-more (some y))
        ] in
        (y, is, rw (decr-incr x.ref_count) (positive_before x.ref_count more))
