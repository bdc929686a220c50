-- ===== src/Var/Ids.antt =====
-- `get_new_var_id` of src/ppb_var.c: the search for a free id, which wraps round at 2^32.
use freshplayerplugin.Base.{
  ℕ, zero, suc, ◌+◌, ◌-◌, ◌%◌, ◌^◌, ◌≤◌, ◌<◌, ◌≡◌, refl, none, some, [], ◌∷◌, ◌==◌, ltb,
  if◌then◌else◌, is_some, bit, pos, length, Option-cases, inl, inr, arith,
}
use freshplayerplugin.Base.Assoc.{Assoc, lookup, insert, sum_by, sum_by-insert, lookup-insert}
use freshplayerplugin.Var.{VarS, VarTable, next_id, get_new_var_id, create, held}
use freshplayerplugin.Var.Claims.{Covered, Fits, holds, count}

-- How many of the next `f` ids behind `last` are in the table, and how many are `k`.
occupied : ℕ → ℕ → Assoc VarS → ℕ
occupied zero last m = 0
occupied (suc f) last m =
    bit (is_some (lookup ((last + 1) % 2 ^ 32) m)) + occupied f ((last + 1) % 2 ^ 32) m

visits : ℕ → ℕ → ℕ → ℕ
visits zero last k = 0
visits (suc f) last k = bit (k == (last + 1) % 2 ^ 32) + visits f ((last + 1) % 2 ^ 32) k

next_id-occupied : (f last : ℕ) (m : Assoc VarS) → next_id f last m ≡ none → occupied f last m ≡ f
unfolding next_id occupied
next_id-occupied zero last m e = refl
next_id-occupied (suc f) last m e = ground (arith, next_id-occupied f ((last + 1) % 2 ^ 32) m)

-- `2 ^ 32` ids in a row are all different.
visits_le :
    (f last k : ℕ)
    → f ≤ 2 ^ 32
    → last < 2 ^ 32
    → visits f last k ≤ bit (ltb ((k + 2 ^ 32 - last - 1) % 2 ^ 32) f)
unfolding visits
visits_le zero last k h l = omega arith
visits_le (suc f) last k h l =
    ground (arith, visits_le f ((last + 1) % 2 ^ 32) k (omega arith) (omega arith))

visits_le_one : (f last k : ℕ) → f ≤ 2 ^ 32 → last < 2 ^ 32 → visits f last k ≤ 1
visits_le_one f last k h l = ground (arith, visits_le f last k h l)

occupied-cons :
    (f last k : ℕ) (v : VarS) (m : Assoc VarS)
    → occupied f last ((k, v) ∷ m) ≤ visits f last k + occupied f last m
unfolding occupied visits lookup
occupied-cons zero last k v m = omega arith
occupied-cons (suc f) last k v m = ground (arith, occupied-cons f ((last + 1) % 2 ^ 32) k v m)

occupied_nil : (f last : ℕ) → occupied f last [] ≡ 0
unfolding occupied lookup
occupied_nil zero last = refl
occupied_nil (suc f) last = omega (arith, occupied_nil f ((last + 1) % 2 ^ 32))

occupied-le-length :
    (f last : ℕ) (m : Assoc VarS) → f ≤ 2 ^ 32 → last < 2 ^ 32 → occupied f last m ≤ length m
occupied-le-length f last [] h l = omega (arith, occupied_nil f last)
occupied-le-length f last ((k, v) ∷ m) h l =
    omega (
      arith,
      occupied-cons f last k v m,
      visits_le_one f last k h l,
      occupied-le-length f last m h l,
    )

next_id-fresh :
    (f last i : ℕ) (m : Assoc VarS) → next_id f last m ≡ some i → (lookup i m ≡ none) × (i < 2 ^ 32)
unfolding next_id
next_id-fresh zero last i m e = cc
next_id-fresh (suc f) last i m e = ground (arith, next_id-fresh f ((last + 1) % 2 ^ 32) i m)

-- While fewer than 2^32 variables are alive, the search of `get_new_var_id` ends, and the id that
-- it finds is in range and not in use.
pub get_new_var_id_total :
    (t : VarTable)
    → length t.var_ht < 2 ^ 32
    → t.var_id < 2 ^ 32
    → (i : ℕ) × (get_new_var_id t ≡ some i) × (lookup i t.var_ht ≡ none) × (i < 2 ^ 32)
unfolding get_new_var_id
get_new_var_id_total t few last =
    elim (Option-cases (next_id (length t.var_ht + 1) t.var_id t.var_ht)) [
      | inl e ↦ absurd (
          omega (
            arith,
            next_id-occupied (length t.var_ht + 1) t.var_id t.var_ht e,
            occupied-le-length (length t.var_ht + 1) t.var_id t.var_ht (omega arith) last,
          ))
      | inr (i, e) ↦
          let (unused, small) = next_id-fresh (length t.var_ht + 1) t.var_id i t.var_ht e in
          (i, e, unused, small)
    ]

create-Covered_at :
    (entry : ℕ → VarS) (i k : ℕ) (t : VarTable) (c : ℕ → ℕ)
    → (entry i).ref_count ≡ pos 1
    → held (entry i) ≡ []
    → lookup i t.var_ht ≡ none
    → Covered t c
    → Fits
        (lookup k (insert i (entry i) t.var_ht))
        ((if k == i then 1 else 0) + c k + sum_by (holds k) (insert i (entry i) t.var_ht))
unfolding count
create-Covered_at entry i k t c one bare unused cov = ground (
  arith,
  cov k,
  cov i,
  sum_by-insert (holds k) i (entry i) t.var_ht,
  lookup-insert i k (entry i) t.var_ht,
)

-- While fewer than 2^32 variables are alive, creating a variable that holds no other one ends, its
-- id was not in use, and its creator gets the one claim that its count covers.
pub create-Covered :
    (entry : ℕ → VarS) (t : VarTable) (c : ℕ → ℕ)
    → length t.var_ht < 2 ^ 32
    → t.var_id < 2 ^ 32
    → ((i : ℕ) → ((entry i).ref_count ≡ pos 1) × (held (entry i) ≡ []))
    → Covered t c
    → (i : ℕ) × (t' : VarTable) × (create entry t ≡ some (t', i))
      × (lookup i t.var_ht ≡ none)
      × (lookup i t'.var_ht ≡ some (entry i))
      × Covered t' (λ k. (if k == i then 1 else 0) + c k)
unfolding create
create-Covered entry t c few last bare cov =
    let (i, e, unused, small) = get_new_var_id_total t few last in
    (
      i,
      record t { var_ht = insert i (entry i) t.var_ht; var_id = i },
      rw e,
      unused,
      ground (arith, lookup-insert i i (entry i) t.var_ht),
      λ k. create-Covered_at entry i k t c (bare i).0 (bare i).1 unused cov,
    )
