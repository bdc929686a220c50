-- ===== src/Var/Release.antt =====
-- `ppb_var_release` ends: it is never called more often than there are references to drop.
use freshplayerplugin.Base.{
  ℕ, zero, suc, ◌+◌, ◌≤◌, ◌<◌, ◌≡◌, refl, Option, none, some, List, [], ◌∷◌, ◌++◌, map, decr, Bytes,
  length, length-append, Option-cases, inl, inr, arith,
}
use freshplayerplugin.Base.Assoc.{lookup, sum_by-insert, sum_by-remove}
use freshplayerplugin.Var.{
  PpVar, array, dictionary, VarS, VarTable, countable_id, kids, held, weight, release_one,
  release_id, release_found, release_all, release,
}

kids-length : (v : PpVar) (e : VarS) → length (kids v e) ≤ length (held e)
unfolding kids held
kids-length (array i) e =
    omega (arith, length-append e.items (map (λ (p : Bytes × PpVar). p.1) e.dict))
kids-length (dictionary i) e =
    omega (arith, length-append e.items (map (λ (p : Bytes × PpVar). p.1) e.dict))
kids-length _ e = omega arith

-- Releasing one variable leaves less to do: the entries left and what they hold.
release_found-weight :
    (v : PpVar) (i : ℕ) (t : VarTable) (o : Option VarS)
    → lookup i t.var_ht ≡ o
    → weight (release_found v i t o).0 + length (release_found v i t o).1 ≤ weight t
unfolding release_found weight
release_found-weight v i t none e = omega arith
release_found-weight v i t (some x) e =
    let size : VarS → ℕ = λ e. 1 + length (held e) in
    let x' : VarS = record x { ref_count = decr x.ref_count } in
    ground (arith, sum_by-remove size i t.var_ht, sum_by-insert size i x' t.var_ht, kids-length v x)

release_one-weight :
    (v : PpVar) (t : VarTable) → weight (release_one v t).0 + length (release_one v t).1 ≤ weight t
unfolding release_one release_id
release_one-weight v t = elim (Option-cases (countable_id v)) [
  | inl e ↦ rw e (omega arith)
  | inr (i, e) ↦ rw e (release_found-weight v i t (lookup i t.var_ht) refl)
]

pub release_all_total :
    (fuel : ℕ) (vs : List PpVar) (t : VarTable)
    → weight t + length vs < fuel
    → (t' : VarTable) × (release_all fuel vs t ≡ some t')
unfolding release_all
release_all_total zero vs t h = elim h [ ]
release_all_total (suc fuel) [] t h = (t, refl)
release_all_total (suc fuel) (v ∷ vs) t h =
    release_all_total fuel ((release_one v t).1 ++ vs) (release_one v t).0
      (omega (arith, release_one-weight v t, length-append (release_one v t).1 vs))

-- `ppb_var_release` of any variable in any table ends, however containers hold one another: the
-- calls that it makes are at most two more than the entries of the table and the variables that
-- they hold.
pub release_total : (v : PpVar) (t : VarTable) → (t' : VarTable) × (release v t ≡ some t')
unfolding release
release_total v t = release_all_total (weight t + 2) (v ∷ []) t (omega arith)
