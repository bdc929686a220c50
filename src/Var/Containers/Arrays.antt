-- ===== src/Var/Containers/Arrays.antt =====
-- Arrays of src/ppb_var.c: what is stored is read back, and the counts cover the stored references.
use freshplayerplugin.Base.{
  ℕ, ◌+◌, ◌^◌, ◌<◌, ◌≡◌, refl, ap, ◌∙◌, true, Option, some, List, map, ◌==◌, if◌then◌else◌, Bytes,
  length, get_elem?, Option-cases, inl, inr, arith,
}
use freshplayerplugin.Base.Assoc.{lookup-insert}
use freshplayerplugin.Var.{
  PpVar, array, VarS, VarTable, countable_id, get_var_s, put, held, add_ref,
}
use freshplayerplugin.Var.Claims.{Covered, hits, count-append, places, places-put}
use freshplayerplugin.Var.Contents.{add_ref-contents, add_ref-frame, stored-Covered}
use freshplayerplugin.Var.Containers.{array_get, array_set}
use freshplayerplugin.Var.Containers.Slots.{slot, write_item-Written}

array_get-slot :
    (i j : ℕ) (t : VarTable) (e : VarS)
    → get_var_s i t ≡ some e
    → array_get (array i) j t ≡ some (add_ref (slot e.items j) t, slot e.items j)
unfolding array_get
array_get-slot i j t e live = elim (Option-cases (get_elem? e.items j)) [
  | inl out ↦ unfold add_ref in ground arith
  | inr (v, at) ↦ ground arith
]

-- On a live array, `ppb_var_array_set` at any index but the last 32-bit one succeeds, and then
-- `ppb_var_array_get` reads the stored value at that index and what was there before at every
-- other, undefined behind the old end; each reading adds a reference to the value read.
pub array_get-set :
    (i index : ℕ) (v : PpVar) (t : VarTable) (e : VarS)
    → get_var_s i t ≡ some e
    → index + 1 < 2 ^ 32
    → (t' : VarTable) × (array_set (array i) index v t ≡ some (t', true))
      × ((j : ℕ)
          → array_get (array i) j t'
            ≡ some (
              add_ref (if index == j then v else slot e.items j) t',
              if index == j then v else slot e.items j,
            ))
unfolding array_set
array_get-set i index v t e live small =
    let (after, written, w) = write_item-Written index v e.items small in
    let e1 : VarS = record e { items = after } in
    let (e2, there, same) =
      add_ref-contents v i (put i e1 t) {e = e1} (ground (arith, lookup-insert i i e1 t.var_ht)) in
    (
      add_ref v (put i e1 t),
      rw live (rw written),
      λ j.
          array_get-slot i j (add_ref v (put i e1 t)) e2 there
          ∙ ap {B = Option (VarTable × PpVar)} (λ u. some (add_ref u (add_ref v (put i e1 t)), u))
              (ap (λ (xs : List PpVar). slot xs j) same.0 ∙ w.slots j),
    )

-- `ppb_var_array_set` of a value that is claimed or held, into a live array, keeps the counts
-- covering all references: the claims of the callers and every slot of every container.
pub array_set-Covered :
    (i index : ℕ) (v : PpVar) (t : VarTable) (e : VarS) (c : ℕ → ℕ)
    → get_var_s i t ≡ some e
    → index + 1 < 2 ^ 32
    → ((j : ℕ) → countable_id v ≡ some j → 0 < c j + places j t)
    → Covered t c
    → (t' : VarTable) × (array_set (array i) index v t ≡ some (t', true)) × Covered t' c
unfolding array_set
array_set-Covered i index v t e c live small claimed cov =
    let (after, written, w) = write_item-Written index v e.items small in
    let e1 : VarS = record e { items = after } in
    (
      add_ref v (put i e1 t),
      rw live (rw written),
      stored-Covered v i t e e1 c live refl
          (λ k.
            unfold held in
            omega (
              arith,
              w.counts k,
              count-append k after (map (λ (p : Bytes × PpVar). p.1) e.dict),
              count-append k e.items (map (λ (p : Bytes × PpVar). p.1) e.dict),
            ))
          claimed cov,
    )

-- A slot that is overwritten gives up no reference: when `ppb_var_array_set` replaces a counted
-- variable by a value that is another one, or none, the old variable keeps its count though one
-- place fewer holds it.
pub array_set-keeps_old :
    (i index k : ℕ) (v : PpVar) (t : VarTable) (e x : VarS)
    → get_var_s i t ≡ some e
    → index < length e.items
    → index + 1 < 2 ^ 32
    → countable_id (slot e.items index) ≡ some k
    → hits k v ≡ 0
    → get_var_s k t ≡ some x
    → (t' : VarTable) × (x' : VarS) × (array_set (array i) index v t ≡ some (t', true))
      × (get_var_s k t' ≡ some x')
      × (x'.ref_count ≡ x.ref_count)
      × (places k t' + 1 ≡ places k t)
unfolding array_set
array_set-keeps_old i index k v t e x live inside small old other there =
    let (after, written, w) = write_item-Written index v e.items small in
    let e1 : VarS = record e { items = after } in
    let frame = add_ref-frame v k (put i e1 t) in
    let counted : hits k (slot e.items index) ≡ 1 = rw old (ground arith) in
    let moved : places k (put i e1 t) + 1 ≡ places k t =
      unfold held in
      omega (
        arith,
        w.counts k,
        other,
        counted,
        count-append k after (map (λ (p : Bytes × PpVar). p.1) e.dict),
        count-append k e.items (map (λ (p : Bytes × PpVar). p.1) e.dict),
        places-put k i e1 e t live,
      ) in
    let stays : get_var_s k (add_ref v (put i e1 t)) ≡ some (if i == k then e1 else x) =
      frame.1 other ∙ ground (arith, lookup-insert i k e1 t.var_ht) in
    (
      add_ref v (put i e1 t),
      if i == k then e1 else x,
      rw live (rw written),
      stays,
      ground arith,
      omega (arith, moved, frame.0),
    )
