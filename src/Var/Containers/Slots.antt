-- ===== src/Var/Containers/Slots.antt =====
-- A write into the items of an array of src/ppb_var.c, the growth of the array included.
use freshplayerplugin.Base.{
  ℕ, zero, suc, ◌+◌, ◌-◌, ◌^◌, ◌<◌, ◌≡◌, refl, none, some, List, [], ◌∷◌, ◌++◌, ◌==◌, ltb,
  if◌then◌else◌, length, length-append, length-replicate, length-set, get_elem?, set, replicate,
  Bool-cases, inl, inr, arith,
}
use freshplayerplugin.Var.{PpVar, undefined, countable_id}
use freshplayerplugin.Var.Claims.{hits, count, count-append}
use freshplayerplugin.Var.Containers.{write_item}

-- The slot's old value, undefined behind the end.
abbrev pub slot : List PpVar → ℕ → PpVar
slot items index = elim (get_elem? items index) [ none ↦ undefined | some v ↦ v ]

get_elem?-set :
    (items : List PpVar) (i j : ℕ) (v : PpVar)
    → i < length items
    → get_elem? (set items i v) j ≡ (if i == j then some v else get_elem? items j)
get_elem?-set [] i j v h = elim h [ ]
get_elem?-set (x ∷ items) zero zero v h = ground arith
get_elem?-set (x ∷ items) zero (suc j) v h = ground arith
get_elem?-set (x ∷ items) (suc i) zero v h = ground arith
get_elem?-set (x ∷ items) (suc i) (suc j) v h =
    ground (arith, get_elem?-set items i j v (omega arith))

slot-replicate : (n i : ℕ) → slot (replicate n undefined) i ≡ undefined
slot-replicate zero i = refl
slot-replicate (suc n) zero = refl
slot-replicate (suc n) (suc i) = slot-replicate n i

slot-append :
    (items : List PpVar) (n i : ℕ) → slot (items ++ replicate n undefined) i ≡ slot items i
slot-append [] n i = slot-replicate n i
slot-append (x ∷ items) n zero = refl
slot-append (x ∷ items) n (suc i) = slot-append items n i

count-set :
    (k : ℕ) (items : List PpVar) (i : ℕ) (v : PpVar)
    → i < length items
    → count k (set items i v) + hits k (slot items i) ≡ count k items + hits k v
unfolding count
count-set k [] i v h = elim h [ ]
count-set k (x ∷ items) zero v h = omega arith
count-set k (x ∷ items) (suc i) v h = omega (arith, count-set k items i v (omega arith))

count-replicate : (k n : ℕ) → count k (replicate n undefined) ≡ 0
unfolding count countable_id
count-replicate k zero = refl
count-replicate k (suc n) = omega (arith, count-replicate k n)

-- The array after a write: one slot changed, the array long enough, and nothing lost or doubled.
pub record Written (items : List PpVar) (index : ℕ) (v : PpVar) (after : List PpVar) : Type 0 where
  pub slots : (j : ℕ) → slot after j ≡ (if index == j then v else slot items j)
  pub inside : index < length after
  pub counts : (k : ℕ) → count k after + hits k (slot items index) ≡ count k items + hits k v

set-Written :
    (items : List PpVar) (index : ℕ) (v : PpVar)
    → index < length items
    → Written items index v (set items index v)
set-Written items index v h = record {
  slots = λ j. ground (arith, get_elem?-set items index j v h);
  inside = omega (arith, length-set items index v);
  counts = λ k. count-set k items index v h;
}

grown-Written :
    (items : List PpVar) (index n : ℕ) (v : PpVar)
    → index < length items + n
    → Written items index v (set (items ++ replicate n undefined) index v)
grown-Written items index n v h =
    let grown : List PpVar = items ++ replicate n undefined in
    let w =
      set-Written grown index v (
        omega (arith, length-append items (replicate n undefined), length-replicate n undefined)) in
    record {
      slots = λ j. ground (arith, w.slots j, slot-append items n j);
      inside = w.inside;
      counts = λ k. rw (← slot-append items n index) (
          omega
            (arith, w.counts k, count-append k items (replicate n undefined), count-replicate k n));
    }

-- Every index but the last 32-bit one can be written.
pub write_item-Written :
    (index : ℕ) (v : PpVar) (items : List PpVar)
    → index + 1 < 2 ^ 32
    → (after : List PpVar) × (write_item index v items ≡ some after) × Written items index v after
unfolding write_item
write_item-Written index v items h = elim (Bool-cases (ltb index (length items))) [
  | inl e ↦ (set items index v, rw e, set-Written items index v (ground arith))
  | inr e ↦ (
    set (items ++ replicate (index + 1 - length items) undefined) index v,
    ground arith,
    grown-Written items index (index + 1 - length items) v (ground arith),
  )
]
