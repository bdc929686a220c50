-- ===== src/Resource/Access/Created.antt =====
-- Reading a resource of src/pp_resource.c after a constructor has made it.
use freshplayerplugin.Base.{
  ℕ, ◌+◌, ◌%◌, ◌^◌, ◌≡◌, refl, sym, ap, ◌∙◌, false, Option, none, some, ◌==◌, arith,
}
use freshplayerplugin.Resource.{Res, Registry, find, allocate, store, unref, unlock, release}
use freshplayerplugin.Resource.Find.{
  new_res, acquired, find-allocate, find-unref, next-unref, next-unlock,
}
use freshplayerplugin.Resource.Access.{finish, with_resource, make}
use freshplayerplugin.Resource.Access.Effects.{
  IsFree, IsFree-allocate, make-some, with_resource-free, find-finish,
}

module _ {A : Type 0} where
  -- An operation returns the value, and leaves every resource as it was.
  abbrev pub Reads {ℓ} : {B : Type ℓ} → Registry A → Option (Registry A × B) → B → Type ℓ
  Reads g out b = (g' : Registry A) × (out ≡ some (g', b)) × ((j : ℕ) → find j g' ≡ find j g)

  -- A constructor returns the next handle, which no other resource has, and the new table.
  abbrev pub Creates : Registry A → Option (Registry A × ℕ) → Registry A → Type 0
  Creates g out g' =
      (out ≡ some (g', g.res_tbl_next))
      × ((j : ℕ) → (g.res_tbl_next == j) ≡ false → find j g' ≡ find j g)

  pub make-IsFree :
      (zeroed : A) (init : A → A) (type inst : ℕ) (g : Registry A)
      → (g' : Registry A) × Creates g (make zeroed init type (some inst) g) g'
        × IsFree type g.res_tbl_next (new_res (init zeroed) type inst g.res_tbl_next) g'
  make-IsFree zeroed init type inst g =
      let (g', is, table) = make-some zeroed init type inst g in
      (
        g',
        (is, λ j n. table j ∙ ground arith),
        record {
          there = table g.res_tbl_next ∙ ground arith;
          typed = refl;
          free = refl;
          counted = refl;
        },
      )

  abbrev given : Registry A → Option (Registry A × ℕ) → Registry A
  given g none = g
  given g (some (g', h)) = g'

  next-finish :
      (h : ℕ) (f : A → A) (r : Res A) (g : Registry A)
      → (finish h f r g).res_tbl_next ≡ g.res_tbl_next
  unfolding release
  next-finish h f r g =
      let g1 : Registry A = store h (record r { body = f r.body }) g in
      next-unref h (unlock h g1) ∙ next-unlock h g1

  -- The handle after the one that a constructor gives.
  pub make-next :
      (zeroed : A) (init : A → A) (type inst : ℕ) (g g' : Registry A) (k : ℕ)
      → make zeroed init type (some inst) g ≡ some (g', k)
      → g'.res_tbl_next ≡ (g.res_tbl_next + 1) % 2 ^ 32
  unfolding make allocate
  make-next zeroed init type inst g g' k e =
      let n : ℕ = g.res_tbl_next in
      let q : Res A = new_res zeroed type inst n in
      let g1 : Registry A = (allocate zeroed type inst g).0 in
      let free : IsFree type n q g1 = IsFree-allocate zeroed type inst g in
      let made : Registry A = finish n init (acquired q) (store n (acquired q) g1) in
      let out : Option (Registry A × ℕ) = some (made, n) in
      let is : out ≡ some (g', k) =
        sym (with_resource-free type n q g1 (g1, 0) (λ r x. (finish n init r x, n)) free) ∙ e in
      let same : made ≡ g' = ap (given made) is in
      sym (ap (λ x. x.res_tbl_next) same)
      ∙ next-finish n init (acquired q) (store n (acquired q) g1)

  -- A constructor that fails after it has acquired the new resource, and gives it back.
  abbrev pub fail_made : A → (A → A) → ℕ → ℕ → Registry A → Option (Registry A × ℕ)
  fail_made zeroed f type inst g =
      let made = allocate zeroed type inst g in
      with_resource type made.1 made.0 (made.0, 0)
        (λ r g'. ((unref made.1 (finish made.1 f r g')).0, 0))

  pub fail_made-gone :
      (zeroed : A) (f : A → A) (type inst : ℕ) (g : Registry A)
      → (g' : Registry A) × (fail_made zeroed f type inst g ≡ some (g', 0))
        × (find g.res_tbl_next g' ≡ none)
        × ((j : ℕ) → (g.res_tbl_next == j) ≡ false → find j g' ≡ find j g)
  unfolding allocate
  fail_made-gone zeroed f type inst g =
      let k : ℕ = g.res_tbl_next in
      let q : Res A = new_res zeroed type inst k in
      let g1 : Registry A = (allocate zeroed type inst g).0 in
      let free : IsFree type k q g1 = IsFree-allocate zeroed type inst g in
      let g2 : Registry A = finish k f (acquired q) (store k (acquired q) g1) in
      (
        (unref k g2).0,
        with_resource-free type k q g1 (g1, 0) (λ r x. ((unref k (finish k f r x)).0, 0)) free,
        find-unref k k g2 ∙ ground (arith, find-finish type k k f q g1 free),
        λ j n.
            find-unref k j g2
            ∙ ground (arith, find-finish type k j f q g1 free, find-allocate zeroed type inst j g),
      )
