-- ===== src/Resource/Access/Effects.antt =====
-- What an operation on a resource of src/pp_resource.c leaves in the table.
use freshplayerplugin.Base.{
  ℕ, ◌≡◌, refl, ap, ◌∙◌, false, Option, none, some, ◌==◌, if◌then◌else◌, decr-incr, is_nonpos,
  arith,
}
use freshplayerplugin.Resource.{
  Res, Registry, Attempt, got, missing, busy, find, store, allocate, acquire, acquire_found,
  release, unlock,
}
use freshplayerplugin.Resource.Find.{
  find-store, find-unref, find-unlock, find-allocate, acquired, less, unlocked, new_res,
}
use freshplayerplugin.Resource.Access.{finish, with_resource, look, change, make}

module _ {A : Type 0} where
  -- A resource that is there with the type, and that no thread is inside of.
  pub record IsFree (type h : ℕ) (q : Res A) (g : Registry A) : Type 0 where
    pub there : find h g ≡ some q
    pub typed : q.resource_type ≡ type
    pub free : q.locked ≡ false
    pub counted : is_nonpos q.ref_cnt ≡ false

  -- No resource of the type.
  abbrev pub IsWrong : ℕ → Option (Res A) → Type 0
  IsWrong type none = Unit
  IsWrong type (some q) = (q.resource_type == type) ≡ false

  acquire-free :
      (type h : ℕ) (q : Res A) (g : Registry A)
      → IsFree type h q g
      → acquire h type g ≡ (store h (acquired q) g, got (acquired q))
  unfolding acquire
  acquire-free type h q g f = rw f.there (ground arith)

  acquire_found-wrong :
      (type h : ℕ) (g : Registry A) (o : Option (Res A))
      → IsWrong type o
      → acquire_found h type g o ≡ (g, missing)
  unfolding acquire_found
  acquire_found-wrong type h g none w = refl
  acquire_found-wrong type h g (some q) w = rw w refl

  acquire-wrong :
      (type h : ℕ) (g : Registry A) → IsWrong type (find h g) → acquire h type g ≡ (g, missing)
  unfolding acquire
  acquire-wrong type h g w = acquire_found-wrong type h g (find h g) w

  module _ {ℓ} {B : Type ℓ} where
    abbrev outcome : B → (Res A → Registry A → B) → Registry A × Attempt A → Option B
    outcome absent act x = elim x.1 [
      | missing ↦ some absent
      | busy ↦ none
      | got r ↦ some (act r x.0)
    ]

    pub with_resource-free :
        (type h : ℕ) (q : Res A) (g : Registry A) (absent : B) (act : Res A → Registry A → B)
        → IsFree type h q g
        → with_resource type h g absent act ≡ some (act (acquired q) (store h (acquired q) g))
    unfolding with_resource
    with_resource-free type h q g absent act f =
        ap {B = Option B} (outcome absent act) (acquire-free type h q g f)

    pub with_resource-wrong :
        (type h : ℕ) (g : Registry A) (absent : B) (act : Res A → Registry A → B)
        → IsWrong type (find h g)
        → with_resource type h g absent act ≡ some absent
    unfolding with_resource
    with_resource-wrong type h g absent act w =
        ap {B = Option B} (outcome absent act) (acquire-wrong type h g w)

  pub released :
      (q : Res A) (f : A → A)
      → q.locked ≡ false
      → is_nonpos q.ref_cnt ≡ false
      → less (unlocked (some (record (acquired q) { body = f q.body })))
        ≡ some (record q { body = f q.body })
  released q f free live = ground (arith, decr-incr q.ref_cnt)

  pub find-release-store :
      (h j : ℕ) (q x : Res A) (g : Registry A)
      → less (unlocked (some x)) ≡ some q
      → find j (release h (store h x g)).0 ≡ (if h == j then some q else find j g)
  unfolding release
  find-release-store h j q x g e = ground (
    arith,
    find-unref h j (unlock h (store h x g)),
    find-unlock h h (store h x g),
    find-unlock h j (store h x g),
    find-store h h x g,
    find-store h j x g,
  )

  -- The table after a change of a free resource: its body is changed, and every other resource is
  -- as it was.
  pub find-finish :
      (type h j : ℕ) (f : A → A) (q : Res A) (g : Registry A)
      → IsFree type h q g
      → find j (finish h f (acquired q) (store h (acquired q) g))
        ≡ (if h == j then some (record q { body = f q.body }) else find j g)
  find-finish type h j f q g free =
      find-release-store h j (record q { body = f q.body })
        (record (acquired q) { body = f q.body }) (store h (acquired q) g)
        (released q f free.free free.counted)
      ∙ ground (arith, find-store h j (acquired q) g)

  pub find-release_free :
      (type h j : ℕ) (q : Res A) (g : Registry A)
      → IsFree type h q g
      → find j (release h (store h (acquired q) g)).0 ≡ find j g
  find-release_free type h j q g free =
      find-release-store h j q (acquired q) g (released q (λ b. b) free.free free.counted)
      ∙ ground (arith, free.there)

  module _ {ℓ} {B : Type ℓ} where
    -- A reading operation on a free resource gives what it reads, and changes no resource.
    pub look-free :
        (type h : ℕ) (q : Res A) (g : Registry A) (absent : B) (f : A → B)
        → IsFree type h q g
        → (g' : Registry A) × (look type h g absent f ≡ some (g', f q.body))
          × ((j : ℕ) → find j g' ≡ find j g)
    unfolding look
    look-free type h q g absent f free = (
      (release h (store h (acquired q) g)).0,
      with_resource-free type h q g (g, absent) (λ x x'. ((release h x').0, f x.body)) free,
      λ j. find-release_free type h j q g free,
    )

    pub change-free :
        (type h : ℕ) (q : Res A) (g : Registry A) (absent : B) (f : A → A) (result : A → B)
        → IsFree type h q g
        → (g' : Registry A) × (change type h g absent f result ≡ some (g', result q.body))
          × ((j : ℕ)
              → find j g' ≡ (if h == j then some (record q { body = f q.body }) else find j g))
    unfolding change
    change-free type h q g absent f result free = (
      finish h f (acquired q) (store h (acquired q) g),
      with_resource-free type h q g (g, absent) (λ x x'. (finish h f x x', result x.body)) free,
      λ j. find-finish type h j f q g free,
    )

    pub look-wrong :
        (type h : ℕ) (g : Registry A) (absent : B) (f : A → B)
        → IsWrong type (find h g)
        → look type h g absent f ≡ some (g, absent)
    unfolding look
    look-wrong type h g absent f w =
        with_resource-wrong type h g (g, absent) (λ x x'. ((release h x').0, f x.body)) w

    pub change-wrong :
        (type h : ℕ) (g : Registry A) (absent : B) (f : A → A) (result : A → B)
        → IsWrong type (find h g)
        → change type h g absent f result ≡ some (g, absent)
    unfolding change
    change-wrong type h g absent f result w =
        with_resource-wrong type h g (g, absent) (λ x x'. (finish h f x x', result x.body)) w

  pub IsFree-allocate :
      (zeroed : A) (type inst : ℕ) (g : Registry A)
      → IsFree type g.res_tbl_next
          (new_res zeroed type inst g.res_tbl_next)
          (allocate zeroed type inst g).0
  IsFree-allocate zeroed type inst g = record {
    there = find-allocate zeroed type inst g.res_tbl_next g ∙ ground arith;
    typed = refl;
    free = refl;
    counted = refl;
  }

  -- A constructor for an instance makes one resource under the next handle, with one reference, and
  -- changes no other.
  pub make-some :
      (zeroed : A) (init : A → A) (type inst : ℕ) (g : Registry A)
      → (g' : Registry A) × (make zeroed init type (some inst) g ≡ some (g', g.res_tbl_next))
        × ((j : ℕ)
            → find j g' ≡ (
                if g.res_tbl_next == j
                then some (new_res (init zeroed) type inst g.res_tbl_next)
                else find j g))
  unfolding make allocate
  make-some zeroed init type inst g =
      let q : Res A = new_res zeroed type inst g.res_tbl_next in
      let h : ℕ = g.res_tbl_next in
      let g1 : Registry A = (allocate zeroed type inst g).0 in
      let free : IsFree type h q g1 = IsFree-allocate zeroed type inst g in
      (
        finish h init (acquired q) (store h (acquired q) g1),
        with_resource-free type h q g1 (g1, 0) (λ x x'. (finish h init x x', h)) free,
        λ j.
            find-finish type h j init q g1 free
            ∙ ground (arith, find-allocate zeroed type inst j g),
      )
