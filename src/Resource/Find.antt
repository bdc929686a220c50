-- ===== src/Resource/Find.antt =====
-- What each operation of src/pp_resource.c leaves in the table at each handle.
use freshplayerplugin.Base.{
  ℕ, ◌≡◌, refl, true, false, Option, none, some, ◌==◌, if◌then◌else◌, pos, incr, decr, is_nonpos,
  arith,
}
use freshplayerplugin.Base.Assoc.{lookup-insert, lookup-remove}
use freshplayerplugin.Resource.{
  Res, Registry, got, destroyed, find, store, allocate, expunge, acquire, acquire_found, unlock,
  unlock_found, add_ref, add_ref_found, unref, unref_found,
}

module _ {A : Type 0} where
  abbrev pub new_res : A → ℕ → ℕ → ℕ → Res A
  new_res zeroed type inst id = record {
    resource_type = type;
    ref_cnt = pos 1;
    instance_ptr = inst;
    self_id = id;
    locked = false;
    body = zeroed;
  }

  -- The entry of a handle after one more, and one less, reference to it.
  abbrev pub more : Option (Res A) → Option (Res A)
  more none = none
  more (some r) = some (record r { ref_cnt = incr r.ref_cnt })

  abbrev pub less : Option (Res A) → Option (Res A)
  less none = none
  less (some r) =
      if is_nonpos (decr r.ref_cnt) then none else some (record r { ref_cnt = decr r.ref_cnt })

  abbrev pub unlocked : Option (Res A) → Option (Res A)
  unlocked none = none
  unlocked (some r) = some (record r { locked = false })

  abbrev pub acquired : Res A → Res A
  acquired r = record r { ref_cnt = incr r.ref_cnt; locked = true }

  pub find-store :
      (h j : ℕ) (r : Res A) (g : Registry A)
      → find j (store h r g) ≡ (if h == j then some r else find j g)
  find-store h j r g = lookup-insert h j r g.res_tbl

  pub find-allocate :
      (zeroed : A) (type inst j : ℕ) (g : Registry A)
      → find j (allocate zeroed type inst g).0
        ≡ (if g.res_tbl_next == j then some (new_res zeroed type inst g.res_tbl_next) else find j g)
  unfolding allocate
  find-allocate zeroed type inst j g = lookup-insert g.res_tbl_next j _ g.res_tbl

  find-add_ref_found :
      (h j : ℕ) (g : Registry A) (o : Option (Res A))
      → find h g ≡ o
      → find j (add_ref_found h g o) ≡ (if h == j then more o else find j g)
  unfolding add_ref_found
  find-add_ref_found h j g none e = ground arith
  find-add_ref_found h j g (some r) e = find-store h j _ g

  pub find-add_ref :
      (h j : ℕ) (g : Registry A)
      → find j (add_ref h g).0 ≡ (if h == j then more (find h g) else find j g)
  unfolding add_ref
  find-add_ref h j g = find-add_ref_found h j g (find h g) refl

  find-unref_found :
      (h j : ℕ) (g : Registry A) (o : Option (Res A))
      → find h g ≡ o
      → find j (unref_found h g o).0 ≡ (if h == j then less o else find j g)
  unfolding unref_found
  find-unref_found h j g none e = ground arith
  find-unref_found h j g (some r) e =
      ground (
        arith,
        find-store h j (record r { ref_cnt = decr r.ref_cnt }) g,
        lookup-remove h j g.res_tbl,
      )

  pub find-unref :
      (h j : ℕ) (g : Registry A)
      → find j (unref h g).0 ≡ (if h == j then less (find h g) else find j g)
  unfolding unref
  find-unref h j g = find-unref_found h j g (find h g) refl

  find-unlock_found :
      (h j : ℕ) (g : Registry A) (o : Option (Res A))
      → find h g ≡ o
      → find j (unlock_found h g o) ≡ (if h == j then unlocked o else find j g)
  unfolding unlock_found
  find-unlock_found h j g none e = ground arith
  find-unlock_found h j g (some r) e = find-store h j _ g

  pub find-unlock :
      (h j : ℕ) (g : Registry A)
      → find j (unlock h g) ≡ (if h == j then unlocked (find h g) else find j g)
  unfolding unlock
  find-unlock h j g = find-unlock_found h j g (find h g) refl

  pub find-expunge :
      (h j : ℕ) (g : Registry A) → find j (expunge h g) ≡ (if h == j then none else find j g)
  unfolding expunge
  find-expunge h j g = ground (arith, lookup-remove h j g.res_tbl)

  -- The last reference takes the resource out of the table.
  pub unref-last :
      (h : ℕ) (g : Registry A) (q : Res A)
      → find h g ≡ some q
      → q.ref_cnt ≡ pos 1
      → (d : Option ℕ) × (r : Res A) × ((unref h g).1 ≡ destroyed r d) × (r.body ≡ q.body)
  unfolding unref unref_found
  unref-last h g q e one = rw (e, one) (_, _, refl, refl)

  next-unref_found :
      (h : ℕ) (g : Registry A) (o : Option (Res A))
      → (unref_found h g o).0.res_tbl_next ≡ g.res_tbl_next
  unfolding unref_found
  next-unref_found h g none = refl
  next-unref_found h g (some r) = ground arith

  pub next-unref : (h : ℕ) (g : Registry A) → (unref h g).0.res_tbl_next ≡ g.res_tbl_next
  unfolding unref
  next-unref h g = next-unref_found h g (find h g)

  pub next-add_ref : (h : ℕ) (g : Registry A) → (add_ref h g).0.res_tbl_next ≡ g.res_tbl_next
  unfolding add_ref add_ref_found
  next-add_ref h g = ground arith

  pub next-unlock : (h : ℕ) (g : Registry A) → (unlock h g).res_tbl_next ≡ g.res_tbl_next
  unfolding unlock unlock_found
  next-unlock h g = ground arith

  -- A resource is acquired just if it is there, has the type and is not locked.
  acquire_found-got :
      (h type : ℕ) (g : Registry A) (o : Option (Res A)) {r : Res A}
      → find h g ≡ o
      → (acquire_found h type g o).1 ≡ got r
      → (q : Res A) × (o ≡ some q)
        × (q.locked ≡ false)
        × (q.resource_type ≡ type)
        × (r ≡ acquired q)
        × ((acquire_found h type g o).0 ≡ store h (acquired q) g)
  unfolding acquire_found
  acquire_found-got h type g none e a = cc
  acquire_found-got h type g (some q) e a =
      (q, refl, ground arith, ground arith, ground arith, ground arith)

  pub acquire-got :
      (h type : ℕ) (g : Registry A) {r : Res A}
      → (acquire h type g).1 ≡ got r
      → (q : Res A) × (find h g ≡ some q)
        × (q.locked ≡ false)
        × (q.resource_type ≡ type)
        × (r ≡ acquired q)
        × ((acquire h type g).0 ≡ store h (acquired q) g)
  unfolding acquire
  acquire-got h type g a = acquire_found-got h type g (find h g) refl a
