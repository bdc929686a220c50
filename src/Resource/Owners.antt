-- ===== src/Resource/Owners.antt =====
-- The reference counts of src/pp_resource.c as ownership: threads own references, and hold the
-- lock of a resource between `pp_resource_acquire` and `pp_resource_release`. Every operation is
-- one step under the table's lock; `pp_resource_release` is two, and others may come between.
use freshplayerplugin.Base.{
  ℕ, ◌+◌, ◌-◌, ◌^◌, ◌≤◌, ◌<◌, ◌≡◌, refl, Bool, true, false, Option, none, some, ◌==◌, if◌then◌else◌,
  bit, pos, arith,
}
use freshplayerplugin.Base.Assoc.{lookup}
use freshplayerplugin.Resource.Find.{
  find-allocate, find-add_ref, find-unref, find-unlock, find-store, next-add_ref, next-unref,
  next-unlock, acquired, acquire-got,
}
use freshplayerplugin.Resource.{
  Res, Registry, empty, find, allocate, acquire, unlock, add_ref, unref, got, register,
}

-- The registry, the references that threads own for each handle, and who is inside its lock.
pub record System (A : Type 0) : Type 0 where
  pub registry : Registry A
  pub owned : ℕ → ℕ
  pub held : ℕ → Bool

abbrev pub update {ℓ} : {V : Type ℓ} → (ℕ → V) → ℕ → V → ℕ → V
update f h v k = if h == k then v else f k

module _ {A : Type 0} where
  abbrev pub initial : System A
  initial = record { registry = empty; owned = λ _. 0; held = λ _. false }

  -- A thread drops only a reference that it owns, and unlocks only what it holds. The unlocking
  -- half of a release leaves it the reference that `pp_resource_acquire` took.
  pub data Step (s : System A) : System A → Type 0 where
    allocates :
        (zeroed : A) (type inst : ℕ)
        → s.registry.res_tbl_next + 1 < 2 ^ 32
        → Step s (record {
          registry = (allocate zeroed type inst s.registry).0;
          owned = update s.owned s.registry.res_tbl_next 1;
          held = s.held;
        })
    refs :
        (h : ℕ)
        → 0 < s.owned h
        → Step s (record {
          registry = (add_ref h s.registry).0;
          owned = update s.owned h (s.owned h + 1);
          held = s.held;
        })
    unrefs :
        (h : ℕ)
        → 0 < s.owned h
        → Step s (record {
          registry = (unref h s.registry).0;
          owned = update s.owned h (s.owned h - 1);
          held = s.held;
        })
    acquires :
        (h type : ℕ) (r : Res A)
        → (acquire h type s.registry).1 ≡ got r
        → Step s (record {
          registry = (acquire h type s.registry).0;
          owned = s.owned;
          held = update s.held h true;
        })
    unlocks :
        (h : ℕ)
        → s.held h ≡ true
        → Step s (record {
          registry = unlock h s.registry;
          owned = update s.owned h (s.owned h + 1);
          held = update s.held h false;
        })
    registers :
        (type destructor : ℕ)
        → Step s (record {
          registry = register type destructor s.registry;
          owned = s.owned;
          held = s.held;
        })

  pub data Reach : System A → Type 0 where
    here : Reach initial
    next : {s t : System A} → Reach s → Step s t → Reach t

  -- A resource is in the table exactly while somebody owns or holds it, and its count is the
  -- number of those claims.
  abbrev pub Accounts : Option (Res A) → ℕ → Bool → Type 0
  Accounts none owned held = (owned ≡ 0) × (held ≡ false)
  Accounts (some r) owned held =
      (r.ref_cnt ≡ pos (owned + bit held)) × (r.locked ≡ held) × (0 < owned + bit held)

  pub record Inv (s : System A) : Type 0 where
    pub accounts : (h : ℕ) → Accounts (find h s.registry) (s.owned h) (s.held h)
    pub fresh : (h : ℕ) → s.registry.res_tbl_next ≤ h → find h s.registry ≡ none

  Inv-initial : Inv initial
  unfolding lookup
  Inv-initial = record { accounts = λ h. (refl, refl); fresh = λ h l. refl }

  abbrev after_allocate : System A → A → ℕ → ℕ → System A
  after_allocate s zeroed type inst = record {
    registry = (allocate zeroed type inst s.registry).0;
    owned = update s.owned s.registry.res_tbl_next 1;
    held = s.held;
  }

  allocates-Inv :
      (zeroed : A) (type inst : ℕ) {s : System A}
      → s.registry.res_tbl_next + 1 < 2 ^ 32
      → Inv s
      → Inv (after_allocate s zeroed type inst)
  allocates-Inv zeroed type inst {s} small inv = record {
    accounts = λ h.
        ground (arith, inv.accounts h, inv.fresh h, find-allocate zeroed type inst h s.registry);
    fresh = λ h l.
        unfold allocate in ground (arith, inv.fresh h, find-allocate zeroed type inst h s.registry);
  }

  unrefs-Accounts :
      (h k : ℕ) (s : System A)
      → 0 < s.owned h
      → Inv s
      → Accounts (find k (unref h s.registry).0) (update s.owned h (s.owned h - 1) k) (s.held k)
  unrefs-Accounts h k s own inv =
      rw (find-unref h k s.registry) (ground (arith, inv.accounts h, inv.accounts k))

  -- Every step keeps the accounts.
  Step-Inv : {s t : System A} → Step s t → Inv s → Inv t
  Step-Inv (allocates zeroed type inst small) inv = allocates-Inv zeroed type inst small inv
  Step-Inv {s} (refs h own) inv = record {
    accounts =
        λ k. rw (find-add_ref h k s.registry) (ground (arith, inv.accounts h, inv.accounts k));
    fresh = λ k l.
        rw (find-add_ref h k s.registry)
          (ground (arith, inv.fresh h, inv.fresh k, inv.accounts h, next-add_ref h s.registry));
  }
  Step-Inv {s} (unrefs h own) inv = record {
    accounts = λ k. unrefs-Accounts h k s own inv;
    fresh = λ k l.
        rw (find-unref h k s.registry)
          (ground (arith, inv.fresh h, inv.fresh k, inv.accounts h, next-unref h s.registry));
  }
  Step-Inv {s} (acquires h type r a) inv =
      let (q, there, free, typed, is, after) = acquire-got h type s.registry a in
      rw after record {
        accounts = λ k.
            ground (arith, inv.accounts h, inv.accounts k, find-store h k (acquired q) s.registry);
        fresh =
            λ k l. ground (arith, inv.fresh h, inv.fresh k, find-store h k (acquired q) s.registry);
      }
  Step-Inv {s} (unlocks h hold) inv = record {
    accounts =
        λ k. rw (find-unlock h k s.registry) (ground (arith, inv.accounts h, inv.accounts k));
    fresh = λ k l.
        rw (find-unlock h k s.registry)
          (ground (arith, inv.fresh h, inv.fresh k, inv.accounts h, next-unlock h s.registry));
  }
  Step-Inv (registers type destructor) inv =
      unfold register in record { accounts = inv.accounts; fresh = inv.fresh }

  pub Reach-Inv : {s : System A} → Reach s → Inv s
  Reach-Inv here = Inv-initial
  Reach-Inv (next r st) = Step-Inv st (Reach-Inv r)
