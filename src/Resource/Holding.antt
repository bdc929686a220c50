-- ===== src/Resource/Holding.antt =====
-- What callers of src/pp_resource.c may rely on: a claimed resource stays, the last claim destroys
-- it, its lock excludes, and an acquisition that is released leaves the table as it was.
use freshplayerplugin.Base.{
  ℕ, zero, suc, ◌+◌, ◌<◌, ◌≡◌, Bool, true, false, not, ◌&&◌, Option, none, some, ◌==◌, bit,
  is_nonpos, decr-incr, arith,
}
use freshplayerplugin.Resource.{
  Res, Registry, Attempt, got, missing, busy, Dropped, kept, destroyed, find, store, get_type,
  acquire, acquire_found, unlock, unref, unref_found, release,
}
use freshplayerplugin.Resource.Find.{
  find-unref, find-unlock, find-store, acquired, acquire-got, less, unlocked,
}
use freshplayerplugin.Resource.Owners.{System, Accounts, Reach, Reach-Inv}

module _ {A : Type 0} where
  abbrev pub is_destroyed : Dropped A → Bool
  is_destroyed kept = false
  is_destroyed (destroyed r d) = true

  unref_found-destroyed :
      (h n : ℕ) (held : Bool) (g : Registry A) (o : Option (Res A))
      → Accounts o n held
      → 0 < n
      → is_destroyed (unref_found h g o).1 ≡ (n == 1 && not held)
  unfolding unref_found
  unref_found-destroyed h n held g none a own = ground arith
  unref_found-destroyed h zero held g (some r) a own = absurd (omega arith)
  unref_found-destroyed h (suc zero) true g (some r) a own = ground arith
  unref_found-destroyed h (suc zero) false g (some r) a own = ground arith
  unref_found-destroyed h (suc (suc n)) held g (some r) a own = ground arith

  -- In every reachable state of the registry, a handle is in the table exactly while some thread
  -- owns a reference to it or is inside its lock; its reference count is then the number of these
  -- claims, and its lock is taken exactly while a thread is inside. So no claimed resource is ever
  -- freed and no unclaimed one is left behind.
  pub Reach-Accounts :
      {s : System A} → Reach s → (h : ℕ) → Accounts (find h s.registry) (s.owned h) (s.held h)
  Reach-Accounts r h = (Reach-Inv r).accounts h

  -- In every reachable state, `pp_resource_unref` by a thread that owns a reference destroys the
  -- resource exactly if that is the only reference and no thread is inside the resource's lock.
  pub unref-destroyed_iff :
      {s : System A}
      → Reach s
      → (h : ℕ) → 0 < s.owned h
      → is_destroyed (unref h s.registry).1 ≡ (s.owned h == 1 && not (s.held h))
  unfolding unref
  unref-destroyed_iff {s} r h own =
      unref_found-destroyed h (s.owned h) (s.held h) s.registry (find h s.registry)
        (Reach-Accounts r h) own

  abbrev pub is_got : Attempt A → Bool
  is_got (got r) = true
  is_got missing = false
  is_got busy = false

  abbrev pub is_busy : Attempt A → Bool
  is_busy (got r) = false
  is_busy missing = false
  is_busy busy = true

  acquire_found-attempt :
      (h type n : ℕ) (held : Bool) (g : Registry A) (o : Option (Res A))
      → Accounts o n held
      → 0 < n + bit held
      → (is_got (acquire_found h type g o).1
          ≡ (elim o [ none ↦ 0 | some r ↦ r.resource_type ] == type && not held))
        × (is_busy (acquire_found h type g o).1
            ≡ (elim o [ none ↦ 0 | some r ↦ r.resource_type ] == type && held))
  unfolding acquire_found
  acquire_found-attempt h type n held g none a c = absurd (ground arith)
  acquire_found-attempt h type n true g (some r) a c = ground arith
  acquire_found-attempt h type n false g (some r) a c = ground arith

  -- In every reachable state, at a handle that some thread has a claim on, an attempt of
  -- `pp_resource_acquire` succeeds exactly if the resource has the wanted type and no thread is
  -- inside its lock, and has to wait exactly if it has the type and a thread is inside.
  pub acquire-attempt_iff :
      {s : System A}
      → Reach s
      → (h type : ℕ) → 0 < s.owned h + bit (s.held h)
      → (is_got (acquire h type s.registry).1 ≡ (get_type h s.registry == type && not (s.held h)))
        × (is_busy (acquire h type s.registry).1 ≡ (get_type h s.registry == type && s.held h))
  unfolding acquire get_type
  acquire-attempt_iff {s} r h type c =
      acquire_found-attempt h type (s.owned h) (s.held h) s.registry (find h s.registry)
        (Reach-Accounts r h) c

  less-unlocked-acquired :
      (q : Res A)
      → q.locked ≡ false
      → is_nonpos q.ref_cnt ≡ false
      → less (unlocked (some (acquired q))) ≡ some q
  less-unlocked-acquired q free live = ground (arith, decr-incr q.ref_cnt)

  -- The same over any table in which the counts are positive.
  pub find-release-acquire :
      (h type j : ℕ) (g : Registry A) {r : Res A}
      → ((q : Res A) → find h g ≡ some q → is_nonpos q.ref_cnt ≡ false)
      → (acquire h type g).1 ≡ got r
      → find j (release h (acquire h type g).0).0 ≡ find j g
  unfolding release
  find-release-acquire h type j g live a =
      let (q, there, free, typed, is, after) = acquire-got h type g a in
      let g1 : Registry A = store h (acquired q) g in
      rw after (
        ground (
          arith,
          find-unref h j (unlock h g1),
          find-unlock h h g1,
          find-unlock h j g1,
          find-store h h (acquired q) g,
          find-store h j (acquired q) g,
          less-unlocked-acquired q free (live q there),
        ))

  -- In every reachable state, a successful `pp_resource_acquire` followed by the
  -- `pp_resource_release` of the handle leaves the table as it was, at every handle.
  pub release-acquire :
      {s : System A}
      → Reach s
      → (h type j : ℕ) {r : Res A} → (acquire h type s.registry).1 ≡ got r
      → find j (release h (acquire h type s.registry).0).0 ≡ find j s.registry
  release-acquire {s} r h type j a =
      find-release-acquire h type j s.registry (λ q e. ground (arith, Reach-Accounts r h)) a
