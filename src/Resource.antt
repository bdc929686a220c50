-- ===== src/Resource.antt =====
-- src/pp_resource.c and src/pp_resource.h: the table of PPAPI resources. A resource is found by an
-- integer handle, counts its references, and has a lock that `pp_resource_acquire` takes.
-- The type parameter is what a component stores behind the common structure fields. A handle and
-- a type are the bit patterns of C's 32-bit numbers; 0 is the invalid handle.
pub mod Find
pub mod Access
pub mod Owners
pub mod Holding
pub mod Histogram
use freshplayerplugin.Base.{
  ℕ, zero, suc, ◌+◌, ◌%◌, ◌^◌, Bool, true, false, not, ◌&&◌, Option, none, some, List, [], ◌∷◌,
  ◌==◌, ltb, if◌then◌else◌, ℤ, pos, incr, decr, is_nonpos,
}
use freshplayerplugin.Base.Assoc.{Assoc, lookup, insert, remove}

-- COMMON_STRUCTURE_FIELDS, and the rest of the structure
pub record Res (A : Type 0) : Type 0 where
  pub resource_type : ℕ
  pub ref_cnt : ℤ
  pub instance_ptr : ℕ
  pub self_id : ℕ
  pub locked : Bool
  pub body : A

-- The static variables. A destructor is named by its address; `none` is the table not created yet.
pub record Registry (A : Type 0) : Type 0 where
  pub res_tbl : Assoc (Res A)
  pub res_tbl_next : ℕ
  pub destructors : Option (Assoc ℕ)

-- One pass of the loop in `pp_resource_acquire`: the resource is the caller's, there is no such
-- resource, or its lock is taken and the loop sleeps and tries again.
pub data Attempt (A : Type 0) : Type 0 where
  got : Res A → Attempt A
  missing : Attempt A
  busy : Attempt A

-- What `pp_resource_unref` did beyond the count: nothing, or the resource went, after its
-- destructor, if one is registered.
pub data Dropped (A : Type 0) : Type 0 where
  kept : Dropped A
  destroyed : Res A → Option ℕ → Dropped A

abbrev pub unknown_type : ℕ
unknown_type = 0

abbrev pub types_count : ℕ
types_count = 33

abbrev pub empty : {A : Type 0} → Registry A
empty = record { res_tbl = []; res_tbl_next = 1; destructors = none }

-- `counts[k] ++`
bump : ℕ → List ℕ → List ℕ
bump zero [] = []
bump (suc k) [] = []
bump zero (n ∷ counts) = (n + 1) ∷ counts
bump (suc k) (n ∷ counts) = n ∷ bump k counts

bucket : ℕ → ℕ
bucket type = if ltb type types_count then type else types_count

module _ {A : Type 0} where
  abbrev pub find : ℕ → Registry A → Option (Res A)
  find h g = lookup h g.res_tbl

  abbrev pub store : ℕ → Res A → Registry A → Registry A
  store h r g = record g { res_tbl = insert h r g.res_tbl }

  -- `zeroed` is the body as g_slice_alloc0 leaves it.
  unfoldable pub allocate : A → ℕ → ℕ → Registry A → Registry A × ℕ
  allocate zeroed type inst g =
      let id = g.res_tbl_next in
      let res : Res A = record {
        resource_type = type;
        ref_cnt = pos 1;
        instance_ptr = inst;
        self_id = id;
        locked = false;
        body = zeroed;
      } in
      (store id res (record g { res_tbl_next = (id + 1) % 2 ^ 32 }), id)

  unfoldable pub expunge : ℕ → Registry A → Registry A
  expunge h g = elim (find h g) [ none ↦ g | some r ↦ record g { res_tbl = remove h g.res_tbl } ]

  acquire_found : ℕ → ℕ → Registry A → Option (Res A) → Registry A × Attempt A
  acquire_found h type g none = (g, missing)
  acquire_found h type g (some r) =
      if not (r.resource_type == type)
      then (g, missing)
      else if r.locked
      then (g, busy)
      else let r' = record r { ref_cnt = incr r.ref_cnt; locked = true } in (store h r' g, got r')

  unfoldable pub acquire : ℕ → ℕ → Registry A → Registry A × Attempt A
  unfolding acquire_found
  acquire h type g = acquire_found h type g (find h g)

  -- the part of `pp_resource_release` under the table's lock
  unlock_found : ℕ → Registry A → Option (Res A) → Registry A
  unlock_found h g none = g
  unlock_found h g (some r) = store h (record r { locked = false }) g

  unfoldable pub unlock : ℕ → Registry A → Registry A
  unfolding unlock_found
  unlock h g = unlock_found h g (find h g)

  unfoldable pub get_type : ℕ → Registry A → ℕ
  get_type h g = elim (find h g) [ none ↦ unknown_type | some r ↦ r.resource_type ]

  add_ref_found : ℕ → Registry A → Option (Res A) → Registry A
  add_ref_found h g none = g
  add_ref_found h g (some r) = store h (record r { ref_cnt = incr r.ref_cnt }) g

  unfoldable pub add_ref : ℕ → Registry A → Registry A × ℕ
  unfolding add_ref_found
  add_ref h g = (add_ref_found h g (find h g), h)

  abbrev pub destructor_of : ℕ → Registry A → Option ℕ
  destructor_of type g = elim g.destructors [ none ↦ none | some d ↦ lookup type d ]

  unref_found : ℕ → Registry A → Option (Res A) → Registry A × Dropped A
  unref_found h g none = (g, kept)
  unref_found h g (some r) =
      let r' = record r { ref_cnt = decr r.ref_cnt } in
      if is_nonpos r'.ref_cnt
      then (
        record g { res_tbl = remove h g.res_tbl },
        destroyed r' (destructor_of r.resource_type g),
      )
      else (store h r' g, kept)

  unfoldable pub unref : ℕ → Registry A → Registry A × Dropped A
  unfolding unref_found
  unref h g = unref_found h g (find h g)

  unfoldable pub release : ℕ → Registry A → Registry A × Dropped A
  release h g = unref h (unlock h g)

  unfoldable pub register : ℕ → ℕ → Registry A → Registry A
  register type destructor g =
      let ht : Assoc ℕ = elim g.destructors [ none ↦ [] | some d ↦ d ] in
      record g { destructors = some (insert type destructor ht) }

  -- one call of `count_resources_cb`, and the traversal of the table
  count_resources_cb : List ℕ → Res A → List ℕ
  unfolding bump bucket
  count_resources_cb counts r = bump (bucket r.resource_type) counts

  unfoldable pub count_resources : List ℕ → Assoc (Res A) → List ℕ
  unfolding count_resources_cb
  count_resources counts [] = counts
  count_resources counts ((h, r) ∷ m) = count_resources (count_resources_cb counts r) m
