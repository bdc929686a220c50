-- ===== src/Resource/Access.antt =====
-- How the interfaces of the plugin use src/pp_resource.c: each operation acquires a resource of its
-- type, reads or changes the structure, and releases it; a constructor allocates one first.
-- `none` as a result is that the thread still waits for the resource's lock.
pub mod Effects
pub mod Created
use freshplayerplugin.Base.{ℕ, Bool, false, not, Option, none, some, ◌==◌}
use freshplayerplugin.Resource.{
  Res, Registry, got, missing, busy, find, allocate, acquire, store, release,
}

module _ {A : Type 0} where
  -- the assignments of the holder of the lock, and the release
  abbrev pub finish : ℕ → (A → A) → Res A → Registry A → Registry A
  finish h f r g = (release h (store h (record r { body = f r.body }) g)).0

  -- An operation on an acquired resource: `absent` if `pp_resource_acquire` returns NULL.
  unfoldable pub with_resource {ℓ} :
      {B : Type ℓ} → ℕ → ℕ → Registry A → B → (Res A → Registry A → B) → Option B
  with_resource type h g absent act =
      let attempt = acquire h type g in
      elim attempt.1 [ missing ↦ some absent | busy ↦ none | got r ↦ some (act r attempt.0) ]

  -- a reading operation
  unfoldable pub look {ℓ} :
      {B : Type ℓ} → ℕ → ℕ → Registry A → B → (A → B) → Option (Registry A × B)
  unfolding with_resource
  look type h g absent f = with_resource type h g (g, absent) (λ r g'. ((release h g').0, f r.body))

  -- a changing operation, with its result
  unfoldable pub change {ℓ} :
      {B : Type ℓ} → ℕ → ℕ → Registry A → B → (A → A) → (A → B) → Option (Registry A × B)
  unfolding with_resource
  change type h g absent f result =
      with_resource type h g (g, absent) (λ r g'. (finish h f r g', result r.body))

  -- A constructor for an instance that was found, or was not; the handle 0 is an error.
  unfoldable pub make : A → (A → A) → ℕ → Option ℕ → Registry A → Option (Registry A × ℕ)
  unfolding with_resource
  make zeroed init type none g = some (g, 0)
  make zeroed init type (some inst) g =
      let made = allocate zeroed type inst g in
      with_resource type made.1 made.0 (made.0, 0) (λ r g'. (finish made.1 init r g', made.1))
