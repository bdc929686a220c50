-- ===== src/Base/Assoc.antt =====
-- GLib's hash tables with integer keys (`g_direct_hash`), as association lists: `insert` replaces
-- the value of a key that is there, and `remove` drops the key.
use freshplayerplugin.Base.Tests.{◌==◌, if◌then◌else◌}
use Prim.Native.Nat.{ℕ, ◌+◌, ◌≤◌}
use mathlib.Core.Path.{◌≡◌, refl}
use mathlib.Core.List.{List, [], ◌∷◌}
use mathlib.Core.Option.{Option, none, some}
use native.Mathlib.Omega.{arith}

abbrev pub Assoc {ℓ} : Type ℓ → Type ℓ
Assoc V = List (ℕ × V)

module _ {ℓ} {V : Type ℓ} where
  unfoldable pub lookup : ℕ → Assoc V → Option V
  lookup asked [] = none
  lookup asked ((key, v) ∷ entries) = if key == asked then some v else lookup asked entries

  unfoldable pub insert : ℕ → V → Assoc V → Assoc V
  insert at new [] = (at, new) ∷ []
  insert at new ((key, old) ∷ entries) =
      if key == at then (at, new) ∷ entries else (key, old) ∷ insert at new entries

  unfoldable pub remove : ℕ → Assoc V → Assoc V
  remove k [] = []
  remove k ((j, v) ∷ m) = let rest = remove k m in if j == k then rest else (j, v) ∷ rest

  pub lookup-insert :
      (at asked : ℕ) (new : V) (entries : Assoc V)
      → lookup asked (insert at new entries)
        ≡ (if at == asked then some new else lookup asked entries)
  unfolding insert lookup
  lookup-insert at asked new ((key, old) ∷ entries) =
      ground (arith, lookup-insert at asked new entries)
  lookup-insert at asked new [] = refl

  pub lookup-remove :
      (k j : ℕ) (m : Assoc V) → lookup j (remove k m) ≡ (if k == j then none else lookup j m)
  unfolding lookup remove
  lookup-remove k j [] = ground arith
  lookup-remove k j ((i, w) ∷ m) = ground (arith, lookup-remove k j m)

  -- A sum over the entries.
  unfoldable pub sum_by : (V → ℕ) → Assoc V → ℕ
  sum_by f [] = 0
  sum_by f ((k, v) ∷ m) = f v + sum_by f m

  abbrev pub share : (V → ℕ) → Option V → ℕ
  share f none = 0
  share f (some v) = f v

  pub sum_by-insert :
      (f : V → ℕ) (k : ℕ) (v : V) (m : Assoc V)
      → sum_by f (insert k v m) + share f (lookup k m) ≡ sum_by f m + f v
  unfolding sum_by insert lookup
  sum_by-insert f k v [] = omega arith
  sum_by-insert f k v ((j, w) ∷ m) = ground (arith, sum_by-insert f k v m)

  pub sum_by-remove :
      (f : V → ℕ) (k : ℕ) (m : Assoc V) → sum_by f (remove k m) + share f (lookup k m) ≤ sum_by f m
  unfolding sum_by remove lookup
  sum_by-remove f k [] = omega arith
  sum_by-remove f k ((j, w) ∷ m) = ground (arith, sum_by-remove f k m)

  pub sum_by_le : (f : V → ℕ) (k : ℕ) (m : Assoc V) → share f (lookup k m) ≤ sum_by f m
  unfolding sum_by lookup
  sum_by_le f k [] = omega arith
  sum_by_le f k ((j, w) ∷ m) = ground (arith, sum_by_le f k m)
