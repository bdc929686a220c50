-- ===== src/Base/Int.antt =====
-- C's `int` counters: integers with the steps up and down by one and the sign tests. Signed
-- overflow is undefined in C and is not represented.
use Prim.Native.Nat.{ℕ, zero, suc}
use mathlib.Core.Path.{◌≡◌, refl}
use mathlib.Core.Bool.{Bool, true, false}

-- `negsuc n` is -(n + 1).
pub data ℤ : Type 0 where
  pos : ℕ → ℤ
  negsuc : ℕ → ℤ

abbrev pub incr : ℤ → ℤ
incr (pos n) = pos (suc n)
incr (negsuc zero) = pos 0
incr (negsuc (suc n)) = negsuc n

abbrev pub decr : ℤ → ℤ
decr (pos zero) = negsuc 0
decr (pos (suc n)) = pos n
decr (negsuc n) = negsuc (suc n)

-- `z <= 0`
abbrev pub is_nonpos : ℤ → Bool
is_nonpos (pos zero) = true
is_nonpos (pos (suc n)) = false
is_nonpos (negsuc n) = true

pub decr-incr : (z : ℤ) → decr (incr z) ≡ z
decr-incr (pos n) = refl
decr-incr (negsuc zero) = refl
decr-incr (negsuc (suc n)) = refl

pub incr_positive : (z : ℤ) → is_nonpos z ≡ false → is_nonpos (incr z) ≡ false
incr_positive (pos zero) e = refl
incr_positive (pos (suc n)) e = refl
incr_positive (negsuc n) e = cc
