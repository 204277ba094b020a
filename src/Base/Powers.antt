-- ===== src/Base/Powers.antt =====
-- `is_power_of_two` of the standard library.
use Prim.Native.Nat.{ℕ, zero, suc, ◌^◌, ◌≤◌, ◌<◌}
use mathlib.Core.Path.{◌≡◌, refl}
use mathlib.Core.Logic.{inl, inr}
use mathlib.Core.Bool.{Bool, true, ◌||◌}
use native.Mathlib.Omega.{arith}
use undelete_master.Base.Tests.{◌==◌, Bool-cases}

-- The value is some 2 ^ k, for k up to the first argument.
abbrev pub power_of_two_upto : ℕ → ℕ → Bool
power_of_two_upto zero value = value == 1
power_of_two_upto (suc k) value = value == 2 ^ suc k || power_of_two_upto k value

pub power_of_two_upto_sound :
    (n v : ℕ) → power_of_two_upto n v ≡ true → (k : ℕ) × (k ≤ n) × (v ≡ 2 ^ k)
power_of_two_upto_sound zero v h = (0, ground arith, ground arith)
power_of_two_upto_sound (suc n) v h = elim (Bool-cases (v == 2 ^ suc n)) [
  | inl e ↦ (suc n, ground arith, ground arith)
  | inr e ↦ let (k, le, p) = power_of_two_upto_sound n v (ground arith) in (k, omega arith, p)
]

pub power_of_two_upto_pow : (n k : ℕ) → k ≤ n → power_of_two_upto n (2 ^ k) ≡ true
power_of_two_upto_pow zero zero h = refl
power_of_two_upto_pow zero (suc k) h = absurd (omega arith)
power_of_two_upto_pow (suc n) k h = elim (Bool-cases (k == suc n)) [
  | inl e ↦ let e' : k ≡ suc n = ground arith in rw e' (ground arith)
  | inr e ↦ ground (arith, power_of_two_upto_pow n k (ground arith))
]

-- `is_power_of_two`, on any width up to 64 bits.
unfoldable pub is_power_of_two : ℕ → Bool
is_power_of_two value = power_of_two_upto 63 value

pub is_power_of_two_sound : (v : ℕ) → is_power_of_two v ≡ true → (k : ℕ) × (k ≤ 63) × (v ≡ 2 ^ k)
unfolding is_power_of_two
is_power_of_two_sound v h = power_of_two_upto_sound 63 v h

pub is_power_of_two_pow : (k : ℕ) → k ≤ 63 → is_power_of_two (2 ^ k) ≡ true
unfolding is_power_of_two
is_power_of_two_pow k h = power_of_two_upto_pow 63 k h

pub is_power_of_two_pos : (v : ℕ) → is_power_of_two v ≡ true → 0 < v
unfolding is_power_of_two
is_power_of_two_pos zero h = cc
is_power_of_two_pos (suc v) h = omega arith
