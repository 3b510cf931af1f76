-- ===== src/Base/Bits.antt =====
-- Bit tricks on size_t: the power-of-two test and rounding up to an alignment.
use Prim.Native.Nat.{digits, bit_and-bitwise}
use Prim.Native.Nat.{ℕ, zero, suc, ◌+◌, ◌-◌, ◌*◌, ◌/◌, ◌%◌, ◌^◌, ◌<◌, ◌≤◌, bit_and, min}
use mathlib.Core.Path.{◌≡◌, refl, ap}
use mathlib.Core.Logic.{inl, inr}
use native.Mathlib.Nat.{pow-suc, pow-le-pow_right}
use native.Mathlib.Omega.{arith}
use xrune.Base.Tests.{◌==◌, Bool-cases}

-- `bit_and` digit by digit, where `n` is fuel.
abbrev common : ℕ → ℕ → ℕ → ℕ
common n a b = digits (λ d. zero) min n a b

-- Fuel that covers the first number is enough: more of it changes nothing.
common_fuel : (n m a b : ℕ) → a ≤ n → a ≤ m → common n a b ≡ common m a b
common_fuel zero zero zero b p q = refl
common_fuel zero (suc m) zero b p q = refl
common_fuel (suc n) zero zero b p q = refl
common_fuel (suc n) (suc m) zero b p q = refl
common_fuel zero m (suc a) b p q = elim p [ ]
common_fuel (suc n) zero (suc a) b p q = elim q [ ]
common_fuel (suc n) (suc m) (suc a) b p q =
    let half : suc a / 2 ≤ a = omega arith in
    omega (arith, common_fuel n m (suc a / 2) (b / 2) (omega arith) (omega arith))

pub bit_and_digit : (a b : ℕ) → bit_and a b ≡ bit_and (a / 2) (b / 2) * 2 + min (a % 2) (b % 2)
bit_and_digit zero b = omega (arith, bit_and-bitwise 0 b, bit_and-bitwise 0 (b / 2))
bit_and_digit (suc a) b = omega (
  arith,
  bit_and-bitwise (suc a) b,
  bit_and-bitwise (suc a / 2) (b / 2),
  common_fuel a (suc a / 2) (suc a / 2) (b / 2) (omega arith) (omega arith),
)

-- The test x && (x & (x - 1)) == 0 of a power of two, as an equation.
bit_and_self : (n a : ℕ) → a ≤ n → bit_and a a ≡ a
bit_and_self n zero h = bit_and-bitwise 0 0
bit_and_self zero (suc a) h = elim h [ ]
bit_and_self (suc n) (suc a) h =
    omega (arith, bit_and_digit (suc a) (suc a), bit_and_self n (suc a / 2) (omega arith))

pub two_pow_suc : (k : ℕ) → 2 ^ suc k ≡ 2 * 2 ^ k
two_pow_suc k = omega (arith, pow-suc 2 k)

pub two_pow_pos : (k : ℕ) → 0 < 2 ^ k
two_pow_pos zero = omega arith
two_pow_pos (suc k) = omega (arith, two_pow_suc k, two_pow_pos k)

and_even : (x : ℕ) → x % 2 ≡ 0 → 0 < x → bit_and x (x - 1) ≡ bit_and (x / 2) (x / 2 - 1) * 2
and_even x e p =
    let shifted : (x - 1) / 2 ≡ x / 2 - 1 = omega arith in
    omega (arith, rw shifted at (bit_and_digit x (x - 1)))

and_odd : (x : ℕ) → x % 2 ≡ 1 → bit_and x (x - 1) ≡ x / 2 * 2
and_odd x e =
    let shifted : (x - 1) / 2 ≡ x / 2 = omega arith in
    omega (arith, rw shifted at (bit_and_digit x (x - 1)), bit_and_self x (x / 2))

pub power_of_and : (n x : ℕ) → x ≤ n → 0 < x → bit_and x (x - 1) ≡ 0 → (k : ℕ) × (x ≡ 2 ^ k)
power_of_and zero x h p e = absurd (omega arith)
power_of_and (suc n) x h p e = elim (Bool-cases (x % 2 == 0)) [
  | inl even ↦
      let is_even : x % 2 ≡ 0 = ground arith in
      let (k, half) =
        power_of_and n (x / 2) (omega arith) (omega arith) (omega (arith, and_even x is_even p)) in
      (suc k, omega (arith, two_pow_suc k))
  | inr odd ↦ let is_odd : x % 2 ≡ 1 = ground arith in (0, omega (arith, and_odd x is_odd))
]

pub and_of_power : (k : ℕ) → bit_and (2 ^ k) (2 ^ k - 1) ≡ 0
and_of_power zero = refl
and_of_power (suc k) =
    let halves : (2 ^ suc k - 1) / 2 ≡ 2 ^ k - 1 = omega (arith, two_pow_suc k, two_pow_pos k) in
    let half : 2 ^ suc k / 2 ≡ 2 ^ k = omega (arith, two_pow_suc k) in
    let step = bit_and_digit (2 ^ suc k) (2 ^ suc k - 1) in
    omega (arith, rw (halves, half) at step, and_of_power k, two_pow_suc k)

pub two_pow_add : (k j : ℕ) → 2 ^ k * 2 ^ j ≡ 2 ^ (k + j)
two_pow_add k zero = let e : k + 0 ≡ k = omega arith in rw e (omega arith)
two_pow_add k (suc j) =
    let e : k + suc j ≡ suc (k + j) = omega arith in
    rw e (
      omega
        (arith, two_pow_add k j, two_pow_suc (k + j), ap (λ (t : ℕ). 2 ^ k * t) (two_pow_suc j)))

-- A power of two is a size_t below 2 ^ 64, and wraps around to 0 from there on.
pub two_pow_fits : (m : ℕ) → m < 64 → 2 * 2 ^ m ≤ 2 ^ 64
two_pow_fits m h =
    omega (arith, pow-le-pow_right {n = 2} (omega arith) {i = m} {j = 63} (omega arith))

pub two_pow_wraps : (m : ℕ) → 64 ≤ m → 2 ^ m % 2 ^ 64 ≡ 0
two_pow_wraps m h =
    let split : m - 64 + 64 ≡ m = omega arith in
    omega (arith, rw split at (two_pow_add (m - 64) 64))
