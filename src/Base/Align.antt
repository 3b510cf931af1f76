-- ===== src/Base/Align.antt =====
-- Rounding up to an alignment, (x + (a - 1)) & ~(a - 1) on 64-bit words: the idiom of
-- src/schedule.cpp and include/xrune/util/arena.hpp.
use Prim.Native.Nat.{ℕ, zero, suc, ◌+◌, ◌-◌, ◌*◌, ◌/◌, ◌%◌, ◌^◌, ◌<◌, ◌≤◌, bit_and}
use mathlib.Core.Path.{◌≡◌, refl, ap}
use native.Mathlib.Omega.{arith}
use xrune.Base.Bits.{bit_and_digit, two_pow_suc, two_pow_pos}

-- A word operation wraps around at 2 ^ 64.
abbrev pub word : ℕ → ℕ
word x = x % 2 ^ 64

abbrev pub word_pred : ℕ → ℕ
word_pred a = word (a + (2 ^ 64 - 1))

abbrev pub word_not : ℕ → ℕ
word_not x = 2 ^ 64 - 1 - x

unfoldable pub align_up : ℕ → ℕ → ℕ
align_up x a = bit_and (word (x + word_pred a)) (word_not (word_pred a))

-- A mask of ones above bit `k` clears what lies below.
and_ones : (w y : ℕ) → y < 2 ^ w → bit_and y (2 ^ w - 1) ≡ y
and_ones zero y h = let e : y ≡ 0 = omega arith in rw e (refl)
and_ones (suc w) y h =
    let halves : (2 ^ suc w - 1) / 2 ≡ 2 ^ w - 1 = omega (arith, two_pow_suc w, two_pow_pos w) in
    omega (
      arith,
      rw halves at (bit_and_digit y (2 ^ suc w - 1)),
      and_ones w (y / 2) (omega (arith, two_pow_suc w)),
      two_pow_suc w,
      two_pow_pos w,
    )

abbrev Cleared : ℕ → ℕ → ℕ → Type 0
Cleared y k r = (q : ℕ) × (r ≡ q * 2 ^ k) × (r ≤ y) × (y < r + 2 ^ k)

and_high : (k w y : ℕ) → k ≤ w → y < 2 ^ w → Cleared y k (bit_and y (2 ^ w - 2 ^ k))
and_high zero w y h b =
    (y, omega (arith, and_ones w y b), omega (arith, and_ones w y b), omega (arith, and_ones w y b))
and_high (suc k) zero y h b = elim h [ ]
and_high (suc k) (suc w) y h b =
    let halves : (2 ^ suc w - 2 ^ suc k) / 2 ≡ 2 ^ w - 2 ^ k =
      omega (arith, two_pow_suc w, two_pow_suc k) in
    let step = rw halves at (bit_and_digit y (2 ^ suc w - 2 ^ suc k)) in
    let (q, e, lo, hi) = and_high k w (y / 2) (omega arith) (omega (arith, two_pow_suc w)) in
    let even : (2 ^ suc w - 2 ^ suc k) % 2 ≡ 0 = omega (arith, two_pow_suc w, two_pow_suc k) in
    let r : bit_and y (2 ^ suc w - 2 ^ suc k) ≡ 2 * bit_and (y / 2) (2 ^ w - 2 ^ k) =
      omega (arith, step, even) in
    (
      q,
      omega (arith, r, e, ap (λ (t : ℕ). q * t) (two_pow_suc k)),
      omega (arith, r),
      omega (arith, r, two_pow_suc k),
    )

-- The first multiple of 2 ^ k from `x` on, if it is a size_t.
pub align_up_lem :
    (x k : ℕ)
    → k < 64
    → x + 2 ^ k ≤ 2 ^ 64
    → (q : ℕ) × (align_up x (2 ^ k) ≡ q * 2 ^ k)
      × (x ≤ align_up x (2 ^ k))
      × (align_up x (2 ^ k) < x + 2 ^ k)
unfolding align_up
align_up_lem x k h b =
    let p : word_pred (2 ^ k) ≡ 2 ^ k - 1 = omega (arith, two_pow_pos k) in
    let m : word_not (2 ^ k - 1) ≡ 2 ^ 64 - 2 ^ k = omega (arith, two_pow_pos k) in
    let y : word (x + (2 ^ k - 1)) ≡ x + (2 ^ k - 1) = omega (arith, two_pow_pos k) in
    let (q, e, lo, hi) =
      and_high k 64 (x + (2 ^ k - 1)) (omega arith) (omega (arith, two_pow_pos k)) in
    rw (p, m, y) (q, e, omega (arith, two_pow_pos k), omega (arith, two_pow_pos k))
