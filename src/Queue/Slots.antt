-- ===== src/Queue/Slots.antt =====
-- The cell of a position, and the comparison of a sequence number with a position.
use Prim.Native.Nat.{bit_and}
use native.Mathlib.Nat.{mul-le-mul_right}
use xrune.Base.{
  ℕ, zero, suc, ◌+◌, ◌-◌, ◌*◌, ◌/◌, ◌%◌, ◌^◌, ◌<◌, ◌≤◌, ◌≡◌, refl, ap, arith, bit_and_digit,
  two_pow_suc, two_pow_pos, dec_lt,
}
use xrune.Queue.{slot, Verdict, same, behind, beyond, verdict}

-- The low `k` digits of `y`, with the quotient that they leave.
abbrev Rest : ℕ → ℕ → ℕ → Type 0
Rest y k r = (q : ℕ) × (y ≡ q * 2 ^ k + r) × (r < 2 ^ k)

and_zero : (n y : ℕ) → y ≤ n → bit_and y 0 ≡ 0
and_zero n zero h = refl
and_zero zero (suc y) h = elim h [ ]
and_zero (suc n) (suc y) h =
    omega (arith, bit_and_digit (suc y) 0, and_zero n (suc y / 2) (omega arith))

and_low : (k y : ℕ) → Rest y k (bit_and y (2 ^ k - 1))
and_low zero y =
    let none_left : bit_and y (2 ^ 0 - 1) ≡ 0 = and_zero y y (omega arith) in
    (y, omega (arith, none_left), omega (arith, none_left))
and_low (suc k) y =
    let halves : (2 ^ suc k - 1) / 2 ≡ 2 ^ k - 1 = omega (arith, two_pow_suc k, two_pow_pos k) in
    let odd : (2 ^ suc k - 1) % 2 ≡ 1 = omega (arith, two_pow_suc k, two_pow_pos k) in
    let (q, e, lt) = and_low k (y / 2) in
    let step = rw halves at (bit_and_digit y (2 ^ suc k - 1)) in
    (
      q,
      omega (arith, step, odd, e, ap (λ (t : ℕ). q * t) (two_pow_suc k)),
      omega (arith, step, odd, lt, two_pow_suc k),
    )

multiples_apart : (q p c : ℕ) → q < p → q * c + c ≤ p * c
multiples_apart q p c h =
    let lifted : suc q ≤ p = omega arith in omega (arith, mul-le-mul_right c lifted)

-- Two positions less than the capacity apart have the same cell only if they are equal.
pub slot_apart :
    (k a b : ℕ) → slot (2 ^ k - 1) a ≡ slot (2 ^ k - 1) b → a < b + 2 ^ k → b < a + 2 ^ k → a ≡ b
unfolding slot
slot_apart k a b e h g =
    let (q, eq, lt) = and_low k a in
    let (p, ep, lp) = and_low k b in
    elim (dec_lt q p) [
      | yes l ↦ absurd (omega (arith, multiples_apart q p (2 ^ k) l))
      | no l ↦ elim (dec_lt p q) [
        | yes m ↦ absurd (omega (arith, multiples_apart p q (2 ^ k) m))
        | no m ↦ let level : q ≡ p = omega arith in omega (arith, ap (λ (t : ℕ). t * 2 ^ k) level)
      ]
    ]

pub slot_around : (k a : ℕ) → slot (2 ^ k - 1) (a + 2 ^ k) ≡ slot (2 ^ k - 1) a
unfolding slot
slot_around k a =
    let (q, eq, lt) = and_low k a in
    let (p, ep, lp) = and_low k (a + 2 ^ k) in
    elim (dec_lt (suc q) p) [
      | yes l ↦ absurd (omega (arith, multiples_apart (suc q) p (2 ^ k) l))
      | no l ↦ elim (dec_lt p (suc q)) [
        | yes m ↦ absurd (omega (arith, multiples_apart p (suc q) (2 ^ k) m))
        | no m ↦
            let level : suc q ≡ p = omega arith in omega (arith, ap (λ (t : ℕ). t * 2 ^ k) level)
      ]
    ]

pub slot-lt : (k a : ℕ) → slot (2 ^ k - 1) a < 2 ^ k
unfolding slot
slot-lt k a = (and_low k a).2

pub slot_small : (k a : ℕ) → a < 2 ^ k → slot (2 ^ k - 1) a ≡ a
unfolding slot
slot_small k a h =
    let (q, e, lt) = and_low k a in
    elim (dec_lt 0 q) [
      | yes l ↦ absurd (omega (arith, multiples_apart 0 q (2 ^ k) l))
      | no l ↦ let first : q ≡ 0 = omega arith in omega (arith, ap (λ (t : ℕ). t * 2 ^ k) first)
    ]

-- Below 2 ^ 63 the signed difference compares as the numbers do.
abbrev pub Compares : ℕ → ℕ → Verdict → Type 0
Compares s p same = s ≡ p
Compares s p behind = s < p
Compares s p beyond = p < s

pub verdict_lem :
    (s p : ℕ) {r : Verdict} → s < 2 ^ 63 → p < 2 ^ 63 → verdict s p ≡ r → Compares s p r
unfolding verdict
verdict_lem s p {r = same} h g e = ground arith
verdict_lem s p {r = behind} h g e = ground arith
verdict_lem s p {r = beyond} h g e = ground arith
