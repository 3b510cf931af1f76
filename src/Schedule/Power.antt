-- ===== src/Schedule/Power.antt =====
-- src/schedule.cpp: is_power_of_two().
use Prim.Native.Nat.{bit_and}
use xrune.Base.{
  ℕ, ◌-◌, ◌^◌, ◌≡◌, ◌↔◌, Bool, true, not, ◌&&◌, ◌==◌, arith, power_of_and, and_of_power,
  two_pow_pos,
}

unfoldable pub is_power_of_two : ℕ → Bool
is_power_of_two x = not (x == 0) && bit_and x (x - 1) == 0

-- The bit test accepts exactly the powers of two.
pub is_power_of_two_iff : (x : ℕ) → (is_power_of_two x ≡ true) ↔ ((k : ℕ) × (x ≡ 2 ^ k))
unfolding is_power_of_two
is_power_of_two_iff x = (
  λ h. power_of_and x x (omega arith) (ground arith) (ground arith),
  λ (k, e). rw e (ground (arith, and_of_power k, two_pow_pos k)),
)
