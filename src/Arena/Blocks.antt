-- ===== src/Arena/Blocks.antt =====
-- include/xrune/util/arena.hpp: the blocks that allocate() hands out.
use xrune.Base.{
  ℕ, zero, suc, ◌+◌, ◌-◌, ◌*◌, ◌^◌, ◌<◌, ◌≤◌, ◌≡◌, refl, ◌⊎◌, inl, inr, none, some, ◌==◌, ltb,
  ltb→lt, word, align_up, align_up_lem, Bool-cases, arith, two_pow_pos, two_pow_add,
}
use xrune.Arena.{MemoryArena, allocate}

-- The storage lies below the last address by more than any alignment up to `2 ^ k`, and the offset
-- lies in it.
pub record IsInside (a : MemoryArena) : Type 0 where
  pub below : a.base + a.size + 2 ^ 32 ≤ 2 ^ 64
  pub within : a.offset ≤ a.size

-- A request that the arithmetic of allocate() does not wrap on.
abbrev pub Reasonable : MemoryArena → ℕ → ℕ → Type 0
Reasonable a bytes k = (k ≤ 32) × (a.size + bytes + 2 ^ 32 ≤ 2 ^ 64)

pub record Block (a : MemoryArena) (bytes k : ℕ) (a' : MemoryArena) (p : ℕ) : Type 0 where
  pub aligned : (q : ℕ) × (p ≡ q * 2 ^ k)
  pub after : a.base + a.offset ≤ p
  pub end : p + bytes ≡ a'.base + a'.offset
  pub within : a'.offset ≤ a'.size
  pub same_base : a'.base ≡ a.base
  pub same_size : a'.size ≡ a.size

-- No aligned block of that size is left.
abbrev pub NoRoom : MemoryArena → ℕ → ℕ → Type 0
NoRoom a bytes k =
    (a.size ≡ 0) ⊎ ((q : ℕ) → a.base + a.offset ≤ q * 2 ^ k → a.base + a.size < q * 2 ^ k + bytes)

-- Of two multiples of a number, the one that is less than that number above the other is not above.
least_multiple : (q r n : ℕ) → q * n < r * n + n → q * n ≤ r * n
least_multiple zero r n l = omega arith
least_multiple (suc q) zero n l = absurd (omega arith)
least_multiple (suc q) (suc r) n l =
    let below : q * n < r * n + n = omega arith in omega (arith, least_multiple q r n below)

pow_le : (k : ℕ) → k ≤ 32 → 2 ^ k ≤ 2 ^ 32
pow_le k h =
    let whole : k + (32 - k) ≡ 32 = omega arith in
    let split = rw whole at (two_pow_add k (32 - k)) in
    let more = two_pow_pos (32 - k) in grind arith

module _ (a : MemoryArena) (bytes k : ℕ) (v : IsInside a) (ok : Reasonable a bytes k) where
  -- For an arena whose storage ends 2 ^ 32 below the last address, an alignment that is a power of
  -- two up to 2 ^ 32, and a size that does not overflow with the arena's: allocate() returns an
  -- aligned block behind all earlier ones that ends within the storage, where the new offset is; or
  -- it returns null and changes nothing, and then the storage is empty or no aligned block fits.
  pub allocate_lem :
      ((p : ℕ) × ((allocate a bytes (2 ^ k)).1 ≡ some p)
        × Block a bytes k (allocate a bytes (2 ^ k)).0 p)
      ⊎ (allocate a bytes (2 ^ k) ≡ (a, none)) × NoRoom a bytes k
  unfolding allocate
  allocate_lem =
      let small = pow_le k ok.0 in
      let cur : word (a.base + a.offset) ≡ a.base + a.offset = omega (arith, v.below, v.within) in
      let (q, e, lo, hi) =
        align_up_lem (a.base + a.offset) k (omega (arith, ok.0))
          (omega (arith, v.below, v.within)) in
      let at = align_up (a.base + a.offset) (2 ^ k) in
      let new : word (word (at + 2 ^ 64 - a.base) + bytes) ≡ at - a.base + bytes =
        omega (arith, v.below, v.within, ok.1) in
      rw (cur, new)
        (elim (Bool-cases (a.size == 0)) [
          | inl empty ↦ rw empty (inr (refl, inl (ground arith)))
          | inr some_size ↦ rw some_size (elim (Bool-cases (ltb a.size (at - a.base + bytes))) [
            | inl full ↦ rw full (
                inr (
                  refl,
                  inr λ r h. omega (
                    arith,
                    e,
                    least_multiple q r (2 ^ k) (omega (arith, e, hi)),
                    lo,
                    ltb→lt a.size (at - a.base + bytes) full,
                  ),
                ))
            | inr fits ↦ rw fits (
                inl (
                  at,
                  refl,
                  record {
                    aligned = (q, e);
                    after = lo;
                    end = omega arith;
                    within = ground arith;
                    same_base = refl;
                    same_size = refl;
                  },
                ))
          ])
        ])
