-- ===== src/Arena/Pool.antt =====
-- include/xrune/util/arena.hpp: fixed_block_pool. free_list is a stack, its back() first.
use xrune.Base.{
  ℕ, zero, suc, ◌+◌, ◌*◌, ◌^◌, ◌<◌, ◌≤◌, ◌≡◌, Option, none, some, List, [], ◌∷◌, word, align_up,
  align_up_lem, get_elem?, some-injective, arith,
}

pub record FixedBlockPool : Type 0 where
  pub free_list : List ℕ
  pub block_size : ℕ
  pub block_count : ℕ

-- The loop of init(): block i is at start + i * block_size.
unfoldable pub push_blocks : ℕ → ℕ → ℕ → List ℕ
push_blocks start block_size zero = []
push_blocks start block_size (suc i) =
    word (start + word (i * block_size)) ∷ push_blocks start block_size i

-- init(), where the storage is put at `base`.
unfoldable pub init_pool : ℕ → ℕ → ℕ → ℕ → FixedBlockPool
unfolding push_blocks
init_pool base block_bytes count align =
    let block_size = align_up block_bytes align in
    record {
      free_list = push_blocks (align_up base align) block_size count;
      block_size = block_size;
      block_count = count;
    }

unfoldable pub acquire : FixedBlockPool → FixedBlockPool × Option ℕ
acquire pool = elim pool.free_list [
  | [] ↦ (pool, none)
  | p ∷ free ↦ (record pool { free_list = free }, some p)
]

unfoldable pub release : FixedBlockPool → Option ℕ → FixedBlockPool
release pool none = pool
release pool (some p) = record pool { free_list = p ∷ pool.free_list }

-- The j-th of the free blocks is a block of the pool's grid.
pushed :
    (start size n j p : ℕ)
    → start + n * size < 2 ^ 64
    → get_elem? (push_blocks start size n) j ≡ some p
    → (i : ℕ) × (i + suc j ≡ n) × (p ≡ start + i * size)
unfolding push_blocks
pushed start size zero j p h e = cc e
pushed start size (suc n) zero p h e = (n, omega arith, omega (arith, some-injective _ _ e))
pushed start size (suc n) (suc j) p h e =
    let (i, at, q) = pushed start size n j p (omega arith) e in (i, omega (arith, at), q)

multiple_below : (i n size : ℕ) → i < n → i * size + size ≤ n * size
multiple_below i zero size h = elim h [ ]
multiple_below zero (suc n) size h = grind arith
multiple_below (suc i) (suc n) size h = omega (arith, multiple_below i n size (omega arith))

multiple_sum : (p a u r s m n : ℕ) → p ≡ a + m * u → a ≡ r * n → u ≡ s * n → p ≡ (r + m * s) * n
multiple_sum p a u r s m n e f g = rw (e, f, g) (grind arith)

pub record PoolBlock (base block_bytes count k p : ℕ) : Type 0 where
  pub aligned : (q : ℕ) × (p ≡ q * 2 ^ k)
  pub after : base ≤ p
  pub within : p + block_bytes ≤ base + (align_up block_bytes (2 ^ k) * count + 2 ^ k)

-- For an alignment that is a power of two, a block size that can be rounded up to it, and a storage
-- that lies below the last address: every block that init() puts on the free list is aligned and lies
-- within the storage, and of two of them the one that is acquired later ends before the other starts.
pub init_pool_lem :
    (base block_bytes count k i j p q : ℕ)
    → k < 64
    → block_bytes + 2 ^ k ≤ 2 ^ 64
    → base + (align_up block_bytes (2 ^ k) * count + 2 ^ k) ≤ 2 ^ 64
    → get_elem? (init_pool base block_bytes count (2 ^ k)).free_list i ≡ some p
    → get_elem? (init_pool base block_bytes count (2 ^ k)).free_list j ≡ some q
    → i < j
    → PoolBlock base block_bytes count k p
      × PoolBlock base block_bytes count k q
      × (q + block_bytes ≤ p)
unfolding init_pool
init_pool_lem base block_bytes count k i j p q h fits below at at' l =
    let (r, start, lo, hi) = align_up_lem base k h (omega arith) in
    let (s, size, lo', hi') = align_up_lem block_bytes k h fits in
    let room : align_up base (2 ^ k) + count * align_up block_bytes (2 ^ k) < 2 ^ 64 =
      grind arith in
    let (m, a, b) =
      pushed (align_up base (2 ^ k)) (align_up block_bytes (2 ^ k)) count i p room at in
    let (m', a', b') =
      pushed (align_up base (2 ^ k)) (align_up block_bytes (2 ^ k)) count j q room at' in
    let top = multiple_below m count (align_up block_bytes (2 ^ k)) (omega arith) in
    let top' = multiple_below m' count (align_up block_bytes (2 ^ k)) (omega arith) in
    let gap = multiple_below m' m (align_up block_bytes (2 ^ k)) (omega arith) in
    (
      record {
        aligned = (r + m * s, multiple_sum p _ _ r s m (2 ^ k) b start size);
        after = omega arith;
        within = omega (arith, top, hi, lo', b);
      },
      record {
        aligned = (r + m' * s, multiple_sum q _ _ r s m' (2 ^ k) b' start size);
        after = omega arith;
        within = omega (arith, top', hi, lo', b');
      },
      omega (arith, gap, lo', b, b'),
    )
