-- ===== src/Schedule/Rates/Sound.antt =====
-- src/schedule.cpp: what the propagated rates, blocks and calls satisfy when compile() succeeds.
use xrune.Base.{
  ℕ, suc, ◌+◌, ◌*◌, ◌/◌, ◌%◌, ◌^◌, ◌<◌, ◌≡◌, ◌∙◌, ◌≢◌, inl, inr, true, some, if◌then◌else◌, arith,
  ℤ, pos, negsuc, ◌+ℤ◌, word, two_pow_suc, two_pow_add, two_pow_fits, two_pow_wraps, Option-cases,
}
use native.Mathlib.Decide.{dec_lt}
use native.Mathlib.Nat.{div-add-mod'}
use xrune.Blueprint.{Node}
use xrune.Schedule.Power.{is_power_of_two, is_power_of_two_iff}
use xrune.Schedule.Rates.{Gathered, NodeRate, block_delta, block_at, node_rate, is_negative}

abbrev pub base_rate : Gathered → ℕ
base_rate g = if is_negative g.in_rate then 1 else g.in_rate

abbrev pub base_blk : Gathered → ℤ
base_blk g = if is_negative g.in_rate then pos 0 else g.in_blk

-- The tests that node_rate() passed, in order.
pub record Passed {S : Type 0} (block_size : ℕ) (nd : Node S) (g : Gathered) (r : NodeRate)
    : Type 0 where
  pub consistent : g.consistent ≡ true
  pub den : nd.rate_den ≢ 0
  pub exact : word (base_rate g * nd.rate_num) % nd.rate_den ≡ 0
  pub rate : r.rate ≡ word (base_rate g * nd.rate_num) / nd.rate_den
  pub power : is_power_of_two r.rate ≡ true
  pub delta : ℤ
  pub deltas : block_delta nd.block_num nd.block_den ≡ some delta
  pub exponent : r.exponent ≡ base_blk g +ℤ delta
  pub block : block_at block_size r.exponent ≡ some r.block
  pub block_pos : 0 < r.block
  pub divides : word (r.rate * block_size) % r.block ≡ 0
  pub count : r.count ≡ word (r.rate * block_size) / r.block
  pub count_pos : 0 < r.count

pub node_rate-Passed :
    {S : Type 0} (block_size : ℕ) (nd : Node S) (g : Gathered) (r : NodeRate)
    → node_rate block_size nd g ≡ some r
    → Passed block_size nd g r
unfolding node_rate
node_rate-Passed block_size nd g r e = elim (Option-cases (block_delta nd.block_num nd.block_den)) [
  | inl missing ↦ absurd (ground arith)
  | inr (d, found) ↦ record {
    consistent = ground arith;
    den = ground arith;
    exact = ground arith;
    rate = ground arith;
    power = ground arith;
    delta = d;
    deltas = found;
    exponent = ground arith;
    block = ground arith;
    block_pos = ground arith;
    divides = ground arith;
    count = ground arith;
    count_pos = ground arith;
  }
]

-- A block of B * 2 ^ e samples, for a negative e too.
abbrev pub IsScaled : ℕ → ℤ → ℕ → Type 0
IsScaled block_size (pos e) block = block ≡ block_size * 2 ^ e
IsScaled block_size (negsuc e) block = block * 2 ^ suc e ≡ block_size

block_at-IsScaled :
    (b : ℕ) (e : ℤ) (block : ℕ)
    → block_at (2 ^ b) e ≡ some block
    → 0 < block
    → IsScaled (2 ^ b) e block
unfolding block_at
block_at-IsScaled b (pos e) block h p = elim (dec_lt (b + e) 64) [
  | yes fits ↦ ground (arith, two_pow_add b e, two_pow_fits (b + e))
  | no wraps ↦ absurd (ground (arith, two_pow_add b e, two_pow_wraps (b + e)))
]
block_at-IsScaled b (negsuc e) block h p =
    let exact : 2 ^ b % 2 ^ suc e ≡ 0 = ground arith in
    let value : block ≡ 2 ^ b / 2 ^ suc e = ground arith in
    rw value (omega (arith, div-add-mod' (2 ^ b) (2 ^ suc e), exact))

-- What compile() establishes of one node: a power of two for a rate, as many calls as make up the
-- throughput exactly, and blocks scaled by the exponent.
pub record IsRated (block_size : ℕ) (rate : ℕ) (exponent : ℤ) (block count : ℕ) : Type 0 where
  pub power : (k : ℕ) × (rate ≡ 2 ^ k)
  pub small : rate < 2 ^ 63
  pub throughput : count * block ≡ rate * block_size
  pub fits : rate * block_size < 2 ^ 64
  pub scaled : IsScaled block_size exponent block
  pub block_pos : 0 < block
  pub count_pos : 0 < count

word_throughput :
    (k b block : ℕ)
    → 0 < word (2 ^ k * 2 ^ suc b)
    → (word (2 ^ k * 2 ^ suc b) ≡ 2 ^ k * 2 ^ suc b)
      × (2 ^ k * 2 ^ suc b < 2 ^ 64)
      × (2 ^ k < 2 ^ 63)
word_throughput k b block h = elim (dec_lt (k + suc b) 64) [
  | yes fits ↦ (
    omega (arith, two_pow_add k (suc b), two_pow_fits (k + suc b) fits),
    omega (arith, two_pow_add k (suc b), two_pow_fits (k + suc b) fits),
    omega (arith, two_pow_fits (suc k) (omega arith), two_pow_suc k),
  )
  | no wraps ↦
      absurd (omega (arith, two_pow_add k (suc b), two_pow_wraps (k + suc b) (omega arith)))
]

pub Passed-IsRated :
    {S : Type 0} (b : ℕ) (nd : Node S) (g : Gathered) (r : NodeRate)
    → Passed (2 ^ suc b) nd g r
    → IsRated (2 ^ suc b) r.rate r.exponent r.block r.count
Passed-IsRated b nd g r p =
    let (k, e) = (is_power_of_two_iff r.rate).0 p.power in
    let total = word (r.rate * 2 ^ suc b) in
    let whole : r.count * r.block ≡ total =
      rw p.count (omega (arith, div-add-mod' total r.block, p.divides)) in
    let some_total : 0 < total = grind (arith, whole, p.block_pos, p.count_pos) in
    let (same, fits, small) = word_throughput k b r.block (rw e at some_total) in
    record {
      power = (k, e);
      small = rw e small;
      throughput = whole ∙ rw e same;
      fits = rw e fits;
      scaled = block_at-IsScaled (suc b) r.exponent r.block p.block p.block_pos;
      block_pos = p.block_pos;
      count_pos = p.count_pos;
    }
