-- ===== src/Schedule/Rates.antt =====
-- src/schedule.cpp: rate and block-size propagation in compile().
pub mod Gather
pub mod Sound
pub mod Propagate
pub mod Loop
use xrune.Base.{
  ℕ, zero, suc, ◌+◌, ◌-◌, ◌*◌, ◌/◌, ◌%◌, ◌^◌, Bool, true, false, not, ◌&&◌, ◌||◌, Option, none,
  some, List, [], ◌∷◌, ◌==◌, ltb, leb, if◌then◌else◌, get_or, set, get_elem?, replicate, guard,
  ◌>>=◌, ◌>>◌, word, ℤ, pos, negsuc, ◌+ℤ◌, int_eq,
}
use xrune.Blueprint.{Node}
use xrune.Schedule.Power.{is_power_of_two}

-- The vectors that the loop fills, one entry for each node.
pub record RateVectors : Type 0 where
  pub region_rate : List ℕ
  pub node_block : List ℕ
  pub calls : List ℕ
  pub blk_exp : List ℤ

unfoldable pub initial : ℕ → ℕ → RateVectors
initial n block_size = record {
  region_rate = replicate n 1;
  node_block = replicate n block_size;
  calls = replicate n 1;
  blk_exp = replicate n (pos 0);
}

-- A long is held as its 64-bit pattern: -1 is the largest word, and the words from 2 ^ 63 on are
-- negative.
abbrev pub minus_one : ℕ
minus_one = 2 ^ 64 - 1

abbrev pub is_negative : ℕ → Bool
is_negative w = leb (2 ^ 63) w

-- The locals that consider() updates.
pub record Gathered : Type 0 where
  pub in_rate : ℕ
  pub in_blk : ℤ
  pub consistent : Bool

unfoldable pub consider : RateVectors → ℕ → Gathered → Gathered
consider s src g =
    let r = get_or s.region_rate src 1 in
    let b = get_or s.blk_exp src (pos 0) in
    if g.in_rate == minus_one
    then record g { in_rate = r; in_blk = b }
    else if not (r == g.in_rate) || not (int_eq b g.in_blk)
    then record g { consistent = false }
    else g

-- The two loops over the connections that end in `v`, over the edges in their order.
unfoldable pub gather : RateVectors → ℕ → List (ℕ × ℕ) → Gathered → Gathered
unfolding consider
gather s v [] g = g
gather s v ((a, b) ∷ es) g = gather s v es (if b == v then consider s a g else g)

-- The change of the block exponent: a factor of two at most.
unfoldable pub block_delta : ℕ → ℕ → Option ℤ
block_delta num den =
    if num == 1 && den == 1
    then some (pos 0)
    else if num == 2 && den == 1
    then some (pos 1)
    else if num == 1 && den == 2
    then some (negsuc 0)
    else none

-- B * 2 ^ e. A shift by 64 or more, undefined in C++, is a failure here.
unfoldable pub block_at : ℕ → ℤ → Option ℕ
block_at block_size (pos e) = do guard (ltb e 64); some (word (block_size * 2 ^ e))
block_at block_size (negsuc e) = do
  guard (ltb (suc e) 64)
  guard (block_size % 2 ^ suc e == 0)
  some (block_size / 2 ^ suc e)

-- What the loop's body computes for one node: its rate, block exponent, block and calls.
pub record NodeRate : Type 0 where
  pub rate : ℕ
  pub exponent : ℤ
  pub block : ℕ
  pub count : ℕ

unfoldable pub store : RateVectors → ℕ → NodeRate → RateVectors
store s v r = record {
  region_rate = set s.region_rate v r.rate;
  node_block = set s.node_block v r.block;
  calls = set s.calls v r.count;
  blk_exp = set s.blk_exp v r.exponent;
}

module _ {S : Type 0} where
  unfoldable pub node_rate : ℕ → Node S → Gathered → Option NodeRate
  node_rate block_size nd g = do
    guard g.consistent
    let base_rate = if is_negative g.in_rate then 1 else g.in_rate
    let base_blk = if is_negative g.in_rate then pos 0 else g.in_blk
    guard (not (nd.rate_den == 0))
    guard (word (base_rate * nd.rate_num) % nd.rate_den == 0)
    let rate = word (base_rate * nd.rate_num) / nd.rate_den
    guard (is_power_of_two rate)
    delta ← block_delta nd.block_num nd.block_den
    let exponent = base_blk +ℤ delta
    block ← block_at block_size exponent
    guard (not (block == 0))
    let throughput = word (rate * block_size)
    guard (throughput % block == 0)
    guard (not (throughput / block == 0))
    some (record { rate = rate; exponent = exponent; block = block; count = throughput / block })

  -- The body of the loop for node `v`; `none` stands for the early return with ok = false.
  unfoldable pub visit : List (Node S) → List (ℕ × ℕ) → ℕ → ℕ → RateVectors → Option RateVectors
  visit nodes es block_size v s = do
    nd ← get_elem? nodes v
    r ←
        node_rate block_size nd
          (gather s v es (record { in_rate = minus_one; in_blk = pos 0; consistent = true }))
    some (store s v r)

  unfoldable pub propagate :
      List (Node S) → List (ℕ × ℕ) → ℕ → List ℕ → RateVectors → Option RateVectors
  propagate nodes es block_size [] s = some s
  propagate nodes es block_size (v ∷ vs) s = do
    s' ← visit nodes es block_size v s
    propagate nodes es block_size vs s'
