-- ===== src/Schedule/Compiled/Plain.antt =====
-- src/schedule.cpp: compile() on nodes that change neither the rate nor the block size.
use xrune.Base.{
  ℕ, zero, suc, ◌*◌, ◌/◌, ◌%◌, ◌<◌, ◌≡◌, ◌↔◌, ◌⊎◌, ◌^◌, refl, true, some, List, [], ◌∷◌, length,
  eq→==, arith, All, get_elem?, inr, get_or, word, pos, two_pow_pos, two_pow_fits, get_or-set_same,
  get_or-replicate,
}
use xrune.Blueprint.{Node, Blueprint, size}
use xrune.Blueprint.Wiring.{IsWellFormed}
use xrune.Schedule.Power.{is_power_of_two_iff}
use xrune.Schedule.Topo.{edges}
use xrune.Schedule.Topo.Edges.{Edges, InBounds}
use xrune.Schedule.Topo.Order.{IsRanked, topo_sort-IsSorted, topo_sort-acyclic}
use xrune.Schedule.Rates.{
  RateVectors, Gathered, NodeRate, initial, consider, gather, block_delta, block_at, node_rate,
  store, visit, propagate, minus_one,
}
use xrune.Schedule.{CompiledSchedule, lay_out, compile}
use xrune.Schedule.Compiled.{compile-Went, edges-InBounds}

-- A node that runs at the rate and the block size of its inputs.
pub record IsPlain {S : Type 0} (n : Node S) : Type 0 where
  pub rate_num : n.rate_num ≡ 1
  pub rate_den : n.rate_den ≡ 1
  pub block_num : n.block_num ≡ 1
  pub block_den : n.block_den ≡ 1

abbrev Flat : RateVectors → Type 0
Flat s = (u : ℕ) → (get_or s.region_rate u 1 ≡ 1) × (get_or s.blk_exp u (pos 0) ≡ pos 0)

abbrev Agreeing : Gathered → Type 0
Agreeing g =
    (g.consistent ≡ true) × ((g.in_rate ≡ 1) ⊎ (g.in_rate ≡ minus_one)) × (g.in_blk ≡ pos 0)

consider-Agreeing :
    (s : RateVectors) (a : ℕ) (g : Gathered) → Flat s → Agreeing g → Agreeing (consider s a g)
unfolding consider
consider-Agreeing s a g flat h = ground (arith, flat a)

gather-Agreeing :
    (s : RateVectors) (v : ℕ) (es : Edges) (g : Gathered)
    → Flat s
    → Agreeing g
    → Agreeing (gather s v es g)
unfolding gather
gather-Agreeing s v [] g flat h = h
gather-Agreeing s v ((a, b) ∷ es) g flat h =
    gather-Agreeing s v es _ flat (ground (arith, consider-Agreeing s a g flat h))

abbrev plain_rate : ℕ → NodeRate
plain_rate block_size = record { rate = 1; exponent = pos 0; block = block_size; count = 1 }

block_at_zero : (b : ℕ) → b < 64 → block_at (2 ^ b) (pos 0) ≡ some (2 ^ b)
unfolding block_at
block_at_zero b h = ground (arith, two_pow_fits b h)

div_self : (n : ℕ) → 0 < n → (n / n ≡ 1) × (n % n ≡ 0)
div_self n h = (grind arith, grind arith)

node_rate-plain :
    {S : Type 0} (b : ℕ) (n : Node S) (g : Gathered)
    → b < 64
    → IsPlain n
    → Agreeing g
    → node_rate (2 ^ b) n g ≡ some (plain_rate (2 ^ b))
unfolding node_rate block_delta
node_rate-plain b n g small p h =
    let one_power = (is_power_of_two_iff 1).1 (0, refl) in
    let whole : word (1 * 2 ^ b) ≡ 2 ^ b = omega (arith, two_pow_fits b small) in
    let self = div_self (2 ^ b) (two_pow_pos b) in
    ground (arith, two_pow_pos b, block_at_zero b small)

module _ {S : Type 0} (nodes : List (Node S)) (es : Edges) (b : ℕ) (small : b < 64)
    (plain : (v : ℕ)
      → v < length nodes
      → (n : Node S) × (get_elem? nodes v ≡ some n) × IsPlain n) where
  store-Flat : (s : RateVectors) (v : ℕ) → Flat s → Flat (store s v (plain_rate (2 ^ b)))
  unfolding store
  store-Flat s v flat u = (
    get_or-set_same s.region_rate v u 1 1 (flat u).0,
    get_or-set_same s.blk_exp v u (pos 0) (pos 0) (flat u).1,
  )

  visit-plain :
      (v : ℕ) (s : RateVectors)
      → v < length nodes
      → Flat s
      → (s' : RateVectors) × (visit nodes es (2 ^ b) v s ≡ some s') × Flat s'
  unfolding visit
  visit-plain v s h flat =
      let (n, found, p) = plain v h in
      let g : Gathered =
        gather s v es (record { in_rate = minus_one; in_blk = pos 0; consistent = true }) in
      let agreeing = gather-Agreeing s v es _ flat (refl, inr refl, refl) in
      let rated = node_rate-plain b n g small p agreeing in
      (store s v (plain_rate (2 ^ b)), ground (arith, found, rated), store-Flat s v flat)

  propagate-plain :
      (order : List ℕ) (s : RateVectors)
      → All (λ v. v < length nodes) order
      → Flat s
      → (s' : RateVectors) × (propagate nodes es (2 ^ b) order s ≡ some s')
  unfolding propagate
  propagate-plain [] s h flat = (s, refl)
  propagate-plain (v ∷ vs) s h flat =
      let (s', now, flat') = visit-plain v s h.0 flat in
      let (s'', later) = propagate-plain vs s' h.1 flat' in (s'', ground (arith, now, later))

All-get :
    {S : Type 0} (nodes : List (Node S)) (v : ℕ)
    → All IsPlain nodes
    → v < length nodes
    → (n : Node S) × (get_elem? nodes v ≡ some n) × IsPlain n
All-get [] v h l = elim l [ ]
All-get (n ∷ ns) zero h l = (n, refl, h.0)
All-get (n ∷ ns) (suc v) h l = All-get ns v h.1 (omega arith)

-- A well-formed blueprint of nodes that change neither rate nor block size compiles, at every
-- power-of-two block size that is a size_t, exactly when its connections form no cycle.
pub compile_plain_iff :
    {S : Type 0} (bp : Blueprint S) (b : ℕ)
    → IsWellFormed bp
    → All IsPlain bp.nodes
    → b < 64
    → ((s : CompiledSchedule S) × (compile bp (2 ^ b) ≡ some s))
      ↔ ((rank : ℕ → ℕ) × IsRanked rank (edges bp))
unfolding compile size initial
compile_plain_iff bp b v plain small = (
  λ (s, e).
      let w = compile-Went bp (2 ^ b) s e in
      (topo_sort-acyclic n (edges bp) w.order inside w.sorted).0 w.whole,
  λ acyclic.
      let (order, e, sorted) = topo_sort-IsSorted n (edges bp) inside in
      let whole = (topo_sort-acyclic n (edges bp) order inside e).1 acyclic in
      let (rates, f) =
        propagate-plain bp.nodes (edges bp) b small (λ u l. All-get bp.nodes u plain l) order
          (initial n (2 ^ b)) sorted.bounded
          (λ u. (get_or-replicate {A = ℕ} n u 1, get_or-replicate n u (pos 0))) in
      (lay_out bp (2 ^ b) order rates, rw (e, eq→== _ _ whole, f) refl),
)
  where
    n : ℕ
    n = length bp.nodes

    inside : InBounds n (edges bp)
    inside = edges-InBounds bp v
