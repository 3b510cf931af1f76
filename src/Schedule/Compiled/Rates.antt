-- ===== src/Schedule/Compiled/Rates.antt =====
-- src/schedule.cpp: the rates, blocks, calls and buffer strides of a compiled schedule, and the
-- slices of them that a call of a node reads (include/xrune/instance.hpp: per_call).
use xrune.Base.{
  ℕ, zero, suc, ◌*◌, ◌/◌, ◌<◌, ◌≡◌, ◌^◌, refl, sym, ◌∙◌, ap, subst, some, List, [], ◌∷◌, length,
  arith, get_elem?, get_elem?-lt, get_or, word,
}
use xrune.Blueprint.{Node, Blueprint, Connection, ParamConnection}
use xrune.Blueprint.Wiring.{IsWellFormed}
use xrune.Schedule.Topo.{edges}
use xrune.Schedule.Topo.Edges.{indegree, InBounds-has_edge}
use xrune.Schedule.Layout.{strides}
use xrune.Schedule.Rates.Propagate.{Inv}
use xrune.Schedule.Rates.Gather.{rate_at}
use xrune.Schedule.Rates.Loop.{propagate_done}
use xrune.Schedule.{CompiledSchedule, lay_out, compile}
use xrune.Schedule.Compiled.{
  Went, compile-Went, edges-InBounds, connection-edge, param_connection-edge,
}
use xrune.Schedule.Compiled.Order.{Went-IsSorted, Went-member}

module _ {S : Type 0} where
  abbrev pub rate_of : CompiledSchedule S → ℕ → ℕ
  rate_of s v = get_or s.region_rate v 1

  abbrev pub block_of : CompiledSchedule S → ℕ → ℕ
  block_of s v = get_or s.node_block v s.block_size

  abbrev pub calls_of : CompiledSchedule S → ℕ → ℕ
  calls_of s v = get_or s.calls v 1

  abbrev pub stride_of : CompiledSchedule S → ℕ → ℕ
  stride_of s v = get_or s.out_stride v 0

  -- The clock of one node: a power-of-two rate, and calls that fill its output buffer exactly.
  pub record IsClocked (s : CompiledSchedule S) (v : ℕ) : Type 0 where
    pub power : (k : ℕ) × (rate_of s v ≡ 2 ^ k)
    pub small : rate_of s v < 2 ^ 63
    pub stride : stride_of s v ≡ rate_of s v * s.block_size
    pub fits : stride_of s v < 2 ^ 64
    pub filled : calls_of s v * block_of s v ≡ stride_of s v
    pub block_pos : 0 < block_of s v
    pub calls_pos : 0 < calls_of s v

  -- The rate of a node follows from that of a predecessor, or from 1 where it has none.
  abbrev pub RateFrom : ℕ → Node S → ℕ → Type 0
  RateFrom rate n rate' = rate' * n.rate_den ≡ word (rate * n.rate_num)

  pub record IsMultirate (bp : Blueprint S) (s : CompiledSchedule S) : Type 0 where
    pub clocked : (v : ℕ) → v < length bp.nodes → IsClocked s v
    pub audio :
        (i : ℕ) (c : Connection) (n : Node S)
        → get_elem? bp.connections i ≡ some c
        → get_elem? bp.nodes c.dst_node ≡ some n
        → RateFrom (rate_of s c.src_node) n (rate_of s c.dst_node)
    pub control :
        (i : ℕ) (c : ParamConnection) (n : Node S)
        → get_elem? bp.param_connections i ≡ some c
        → get_elem? bp.nodes c.dst_node ≡ some n
        → RateFrom (rate_of s c.src_node) n (rate_of s c.dst_node)
    pub unfed :
        (v : ℕ) (n : Node S)
        → indegree v (edges bp) ≡ 0
        → get_elem? bp.nodes v ≡ some n
        → RateFrom 1 n (rate_of s v)

get_or-strides :
    (block_size v : ℕ) (rates : List ℕ)
    → v < length rates
    → get_or (strides block_size rates) v 0 ≡ word (get_or rates v 1 * block_size)
unfolding strides
get_or-strides block_size v [] h = elim h [ ]
get_or-strides block_size zero (r ∷ rs) h = refl
get_or-strides block_size (suc v) (r ∷ rs) h = get_or-strides block_size v rs (omega arith)

module _ {S : Type 0} (bp : Blueprint S) (b : ℕ) (v : IsWellFormed bp) where
  pub Went-Inv :
      {s : CompiledSchedule S} (w : Went bp (2 ^ suc b) s)
      → Inv bp.nodes (edges bp) b w.order w.rates
  Went-Inv w =
      let o = Went-IsSorted bp v w in
      propagate_done bp.nodes (edges bp) b w.order w.rates o.distinct o.ordered w.propagated

  Went-IsClocked :
      {s : CompiledSchedule S} (w : Went bp (2 ^ suc b) s) (u : ℕ)
      → u < length bp.nodes
      → IsClocked (lay_out bp (2 ^ suc b) w.order w.rates) u
  unfolding lay_out
  Went-IsClocked w u h =
      let inv = Went-Inv w in
      let p = (inv.placed u (Went-member bp v w u h)).rated in
      let stride = get_or-strides (2 ^ suc b) u w.rates.region_rate (omega (arith, inv.rates)) in
      let whole : word (rate_at w.rates u * 2 ^ suc b) ≡ rate_at w.rates u * 2 ^ suc b =
        omega (arith, p.fits) in
      record {
        power = p.power;
        small = p.small;
        stride = stride ∙ whole;
        fits = omega (arith, stride, p.fits);
        filled = p.throughput ∙ sym (stride ∙ whole);
        block_pos = p.block_pos;
        calls_pos = p.count_pos;
      }

  Went-IsMultirate :
      {s : CompiledSchedule S} (w : Went bp (2 ^ suc b) s)
      → IsMultirate bp (lay_out bp (2 ^ suc b) w.order w.rates)
  unfolding lay_out
  Went-IsMultirate w =
      let placed =
        λ (u : ℕ) (h : u < length bp.nodes). (Went-Inv w).placed u (Went-member bp v w u h) in
      record {
        clocked = Went-IsClocked w;
        audio = λ i c n e f.
            ((placed c.dst_node (get_elem?-lt bp.nodes c.dst_node f)).from_input c.src_node n
              (connection-edge bp i c e) f).0;
        control = λ i c n e f.
            ((placed c.dst_node (get_elem?-lt bp.nodes c.dst_node f)).from_input c.src_node n
              (param_connection-edge bp i c e) f).0;
        unfed =
            λ u n none_in f. ((placed u (get_elem?-lt bp.nodes u f)).from_nothing n none_in f).0;
      }

  -- A successful compile() of a well-formed blueprint at a power-of-two block size of at least 2
  -- gives every node a power-of-two rate, calls that fill its output buffer exactly, and a rate that
  -- follows by the node's ratio from the rate of each node that feeds it, or from 1 where none does.
  pub compile-IsMultirate :
      (s : CompiledSchedule S) → compile bp (2 ^ suc b) ≡ some s → IsMultirate bp s
  compile-IsMultirate s e =
      let w = compile-Went bp (2 ^ suc b) s e in
      subst (IsMultirate bp) w.result (Went-IsMultirate w)

-- Equal multiples by a positive number.
mul_cancel : (a c n : ℕ) → 0 < n → a * n ≡ c * n → a ≡ c
mul_cancel a c n h e = grind arith

div_of_mul : (a c q : ℕ) → 0 < c → a ≡ c * q → a / c ≡ q
div_of_mul a c q h e = grind arith

slice_arith :
    (stride rate_u rate_v block_size calls block num den q : ℕ)
    → stride ≡ rate_u * block_size
    → calls * block ≡ rate_v * block_size
    → rate_v * den ≡ rate_u * num
    → block * den ≡ q * num
    → 0 < num
    → stride ≡ calls * q
slice_arith stride rate_u rate_v block_size calls block num den q e f g h p =
    mul_cancel stride (calls * q) num p (
      omega (
        arith,
        ap (λ (t : ℕ). t * num) e,
        ap (λ (t : ℕ). t * den) f,
        ap (λ (t : ℕ). t * block_size) g,
        ap (λ (t : ℕ). calls * t) h,
      ))

-- In a schedule compiled from a well-formed blueprint at a power-of-two block size of at least 2,
-- where the ratio of a node takes `q` input samples to each of its blocks and the product of source
-- rate and numerator is a size_t, the slice of a source's buffer that one call reads,
-- out_stride / calls, has `q` samples, and the calls of a cycle together read the whole buffer.
pub compile_slices :
    {S : Type 0} (bp : Blueprint S) (b : ℕ) (s : CompiledSchedule S) (i q : ℕ) (c : Connection)
    (n : Node S)
    → IsWellFormed bp
    → compile bp (2 ^ suc b) ≡ some s
    → get_elem? bp.connections i ≡ some c
    → get_elem? bp.nodes c.dst_node ≡ some n
    → 0 < n.rate_num
    → rate_of s c.src_node * n.rate_num < 2 ^ 64
    → block_of s c.dst_node * n.rate_den ≡ q * n.rate_num
    → (stride_of s c.src_node / calls_of s c.dst_node ≡ q)
      × (calls_of s c.dst_node * q ≡ stride_of s c.src_node)
compile_slices bp b s i q c n v e at found pos_num fits takes =
    let m = compile-IsMultirate bp b v s e in
    let edge =
      InBounds-has_edge _ c.src_node c.dst_node (edges bp) (edges-InBounds bp v)
        (connection-edge bp i c at) in
    let u = m.clocked c.src_node edge.0 in
    let w = m.clocked c.dst_node edge.1 in
    let step : rate_of s c.dst_node * n.rate_den ≡ rate_of s c.src_node * n.rate_num =
      omega (arith, m.audio i c n at found) in
    let cover =
      slice_arith (stride_of s c.src_node) (rate_of s c.src_node) (rate_of s c.dst_node)
        s.block_size (calls_of s c.dst_node) (block_of s c.dst_node) n.rate_num n.rate_den q
        u.stride (w.filled ∙ w.stride) step takes pos_num in
    (div_of_mul _ _ q w.calls_pos cover, sym cover)
