-- ===== src/Schedule/Compiled/Order.antt =====
-- src/schedule.cpp: the execution order of a compiled schedule, and which blueprints have one.
use mathlib.Core.Option.{some-injective}
use xrune.Base.{
  ℕ, ◌<◌, ◌≡◌, sym, ◌∙◌, subst, true, some, List, length, All, get_elem?, member, index_of,
  Distinct, Distinct-full,
}
use xrune.Blueprint.{Blueprint, Connection, ParamConnection}
use xrune.Blueprint.Wiring.{IsWellFormed}
use xrune.Schedule.Topo.{edges, topo_sort}
use xrune.Schedule.Topo.Edges.{InBounds-has_edge}
use xrune.Schedule.Topo.Order.{IsSorted, topo_sort-IsSorted}
use xrune.Schedule.{CompiledSchedule, lay_out, compile}
use xrune.Schedule.Compiled.{
  Went, compile-Went, edges-InBounds, connection-edge, param_connection-edge,
}

-- An execution order: every node once, and each behind the nodes that it reads from.
pub record IsOrderOf {S : Type 0} (bp : Blueprint S) (order : List ℕ) : Type 0 where
  pub whole : length order ≡ length bp.nodes
  pub bounded : All (λ v. v < length bp.nodes) order
  pub distinct : Distinct order
  pub audio :
      (i : ℕ) (c : Connection)
      → get_elem? bp.connections i ≡ some c
      → index_of c.src_node order < index_of c.dst_node order
  pub control :
      (i : ℕ) (c : ParamConnection)
      → get_elem? bp.param_connections i ≡ some c
      → index_of c.src_node order < index_of c.dst_node order

module _ {S : Type 0} (bp : Blueprint S) (v : IsWellFormed bp) where
  IsSorted-of :
      (order : List ℕ)
      → topo_sort (length bp.nodes) (edges bp) ≡ some order
      → IsSorted (length bp.nodes) (edges bp) order
  IsSorted-of order e =
      let (order', e', s) = topo_sort-IsSorted (length bp.nodes) (edges bp) (edges-InBounds bp v) in
      subst (IsSorted (length bp.nodes) (edges bp)) (some-injective order' order (sym e' ∙ e)) s

  pub Went-IsSorted :
      {block_size : ℕ} {s : CompiledSchedule S} (w : Went bp block_size s)
      → IsSorted (length bp.nodes) (edges bp) w.order
  Went-IsSorted w = IsSorted-of w.order w.sorted

  pub Went-member :
      {block_size : ℕ} {s : CompiledSchedule S} (w : Went bp block_size s) (u : ℕ)
      → u < length bp.nodes
      → member u w.order ≡ true
  Went-member w u h =
      let o = Went-IsSorted w in
      Distinct-full (length bp.nodes) u w.order o.bounded o.distinct w.whole h

  Went-IsOrderOf :
      {block_size : ℕ} {s : CompiledSchedule S} (w : Went bp block_size s) → IsOrderOf bp w.order
  Went-IsOrderOf w =
      let o = Went-IsSorted w in
      let inside = edges-InBounds bp v in
      record {
        whole = w.whole;
        bounded = o.bounded;
        distinct = o.distinct;
        audio = λ i c e.
            let edge = connection-edge bp i c e in
            o.ordered c.src_node c.dst_node edge (
              Went-member w c.dst_node
                (InBounds-has_edge _ c.src_node c.dst_node (edges bp) inside edge).1);
        control = λ i c e.
            let edge = param_connection-edge bp i c e in
            o.ordered c.src_node c.dst_node edge (
              Went-member w c.dst_node
                (InBounds-has_edge _ c.src_node c.dst_node (edges bp) inside edge).1);
      }

  -- Where compile() succeeds on a well-formed blueprint, topo_order has every node exactly once, and
  -- the source of every audio and parameter connection stands before its destination.
  pub compile-IsOrderOf :
      (block_size : ℕ) (s : CompiledSchedule S)
      → compile bp block_size ≡ some s
      → IsOrderOf bp s.topo_order
  unfolding lay_out
  compile-IsOrderOf block_size s e =
      let w = compile-Went bp block_size s e in
      subst (λ (t : CompiledSchedule S). IsOrderOf bp t.topo_order) w.result (Went-IsOrderOf w)
