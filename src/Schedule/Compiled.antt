-- ===== src/Schedule/Compiled.antt =====
-- src/schedule.cpp: what a successful compile() went through, and the facts that its theorems share.
pub mod Order
pub mod Rates
pub mod Memory
pub mod Wiring
pub mod Plain
use xrune.Base.{
  ℕ, zero, suc, ◌<◌, ◌≡◌, ◌^◌, refl, Bool, true, Option, none, some, List, [], ◌∷◌, ◌++◌, map,
  length, ◌==◌, arith, All, All-append, get_elem?, guard, >>=-eq-some, inl, inr, ◌||◌, ◌&&◌,
  Bool-cases,
}
use mathlib.Core.Option.{some-injective}
use mathlib.Core.Path.{subst}
use xrune.Blueprint.{Node, Blueprint, Connection, ParamConnection, size}
use xrune.Blueprint.Wiring.{IsWellFormed, InRange, ParamInRange}
use xrune.Schedule.Topo.{edges, topo_sort}
use xrune.Schedule.Topo.Edges.{Edges, InBounds, has_edge}
use xrune.Schedule.Rates.{RateVectors, initial, propagate}
use xrune.Schedule.{CompiledSchedule, lay_out, compile}

module _ {S : Type 0} where
  pub record Went (bp : Blueprint S) (block_size : ℕ) (s : CompiledSchedule S) : Type 0 where
    pub order : List ℕ
    pub rates : RateVectors
    pub sorted : topo_sort (length bp.nodes) (edges bp) ≡ some order
    pub whole : length order ≡ length bp.nodes
    pub propagated :
        propagate bp.nodes (edges bp) block_size order (initial (length bp.nodes) block_size)
        ≡ some rates
    pub result : lay_out bp block_size order rates ≡ s

  -- The steps behind a schedule.
  pub compile-Went :
      (bp : Blueprint S) (block_size : ℕ) (s : CompiledSchedule S)
      → compile bp block_size ≡ some s
      → Went bp block_size s
  unfolding compile size
  compile-Went bp block_size s e =
      let (order, sorted, e₁) = >>=-eq-some (topo_sort (size bp) (edges bp)) _ e in
      let (_, whole, e₂) = >>=-eq-some (guard (length order == size bp)) _ e₁ in
      let (rates, propagated, e₃) =
        >>=-eq-some (propagate bp.nodes (edges bp) block_size order (initial (size bp) block_size))
          _ e₂ in
      record {
        order = order;
        rates = rates;
        sorted = sorted;
        whole = ground arith;
        propagated = propagated;
        result = some-injective _ _ e₃;
      }

  audio_InBounds :
      (nodes : List (Node S)) (cs : List Connection)
      → All (InRange nodes) cs
      → InBounds (length nodes) (map (λ (c : Connection). (c.src_node, c.dst_node)) cs)
  audio_InBounds nodes [] h = tt
  audio_InBounds nodes (c ∷ cs) h = ((h.0.src_in, h.0.dst_in), audio_InBounds nodes cs h.1)

  param_InBounds :
      (nodes : List (Node S)) (cs : List ParamConnection)
      → All (ParamInRange nodes) cs
      → InBounds (length nodes) (map (λ (c : ParamConnection). (c.src_node, c.dst_node)) cs)
  param_InBounds nodes [] h = tt
  param_InBounds nodes (c ∷ cs) h = ((h.0.src_in, h.0.dst_in), param_InBounds nodes cs h.1)

  pub edges-InBounds : (bp : Blueprint S) → IsWellFormed bp → InBounds (length bp.nodes) (edges bp)
  unfolding edges
  edges-InBounds bp v =
      All-append _ (map (λ (c : Connection). (c.src_node, c.dst_node)) bp.connections) _
        (audio_InBounds bp.nodes bp.connections v.in_range)
        (param_InBounds bp.nodes bp.param_connections v.params_in_range)

has_edge-append :
    (u v : ℕ) (xs ys : Edges) → has_edge u v (xs ++ ys) ≡ (has_edge u v xs || has_edge u v ys)
has_edge-append u v [] ys = refl
has_edge-append u v ((a, b) ∷ xs) ys = ground (arith, has_edge-append u v xs ys)

has_edge-map {ℓ} :
    {A : Type ℓ} (f : A → ℕ × ℕ) (xs : List A) (i : ℕ) (x : A)
    → get_elem? xs i ≡ some x
    → has_edge (f x).0 (f x).1 (map f xs) ≡ true
has_edge-map f [] i x e = cc
has_edge-map f (y ∷ xs) zero x e =
    let same = some-injective y x e in
    subst (λ z. has_edge (f z).0 (f z).1 (map f (y ∷ xs)) ≡ true) same (ground arith)
has_edge-map f (y ∷ xs) (suc i) x e = ground (arith, has_edge-map f xs i x e)

-- A connection is an edge.
pub connection-edge :
    {S : Type 0} (bp : Blueprint S) (i : ℕ) (c : Connection)
    → get_elem? bp.connections i ≡ some c
    → has_edge c.src_node c.dst_node (edges bp) ≡ true
unfolding edges
connection-edge bp i c e = ground (
  arith,
  has_edge-map (λ (c : Connection). (c.src_node, c.dst_node)) bp.connections i c e,
  has_edge-append c.src_node c.dst_node
      (map (λ (c : Connection). (c.src_node, c.dst_node)) bp.connections)
      (map (λ (c : ParamConnection). (c.src_node, c.dst_node)) bp.param_connections),
)

pub param_connection-edge :
    {S : Type 0} (bp : Blueprint S) (i : ℕ) (c : ParamConnection)
    → get_elem? bp.param_connections i ≡ some c
    → has_edge c.src_node c.dst_node (edges bp) ≡ true
unfolding edges
param_connection-edge bp i c e = ground (
  arith,
  has_edge-map (λ (c : ParamConnection). (c.src_node, c.dst_node)) bp.param_connections i c e,
  has_edge-append c.src_node c.dst_node
      (map (λ (c : Connection). (c.src_node, c.dst_node)) bp.connections)
      (map (λ (c : ParamConnection). (c.src_node, c.dst_node)) bp.param_connections),
)
