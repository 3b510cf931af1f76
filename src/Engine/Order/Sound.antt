-- ===== src/Engine/Order/Sound.antt =====
-- src/engine.cpp: what the order of compute_order() has.
use xrune.Base.{
  ℕ, zero, suc, ◌+◌, ◌≤◌, ◌≡◌, refl, sym, ap, subst, ◌∙◌, Bool, true, some, List, [], ◌∷◌, ◌++◌,
  arith, ◌==◌, length, get_or, member, append-nil, length-append, Distinct-length-le,
}
use xrune.Schedule.Topo.{relax}
use xrune.Schedule.Topo.Edges.{Edges, without}
use xrune.Schedule.Topo.Order.{Inv, Sorts, round-Inv, done-Sorts}
use xrune.Engine.{ActiveRoute}
use xrune.Engine.Order.{relax_routes, order_loop}
use xrune.Engine.Order.Counts.{live_edges, relax_routes-relax}
use xrune.Schedule.Topo.{build_graph}
use xrune.Schedule.Topo.Edges.{InBounds, build_graph-Follows}
use xrune.Schedule.Topo.Order.{All-inside}

-- What the loop leaves: its order, and counters that are 0 for the slots in it.
pub record EndsWell (there : ℕ → Bool) (es : Edges) (r : List ℕ × List ℕ) : Type 0 where
  pub sorts : Sorts there es r.1
  pub zero_in : (v : ℕ) → there v ≡ true → member v r.1 ≡ (get_or r.0 v 0 == 0)

module _ (n : ℕ) (there : ℕ → Bool) (gens : List ℕ) (routes : List ActiveRoute)
    (inside : InBounds n (live_edges gens routes)) where
  abbrev es : Edges
  es = live_edges gens routes

  abbrev rows : List (List ℕ)
  rows = (build_graph n es).adj

  relax_row :
      (u : ℕ) (indeg waiting : List ℕ)
      → relax_routes gens u routes indeg waiting ≡ relax (get_or rows u []) indeg waiting
  relax_row u indeg waiting =
      relax_routes-relax gens u routes indeg waiting
      ∙ ap (λ ts. relax ts indeg waiting) (sym ((build_graph-Follows n es inside).lists u))

  pub order_loop-Sorts :
      (fuel : ℕ) (rest : Edges) (indeg waiting taken : List ℕ)
      → Inv n there es rows rest indeg waiting taken
      → n ≤ fuel + length taken
      → (r : List ℕ × List ℕ) × (order_loop fuel gens routes indeg taken waiting ≡ some r)
        × EndsWell there es r
  unfolding order_loop
  order_loop-Sorts fuel rest indeg [] taken inv h = (
    (indeg, taken),
    refl,
    record {
      sorts = done-Sorts n there es rows rest indeg taken inv;
      zero_in = λ v t. (rw append-nil at inv.seen).ready v t;
    },
  )
  order_loop-Sorts zero rest indeg (u ∷ waiting) taken inv h = absurd (
      omega (
        arith,
        length-append taken (u ∷ waiting),
        Distinct-length-le n (taken ++ u ∷ waiting)
            (All-inside there n (taken ++ u ∷ waiting) inv.seen.inside inv.seen.bounded)
            inv.seen.distinct,
      ))
  order_loop-Sorts (suc fuel) rest indeg (u ∷ waiting) taken inv h =
      let r = relax (get_or rows u []) indeg waiting in
      subst
        (λ p.
          (out : List ℕ × List ℕ) × (order_loop fuel gens routes p.0 (taken ++ u ∷ []) p.1
            ≡ some out)
          × EndsWell there es out)
        (sym (relax_row u indeg waiting))
        (order_loop-Sorts fuel (without u rest) r.0 r.1 (taken ++ u ∷ [])
          (round-Inv n there es rows rest indeg waiting taken u inv)
          (omega (arith, length-append taken (u ∷ []))))
