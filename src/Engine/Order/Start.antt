-- ===== src/Engine/Order/Start.antt =====
-- src/engine.cpp: what compute_order() starts its loop with, and the lists of distinct slots.
use xrune.Base.{
  ℕ, suc, ◌<◌, ◌≤◌, ◌≡◌, sym, ap, ◌∙◌, inl, inr, Bool, true, not, ◌&&◌, List, [], ◌∷◌, arith, ◌==◌,
  length, get_or, keep, All, member, Distinct, get_or_beyond, Bool-cases,
}
use xrune.Schedule.Topo.Edges.{
  Edges, InBounds, Ends, Ends-has_edge, indegree, indegree-zero, build_graph-Follows,
}
use xrune.Schedule.Topo.{build_graph}
use xrune.Schedule.Topo.Order.{Inv}
use xrune.Engine.{ActiveRoute, Engine, erase}
use xrune.Engine.Active.{IsRouted, IsLive, member-erase_ne}
use xrune.Engine.Order.{is_followed, clear_degrees, count_routes}
use xrune.Engine.Order.Counts.{
  live_edges, length-clear_degrees, get_or-clear_degrees, length-count_routes, get_or-count_routes,
  member-keep, Distinct-keep,
}

length-erase : (a : ℕ) (xs : List ℕ) → member a xs ≡ true → length xs ≡ suc (length (erase a xs))
unfolding erase
length-erase a [] m = cc m
length-erase a (x ∷ xs) m = ground (arith, length-erase a xs)

-- Distinct members of a list are at most as many as its elements.
pub length_le_of_members :
    (xs ys : List ℕ)
    → Distinct xs
    → ((v : ℕ) → member v xs ≡ true → member v ys ≡ true)
    → length xs ≤ length ys
length_le_of_members [] ys d h = omega arith
length_le_of_members (x ∷ xs) ys d h =
    let rest = length_le_of_members xs (erase x ys) d.1 λ v m.
      member-erase_ne x v ys (λ (q : x ≡ v). cc (d.0, m, ap (λ a. member a xs) q))
      ∙ h v (ground (arith, m)) in
    omega (arith, rest, length-erase x ys (h x (ground arith)))

pub All-of_members :
    (there : ℕ → Bool) (xs : List ℕ)
    → ((v : ℕ) → member v xs ≡ true → there v ≡ true)
    → All (λ v. there v ≡ true) xs
All-of_members there [] h = tt
All-of_members there (x ∷ xs) h =
    (h x (ground arith), All-of_members there xs λ v m. h v (ground (arith, m)))

-- Every route leads between active slots.
pub live_edges-Ends :
    (gens : List ℕ) (there : ℕ → Bool) (rs : List ActiveRoute)
    → ((i : ℕ) → there i ≡ not (get_or gens i 0 == 0))
    → All (IsLive gens) rs
    → Ends there (live_edges gens rs)
unfolding is_followed
live_edges-Ends gens there [] h live = tt
live_edges-Ends gens there (r ∷ rs) h live = elim (Bool-cases (is_followed gens r)) [
  | inr off ↦ rw off (live_edges-Ends gens there rs h live.1)
  | inl on ↦
      let source = live.0.source in
      let target = live.0.target (ground arith) in
      rw on (
        (ground (arith, h r.src_slot), ground (arith, h r.dst_slot)),
        live_edges-Ends gens there rs h live.1,
      )
]

Ends-InBounds :
    (there : ℕ → Bool) (n : ℕ) (es : Edges)
    → ((v : ℕ) → there v ≡ true → v < n)
    → Ends there es
    → InBounds n es
Ends-InBounds there n [] h e = tt
Ends-InBounds there n ((a, b) ∷ es) h e = ((h a e.0.0, h b e.0.1), Ends-InBounds there n es h e.1)

module _ {I S T : Type 0} (e : Engine I S T) (indeg : List ℕ) (inv : IsRouted e)
    (wide : length indeg ≡ length e.active_gen) where
  abbrev pub es : Edges
  es = live_edges e.active_gen e.routes

  abbrev pub listed : ℕ → Bool
  listed v = member v e.active_list

  abbrev pub counted : List ℕ
  counted = count_routes e.active_gen e.routes (clear_degrees e.active_list indeg)

  abbrev pub ready : List ℕ
  ready = keep (λ slot. get_or counted slot 0 == 0) e.active_list

  pub listed_inside : (v : ℕ) → listed v ≡ true → v < length e.active_gen
  listed_inside v m = ground (arith, inv.listed v, get_or_beyond e.active_gen v 0)

  pub ends : Ends listed es
  ends = live_edges-Ends e.active_gen listed e.routes inv.listed inv.live

  pub es-InBounds : InBounds (length e.active_gen) es
  es-InBounds = Ends-InBounds listed (length e.active_gen) es listed_inside ends

  counts : (v : ℕ) → listed v ≡ true → get_or counted v 0 ≡ indegree v es
  counts v m = omega (
    arith,
    get_or-count_routes e.active_gen listed e.routes (clear_degrees e.active_list indeg) v
        (λ w t. omega (arith, length-clear_degrees e.active_list indeg, listed_inside w t)) ends,
    get_or-clear_degrees e.active_list indeg v (inr m),
  )

  ready_lem : (v : ℕ) → member v ready ≡ (listed v && get_or counted v 0 == 0)
  ready_lem v = member-keep (λ slot. get_or counted slot 0 == 0) v e.active_list

  pub start-Inv :
      Inv
        (length e.active_gen)
        listed
        es
        (build_graph (length e.active_gen) es).adj
        es
        counted
        ready
        []
  start-Inv = record {
    seen = record {
      width =
          length-count_routes e.active_gen e.routes _
          ∙ length-clear_degrees e.active_list indeg
          ∙ wide;
      inside = listed_inside;
      ready = λ v m. ground (arith, ready_lem v);
      bounded = All-of_members listed ready λ v m. ground (arith, ready_lem v);
      distinct = Distinct-keep _ e.active_list inv.distinct;
      ordered = λ u v edge m.
          let there = Ends-has_edge listed u v es ends edge in
          absurd (
            cc (edge, indegree-zero u v es (sym (counts v there.1) ∙ ground (arith, ready_lem v))));
    };
    counts = counts;
    rows = λ u m. (build_graph-Follows (length e.active_gen) es es-InBounds).lists u;
    left = λ u v. ground arith;
    inside = ends;
  }
