-- ===== src/Engine/Order/Voices.antt =====
-- src/engine.cpp: what the order of compute_order() is, for the voices and the routes of an engine.
use xrune.Base.{
  ℕ, zero, suc, ◌<◌, ◌≡◌, ◌≢◌, refl, sym, ap, ◌∙◌, inl, inr, true, false, not, ◌&&◌, some, List, [],
  ◌∷◌, ◌++◌, arith, ltb, length, get_or, keep, member, index_of, index_of-append, Distinct,
  member_All, member-append, append-nil, length-append, Bool-cases,
}
use mathlib.Core.Option
use mathlib.Core.Option.{some-injective}
use xrune.Schedule.Topo.Edges.{Edges, Ends, Ends-has_edge, has_edge}
use xrune.Schedule.Topo.Order.{IsRanked}
use xrune.Engine.{Engine}
use xrune.Engine.Active.{IsRouted}
use xrune.Engine.Order.{append_rest, compute_order}
use xrune.Engine.Order.Counts.{live_edges, member-keep, Distinct-keep}
use xrune.Engine.Order.Start.{
  counted, ready, start-Inv, es-InBounds, length_le_of_members, live_edges-Ends,
}
use xrune.Engine.Order.Sound.{EndsWell, order_loop-Sorts}

Distinct-append :
    (xs ys : List ℕ)
    → Distinct xs
    → Distinct ys
    → ((v : ℕ) → member v xs ≡ true → member v ys ≡ false)
    → Distinct (xs ++ ys)
Distinct-append [] ys d d' h = d'
Distinct-append (x ∷ xs) ys d d' h = (
  ground (arith, d.0, h x, member-append x xs ys),
  Distinct-append xs ys d.1 d' λ v m. h v (ground (arith, m)),
)

none_of_length : (xs : List ℕ) → length xs ≡ 0 → xs ≡ []
none_of_length [] h = refl
none_of_length (x ∷ xs) h = cc h

none_of_members : (xs : List ℕ) → ((v : ℕ) → member v xs ≢ true) → xs ≡ []
none_of_members [] h = refl
none_of_members (x ∷ xs) h = absurd (h x (ground arith))

module _ (slots : List ℕ) (es : Edges) (left order : List ℕ) (distinct : Distinct slots)
    (w : EndsWell (λ v. member v slots) es (left, order)) where
  abbrev rest : List ℕ
  rest = keep (λ slot. ltb 0 (get_or left slot 0)) slots

  member-order : (v : ℕ) → member v order ≡ true → member v slots ≡ true
  member-order v = member_All (λ v. member v slots ≡ true) v order w.sorts.bounded

  member-rest : (v : ℕ) → member v rest ≡ (member v slots && not (member v order))
  member-rest v =
      ground (arith, member-keep (λ slot. ltb 0 (get_or left slot 0)) v slots, w.zero_in v)

  member-all : (v : ℕ) → member v (order ++ rest) ≡ member v slots
  member-all v = ground (arith, member-append v order rest, member-rest v, member-order v)

  Distinct-all : Distinct (order ++ rest)
  Distinct-all =
      Distinct-append order rest w.sorts.distinct (Distinct-keep _ slots distinct)
        λ v m. ground (arith, member-rest v)

  append_rest_lem : append_rest slots (left, order) ≡ order ++ rest
  unfolding append_rest
  append_rest_lem = elim (Bool-cases (ltb (length order) (length slots))) [
    | inl short ↦ rw short refl
    | inr full ↦
        let fits =
          length_le_of_members (order ++ rest) slots Distinct-all λ v m. sym (member-all v) ∙ m in
        let none_left : length rest ≡ 0 = ground (arith, fits, length-append order rest) in
        rw (full, none_of_length rest none_left, append-nil order) refl
  ]

  module _ (rank : ℕ → ℕ) (ends : Ends (λ v. member v slots) es) (ranked : IsRanked rank es) where
    below_rank : (k v : ℕ) → member v slots ≡ true → rank v < k → member v order ≢ false
    below_rank zero v h l m = elim l [ ]
    below_rank (suc k) v h l m =
        let (u, e, m') = w.sorts.maximal v h m in
        below_rank k u (Ends-has_edge (λ v. member v slots) u v es ends e).0
          (omega (arith, ranked u v e)) m'

    in_order : (v : ℕ) → member v slots ≡ true → member v order ≡ true
    in_order v h = ground (arith, below_rank (suc (rank v)) v h (omega arith))

    index_of-all :
        (u v : ℕ) → has_edge u v es ≡ true → index_of u (order ++ rest) < index_of v (order ++ rest)
    index_of-all u v e =
        let there = Ends-has_edge (λ v. member v slots) u v es ends e in
        ground (
          arith,
          w.sorts.ordered u v e (in_order v there.1),
          index_of-append u order rest (in_order u there.0),
          index_of-append v order rest (in_order v there.1),
        )

module _ {I S T : Type 0} (e : Engine I S T) (indeg : List ℕ) (inv : IsRouted e)
    (wide : length indeg ≡ length e.active_gen) where
  abbrev n : ℕ
  n = length e.active_gen

  abbrev routed : Edges
  routed = live_edges e.active_gen e.routes

  -- The loop ends, and the result is its order with the rest behind.
  compute_order-loop :
      (left order : List ℕ) × (compute_order e indeg
        ≡ some (append_rest e.active_list (left, order)))
      × EndsWell (λ v. member v e.active_list) routed (left, order)
  unfolding compute_order
  compute_order-loop =
      let (r, done, w) =
        order_loop-Sorts n (λ v. member v e.active_list) e.active_gen e.routes
          (es-InBounds e indeg inv wide) n routed (counted e indeg inv wide)
          (ready e indeg inv wide) [] (start-Inv e indeg inv wide) (omega arith) in
      (r.0, r.1, ap (Option.map (append_rest e.active_list)) done, w)

-- Where active_list, active_gen and the routes agree and there is a counter for each slot,
-- compute_order() ends within its fuel, and its order has each active slot once and no other,
-- whatever the counters are before and also where routes form a cycle.
pub compute_order-voices :
    {I S T : Type 0} (e : Engine I S T) (indeg : List ℕ)
    → IsRouted e
    → length indeg ≡ length e.active_gen
    → (order : List ℕ) × (compute_order e indeg ≡ some order)
      × Distinct order
      × ((v : ℕ) → member v order ≡ member v e.active_list)
compute_order-voices e indeg inv wide =
    let (left, order, done, w) = compute_order-loop e indeg inv wide in
    let es = live_edges e.active_gen e.routes in
    let all = append_rest_lem e.active_list es left order inv.distinct w in
    (
      append_rest e.active_list (left, order),
      done,
      rw all (Distinct-all e.active_list es left order inv.distinct w),
      λ v. rw all (member-all e.active_list es left order inv.distinct w v),
    )

-- Where active_list, active_gen and the routes agree and there is a counter for each slot, and the
-- routes that are followed have no cycle (their slots have a ranking), each of them leads from an
-- earlier to a later slot of the order.
pub compute_order-routes :
    {I S T : Type 0} (e : Engine I S T) (indeg order : List ℕ) (rank : ℕ → ℕ) (u v : ℕ)
    → IsRouted e
    → length indeg ≡ length e.active_gen
    → compute_order e indeg ≡ some order
    → IsRanked rank (live_edges e.active_gen e.routes)
    → has_edge u v (live_edges e.active_gen e.routes) ≡ true
    → index_of u order < index_of v order
compute_order-routes e indeg order rank u v inv wide done ranked edge =
    let (left, first, done', w) = compute_order-loop e indeg inv wide in
    let es = live_edges e.active_gen e.routes in
    let ends =
      live_edges-Ends e.active_gen (λ v. member v e.active_list) e.routes inv.listed inv.live in
    let same =
      some-injective _ _ (sym done ∙ done')
      ∙ append_rest_lem e.active_list es left first inv.distinct w in
    rw same (index_of-all e.active_list es left first inv.distinct w rank ends ranked u v edge)
