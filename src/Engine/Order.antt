-- ===== src/Engine/Order.antt =====
-- src/engine.cpp: compute_order(), the order in which the audio thread runs the active voices: each
-- behind the voices that are routed into it, and at the end those that a cycle of routes leads to.
pub mod Counts
mod Start
mod Sound
pub mod Voices
use mathlib.Core.Option
use xrune.Base.{
  ℕ, zero, suc, ◌+◌, ◌-◌, ◌^◌, ◌<◌, ◌≤◌, ◌≡◌, ◌≢◌, refl, sym, ap, subst, ◌∙◌, inl, inr, Bool, true,
  false, not, ◌&&◌, ◌||◌, Option, none, some, List, [], ◌∷◌, ◌++◌, arith, ◌==◌, ltb, if◌then◌else◌,
  length, get_or, modify, set, keep, All, member, count, index_of, Distinct, ◌⊎◌, length-modify,
  get_or-modify_self, get_or-modify_ne, Bool-cases,
}
use xrune.Schedule.Topo.{decrement, relax}
use xrune.Schedule.Topo.Edges.{Edges, Ends, has_edge, indegree, targets, without}
use xrune.Schedule.Topo.Order.{Inv, Sorts, round-Inv, done-Sorts}
use xrune.Engine.{ActiveRoute, Engine, route_live}
use xrune.Engine.Active.{IsRouted, IsLive, Active, get_or-clear_self, get_or-set_other}

-- indeg_scratch holds ints. A counter that is 0 is not counted down where the routes and the voices
-- agree, so that what `decrement` does at 0 is not seen.
--
-- The routes that compute_order() follows.
unfoldable pub is_followed : List ℕ → ActiveRoute → Bool
is_followed gens r = not r.to_master && route_live gens r

unfoldable pub clear_degrees : List ℕ → List ℕ → List ℕ
clear_degrees [] indeg = indeg
clear_degrees (slot ∷ slots) indeg = clear_degrees slots (set indeg slot 0)

unfoldable pub count_routes : List ℕ → List ActiveRoute → List ℕ → List ℕ
unfolding is_followed
count_routes gens [] indeg = indeg
count_routes gens (r ∷ rs) indeg =
    count_routes gens rs (if is_followed gens r then modify indeg r.dst_slot suc else indeg)

-- The inner loop, for the slot `u`.
unfoldable pub relax_routes : List ℕ → ℕ → List ActiveRoute → List ℕ → List ℕ → List ℕ × List ℕ
unfolding is_followed decrement
relax_routes gens u [] indeg waiting = (indeg, waiting)
relax_routes gens u (r ∷ rs) indeg waiting =
    let left = decrement (get_or indeg r.dst_slot 0) in
    let next =
      relax_routes gens u rs (set indeg r.dst_slot left)
        (if left == 0 then waiting ++ r.dst_slot ∷ [] else waiting) in
    let skipped = relax_routes gens u rs indeg waiting in
    if not (is_followed gens r) || not (r.src_slot == u) then skipped else next

-- order_scratch is `taken ++ waiting`, and `head` the length of `taken`. The result is indeg_scratch
-- and order_scratch, or none where the fuel runs out.
unfoldable pub order_loop :
    ℕ → List ℕ → List ActiveRoute → List ℕ → List ℕ → List ℕ → Option (List ℕ × List ℕ)
unfolding relax_routes
order_loop fuel gens routes indeg taken [] = some (indeg, taken)
order_loop zero gens routes indeg taken (u ∷ waiting) = none
order_loop (suc fuel) gens routes indeg taken (u ∷ waiting) =
    let (indeg', waiting') = relax_routes gens u routes indeg waiting in
    order_loop fuel gens routes indeg' (taken ++ u ∷ []) waiting'

-- The voices that the loop has not reached, behind the others.
unfoldable pub append_rest : List ℕ → List ℕ × List ℕ → List ℕ
append_rest active_list (left, order) =
    if ltb (length order) (length active_list)
    then order ++ keep (λ slot. ltb 0 (get_or left slot 0)) active_list
    else order

-- The order, from what indeg_scratch is before. Each round takes another slot, so that as many
-- rounds as there are slots are enough.
unfoldable pub compute_order : {I S T : Type 0} → Engine I S T → List ℕ → Option (List ℕ)
unfolding clear_degrees count_routes order_loop append_rest
compute_order e indeg_scratch =
    let indeg = count_routes e.active_gen e.routes (clear_degrees e.active_list indeg_scratch) in
    let ready = keep (λ slot. get_or indeg slot 0 == 0) e.active_list in
    Option.map (append_rest e.active_list)
      (order_loop (length e.active_gen) e.active_gen e.routes indeg [] ready)
