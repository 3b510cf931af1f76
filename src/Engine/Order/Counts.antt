-- ===== src/Engine/Order/Counts.antt =====
-- src/engine.cpp: the counters of compute_order(), against the routes as edges.
use xrune.Base.{
  ℕ, suc, ◌+◌, ◌<◌, ◌≡◌, refl, ap, subst, ◌∙◌, inl, inr, Bool, true, ◌&&◌, List, [], ◌∷◌, arith,
  ◌==◌, if◌then◌else◌, length, get_or, modify, set, keep, member, Distinct, ◌⊎◌, length-modify,
  get_or-modify_self, get_or-modify_ne, Bool-cases,
}
use xrune.Schedule.Topo.{relax}
use xrune.Schedule.Topo.Edges.{Edges, Ends, indegree, targets}
use xrune.Engine.{ActiveRoute}
use xrune.Engine.Active.{get_or-clear_self, get_or-set_other}
use xrune.Engine.Order.{is_followed, clear_degrees, count_routes, relax_routes}

-- The routes that are followed, as edges between slots.
abbrev pub live_edges : List ℕ → List ActiveRoute → Edges
live_edges gens [] = []
live_edges gens (r ∷ rs) =
    if is_followed gens r then (r.src_slot, r.dst_slot) ∷ live_edges gens rs else live_edges gens rs

pub relax_routes-relax :
    (gens : List ℕ) (u : ℕ) (rs : List ActiveRoute) (indeg waiting : List ℕ)
    → relax_routes gens u rs indeg waiting ≡ relax (targets u (live_edges gens rs)) indeg waiting
unfolding relax_routes relax
relax_routes-relax gens u [] indeg waiting = refl
relax_routes-relax gens u (r ∷ rs) indeg waiting = elim (Bool-cases (is_followed gens r)) [
  | inr off ↦ rw off (relax_routes-relax gens u rs indeg waiting)
  | inl on ↦ elim (Bool-cases (r.src_slot == u)) [
    | inr other ↦ rw (on, other) (relax_routes-relax gens u rs indeg waiting)
    | inl same ↦ rw (on, same) (relax_routes-relax gens u rs _ _)
  ]
]

pub length-clear_degrees :
    (slots indeg : List ℕ) → length (clear_degrees slots indeg) ≡ length indeg
unfolding clear_degrees
length-clear_degrees [] indeg = refl
length-clear_degrees (slot ∷ slots) indeg =
    length-clear_degrees slots (set indeg slot 0) ∙ length-modify indeg slot _

pub get_or-clear_degrees :
    (slots indeg : List ℕ) (v : ℕ)
    → get_or indeg v 0 ≡ 0 ⊎ (member v slots ≡ true)
    → get_or (clear_degrees slots indeg) v 0 ≡ 0
unfolding clear_degrees
get_or-clear_degrees [] indeg v (inl e) = e
get_or-clear_degrees [] indeg v (inr m) = cc m
get_or-clear_degrees (slot ∷ slots) indeg v h = elim (Bool-cases (slot == v)) [
  | inl same ↦
      let here : slot ≡ v = ground arith in
      get_or-clear_degrees slots (set indeg slot 0) v
        (inl (subst (λ x. get_or (set indeg slot 0) x 0 ≡ 0) here (get_or-clear_self indeg slot)))
  | inr other ↦ get_or-clear_degrees slots (set indeg slot 0) v (elim h [
    | inl e ↦ inl (get_or-set_other indeg slot 0 v (λ (q : slot ≡ v). ground arith) ∙ e)
    | inr m ↦ inr (ground arith)
  ])
]

pub length-count_routes :
    (gens : List ℕ) (rs : List ActiveRoute) (indeg : List ℕ)
    → length (count_routes gens rs indeg) ≡ length indeg
unfolding count_routes
length-count_routes gens [] indeg = refl
length-count_routes gens (r ∷ rs) indeg = ground (
  arith,
  length-count_routes gens rs indeg,
  length-count_routes gens rs (modify indeg r.dst_slot suc),
  length-modify indeg r.dst_slot suc,
)

pub get_or-count_routes :
    (gens : List ℕ) (there : ℕ → Bool) (rs : List ActiveRoute) (indeg : List ℕ) (v : ℕ)
    → ((w : ℕ) → there w ≡ true → w < length indeg)
    → Ends there (live_edges gens rs)
    → get_or (count_routes gens rs indeg) v 0 ≡ indegree v (live_edges gens rs) + get_or indeg v 0
unfolding count_routes
get_or-count_routes gens there [] indeg v inside ends = omega arith
get_or-count_routes gens there (r ∷ rs) indeg v inside ends =
    elim (Bool-cases (is_followed gens r)) [
      | inr off ↦ rw off (get_or-count_routes gens there rs indeg v inside (rw off at ends))
      | inl on ↦
          let real = rw on at ends in
          rw on (
            ground (
              arith,
              get_or-count_routes gens there rs (modify indeg r.dst_slot suc) v
                  (λ w t. omega (arith, length-modify indeg r.dst_slot suc, inside w t)) real.1,
              inside r.dst_slot real.0.1,
              get_or-modify_self indeg r.dst_slot suc 0,
              get_or-modify_ne indeg r.dst_slot v suc 0,
            ))
    ]

pub member-keep : (p : ℕ → Bool) (v : ℕ) (xs : List ℕ) → member v (keep p xs) ≡ (member v xs && p v)
member-keep p v [] = refl
member-keep p v (x ∷ xs) = elim (Bool-cases (x == v)) [
  | inl same ↦
      let here : p x ≡ p v = ap p (ground arith) in ground (arith, member-keep p v xs, here)
  | inr other ↦ ground (arith, member-keep p v xs)
]

pub Distinct-keep : (p : ℕ → Bool) (xs : List ℕ) → Distinct xs → Distinct (keep p xs)
Distinct-keep p [] d = tt
Distinct-keep p (x ∷ xs) d = ground (arith, member-keep p x xs, Distinct-keep p xs d.1, d.0)
