-- ===== src/Schedule/Rates/Loop.antt =====
-- src/schedule.cpp: the whole loop over topo_order, on an order in which the predecessors of a node
-- stand before it.
use mathlib.Core.List.{append_assoc, append-nil}
use mathlib.Core.Option.{some-injective}
use xrune.Base.{
  ℕ, suc, ◌^◌, ◌<◌, ◌≡◌, true, false, some, List, [], ◌∷◌, ◌++◌, length, length-replicate,
  get_or-replicate, arith, member, member-append, member-append_left, index_of, Distinct,
  Distinct-middle, index_of-append, index_of-lt-length, index_of_middle,
  member_of_index_of-lt_prefix, >>=-eq-some, get_elem?, get_elem?-lt,
}
use xrune.Blueprint.{Node}
use xrune.Schedule.Topo.Edges.{Edges, has_edge}
use xrune.Schedule.Rates.{RateVectors, initial, gather, node_rate, visit, propagate}
use xrune.Schedule.Rates.Sound.{node_rate-Passed}
use xrune.Schedule.Rates.Propagate.{Inv, start, store-Inv}

-- Every edge into a listed node comes from a node listed before it.
abbrev pub Precedes : Edges → List ℕ → Type 0
Precedes es out =
    (u v : ℕ) → has_edge u v es ≡ true → member v out ≡ true → index_of u out < index_of v out

closed_prefix :
    (es : Edges) (done vs : List ℕ)
    → Precedes es (done ++ vs)
    → (w u : ℕ) → member w done ≡ true
    → has_edge u w es ≡ true
    → member u done ≡ true
closed_prefix es done vs p w u m e = member_of_index_of-lt_prefix u done vs (
    omega (
      arith,
      p u w e (member-append_left w done vs m),
      index_of-append w done vs m,
      index_of-lt-length w done m,
    ))

sources_done :
    (es : Edges) (done vs : List ℕ) (v : ℕ)
    → Precedes es (done ++ v ∷ vs)
    → member v done ≡ false
    → (u : ℕ) → has_edge u v es ≡ true
    → member u done ≡ true
sources_done es done vs v p fresh u e = member_of_index_of-lt_prefix u done (v ∷ vs) (
    omega (
      arith,
      p u v e (ground (arith, member-append v done (v ∷ vs))),
      index_of_middle v done vs fresh,
    ))

module _ {S : Type 0} (nodes : List (Node S)) (es : Edges) (b : ℕ) where
  visit-Inv :
      (v : ℕ) (done vs : List ℕ) (s s' : RateVectors)
      → Inv nodes es b done s
      → Distinct (done ++ v ∷ vs)
      → Precedes es (done ++ v ∷ vs)
      → visit nodes es (2 ^ suc b) v s ≡ some s'
      → Inv nodes es b (done ++ v ∷ []) s'
  unfolding visit
  visit-Inv v done vs s s' inv distinct before e =
      let fresh = Distinct-middle done vs v distinct in
      let (nd, found, e') = >>=-eq-some (get_elem? nodes v) _ e in
      let (r, rated, e'') = >>=-eq-some (node_rate (2 ^ suc b) nd (gather s v es start)) _ e' in
      rw (some-injective _ _ e'') at (
        store-Inv nodes es b v nd s r done inv found (get_elem?-lt nodes v found)
          (node_rate-Passed (2 ^ suc b) nd (gather s v es start) r rated)
          (sources_done es done vs v before fresh) fresh (closed_prefix es done (v ∷ vs) before))

  propagate-Inv :
      (vs done : List ℕ) (s s' : RateVectors)
      → Inv nodes es b done s
      → Distinct (done ++ vs)
      → Precedes es (done ++ vs)
      → propagate nodes es (2 ^ suc b) vs s ≡ some s'
      → Inv nodes es b (done ++ vs) s'
  unfolding propagate
  propagate-Inv [] done s s' inv distinct before e =
      rw (append-nil done) (rw (some-injective _ _ e) at inv)
  propagate-Inv (v ∷ vs) done s s' inv distinct before e =
      let (s'', now, later) = >>=-eq-some (visit nodes es (2 ^ suc b) v s) _ e in
      let shift = append_assoc done (v ∷ []) vs in
      rw shift at (
        propagate-Inv vs (done ++ v ∷ []) s'' s' (visit-Inv v done vs s s'' inv distinct before now)
          (rw shift distinct) (rw shift before) later)

  -- Before the loop nothing is placed.
  initial-Inv : Inv nodes es b [] (initial (length nodes) (2 ^ suc b))
  unfolding initial
  initial-Inv = record {
    rates = length-replicate _ _;
    blocks = length-replicate _ _;
    counts = length-replicate _ _;
    exponents = length-replicate _ _;
    small = λ u. omega (arith, get_or-replicate {A = ℕ} (length nodes) u 1);
    placed = λ v m. cc;
  }

  -- At the end every node on the order has a rate, a block size and a number of calls that follow
  -- from those of its predecessors.
  pub propagate_done :
      (out : List ℕ) (s : RateVectors)
      → Distinct out
      → Precedes es out
      → propagate nodes es (2 ^ suc b) out (initial (length nodes) (2 ^ suc b)) ≡ some s
      → Inv nodes es b out s
  propagate_done out s distinct before e = propagate-Inv out [] _ s initial-Inv distinct before e
