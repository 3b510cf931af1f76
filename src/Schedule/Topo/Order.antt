-- ===== src/Schedule/Topo/Order.antt =====
-- What the topological sort returns: an order that respects the edges, with fuel to spare, and
-- complete exactly when the graph has no cycle.
use mathlib.Core.List.{append_assoc, append-nil}
use mathlib.Core.Option.{some-injective}
use xrune.Base.{
  ℕ, zero, suc, ◌+◌, ◌≤◌, ◌<◌, ◌≡◌, refl, sym, subst, ◌∙◌, ◌≢◌, ◌↔◌, inl, inr, Bool, ltb, ltb→lt,
  lt→ltb, true, false, not, ◌&&◌, some, List, [], ◌∷◌, ◌++◌, arith, ◌==◌, length, get_or, All,
  member, index_of, Distinct, Distinct-middle, Distinct-length-le, Distinct-full,
  Distinct-length_of_full, member_snoc, Bool-cases, length-append,
}
use xrune.Schedule.Topo.{Graph, relax, drain, ready_from, build_graph, topo_sort}
use xrune.Schedule.Topo.Edges.{
  Edges, InBounds, has_edge, indegree, targets, without, Ends, Ends-without, Ends-targets,
  InBounds-Ends, indegree-without, targets-without, has_edge-without, InBounds-has_edge,
  indegree_pos, indegree-zero, Follows, build_graph-Follows,
}
use xrune.Schedule.Topo.Step.{Seen, relax-Seen}

pub All-inside :
    (there : ℕ → Bool) (n : ℕ) (xs : List ℕ)
    → ((v : ℕ) → there v ≡ true → v < n)
    → All (λ v. there v ≡ true) xs
    → All (λ v. v < n) xs
All-inside there n [] h b = tt
All-inside there n (x ∷ xs) h b = (h x b.0, All-inside there n xs h b.1)

-- The loop's invariant: `rest` are the edges whose source has not been taken off the queue.
pub record Inv (n : ℕ) (there : ℕ → Bool) (es : Edges) (adj : List (List ℕ)) (rest : Edges)
    (degree q topo : List ℕ) : Type 0 where
  pub seen : Seen n there es degree (topo ++ q)
  pub counts : (v : ℕ) → there v ≡ true → get_or degree v 0 ≡ indegree v rest
  pub rows : (u : ℕ) → member u topo ≡ false → get_or adj u [] ≡ targets u rest
  pub left : (u v : ℕ) → has_edge u v rest ≡ (has_edge u v es && not (member u topo))
  pub inside : Ends there rest

-- A prefix of an order of the nodes by dependencies that leaves out nothing it could take.
pub record Sorts (there : ℕ → Bool) (es : Edges) (out : List ℕ) : Type 0 where
  pub bounded : All (λ v. there v ≡ true) out
  pub distinct : Distinct out
  pub ordered :
      (u v : ℕ) → has_edge u v es ≡ true → member v out ≡ true → index_of u out < index_of v out
  pub maximal :
      (v : ℕ)
      → there v ≡ true
      → member v out ≡ false
      → (u : ℕ) × (has_edge u v es ≡ true) × (member u out ≡ false)

module _ (n : ℕ) (there : ℕ → Bool) (es : Edges) (adj : List (List ℕ)) where
  module _ (rest : Edges) (degree q topo : List ℕ) (u : ℕ)
      (inv : Inv n there es adj rest degree (u ∷ q) topo) where
    fresh : member u topo ≡ false
    fresh = Distinct-middle topo q u inv.seen.distinct

    left_after :
        (a b : ℕ)
        → has_edge a b (without u rest) ≡ (has_edge a b es && not (member a (topo ++ u ∷ [])))
    left_after a b = ground (arith, has_edge-without u a b rest, inv.left a b, member_snoc a u topo)

    closed_after :
        (a b : ℕ)
        → has_edge a b es ≡ true
        → has_edge a b (without u rest) ≡ false
        → member a (topo ++ u ∷ []) ≡ true
    closed_after a b e h = ground (arith, left_after a b)

    rows_after :
        (w : ℕ) → member w (topo ++ u ∷ []) ≡ false → get_or adj w [] ≡ targets w (without u rest)
    rows_after w m = ground (arith, member_snoc w u topo, inv.rows w, targets-without u w rest)

    pub round-Inv :
        let r = relax (get_or adj u []) degree q in
        Inv n there es adj (without u rest) r.0 r.1 (topo ++ u ∷ [])
    round-Inv =
        let (seen', counts') =
          relax-Seen n there es (without u rest) (topo ++ u ∷ []) closed_after (get_or adj u [])
            degree q (rw (append_assoc topo (u ∷ []) q) inv.seen)
            (rw (inv.rows u fresh) (Ends-targets there u rest inv.inside))
            (λ v t. rw (inv.rows u fresh) (inv.counts v t ∙ indegree-without u v rest)) in
        record {
          seen = seen';
          counts = counts';
          rows = rows_after;
          left = left_after;
          inside = Ends-without there u rest inv.inside;
        }

  pub done-Sorts :
      (rest : Edges) (degree topo : List ℕ)
      → Inv n there es adj rest degree [] topo
      → Sorts there es topo
  done-Sorts rest degree topo inv = record {
    bounded = seen'.bounded;
    distinct = seen'.distinct;
    ordered = seen'.ordered;
    maximal = λ v h m.
        let (u, e) = indegree_pos v rest (ground (arith, seen'.ready v h, inv.counts v h)) in
        (u, ground (arith, inv.left u v), ground (arith, inv.left u v));
  }
    where
      seen' : Seen n there es degree topo
      seen' = rw (append-nil topo) at inv.seen

  -- The loop ends within its fuel.
  drain-Sorts :
      (fuel : ℕ) (rest : Edges) (degree q topo : List ℕ)
      → Inv n there es adj rest degree q topo
      → n ≤ fuel + length topo
      → (out : List ℕ) × (drain fuel adj degree q topo ≡ some out) × Sorts there es out
  unfolding drain
  drain-Sorts fuel rest degree [] topo inv h = (topo, refl, done-Sorts rest degree topo inv)
  drain-Sorts zero rest degree (u ∷ q) topo inv h = absurd (
      omega (
        arith,
        length-append topo (u ∷ q),
        Distinct-length-le n (topo ++ u ∷ q)
            (All-inside there n (topo ++ u ∷ q) inv.seen.inside inv.seen.bounded) inv.seen.distinct,
      ))
  drain-Sorts (suc fuel) rest degree (u ∷ q) topo inv h =
      let r = relax (get_or adj u []) degree q in
      drain-Sorts fuel (without u rest) r.0 r.1 (topo ++ u ∷ [])
        (round-Inv rest degree q topo u inv) (omega (arith, length-append topo (u ∷ [])))

-- The same of the numbers below `n`.
pub record IsSorted (n : ℕ) (es : Edges) (out : List ℕ) : Type 0 where
  pub bounded : All (λ v. v < n) out
  pub distinct : Distinct out
  pub ordered :
      (u v : ℕ) → has_edge u v es ≡ true → member v out ≡ true → index_of u out < index_of v out
  pub maximal :
      (v : ℕ)
      → v < n
      → member v out ≡ false
      → (u : ℕ) × (has_edge u v es ≡ true) × (member u out ≡ false)

abbrev below : ℕ → ℕ → Bool
below n v = ltb v n

Sorts-IsSorted : (n : ℕ) (es : Edges) (out : List ℕ) → Sorts (below n) es out → IsSorted n es out
Sorts-IsSorted n es out s = record {
  bounded = All-inside (below n) n out (λ v. ltb→lt v n) s.bounded;
  distinct = s.distinct;
  ordered = s.ordered;
  maximal = λ v h. s.maximal v (lt→ltb v n h);
}

-- The start: the nodes that nothing leads to.
ready_from_below : (i v : ℕ) (ds : List ℕ) → v < i → member v (ready_from i ds) ≡ false
unfolding ready_from
ready_from_below i v [] h = refl
ready_from_below i v (d ∷ ds) h = ground (arith, ready_from_below (suc i) v ds)

member-ready_from :
    (i k : ℕ) (ds : List ℕ)
    → k < length ds
    → member (i + k) (ready_from i ds) ≡ (get_or ds k 0 == 0)
unfolding ready_from
member-ready_from i k [] h = elim h [ ]
member-ready_from i zero (d ∷ ds) h = ground (arith, ready_from_below (suc i) (i + 0) ds)
member-ready_from i (suc k) (d ∷ ds) h =
    let e : i + suc k ≡ suc i + k = omega arith in
    rw e (ground (arith, member-ready_from (suc i) k ds))

ready_from_bounded :
    (i n : ℕ) (ds : List ℕ) → i + length ds ≡ n → All (λ v. v < n) (ready_from i ds)
unfolding ready_from
ready_from_bounded i n [] h = tt
ready_from_bounded i n (d ∷ ds) h = elim (Bool-cases (d == 0)) [
  | inl e ↦ rw (e, ready_from) (omega arith, ready_from_bounded (suc i) n ds (omega arith))
  | inr e ↦ rw (e, ready_from) (ready_from_bounded (suc i) n ds (omega arith))
]

ready_from-Distinct : (i : ℕ) (ds : List ℕ) → Distinct (ready_from i ds)
unfolding ready_from
ready_from-Distinct i [] = tt
ready_from-Distinct i (d ∷ ds) =
    ground (arith, ready_from-Distinct (suc i) ds, ready_from_below (suc i) i ds)

-- An edge into a node means that it waits.
has_edge-indegree : (u v : ℕ) (es : Edges) → has_edge u v es ≡ true → indegree v es ≢ 0
has_edge-indegree u v es e z = cc (indegree-zero u v es z)

below-All : (n : ℕ) (xs : List ℕ) → All (λ v. v < n) xs → All (λ v. below n v ≡ true) xs
below-All n [] h = tt
below-All n (x ∷ xs) h = (lt→ltb x n h.0, below-All n xs h.1)

start-Inv :
    (n : ℕ) (es : Edges)
    → InBounds n es
    → let g = build_graph n es in
      Inv n (below n) es g.adj es g.in_degree (ready_from 0 g.in_degree) []
start-Inv n es h = record {
  seen = record {
    width = f.degrees;
    inside = λ v. ltb→lt v n;
    ready = λ v t. ready_at v (ltb→lt v n t);
    bounded = below-All n _ (ready_from_bounded 0 n g.in_degree (omega (arith, f.degrees)));
    distinct = ready_from-Distinct 0 g.in_degree;
    ordered = λ u v e m. absurd (
        has_edge-indegree u v es e
          (ground (arith, ready_at v ((InBounds-has_edge n u v es h e).1), f.counts v)));
  };
  counts = λ v _. f.counts v;
  rows = λ u m. f.lists u;
  left = λ u v. ground arith;
  inside = InBounds-Ends n es h;
}
  where
    g : Graph
    g = build_graph n es

    f : Follows n g es
    f = build_graph-Follows n es h

    ready_at : (v : ℕ) → v < n → member v (ready_from 0 g.in_degree) ≡ (get_or g.in_degree v 0 == 0)
    ready_at v l =
        let e : 0 + v ≡ v = omega arith in
        rw e at (member-ready_from 0 v g.in_degree (omega (arith, f.degrees)))

-- On edges between existing nodes the sort always ends within its fuel. It returns distinct nodes, each behind all of its
-- predecessors, and leaves a node out only where a predecessor of that node is left out.
pub topo_sort-IsSorted :
    (n : ℕ) (es : Edges)
    → InBounds n es
    → (out : List ℕ) × (topo_sort n es ≡ some out) × IsSorted n es out
unfolding topo_sort
topo_sort-IsSorted n es h =
    let g = build_graph n es in
    let (out, e, s) =
      drain-Sorts n (below n) es g.adj n es g.in_degree (ready_from 0 g.in_degree) []
        (start-Inv n es h) (omega arith) in
    (out, e, Sorts-IsSorted n es out s)

-- A ranking puts each edge's source below its target: the graph has no cycle.
abbrev pub IsRanked : (ℕ → ℕ) → Edges → Type 0
IsRanked rank es = (u v : ℕ) → has_edge u v es ≡ true → rank u < rank v

descent :
    (n : ℕ) (es : Edges) (out : List ℕ) (rank : ℕ → ℕ)
    → InBounds n es
    → IsSorted n es out
    → IsRanked rank es
    → (k v : ℕ) → v < n
    → rank v < k
    → member v out ≢ false
descent n es out rank b s ranked zero v h l m = elim l [ ]
descent n es out rank b s ranked (suc k) v h l m =
    let (u, e, m') = s.maximal v h m in
    descent n es out rank b s ranked k u (InBounds-has_edge n u v es b e).0
      (omega (arith, ranked u v e)) m'

-- On edges between existing nodes, compile()'s cycle test, topo_order.size() == n, passes exactly for the graphs with no cycle.
pub topo_sort-acyclic :
    (n : ℕ) (es : Edges) (out : List ℕ)
    → InBounds n es
    → topo_sort n es ≡ some out
    → (length out ≡ n) ↔ ((rank : ℕ → ℕ) × IsRanked rank es)
topo_sort-acyclic n es out b e = (
  λ full. (
    λ v. index_of v out,
    λ u v edge.
        s.ordered u v edge
          (Distinct-full n v out s.bounded s.distinct full (InBounds-has_edge n u v es b edge).1),
  ),
  λ (rank, ranked). Distinct-length_of_full n out s.bounded s.distinct λ v h.
      elim (Bool-cases (member v out)) [
        | inl m ↦ m
        | inr m ↦ absurd (descent n es out rank b s ranked (suc (rank v)) v h (omega arith) m)
      ],
)
  where
    s : IsSorted n es out
    s =
        let (out', e', s') = topo_sort-IsSorted n es b in
        subst (IsSorted n es) (some-injective _ _ (sym e' ∙ e)) s'
