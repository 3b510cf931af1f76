-- ===== src/Schedule/Topo/Edges.antt =====
-- Edge lists: in-degrees and successors as a specification, and the graph that compile() builds.
use mathlib.Core.List.{append-nil}
use xrune.Base.{
  ℕ, suc, ◌+◌, ◌<◌, ◌≡◌, refl, ap, ◌∙◌, ◌≢◌, inl, inr, Bool, true, false, not, ◌&&◌, ◌||◌, List, [],
  ◌∷◌, ◌++◌, arith, ◌==◌, if◌then◌else◌, length, get_or, replicate, All, count, Bool-cases, ltb,
  subst, get_or-modify_self, get_or-modify_ne, length-modify, length-replicate, get_or-replicate,
}
use xrune.Schedule.Topo.{Graph, add_edge, add_edges, build_graph}

abbrev pub Edges : Type 0
Edges = List (ℕ × ℕ)

abbrev pub InBounds : ℕ → Edges → Type 0
InBounds n es = All (λ (e : ℕ × ℕ). (e.0 < n) × (e.1 < n)) es

abbrev pub has_edge : ℕ → ℕ → Edges → Bool
has_edge u v [] = false
has_edge u v ((a, b) ∷ es) = (a == u && b == v) || has_edge u v es

-- How many edges lead to a node, and where those of a node lead.
abbrev pub indegree : ℕ → Edges → ℕ
indegree v [] = 0
indegree v ((a, b) ∷ es) = (if b == v then 1 else 0) + indegree v es

abbrev pub targets : ℕ → Edges → List ℕ
targets u [] = []
targets u ((a, b) ∷ es) = if a == u then b ∷ targets u es else targets u es

-- The edges of the other nodes.
abbrev pub without : ℕ → Edges → Edges
without u [] = []
without u ((a, b) ∷ es) = if a == u then without u es else (a, b) ∷ without u es

pub indegree-without :
    (u v : ℕ) (es : Edges) → indegree v es ≡ count v (targets u es) + indegree v (without u es)
indegree-without u v [] = refl
indegree-without u v ((a, b) ∷ es) = ground (arith, indegree-without u v es)

pub targets-without : (u w : ℕ) (es : Edges) → u ≢ w → targets w (without u es) ≡ targets w es
targets-without u w [] h = refl
targets-without u w ((a, b) ∷ es) h = ground (arith, targets-without u w es)

pub has_edge-without :
    (u a b : ℕ) (es : Edges) → has_edge a b (without u es) ≡ (has_edge a b es && not (u == a))
has_edge-without u a b [] = refl
has_edge-without u a b ((c, d) ∷ es) = ground (arith, has_edge-without u a b es)

-- The ends of the edges are nodes, by a test of a number.
abbrev pub Ends : (ℕ → Bool) → Edges → Type 0
Ends there es = All (λ (e : ℕ × ℕ). (there e.0 ≡ true) × (there e.1 ≡ true)) es

pub Ends-without :
    (there : ℕ → Bool) (u : ℕ) (es : Edges) → Ends there es → Ends there (without u es)
Ends-without there u [] h = tt
Ends-without there u ((a, b) ∷ es) h = ground (arith, Ends-without there u es h.1)

pub Ends-targets :
    (there : ℕ → Bool) (u : ℕ) (es : Edges)
    → Ends there es
    → All (λ v. there v ≡ true) (targets u es)
Ends-targets there u [] h = tt
Ends-targets there u ((a, b) ∷ es) h = ground (arith, Ends-targets there u es h.1)

pub Ends-has_edge :
    (there : ℕ → Bool) (u v : ℕ) (es : Edges)
    → Ends there es
    → has_edge u v es ≡ true
    → (there u ≡ true) × (there v ≡ true)
Ends-has_edge there u v [] h e = cc
Ends-has_edge there u v ((a, b) ∷ es) h e = elim (Bool-cases (a == u && b == v)) [
  | inl hit ↦
      let here : (a ≡ u) × (b ≡ v) = ground arith in
      (subst (λ x. there x ≡ true) here.0 h.0.0, subst (λ x. there x ≡ true) here.1 h.0.1)
  | inr miss ↦ Ends-has_edge there u v es h.1 (ground arith)
]

pub InBounds-Ends : (n : ℕ) (es : Edges) → InBounds n es → Ends (λ v. ltb v n) es
InBounds-Ends n [] h = tt
InBounds-Ends n ((a, b) ∷ es) h = ground (arith, InBounds-Ends n es h.1)

pub InBounds-has_edge :
    (n u v : ℕ) (es : Edges) → InBounds n es → has_edge u v es ≡ true → (u < n) × (v < n)
InBounds-has_edge n u v [] h e = cc
InBounds-has_edge n u v ((a, b) ∷ es) h e = ground (arith, InBounds-has_edge n u v es h.1)

pub indegree-zero : (u v : ℕ) (es : Edges) → indegree v es ≡ 0 → has_edge u v es ≡ false
indegree-zero u v [] h = refl
indegree-zero u v ((a, b) ∷ es) h = ground (arith, indegree-zero u v es)

-- A node that something leads to has a predecessor.
pub indegree_pos : (v : ℕ) (es : Edges) → 0 < indegree v es → (u : ℕ) × (has_edge u v es ≡ true)
indegree_pos v [] h = elim h [ ]
indegree_pos v ((a, b) ∷ es) h = elim (Bool-cases (b == v)) [
  | inl hit ↦ (a, ground arith)
  | inr miss ↦ let (u, e) = indegree_pos v es (ground arith) in (u, ground arith)
]

-- The graph that the two add_edge loops build counts and lists the edges.
pub record Follows (n : ℕ) (g : Graph) (done : Edges) : Type 0 where
  pub degrees : length g.in_degree ≡ n
  pub rows : length g.adj ≡ n
  pub counts : (v : ℕ) → get_or g.in_degree v 0 ≡ indegree v done
  pub lists : (u : ℕ) → get_or g.adj u [] ≡ targets u done

indegree-snoc :
    (v a b : ℕ) (es : Edges)
    → indegree v (es ++ (a, b) ∷ []) ≡ (if b == v then 1 else 0) + indegree v es
indegree-snoc v a b [] = refl
indegree-snoc v a b ((c, d) ∷ es) = omega (arith, indegree-snoc v a b es)

targets-snoc :
    (u a b : ℕ) (es : Edges)
    → targets u (es ++ (a, b) ∷ []) ≡ (if a == u then targets u es ++ b ∷ [] else targets u es)
targets-snoc u a b [] = ground arith
targets-snoc u a b ((c, d) ∷ es) = ground (arith, targets-snoc u a b es)

add_edge-Follows :
    (n : ℕ) (g : Graph) (done : Edges) (u v : ℕ)
    → Follows n g done
    → u < n
    → v < n
    → Follows n (add_edge g u v) (done ++ (u, v) ∷ [])
unfolding add_edge
add_edge-Follows n g done u v f hu hv = record {
  degrees = length-modify g.in_degree v suc ∙ f.degrees;
  rows = length-modify g.adj u _ ∙ f.rows;
  counts = λ w. ground (
    arith,
    f.counts w,
    indegree-snoc w u v done,
    get_or-modify_self g.in_degree v suc 0,
    get_or-modify_ne g.in_degree v w suc 0,
  );
  lists = λ w. ground (
    arith,
    f.lists w,
    targets-snoc w u v done,
    get_or-modify_self g.adj u (λ vs. vs ++ v ∷ []) [],
    get_or-modify_ne g.adj u w (λ vs. vs ++ v ∷ []) [],
  );
}

append_cons : (xs ys : Edges) (x : ℕ × ℕ) → (xs ++ x ∷ []) ++ ys ≡ xs ++ x ∷ ys
append_cons [] ys x = refl
append_cons (e ∷ xs) ys x = ap (◌∷◌ e) (append_cons xs ys x)

add_edges-Follows :
    (n : ℕ) (es done : Edges) (g : Graph)
    → Follows n g done
    → InBounds n es
    → Follows n (add_edges g es) (done ++ es)
unfolding add_edges
add_edges-Follows n [] done g f h = rw (append-nil done) f
add_edges-Follows n ((u, v) ∷ es) done g f h = rw (append_cons done es (u, v)) at (
    add_edges-Follows n es (done ++ (u, v) ∷ []) (add_edge g u v)
      (add_edge-Follows n g done u v f h.0.0 h.0.1) h.1)

-- The built in-degrees and successor rows are those of the edge list.
pub build_graph-Follows : (n : ℕ) (es : Edges) → InBounds n es → Follows n (build_graph n es) es
unfolding build_graph
build_graph-Follows n es h = add_edges-Follows n es [] _ start h
  where
    start : Follows n (record { in_degree = replicate n 0; adj = replicate n [] }) []
    start = record {
      degrees = length-replicate n 0;
      rows = length-replicate n [];
      counts = λ v. get_or-replicate n v 0;
      lists = λ u. get_or-replicate n u [];
    }
