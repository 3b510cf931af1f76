-- ===== src/Schedule/Topo.antt =====
-- src/schedule.cpp: the topological sort of compile() (Kahn's algorithm). Audio and parameter
-- connections are the edges; in_degree and adj are vectors, and the queue is a list, front first.
pub mod Edges
pub mod Step
pub mod Order
use xrune.Base.{
  ℕ, zero, suc, ◌+◌, ◌-◌, ◌^◌, Option, none, some, List, [], ◌∷◌, ◌++◌, map, ◌==◌, if◌then◌else◌,
  modify, set, get_or, replicate,
}
use xrune.Blueprint.{Blueprint, Connection, ParamConnection, size}

pub record Graph : Type 0 where
  pub in_degree : List ℕ
  pub adj : List (List ℕ)

unfoldable pub add_edge : Graph → ℕ → ℕ → Graph
add_edge g u v = record {
  in_degree = modify g.in_degree v suc;
  adj = modify g.adj u (λ vs. vs ++ v ∷ []);
}

unfoldable pub add_edges : Graph → List (ℕ × ℕ) → Graph
unfolding add_edge
add_edges g [] = g
add_edges g ((u, v) ∷ es) = add_edges (add_edge g u v) es

-- What the two add_edge loops run over.
unfoldable pub edges : {S : Type 0} → Blueprint S → List (ℕ × ℕ)
edges bp =
    map (λ (c : Connection). (c.src_node, c.dst_node)) bp.connections
    ++ map (λ (c : ParamConnection). (c.src_node, c.dst_node)) bp.param_connections

unfoldable pub build_graph : ℕ → List (ℕ × ℕ) → Graph
unfolding add_edges
build_graph n es = add_edges (record { in_degree = replicate n 0; adj = replicate n [] }) es

-- --x on a size_t.
unfoldable pub decrement : ℕ → ℕ
decrement zero = 2 ^ 64 - 1
decrement (suc x) = x

-- for (v : adj[u]) if (--in_degree[v] == 0) q.push(v);
unfoldable pub relax : List ℕ → List ℕ → List ℕ → List ℕ × List ℕ
unfolding decrement
relax [] in_degree q = (in_degree, q)
relax (v ∷ vs) in_degree q =
    let left = decrement (get_or in_degree v 0) in
    relax vs (set in_degree v left) (if left == 0 then q ++ v ∷ [] else q)

-- The nodes from `i` on with nothing before them.
unfoldable pub ready_from : ℕ → List ℕ → List ℕ
ready_from i [] = []
ready_from i (d ∷ ds) = if d == 0 then i ∷ ready_from (suc i) ds else ready_from (suc i) ds

-- while (!q.empty()), with fuel; `none` means that the fuel ran out.
unfoldable pub drain : ℕ → List (List ℕ) → List ℕ → List ℕ → List ℕ → Option (List ℕ)
unfolding relax
drain fuel adj in_degree [] topo_order = some topo_order
drain zero adj in_degree (u ∷ q) topo_order = none
drain (suc fuel) adj in_degree (u ∷ q) topo_order =
    let (in_degree', q') = relax (get_or adj u []) in_degree q in
    drain fuel adj in_degree' q' (topo_order ++ u ∷ [])

-- The nodes that the sort reaches; compile() fails when they are not all of them. Each round takes
-- another node off the queue, so that as many rounds as there are nodes are enough.
unfoldable pub topo_sort : ℕ → List (ℕ × ℕ) → Option (List ℕ)
unfolding build_graph ready_from drain
topo_sort n es = let g = build_graph n es in drain n g.adj g.in_degree (ready_from 0 g.in_degree) []
