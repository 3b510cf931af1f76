-- ===== src/Blueprint/Wiring.antt =====
-- include/xrune/blueprint.hpp: what connect() and connect_param() accept, and the well-formedness
-- that every building operation keeps.
use xrune.Base.{
  ℕ, zero, suc, ◌<◌, ◌≡◌, refl, ap, ◌≢◌, ◌⊎◌, inl, inr, Bool, true, false, some, List, [], ◌∷◌,
  ◌++◌, arith, length, get_elem?, any-get_elem?, any_of_none, All, Bool-cases,
}
use xrune.Blueprint.{
  Node, Connection, ParamConnection, Blueprint, inputs_count_at, outputs_count_at, params_at,
  same_input, same_param, connect, connect_param,
}

-- The ports that a connection names are there.
pub record InRange {S : Type 0} (nodes : List (Node S)) (c : Connection) : Type 0 where
  pub src_in : c.src_node < length nodes
  pub dst_in : c.dst_node < length nodes
  pub out_in : c.src_output < outputs_count_at nodes c.src_node
  pub input_in : c.dst_input < inputs_count_at nodes c.dst_node

pub record ParamInRange {S : Type 0} (nodes : List (Node S)) (c : ParamConnection) : Type 0 where
  pub src_in : c.src_node < length nodes
  pub dst_in : c.dst_node < length nodes
  pub out_in : c.src_output < outputs_count_at nodes c.src_node
  pub param_in : c.dst_param < length (params_at nodes c.dst_node)

-- Each input has one source: connections that agree on their target are one connection.
abbrev pub SingleSource : List Connection → Type 0
SingleSource cs =
    (i j : ℕ) (c d : Connection)
    → get_elem? cs i ≡ some c
    → get_elem? cs j ≡ some d
    → c.dst_node ≡ d.dst_node
    → c.dst_input ≡ d.dst_input
    → i ≡ j

abbrev pub SingleParamSource : List ParamConnection → Type 0
SingleParamSource cs =
    (i j : ℕ) (c d : ParamConnection)
    → get_elem? cs i ≡ some c
    → get_elem? cs j ≡ some d
    → c.dst_node ≡ d.dst_node
    → c.dst_param ≡ d.dst_param
    → i ≡ j

pub record IsWellFormed {S : Type 0} (bp : Blueprint S) : Type 0 where
  pub named : length bp.names ≡ length bp.nodes
  pub in_range : All (InRange bp.nodes) bp.connections
  pub params_in_range : All (ParamInRange bp.nodes) bp.param_connections
  pub single : SingleSource bp.connections
  pub single_param : SingleParamSource bp.param_connections

-- An element of `xs ++ x ∷ []` is one of `xs`, or the last.
get_elem?_snoc {ℓ} :
    {A : Type ℓ} (xs : List A) (x : A) (i : ℕ) {a : A}
    → get_elem? (xs ++ x ∷ []) i ≡ some a
    → (get_elem? xs i ≡ some a) × (i < length xs) ⊎ (i ≡ length xs) × (x ≡ a)
get_elem?_snoc [] x zero e = inr (refl, ground arith)
get_elem?_snoc [] x (suc i) e = cc
get_elem?_snoc (y ∷ xs) x zero e = inl (e, omega arith)
get_elem?_snoc (y ∷ xs) x (suc i) e = elim (get_elem?_snoc xs x i e) [
  | inl (h, lt) ↦ inl (h, omega arith)
  | inr (h, k) ↦ inr (ap suc h, k)
]

pub SingleSource-snoc :
    (cs : List Connection) (c : Connection)
    → SingleSource cs
    → ((i : ℕ) (d : Connection)
        → get_elem? cs i ≡ some d
        → d.dst_node ≡ c.dst_node
        → d.dst_input ≢ c.dst_input)
    → SingleSource (cs ++ c ∷ [])
SingleSource-snoc cs c single free i j d e hi hj same_node same_port =
    ground (
      arith,
      get_elem?_snoc cs c i hi,
      get_elem?_snoc cs c j hj,
      single i j d e,
      free i d,
      free j e,
    )

pub SingleParamSource-snoc :
    (cs : List ParamConnection) (c : ParamConnection)
    → SingleParamSource cs
    → ((i : ℕ) (d : ParamConnection)
        → get_elem? cs i ≡ some d
        → d.dst_node ≡ c.dst_node
        → d.dst_param ≢ c.dst_param)
    → SingleParamSource (cs ++ c ∷ [])
SingleParamSource-snoc cs c single free i j d e hi hj same_node same_port =
    ground (
      arith,
      get_elem?_snoc cs c i hi,
      get_elem?_snoc cs c j hj,
      single i j d e,
      free i d,
      free j e,
    )

module _ {S : Type 0} where
  -- The conditions under which connect() makes a connection.
  pub record Connectable (bp : Blueprint S) (c : Connection) : Type 0 where
    pub ports : InRange bp.nodes c
    pub free :
        (i : ℕ) (d : Connection)
        → get_elem? bp.connections i ≡ some d
        → d.dst_node ≡ c.dst_node
        → d.dst_input ≢ c.dst_input

  abbrev pub connect_at : Blueprint S → Connection → Blueprint S × Bool
  connect_at bp c = connect bp c.src_node c.src_output c.dst_node c.dst_input

  connect-Connectable :
      (bp : Blueprint S) (c : Connection) → (connect_at bp c).1 ≡ true → Connectable bp c
  unfolding connect
  connect-Connectable bp c h = record {
    ports = ground arith;
    free = λ i d e same_node same_port.
        ground (arith, any-get_elem? (same_input c.dst_node c.dst_input) bp.connections i {a = d});
  }

  Connectable-connect :
      (bp : Blueprint S) (c : Connection) → Connectable bp c → (connect_at bp c).1 ≡ true
  unfolding connect
  Connectable-connect bp c v = ground (arith, v.ports, any_of_none same bp.connections none_same)
    where
      same : Connection → Bool
      same = same_input c.dst_node c.dst_input

      none_same : (i : ℕ) (d : Connection) → get_elem? bp.connections i ≡ some d → same d ≡ false
      none_same i d e = ground (arith, v.free i d e)

  connect_made :
      (bp : Blueprint S) (c : Connection)
      → (connect_at bp c).1 ≡ true
      → connect_at bp c ≡ (record bp { connections = bp.connections ++ c ∷ [] }, true)
  unfolding connect
  connect_made bp c h = ground arith

  connect_refused :
      (bp : Blueprint S) (c : Connection)
      → (connect_at bp c).1 ≡ false
      → connect_at bp c ≡ (bp, false)
  unfolding connect
  connect_refused bp c h = ground arith

  -- connect() makes exactly the connection asked for when both ports exist and the input has no
  -- source yet, and otherwise returns false and leaves the blueprint as it was.
  pub connect_lem :
      (bp : Blueprint S) (c : Connection)
      → Connectable bp c
          × (connect_at bp c ≡ (record bp { connections = bp.connections ++ c ∷ [] }, true))
        ⊎ (¬ Connectable bp c) × (connect_at bp c ≡ (bp, false))
  connect_lem bp c = elim (Bool-cases (connect_at bp c).1) [
    | inl made ↦ inl (connect-Connectable bp c made, connect_made bp c made)
    | inr refused ↦ inr (λ v. cc (Connectable-connect bp c v), connect_refused bp c refused)
  ]

  -- A control connection that connect_param() can make: the ports exist, and the port is free.
  pub record ParamConnectable (bp : Blueprint S) (c : ParamConnection) : Type 0 where
    pub ports : ParamInRange bp.nodes c
    pub free :
        (i : ℕ) (d : ParamConnection)
        → get_elem? bp.param_connections i ≡ some d
        → d.dst_node ≡ c.dst_node
        → d.dst_param ≢ c.dst_param

  abbrev pub connect_param_at : Blueprint S → ParamConnection → Blueprint S × Bool
  connect_param_at bp c = connect_param bp c.src_node c.src_output c.dst_node c.dst_param

  connect_param-ParamConnectable :
      (bp : Blueprint S) (c : ParamConnection)
      → (connect_param_at bp c).1 ≡ true
      → ParamConnectable bp c
  unfolding connect_param
  connect_param-ParamConnectable bp c h = record {
    ports = ground arith;
    free = λ i d e same_node same_port.
        ground
          (arith, any-get_elem? (same_param c.dst_node c.dst_param) bp.param_connections i {a = d});
  }

  ParamConnectable-connect_param :
      (bp : Blueprint S) (c : ParamConnection)
      → ParamConnectable bp c
      → (connect_param_at bp c).1 ≡ true
  unfolding connect_param
  ParamConnectable-connect_param bp c v =
      ground (arith, v.ports, any_of_none same bp.param_connections none_same)
    where
      same : ParamConnection → Bool
      same = same_param c.dst_node c.dst_param

      none_same :
          (i : ℕ) (d : ParamConnection) → get_elem? bp.param_connections i ≡ some d → same d ≡ false
      none_same i d e = ground (arith, v.free i d e)

  param_made :
      (bp : Blueprint S) (c : ParamConnection)
      → (connect_param_at bp c).1 ≡ true
      → connect_param_at bp c
        ≡ (record bp { param_connections = bp.param_connections ++ c ∷ [] }, true)
  unfolding connect_param
  param_made bp c h = ground arith

  param_refused :
      (bp : Blueprint S) (c : ParamConnection)
      → (connect_param_at bp c).1 ≡ false
      → connect_param_at bp c ≡ (bp, false)
  unfolding connect_param
  param_refused bp c h = ground arith

  -- connect_param() makes exactly the connection asked for when the output and the control port exist
  -- and the port has no source yet, and otherwise returns false and leaves the blueprint as it was.
  pub connect_param_lem :
      (bp : Blueprint S) (c : ParamConnection)
      → ParamConnectable bp c
          × (connect_param_at bp c
              ≡ (record bp { param_connections = bp.param_connections ++ c ∷ [] }, true))
        ⊎ (¬ ParamConnectable bp c) × (connect_param_at bp c ≡ (bp, false))
  connect_param_lem bp c = elim (Bool-cases (connect_param_at bp c).1) [
    | inl made ↦ inl (connect_param-ParamConnectable bp c made, param_made bp c made)
    | inr refused ↦
        inr (λ v. cc (ParamConnectable-connect_param bp c v), param_refused bp c refused)
  ]
