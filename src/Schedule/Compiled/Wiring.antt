-- ===== src/Schedule/Compiled/Wiring.antt =====
-- src/schedule.cpp: the input and parameter tables of a compiled schedule name the connections of
-- the blueprint, and nothing else.
use xrune.Base.{
  ℕ, zero, suc, ◌<◌, ◌≡◌, ◌≢◌, ◌∙◌, refl, subst, some, some-injective, List, [], ◌∷◌, map, length,
  replicate, length-replicate, length-map, get_or-replicate, arith, get_elem?, get_or, any_of_none,
  All,
}
use xrune.Blueprint.{Node, Blueprint, Connection, ParamConnection, inputs_count_at, params_at}
use xrune.Blueprint.Wiring.{InRange, ParamInRange, IsWellFormed}
use xrune.Schedule.Layout.{
  silent, channel, Wire, input_wire, param_wire, silent_rows, wire_all, wire_inputs, wire_params,
}
use xrune.Schedule.Layout.Wires.{
  source_at, HasPort, OneWire, leads_to, wire_all_unfed, wire_all_fed,
}
use xrune.Schedule.{CompiledSchedule, lay_out, compile}
use xrune.Schedule.Compiled.{Went, compile-Went}

get_elem?-map {ℓ κ} :
    {A : Type ℓ} {B : Type κ} (f : A → B) (xs : List A) (i : ℕ) {x : A}
    → get_elem? xs i ≡ some x
    → get_elem? (map f xs) i ≡ some (f x)
get_elem?-map f [] i e = cc
get_elem?-map f (y ∷ xs) zero e = cc
get_elem?-map f (y ∷ xs) (suc i) e = get_elem?-map f xs i e

get_elem?-map_inv {ℓ κ} :
    {A : Type ℓ} {B : Type κ} (f : A → B) (xs : List A) (i : ℕ) {y : B}
    → get_elem? (map f xs) i ≡ some y
    → (x : A) × (get_elem? xs i ≡ some x) × (f x ≡ y)
get_elem?-map_inv f [] i e = cc
get_elem?-map_inv f (x ∷ xs) zero e = (x, refl, some-injective _ _ e)
get_elem?-map_inv f (x ∷ xs) (suc i) e = get_elem?-map_inv f xs i e

All-get_elem? {ℓ κ} :
    {A : Type ℓ} (P : A → Type κ) (xs : List A) (i : ℕ) {x : A}
    → All P xs
    → get_elem? xs i ≡ some x
    → P x
All-get_elem? P [] i h e = cc
All-get_elem? P (y ∷ xs) zero h e = subst P (some-injective _ _ e) h.0
All-get_elem? P (y ∷ xs) (suc i) h e = All-get_elem? P xs i h.1 e

-- Before the wiring every port is there and silent.
row_at :
    (counts : List ℕ) (d : ℕ)
    → get_or (silent_rows counts) d [] ≡ replicate (get_or counts d 0) silent
unfolding silent_rows
row_at [] d = refl
row_at (c ∷ cs) zero = refl
row_at (c ∷ cs) (suc d) = row_at cs d

module _ {S : Type 0} where
  inputs_at :
      (nodes : List (Node S)) (d : ℕ)
      → get_or (map (λ (n : Node S). n.inputs_count) nodes) d 0 ≡ inputs_count_at nodes d
  unfolding inputs_count_at
  inputs_at [] d = refl
  inputs_at (n ∷ ns) zero = refl
  inputs_at (n ∷ ns) (suc d) = inputs_at ns d

  params_len :
      (nodes : List (Node S)) (d : ℕ)
      → get_or (map (λ (n : Node S). length n.params) nodes) d 0 ≡ length (params_at nodes d)
  unfolding params_at
  params_len [] d = refl
  params_len (n ∷ ns) zero = refl
  params_len (n ∷ ns) (suc d) = params_len ns d

HasPort-silent :
    (counts : List ℕ) (d p : ℕ)
    → p < get_or counts d 0
    → d < length counts
    → HasPort (silent_rows counts) d p
HasPort-silent counts d p h l = (
  unfold silent_rows in omega (arith, length-map (λ (c : ℕ). replicate c silent) counts),
  rw (row_at counts d) (omega (arith, length-replicate (get_or counts d 0) silent)),
)

unwired_silent :
    (ws : List Wire) (counts : List ℕ) (d p : ℕ)
    → ((i : ℕ) (w : Wire) → get_elem? ws i ≡ some w → w.dst ≡ d → w.port ≢ p)
    → source_at (wire_all ws (silent_rows counts)) d p ≡ silent
unwired_silent ws counts d p none_leads =
    wire_all_unfed ws d p (silent_rows counts)
      (any_of_none (leads_to d p) ws (λ i w e. ground (arith, none_leads i w e)))
    ∙ rw (row_at counts d) (get_or-replicate (get_or counts d 0) p silent)

-- Each port's entry is the connection that ends there, and silent where none does.
pub record IsWired {S : Type 0} (bp : Blueprint S) (s : CompiledSchedule S) : Type 0 where
  pub inputs :
      (i : ℕ) (c : Connection)
      → get_elem? bp.connections i ≡ some c
      → source_at s.input_source c.dst_node c.dst_input ≡ channel c.src_node c.src_output
  pub unfed_inputs :
      (d p : ℕ)
      → ((i : ℕ) (c : Connection)
          → get_elem? bp.connections i ≡ some c
          → c.dst_node ≡ d
          → c.dst_input ≢ p)
      → source_at s.input_source d p ≡ silent
  pub params :
      (i : ℕ) (c : ParamConnection)
      → get_elem? bp.param_connections i ≡ some c
      → source_at s.param_source c.dst_node c.dst_param ≡ channel c.src_node c.src_output
  pub unfed_params :
      (d p : ℕ)
      → ((i : ℕ) (c : ParamConnection)
          → get_elem? bp.param_connections i ≡ some c
          → c.dst_node ≡ d
          → c.dst_param ≢ p)
      → source_at s.param_source d p ≡ silent

module _ {S : Type 0} (bp : Blueprint S) (v : IsWellFormed bp) where
  abbrev inputs_counts : List ℕ
  inputs_counts = map (λ (n : Node S). n.inputs_count) bp.nodes

  abbrev params_counts : List ℕ
  params_counts = map (λ (n : Node S). length n.params) bp.nodes

  one_input : OneWire (map input_wire bp.connections)
  one_input i j x y e f p q =
      let (c, ec, xc) = get_elem?-map_inv input_wire bp.connections i e in
      let (d, ed, yd) = get_elem?-map_inv input_wire bp.connections j f in
      v.single i j c d ec ed (cc) (cc)

  one_param : OneWire (map param_wire bp.param_connections)
  one_param i j x y e f p q =
      let (c, ec, xc) = get_elem?-map_inv param_wire bp.param_connections i e in
      let (d, ed, yd) = get_elem?-map_inv param_wire bp.param_connections j f in
      v.single_param i j c d ec ed (cc) (cc)

  Went-IsWired :
      {block_size : ℕ} {s : CompiledSchedule S} (w : Went bp block_size s)
      → IsWired bp (lay_out bp block_size w.order w.rates)
  unfolding lay_out wire_inputs wire_params
  Went-IsWired w = record {
    inputs = λ i c e.
        let r = All-get_elem? (InRange bp.nodes) bp.connections i v.in_range e in
        wire_all_fed (map input_wire bp.connections) i (input_wire c) _ one_input
          (get_elem?-map input_wire bp.connections i e)
          (HasPort-silent inputs_counts c.dst_node c.dst_input
            (rw (inputs_at bp.nodes c.dst_node) r.input_in)
            (omega (arith, r.dst_in, length-map (λ (n : Node S). n.inputs_count) bp.nodes)));
    unfed_inputs = λ d p none_ends.
        unwired_silent (map input_wire bp.connections) inputs_counts d p λ i x e.
          let (c, ec, xc) = get_elem?-map_inv input_wire bp.connections i e in
          subst (λ (y : Wire). y.dst ≡ d → y.port ≢ p) xc (none_ends i c ec);
    params = λ i c e.
        let r = All-get_elem? (ParamInRange bp.nodes) bp.param_connections i v.params_in_range e in
        wire_all_fed (map param_wire bp.param_connections) i (param_wire c) _ one_param
          (get_elem?-map param_wire bp.param_connections i e)
          (HasPort-silent params_counts c.dst_node c.dst_param
            (rw (params_len bp.nodes c.dst_node) r.param_in)
            (omega (arith, r.dst_in, length-map (λ (n : Node S). length n.params) bp.nodes)));
    unfed_params = λ d p none_ends.
        unwired_silent (map param_wire bp.param_connections) params_counts d p λ i x e.
          let (c, ec, xc) = get_elem?-map_inv param_wire bp.param_connections i e in
          subst (λ (y : Wire). y.dst ≡ d → y.port ≢ p) xc (none_ends i c ec);
  }

  -- In a schedule compiled from a well-formed blueprint, the tables name for every connected input
  -- and control port the source node and channel of its connection, and call every other silent.
  pub compile-IsWired :
      (block_size : ℕ) (s : CompiledSchedule S) → compile bp block_size ≡ some s → IsWired bp s
  compile-IsWired block_size s e =
      let w = compile-Went bp block_size s e in subst (IsWired bp) w.result (Went-IsWired w)
