-- ===== src/Blueprint.antt =====
-- include/xrune/core.hpp (port_descriptor, node) and include/xrune/blueprint.hpp: node types as the
-- scheduler sees them, and the graph description that a program builds. `S` stands for sample_t
-- (a double): samples are only carried here.
pub mod Wiring
pub mod Editing
use Prim.Native.String.{String}
use text.Mathlib.Text.{◌==◌ as str_eq}
use xrune.Base.{
  ℕ, zero, suc, ◌+◌, ◌-◌, ◌^◌, ℤ, pos, negsuc, ltb, Bool, true, false, ◌&&◌, ◌||◌, Option, none,
  some, List, [], ◌∷◌, ◌++◌, map, leb, ◌==◌, if◌then◌else◌, length, get_elem?, set, any,
}

pub record PortDescriptor (S : Type 0) : Type 0 where
  pub name : String
  pub default_value : S
  pub min_value : S
  pub max_value : S

-- What a node type says of itself. `params` is the table that params() points to and
-- params_count() measures, `config_args` what config_args() writes when it is given room for all of
-- it, and `param_default` the virtual function. The processing code is not part of the description.
pub record Node (S : Type 0) : Type 0 where
  pub inputs_count : ℕ
  pub outputs_count : ℕ
  pub params : List (PortDescriptor S)
  pub type_name : String
  pub rate_num : ℕ
  pub rate_den : ℕ
  pub block_num : ℕ
  pub block_den : ℕ
  pub state_size : ℕ
  pub state_align : ℕ
  pub config_args : List (String × S)
  pub param_default : ℕ → S

pub record Connection : Type 0 where
  pub src_node : ℕ
  pub src_output : ℕ
  pub dst_node : ℕ
  pub dst_input : ℕ

pub record ParamConnection : Type 0 where
  pub src_node : ℕ
  pub src_output : ℕ
  pub dst_node : ℕ
  pub dst_param : ℕ

pub record TerminalSource : Type 0 where
  pub node : ℕ
  pub ch : ℕ
  pub silent : Bool

pub record Terminal : Type 0 where
  pub name : String
  pub node : ℕ
  pub channels : List TerminalSource

pub record ParamTarget : Type 0 where
  pub node : ℕ
  pub port : ℕ

pub record BlueprintParam (S : Type 0) : Type 0 where
  pub name : String
  pub default_value : S
  pub targets : List ParamTarget
  pub partial : Bool

pub record Blueprint (S : Type 0) : Type 0 where
  pub nodes : List (Node S)
  pub names : List String
  pub connections : List Connection
  pub param_connections : List ParamConnection
  pub input_terminals : List Terminal
  pub output_terminals : List Terminal
  pub params : List (BlueprintParam S)
  pub input_node : ℤ
  pub output_node : ℤ

-- The first index whose name is the given one: the loop that each find_… function runs.
unfoldable pub find_name : String → List String → Option ℕ
find_name name [] = none
find_name name (n ∷ ns) =
    if str_eq n name
    then some 0
    else (elim (find_name name ns) [ none ↦ none | some i ↦ some (suc i) ])

unfoldable pub same_input : ℕ → ℕ → Connection → Bool
same_input dst input c = c.dst_node == dst && c.dst_input == input

unfoldable pub same_param : ℕ → ℕ → ParamConnection → Bool
same_param dst param c = c.dst_node == dst && c.dst_param == param

-- Channels first, first + 1, … of one node: `count` of them.
unfoldable pub channels_of : ℕ → ℕ → ℕ → List TerminalSource
channels_of node first zero = []
channels_of node first (suc count) =
    record { node = node; ch = first; silent = false } ∷ channels_of node (first + 1) count

-- static_cast<long> of a size_t.
abbrev pub to_long : ℕ → ℤ
to_long n = if ltb n (2 ^ 63) then pos n else negsuc (2 ^ 64 - 1 - n)

module _ {S : Type 0} where
  unfoldable pub empty : Blueprint S
  empty = record {
    nodes = [];
    names = [];
    connections = [];
    param_connections = [];
    input_terminals = [];
    output_terminals = [];
    params = [];
    input_node = negsuc 0;
    output_node = negsuc 0;
  }

  unfoldable pub size : Blueprint S → ℕ
  size bp = length bp.nodes

  -- nodes[i]->inputs_count() and so on. Past the end, which C++ leaves undefined, there are none.
  unfoldable pub inputs_count_at : List (Node S) → ℕ → ℕ
  inputs_count_at nodes i = elim (get_elem? nodes i) [ none ↦ 0 | some n ↦ n.inputs_count ]

  unfoldable pub outputs_count_at : List (Node S) → ℕ → ℕ
  outputs_count_at nodes i = elim (get_elem? nodes i) [ none ↦ 0 | some n ↦ n.outputs_count ]

  unfoldable pub params_at : List (Node S) → ℕ → List (PortDescriptor S)
  params_at nodes i = elim (get_elem? nodes i) [ none ↦ [] | some n ↦ n.params ]

  unfoldable pub add : Blueprint S → Node S → Blueprint S × ℕ
  unfolding size
  add bp node = (record bp { nodes = bp.nodes ++ node ∷ []; names = bp.names ++ "" ∷ [] }, size bp)

  unfoldable pub add_named : Blueprint S → String → Node S → Blueprint S × ℕ
  unfolding add
  add_named bp name node =
      let (bp', idx) = add bp node in (record bp' { names = set bp'.names idx name }, idx)

  unfoldable pub find_node : Blueprint S → String → Option ℕ
  unfolding find_name
  find_node bp name = find_name name bp.names

  unfoldable pub find_rune_param : Blueprint S → String → Option ℕ
  unfolding find_name
  find_rune_param bp name = find_name name (map (λ p. p.name) bp.params)

  unfoldable pub find_output_terminal : Blueprint S → String → Option ℕ
  unfolding find_name
  find_output_terminal bp name = find_name name (map (λ t. t.name) bp.output_terminals)

  unfoldable pub find_input_terminal : Blueprint S → String → Option ℕ
  unfolding find_name
  find_input_terminal bp name = find_name name (map (λ t. t.name) bp.input_terminals)

  unfoldable pub find_param : Blueprint S → ℕ → String → Option ℕ
  unfolding find_name size params_at
  find_param bp node_index name =
      if leb (size bp) node_index
      then none
      else find_name name (map (λ p. p.name) (params_at bp.nodes node_index))

  unfoldable pub connect : Blueprint S → ℕ → ℕ → ℕ → ℕ → Blueprint S × Bool
  unfolding size inputs_count_at outputs_count_at same_input
  connect bp src out dst input =
      if leb (size bp) src || leb (size bp) dst
      then (bp, false)
      else if leb (outputs_count_at bp.nodes src) out
      then (bp, false)
      else if leb (inputs_count_at bp.nodes dst) input
      then (bp, false)
      else if any (same_input dst input) bp.connections
      then (bp, false)
      else (record bp { connections = bp.connections ++ link ∷ [] }, true)
    where
      link : Connection
      link = record { src_node = src; src_output = out; dst_node = dst; dst_input = input }

  unfoldable pub connect_param : Blueprint S → ℕ → ℕ → ℕ → ℕ → Blueprint S × Bool
  unfolding size outputs_count_at params_at same_param
  connect_param bp src out dst param =
      if leb (size bp) src || leb (size bp) dst
      then (bp, false)
      else if leb (outputs_count_at bp.nodes src) out
      then (bp, false)
      else if leb (length (params_at bp.nodes dst)) param
      then (bp, false)
      else if any (same_param dst param) bp.param_connections
      then (bp, false)
      else (record bp { param_connections = bp.param_connections ++ link ∷ [] }, true)
    where
      link : ParamConnection
      link = record { src_node = src; src_output = out; dst_node = dst; dst_param = param }

  unfoldable pub add_output_terminal : Blueprint S → String → ℕ → Blueprint S × ℕ
  unfolding channels_of outputs_count_at
  add_output_terminal bp name node =
      (record bp { output_terminals = bp.output_terminals ++ t ∷ [] }, length bp.output_terminals)
    where
      t : Terminal
      t = record {
        name = name;
        node = node;
        channels = channels_of node 0 (outputs_count_at bp.nodes node);
      }

  unfoldable pub add_indexed_output_terminal :
      Blueprint S → String → List TerminalSource → Blueprint S × ℕ
  add_indexed_output_terminal bp name chans =
      (record bp { output_terminals = bp.output_terminals ++ t ∷ [] }, length bp.output_terminals)
    where
      front : ℕ
      front = elim chans [ [] ↦ 0 | c ∷ cs ↦ c.node ]

      t : Terminal
      t = record { name = name; node = front; channels = chans }

  unfoldable pub add_input_terminal : Blueprint S → String → ℕ → Blueprint S × ℕ
  add_input_terminal bp name node =
      (record bp { input_terminals = bp.input_terminals ++ t ∷ [] }, length bp.input_terminals)
    where
      t : Terminal
      t = record { name = name; node = node; channels = [] }

  unfoldable pub set_output : Blueprint S → ℕ → Blueprint S
  unfolding add_output_terminal
  set_output bp n =
      let bp' : Blueprint S = record bp { output_node = to_long n } in
      elim bp.output_terminals [ [] ↦ (add_output_terminal bp' "out" n).0 | _ ↦ bp' ]

  unfoldable pub set_input : Blueprint S → ℕ → Blueprint S
  set_input bp n = record bp { input_node = to_long n }
