-- ===== src/Serialize.antt =====
-- src/serialize.cpp: a blueprint as JSON, from JSON, and as a Graphviz graph. sample_t is double, `D`.
pub mod Codes
pub mod Load
pub mod Saved
pub mod Members
mod Args
mod Back
mod Wires
mod Nodes
mod Plain
pub mod RoundTrip
mod Guards
pub mod Checked
pub mod Dot
use Prim.Native.String.{String}
use xrune.Base.{
  ℕ, ℤ, zero, suc, ◌+◌, Bool, true, false, Option, none, some, List, [], ◌∷◌, ◌++◌, map, get_elem?,
  if◌then◌else◌,
}
use xrune.Blueprint.{
  PortDescriptor, Node, Connection, ParamConnection, TerminalSource, Terminal, Blueprint,
}
use xrune.Json.{
  Text, codes, Value, boolean, number, string, array, object, no_fields, make_array, make_object,
  set_key, push,
}
use xrune.Json.Numbers.{CNumbers}
use xrune.Json.Writer.{dump}

-- A vector's first `n` elements.
abbrev pub take {ℓ} : {A : Type ℓ} → ℕ → List A → List A
take zero xs = []
take (suc n) [] = []
take (suc n) (x ∷ xs) = x ∷ take n xs

-- double(i) of a size_t and of a long.
pub record Numbering (D : Type 0) : Type 0 where
  pub of_size : ℕ → D
  pub of_long : ℤ → D

abbrev pub serialize_format_version : ℕ
serialize_format_version = 1

module _ {D : Type 0} where
  -- The loops that push to an array and set the members of an object.
  abbrev pub push_all : List (Value D) → Value D → Value D
  push_all [] a = a
  push_all (v ∷ vs) a = push_all vs (push v a)

  abbrev pub set_all : List (Text × Value D) → Value D → Value D
  set_all [] o = o
  set_all ((k, v) ∷ kvs) o = set_all kvs (set_key k v o)

  -- An empty name is not written.
  abbrev pub set_name : Text → Value D → Value D
  set_name [] o = o
  set_name (c ∷ cs) o = set_key (codes "name") (string (c ∷ cs)) o

  abbrev pub is_empty_object : Value D → Bool
  is_empty_object (object no_fields) = true
  is_empty_object _ = false

  unfoldable pub port_args : Node D → ℕ → List (PortDescriptor D) → List (Text × Value D)
  port_args n p [] = []
  port_args n p (d ∷ ds) = (codes d.name, number (n.param_default p)) ∷ port_args n (suc p) ds

  unfoldable pub config_values : List (String × D) → List (Text × Value D)
  config_values [] = []
  config_values ((name, v) ∷ cs) = (codes name, number v) ∷ config_values cs

  unfoldable pub args_value : Node D → Value D
  unfolding port_args config_values
  args_value n =
      set_all (port_args n 0 n.params)
        (set_all (config_values (take 8 (n.config_args))) make_object)

module _ {D : Type 0} (w : Numbering D) where
  unfoldable pub size_value : ℕ → Value D
  size_value n = number (w.of_size n)

  -- input_node and output_node are longs.
  unfoldable pub index_value : ℤ → Value D
  index_value i = number (w.of_long i)

  unfoldable pub node_value : ℕ → Node D → Option String → Value D
  unfolding size_value args_value
  node_value i n name =
      let jn =
        set_key (codes "type") (string (codes n.type_name))
          (set_key (codes "id") (size_value i) make_object) in
      let named : Value D = elim name [ none ↦ jn | some s ↦ set_name (codes s) jn ] in
      let args = args_value n in
      if is_empty_object args then named else set_key (codes "args") args named

  unfoldable pub node_values : ℕ → List (Node D) → List String → List (Value D)
  unfolding node_value
  node_values i [] names = []
  node_values i (n ∷ ns) names = node_value i n (get_elem? names i) ∷ node_values (suc i) ns names

  unfoldable pub connection_value : Connection → Value D
  unfolding size_value
  connection_value c = set_key (codes "in") (size_value c.dst_input) (
      set_key (codes "dst") (size_value c.dst_node) (
        set_key (codes "out") (size_value c.src_output)
          (set_key (codes "src") (size_value c.src_node) make_object)))

  unfoldable pub modulation_value : ParamConnection → Value D
  unfolding size_value
  modulation_value m = set_key (codes "param") (size_value m.dst_param) (
      set_key (codes "dst") (size_value m.dst_node) (
        set_key (codes "out") (size_value m.src_output)
          (set_key (codes "src") (size_value m.src_node) make_object)))

  unfoldable pub channel_value : TerminalSource → Value D
  unfolding size_value
  channel_value c =
      if c.silent
      then set_key (codes "silent") (boolean true) make_object
      else set_key (codes "ch") (size_value c.ch)
          (set_key (codes "node") (size_value c.node) make_object)

  unfoldable pub terminal_value : Terminal → Value D
  unfolding size_value channel_value
  terminal_value t =
      let jt =
        set_key (codes "node") (size_value t.node)
          (set_key (codes "name") (string (codes t.name)) make_object) in
      elim t.channels [
        | [] ↦ jt
        | c ∷ cs ↦ set_key (codes "channels") (push_all (map channel_value (c ∷ cs)) make_array) jt
      ]

  unfoldable pub to_json_value : Blueprint D → String → Value D
  unfolding size_value index_value node_values connection_value modulation_value terminal_value
  to_json_value bp name =
      let start = set_key (codes "xrune") (size_value serialize_format_version) make_object in
      let named = set_name (codes name) start in
      let nodes = push_all (node_values 0 bp.nodes bp.names) make_array in
      let conns = push_all (map connection_value bp.connections) make_array in
      let mods = push_all (map modulation_value bp.param_connections) make_array in
      let ins = push_all (map terminal_value bp.input_terminals) make_array in
      let outs = push_all (map terminal_value bp.output_terminals) make_array in
      set_key (codes "output_node") (index_value bp.output_node) (
        set_key (codes "input_node") (index_value bp.input_node) (
          set_key (codes "output_terminals") outs (
            set_key (codes "input_terminals") ins (
              set_key (codes "modulations") mods
                (set_key (codes "connections") conns (set_key (codes "nodes") nodes named))))))

  unfoldable pub to_json : CNumbers D → Blueprint D → String → ℕ → Text
  unfolding to_json_value
  to_json c bp name indent = dump c indent (to_json_value bp name)
