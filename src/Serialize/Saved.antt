-- ===== src/Serialize/Saved.antt =====
-- src/serialize.cpp: the blueprints that JSON can hold, and what the conversions of indices do.
use Prim.Native.String.{String}
use xrune.Base.{
  ℕ, ◌^◌, ◌<◌, ◌≤◌, ◌≡◌, ◌≢◌, ℤ, pos, negsuc, any, map, get_elem?, Bool, true, false, none, some,
  List, [], ◌∷◌, ◌++◌, length, All,
}
use xrune.Blueprint.{
  PortDescriptor, Node, Connection, ParamConnection, TerminalSource, Terminal, Blueprint,
}
use xrune.Blueprint.Wiring.{IsWellFormed}
use xrune.Json.{Text, codes, equal}
use xrune.Json.Strings.{IsBytes}
use xrune.Json.Numbers.{CNumbers}
use xrune.Registry.{number_arg, NodeArgs, NodeRegistry, find_named, make_node}
use xrune.Serialize.{Numbering}

abbrev pub Small : ℕ → Type 0
Small n = n < 2 ^ 53

-- An index, or the -1 for none.
abbrev pub SmallIndex : ℤ → Type 0
SmallIndex (pos n) = Small n
SmallIndex (negsuc n) = n ≡ 0

-- double(i) is finite, and exact for an index below 2 ^ 53 and for -1.
pub record SizeLaws {D : Type 0} (c : CNumbers D) (nz : D → Bool) (w : Numbering D) : Type 0 where
  pub size_exact : (n : ℕ) → n < 2 ^ 53 → c.llround (w.of_size n) ≡ pos n
  pub size_finite : (n : ℕ) → c.isfinite (w.of_size n) ≡ true
  pub size_no_zero : (n : ℕ) → nz (w.of_size n) ≡ false
  pub long_exact : (i : ℤ) → SmallIndex i → c.llround (w.of_long i) ≡ i
  pub long_finite : (i : ℤ) → c.isfinite (w.of_long i) ≡ true
  pub long_no_zero : (i : ℤ) → nz (w.of_long i) ≡ false

abbrev pub SmallConnection : Connection → Type 0
SmallConnection l = Small l.src_node × Small l.src_output × Small l.dst_node × Small l.dst_input

abbrev pub SmallModulation : ParamConnection → Type 0
SmallModulation l = Small l.src_node × Small l.src_output × Small l.dst_node × Small l.dst_param

-- A channel is silent, with no node, or an output of one of `count` nodes.
abbrev pub SavedChannel : ℕ → TerminalSource → Type 0
SavedChannel count ch =
    (ch.silent ≡ true → (ch.node ≡ 0) × (ch.ch ≡ 0))
    × (ch.silent ≡ false → (ch.node < count) × Small ch.node × Small ch.ch)

abbrev pub SavedTerminal : ℕ → Terminal → Type 0
SavedTerminal count t =
    IsBytes (codes t.name) × (t.node < count) × Small t.node × All (SavedChannel count) t.channels

-- The names under which a node's arguments are written.
abbrev pub arg_names : {D : Type 0} → Node D → List Text
arg_names n = map (λ a. codes a.0) n.config_args ++ map (λ d. codes d.name) n.params

abbrev pub AllApart : List Text → Type 0
AllApart [] = Unit
AllApart (k ∷ ks) = All (λ j. equal k j ≡ false) ks × AllApart ks

-- Named arguments that give each config_args() value and each port's default under its name, and no
-- other.
pub record Describes {D : Type 0} (n : Node D) (args : NodeArgs D) : Type 0 where
  pub no_positional : args.positional ≡ []
  pub configs :
      (i : ℕ) (name : String) (v : D)
      → get_elem? n.config_args i ≡ some (name, v)
      → find_named args (codes name) ≡ some (number_arg v)
  pub ports :
      (p : ℕ) (d : PortDescriptor D)
      → get_elem? n.params p ≡ some d
      → find_named args (codes d.name) ≡ some (number_arg (n.param_default p))
  pub others :
      (key : Text) → any (λ k. equal k key) (arg_names n) ≡ false → find_named args key ≡ none

module _ {D : Type 0} (c : CNumbers D) (nz : D → Bool) where
  -- A finite number that is not -0.
  abbrev pub Written : D → Type 0
  Written v = (c.isfinite v ≡ true) × (nz v ≡ false)

  -- The registry has a factory for the type, which makes the same node from any arguments that
  -- describe it.
  pub record SavedNode (reg : NodeRegistry D) (n : Node D) : Type 0 where
    pub typed : codes n.type_name ≢ []
    pub type_bytes : IsBytes (codes n.type_name)
    pub few : length n.config_args ≤ 8
    pub apart : AllApart (arg_names n)
    pub names_bytes : All IsBytes (arg_names n)
    pub configs_written : All (λ (a : String × D). Written a.1) n.config_args
    pub defaults_written : (p : ℕ) → p < length n.params → Written (n.param_default p)
    pub rebuilt :
        (args : NodeArgs D) → Describes n args → make_node reg (codes n.type_name) args ≡ some n

  -- The conditions on a blueprint and its name. The parameters of a blueprint are not written.
  pub record IsSaved (reg : NodeRegistry D) (bp : Blueprint D) (name : String) : Type 0 where
    pub well_formed : IsWellFormed bp
    pub no_params : bp.params ≡ []
    pub nodes_saved : All (SavedNode reg) bp.nodes
    pub names_bytes : All (λ s. IsBytes (codes s)) bp.names
    pub name_bytes : IsBytes (codes name)
    pub connections_small : All SmallConnection bp.connections
    pub modulations_small : All SmallModulation bp.param_connections
    pub inputs_saved : All (SavedTerminal (length bp.nodes)) bp.input_terminals
    pub outputs_saved : All (SavedTerminal (length bp.nodes)) bp.output_terminals
    pub input_small : SmallIndex bp.input_node
    pub output_small : SmallIndex bp.output_node
