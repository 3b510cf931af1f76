-- ===== src/Serialize/Load.antt =====
-- src/serialize.cpp: from_json(), with the blueprint as its result and its error message as a value.
use xrune.Base.{
  ℕ, ◌-◌, ◌%◌, ◌^◌, ℤ, pos, negsuc, int_eq, Bool, true, false, not, ◌||◌, Option, none, some, List,
  [], ◌∷◌, ◌++◌, ltb, length, if◌then◌else◌,
}
use xrune.Blueprint.{Node, TerminalSource, Terminal, Blueprint, empty, size, connect, connect_param}
use xrune.Json.{
  Text, codes, Value, Items, Fields, boolean, number, string, array, object, no_items, item,
  no_fields, field, find, text, equal,
}
use xrune.Json.Numbers.{CNumbers, integer}
use xrune.Json.Reader.{Result, ok, parse}
use xrune.Registry.{
  ArgValue, number_arg, string_arg, boolean_arg, NodeRegistry, has_type, make_node,
}
use xrune.Serialize.{serialize_format_version}
use xrune.Serialize.Codes.{decode}

-- The messages of `err`.
pub data Problem : Type 0 where
  not_json : Problem
  not_an_object : Problem
  unsupported_version : ℤ → Problem
  missing_nodes : Problem
  node_not_an_object : Problem
  node_without_type : Problem
  unknown_type : Text → Problem
  null_node : Text → Problem
  unknown_connection_node : Problem
  invalid_connection : ℤ → ℤ → ℤ → ℤ → Problem
  unknown_modulation_node : Problem
  invalid_modulation : ℤ → ℤ → ℤ → ℤ → Problem
  unknown_terminal_node : Text → Problem
  unknown_channel_node : Text → Problem

pub data Loaded (A : Type 0) : Type 0 where
  loaded : A → Loaded A
  refused : Problem → Loaded A

infixl 5 ◌>>=◌
abbrev pub ◌>>=◌ : {A B : Type 0} → Loaded A → (A → Loaded B) → Loaded B
loaded a >>= f = f a
refused e >>= f = refused e

-- size_t(i) of a long.
abbrev pub to_size : ℤ → ℕ
to_size (pos n) = n % 2 ^ 64
to_size (negsuc n) = 2 ^ 64 - 1 - n

abbrev pub minus_1 : ℤ
minus_1 = negsuc 0

-- The lambda `valid`.
abbrev pub valid_index : ℕ → ℤ → Bool
valid_index count (pos n) = ltb n count
valid_index count (negsuc n) = false

module _ {D : Type 0} where
  abbrev pub is_object : Value D → Bool
  is_object (object fs) = true
  is_object _ = false

  -- What a loop over the array under a key reads. Anything else is passed over.
  unfoldable pub items_of : Items D → List (Value D)
  items_of no_items = []
  items_of (item v vs) = v ∷ items_of vs

  abbrev pub array_items : Option (Value D) → List (Value D)
  array_items (some (array vs)) = items_of vs
  array_items _ = []

  unfoldable pub array_at : Text → Value D → List (Value D)
  array_at key o = array_items (find key o)

  -- A null or nested member is no argument.
  unfoldable pub arg_of : Value D → Option (ArgValue D)
  arg_of (number n) = some (number_arg n)
  arg_of (string s) = some (string_arg s)
  arg_of (boolean b) = some (boolean_arg b)
  arg_of _ = none

  abbrev pub keep_arg :
      Text → Option (ArgValue D) → List (Text × ArgValue D) → List (Text × ArgValue D)
  keep_arg k none rest = rest
  keep_arg k (some a) rest = (k, a) ∷ rest

  unfoldable pub args_of : Fields D → List (Text × ArgValue D)
  unfolding arg_of
  args_of no_fields = []
  args_of (field k v fs) = keep_arg k (arg_of v) (args_of fs)

  unfoldable pub args_at : Value D → List (Text × ArgValue D)
  unfolding args_of
  args_at jn = elim (find (codes "args") jn) [ some (object fs) ↦ args_of fs | _ ↦ [] ]

  module _ (reg : NodeRegistry D) where
    unfoldable pub load_node : Value D → Loaded (Node D)
    unfolding args_at
    load_node jn =
        let type = text (codes "type") [] jn in
        if not (is_object jn)
        then refused node_not_an_object
        else if equal type []
        then refused node_without_type
        else if not (has_type reg type)
        then refused (unknown_type type)
        else (elim (make_node reg type (record { named = args_at jn; positional = [] })) [
          | none ↦ refused (null_node type)
          | some n ↦ loaded n
        ])

    unfoldable pub load_nodes : List (Value D) → Blueprint D → Loaded (Blueprint D)
    unfolding load_node
    load_nodes [] out = loaded out
    load_nodes (jn ∷ jns) out = load_node jn >>= λ n. load_nodes jns (record out {
      nodes = out.nodes ++ n ∷ [];
      names = out.names ++ decode (text (codes "name") [] jn) ∷ [];
    })

  module _ (c : CNumbers D) where
    unfoldable pub load_connection : Value D → Blueprint D → Loaded (Blueprint D)
    load_connection j out =
        let src = integer c (codes "src") minus_1 j in
        let dst = integer c (codes "dst") minus_1 j in
        let o = integer c (codes "out") (pos 0) j in
        let i = integer c (codes "in") (pos 0) j in
        let (made, done) = connect out (to_size src) (to_size o) (to_size dst) (to_size i) in
        if not (valid_index (size out) src) || not (valid_index (size out) dst)
        then refused unknown_connection_node
        else if done
        then loaded made
        else refused (invalid_connection src o dst i)

    unfoldable pub load_connections : List (Value D) → Blueprint D → Loaded (Blueprint D)
    unfolding load_connection
    load_connections [] out = loaded out
    load_connections (j ∷ js) out = load_connection j out >>= λ next. load_connections js next

    unfoldable pub load_modulation : Value D → Blueprint D → Loaded (Blueprint D)
    load_modulation j out =
        let src = integer c (codes "src") minus_1 j in
        let dst = integer c (codes "dst") minus_1 j in
        let o = integer c (codes "out") (pos 0) j in
        let p = integer c (codes "param") (pos 0) j in
        let (made, done) = connect_param out (to_size src) (to_size o) (to_size dst) (to_size p) in
        if not (valid_index (size out) src) || not (valid_index (size out) dst)
        then refused unknown_modulation_node
        else if done
        then loaded made
        else refused (invalid_modulation src o dst p)

    unfoldable pub load_modulations : List (Value D) → Blueprint D → Loaded (Blueprint D)
    unfolding load_modulation
    load_modulations [] out = loaded out
    load_modulations (j ∷ js) out = load_modulation j out >>= λ next. load_modulations js next

    abbrev pub is_silent : Value D → Bool
    is_silent j = elim (find (codes "silent") j) [ some (boolean b) ↦ b | _ ↦ false ]

    unfoldable pub load_channel : ℕ → Text → Value D → Loaded TerminalSource
    load_channel count key j =
        let cn = integer c (codes "node") minus_1 j in
        if is_silent j
        then loaded (record { node = 0; ch = 0; silent = true })
        else if not (valid_index count cn)
        then refused (unknown_channel_node key)
        else loaded (record {
          node = to_size cn;
          ch = to_size (integer c (codes "ch") (pos 0) j);
          silent = false;
        })

    unfoldable pub load_channels : ℕ → Text → List (Value D) → Loaded (List TerminalSource)
    unfolding load_channel
    load_channels count key [] = loaded []
    load_channels count key (j ∷ js) =
        load_channel count key j >>= λ ch. load_channels count key js >>= λ chs. loaded (ch ∷ chs)

    unfoldable pub load_terminal : ℕ → Text → Value D → Loaded Terminal
    unfolding load_channels array_at
    load_terminal count key j =
        let nd = integer c (codes "node") minus_1 j in
        if not (valid_index count nd)
        then refused (unknown_terminal_node key)
        else (load_channels count key (array_at (codes "channels") j) >>= λ chs. loaded (record {
          name = decode (text (codes "name") [] j);
          node = to_size nd;
          channels = chs;
        }))

    unfoldable pub load_terminals : ℕ → Text → List (Value D) → Loaded (List Terminal)
    unfolding load_terminal
    load_terminals count key [] = loaded []
    load_terminals count key (j ∷ js) =
        load_terminal count key j >>= λ t. load_terminals count key js >>= λ ts. loaded (t ∷ ts)

  module _ (c : CNumbers D) (reg : NodeRegistry D) where
    -- The output terminals and the two indices, behind the input terminals.
    abbrev pub load_outputs : Value D → Blueprint D → List Terminal → Loaded (Blueprint D)
    load_outputs root out ins =
        load_terminals c (length out.nodes) (codes "output_terminals")
          (array_at (codes "output_terminals") root)
        >>= λ outs. loaded (record out {
          input_terminals = ins;
          output_terminals = outs;
          input_node = integer c (codes "input_node") minus_1 root;
          output_node = integer c (codes "output_node") minus_1 root;
        })

    abbrev pub load_ends : Value D → Blueprint D → Loaded (Blueprint D)
    load_ends root out =
        load_terminals c (length out.nodes) (codes "input_terminals")
          (array_at (codes "input_terminals") root)
        >>= λ ins. load_outputs root out ins

    abbrev pub load_wires : Value D → Blueprint D → Loaded (Blueprint D)
    load_wires root out = load_connections c (array_at (codes "connections") root) out >>= λ wired.
        load_modulations c (array_at (codes "modulations") root) wired

    -- Behind the tests of the top level.
    unfoldable pub load_graph : Value D → List (Value D) → Loaded (Blueprint D)
    load_graph root jnodes =
        load_nodes reg jnodes empty
        >>= (λ out. load_wires root out >>= λ wired. load_ends root wired)

    -- What stands under "nodes" has to be an array.
    abbrev pub load_member : Value D → Option (Value D) → Loaded (Blueprint D × Text)
    load_member root (some (array vs)) =
        load_graph root (items_of vs) >>= λ out. loaded (out, text (codes "name") [] root)
    load_member root _ = refused missing_nodes

    unfoldable pub load_root : Value D → Loaded (Blueprint D × Text)
    load_root root =
        let version = integer c (codes "xrune") (pos 0) root in
        if not (is_object root)
        then refused not_an_object
        else if not (int_eq version (pos serialize_format_version))
        then refused (unsupported_version version)
        else load_member root (find (codes "nodes") root)

    abbrev pub load_parsed : Result (Value D) → Loaded (Blueprint D × Text)
    load_parsed (ok root) = load_root root
    load_parsed _ = refused not_json

    -- The name goes to `name_out`.
    unfoldable pub from_json : Text → Loaded (Blueprint D × Text)
    from_json source = load_parsed (parse c source)
