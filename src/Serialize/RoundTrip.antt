-- ===== src/Serialize/RoundTrip.antt =====
-- src/serialize.cpp: from_json() on what to_json() writes.
use Prim.Native.String.{String}
use xrune.Base.{ℕ, ◌≡◌, ◌∙◌, refl, sym, ap, ℤ, Bool, some, [], ◌∷◌, map, length, arith}
use xrune.Blueprint.{Blueprint, empty, size}
use xrune.Json.{Text, codes, Value, number, find, equal, set_key, text, make_array}
use xrune.Json.Numbers.{CNumbers, NumberLaws, integer}
use xrune.Registry.{NodeRegistry}
use xrune.Serialize.{
  Numbering, push_all, size_value, index_value, node_values, connection_value, modulation_value,
  terminal_value, to_json_value, to_json,
}
use xrune.Serialize.Load.{
  Loaded, loaded, ◌>>=◌, array_at, minus_1, load_graph, load_member, load_root, load_parsed,
  from_json,
}
use xrune.Serialize.Saved.{SizeLaws, SmallIndex, IsSaved}
use xrune.Serialize.Members.{push_all-to_items, items_of-to_items, rooted}
use xrune.Json.RoundTrip.{parse-dump}
use xrune.Serialize.Plain.{to_json_value-Plain}
use xrune.Serialize.Back.{array_at-find, load_terminals-values}
use xrune.Serialize.Wires.{load_connections-values, load_modulations-values}
use xrune.Serialize.Nodes.{load_nodes-values}

module _ {D : Type 0} (c : CNumbers D) (nz : D → Bool) (w : Numbering D)
    (laws : SizeLaws c nz w) where
  module _ (reg : NodeRegistry D) (bp : Blueprint D) (name : String)
      (saved : IsSaved c nz reg bp name) where
    abbrev nodes_read : Blueprint D
    nodes_read = record empty { nodes = bp.nodes; names = bp.names }

    abbrev wired : Blueprint D
    wired = record nodes_read { connections = bp.connections }

    abbrev modulated : Blueprint D
    modulated = record wired { param_connections = bp.param_connections }

    -- The members of the top level that from_json() reads.
    record Holds (root : Value D) : Type 0 where
      conns : array_at (codes "connections") root ≡ map (connection_value w) bp.connections
      mods : array_at (codes "modulations") root ≡ map (modulation_value w) bp.param_connections
      ins : array_at (codes "input_terminals") root ≡ map (terminal_value w) bp.input_terminals
      outs : array_at (codes "output_terminals") root ≡ map (terminal_value w) bp.output_terminals
      input : integer c (codes "input_node") minus_1 root ≡ bp.input_node
      output : integer c (codes "output_node") minus_1 root ≡ bp.output_node

    load_graph-Holds :
        (root : Value D)
        → Holds root
        → load_graph c reg root (node_values w 0 bp.nodes bp.names) ≡ loaded bp
    unfolding load_graph empty size
    load_graph-Holds root h =
        rw
          (
            load_nodes-values c nz w reg bp.nodes bp.names saved.well_formed.named
                saved.nodes_saved,
            h.conns,
            load_connections-values c nz w laws bp.connections nodes_read saved.connections_small
                saved.well_formed.in_range saved.well_formed.single,
            h.mods,
            load_modulations-values c nz w laws bp.param_connections wired saved.modulations_small
                saved.well_formed.params_in_range saved.well_formed.single_param,
            h.ins,
            load_terminals-values c nz w laws (length bp.nodes) (codes "input_terminals")
                bp.input_terminals saved.inputs_saved,
            h.outs,
            load_terminals-values c nz w laws (length bp.nodes) (codes "output_terminals")
                bp.output_terminals saved.outputs_saved,
            h.input,
            h.output,
          )
          (ap (λ ps. loaded (record bp { params = ps })) (sym saved.no_params))

    integer-find :
        (key : Text) (n : D) (root : Value D)
        → find key root ≡ some (number n)
        → integer c key minus_1 root ≡ c.llround n
    unfolding integer
    integer-find key n root e =
        ap (λ f. elim f as (λ _. ℤ) [ some (number d) ↦ c.llround d | _ ↦ minus_1 ]) e

    index_read :
        (key : Text) (i : ℤ) (root : Value D)
        → find key root ≡ some (index_value w i)
        → SmallIndex i
        → integer c key minus_1 root ≡ i
    unfolding index_value
    index_read key i root e h = integer-find key (w.of_long i) root e ∙ laws.long_exact i h

    rooted-Holds : (cs : Text) → Holds (rooted w bp cs)
    unfolding find set_key equal
    rooted-Holds [] = record {
      conns = array_at-find c nz w laws (codes "connections") (rooted w bp []) _ refl;
      mods = array_at-find c nz w laws (codes "modulations") (rooted w bp []) _ refl;
      ins = array_at-find c nz w laws (codes "input_terminals") (rooted w bp []) _ refl;
      outs = array_at-find c nz w laws (codes "output_terminals") (rooted w bp []) _ refl;
      input = index_read (codes "input_node") bp.input_node (rooted w bp []) refl saved.input_small;
      output =
          index_read (codes "output_node") bp.output_node (rooted w bp []) refl saved.output_small;
    }
    rooted-Holds (x ∷ xs) = record {
      conns = array_at-find c nz w laws (codes "connections") (rooted w bp (x ∷ xs)) _ refl;
      mods = array_at-find c nz w laws (codes "modulations") (rooted w bp (x ∷ xs)) _ refl;
      ins = array_at-find c nz w laws (codes "input_terminals") (rooted w bp (x ∷ xs)) _ refl;
      outs = array_at-find c nz w laws (codes "output_terminals") (rooted w bp (x ∷ xs)) _ refl;
      input =
          index_read (codes "input_node") bp.input_node (rooted w bp (x ∷ xs)) refl
            saved.input_small;
      output =
          index_read (codes "output_node") bp.output_node (rooted w bp (x ∷ xs)) refl
            saved.output_small;
    }

    load_member-Holds :
        (root : Value D)
        → Holds root
        → find (codes "nodes") root ≡ some (push_all (node_values w 0 bp.nodes bp.names) make_array)
        → load_member c reg root (find (codes "nodes") root)
          ≡ loaded (bp, text (codes "name") [] root)
    load_member-Holds root h e =
        let vs = node_values w 0 bp.nodes bp.names in
        let give : Blueprint D → Loaded (Blueprint D × Text) =
          λ out. loaded (out, text (codes "name") [] root) in
        ap (load_member c reg root) (e ∙ ap some (push_all-to_items vs))
        ∙ ap (λ ws. load_graph c reg root ws >>= give) (items_of-to_items vs)
        ∙ ap (λ r. r >>= give) (load_graph-Holds root h)

    load_root-rooted : (cs : Text) → load_root c reg (rooted w bp cs) ≡ loaded (bp, cs)
    unfolding load_root find set_key equal text integer size_value
    load_root-rooted [] =
        rw (laws.size_exact 1 (omega arith))
          (load_member-Holds (rooted w bp []) (rooted-Holds []) refl)
    load_root-rooted (x ∷ xs) =
        rw (laws.size_exact 1 (omega arith))
          (load_member-Holds (rooted w bp (x ∷ xs)) (rooted-Holds (x ∷ xs)) refl)

    load_root-value : load_root c reg (to_json_value w bp name) ≡ loaded (bp, codes name)
    unfolding to_json_value
    load_root-value = load_root-rooted (codes name)

-- from_json() on the text that to_json() writes of a blueprint and its name, at any indentation,
-- gives the same blueprint and name. The conditions: the blueprint is well formed and has no
-- parameters; each node has a type name that is not empty, at most 8 config_args(), and names of
-- these and of its ports that are apart, and the registry's factory makes it from any arguments that
-- give each of these values under its name and no other; terminals name nodes that are there, so do
-- the channels that are not silent, and those that are silent have node and channel 0; indices are
-- below 2 ^ 53, or -1 for the input and the output node; names are of bytes; the values of the
-- arguments are finite and none is -0; and the C library reads back what it prints.
pub from_json-to_json :
    {D : Type 0} (c : CNumbers D) (nz : D → Bool) (w : Numbering D)
    → NumberLaws c nz
    → SizeLaws c nz w
    → (reg : NodeRegistry D) (bp : Blueprint D) (name : String) (indent : ℕ)
    → IsSaved c nz reg bp name
    → from_json c reg (to_json w c bp name indent) ≡ loaded (bp, codes name)
unfolding from_json to_json
from_json-to_json c nz w numbers sizes reg bp name indent saved =
    ap (load_parsed c reg) (
      parse-dump c nz numbers (to_json_value w bp name) indent
        (to_json_value-Plain c nz w sizes reg bp name saved))
    ∙ load_root-value c nz w sizes reg bp name saved
