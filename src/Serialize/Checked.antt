-- ===== src/Serialize/Checked.antt =====
-- src/serialize.cpp: what from_json() has checked of every blueprint that it gives.
use xrune.Base.{◌≡◌, refl, Option, some, List, length, All, arith, subst}
use xrune.Blueprint.{Terminal, Blueprint, empty}
use xrune.Blueprint.Wiring.{IsWellFormed}
use xrune.Json.{Text, codes, Value, array, find}
use xrune.Json.Numbers.{CNumbers, integer}
use xrune.Json.Reader.{Result, ok, parse}
use xrune.Registry.{NodeRegistry}
use xrune.Serialize.Load.{
  loaded, ◌>>=◌, minus_1, items_of, array_at, load_nodes, load_connections, load_modulations,
  load_terminals, load_outputs, load_ends, load_wires, load_graph, load_member, load_root,
  load_parsed, from_json,
}
use xrune.Serialize.Guards.{
  Given, Given-bind, TerminalIn, IsBare, load_nodes-IsBare, IsBare-IsWellFormed,
  load_connections-IsWellFormed, load_modulations-IsWellFormed, load_terminals-TerminalIn,
}

pub record IsChecked {D : Type 0} (bp : Blueprint D) : Type 0 where
  pub well_formed : IsWellFormed bp
  pub inputs_in : All (TerminalIn (length bp.nodes)) bp.input_terminals
  pub outputs_in : All (TerminalIn (length bp.nodes)) bp.output_terminals

module _ {D : Type 0} where
  module _ (c : CNumbers D) where
    load_outputs-IsChecked :
        (reg : NodeRegistry D) (root : Value D) (out : Blueprint D) (ins : List Terminal)
        → IsWellFormed out
        → All (TerminalIn (length out.nodes)) ins
        → Given IsChecked (load_outputs c reg root out ins)
    load_outputs-IsChecked reg root out ins h i =
        Given-bind (All (TerminalIn (length out.nodes))) IsChecked
          (load_terminals c (length out.nodes) (codes "output_terminals")
            (array_at (codes "output_terminals") root))
          (λ outs. loaded (record out {
            input_terminals = ins;
            output_terminals = outs;
            input_node = integer c (codes "input_node") minus_1 root;
            output_node = integer c (codes "output_node") minus_1 root;
          }))
          (load_terminals-TerminalIn c (length out.nodes) (codes "output_terminals")
            (array_at (codes "output_terminals") root))
          (λ outs o. record {
            well_formed = record {
              named = h.named;
              in_range = h.in_range;
              params_in_range = h.params_in_range;
              single = h.single;
              single_param = h.single_param;
            };
            inputs_in = i;
            outputs_in = o;
          })

    load_ends-IsChecked :
        (reg : NodeRegistry D) (root : Value D) (out : Blueprint D)
        → IsWellFormed out
        → Given IsChecked (load_ends c reg root out)
    load_ends-IsChecked reg root out h =
        Given-bind (All (TerminalIn (length out.nodes))) IsChecked
          (load_terminals c (length out.nodes) (codes "input_terminals")
            (array_at (codes "input_terminals") root))
          (load_outputs c reg root out)
          (load_terminals-TerminalIn c (length out.nodes) (codes "input_terminals")
            (array_at (codes "input_terminals") root))
          (λ ins i. load_outputs-IsChecked reg root out ins h i)

    load_wires-IsWellFormed :
        (reg : NodeRegistry D) (root : Value D) (out : Blueprint D)
        → IsWellFormed out
        → Given IsWellFormed (load_wires c reg root out)
    load_wires-IsWellFormed reg root out h =
        Given-bind IsWellFormed IsWellFormed
          (load_connections c (array_at (codes "connections") root) out)
          (λ wired. load_modulations c (array_at (codes "modulations") root) wired)
          (load_connections-IsWellFormed c (array_at (codes "connections") root) out h)
          (λ wired g. load_modulations-IsWellFormed c (array_at (codes "modulations") root) wired g)

    module _ (reg : NodeRegistry D) where
      load_graph-IsChecked :
          (root : Value D) (jnodes : List (Value D))
          → Given IsChecked (load_graph c reg root jnodes)
      unfolding load_graph empty
      load_graph-IsChecked root jnodes =
          Given-bind IsBare IsChecked (load_nodes reg jnodes empty)
            (λ out. load_wires c reg root out >>= λ wired. load_ends c reg root wired)
            (load_nodes-IsBare reg jnodes empty start)
            (λ out h.
              Given-bind IsWellFormed IsChecked (load_wires c reg root out)
                (λ wired. load_ends c reg root wired)
                (load_wires-IsWellFormed reg root out (IsBare-IsWellFormed out h))
                (λ wired g. load_ends-IsChecked reg root wired g))
        where
          start : IsBare {D = D} empty
          start = record { named = refl; no_connections = refl; no_modulations = refl }

      abbrev Checks : Blueprint D × Text → Type 0
      Checks r = IsChecked r.0

      load_member-Checks :
          (root : Value D) (o : Option (Value D)) → Given Checks (load_member c reg root o)
      load_member-Checks root (some (array vs)) =
          Given-bind IsChecked Checks (load_graph c reg root (items_of vs)) _
            (load_graph-IsChecked root (items_of vs)) (λ out h. h)
      load_member-Checks root _ = tt

      load_root-Checks : (root : Value D) → Given Checks (load_root c reg root)
      unfolding load_root
      load_root-Checks root = ground (arith, load_member-Checks root (find (codes "nodes") root))

      load_parsed-Checks : (r : Result (Value D)) → Given Checks (load_parsed c reg r)
      load_parsed-Checks (ok root) = load_root-Checks root
      load_parsed-Checks _ = tt

-- Every blueprint that from_json() gives, of any text and with any registry, is well formed, and
-- its terminals and their channels that are not silent name nodes that are there.
pub from_json-IsChecked :
    {D : Type 0} (c : CNumbers D) (reg : NodeRegistry D) (source name : Text) (bp : Blueprint D)
    → from_json c reg source ≡ loaded (bp, name)
    → IsChecked bp
unfolding from_json
from_json-IsChecked c reg source name bp e =
    subst (Given (λ r. IsChecked r.0)) e (load_parsed-Checks c reg (parse c source))
