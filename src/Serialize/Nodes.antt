-- ===== src/Serialize/Nodes.antt =====
-- src/serialize.cpp: from_json() makes the nodes again that to_json_value() wrote.
use Prim.Native.String.{String}
use xrune.Base.{
  ℕ, suc, ◌≡◌, ◌≢◌, ◌∙◌, refl, sym, ap, Bool, true, Option, some, List, [], ◌∷◌, ◌++◌, length, All,
  arith, append_assoc, append-nil, get_elem?_middle, length-append, if◌then◌else◌,
}
use mathlib.Core.Path.{ap₂}
use xrune.Blueprint.{Node, Blueprint, empty}
use xrune.Json.{Text, codes, Value, string, object, find, equal, set_key, text, make_object}
use xrune.Json.Numbers.{CNumbers}
use xrune.Registry.{NodeArgs, NodeRegistry, has_type, find_type, make_node}
use xrune.Serialize.{
  Numbering, take, set_all, set_name, is_empty_object, size_value, port_args, config_values,
  args_value, node_value, node_values,
}
use xrune.Serialize.Codes.{decode, decode-codes}
use xrune.Serialize.Load.{Loaded, loaded, keep_arg, arg_of, args_of, load_node, load_nodes}
use xrune.Serialize.Saved.{SavedNode}
use xrune.Serialize.Args.{saved_fields-rebuilt}
use xrune.Serialize.Members.{saved_fields, as_args, to_fields, set_all-to_fields, args_of-to_fields}

module _ {D : Type 0} where
  has_type_made :
      (reg : NodeRegistry D) (type : Text) (args : NodeArgs D) {n : Node D}
      → make_node reg type args ≡ some n
      → has_type reg type ≡ true
  unfolding make_node has_type find_type
  has_type_made reg type args e = ground arith

  -- The value of a node before its name and its arguments.
  abbrev pub head : Numbering D → ℕ → Text → Value D
  head w i type =
      set_key (codes "type") (string type) (set_key (codes "id") (size_value w i) make_object)

  abbrev pub finish : Value D → Value D → Value D
  finish args named = if is_empty_object args then named else set_key (codes "args") args named

  args_value-fields : (n : Node D) → args_value n ≡ object (to_fields (saved_fields n))
  unfolding args_value saved_fields
  args_value-fields n =
      let configs = config_values (take 8 n.config_args) in
      ap (set_all (port_args n 0 n.params)) (set_all-to_fields [] configs)
      ∙ set_all-to_fields configs (port_args n 0 n.params)

  pub node_value-finish :
      (w : Numbering D) (i : ℕ) (n : Node D) (s : String)
      → node_value w i n (some s)
        ≡ finish
            (object (to_fields (saved_fields n)))
            (set_name (codes s) (head w i (codes n.type_name)))
  unfolding node_value
  node_value-finish w i n s =
      ap (λ a. finish a (set_name (codes s) (head w i (codes n.type_name)))) (args_value-fields n)

  load_node-finish :
      (w : Numbering D) (reg : NodeRegistry D) (i : ℕ) (n : Node D) (type cs : Text)
      (kvs : List (Text × Value D))
      → type ≢ []
      → make_node reg type (record { named = as_args kvs; positional = [] }) ≡ some n
      → load_node reg (finish (object (to_fields kvs)) (set_name cs (head w i type))) ≡ loaded n
  unfolding load_node find set_key size_value equal text
  load_node-finish w reg i n [] cs kvs solid made = absurd (solid refl)
  load_node-finish w reg i n (t ∷ ts) [] [] solid made =
      rw (has_type_made reg (t ∷ ts) _ made, made) refl
  load_node-finish w reg i n (t ∷ ts) [] ((k, v) ∷ kvs) solid made =
      let again : make_node reg (t ∷ ts)
            (record { named = keep_arg k (arg_of v) (args_of (to_fields kvs)); positional = [] })
          ≡ some n =
        rw (args_of-to_fields kvs) made in
      rw (has_type_made reg (t ∷ ts) _ again, again) refl
  load_node-finish w reg i n (t ∷ ts) (x ∷ xs) [] solid made =
      rw (has_type_made reg (t ∷ ts) _ made, made) refl
  load_node-finish w reg i n (t ∷ ts) (x ∷ xs) ((k, v) ∷ kvs) solid made =
      let again : make_node reg (t ∷ ts)
            (record { named = keep_arg k (arg_of v) (args_of (to_fields kvs)); positional = [] })
          ≡ some n =
        rw (args_of-to_fields kvs) made in
      rw (has_type_made reg (t ∷ ts) _ again, again) refl

  name_of-finish :
      (w : Numbering D) (i : ℕ) (type cs : Text) (kvs : List (Text × Value D))
      → text (codes "name") [] (finish (object (to_fields kvs)) (set_name cs (head w i type))) ≡ cs
  unfolding find set_key size_value equal text
  name_of-finish w i type [] [] = refl
  name_of-finish w i type [] (kv ∷ kvs) = refl
  name_of-finish w i type (x ∷ xs) [] = refl
  name_of-finish w i type (x ∷ xs) (kv ∷ kvs) = refl

  load_node-value :
      (c : CNumbers D) (nz : D → Bool) (w : Numbering D) (reg : NodeRegistry D) (i : ℕ) (n : Node D)
      (s : String)
      → SavedNode c nz reg n
      → load_node reg (node_value w i n (some s)) ≡ loaded n
  load_node-value c nz w reg i n s saved = rw (node_value-finish w i n s) (
      load_node-finish w reg i n (codes n.type_name) (codes s) (saved_fields n) saved.typed
        (saved_fields-rebuilt c nz reg n saved))

  name-value :
      (w : Numbering D) (i : ℕ) (n : Node D) (s : String)
      → decode (text (codes "name") [] (node_value w i n (some s))) ≡ s
  name-value w i n s =
      rw
        (
          node_value-finish w i n s,
          name_of-finish w i (codes n.type_name) (codes s) (saved_fields n),
        )
        (decode-codes s)

  -- The values of nodes whose names stand in a list of the same length.
  unfoldable pub named_values : Numbering D → ℕ → List (Node D) → List String → List (Value D)
  named_values w i [] names = []
  named_values w i (n ∷ ns) [] = []
  named_values w i (n ∷ ns) (s ∷ ss) = node_value w i n (some s) ∷ named_values w (suc i) ns ss

  pub node_values-named :
      (w : Numbering D) (ns : List (Node D)) (before ss : List String)
      → length ss ≡ length ns
      → node_values w (length before) ns (before ++ ss) ≡ named_values w (length before) ns ss
  unfolding node_values named_values
  node_values-named w [] before ss e = refl
  node_values-named w (n ∷ ns) before [] e = absurd (omega arith)
  node_values-named w (n ∷ ns) before (s ∷ ss) e =
      let shift = append_assoc before (s ∷ []) ss in
      let next : length (before ++ s ∷ []) ≡ suc (length before) =
        omega (arith, length-append before (s ∷ [])) in
      let rest = rw (shift, next) at (node_values-named w ns (before ++ s ∷ []) ss (omega arith)) in
      ap₂ (λ (o : Option String) vs. node_value w (length before) n o ∷ vs)
        (get_elem?_middle before ss s) rest

  abbrev built : Blueprint D → List (Node D) → List String → Loaded (Blueprint D)
  built out ns ss = loaded (record out { nodes = ns; names = ss })

  load_nodes-named :
      (c : CNumbers D) (nz : D → Bool) (w : Numbering D) (reg : NodeRegistry D) (i : ℕ)
      (ns : List (Node D)) (ss : List String) (out : Blueprint D)
      → length ss ≡ length ns
      → All (SavedNode c nz reg) ns
      → load_nodes reg (named_values w i ns ss) out
        ≡ loaded (record out { nodes = out.nodes ++ ns; names = out.names ++ ss })
  unfolding load_nodes named_values
  load_nodes-named c nz w reg i [] [] out e saved =
      ap₂ (built out) (sym (append-nil out.nodes)) (sym (append-nil out.names))
  load_nodes-named c nz w reg i [] (s ∷ ss) out e saved = absurd (omega arith)
  load_nodes-named c nz w reg i (n ∷ ns) [] out e saved = absurd (omega arith)
  load_nodes-named c nz w reg i (n ∷ ns) (s ∷ ss) out e saved =
      rw (load_node-value c nz w reg i n s saved.0, name-value w i n s)
        (load_nodes-named c nz w reg (suc i) ns ss
            (record out { nodes = out.nodes ++ n ∷ []; names = out.names ++ s ∷ [] }) (omega arith)
            saved.1
          ∙ ap₂ (built out) (append_assoc out.nodes (n ∷ []) ns)
              (append_assoc out.names (s ∷ []) ss))

  pub load_nodes-values :
      (c : CNumbers D) (nz : D → Bool) (w : Numbering D) (reg : NodeRegistry D) (ns : List (Node D))
      (ss : List String)
      → length ss ≡ length ns
      → All (SavedNode c nz reg) ns
      → load_nodes reg (node_values w 0 ns ss) empty ≡ built empty ns ss
  unfolding empty
  load_nodes-values c nz w reg ns ss e saved =
      ap (λ vs. load_nodes reg vs empty) (node_values-named w ns [] ss e)
      ∙ load_nodes-named c nz w reg 0 ns ss empty e saved
