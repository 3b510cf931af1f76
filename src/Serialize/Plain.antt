-- ===== src/Serialize/Plain.antt =====
-- src/serialize.cpp: the values that to_json_value() writes are of bytes and finite numbers.
use Prim.Native.String.{String}
use xrune.Base.{ℕ, ℤ, suc, sym, inl, inr, Bool, Bool-cases, List, [], ◌∷◌, map, All, arith, subst}
use xrune.Blueprint.{Node, Connection, ParamConnection, TerminalSource, Terminal, Blueprint}
use xrune.Json.{Text, codes, Value, object, set_key, make_array}
use xrune.Json.Numbers.{CNumbers}
use xrune.Registry.{NodeRegistry}
use xrune.Serialize.{
  Numbering, push_all, set_name, size_value, index_value, node_values, connection_value,
  modulation_value, channel_value, terminal_value, to_json_value,
}
use xrune.Serialize.Saved.{SizeLaws, SavedTerminal, SavedNode, IsSaved}
use xrune.Serialize.Members.{saved_fields, to_items, to_fields, push_all-to_items}
use xrune.Json.Strings.{IsBytes}
use xrune.Json.Plain.{IsPlain, ArePlain, FieldsArePlain}
use xrune.Serialize.Args.{PlainMember, saved_fields-Plain}
use xrune.Serialize.Nodes.{head, finish, node_value-finish, named_values, node_values-named}
use xrune.Serialize.Members.{rooted}

module _ {D : Type 0} (c : CNumbers D) (nz : D → Bool) (w : Numbering D)
    (laws : SizeLaws c nz w) where
  abbrev Plain : Value D → Type 0
  Plain = IsPlain c nz

  size-Plain : (n : ℕ) → Plain (size_value w n)
  unfolding size_value IsPlain
  size-Plain n = (laws.size_finite n, laws.size_no_zero n)

  index-Plain : (i : ℤ) → Plain (index_value w i)
  unfolding index_value IsPlain
  index-Plain i = (laws.long_finite i, laws.long_no_zero i)

  connection-Plain : (l : Connection) → Plain (connection_value w l)
  unfolding connection_value set_key IsPlain
  connection-Plain l = ground (
    arith,
    size-Plain l.src_node,
    size-Plain l.src_output,
    size-Plain l.dst_node,
    size-Plain l.dst_input,
  )

  modulation-Plain : (l : ParamConnection) → Plain (modulation_value w l)
  unfolding modulation_value set_key IsPlain
  modulation-Plain l = ground (
    arith,
    size-Plain l.src_node,
    size-Plain l.src_output,
    size-Plain l.dst_node,
    size-Plain l.dst_param,
  )

  channel-Plain : (ch : TerminalSource) → Plain (channel_value w ch)
  unfolding channel_value set_key IsPlain
  channel-Plain ch = elim (Bool-cases ch.silent) [
    | inl silent ↦ rw silent (ground arith)
    | inr heard ↦ rw heard (ground (arith, size-Plain ch.node, size-Plain ch.ch))
  ]

  All-Plain :
      {A : Type 0} (f : A → Value D) (xs : List A) → ((x : A) → Plain (f x)) → All Plain (map f xs)
  All-Plain f [] h = tt
  All-Plain f (x ∷ xs) h = (h x, All-Plain f xs h)

  items-Plain : (vs : List (Value D)) → All Plain vs → ArePlain c nz (to_items vs)
  unfolding IsPlain
  items-Plain [] h = tt
  items-Plain (v ∷ vs) h = (h.0, items-Plain vs h.1)

  array-Plain : (vs : List (Value D)) → All Plain vs → Plain (push_all vs make_array)
  array-Plain vs h = rw (push_all-to_items vs) (unfold IsPlain in items-Plain vs h)

  terminal_of-Plain :
      (name : String) (n : ℕ) (chs : List TerminalSource)
      → IsBytes (codes name)
      → Plain (terminal_value w (record { name = name; node = n; channels = chs }))
  unfolding terminal_value set_key IsPlain
  terminal_of-Plain name n [] b = ground (arith, size-Plain n)
  terminal_of-Plain name n (ch ∷ chs) b =
      let heard =
        array-Plain (map (channel_value w) (ch ∷ chs))
          (All-Plain (channel_value w) (ch ∷ chs) channel-Plain) in
      ground (arith, size-Plain n, heard)

  terminals-Plain :
      (count : ℕ) (ts : List Terminal)
      → All (SavedTerminal count) ts
      → All Plain (map (terminal_value w) ts)
  terminals-Plain count [] h = tt
  terminals-Plain count (t ∷ ts) h =
      (terminal_of-Plain t.name t.node t.channels h.0.0, terminals-Plain count ts h.1)

  fields-Plain :
      (kvs : List (Text × Value D))
      → All (PlainMember c nz) kvs
      → FieldsArePlain c nz (to_fields kvs)
  unfolding IsPlain
  fields-Plain [] h = tt
  fields-Plain ((k, v) ∷ kvs) h = (h.0.0, h.0.1, fields-Plain kvs h.1)

  finish-Plain :
      (i : ℕ) (type cs : Text) (kvs : List (Text × Value D))
      → IsBytes type
      → IsBytes cs
      → All (PlainMember c nz) kvs
      → Plain (finish (object (to_fields kvs)) (set_name cs (head w i type)))
  unfolding set_key IsPlain
  finish-Plain i type [] [] t n m = ground (arith, size-Plain i)
  finish-Plain i type [] (kv ∷ kvs) t n m = ground (arith, size-Plain i, fields-Plain (kv ∷ kvs) m)
  finish-Plain i type (x ∷ xs) [] t n m = ground (arith, size-Plain i)
  finish-Plain i type (x ∷ xs) (kv ∷ kvs) t n m =
      ground (arith, size-Plain i, fields-Plain (kv ∷ kvs) m)

  named-Plain :
      (reg : NodeRegistry D) (i : ℕ) (ns : List (Node D)) (ss : List String)
      → All (SavedNode c nz reg) ns
      → All (λ s. IsBytes (codes s)) ss
      → All Plain (named_values w i ns ss)
  unfolding named_values
  named-Plain reg i [] ss h b = tt
  named-Plain reg i (n ∷ ns) [] h b = tt
  named-Plain reg i (n ∷ ns) (s ∷ ss) h b = (
    subst Plain (sym (node_value-finish w i n s)) (
        finish-Plain i (codes n.type_name) (codes s) (saved_fields n) h.0.type_bytes b.0
          (saved_fields-Plain c nz reg n h.0)),
    named-Plain reg (suc i) ns ss h.1 b.1,
  )

  module _ (reg : NodeRegistry D) (bp : Blueprint D) (name : String)
      (saved : IsSaved c nz reg bp name) where
    nodes-Plain : Plain (push_all (node_values w 0 bp.nodes bp.names) make_array)
    nodes-Plain = array-Plain _ (
        subst (All Plain) (sym (node_values-named w bp.nodes [] bp.names saved.well_formed.named))
          (named-Plain reg 0 bp.nodes bp.names saved.nodes_saved saved.names_bytes))

    conns-Plain : Plain (push_all (map (connection_value w) bp.connections) make_array)
    conns-Plain = array-Plain _ (All-Plain _ bp.connections connection-Plain)

    mods-Plain : Plain (push_all (map (modulation_value w) bp.param_connections) make_array)
    mods-Plain = array-Plain _ (All-Plain _ bp.param_connections modulation-Plain)

    ins-Plain : Plain (push_all (map (terminal_value w) bp.input_terminals) make_array)
    ins-Plain = array-Plain _ (terminals-Plain _ bp.input_terminals saved.inputs_saved)

    outs-Plain : Plain (push_all (map (terminal_value w) bp.output_terminals) make_array)
    outs-Plain = array-Plain _ (terminals-Plain _ bp.output_terminals saved.outputs_saved)

    root-Plain : (cs : Text) → IsBytes cs → Plain (rooted w bp cs)
    unfolding set_key IsPlain
    root-Plain [] b = ground (
      arith,
      size-Plain 1,
      nodes-Plain,
      conns-Plain,
      mods-Plain,
      ins-Plain,
      outs-Plain,
      index-Plain bp.input_node,
      index-Plain bp.output_node,
    )
    root-Plain (x ∷ xs) b = ground (
      arith,
      size-Plain 1,
      nodes-Plain,
      conns-Plain,
      mods-Plain,
      ins-Plain,
      outs-Plain,
      index-Plain bp.input_node,
      index-Plain bp.output_node,
    )

    pub to_json_value-Plain : Plain (to_json_value w bp name)
    unfolding to_json_value
    to_json_value-Plain = root-Plain (codes name) saved.name_bytes
