-- ===== src/Serialize/Members.antt =====
-- src/serialize.cpp: what the loops that push and set leave, as it is read back.
use xrune.Base.{◌≡◌, ◌∙◌, refl, ap, List, [], ◌∷◌, ◌++◌, append-nil, append_assoc, map}
use xrune.Json.{
  Text, Value, Items, Fields, array, object, no_items, item, no_fields, field, push, set_key,
  snoc_item, snoc_field, make_array, make_object, codes,
}
use xrune.Serialize.{
  Numbering, take, port_args, config_values, serialize_format_version, push_all, set_all, set_name,
  size_value, index_value, node_values, connection_value, modulation_value, terminal_value,
}
use xrune.Blueprint.{Node, Blueprint}
use xrune.Serialize.Load.{keep_arg, items_of, arg_of, args_of}
use xrune.Registry.{ArgValue}

-- The arguments that are made of the members of `args`.
abbrev pub as_args : {D : Type 0} → List (Text × Value D) → List (Text × ArgValue D)
as_args [] = []
as_args ((k, v) ∷ kvs) = keep_arg k (arg_of v) (as_args kvs)

-- The members of a node's `args`.
unfoldable pub saved_fields : {D : Type 0} → Node D → List (Text × Value D)
saved_fields n = config_values (take 8 n.config_args) ++ port_args n 0 n.params

module _ {D : Type 0} where
  -- A list as the items of an array, and as the members of an object.
  abbrev pub to_items : List (Value D) → Items D
  to_items [] = no_items
  to_items (v ∷ vs) = item v (to_items vs)

  abbrev pub to_fields : List (Text × Value D) → Fields D
  to_fields [] = no_fields
  to_fields ((k, v) ∷ kvs) = field k v (to_fields kvs)

  snoc_item-to_items :
      (vs : List (Value D)) (v : Value D) → snoc_item (to_items vs) v ≡ to_items (vs ++ v ∷ [])
  unfolding snoc_item
  snoc_item-to_items [] v = refl
  snoc_item-to_items (x ∷ vs) v = ap (item x) (snoc_item-to_items vs v)

  push_all_onto :
      (vs ws : List (Value D)) → push_all ws (array (to_items vs)) ≡ array (to_items (vs ++ ws))
  unfolding push
  push_all_onto vs [] = rw (append-nil vs) refl
  push_all_onto vs (w ∷ ws) =
      ap (λ xs. push_all ws (array xs)) (snoc_item-to_items vs w)
      ∙ push_all_onto (vs ++ w ∷ []) ws
      ∙ ap (λ xs. array (to_items xs)) (append_assoc vs (w ∷ []) ws)

  pub push_all-to_items : (vs : List (Value D)) → push_all vs make_array ≡ array (to_items vs)
  push_all-to_items vs = push_all_onto [] vs

  pub items_of-to_items : (vs : List (Value D)) → items_of (to_items vs) ≡ vs
  unfolding items_of
  items_of-to_items [] = refl
  items_of-to_items (v ∷ vs) = ap (λ ws. v ∷ ws) (items_of-to_items vs)

  snoc_field-to_fields :
      (kvs : List (Text × Value D)) (k : Text) (v : Value D)
      → snoc_field (to_fields kvs) k v ≡ to_fields (kvs ++ (k, v) ∷ [])
  unfolding snoc_field
  snoc_field-to_fields [] k v = refl
  snoc_field-to_fields ((j, x) ∷ kvs) k v = ap (field j x) (snoc_field-to_fields kvs k v)

  pub set_all-to_fields :
      (kvs ws : List (Text × Value D))
      → set_all ws (object (to_fields kvs)) ≡ object (to_fields (kvs ++ ws))
  unfolding set_key
  set_all-to_fields kvs [] = rw (append-nil kvs) refl
  set_all-to_fields kvs ((k, v) ∷ ws) =
      ap (λ fs. set_all ws (object fs)) (snoc_field-to_fields kvs k v)
      ∙ set_all-to_fields (kvs ++ (k, v) ∷ []) ws
      ∙ ap (λ xs. object (to_fields xs)) (append_assoc kvs ((k, v) ∷ []) ws)

  pub args_of-to_fields : (kvs : List (Text × Value D)) → args_of (to_fields kvs) ≡ as_args kvs
  unfolding args_of
  args_of-to_fields [] = refl
  args_of-to_fields ((k, v) ∷ kvs) = ap (keep_arg k (arg_of v)) (args_of-to_fields kvs)

-- to_json_value(), of the bytes of the name.
abbrev pub rooted : {D : Type 0} → Numbering D → Blueprint D → Text → Value D
rooted w bp cs = set_key (codes "output_node") (index_value w bp.output_node) (
    set_key (codes "input_node") (index_value w bp.input_node) (
      set_key (codes "output_terminals")
        (push_all (map (terminal_value w) bp.output_terminals) make_array)
        (set_key (codes "input_terminals")
          (push_all (map (terminal_value w) bp.input_terminals) make_array)
          (set_key (codes "modulations")
            (push_all (map (modulation_value w) bp.param_connections) make_array)
            (set_key (codes "connections")
              (push_all (map (connection_value w) bp.connections) make_array)
              (set_key (codes "nodes") (push_all (node_values w 0 bp.nodes bp.names) make_array) (
                set_name cs (
                  set_key (codes "xrune") (size_value w serialize_format_version)
                    make_object))))))))
