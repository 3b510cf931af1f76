-- ===== src/Registry.antt =====
-- include/xrune/lang/node_registry.hpp: the arguments of a node call, and the table of node
-- factories by name. A factory is a function that may return null.
use xrune.Base.{ℕ, Bool, true, false, Option, none, some, List, [], ◌∷◌, get_elem?, if◌then◌else◌}
use xrune.Blueprint.{Node}
use xrune.Json.{Text, equal}

pub data ArgValue (D : Type 0) : Type 0 where
  number_arg : D → ArgValue D
  string_arg : Text → ArgValue D
  boolean_arg : Bool → ArgValue D

pub record NodeArgs (D : Type 0) : Type 0 where
  pub named : List (Text × ArgValue D)
  pub positional : List (ArgValue D)

pub record Entry (D : Type 0) : Type 0 where
  pub make : NodeArgs D → Option (Node D)
  pub structural : List Text

-- `entries`, an unordered_map, is the function from a name to what stands under it.
pub record NodeRegistry (D : Type 0) : Type 0 where
  pub entries : Text → Option (Entry D)

-- The field `number` of an argument of another kind is 0.0.
abbrev number_of : {D : Type 0} → D → ArgValue D → D
number_of zero (number_arg n) = n
number_of zero _ = zero

-- num(), from what stands under the name and at the position.
abbrev num_of : {D : Type 0} → D → D → Option (ArgValue D) → Option (ArgValue D) → D
num_of zero def (some v) _ = number_of zero v
num_of zero def none (some (number_arg n)) = n
num_of zero def none _ = def

module _ {D : Type 0} where
  unfoldable pub find_arg : Text → List (Text × ArgValue D) → Option (ArgValue D)
  find_arg name [] = none
  find_arg name ((k, v) ∷ rest) = if equal k name then some v else find_arg name rest

  unfoldable pub find_named : NodeArgs D → Text → Option (ArgValue D)
  unfolding find_arg
  find_named a name = find_arg name a.named

  unfoldable pub has_named : NodeArgs D → Text → Bool
  unfolding find_named
  has_named a name = elim (find_named a name) [ none ↦ false | some v ↦ true ]

  unfoldable pub num : D → NodeArgs D → Text → ℕ → D → D
  unfolding find_named
  num zero a name pos def = num_of zero def (find_named a name) (get_elem? a.positional pos)

  unfoldable pub str : NodeArgs D → Text → Text → Text
  unfolding find_named
  str a name def = elim (find_named a name) [ some (string_arg s) ↦ s | _ ↦ def ]

  unfoldable pub str_at : NodeArgs D → Text → ℕ → Text → Text
  unfolding find_named
  str_at a name pos def = elim (find_named a name) [
    | some (string_arg s) ↦ s
    | _ ↦ elim (get_elem? a.positional pos) [ some (string_arg s) ↦ s | _ ↦ def ]
  ]

  abbrev pub no_entries : NodeRegistry D
  no_entries = record { entries = λ _. none }

  unfoldable pub add_type :
      NodeRegistry D → Text → (NodeArgs D → Option (Node D)) → List Text → NodeRegistry D
  add_type r name f structural = record {
    entries = λ k.
        if equal name k then some (record { make = f; structural = structural }) else r.entries k;
  }

  unfoldable pub has_type : NodeRegistry D → Text → Bool
  has_type r name = elim (r.entries name) [ none ↦ false | some e ↦ true ]

  unfoldable pub find_type : NodeRegistry D → Text → Option (Entry D)
  find_type r name = r.entries name

  unfoldable pub make_node : NodeRegistry D → Text → NodeArgs D → Option (Node D)
  unfolding find_type
  make_node r name args = elim (find_type r name) [ none ↦ none | some e ↦ e.make args ]
