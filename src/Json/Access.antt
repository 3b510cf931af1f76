-- ===== src/Json/Access.antt =====
-- src/util/json.cpp: find() after set().
use xrune.Base.{◌≡◌, refl, none, some, if◌then◌else◌, Bool-cases, inl, inr}
use xrune.Json.{Text, Value, Fields, object, no_fields, field, equal, find, set_key}

module _ {D : Type 0} where
  -- On an object set() adds a member behind the others: find() still returns the first member of that
  -- key if there was one, and otherwise the new value for its own key and no other.
  pub find-set_key :
      (key k : Text) (v : Value D) (fs : Fields D)
      → find key (set_key k v (object fs)) ≡ (elim (find key (object fs)) [
        | some w ↦ some w
        | none ↦ if equal k key then some v else none
      ])
  unfolding find set_key
  find-set_key key k v no_fields = refl
  find-set_key key k v (field j w fs) = elim (Bool-cases (equal j key)) [
    | inl same ↦ rw same refl
    | inr other ↦ rw other (find-set_key key k v fs)
  ]
