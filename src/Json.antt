-- ===== src/Json.antt =====
-- include/xrune/util/json.hpp and src/util/json.cpp: JSON values and how they are read. A text is the
-- list of its bytes. `D` is double.
pub mod Numbers
pub mod Access
pub mod Writer
pub mod Reader
pub mod Strings
pub mod Fuel
pub mod White
pub mod Plain
pub mod Rounds
pub mod RoundTrip
use Prim.Native.Char.{code}
use Prim.Native.String.{String}
use xrune.Base.{ℕ, Bool, true, false, ◌&&◌, Option, none, some, List, [], ◌∷◌, ◌==◌, if◌then◌else◌}

abbrev pub Text : Type 0
Text = List ℕ

abbrev pub null_text : Text
null_text = b'n' ∷ b'u' ∷ b'l' ∷ b'l' ∷ []

abbrev pub true_text : Text
true_text = b't' ∷ b'r' ∷ b'u' ∷ b'e' ∷ []

abbrev pub false_text : Text
false_text = b'f' ∷ b'a' ∷ b'l' ∷ b's' ∷ b'e' ∷ []

-- The bytes of a literal of the source.
abbrev pub codes : String → Text
codes String.[] = []
codes (String.◌∷◌ c s) = code c ∷ codes s

-- A value is its kind with what that kind uses of the fields.
mutual
  pub data Value (D : Type 0) : Type 0 where
    null : Value D
    boolean : Bool → Value D
    number : D → Value D
    string : Text → Value D
    array : Items D → Value D
    object : Fields D → Value D

  pub data Items (D : Type 0) : Type 0 where
    no_items : Items D
    item : Value D → Items D → Items D

  pub data Fields (D : Type 0) : Type 0 where
    no_fields : Fields D
    field : Text → Value D → Fields D → Fields D

-- std::string's ==.
unfoldable pub equal : Text → Text → Bool
equal [] [] = true
equal [] (y ∷ ys) = false
equal (x ∷ xs) [] = false
equal (x ∷ xs) (y ∷ ys) = x == y && equal xs ys

module _ {D : Type 0} where
  abbrev pub make_array : Value D
  make_array = array no_items

  abbrev pub make_object : Value D
  make_object = object no_fields

  unfoldable pub find_field : Text → Fields D → Option (Value D)
  unfolding equal
  find_field key no_fields = none
  find_field key (field k v fs) = if equal k key then some v else find_field key fs

  unfoldable pub find : Text → Value D → Option (Value D)
  unfolding find_field
  find key (object fs) = find_field key fs
  find key _ = none

  -- emplace_back
  unfoldable pub snoc_field : Fields D → Text → Value D → Fields D
  snoc_field no_fields k v = field k v no_fields
  snoc_field (field j w fs) k v = field j w (snoc_field fs k v)

  unfoldable pub snoc_item : Items D → Value D → Items D
  snoc_item no_items v = item v no_items
  snoc_item (item w xs) v = item w (snoc_item xs v)

  -- On a value of another kind, set() starts an object, and push() an array.
  unfoldable pub set_key : Text → Value D → Value D → Value D
  unfolding snoc_field
  set_key key v (object fs) = object (snoc_field fs key v)
  set_key key v _ = object (field key v no_fields)

  unfoldable pub push : Value D → Value D → Value D
  unfolding snoc_item
  push v (array xs) = array (snoc_item xs v)
  push v _ = array (item v no_items)

  unfoldable pub num : Text → D → Value D → D
  unfolding find
  num key def o = elim (find key o) [ some (number n) ↦ n | _ ↦ def ]

  unfoldable pub text : Text → Text → Value D → Text
  unfolding find
  text key def o = elim (find key o) [ some (string s) ↦ s | _ ↦ def ]
