-- ===== src/Json/Rounds.antt =====
-- src/util/json.cpp: one round of each loop of the parser, and each kind of value at the front.
use xrune.Base.{
  ℕ, zero, suc, ◌≡◌, refl, ap, Bool, true, false, [], ◌∷◌, ◌++◌, ◌==◌, if◌then◌else◌, length, arith,
}
use xrune.Json.{
  Text, null_text, true_text, false_text, Value, Items, Fields, null, boolean, number, array,
  object, no_items, item, no_fields, field,
}
use xrune.Json.Numbers.{CNumbers, starts_number}
use xrune.Json.Reader.{
  ok, is_space, skip_ws, eof, at, expect, strip, literal, parse_string, parse_number, parse_value,
  parse_members, parse_elements,
}
use xrune.Json.White.{skip_ws_idem}

module _ {D : Type 0} (c : CNumbers D) where
  -- A text that starts with a number is not white space, and no other case of parse_value() takes
  -- it.
  pub value_number :
      (f : ℕ) (ts rest : Text) (n : D)
      → starts_number ts ≡ true
      → c.strtod ts ≡ (n, rest)
      → (length (c.strtod ts).1 == length ts) ≡ false
      → parse_value c (suc f) ts ≡ ok (number n, rest)
  unfolding parse_value skip_ws at eof parse_number
  value_number f [] rest n h e l = cc h
  value_number f (b ∷ bs) rest n h e l =
      let solid : is_space b ≡ false = ground arith in
      let brace : (b == b'{') ≡ false = ground arith in
      let bracket : (b == b'[') ≡ false = ground arith in
      let quoted : (b == b'"') ≡ false = ground arith in
      let t : (b == b't') ≡ false = ground arith in
      let f : (b == b'f') ≡ false = ground arith in
      let n : (b == b'n') ≡ false = ground arith in
      rw (solid, brace, bracket, quoted, t, f, n, h, l)
        (ap (λ (r : D × Text). ok (number r.0, r.1)) e)

  pub parse_value-cong :
      (f : ℕ) (ts us : Text) → skip_ws ts ≡ skip_ws us → parse_value c f ts ≡ parse_value c f us
  unfolding parse_value
  parse_value-cong zero ts us e = refl
  parse_value-cong (suc f) ts us e = rw e refl

  pub elements-cong :
      (f : ℕ) (ts us : Text)
      → skip_ws ts ≡ skip_ws us
      → parse_elements c f ts ≡ parse_elements c f us
  unfolding parse_elements
  elements-cong zero ts us e = refl
  elements-cong (suc f) ts us e = rw (parse_value-cong f ts us e) refl

  pub members-cong :
      (f : ℕ) (ts us : Text) → skip_ws ts ≡ skip_ws us → parse_members c f ts ≡ parse_members c f us
  unfolding parse_members
  members-cong zero ts us e = refl
  members-cong (suc f) ts us e = rw e refl

  -- One round of the loop over elements.
  pub elements_last :
      (f : ℕ) (ts t rest : Text) (x : Value D)
      → parse_value c f ts ≡ ok (x, t)
      → skip_ws t ≡ b']' ∷ rest
      → parse_elements c (suc f) ts ≡ ok (item x no_items, rest)
  unfolding parse_elements at
  elements_last f ts t rest x e s = rw (e, s) refl

  pub elements_more :
      (f : ℕ) (ts t u rest : Text) (x : Value D) (xs : Items D)
      → parse_value c f ts ≡ ok (x, t)
      → skip_ws t ≡ b',' ∷ u
      → parse_elements c f u ≡ ok (xs, rest)
      → parse_elements c (suc f) ts ≡ ok (item x xs, rest)
  unfolding parse_elements at
  elements_more f ts t u rest x xs e s r = rw (e, s, r) refl

  -- One round of the loop over members.
  pub members_last :
      (f : ℕ) (ts t t' u rest : Text) (k : Text) (x : Value D)
      → parse_string c (skip_ws ts) ≡ ok (k, t)
      → skip_ws t ≡ b':' ∷ t'
      → parse_value c f t' ≡ ok (x, u)
      → skip_ws u ≡ b'}' ∷ rest
      → parse_members c (suc f) ts ≡ ok (field k x no_fields, rest)
  unfolding parse_members at expect
  members_last f ts t t' u rest k x e s v s' = rw (e, s, v, s') refl

  pub members_more :
      (f : ℕ) (ts t t' u u' rest : Text) (k : Text) (x : Value D) (fs : Fields D)
      → parse_string c (skip_ws ts) ≡ ok (k, t)
      → skip_ws t ≡ b':' ∷ t'
      → parse_value c f t' ≡ ok (x, u)
      → skip_ws u ≡ b',' ∷ u'
      → parse_members c f u' ≡ ok (fs, rest)
      → parse_members c (suc f) ts ≡ ok (field k x fs, rest)
  unfolding parse_members at expect
  members_more f ts t t' u u' rest k x fs e s v s' r = rw (e, s, v, s', r) refl

  pub value_null :
      (f : ℕ) (rest : Text) → parse_value c (suc f) (null_text ++ rest) ≡ ok (null, rest)
  unfolding parse_value skip_ws at eof literal strip
  value_null f rest = refl

  pub value_boolean :
      (b : Bool) (f : ℕ) (rest : Text)
      → parse_value c (suc f) ((if b then true_text else false_text) ++ rest) ≡ ok (boolean b, rest)
  unfolding parse_value skip_ws at eof literal strip
  value_boolean true f rest = refl
  value_boolean false f rest = refl

  pub value_brackets :
      (f : ℕ) (rest : Text)
      → parse_value c (suc (suc f)) (b'[' ∷ b']' ∷ rest) ≡ ok (array no_items, rest)
  unfolding parse_value skip_ws at eof
  value_brackets f rest = refl

  pub value_braces :
      (f : ℕ) (rest : Text)
      → parse_value c (suc (suc f)) (b'{' ∷ b'}' ∷ rest) ≡ ok (object no_fields, rest)
  unfolding parse_value skip_ws at eof
  value_braces f rest = refl

  -- An array or object whose first item or member does not look like its end.
  pub value_array :
      (f : ℕ) (ts rest : Text) (xs : Items D)
      → at b']' (skip_ws ts) ≡ false
      → parse_elements c f ts ≡ ok (xs, rest)
      → parse_value c (suc (suc f)) (b'[' ∷ ts) ≡ ok (array xs, rest)
  unfolding parse_value skip_ws eof
  value_array f ts rest xs a e =
      let same = elements-cong f (skip_ws ts) ts (skip_ws_idem ts) in rw (a, same, e) refl

  pub value_object :
      (f : ℕ) (ts rest : Text) (fs : Fields D)
      → at b'}' (skip_ws ts) ≡ false
      → parse_members c f ts ≡ ok (fs, rest)
      → parse_value c (suc (suc f)) (b'{' ∷ ts) ≡ ok (object fs, rest)
  unfolding parse_value skip_ws eof
  value_object f ts rest fs a e =
      let same = members-cong f (skip_ws ts) ts (skip_ws_idem ts) in rw (a, same, e) refl
