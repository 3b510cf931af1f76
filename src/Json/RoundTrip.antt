-- ===== src/Json/RoundTrip.antt =====
-- src/util/json.cpp: parse() on what dump() writes.
use xrune.Base.{
  ℕ, zero, suc, ◌+◌, ◌*◌, ◌<◌, ◌≤◌, ◌≡◌, ◌∙◌, refl, ap, Bool, true, false, [], ◌∷◌, ◌++◌, length,
  arith, append_assoc, append-nil, length-append,
}
use xrune.Json.{
  Text, Value, Items, Fields, null, boolean, number, string, array, object, no_items, item,
  no_fields, field,
}
use xrune.Json.Numbers.{CNumbers, NumberLaws, is_delimited}
use xrune.Json.Writer.{
  spaces, newline, colon, escape, number_to, dump_to, dump_items, dump_fields, dump,
}
use xrune.Json.Reader.{
  ok, trailing, skip_ws, eof, at, parse_string, parse_value, parse_members, parse_elements, parse,
}
use xrune.Json.White.{
  skip_ws-spaces, skip_ws-newline, skip_ws_solid, skip_lead, delimited_end, skip_end, skip_colon,
  length_text, skip_quote,
}
use xrune.Json.Plain.{
  IsPlain, ArePlain, FieldsArePlain, starts_append, number_starts, number_reads, number_left,
  dump_to-Opens, solid_after, not_closed,
}
use xrune.Json.Rounds.{
  value_number, parse_value-cong, elements-cong, members-cong, elements_last, elements_more,
  members_last, members_more, value_null, value_boolean, value_brackets, value_braces, value_array,
  value_object,
}
use xrune.Json.Strings.{IsBytes, parse_string-escape}

module _ {D : Type 0} (c : CNumbers D) (nz : D → Bool) (laws : NumberLaws c nz) where
  value_string :
      (s : Text) (f : ℕ) (rest : Text)
      → IsBytes s
      → parse_value c (suc f) (escape c s ++ rest) ≡ ok (string s, rest)
  unfolding parse_value skip_ws at eof escape
  value_string s f rest h = rw (parse_string-escape c laws s rest h) refl

  -- What stands behind the first item, or the first member's value.
  abbrev items_tail : ℕ → ℕ → Items D → Text → Text
  items_tail indent depth no_items rest =
      newline indent ++ (spaces (indent * depth) ++ (b']' ∷ rest))
  items_tail indent depth (item y ys) rest =
      b',' ∷ (newline indent ++ (dump_items c indent depth (item y ys) ++ rest))

  abbrev fields_tail : ℕ → ℕ → Fields D → Text → Text
  fields_tail indent depth no_fields rest =
      newline indent ++ (spaces (indent * depth) ++ (b'}' ∷ rest))
  fields_tail indent depth (field j y fs) rest =
      b',' ∷ (newline indent ++ (dump_fields c indent depth (field j y fs) ++ rest))

  items_text :
      (x : Value D) (xs : Items D) (indent depth : ℕ) (rest : Text)
      → dump_items c indent depth (item x xs) ++ rest
        ≡ spaces (indent * (depth + 1))
          ++ (dump_to c indent (depth + 1) x ++ items_tail indent depth xs rest)
  unfolding dump_to
  items_text x no_items indent depth rest = simp append_assoc
  items_text x (item y ys) indent depth rest = simp append_assoc

  fields_text :
      (k : Text) (x : Value D) (fs : Fields D) (indent depth : ℕ) (rest : Text)
      → dump_fields c indent depth (field k x fs) ++ rest
        ≡ spaces (indent * (depth + 1))
          ++ (escape c k
              ++ (colon indent
                  ++ (dump_to c indent (depth + 1) x ++ fields_tail indent depth fs rest)))
  unfolding dump_to
  fields_text k x no_fields indent depth rest = simp append_assoc
  fields_text k x (field j y fs) indent depth rest = simp append_assoc

  items_open :
      (x : Value D) (xs : Items D) (indent depth : ℕ) (rest : Text)
      → IsPlain c nz x
      → at b']' (skip_ws (newline indent ++ (dump_items c indent depth (item x xs) ++ rest)))
        ≡ false
  items_open x xs indent depth rest p =
      let opens = dump_to-Opens c nz laws indent (depth + 1) x p in
      let tail = items_tail indent depth xs rest in
      ap (at b']') (
        ap (λ (t : Text). skip_ws (newline indent ++ t)) (items_text x xs indent depth rest)
        ∙ skip_lead indent (indent * (depth + 1)) (dump_to c indent (depth + 1) x ++ tail)
        ∙ solid_after (dump_to c indent (depth + 1) x) tail opens)
      ∙ not_closed (dump_to c indent (depth + 1) x) tail opens

  fields_open :
      (k : Text) (x : Value D) (fs : Fields D) (indent depth : ℕ) (rest : Text)
      → at b'}' (skip_ws (newline indent ++ (dump_fields c indent depth (field k x fs) ++ rest)))
        ≡ false
  fields_open k x fs indent depth rest =
      let tail =
        colon indent ++ (dump_to c indent (depth + 1) x ++ fields_tail indent depth fs rest) in
      ap (at b'}') (
        ap (λ (t : Text). skip_ws (newline indent ++ t)) (fields_text k x fs indent depth rest)
        ∙ skip_ws-newline indent (spaces (indent * (depth + 1)) ++ (escape c k ++ tail))
        ∙ skip_quote c (indent * (depth + 1)) k tail)
      ∙ unfold at escape in refl

  fields_length :
      (k : Text) (x : Value D) (fs : Fields D) (indent depth : ℕ)
      → length (dump_to c indent (depth + 1) x) + length (fields_tail indent depth fs [])
        ≤ length (dump_fields c indent depth (field k x fs))
  fields_length k x fs indent depth =
      omega (arith, ap length (fields_text k x fs indent depth []), length_text)

  mutual
    unfolding dump_to IsPlain

    value-Reads :
        (v : Value D) (indent depth f : ℕ) (rest : Text)
        → IsPlain c nz v
        → is_delimited rest ≡ true
        → 3 * length (dump_to c indent depth v) < f
        → parse_value c f (dump_to c indent depth v ++ rest) ≡ ok (v, rest)
    value-Reads v indent depth zero rest p d h = elim h [ ]
    value-Reads null indent depth (suc f) rest p d h = value_null c f rest
    value-Reads (boolean true) indent depth (suc f) rest p d h = value_boolean c true f rest
    value-Reads (boolean false) indent depth (suc f) rest p d h = value_boolean c false f rest
    value-Reads (number n) indent depth (suc f) rest p d h =
        value_number c f (number_to c n ++ rest) rest n
          (starts_append (number_to c n) rest (number_starts c nz laws n p.0))
          (number_reads c nz laws n rest p.0 p.1 d) (number_left c nz laws n rest p.0 p.1 d)
    value-Reads (string s) indent depth (suc f) rest p d h = value_string s f rest p
    value-Reads (array no_items) indent depth (suc zero) rest p d h = absurd (omega arith)
    value-Reads (array no_items) indent depth (suc (suc f)) rest p d h = value_brackets c f rest
    value-Reads (array (item x xs)) indent depth (suc zero) rest p d h = absurd (omega arith)
    value-Reads (array (item x xs)) indent depth (suc (suc f)) rest p d h =
        let ts = dump_items c indent depth (item x xs) ++ rest in
        ap (λ (t : Text). parse_value c (suc (suc f)) (b'[' ∷ t))
          (append_assoc (newline indent) (dump_items c indent depth (item x xs)) rest)
        ∙ value_array c f (newline indent ++ ts) rest (item x xs)
            (items_open x xs indent depth rest p.0)
            (elements-cong c f (newline indent ++ ts) ts (skip_ws-newline indent ts)
              ∙ items-Reads x xs indent depth f rest p.0 p.1 (omega (arith, length_text)))
    value-Reads (object no_fields) indent depth (suc zero) rest p d h = absurd (omega arith)
    value-Reads (object no_fields) indent depth (suc (suc f)) rest p d h = value_braces c f rest
    value-Reads (object (field k x fs)) indent depth (suc zero) rest p d h = absurd (omega arith)
    value-Reads (object (field k x fs)) indent depth (suc (suc f)) rest p d h =
        let ts = dump_fields c indent depth (field k x fs) ++ rest in
        ap (λ (t : Text). parse_value c (suc (suc f)) (b'{' ∷ t))
          (append_assoc (newline indent) (dump_fields c indent depth (field k x fs)) rest)
        ∙ value_object c f (newline indent ++ ts) rest (field k x fs)
            (fields_open k x fs indent depth rest)
            (members-cong c f (newline indent ++ ts) ts (skip_ws-newline indent ts)
              ∙ fields-Reads k x fs indent depth f rest p.0 p.1 p.2 (omega (arith, length_text)))

    items-Reads :
        (x : Value D) (xs : Items D) (indent depth f : ℕ) (rest : Text)
        → IsPlain c nz x
        → ArePlain c nz xs
        → 3 * length (dump_items c indent depth (item x xs)) + 1 < f
        → parse_elements c f (dump_items c indent depth (item x xs) ++ rest) ≡ ok (item x xs, rest)
    items-Reads x xs indent depth zero rest p q h = elim h [ ]
    items-Reads x no_items indent depth (suc f) rest p q h =
        let t = items_tail indent depth no_items rest in
        let ts = spaces (indent * (depth + 1)) ++ (dump_to c indent (depth + 1) x ++ t) in
        ap (parse_elements c (suc f)) (items_text x no_items indent depth rest)
        ∙ elements_last c f ts t rest x
            (parse_value-cong c f ts (dump_to c indent (depth + 1) x ++ t)
                (skip_ws-spaces (indent * (depth + 1)) (dump_to c indent (depth + 1) x ++ t))
              ∙ value-Reads x indent (depth + 1) f t p (delimited_end indent depth b']' rest refl)
                  (omega (arith, length_text)))
            (skip_end indent depth b']' rest refl)
    items-Reads x (item y ys) indent depth (suc f) rest p q h =
        let t = items_tail indent depth (item y ys) rest in
        let ts = spaces (indent * (depth + 1)) ++ (dump_to c indent (depth + 1) x ++ t) in
        let us = dump_items c indent depth (item y ys) ++ rest in
        ap (parse_elements c (suc f)) (items_text x (item y ys) indent depth rest)
        ∙ elements_more c f ts t (newline indent ++ us) rest x (item y ys)
            (parse_value-cong c f ts (dump_to c indent (depth + 1) x ++ t)
                (skip_ws-spaces (indent * (depth + 1)) (dump_to c indent (depth + 1) x ++ t))
              ∙ value-Reads x indent (depth + 1) f t p refl (omega (arith, length_text)))
            (skip_ws_solid t refl)
            (elements-cong c f (newline indent ++ us) us (skip_ws-newline indent us)
              ∙ items-Reads y ys indent depth f rest q.0 q.1 (omega (arith, length_text)))

    fields-Reads :
        (k : Text) (x : Value D) (fs : Fields D) (indent depth f : ℕ) (rest : Text)
        → IsBytes k
        → IsPlain c nz x
        → FieldsArePlain c nz fs
        → 3 * length (dump_fields c indent depth (field k x fs)) + 1 < f
        → parse_members c f (dump_fields c indent depth (field k x fs) ++ rest)
          ≡ ok (field k x fs, rest)
    fields-Reads k x fs indent depth zero rest pk p q h = elim h [ ]
    fields-Reads k x no_fields indent depth (suc f) rest pk p q h =
        let t = fields_tail indent depth no_fields rest in
        let z = dump_to c indent (depth + 1) x ++ t in
        let (w, at_colon, behind) = skip_colon indent z in
        ap (parse_members c (suc f)) (fields_text k x no_fields indent depth rest)
        ∙ members_last c f (spaces (indent * (depth + 1)) ++ (escape c k ++ (colon indent ++ z)))
            (colon indent ++ z) w t rest k x
            (ap (parse_string c) (skip_quote c (indent * (depth + 1)) k (colon indent ++ z))
              ∙ parse_string-escape c laws k (colon indent ++ z) pk)
            at_colon
            (parse_value-cong c f w z behind
              ∙ value-Reads x indent (depth + 1) f t p (delimited_end indent depth b'}' rest refl)
                  (omega (arith, fields_length k x no_fields indent depth)))
            (skip_end indent depth b'}' rest refl)
    fields-Reads k x (field j y fs) indent depth (suc f) rest pk p q h =
        let t = fields_tail indent depth (field j y fs) rest in
        let z = dump_to c indent (depth + 1) x ++ t in
        let us = dump_fields c indent depth (field j y fs) ++ rest in
        let (w, at_colon, behind) = skip_colon indent z in
        ap (parse_members c (suc f)) (fields_text k x (field j y fs) indent depth rest)
        ∙ members_more c f (spaces (indent * (depth + 1)) ++ (escape c k ++ (colon indent ++ z)))
            (colon indent ++ z) w t (newline indent ++ us) rest k x (field j y fs)
            (ap (parse_string c) (skip_quote c (indent * (depth + 1)) k (colon indent ++ z))
              ∙ parse_string-escape c laws k (colon indent ++ z) pk)
            at_colon
            (parse_value-cong c f w z behind
              ∙ value-Reads x indent (depth + 1) f t p refl
                  (omega (arith, fields_length k x (field j y fs) indent depth, length_text)))
            (skip_ws_solid t refl)
            (members-cong c f (newline indent ++ us) us (skip_ws-newline indent us)
              ∙ fields-Reads j y fs indent depth f rest q.0 q.1 q.2
                  (omega (arith, fields_length k x (field j y fs) indent depth, length_text)))

  -- Where every number of a value is finite and none is -0, and its strings are bytes, parse() reads
  -- back exactly the value that dump() wrote, at every indent.
  pub parse-dump : (v : Value D) (indent : ℕ) → IsPlain c nz v → parse c (dump c indent v) ≡ ok v
  unfolding parse dump
  parse-dump v indent p =
      let ts = dump_to c indent 0 v in
      let read = value-Reads v indent 0 (3 * length ts + 1) [] p refl (omega arith) in
      let whole = rw append-nil at read in rw whole (unfold skip_ws in refl)

  -- Where every number of a value is finite and none is -0, and its strings are bytes, and the text
  -- that dump() wrote of it is followed by a text that is empty or starts with a comma, a closing bracket
  -- or a newline, parse() gives the value back if only white space follows, and otherwise refuses the
  -- whole.
  pub parse-trailing :
      (v : Value D) (indent : ℕ) (rest : Text)
      → IsPlain c nz v
      → is_delimited rest ≡ true
      → parse c (dump c indent v ++ rest) ≡ (elim (skip_ws rest) [ [] ↦ ok v | b ∷ bs ↦ trailing ])
  unfolding parse dump
  parse-trailing v indent rest p h =
      let ts = dump_to c indent 0 v in
      let fuel = 3 * length (ts ++ rest) + 1 in
      rw (value-Reads v indent 0 fuel rest p h (omega (arith, length-append ts rest))) refl
