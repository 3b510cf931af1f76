-- ===== src/Json/Plain.antt =====
-- src/util/json.cpp: the values that can be read back, their numbers, and how their texts start.
use xrune.Base.{
  ℕ, ◌≡◌, ◌∙◌, refl, ap, Bool, true, false, [], ◌∷◌, ◌++◌, ◌==◌, length, arith, Bool-cases, inl,
  inr, length-append,
}
use xrune.Json.{
  Text, Value, Items, Fields, null, boolean, number, string, array, object, no_items, item,
  no_fields, field,
}
use xrune.Json.Numbers.{CNumbers, NumberLaws, is_delimited, starts_number, is_whole}
use xrune.Json.Writer.{quote, escape, shortest, number_to, dump_to}
use xrune.Json.Reader.{is_space, skip_ws, at}
use xrune.Json.White.{skip_ws_solid}
use xrune.Json.Strings.{IsBytes}

pub starts_append : (ts rest : Text) → starts_number ts ≡ true → starts_number (ts ++ rest) ≡ true
starts_append [] rest h = cc
starts_append (b ∷ bs) rest h = h

-- What dump() writes of a value starts with neither white space nor a closing bracket.
abbrev pub Opens : Text → Type 0
Opens ts = (b : ℕ) × (bs : Text) × (ts ≡ b ∷ bs) × (is_space b ≡ false) × ((b == b']') ≡ false)

pub solid_after : (ts rest : Text) → Opens ts → skip_ws (ts ++ rest) ≡ ts ++ rest
solid_after ts rest (b, bs, e, s, n) = rw e (skip_ws_solid (b ∷ (bs ++ rest)) (ground arith))

pub not_closed : (ts rest : Text) → Opens ts → at b']' (ts ++ rest) ≡ false
unfolding at
not_closed ts rest (b, bs, e, s, n) = rw e n

module _ {D : Type 0} (c : CNumbers D) (nz : D → Bool) where
  -- A value of bytes and finite numbers, none of them -0.
  unfoldable mutual
    pub IsPlain : Value D → Type 0
    IsPlain null = Unit
    IsPlain (boolean b) = Unit
    IsPlain (number n) = (c.isfinite n ≡ true) × (nz n ≡ false)
    IsPlain (string s) = IsBytes s
    IsPlain (array xs) = ArePlain xs
    IsPlain (object fs) = FieldsArePlain fs

    pub ArePlain : Items D → Type 0
    ArePlain no_items = Unit
    ArePlain (item x xs) = IsPlain x × ArePlain xs

    pub FieldsArePlain : Fields D → Type 0
    FieldsArePlain no_fields = Unit
    FieldsArePlain (field k x fs) = IsBytes k × IsPlain x × FieldsArePlain fs

  module _ (laws : NumberLaws c nz) where
    pub digits_read :
        (p : ℕ) (n : D) (rest : Text)
        → c.isfinite n ≡ true
        → is_whole c n ≡ false
        → c.equals (c.strtod (c.print_g p n)).0 n ≡ true
        → is_delimited rest ≡ true
        → c.strtod (c.print_g p n ++ rest) ≡ (n, rest)
    unfolding is_whole
    digits_read p n rest fin whole e d =
        laws.g_reads p n rest fin d
        ∙ ap (λ (x : D). (x, rest))
            (laws.equals_same (c.strtod (c.print_g p n)).0 n e (rw fin at whole))

    pub shortest_reads :
        (n : D) (rest : Text)
        → c.isfinite n ≡ true
        → is_whole c n ≡ false
        → is_delimited rest ≡ true
        → c.strtod (shortest c n ++ rest) ≡ (n, rest)
    unfolding shortest is_whole
    shortest_reads n rest fin whole d =
        elim (Bool-cases (c.equals (c.strtod (c.print_g 15 n)).0 n)) [
          | inl e ↦ rw e (digits_read 15 n rest fin whole e d)
          | inr e ↦ rw e (elim (Bool-cases (c.equals (c.strtod (c.print_g 16 n)).0 n)) [
            | inl e' ↦ rw e' (digits_read 16 n rest fin whole e' d)
            | inr e' ↦ rw e' (digits_read 17 n rest fin whole (laws.g_exact n fin) d)
          ])
        ]

    pub number_starts : (n : D) → c.isfinite n ≡ true → starts_number (number_to c n) ≡ true
    unfolding number_to
    number_starts n fin =
        ground
          (arith, laws.lld_starts n, laws.g_starts 15 n, laws.g_starts 16 n, laws.g_starts 17 n)

    pub number_reads :
        (n : D) (rest : Text)
        → c.isfinite n ≡ true
        → nz n ≡ false
        → is_delimited rest ≡ true
        → c.strtod (number_to c n ++ rest) ≡ (n, rest)
    unfolding number_to
    number_reads n rest fin pos d = elim (Bool-cases (is_whole c n)) [
      | inl w ↦ rw w (laws.lld_reads n rest w pos d)
      | inr w ↦ rw w (shortest_reads n rest fin w d)
    ]

    pub number_left :
        (n : D) (rest : Text)
        → c.isfinite n ≡ true
        → nz n ≡ false
        → is_delimited rest ≡ true
        → (length (c.strtod (number_to c n ++ rest)).1 == length (number_to c n ++ rest)) ≡ false
    number_left n rest fin pos d =
        rw (number_reads n rest fin pos d) (longer (number_to c n) (number_starts n fin))
      where
        longer :
            (ts : Text) → starts_number ts ≡ true → (length rest == length (ts ++ rest)) ≡ false
        longer [] h = cc h
        longer (b ∷ bs) h = ground (arith, length-append bs rest)

    pub dump_to-Opens :
        (indent depth : ℕ) (v : Value D) → IsPlain v → Opens (dump_to c indent depth v)
    unfolding dump_to escape IsPlain
    dump_to-Opens indent depth null p = (b'n', _, refl, refl, refl)
    dump_to-Opens indent depth (boolean true) p = (b't', _, refl, refl, refl)
    dump_to-Opens indent depth (boolean false) p = (b'f', _, refl, refl, refl)
    dump_to-Opens indent depth (number n) p = number_Opens (number_to c n) (number_starts n p.0)
      where
        number_Opens : (ts : Text) → starts_number ts ≡ true → Opens ts
        number_Opens [] h = cc h
        number_Opens (b ∷ bs) h = (b, bs, refl, ground arith, ground arith)
    dump_to-Opens indent depth (string s) p = (quote, _, refl, refl, refl)
    dump_to-Opens indent depth (array no_items) p = (b'[', _, refl, refl, refl)
    dump_to-Opens indent depth (array (item x xs)) p = (b'[', _, refl, refl, refl)
    dump_to-Opens indent depth (object no_fields) p = (b'{', _, refl, refl, refl)
    dump_to-Opens indent depth (object (field k x fs)) p = (b'{', _, refl, refl, refl)
