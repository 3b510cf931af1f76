-- ===== src/Json/Reader.antt =====
-- src/util/json.cpp: parse(). A parser is given the text from pos on and returns its result with the
-- text that is left; a failure carries the text that was left when fail() was called, from which the
-- line number comes.
use Prim.Native.Nat.{bit_or}
use Prim.Native.String.{String}
use xrune.Base.{
  ℕ, zero, suc, ◌+◌, ◌-◌, ◌*◌, ◌/◌, ◌%◌, ◌^◌, Bool, true, false, ◌||◌, [], ◌∷◌, ◌++◌, ◌==◌, ltb,
  if◌then◌else◌, length, Option, none, some,
}
use xrune.Json.{
  Text, null_text, true_text, false_text, Value, Items, Fields, null, boolean, number, string,
  array, object, no_items, item, no_fields, field,
}
use xrune.Json.Numbers.{CNumbers, starts_number}

-- `trailing` is the failure that reports no line; `out_of_fuel` has no counterpart in the program.
pub data Result (A : Type 0) : Type 0 where
  ok : A → Result A
  failed : String → Text → Result A
  trailing : Result A
  out_of_fuel : Result A

infixl 5 ◌>>=◌ ◌>>◌
abbrev pub ◌>>=◌ : {A B : Type 0} → Result A → (A → Result B) → Result B
ok a >>= f = f a
failed msg rest >>= f = failed msg rest
trailing >>= f = trailing
out_of_fuel >>= f = out_of_fuel

abbrev pub ◌>>◌ : {A B : Type 0} → Result A → Result B → Result B
m >> k = m >>= λ _. k

abbrev pub is_space : ℕ → Bool
is_space b = b == b' ' || b == b'\t' || b == b'\n' || b == b'\r'

unfoldable pub skip_ws : Text → Text
skip_ws [] = []
skip_ws (b ∷ bs) = if is_space b then skip_ws bs else b ∷ bs

unfoldable pub eof : Text → Bool
eof [] = true
eof (b ∷ bs) = false

-- peek() == b; at the end peek() is 0, which no caller asks for.
unfoldable pub at : ℕ → Text → Bool
at b [] = false
at b (x ∷ xs) = x == b

abbrev pub tail : Text → Text
tail [] = []
tail (b ∷ bs) = bs

-- if (peek() != b) return fail(msg); ++pos;
unfoldable pub expect : ℕ → String → Text → Result Text
unfolding at
expect b msg ts = if at b ts then ok (tail ts) else failed msg ts

-- The text behind `lit`, where the text starts with it.
unfoldable pub strip : Text → Text → Option Text
strip [] ts = some ts
strip (b ∷ bs) [] = none
strip (b ∷ bs) (x ∷ xs) = if x == b then strip bs xs else none

unfoldable pub literal : Text → String → Text → Result Text
unfolding strip
literal lit msg ts = elim (strip lit ts) [ none ↦ failed msg ts | some rest ↦ ok rest ]

-- The bytes of a code of the basic plane, each cast to a char.
unfoldable pub encode : ℕ → Text
encode code =
    if ltb code 0x80
    then code ∷ []
    else if ltb code 0x800
    then (bit_or 0xC0 (code / 64) % 256) ∷ bit_or 0x80 (code % 64) ∷ []
    else (bit_or 0xE0 (code / 4096) % 256)
      ∷ bit_or 0x80 (code / 64 % 64)
      ∷ bit_or 0x80 (code % 64)
      ∷ []

-- out += bytes, before the rest of a string.
abbrev pub prefixed : Text → Result (Text × Text) → Result (Text × Text)
prefixed bytes r = r >>= λ (s, rest). ok (bytes ++ s, rest)

-- The escapes of one letter.
unfoldable pub unescape : ℕ → Option ℕ
unescape e =
    if e == b'"' || e == b'\\' || e == b'/'
    then some e
    else if e == b'b'
    then some 8
    else if e == b'f'
    then some 12
    else if e == b'n'
    then some b'\n'
    else if e == b'r'
    then some b'\r'
    else if e == b't'
    then some b'\t'
    else none

module _ {D : Type 0} (c : CNumbers D) where
  unfoldable mutual
    -- The loop of parse_string(), behind the opening quote.
    pub parse_chars : Text → Result (Text × Text)
    parse_chars [] = failed "unterminated string" []
    parse_chars (b ∷ bs) =
        let escaped = parse_escape bs in
        let plain = prefixed (b ∷ []) (parse_chars bs) in
        if b == b'"' then ok ([], bs) else if b == b'\\' then escaped else plain

    pub parse_escape : Text → Result (Text × Text)
    parse_escape [] = failed "unterminated escape" []
    parse_escape (e ∷ bs) =
        let more = parse_chars bs in
        let unicode = parse_unicode bs in
        elim (unescape e) [
          | some b ↦ prefixed (b ∷ []) more
          | none ↦ if e == b'u' then unicode else failed "invalid escape" bs
        ]

    -- unsigned code = strtoul(src.substr(pos, 4), 16)
    pub parse_unicode : Text → Result (Text × Text)
    parse_unicode (h ∷ i ∷ j ∷ k ∷ bs) =
        prefixed (encode (c.strtoul16 (h ∷ i ∷ j ∷ k ∷ []) % 2 ^ 32)) (parse_chars bs)
    parse_unicode bs = failed "bad \\u escape" bs

  unfoldable pub parse_string : Text → Result (Text × Text)
  unfolding parse_chars expect
  parse_string ts = expect b'"' "expected string" ts >>= parse_chars

  unfoldable pub parse_number : Text → Result (Value D × Text)
  parse_number ts =
      let (d, rest) = c.strtod ts in
      if length rest == length ts then failed "bad number" ts else ok (number d, rest)

  unfoldable mutual
    unfolding skip_ws parse_string literal parse_number

    pub parse_value : ℕ → Text → Result (Value D × Text)
    parse_value zero ts = out_of_fuel
    parse_value (suc f) ts =
        let ts = skip_ws ts in
        let members = parse_object f (skip_ws (tail ts)) in
        let elements = parse_array f (skip_ws (tail ts)) in
        if eof ts
        then failed "unexpected end of input" ts
        else if at b'{' ts
        then members
        else if at b'[' ts
        then elements
        else if at b'"' ts
        then parse_string ts >>= (λ (s, rest). ok (string s, rest))
        else if at b't' ts
        then literal true_text "expected 'true'" ts >>= (λ rest. ok (boolean true, rest))
        else if at b'f' ts
        then literal false_text "expected 'false'" ts >>= (λ rest. ok (boolean false, rest))
        else if at b'n' ts
        then literal null_text "expected 'null'" ts >>= (λ rest. ok (null, rest))
        else if starts_number ts
        then parse_number ts
        else failed "unexpected character" ts

    -- Behind `{` and white space.
    pub parse_object : ℕ → Text → Result (Value D × Text)
    parse_object zero ts = out_of_fuel
    parse_object (suc f) ts =
        let members = parse_members f ts in
        if at b'}' ts
        then ok (object no_fields, tail ts)
        else members >>= (λ (fs, rest). ok (object fs, rest))

    -- The loop over members.
    pub parse_members : ℕ → Text → Result (Fields D × Text)
    parse_members zero ts = out_of_fuel
    parse_members (suc f) ts = parse_string (skip_ws ts) >>= λ (key, ts).
        expect b':' "expected ':'" (skip_ws ts) >>= λ ts. parse_value f ts >>= λ (v, ts).
        let ts = skip_ws ts in
        let more = parse_members f (tail ts) in
        if at b',' ts
        then more >>= (λ (fs, rest). ok (field key v fs, rest))
        else if at b'}' ts
        then ok (field key v no_fields, tail ts)
        else failed "expected ',' or '}'" ts

    -- Behind `[` and white space.
    pub parse_array : ℕ → Text → Result (Value D × Text)
    parse_array zero ts = out_of_fuel
    parse_array (suc f) ts =
        let elements = parse_elements f ts in
        if at b']' ts
        then ok (array no_items, tail ts)
        else elements >>= (λ (xs, rest). ok (array xs, rest))

    -- The loop over elements.
    pub parse_elements : ℕ → Text → Result (Items D × Text)
    parse_elements zero ts = out_of_fuel
    parse_elements (suc f) ts = parse_value f ts >>= λ (v, ts).
        let ts = skip_ws ts in
        let more = parse_elements f (tail ts) in
        if at b',' ts
        then more >>= (λ (xs, rest). ok (item v xs, rest))
        else if at b']' ts
        then ok (item v no_items, tail ts)
        else failed "expected ',' or ']'" ts

  -- Each call of the parser costs a unit of fuel, at most three for each byte that it goes on.
  unfoldable pub parse : Text → Result (Value D)
  unfolding parse_value skip_ws
  parse src = parse_value (3 * length src + 1) src >>= λ (v, rest). elim (skip_ws rest) [
    | [] ↦ ok v
    | b ∷ bs ↦ trailing
  ]

-- The line that fail() reports, where `rest` is what is left of `src`.
unfoldable pub newlines : Text → ℕ
newlines [] = 0
newlines (b ∷ bs) = (if b == b'\n' then 1 else 0) + newlines bs

unfoldable pub line_of : Text → Text → ℕ
unfolding newlines
line_of src rest = 1 + (newlines src - newlines rest)
