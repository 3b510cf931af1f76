-- ===== src/Json/Writer.antt =====
-- src/util/json.cpp: dump(). `indent` is not negative; 0 stands for every indent that is not positive.
use xrune.Base.{ℕ, ◌+◌, ◌*◌, [], ◌∷◌, ◌++◌, ◌==◌, ltb, if◌then◌else◌, replicate}
use xrune.Json.{
  Text, null_text, true_text, false_text, Value, Items, Fields, null, boolean, number, string,
  array, object, no_items, item, no_fields, field,
}
use xrune.Json.Numbers.{CNumbers, is_whole}

abbrev pub quote : ℕ
quote = b'"'

abbrev pub backslash : ℕ
backslash = b'\\'

abbrev pub spaces : ℕ → Text
spaces n = replicate n b' '

abbrev pub newline : ℕ → Text
newline indent = if ltb 0 indent then b'\n' ∷ [] else []

abbrev pub colon : ℕ → Text
colon indent = if ltb 0 indent then b':' ∷ b' ' ∷ [] else b':' ∷ []

module _ {D : Type 0} (c : CNumbers D) where
  -- The escape of one byte.
  unfoldable pub escape_byte : ℕ → Text
  escape_byte b =
      if b == b'"'
      then backslash ∷ quote ∷ []
      else if b == b'\\'
      then backslash ∷ backslash ∷ []
      else if b == b'\n'
      then backslash ∷ b'n' ∷ []
      else if b == b'\r'
      then backslash ∷ b'r' ∷ []
      else if b == b'\t'
      then backslash ∷ b't' ∷ []
      else if ltb b 0x20
      then backslash ∷ b'u' ∷ c.print_04x b
      else b ∷ []

  unfoldable pub escape_bytes : Text → Text
  unfolding escape_byte
  escape_bytes [] = []
  escape_bytes (b ∷ bs) = escape_byte b ++ escape_bytes bs

  unfoldable pub escape : Text → Text
  unfolding escape_bytes
  escape s = quote ∷ (escape_bytes s ++ (quote ∷ []))

  -- for (prec = 15; prec <= 17; ++prec), which leaves the text of the last round if none breaks.
  unfoldable pub shortest : D → Text
  shortest n =
      if c.equals (c.strtod (c.print_g 15 n)).0 n
      then c.print_g 15 n
      else if c.equals (c.strtod (c.print_g 16 n)).0 n
      then c.print_g 16 n
      else c.print_g 17 n

  unfoldable pub number_to : D → Text
  unfolding is_whole shortest
  number_to n = if is_whole c n then c.print_lld n else shortest n

  unfoldable mutual
    unfolding escape number_to

    pub dump_to : ℕ → ℕ → Value D → Text
    dump_to indent depth null = null_text
    dump_to indent depth (boolean b) = if b then true_text else false_text
    dump_to indent depth (number n) = number_to n
    dump_to indent depth (string s) = escape s
    dump_to indent depth (array no_items) = b'[' ∷ b']' ∷ []
    dump_to indent depth (array (item x xs)) =
        b'[' ∷ (newline indent ++ dump_items indent depth (item x xs))
    dump_to indent depth (object no_fields) = b'{' ∷ b'}' ∷ []
    dump_to indent depth (object (field k x fs)) =
        b'{' ∷ (newline indent ++ dump_fields indent depth (field k x fs))

    -- The loop from one item on, with what follows it.
    pub dump_items : ℕ → ℕ → Items D → Text
    dump_items indent depth no_items = spaces (indent * depth) ++ b']' ∷ []
    dump_items indent depth (item x no_items) =
        spaces (indent * (depth + 1))
        ++ (dump_to indent (depth + 1) x ++ (newline indent ++ dump_items indent depth no_items))
    dump_items indent depth (item x (item y ys)) =
        spaces (indent * (depth + 1))
        ++ (dump_to indent (depth + 1) x
            ++ (b',' ∷ (newline indent ++ dump_items indent depth (item y ys))))

    pub dump_fields : ℕ → ℕ → Fields D → Text
    dump_fields indent depth no_fields = spaces (indent * depth) ++ b'}' ∷ []
    dump_fields indent depth (field k x no_fields) =
        spaces (indent * (depth + 1))
        ++ (escape k
            ++ (colon indent
                ++ (dump_to indent (depth + 1) x
                    ++ (newline indent ++ dump_fields indent depth no_fields))))
    dump_fields indent depth (field k x (field j y fs)) =
        spaces (indent * (depth + 1))
        ++ (escape k
            ++ (colon indent
                ++ (dump_to indent (depth + 1) x
                    ++ (b',' ∷ (newline indent ++ dump_fields indent depth (field j y fs))))))

  unfoldable pub dump : ℕ → Value D → Text
  unfolding dump_to
  dump indent v = dump_to indent 0 v
