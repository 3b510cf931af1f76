-- ===== src/Json/Numbers.antt =====
-- src/util/json.cpp: what it uses of the C library on numbers, and what it relies on there.
use xrune.Base.{
  ℕ, ℤ, some, ◌<◌, ◌≤◌, ◌≡◌, Bool, true, false, ◌&&◌, ◌||◌, [], ◌∷◌, ◌++◌, ◌==◌, leb, length,
}
use xrune.Json.{Text, Value, number, find}

-- isfinite, floor, fabs, == and <; snprintf with "%lld" of the number as a long long, with "%.*g"
-- and, on a byte, with "%04x"; strtod with the text behind the number, strtoul of base 16; and
-- llround, cast to long.
pub record CNumbers (D : Type 0) : Type 0 where
  pub isfinite : D → Bool
  pub floor : D → D
  pub fabs : D → D
  pub equals : D → D → Bool
  pub less : D → D → Bool
  pub limit : D
  pub print_lld : D → Text
  pub print_g : ℕ → D → Text
  pub print_04x : ℕ → Text
  pub strtod : Text → D × Text
  pub strtoul16 : Text → ℕ
  pub llround : D → ℤ

abbrev pub is_digit : ℕ → Bool
is_digit c = leb b'0' c && leb c b'9'

abbrev pub starts_number : Text → Bool
starts_number [] = false
starts_number (c ∷ cs) = c == b'-' || is_digit c

-- No number goes on with what may stand behind a value.
abbrev pub is_delimited : Text → Bool
is_delimited [] = true
is_delimited (c ∷ cs) = c == b',' || c == b']' || c == b'}' || c == b'\n'

-- The test of number_to() for a number that prints without a point.
unfoldable pub is_whole : {D : Type 0} → CNumbers D → D → Bool
is_whole c n = c.isfinite n && c.equals n (c.floor n) && c.less (c.fabs n) c.limit

-- value::integer
unfoldable pub integer : {D : Type 0} → CNumbers D → Text → ℤ → Value D → ℤ
integer c key def o = elim (find key o) [ some (number n) ↦ c.llround n | _ ↦ def ]

-- What the C library documents: a finite number prints as a numeral; strtod reads a numeral up to
-- the text that cannot belong to it, and whole numbers exactly, but for the sign of zero; 17 digits
-- are enough; numbers that compare equal are the same, but for the zeros; %04x of a byte has four
-- hexadecimal digits of its value.
pub record NumberLaws {D : Type 0} (c : CNumbers D) (negative_zero : D → Bool) : Type 0 where
  pub lld_starts : (n : D) → starts_number (c.print_lld n) ≡ true
  pub g_starts : (p : ℕ) (n : D) → c.isfinite n ≡ true → starts_number (c.print_g p n) ≡ true
  pub lld_reads :
      (n : D) (rest : Text)
      → is_whole c n ≡ true
      → negative_zero n ≡ false
      → is_delimited rest ≡ true
      → c.strtod (c.print_lld n ++ rest) ≡ (n, rest)
  pub g_reads :
      (p : ℕ) (n : D) (rest : Text)
      → c.isfinite n ≡ true
      → is_delimited rest ≡ true
      → c.strtod (c.print_g p n ++ rest) ≡ ((c.strtod (c.print_g p n)).0, rest)
  pub g_exact : (n : D) → c.isfinite n ≡ true → c.equals (c.strtod (c.print_g 17 n)).0 n ≡ true
  pub equals_same :
      (a b : D)
      → c.equals a b ≡ true
      → (c.equals b (c.floor b) && c.less (c.fabs b) c.limit) ≡ false
      → a ≡ b
  pub hex_length : (b : ℕ) → b < 256 → length (c.print_04x b) ≡ 4
  pub hex_reads : (b : ℕ) → b < 256 → c.strtoul16 (c.print_04x b) ≡ b
  pub strtod_rest : (t : Text) → length (c.strtod t).1 ≤ length t
