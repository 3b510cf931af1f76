-- ===== src/Tests/Texts.antt =====
-- A JSON value, and the theorems at it. A number here is a natural number in unary digits.
use xrune.Base.{
  pos, ℕ, zero, suc, ◌-◌, ◌≤◌, ◌≡◌, ◌≢◌, ◌∙◌, refl, ap, sym, eq→==, append-nil, true, false, some,
  none, [], ◌∷◌, ◌++◌, ◌==◌, ltb, if◌then◌else◌, length, arith, replicate,
}
use xrune.Json.{
  Text, codes, Value, null, boolean, number, array, object, no_items, item, no_fields, field, find,
  set_key, equal,
}
use xrune.Json.Numbers.{integer, CNumbers, NumberLaws, is_delimited, is_whole}
use xrune.Json.Writer.{dump, escape_byte}
use xrune.Json.Reader.{skip_ws, trailing, ok, failed, line_of, out_of_fuel, parse, eof}
use xrune.Json.Plain.{IsPlain}
use xrune.Json.RoundTrip.{parse-dump, parse-trailing}
use xrune.Json.Access.{find-set_key}
use xrune.Json.Fuel.{parse-ne-out_of_fuel}

-- As many digits 1 as the number, behind a first one.
unary : ℕ → Text
unary n = replicate (suc n) b'1'

count_ones : Text → ℕ × Text
count_ones [] = (0, [])
count_ones (b ∷ bs) =
    let (n, rest) = count_ones bs in if b == b'1' then (suc n, rest) else (0, b ∷ bs)

read_unary : Text → ℕ × Text
unfolding count_ones
read_unary ts = let (n, rest) = count_ones ts in (n - 1, rest)

-- Four digits of which the last is the byte itself.
abbrev hex : ℕ → Text
hex b = b'0' ∷ b'0' ∷ b'0' ∷ b ∷ []

abbrev unhex : Text → ℕ
unhex (x ∷ y ∷ z ∷ b ∷ bs) = b
unhex _ = 0

unfoldable pub counts : CNumbers ℕ
unfolding unary read_unary
counts = record {
  isfinite = λ n. true;
  floor = λ n. n;
  fabs = λ n. n;
  equals = ◌==◌;
  less = ltb;
  limit = 1_000_000;
  print_lld = unary;
  print_g = λ p n. unary n;
  print_04x = hex;
  strtod = read_unary;
  strtoul16 = unhex;
  llround = pos;
}

count_ones_lem :
    (n : ℕ) (rest : Text)
    → is_delimited rest ≡ true
    → count_ones (replicate n b'1' ++ rest) ≡ (n, rest)
unfolding count_ones
count_ones_lem zero [] d = refl
count_ones_lem zero (b ∷ bs) d = ground arith
count_ones_lem (suc n) rest d = rw (count_ones_lem n rest d) refl

count_ones_rest : (ts : Text) → length (count_ones ts).1 ≤ length ts
unfolding count_ones
count_ones_rest [] = omega arith
count_ones_rest (b ∷ bs) = ground (arith, count_ones_rest bs)

read_unary_lem :
    (n : ℕ) (rest : Text) → is_delimited rest ≡ true → read_unary (unary n ++ rest) ≡ (n, rest)
unfolding read_unary unary
read_unary_lem n rest d =
    let one_more : suc n - 1 ≡ n = omega arith in
    ap (λ (r : ℕ × Text). (r.0 - 1, r.1)) (count_ones_lem (suc n) rest d)
    ∙ ap (λ (k : ℕ). (k, rest)) one_more

read_unary_alone : (n : ℕ) → (read_unary (unary n)).0 ≡ n
read_unary_alone n = ap (λ (r : ℕ × Text). r.0) (rw append-nil at (read_unary_lem n [] refl))

pub counts-NumberLaws : NumberLaws counts (λ n. false)
unfolding is_whole read_unary unary counts
counts-NumberLaws = record {
  lld_starts = λ n. refl;
  g_starts = λ p n f. refl;
  lld_reads = λ n rest w z d. read_unary_lem n rest d;
  g_reads = λ p n rest f d.
      read_unary_lem n rest d ∙ ap (λ (k : ℕ). (k, rest)) (sym (read_unary_alone n));
  g_exact = λ n f. eq→== _ _ (read_unary_alone n);
  equals_same = λ a b e l. ground arith;
  hex_length = λ b l. refl;
  hex_reads = λ b l. refl;
  strtod_rest = λ t. count_ones_rest t;
}

-- {"a": [true, 2], "": {"\n": null}}
abbrev sample : Value ℕ
sample = object (
    field (codes "a") (array (item (boolean true) (item (number 2) no_items)))
      (field [] (object (field (b'\n' ∷ []) null no_fields)) no_fields))

sample_compact : dump counts 0 sample ≡ codes "{\"a\":[true,111],\"\":{\"\\n\":null}}"
unfolding dump escape_byte unary counts
sample_compact = refl

sample-IsPlain : IsPlain counts (λ n. false) sample
unfolding IsPlain counts
sample-IsPlain = ground arith

parse-dump_example : parse counts (dump counts 2 sample) ≡ ok sample
parse-dump_example = parse-dump counts (λ n. false) counts-NumberLaws sample 2 sample-IsPlain

parse-ne-out_of_fuel_example : parse counts (codes "[1, {") ≢ out_of_fuel
parse-ne-out_of_fuel_example =
    parse-ne-out_of_fuel counts counts-NumberLaws.strtod_rest (codes "[1, {")

parse-trailing_example : parse counts (dump counts 2 sample ++ codes "\n ]") ≡ trailing
unfolding skip_ws
parse-trailing_example =
    parse-trailing counts (λ n. false) counts-NumberLaws sample 2 (codes "\n ]") sample-IsPlain refl

find-set_key_example :
    find (codes "a") (set_key (codes "a") null sample) ≡ (elim (find (codes "a") sample) [
      | some w ↦ some w
      | none ↦ if equal (codes "a") (codes "a") then some null else none
    ])
find-set_key_example = find-set_key (codes "a") (codes "a") null (
    field (codes "a") (array (item (boolean true) (item (number 2) no_items)))
      (field [] (object (field (b'\n' ∷ []) null no_fields)) no_fields))

two_read : integer counts (codes "b") (pos 0) (set_key (codes "b") (number 2) sample) ≡ pos 2
unfolding integer find set_key counts
two_read = refl

-- The first failure, with the line where it was found.
bad_member : parse counts (codes "{\n\"a\" 1}") ≡ failed "expected ':'" (codes "1}")
unfolding parse eof
bad_member = refl

bad_line : line_of (codes "{\n\"a\" 1}") (codes "1}") ≡ 2
unfolding line_of
bad_line = refl
