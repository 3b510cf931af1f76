-- ===== src/Json/Fuel.antt =====
-- src/util/json.cpp: the fuel of parse(), and what it takes off the text.
use Prim.Native.String.{String}
use xrune.Base.{
  ℕ, zero, suc, ◌+◌, ◌*◌, ◌%◌, ◌^◌, ◌≤◌, ◌<◌, ◌≡◌, ◌≢◌, refl, Bool, true, false, [], ◌∷◌, ◌++◌,
  ◌==◌, if◌then◌else◌, length, arith, subst, some, none, Option,
}
use xrune.Json.{
  Text, null_text, true_text, false_text, Value, Fields, null, boolean, number, array, object,
  no_items, no_fields,
}
use xrune.Json.Numbers.{CNumbers, starts_number}
use xrune.Json.Reader.{
  Result, ok, failed, trailing, out_of_fuel, ◌>>=◌, skip_ws, at, eof, tail, expect, strip, literal,
  unescape, encode, prefixed, parse_chars, parse_escape, parse_unicode, parse_string, parse_number,
  parse_value, parse_object, parse_members, parse_array, parse_elements, parse,
}

-- The parser did not run out of fuel, and its result has the property if there is one.
abbrev pub Ends : {A : Type 0} → (A → Type 0) → Result A → Type 0
Ends P (ok a) = P a
Ends P (failed msg rest) = Unit {0}
Ends P trailing = Unit {0}
Ends P out_of_fuel = ⊥

pub Ends-bind :
    {A B : Type 0} (P : A → Type 0) (Q : B → Type 0) (m : Result A) (f : A → Result B)
    → Ends P m
    → ((a : A) → P a → Ends Q (f a))
    → Ends Q (m >>= f)
Ends-bind P Q (ok a) f h k = k a h
Ends-bind P Q (failed msg rest) f h k = tt
Ends-bind P Q trailing f h k = tt
Ends-bind P Q out_of_fuel f h k = elim h [ ]

Ends-if :
    {A : Type 0} (P : A → Type 0) (b : Bool) (x y : Result A)
    → (b ≡ true → Ends P x)
    → (b ≡ false → Ends P y)
    → Ends P (if b then x else y)
Ends-if P true x y h k = h refl
Ends-if P false x y h k = k refl

Ends-Option :
    {A B : Type 0} (P : A → Type 0) (o : Option B) (x : Result A) (f : B → Result A)
    → (o ≡ none → Ends P x)
    → ((b : B) → o ≡ some b → Ends P (f b))
    → Ends P (elim o [ none ↦ x | some b ↦ f b ])
Ends-Option P none x f h k = h refl
Ends-Option P (some b) x f h k = k b refl

-- At most `n` bytes are left.
abbrev Left : {A : Type 0} → ℕ → A × Text → Type 0
Left n (a, rest) = length rest ≤ n

pub length-skip_ws : (ts : Text) → length (skip_ws ts) ≤ length ts
unfolding skip_ws
length-skip_ws [] = omega arith
length-skip_ws (b ∷ bs) = ground (arith, length-skip_ws bs)

length-tail : (b : ℕ) (ts : Text) → at b ts ≡ true → suc (length (tail ts)) ≡ length ts
unfolding at
length-tail b [] h = cc
length-tail b (x ∷ xs) h = refl

expect-Ends :
    (b : ℕ) (msg : String) (ts : Text)
    → Ends (λ rest. suc (length rest) ≤ length ts) (expect b msg ts)
unfolding expect
expect-Ends b msg ts =
    Ends-if (λ rest. suc (length rest) ≤ length ts) (at b ts) (ok (tail ts)) (failed msg ts)
      (λ h. omega (arith, length-tail b ts h)) (λ h. tt)

length-strip :
    (lit ts rest : Text) → strip lit ts ≡ some rest → length rest + length lit ≡ length ts
unfolding strip
length-strip [] ts rest e = ground arith
length-strip (b ∷ bs) [] rest e = cc
length-strip (b ∷ bs) (x ∷ xs) rest e = ground (arith, length-strip bs xs rest)

literal-Ends :
    (lit : Text) (msg : String) (ts : Text)
    → Ends (λ rest. length rest + length lit ≤ length ts) (literal lit msg ts)
unfolding literal
literal-Ends lit msg ts =
    Ends-Option (λ rest. length rest + length lit ≤ length ts) (strip lit ts) (failed msg ts) ok
      (λ e. tt) (λ rest e. omega (arith, length-strip lit ts rest e))

Ends-weaken :
    {A : Type 0} (n m : ℕ) (r : Result (A × Text)) → n ≤ m → Ends (Left n) r → Ends (Left m) r
Ends-weaken n m (ok (a, rest)) h e = omega arith
Ends-weaken n m (failed msg rest) h e = tt
Ends-weaken n m trailing h e = tt
Ends-weaken n m out_of_fuel h e = e

prefixed-Ends :
    (n m : ℕ) (bytes : Text) (r : Result (Text × Text))
    → n ≤ m
    → Ends (Left n) r
    → Ends (Left m) (prefixed bytes r)
prefixed-Ends n m bytes r h e =
    Ends-bind (Left n) (Left m) r (λ (s, rest). ok (bytes ++ s, rest)) e λ (s, rest) l. omega arith

finish-Ends :
    {D : Type 0} (v : Value D) (ts : Text)
    → Ends (λ (v : Value D). Unit {0}) (elim ts [ [] ↦ ok v | b ∷ bs ↦ trailing ])
finish-Ends v [] = tt
finish-Ends v (b ∷ bs) = tt

module _ {D : Type 0} (c : CNumbers D) where
  mutual
    unfolding parse_chars

    chars-Ends : (ts : Text) → Ends (Left (length ts)) (parse_chars c ts)
    chars-Ends [] = tt
    chars-Ends (b ∷ bs) =
        let P = Left {A = Text} (suc (length bs)) in
        let plain = prefixed (b ∷ []) (parse_chars c bs) in
        Ends-if P (b == b'"') (ok ([], bs)) (if b == b'\\' then parse_escape c bs else plain)
          (λ h. omega arith)
          λ h.
            Ends-if P (b == b'\\') (parse_escape c bs) plain (λ k. escape-Ends_le bs)
              λ k.
                prefixed-Ends (length bs) (suc (length bs)) (b ∷ []) (parse_chars c bs)
                  (omega arith) (chars-Ends bs)

    escape-Ends_le : (ts : Text) → Ends (Left (suc (length ts))) (parse_escape c ts)
    escape-Ends_le [] = tt
    escape-Ends_le (e ∷ bs) =
        let P = Left {A = Text} (suc (suc (length bs))) in
        Ends-Option P (unescape e)
          (if e == b'u' then parse_unicode c bs else failed "invalid escape" bs)
          (λ b. prefixed (b ∷ []) (parse_chars c bs))
          (λ h.
            Ends-if P (e == b'u') (parse_unicode c bs) (failed "invalid escape" bs)
              (λ k. unicode-Ends (suc (suc (length bs))) bs (omega arith)) (λ k. tt))
          λ b h.
            prefixed-Ends (length bs) (suc (suc (length bs))) (b ∷ []) (parse_chars c bs)
              (omega arith) (chars-Ends bs)

    unicode-Ends : (n : ℕ) (ts : Text) → length ts ≤ n → Ends (Left n) (parse_unicode c ts)
    unicode-Ends n [] l = tt
    unicode-Ends n (h ∷ []) l = tt
    unicode-Ends n (h ∷ i ∷ []) l = tt
    unicode-Ends n (h ∷ i ∷ j ∷ []) l = tt
    unicode-Ends n (h ∷ i ∷ j ∷ k ∷ bs) l =
        prefixed-Ends (length bs) n (encode (c.strtoul16 (h ∷ i ∷ j ∷ k ∷ []) % 2 ^ 32))
          (parse_chars c bs) (omega arith) (chars-Ends bs)

  string-Ends : (ts : Text) → Ends (Left (length ts)) (parse_string c ts)
  unfolding parse_string
  string-Ends ts =
      Ends-bind (λ rest. suc (length rest) ≤ length ts) (Left (length ts))
        (expect b'"' "expected string" ts) (parse_chars c) (expect-Ends b'"' "expected string" ts)
        λ rest l.
          Ends-weaken (length rest) (length ts) (parse_chars c rest) (omega arith) (chars-Ends rest)

  module _ (strtod_rest : (t : Text) → length (c.strtod t).1 ≤ length t) where
    word-Ends :
        (ts u lit : Text) (msg : String) (v : Value D)
        → length u ≤ length ts
        → Ends (Left (length ts)) (literal lit msg u >>= λ rest. ok (v, rest))
    word-Ends ts u lit msg v h =
        Ends-bind (λ rest. length rest + length lit ≤ length u) (Left (length ts))
          (literal lit msg u) _ (literal-Ends lit msg u) λ rest l. omega arith

    number-Ends : (ts : Text) → Ends (Left (length ts)) (parse_number c ts)
    unfolding parse_number
    number-Ends ts =
        Ends-if (Left (length ts)) (length (c.strtod ts).1 == length ts) (failed "bad number" ts)
          (ok (number (c.strtod ts).0, (c.strtod ts).1)) (λ h. tt) (λ h. strtod_rest ts)

    mutual
      unfolding parse_value

      value-Ends :
          (f : ℕ) (ts : Text) → 3 * length ts < f → Ends (Left (length ts)) (parse_value c f ts)
      value-Ends zero ts h = elim h [ ]
      value-Ends (suc f) ts h =
          let u = skip_ws ts in
          let shorter = length-skip_ws ts in
          let P = Left {A = Value D} (length ts) in
          let inner = length-skip_ws (tail u) in
          Ends-if P (eof u) _ _ (λ e. tt)
            λ e₀.
              Ends-if P (at b'{' u) _ _
                (λ e.
                  Ends-weaken _ (length ts) _ (omega (arith, length-tail b'{' u e))
                    (object-Ends f (skip_ws (tail u)) (omega (arith, length-tail b'{' u e))))
                λ e₁.
                  Ends-if P (at b'[' u) _ _
                    (λ e.
                      Ends-weaken _ (length ts) _ (omega (arith, length-tail b'[' u e))
                        (array-Ends f (skip_ws (tail u)) (omega (arith, length-tail b'[' u e))))
                    λ e₂.
                      Ends-if P (at b'"' u) _ _
                        (λ e.
                          Ends-bind (Left (length u)) P _ _ (string-Ends u)
                            λ (s, rest) l. omega arith)
                        λ e₃.
                          Ends-if P (at b't' u) _ _
                            (λ e. word-Ends ts u true_text "expected 'true'" (boolean true) shorter)
                            λ e₄.
                              Ends-if P (at b'f' u) _ _
                                (λ e.
                                  word-Ends ts u false_text "expected 'false'" (boolean false)
                                    shorter)
                                λ e₅.
                                  Ends-if P (at b'n' u) _ _
                                    (λ e. word-Ends ts u null_text "expected 'null'" null shorter)
                                    λ e₆.
                                      Ends-if P (starts_number u) _ _
                                        (λ e.
                                          Ends-weaken (length u) (length ts) _ shorter
                                            (number-Ends u))
                                        (λ e. tt)

      object-Ends :
          (f : ℕ) (ts : Text)
          → 3 * length ts + 2 < f
          → Ends (Left (length ts)) (parse_object c f ts)
      object-Ends zero ts h = elim h [ ]
      object-Ends (suc f) ts h =
          Ends-if (Left (length ts)) (at b'}' ts) (ok (object no_fields, tail ts)) _
            (λ e. omega (arith, length-tail b'}' ts e))
            λ e.
              Ends-bind (Left (length ts)) (Left (length ts)) (parse_members c f ts) _
                (members-Ends f ts (omega arith)) λ (fs, rest) l. l

      members-Ends :
          (f : ℕ) (ts : Text)
          → 3 * length ts + 1 < f
          → Ends (Left (length ts)) (parse_members c f ts)
      members-Ends zero ts h = elim h [ ]
      members-Ends (suc f) ts h =
          let P = Left {A = Fields D} (length ts) in
          let start = length-skip_ws ts in
          Ends-bind (Left (length (skip_ws ts))) P _ _ (string-Ends (skip_ws ts)) λ (key, t₁) l₁.
            let gap = length-skip_ws t₁ in
            Ends-bind (λ rest. suc (length rest) ≤ length (skip_ws t₁)) P _ _
              (expect-Ends b':' "expected ':'" (skip_ws t₁))
              λ t₂ l₂.
                Ends-bind (Left (length t₂)) P _ _ (value-Ends f t₂ (omega arith)) λ (v, t₃) l₃.
                  let u = skip_ws t₃ in
                  let shorter = length-skip_ws t₃ in
                  Ends-if P (at b',' u) _ _
                    (λ e.
                      Ends-bind (Left (length (tail u))) P (parse_members c f (tail u)) _
                        (members-Ends f (tail u) (omega (arith, length-tail b',' u e)))
                        λ (fs, rest) k. omega (arith, length-tail b',' u e))
                    λ e.
                      Ends-if P (at b'}' u) _ _ (λ e'. omega (arith, length-tail b'}' u e'))
                        (λ e'. tt)

      array-Ends :
          (f : ℕ) (ts : Text) → 3 * length ts + 2 < f → Ends (Left (length ts)) (parse_array c f ts)
      array-Ends zero ts h = elim h [ ]
      array-Ends (suc f) ts h =
          Ends-if (Left (length ts)) (at b']' ts) (ok (array no_items, tail ts)) _
            (λ e. omega (arith, length-tail b']' ts e))
            λ e.
              Ends-bind (Left (length ts)) (Left (length ts)) (parse_elements c f ts) _
                (elements-Ends f ts (omega arith)) λ (xs, rest) l. l

      elements-Ends :
          (f : ℕ) (ts : Text)
          → 3 * length ts + 1 < f
          → Ends (Left (length ts)) (parse_elements c f ts)
      elements-Ends zero ts h = elim h [ ]
      elements-Ends (suc f) ts h =
          Ends-bind (Left (length ts)) (Left (length ts)) (parse_value c f ts) _
            (value-Ends f ts (omega arith))
            λ (v, t) l.
              let u = skip_ws t in
              let shorter = length-skip_ws t in
              Ends-if (Left (length ts)) (at b',' u) _ _
                (λ e.
                  Ends-bind (Left (length (tail u))) (Left (length ts))
                    (parse_elements c f (tail u)) _
                    (elements-Ends f (tail u) (omega (arith, length-tail b',' u e)))
                    λ (xs, rest) k. omega (arith, length-tail b',' u e))
                λ e.
                  Ends-if (Left (length ts)) (at b']' u) _ _
                    (λ e'. omega (arith, length-tail b']' u e')) (λ e'. tt)

    -- parse() ends on every text: no text uses up its fuel.
    pub parse-ne-out_of_fuel : (src : Text) → parse c src ≢ out_of_fuel
    unfolding parse
    parse-ne-out_of_fuel src e =
        let whole =
          Ends-bind (Left (length src)) (λ (v : Value D). Unit {0})
            (parse_value c (3 * length src + 1) src) _
            (value-Ends (3 * length src + 1) src (omega arith))
            λ (v, rest) l. finish-Ends v (skip_ws rest) in
        subst (Ends (λ (v : Value D). Unit {0})) e whole
