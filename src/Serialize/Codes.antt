-- ===== src/Serialize/Codes.antt =====
-- A std::string of src/serialize.cpp as a String of the blueprint, and as its bytes.
use Prim.Native.Nat.{Ordering, compare}
use Prim.Native.Char.{Char, char, code, nul, IsLt, IsScalar}
use Prim.Native.String.{String}
use xrune.Base.{ℕ, ◌≡◌, refl, ap, Option, none, some, [], ◌∷◌}
use mathlib.Core.Path.{ap₂}
use xrune.Json.{Text, codes}

-- `IsScalar` is three comparisons under these two.
abbrev Both : Ordering → Ordering → Type 0
Both Ordering.lt o = IsLt o
Both Ordering.eq _ = ⊥
Both Ordering.gt _ = ⊥

abbrev Scalar : Ordering → Ordering → Ordering → Type 0
Scalar Ordering.lt _ _ = Unit
Scalar Ordering.eq o p = Both o p
Scalar Ordering.gt o p = Both o p

abbrev lt? : (o : Ordering) → Option (IsLt o)
lt? Ordering.lt = some tt
lt? Ordering.eq = none
lt? Ordering.gt = none

abbrev Both? : (o p : Ordering) → Option (Both o p)
Both? Ordering.lt p = lt? p
Both? Ordering.eq p = none
Both? Ordering.gt p = none

abbrev Scalar? : (o p q : Ordering) → Option (Scalar o p q)
Scalar? Ordering.lt p q = some tt
Scalar? Ordering.eq p q = Both? p q
Scalar? Ordering.gt p q = Both? p q

lt?-some : (o : Ordering) (h : IsLt o) → lt? o ≡ some h
lt?-some Ordering.lt h = refl
lt?-some Ordering.eq h = elim h [ ]
lt?-some Ordering.gt h = elim h [ ]

Both?-some : (o p : Ordering) (h : Both o p) → Both? o p ≡ some h
Both?-some Ordering.lt p h = lt?-some p h
Both?-some Ordering.eq p h = elim h [ ]
Both?-some Ordering.gt p h = elim h [ ]

Scalar?-some : (o p q : Ordering) (h : Scalar o p q) → Scalar? o p q ≡ some h
Scalar?-some Ordering.lt p q h = refl
Scalar?-some Ordering.eq p q h = Both?-some p q h
Scalar?-some Ordering.gt p q h = Both?-some p q h

abbrev scalar_of : (n : ℕ) → Option (IsScalar n)
scalar_of n = Scalar? (compare n 55296) (compare 57343 n) (compare n 1114112)

abbrev char_or_nul : (n : ℕ) → Option (IsScalar n) → Char
char_or_nul n none = nul
char_or_nul n (some h) = char n h

-- The character of a number, or U+0000 where there is none.
unfoldable pub char_of : ℕ → Char
char_of n = char_or_nul n (scalar_of n)

char_of-code : (c : Char) → char_of (code c) ≡ c
unfolding char_of
char_of-code (char n h) =
    let e = Scalar?-some (compare n 55296) (compare 57343 n) (compare n 1114112) h in
    ap (char_or_nul n) e

unfoldable pub decode : Text → String
unfolding char_of
decode [] = ""
decode (b ∷ bs) = String.◌∷◌ (char_of b) (decode bs)

pub decode-codes : (s : String) → decode (codes s) ≡ s
unfolding decode
decode-codes String.[] = refl
decode-codes (String.◌∷◌ c s) = ap₂ String.◌∷◌ (char_of-code c) (decode-codes s)
