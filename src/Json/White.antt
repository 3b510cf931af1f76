-- ===== src/Json/White.antt =====
-- src/util/json.cpp: the white space and separators that dump() writes, and how they are skipped.
use xrune.Base.{
  ℕ, zero, suc, ◌+◌, ◌*◌, ◌≡◌, ◌∙◌, refl, Bool, true, false, not, [], ◌∷◌, ◌++◌, ltb, length, arith,
  Bool-cases, inl, inr, lt→ltb, length-append,
}
use xrune.Json.{Text}
use xrune.Json.Numbers.{CNumbers, is_delimited}
use xrune.Json.Writer.{spaces, newline, colon, escape}
use xrune.Json.Reader.{is_space, skip_ws}

-- White space that dump() writes is skipped.
pub skip_ws-spaces : (n : ℕ) (ts : Text) → skip_ws (spaces n ++ ts) ≡ skip_ws ts
unfolding skip_ws
skip_ws-spaces zero ts = refl
skip_ws-spaces (suc n) ts = skip_ws-spaces n ts

pub skip_ws-newline : (indent : ℕ) (ts : Text) → skip_ws (newline indent ++ ts) ≡ skip_ws ts
unfolding skip_ws
skip_ws-newline zero ts = refl
skip_ws-newline (suc indent) ts = ground arith

-- A text that does not start with white space.
abbrev pub starts_solid : Text → Bool
starts_solid [] = true
starts_solid (b ∷ bs) = not (is_space b)

pub skip_ws_solid : (ts : Text) → starts_solid ts ≡ true → skip_ws ts ≡ ts
unfolding skip_ws
skip_ws_solid [] h = refl
skip_ws_solid (b ∷ bs) h = ground arith

pub skip_ws_idem : (ts : Text) → skip_ws (skip_ws ts) ≡ skip_ws ts
unfolding skip_ws
skip_ws_idem [] = refl
skip_ws_idem (b ∷ bs) = elim (Bool-cases (is_space b)) [
  | inl h ↦ rw h (skip_ws_idem bs)
  | inr h ↦ rw h (rw h refl)
]

-- The text behind white space that dump() writes before an item or member.
pub skip_lead :
    (indent n : ℕ) (ts : Text) → skip_ws (newline indent ++ (spaces n ++ ts)) ≡ skip_ws ts
skip_lead indent n ts = skip_ws-newline indent (spaces n ++ ts) ∙ skip_ws-spaces n ts

-- What dump() writes behind the last item or member.
pub delimited_end :
    (indent depth b : ℕ) (rest : Text)
    → is_delimited (b ∷ rest) ≡ true
    → is_delimited (newline indent ++ (spaces (indent * depth) ++ (b ∷ rest))) ≡ true
delimited_end zero depth b rest h = let e : 0 * depth ≡ 0 = omega arith in rw e h
delimited_end (suc indent) depth b rest h = rw (lt→ltb 0 (suc indent) (omega arith)) refl

pub skip_end :
    (indent depth b : ℕ) (rest : Text)
    → is_space b ≡ false
    → skip_ws (newline indent ++ (spaces (indent * depth) ++ (b ∷ rest))) ≡ b ∷ rest
skip_end indent depth b rest h =
    skip_ws-newline indent (spaces (indent * depth) ++ (b ∷ rest))
    ∙ skip_ws-spaces (indent * depth) (b ∷ rest)
    ∙ skip_ws_solid (b ∷ rest) (ground arith)

pub skip_colon :
    (indent : ℕ) (z : Text)
    → (t : Text) × (skip_ws (colon indent ++ z) ≡ b':' ∷ t) × (skip_ws t ≡ skip_ws z)
unfolding skip_ws
skip_colon indent z = elim (Bool-cases (ltb 0 indent)) [
  | inl h ↦ rw h (b' ' ∷ z, refl, refl)
  | inr h ↦ rw h (z, refl, refl)
]

pub length_text : (xs ys : Text) → length (xs ++ ys) ≡ length xs + length ys
length_text = length-append

module _ {D : Type 0} (c : CNumbers D) where
  pub skip_quote : (n : ℕ) (k z : Text) → skip_ws (spaces n ++ (escape c k ++ z)) ≡ escape c k ++ z
  unfolding escape
  skip_quote n k z = skip_ws-spaces n (escape c k ++ z) ∙ unfold skip_ws in refl
