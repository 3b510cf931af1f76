-- ===== src/Lang/Lexer/Scan/Taken.antt =====
-- include/xrune/lang/parser/lexer.hpp: what a call of next() takes of the source.
use xrune.Base.{
  ℕ, ◌<◌, ◌≡◌, refl, subst, Bool, true, false, ◌&&◌, ◌||◌, [], ◌∷◌, ◌==◌, if◌then◌else◌, ◌⊎◌, arith,
  if_holds, Bool-cases, inl, inr,
}
use xrune.Json.{Text, codes}
use xrune.Json.Numbers.{is_digit}
use xrune.Lang.Token.{Tok, Token, same}
use xrune.Lang.Lexer.{
  LexState, head_or_nul, is_alpha, is_alnum, is_xdigit, cur, peek, at_end, advance, advance_while,
  run_over,
}
use xrune.Lang.Lexer.Cursor.{
  left, Forward, Forward-refl, Forward-trans, advance-Forward, advance_lt, run_over-Forward,
  advance_while_lt,
}
use xrune.Lang.Lexer.Scan.{between, number_end, ident_end, string_chars, string_token, token}
use xrune.Lang.Lexer.Scan.Shape.{
  Takes, IsFlat, Forward-Takes, keyword-IsFlat, operator-Takes, string_chars-Forward,
  report-Forward,
}

digits-Forward : (s : LexState) → Forward s (advance_while is_digit s)
digits-Forward s = run_over-Forward is_digit s.rest s

exponent-Forward :
    (s : LexState)
    → Forward s (
        if cur s == b'e' || cur s == b'E'
        then advance_while is_digit (
            if cur (advance s) == b'+' || cur (advance s) == b'-'
            then advance (advance s)
            else advance s)
        else s)
exponent-Forward s =
    let one = advance s in
    let signed = if cur one == b'+' || cur one == b'-' then advance one else one in
    let over : Forward one signed =
      if_holds (Forward one) (cur one == b'+' || cur one == b'-') (advance one) one
        (λ e. advance-Forward one) λ e. Forward-refl one in
    if_holds (Forward s) (cur s == b'e' || cur s == b'E') _ s
      (λ e.
        Forward-trans s one (advance_while is_digit signed) (advance-Forward s)
          (Forward-trans one signed (advance_while is_digit signed) over (digits-Forward signed)))
      λ e. Forward-refl s

-- Moving on by at least a byte.
pub record Past (s s' : LexState) : Type 0 where
  pub forward : Forward s s'
  pub shorter : left s' < left s

Past-trans : (s t u : LexState) → Past s t → Forward t u → Past s u
Past-trans s t u a b = record {
  forward = Forward-trans s t u a.forward b;
  shorter = omega (arith, a.shorter, b.fewer);
}

run_over_none :
    (test : ℕ → Bool) (ts : Text) (s : LexState)
    → s.rest ≡ ts
    → test (cur s) ≡ false
    → run_over test ts s ≡ s
unfolding run_over
run_over_none test [] s e h = refl
run_over_none test (b ∷ bs) s e h = rw (subst (λ ts. test (head_or_nul ts) ≡ false) e h) refl

dot_read :
    (digit dot behind : Bool) → (digit || dot && behind) ≡ true → digit ≡ false → dot ≡ false → ⊥
dot_read true dot behind h d e = cc
dot_read false true behind h d e = cc
dot_read false false behind h d e = cc

pub number_end-Past :
    (s : LexState)
    → (is_digit (cur s) || cur s == b'.' && is_digit (peek s)) ≡ true
    → Past s (number_end s)
unfolding number_end
number_end-Past s h =
    let one = advance s in
    let two = advance one in
    let whole = advance_while is_digit s in
    let dotted = advance_while is_digit (advance whole) in
    let fraction = if cur whole == b'.' then dotted else whole in
    let seen : (cur s == 0) ≡ false = ground arith in
    let first : Past s one = record { forward = advance-Forward s; shorter = advance_lt s seen } in
    let over = digits-Forward s in
    let over_dot : Forward (advance whole) dotted = digits-Forward (advance whole) in
    let fraction-Past : Past s fraction =
      if_holds (Past s) (cur whole == b'.') dotted whole
        (λ e. record {
          forward =
              Forward-trans s whole dotted over
                (Forward-trans whole (advance whole) dotted (advance-Forward whole) over_dot);
          shorter = omega (arith, over.fewer, advance_lt whole (ground arith), over_dot.fewer);
        })
        λ e. elim (Bool-cases (is_digit (cur s))) [
          | inl digit ↦ record { forward = over; shorter = advance_while_lt is_digit s digit refl }
          | inr other ↦
              let same_place = run_over_none is_digit s.rest s refl other in
              elim (dot_read (is_digit (cur s)) (cur s == b'.') (is_digit (peek s)) h other
                (subst (λ t. (cur t == b'.') ≡ false) same_place e)) [ ]
        ] in
    if_holds (Past s) (cur s == b'0' && (peek s == b'x' || peek s == b'X')) _ _
      (λ e. Past-trans s one (advance_while is_xdigit two) first (
        Forward-trans one two (advance_while is_xdigit two) (advance-Forward one)
          (run_over-Forward is_xdigit two.rest two)))
      λ e. Past-trans s fraction _ fraction-Past (exponent-Forward fraction)

ident_end-Past : (s : LexState) → (is_alpha (cur s) || cur s == b'_') ≡ true → Past s (ident_end s)
unfolding ident_end
ident_end-Past s h = record {
  forward = run_over-Forward (λ b. is_alnum b || b == b'_') s.rest s;
  shorter = advance_while_lt (λ b. is_alnum b || b == b'_') s (ground arith) refl;
}

string_token-Past : (s : LexState) → (cur s == b'"') ≡ true → Past s (string_token s).1
unfolding string_token
string_token-Past s h =
    let s₁ = advance s in
    let s₂ = (string_chars s.line s.col s₁.rest [] s₁).1 in
    let first : Past s s₁ = record {
      forward = advance-Forward s;
      shorter = advance_lt s (ground arith);
    } in
    let to_end = Past-trans s s₁ s₂ first (string_chars-Forward s.line s.col s₁.rest [] s₁) in
    if_holds (Past s) (cur s₂ == b'"') (advance s₂) _
      (λ e. Past-trans s s₂ (advance s₂) to_end (advance-Forward s₂))
      λ e. Past-trans s s₂ _ to_end (report-Forward (codes "unterminated string") s.line s.col s₂)

Past-Takes : (s s' : LexState) (k : Tok) → Past s s' → IsFlat k → Takes s k s'
Past-Takes s s' k a flat = Forward-Takes s s' k a.forward a.shorter flat

-- What a token can be: the end, at the end of the source, or something taken.
abbrev pub Given : {D : Type 0} → LexState → Token D × LexState → Type 0
Given s (t, s') = (t.kind ≡ Tok.end) ⊎ Takes s t.kind s'

pub token-Given :
    {D : Type 0} (zero_value : D) (strtod : Text → D) (s : LexState)
    → Given s (token zero_value strtod s)
unfolding token same
token-Given zero_value strtod s =
    let P = Given s in
    if_holds P (at_end s) _ _ (λ e. inl refl)
      λ some_left.
        if_holds P (is_digit (cur s) || cur s == b'.' && is_digit (peek s)) _ _
          (λ e. inr (
            Past-Takes s (number_end s) Tok.number (number_end-Past s e)
              (record { not_end = refl; not_newline = refl; same_depth = λ d. refl })))
          λ e₁.
            if_holds P (is_alpha (cur s) || cur s == b'_') _ _
              (λ e. inr (
                Past-Takes s (ident_end s) _ (ident_end-Past s e)
                  (keyword-IsFlat (between s (ident_end s)))))
              λ e₂.
                if_holds P (cur s == b'"') _ _
                  (λ e. inr (
                    Past-Takes s (string_token s).1 Tok.string (string_token-Past s e)
                      (record { not_end = refl; not_newline = refl; same_depth = λ d. refl })))
                  λ e₃. inr (operator-Takes s some_left)
