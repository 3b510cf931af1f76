-- ===== src/Lang/Lexer.antt =====
-- include/xrune/lang/parser/lexer.hpp. The lexer's place in the source is the text that is left, with
-- its line and column; cur() is 0 at the end, as it is at a NUL byte.
pub mod Scan
pub mod Cursor
use xrune.Base.{
  ℕ, zero, suc, ◌+◌, ◌-◌, Bool, true, false, not, ◌&&◌, ◌||◌, Option, none, some, List, [], ◌∷◌,
  ◌++◌, ◌==◌, ltb, leb, if◌then◌else◌, length, ◌>>=◌,
}
use xrune.Json.{Text, codes, equal}
use xrune.Json.Numbers.{is_digit}
use xrune.Lang.Token.{Tok, Token, Diagnostic, continues_line, same}

abbrev pub is_alpha : ℕ → Bool
is_alpha b = leb b'a' b && leb b b'z' || leb b'A' b && leb b b'Z'

abbrev pub is_alnum : ℕ → Bool
is_alnum b = is_alpha b || is_digit b

abbrev pub is_xdigit : ℕ → Bool
is_xdigit b = is_digit b || leb b'a' b && leb b b'f' || leb b'A' b && leb b b'F'

pub record LexState : Type 0 where
  pub rest : Text
  pub line : ℕ
  pub col : ℕ
  pub bracket_depth : ℕ
  pub last : Tok
  pub diags : List Diagnostic

abbrev pub head_or_nul : Text → ℕ
head_or_nul [] = 0
head_or_nul (b ∷ bs) = b

abbrev pub drop_one : Text → Text
drop_one [] = []
drop_one (b ∷ bs) = bs

abbrev pub cur : LexState → ℕ
cur s = head_or_nul s.rest

abbrev pub peek : LexState → ℕ
peek s = head_or_nul (drop_one s.rest)

abbrev pub at_end : LexState → Bool
at_end s = length s.rest == 0

-- At the end of the source this changes nothing.
unfoldable pub advance : LexState → LexState
advance s = record s {
  rest = drop_one s.rest;
  line = if cur s == b'\n' then s.line + 1 else s.line;
  col = if at_end s then s.col else if cur s == b'\n' then 1 else s.col + 1;
}

abbrev pub report : Text → ℕ → ℕ → LexState → LexState
report m l c s = record s { diags = s.diags ++ record { message = m; line = l; col = c } ∷ [] }

-- while (test(cur())) advance(), for a test that fails on 0.
unfoldable pub run_over : (ℕ → Bool) → Text → LexState → LexState
unfolding advance
run_over test [] s = s
run_over test (b ∷ bs) s = let more = run_over test bs (advance s) in if test b then more else s

abbrev pub advance_while : (ℕ → Bool) → LexState → LexState
advance_while test s = run_over test s.rest s

-- The text that such a loop goes over.
unfoldable pub take_while : (ℕ → Bool) → Text → Text
take_while test [] = []
take_while test (b ∷ bs) = if test b then b ∷ take_while test bs else []

-- while (cur() && !(cur() == '*' && peek() == '/')) advance()
unfoldable pub run_comment : Text → LexState → LexState
unfolding advance
run_comment [] s = s
run_comment (b ∷ bs) s =
    let more = run_comment bs (advance s) in
    if b == 0 || b == b'*' && head_or_nul bs == b'/' then s else more

-- What the first loop of next() comes to: a token, or the start of one.
pub data Skipped : Type 0 where
  newline_at : ℕ → ℕ → LexState → Skipped
  unterminated : LexState → Skipped
  token_at : LexState → Skipped

unfoldable pub skip_blanks : ℕ → LexState → Option Skipped
unfolding advance run_over run_comment continues_line
skip_blanks zero s = none
skip_blanks (suc f) s =
    let s₁ = advance s in
    let behind_newline = skip_blanks f s₁ in
    let behind_line = skip_blanks f (advance_while (λ b. not (b == 0) && not (b == b'\n')) s) in
    let s₂ = run_comment (drop_one (drop_one s.rest)) (advance s₁) in
    let behind_comment = skip_blanks f (advance (advance s₂)) in
    if cur s == b'\n'
    then (if ltb 0 s.bracket_depth || continues_line s.last
        then behind_newline
        else some (newline_at s.line s.col s₁))
    else if cur s == b' ' || cur s == b'\t' || cur s == b'\r'
    then behind_newline
    else if cur s == b'/' && peek s == b'/'
    then behind_line
    else if cur s == b'/' && peek s == b'*'
    then (if cur s₂ == 0
        then some (unterminated (report (codes "unterminated block comment") s.line s.col s₂))
        else behind_comment)
    else some (token_at s)

unfoldable pub keyword : Text → Tok
unfolding equal
keyword text =
    if equal text (codes "rune")
    then Tok.kw_rune
    else if equal text (codes "sigil")
    then Tok.kw_sigil
    else if equal text (codes "end")
    then Tok.kw_end
    else if equal text (codes "input")
    then Tok.kw_input
    else if equal text (codes "out")
    then Tok.kw_out
    else if equal text (codes "as")
    then Tok.kw_as
    else if equal text (codes "true")
    then Tok.kw_true
    else if equal text (codes "false")
    then Tok.kw_false
    else Tok.ident
