-- ===== src/Lang/Lexer/Scan.antt =====
-- include/xrune/lang/parser/lexer.hpp: the tokens themselves, next() and run(). `D` is double, and
-- strtod reads the number at the front of a text.
pub mod Shape
pub mod Taken
pub mod Spacing
use xrune.Base.{
  ℕ, zero, suc, ◌+◌, ◌-◌, Bool, true, false, not, ◌&&◌, ◌||◌, Option, none, some, List, [], ◌∷◌,
  ◌++◌, ◌==◌, ltb, leb, if◌then◌else◌, length, ◌>>=◌,
}
use xrune.Json.{Text, codes, equal}
use xrune.Json.Numbers.{is_digit}
use xrune.Lang.Token.{Tok, Token, Diagnostic, continues_line, same}
use xrune.Lang.Lexer.{
  LexState, Skipped, newline_at, unterminated, token_at, is_alpha, is_alnum, is_xdigit, cur, peek,
  at_end, advance, report, advance_while, run_over, skip_blanks, keyword, drop_one, run_comment,
}

abbrev pub take : ℕ → Text → Text
take zero bs = []
take (suc n) [] = []
take (suc n) (b ∷ bs) = b ∷ take n bs

-- src.substr(start, i - start), for the states at start and at i.
abbrev pub between : LexState → LexState → Text
between s s' = take (length s.rest - length s'.rest) s.rest

-- if (test(cur())) advance()
abbrev advance_if : (ℕ → Bool) → LexState → LexState
advance_if test s = if test (cur s) then advance s else s

abbrev digits : LexState → LexState
digits = advance_while is_digit

unfoldable pub number_end : LexState → LexState
unfolding advance run_over
number_end s =
    if cur s == b'0' && (peek s == b'x' || peek s == b'X')
    then advance_while is_xdigit (advance (advance s))
    else let whole = digits s in
      let fraction = if cur whole == b'.' then digits (advance whole) else whole in
      if cur fraction == b'e' || cur fraction == b'E'
      then digits (advance_if (λ b. b == b'+' || b == b'-') (advance fraction))
      else fraction

unfoldable pub ident_end : LexState → LexState
unfolding run_over
ident_end = advance_while (λ b. is_alnum b || b == b'_')

-- The loop of string(), for a string that began at line `l` and column `c`.
unfoldable mutual
  unfolding advance

  pub string_chars : ℕ → ℕ → Text → Text → LexState → Text × LexState
  string_chars l c [] acc s = (acc, s)
  string_chars l c (b ∷ bs) acc s =
      let escaped = string_escape l c bs acc (advance s) in
      let more = string_chars l c bs (acc ++ b ∷ []) (advance s) in
      if b == 0 || b == b'"'
      then (acc, s)
      else if b == b'\\' && not (peek s == 0)
      then escaped
      else if b == b'\n'
      then (acc, report (codes "unterminated string") l c s)
      else more

  pub string_escape : ℕ → ℕ → Text → Text → LexState → Text × LexState
  string_escape l c [] acc s = (acc, s)
  string_escape l c (e ∷ bs) acc s = string_chars l c bs (acc ++ e ∷ []) (advance s)

unfoldable pub string_token : LexState → Text × LexState
unfolding string_chars
string_token s =
    let s₁ = advance s in
    let (text, s₂) = string_chars s.line s.col s₁.rest [] s₁ in
    (
      text,
      if cur s₂ == b'"' then advance s₂ else report (codes "unterminated string") s.line s.col s₂,
    )

-- Kind and end of an operator, with the error that some starts give.
unfoldable pub operator : LexState → Tok × LexState
unfolding advance
operator s =
    let one = advance s in
    let two = advance one in
    let opened = record one { bracket_depth = s.bracket_depth + 1 } in
    let closed = record one { bracket_depth = s.bracket_depth - 1 } in
    let ch = cur s in
    if ch == b'<'
    then (if peek s == b':'
        then (Tok.split, two)
        else (Tok.unknown, report (codes "unexpected '<' (did you mean '<:' ?)") s.line s.col one))
    else if ch == b':'
    then (if peek s == b'>' then (Tok.merge, two) else (Tok.colon, one))
    else if ch == b'~'
    then (if peek s == b'>' then (Tok.modulate, two) else (Tok.tilde, one))
    else if ch == b'-'
    then (if peek s == b'>' then (Tok.arrow, two) else (Tok.minus, one))
    else if ch == b'('
    then (Tok.l_paren, opened)
    else if ch == b')'
    then (Tok.r_paren, closed)
    else if ch == b'['
    then (Tok.l_bracket, opened)
    else if ch == b']'
    then (Tok.r_bracket, closed)
    else if ch == b'='
    then (Tok.assign, one)
    else if ch == b','
    then (Tok.comma, one)
    else if ch == b'.'
    then (Tok.dot, one)
    else if ch == b'+'
    then (Tok.plus, one)
    else if ch == b'*'
    then (Tok.star, one)
    else if ch == b'/'
    then (Tok.slash, one)
    else if ch == b'%'
    then (Tok.percent, one)
    else if ch == b'!'
    then (Tok.bang, one)
    else (Tok.unknown, report (codes "unexpected character '" ++ ch ∷ codes "'") s.line s.col one)

-- out.empty() || out.back().kind == Tok::Newline
unfoldable pub at_line_start : Option Tok → Bool
unfolding same
at_line_start none = true
at_line_start (some k) = same k Tok.newline

module _ {D : Type 0} (zero_value : D) (strtod : Text → D) where
  abbrev make : Tok → ℕ → ℕ → Text → Token D
  make k l c text = record { kind = k; text = text; value = zero_value; line = l; col = c }

  -- The part of next() behind its first loop.
  unfoldable pub token : LexState → Token D × LexState
  unfolding number_end ident_end string_token operator keyword
  token s =
      let l = s.line in
      let c = s.col in
      let after_number = number_end s in
      let number_text = between s after_number in
      let after_ident = ident_end s in
      let ident_text = between s after_ident in
      let (string_text, after_string) = string_token s in
      let (kind, after_operator) = operator s in
      if at_end s
      then (make Tok.end l c [], s)
      else if is_digit (cur s) || cur s == b'.' && is_digit (peek s)
      then (record (make Tok.number l c number_text) { value = strtod number_text }, after_number)
      else if is_alpha (cur s) || cur s == b'_'
      then (make (keyword ident_text) l c ident_text, after_ident)
      else if cur s == b'"'
      then (make Tok.string l c string_text, after_string)
      else (make kind l c [], after_operator)

  unfoldable pub skipped_to : Skipped → Token D × LexState
  unfolding token
  skipped_to (newline_at l c s) = (make Tok.newline l c [], s)
  skipped_to (unterminated s) = (make Tok.end s.line s.col [], s)
  skipped_to (token_at s) = token s

  unfoldable pub next : LexState → Option (Token D × LexState)
  unfolding skip_blanks skipped_to
  next s = do r ← skip_blanks (length s.rest + 1) s; some (skipped_to r)

  -- The loop of run(): `back` is the kind of out.back(), if out is not empty. `none` means that the
  -- fuel ran out.
  unfoldable pub run_loop : ℕ → Option Tok → LexState → Option (List (Token D) × List Diagnostic)
  unfolding next same at_line_start
  run_loop zero back s = none
  run_loop (suc f) back s = next s >>= λ (t, s').
      let dropped = run_loop f back s' in
      let more =
        run_loop f (some t.kind)
          (if same t.kind Tok.newline then s' else record s' { last = t.kind }) in
      if same t.kind Tok.newline && at_line_start back
      then dropped
      else if same t.kind Tok.end
      then some (t ∷ [], s'.diags)
      else more >>= λ (ts, diags). some (t ∷ ts, diags)

  -- lex(): each token takes a byte, but for the last.
  unfoldable pub lex : Text → List Diagnostic → Option (List (Token D) × List Diagnostic)
  unfolding run_loop
  lex src diags = run_loop (length src + 1) none (record {
    rest = src;
    line = 1;
    col = 1;
    bracket_depth = 0;
    last = Tok.newline;
    diags = diags;
  })
