-- ===== src/Lang/Parser.antt =====
-- include/xrune/lang/parser/parser.hpp: the token helpers, and what needs no recursion. The place in
-- the tokens is the token at hand and those behind it.
pub mod Expressions
pub mod Statements
pub mod Progress
pub mod Enough
pub mod Ending
pub mod Total
pub mod Written
pub mod Reading
pub mod Precedence
pub mod Grouping
use xrune.Base.{
  ℕ, zero, suc, ◌+◌, ℤ, pos, negsuc, Bool, true, false, not, ◌&&◌, ◌||◌, Option, none, some, List,
  [], ◌∷◌, ◌++◌, ◌==◌, ltb, if◌then◌else◌, length, ◌>>=◌,
}
use xrune.Json.{Text, codes}
use xrune.Lang.Token.{Tok, Token, Diagnostic, same, tok_name}

-- What the parser uses of doubles: conversions to and from int, and ==.
pub record CDoubles (D : Type 0) : Type 0 where
  pub zero_value : D
  pub strtod : Text → D
  pub to_int : D → ℤ
  pub of_int : ℤ → D
  pub equals : D → D → Bool

-- parser
pub record ParseState (D : Type 0) : Type 0 where
  pub now : Token D
  pub ahead : List (Token D)
  pub diags : List Diagnostic

abbrev pub is_newline : Tok → Bool
is_newline k = same k Tok.newline

-- No boundary of a statement or of a definition.
abbrev pub is_inner : Tok → Bool
is_inner k =
    not (same k Tok.end)
    && not (same k Tok.newline)
    && not (same k Tok.kw_end)
    && not (same k Tok.kw_rune)
    && not (same k Tok.kw_sigil)

abbrev pub is_negative : ℤ → Bool
is_negative (pos n) = false
is_negative (negsuc n) = true

module _ {D : Type 0} where
  abbrev pub peek : ParseState D → Token D
  peek s = elim s.ahead [ [] ↦ s.now | t ∷ ts ↦ t ]

  abbrev pub at : Tok → ParseState D → Bool
  at k s = same s.now.kind k

  abbrev pub move : ParseState D → List (Token D) → ParseState D
  move s [] = s
  move s (t ∷ ts) = record s { now = t; ahead = ts }

  -- The last token stays.
  unfoldable pub adv : ParseState D → ParseState D
  adv s = move s s.ahead

  unfoldable pub error_at : Text → ℕ → ℕ → ParseState D → ParseState D
  error_at m l c s = record s { diags = s.diags ++ record { message = m; line = l; col = c } ∷ [] }

  unfoldable pub error : Text → ParseState D → ParseState D
  error m s = error_at m s.now.line s.now.col s

  -- The token that is there, expected or not.
  unfoldable pub expect : Tok → Text → ParseState D → Token D × ParseState D
  expect k what s = (
    s.now,
    if at k s
        then adv s
        else error (codes "expected " ++ what ++ codes ", got " ++ tok_name s.now.kind) s,
  )

  -- while (test(cur().kind)) adv(), at the tokens `ts` behind the one at hand. `none` means that the
  -- last token passes the test, where the loop does not end.
  unfoldable pub adv_while : (Tok → Bool) → List (Token D) → ParseState D → Option (ParseState D)
  adv_while test [] s = if test s.now.kind then none else some s
  adv_while test (t ∷ ts) s =
      let rest = adv_while test ts (record s { now = t; ahead = ts }) in
      if test s.now.kind then rest else some s

  unfoldable pub skip_newlines : ParseState D → Option (ParseState D)
  skip_newlines s = adv_while is_newline s.ahead s

  unfoldable pub synchronize : ParseState D → Option (ParseState D)
  synchronize s = adv_while is_inner s.ahead s

  unfoldable pub parse_index : CDoubles D → ParseState D → ℤ × ParseState D
  parse_index c s =
      let iv = c.to_int s.now.value in
      if at Tok.number s
      then (
        iv,
        if not (c.equals (c.of_int iv) s.now.value) || is_negative iv
            then error (codes "channel index must be a non-negative integer") (adv s)
            else adv s,
      )
      else (pos 0, error (codes "expected a channel index, got " ++ tok_name s.now.kind) s)

-- The precedence of an operator, 0 for none.
unfoldable pub binprec : Tok → ℕ
binprec Tok.merge = 1
binprec Tok.split = 2
binprec Tok.colon = 3
binprec Tok.comma = 4
binprec Tok.plus = 5
binprec Tok.minus = 5
binprec Tok.star = 6
binprec Tok.slash = 6
binprec Tok.percent = 6
binprec _ = 0
