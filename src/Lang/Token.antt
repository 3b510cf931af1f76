-- ===== src/Lang/Token.antt =====
-- include/xrune/lang/parser/token.hpp and diagnostic.hpp. `D` is double.
use xrune.Base.{ℕ, Bool, true, false, ◌==◌}
use xrune.Json.{Text, codes}

pub data Tok : Type 0 where
  end newline : Tok
  ident number string : Tok
  kw_rune kw_sigil kw_end kw_input kw_out kw_as kw_true kw_false : Tok
  l_paren r_paren l_bracket r_bracket : Tok
  assign comma dot : Tok
  colon split merge modulate arrow : Tok
  plus minus star slash percent : Tok
  bang tilde unknown : Tok

-- The value of the enumerator.
unfoldable pub ordinal : Tok → ℕ
ordinal end = 0
ordinal newline = 1
ordinal ident = 2
ordinal number = 3
ordinal string = 4
ordinal kw_rune = 5
ordinal kw_sigil = 6
ordinal kw_end = 7
ordinal kw_input = 8
ordinal kw_out = 9
ordinal kw_as = 10
ordinal kw_true = 11
ordinal kw_false = 12
ordinal l_paren = 13
ordinal r_paren = 14
ordinal l_bracket = 15
ordinal r_bracket = 16
ordinal assign = 17
ordinal comma = 18
ordinal dot = 19
ordinal colon = 20
ordinal split = 21
ordinal merge = 22
ordinal modulate = 23
ordinal arrow = 24
ordinal plus = 25
ordinal minus = 26
ordinal star = 27
ordinal slash = 28
ordinal percent = 29
ordinal bang = 30
ordinal tilde = 31
ordinal unknown = 32

-- == on kinds
unfoldable pub same : Tok → Tok → Bool
unfolding ordinal
same a b = ordinal a == ordinal b

pub record Token (D : Type 0) : Type 0 where
  pub kind : Tok
  pub text : Text
  pub value : D
  pub line : ℕ
  pub col : ℕ

unfoldable pub tok_name : Tok → Text
tok_name end = codes "end-of-input"
tok_name newline = codes "newline"
tok_name ident = codes "identifier"
tok_name number = codes "number"
tok_name string = codes "string"
tok_name kw_rune = codes "'rune'"
tok_name kw_sigil = codes "'sigil'"
tok_name kw_end = codes "'end'"
tok_name kw_input = codes "'input'"
tok_name kw_out = codes "'out'"
tok_name kw_as = codes "'as'"
tok_name kw_true = codes "'true'"
tok_name kw_false = codes "'false'"
tok_name l_paren = codes "'('"
tok_name r_paren = codes "')'"
tok_name l_bracket = codes "'['"
tok_name r_bracket = codes "']'"
tok_name assign = codes "'='"
tok_name comma = codes "','"
tok_name dot = codes "'.'"
tok_name colon = codes "':'"
tok_name split = codes "'<:'"
tok_name merge = codes "':>'"
tok_name modulate = codes "'~>'"
tok_name arrow = codes "'->'"
tok_name plus = codes "'+'"
tok_name minus = codes "'-'"
tok_name star = codes "'*'"
tok_name slash = codes "'/'"
tok_name percent = codes "'%'"
tok_name bang = codes "'!'"
tok_name tilde = codes "'~'"
tok_name unknown = codes "unknown token"

-- Operators after which a newline is a line continuation.
unfoldable pub continues_line : Tok → Bool
continues_line l_paren = true
continues_line l_bracket = true
continues_line assign = true
continues_line comma = true
continues_line dot = true
continues_line colon = true
continues_line split = true
continues_line merge = true
continues_line modulate = true
continues_line arrow = true
continues_line plus = true
continues_line minus = true
continues_line star = true
continues_line slash = true
continues_line percent = true
continues_line tilde = true
continues_line _ = false

pub record Diagnostic : Type 0 where
  pub message : Text
  pub line : ℕ
  pub col : ℕ
