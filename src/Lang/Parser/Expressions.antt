-- ===== src/Lang/Parser/Expressions.antt =====
-- include/xrune/lang/parser/parser.hpp: expressions, by precedence climbing. Each function runs on
-- fuel, and `none` means that it ran out.
use xrune.Base.{
  ℕ, zero, suc, ◌+◌, ◌*◌, Bool, true, false, ◌&&◌, ◌||◌, Option, none, some, [], ◌++◌, ◌==◌, ltb,
  if◌then◌else◌, length, ◌>>=◌,
}
use xrune.Json.{codes}
use xrune.Lang.Token.{Tok, same, tok_name}
use xrune.Lang.Ast.{Expr, Args, no_args, arg}
use xrune.Lang.Parser.{CDoubles, ParseState, peek, at, adv, error, expect, parse_index, binprec}

module _ {D : Type 0} (c : CDoubles D) where
  unfoldable mutual
    pub parse_binary : ℕ → ℕ → Bool → ParseState D → Option (Expr D × ParseState D)
    parse_binary zero min_prec in_args s = none
    parse_binary (suc f) min_prec in_args s = do
      (left, s₁) ← parse_unary f in_args s
      binary_loop f min_prec in_args left s₁

    pub binary_loop : ℕ → ℕ → Bool → Expr D → ParseState D → Option (Expr D × ParseState D)
    binary_loop zero min_prec in_args left s = none
    binary_loop (suc f) min_prec in_args left s =
        let op = s.now.kind in
        let p = binprec op in
        let more = parse_binary f (p + 1) in_args (adv s) >>= λ (right, s₁).
        binary_loop f min_prec in_args (Expr.binary s.now.line s.now.col op left right) s₁ in
        if p == 0 || same op Tok.comma && in_args || ltb p min_prec then some (left, s) else more

    pub parse_unary : ℕ → Bool → ParseState D → Option (Expr D × ParseState D)
    parse_unary zero in_args s = none
    parse_unary (suc f) in_args s =
        let negated = parse_unary f in_args (adv s) >>= λ (a, s₁).
        some (Expr.unary s.now.line s.now.col Tok.minus a, s₁) in
        let plain = parse_postfix f s in if at Tok.minus s then negated else plain

    pub parse_postfix : ℕ → ParseState D → Option (Expr D × ParseState D)
    parse_postfix zero s = none
    parse_postfix (suc f) s = do (base, s₁) ← parse_primary f s; postfix_loop f base s₁

    pub postfix_loop : ℕ → Expr D → ParseState D → Option (Expr D × ParseState D)
    postfix_loop zero base s = none
    postfix_loop (suc f) base s =
        let (idx, s₁) = parse_index c (adv s) in
        let s₂ = (expect Tok.r_bracket (codes "']'") s₁).1 in
        let more = postfix_loop f (Expr.select s.now.line s.now.col idx base) s₂ in
        if at Tok.l_bracket s then more else some (base, s)

    pub parse_primary : ℕ → ParseState D → Option (Expr D × ParseState D)
    parse_primary zero s = none
    parse_primary (suc f) s =
        let l = s.now.line in
        let c' = s.now.col in
        let grouped = parse_binary f 1 false (adv s) >>= λ (e, s₁).
        some (e, (expect Tok.r_paren (codes "')'") s₁).1) in
        let called =
          parse_call_args f (adv s) >>= λ (args, s₁). some (Expr.call l c' s.now.text args, s₁) in
        if at Tok.bang s
        then some (Expr.ident l c' (codes "!"), adv s)
        else if at Tok.l_paren s
        then grouped
        else if at Tok.number s
        then some (Expr.number l c' s.now.value, adv s)
        else if at Tok.string s
        then some (Expr.string l c' s.now.text, adv s)
        else if at Tok.kw_true s || at Tok.kw_false s
        then some (Expr.boolean l c' (at Tok.kw_true s), adv s)
        else if at Tok.ident s
        then (if at Tok.l_paren (adv s) then called else some (Expr.ident l c' s.now.text, adv s))
        else some (
          Expr.number l c' c.zero_value,
          error (codes "expected an expression, got " ++ tok_name s.now.kind) s,
        )

    pub parse_call_args : ℕ → ParseState D → Option (Args D × ParseState D)
    parse_call_args zero s = none
    parse_call_args (suc f) s =
        let s₁ = (expect Tok.l_paren (codes "'('") s).1 in
        let given = args_loop f s₁ in if at Tok.r_paren s₁ then some (no_args, adv s₁) else given

    pub args_loop : ℕ → ParseState D → Option (Args D × ParseState D)
    args_loop zero s = none
    args_loop (suc f) s =
        let named = at Tok.ident s && same (peek s).kind Tok.assign in
        let a = arg s.now.line s.now.col (if named then s.now.text else []) in
        let next = if named then adv (adv s) else s in
        parse_binary f 1 true next >>= λ (value, s₁).
        let more = args_loop f (adv s₁) >>= λ (args, s₂). some (a value args, s₂) in
        if at Tok.comma s₁
        then more
        else some (a value no_args, (expect Tok.r_paren (codes "')'") s₁).1)

  -- Fuel for any expression: it takes at most 8 steps for a token.
  abbrev pub enough : ParseState D → ℕ
  enough s = 8 * length s.ahead + 8

  unfoldable pub parse_expr : Bool → ParseState D → Option (Expr D × ParseState D)
  parse_expr in_args s = parse_binary (enough s) 1 in_args s
