-- ===== src/Lang/Parser/Written.antt =====
-- include/xrune/lang/parser/parser.hpp: expressions as tokens, with no parentheses but those that the
-- precedence of the operators needs.
use xrune.Base.{
  ℕ, suc, ◌+◌, ◌≡◌, Bool, true, false, not, ◌&&◌, List, [], ◌∷◌, ◌==◌, ltb, leb, if◌then◌else◌,
}
use xrune.Lang.Token.{Tok, Token, Diagnostic, same}
use xrune.Lang.Ast.{Expr}
use xrune.Lang.Parser.{CDoubles, ParseState, binprec, is_negative}

-- A token and those behind it.
abbrev pub Place : Type 0 → Type 0
Place D = Token D × List (Token D)

module _ {D : Type 0} where
  abbrev pub put : Token D → Place D → Place D
  put t p = (t, p.0 ∷ p.1)

  abbrev pub state : Place D → List Diagnostic → ParseState D
  state p d = record { now = p.0; ahead = p.1; diags = d }

-- Whether an operator stands without parentheses where operators bind as `m` does, or tighter. As an
-- argument, a comma needs them.
abbrev pub fits : ℕ → Bool → Tok → Bool
fits m in_args op = not (ltb (binprec op) m) && not (same op Tok.comma && in_args)

module _ {D : Type 0} (c : CDoubles D) where
  abbrev pub mk : Tok → ℕ → ℕ → Token D
  mk k l col = record { kind = k; text = []; value = c.zero_value; line = l; col = col }

  abbrev pub opening : Token D
  opening = mk Tok.l_paren 0 0

  abbrev pub closing : Token D
  closing = mk Tok.r_paren 0 0

  -- The tokens of an expression without calls, in front of a place: 7 is the level of what a minus
  -- stands before, and 8 that of what an index stands behind.
  unfoldable pub written : ℕ → Bool → Expr D → Place D → Place D
  written m in_args (Expr.number l k n) p = put (record (mk Tok.number l k) { value = n }) p
  written m in_args (Expr.string l k t) p = put (record (mk Tok.string l k) { text = t }) p
  written m in_args (Expr.boolean l k b) p =
      put (mk (if b then Tok.kw_true else Tok.kw_false) l k) p
  written m in_args (Expr.ident l k t) p = put (record (mk Tok.ident l k) { text = t }) p
  written m in_args (Expr.call l k t args) p = p
  written m in_args (Expr.unary l k op a) p =
      let bare = put (mk Tok.minus l k) (written 7 in_args a p) in
      let wrapped = put opening (put (mk Tok.minus l k) (written 7 false a (put closing p))) in
      if leb m 7 then bare else wrapped
  written m in_args (Expr.binary l k op a b) p =
      let n = binprec op in
      let bare = written n in_args a (put (mk op l k) (written (n + 1) in_args b p)) in
      let inner = written n false a (put (mk op l k) (written (n + 1) false b (put closing p))) in
      if fits m in_args op then bare else put opening inner
  written m in_args (Expr.select l k i a) p = written 8 in_args a (
      put (mk Tok.l_bracket l k)
        (put (record (mk Tok.number 0 0) { value = c.of_int i }) (put (mk Tok.r_bracket 0 0) p)))

  -- The trees that the parser makes of operators, indices and atoms.
  unfoldable pub IsOperation : Expr D → Type 0
  IsOperation (Expr.number l k n) = Unit
  IsOperation (Expr.string l k t) = Unit
  IsOperation (Expr.boolean l k b) = Unit
  IsOperation (Expr.ident l k t) = Unit
  IsOperation (Expr.call l k t args) = ⊥
  IsOperation (Expr.unary l k op a) = (op ≡ Tok.minus) × IsOperation a
  IsOperation (Expr.binary l k op a b) = ((binprec op == 0) ≡ false) × IsOperation a × IsOperation b
  IsOperation (Expr.select l k i a) =
      (c.to_int (c.of_int i) ≡ i)
      × (c.equals (c.of_int i) (c.of_int i) ≡ true)
      × (is_negative i ≡ false)
      × IsOperation a

module _ {D : Type 0} where
  -- Fuel that is enough for an expression.
  abbrev pub cost : Expr D → ℕ
  cost (Expr.unary l k op a) = cost a + 8
  cost (Expr.binary l k op a b) = cost a + cost b + 8
  cost (Expr.select l k i a) = cost a + 8
  cost _ = 4

  -- The operators of a level and tighter on the left edge, and the indices at the end.
  abbrev pub spine : ℕ → Bool → Expr D → ℕ
  spine m in_args (Expr.binary l k op a b) =
      let more = spine (binprec op) in_args a in if fits m in_args op then suc more else 1
  spine m in_args _ = 1

  abbrev pub indices : Expr D → ℕ
  indices (Expr.select l k i a) = suc (indices a)
  indices _ = 1
