-- ===== src/Lang/Parser/Reading.antt =====
-- include/xrune/lang/parser/parser.hpp: how each level of the parser reads what is written for it.
use xrune.Base.{
  ℕ, zero, suc, ◌+◌, ◌-◌, ◌<◌, ◌≤◌, ◌≡◌, ◌∙◌, refl, ℤ, Bool, true, false, ◌&&◌, ◌||◌, some, List,
  ◌==◌, ltb, arith,
}
use xrune.Lang.Token.{Tok, Token, Diagnostic, same}
use xrune.Lang.Ast.{Expr}
use xrune.Lang.Parser.{CDoubles, binprec, adv, expect, parse_index}
use xrune.Lang.Parser.Expressions.{
  parse_binary, binary_loop, parse_unary, parse_postfix, postfix_loop, parse_primary,
}
use xrune.Lang.Parser.Written.{
  Place, put, state, mk, opening, closing, written, IsOperation, cost, spine, indices,
}

-- The token behind an expression does not go on with it at that level.
abbrev pub stops : ℕ → Bool → Tok → Bool
stops m in_args k = binprec k == 0 || same k Tok.comma && in_args || ltb (binprec k) m

-- An opening token behind an expression would go on with it as an index or a call.
abbrev pub opens : Tok → Bool
opens k = same k Tok.l_bracket || same k Tok.l_paren

module _ {D : Type 0} (c : CDoubles D) where
  -- With enough fuel, parse_primary() and the loop of parse_postfix() read the expression.
  abbrev pub PostfixReads : Expr D → Type 0
  PostfixReads e =
      (in_args : Bool) (n f : ℕ) (p : Place D) (d : List Diagnostic)
      → n ≡ indices e + f
      → cost e ≤ n + 2
      → same p.0.kind Tok.l_paren ≡ false
      → parse_postfix c n (state (written c 8 in_args e p) d) ≡ postfix_loop c f e (state p d)

  abbrev pub UnaryReads : Expr D → Type 0
  UnaryReads e =
      (m : ℕ) (in_args : Bool) (f : ℕ) (p : Place D) (d : List Diagnostic)
      → m ≤ 7
      → spine m in_args e ≡ 1
      → cost e ≤ f + 1
      → opens p.0.kind ≡ false
      → parse_unary c f in_args (state (written c m in_args e p) d) ≡ some (e, state p d)

  abbrev pub BinaryReads : Expr D → Type 0
  BinaryReads e =
      (m m' : ℕ) (in_args : Bool) (n f : ℕ) (p : Place D) (d : List Diagnostic)
      → m ≤ m'
      → m' ≤ 7
      → n ≡ spine m' in_args e + f
      → cost e ≤ n
      → opens p.0.kind ≡ false
      → stops (m' + 1) in_args p.0.kind ≡ true
      → parse_binary c n m in_args (state (written c m' in_args e p) d)
        ≡ binary_loop c f m in_args e (state p d)

  -- The loop of parse_binary() ends at a token that stops it.
  pub loop_stops :
      (f m : ℕ) (in_args : Bool) (e : Expr D) (p : Place D) (d : List Diagnostic)
      → 0 < f
      → stops m in_args p.0.kind ≡ true
      → binary_loop c f m in_args e (state p d) ≡ some (e, state p d)
  unfolding parse_binary
  loop_stops zero m in_args e p d l h = elim l [ ]
  loop_stops (suc f) m in_args e p d l h = rw h refl

  pub spine_lt : (m : ℕ) (in_args : Bool) (e : Expr D) → spine m in_args e + 2 < cost e
  spine_lt m in_args (Expr.number l k n) = omega arith
  spine_lt m in_args (Expr.string l k t) = omega arith
  spine_lt m in_args (Expr.boolean l k b) = omega arith
  spine_lt m in_args (Expr.ident l k t) = omega arith
  spine_lt m in_args (Expr.call l k t args) = omega arith
  spine_lt m in_args (Expr.unary l k op a) = omega arith
  spine_lt m in_args (Expr.binary l k op a b) = ground (arith, spine_lt (binprec op) in_args a)
  spine_lt m in_args (Expr.select l k i a) = omega arith

  pub indices_lt : (e : Expr D) → indices e + 2 < cost e
  indices_lt (Expr.number l k n) = omega arith
  indices_lt (Expr.string l k t) = omega arith
  indices_lt (Expr.boolean l k b) = omega arith
  indices_lt (Expr.ident l k t) = omega arith
  indices_lt (Expr.call l k t args) = omega arith
  indices_lt (Expr.unary l k op a) = omega arith
  indices_lt (Expr.binary l k op a b) = omega arith
  indices_lt (Expr.select l k i a) = omega (arith, indices_lt a)

  -- parse_binary() as a whole, behind BinaryReads.
  pub binary_reads :
      (e : Expr D)
      → BinaryReads e
      → (m : ℕ) (in_args : Bool) (n : ℕ) (p : Place D) (d : List Diagnostic) → m ≤ 7
      → cost e ≤ n
      → opens p.0.kind ≡ false
      → stops m in_args p.0.kind ≡ true
      → parse_binary c n m in_args (state (written c m in_args e p) d) ≡ some (e, state p d)
  binary_reads e h m in_args n p d l f b s =
      let f' = n - spine m in_args e in
      let less = spine_lt m in_args e in
      h m m in_args n f' p d (omega arith) l (omega arith) (omega arith) b (ground arith)
      ∙ loop_stops f' m in_args e p d (omega arith) s

  pub op-opens : (op : Tok) → (binprec op == 0) ≡ false → opens op ≡ false
  unfolding binprec same
  op-opens Tok.l_bracket h = cc
  op-opens Tok.l_paren h = cc
  op-opens _ h = refl

  pub binprec_le : (op : Tok) → binprec op ≤ 6
  unfolding binprec
  binprec_le Tok.end = omega arith
  binprec_le _ = omega arith

  pub op_stops : (op : Tok) (in_args : Bool) → stops (binprec op + 1) in_args op ≡ true
  op_stops op in_args = ground arith

  pub loop_goes :
      (f m : ℕ) (in_args : Bool) (a : Expr D) (t : Token D) (q : Place D) (d : List Diagnostic)
      (b : Expr D) (p : Place D)
      → stops m in_args t.kind ≡ false
      → parse_binary c f (binprec t.kind + 1) in_args (state q d) ≡ some (b, state p d)
      → binary_loop c (suc f) m in_args a (state (put t q) d)
        ≡ binary_loop c f m in_args (Expr.binary t.line t.col t.kind a b) (state p d)
  unfolding parse_binary adv
  loop_goes f m in_args a t q d b p h e = rw h (rw e refl)

  -- The loop of parse_postfix() ends at a token that is no bracket.
  pub index_stops :
      (f : ℕ) (e : Expr D) (p : Place D) (d : List Diagnostic)
      → 0 < f
      → same p.0.kind Tok.l_bracket ≡ false
      → postfix_loop c f e (state p d) ≡ some (e, state p d)
  unfolding parse_binary
  index_stops zero e p d l h = elim l [ ]
  index_stops (suc f) e p d l h = rw h refl

  -- Two operands and their operator, without parentheses.
  pub bare_reads :
      (l k : ℕ) (op : Tok) (a b : Expr D)
      → BinaryReads a
      → BinaryReads b
      → (m : ℕ) (in_args : Bool) (n f : ℕ) (p : Place D) (d : List Diagnostic) → m ≤ binprec op
      → (binprec op == 0) ≡ false
      → (same op Tok.comma && in_args) ≡ false
      → n ≡ suc (spine (binprec op) in_args a) + f
      → cost a + cost b + 3 ≤ n
      → opens p.0.kind ≡ false
      → stops (binprec op + 1) in_args p.0.kind ≡ true
      → parse_binary c n m in_args (
          state
            (written c
              (binprec op)
              in_args
              a
              (put (mk c op l k) (written c (binprec op + 1) in_args b p)))
            d)
        ≡ binary_loop c f m in_args (Expr.binary l k op a b) (state p d)
  bare_reads l k op a b ra rb m in_args n f p d le o comma e enough bracket s =
      let q = written c (binprec op + 1) in_args b p in
      let less = spine_lt (binprec op) in_args a in
      ra m (binprec op) in_args n (suc f) (put (mk c op l k) q) d le (omega (arith, binprec_le op))
        (omega arith) (omega arith) (op-opens op o) (op_stops op in_args)
      ∙ loop_goes f m in_args a (mk c op l k) q d b p (ground arith) (
          binary_reads b rb (binprec op + 1) in_args f p d (omega (arith, binprec_le op))
            (omega arith) bracket s)

  -- The same between parentheses, as a primary.
  pub wrapped_reads :
      (e : Expr D) (f : ℕ) (q p : Place D) (d : List Diagnostic)
      → parse_binary c f 1 false (state q d) ≡ some (e, state (put (closing c) p) d)
      → parse_primary c (suc f) (state (put (opening c) q) d) ≡ some (e, state p d)
  unfolding parse_binary adv expect same
  wrapped_reads e f q p d h = rw h refl

  -- What reads an expression that is no index.
  pub primary-PostfixReads :
      (e : Expr D)
      → indices e ≡ 1
      → ((in_args : Bool) (f : ℕ) (p : Place D) (d : List Diagnostic)
          → cost e ≤ f + 3
          → same p.0.kind Tok.l_paren ≡ false
          → parse_primary c f (state (written c 8 in_args e p) d) ≡ some (e, state p d))
      → PostfixReads e
  unfolding parse_binary
  primary-PostfixReads e one h in_args zero f p d l enough paren =
      let no : ⊥ = omega arith in elim no [ ]
  primary-PostfixReads e one h in_args (suc n) f p d l enough paren =
      let same_fuel : n ≡ f = omega arith in
      rw same_fuel (rw (h in_args f p d (omega arith) paren) refl)

  pub select-PostfixReads :
      (l k : ℕ) (i : ℤ) (a : Expr D)
      → IsOperation c (Expr.select l k i a)
      → PostfixReads a
      → PostfixReads (Expr.select l k i a)
  unfolding parse_binary adv expect same parse_index written IsOperation
  select-PostfixReads l k i a (back, equal_i, positive, w) h in_args n f p d e enough paren =
      h in_args n (suc f) _ d (omega arith) (omega arith) refl
      ∙ rw back (rw equal_i (rw positive refl))

  -- An expression that starts with no minus.
  pub postfix-UnaryReads :
      (e : Expr D)
      → ((m : ℕ) (in_args : Bool) (p : Place D)
          → m ≤ 7
          → spine m in_args e ≡ 1
          → (written c m in_args e p ≡ written c 8 in_args e p)
            × (same (written c 8 in_args e p).0.kind Tok.minus ≡ false))
      → PostfixReads e
      → UnaryReads e
  unfolding parse_binary
  postfix-UnaryReads e starts h m in_args zero p d l one enough bracket =
      let no : ⊥ = omega (arith, indices_lt e) in elim no [ ]
  postfix-UnaryReads e starts h m in_args (suc f) p d l one enough bracket =
      let (as_postfix, no_minus) = starts m in_args p l one in
      let less = indices_lt e in
      let f' = f - indices e in
      rw as_postfix (
        rw no_minus (
          h in_args f f' p d (omega arith) (omega arith) (ground arith)
          ∙ index_stops f' e p d (omega arith) (ground arith)))

  pub unary-BinaryReads :
      (e : Expr D) (m m' : ℕ) (in_args : Bool) (n f : ℕ) (p : Place D) (d : List Diagnostic)
      → UnaryReads e
      → spine m' in_args e ≡ 1
      → m' ≤ 7
      → n ≡ spine m' in_args e + f
      → cost e ≤ n
      → opens p.0.kind ≡ false
      → parse_binary c n m in_args (state (written c m' in_args e p) d)
        ≡ binary_loop c f m in_args e (state p d)
  unfolding parse_binary
  unary-BinaryReads e m m' in_args zero f p d h one le l enough bracket =
      let no : ⊥ = omega arith in elim no [ ]
  unary-BinaryReads e m m' in_args (suc n) f p d h one le l enough bracket =
      let same_fuel : n ≡ f = omega arith in
      rw same_fuel (rw (h m' in_args f p d le one (omega arith) bracket) refl)

  -- A minus and what it stands before.
  pub minus_reads :
      (l k : ℕ) (a : Expr D) (in_args : Bool) (f : ℕ) (p : Place D) (d : List Diagnostic)
      → UnaryReads a
      → cost a ≤ f + 1
      → opens p.0.kind ≡ false
      → parse_unary c (suc f) in_args (state (put (mk c Tok.minus l k) (written c 7 in_args a p)) d)
        ≡ some (Expr.unary l k Tok.minus a, state p d)
  unfolding parse_binary adv same
  minus_reads l k a in_args f p d h enough bracket =
      rw (h 7 in_args f p d (omega arith) (tight a) enough bracket) refl
    where
      tight : (e : Expr D) → spine 7 in_args e ≡ 1
      tight (Expr.binary l k op a b) = ground (arith, binprec_le op)
      tight _ = refl
