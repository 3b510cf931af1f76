-- ===== src/Lang/Parser/Grouping.antt =====
-- include/xrune/lang/parser/parser.hpp: parse_expr() on the tokens of an expression.
use xrune.Base.{
  ℕ, ◌+◌, ◌*◌, ◌≤◌, ◌≡◌, refl, sym, Bool, true, false, some, List, leb, length, arith, subst,
  if_holds,
}
use xrune.Lang.Token.{Tok, Diagnostic, same}
use xrune.Lang.Ast.{Expr}
use xrune.Lang.Parser.{CDoubles, binprec, adv}
use xrune.Lang.Parser.Expressions.{parse_binary, parse_expr}
use xrune.Lang.Parser.Written.{Place, put, state, fits, mk, closing, written, IsOperation, cost}
use xrune.Lang.Parser.Reading.{
  stops, opens, binary_reads, select-PostfixReads, postfix-UnaryReads, unary-BinaryReads,
}
use xrune.Lang.Parser.Precedence.{
  Reads, atom-Reads, unary-Reads, binary-PostfixReads, binary-UnaryReads, binary-BinaryReads,
  never_fits,
}

module _ {D : Type 0} (c : CDoubles D) where
  -- No level behind an index starts with a minus.
  starts :
      (in_args : Bool) (e : Expr D) (p : Place D)
      → IsOperation c e
      → same (written c 8 in_args e p).0.kind Tok.minus ≡ false
  unfolding written same IsOperation
  starts in_args (Expr.number l k n) p w = refl
  starts in_args (Expr.string l k t) p w = refl
  starts in_args (Expr.boolean l k true) p w = refl
  starts in_args (Expr.boolean l k false) p w = refl
  starts in_args (Expr.ident l k t) p w = refl
  starts in_args (Expr.call l k t args) p w = elim w [ ]
  starts in_args (Expr.unary l k op a) p w = refl
  starts in_args (Expr.binary l k op a b) p w = rw (never_fits c l k op a b w.0 in_args) refl
  starts in_args (Expr.select l k i a) p w = starts in_args a _ w.3

  reads : (e : Expr D) → IsOperation c e → Reads c e
  unfolding Reads IsOperation written parse_binary same adv
  reads (Expr.number l k n) w =
      atom-Reads c (Expr.number l k n) refl (λ m i. refl) (λ m i p. (refl, refl)) λ i f p d h. refl
  reads (Expr.string l k t) w =
      atom-Reads c (Expr.string l k t) refl (λ m i. refl) (λ m i p. (refl, refl)) λ i f p d h. refl
  reads (Expr.boolean l k true) w =
      atom-Reads c (Expr.boolean l k true) refl (λ m i. refl) (λ m i p. (refl, refl))
        λ i f p d h. refl
  reads (Expr.boolean l k false) w =
      atom-Reads c (Expr.boolean l k false) refl (λ m i. refl) (λ m i p. (refl, refl))
        λ i f p d h. refl
  reads (Expr.ident l k t) w =
      atom-Reads c (Expr.ident l k t) refl (λ m i. refl) (λ m i p. (refl, refl))
        λ i f p d h. rw h refl
  reads (Expr.call l k t args) w = elim w [ ]
  reads (Expr.unary l k op a) (minus, w) =
      subst (λ op. Reads c (Expr.unary l k op a)) (sym minus) (unary-Reads c l k a (reads a w))
  reads (Expr.binary l k op a b) (o, wa, wb) =
      let ra = (reads a wa).2 in
      let rb = (reads b wb).2 in
      let post = binary-PostfixReads c l k op a b o ra rb in
      let un = binary-UnaryReads c l k op a b o post in
      (post, un, binary-BinaryReads c l k op a b o ra rb un)
  reads (Expr.select l k i a) w =
      let e = Expr.select l k i a in
      let post = select-PostfixReads c l k i a w (reads a w.3).0 in
      let un = postfix-UnaryReads c e (λ m in_args p l' h. (refl, starts in_args a _ w.3)) post in
      (
        post,
        un,
        λ m m' in_args n f p d le l' en enough o s.
            unary-BinaryReads c e m m' in_args n f p d un refl l' en enough o,
      )

  length-written :
      (m : ℕ) (in_args : Bool) (e : Expr D) (p : Place D)
      → IsOperation c e
      → 8 * length p.1 + cost e ≤ 8 * length (written c m in_args e p).1
  unfolding written IsOperation
  length-written m in_args (Expr.number l k n) p w = omega arith
  length-written m in_args (Expr.string l k t) p w = omega arith
  length-written m in_args (Expr.boolean l k b) p w = omega arith
  length-written m in_args (Expr.ident l k t) p w = omega arith
  length-written m in_args (Expr.call l k t args) p w = elim w [ ]
  length-written m in_args (Expr.unary l k op a) p w =
      if_holds (λ (q : Place D). 8 * length p.1 + (cost a + 8) ≤ 8 * length q.1) (leb m 7) _ _
        (λ h. omega (arith, length-written 7 in_args a p w.1))
        λ h. omega (arith, length-written 7 false a (put (closing c) p) w.1)
  length-written m in_args (Expr.binary l k op a b) p w =
      let n = binprec op in
      if_holds (λ (q : Place D). 8 * length p.1 + (cost a + cost b + 8) ≤ 8 * length q.1)
        (fits m in_args op) _ _
        (λ h. omega (
          arith,
          length-written (n + 1) in_args b p w.2,
          length-written n in_args a (put (mk c op l k) (written c (n + 1) in_args b p)) w.1,
        ))
        λ h.
          let q = put (closing c) p in
          omega (
            arith,
            length-written (n + 1) false b q w.2,
            length-written n false a (put (mk c op l k) (written c (n + 1) false b q)) w.1,
          )
  length-written m in_args (Expr.select l k i a) p w =
      let index =
        put (record (mk c Tok.number 0 0) { value = c.of_int i })
          (put (mk c Tok.r_bracket 0 0) p) in
      let behind = length-written 8 in_args a (put (mk c Tok.l_bracket l k) index) w.3 in
      omega (arith, behind)

  -- The tokens of an expression of minus signs, operators, indices and atoms, with only the parentheses
  -- that the precedences and grouping to the left need, are read back as that expression, its places
  -- included, with no diagnostic, up to the token behind it. That token is no opening bracket, and no
  -- operator but a comma behind an argument; the indices are not negative and are kept by the
  -- conversion to double and back.
  pub parse_expr-written :
      (e : Expr D) (in_args : Bool) (p : Place D) (d : List Diagnostic)
      → IsOperation c e
      → opens p.0.kind ≡ false
      → stops 1 in_args p.0.kind ≡ true
      → parse_expr c in_args (state (written c 1 in_args e p) d) ≡ some (e, state p d)
  unfolding parse_expr Reads
  parse_expr-written e in_args p d w o s =
      binary_reads c e (reads e w).2 1 in_args (8 * length (written c 1 in_args e p).1 + 8) p d
        (omega arith) (omega (arith, length-written 1 in_args e p w)) o s
