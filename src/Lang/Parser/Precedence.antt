-- ===== src/Lang/Parser/Precedence.antt =====
-- include/xrune/lang/parser/parser.hpp: how the parser reads each kind of expression, in its parts.
use xrune.Base.{
  ℕ, zero, suc, ◌+◌, ◌-◌, ◌<◌, ◌≤◌, ◌≡◌, ◌∙◌, refl, sym, Bool, true, false, some, List, ◌==◌, leb,
  arith, Bool-cases, inl, inr,
}
use xrune.Lang.Token.{Tok, Diagnostic, same}
use xrune.Lang.Ast.{Expr}
use xrune.Lang.Parser.{CDoubles, binprec}
use xrune.Lang.Parser.Expressions.{parse_binary, parse_primary}
use xrune.Lang.Parser.Written.{
  Place, put, state, fits, mk, opening, closing, written, cost, spine, indices,
}
use xrune.Lang.Parser.Reading.{
  PostfixReads, UnaryReads, BinaryReads, spine_lt, bare_reads, wrapped_reads, primary-PostfixReads,
  postfix-UnaryReads, unary-BinaryReads, minus_reads, loop_stops, binprec_le,
}

module _ {D : Type 0} (c : CDoubles D) where
  unfoldable pub Reads : Expr D → Type 0
  Reads e = PostfixReads c e × UnaryReads c e × BinaryReads c e

  -- An expression that is one primary at every level.
  pub atom-Reads :
      (e : Expr D)
      → indices e ≡ 1
      → ((m : ℕ) (in_args : Bool) → spine m in_args e ≡ 1)
      → ((m : ℕ) (in_args : Bool) (p : Place D)
          → (written c m in_args e p ≡ written c 8 in_args e p)
            × (same (written c 8 in_args e p).0.kind Tok.minus ≡ false))
      → ((in_args : Bool) (f : ℕ) (p : Place D) (d : List Diagnostic)
          → same p.0.kind Tok.l_paren ≡ false
          → parse_primary c (suc f) (state (written c 8 in_args e p) d) ≡ some (e, state p d))
      → Reads e
  unfolding Reads
  atom-Reads e one edge starts primary =
      let post = primary-PostfixReads c e one (λ in_args f p d enough paren.
        at_fuel in_args f p d (omega (arith, spine_lt c 0 in_args e)) paren) in
      let un = postfix-UnaryReads c e (λ m in_args p l h. starts m in_args p) post in
      (
        post,
        un,
        λ m m' in_args n f p d le l en enough o s.
            unary-BinaryReads c e m m' in_args n f p d un (edge m' in_args) l en enough o,
      )
    where
      at_fuel :
          (in_args : Bool) (f : ℕ) (p : Place D) (d : List Diagnostic)
          → 0 < f
          → same p.0.kind Tok.l_paren ≡ false
          → parse_primary c f (state (written c 8 in_args e p) d) ≡ some (e, state p d)
      at_fuel in_args zero p d l h = elim l [ ]
      at_fuel in_args (suc f) p d l h = primary in_args f p d h

  -- parse_primary() reads parentheses around what parse_binary() reads.
  wrapped_primary :
      (e : Expr D) (q p : Place D) (d : List Diagnostic) (need f : ℕ)
      → need < f
      → ((n : ℕ)
          → need ≤ n
          → parse_binary c n 1 false (state q d) ≡ some (e, state (put (closing c) p) d))
      → parse_primary c f (state (put (opening c) q) d) ≡ some (e, state p d)
  wrapped_primary e q p d need zero l h = elim l [ ]
  wrapped_primary e q p d need (suc f) l h = wrapped_reads c e f q p d (h f (omega arith))

  minus_alone :
      (l k : ℕ) (a : Expr D) (p : Place D) (d : List Diagnostic) (n : ℕ)
      → UnaryReads c a
      → cost a + 2 ≤ n
      → parse_binary c n 1 false
          (state (put (mk c Tok.minus l k) (written c 7 false a (put (closing c) p))) d)
        ≡ some (Expr.unary l k Tok.minus a, state (put (closing c) p) d)
  unfolding parse_binary same binprec
  minus_alone l k a p d zero h e = let no : ⊥ = omega arith in elim no [ ]
  minus_alone l k a p d (suc zero) h e =
      let no : ⊥ = omega (arith, spine_lt c 0 true a) in elim no [ ]
  minus_alone l k a p d (suc (suc n)) h e =
      rw (minus_reads c l k a false n (put (closing c) p) d h (omega arith) refl) refl

  pub unary-Reads : (l k : ℕ) (a : Expr D) → Reads a → Reads (Expr.unary l k Tok.minus a)
  unfolding Reads written
  unary-Reads l k a (post, un, bin) =
      let e = Expr.unary l k Tok.minus a in
      let reads_minus : UnaryReads c e = by_fuel in
      (
        primary-PostfixReads c e refl (λ in_args f p d enough paren.
            wrapped_primary e (put (mk c Tok.minus l k) (written c 7 false a (put (closing c) p))) p
              d (cost a + 2) f (omega arith) (λ n more. minus_alone l k a p d n un more)),
        reads_minus,
        λ m m' in_args n f p d le l' en enough o s.
            unary-BinaryReads c e m m' in_args n f p d reads_minus refl l' en enough o,
      )
    where
      by_fuel : UnaryReads c (Expr.unary l k Tok.minus a)
      by_fuel m in_args zero p d l' one enough o = let no : ⊥ = omega arith in elim no [ ]
      by_fuel m in_args (suc f) p d l' one enough o =
          let level : leb m 7 ≡ true = ground arith in
          rw level (minus_reads c l k a in_args f p d un (omega arith) o)

  spine_pos : (m : ℕ) (in_args : Bool) (e : Expr D) → 0 < spine m in_args e
  spine_pos m in_args (Expr.binary l k op a b) = ground arith
  spine_pos m in_args _ = omega arith

  module _ (l k : ℕ) (op : Tok) (a b : Expr D) (o : (binprec op == 0) ≡ false) where
    wrapped_written :
        (m : ℕ) (in_args : Bool) (p : Place D)
        → fits m in_args op ≡ false
        → written c m in_args (Expr.binary l k op a b) p
          ≡ put (opening c) (
              written c
                (binprec op)
                false
                a
                (put (mk c op l k) (written c (binprec op + 1) false b (put (closing c) p))))
    unfolding written
    wrapped_written m in_args p h = rw h refl

    pub never_fits : (in_args : Bool) → fits 8 in_args op ≡ false
    never_fits in_args = ground (arith, binprec_le c op)

    spine_one :
        (m : ℕ) (in_args : Bool)
        → spine m in_args (Expr.binary l k op a b) ≡ 1
        → fits m in_args op ≡ false
    spine_one m in_args h = ground (arith, spine_pos (binprec op) in_args a)

    bare_alone :
        (p : Place D) (d : List Diagnostic) (n : ℕ)
        → BinaryReads c a
        → BinaryReads c b
        → cost a + cost b + 3 ≤ n
        → parse_binary c n 1 false (
            state
              (written c
                (binprec op)
                false
                a
                (put (mk c op l k) (written c (binprec op + 1) false b (put (closing c) p))))
              d)
          ≡ some (Expr.binary l k op a b, state (put (closing c) p) d)
    unfolding same binprec
    bare_alone p d n ra rb enough =
        let f = n - suc (spine (binprec op) false a) in
        let less = spine_lt c (binprec op) false a in
        bare_reads c l k op a b ra rb 1 false n f (put (closing c) p) d (ground arith) o
          (ground arith) (omega arith) enough refl refl
        ∙ loop_stops c f 1 false (Expr.binary l k op a b) (put (closing c) p) d (omega arith) refl

    pub binary-PostfixReads :
        BinaryReads c a → BinaryReads c b → PostfixReads c (Expr.binary l k op a b)
    binary-PostfixReads ra rb =
        primary-PostfixReads c (Expr.binary l k op a b) refl λ in_args f p d enough paren.
          rw (wrapped_written 8 in_args p (never_fits in_args)) (
            wrapped_primary (Expr.binary l k op a b) _ p d (cost a + cost b + 3) f (omega arith)
              (λ n more. bare_alone p d n ra rb more))

    pub binary-UnaryReads :
        PostfixReads c (Expr.binary l k op a b) → UnaryReads c (Expr.binary l k op a b)
    unfolding same
    binary-UnaryReads = postfix-UnaryReads c (Expr.binary l k op a b) λ m in_args p l' one.
        let last = wrapped_written 8 in_args p (never_fits in_args) in
        (wrapped_written m in_args p (spine_one m in_args one) ∙ sym last, rw last refl)

    pub binary-BinaryReads :
        BinaryReads c a
        → BinaryReads c b
        → UnaryReads c (Expr.binary l k op a b)
        → BinaryReads c (Expr.binary l k op a b)
    unfolding written
    binary-BinaryReads ra rb un m m' in_args n f p d le l' en enough opening_free s =
        elim (Bool-cases (fits m' in_args op)) [
          | inl h ↦ rw h (
              bare_reads c l k op a b ra rb m in_args n f p d (ground arith) o (ground arith)
                (rw h at en) (omega arith) opening_free (ground arith))
          | inr h ↦
              unary-BinaryReads c (Expr.binary l k op a b) m m' in_args n f p d un (rw h refl) l' en
                enough opening_free
        ]
