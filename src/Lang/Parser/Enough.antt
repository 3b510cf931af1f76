-- ===== src/Lang/Parser/Enough.antt =====
-- include/xrune/lang/parser/parser.hpp: the fuel of expressions.
use xrune.Base.{
  ℕ, zero, suc, ◌+◌, ◌*◌, ◌<◌, ◌≡◌, refl, Bool, true, false, ◌&&◌, ◌||◌, ◌++◌, ◌==◌, ltb,
  if◌then◌else◌, arith, Finds, Finds-if, if_holds,
}
use xrune.Json.{codes}
use xrune.Lang.Token.{Tok, same, tok_name}
use xrune.Lang.Ast.{Expr}
use xrune.Lang.Parser.{CDoubles, ParseState, peek, at, adv, expect, parse_index, binprec}
use xrune.Lang.Parser.Expressions.{
  parse_binary, binary_loop, parse_unary, parse_postfix, postfix_loop, parse_primary,
  parse_call_args, args_loop, parse_expr,
}
use xrune.Lang.Parser.Progress.{
  Closed, left, Goes, Goes-refl, Goes-trans, adv-Goes, adv_lt, error-Goes, expect-Goes,
  parse_index-Goes, Parses, Parses-trans, Parses-bind,
}

binprec_end : (k : Tok) → (binprec k == 0) ≡ false → same k Tok.end ≡ false
unfolding binprec same
binprec_end Tok.end h = cc
binprec_end _ h = refl

-- A token of another kind than End is passed.
pub at_lt :
    {D : Type 0} (k : Tok) (s : ParseState D)
    → Closed s
    → at k s ≡ true
    → same k Tok.end ≡ false
    → left (adv s) < left s
unfolding same
at_lt k s h e n = adv_lt s h (ground arith)

module _ {D : Type 0} (c : CDoubles D) where
  mutual
    unfolding parse_binary same

    pub parse_binary-Parses :
        (f min_prec : ℕ) (in_args : Bool) (s : ParseState D)
        → Closed s
        → 8 * left s + 4 < f
        → Finds (Parses s) (parse_binary c f min_prec in_args s)
    parse_binary-Parses zero min_prec in_args s h l = elim l [ ]
    parse_binary-Parses (suc f) min_prec in_args s h l =
        Parses-bind s (parse_unary c f in_args s) _ (parse_unary-Parses f in_args s h (omega arith))
          λ e t a.
            Parses-trans s t _ a
              (binary_loop-Parses f min_prec in_args e t (a.closed h) (omega (arith, a.fewer)))

    binary_loop-Parses :
        (f min_prec : ℕ) (in_args : Bool) (e : Expr D) (s : ParseState D)
        → Closed s
        → 8 * left s < f
        → Finds (Parses s) (binary_loop c f min_prec in_args e s)
    binary_loop-Parses zero min_prec in_args e s h l = elim l [ ]
    binary_loop-Parses (suc f) min_prec in_args e s h l =
        let p = binprec s.now.kind in
        Finds-if (Parses s) (p == 0 || same s.now.kind Tok.comma && in_args || ltb p min_prec) _ _
          (λ k. Goes-refl s)
          λ k.
            let on = adv-Goes s in
            let shorter = adv_lt s h (binprec_end s.now.kind (ground arith)) in
            Parses-trans s (adv s) _ on (
              Parses-bind (adv s) (parse_binary c f (p + 1) in_args (adv s)) _
                (parse_binary-Parses f (p + 1) in_args (adv s) (on.closed h) (omega arith))
                λ right t a. Parses-trans (adv s) t _ a (
                  binary_loop-Parses f min_prec in_args _ t (a.closed (on.closed h))
                    (omega (arith, a.fewer))))

    parse_unary-Parses :
        (f : ℕ) (in_args : Bool) (s : ParseState D)
        → Closed s
        → 8 * left s + 3 < f
        → Finds (Parses s) (parse_unary c f in_args s)
    parse_unary-Parses zero in_args s h l = elim l [ ]
    parse_unary-Parses (suc f) in_args s h l =
        let on = adv-Goes s in
        Finds-if (Parses s) (at Tok.minus s) _ _
          (λ k.
            let shorter = at_lt Tok.minus s h k refl in
            Parses-bind s (parse_unary c f in_args (adv s)) _
              (Parses-trans s (adv s) _ on
                (parse_unary-Parses f in_args (adv s) (on.closed h) (omega arith)))
              λ e t a. a)
          λ k. parse_postfix-Parses f s h (omega arith)

    parse_postfix-Parses :
        (f : ℕ) (s : ParseState D)
        → Closed s
        → 8 * left s + 2 < f
        → Finds (Parses s) (parse_postfix c f s)
    parse_postfix-Parses zero s h l = elim l [ ]
    parse_postfix-Parses (suc f) s h l =
        Parses-bind s (parse_primary c f s) _ (parse_primary-Parses f s h (omega arith)) λ e t a.
          Parses-trans s t _ a (postfix_loop-Parses f e t (a.closed h) (omega (arith, a.fewer)))

    postfix_loop-Parses :
        (f : ℕ) (e : Expr D) (s : ParseState D)
        → Closed s
        → 8 * left s < f
        → Finds (Parses s) (postfix_loop c f e s)
    postfix_loop-Parses zero e s h l = elim l [ ]
    postfix_loop-Parses (suc f) e s h l =
        let s₁ = (parse_index c (adv s)).1 in
        let s₂ = (expect Tok.r_bracket (codes "']'") s₁).1 in
        let behind : Goes (adv s) s₂ =
          Goes-trans (adv s) s₁ s₂ (parse_index-Goes c (adv s))
            (expect-Goes Tok.r_bracket (codes "']'") s₁) in
        let over = Goes-trans s (adv s) s₂ (adv-Goes s) behind in
        Finds-if (Parses s) (at Tok.l_bracket s) _ _
          (λ k. Parses-trans s s₂ _ over (
            postfix_loop-Parses f _ s₂ (over.closed h)
              (omega (arith, at_lt Tok.l_bracket s h k refl, behind.fewer))))
          λ k. Goes-refl s

    parse_primary-Parses :
        (f : ℕ) (s : ParseState D)
        → Closed s
        → 8 * left s + 1 < f
        → Finds (Parses s) (parse_primary c f s)
    parse_primary-Parses zero s h l = elim l [ ]
    parse_primary-Parses (suc f) s h l =
        let P = Parses s in
        let on = adv-Goes s in
        Finds-if P (at Tok.bang s) _ _ (λ k. on)
          λ k₁.
            Finds-if P (at Tok.l_paren s) _ _
              (λ k.
                let shorter = at_lt Tok.l_paren s h k refl in
                Parses-bind s (parse_binary c f 1 false (adv s)) _
                  (Parses-trans s (adv s) _ on
                    (parse_binary-Parses f 1 false (adv s) (on.closed h) (omega arith)))
                  λ e t a. Goes-trans s t _ a (expect-Goes Tok.r_paren (codes "')'") t))
              λ k₂.
                Finds-if P (at Tok.number s) _ _ (λ k. on)
                  λ k₃.
                    Finds-if P (at Tok.string s) _ _ (λ k. on)
                      λ k₄.
                        Finds-if P (at Tok.kw_true s || at Tok.kw_false s) _ _ (λ k. on)
                          λ k₅.
                            Finds-if P (at Tok.ident s) _ _
                              (λ k.
                                Finds-if P (at Tok.l_paren (adv s)) _ _
                                  (λ k'.
                                    let shorter = at_lt Tok.ident s h k refl in
                                    Parses-bind s (parse_call_args c f (adv s)) _
                                      (Parses-trans s (adv s) _ on (
                                        parse_call_args-Parses f (adv s) (on.closed h)
                                          (omega arith)))
                                      λ e t a. a)
                                  λ k'. on)
                              λ k₆.
                                error-Goes
                                  (codes "expected an expression, got " ++ tok_name s.now.kind) s

    pub parse_call_args-Parses :
        (f : ℕ) (s : ParseState D)
        → Closed s
        → 8 * left s + 6 < f
        → Finds (Parses s) (parse_call_args c f s)
    parse_call_args-Parses zero s h l = elim l [ ]
    parse_call_args-Parses (suc f) s h l =
        let s₁ = (expect Tok.l_paren (codes "'('") s).1 in
        let on = expect-Goes Tok.l_paren (codes "'('") s in
        Finds-if (Parses s) (at Tok.r_paren s₁) _ _ (λ k. Goes-trans s s₁ (adv s₁) on (adv-Goes s₁))
          λ k.
            Parses-trans s s₁ _ on (args_loop-Parses f s₁ (on.closed h) (omega (arith, on.fewer)))

    args_loop-Parses :
        (f : ℕ) (s : ParseState D)
        → Closed s
        → 8 * left s + 5 < f
        → Finds (Parses s) (args_loop c f s)
    args_loop-Parses zero s h l = elim l [ ]
    args_loop-Parses (suc f) s h l =
        let named = at Tok.ident s && same (peek s).kind Tok.assign in
        let next = if named then adv (adv s) else s in
        let over : Goes s next =
          if_holds (Goes s) named (adv (adv s)) s
            (λ k. Goes-trans s (adv s) (adv (adv s)) (adv-Goes s) (adv-Goes (adv s)))
            λ k. Goes-refl s in
        Parses-bind s (parse_binary c f 1 true next) _
          (Parses-trans s next _ over
            (parse_binary-Parses f 1 true next (over.closed h) (omega (arith, over.fewer))))
          λ value t a.
            Finds-if (Parses s) (at Tok.comma t) _ _
              (λ k.
                let shorter = at_lt Tok.comma t (a.closed h) k refl in
                let behind = Goes-trans s t (adv t) a (adv-Goes t) in
                Parses-bind s (args_loop c f (adv t)) _
                  (Parses-trans s (adv t) _ behind
                    (args_loop-Parses f (adv t) (behind.closed h) (omega (arith, a.fewer))))
                  λ args u b. b)
              λ k. Goes-trans s t _ a (expect-Goes Tok.r_paren (codes "')'") t)

  pub parse_expr-Parses :
      (in_args : Bool) (s : ParseState D) → Closed s → Finds (Parses s) (parse_expr c in_args s)
  unfolding parse_expr
  parse_expr-Parses in_args s h = parse_binary-Parses (8 * left s + 8) 1 in_args s h (omega arith)
