-- ===== src/Lang/Parser/Ending.antt =====
-- include/xrune/lang/parser/parser.hpp: the loops of a statement.
use xrune.Base.{
  ℕ, zero, suc, ◌+◌, ◌*◌, ◌<◌, refl, true, false, ◌&&◌, ◌∷◌, ltb, if◌then◌else◌, length, arith,
  Finds, Finds-if, if_holds,
}
use xrune.Json.{Text, codes}
use xrune.Lang.Token.{Tok, same}
use xrune.Lang.Parser.{CDoubles, ParseState, peek, at, adv, expect, parse_index}
use xrune.Lang.Parser.Expressions.{parse_expr, parse_call_args, enough}
use xrune.Lang.Parser.Statements.{
  params_loop, parse_params, parts_loop, parse_port_path, parse_input, parse_out, parse_statement,
}
use xrune.Lang.Parser.Progress.{
  Closed, left, Goes, Goes-refl, Goes-trans, adv-Goes, error_at-Goes, expect-Goes, parse_index-Goes,
  Parses, Parses-trans, Parses-bind,
}
use xrune.Lang.Parser.Enough.{parse_expr-Parses, parse_call_args-Parses, at_lt}

module _ {D : Type 0} (c : CDoubles D) where
  -- What an optional part comes to, from a state that is further on.
  adv-expect-Goes : (k : Tok) (what : Text) (s : ParseState D) → Goes s (expect k what (adv s)).1
  adv-expect-Goes k what s =
      Goes-trans s (adv s) (expect k what (adv s)).1 (adv-Goes s) (expect-Goes k what (adv s))

  params_loop-Parses :
      (f : ℕ) (s : ParseState D) → Closed s → left s < f → Finds (Parses s) (params_loop c f s)
  unfolding params_loop same
  params_loop-Parses zero s h l = elim l [ ]
  params_loop-Parses (suc f) s h l =
      let s₁ = (expect Tok.ident (codes "parameter name") s).1 in
      let on = expect-Goes Tok.ident (codes "parameter name") s in
      let on' = Goes-trans s s₁ (adv s₁) on (adv-Goes s₁) in
      Parses-bind s _ _
        (Finds-if (Parses s) (at Tok.assign s₁) _ _
          (λ k.
            Parses-bind s (parse_expr c true (adv s₁)) _
              (Parses-trans s (adv s₁) _ on' (parse_expr-Parses c true (adv s₁) (on'.closed h)))
              λ e t a. a)
          λ k. on)
        λ value t a.
          Finds-if (Parses s) (at Tok.comma t) _ _
            (λ k.
              let shorter = at_lt Tok.comma t (a.closed h) k refl in
              let behind = Goes-trans s t (adv t) a (adv-Goes t) in
              Parses-bind s (params_loop c f (adv t)) _
                (Parses-trans s (adv t) _ behind
                  (params_loop-Parses f (adv t) (behind.closed h) (omega (arith, a.fewer))))
                λ ps u b. b)
            λ k. Goes-trans s t _ a (expect-Goes Tok.r_paren (codes "')'") t)

  pub parse_params-Parses : (s : ParseState D) → Closed s → Finds (Parses s) (parse_params c s)
  unfolding parse_params
  parse_params-Parses s h =
      let s₁ = (expect Tok.l_paren (codes "'('") s).1 in
      let on = expect-Goes Tok.l_paren (codes "'('") s in
      Finds-if (Parses s) (at Tok.r_paren s₁) _ _ (λ k. Goes-trans s s₁ (adv s₁) on (adv-Goes s₁))
        λ k.
          Parses-trans s s₁ _ on (params_loop-Parses (left s₁ + 1) s₁ (on.closed h) (omega arith))

  parts_loop-Parses :
      (f : ℕ) (s : ParseState D) → Closed s → left s < f → Finds (Parses s) (parts_loop c f s)
  unfolding parts_loop same
  parts_loop-Parses zero s h l = elim l [ ]
  parts_loop-Parses (suc f) s h l =
      let s₁ = (expect Tok.ident (codes "identifier after '.'") (adv s)).1 in
      let over = adv-expect-Goes Tok.ident (codes "identifier after '.'") s in
      Finds-if (Parses s) (at Tok.dot s) _ _
        (λ k.
          let shorter = at_lt Tok.dot s h k refl in
          Parses-bind s (parts_loop c f s₁) _
            (Parses-trans s s₁ _ over (
              parts_loop-Parses f s₁ (over.closed h) (
                omega
                  (arith, (expect-Goes Tok.ident (codes "identifier after '.'") (adv s)).fewer))))
            λ ts u b. b)
        λ k. Goes-refl s

  parse_port_path-Parses : (s : ParseState D) → Closed s → Finds (Parses s) (parse_port_path c s)
  unfolding parse_port_path
  parse_port_path-Parses s h =
      let (first, s₁) = expect Tok.ident (codes "port path (node.port)") s in
      let on = expect-Goes Tok.ident (codes "port path (node.port)") s in
      Parses-bind s (parts_loop c (left s₁ + 1) s₁) _
        (Parses-trans s s₁ _ on (parts_loop-Parses (left s₁ + 1) s₁ (on.closed h) (omega arith)))
        λ parts t a.
          if_holds (Goes s) (ltb (length (first.text ∷ parts)) 2) _ t
            (λ k. Goes-trans s t _ a (error_at-Goes _ _ _ t)) λ k. a

  parse_input-Parses : (s : ParseState D) → Closed s → Finds (Parses s) (parse_input c s)
  unfolding parse_input
  parse_input-Parses s h =
      let s₁ = (expect Tok.ident (codes "terminal name") (adv s)).1 in
      let over = adv-expect-Goes Tok.ident (codes "terminal name") s in
      Parses-bind s (parse_call_args c (enough c s₁) s₁) _
        (Parses-trans s s₁ _ over
          (parse_call_args-Parses c (8 * left s₁ + 8) s₁ (over.closed h) (omega arith)))
        λ args u b. b

  parse_out-Parses : (s : ParseState D) → Closed s → Finds (Parses s) (parse_out c s)
  unfolding parse_out
  parse_out-Parses s h =
      let s₁ = adv s in
      let s₂ = (parse_index c (adv s₁)).1 in
      let s₂' = (expect Tok.r_bracket (codes "']'") s₂).1 in
      let s₃ = if at Tok.l_bracket s₁ then s₂' else s₁ in
      let over : Goes s s₃ =
        if_holds (Goes s) (at Tok.l_bracket s₁) s₂' s₁
          (λ k. Goes-trans s (adv s₁) s₂' (Goes-trans s s₁ (adv s₁) (adv-Goes s) (adv-Goes s₁)) (
            Goes-trans (adv s₁) s₂ s₂' (parse_index-Goes c (adv s₁))
              (expect-Goes Tok.r_bracket (codes "']'") s₂)))
          λ k. adv-Goes s in
      Parses-bind s (parse_expr c false s₃) _
        (Parses-trans s s₃ _ over (parse_expr-Parses c false s₃ (over.closed h)))
        λ e t a.
          if_holds (Goes s) (at Tok.kw_as t) _ t
            (λ k.
              Goes-trans s t _ a (adv-expect-Goes Tok.ident (codes "terminal name after 'as'") t))
            λ k. a

  pub parse_statement-Parses :
      (s : ParseState D) → Closed s → Finds (Parses s) (parse_statement c s)
  unfolding parse_statement
  parse_statement-Parses s h =
      let P = Parses s in
      let on = adv-Goes s in
      let on_two = Goes-trans s (adv s) (adv (adv s)) on (adv-Goes (adv s)) in
      Finds-if P (at Tok.kw_input s) _ _ (λ k. parse_input-Parses s h)
        λ k₁.
          Finds-if P (at Tok.kw_out s) _ _ (λ k. parse_out-Parses s h)
            λ k₂.
              Finds-if P (at Tok.ident s && same (peek s).kind Tok.assign) _ _
                (λ k.
                  Parses-bind s (parse_expr c false (adv (adv s))) _
                    (Parses-trans s (adv (adv s)) _ on_two
                      (parse_expr-Parses c false (adv (adv s)) (on_two.closed h)))
                    λ e t a. a)
                λ k₃.
                  Parses-bind s (parse_expr c false s) _ (parse_expr-Parses c false s h) λ e t a.
                    let behind = Goes-trans s t (adv t) a (adv-Goes t) in
                    Finds-if P (at Tok.modulate t) _ _
                      (λ k.
                        Parses-bind s (parse_port_path c (adv t)) _
                          (Parses-trans s (adv t) _ behind
                            (parse_port_path-Parses (adv t) (behind.closed h)))
                          λ target u b. b)
                      λ k₄.
                        Finds-if P (at Tok.arrow t) _ _
                          (λ k.
                            let t₂ = (expect Tok.ident (codes "target node name") (adv t)).1 in
                            let t₃ = (expect Tok.l_bracket (codes "'['") t₂).1 in
                            let t₄ = (parse_index c t₃).1 in
                            Goes-trans s t _ a (
                              Goes-trans t t₂ _
                                (adv-expect-Goes Tok.ident (codes "target node name") t)
                                (Goes-trans t₂ t₃ _ (expect-Goes Tok.l_bracket (codes "'['") t₂) (
                                  Goes-trans t₃ t₄ _ (parse_index-Goes c t₃)
                                    (expect-Goes Tok.r_bracket (codes "']'") t₄)))))
                          λ k₅. a
