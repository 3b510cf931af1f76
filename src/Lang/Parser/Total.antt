-- ===== src/Lang/Parser/Total.antt =====
-- include/xrune/lang/parser/parser.hpp: the loops of definitions and programs, and parse().
use xrune.Base.{
  ℕ, zero, suc, ◌+◌, ◌<◌, ◌≡◌, ◌≢◌, refl, true, false, ◌||◌, Option, none, some, List, [], ◌∷◌,
  ◌==◌, length, ◌>>=◌, arith, Finds, Finds-if, Finds-bind, Finds-weaken, if_holds, subst,
  Bool-cases, inl, inr,
}
use xrune.Json.{Text, codes}
use xrune.Lang.Token.{Tok, Token, Diagnostic, same}
use xrune.Lang.Lexer.Scan.{lex}
use xrune.Lang.Lexer.Scan.Spacing.{WellSpaced, lex-WellSpaced}
use xrune.Lang.Lexer.Scan.Shape.{depth_after}
use xrune.Lang.Parser.{CDoubles, ParseState, at, adv, error, expect, skip_newlines, synchronize}
use xrune.Lang.Parser.Statements.{
  parse_statement, pass, body_loop, parse_def, program_loop, parse_program, parse_tokens, parse,
}
use xrune.Lang.Parser.Progress.{
  Closes, Closed, left, Goes, Goes-refl, Goes-trans, adv-Goes, adv_shorter, left_pos, error-Goes,
  expect-Goes, skip_newlines-Goes, synchronize-Goes, Parses, Parses-trans, Parses-bind,
}
use xrune.Lang.Parser.Ending.{parse_params-Parses, parse_statement-Parses}

is_end : (k : Tok) → same k Tok.end ≡ true → k ≡ Tok.end
unfolding same
is_end Tok.end h = refl
is_end _ h = cc

WellSpaced-Closes :
    {D : Type 0} (back : Option Tok) (depth : ℕ) (t : Token D) (ts : List (Token D))
    → WellSpaced back depth (t ∷ ts)
    → Closes t ts
unfolding WellSpaced
WellSpaced-Closes back depth t [] (n, last, more) = elim (Bool-cases (same t.kind Tok.end)) [
  | inl h ↦ is_end t.kind h
  | inr h ↦ elim (more h) [ ]
]
WellSpaced-Closes back depth t (u ∷ us) (n, last, more) = elim (Bool-cases (same t.kind Tok.end)) [
  | inl h ↦ cc (last h)
  | inr h ↦ WellSpaced-Closes (some t.kind) (depth_after t.kind depth) u us (more h)
]

module _ {D : Type 0} (c : CDoubles D) where
  -- A pass of a loop of the parser that starts at another token than End takes one.
  pass-Goes : (s t : ParseState D) → Goes s t → Goes s (pass c s t)
  pass-Goes s t a =
      if_holds (Goes s) (length t.ahead == length s.ahead) (adv t) t
        (λ k. Goes-trans s t (adv t) a (adv-Goes t)) λ k. a

  pass_lt :
      (s t : ParseState D)
      → Goes s t
      → Closed s
      → same s.now.kind Tok.end ≡ false
      → left (pass c s t) < left s
  pass_lt s t a h n =
      let some_left = left_pos s h n in
      if_holds (λ u. left u < left s) (length t.ahead == length s.ahead) (adv t) t
        (λ k. ground (arith, adv_shorter t (ground (arith, some_left)), a.fewer))
        λ k. ground (arith, a.fewer)

  -- The next pass starts behind the newlines.
  next_pass :
      {A : Type 0} (f : ℕ) (s t : ParseState D) (k : ParseState D → Option (A × ParseState D))
      → Closed s
      → same s.now.kind Tok.end ≡ false
      → left s < suc f
      → Goes s t
      → ((u : ParseState D) → Closed u → left u < f → Finds (Parses u) (k u))
      → Finds (Parses s) (skip_newlines (pass c s t) >>= k)
  next_pass f s t k h n l a go =
      let u = pass c s t in
      let over = pass-Goes s t a in
      let shorter = pass_lt s t a h n in
      Finds-bind (Goes u) (Parses s) (skip_newlines u) k (skip_newlines-Goes u (over.closed h))
        λ v b.
          let behind = Goes-trans s u v over b in
          Parses-trans s v (k v) behind (go v (behind.closed h) (omega (arith, b.fewer)))

  body_loop-Parses :
      (f : ℕ) (s : ParseState D) → Closed s → left s < f → Finds (Parses s) (body_loop c f s)
  unfolding body_loop
  body_loop-Parses zero s h l = elim l [ ]
  body_loop-Parses (suc f) s h l =
      Finds-if (Parses s) (at Tok.kw_end s || at Tok.end s) _ _ (λ k. Goes-refl s)
        λ k. Parses-bind s (parse_statement c s) _ (parse_statement-Parses c s h) λ stmt t a.
          Finds-bind (Goes s) (Parses s) _ _
            (Finds-if (Goes s) (at Tok.newline t || at Tok.kw_end t || at Tok.end t) _ _ (λ k'. a)
              λ k'.
                let t' = error (codes "expected end of line after statement") t in
                let b = Goes-trans s t t' a (error-Goes _ t) in
                Finds-weaken (Goes t') (Goes s) (synchronize t') (λ u b'. Goes-trans s t' u b b')
                  (synchronize-Goes t' (b.closed h)))
            λ t₂ b. next_pass f s t₂ _ h (ground arith) l b λ u h' l'.
              Parses-bind u (body_loop c f u) _ (body_loop-Parses f u h' l') λ stmts v b'. b'

  parse_def-Parses : (s : ParseState D) → Closed s → Finds (Parses s) (parse_def c s)
  unfolding parse_def
  parse_def-Parses s h =
      let s₁ = (expect Tok.ident (codes "definition name") (adv s)).1 in
      let on =
        Goes-trans s (adv s) s₁ (adv-Goes s)
          (expect-Goes Tok.ident (codes "definition name") (adv s)) in
      Parses-bind s _ _
        (Finds-if (Parses s) (at Tok.l_paren s₁) _ _
          (λ k. Parses-trans s s₁ _ on (parse_params-Parses c s₁ (on.closed h))) λ k. on)
        λ params t a.
          Finds-bind (Goes t) (Parses s) (skip_newlines t) _ (skip_newlines-Goes t (a.closed h))
            λ u b.
              let over = Goes-trans s t u a b in
              Parses-bind s (body_loop c (left u + 1) u) _
                (Parses-trans s u _ over
                  (body_loop-Parses (left u + 1) u (over.closed h) (omega arith)))
                λ body v b'. Goes-trans s v _ b' (expect-Goes Tok.kw_end (codes "'end'") v)

  program_loop-Parses :
      (f : ℕ) (s : ParseState D) → Closed s → left s < f → Finds (Parses s) (program_loop c f s)
  unfolding program_loop
  program_loop-Parses zero s h l = elim l [ ]
  program_loop-Parses (suc f) s h l =
      let P = Parses s in
      Finds-if P (at Tok.end s) _ _ (λ k. Goes-refl s)
        λ n.
          let go = λ (t : ParseState D) (a : Goes s t).
            next_pass f s t (program_loop c f) h n l a (λ u h' l'. program_loop-Parses f u h' l') in
          Finds-if P (at Tok.kw_rune s) _ _
            (λ k.
              Parses-bind s (parse_def c s) _ (parse_def-Parses s h)
                λ d t a. Parses-bind s _ _ (go t a) λ p u b. b)
            λ k₁.
              Finds-if P (at Tok.kw_sigil s) _ _
                (λ k.
                  Parses-bind s (parse_def c s) _ (parse_def-Parses s h)
                    λ d t a. Parses-bind s _ _ (go t a) λ p u b. b)
                λ k₂.
                  let s' = error (codes "expected 'rune' or 'sigil'") s in
                  let on = error-Goes (codes "expected 'rune' or 'sigil'") s in
                  Finds-bind (Goes s) P (synchronize s') _
                    (Finds-weaken (Goes s') (Goes s) (synchronize s')
                      (λ u b. Goes-trans s s' u on b) (synchronize-Goes s' (on.closed h)))
                    λ t a. go t a

  parse_program-Parses : (s : ParseState D) → Closed s → Finds (Parses s) (parse_program c s)
  unfolding parse_program
  parse_program-Parses s h =
      Finds-bind (Goes s) (Parses s) (skip_newlines s) _ (skip_newlines-Goes s h)
        λ t a. Parses-trans s t _ a (program_loop-Parses (left t + 1) t (a.closed h) (omega arith))

  parse_tokens-Finds :
      (back : Option Tok) (depth : ℕ) (ts : List (Token D)) (diags : List Diagnostic)
      → WellSpaced back depth ts
      → Finds (λ r. Unit {0}) (parse_tokens c ts diags)
  unfolding parse_tokens WellSpaced
  parse_tokens-Finds back depth [] diags w = w
  parse_tokens-Finds back depth (t ∷ ts) diags w =
      let s : ParseState D = record { now = t; ahead = ts; diags = diags } in
      Finds-bind (Parses s) (λ r. Unit {0}) (parse_program c s) _
        (parse_program-Parses s (record { closes = WellSpaced-Closes back depth t ts w })) λ r a. tt

  -- Parsing any source ends, and gives a program and diagnostics.
  pub parse-ne-none : (src : Text) → parse c src ≢ none
  unfolding parse
  parse-ne-none src e =
      let r : Finds (λ r. Unit {0}) (parse c src) =
        Finds-bind (λ r. WellSpaced none 0 r.0) (λ r. Unit {0}) (lex c.zero_value c.strtod src []) _
          (lex-WellSpaced c.zero_value c.strtod src [])
          λ r w. parse_tokens-Finds none 0 r.0 r.1 w in
      subst (Finds (λ r. Unit {0})) e r
