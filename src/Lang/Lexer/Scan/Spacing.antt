-- ===== src/Lang/Lexer/Scan/Spacing.antt =====
-- include/xrune/lang/parser/lexer.hpp: where the Newline and End tokens of lex() stand.
use xrune.Base.{
  Finds, Finds-if, Finds-bind, ℕ, zero, suc, ◌+◌, ◌<◌, ◌≡◌, ◌∙◌, refl, sym, ap, subst, true, false,
  ◌&&◌, Option, none, some, List, [], ◌∷◌, if◌then◌else◌, length, ◌>>=◌, arith, inl, inr,
}
use xrune.Json.{Text}
use xrune.Lang.Token.{Tok, Token, Diagnostic, continues_line, same}
use xrune.Lang.Lexer.{LexState, Skipped, newline_at, unterminated, token_at, skip_blanks}
use xrune.Lang.Lexer.Cursor.{left, Forward, Skips, skip_blanks-Skips}
use xrune.Lang.Lexer.Scan.{token, next, at_line_start, run_loop, lex, skipped_to}
use xrune.Lang.Lexer.Scan.Shape.{depth_after, Takes}
use xrune.Lang.Lexer.Scan.Taken.{Given, token-Given}

-- A newline can stand there: behind a token that ends a line, outside all brackets.
abbrev pub Breakable : Option Tok → ℕ → Type 0
Breakable none depth = ⊥
Breakable (some k) depth = (same k Tok.newline ≡ false) × (continues_line k ≡ false) × (depth ≡ 0)

-- The tokens that follow one of kind `back` inside `depth` brackets.
unfoldable pub WellSpaced : {D : Type 0} → Option Tok → ℕ → List (Token D) → Type 0
WellSpaced back depth [] = ⊥
WellSpaced back depth (t ∷ ts) =
    (same t.kind Tok.newline ≡ true → Breakable back depth)
    × (same t.kind Tok.end ≡ true → ts ≡ [])
    × (same t.kind Tok.end ≡ false → WellSpaced (some t.kind) (depth_after t.kind depth) ts)

-- last is the kind of the last token that is no newline.
abbrev Linked : Option Tok → LexState → Type 0
Linked none s = Unit {0}
Linked (some k) s = same k Tok.newline ≡ false → s.last ≡ k

-- What next() comes to.
data Comes {D : Type 0} (s : LexState) : Token D × LexState → Type 0 where
  comes_end : (t : Token D) (s' : LexState) → t.kind ≡ Tok.end → Comes s (t, s')
  comes_newline :
      (t : Token D) (s' : LexState)
      → t.kind ≡ Tok.newline
      → Forward s s'
      → left s' < left s
      → s.bracket_depth ≡ 0
      → continues_line s.last ≡ false
      → Comes s (t, s')
  comes_taken : (t : Token D) (s' : LexState) → Takes s t.kind s' → Comes s (t, s')

module _ {D : Type 0} (zero_value : D) (strtod : Text → D) where
  behind_blanks : (s t : LexState) (r : Token D × LexState) → Forward s t → Given t r → Comes s r
  behind_blanks s t (tok, s') a (inl e) = comes_end tok s' e
  behind_blanks s t (tok, s') a (inr b) = comes_taken tok s' (record {
    shorter = omega (arith, a.fewer, b.shorter);
    same_last = b.same_last ∙ a.same_last;
    depth = b.depth ∙ ap (depth_after tok.kind) a.same_depth;
    not_end = b.not_end;
    not_newline = b.not_newline;
  })

  skipped_to-Comes :
      (s : LexState) (r : Skipped) → Skips s r → Comes s (skipped_to zero_value strtod r)
  unfolding skipped_to
  skipped_to-Comes s (newline_at l c s') (a, shorter, depth, last) =
      comes_newline _ s' refl a shorter depth last
  skipped_to-Comes s (unterminated s') a = comes_end _ s' refl
  skipped_to-Comes s (token_at t) a =
      behind_blanks s t (token zero_value strtod t) a (token-Given zero_value strtod t)

  next-Comes : (s : LexState) → Finds (Comes s) (next zero_value strtod s)
  unfolding next
  next-Comes s =
      Finds-bind (Skips s) (Comes s) (skip_blanks (length s.rest + 1) s) _
        (skip_blanks-Skips (length s.rest + 1) s (omega arith)) λ r h. skipped_to-Comes s r h

  abbrev Spaced : Option Tok → ℕ → List (Token D) × List Diagnostic → Type 0
  Spaced back depth (ts, diags) = WellSpaced back depth ts

  Linked-move :
      (back : Option Tok) (s t : LexState) → t.last ≡ s.last → Linked back s → Linked back t
  Linked-move none s t e link = link
  Linked-move (some k) s t e link = λ n. e ∙ link n

  Linked-Breakable :
      (back : Option Tok) (s : LexState)
      → Linked back s
      → at_line_start back ≡ false
      → continues_line s.last ≡ false
      → s.bracket_depth ≡ 0
      → Breakable back s.bracket_depth
  unfolding at_line_start
  Linked-Breakable none s link h last depth = cc
  Linked-Breakable (some k) s link h last depth =
      (h, subst (λ k. continues_line k ≡ false) (link h) last, depth)

  -- A token that is kept, and is not the end.
  kept :
      (f : ℕ) (back : Option Tok) (s s' : LexState) (t : Token D)
      → Finds
          (Spaced (some t.kind) s'.bracket_depth)
          (run_loop zero_value strtod f (some t.kind) s')
      → same t.kind Tok.end ≡ false
      → s'.bracket_depth ≡ depth_after t.kind s.bracket_depth
      → (same t.kind Tok.newline ≡ true → Breakable back s.bracket_depth)
      → Finds
          (Spaced back s.bracket_depth)
          (run_loop zero_value strtod f (some t.kind) s' >>= λ (ts, diags). some (t ∷ ts, diags))
  unfolding WellSpaced
  kept f back s s' t h e d b =
      Finds-bind (Spaced (some t.kind) s'.bracket_depth) (Spaced back s.bracket_depth)
        (run_loop zero_value strtod f (some t.kind) s') _ h
        λ r w. (b, λ k. cc, λ k. subst (λ n. WellSpaced (some t.kind) n r.0) d w)

  run_loop-Spaced :
      (f : ℕ) (back : Option Tok) (s : LexState)
      → left s < f
      → Linked back s
      → Finds (Spaced back s.bracket_depth) (run_loop zero_value strtod f back s)
  unfolding run_loop same WellSpaced
  run_loop-Spaced zero back s h link = elim h [ ]
  run_loop-Spaced (suc f) back s h link =
      let P = Spaced back s.bracket_depth in
      Finds-bind (Comes s) P (next zero_value strtod s) _ (next-Comes s) λ r c. elim c [
        | comes_end t s' e ↦
            let end_read : same t.kind Tok.end ≡ true = rw e refl in
            let no_newline : same t.kind Tok.newline ≡ false = rw e refl in
            Finds-if P (same t.kind Tok.newline && at_line_start back) _ _ (λ k. ground arith)
              λ k.
                Finds-if P (same t.kind Tok.end) _ _ (λ k'. (λ n. cc, λ n. refl, λ n. cc)) λ k'. cc
        | comes_newline t s' e a l d c' ↦
            let end_read : same t.kind Tok.end ≡ false = rw e refl in
            let newline_read : same t.kind Tok.newline ≡ true = rw e refl in
            let same_depth : depth_after t.kind s.bracket_depth ≡ s.bracket_depth = rw e refl in
            let s'' = if same t.kind Tok.newline then s' else record s' { last = t.kind } in
            let stays : s'' ≡ s' = rw newline_read refl in
            Finds-if P (same t.kind Tok.newline && at_line_start back) _ _
              (λ k.
                subst (λ n. Finds (Spaced back n) (run_loop zero_value strtod f back s'))
                  a.same_depth
                  (run_loop-Spaced f back s' (omega arith)
                    (Linked-move back s s' a.same_last link)))
              λ k.
                Finds-if P (same t.kind Tok.end) _ _ (λ k'. cc)
                  λ k'.
                    kept f back s s'' t
                      (run_loop-Spaced f (some t.kind) s'' (rw stays (omega arith)) (λ n. cc))
                      end_read (rw stays (a.same_depth ∙ sym same_depth))
                      λ n. Linked-Breakable back s link (ground arith) c' d
        | comes_taken t s' b ↦
            let s'' = if same t.kind Tok.newline then s' else record s' { last = t.kind } in
            let set : s'' ≡ record s' { last = t.kind } = rw b.not_newline refl in
            Finds-if P (same t.kind Tok.newline && at_line_start back) _ _
              (λ k. ground (arith, b.not_newline))
              λ k.
                Finds-if P (same t.kind Tok.end) _ _ (λ k'. cc b.not_end)
                  λ k'.
                    kept f back s s'' t
                      (run_loop-Spaced f (some t.kind) s'' (rw set (omega (arith, b.shorter)))
                        (λ n. rw set refl))
                      b.not_end (rw set b.depth) λ n. cc b.not_newline
      ]

  -- Lexing any source ends, and gives a list of tokens that has one End token, its last, and a Newline
  -- token only directly behind a token that is no Newline and does not continue its line, where as
  -- many brackets are closed as are open, a closing bracket too many not counted.
  pub lex-WellSpaced :
      (src : Text) (diags : List Diagnostic)
      → Finds (λ (ts, ds). WellSpaced none 0 ts) (lex zero_value strtod src diags)
  unfolding lex
  lex-WellSpaced src diags =
      run_loop-Spaced (length src + 1) none
        (record {
          rest = src;
          line = 1;
          col = 1;
          bracket_depth = 0;
          last = Tok.newline;
          diags = diags;
        })
        (omega arith) tt
