-- ===== src/Lang/Lexer/Scan/Shape.antt =====
-- include/xrune/lang/parser/lexer.hpp: what keyword(), operator_token() and the loop of string() come
-- to.
use xrune.Base.{
  ℕ, ◌+◌, ◌-◌, ◌<◌, ◌≡◌, ◌∙◌, refl, sym, Bool, true, false, not, ◌&&◌, ◌||◌, [], ◌∷◌, ◌++◌, ◌==◌,
  if◌then◌else◌, length, arith, if_holds,
}
use xrune.Json.{Text, codes, equal}
use xrune.Lang.Token.{Tok, same}
use xrune.Lang.Lexer.{LexState, cur, peek, at_end, advance, report, keyword, drop_one}
use xrune.Lang.Lexer.Cursor.{left, Forward, Forward-refl, Forward-trans, advance-Forward}
use xrune.Lang.Lexer.Scan.{string_chars, string_escape, operator}

-- The open brackets behind a token.
abbrev pub depth_after : Tok → ℕ → ℕ
depth_after Tok.l_paren d = d + 1
depth_after Tok.l_bracket d = d + 1
depth_after Tok.r_paren d = d - 1
depth_after Tok.r_bracket d = d - 1
depth_after _ d = d

-- A token of that kind was taken, which is neither a newline nor the end.
pub record Takes (s : LexState) (k : Tok) (s' : LexState) : Type 0 where
  pub shorter : left s' < left s
  pub same_last : s'.last ≡ s.last
  pub depth : s'.bracket_depth ≡ depth_after k s.bracket_depth
  pub not_end : same k Tok.end ≡ false
  pub not_newline : same k Tok.newline ≡ false

pub advance_lt_end : (s : LexState) → at_end s ≡ false → left (advance s) < left s
unfolding advance
advance_lt_end s h = by_rest s.rest h
  where
    by_rest : (ts : Text) → (length ts == 0) ≡ false → length (drop_one ts) < length ts
    by_rest [] h = cc
    by_rest (b ∷ bs) h = omega arith

-- A kind that leaves the brackets as they are.
pub record IsFlat (k : Tok) : Type 0 where
  pub not_end : same k Tok.end ≡ false
  pub not_newline : same k Tok.newline ≡ false
  pub same_depth : (d : ℕ) → depth_after k d ≡ d

pub Forward-Takes :
    (s s' : LexState) (k : Tok) → Forward s s' → left s' < left s → IsFlat k → Takes s k s'
Forward-Takes s s' k a l flat = record {
  shorter = l;
  same_last = a.same_last;
  depth = a.same_depth ∙ sym (flat.same_depth s.bracket_depth);
  not_end = flat.not_end;
  not_newline = flat.not_newline;
}

if-IsFlat : (b : Bool) (k rest : Tok) → IsFlat k → IsFlat rest → IsFlat (if b then k else rest)
if-IsFlat true k rest h h' = h
if-IsFlat false k rest h h' = h'

pub keyword-IsFlat : (text : Text) → IsFlat (keyword text)
unfolding keyword same
keyword-IsFlat text =
    if-IsFlat (equal text (codes "rune")) Tok.kw_rune _
      (record { not_end = refl; not_newline = refl; same_depth = λ d. refl })
      (if-IsFlat (equal text (codes "sigil")) Tok.kw_sigil _
        (record { not_end = refl; not_newline = refl; same_depth = λ d. refl })
        (if-IsFlat (equal text (codes "end")) Tok.kw_end _
          (record { not_end = refl; not_newline = refl; same_depth = λ d. refl })
          (if-IsFlat (equal text (codes "input")) Tok.kw_input _
            (record { not_end = refl; not_newline = refl; same_depth = λ d. refl })
            (if-IsFlat (equal text (codes "out")) Tok.kw_out _
              (record { not_end = refl; not_newline = refl; same_depth = λ d. refl })
              (if-IsFlat (equal text (codes "as")) Tok.kw_as _
                (record { not_end = refl; not_newline = refl; same_depth = λ d. refl })
                (if-IsFlat (equal text (codes "true")) Tok.kw_true _
                  (record { not_end = refl; not_newline = refl; same_depth = λ d. refl })
                  (if-IsFlat (equal text (codes "false")) Tok.kw_false Tok.ident
                    (record { not_end = refl; not_newline = refl; same_depth = λ d. refl })
                    (record { not_end = refl; not_newline = refl; same_depth = λ d. refl }))))))))

-- What operator() comes to.
abbrev pub OperatorTakes : LexState → Tok × LexState → Type 0
OperatorTakes s (k, s') = Takes s k s'

pub operator-Takes : (s : LexState) → at_end s ≡ false → OperatorTakes s (operator s)
unfolding operator same
operator-Takes s h =
    let P = OperatorTakes s in
    let one = advance s in
    let two = advance one in
    let on = advance-Forward s in
    let on_two = Forward-trans s one two on (advance-Forward one) in
    let l = advance_lt_end s h in
    let l_two : left two < left s = omega (arith, (advance-Forward one).fewer) in
    if_holds P (cur s == b'<') _ _
      (λ e.
        if_holds P _ _ _
          (λ k.
            Forward-Takes s two Tok.split on_two l_two
              (record { not_end = refl; not_newline = refl; same_depth = λ d. refl }))
          (λ k. record {
            shorter = l;
            same_last = on.same_last;
            depth = on.same_depth;
            not_end = refl;
            not_newline = refl;
          }))
      λ e.
        if_holds P (cur s == b':') _ _
          (λ e.
            if_holds P _ _ _
              (λ k.
                Forward-Takes s two Tok.merge on_two l_two
                  (record { not_end = refl; not_newline = refl; same_depth = λ d. refl }))
              (λ k.
                Forward-Takes s one Tok.colon on l
                  (record { not_end = refl; not_newline = refl; same_depth = λ d. refl })))
          λ e.
            if_holds P (cur s == b'~') _ _
              (λ e.
                if_holds P _ _ _
                  (λ k.
                    Forward-Takes s two Tok.modulate on_two l_two
                      (record { not_end = refl; not_newline = refl; same_depth = λ d. refl }))
                  (λ k.
                    Forward-Takes s one Tok.tilde on l
                      (record { not_end = refl; not_newline = refl; same_depth = λ d. refl })))
              λ e.
                if_holds P (cur s == b'-') _ _
                  (λ e.
                    if_holds P _ _ _
                      (λ k.
                        Forward-Takes s two Tok.arrow on_two l_two
                          (record { not_end = refl; not_newline = refl; same_depth = λ d. refl }))
                      (λ k.
                        Forward-Takes s one Tok.minus on l
                          (record { not_end = refl; not_newline = refl; same_depth = λ d. refl })))
                  λ e.
                    if_holds P (cur s == b'(') _ _
                      (λ e. record {
                        shorter = l;
                        same_last = on.same_last;
                        depth = refl;
                        not_end = refl;
                        not_newline = refl;
                      })
                      λ e.
                        if_holds P (cur s == b')') _ _
                          (λ e. record {
                            shorter = l;
                            same_last = on.same_last;
                            depth = refl;
                            not_end = refl;
                            not_newline = refl;
                          })
                          λ e.
                            if_holds P (cur s == b'[') _ _
                              (λ e. record {
                                shorter = l;
                                same_last = on.same_last;
                                depth = refl;
                                not_end = refl;
                                not_newline = refl;
                              })
                              λ e.
                                if_holds P (cur s == b']') _ _
                                  (λ e. record {
                                    shorter = l;
                                    same_last = on.same_last;
                                    depth = refl;
                                    not_end = refl;
                                    not_newline = refl;
                                  })
                                  λ e.
                                    if_holds P (cur s == b'=') _ _
                                      (λ e. Forward-Takes s one Tok.assign on l (record {
                                        not_end = refl;
                                        not_newline = refl;
                                        same_depth = λ d. refl;
                                      }))
                                      λ e.
                                        if_holds P (cur s == b',') _ _
                                          (λ e. Forward-Takes s one Tok.comma on l (record {
                                            not_end = refl;
                                            not_newline = refl;
                                            same_depth = λ d. refl;
                                          }))
                                          λ e.
                                            if_holds P (cur s == b'.') _ _
                                              (λ e. Forward-Takes s one Tok.dot on l (record {
                                                not_end = refl;
                                                not_newline = refl;
                                                same_depth = λ d. refl;
                                              }))
                                              λ e.
                                                if_holds P (cur s == b'+') _ _
                                                  (λ e. Forward-Takes s one Tok.plus on l (record {
                                                    not_end = refl;
                                                    not_newline = refl;
                                                    same_depth = λ d. refl;
                                                  }))
                                                  λ e.
                                                    if_holds P (cur s == b'*') _ _
                                                      (λ e.
                                                        Forward-Takes s one Tok.star on l (record {
                                                          not_end = refl;
                                                          not_newline = refl;
                                                          same_depth = λ d. refl;
                                                        }))
                                                      λ e.
                                                        if_holds P (cur s == b'/') _ _
                                                          (λ e.
                                                            Forward-Takes s one Tok.slash on l
                                                            (record {
                                                            not_end = refl;
                                                            not_newline = refl;
                                                            same_depth = λ d. refl;
                                                            }))
                                                          λ e.
                                                            if_holds P (cur s == b'%') _ _
                                                            (λ e.
                                                            Forward-Takes s one Tok.percent on l
                                                            (record {
                                                            not_end = refl;
                                                            not_newline = refl;
                                                            same_depth = λ d. refl;
                                                            }))
                                                            λ e.
                                                            if_holds P (cur s == b'!') _ _
                                                            (λ e.
                                                            Forward-Takes s one Tok.bang on l
                                                            (record {
                                                            not_end = refl;
                                                            not_newline = refl;
                                                            same_depth = λ d. refl;
                                                            }))
                                                            λ e. record {
                                                            shorter = l;
                                                            same_last = on.same_last;
                                                            depth = on.same_depth;
                                                            not_end = refl;
                                                            not_newline = refl;
                                                            }

pub report-Forward : (m : Text) (l c : ℕ) (s : LexState) → Forward s (report m l c s)
report-Forward m l c s = record { fewer = omega arith; same_depth = refl; same_last = refl }

mutual
  unfolding string_chars

  pub string_chars-Forward :
      (l c : ℕ) (ts acc : Text) (s : LexState) → Forward s (string_chars l c ts acc s).1
  string_chars-Forward l c [] acc s = Forward-refl s
  string_chars-Forward l c (b ∷ bs) acc s =
      let P : Text × LexState → Type 0 = λ r. Forward s r.1 in
      let go = λ (t : LexState) (a : Forward (advance s) t).
        Forward-trans s (advance s) t (advance-Forward s) a in
      if_holds P (b == 0 || b == b'"') _ _ (λ e. Forward-refl s)
        λ e₁.
          if_holds P (b == b'\\' && not (peek s == 0)) _ _
            (λ e. go _ (string_escape-Forward l c bs acc (advance s)))
            λ e₂.
              if_holds P (b == b'\n') _ _ (λ e. report-Forward (codes "unterminated string") l c s)
                λ e₃. go _ (string_chars-Forward l c bs (acc ++ b ∷ []) (advance s))

  string_escape-Forward :
      (l c : ℕ) (ts acc : Text) (s : LexState) → Forward s (string_escape l c ts acc s).1
  string_escape-Forward l c [] acc s = Forward-refl s
  string_escape-Forward l c (e ∷ bs) acc s =
      Forward-trans s (advance s) (string_chars l c bs (acc ++ e ∷ []) (advance s)).1
        (advance-Forward s) (string_chars-Forward l c bs (acc ++ e ∷ []) (advance s))
