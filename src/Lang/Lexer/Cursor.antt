-- ===== src/Lang/Lexer/Cursor.antt =====
-- include/xrune/lang/parser/lexer.hpp: how the loops of the lexer move on.
use xrune.Base.{
  ℕ, zero, suc, ◌<◌, ◌≤◌, ◌≡◌, refl, Bool, true, false, not, ◌&&◌, ◌||◌, [], ◌∷◌, ◌==◌, ltb, length,
  arith, subst, ==_iff, sym, Finds, Finds-if, Finds-weaken, ◌∙◌, Bool-cases, inl, inr,
}
use xrune.Json.{Text}
use xrune.Lang.Token.{continues_line}
use xrune.Lang.Lexer.{
  LexState, head_or_nul, Skipped, newline_at, unterminated, token_at, cur, peek, advance,
  advance_while, run_over, skip_blanks, drop_one, run_comment,
}

-- How much of the source is left.
abbrev pub left : LexState → ℕ
left s = length s.rest

length-drop_one : (ts : Text) → length (drop_one ts) ≤ length ts
length-drop_one [] = omega arith
length-drop_one (b ∷ bs) = omega arith

-- What moving on keeps: no text comes back, and the brackets and the last kind stay.
pub record Forward (s s' : LexState) : Type 0 where
  pub fewer : left s' ≤ left s
  pub same_depth : s'.bracket_depth ≡ s.bracket_depth
  pub same_last : s'.last ≡ s.last

pub Forward-refl : (s : LexState) → Forward s s
Forward-refl s = record { fewer = omega arith; same_depth = refl; same_last = refl }

pub Forward-trans : (s t u : LexState) → Forward s t → Forward t u → Forward s u
Forward-trans s t u a b = record {
  fewer = omega (arith, a.fewer, b.fewer);
  same_depth = b.same_depth ∙ a.same_depth;
  same_last = b.same_last ∙ a.same_last;
}

pub advance-Forward : (s : LexState) → Forward s (advance s)
unfolding advance
advance-Forward s = record { fewer = length-drop_one s.rest; same_depth = refl; same_last = refl }

drop_one_lt : (ts : Text) → (head_or_nul ts == 0) ≡ false → length (drop_one ts) < length ts
drop_one_lt [] h = cc
drop_one_lt (b ∷ bs) h = omega arith

-- A byte other than 0 is passed.
pub advance_lt : (s : LexState) → (cur s == 0) ≡ false → left (advance s) < left s
unfolding advance
advance_lt s h = drop_one_lt s.rest h

pub run_over-Forward : (test : ℕ → Bool) (ts : Text) (s : LexState) → Forward s (run_over test ts s)
unfolding run_over
run_over-Forward test [] s = Forward-refl s
run_over-Forward test (b ∷ bs) s = elim (Bool-cases (test b)) [
  | inl h ↦ rw h (
      Forward-trans s (advance s) (run_over test bs (advance s)) (advance-Forward s)
        (run_over-Forward test bs (advance s)))
  | inr h ↦ rw h (Forward-refl s)
]

run_over_first :
    (test : ℕ → Bool) (ts : Text) (s : LexState)
    → s.rest ≡ ts
    → test (head_or_nul ts) ≡ true
    → test 0 ≡ false
    → left (run_over test ts s) < left s
unfolding run_over
run_over_first test [] s e h z = cc
run_over_first test (b ∷ bs) s e h z =
    let other : (b == 0) ≡ false = elim (Bool-cases (b == 0)) [
      | inl zero_byte ↦ cc (subst (λ k. test k ≡ true) ((==_iff b 0).0 zero_byte) h, z)
      | inr h' ↦ h'
    ] in
    let on = advance_lt s (rw e other) in
    rw h (omega (arith, (run_over-Forward test bs (advance s)).fewer, on))

-- A loop that runs on the byte at hand passes it.
pub advance_while_lt :
    (test : ℕ → Bool) (s : LexState)
    → test (cur s) ≡ true
    → test 0 ≡ false
    → left (advance_while test s) < left s
advance_while_lt test s h z = run_over_first test s.rest s refl h z

pub run_comment-Forward : (ts : Text) (s : LexState) → Forward s (run_comment ts s)
unfolding run_comment
run_comment-Forward [] s = Forward-refl s
run_comment-Forward (b ∷ bs) s = elim (Bool-cases (b == 0 || b == b'*' && head_or_nul bs == b'/')) [
  | inl h ↦ rw h (Forward-refl s)
  | inr h ↦ rw h (
      Forward-trans s (advance s) (run_comment bs (advance s)) (advance-Forward s)
        (run_comment-Forward bs (advance s)))
]

-- The first loop of next() goes forward; a newline counts only outside brackets and behind a token
-- that does not continue its line, and it is passed.
abbrev pub Skips : LexState → Skipped → Type 0
Skips s (newline_at l c s') =
    Forward s s' × (left s' < left s) × (s.bracket_depth ≡ 0) × (continues_line s.last ≡ false)
Skips s (unterminated s') = Forward s s'
Skips s (token_at s') = Forward s s'

Skips-trans : (s t : LexState) (r : Skipped) → Forward s t → Skips t r → Skips s r
Skips-trans s t (newline_at l c s') a (b, shorter, depth, last) = (
  Forward-trans s t s' a b,
  omega (arith, a.fewer),
  sym a.same_depth ∙ depth,
  rw (← a.same_last) last,
)
Skips-trans s t (unterminated s') a b = Forward-trans s t s' a b
Skips-trans s t (token_at s') a b = Forward-trans s t s' a b

pub skip_blanks-Skips : (f : ℕ) (s : LexState) → left s < f → Finds (Skips s) (skip_blanks f s)
unfolding skip_blanks
skip_blanks-Skips zero s h = elim h [ ]
skip_blanks-Skips (suc f) s h =
    let go : (t : LexState) → Forward s t → left t < left s → Finds (Skips s) (skip_blanks f t) =
      λ t a l.
        Finds-weaken (Skips t) (Skips s) (skip_blanks f t) (λ r b. Skips-trans s t r a b)
          (skip_blanks-Skips f t (omega arith)) in
    let s₁ = advance s in
    let one = advance-Forward s in
    let s₂ = run_comment (drop_one (drop_one s.rest)) (advance s₁) in
    let inside =
      Forward-trans s (advance s₁) s₂ (Forward-trans s s₁ (advance s₁) one (advance-Forward s₁))
        (run_comment-Forward (drop_one (drop_one s.rest)) (advance s₁)) in
    let behind =
      Forward-trans s (advance s₂) (advance (advance s₂))
        (Forward-trans s s₂ (advance s₂) inside (advance-Forward s₂))
        (advance-Forward (advance s₂)) in
    Finds-if (Skips s) (cur s == b'\n') _ _
      (λ e.
        Finds-if (Skips s) (ltb 0 s.bracket_depth || continues_line s.last) _ _
          (λ k. go s₁ one (advance_lt s (ground arith)))
          λ k. (one, advance_lt s (ground arith), ground arith, ground arith))
      λ e₁.
        Finds-if (Skips s) (cur s == b' ' || cur s == b'\t' || cur s == b'\r') _ _
          (λ e. go s₁ one (advance_lt s (ground arith)))
          λ e₂.
            Finds-if (Skips s) (cur s == b'/' && peek s == b'/') _ _
              (λ e.
                go (advance_while (λ b. not (b == 0) && not (b == b'\n')) s)
                  (run_over-Forward (λ b. not (b == 0) && not (b == b'\n')) s.rest s)
                  (advance_while_lt (λ b. not (b == 0) && not (b == b'\n')) s (ground arith) refl))
              λ e₃.
                Finds-if (Skips s) (cur s == b'/' && peek s == b'*') _ _
                  (λ e.
                    Finds-if (Skips s) (cur s₂ == 0) _ _
                      (λ k. record {
                        fewer = inside.fewer;
                        same_depth = inside.same_depth;
                        same_last = inside.same_last;
                      })
                      λ k. go (advance (advance s₂)) behind (
                        omega (
                          arith,
                          advance_lt s (ground arith),
                          (advance-Forward s₁).fewer,
                          (run_comment-Forward (drop_one (drop_one s.rest)) (advance s₁)).fewer,
                          (advance-Forward s₂).fewer,
                          (advance-Forward (advance s₂)).fewer,
                        )))
                  λ e₄. Forward-refl s
