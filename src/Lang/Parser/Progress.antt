-- ===== src/Lang/Parser/Progress.antt =====
-- include/xrune/lang/parser/parser.hpp: how the token helpers move on.
use xrune.Base.{
  ℕ, ◌<◌, ◌≤◌, ◌≡◌, refl, ℤ, Bool, false, not, ◌||◌, Option, none, some, List, [], ◌∷◌, ◌++◌,
  length, ◌>>=◌, arith, Finds, Finds-if, Finds-bind, Finds-weaken, if_holds, subst, ap,
}
use xrune.Json.{Text, codes}
use xrune.Lang.Token.{Tok, Token, same, tok_name}
use xrune.Lang.Parser.{
  CDoubles, ParseState, at, adv, adv_while, is_newline, is_inner, skip_newlines, synchronize, error,
  error_at, expect, parse_index, move, is_negative,
}

module _ {D : Type 0} where
  -- The last token is End.
  abbrev pub Closes : Token D → List (Token D) → Type 0
  Closes t [] = t.kind ≡ Tok.end
  Closes t (u ∷ us) = Closes u us

  pub record Closed (s : ParseState D) : Type 0 where
    pub closes : Closes s.now s.ahead

  abbrev pub left : ParseState D → ℕ
  left s = length s.ahead

  pub record Goes (s s' : ParseState D) : Type 0 where
    pub closed : Closed s → Closed s'
    pub fewer : left s' ≤ left s

  pub Goes-refl : (s : ParseState D) → Goes s s
  Goes-refl s = record { closed = λ h. h; fewer = omega arith }

  pub Goes-trans : (s t u : ParseState D) → Goes s t → Goes t u → Goes s u
  Goes-trans s t u a b = record {
    closed = λ h. b.closed (a.closed h);
    fewer = omega (arith, a.fewer, b.fewer);
  }

  move-Goes : (s : ParseState D) (ts : List (Token D)) → s.ahead ≡ ts → Goes s (move s ts)
  move-Goes s [] e = Goes-refl s
  move-Goes s (t ∷ ts) e = record {
    closed = λ h. record { closes = subst (Closes s.now) e h.closes };
    fewer = rw e (omega arith);
  }

  pub adv-Goes : (s : ParseState D) → Goes s (adv s)
  unfolding adv
  adv-Goes s = move-Goes s s.ahead refl

  move_lt :
      (s : ParseState D) (ts : List (Token D))
      → s.ahead ≡ ts
      → Closes s.now ts
      → same s.now.kind Tok.end ≡ false
      → left (move s ts) < left s
  unfolding same
  move_lt s [] e h n = cc
  move_lt s (t ∷ ts) e h n = rw e (omega arith)

  -- Only End is not passed.
  pub adv_lt :
      (s : ParseState D) → Closed s → same s.now.kind Tok.end ≡ false → left (adv s) < left s
  unfolding adv
  adv_lt s h n = move_lt s s.ahead refl h.closes n

  pub error_at-Goes : (m : Text) (l c : ℕ) (s : ParseState D) → Goes s (error_at m l c s)
  unfolding error_at
  error_at-Goes m l c s = record { closed = λ h. record { closes = h.closes }; fewer = omega arith }

  pub error-Goes : (m : Text) (s : ParseState D) → Goes s (error m s)
  unfolding error
  error-Goes m s = error_at-Goes m s.now.line s.now.col s

  pub expect-Goes : (k : Tok) (what : Text) (s : ParseState D) → Goes s (expect k what s).1
  unfolding expect
  expect-Goes k what s =
      if_holds (Goes s) (at k s) (adv s) _ (λ e. adv-Goes s)
        λ e. error-Goes (codes "expected " ++ what ++ codes ", got " ++ tok_name s.now.kind) s

  pub parse_index-Goes : (c : CDoubles D) (s : ParseState D) → Goes s (parse_index c s).1
  unfolding parse_index
  parse_index-Goes c s =
      let P : ℤ × ParseState D → Type 0 = λ r. Goes s r.1 in
      let on = adv-Goes s in
      if_holds P (at Tok.number s) _ _
        (λ e.
          if_holds (Goes s)
            (not (c.equals (c.of_int (c.to_int s.now.value)) s.now.value)
              || is_negative (c.to_int s.now.value))
            (error (codes "channel index must be a non-negative integer") (adv s)) (adv s)
            (λ e'.
              Goes-trans s (adv s) _ on
                (error-Goes (codes "channel index must be a non-negative integer") (adv s)))
            λ e'. on)
        λ e. error-Goes (codes "expected a channel index, got " ++ tok_name s.now.kind) s

  -- What a part of the parser comes to: a result, and a place further on.
  abbrev pub Parses : {A : Type 0} → ParseState D → A × ParseState D → Type 0
  Parses s (a, s') = Goes s s'

  pub Parses-trans :
      {A : Type 0} (s t : ParseState D) (o : Option (A × ParseState D))
      → Goes s t
      → Finds (Parses t) o
      → Finds (Parses s) o
  Parses-trans s t o a h = Finds-weaken (Parses t) (Parses s) o (λ r b. Goes-trans s t r.1 a b) h

  pub Parses-bind :
      {A B : Type 0} (s : ParseState D) (o : Option (A × ParseState D))
      (k : A × ParseState D → Option (B × ParseState D))
      → Finds (Parses s) o
      → ((a : A) (t : ParseState D) → Goes s t → Finds (Parses s) (k (a, t)))
      → Finds (Parses s) (o >>= k)
  Parses-bind s o k h f = Finds-bind (Parses s) (Parses s) o k h (λ r a. f r.0 r.1 a)

  -- A loop ends at a token that fails its test, which the last one does.
  adv_while-Goes :
      (test : Tok → Bool) (ts : List (Token D)) (s : ParseState D)
      → s.ahead ≡ ts
      → Closed s
      → test Tok.end ≡ false
      → Finds (Goes s) (adv_while test ts s)
  unfolding adv_while
  adv_while-Goes test [] s e h z =
      Finds-if (Goes s) (test s.now.kind) none (some s)
        (λ k. cc (ap test (subst (Closes s.now) e h.closes))) λ k. Goes-refl s
  adv_while-Goes test (t ∷ ts) s e h z =
      let one : ParseState D = record s { now = t; ahead = ts } in
      let on : Goes s one = move-Goes s (t ∷ ts) e in
      Finds-if (Goes s) (test s.now.kind) (adv_while test ts one) (some s)
        (λ k.
          Finds-weaken (Goes one) (Goes s) (adv_while test ts one) (λ u a. Goes-trans s one u on a)
            (adv_while-Goes test ts one refl (on.closed h) z))
        λ k. Goes-refl s

  pub skip_newlines-Goes : (s : ParseState D) → Closed s → Finds (Goes s) (skip_newlines s)
  unfolding skip_newlines same
  skip_newlines-Goes s h = adv_while-Goes is_newline s.ahead s refl h refl

  pub synchronize-Goes : (s : ParseState D) → Closed s → Finds (Goes s) (synchronize s)
  unfolding synchronize same
  synchronize-Goes s h = adv_while-Goes is_inner s.ahead s refl h refl

  -- What is left of tokens that do not start with the last.
  pub left_pos : (s : ParseState D) → Closed s → same s.now.kind Tok.end ≡ false → 0 < left s
  left_pos s h n = omega (arith, adv_lt s h n)

  move_shorter :
      (s : ParseState D) (ts : List (Token D))
      → s.ahead ≡ ts
      → 0 < length ts
      → left (move s ts) < left s
  move_shorter s [] e l = elim l [ ]
  move_shorter s (t ∷ ts) e l = rw e (omega arith)

  pub adv_shorter : (s : ParseState D) → 0 < left s → left (adv s) < left s
  unfolding adv
  adv_shorter s l = move_shorter s s.ahead refl l
