-- ===== src/Schedule/Rates/Gather.antt =====
-- src/schedule.cpp: the consider() loops of compile() agree with every predecessor, or fail.
use xrune.Base.{
  ℕ, ◌^◌, ◌<◌, ◌≡◌, refl, sym, ap, ◌∙◌, ◌≢◌, ◌⊎◌, subst, inl, inr, true, false, [], ◌∷◌, ◌==◌,
  if◌then◌else◌, get_or, arith, Bool-cases, ℤ, pos, int_eq→≡,
}
use xrune.Schedule.Topo.Edges.{Edges, has_edge, indegree}
use xrune.Schedule.Rates.{RateVectors, Gathered, consider, gather, minus_one}

-- The rates are positive as signed words.
abbrev pub Small : RateVectors → Type 0
Small s = (u : ℕ) → get_or s.region_rate u 1 < 2 ^ 63

gather_inconsistent :
    (s : RateVectors) (v : ℕ) (es : Edges) (g : Gathered)
    → g.consistent ≡ false
    → (gather s v es g).consistent ≡ false
unfolding gather consider
gather_inconsistent s v [] g h = h
gather_inconsistent s v ((a, b) ∷ es) g h =
    gather_inconsistent s v es (if b == v then consider s a g else g) (ground arith)

-- The values that consider() reads at a predecessor.
abbrev pub rate_at : RateVectors → ℕ → ℕ
rate_at s u = get_or s.region_rate u 1

abbrev pub exponent_at : RateVectors → ℕ → ℤ
exponent_at s u = get_or s.blk_exp u (pos 0)

consider_settled :
    (s : RateVectors) (a : ℕ) (g : Gathered)
    → g.in_rate ≢ minus_one
    → (consider s a g ≡ g) × (rate_at s a ≡ g.in_rate) × (exponent_at s a ≡ g.in_blk)
      ⊎ ((consider s a g).consistent ≡ false)
unfolding consider
consider_settled s a g h = ground (arith, int_eq→≡ (exponent_at s a) g.in_blk)

consider_first :
    (s : RateVectors) (a : ℕ) (g : Gathered)
    → g.in_rate ≡ minus_one
    → consider s a g ≡ record g { in_rate = rate_at s a; in_blk = exponent_at s a }
unfolding consider
consider_first s a g h = ground arith

gather_hit :
    (s : RateVectors) (v a b : ℕ) (es : Edges) (g : Gathered)
    → (b == v) ≡ true
    → gather s v ((a, b) ∷ es) g ≡ gather s v es (consider s a g)
unfolding gather
gather_hit s v a b es g h = rw h

gather_miss :
    (s : RateVectors) (v a b : ℕ) (es : Edges) (g : Gathered)
    → (b == v) ≡ false
    → gather s v ((a, b) ∷ es) g ≡ gather s v es g
unfolding gather
gather_miss s v a b es g h = rw h

-- Once a rate is recorded, a consistent end leaves it as it is.
gather_settled :
    (s : RateVectors) (v : ℕ) (es : Edges) (g : Gathered)
    → g.in_rate ≢ minus_one
    → (gather s v es g).consistent ≡ true
    → gather s v es g ≡ g
gather_settled s v [] g h e = unfold gather in refl
gather_settled s v ((a, b) ∷ es) g h e = elim (Bool-cases (b == v)) [
  | inl hit ↦ elim (consider_settled s a g h) [
    | inl (same, _, _) ↦
        let skip = gather_hit s v a b es g hit ∙ ap (gather s v es) same in
        skip ∙ gather_settled s v es g h (rw skip at e)
    | inr bad ↦
        absurd (cc (gather_hit s v a b es g hit, gather_inconsistent s v es (consider s a g) bad))
  ]
  | inr miss ↦
      let skip = gather_miss s v a b es g miss in skip ∙ gather_settled s v es g h (rw skip at e)
]

abbrev Records : RateVectors → ℕ → Gathered → Type 0
Records s u g = (g.in_rate ≡ rate_at s u) × (g.in_blk ≡ exponent_at s u)

consider-Records :
    (s : RateVectors) (v a : ℕ) (es : Edges) (g : Gathered)
    → Small s
    → (gather s v es (consider s a g)).consistent ≡ true
    → Records s a (gather s v es (consider s a g))
consider-Records s v a es g small e = elim (Bool-cases (g.in_rate == minus_one)) [
  | inl first ↦
      let new = consider_first s a g (ground arith) in
      let end =
        gather_settled s v es (record g { in_rate = rate_at s a; in_blk = exponent_at s a })
          (ground (arith, small a)) (rw new at e) in
      rw (new, end) (refl, refl)
  | inr later ↦ elim (consider_settled s a g (ground arith)) [
    | inl (same, r, x) ↦
        let end = gather_settled s v es g (ground arith) (rw same at e) in
        rw (same, end) (sym r, sym x)
    | inr bad ↦ absurd (cc (gather_inconsistent s v es (consider s a g) bad))
  ]
]

-- A consistent end has recorded the rate and the exponent of every predecessor.
pub gather_agrees :
    (s : RateVectors) (v u : ℕ) (es : Edges) (g : Gathered)
    → Small s
    → has_edge u v es ≡ true
    → (gather s v es g).consistent ≡ true
    → Records s u (gather s v es g)
gather_agrees s v u [] g small edge e = cc
gather_agrees s v u ((a, b) ∷ es) g small edge e = elim (Bool-cases (b == v)) [
  | inl hit ↦
      let step = gather_hit s v a b es g hit in
      let e' : (gather s v es (consider s a g)).consistent ≡ true = rw step at e in
      elim (Bool-cases (a == u)) [
        | inl here ↦
            let same : a ≡ u = ground arith in
            rw step (
              subst (λ x. Records s x (gather s v es (consider s a g))) same
                (consider-Records s v a es g small e'))
        | inr there ↦ rw step (gather_agrees s v u es (consider s a g) small (ground arith) e')
      ]
  | inr miss ↦
      rw (gather_miss s v a b es g miss)
        (gather_agrees s v u es g small (ground arith) (rw (gather_miss s v a b es g miss) at e))
]

-- With no predecessor nothing is recorded.
pub gather_none :
    (s : RateVectors) (v : ℕ) (es : Edges) (g : Gathered) → indegree v es ≡ 0 → gather s v es g ≡ g
gather_none s v [] g h = unfold gather in refl
gather_none s v ((a, b) ∷ es) g h = elim (Bool-cases (b == v)) [
  | inl hit ↦ absurd (ground arith)
  | inr miss ↦ gather_miss s v a b es g miss ∙ gather_none s v es g (ground arith)
]
