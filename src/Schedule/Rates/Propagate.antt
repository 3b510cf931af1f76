-- ===== src/Schedule/Rates/Propagate.antt =====
-- src/schedule.cpp: the loop over topo_order that assigns rates, blocks and calls.
use xrune.Base.{
  ℕ, suc, ◌*◌, ◌^◌, ◌<◌, ◌≡◌, sym, ap, ◌∙◌, ◌≢◌, subst, inl, inr, true, false, some, List, [], ◌∷◌,
  ◌++◌, ◌==◌, get_or, get_elem?, length, length-modify, get_or-modify_self, get_or-modify_ne, arith,
  Bool-cases, ℤ, pos, ◌+ℤ◌, word, member, member_snoc,
}
use native.Mathlib.Nat.{div-add-mod'}
use mathlib.Core.Option.{some-injective}
use xrune.Blueprint.{Node}
use xrune.Schedule.Topo.Edges.{Edges, has_edge, indegree}
use xrune.Schedule.Rates.{RateVectors, Gathered, NodeRate, block_delta, gather, store, minus_one}
use xrune.Schedule.Rates.Gather.{Small, rate_at, exponent_at, gather_agrees, gather_none}
use xrune.Schedule.Rates.Sound.{IsRated, Passed, Passed-IsRated, base_rate, base_blk}

-- One edge of the propagation: from a predecessor's rate and exponent to those of the node.
abbrev pub StepsTo : {S : Type 0} → Node S → ℕ → ℤ → ℕ → ℤ → Type 0
StepsTo nd rate exponent rate' exponent' =
    (rate' * nd.rate_den ≡ word (rate * nd.rate_num))
    × (d : ℤ) × (block_delta nd.block_num nd.block_den ≡ some d)
    × (exponent' ≡ exponent +ℤ d)

pub record IsPlaced {S : Type 0} (nodes : List (Node S)) (es : Edges) (block_size : ℕ)
    (s : RateVectors) (v : ℕ) : Type 0 where
  pub rated :
      IsRated block_size
        (rate_at s v)
        (exponent_at s v)
        (get_or s.node_block v block_size)
        (get_or s.calls v 1)
  pub from_input :
      (u : ℕ) (nd : Node S)
      → has_edge u v es ≡ true
      → get_elem? nodes v ≡ some nd
      → StepsTo nd (rate_at s u) (exponent_at s u) (rate_at s v) (exponent_at s v)
  pub from_nothing :
      (nd : Node S)
      → indegree v es ≡ 0
      → get_elem? nodes v ≡ some nd
      → StepsTo nd 1 (pos 0) (rate_at s v) (exponent_at s v)

abbrev pub start : Gathered
start = record { in_rate = minus_one; in_blk = pos 0; consistent = true }

Passed-StepsTo :
    {S : Type 0} (block_size : ℕ) (nd : Node S) (g : Gathered) (r : NodeRate)
    → Passed block_size nd g r
    → StepsTo nd (base_rate g) (base_blk g) r.rate r.exponent
Passed-StepsTo block_size nd g r p = (
  rw p.rate (omega (arith, div-add-mod' (word (base_rate g * nd.rate_num)) nd.rate_den, p.exact)),
  p.delta,
  p.deltas,
  p.exponent,
)

base_of_positive :
    (g : Gathered) (x : ℕ) (y : ℤ)
    → g.in_rate ≡ x
    → g.in_blk ≡ y
    → x < 2 ^ 63
    → (base_rate g ≡ x) × (base_blk g ≡ y)
base_of_positive g x y e f h = ground arith

module _ {S : Type 0} (nodes : List (Node S)) (es : Edges) (b : ℕ) where
  -- The width of the vectors, small rates, and the nodes done placed.
  pub record Inv (done : List ℕ) (s : RateVectors) : Type 0 where
    pub rates : length s.region_rate ≡ length nodes
    pub blocks : length s.node_block ≡ length nodes
    pub counts : length s.calls ≡ length nodes
    pub exponents : length s.blk_exp ≡ length nodes
    pub small : Small s
    pub placed : (v : ℕ) → member v done ≡ true → IsPlaced nodes es (2 ^ suc b) s v

  module _ (v : ℕ) (nd : Node S) (s : RateVectors) (r : NodeRate) (done : List ℕ) (inv : Inv done s)
      (found : get_elem? nodes v ≡ some nd) (v_in : v < length nodes)
      (passed : Passed (2 ^ suc b) nd (gather s v es start) r)
      (sources : (u : ℕ) → has_edge u v es ≡ true → member u done ≡ true)
      (fresh : member v done ≡ false) where
    rate_self : rate_at (store s v r) v ≡ r.rate
    unfolding store
    rate_self = get_or-modify_self s.region_rate v (λ _. r.rate) 1 (omega (arith, inv.rates))

    exponent_self : exponent_at (store s v r) v ≡ r.exponent
    unfolding store
    exponent_self =
        get_or-modify_self s.blk_exp v (λ _. r.exponent) (pos 0) (omega (arith, inv.exponents))

    rate_other : (u : ℕ) → v ≢ u → rate_at (store s v r) u ≡ rate_at s u
    unfolding store
    rate_other u h = get_or-modify_ne s.region_rate v u (λ _. r.rate) 1 h

    exponent_other : (u : ℕ) → v ≢ u → exponent_at (store s v r) u ≡ exponent_at s u
    unfolding store
    exponent_other u h = get_or-modify_ne s.blk_exp v u (λ _. r.exponent) (pos 0) h

    other_of_done : (u : ℕ) → member u done ≡ true → v ≢ u
    other_of_done u m e = cc (ap (λ x. member x done) e)

    block_self : get_or (store s v r).node_block v (2 ^ suc b) ≡ r.block
    unfolding store
    block_self =
        get_or-modify_self s.node_block v (λ _. r.block) (2 ^ suc b) (omega (arith, inv.blocks))

    count_self : get_or (store s v r).calls v 1 ≡ r.count
    unfolding store
    count_self = get_or-modify_self s.calls v (λ _. r.count) 1 (omega (arith, inv.counts))

    block_other :
        (u : ℕ)
        → v ≢ u
        → get_or (store s v r).node_block u (2 ^ suc b) ≡ get_or s.node_block u (2 ^ suc b)
    unfolding store
    block_other u h = get_or-modify_ne s.node_block v u (λ _. r.block) (2 ^ suc b) h

    count_other : (u : ℕ) → v ≢ u → get_or (store s v r).calls u 1 ≡ get_or s.calls u 1
    unfolding store
    count_other u h = get_or-modify_ne s.calls v u (λ _. r.count) 1 h

    from_sources :
        (u : ℕ)
        → has_edge u v es ≡ true
        → StepsTo nd (rate_at s u) (exponent_at s u) r.rate r.exponent
    from_sources u edge =
        let (same_rate, same_exponent) =
          gather_agrees s v u es start inv.small edge passed.consistent in
        let (e, f) =
          base_of_positive (gather s v es start) _ _ same_rate same_exponent (inv.small u) in
        rw (e, f) at (Passed-StepsTo (2 ^ suc b) nd (gather s v es start) r passed)

    from_start : indegree v es ≡ 0 → StepsTo nd 1 (pos 0) r.rate r.exponent
    from_start none_in =
        rw (gather_none s v es start none_in) at
          (Passed-StepsTo (2 ^ suc b) nd (gather s v es start) r passed)

    IsPlaced-new : IsPlaced nodes es (2 ^ suc b) (store s v r) v
    IsPlaced-new = record {
      rated =
          rw (rate_self, exponent_self, block_self, count_self) (Passed-IsRated b nd _ r passed);
      from_input = λ u nd' edge found'.
          let same = some-injective nd nd' (sym found ∙ found') in
          let apart = other_of_done u (sources u edge) in
          rw (← same, rate_self, exponent_self, rate_other u apart, exponent_other u apart)
            (from_sources u edge);
      from_nothing = λ nd' none_in found'.
          let same = some-injective nd nd' (sym found ∙ found') in
          rw (← same, rate_self, exponent_self) (from_start none_in);
    }

    IsPlaced-old :
        (w : ℕ)
        → member w done ≡ true
        → ((u : ℕ) → has_edge u w es ≡ true → member u done ≡ true)
        → IsPlaced nodes es (2 ^ suc b) (store s v r) w
    IsPlaced-old w m before =
        let apart = other_of_done w m in
        let p = inv.placed w m in
        record {
          rated =
              rw
                (
                  rate_other w apart,
                  exponent_other w apart,
                  block_other w apart,
                  count_other w apart,
                )
                p.rated;
          from_input = λ u nd' edge found'.
              let apart' = other_of_done u (before u edge) in
              rw
                (
                  rate_other w apart,
                  exponent_other w apart,
                  rate_other u apart',
                  exponent_other u apart',
                )
                (p.from_input u nd' edge found');
          from_nothing = λ nd' none_in found'.
              rw (rate_other w apart, exponent_other w apart) (p.from_nothing nd' none_in found');
        }

    Small-after : Small (store s v r)
    Small-after u = elim (Bool-cases (v == u)) [
      | inl here ↦
          let same : v ≡ u = ground arith in
          subst (λ x. rate_at (store s v r) x < 2 ^ 63) same
            (rw rate_self (Passed-IsRated b nd _ r passed).small)
      | inr there ↦ rw (rate_other u (ground arith)) (inv.small u)
    ]

    pub store-Inv :
        ((w u : ℕ) → member w done ≡ true → has_edge u w es ≡ true → member u done ≡ true)
        → Inv (done ++ v ∷ []) (store s v r)
    store-Inv closed = record {
      rates = unfold store in length-modify s.region_rate v _ ∙ inv.rates;
      blocks = unfold store in length-modify s.node_block v _ ∙ inv.blocks;
      counts = unfold store in length-modify s.calls v _ ∙ inv.counts;
      exponents = unfold store in length-modify s.blk_exp v _ ∙ inv.exponents;
      small = Small-after;
      placed = λ w m. elim (Bool-cases (member w done)) [
        | inl old ↦ IsPlaced-old w old (λ u. closed w u old)
        | inr new ↦
            let same : v ≡ w = ground (arith, member_snoc w v done) in
            subst (IsPlaced nodes es (2 ^ suc b) (store s v r)) same IsPlaced-new
      ];
    }
