-- ===== src/Schedule/Layout/Regions.antt =====
-- src/schedule.cpp: the regions that the layout loops hand out follow one another and end at the
-- total, so that no two overlap.
use xrune.Base.{
  ℕ, zero, suc, ◌+◌, ◌*◌, ◌^◌, ◌≤◌, ◌<◌, ◌≡◌, ap, true, List, [], ◌∷◌, get_or, length, arith, word,
  All, get_elem?, some, align_up, align_up_lem, ltb, if◌then◌else◌, Bool-cases, inl, inr, lt→ltb,
  subst,
}
use mathlib.Core.Option.{some-injective}
use xrune.Blueprint.{Node}
use xrune.Schedule.Layout.{running, state_layout}

unfoldable pub sum : List ℕ → ℕ
sum [] = 0
sum (x ∷ xs) = x + sum xs

pub sum_before : ℕ → List ℕ → ℕ
sum_before i [] = 0
sum_before zero (x ∷ xs) = 0
sum_before (suc i) (x ∷ xs) = x + sum_before i xs

sum_before-le_sum : (i : ℕ) (xs : List ℕ) → i < length xs → sum_before i xs + get_or xs i 0 ≤ sum xs
unfolding sum sum_before
sum_before-le_sum i [] h = elim h [ ]
sum_before-le_sum zero (x ∷ xs) h = omega arith
sum_before-le_sum (suc i) (x ∷ xs) h = omega (arith, sum_before-le_sum i xs)

sum_before_mono :
    (i j : ℕ) (xs : List ℕ)
    → i < j
    → j < length xs
    → sum_before i xs + get_or xs i 0 ≤ sum_before j xs
unfolding sum_before
sum_before_mono i j [] l h = elim h [ ]
sum_before_mono i zero (x ∷ xs) l h = elim l [ ]
sum_before_mono zero (suc j) (x ∷ xs) l h = omega arith
sum_before_mono (suc i) (suc j) (x ∷ xs) l h = omega (arith, sum_before_mono i j xs)

running_base :
    (off i : ℕ) (xs : List ℕ)
    → off + sum xs < 2 ^ 64
    → i < length xs
    → get_or (running off xs).0 i 0 ≡ off + sum_before i xs
unfolding running sum sum_before
running_base off i [] fits h = elim h [ ]
running_base off zero (x ∷ xs) fits h = omega arith
running_base off (suc i) (x ∷ xs) fits h =
    let small : word (off + x) ≡ off + x = omega arith in
    rw small (omega (arith, running_base (off + x) i xs (omega arith) (omega arith)))

pub running_end :
    (off : ℕ) (xs : List ℕ) → off + sum xs < 2 ^ 64 → (running off xs).1 ≡ off + sum xs
unfolding running sum
running_end off [] fits = omega arith
running_end off (x ∷ xs) fits =
    let small : word (off + x) ≡ off + x = omega arith in
    rw small (omega (arith, running_end (off + x) xs (omega arith)))

-- The region of each entry ends before the next ones begin, and before the total.
pub record AreApart (bases sizes : List ℕ) (total : ℕ) : Type 0 where
  pub inside : (i : ℕ) → i < length sizes → get_or bases i 0 + get_or sizes i 0 ≤ total
  pub apart :
      (i j : ℕ) → i < j → j < length sizes → get_or bases i 0 + get_or sizes i 0 ≤ get_or bases j 0

pub running-AreApart :
    (xs : List ℕ) → sum xs < 2 ^ 64 → AreApart (running 0 xs).0 xs (running 0 xs).1
running-AreApart xs fits =
    let fits' : 0 + sum xs < 2 ^ 64 = omega arith in
    record {
      inside = λ i h.
          omega
            (arith, running_base 0 i xs fits' h, running_end 0 xs fits', sum_before-le_sum i xs h);
      apart = λ i j l h. omega (
        arith,
        running_base 0 i xs fits' (omega arith),
        running_base 0 j xs fits' h,
        sum_before_mono i j xs l h,
      );
    }

-- State alignments are powers of two, and the blocks with their padding fit in a size_t.
abbrev pub Aligns : {S : Type 0} → List (Node S) → Type 0
Aligns nodes = All (λ n. (k : ℕ) × (k < 64) × (n.state_align ≡ 2 ^ k)) nodes

unfoldable pub padded : {S : Type 0} → List (Node S) → ℕ
padded [] = 0
padded (n ∷ ns) = n.state_size + n.state_align + padded ns

-- The block of a node that keeps state lies between two offsets, at a multiple of its alignment.
pub record HasBlock {S : Type 0} (lo end offset : ℕ) (n : Node S) : Type 0 where
  pub from : lo ≤ offset
  pub to : offset + n.state_size ≤ end
  pub aligned : (q : ℕ) × (offset ≡ q * n.state_align)

module _ {S : Type 0} where
  abbrev placed_at : ℕ → Node S → ℕ
  placed_at soff n = if ltb 0 n.state_size then align_up soff n.state_align else soff

  -- The offset after a node's block.
  abbrev after : ℕ → Node S → ℕ
  after soff n = word (placed_at soff n + n.state_size)

  module _ (soff : ℕ) (n : Node S) (rest : ℕ) (al : (k : ℕ) × (k < 64) × (n.state_align ≡ 2 ^ k))
      (fits : soff + (n.state_size + n.state_align + rest) < 2 ^ 64) where
    placed_bounds :
        (soff ≤ placed_at soff n)
        × (placed_at soff n ≤ soff + n.state_align)
        × (after soff n ≡ placed_at soff n + n.state_size)
        × (after soff n + rest < 2 ^ 64)
    placed_bounds =
        let (k, h, e) = al in
        let (q, _, lo, hi) = align_up_lem soff k h (omega arith) in
        let eq = ap (align_up soff) e in
        elim (Bool-cases (ltb 0 n.state_size)) [
          | inl some_state ↦
              rw some_state
                (omega (arith, eq), omega (arith, eq), omega (arith, eq), omega (arith, eq))
          | inr no_state ↦ rw no_state (omega arith, omega arith, omega arith, omega arith)
        ]

    placed_aligned : 0 < n.state_size → (q : ℕ) × (placed_at soff n ≡ q * n.state_align)
    placed_aligned p =
        let (k, h, e) = al in
        let (q, at, _, _) = align_up_lem soff k h (omega arith) in
        (q, ground (arith, at, ap (align_up soff) e, ap (λ (t : ℕ). q * t) e))

  state_grows :
      (ns : List (Node S)) (soff : ℕ)
      → Aligns ns
      → soff + padded ns < 2 ^ 64
      → soff ≤ (state_layout soff ns).1
  unfolding state_layout padded
  state_grows [] soff al fits = omega arith
  state_grows (n ∷ ns) soff al fits =
      let (lo, hi, e, fits') = placed_bounds soff n (padded ns) al.0 fits in
      omega (arith, state_grows ns (after soff n) al.1 fits')

  first_block :
      (ns : List (Node S)) (soff : ℕ) (m : Node S)
      → Aligns (m ∷ ns)
      → soff + padded (m ∷ ns) < 2 ^ 64
      → 0 < m.state_size
      → HasBlock soff (state_layout soff (m ∷ ns)).1 (get_or (state_layout soff (m ∷ ns)).0 0 0) m
  unfolding state_layout padded
  first_block ns soff m al fits p =
      let (lo, hi, at, fits') = placed_bounds soff m (padded ns) al.0 fits in
      let grows = state_grows ns (after soff m) al.1 fits' in
      let here : HasBlock soff (state_layout (after soff m) ns).1 (placed_at soff m) m = record {
        from = lo;
        to = omega (arith, grows);
        aligned = placed_aligned soff m (padded ns) al.0 fits p;
      } in
      let some_state = lt→ltb 0 m.state_size p in rw some_state (rw some_state at here)

  pub state_block :
      (ns : List (Node S)) (soff i : ℕ) (n : Node S)
      → Aligns ns
      → soff + padded ns < 2 ^ 64
      → get_elem? ns i ≡ some n
      → 0 < n.state_size
      → HasBlock soff (state_layout soff ns).1 (get_or (state_layout soff ns).0 i 0) n
  unfolding state_layout padded
  state_block [] soff i n al fits e p = cc
  state_block (m ∷ ns) soff zero n al fits e p =
      let same = some-injective m n e in
      subst
        (HasBlock soff (state_layout soff (m ∷ ns)).1 (get_or (state_layout soff (m ∷ ns)).0 0 0))
        same (first_block ns soff m al fits (rw same p))
  state_block (m ∷ ns) soff (suc i) n al fits e p =
      let (lo, hi, at, fits') = placed_bounds soff m (padded ns) al.0 fits in
      let b = state_block ns (after soff m) i n al.1 fits' e p in
      record { from = omega (arith, b.from); to = b.to; aligned = b.aligned }

  pub state_apart :
      (ns : List (Node S)) (soff i j : ℕ) (n m : Node S)
      → Aligns ns
      → soff + padded ns < 2 ^ 64
      → get_elem? ns i ≡ some n
      → get_elem? ns j ≡ some m
      → 0 < n.state_size
      → 0 < m.state_size
      → i < j
      → get_or (state_layout soff ns).0 i 0 + n.state_size ≤ get_or (state_layout soff ns).0 j 0
  unfolding state_layout padded
  state_apart [] soff i j n m al fits e f p q l = cc
  state_apart (x ∷ ns) soff i zero n m al fits e f p q l = elim l [ ]
  state_apart (x ∷ ns) soff zero (suc j) n m al fits e f p q l =
      let (lo, hi, at, fits') = placed_bounds soff x (padded ns) al.0 fits in
      let b = state_block ns (after soff x) j m al.1 fits' f q in
      let same = some-injective x n e in
      let some_state : ltb 0 x.state_size ≡ true = lt→ltb 0 x.state_size (rw same p) in
      let size : x.state_size ≡ n.state_size = ap (λ (y : Node S). y.state_size) same in
      ground (arith, b.from, at, some_state, size)
  state_apart (x ∷ ns) soff (suc i) (suc j) n m al fits e f p q l =
      let (lo, hi, at, fits') = placed_bounds soff x (padded ns) al.0 fits in
      state_apart ns (after soff x) i j n m al.1 fits' e f p q (omega arith)
