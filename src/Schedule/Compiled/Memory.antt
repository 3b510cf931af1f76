-- ===== src/Schedule/Compiled/Memory.antt =====
-- src/schedule.cpp: the output channels and the state blocks of a compiled schedule do not overlap.
use xrune.Base.{
  ℕ, zero, suc, ◌+◌, ◌*◌, ◌<◌, ◌≤◌, ◌≡◌, ◌⊎◌, inl, inr, ◌^◌, refl, ◌∙◌, subst, some, List, [], ◌∷◌,
  length, length-map, arith, get_elem?, get_or,
}
use xrune.Blueprint.{Node, Blueprint, outputs_count_at}
use xrune.Blueprint.Wiring.{IsWellFormed}
use xrune.Schedule.Layout.{running, strides, out_sizes}
use xrune.Schedule.Layout.Regions.{
  sum, running-AreApart, Aligns, padded, HasBlock, state_block, state_apart,
}
use xrune.Schedule.{CompiledSchedule, lay_out, compile}
use xrune.Schedule.Compiled.{Went, compile-Went}
use xrune.Schedule.Compiled.Rates.{stride_of, Went-Inv}

-- All output samples, as a number with no wrap-around.
unfoldable pub demand : {S : Type 0} → List (Node S) → List ℕ → ℕ
demand [] ss = 0
demand (n ∷ ns) [] = 0
demand (n ∷ ns) (s ∷ ss) = n.outputs_count * s + demand ns ss

module _ {S : Type 0} where
  sum-out_sizes :
      (ns : List (Node S)) (ss : List ℕ)
      → demand ns ss < 2 ^ 64
      → sum (out_sizes ns ss) ≡ demand ns ss
  unfolding sum out_sizes demand
  sum-out_sizes [] ss h = refl
  sum-out_sizes (n ∷ ns) [] h = refl
  sum-out_sizes (n ∷ ns) (s ∷ ss) h = omega (arith, sum-out_sizes ns ss (omega arith))

  length-out_sizes :
      (ns : List (Node S)) (ss : List ℕ)
      → length ss ≡ length ns
      → length (out_sizes ns ss) ≡ length ns
  unfolding out_sizes
  length-out_sizes [] ss h = refl
  length-out_sizes (n ∷ ns) [] h = absurd (omega arith)
  length-out_sizes (n ∷ ns) (s ∷ ss) h = omega (arith, length-out_sizes ns ss (omega arith))

  size-out_sizes :
      (ns : List (Node S)) (ss : List ℕ) (i : ℕ)
      → demand ns ss < 2 ^ 64
      → i < length ns
      → length ss ≡ length ns
      → get_or (out_sizes ns ss) i 0 ≡ outputs_count_at ns i * get_or ss i 0
  unfolding out_sizes demand outputs_count_at
  size-out_sizes [] ss i h l e = elim l [ ]
  size-out_sizes (n ∷ ns) [] i h l e = absurd (omega arith)
  size-out_sizes (n ∷ ns) (s ∷ ss) zero h l e = omega arith
  size-out_sizes (n ∷ ns) (s ∷ ss) (suc i) h l e =
      size-out_sizes ns ss i (omega arith) (omega arith) (omega arith)

  abbrev pub channel_start : CompiledSchedule S → ℕ → ℕ → ℕ
  channel_start s i c = get_or s.out_base_sample i 0 + c * stride_of s i

  abbrev pub HasOutput : Blueprint S → ℕ → ℕ → Type 0
  HasOutput bp i c = (i < length bp.nodes) × (c < outputs_count_at bp.nodes i)

  -- Each output channel has a stretch of the buffer pool of its own.
  pub record OutputsApart (bp : Blueprint S) (s : CompiledSchedule S) : Type 0 where
    pub inside :
        (i c : ℕ) → HasOutput bp i c → channel_start s i c + stride_of s i ≤ s.total_output_samples
    pub apart :
        (i j c d : ℕ)
        → HasOutput bp i c
        → HasOutput bp j d
        → (i < j) ⊎ (i ≡ j) × (c < d)
        → channel_start s i c + stride_of s i ≤ channel_start s j d

next_channel : (c d stride : ℕ) → c < d → c * stride + stride ≤ d * stride
next_channel c d stride h = grind arith

module _ {S : Type 0} (bp : Blueprint S) (b : ℕ) (v : IsWellFormed bp) where
  Went-OutputsApart :
      {s : CompiledSchedule S} (w : Went bp (2 ^ suc b) s)
      → demand bp.nodes (strides (2 ^ suc b) w.rates.region_rate) < 2 ^ 64
      → OutputsApart bp (lay_out bp (2 ^ suc b) w.order w.rates)
  unfolding lay_out
  Went-OutputsApart w fits =
      let ss = strides (2 ^ suc b) w.rates.region_rate in
      let wide : length ss ≡ length bp.nodes =
        unfold strides in length-map _ _ ∙ (Went-Inv bp b v w).rates in
      let regions =
        running-AreApart (out_sizes bp.nodes ss) (omega (arith, sum-out_sizes bp.nodes ss fits)) in
      let long = length-out_sizes bp.nodes ss wide in
      record {
        inside = λ i c (h, k). omega (
          arith,
          regions.inside i (omega (arith, long)),
          size-out_sizes bp.nodes ss i fits h wide,
          next_channel c (outputs_count_at bp.nodes i) (get_or ss i 0) k,
        );
        apart = λ i j c d (h, k) (h', k') o. elim o [
          | inl l ↦ omega (
            arith,
            regions.apart i j l (omega (arith, long)),
            size-out_sizes bp.nodes ss i fits h wide,
            next_channel c (outputs_count_at bp.nodes i) (get_or ss i 0) k,
          )
          | inr (same, l) ↦
              subst
                (λ j.
                  get_or (running 0 (out_sizes bp.nodes ss)).0 i 0
                    + c * get_or ss i 0
                    + get_or ss i 0
                  ≤ get_or (running 0 (out_sizes bp.nodes ss)).0 j 0 + d * get_or ss j 0)
                same (omega (arith, next_channel c d (get_or ss i 0) l))
        ];
      }

  -- In a schedule compiled from a well-formed blueprint at a power-of-two block size of at least 2,
  -- whose output samples can be counted in a size_t, every output channel of every node has a stretch of out_stride samples within the buffer pool that no other channel overlaps.
  pub compile-OutputsApart :
      (s : CompiledSchedule S)
      → compile bp (2 ^ suc b) ≡ some s
      → demand bp.nodes s.out_stride < 2 ^ 64
      → OutputsApart bp s
  unfolding lay_out
  compile-OutputsApart s e fits =
      let w = compile-Went bp (2 ^ suc b) s e in
      subst (λ (t : CompiledSchedule S). demand bp.nodes t.out_stride < 2 ^ 64 → OutputsApart bp t)
        w.result (Went-OutputsApart w) fits

-- The state blocks lie within the state region at multiples of their alignments, one after another.
pub record StatesApart {S : Type 0} (bp : Blueprint S) (s : CompiledSchedule S) : Type 0 where
  pub placed :
      (i : ℕ) (n : Node S)
      → get_elem? bp.nodes i ≡ some n
      → 0 < n.state_size
      → HasBlock 0 s.total_state_bytes (get_or s.state_offset i 0) n
  pub apart :
      (i j : ℕ) (n m : Node S)
      → get_elem? bp.nodes i ≡ some n
      → get_elem? bp.nodes j ≡ some m
      → 0 < n.state_size
      → 0 < m.state_size
      → i < j
      → get_or s.state_offset i 0 + n.state_size ≤ get_or s.state_offset j 0

-- Where every state_align is a power of two below 2 ^ 64 and the padded states fit in a size_t, compile() places
-- the state of each node that has one at a multiple of its alignment, within total_state_bytes, and
-- before the states of the later nodes.
pub compile-StatesApart :
    {S : Type 0} (bp : Blueprint S) (block_size : ℕ) (s : CompiledSchedule S)
    → compile bp block_size ≡ some s
    → Aligns bp.nodes
    → padded bp.nodes < 2 ^ 64
    → StatesApart bp s
unfolding lay_out
compile-StatesApart bp block_size s e al fits =
    let w = compile-Went bp block_size s e in
    let fits' : 0 + padded bp.nodes < 2 ^ 64 = omega arith in
    subst (StatesApart bp) w.result (record {
      placed = λ i n. state_block bp.nodes 0 i n al fits';
      apart = λ i j n m. state_apart bp.nodes 0 i j n m al fits';
    })
