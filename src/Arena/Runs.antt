-- ===== src/Arena/Runs.antt =====
-- include/xrune/util/arena.hpp: the blocks of a run of requests do not overlap.
use xrune.Base.{
  ℕ, zero, suc, ◌+◌, ◌*◌, ◌^◌, ◌<◌, ◌≤◌, ◌≡◌, ◌∙◌, refl, inl, inr, Option, some, List, [], ◌∷◌,
  arith, get_elem?, ap, sym, subst, All, some-injective,
}
use xrune.Arena.{MemoryArena, allocate, allocate_all}
use xrune.Arena.Blocks.{IsInside, Reasonable, Block, allocate_lem}

-- What an arena is after requests: the same storage, no less of it in use.
record Later (a a' : MemoryArena) : Type 0 where
  same_base : a'.base ≡ a.base
  same_size : a'.size ≡ a.size
  inside : IsInside a'
  grown : a.offset ≤ a'.offset

allocate-Later :
    (a : MemoryArena) (bytes k : ℕ)
    → IsInside a
    → Reasonable a bytes k
    → Later a (allocate a bytes (2 ^ k)).0
allocate-Later a bytes k v ok = elim (allocate_lem a bytes k v ok) [
  | inl (p, e, b) ↦ record {
    same_base = b.same_base;
    same_size = b.same_size;
    inside = record { below = omega (arith, b.same_base, b.same_size, v.below); within = b.within };
    grown = omega (arith, b.after, b.end, b.same_base);
  }
  | inr (e, full) ↦
      let same = ap (λ (r : MemoryArena × Option ℕ). r.0) e in
      subst (Later a) (sym same)
        (record { same_base = refl; same_size = refl; inside = v; grown = omega arith })
]

-- Every request of a run is one that allocate() does not wrap on, in an arena of that size.
abbrev pub AllReasonable : ℕ → List (ℕ × ℕ) → Type 0
AllReasonable size rs = All (λ (r : ℕ × ℕ). (r.1 ≤ 32) × (size + r.0 + 2 ^ 32 ≤ 2 ^ 64)) rs

-- The i-th request of a run was for `bytes` and an alignment of 2 ^ k, and was given the block at p.
pub record Given (rs : List (ℕ × ℕ)) (ps : List (Option ℕ)) (i p bytes k : ℕ) : Type 0 where
  pub request : get_elem? rs i ≡ some (bytes, k)
  pub address : get_elem? ps i ≡ some (some p)

pub record InStorage (a : MemoryArena) (p bytes k : ℕ) : Type 0 where
  pub aligned : (q : ℕ) × (p ≡ q * 2 ^ k)
  pub after : a.base + a.offset ≤ p
  pub within : p + bytes ≤ a.base + a.size

first :
    (a : MemoryArena) (bytes k p : ℕ)
    → IsInside a
    → Reasonable a bytes k
    → (allocate a bytes (2 ^ k)).1 ≡ some p
    → Block a bytes k (allocate a bytes (2 ^ k)).0 p
first a bytes k p v ok e = elim (allocate_lem a bytes k v ok) [
  | inl (q, f, b) ↦
      subst (Block a bytes k (allocate a bytes (2 ^ k)).0) (some-injective _ _ (sym f ∙ e)) b
  | inr (f, full) ↦ cc (ap (λ (r : MemoryArena × Option ℕ). r.1) f)
]

-- The rest of a run starts from the arena that its first request leaves.
rest_ok :
    (a : MemoryArena) (n l : ℕ) (rs : List (ℕ × ℕ)) (v : IsInside a)
    → AllReasonable a.size ((n, l) ∷ rs)
    → AllReasonable (allocate a n (2 ^ l)).0.size rs
rest_ok a n l rs v ok =
    subst (λ (s : ℕ). AllReasonable s rs) (sym (allocate-Later a n l v ok.0).same_size) ok.1

run_InStorage :
    (rs : List (ℕ × ℕ)) (a : MemoryArena) (i p bytes k : ℕ)
    → IsInside a
    → AllReasonable a.size rs
    → Given rs (allocate_all rs a).1 i p bytes k
    → InStorage a p bytes k
unfolding allocate_all
run_InStorage [] a i p bytes k v ok g = cc g.address
run_InStorage ((n, l) ∷ rs) a zero p bytes k v ok g =
    let b = first a n l p v ok.0 (some-injective _ _ g.address) in
    subst (λ (r : ℕ × ℕ). InStorage a p r.0 r.1) (some-injective _ _ g.request)
      (record {
        aligned = b.aligned;
        after = b.after;
        within = omega (arith, b.end, b.within, b.same_base, b.same_size);
      })
run_InStorage ((n, l) ∷ rs) a (suc i) p bytes k v ok g =
    let w = allocate-Later a n l v ok.0 in
    let r =
      run_InStorage rs (allocate a n (2 ^ l)).0 i p bytes k w.inside (rest_ok a n l rs v ok)
        (record { request = g.request; address = g.address }) in
    record {
      aligned = r.aligned;
      after = omega (arith, r.after, w.same_base, w.grown);
      within = omega (arith, r.within, w.same_base, w.same_size);
    }

run_apart :
    (rs : List (ℕ × ℕ)) (a : MemoryArena) (i j p q bytes k n' k' : ℕ)
    → IsInside a
    → AllReasonable a.size rs
    → Given rs (allocate_all rs a).1 i p bytes k
    → Given rs (allocate_all rs a).1 j q n' k'
    → i < j
    → p + bytes ≤ q
unfolding allocate_all
run_apart [] a i j p q bytes k n' k' v ok g g' h = cc g.address
run_apart ((n, l) ∷ rs) a i zero p q bytes k n' k' v ok g g' h = elim h [ ]
run_apart ((n, l) ∷ rs) a zero (suc j) p q bytes k n' k' v ok g g' h =
    let b = first a n l p v ok.0 (some-injective _ _ g.address) in
    let w = allocate-Later a n l v ok.0 in
    let size : n ≡ bytes = ap (λ (r : ℕ × ℕ). r.0) (some-injective _ _ g.request) in
    let r =
      run_InStorage rs (allocate a n (2 ^ l)).0 j q n' k' w.inside (rest_ok a n l rs v ok)
        (record { request = g'.request; address = g'.address }) in
    omega (arith, b.end, r.after, size)
run_apart ((n, l) ∷ rs) a (suc i) (suc j) p q bytes k n' k' v ok g g' h =
    run_apart rs (allocate a n (2 ^ l)).0 i j p q bytes k n' k' (allocate-Later a n l v ok.0).inside
      (rest_ok a n l rs v ok) (record { request = g.request; address = g.address })
      (record { request = g'.request; address = g'.address }) (omega arith)

-- In a run of requests to an arena whose storage ends 2 ^ 32 below the last address, with alignments
-- up to 2 ^ 32 and sizes that do not overflow with the arena's: every block handed out is aligned,
-- lies in the storage behind what was in use, and ends before each later block starts.
pub allocate_all_lem :
    (rs : List (ℕ × ℕ)) (a : MemoryArena) (i j p q bytes k n' k' : ℕ)
    → IsInside a
    → AllReasonable a.size rs
    → Given rs (allocate_all rs a).1 i p bytes k
    → Given rs (allocate_all rs a).1 j q n' k'
    → i < j
    → InStorage a p bytes k × InStorage a q n' k' × (p + bytes ≤ q)
allocate_all_lem rs a i j p q bytes k n' k' v ok g g' h = (
  run_InStorage rs a i p bytes k v ok g,
  run_InStorage rs a j q n' k' v ok g',
  run_apart rs a i j p q bytes k n' k' v ok g g' h,
)
