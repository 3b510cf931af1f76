-- ===== src/Base/Members.antt =====
-- Lists of indices: membership, position, distinctness, and counting against a bound.
use Prim.Native.Nat.{ℕ, zero, suc, ◌+◌, ◌<◌, ◌≤◌}
use mathlib.Core.Path.{◌≡◌, refl, sym}
use mathlib.Core.Logic.{inl, inr}
use mathlib.Core.Bool.{Bool, true, false, ◌||◌}
use mathlib.Core.List.{List, [], ◌∷◌, ◌++◌}
use native.Mathlib.Omega.{arith}
use xrune.Base.Tests.{◌==◌, if◌then◌else◌, ==_iff, Bool-cases}
use xrune.Base.Lists.{length, All}

abbrev pub member : ℕ → List ℕ → Bool
member a [] = false
member a (x ∷ xs) = x == a || member a xs

-- The position of the first occurrence, or the length.
abbrev pub index_of : ℕ → List ℕ → ℕ
index_of a [] = 0
index_of a (x ∷ xs) = if x == a then 0 else suc (index_of a xs)

abbrev pub Distinct : List ℕ → Type 0
Distinct [] = Unit
Distinct (x ∷ xs) = (member x xs ≡ false) × Distinct xs

abbrev pub count : ℕ → List ℕ → ℕ
count a [] = 0
count a (x ∷ xs) = (if x == a then 1 else 0) + count a xs

pub member-append : (a : ℕ) (xs ys : List ℕ) → member a (xs ++ ys) ≡ (member a xs || member a ys)
member-append a [] ys = refl
member-append a (x ∷ xs) ys = ground (arith, member-append a xs ys)

pub member-append_left : (a : ℕ) (xs ys : List ℕ) → member a xs ≡ true → member a (xs ++ ys) ≡ true
member-append_left a xs ys m = ground (arith, member-append a xs ys)

pub member_snoc : (a x : ℕ) (xs : List ℕ) → member a (xs ++ x ∷ []) ≡ (member a xs || x == a)
member_snoc a x xs = ground (arith, member-append a xs (x ∷ []))

pub member_All : (P : ℕ → Type 0) (a : ℕ) (xs : List ℕ) → All P xs → member a xs ≡ true → P a
member_All P a [] h m = cc
member_All P a (x ∷ xs) h m = elim (Bool-cases (x == a)) [
  | inl same ↦ rw (sym ((==_iff x a).0 same)) h.0
  | inr other ↦ member_All P a xs h.1 (ground arith)
]

pub Distinct-snoc :
    (xs : List ℕ) (v : ℕ) → Distinct xs → member v xs ≡ false → Distinct (xs ++ v ∷ [])
Distinct-snoc [] v d h = (refl, tt)
Distinct-snoc (x ∷ xs) v d h =
    (ground (arith, member_snoc x v xs), Distinct-snoc xs v d.1 (ground arith))

pub Distinct-middle : (xs ys : List ℕ) (u : ℕ) → Distinct (xs ++ u ∷ ys) → member u xs ≡ false
Distinct-middle [] ys u d = refl
Distinct-middle (x ∷ xs) ys u d = ground (
  arith,
  Distinct-middle xs ys u d.1,
  member-append u xs (u ∷ ys),
  d.0,
  member-append x xs (u ∷ ys),
)

pub index_of-lt-length : (a : ℕ) (xs : List ℕ) → member a xs ≡ true → index_of a xs < length xs
index_of-lt-length a [] m = cc
index_of-lt-length a (x ∷ xs) m = ground (arith, index_of-lt-length a xs)

pub member_of_index_of-lt : (a : ℕ) (xs : List ℕ) → index_of a xs < length xs → member a xs ≡ true
member_of_index_of-lt a [] h = elim h [ ]
member_of_index_of-lt a (x ∷ xs) h = ground (arith, member_of_index_of-lt a xs)

pub index_of-append :
    (a : ℕ) (xs ys : List ℕ) → member a xs ≡ true → index_of a (xs ++ ys) ≡ index_of a xs
index_of-append a [] ys m = cc
index_of-append a (x ∷ xs) ys m = ground (arith, index_of-append a xs ys)

pub index_of_snoc :
    (a : ℕ) (xs : List ℕ) → member a xs ≡ false → index_of a (xs ++ a ∷ []) ≡ length xs
index_of_snoc a [] m = ground arith
index_of_snoc a (x ∷ xs) m = ground (arith, index_of_snoc a xs)

pub member_of_index_of-lt_prefix :
    (a : ℕ) (xs ys : List ℕ) → index_of a (xs ++ ys) < length xs → member a xs ≡ true
member_of_index_of-lt_prefix a [] ys h = elim h [ ]
member_of_index_of-lt_prefix a (x ∷ xs) ys h = ground (arith, member_of_index_of-lt_prefix a xs ys)

pub index_of_middle :
    (a : ℕ) (xs ys : List ℕ) → member a xs ≡ false → index_of a (xs ++ a ∷ ys) ≡ length xs
index_of_middle a [] ys m = ground arith
index_of_middle a (x ∷ xs) ys m = ground (arith, index_of_middle a xs ys)

-- How many of the numbers below `n` are in the list.
covered : ℕ → List ℕ → ℕ
covered zero xs = 0
covered (suc n) xs = (if member n xs then 1 else 0) + covered n xs

covered-nil : (n : ℕ) → covered n [] ≡ 0
unfolding covered
covered-nil zero = refl
covered-nil (suc n) = omega (arith, covered-nil n)

covered_cons_beyond : (n x : ℕ) (xs : List ℕ) → n ≤ x → covered n (x ∷ xs) ≡ covered n xs
unfolding covered
covered_cons_beyond zero x xs h = refl
covered_cons_beyond (suc n) x xs h = ground (arith, covered_cons_beyond n x xs)

covered_cons :
    (n x : ℕ) (xs : List ℕ) → x < n → member x xs ≡ false → covered n (x ∷ xs) ≡ suc (covered n xs)
unfolding covered
covered_cons zero x xs h m = elim h [ ]
covered_cons (suc n) x xs h m = ground (arith, covered_cons n x xs, covered_cons_beyond n x xs)

covered-length :
    (n : ℕ) (xs : List ℕ) → All (λ x. x < n) xs → Distinct xs → covered n xs ≡ length xs
covered-length n [] b d = covered-nil n
covered-length n (x ∷ xs) b d =
    omega (arith, covered_cons n x xs b.0 d.0, covered-length n xs b.1 d.1)

covered_le : (n : ℕ) (xs : List ℕ) → covered n xs ≤ n
unfolding covered
covered_le zero xs = omega arith
covered_le (suc n) xs = ground (arith, covered_le n xs)

covered_full : (n i : ℕ) (xs : List ℕ) → covered n xs ≡ n → i < n → member i xs ≡ true
unfolding covered
covered_full zero i xs e h = elim h [ ]
covered_full (suc n) i xs e h = elim (Bool-cases (n == i)) [
  | inl same ↦ ground (arith, covered_le n xs)
  | inr other ↦ covered_full n i xs (ground (arith, covered_le n xs)) (ground arith)
]

covered_all : (n : ℕ) (xs : List ℕ) → ((i : ℕ) → i < n → member i xs ≡ true) → covered n xs ≡ n
unfolding covered
covered_all zero xs h = refl
covered_all (suc n) xs h = ground (arith, h n, covered_all n xs (λ i l. h i (omega arith)))

-- Distinct numbers below `n` are at most `n`, and are all of them exactly when there are `n`.
pub Distinct-length-le : (n : ℕ) (xs : List ℕ) → All (λ x. x < n) xs → Distinct xs → length xs ≤ n
Distinct-length-le n xs b d = omega (arith, covered-length n xs b d, covered_le n xs)

pub Distinct-full :
    (n i : ℕ) (xs : List ℕ)
    → All (λ x. x < n) xs
    → Distinct xs
    → length xs ≡ n
    → i < n
    → member i xs ≡ true
Distinct-full n i xs b d e h = covered_full n i xs (omega (arith, covered-length n xs b d)) h

pub Distinct-length_of_full :
    (n : ℕ) (xs : List ℕ)
    → All (λ x. x < n) xs
    → Distinct xs
    → ((i : ℕ) → i < n → member i xs ≡ true)
    → length xs ≡ n
Distinct-length_of_full n xs b d h = omega (arith, covered-length n xs b d, covered_all n xs h)
