-- ===== src/Queue/Refine.antt =====
-- The queue of include/xrune/util/mpmc_queue.hpp, under any number of threads, as a bounded list.
use xrune.Base.{
  ℕ, zero, suc, ◌+◌, ◌^◌, ◌≤◌, ◌<◌, refl, [], ◌∷◌, arith, dec_lt, two_pow_suc, two_pow_pos,
}
use xrune.Queue.{Memory, Pc, Event, Move, call_push, push_won}
use xrune.Queue.Contract.{Board, Trace, Allowed, clear, at_first, and_then}
use xrune.Queue.System.{System, Step, pick, start, Reach, begin, later, entered, pushed}
use xrune.Queue.Tickets.{Inv}
use xrune.Queue.Kept.{log_after, Move-Inv, init-Inv}
use native.Mathlib.Nat.{pow-le-pow_right}
use xrune.Queue.View.{values, Shows, Move-Follows}

-- The state shows a board that the contract allows after the trace.
record Refines (k : ℕ) (t : Trace) (s : System) : Type 0 where
  log : ℕ → ℕ
  board : Board
  allowed : Allowed (2 ^ k) t board
  inv : Inv k log s.mem s.pc
  shows : Shows log s.mem s.pc board

wide_of : (k : ℕ) → 1 ≤ k → 2 ≤ 2 ^ k
wide_of zero h = absurd (omega arith)
wide_of (suc k) h = omega (arith, two_pow_suc k, two_pow_pos k)

Move-counted :
    {m m' : Memory} {p p' : Pc} {e : Event}
    → Move m p e m' p'
    → m'.enqueue_pos ≤ entered e + m.enqueue_pos
Move-counted call_push = omega arith
Move-counted (push_won g) = omega (arith, g)
Move-counted mv = omega arith

Step-counted :
    {s : System} {i : ℕ} {e : Event} {r : System}
    → Step s i e r
    → r.mem.enqueue_pos ≤ entered e + s.mem.enqueue_pos
Step-counted (pick i mv) = Move-counted mv

Reach-counted : {c : ℕ} {t : Trace} {s : System} → Reach c t s → s.mem.enqueue_pos ≤ pushed t
unfolding pushed
Reach-counted begin = omega arith
Reach-counted (later r st) = omega (arith, Reach-counted r, Step-counted st)

Step-Refines :
    {k : ℕ} {t : Trace} {s : System} {i : ℕ} {e : Event} {r : System}
    → 1 ≤ k
    → s.mem.enqueue_pos + 2 ^ k < 2 ^ 63
    → Refines k t s
    → Step s i e r
    → Refines k ((i, e) ∷ t) r
Step-Refines {k} {s = s} {e = e} h bound f (pick i mv) =
    let (a, act, shows) = Move-Follows f.inv i (wide_of k h) bound f.shows mv refl (f.inv.own i) in
    record {
      log = log_after s.mem f.log e;
      board = a;
      allowed = and_then f.allowed act;
      inv = Move-Inv f.inv i (wide_of k h) bound mv;
      shows = shows;
    }

below_word : (k : ℕ) → 2 ^ k < 2 ^ 63 → k < 63
below_word k h = elim (dec_lt k 63) [
  | yes l ↦ l
  | no l ↦
      absurd (omega (arith, pow-le-pow_right {n = 2} (omega arith) {i = 63} {j = k} (omega arith)))
]

start-Refines : (k : ℕ) → k < 63 → Refines k [] (start (2 ^ k))
unfolding values
start-Refines k h = record {
  log = λ _. 0;
  board = clear;
  allowed = at_first;
  inv = init-Inv k h;
  shows = record { waiting = refl; storing = λ j. refl; owed = λ j. refl };
}

Reach-Refines :
    {k : ℕ} {t : Trace} {s : System}
    → 1 ≤ k
    → pushed t + 2 ^ k < 2 ^ 63
    → Reach (2 ^ k) t s
    → Refines k t s
unfolding pushed
Reach-Refines {k} h bound begin = start-Refines k (below_word k (omega arith))
Reach-Refines {k} h bound (later r st) =
    Step-Refines h (omega (arith, bound, Reach-counted r)) (Reach-Refines h (omega arith) r) st

-- What the threads do to a queue of 2 ^ k cells, k at least 1, in any order of their accesses, as
-- long as the positions stay below 2 ^ 63, a bounded first-in first-out list allows: values leave
-- in the order in which the pushes took their places, each to one pop, at most 2 ^ k wait, and
-- an operation returns false only when the list is full, or empty, or another operation that
-- took its place has yet to return.
pub queue_refines :
    {t : Trace} {s : System} (k : ℕ)
    → 1 ≤ k
    → pushed t + 2 ^ k < 2 ^ 63
    → Reach (2 ^ k) t s
    → (b : Board) × Allowed (2 ^ k) t b
queue_refines k h bound r = let f = Reach-Refines h bound r in (f.board, f.allowed)
