-- ===== src/Queue.antt =====
-- include/xrune/util/mpmc_queue.hpp: the bounded queue that many threads push to and pop from,
-- each of them one access to the shared memory at a time.
pub mod Slots
pub mod Contract
pub mod System
pub mod Tickets
mod Kept
mod View
pub mod Refine
pub mod Fifo
use Prim.Native.Nat.{bit_and}
use mathlib.Core.Logic.{ite}
use xrune.Base.{ℕ, ◌+◌, ◌-◌, ◌^◌, ◌≡◌, Bool, if◌then◌else◌, ◌==◌, leb, word, word_pred, ℕ_discrete}

-- A family of cells or of threads, changed at one index.
abbrev pub update {ℓ} : {A : Type ℓ} → (ℕ → A) → ℕ → A → ℕ → A
update f i a j = ite (ℕ_discrete i j) a (f j)

-- `mpmc_queue`: the cells' sequence numbers and values, and the two counters.
pub record Memory : Type 0 where
  pub seq : ℕ → ℕ
  pub val : ℕ → ℕ
  pub mask : ℕ
  pub enqueue_pos : ℕ
  pub dequeue_pos : ℕ

abbrev pub init_queue : ℕ → Memory
init_queue capacity_pow2 = record {
  seq = λ i. i;
  val = λ _. 0;
  mask = word_pred capacity_pow2;
  enqueue_pos = 0;
  dequeue_pos = 0;
}

unfoldable pub slot : ℕ → ℕ → ℕ
slot mask position = bit_and position mask

-- The three cases of `dif`, the signed difference of a sequence number and a position.
pub data Verdict : Type 0 where
  same : Verdict
  behind : Verdict
  beyond : Verdict

abbrev pub dif : ℕ → ℕ → ℕ
dif s position = word (s + (2 ^ 64 - position))

unfoldable pub verdict : ℕ → ℕ → Verdict
verdict s position =
    if dif s position == 0 then same else if leb (2 ^ 63) (dif s position) then behind else beyond

-- Where a thread stands, with its locals: inside `push`, inside `pop`, or outside of both.
pub data Pc : Type 0 where
  idle : Pc
  push_load : ℕ → Pc
  push_at : ℕ → ℕ → Pc
  push_claim : ℕ → ℕ → Pc
  push_write : ℕ → ℕ → Pc
  push_publish : ℕ → ℕ → Pc
  pop_load : Pc
  pop_at : ℕ → Pc
  pop_claim : ℕ → Pc
  pop_read : ℕ → Pc
  pop_release : ℕ → ℕ → Pc

-- What a move shows: a push takes its place, has stored its value, or returns false; a pop takes
-- the oldest place, returns a value, or returns false.
pub data Event : Type 0 where
  silent : Event
  enqueue : ℕ → Event
  stored : Event
  full : Event
  dequeue : Event
  deliver : ℕ → Event
  empty : Event

-- One access to the shared memory. A weak exchange may fail for no reason.
pub data Move (m : Memory) : Pc → Event → Memory → Pc → Type 0 where
  call_push : {v : ℕ} → Move m idle silent m (push_load v)
  load_enqueue_pos : {v : ℕ} → Move m (push_load v) silent m (push_at v m.enqueue_pos)
  push_same :
      {v p : ℕ}
      → verdict (m.seq (slot m.mask p)) p ≡ same
      → Move m (push_at v p) silent m (push_claim v p)
  push_full :
      {v p : ℕ} → verdict (m.seq (slot m.mask p)) p ≡ behind → Move m (push_at v p) full m idle
  push_again :
      {v p : ℕ}
      → verdict (m.seq (slot m.mask p)) p ≡ beyond
      → Move m (push_at v p) silent m (push_load v)
  push_won :
      {v p : ℕ}
      → m.enqueue_pos ≡ p
      → Move m
          (push_claim v p)
          (enqueue v)
          (record m { enqueue_pos = word (p + 1) })
          (push_write v p)
  push_lost : {v p : ℕ} → Move m (push_claim v p) silent m (push_at v m.enqueue_pos)
  write_val :
      {v p : ℕ}
      → Move m
          (push_write v p)
          silent
          (record m { val = update m.val (slot m.mask p) v })
          (push_publish v p)
  publish :
      {v p : ℕ}
      → Move m
          (push_publish v p)
          stored
          (record m { seq = update m.seq (slot m.mask p) (word (p + 1)) })
          idle
  call_pop : Move m idle silent m pop_load
  load_dequeue_pos : Move m pop_load silent m (pop_at m.dequeue_pos)
  pop_same :
      {p : ℕ}
      → verdict (m.seq (slot m.mask p)) (word (p + 1)) ≡ same
      → Move m (pop_at p) silent m (pop_claim p)
  pop_empty :
      {p : ℕ}
      → verdict (m.seq (slot m.mask p)) (word (p + 1)) ≡ behind
      → Move m (pop_at p) empty m idle
  pop_again :
      {p : ℕ}
      → verdict (m.seq (slot m.mask p)) (word (p + 1)) ≡ beyond
      → Move m (pop_at p) silent m pop_load
  pop_won :
      {p : ℕ}
      → m.dequeue_pos ≡ p
      → Move m (pop_claim p) dequeue (record m { dequeue_pos = word (p + 1) }) (pop_read p)
  pop_lost : {p : ℕ} → Move m (pop_claim p) silent m (pop_at m.dequeue_pos)
  read_val : {p : ℕ} → Move m (pop_read p) silent m (pop_release (m.val (slot m.mask p)) p)
  release :
      {x p : ℕ}
      → Move m
          (pop_release x p)
          (deliver x)
          (record m { seq = update m.seq (slot m.mask p) (word (word (p + m.mask) + 1)) })
          idle
