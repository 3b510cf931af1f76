-- ===== src/Queue/System.antt =====
-- Threads that share one queue of include/xrune/util/mpmc_queue.hpp, in every order of their
-- accesses.
use xrune.Base.{ℕ, ◌+◌, [], ◌∷◌}
use xrune.Queue.{Memory, init_queue, Pc, idle, Event, enqueue, Move, update}
use xrune.Queue.Contract.{Trace}

pub record System : Type 0 where
  pub mem : Memory
  pub pc : ℕ → Pc

pub data Step (s : System) : ℕ → Event → System → Type 0 where
  pick :
      (i : ℕ) {e : Event} {m : Memory} {p : Pc}
      → Move s.mem (s.pc i) e m p
      → Step s i e (record { mem = m; pc = update s.pc i p })

abbrev pub start : ℕ → System
start capacity = record { mem = init_queue capacity; pc = λ _. idle }

-- The system can do what the trace says, and comes to the state.
pub data Reach (capacity : ℕ) : Trace → System → Type 0 where
  begin : Reach capacity [] (start capacity)
  later :
      {t : Trace} {s r : System} {i : ℕ} {e : Event}
      → Reach capacity t s
      → Step s i e r
      → Reach capacity ((i, e) ∷ t) r

abbrev pub entered : Event → ℕ
entered (enqueue v) = 1
entered _ = 0

-- How many pushes took a place.
unfoldable pub pushed : Trace → ℕ
pushed [] = 0
pushed ((i, e) ∷ t) = entered e + pushed t
