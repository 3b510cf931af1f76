-- ===== src/Queue/Contract.antt =====
-- What include/xrune/util/mpmc_queue.hpp promises: a bounded first-in first-out list, where a push
-- takes its place before its value is stored and a pop its value before it returns.
use xrune.Base.{
  ℕ, ◌<◌, ◌≡◌, ◌⊎◌, Bool, true, false, Option, none, some, List, [], ◌∷◌, ◌++◌, length,
}
use xrune.Queue.{update, Event, silent, enqueue, stored, full, dequeue, deliver, empty}

-- The values that wait, which threads are storing theirs, and what each pop has taken.
pub record Board : Type 0 where
  pub waiting : List ℕ
  pub storing : ℕ → Bool
  pub owed : ℕ → Option ℕ

-- A push is refused when the list is full or a pop has yet to return, a pop when the list is
-- empty or a push has yet to store its value.
pub data Act (c : ℕ) (b : Board) (i : ℕ) : Event → Board → Type 0 where
  unseen : Act c b i silent b
  placed :
      {v : ℕ}
      → b.storing i ≡ false
      → length b.waiting < c
      → Act c b i
          (enqueue v)
          (record b { waiting = b.waiting ++ v ∷ []; storing = update b.storing i true })
  finished : b.storing i ≡ true → Act c b i stored (record b { storing = update b.storing i false })
  refused : (length b.waiting ≡ c) ⊎ ((j x : ℕ) × (b.owed j ≡ some x)) → Act c b i full b
  taken :
      {x : ℕ} {rest : List ℕ}
      → b.owed i ≡ none
      → b.waiting ≡ x ∷ rest
      → Act c b i dequeue (record b { waiting = rest; owed = update b.owed i (some x) })
  returned :
      {x : ℕ} → b.owed i ≡ some x → Act c b i (deliver x) (record b { owed = update b.owed i none })
  missed : (b.waiting ≡ []) ⊎ ((j : ℕ) × (b.storing j ≡ true)) → Act c b i empty b

-- The events of the threads, the newest first.
abbrev pub Trace : Type 0
Trace = List (ℕ × Event)

abbrev pub clear : Board
clear = record { waiting = []; storing = λ _. false; owed = λ _. none }

-- The contract allows the trace, and comes to the board.
pub data Allowed (c : ℕ) : Trace → Board → Type 0 where
  at_first : Allowed c [] clear
  and_then :
      {t : Trace} {b a : Board} {i : ℕ} {e : Event}
      → Allowed c t b
      → Act c b i e a
      → Allowed c ((i, e) ∷ t) a
