-- ===== src/Queue/Tickets.antt =====
-- Which thread may touch which cell of include/xrune/util/mpmc_queue.hpp: the position at which
-- a push or a pop won its exchange is its ticket.
use xrune.Base.{ℕ, suc, ◌+◌, ◌-◌, ◌^◌, ◌≤◌, ◌<◌, ◌≡◌, ◌⊎◌, Option, none, some}
use xrune.Queue.{
  Memory, slot, Pc, idle, push_load, push_at, push_claim, push_write, push_publish, pop_load,
  pop_at, pop_claim, pop_read, pop_release,
}

abbrev pub push_ticket : Pc → Option ℕ
push_ticket (push_write v t) = some t
push_ticket (push_publish v t) = some t
push_ticket _ = none

abbrev pub pop_ticket : Pc → Option ℕ
pop_ticket (pop_read t) = some t
pop_ticket (pop_release x t) = some t
pop_ticket _ = none

abbrev pub cell_seq : Memory → ℕ → ℕ
cell_seq m t = m.seq (slot m.mask t)

abbrev pub cell_val : Memory → ℕ → ℕ
cell_val m t = m.val (slot m.mask t)

-- What the locals of a thread say about the memory, where `log t` is the value pushed at `t`.
abbrev pub Own : ℕ → (ℕ → ℕ) → Memory → Pc → Type 0
Own c log m idle = Unit
Own c log m (push_load v) = Unit
Own c log m (push_at v p) = p ≤ m.enqueue_pos
Own c log m (push_claim v p) = (p ≤ m.enqueue_pos) × (p < m.enqueue_pos ⊎ (cell_seq m p ≡ p))
Own c log m (push_write v t) =
    (m.dequeue_pos ≤ t) × (t < m.enqueue_pos) × (cell_seq m t ≡ t) × (log t ≡ v)
Own c log m (push_publish v t) =
    (m.dequeue_pos ≤ t)
    × (t < m.enqueue_pos)
    × (cell_seq m t ≡ t)
    × (log t ≡ v)
    × (cell_val m t ≡ v)
Own c log m pop_load = Unit
Own c log m (pop_at p) = p ≤ m.dequeue_pos
Own c log m (pop_claim p) = (p ≤ m.dequeue_pos) × (p < m.dequeue_pos ⊎ (cell_seq m p ≡ suc p))
Own c log m (pop_read t) =
    (t < m.dequeue_pos) × (m.enqueue_pos ≤ t + c) × (cell_seq m t ≡ suc t) × (cell_val m t ≡ log t)
Own c log m (pop_release x t) =
    (t < m.dequeue_pos) × (m.enqueue_pos ≤ t + c) × (cell_seq m t ≡ suc t) × (log t ≡ x)

-- A cell whose value waits, or is being stored.
abbrev pub Filled : (ℕ → ℕ) → Memory → (ℕ → Pc) → ℕ → Type 0
Filled log m pc t =
    ((cell_seq m t ≡ t) × (i : ℕ) × (push_ticket (pc i) ≡ some t))
    ⊎ ((cell_seq m t ≡ suc t) × (cell_val m t ≡ log t))

-- A cell that can be pushed to, or whose last value is being returned.
abbrev pub Open : ℕ → Memory → (ℕ → Pc) → ℕ → Type 0
Open c m pc t =
    (cell_seq m t ≡ t)
    ⊎ ((u : ℕ) × (u + c ≡ t) × (cell_seq m t ≡ suc u) × (i : ℕ) × (pop_ticket (pc i) ≡ some u))

pub record Inv (k : ℕ) (log : ℕ → ℕ) (m : Memory) (pc : ℕ → Pc) : Type 0 where
  pub masked : m.mask ≡ 2 ^ k - 1
  pub order : m.dequeue_pos ≤ m.enqueue_pos
  pub room : m.enqueue_pos ≤ m.dequeue_pos + 2 ^ k
  pub small : (t : ℕ) → cell_seq m t ≤ m.dequeue_pos + 2 ^ k
  pub passed : (t : ℕ) → t < m.dequeue_pos → t < cell_seq m t
  pub filled : (t : ℕ) → m.dequeue_pos ≤ t → t < m.enqueue_pos → Filled log m pc t
  pub vacant : (t : ℕ) → m.enqueue_pos ≤ t → t < m.dequeue_pos + 2 ^ k → Open (2 ^ k) m pc t
  pub own : (i : ℕ) → Own (2 ^ k) log m (pc i)
  pub push_alone : (i j t : ℕ) → push_ticket (pc i) ≡ some t → push_ticket (pc j) ≡ some t → i ≡ j
  pub pop_alone : (i j t : ℕ) → pop_ticket (pc i) ≡ some t → pop_ticket (pc j) ≡ some t → i ≡ j
