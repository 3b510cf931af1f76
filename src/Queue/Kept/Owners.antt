-- ===== src/Queue/Kept/Owners.antt =====
-- A move keeps what the threads of include/xrune/util/mpmc_queue.hpp know.
use xrune.Base.{ℕ, ◌+◌, ◌^◌, ◌≤◌, ◌<◌, ◌≡◌, ◌≢◌, some, arith}
use xrune.Queue.{
  Memory, Pc, idle, push_load, push_at, push_claim, push_write, push_publish, pop_load, pop_at,
  pop_claim, pop_read, pop_release, Event, Move, call_push, update,
}
use xrune.Queue.Tickets.{push_ticket, pop_ticket, Own, Inv}
use xrune.Queue.Kept.Guards.{spot, log_after, apart, around, one_cell, told}

module _ {k : ℕ} {log : ℕ → ℕ} {m : Memory} {pc : ℕ → Pc} (inv : Inv k log m pc) (i : ℕ)
    (wide : 2 ≤ 2 ^ k) (bound : m.enqueue_pos + 2 ^ k < 2 ^ 63) where
  open inv use {order, room, small, passed, filled, vacant, own, push_alone, pop_alone}

  push_below : (j t : ℕ) → push_ticket (pc j) ≡ some t → (m.dequeue_pos ≤ t) × (t < m.enqueue_pos)
  push_below j t e = ground (arith, own j)

  pop_below :
      (j t : ℕ) → pop_ticket (pc j) ≡ some t → (t < m.dequeue_pos) × (m.enqueue_pos ≤ t + 2 ^ k)
  pop_below j t e = ground (arith, own j)

  pub Move-push_alone :
      {p p' : Pc} {e : Event} {m' : Memory} (mv : Move m p e m' p')
      → pc i ≡ p
      → Own (2 ^ k) log m p
      → (a b t : ℕ) → push_ticket (update pc i p' a) ≡ some t
      → push_ticket (update pc i p' b) ≡ some t
      → a ≡ b
  Move-push_alone call_push here o a b t x y = ground (arith, push_alone a b t)
  Move-push_alone mv here o a b t x y =
      ground (arith, told inv wide bound mv o, push_alone a b t, push_below a t, push_below b t)

  pub Move-pop_alone :
      {p p' : Pc} {e : Event} {m' : Memory} (mv : Move m p e m' p')
      → pc i ≡ p
      → Own (2 ^ k) log m p
      → (a b t : ℕ) → pop_ticket (update pc i p' a) ≡ some t
      → pop_ticket (update pc i p' b) ≡ some t
      → a ≡ b
  Move-pop_alone call_push here o a b t x y = ground (arith, pop_alone a b t)
  Move-pop_alone mv here o a b t x y =
      ground (arith, told inv wide bound mv o, pop_alone a b t, pop_below a t, pop_below b t)

  pub Move-Own_self :
      {p p' : Pc} {e : Event} {m' : Memory} (mv : Move m p e m' p')
      → Own (2 ^ k) log m p
      → Own (2 ^ k) (log_after m log e) m' p'
  Move-Own_self call_push o = tt
  Move-Own_self mv o = ground (arith, told inv wide bound mv o)

  -- What another thread knows stays true.
  pub Move-Own_other :
      {p p' : Pc} {e : Event} {m' : Memory} (mv : Move m p e m' p')
      → pc i ≡ p
      → Own (2 ^ k) log m p
      → (j : ℕ) {q : Pc} → pc j ≡ q
      → Own (2 ^ k) log m q
      → i ≢ j
      → Own (2 ^ k) (log_after m log e) m' q
  Move-Own_other call_push here o j there w ne = w
  Move-Own_other mv here o j {q = idle} there w ne = tt
  Move-Own_other mv here o j {q = push_load v} there w ne = tt
  Move-Own_other mv here o j {q = push_at v t} there w ne = ground (arith, told inv wide bound mv o)
  Move-Own_other {p = p} mv here o j {q = push_claim v t} there w ne = ground (
    arith,
    told inv wide bound mv o,
    order,
    room,
    push_alone i j t,
    pop_alone i j t,
    apart inv wide bound (spot p) t,
    apart inv wide bound (spot p + 2 ^ k) t,
    around inv wide bound (spot p),
    one_cell inv wide bound t (spot p),
  )
  Move-Own_other {p = p} mv here o j {q = push_write v t} there w ne = ground (
    arith,
    told inv wide bound mv o,
    order,
    room,
    push_alone i j t,
    pop_alone i j t,
    apart inv wide bound (spot p) t,
    apart inv wide bound (spot p + 2 ^ k) t,
    around inv wide bound (spot p),
    one_cell inv wide bound t (spot p),
  )
  Move-Own_other {p = p} mv here o j {q = push_publish v t} there w ne = ground (
    arith,
    told inv wide bound mv o,
    order,
    room,
    push_alone i j t,
    pop_alone i j t,
    apart inv wide bound (spot p) t,
    apart inv wide bound (spot p + 2 ^ k) t,
    around inv wide bound (spot p),
    one_cell inv wide bound t (spot p),
  )
  Move-Own_other mv here o j {q = pop_load} there w ne = tt
  Move-Own_other mv here o j {q = pop_at t} there w ne = ground (arith, told inv wide bound mv o)
  Move-Own_other {p = p} mv here o j {q = pop_claim t} there w ne = ground (
    arith,
    told inv wide bound mv o,
    order,
    room,
    push_alone i j t,
    pop_alone i j t,
    apart inv wide bound (spot p) t,
    apart inv wide bound (spot p + 2 ^ k) t,
    around inv wide bound (spot p),
    one_cell inv wide bound t (spot p),
  )
  Move-Own_other {p = p} mv here o j {q = pop_read t} there w ne = ground (
    arith,
    told inv wide bound mv o,
    order,
    room,
    push_alone i j t,
    pop_alone i j t,
    apart inv wide bound (spot p) t,
    apart inv wide bound (spot p + 2 ^ k) t,
    around inv wide bound (spot p),
    one_cell inv wide bound t (spot p),
  )
  Move-Own_other {p = p} mv here o j {q = pop_release x t} there w ne = ground (
    arith,
    told inv wide bound mv o,
    order,
    room,
    push_alone i j t,
    pop_alone i j t,
    apart inv wide bound (spot p) t,
    apart inv wide bound (spot p + 2 ^ k) t,
    around inv wide bound (spot p),
    one_cell inv wide bound t (spot p),
  )
