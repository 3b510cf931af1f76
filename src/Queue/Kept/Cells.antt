-- ===== src/Queue/Kept/Cells.antt =====
-- A move keeps what the cells of include/xrune/util/mpmc_queue.hpp hold.
use xrune.Base.{ℕ, ◌+◌, ◌^◌, ◌≤◌, ◌<◌, ◌≡◌, inl, inr, arith, ℕ_discrete}
use xrune.Queue.{Memory, Pc, Event, Move, call_push, push_won, publish, pop_won, release, update}
use xrune.Queue.Tickets.{cell_seq, Own, Filled, Open, Inv}
use xrune.Queue.Kept.Guards.{spot, log_after, apart, around, wrapped, told}

module _ {k : ℕ} {log : ℕ → ℕ} {m : Memory} {pc : ℕ → Pc} (inv : Inv k log m pc) (i : ℕ)
    (wide : 2 ≤ 2 ^ k) (bound : m.enqueue_pos + 2 ^ k < 2 ^ 63) where
  open inv use {order, room, small, passed, filled, vacant, own, push_alone, pop_alone}

  pub Move-order :
      {p p' : Pc} {e : Event} {m' : Memory} (mv : Move m p e m' p')
      → Own (2 ^ k) log m p
      → m'.dequeue_pos ≤ m'.enqueue_pos
  Move-order call_push o = order
  Move-order mv o = ground (arith, told inv wide bound mv o, order)

  pub Move-room :
      {p p' : Pc} {e : Event} {m' : Memory} (mv : Move m p e m' p')
      → Own (2 ^ k) log m p
      → m'.enqueue_pos ≤ m'.dequeue_pos + 2 ^ k
  Move-room call_push o = room
  Move-room mv o = ground (arith, told inv wide bound mv o, room)

  pub Move-small :
      {p p' : Pc} {e : Event} {m' : Memory} (mv : Move m p e m' p')
      → Own (2 ^ k) log m p
      → (t : ℕ) → cell_seq m' t ≤ m'.dequeue_pos + 2 ^ k
  Move-small call_push o t = small t
  Move-small mv o t = ground (arith, told inv wide bound mv o, small t, room)

  pub Move-passed :
      {p p' : Pc} {e : Event} {m' : Memory} (mv : Move m p e m' p')
      → Own (2 ^ k) log m p
      → (t : ℕ) → t < m'.dequeue_pos
      → t < cell_seq m' t
  Move-passed call_push o t h = passed t h
  Move-passed mv o t h = grind (arith, told inv wide bound mv o, passed t)

  pub Move-filled :
      {p p' : Pc} {e : Event} {m' : Memory} (mv : Move m p e m' p')
      → pc i ≡ p
      → Own (2 ^ k) log m p
      → (t : ℕ) → m'.dequeue_pos ≤ t
      → t < m'.enqueue_pos
      → Filled (log_after m log e) m' (update pc i p') t
  Move-filled (push_won {v} {p} g) here o t h l = elim (ℕ_discrete p t) [
    | yes last ↦ inl (ground (arith, told inv wide bound (push_won {v = v} g) o), i, ground arith)
    | no old ↦ elim (filled t h (ground (arith, told inv wide bound (push_won {v = v} g) o))) [
      | inl (e, j, at_t) ↦ inl (ground arith, j, ground arith)
      | inr (e, v) ↦ inr (ground arith, ground arith)
    ]
  ]
  Move-filled (publish {v} {p}) here o t h l = elim (ℕ_discrete p t) [
    | yes mine ↦ inr (
      ground (arith, told inv wide bound (publish {v = v}) o),
      ground (arith, told inv wide bound (publish {v = v}) o),
    )
    | no other ↦ elim (filled t h l) [
      | inl (e, j, at_t) ↦ inl (ground (arith, apart inv wide bound p t, room), j, ground arith)
      | inr (e, v) ↦ inr (ground (arith, apart inv wide bound p t, room), ground arith)
    ]
  ]
  Move-filled {p = p} mv here o t h l =
      elim (filled t (ground (arith, told inv wide bound mv o)) (ground arith)) [
        | inl (e, j, at_t) ↦ inl (
          ground (arith, told inv wide bound mv o, room, own j, apart inv wide bound (spot p) t),
          j,
          ground arith,
        )
        | inr (e, v) ↦ inr (
          ground (arith, told inv wide bound mv o, room),
          ground (arith, room, apart inv wide bound (spot p) t),
        )
      ]

  pub Move-vacant :
      {p p' : Pc} {e : Event} {m' : Memory} (mv : Move m p e m' p')
      → pc i ≡ p
      → Own (2 ^ k) log m p
      → (t : ℕ) → m'.enqueue_pos ≤ t
      → t < m'.dequeue_pos + 2 ^ k
      → Open (2 ^ k) m' (update pc i p') t
  Move-vacant (pop_won {p} g) here o t h l = elim (ℕ_discrete (p + 2 ^ k) t) [
    | yes last ↦ inr (
      p,
      last,
      rw (wrapped inv wide bound p t last) (told inv wide bound (pop_won g) o).1,
      i,
      ground arith,
    )
    | no old ↦ elim (vacant t h (ground (arith, told inv wide bound (pop_won g) o))) [
      | inl e ↦ inl e
      | inr (u, s, e, j, at_u) ↦ inr (u, s, e, j, ground arith)
    ]
  ]
  Move-vacant (release {x} {p}) here o t h l = elim (ℕ_discrete (p + 2 ^ k) t) [
    | yes mine ↦
        inl
          (ground (arith, wrapped inv wide bound p t mine, told inv wide bound (release {x = x}) o))
    | no other ↦ elim (vacant t h l) [
      | inl e ↦
          inl (ground (arith, apart inv wide bound (p + 2 ^ k) t, around inv wide bound p, room))
      | inr (u, s, e, j, at_u) ↦ inr (
        u,
        s,
        ground (arith, apart inv wide bound (p + 2 ^ k) t, around inv wide bound p, room),
        j,
        ground arith,
      )
    ]
  ]
  Move-vacant {p = p} mv here o t h l =
      elim (vacant t (ground (arith, told inv wide bound mv o)) (ground arith)) [
        | inl e ↦ inl (
            ground (
              arith,
              told inv wide bound mv o,
              room,
              apart inv wide bound (spot p) t,
              apart inv wide bound (spot p + 2 ^ k) t,
              around inv wide bound (spot p),
            ))
        | inr (u, s, e, j, at_u) ↦ inr (
          u,
          s,
          ground (
            arith,
            told inv wide bound mv o,
            room,
            apart inv wide bound (spot p) t,
            apart inv wide bound (spot p + 2 ^ k) t,
            around inv wide bound (spot p),
          ),
          j,
          ground arith,
        )
      ]
