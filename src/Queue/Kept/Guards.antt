-- ===== src/Queue/Kept/Guards.antt =====
-- What the guards of the moves in include/xrune/util/mpmc_queue.hpp say of positions and cells.
use xrune.Base.{ℕ, suc, ◌+◌, ◌^◌, ◌≤◌, ◌<◌, ◌≡◌, sym, arith, word, two_pow_pos, dec_lt, ap}
use xrune.Queue.{
  Memory, slot, Pc, push_at, push_claim, push_write, push_publish, pop_at, pop_claim, pop_read,
  pop_release, Event, enqueue, Move, push_same, push_full, push_won, publish, pop_same, pop_empty,
  pop_won, release, update,
}
use xrune.Queue.Slots.{slot_apart, slot_around, verdict_lem}
use xrune.Queue.Tickets.{cell_seq, cell_val, Own, Inv}

-- The position that a thread works at.
abbrev pub spot : Pc → ℕ
spot (push_at v t) = t
spot (push_claim v t) = t
spot (push_write v t) = t
spot (push_publish v t) = t
spot (pop_at t) = t
spot (pop_claim t) = t
spot (pop_read t) = t
spot (pop_release x t) = t
spot _ = 0

-- What was pushed where, after an event.
abbrev pub log_after : Memory → (ℕ → ℕ) → Event → ℕ → ℕ
log_after m log (enqueue v) = update log m.enqueue_pos v
log_after m log _ = log

module _ {k : ℕ} {log : ℕ → ℕ} {m : Memory} {pc : ℕ → Pc} (inv : Inv k log m pc) (wide : 2 ≤ 2 ^ k)
    (bound : m.enqueue_pos + 2 ^ k < 2 ^ 63) where
  open inv use {order, room, small, passed, filled, vacant, own, push_alone, pop_alone}

  pub apart : (a b : ℕ) → slot m.mask a ≡ slot m.mask b → a < b + 2 ^ k → b < a + 2 ^ k → a ≡ b
  apart = rw inv.masked (slot_apart k)

  pub around : (a : ℕ) → slot m.mask (a + 2 ^ k) ≡ slot m.mask a
  around = rw inv.masked (slot_around k)

  pub wrapped : (p t : ℕ) → p + 2 ^ k ≡ t → slot m.mask t ≡ slot m.mask p
  wrapped p t e = rw (sym e) (around p)

  pub one_cell : (p t : ℕ) → p + 2 ^ k ≡ t → cell_seq m t ≡ cell_seq m p
  one_cell p t e = ap m.seq (wrapped p t e)

  -- The head and the tail of the ring are different cells unless the ring is full.
  tail_seq : cell_seq m m.enqueue_pos ≡ m.enqueue_pos → m.enqueue_pos < m.dequeue_pos + 2 ^ k
  tail_seq e = elim (dec_lt m.enqueue_pos (m.dequeue_pos + 2 ^ k)) [
    | yes l ↦ l
    | no l ↦
        let full_ring : m.enqueue_pos ≡ m.dequeue_pos + 2 ^ k = omega (arith, room) in
        let one : cell_seq m m.enqueue_pos ≡ cell_seq m m.dequeue_pos =
          rw full_ring (ap m.seq (around m.dequeue_pos)) in
        ground (arith, filled m.dequeue_pos)
  ]

  head_seq : cell_seq m m.dequeue_pos ≡ suc m.dequeue_pos → m.dequeue_pos < m.enqueue_pos
  head_seq e = ground (arith, order, vacant m.dequeue_pos)

  next : (p : ℕ) → p ≤ m.enqueue_pos → word (p + 1) ≡ suc p
  next p h = omega (arith, bound)

  round : (p : ℕ) → p < m.dequeue_pos → word (word (p + m.mask) + 1) ≡ p + 2 ^ k
  round p h = omega (arith, bound, order, inv.masked, two_pow_pos k)

  tail_fits : m.enqueue_pos < m.dequeue_pos + 2 ^ k → cell_seq m m.enqueue_pos ≤ m.enqueue_pos
  tail_fits h = ground (arith, vacant m.enqueue_pos)

  low : (t : ℕ) → cell_seq m t < 2 ^ 63
  low t = omega (arith, bound, order, small t)

  -- What the guard of a move says, once the words and the comparisons are worked out.
  abbrev pub Told : {p p' : Pc} {e : Event} {m' : Memory} → Move m p e m' p' → Type 0
  Told (push_same {p} _) = cell_seq m p ≡ p
  Told (push_won {p} _) =
      (m.enqueue_pos ≡ p)
      × (cell_seq m p ≡ p)
      × (p < m.dequeue_pos + 2 ^ k)
      × (word (p + 1) ≡ suc p)
  Told (push_full {p} _) = cell_seq m p < p
  Told (publish {p = p}) = word (p + 1) ≡ suc p
  Told (pop_same {p} _) = cell_seq m p ≡ suc p
  Told (pop_empty {p} _) = cell_seq m p < suc p
  Told (pop_won {p} _) =
      (m.dequeue_pos ≡ p)
      × (cell_seq m p ≡ suc p)
      × (p < m.enqueue_pos)
      × (cell_val m p ≡ log p)
      × (word (p + 1) ≡ suc p)
  Told (release {p = p}) = word (word (p + m.mask) + 1) ≡ p + 2 ^ k
  Told _ = Unit

  pub told :
      {p p' : Pc} {e : Event} {m' : Memory} (mv : Move m p e m' p') → Own (2 ^ k) log m p → Told mv
  told (push_same {p = p} g) o = verdict_lem (cell_seq m p) p (low p) (omega (arith, bound, o)) g
  told (push_full {p = p} g) o = verdict_lem (cell_seq m p) p (low p) (omega (arith, bound, o)) g
  told (push_won {p = p} g) o = ground (arith, next p, tail_seq)
  told (publish {p = p}) o = next p (omega (arith, o.1))
  told (pop_same {p = p} g) o =
      rw (next p (omega (arith, o, order))) at
        (verdict_lem (cell_seq m p) (word (p + 1)) (low p) (omega (arith, bound, o, order)) g)
  told (pop_empty {p = p} g) o =
      rw (next p (omega (arith, o, order))) at
        (verdict_lem (cell_seq m p) (word (p + 1)) (low p) (omega (arith, bound, o, order)) g)
  told (pop_won {p = p} g) o = ground (arith, order, next p, head_seq, filled p)
  told (release {p = p}) o = round p o.0
  told _ o = tt
