-- ===== src/Queue/View.antt =====
-- The board that a state of include/xrune/util/mpmc_queue.hpp shows, and the act of each move.
use mathlib.Core.Path.{sym, ap₂}
use xrune.Base.{
  ℕ, zero, suc, ◌+◌, ◌-◌, ◌^◌, ◌≤◌, ◌<◌, ◌≡◌, ◌⊎◌, ◌∙◌, refl, ap, inl, inr, Bool, true, false,
  Option, none, some, List, [], ◌∷◌, ◌++◌, length, arith, dec_lt, word,
}
use xrune.Queue.{
  Memory, Pc, idle, push_load, push_at, push_claim, push_write, push_publish, pop_load, pop_at,
  pop_claim, pop_read, pop_release, Event, Move, call_push, push_full, push_won, publish, pop_empty,
  pop_won, release, update,
}
use xrune.Queue.Contract.{Board, Act, unseen, placed, finished, refused, taken, returned, missed}
use xrune.Queue.Tickets.{Inv, Own, cell_seq, pop_ticket}
use xrune.Queue.Kept.{log_after, told}

unfoldable pub values : (ℕ → ℕ) → ℕ → ℕ → List ℕ
values log d zero = []
values log d (suc n) = log d ∷ values log (suc d) n

length-values : (log : ℕ → ℕ) (d n : ℕ) → length (values log d n) ≡ n
unfolding values
length-values log d zero = refl
length-values log d (suc n) = ap suc (length-values log (suc d) n)

values_snoc :
    (log : ℕ → ℕ) (d n e v : ℕ)
    → d + n ≡ e
    → values (update log e v) d (suc n) ≡ values log d n ++ v ∷ []
unfolding values
values_snoc log d zero e v h = ground arith
values_snoc log d (suc n) e v h =
    ap₂ ◌∷◌ (ground arith) (values_snoc log (suc d) n e v (omega arith))

values_cons :
    (log : ℕ → ℕ) (d e : ℕ) → d < e → values log d (e - d) ≡ log d ∷ values log (suc d) (e - suc d)
unfolding values
values_cons log d e h = let one_more : e - d ≡ suc (e - suc d) = omega arith in rw one_more refl

abbrev is_storing : Pc → Bool
is_storing (push_write v t) = true
is_storing (push_publish v t) = true
is_storing _ = false

abbrev owes : (ℕ → ℕ) → Pc → Option ℕ
owes log (pop_read t) = some (log t)
owes log (pop_release x t) = some x
owes log _ = none

ticket_owes :
    (log : ℕ → ℕ) (q : Pc) {t : ℕ} → pop_ticket q ≡ some t → (x : ℕ) × (owes log q ≡ some x)
ticket_owes log (pop_read t) e = (log t, refl)
ticket_owes log (pop_release x t) e = (x, refl)
ticket_owes log idle e = cc
ticket_owes log (push_load v) e = cc
ticket_owes log (push_at v p) e = cc
ticket_owes log (push_claim v p) e = cc
ticket_owes log (push_write v p) e = cc
ticket_owes log (push_publish v p) e = cc
ticket_owes log pop_load e = cc
ticket_owes log (pop_at p) e = cc
ticket_owes log (pop_claim p) e = cc

-- The board that the memory and the threads show.
pub record Shows (log : ℕ → ℕ) (m : Memory) (pc : ℕ → Pc) (b : Board) : Type 0 where
  pub waiting : b.waiting ≡ values log m.dequeue_pos (m.enqueue_pos - m.dequeue_pos)
  pub storing : (j : ℕ) → b.storing j ≡ is_storing (pc j)
  pub owed : (j : ℕ) → b.owed j ≡ owes log (pc j)

module _ {k : ℕ} {log : ℕ → ℕ} {m : Memory} {pc : ℕ → Pc} {b : Board} (inv : Inv k log m pc) (i : ℕ)
    (wide : 2 ≤ 2 ^ k) (bound : m.enqueue_pos + 2 ^ k < 2 ^ 63) (shows : Shows log m pc b) where
  length-waiting : length b.waiting ≡ m.enqueue_pos - m.dequeue_pos
  length-waiting =
      rw shows.waiting (length-values log m.dequeue_pos (m.enqueue_pos - m.dequeue_pos))

  -- A push that sees an old sequence number is at the tail, and a pop at the head.
  full_reason :
      (p : ℕ)
      → p ≤ m.enqueue_pos
      → cell_seq m p < p
      → (length b.waiting ≡ 2 ^ k) ⊎ ((j x : ℕ) × (b.owed j ≡ some x))
  full_reason p h l =
      let last : p ≡ m.enqueue_pos = ground (arith, inv.passed p, inv.filled p) in
      elim (dec_lt p (m.dequeue_pos + 2 ^ k)) [
        | yes lt ↦ elim (inv.vacant p (omega arith) lt) [
          | inl e ↦ absurd (omega arith)
          | inr (u, s, e, j, at_u) ↦
              let (x, owe) = ticket_owes log (pc j) at_u in inr (j, x, shows.owed j ∙ owe)
        ]
        | no ge ↦ inl (omega (arith, length-waiting, inv.room))
      ]

  empty_reason :
      (p : ℕ)
      → p ≤ m.dequeue_pos
      → cell_seq m p < suc p
      → (b.waiting ≡ []) ⊎ ((j : ℕ) × (b.storing j ≡ true))
  unfolding values
  empty_reason p h l =
      let first : p ≡ m.dequeue_pos = ground (arith, inv.passed p) in
      elim (dec_lt p m.enqueue_pos) [
        | yes lt ↦ elim (inv.filled p (omega arith) lt) [
          | inl (e, j, at_p) ↦ inr (j, shows.storing j ∙ ground arith)
          | inr (e, v) ↦ absurd (omega arith)
        ]
        | no ge ↦
            let none_left : m.enqueue_pos - m.dequeue_pos ≡ 0 = omega arith in
            inl (rw none_left at shows.waiting ∙ refl)
      ]

  pushed_values :
      {p : ℕ} (v : ℕ)
      → m.enqueue_pos ≡ p
      → word (p + 1) ≡ suc p
      → b.waiting ++ v ∷ []
        ≡ values (update log m.enqueue_pos v) m.dequeue_pos (word (p + 1) - m.dequeue_pos)
  pushed_values {p} v g w =
      let one_more : word (p + 1) - m.dequeue_pos ≡ suc (m.enqueue_pos - m.dequeue_pos) =
        omega (arith, w, g, inv.order) in
      rw (one_more, shows.waiting)
        (sym (
          values_snoc log m.dequeue_pos (m.enqueue_pos - m.dequeue_pos) m.enqueue_pos v
            (omega (arith, inv.order))))

  abbrev pub Follows : (p p' : Pc) (e : Event) (m' : Memory) → Type 0
  Follows p p' e m' =
      (a : Board) × Act (2 ^ k) b i e a × Shows (log_after m log e) m' (update pc i p') a

  pub Move-Follows :
      {p p' : Pc} {e : Event} {m' : Memory}
      → Move m p e m' p'
      → pc i ≡ p
      → Own (2 ^ k) log m p
      → Follows p p' e m'
  Move-Follows (push_full {v} {p} g) here o = (
    b,
    refused (full_reason p o (told inv wide bound (push_full {v = v} g) o)),
    record {
      waiting = shows.waiting;
      storing = λ j. ground (arith, here, shows.storing j);
      owed = λ j. ground (arith, here, shows.owed j);
    },
  )
  Move-Follows (push_won {v} {p} g) here o =
      let facts = told inv wide bound (push_won {v = v} g) o in
      (
        _,
        placed {v = v} (ground (arith, here, shows.storing i))
            (omega (arith, length-waiting, facts.2, inv.order)),
        record {
          waiting = pushed_values v facts.0 facts.3;
          storing = λ j. ground (arith, here, shows.storing j);
          owed = λ j. ground (arith, here, shows.owed j, inv.own j, inv.order);
        },
      )
  Move-Follows (publish {v} {p}) here o = (
    _,
    finished (ground (arith, here, shows.storing i)),
    record {
      waiting = shows.waiting;
      storing = λ j. ground (arith, here, shows.storing j);
      owed = λ j. ground (arith, here, shows.owed j);
    },
  )
  Move-Follows (pop_empty {p} g) here o = (
    b,
    missed (empty_reason p o (told inv wide bound (pop_empty g) o)),
    record {
      waiting = shows.waiting;
      storing = λ j. ground (arith, here, shows.storing j);
      owed = λ j. ground (arith, here, shows.owed j);
    },
  )
  Move-Follows (pop_won {p} g) here o =
      let facts = told inv wide bound (pop_won g) o in
      (
        _,
        taken {x = log p} {rest = values log (suc p) (m.enqueue_pos - suc p)}
            (ground (arith, here, shows.owed i))
            (shows.waiting
              ∙ rw (sym g)
                  (values_cons log m.dequeue_pos m.enqueue_pos (omega (arith, facts.0, facts.2)))),
        record {
          waiting = rw facts.4 refl;
          storing = λ j. ground (arith, here, shows.storing j);
          owed = λ j. ground (arith, here, shows.owed j);
        },
      )
  Move-Follows (release {x} {p}) here o = (
    _,
    returned (ground (arith, here, shows.owed i)),
    record {
      waiting = shows.waiting;
      storing = λ j. ground (arith, here, shows.storing j);
      owed = λ j. ground (arith, here, shows.owed j);
    },
  )
  Move-Follows call_push here o = (
    b,
    unseen,
    record {
      waiting = shows.waiting;
      storing = λ j. ground (arith, here, shows.storing j);
      owed = λ j. ground (arith, here, shows.owed j);
    },
  )
  Move-Follows mv here o = (
    b,
    unseen,
    record {
      waiting = shows.waiting;
      storing = λ j. ground (arith, here, shows.storing j);
      owed = λ j. ground (arith, here, o, shows.owed j);
    },
  )
