-- ===== src/Tests/Queues.antt =====
-- A queue of two cells that one thread pushes 7 to and another pops.
use xrune.Base.{ℕ, ◌+◌, ◌^◌, ◌<◌, ◌≡◌, refl, arith, ℕ_discrete, List, [], ◌∷◌, ◌++◌}
use xrune.Queue.{
  silent, enqueue, stored, dequeue, deliver, slot, verdict, same, call_push, load_enqueue_pos,
  push_same, push_won, write_val, publish, call_pop, load_dequeue_pos, pop_same, pop_won, read_val,
  release,
}
use xrune.Queue.Contract.{Board, Trace, Allowed}
use xrune.Queue.System.{System, Reach, begin, later, pick, pushed}
use xrune.Queue.Refine.{queue_refines}
use xrune.Queue.Fifo.{puts, gets, queue_fifo}

abbrev one_push : Trace
one_push = (0, stored) ∷ (0, silent) ∷ (0, enqueue 7) ∷ (0, silent) ∷ (0, silent) ∷ (0, silent) ∷ []

abbrev push_and_pop : Trace
push_and_pop =
    (1, deliver 7) ∷ (1, silent) ∷ (1, dequeue) ∷ (1, silent) ∷ (1, silent) ∷ (1, silent) ∷ one_push

-- A queue of one cell would see its only value as room: its positions differ by the capacity.
one_cell_clash : verdict 1 1 ≡ same
unfolding verdict
one_cell_clash = refl

pushes_7 : (s : System) × Reach (2 ^ 1) one_push s
unfolding slot verdict ℕ_discrete
pushes_7 = (
  _,
  later
      (later
        (later
          (later (later (later begin (pick 0 (call_push {v = 7}))) (pick 0 load_enqueue_pos))
            (pick 0 (push_same refl)))
          (pick 0 (push_won refl)))
        (pick 0 write_val))
      (pick 0 publish),
)

push_then_pop : (s : System) × Reach (2 ^ 1) push_and_pop s
unfolding slot verdict ℕ_discrete pushes_7
push_then_pop = (
  _,
  later
      (later
        (later
          (later (later (later pushes_7.1 (pick 1 call_pop)) (pick 1 load_dequeue_pos))
            (pick 1 (pop_same refl)))
          (pick 1 (pop_won refl)))
        (pick 1 read_val))
      (pick 1 release),
)

bounded : pushed push_and_pop + 2 ^ 1 < 2 ^ 63
unfolding pushed
bounded = omega arith

queue_refines_example : (b : Board) × Allowed (2 ^ 1) push_and_pop b
queue_refines_example = queue_refines 1 (omega arith) bounded push_then_pop.1

queue_fifo_example : (rest : List ℕ) × (gets push_and_pop ++ rest ≡ puts push_and_pop)
queue_fifo_example =
    queue_fifo 1 1 (omega arith) bounded push_then_pop.1
      (refl, (tt, (refl, (tt, (tt, (tt, (tt, (tt, (tt, (tt, (tt, (tt, tt))))))))))))

delivers_7 : gets push_and_pop ≡ 7 ∷ []
unfolding gets
delivers_7 = refl
