-- ===== src/Queue/Fifo.antt =====
-- The order in which one consumer of include/xrune/util/mpmc_queue.hpp receives the values.
use xrune.Base.{
  ℕ, ◌+◌, ◌^◌, ◌≤◌, ◌<◌, ◌≡◌, sym, refl, Option, none, some, List, [], ◌∷◌, ◌++◌, append-nil,
  append_assoc, arith,
}
use xrune.Queue.{update, Event, enqueue, dequeue, deliver}
use xrune.Queue.Contract.{
  Board, Act, unseen, placed, finished, refused, taken, returned, missed, Trace, Allowed, at_first,
  and_then,
}
use xrune.Queue.System.{System, Reach, pushed}
use xrune.Queue.Refine.{queue_refines}

abbrev put_by : Event → List ℕ
put_by (enqueue v) = v ∷ []
put_by _ = []

abbrev got_by : Event → List ℕ
got_by (deliver x) = x ∷ []
got_by _ = []

-- The pushed values and the popped ones, in the order of their events.
unfoldable pub puts : Trace → List ℕ
puts [] = []
puts ((i, e) ∷ t) = puts t ++ put_by e

unfoldable pub gets : Trace → List ℕ
gets [] = []
gets ((i, e) ∷ t) = gets t ++ got_by e

abbrev Pops : ℕ → ℕ → Event → Type 0
Pops c i dequeue = i ≡ c
Pops c i (deliver x) = i ≡ c
Pops c i _ = Unit

-- Only thread `c` pops.
abbrev pub Consumer : ℕ → Trace → Type 0
Consumer c [] = Unit
Consumer c ((i, e) ∷ t) = Pops c i e × Consumer c t

abbrev held : Option ℕ → List ℕ
held none = []
held (some x) = x ∷ []

quiet : (gs ps xs : List ℕ) → gs ++ xs ≡ ps → (gs ++ []) ++ xs ≡ ps ++ []
quiet gs ps xs h = rw (append-nil gs, append-nil ps) h

update_self : (f : ℕ → Option ℕ) (i c : ℕ) (o : Option ℕ) → i ≡ c → update f i o c ≡ o
update_self f i c o e = ground arith

Act-puts :
    {n i : ℕ} {b a : Board} {e : Event} (c : ℕ) (gs ps : List ℕ)
    → Act n b i e a
    → Pops c i e
    → gs ++ (held (b.owed c) ++ b.waiting) ≡ ps
    → (gs ++ got_by e) ++ (held (a.owed c) ++ a.waiting) ≡ ps ++ put_by e
Act-puts {b = b} c gs ps (placed {v = v} free room) o h =
    rw
      (
        append-nil gs,
        sym h,
        append_assoc gs (held (b.owed c) ++ b.waiting) (v ∷ []),
        append_assoc (held (b.owed c)) b.waiting (v ∷ []),
      )
      refl
Act-puts {i = i} {b = b} c gs ps (taken {x} {rest} none_yet w) o h =
    let mine : b.owed c ≡ none = rw (sym o) none_yet in
    rw (update_self b.owed i c (some x) o) (quiet gs ps _ (rw (mine, w) at h))
Act-puts {i = i} {b = b} c gs ps (returned {x} y) o h =
    let mine : b.owed c ≡ some x = rw (sym o) y in
    rw (update_self b.owed i c none o, append_assoc gs (x ∷ []) b.waiting, append-nil ps)
      (rw mine at h)
Act-puts c gs ps unseen o h = quiet gs ps _ h
Act-puts c gs ps (finished f) o h = quiet gs ps _ h
Act-puts c gs ps (refused f) o h = quiet gs ps _ h
Act-puts c gs ps (missed f) o h = quiet gs ps _ h

Allowed-puts :
    {n : ℕ} {t : Trace} {b : Board} (c : ℕ)
    → Allowed n t b
    → Consumer c t
    → gets t ++ (held (b.owed c) ++ b.waiting) ≡ puts t
unfolding gets puts
Allowed-puts c at_first o = refl
Allowed-puts c (and_then {t} r act) o = Act-puts c (gets t) (puts t) act o.0 (Allowed-puts c r o.1)

-- When one thread alone pops, it receives the pushed values in the order in which the pushes
-- took their places, without a gap and without a repetition.
pub queue_fifo :
    {t : Trace} {s : System} (k c : ℕ)
    → 1 ≤ k
    → pushed t + 2 ^ k < 2 ^ 63
    → Reach (2 ^ k) t s
    → Consumer c t
    → (rest : List ℕ) × (gets t ++ rest ≡ puts t)
queue_fifo k c h bound r o =
    let (b, allowed) = queue_refines k h bound r in
    (held (b.owed c) ++ b.waiting, Allowed-puts c allowed o)
