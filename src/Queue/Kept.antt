-- ===== src/Queue/Kept.antt =====
-- A move of one thread keeps what the tickets of include/xrune/util/mpmc_queue.hpp say.
mod Guards
mod Cells
mod Owners
pub use Guards.{log_after, told}
use Cells.*
use Owners.*
use xrune.Base.{
  ℕ, suc, ◌+◌, ◌-◌, ◌^◌, ◌≤◌, ◌<◌, ◌≡◌, refl, inl, arith, word_pred, ℕ_discrete, two_pow_pos,
  two_pow_fits,
}
use mathlib.Core.Logic.{ite}
use mathlib.Core.Path.{sym}
use xrune.Queue.{Memory, init_queue, slot, Pc, idle, Event, Move, call_push, update}
use xrune.Queue.Slots.{slot-lt, slot_small}
use xrune.Queue.Tickets.{cell_seq, Own, Inv}

ite_holds {ℓ κ} :
    {A B : Type ℓ} (P : A → Type κ) (d : Dec B) (x y : A) → P x → (¬ B → P y) → P (ite d x y)
ite_holds P (yes e) x y h f = h
ite_holds P (no e) x y h f = f e

module _ {k : ℕ} {log : ℕ → ℕ} {m : Memory} {pc : ℕ → Pc} (inv : Inv k log m pc) (i : ℕ)
    (wide : 2 ≤ 2 ^ k) (bound : m.enqueue_pos + 2 ^ k < 2 ^ 63) where
  Move-Own :
      {p p' : Pc} {e : Event} {m' : Memory} (mv : Move m p e m' p')
      → pc i ≡ p
      → Own (2 ^ k) log m p
      → (j : ℕ) → Own (2 ^ k) (log_after m log e) m' (update pc i p' j)
  Move-Own {p' = p'} {e} {m'} mv here o j =
      ite_holds (Own (2 ^ k) (log_after m log e) m') (ℕ_discrete i j) p' (pc j)
        (Move-Own_self inv i wide bound mv o)
        (λ other. Move-Own_other inv i wide bound mv here o j refl (inv.own j) other)

  Move-masked : {p p' : Pc} {e : Event} {m' : Memory} → Move m p e m' p' → m'.mask ≡ 2 ^ k - 1
  Move-masked call_push = inv.masked
  Move-masked mv = inv.masked

  pub Move-Inv :
      {p' : Pc} {e : Event} {m' : Memory}
      → Move m (pc i) e m' p'
      → Inv k (log_after m log e) m' (update pc i p')
  Move-Inv mv = record {
    masked = Move-masked mv;
    order = Move-order inv i wide bound mv (inv.own i);
    room = Move-room inv i wide bound mv (inv.own i);
    small = Move-small inv i wide bound mv (inv.own i);
    passed = Move-passed inv i wide bound mv (inv.own i);
    filled = Move-filled inv i wide bound mv refl (inv.own i);
    vacant = Move-vacant inv i wide bound mv refl (inv.own i);
    own = Move-Own mv refl (inv.own i);
    push_alone = Move-push_alone inv i wide bound mv refl (inv.own i);
    pop_alone = Move-pop_alone inv i wide bound mv refl (inv.own i);
  }

init-masked : (k : ℕ) → k < 63 → word_pred (2 ^ k) ≡ 2 ^ k - 1
init-masked k fits = omega (arith, two_pow_fits k, two_pow_pos k)

init-seq-lt : (k t : ℕ) → k < 63 → slot (word_pred (2 ^ k)) t < 2 ^ k
init-seq-lt k t fits = rw (init-masked k fits) (slot-lt k t)

init-seq_small : (k t : ℕ) → k < 63 → t < 2 ^ k → slot (word_pred (2 ^ k)) t ≡ t
init-seq_small k t fits h = rw (init-masked k fits) (slot_small k t h)

pub init-Inv : (k : ℕ) → k < 63 → Inv k (λ _. 0) (init_queue (2 ^ k)) (λ _. idle)
init-Inv k fits = record {
  masked = init-masked k fits;
  order = omega arith;
  room = omega arith;
  small = λ t. omega (arith, init-seq-lt k t fits);
  passed = λ t h. elim h [ ];
  filled = λ t h l. elim l [ ];
  vacant = λ t h l. inl (init-seq_small k t fits (omega arith));
  own = λ _. tt;
  push_alone = λ i j t x y. cc;
  pop_alone = λ i j t x y. cc;
}
