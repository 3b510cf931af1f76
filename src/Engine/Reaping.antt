-- ===== src/Engine/Reaping.antt =====
-- src/engine.cpp: the end of voices after a block, should_reap() and reap_pass(). `finished_flag` reads
-- that flag of an instance, `peak` is terminal_peak() of its block, and `less` is < on samples.
pub mod Scan
pub mod Due
mod Released
pub mod Pass
pub mod Timed
use xrune.Base.{
  ℕ, ◌+◌, ◌^◌, ◌<◌, ◌≤◌, ◌≡◌, ◌≢◌, refl, Bool, true, false, Option, none, some, List, [], ◌∷◌, leb,
  if◌then◌else◌, length, set, get_elem?, word, arith, Bool-cases, inl, inr, sym, ap, subst,
}
use xrune.Manager.{LifetimeKind, InstanceSlot}
use xrune.Engine.{Engine, EndReason, TelemetryEvent, release_slot}

abbrev pub add_end : ℕ → Option EndReason → List (ℕ × EndReason) → List (ℕ × EndReason)
add_end i none ends = ends
add_end i (some why) ends = (i, why) ∷ ends

unfoldable pub release_all :
    {I S T : Type 0} → (T → TelemetryEvent → T) → List (ℕ × EndReason) → Engine I S T → Engine I S T
unfolding release_slot
release_all try_enqueue [] e = e
release_all try_enqueue ((slot, why) ∷ ends) e =
    release_all try_enqueue ends (release_slot try_enqueue slot why e)

module _ {I S : Type 0} (finished_flag : I → Bool) (less : S → S → Bool) where
  -- The reason to end the voice, if there is one, and its slot with the counters moved on.
  unfoldable pub should_reap : I → S → InstanceSlot I S → Option EndReason × InstanceSlot I S
  should_reap g block_peak s =
      let older = record s { age_blocks = word (s.age_blocks + 1) } in
      let run = if less block_peak s.life.silence_threshold then word (s.silent_run + 1) else 0 in
      let by_kind : Option EndReason × InstanceSlot I S = elim s.life.kind [
        | LifetimeKind.permanent ↦ (none, older)
        | LifetimeKind.timed ↦ (
          if leb s.life.ttl_blocks older.age_blocks then some EndReason.timed_out else none,
          older,
        )
        | LifetimeKind.until_finished ↦ (none, older)
        | LifetimeKind.until_silent ↦ (
          if leb s.life.silence_blocks run then some EndReason.silent else none,
          record older { silent_run = run },
        )
      ] in
      if finished_flag g then (some EndReason.finished, s) else by_kind

  -- An active slot has an instance; one without is left as it is.
  abbrev pub judge : (I → S) → InstanceSlot I S → Option I → Option EndReason × InstanceSlot I S
  judge peak s none = (none, s)
  judge peak s (some g) = should_reap g (peak g) s

  abbrev pub reap_at :
      (I → S)
      → ℕ
      → Option (InstanceSlot I S)
      → List (InstanceSlot I S)
      → Option EndReason × List (InstanceSlot I S)
  reap_at peak i none slots = (none, slots)
  reap_at peak i (some s) slots = let (why, s') = judge peak s s.inst in (why, set slots i s')

  -- The first loop of reap_pass(), over active_list: reap_scratch with reap_reasons, and the slots.
  unfoldable pub scan :
      (I → S) → List ℕ → List (InstanceSlot I S) → List (ℕ × EndReason) × List (InstanceSlot I S)
  unfolding should_reap
  scan peak [] slots = ([], slots)
  scan peak (i ∷ is) slots =
      let (why, next) = reap_at peak i (get_elem? slots i) slots in
      let (ends, rest) = scan peak is next in (add_end i why ends, rest)

  module _ {T : Type 0} (try_enqueue : T → TelemetryEvent → T) where
    -- The second loop is release_all.
    unfoldable pub reap_pass : (I → S) → Engine I S T → Engine I S T
    unfolding scan release_all
    reap_pass peak e =
        let (ends, slots) = scan peak e.active_list e.mgr.slots in
        release_all try_enqueue ends (record e { mgr = record e.mgr { slots = slots } })
