-- ===== src/Engine/Reaping/Pass.antt =====
-- src/engine.cpp: which voices reap_pass() ends, and what it leaves of the others.
use xrune.Base.{
  ℕ, ◌≡◌, sym, ap, subst, ◌∙◌, Bool, true, not, ◌&&◌, Option, none, some, List, [], ◌∷◌, arith,
  if◌then◌else◌, get_or, get_elem?, member, Distinct,
}
use xrune.Manager.{InstanceSlot}
use xrune.Engine.{Engine, EndReason, TelemetryEvent}
use xrune.Engine.Active.{IsRouted}
use xrune.Engine.Reaping.Due.{is_over, should_reap-is_over}
use xrune.Engine.Reaping.{judge, add_end, scan, reap_pass}
use xrune.Engine.Reaping.Scan.{is_some, judged, due, dues, scan-dues, scan-slots, any-dues}
use xrune.Engine.Reaping.Released.{named_by, AllOnce, report_all, release_all-Released}

module _ {I S T : Type 0} (finished_flag : I → Bool) (less : S → S → Bool)
    (try_enqueue : T → TelemetryEvent → T) (peak : I → S) where
  abbrev pub ends_at : Engine I S T → ℕ → Option EndReason
  ends_at e = due finished_flag less peak e.mgr.slots

  -- What a pass leaves: `e` before it, `e'` after it.
  pub record Reaped (e e' : Engine I S T) : Type 0 where
    pub routed : IsRouted e'
    pub listed :
        (i : ℕ) → member i e'.active_list ≡ (member i e.active_list && not (is_some (ends_at e i)))
    pub ended :
        (i : ℕ) (s : InstanceSlot I S) (g : I)
        → get_elem? e.mgr.slots i ≡ some s
        → s.inst ≡ some g
        → is_some (ends_at e i) ≡ is_over finished_flag less g (peak g) s
    pub kept_gen :
        (i : ℕ)
        → member i e'.active_list ≡ true
        → get_or e'.active_gen i 0 ≡ get_or e.active_gen i 0
    pub slots :
        (i : ℕ)
        → get_elem? e'.mgr.slots i ≡ (
            if member i e.active_list
            then (judged finished_flag less peak (get_elem? e.mgr.slots i)).1
            else get_elem? e.mgr.slots i)
    pub reported :
        e'.telemetry_queue
        ≡ report_all try_enqueue e.active_gen
            (dues finished_flag less peak e.mgr.slots e.active_list)
            e.telemetry_queue

  is_some-due :
      (o : Option (InstanceSlot I S)) (s : InstanceSlot I S) (g : I)
      → o ≡ some s
      → s.inst ≡ some g
      → is_some (judged finished_flag less peak o).0 ≡ is_over finished_flag less g (peak g) s
  is_some-due o s g found there =
      ap (λ o. is_some (judged finished_flag less peak o).0) found
      ∙ ap (λ i. is_some (judge finished_flag less peak s i).0) there
      ∙ should_reap-is_over finished_flag less g (peak g) s

  AllOnce-dues :
      (is : List ℕ) (slots : List (InstanceSlot I S))
      → Distinct is
      → AllOnce (dues finished_flag less peak slots is)
  AllOnce-dues [] slots d = tt
  AllOnce-dues (i ∷ is) slots d =
      AllOnce-add_end (due finished_flag less peak slots i) (AllOnce-dues is slots d.1)
    where
      AllOnce-add_end :
          (o : Option EndReason)
          → AllOnce (dues finished_flag less peak slots is)
          → AllOnce (add_end i o (dues finished_flag less peak slots is))
      AllOnce-add_end none once = once
      AllOnce-add_end (some why) once =
          (ground (arith, any-dues finished_flag less peak is slots i, d.0), once)

  -- On a state where the lists agree, a pass takes off active_list exactly the voices of which
  -- should_reap(), at their own slot and peak, gives a reason: those of which the instance has
  -- finished, the timed ones that reach their time to live in this block, and the ones ending in
  -- silence that have been below their threshold for as many blocks in a row as they are to be.
  -- active_list, active_gen and the routes agree afterwards, the other voices stay active in their
  -- generation, the slot of each active voice is what should_reap() makes of it and every other slot
  -- is as it was, and the telemetry queue gets the ended slots in the order of active_list, each with
  -- the generation that it had and its reason.
  pub reap_pass-Reaped :
      (e : Engine I S T) → IsRouted e → Reaped e (reap_pass finished_flag less try_enqueue peak e)
  unfolding reap_pass
  reap_pass-Reaped e v =
      let found = scan finished_flag less peak e.active_list e.mgr.slots in
      let start : Engine I S T = record e { mgr = record e.mgr { slots = found.1 } } in
      let r =
        release_all-Released try_enqueue found.0 start
          (record { distinct = v.distinct; listed = v.listed; live = v.live; room = v.room }) in
      let same : found.0 ≡ dues finished_flag less peak e.mgr.slots e.active_list =
        scan-dues finished_flag less peak e.active_list e.mgr.slots v.distinct in
      let named : (i : ℕ) → named_by i found.0 ≡ (member i e.active_list && is_some (ends_at e i)) =
        λ i. ap (named_by i) same ∙ any-dues finished_flag less peak e.active_list e.mgr.slots i in
      record {
        routed = r.routed;
        listed = λ i. ground (arith, r.listed i, named i);
        ended = λ i s g. is_some-due (get_elem? e.mgr.slots i) s g;
        kept_gen = λ i m. r.kept_gen i (ground (arith, r.listed i, named i));
        slots = λ i.
            ap (λ xs. get_elem? xs i) r.slots
            ∙ scan-slots finished_flag less peak e.active_list e.mgr.slots i v.distinct;
        reported =
            r.reported
              (subst AllOnce (sym same) (AllOnce-dues e.active_list e.mgr.slots v.distinct))
            ∙ ap (λ ends. report_all try_enqueue e.active_gen ends e.telemetry_queue) same;
      }
