-- ===== src/Engine/Reaping/Timed.antt =====
-- src/engine.cpp: timed voices under reap_pass(), block after block.
use xrune.Base.{
  ◌⊎◌, ℕ, ◌+◌, ◌^◌, ◌<◌, ◌≤◌, ◌≡◌, refl, ap, ◌∙◌, inl, inr, Bool, true, false, Option, none, some,
  List, [], ◌∷◌, arith, leb, if◌then◌else◌, get_or, get_elem?, length, word, member, Bool-cases,
}
use xrune.Manager.{LifetimeKind, InstanceSlot}
use xrune.Engine.{Engine, EndReason, TelemetryEvent}
use xrune.Engine.Active.{IsRouted}
use xrune.Engine.Reaping.{judge, should_reap, reap_pass}
use xrune.Engine.Reaping.Scan.{is_some, judged}
use xrune.Engine.Reaping.Pass.{reap_pass-Reaped}

module _ {I S T : Type 0} (less : S → S → Bool) (try_enqueue : T → TelemetryEvent → T) where
  -- reap_pass() in each block, with the flags and the peaks of the instances after that block.
  unfoldable pub reap_passes : List ((I → Bool) × (I → S)) → Engine I S T → Engine I S T
  unfolding reap_pass
  reap_passes [] e = e
  reap_passes ((finished_flag, peak) ∷ blocks) e =
      reap_passes blocks (reap_pass finished_flag less try_enqueue peak e)

  reap_passes-gone :
      (blocks : List ((I → Bool) × (I → S))) (e : Engine I S T) (i : ℕ)
      → IsRouted e
      → member i e.active_list ≡ false
      → (member i (reap_passes blocks e).active_list ≡ false)
        × (get_or (reap_passes blocks e).active_gen i 0 ≡ 0)
  unfolding reap_passes
  reap_passes-gone [] e i v m = (m, ground (arith, v.listed i))
  reap_passes-gone ((finished_flag, peak) ∷ blocks) e i v m =
      let r = reap_pass-Reaped finished_flag less try_enqueue peak e v in
      reap_passes-gone blocks (reap_pass finished_flag less try_enqueue peak e) i r.routed
        (ground (arith, r.listed i))

  module _ (finished_flag : I → Bool) (peak : I → S) (s : InstanceSlot I S) (g : I)
      (timed : s.life.kind ≡ LifetimeKind.timed) where
    abbrev older : InstanceSlot I S
    older = record s { age_blocks = word (s.age_blocks + 1) }

    reap_finished :
        finished_flag g ≡ true → is_some (should_reap finished_flag less g (peak g) s).0 ≡ true
    unfolding should_reap
    reap_finished h = rw h refl

    reap_timed :
        finished_flag g ≡ false
        → should_reap finished_flag less g (peak g) s ≡ (
          if leb s.life.ttl_blocks (word (s.age_blocks + 1))
              then some EndReason.timed_out
              else none,
          older,
        )
    unfolding should_reap
    reap_timed h = rw h (simp timed refl)

    -- A pass over a timed voice: it is due, or it is older.
    judged_timed :
        (o : Option (InstanceSlot I S))
        → o ≡ some s
        → s.inst ≡ some g
        → is_some (judged finished_flag less peak o).0 ≡ true
          ⊎ (((judged finished_flag less peak o).1 ≡ some older)
              × (word (s.age_blocks + 1) < s.life.ttl_blocks))
    judged_timed o found there =
        let same : judged finished_flag less peak o ≡ (
          (should_reap finished_flag less g (peak g) s).0,
          some (should_reap finished_flag less g (peak g) s).1,
        ) =
          ap (judged finished_flag less peak) found
          ∙ ap
              (λ i.
                ((judge finished_flag less peak s i).0, some (judge finished_flag less peak s i).1))
              there in
        elim (Bool-cases (finished_flag g)) [
          | inl h ↦ inl (rw same (reap_finished h))
          | inr h ↦
              let reaped = reap_timed h in
              elim (Bool-cases (leb s.life.ttl_blocks (word (s.age_blocks + 1)))) [
                | inl due ↦ inl (rw (same, reaped) (rw due refl))
                | inr later ↦ inr (rw (same, reaped) refl, ground arith)
              ]
        ]

  -- A timed voice, in a state where the lists agree, is not active any more after as many blocks as
  -- its time to live exceeds its age, and after one block at least, whatever the instances' flags and
  -- peaks are in each of them, as long as its age does not overflow.
  pub reap_passes_timed :
      (blocks : List ((I → Bool) × (I → S))) (e : Engine I S T) (i : ℕ) (s : InstanceSlot I S)
      (g : I)
      → IsRouted e
      → get_elem? e.mgr.slots i ≡ some s
      → s.inst ≡ some g
      → s.life.kind ≡ LifetimeKind.timed
      → s.age_blocks + length blocks < 2 ^ 64
      → 0 < length blocks
      → s.life.ttl_blocks ≤ s.age_blocks + length blocks
      → (member i (reap_passes blocks e).active_list ≡ false)
        × (get_or (reap_passes blocks e).active_gen i 0 ≡ 0)
  unfolding reap_passes
  reap_passes_timed [] e i s g v found there timed t l enough = elim l [ ]
  reap_passes_timed ((finished_flag, peak) ∷ blocks) e i s g v found there timed t l enough =
      let next = reap_pass finished_flag less try_enqueue peak e in
      let r = reap_pass-Reaped finished_flag less try_enqueue peak e v in
      elim (Bool-cases (member i e.active_list)) [
        | inr off ↦ reap_passes-gone blocks next i r.routed (ground (arith, r.listed i))
        | inl on ↦
            elim (judged_timed finished_flag peak s g timed (get_elem? e.mgr.slots i) found there) [
              | inl ends ↦
                  reap_passes-gone blocks next i r.routed (ground (arith, r.listed i, ends))
              | inr (aged, young) ↦
                  let counted : word (s.age_blocks + 1) ≡ s.age_blocks + 1 = omega arith in
                  let slot = r.slots i ∙ rw on refl ∙ aged in
                  reap_passes_timed blocks next i
                    (record s { age_blocks = word (s.age_blocks + 1) }) g r.routed slot there timed
                    (ground arith) (ground arith) (ground arith)
            ]
      ]
