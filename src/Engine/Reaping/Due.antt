-- ===== src/Engine/Reaping/Due.antt =====
-- src/engine.cpp: when should_reap() ends a voice.
use xrune.Base.{
  ◌+◌, ◌≡◌, refl, Bool, true, false, ◌&&◌, ◌||◌, leb, if◌then◌else◌, word, Bool-cases, inl, inr,
}
use xrune.Manager.{LifetimeKind, InstanceSlot}
use xrune.Engine.Reaping.{should_reap}
use xrune.Engine.Reaping.Scan.{is_some}

abbrev is_timed : LifetimeKind → Bool
is_timed LifetimeKind.timed = true
is_timed _ = false

abbrev is_until_silent : LifetimeKind → Bool
is_until_silent LifetimeKind.until_silent = true
is_until_silent _ = false

module _ {I S : Type 0} (finished_flag : I → Bool) (less : S → S → Bool) where
  -- The instance has finished, or the voice is timed and has reached its time to live in this block,
  -- or it ends in silence and has been silent for as many blocks in a row, this one included.
  abbrev pub is_over : I → S → InstanceSlot I S → Bool
  is_over g p s =
      finished_flag g
      || (is_timed s.life.kind && leb s.life.ttl_blocks (word (s.age_blocks + 1)))
      || (is_until_silent s.life.kind
          && leb s.life.silence_blocks
              (if less p s.life.silence_threshold then word (s.silent_run + 1) else 0))

  by_kind :
      (k : LifetimeKind) (g : I) (p : S) (s : InstanceSlot I S)
      → s.life.kind ≡ k
      → finished_flag g ≡ false
      → is_some (should_reap finished_flag less g p s).0 ≡ is_over g p s
  unfolding should_reap
  by_kind LifetimeKind.permanent g p s e h = rw (h, e) refl
  by_kind LifetimeKind.timed g p s e h =
      elim (Bool-cases (leb s.life.ttl_blocks (word (s.age_blocks + 1)))) [
        | inl t ↦ rw (h, e) (rw t refl)
        | inr f ↦ rw (h, e) (rw f refl)
      ]
  by_kind LifetimeKind.until_finished g p s e h = rw (h, e) refl
  by_kind LifetimeKind.until_silent g p s e h =
      let run = if less p s.life.silence_threshold then word (s.silent_run + 1) else 0 in
      elim (Bool-cases (leb s.life.silence_blocks run)) [
        | inl t ↦ rw (h, e) (rw t refl)
        | inr f ↦ rw (h, e) (rw f refl)
      ]

  pub should_reap-is_over :
      (g : I) (p : S) (s : InstanceSlot I S)
      → is_some (should_reap finished_flag less g p s).0 ≡ is_over g p s
  unfolding should_reap
  should_reap-is_over g p s = elim (Bool-cases (finished_flag g)) [
    | inl h ↦ rw h refl
    | inr h ↦ by_kind s.life.kind g p s refl h
  ]
