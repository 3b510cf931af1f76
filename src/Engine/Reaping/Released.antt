-- ===== src/Engine/Reaping/Released.antt =====
-- src/engine.cpp: what the second loop of reap_pass() leaves.
use xrune.Base.{
  ℕ, ◌≡◌, refl, subst, ◌∙◌, inl, inr, Bool, false, not, ◌&&◌, List, [], ◌∷◌, arith, ◌==◌, ==_iff,
  get_or, set, any, member, Bool-cases,
}
use xrune.Engine.{Engine, EndReason, TelemetryEvent, release_slot}
use xrune.Engine.Active.{IsRouted, member-erase_ne, member-erase_self, get_or-set_other}
use xrune.Engine.Commands.{release-IsRouted}
use xrune.Engine.Reaping.{release_all}

abbrev pub named_by : ℕ → List (ℕ × EndReason) → Bool
named_by j ends = any (λ end. end.0 == j) ends

-- No slot ends twice.
abbrev pub AllOnce : List (ℕ × EndReason) → Type 0
AllOnce [] = Unit
AllOnce ((slot, why) ∷ ends) = (named_by slot ends ≡ false) × AllOnce ends

module _ {T : Type 0} (try_enqueue : T → TelemetryEvent → T) where
  -- The telemetry of the ends of voices, by the generations that they had.
  abbrev pub report_all : List ℕ → List (ℕ × EndReason) → T → T
  report_all gens [] q = q
  report_all gens ((slot, why) ∷ ends) q =
      report_all gens ends
        (try_enqueue q (record { slot = slot; generation = get_or gens slot 0; reason = why }))

  report_all-set :
      (gens : List ℕ) (slot : ℕ) (ends : List (ℕ × EndReason)) (q : T)
      → named_by slot ends ≡ false
      → report_all (set gens slot 0) ends q ≡ report_all gens ends q
  report_all-set gens slot [] q h = refl
  report_all-set gens slot ((j, why) ∷ ends) q h =
      rw (get_or-set_other gens slot 0 j (λ (e : slot ≡ j). ground arith))
        (report_all-set gens slot ends _ (ground arith))

  -- What ending voices leaves.
  pub record Released {I S : Type 0} (ends : List (ℕ × EndReason)) (e e' : Engine I S T)
      : Type 0 where
    pub routed : IsRouted e'
    pub slots : e'.mgr.slots ≡ e.mgr.slots
    pub listed :
        (j : ℕ) → member j e'.active_list ≡ (member j e.active_list && not (named_by j ends))
    pub kept_gen :
        (j : ℕ) → named_by j ends ≡ false → get_or e'.active_gen j 0 ≡ get_or e.active_gen j 0
    pub reported :
        AllOnce ends → e'.telemetry_queue ≡ report_all e.active_gen ends e.telemetry_queue

  pub release_all-Released :
      {I S : Type 0} (ends : List (ℕ × EndReason)) (e : Engine I S T)
      → IsRouted e
      → Released ends e (release_all try_enqueue ends e)
  unfolding release_all release_slot
  release_all-Released [] e v = record {
    routed = v;
    slots = refl;
    listed = λ j. ground arith;
    kept_gen = λ j h. refl;
    reported = λ o. refl;
  }
  release_all-Released ((slot, why) ∷ ends) e v =
      let next = release_slot try_enqueue slot why e in
      let r =
        release_all-Released ends next (release-IsRouted (λ g n p x. g) try_enqueue slot why e v) in
      record {
        routed = r.routed;
        slots = r.slots;
        listed = λ j. elim (Bool-cases (slot == j)) [
          | inl same ↦
              let here : slot ≡ j = (==_iff slot j).0 same in
              let gone =
                subst (λ x. member x next.active_list ≡ false) here
                  (member-erase_self slot e.active_list v.distinct) in
              ground (arith, r.listed j, gone)
          | inr other ↦ ground (
            arith,
            r.listed j,
            member-erase_ne slot j e.active_list (λ (q : slot ≡ j). ground arith),
          )
        ];
        kept_gen = λ j h.
            r.kept_gen j (ground arith)
            ∙ get_or-set_other e.active_gen slot 0 j (λ (q : slot ≡ j). ground arith);
        reported = λ o. r.reported o.1 ∙ report_all-set e.active_gen slot ends _ o.0;
      }
