-- ===== src/Engine/Reaping/Scan.antt =====
-- src/engine.cpp: what the first loop of reap_pass() finds, slot by slot.
use xrune.Base.{
  ℕ, ◌≡◌, ◌≢◌, refl, ap, subst, ◌∙◌, inl, inr, Bool, true, false, ◌&&◌, ◌||◌, Option, none, some,
  List, [], ◌∷◌, arith, ◌==◌, ==_iff, if◌then◌else◌, get_elem?, any, member, Distinct, Bool-cases,
}
use mathlib.Core.Path.{ap₂}
use xrune.Manager.{InstanceSlot}
use xrune.Manager.Slots.{get_elem?-modify_self, get_elem?-modify_ne}
use xrune.Engine.{EndReason}
use xrune.Engine.Reaping.{judge, reap_at, add_end, scan}

abbrev pub is_some : {A : Type 0} → Option A → Bool
is_some none = false
is_some (some a) = true

module _ {I S : Type 0} (finished_flag : I → Bool) (less : S → S → Bool) (peak : I → S) where
  -- What should_reap() says of one slot by itself, and the slot as it leaves it.
  abbrev pub judged : Option (InstanceSlot I S) → Option EndReason × Option (InstanceSlot I S)
  judged none = (none, none)
  judged (some s) = let (why, s') = judge finished_flag less peak s s.inst in (why, some s')

  abbrev pub due : List (InstanceSlot I S) → ℕ → Option EndReason
  due slots i = (judged (get_elem? slots i)).0

  -- The slots of a list that are due, each by itself.
  abbrev pub dues : List (InstanceSlot I S) → List ℕ → List (ℕ × EndReason)
  dues slots [] = []
  dues slots (i ∷ is) = add_end i (due slots i) (dues slots is)

  abbrev after : ℕ → List (InstanceSlot I S) → List (InstanceSlot I S)
  after i slots = (reap_at finished_flag less peak i (get_elem? slots i) slots).1

  reap_at-due :
      (i : ℕ) (o : Option (InstanceSlot I S)) (slots : List (InstanceSlot I S))
      → (reap_at finished_flag less peak i o slots).0 ≡ (judged o).0
  reap_at-due i none slots = refl
  reap_at-due i (some s) slots = refl

  after_self :
      (i : ℕ) (slots : List (InstanceSlot I S)) (o : Option (InstanceSlot I S))
      → get_elem? slots i ≡ o
      → get_elem? (reap_at finished_flag less peak i o slots).1 i ≡ (judged o).1
  after_self i slots none e = e
  after_self i slots (some s) e = get_elem?-modify_self slots i (λ _. _) e

  after_other :
      (i j : ℕ) (slots : List (InstanceSlot I S)) (o : Option (InstanceSlot I S))
      → i ≢ j
      → get_elem? (reap_at finished_flag less peak i o slots).1 j ≡ get_elem? slots j
  after_other i j slots none h = refl
  after_other i j slots (some s) h = get_elem?-modify_ne slots i j (λ _. _) h

  dues-after :
      (i : ℕ) (slots : List (InstanceSlot I S)) (is : List ℕ)
      → member i is ≡ false
      → dues (after i slots) is ≡ dues slots is
  dues-after i slots [] m = refl
  dues-after i slots (j ∷ is) m =
      ap₂ (λ (o : Option (InstanceSlot I S)) ends. add_end j (judged o).0 ends)
        (after_other i j slots (get_elem? slots i) (λ (q : i ≡ j). ground arith))
        (dues-after i slots is (ground arith))

  pub scan-dues :
      (is : List ℕ) (slots : List (InstanceSlot I S))
      → Distinct is
      → (scan finished_flag less peak is slots).0 ≡ dues slots is
  unfolding scan
  scan-dues [] slots d = refl
  scan-dues (i ∷ is) slots d =
      rw
        (
          reap_at-due i (get_elem? slots i) slots,
          scan-dues is (after i slots) d.1,
          dues-after i slots is d.0,
        )
        refl

  pub scan-slots :
      (is : List ℕ) (slots : List (InstanceSlot I S)) (j : ℕ)
      → Distinct is
      → get_elem? (scan finished_flag less peak is slots).1 j
        ≡ (if member j is then (judged (get_elem? slots j)).1 else get_elem? slots j)
  unfolding scan
  scan-slots [] slots j d = refl
  scan-slots (i ∷ is) slots j d = elim (Bool-cases (i == j)) [
    | inl same ↦
        let here : i ≡ j = (==_iff i j).0 same in
        let gone : member j is ≡ false = subst (λ x. member x is ≡ false) here d.0 in
        rw same (
          scan-slots is (after i slots) j d.1
          ∙ rw gone (
              subst (λ x. get_elem? (after i slots) x ≡ (judged (get_elem? slots x)).1) here
                (after_self i slots (get_elem? slots i) refl)))
    | inr other ↦
        let same = after_other i j slots (get_elem? slots i) (λ (q : i ≡ j). ground arith) in
        rw other (scan-slots is (after i slots) j d.1 ∙ rw same refl)
  ]

  any-add_end :
      (i j : ℕ) (o : Option EndReason) (ends : List (ℕ × EndReason))
      → any (λ end. end.0 == j) (add_end i o ends)
        ≡ ((is_some o && i == j) || any (λ end. end.0 == j) ends)
  any-add_end i j none ends = refl
  any-add_end i j (some why) ends = ground arith

  pub any-dues :
      (is : List ℕ) (slots : List (InstanceSlot I S)) (j : ℕ)
      → any (λ end. end.0 == j) (dues slots is) ≡ (member j is && is_some (due slots j))
  any-dues [] slots j = refl
  any-dues (i ∷ is) slots j =
      any-add_end i j (due slots i) (dues slots is) ∙ elim (Bool-cases (i == j)) [
        | inl same ↦
            let here : is_some (due slots i) ≡ is_some (due slots j) =
              ap (λ x. is_some (due slots x)) ((==_iff i j).0 same) in
            ground (arith, any-dues is slots j, here)
        | inr other ↦ ground (arith, any-dues is slots j)
      ]
