-- ===== src/Manager/Slots.antt =====
-- include/xrune/instance_manager.hpp: the free list holds exactly the empty slots.
use xrune.Base.{
  ℕ, zero, suc, ◌%◌, ◌^◌, ◌<◌, ◌≤◌, ◌≡◌, refl, sym, ap, true, false, none, some, Option, ◌≢◌, List,
  [], ◌∷◌, arith, length, get_elem?, modify, replicate, member, Distinct, All, Bool-cases, inl, inr,
  ◌==◌, ◌∙◌, ◌>>=◌, ◌||◌, >>=-eq-some, length-modify, length-replicate, ==_iff, subst, ltb,
  get_elem?-lt, lt→ltb,
}
use xrune.Manager.{
  InstanceManager, InstanceSlot, LifetimePolicy, empty_slot, filled, emptied, push_free, next_after,
  init, create, recycle, instance_at,
}

pub get_elem?-modify_self {ℓ} :
    {A : Type ℓ} (xs : List A) (i : ℕ) (f : A → A) {a : A}
    → get_elem? xs i ≡ some a
    → get_elem? (modify xs i f) i ≡ some (f a)
get_elem?-modify_self [] i f e = cc
get_elem?-modify_self (x ∷ xs) zero f e = cc
get_elem?-modify_self (x ∷ xs) (suc i) f e = get_elem?-modify_self xs i f e

pub get_elem?-modify_ne {ℓ} :
    {A : Type ℓ} (xs : List A) (i j : ℕ) (f : A → A)
    → i ≢ j
    → get_elem? (modify xs i f) j ≡ get_elem? xs j
get_elem?-modify_ne [] i j f h = refl
get_elem?-modify_ne (x ∷ xs) zero zero f h = absurd (h refl)
get_elem?-modify_ne (x ∷ xs) zero (suc j) f h = refl
get_elem?-modify_ne (x ∷ xs) (suc i) zero f h = refl
get_elem?-modify_ne (x ∷ xs) (suc i) (suc j) f h = get_elem?-modify_ne xs i j f (λ e. h (ap suc e))

pub get_elem?_found {ℓ} :
    {A : Type ℓ} (xs : List A) (i : ℕ) → i < length xs → (a : A) × (get_elem? xs i ≡ some a)
get_elem?_found [] i h = elim h [ ]
get_elem?_found (x ∷ xs) zero h = (x, refl)
get_elem?_found (x ∷ xs) (suc i) h = get_elem?_found xs i (omega arith)

-- The indices below `i` stand before the others.
member-push_free :
    (i j : ℕ) (free : List ℕ)
    → i ≤ 2 ^ 32
    → member j (push_free i free) ≡ (ltb j i || member j free)
unfolding push_free
member-push_free zero j free h = ground arith
member-push_free (suc i) j free h = ground (arith, member-push_free i j (i % 2 ^ 32 ∷ free))

All-weaken : (i : ℕ) (free : List ℕ) → All (λ j. suc i ≤ j) free → All (λ j. i ≤ j) free
All-weaken i [] b = tt
All-weaken i (x ∷ xs) b = (omega (arith, b.0), All-weaken i xs b.1)

not_below :
    (i : ℕ) (free : List ℕ)
    → i < 2 ^ 32
    → All (λ j. suc i ≤ j) free
    → member (i % 2 ^ 32) free ≡ false
not_below i [] h b = refl
not_below i (x ∷ xs) h b = ground (arith, b.0, not_below i xs h b.1)

Distinct-push_free :
    (i : ℕ) (free : List ℕ)
    → i ≤ 2 ^ 32
    → All (λ j. i ≤ j) free
    → Distinct free
    → Distinct (push_free i free)
unfolding push_free
Distinct-push_free zero free h b d = d
Distinct-push_free (suc i) free h b d =
    Distinct-push_free i (i % 2 ^ 32 ∷ free) (omega arith) (omega arith, All-weaken i free b)
      (not_below i free (omega arith) b, d)

next_after_lem : (g : ℕ) → (0 < next_after g) × (next_after g < 2 ^ 32)
unfolding next_after
next_after_lem g = (ground arith, ground arith)

pub All-push_free :
    (n i : ℕ) (free : List ℕ)
    → i ≤ 2 ^ 32
    → i ≤ n
    → All (λ j. j < n) free
    → All (λ j. j < n) (push_free i free)
unfolding push_free
All-push_free n zero free h l b = b
All-push_free n (suc i) free h l b =
    All-push_free n i (i % 2 ^ 32 ∷ free) (omega arith) (omega arith) (omega arith, b)

All-outside : (i : ℕ) (free : List ℕ) → All (λ j. j < i) free → member i free ≡ false
All-outside i [] b = refl
All-outside i (x ∷ xs) b = ground (arith, b.0, All-outside i xs b.1)

module _ {I S : Type 0} where
  empty_at :
      (threshold : S) (n i : ℕ)
      → (get_elem? (replicate n (empty_slot {I = I} threshold)) i >>= λ (s : InstanceSlot I S).
          s.inst)
        ≡ none
  empty_at threshold zero i = refl
  empty_at threshold (suc n) zero = refl
  empty_at threshold (suc n) (suc i) = empty_at threshold n i

  -- The free list names each empty slot once, and no other; the next generation is not the null
  -- handle's.
  pub record IsPooled (m : InstanceManager I S) : Type 0 where
    pub distinct : Distinct m.free_slots
    pub in_range : All (λ i. i < length m.slots) m.free_slots
    pub free_empty : (i : ℕ) → member i m.free_slots ≡ true → instance_at m i ≡ none
    pub used :
        (i : ℕ)
        → i < length m.slots
        → member i m.free_slots ≡ false
        → (x : I) × (instance_at m i ≡ some x)
    pub fresh : 0 < m.next_generation
    pub narrow : m.next_generation < 2 ^ 32

  -- What filling or emptying one slot does to the instances.
  pub instance_at-modify_self :
      (m : InstanceManager I S) (i : ℕ) (f : InstanceSlot I S → InstanceSlot I S) (free : List ℕ)
      (g : ℕ) (o : Option I)
      → i < length m.slots
      → ((s : InstanceSlot I S) → (f s).inst ≡ o)
      → instance_at
          (record { slots = modify m.slots i f; free_slots = free; next_generation = g })
          i
        ≡ o
  unfolding instance_at
  instance_at-modify_self m i f free g o h e =
      let (s, at) = get_elem?_found m.slots i h in
      ap (λ (t : Option (InstanceSlot I S)). t >>= λ s. s.inst)
        (get_elem?-modify_self m.slots i f at)
      ∙ e s

  pub instance_at-modify_ne :
      (m : InstanceManager I S) (i j : ℕ) (f : InstanceSlot I S → InstanceSlot I S) (free : List ℕ)
      (g : ℕ)
      → i ≢ j
      → instance_at
          (record { slots = modify m.slots i f; free_slots = free; next_generation = g })
          j
        ≡ instance_at m j
  unfolding instance_at
  instance_at-modify_ne m i j f free g h =
      ap (λ (t : Option (InstanceSlot I S)). t >>= λ s. s.inst)
        (get_elem?-modify_ne m.slots i j f h)

  pub instance_at-lt :
      (m : InstanceManager I S) (i : ℕ) {x : I} → instance_at m i ≡ some x → i < length m.slots
  unfolding instance_at
  instance_at-lt m i e =
      let (s, at, h) = >>=-eq-some (get_elem? m.slots i) (λ (s : InstanceSlot I S). s.inst) e in
      get_elem?-lt m.slots i at

  pub init-IsPooled : (threshold : S) (n : ℕ) → n ≤ 2 ^ 32 → IsPooled (init threshold n)
  unfolding init instance_at
  init-IsPooled threshold n h = record {
    distinct = Distinct-push_free n [] h tt tt;
    in_range =
        subst (λ k. All (λ i. i < k) (push_free n []))
          (sym (length-replicate n (empty_slot {I = I} threshold)))
          (All-push_free n n [] h (omega arith) tt);
    free_empty = λ i m. empty_at threshold n i;
    used = λ i l m.
        ground
          (arith, member-push_free n i [] h, length-replicate n (empty_slot {I = I} threshold));
    fresh = omega arith;
    narrow = omega arith;
  }

  -- Filling the slot at the top of the free list.
  filled-IsPooled :
      (slots : List (InstanceSlot I S)) (idx : ℕ) (free : List ℕ) (g : ℕ) (inst : I)
      (life : LifetimePolicy S)
      → IsPooled (record { slots = slots; free_slots = idx ∷ free; next_generation = g })
      → IsPooled (record {
        slots = modify slots idx (λ _. filled inst g life);
        free_slots = free;
        next_generation = next_after g;
      })
  filled-IsPooled slots idx free g inst life v =
      let m : InstanceManager I S = record {
        slots = slots;
        free_slots = idx ∷ free;
        next_generation = g;
      } in
      let same = length-modify slots idx (λ _. filled inst g life) in
      record {
        distinct = v.distinct.1;
        in_range = subst (λ n. All (λ i. i < n) free) (sym same) v.in_range.1;
        free_empty = λ i e.
            instance_at-modify_ne m idx i (λ _. filled inst g life) free (next_after g)
              (λ (p : idx ≡ i). ground (arith, v.distinct.0))
            ∙ v.free_empty i (ground arith);
        used = λ i l e. elim (Bool-cases (idx == i)) [
          | inl p ↦ (
            inst,
            subst
                (λ j.
                  instance_at
                    (record {
                      slots = modify slots idx (λ _. filled inst g life);
                      free_slots = free;
                      next_generation = next_after g;
                    })
                    j
                  ≡ some inst)
                ((==_iff idx i).0 p)
                (instance_at-modify_self m idx (λ _. filled inst g life) free (next_after g)
                  (some inst) v.in_range.0 (λ s. refl)),
          )
          | inr p ↦
              let (x, at) = v.used i (omega (arith, same)) (ground arith) in
              (
                x,
                instance_at-modify_ne m idx i (λ _. filled inst g life) free (next_after g)
                      (λ (q : idx ≡ i). ground arith)
                    ∙ at,
              )
        ];
        fresh = (next_after_lem g).0;
        narrow = (next_after_lem g).1;
      }

  create_from :
      (slots : List (InstanceSlot I S)) (free : List ℕ) (g : ℕ) (built : Option I)
      (life : LifetimePolicy S)
      → IsPooled (record { slots = slots; free_slots = free; next_generation = g })
      → IsPooled
          (create (record { slots = slots; free_slots = free; next_generation = g }) built life).0
  unfolding create
  create_from slots [] g built life v = v
  create_from slots (idx ∷ free) g none life v = v
  create_from slots (idx ∷ free) g (some inst) life v = filled-IsPooled slots idx free g inst life v

  pub create-IsPooled :
      (m : InstanceManager I S) (built : Option I) (life : LifetimePolicy S)
      → IsPooled m
      → IsPooled (create m built life).0
  create-IsPooled m built life v = create_from m.slots m.free_slots m.next_generation built life v

  emptied-IsPooled :
      (m : InstanceManager I S) (i : ℕ) {x : I}
      → instance_at m i ≡ some x
      → IsPooled m
      → IsPooled (record m { slots = modify m.slots i emptied; free_slots = i ∷ m.free_slots })
  emptied-IsPooled m i e v =
      let l = instance_at-lt m i e in
      let same = length-modify m.slots i emptied in
      record {
        distinct = (
          elim (Bool-cases (member i m.free_slots)) [ inl h ↦ cc (v.free_empty i h) | inr h ↦ h ],
          v.distinct,
        );
        in_range = subst (λ n. All (λ j. j < n) (i ∷ m.free_slots)) (sym same) (l, v.in_range);
        free_empty = λ j h. elim (Bool-cases (i == j)) [
          | inl p ↦
              subst
                (λ k.
                  instance_at
                    (record m { slots = modify m.slots i emptied; free_slots = i ∷ m.free_slots }) k
                  ≡ none)
                ((==_iff i j).0 p)
                (instance_at-modify_self m i emptied (i ∷ m.free_slots) m.next_generation none l
                  (λ s. refl))
          | inr p ↦
              instance_at-modify_ne m i j emptied (i ∷ m.free_slots) m.next_generation
                (λ (q : i ≡ j). ground arith)
              ∙ v.free_empty j (ground arith)
        ];
        used = λ j k h.
            let (y, at) = v.used j (omega (arith, same)) (ground arith) in
            (
              y,
              instance_at-modify_ne m i j emptied (i ∷ m.free_slots) m.next_generation
                    (λ (q : i ≡ j). ground arith)
                  ∙ at,
            );
        fresh = v.fresh;
        narrow = v.narrow;
      }

  pub recycle-IsPooled :
      (m : InstanceManager I S) (i : ℕ) {x : I}
      → instance_at m i ≡ some x
      → IsPooled m
      → IsPooled (recycle m i)
  unfolding recycle
  recycle-IsPooled m i e v =
      let l = lt→ltb i (length m.slots) (instance_at-lt m i e) in rw l (emptied-IsPooled m i e v)
