-- ===== src/Manager/Handles.antt =====
-- include/xrune/instance_manager.hpp: what create() and recycle() do to the handles in use.
use xrune.Base.{
  ℕ, suc, ◌^◌, ◌<◌, ◌≤◌, ◌≡◌, refl, sym, ap, subst, false, ◌&&◌, none, some, Option, ◌≢◌, ◌⊎◌, inl,
  inr, List, [], ◌∷◌, arith, length, get_elem?, modify, ◌==◌, if◌then◌else◌, lt→ltb, ◌>>=◌,
}
use xrune.Manager.{
  InstanceManager, InstanceSlot, InstanceHandle, LifetimePolicy, null_handle, filled, emptied,
  valid, is_some, next_after, init, available, create, recycle, instance_at, is_valid, get,
}
use xrune.Manager.Slots.{
  IsPooled, init-IsPooled, create-IsPooled, recycle-IsPooled, get_elem?-modify_self,
  get_elem?-modify_ne, get_elem?_found, instance_at-lt, instance_at-modify_self,
}

module _ {I S : Type 0} where
  -- The managers that create() and recycle() of slots in use reach from init().
  pub data Managed (threshold : S) (n : ℕ) : InstanceManager I S → Type 0 where
    started : Managed threshold n (init threshold n)
    created :
        {m : InstanceManager I S} (built : Option I) (life : LifetimePolicy S)
        → Managed threshold n m
        → Managed threshold n (create m built life).0
    recycled :
        {m : InstanceManager I S} {x : I} (i : ℕ)
        → instance_at m i ≡ some x
        → Managed threshold n m
        → Managed threshold n (recycle m i)

  -- On every manager of at most 2 ^ 32 slots that create() and recycle() of slots in use reach from
  -- init(), the free list names each empty slot once and no other, and the next generation is a
  -- 32-bit number other than 0.
  pub Managed-IsPooled :
      (threshold : S) (n : ℕ) (m : InstanceManager I S)
      → n ≤ 2 ^ 32
      → Managed threshold n m
      → IsPooled m
  Managed-IsPooled threshold n m h started = init-IsPooled threshold n h
  Managed-IsPooled threshold n m h (created built life r) =
      create-IsPooled _ built life (Managed-IsPooled threshold n _ h r)
  Managed-IsPooled threshold n m h (recycled i e r) =
      recycle-IsPooled _ i e (Managed-IsPooled threshold n _ h r)

  -- A handle reads one slot only.
  get-cong :
      (m m' : InstanceManager I S) (k : InstanceHandle)
      → get_elem? m'.slots k.slot ≡ get_elem? m.slots k.slot
      → get m' k ≡ get m k
  unfolding get is_valid instance_at
  get-cong m m' k e =
      ap
        (λ (o : Option (InstanceSlot I S)).
          if (valid k
            && elim o [ none ↦ false | some s ↦ s.generation == k.generation && is_some s.inst ])
          then o >>= (λ s. s.inst)
          else none)
        e

  get_found :
      (m : InstanceManager I S) (k : InstanceHandle) (s : InstanceSlot I S) {x : I}
      → get_elem? m.slots k.slot ≡ some s
      → s.inst ≡ some x
      → s.generation ≡ k.generation
      → 0 < k.generation
      → get m k ≡ some x
  unfolding get is_valid instance_at valid
  get_found m k s at e g p = rw (at, e) (ground arith)

  get_empty :
      (m : InstanceManager I S) (k : InstanceHandle) → instance_at m k.slot ≡ none → get m k ≡ none
  unfolding get
  get_empty m k e = ground arith

  -- What create() does: without a free slot or an instance, nothing, and it returns the null handle.
  pub record Created (m : InstanceManager I S) (built : Option I) (m' : InstanceManager I S)
      (h : InstanceHandle) : Type 0 where
    pub inst : I
    pub made : built ≡ some inst
    pub found : get m' h ≡ some inst
    pub was_empty : instance_at m h.slot ≡ none
    pub others : (k : InstanceHandle) → k.slot ≢ h.slot → get m' k ≡ get m k
    pub taken : available m ≡ suc (available m')

  filled_from :
      (slots : List (InstanceSlot I S)) (idx : ℕ) (free : List ℕ) (g : ℕ) (inst : I)
      (life : LifetimePolicy S)
      → IsPooled (record { slots = slots; free_slots = idx ∷ free; next_generation = g })
      → Created
          (record { slots = slots; free_slots = idx ∷ free; next_generation = g })
          (some inst)
          (record {
            slots = modify slots idx (λ _. filled inst g life);
            free_slots = free;
            next_generation = next_after g;
          })
          (record { slot = idx; generation = g })
  unfolding available
  filled_from slots idx free g inst life v =
      let (s, at) = get_elem?_found slots idx v.in_range.0 in
      record {
        inst = inst;
        made = refl;
        found =
            get_found _ (record { slot = idx; generation = g }) (filled inst g life)
              (get_elem?-modify_self slots idx (λ _. filled inst g life) at) refl refl v.fresh;
        was_empty = v.free_empty idx (ground arith);
        others = λ k ne.
            get-cong _ _ k
              (get_elem?-modify_ne slots idx k.slot (λ _. filled inst g life) (λ e. ne (sym e)));
        taken = refl;
      }

  create_from :
      (slots : List (InstanceSlot I S)) (free : List ℕ) (g : ℕ) (built : Option I)
      (life : LifetimePolicy S)
      → IsPooled (record { slots = slots; free_slots = free; next_generation = g })
      → let m : InstanceManager I S = record {
        slots = slots;
        free_slots = free;
        next_generation = g;
      } in
        Created m built (create m built life).0 (create m built life).1
        ⊎ ((available m ≡ 0) ⊎ (built ≡ none)) × (create m built life ≡ (m, null_handle))
  unfolding create available
  create_from slots [] g built life v = inr (inl refl, refl)
  create_from slots (idx ∷ free) g none life v = inr (inr refl, refl)
  create_from slots (idx ∷ free) g (some inst) life v =
      inl (filled_from slots idx free g inst life v)

  -- On a pool in order, create() with a free slot and an instance puts it into a slot that was empty
  -- and returns a handle that reaches it, takes one slot off the free list, and leaves what the
  -- handles of all other slots reach as it was; otherwise it changes nothing and returns the null
  -- handle.
  pub create_lem :
      (m : InstanceManager I S) (built : Option I) (life : LifetimePolicy S)
      → IsPooled m
      → Created m built (create m built life).0 (create m built life).1
        ⊎ ((available m ≡ 0) ⊎ (built ≡ none)) × (create m built life ≡ (m, null_handle))
  create_lem m built life v = create_from m.slots m.free_slots m.next_generation built life v

  -- After recycle() of a slot in use no handle of that slot reaches anything, whatever its
  -- generation, and what the handles of all other slots reach is as it was.
  pub recycle_lem :
      (m : InstanceManager I S) (i : ℕ) (k : InstanceHandle) {x : I}
      → instance_at m i ≡ some x
      → (k.slot ≡ i → get (recycle m i) k ≡ none) × (k.slot ≢ i → get (recycle m i) k ≡ get m k)
  unfolding recycle
  recycle_lem m i k e =
      let l = instance_at-lt m i e in
      rw (lt→ltb i (length m.slots) l) (
        (λ same. get_empty _ k (
            subst
              (λ j.
                instance_at
                  (record m { slots = modify m.slots i emptied; free_slots = i ∷ m.free_slots }) j
                ≡ none)
              (sym same)
              (instance_at-modify_self m i emptied (i ∷ m.free_slots) m.next_generation none l
                (λ s. refl)))),
        (λ other.
            get-cong _ _ k (get_elem?-modify_ne m.slots i k.slot emptied (λ e. other (sym e)))),
      )
