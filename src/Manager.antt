-- ===== src/Manager.antt =====
-- include/xrune/instance_manager.hpp: the pool of instance slots. `I` stands for graph_instance and
-- `S` for sample_t. create() is given what instantiate() returned, `none` for a null pointer.
-- free_slots is a stack, its back() first.
pub mod Slots
pub mod Handles
use xrune.Base.{
  ℕ, zero, suc, ◌+◌, ◌-◌, ◌%◌, ◌^◌, Bool, true, false, not, ◌&&◌, Option, none, some, List, [], ◌∷◌,
  ◌==◌, ltb, if◌then◌else◌, length, get_elem?, get_or, modify, replicate, word, ◌>>=◌,
}

pub record InstanceHandle : Type 0 where
  pub slot : ℕ
  pub generation : ℕ

unfoldable pub valid : InstanceHandle → Bool
valid h = not (h.generation == 0)

abbrev pub null_handle : InstanceHandle
null_handle = record { slot = 0; generation = 0 }

pub data LifetimeKind : Type 0 where
  permanent : LifetimeKind
  timed : LifetimeKind
  until_finished : LifetimeKind
  until_silent : LifetimeKind

pub record LifetimePolicy (S : Type 0) : Type 0 where
  pub kind : LifetimeKind
  pub ttl_blocks : ℕ
  pub silence_threshold : S
  pub silence_blocks : ℕ

pub record InstanceSlot (I S : Type 0) : Type 0 where
  pub inst : Option I
  pub generation : ℕ
  pub life : LifetimePolicy S
  pub age_blocks : ℕ
  pub silent_run : ℕ

pub record InstanceManager (I S : Type 0) : Type 0 where
  pub slots : List (InstanceSlot I S)
  pub free_slots : List ℕ
  pub next_generation : ℕ

-- for (i = max_instances; i-- > 0;) free_slots.push_back(i), the index cast to 32 bits.
unfoldable pub push_free : ℕ → List ℕ → List ℕ
push_free zero free = free
push_free (suc i) free = push_free i (i % 2 ^ 32 ∷ free)

-- next_generation++, which skips 0 on wrap.
unfoldable pub next_after : ℕ → ℕ
next_after g = let next = suc g % 2 ^ 32 in if next == 0 then 1 else next

abbrev pub is_some {ℓ} : {A : Type ℓ} → Option A → Bool
is_some none = false
is_some (some x) = true

module _ {I S : Type 0} where
  -- A slot as its default member initialisers make it, for the default silence threshold.
  abbrev pub empty_slot : S → InstanceSlot I S
  empty_slot threshold = record {
    inst = none;
    generation = 0;
    life = record {
      kind = LifetimeKind.permanent;
      ttl_blocks = 0;
      silence_threshold = threshold;
      silence_blocks = 0;
    };
    age_blocks = 0;
    silent_run = 0;
  }

  unfoldable pub init : S → ℕ → InstanceManager I S
  unfolding push_free
  init threshold max_instances = record {
    slots = replicate max_instances (empty_slot threshold);
    free_slots = push_free max_instances [];
    next_generation = 1;
  }

  unfoldable pub capacity : InstanceManager I S → ℕ
  capacity m = length m.slots

  unfoldable pub available : InstanceManager I S → ℕ
  available m = length m.free_slots

  unfoldable pub in_use : InstanceManager I S → ℕ
  in_use m = word (length m.slots + 2 ^ 64 - length m.free_slots)

  -- The slot that create() fills.
  abbrev pub filled : I → ℕ → LifetimePolicy S → InstanceSlot I S
  filled inst generation life = record {
    inst = some inst;
    generation = generation;
    life = life;
    age_blocks = 0;
    silent_run = 0;
  }

  abbrev pub emptied : InstanceSlot I S → InstanceSlot I S
  emptied s = record s { inst = none }

  unfoldable pub create :
      InstanceManager I S → Option I → LifetimePolicy S → InstanceManager I S × InstanceHandle
  unfolding next_after
  create m built life = elim m.free_slots [
    | [] ↦ (m, null_handle)
    | idx ∷ free ↦ elim built [
      | none ↦ (m, null_handle)
      | some inst ↦ (
        record {
          slots = modify m.slots idx (λ _. filled inst m.next_generation life);
          free_slots = free;
          next_generation = next_after m.next_generation;
        },
        record { slot = idx; generation = m.next_generation },
      )
    ]
  ]

  unfoldable pub recycle : InstanceManager I S → ℕ → InstanceManager I S
  recycle m idx =
      if ltb idx (length m.slots)
      then record m { slots = modify m.slots idx emptied; free_slots = idx ∷ m.free_slots }
      else m

  unfoldable pub instance_at : InstanceManager I S → ℕ → Option I
  instance_at m slot = do s ← get_elem? m.slots slot; s.inst

  unfoldable pub is_valid : InstanceManager I S → InstanceHandle → Bool
  unfolding valid
  is_valid m h = valid h && elim (get_elem? m.slots h.slot) [
    | none ↦ false
    | some s ↦ s.generation == h.generation && is_some s.inst
  ]

  unfoldable pub get : InstanceManager I S → InstanceHandle → Option I
  unfolding is_valid instance_at
  get m h = if is_valid m h then instance_at m h.slot else none
