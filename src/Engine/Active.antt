-- ===== src/Engine/Active.antt =====
-- src/engine.cpp: active_gen, active_list and routes agree after every command.
use xrune.Base.{
  ℕ, zero, suc, ◌<◌, ◌≤◌, ◌≡◌, ◌≢◌, refl, ◌∙◌, ap, Bool, true, false, not, List, [], ◌∷◌, ◌==◌,
  length, get_or, set, keep, member, Distinct, All, Bool-cases, inl, inr, arith, get_or-modify_ne,
  get_or_beyond,
}
use xrune.Manager.{InstanceHandle}
use xrune.Engine.{CommandEvent, ActiveRoute, Engine, erase, is_active, touches}

-- A slot of that generation is active.
abbrev pub Active : List ℕ → ℕ → ℕ → Type 0
Active gens slot gen = (0 < gen) × (get_or gens slot 0 ≡ gen)

-- The ends of a route are active.
pub record IsLive (gens : List ℕ) (r : ActiveRoute) : Type 0 where
  pub source : Active gens r.src_slot r.src_gen
  pub target : r.to_master ≡ false → Active gens r.dst_slot r.dst_gen

-- The handles of a command are not the null handle, as far as the command uses them.
pub record IsProper {S : Type 0} (cmd : CommandEvent S) : Type 0 where
  pub handle : 0 < cmd.handle.generation
  pub target : cmd.dest.to_master ≡ false → 0 < cmd.dest.instance.generation

-- active_list names each active slot once and no other, the ends of every route are active, and the
-- routes fit in what init() reserved.
pub record IsRouted {I S T : Type 0} (e : Engine I S T) : Type 0 where
  pub distinct : Distinct e.active_list
  pub listed : (i : ℕ) → member i e.active_list ≡ not (get_or e.active_gen i 0 == 0)
  pub live : All (IsLive e.active_gen) e.routes
  pub room : length e.routes ≤ e.route_capacity

pub member-erase_ne : (a i : ℕ) (xs : List ℕ) → a ≢ i → member i (erase a xs) ≡ member i xs
unfolding erase
member-erase_ne a i [] h = refl
member-erase_ne a i (x ∷ xs) h = ground (arith, member-erase_ne a i xs h)

pub member-erase_self : (a : ℕ) (xs : List ℕ) → Distinct xs → member a (erase a xs) ≡ false
unfolding erase
member-erase_self a [] d = refl
member-erase_self a (x ∷ xs) d = ground (arith, d.0, member-erase_self a xs d.1)

member-erase-false : (a i : ℕ) (xs : List ℕ) → member i xs ≡ false → member i (erase a xs) ≡ false
unfolding erase
member-erase-false a i [] h = refl
member-erase-false a i (x ∷ xs) h = ground (arith, member-erase-false a i xs)

pub Distinct-erase : (a : ℕ) (xs : List ℕ) → Distinct xs → Distinct (erase a xs)
unfolding erase
Distinct-erase a [] d = d
Distinct-erase a (x ∷ xs) d = elim (Bool-cases (x == a)) [
  | inl h ↦ rw h d.1
  | inr h ↦ rw h (member-erase-false a x xs d.0, Distinct-erase a xs d.1)
]

-- Writing the generation of one slot.
pub get_or-set_other :
    (gens : List ℕ) (slot g i : ℕ) → slot ≢ i → get_or (set gens slot g) i 0 ≡ get_or gens i 0
get_or-set_other gens slot g i h = get_or-modify_ne gens slot i (λ _. g) 0 h

-- A slot whose generation is cleared, or that does not exist, reads as 0.
pub get_or-clear_self : (gens : List ℕ) (slot : ℕ) → get_or (set gens slot 0) slot 0 ≡ 0
get_or-clear_self [] slot = refl
get_or-clear_self (g ∷ gens) zero = refl
get_or-clear_self (g ∷ gens) (suc slot) = get_or-clear_self gens slot

-- Activation leaves the active slots as they are.
IsLive-set :
    (gens : List ℕ) (slot g : ℕ) (r : ActiveRoute)
    → get_or gens slot 0 ≡ 0
    → IsLive gens r
    → IsLive (set gens slot g) r
IsLive-set gens slot g r free v = record {
  source = (
    v.source.0,
    get_or-set_other gens slot g r.src_slot (λ (e : slot ≡ r.src_slot).
          let q = ap (λ (i : ℕ). get_or gens i 0) e in omega (arith, v.source.0, v.source.1))
        ∙ v.source.1,
  );
  target = λ m. (
    (v.target m).0,
    get_or-set_other gens slot g r.dst_slot (λ (e : slot ≡ r.dst_slot).
          let q = ap (λ (i : ℕ). get_or gens i 0) e in
          omega (arith, (v.target m).0, (v.target m).1))
        ∙ (v.target m).1,
  );
}

pub All-IsLive-set :
    (gens : List ℕ) (slot g : ℕ) (rs : List ActiveRoute)
    → get_or gens slot 0 ≡ 0
    → All (IsLive gens) rs
    → All (IsLive (set gens slot g)) rs
All-IsLive-set gens slot g [] free v = tt
All-IsLive-set gens slot g (r ∷ rs) free v =
    (IsLive-set gens slot g r free v.0, All-IsLive-set gens slot g rs free v.1)

-- The routes that do not touch a slot stay live when it is released.
IsLive-release :
    (gens : List ℕ) (slot : ℕ) (r : ActiveRoute)
    → touches slot r ≡ false
    → IsLive gens r
    → IsLive (set gens slot 0) r
unfolding touches
IsLive-release gens slot r h v = record {
  source = (v.source.0, get_or-set_other gens slot 0 r.src_slot (λ e. ground arith) ∙ v.source.1);
  target = λ m. (
    (v.target m).0,
    get_or-set_other gens slot 0 r.dst_slot (λ e. ground arith) ∙ (v.target m).1,
  );
}

pub All-IsLive-release :
    (gens : List ℕ) (slot : ℕ) (rs : List ActiveRoute)
    → All (IsLive gens) rs
    → All (IsLive (set gens slot 0)) (keep (λ r. not (touches slot r)) rs)
All-IsLive-release gens slot [] v = tt
All-IsLive-release gens slot (r ∷ rs) v = elim (Bool-cases (touches slot r)) [
  | inl h ↦ rw h (All-IsLive-release gens slot rs v.1)
  | inr h ↦ rw h (IsLive-release gens slot r h v.0, All-IsLive-release gens slot rs v.1)
]

pub All-keep :
    (P : ActiveRoute → Type 0) (p : ActiveRoute → Bool) (rs : List ActiveRoute)
    → All P rs
    → All P (keep p rs)
All-keep P p [] v = tt
All-keep P p (r ∷ rs) v = elim (Bool-cases (p r)) [
  | inl h ↦ rw h (v.0, All-keep P p rs v.1)
  | inr h ↦ rw h (All-keep P p rs v.1)
]

-- The test of an active slot, with a generation that is not 0.
pub is_active-Active :
    (gens : List ℕ) (h : InstanceHandle)
    → 0 < h.generation
    → is_active gens h ≡ true
    → Active gens h.slot h.generation
unfolding is_active
is_active-Active gens h p a = (p, ground arith)

pub Active-is_active :
    (gens : List ℕ) (h : InstanceHandle) → Active gens h.slot h.generation → is_active gens h ≡ true
unfolding is_active
Active-is_active gens h a = ground (arith, get_or_beyond gens h.slot 0)
