-- ===== src/Tests/Slots.antt =====
-- A pool of three slots with two instances, which are numbers here, and the theorems at it.
use xrune.Base.{ℕ, ◌≡◌, ◌≢◌, ◌⊎◌, Option, refl, none, some, arith}
use xrune.Manager.{
  InstanceManager, InstanceHandle, LifetimePolicy, LifetimeKind, null_handle, init, create, recycle,
  instance_at, get, is_valid, valid, available, in_use,
}
use xrune.Manager.Slots.{IsPooled}
use xrune.Manager.Handles.{Managed, Managed-IsPooled, Created, create_lem, recycle_lem}

abbrev pub forever : LifetimePolicy ℕ
forever = record {
  kind = LifetimeKind.permanent;
  ttl_blocks = 0;
  silence_threshold = 1;
  silence_blocks = 0;
}

unfoldable pub pool : InstanceManager ℕ ℕ
unfolding init create recycle
pool =
    let one = (create (init 1 3) (some 10) forever).0 in
    let two = (create one (some 20) forever).0 in (create (recycle two 0) (some 30) forever).0

abbrev pub handle : ℕ → ℕ → InstanceHandle
handle slot generation = record { slot = slot; generation = generation }

-- The first instance's handle is stale once its slot holds the third.
pool_stale : get pool (handle 0 1) ≡ none
unfolding pool get is_valid valid instance_at
pool_stale = refl

pool_found : get pool (handle 0 3) ≡ some 30
unfolding pool get is_valid valid instance_at
pool_found = refl

pool-in_use : in_use pool ≡ 2
unfolding pool in_use
pool-in_use = refl

instance_at-pool : instance_at pool 0 ≡ some 30
unfolding pool instance_at
instance_at-pool = refl

pub Managed-pool : Managed 1 3 pool
unfolding pool instance_at
Managed-pool = Managed.created (some 30) forever (
    Managed.recycled {x = 10} 0 refl
      (Managed.created (some 20) forever (Managed.created (some 10) forever Managed.started)))

pool-IsPooled : IsPooled pool
pool-IsPooled = Managed-IsPooled 1 3 pool (omega arith) Managed-pool

Managed-IsPooled_example : IsPooled pool
Managed-IsPooled_example = Managed-IsPooled 1 3 pool (omega arith) Managed-pool

abbrev built : Option ℕ
built = some 40

create_lem_example :
    Created pool built (create pool built forever).0 (create pool built forever).1
    ⊎ ((available pool ≡ 0) ⊎ (built ≡ none)) × (create pool built forever ≡ (pool, null_handle))
create_lem_example = create_lem pool built forever pool-IsPooled

recycle_lem_example :
    ((handle 0 3).slot ≡ 0 → get (recycle pool 0) (handle 0 3) ≡ none)
    × ((handle 0 3).slot ≢ 0 → get (recycle pool 0) (handle 0 3) ≡ get pool (handle 0 3))
recycle_lem_example = recycle_lem pool 0 (handle 0 3) instance_at-pool
