-- ===== src/Tests/Storage.antt =====
-- A small arena, three requests of which the last does not fit, and the theorems at them.
use xrune.Base.{ℕ, ◌+◌, ◌^◌, ◌≤◌, ◌≡◌, ◌⊎◌, refl, none, some, List, [], ◌∷◌, arith, align_up}
use xrune.Arena.{MemoryArena, allocate, allocate_all}
use xrune.Arena.Blocks.{IsInside, Block, NoRoom, allocate_lem}
use xrune.Arena.Pool.{FixedBlockPool, init_pool, PoolBlock, init_pool_lem}
use xrune.Arena.Runs.{Given, InStorage, AllReasonable, allocate_all_lem}

abbrev arena : MemoryArena
arena = record { base = 4100; size = 64; offset = 0 }

abbrev requests : List (ℕ × ℕ)
requests = (10, 3) ∷ (20, 4) ∷ (40, 3) ∷ []

blocks : (allocate_all requests arena).1 ≡ some 4104 ∷ some 4128 ∷ none ∷ []
unfolding allocate_all align_up
blocks = refl

arena-IsInside : IsInside arena
arena-IsInside = record { below = omega arith; within = omega arith }

requests-AllReasonable : AllReasonable arena.size requests
requests-AllReasonable =
    ((omega arith, omega arith), ((omega arith, omega arith), ((omega arith, omega arith), tt)))

first-Given : Given requests (allocate_all requests arena).1 0 4104 10 3
unfolding allocate_all align_up
first-Given = record { request = refl; address = refl }

second-Given : Given requests (allocate_all requests arena).1 1 4128 20 4
unfolding allocate_all align_up
second-Given = record { request = refl; address = refl }

allocate_lem_example :
    ((p : ℕ) × ((allocate arena 10 (2 ^ 3)).1 ≡ some p)
      × Block arena 10 3 (allocate arena 10 (2 ^ 3)).0 p)
    ⊎ (allocate arena 10 (2 ^ 3) ≡ (arena, none)) × NoRoom arena 10 3
allocate_lem_example = allocate_lem arena 10 3 arena-IsInside (omega arith, omega arith)

allocate_all_lem_example :
    InStorage arena 4104 10 3 × InStorage arena 4128 20 4 × (4104 + 10 ≤ 4128)
allocate_all_lem_example =
    allocate_all_lem requests arena 0 1 4104 4128 10 3 20 4 arena-IsInside requests-AllReasonable
      first-Given second-Given (omega arith)

abbrev pool : FixedBlockPool
pool = init_pool 4100 10 3 (2 ^ 3)

pool_blocks : pool.free_list ≡ 4136 ∷ 4120 ∷ 4104 ∷ []
unfolding init_pool align_up
pool_blocks = refl

init_pool_lem_example : PoolBlock 4100 10 3 3 4136 × PoolBlock 4100 10 3 3 4104 × (4104 + 10 ≤ 4136)
unfolding init_pool align_up
init_pool_lem_example =
    init_pool_lem 4100 10 3 3 0 2 4136 4104 (omega arith) (omega arith) (omega arith) refl refl
      (omega arith)
