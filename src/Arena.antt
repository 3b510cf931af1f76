-- ===== src/Arena.antt =====
-- include/xrune/util/arena.hpp: the bump allocator. `base` is the address of the storage and `size`
-- its bytes; an address is a 64-bit number and a null pointer is `none`.
pub mod Blocks
pub mod Runs
pub mod Pool
use xrune.Base.{
  ℕ, ◌+◌, ◌-◌, ◌^◌, Option, none, some, List, [], ◌∷◌, ◌==◌, ltb, if◌then◌else◌, word, align_up,
}

pub record MemoryArena : Type 0 where
  pub base : ℕ
  pub size : ℕ
  pub offset : ℕ

-- storage.assign(bytes, 0), which puts the storage at the address `base`.
unfoldable pub reserve : ℕ → ℕ → MemoryArena
reserve base bytes = record { base = base; size = bytes; offset = 0 }

unfoldable pub allocate : MemoryArena → ℕ → ℕ → MemoryArena × Option ℕ
allocate a bytes align =
    let aligned = align_up (word (a.base + a.offset)) align in
    let new_offset = word (word (aligned + 2 ^ 64 - a.base) + bytes) in
    if a.size == 0
    then (a, none)
    else if ltb a.size new_offset
    then (a, none)
    else (record a { offset = new_offset }, some aligned)

unfoldable pub reset : MemoryArena → MemoryArena
reset a = record a { offset = 0 }

unfoldable pub remaining : MemoryArena → ℕ
remaining a = word (a.size + 2 ^ 64 - a.offset)

-- The requests of one client, in their order: bytes and the exponent of the alignment.
unfoldable pub allocate_all : List (ℕ × ℕ) → MemoryArena → MemoryArena × List (Option ℕ)
unfolding allocate
allocate_all [] a = (a, [])
allocate_all ((bytes, k) ∷ rs) a =
    let (a', p) = allocate a bytes (2 ^ k) in let (a'', ps) = allocate_all rs a' in (a'', p ∷ ps)
