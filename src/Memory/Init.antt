-- ===== src/Memory/Init.antt =====
-- The free list that lib_AddMemList sets up.
use poweros_raspi.Base.{◌+◌, ◌-◌, ◌*◌, ◌/◌, ◌%◌, ◌≤◌, ◌<◌, ◌≡◌, ◌^◌, ℕ, [], ◌∷◌, arith, u32}
use poweros_raspi.ExecList.{Ptr, Mem}
use poweros_raspi.Memory.{init_mem_header}
use poweros_raspi.Memory.FreeList.{chunk, chunk_end, IsFreeList}

-- The area at `base` of any size from 16 bytes on becomes one chunk of `size / 8 - 1` units. But for the `size % 8`
-- bytes left over, it ends 40 bytes beyond mh_Upper: the header in front of it is not taken off.
pub init_mem_header-IsFreeList :
    (size attribute pri : ℕ) (base : Ptr) (m : Mem)
    → 16 ≤ size
    → size < 2 ^ 32
    → IsFreeList
        (init_mem_header size attribute pri base m).0
        (init_mem_header size attribute pri base m).1
        (chunk (base + 48) (size / 8 - 1) ∷ [])
        (base + 40 + 8 * (size / 8))
      × ((init_mem_header size attribute pri base m).0.mh_upper + 40
          ≡ chunk_end (chunk (base + 48) (size / 8 - 1)) + size % 8)
unfolding init_mem_header
init_mem_header-IsFreeList size attribute pri base m big small =
    let bytes : u32 (size + 4294967288) / 8 ≡ size / 8 - 1 = omega arith in
    (
      record {
        start_empty = ground arith;
        links = (ground arith, ground arith, ground arith);
        sorted = (omega arith, omega arith, omega arith);
        free = ground arith;
      },
      omega arith,
    )
