-- ===== src/Memory/Tests.antt =====
-- A memory area of 1024 bytes at 4096, as lib_AddMemList sets it up.
use poweros_raspi.Base.{
  ℕ, ◌%◌, ◌/◌, ◌+◌, ◌-◌, ◌*◌, ◌≤◌, ◌<◌, ◌≡◌, ◌^◌, refl, inr, some, List, [], ◌∷◌, arith, false,
}
use poweros_raspi.ExecList.{Mem, write}
use poweros_raspi.Memory.{
  MemHeader, Allocated, init_mem_header, nunits, allocate, allocate_loop, take_units, deallocate,
}
use poweros_raspi.Memory.Areas.{Vec, alloc_vec, alloc_vec-first, free_vec}
use poweros_raspi.Memory.Areas.Lost.{free_vec-alloc_vec}
use poweros_raspi.Memory.FreeList.{Chunk, chunk, chunk_end, IsFreeList}
use poweros_raspi.Memory.FirstFit.{first_fit}
use poweros_raspi.Memory.Allocate.{Allocates, nunits_bounds, allocate-Allocates}
use poweros_raspi.Memory.Release.{release}
use poweros_raspi.Memory.Deallocate.{Releases, deallocate-Releases}
use poweros_raspi.Memory.RoundTrip.{GivesBack, allocate-deallocate}
use poweros_raspi.Memory.Init.{init_mem_header-IsFreeList}

abbrev blank : Mem
blank c = 0

abbrev header : MemHeader
header = (init_mem_header 1024 1 0 4096 blank).0

abbrev area : Mem
area = (init_mem_header 1024 1 0 4096 blank).1

abbrev chunks : List Chunk
chunks = chunk 4144 127 ∷ []

area-IsFreeList : IsFreeList header area chunks 5160
area-IsFreeList = (init_mem_header-IsFreeList 1024 1 0 4096 blank (ground arith) (ground arith)).0

-- The header right behind lib_AddMemList has its 127 units below 2 ^ 32.
header_small : header.mh_free < 2 ^ 32
header_small = omega (arith, area-IsFreeList.free)

-- Two chunks, and a request that only the second one serves.
fit_second :
    first_fit 4 (chunk 100 2 ∷ chunk 200 6 ∷ [])
    ≡ some (record { at = 216; left = chunk 100 2 ∷ chunk 200 2 ∷ [] })
unfolding first_fit
fit_second = refl

merge_both : release (chunk 116 2) (chunk 100 2 ∷ chunk 132 3 ∷ []) ≡ chunk 100 7 ∷ []
unfolding release
merge_both = refl

init_mem_header-IsFreeList_example :
    IsFreeList
      (init_mem_header 1028 1 0 4096 blank).0
      (init_mem_header 1028 1 0 4096 blank).1
      (chunk (4096 + 48) (1028 / 8 - 1) ∷ [])
      (4096 + 40 + 8 * (1028 / 8))
    × ((init_mem_header 1028 1 0 4096 blank).0.mh_upper + 40
        ≡ chunk_end (chunk (4096 + 48) (1028 / 8 - 1)) + 1028 % 8)
init_mem_header-IsFreeList_example =
    init_mem_header-IsFreeList 1028 1 0 4096 blank (ground arith) (ground arith)

nunits_run : (100 + 16 ≤ 8 * nunits 100) × (8 * nunits 100 ≤ 100 + 23)
nunits_run = nunits_bounds 100 (ground arith)

allocate-Allocates_example :
    (n : ℕ) × (100 + 16 ≤ 8 * n)
    × (8 * n < 100 + 16 + 8)
    × Allocates header n area 5160 (first_fit n chunks) (allocate 2 header 100 area)
allocate-Allocates_example =
    allocate-Allocates header area chunks 5160 area-IsFreeList 2 100 (ground arith) (ground arith)
      (ground arith)

free_vec-alloc_vec_example :
    (v : Vec) × (mh : MemHeader) × (alloc_vec (λ p n m. m) 2 (header ∷ []) 20 false area ≡ some v)
    × (v.headers ≡ mh ∷ [])
    × (mh.mh_free + 2 ≤ header.mh_free)
    × (header.mh_upper ≤ v.block)
    × (free_vec 3 v.headers v.block v.mem ≡ some (v.headers, v.mem))
free_vec-alloc_vec_example =
    free_vec-alloc_vec (λ p n m. m) 3 1024 1 0 20 4096 blank (ground arith) (ground arith)
      (ground arith) (ground arith)

-- A used block of 4 units behind the area's chunk.
abbrev used : Mem
used = write area 5164 4

used-IsFreeList : IsFreeList header used chunks 6000
unfolding init_mem_header
used-IsFreeList = record {
  start_empty = refl;
  links = (refl, refl, refl);
  sorted = (ground arith, ground arith, ground arith);
  free = refl;
}

header_start : header.mh_start ≡ 4136
unfolding init_mem_header
header_start = refl

deallocate-Releases_example :
    (r : MemHeader × Mem) × (deallocate 2 header 5168 used ≡ some r)
    × Releases header (chunk 5160 4) chunks 6000 r.0 r.1
deallocate-Releases_example =
    deallocate-Releases 2 header used (chunk 5160 4) chunks 6000 used-IsFreeList (ground arith)
      (ground arith) (omega (arith, header_start)) (inr (ground arith), tt) (ground arith) refl
      (omega (arith, used-IsFreeList.free))

allocate-deallocate_example : GivesBack 2 header area chunks 5160 (allocate 2 header 100 area)
allocate-deallocate_example =
    allocate-deallocate 2 header area chunks 5160 100 area-IsFreeList (ground arith) (ground arith)
      header_small tt

-- A header whose area is used up.
abbrev empty_header : MemHeader
empty_header = record header { mh_free = 0 }

abbrev granted : Allocated
granted = take_units header 15 4136 4144 area

granted_by_header : allocate 2 header 100 area ≡ some granted
unfolding allocate allocate_loop nunits init_mem_header
granted_by_header = refl

alloc_vec-first_run :
    (v : Vec) × (alloc_vec (λ p n m. m) 2 (empty_header ∷ header ∷ []) 100 false area ≡ some v)
    × (v.block ≡ granted.block)
    × (v.headers ≡ empty_header ∷ granted.header ∷ [])
    × (v.mem ≡ granted.mem)
unfolding init_mem_header
alloc_vec-first_run =
    alloc_vec-first (λ p n m. m) 2 100 false area (empty_header ∷ []) [] header (omega arith, tt)
      (omega arith) granted granted_by_header
