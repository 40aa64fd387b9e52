-- ===== src/Memory/Areas/Lost.antt =====
-- AllocVec and FreeVec of src/kickstart/lib.exec/memory.c on an area as lib_AddMemList sets it up: the end of its
-- chunk is beyond mh_Upper, which FreeVec compares with.
use mathlib.Core.Path.{subst, sym}
use poweros_raspi.Base.{
  ℕ, ◌+◌, ◌-◌, ◌*◌, ◌/◌, ◌≤◌, ◌<◌, ◌≡◌, ◌^◌, ap, refl, true, false, Option, some, [], ◌∷◌, ◌==◌,
  leb, arith, u32,
}
use poweros_raspi.ExecList.{Ptr, Mem}
use poweros_raspi.Memory.{MemHeader, Allocated, init_mem_header, nunits}
use poweros_raspi.Memory.FreeList.{chunk}
use poweros_raspi.Memory.FirstFit.{first_fit}
use poweros_raspi.Memory.Allocate.{Allocates, allocate-first_fit, nunits_bounds}
use poweros_raspi.Memory.Init.{init_mem_header-IsFreeList}
use poweros_raspi.Memory.Areas.{Vec, alloc_vec, free_vec, free_loop}

first_fit-cut :
    (n : ℕ) (a : Ptr) (u : ℕ)
    → n < u
    → first_fit n (chunk a u ∷ [])
      ≡ some (record { at = a + 8 * (u - n); left = chunk a (u - n) ∷ [] })
unfolding first_fit
first_fit-cut n a u lt =
    let fits : leb n u ≡ true = ground arith in
    let part : (u == n) ≡ false = ground arith in rw (fits, part) refl

-- Allocate of an area with one chunk.
granted :
    (mh : MemHeader) (m : Mem) (n : ℕ) (a : Ptr) (u : ℕ) (hi : Ptr) (o : Option Allocated)
    → n < u
    → Allocates mh n m hi (first_fit n (chunk a u ∷ [])) o
    → (t : Allocated) × (o ≡ some t)
      × (t.block ≡ a + 8 * (u - n) + 8)
      × (t.header ≡ record mh { mh_free = mh.mh_free - n })
granted mh m n a u hi o lt h =
    let g : Allocates mh n m hi
        (some (record { at = a + 8 * (u - n); left = chunk a (u - n) ∷ [] })) o =
      subst (λ f. Allocates mh n m hi f o) (first_fit-cut n a u lt) h in
    (g.0, g.1, g.2.block, g.2.header)

header-fields :
    (size attribute pri : ℕ) (base : Ptr) (m : Mem)
    → 16 ≤ size
    → size < 2 ^ 32
    → let mh = (init_mem_header size attribute pri base m).0 in
      (mh.mh_upper ≡ base + size) × (mh.mh_free ≡ size / 8 - 1)
unfolding init_mem_header
header-fields size attribute pri base m big small =
    let bytes : u32 (size + 4294967288) / 8 ≡ size / 8 - 1 = omega arith in (refl, ground arith)

free_vec-outside :
    (fuel : ℕ) (mh : MemHeader) (block : Ptr) (m : Mem)
    → mh.mh_upper ≤ block
    → free_vec fuel (mh ∷ []) block m ≡ some (mh ∷ [], m)
unfolding free_vec free_loop
free_vec-outside fuel mh block m out = ground arith

-- The first block of 1 to 24 bytes of a new area of at least 272 bytes is lost: AllocVec hands it out from behind
-- mh_Upper, with at least 2 units gone from mh_Free, and FreeVec of it changes nothing.
pub free_vec-alloc_vec :
    (mem_set : Ptr → ℕ → Mem → Mem) (fuel size attribute pri nbytes : ℕ) (base : Ptr) (m : Mem)
    → 272 ≤ size
    → size < 2 ^ 32
    → 0 < nbytes
    → nbytes ≤ 24
    → let r = init_mem_header size attribute pri base m in
      (v : Vec) × (mh : MemHeader) × (alloc_vec mem_set 2 (r.0 ∷ []) nbytes false r.1 ≡ some v)
      × (v.headers ≡ mh ∷ [])
      × (mh.mh_free + 2 ≤ r.0.mh_free)
      × (r.0.mh_upper ≤ v.block)
      × (free_vec fuel v.headers v.block v.mem ≡ some (v.headers, v.mem))
unfolding alloc_vec
free_vec-alloc_vec mem_set fuel size attribute pri nbytes base m big small pos few =
    let r = init_mem_header size attribute pri base m in
    let n = nunits nbytes in
    let u : ℕ = size / 8 - 1 in
    let (low, high) = nunits_bounds nbytes (omega arith) in
    let (upper, free) = header-fields size attribute pri base m (omega arith) small in
    let fl = (init_mem_header-IsFreeList size attribute pri base m (omega arith) small).0 in
    let given =
      allocate-first_fit r.0 r.1 (chunk (base + 48) u ∷ []) (base + 40 + 8 * (size / 8)) fl 2 nbytes
        (omega arith) (omega arith) in
    let (t, ran, block, header) =
      granted r.0 r.1 n (base + 48) u (base + 40 + 8 * (size / 8)) _ (omega arith) given in
    let asks : leb nbytes r.0.mh_free ≡ true = ground (arith, free) in
    let out : r.0.mh_upper ≤ t.block = omega (arith, block, upper) in
    let same_upper : t.header.mh_upper ≡ r.0.mh_upper = ap (λ (h : MemHeader). h.mh_upper) header in
    (
      record { block = t.block; headers = t.header ∷ []; mem = t.mem },
      t.header,
      rw (asks, ran) refl,
      refl,
      omega (arith, free, low, ap (λ (h : MemHeader). h.mh_free) header),
      out,
      free_vec-outside fuel t.header t.block t.mem (subst (λ w. w ≤ t.block) (sym same_upper) out),
    )
