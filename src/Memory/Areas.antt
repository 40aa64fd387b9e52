-- ===== src/Memory/Areas.antt =====
-- AllocVec and FreeVec of src/kickstart/lib.exec/memory.c, over the headers of MemList in their order. MemSet is the
-- argument `mem_set`: it is written in assembly.
pub mod Lost
use mathlib.Core.Option
use poweros_raspi.Base.{
  ℕ, ◌<◌, ◌≤◌, ◌≡◌, ◌≢◌, refl, ap, Bool, true, false, ◌&&◌, Option, some, List, [], ◌∷◌, ◌++◌, ◌==◌,
  if◌then◌else◌, leb, ltb, arith, All,
}
use poweros_raspi.ExecList.{Ptr, null, Mem}
use poweros_raspi.Memory.{MemHeader, Allocated, allocate, deallocate}

-- What AllocVec and FreeVec leave: the headers and the memory, with the block for AllocVec.
pub record Vec : Type 0 where
  pub block : Ptr
  pub headers : List MemHeader
  pub mem : Mem

abbrev pub in_front : MemHeader → Vec → Vec
in_front mh v = record v { headers = mh ∷ v.headers }

abbrev pub area_of : MemHeader → Ptr → Bool
area_of mh block = leb mh.mh_lower block && ltb block mh.mh_upper

module _ (mem_set : Ptr → ℕ → Mem → Mem) where
  -- The block that Allocate gave of the header `mh`, cleared if MEMF_CLEAR is asked for.
  abbrev pub hand_out : Bool → ℕ → List MemHeader → Allocated → Vec
  hand_out clear size mhs r = record {
    block = r.block;
    headers = r.header ∷ mhs;
    mem = if clear then mem_set r.block size r.mem else r.mem;
  }

  -- lib_AllocVec; `clear` is the MEMF_CLEAR of the requirements.
  pub alloc_vec : ℕ → List MemHeader → ℕ → Bool → Mem → Option Vec
  alloc_vec fuel [] size clear m = some (record { block = null; headers = []; mem = m })
  alloc_vec fuel (mh ∷ mhs) size clear m =
      let rest = Option.map (in_front mh) (alloc_vec fuel mhs size clear m) in
      if leb size mh.mh_free
      then Option.map (hand_out clear size mhs) (allocate fuel mh size m)
      else rest

  -- AllocVec asks the first header alone whose mh_Free is not below the size, and passes its answer on, NULL too.
  pub alloc_vec-first :
      (fuel size : ℕ) (clear : Bool) (m : Mem) (before after : List MemHeader) (mh : MemHeader)
      → All (λ a. a.mh_free < size) before
      → size ≤ mh.mh_free
      → (r : Allocated) → allocate fuel mh size m ≡ some r
      → (v : Vec) × (alloc_vec fuel (before ++ mh ∷ after) size clear m ≡ some v)
        × (v.block ≡ r.block)
        × (v.headers ≡ before ++ r.header ∷ after)
        × (v.mem ≡ (if clear then mem_set r.block size r.mem else r.mem))
  unfolding alloc_vec
  alloc_vec-first fuel size clear m [] after mh less enough r given =
      let asks : leb size mh.mh_free ≡ true = ground arith in
      rw (asks, given) (hand_out clear size after r, refl, refl, refl, refl)
  alloc_vec-first fuel size clear m (a ∷ before) after mh (small, less) enough r given =
      let passes : leb size a.mh_free ≡ false = ground arith in
      let (v, ran, block, headers, mem) =
        alloc_vec-first fuel size clear m before after mh less enough r given in
      rw (passes, ran) (in_front a v, refl, block, ap (λ l. a ∷ l) headers, mem)

abbrev pub released : List MemHeader → MemHeader × Mem → List MemHeader × Mem
released mhs (mh, m) = (mh ∷ mhs, m)

-- The loop of lib_FreeVec.
pub free_loop : ℕ → List MemHeader → Ptr → Mem → Option (List MemHeader × Mem)
free_loop fuel [] block m = some ([], m)
free_loop fuel (mh ∷ mhs) block m =
    let rest = Option.map (λ r. (mh ∷ r.0, r.1)) (free_loop fuel mhs block m) in
    if area_of mh block then Option.map (released mhs) (deallocate fuel mh block m) else rest

-- lib_FreeVec
pub free_vec : ℕ → List MemHeader → Ptr → Mem → Option (List MemHeader × Mem)
free_vec fuel mhs block m = if block == null then some (mhs, m) else free_loop fuel mhs block m

free_loop-area :
    (fuel : ℕ) (before after : List MemHeader) (mh mh2 : MemHeader) (block : Ptr) (m m2 : Mem)
    → All (λ a. area_of a block ≡ false) before
    → area_of mh block ≡ true
    → deallocate fuel mh block m ≡ some (mh2, m2)
    → free_loop fuel (before ++ mh ∷ after) block m ≡ some (before ++ mh2 ∷ after, m2)
unfolding free_loop
free_loop-area fuel [] after mh mh2 block m m2 out inside given = rw (inside, given) refl
free_loop-area fuel (a ∷ before) after mh mh2 block m m2 (outside, out) inside given =
    rw (outside, free_loop-area fuel before after mh mh2 block m m2 out inside given) refl

-- FreeVec gives a block back to the first area that it lies in, and leaves the other headers.
pub free_vec-area :
    (fuel : ℕ) (before after : List MemHeader) (mh mh2 : MemHeader) (block : Ptr) (m m2 : Mem)
    → block ≢ null
    → All (λ a. area_of a block ≡ false) before
    → area_of mh block ≡ true
    → deallocate fuel mh block m ≡ some (mh2, m2)
    → free_vec fuel (before ++ mh ∷ after) block m ≡ some (before ++ mh2 ∷ after, m2)
unfolding free_vec
free_vec-area fuel before after mh mh2 block m m2 ne out inside given =
    let some_block : (block == null) ≡ false = ground arith in
    rw some_block (free_loop-area fuel before after mh mh2 block m m2 out inside given)
