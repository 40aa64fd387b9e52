-- ===== src/Memory.antt =====
-- src/kickstart/lib.exec/memory.c: the memory lists of exec. The words of free and used blocks are
-- in `Mem`: a MemChunk at `p` has mc_Next at `p` and mc_Bytes at `p + 4`, takes 8 bytes, and counts
-- its block in units of 8 bytes, its own included. The fields of a MemHeader are a record; its node
-- in MemList is the record's place in a list of headers. Addresses are below 2 ^ 32.
pub mod FreeList
pub mod FirstFit
pub mod Allocate
pub mod Release
pub mod Deallocate
pub mod RoundTrip
pub mod Init
pub mod Areas
mod Tests
use mathlib.Core.Option
use poweros_raspi.Base.{
  ℕ, zero, suc, ◌+◌, ◌-◌, ◌*◌, ◌/◌, ◌&&◌, Option, none, some, ◌==◌, if◌then◌else◌, ltb, leb, u32,
  not,
}
use poweros_raspi.ExecList.{Ptr, null, Mem, write}

pub record MemHeader : Type 0 where
  pub ln_pri : ℕ
  pub mh_attr : ℕ
  pub mh_lower : Ptr
  pub mh_upper : Ptr
  pub mh_free : ℕ
  pub mh_first : Ptr
  pub mh_start : Ptr

abbrev pub mc_next : Ptr → Ptr
mc_next p = p

abbrev pub mc_bytes : Ptr → Ptr
mc_bytes p = p + 4

abbrev pub sizeof_mem_chunk : ℕ
sizeof_mem_chunk = 8

abbrev pub sizeof_mem_header : ℕ
sizeof_mem_header = 40

-- The part of lib_AddMemList before the Enqueue: the first chunks and the header. `size - 8` is of UINT32.
pub init_mem_header : ℕ → ℕ → ℕ → Ptr → Mem → MemHeader × Mem
init_mem_header size attribute pri base m =
    let start = base + sizeof_mem_header in
    let first = start + sizeof_mem_chunk in
    let m = write m (mc_bytes start) 0 in
    let m = write m (mc_next start) first in
    let m = write m (mc_next first) start in
    let m = write m (mc_bytes first) (u32 (size + 4294967288) / sizeof_mem_chunk) in
    (
      record {
        ln_pri = pri;
        mh_attr = attribute;
        mh_lower = first;
        mh_upper = base + size;
        mh_free = m (mc_bytes first);
        mh_first = first;
        mh_start = start;
      },
      m,
    )

-- The size in units of 8 bytes that lib_Allocate looks for.
pub nunits : ℕ → ℕ
nunits nbytes =
    let nbytes = u32 (nbytes + 8) in
    u32 (u32 (nbytes + sizeof_mem_chunk - 1) / sizeof_mem_chunk + 1)

-- What lib_Allocate returns, with the header and the memory after it.
pub record Allocated : Type 0 where
  pub block : Ptr
  pub header : MemHeader
  pub mem : Mem

abbrev pub allocated : Ptr → MemHeader → Mem → Allocated
allocated p mh m = record { block = p; header = mh; mem = m }

-- The body of the loop of lib_Allocate at a chunk `p` of at least `n` units.
pub take_units : MemHeader → ℕ → Ptr → Ptr → Mem → Allocated
take_units mh n prev p m =
    let mh' = record mh { mh_free = mh.mh_free - n } in
    if m (mc_bytes p) == n
    then allocated (p + sizeof_mem_chunk) mh' (write m (mc_next prev) (m (mc_next p)))
    else let m = write m (mc_bytes p) (m (mc_bytes p) - n) in
      let p = p + sizeof_mem_chunk * m (mc_bytes p) in
      allocated (p + sizeof_mem_chunk) mh' (write m (mc_bytes p) n)

-- The loop of lib_Allocate, `none` without fuel.
pub allocate_loop : ℕ → MemHeader → ℕ → Ptr → Ptr → Mem → Option Allocated
allocate_loop zero mh n prev p m = none
allocate_loop (suc fuel) mh n prev p m =
    let rest = allocate_loop fuel mh n p (m (mc_next p)) m in
    if leb n (m (mc_bytes p))
    then some (take_units mh n prev p m)
    else if p == mh.mh_start
    then some (allocated null mh m)
    else rest

-- lib_Allocate
pub allocate : ℕ → MemHeader → ℕ → Mem → Option Allocated
allocate fuel mh nbytes m =
    let loop = allocate_loop fuel mh (nunits nbytes) mh.mh_start (m (mc_next mh.mh_start)) m in
    if nbytes == 0
    then some (allocated null mh m)
    else if leb (nunits nbytes) mh.mh_free
    then loop
    else some (allocated null mh m)

-- The loop of lib_Deallocate: `prev` and `next` where it ends, `none` without fuel.
pub place_loop : ℕ → Ptr → Ptr → Ptr → Ptr → Mem → Option (Ptr × Ptr)
place_loop zero start blk prev next m = none
place_loop (suc fuel) start blk prev next m =
    let rest = place_loop fuel start blk next (m (mc_next next)) m in
    if ltb blk next
    then some (prev, next)
    else if m (mc_next next) == start
    then some (next, m (mc_next next))
    else rest

-- The merge of lib_Deallocate with the chunk behind the block.
pub merge_next : Ptr → Ptr → Mem → Mem
merge_next blk next m =
    if blk + sizeof_mem_chunk * m (mc_bytes blk) == next
    then (let m = write m (mc_bytes blk) (m (mc_bytes blk) + m (mc_bytes (m (mc_next blk)))) in
        write m (mc_next blk) (m (mc_next (m (mc_next blk)))))
    else m

-- The merge of lib_Deallocate with the chunk in front of the block.
pub merge_prev : Ptr → Ptr → Ptr → Mem → Mem
merge_prev start prev blk m =
    if not (prev == start) && (prev + sizeof_mem_chunk * m (mc_bytes prev) == blk)
    then (let m = write m (mc_bytes prev) (m (mc_bytes prev) + m (mc_bytes blk)) in
        write m (mc_next prev) (m (mc_next blk)))
    else m

-- lib_Deallocate behind its loop: the links, the count, and the two merges.
pub link_block : MemHeader → Ptr → Ptr × Ptr → Mem → MemHeader × Mem
link_block mh blk (prev, next) m =
    let m = write m (mc_next blk) next in
    let m = write m (mc_next prev) blk in
    let mh' = record mh { mh_free = u32 (mh.mh_free + m (mc_bytes blk)) } in
    (mh', merge_prev mh.mh_start prev blk (merge_next blk next m))

-- lib_Deallocate
pub deallocate : ℕ → MemHeader → Ptr → Mem → Option (MemHeader × Mem)
deallocate fuel mh memory_block m =
    let blk = memory_block - sizeof_mem_chunk in
    if memory_block == null
    then some (mh, m)
    else Option.map (λ at. link_block mh blk at m)
        (place_loop fuel mh.mh_start blk mh.mh_start (m (mc_next mh.mh_start)) m)
