-- ===== src/Memory/Deallocate.antt =====
-- lib_Deallocate carries out `release` on the chunks in memory.
use mathlib.Core.Path.{subst}
use poweros_raspi.Base.{
  ℕ, zero, suc, ◌+◌, ◌-◌, ◌*◌, ◌^◌, ◌≤◌, ◌<◌, ◌≡◌, ◌≢◌, ◌⊎◌, inl, inr, refl, sym, ◌∙◌, true, false,
  not, ◌&&◌, some, Option, List, [], ◌∷◌, arith, ◌==◌, if◌then◌else◌, ltb, ltb→lt, ltb→le, length,
  Bool-cases, u32,
}
use poweros_raspi.ExecList.{Ptr, null, Mem, write}
use poweros_raspi.Memory.{MemHeader, merge_next, merge_prev, link_block, place_loop, deallocate}
use poweros_raspi.Memory.FreeList.{
  Chunk, chunk, chunk_end, head_addr, Links, Sorted, Apart, IsFreeList, Links-frame,
}
use poweros_raspi.Memory.Release.{
  glue, glue_units, glue_rest, glue-Sorted, release_after, release, release-Sorted, total-release,
}

-- The block enters the chain behind the address `p`.
Links-enter :
    (m : Mem) (p lo : Ptr) (b : Chunk) (cs : List Chunk) (s hi : Ptr)
    → p + 8 ≤ b.addr
    → b.addr + 8 ≤ lo
    → Sorted lo cs hi
    → m (b.addr + 4) ≡ b.units
    → Links m p cs s
    → Links (write (write m b.addr (head_addr cs s)) p b.addr) p (b ∷ cs) s
Links-enter m p lo b [] s hi up lower o size k = (ground arith, ground arith, ground arith)
Links-enter m p lo b (c ∷ cs) s hi up lower o size k = (
  ground arith,
  ground arith,
  (
    ground arith,
    ground (arith, k.1),
    Links-frame m _ c.addr (c.addr + 8 * c.units) cs s hi o.2 (λ w q. ground arith) k.2,
  ),
)

-- The two stores of a merge, of `y` into `x`.
abbrev absorb : Mem → Ptr → Ptr → Mem
absorb m x y = write (write m (x + 4) (m (x + 4) + m (y + 4))) x (m y)

absorb-Links :
    (m : Mem) (p : Ptr) (x y : Chunk) (cs : List Chunk) (s hi : Ptr)
    → p + 8 ≤ x.addr
    → 0 < x.units
    → Sorted (chunk_end x) (y ∷ cs) hi
    → Links m p (x ∷ y ∷ cs) s
    → Links (absorb m x.addr y.addr) p (chunk x.addr (x.units + y.units) ∷ cs) s
absorb-Links m p x y [] s hi up pos o k =
    (ground (arith, k.0), ground (arith, k.1, k.2.1), ground (arith, k.2.2))
absorb-Links m p x y (c ∷ cs) s hi up pos o k = (
  ground (arith, k.0),
  ground (arith, k.1, k.2.1),
  (
    ground (arith, k.2.2.0),
    ground (arith, k.2.2.1, o.2.0),
    Links-frame m _ c.addr (c.addr + 8 * c.units) cs s hi o.2.2 (λ w q. ground (arith, o.2.0))
        k.2.2.2,
  ),
)

merge_next-miss : (m : Mem) (b next : Ptr) → b + 8 * m (b + 4) ≢ next → merge_next b next m ≡ m
unfolding merge_next
merge_next-miss m b next ne =
    let test : (b + 8 * m (b + 4) == next) ≡ false = ground arith in rw test

merge_next-hit :
    (m : Mem) (b next : Ptr)
    → b + 8 * m (b + 4) ≡ next
    → m b ≡ next
    → next ≢ b + 4
    → merge_next b next m ≡ absorb m b next
unfolding merge_next
merge_next-hit m b next e link ne =
    let test : (b + 8 * m (b + 4) == next) ≡ true = ground arith in
    let own : (b == b + 4) ≡ false = ground arith in
    let other : (next == b + 4) ≡ false = ground arith in rw (test, own, link, other)

merge_prev-miss :
    (m : Mem) (s p b : Ptr) → (p ≡ s) ⊎ (p + 8 * m (p + 4) ≢ b) → merge_prev s p b m ≡ m
unfolding merge_prev
merge_prev-miss m s p b h =
    let test : (not (p == s) && (p + 8 * m (p + 4) == b)) ≡ false = ground arith in rw test

merge_prev-hit :
    (m : Mem) (s p b : Ptr)
    → p ≢ s
    → p + 8 * m (p + 4) ≡ b
    → b ≢ p + 4
    → merge_prev s p b m ≡ absorb m p b
unfolding merge_prev
merge_prev-hit m s p b ne e apart =
    let test : (not (p == s) && (p + 8 * m (p + 4) == b)) ≡ true = ground arith in
    let other : (b == p + 4) ≡ false = ground arith in rw (test, other)

-- The merge with the chunk behind the block.
merge_next-Links :
    (m : Mem) (p : Ptr) (b : Chunk) (cs : List Chunk) (s hi : Ptr)
    → p + 8 ≤ b.addr
    → s < b.addr
    → 0 < b.units
    → Sorted (chunk_end b) cs hi
    → Links m p (b ∷ cs) s
    → Links (merge_next b.addr (head_addr cs s) m) p (glue b cs) s
merge_next-Links m p b [] s hi up above pos o k =
    rw (merge_next-miss m b.addr s (ground (arith, k.1))) k
merge_next-Links m p b (c ∷ cs) s hi up above pos o k = elim (Bool-cases (chunk_end b == c.addr)) [
  | inl e ↦
      let hit = merge_next-hit m b.addr c.addr (ground (arith, k.1)) k.2.0 (ground arith) in
      subst (λ m'. Links m' p (glue b (c ∷ cs)) s) (sym hit)
        (rw e (absorb-Links m p b c cs s hi up pos o k))
  | inr e ↦
      let miss = merge_next-miss m b.addr c.addr (ground (arith, k.1)) in
      subst (λ m'. Links m' p (glue b (c ∷ cs)) s) (sym miss) (rw e k)
]

-- The merge with the chunk in front of the block, which now begins the chunks `c ∷ cs`.
merge_prev-Links :
    (m : Mem) (a : Ptr) (p c : Chunk) (cs : List Chunk) (s hi : Ptr)
    → a + 8 ≤ p.addr
    → s < p.addr
    → 0 < p.units
    → Sorted (chunk_end p) (c ∷ cs) hi
    → Links m a (p ∷ c ∷ cs) s
    → Links (merge_prev s p.addr c.addr m) a (glue p (c ∷ cs)) s
merge_prev-Links m a p c cs s hi up above pos o k = elim (Bool-cases (chunk_end p == c.addr)) [
  | inl e ↦
      let hit =
        merge_prev-hit m s p.addr c.addr (omega arith) (ground (arith, k.1)) (ground arith) in
      subst (λ m'. Links m' a (glue p (c ∷ cs)) s) (sym hit)
        (rw e (absorb-Links m a p c cs s hi up pos o k))
  | inr e ↦
      let miss = merge_prev-miss m s p.addr c.addr (inr (ground (arith, k.1))) in
      subst (λ m'. Links m' a (glue p (c ∷ cs)) s) (sym miss) (rw e k)
]

merge_next-frame : (m : Mem) (b next w : Ptr) → w ≢ b → w ≢ b + 4 → merge_next b next m w ≡ m w
unfolding merge_next
merge_next-frame m b next w p q = ground arith

merge_prev-frame : (m : Mem) (s p b w : Ptr) → w ≢ p → w ≢ p + 4 → merge_prev s p b m w ≡ m w
unfolding merge_prev
merge_prev-frame m s p b w q r = ground arith

-- The block enters behind the chunk `p`, which is no start: every store is at `p` or above.
record Enters (m m' : Mem) (a lo s : Ptr) (cs : List Chunk) : Type 0 where
  links : Links m' a cs s
  same : (w : Ptr) → w < lo → m' w ≡ m w

-- A round of the loop past the chunk at `c`.
place_loop-pass :
    (fuel : ℕ) (m : Mem) (s blk p c : Ptr) (r : Option (Ptr × Ptr))
    → m p ≡ c
    → c ≢ s
    → ltb blk c ≡ false
    → (if m c == s then some (c, m c) else place_loop fuel s blk c (m c) m) ≡ r
    → (if m p == s then some (p, m p) else place_loop (suc fuel) s blk p (m p) m) ≡ r
unfolding place_loop
place_loop-pass fuel m s blk p c r next inside high go =
    let test : (c == s) ≡ false = ground arith in rw (next, test, high) go

module _ (mh : MemHeader) (b : Chunk) (pos : 0 < b.units) where
  abbrev start : Ptr
  start = mh.mh_start

  enter :
      (m : Mem) (p lo : Ptr) (cs : List Chunk) (hi : Ptr)
      → p + 8 ≤ b.addr
      → start < b.addr
      → Sorted (chunk_end b) cs hi
      → m (b.addr + 4) ≡ b.units
      → Links m p cs start
      → Links
          (merge_next b.addr
            (head_addr cs start)
            (write (write m b.addr (head_addr cs start)) p b.addr))
          p
          (glue b cs)
          start
  enter m p lo cs hi up above o size k =
      merge_next-Links _ p b cs start hi up above pos o
        (Links-enter m p (chunk_end b) b cs start hi up (omega arith) o size k)

  link_block-Enters :
      (m : Mem) (a lo : Ptr) (p : Chunk) (cs : List Chunk) (hi : Ptr)
      → a + 8 ≤ lo
      → start < lo
      → lo ≤ p.addr
      → 0 < p.units
      → chunk_end p ≤ b.addr
      → Sorted (chunk_end b) cs hi
      → m (b.addr + 4) ≡ b.units
      → Links m a (p ∷ cs) start
      → Enters m
          (link_block mh b.addr (p.addr, head_addr cs start) m).1
          a
          lo
          start
          (glue p (glue b cs))
  unfolding link_block
  link_block-Enters m a lo p cs hi up st low pp below o size k =
      let frame : (w : Ptr)
          → w ≢ p.addr
          → w ≢ b.addr
          → w ≢ b.addr + 4
          → merge_next b.addr (head_addr cs start)
              (write (write m b.addr (head_addr cs start)) p.addr b.addr) w
            ≡ m w =
        λ w x y z. merge_next-frame _ b.addr (head_addr cs start) w y z ∙ ground arith in
      record {
        links =
            merge_prev-Links _ a p (chunk b.addr (glue_units b cs)) (glue_rest b cs) start hi
              (omega arith) (omega arith) pp (glue-Sorted (chunk_end p) b cs hi (below, pos, o))
              (
                frame a (omega arith) (omega arith) (omega arith) ∙ k.0,
                frame (p.addr + 4) (omega arith) (omega arith) (omega arith) ∙ k.1,
                enter m p.addr lo cs hi (omega arith) (omega arith) o size k.2,
              );
        same = λ w q.
            merge_prev-frame _ start p.addr b.addr w (omega arith) (omega arith)
            ∙ frame w (omega arith) (omega arith) (omega arith);
      }

  -- The walk behind the chunk `p` ends where the block enters.
  walk :
      (fuel : ℕ) (m : Mem) (a lo : Ptr) (p : Chunk) (cs : List Chunk) (hi : Ptr)
      → length cs < fuel
      → a + 8 ≤ lo
      → start < lo
      → Sorted lo (p ∷ cs) hi
      → p.addr < b.addr
      → Apart b.addr b.units (p ∷ cs)
      → chunk_end b ≤ hi
      → m (b.addr + 4) ≡ b.units
      → Links m a (p ∷ cs) start
      → (at : Ptr × Ptr) × ((if m p.addr == start
            then some (p.addr, m p.addr)
            else place_loop fuel start b.addr p.addr (m p.addr) m)
          ≡ some at)
        × (at.0 < b.addr)
        × Enters m (link_block mh b.addr at m).1 a lo start (release_after p b cs)
  unfolding place_loop release_after
  walk zero m a lo p cs hi long up st o above apart end size k = absurd (omega arith)
  walk (suc fuel) m a lo p [] hi long up st o above apart end size k =
      let back : m p.addr ≡ start = k.2 in
      let test : (m p.addr == start) ≡ true = ground arith in
      (
        (p.addr, start),
        rw (test, back),
        above,
        link_block-Enters m a lo p [] hi up st o.0 o.1 (omega arith) end size k,
      )
  walk (suc fuel) m a lo p (c ∷ cs) hi long up st o above apart end size k =
      let next : m p.addr ≡ c.addr = k.2.0 in
      let inside : (c.addr == start) ≡ false = ground (arith, o.2.0) in
      elim (Bool-cases (ltb b.addr c.addr)) [
        | inl e ↦
            let low = ltb→lt b.addr c.addr e in
            (
              (p.addr, c.addr),
              rw (next, inside, e),
              above,
              rw e (
                  link_block-Enters m a lo p (c ∷ cs) hi up st o.0 o.1 (omega arith)
                    (omega arith, o.2.1, o.2.2) size k),
            )
        | inr e ↦
            let high : c.addr < b.addr = omega (arith, ltb→le b.addr c.addr e) in
            let (at, found, before, en) =
              walk fuel m p.addr (p.addr + 8 * p.units) c cs hi (omega arith) (omega arith)
                (omega arith) o.2 high apart.1 end size k.2 in
            (
              at,
              place_loop-pass fuel m start b.addr p.addr c.addr _ next (omega arith) e found,
              before,
              rw e (record {
                links = (
                  en.same a (omega arith) ∙ k.0,
                  en.same (p.addr + 4) (omega arith) ∙ k.1,
                  en.links,
                );
                same = λ w q. en.same w (omega arith);
              }),
            )
      ]

  deallocate-run :
      (fuel : ℕ) (m : Mem) (at : Ptr × Ptr)
      → place_loop fuel start b.addr start (m start) m ≡ some at
      → deallocate fuel mh (b.addr + 8) m ≡ some (link_block mh b.addr at m)
  unfolding deallocate
  deallocate-run fuel m at found =
      let set : (b.addr + 8 == null) ≡ false = ground arith in
      let back : b.addr + 8 - 8 ≡ b.addr = omega arith in rw (set, back, found)

  first_pass :
      (fuel : ℕ) (m : Mem) (c : Ptr) (r : Option (Ptr × Ptr))
      → m start ≡ c
      → ltb b.addr c ≡ false
      → (if m c == start then some (c, m c) else place_loop fuel start b.addr c (m c) m) ≡ r
      → place_loop (suc fuel) start b.addr start (m start) m ≡ r
  unfolding place_loop
  first_pass fuel m c r next high go = rw (next, high) go

  link_block-start :
      (m : Mem) (cs : List Chunk) (hi : Ptr)
      → start + 8 ≤ b.addr
      → Sorted (chunk_end b) cs hi
      → m (b.addr + 4) ≡ b.units
      → Links m start cs start
      → Links (link_block mh b.addr (start, head_addr cs start) m).1 start (glue b cs) start
        × ((link_block mh b.addr (start, head_addr cs start) m).1 (start + 4) ≡ m (start + 4))
  unfolding link_block
  link_block-start m cs hi above o size k =
      let miss =
        merge_prev-miss
          (merge_next b.addr (head_addr cs start)
            (write (write m b.addr (head_addr cs start)) start b.addr))
          start start b.addr (inl refl) in
      subst (λ m'. Links m' start (glue b cs) start × (m' (start + 4) ≡ m (start + 4))) (sym miss)
        (
          enter m start (start + 8) cs hi above (omega arith) o size k,
          merge_next-frame _ b.addr (head_addr cs start) (start + 4) (omega arith) (omega arith)
              ∙ ground arith,
        )

  -- From the start of the list the loop finds the place as well.
  place :
      (fuel : ℕ) (m : Mem) (cs : List Chunk) (hi : Ptr)
      → length cs < fuel
      → Sorted (start + 8) cs hi
      → start + 8 ≤ b.addr
      → Apart b.addr b.units cs
      → chunk_end b ≤ hi
      → m (b.addr + 4) ≡ b.units
      → Links m start cs start
      → (at : Ptr × Ptr) × (place_loop fuel start b.addr start (m start) m ≡ some at)
        × (at.0 < b.addr)
        × Links (link_block mh b.addr at m).1 start (release b cs) start
        × ((link_block mh b.addr at m).1 (start + 4) ≡ m (start + 4))
  unfolding place_loop release
  place zero m cs hi long o above apart end size k = absurd (omega arith)
  place (suc fuel) m [] hi long o above apart end size k =
      let r = link_block-start m [] hi above end size k in
      let back : m start ≡ start = k in
      let low : ltb b.addr start ≡ false = ground arith in
      let test : (start == start) ≡ true = ground arith in
      ((start, start), rw (back, low, back, test), omega arith, r.0, r.1)
  place (suc fuel) m (c ∷ cs) hi long o above apart end size k =
      let next : m start ≡ c.addr = k.0 in
      elim (Bool-cases (ltb b.addr c.addr)) [
        | inl e ↦
            let low = ltb→lt b.addr c.addr e in
            let r = link_block-start m (c ∷ cs) hi above (omega arith, o.1, o.2) size k in
            ((start, c.addr), rw (next, e), omega arith, rw e r.0, r.1)
        | inr e ↦
            let high : c.addr < b.addr = omega (arith, ltb→le b.addr c.addr e) in
            let (at, found, before, en) =
              walk fuel m start (start + 8) c cs hi (omega arith) (omega arith) (omega arith) o high
                apart end size k in
            (
              at,
              first_pass fuel m c.addr _ next e found,
              before,
              rw e en.links,
              en.same (start + 4) (omega arith),
            )
      ]

link_block-header :
    (mh : MemHeader) (b : Chunk) (m : Mem) (at : Ptr × Ptr)
    → at.0 < b.addr
    → m (b.addr + 4) ≡ b.units
    → mh.mh_free + b.units < 2 ^ 32
    → (link_block mh b.addr at m).0 ≡ record mh { mh_free = mh.mh_free + b.units }
unfolding link_block
link_block-header mh b m (prev, next) before size small =
    let other : (b.addr + 4 == prev) ≡ false = ground arith in
    let own : (b.addr + 4 == b.addr) ≡ false = ground arith in
    let fits : u32 (mh.mh_free + b.units) ≡ mh.mh_free + b.units = omega arith in
    rw (other, own, size, fits)

-- The free list of the header after lib_Deallocate.
pub record Releases (mh : MemHeader) (b : Chunk) (cs : List Chunk) (hi : Ptr) (mh' : MemHeader)
    (m' : Mem) : Type 0 where
  pub free_list : IsFreeList mh' m' (release b cs) hi
  pub start_same : mh'.mh_start ≡ mh.mh_start
  pub free_more : mh'.mh_free ≡ mh.mh_free + b.units

-- lib_Deallocate of a block whose header holds its size, that lies in the area and apart from the
-- free chunks, puts it into the free list, merged with the chunks that it touches. Fuel beyond the
-- free chunks is enough.
pub deallocate-Releases :
    (fuel : ℕ) (mh : MemHeader) (m : Mem) (b : Chunk) (cs : List Chunk) (hi : Ptr)
    → IsFreeList mh m cs hi
    → length cs < fuel
    → 0 < b.units
    → mh.mh_start + 8 ≤ b.addr
    → Apart b.addr b.units cs
    → chunk_end b ≤ hi
    → m (b.addr + 4) ≡ b.units
    → mh.mh_free + b.units < 2 ^ 32
    → (r : MemHeader × Mem) × (deallocate fuel mh (b.addr + 8) m ≡ some r)
      × Releases mh b cs hi r.0 r.1
deallocate-Releases fuel mh m b cs hi fl long pos above apart end size small =
    let (at, found, before, links, kept) =
      place mh b pos fuel m cs hi long fl.sorted above apart end size fl.links in
    let header = link_block-header mh b m at before size small in
    (
      link_block mh b.addr at m,
      deallocate-run mh b pos fuel m at found,
      rw header (record {
        free_list = record {
          start_empty = kept ∙ fl.start_empty;
          links = links;
          sorted = release-Sorted (mh.mh_start + 8) b cs hi fl.sorted above pos end apart;
          free = omega (arith, fl.free, total-release b cs);
        };
        start_same = refl;
        free_more = refl;
      }),
    )
