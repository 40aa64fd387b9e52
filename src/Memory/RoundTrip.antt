-- ===== src/Memory/RoundTrip.antt =====
-- What lib_Allocate takes, lib_Deallocate puts back.
use mathlib.Core.Path.{subst}
use poweros_raspi.Base.{
  length, Option, ◌⊎◌, ◌^◌, ℕ, ◌+◌, ◌-◌, ◌*◌, ◌≤◌, ◌<◌, ◌≡◌, ◌≢◌, refl, ap, ◌∙◌, inl, inr, true,
  false, some, none, List, [], ◌∷◌, arith, ◌==◌, ltb, leb, leb→le, Bool-cases, Option-cases,
}
use poweros_raspi.ExecList.{Ptr, null, Mem}
use poweros_raspi.Memory.{MemHeader, Allocated, nunits, allocate, deallocate}
use poweros_raspi.Memory.FreeList.{Chunk, chunk, chunk_end, Sorted, IsFreeList}
use poweros_raspi.Memory.Allocate.{Allocates, allocate-first_fit, nunits-pos}
use poweros_raspi.Memory.Deallocate.{deallocate-Releases}
use poweros_raspi.Memory.FirstFit.{Fit, first_fit, cut, keep, first_fit-IsCut}
use poweros_raspi.Memory.Release.{glue, release_after, release}

-- No chunk ends where the next one begins.
abbrev pub Coalesced : List Chunk → Type 0
Coalesced [] = Unit
Coalesced (c ∷ []) = Unit
Coalesced (c ∷ d ∷ cs) = (chunk_end c ≢ d.addr) × Coalesced (d ∷ cs)

glue-miss : (b : Chunk) (cs : List Chunk) → Coalesced (b ∷ cs) → glue b cs ≡ b ∷ cs
glue-miss b [] k = refl
glue-miss b (c ∷ cs) k = let test : (chunk_end b == c.addr) ≡ false = ground arith in rw test

glue-hit :
    (x y : Chunk) (cs : List Chunk)
    → chunk_end x ≡ y.addr
    → glue x (y ∷ cs) ≡ chunk x.addr (x.units + y.units) ∷ cs
glue-hit x y cs e = let test : (chunk_end x == y.addr) ≡ true = ground arith in rw test

module _ (n : ℕ) (pos : 0 < n) where
  -- The end of a chunk, cut off and put back.
  release-part :
      (lo : ℕ) (c : Chunk) (cs : List Chunk) (hi : ℕ)
      → Sorted lo (c ∷ cs) hi
      → Coalesced (c ∷ cs)
      → n < c.units
      → release_after (chunk c.addr (c.units - n)) (chunk (c.addr + 8 * (c.units - n)) n) cs
        ≡ c ∷ cs
  unfolding release_after
  release-part lo c [] hi o k less =
      let whole : c.units - n + n ≡ c.units = omega arith in
      rw (
        glue-hit (chunk c.addr (c.units - n)) (chunk (c.addr + 8 * (c.units - n)) n) [] refl,
        whole,
      )
  release-part lo c (d ∷ cs) hi o k less =
      let whole : c.units - n + n ≡ c.units = omega arith in
      let low : ltb (c.addr + 8 * (c.units - n)) d.addr ≡ true = ground (arith, o.2.0) in
      let apart : (c.addr + 8 * (c.units - n) + 8 * n == d.addr) ≡ false = ground (arith, k.0) in
      rw (
        low,
        apart,
        glue-hit (chunk c.addr (c.units - n)) (chunk (c.addr + 8 * (c.units - n)) n) (d ∷ cs) refl,
        whole,
      )

  release-exact :
      (lo : ℕ) (q c : Chunk) (cs : List Chunk) (hi : ℕ)
      → Sorted lo (q ∷ c ∷ cs) hi
      → Coalesced (q ∷ c ∷ cs)
      → release_after q c cs ≡ q ∷ c ∷ cs
  unfolding release_after
  release-exact lo q c [] hi o k = glue-miss q (c ∷ []) k
  release-exact lo q c (d ∷ cs) hi o k =
      let low : ltb c.addr d.addr ≡ true = ground (arith, o.2.1, o.2.2.0) in
      rw low (ap (glue q) (glue-miss c (d ∷ cs) k.1) ∙ glue-miss q (c ∷ d ∷ cs) k)

  release_after-cut :
      (lo : ℕ) (q c : Chunk) (cs : List Chunk) (hi : ℕ)
      → Sorted lo (q ∷ c ∷ cs) hi
      → Coalesced (q ∷ c ∷ cs)
      → n ≤ c.units
      → release_after q (chunk (cut n c cs).at n) (cut n c cs).left ≡ q ∷ c ∷ cs
  unfolding release_after
  release_after-cut lo q c cs hi o k fits = elim (Bool-cases (c.units == n)) [
    | inl e ↦
        let same : chunk c.addr n ≡ c = ground arith in
        rw e (rw same (release-exact lo q c cs hi o k))
    | inr e ↦
        let high : ltb (c.addr + 8 * (c.units - n)) c.addr ≡ false = ground arith in
        rw (e, high)
          (ap (◌∷◌ q) (release-part (q.addr + 8 * q.units) c cs hi o.2 k.1 (ground arith)))
  ]

  release_after-keep :
      (q c : Chunk) (g : Fit)
      → c.addr ≤ g.at
      → release_after q (chunk g.at n) (c ∷ g.left) ≡ q ∷ release_after c (chunk g.at n) g.left
  unfolding release_after
  release_after-keep q c g low = let high : ltb g.at c.addr ≡ false = ground arith in rw high

  release_after-first_fit :
      (lo : ℕ) (q : Chunk) (cs : List Chunk) (hi : ℕ) (f : Fit)
      → Sorted lo (q ∷ cs) hi
      → Coalesced (q ∷ cs)
      → first_fit n cs ≡ some f
      → release_after q (chunk f.at n) f.left ≡ q ∷ cs
  unfolding first_fit
  release_after-first_fit lo q [] hi f o k e = cc
  release_after-first_fit lo q (c ∷ cs) hi f o k e = elim (Bool-cases (leb n c.units)) [
    | inl fits ↦
        let same : cut n c cs ≡ f = ground arith in
        rw (← same) (release_after-cut lo q c cs hi o k (leb→le n c.units fits))
    | inr small ↦ elim (Option-cases (first_fit n cs)) [
      | inl none_left ↦ absurd (ground arith)
      | inr (g, found) ↦
          let same : keep c g ≡ f = ground arith in
          let cut_ok = first_fit-IsCut n (c.addr + 8 * c.units) cs hi g pos o.2.2 found in
          rw (← same) (
            release_after-keep q c g (omega (arith, cut_ok.above))
            ∙ ap (◌∷◌ q) (release_after-first_fit (q.addr + 8 * q.units) c cs hi g o.2 k.1 found))
    ]
  ]

  release-whole :
      (lo : ℕ) (c : Chunk) (cs : List Chunk) (hi : ℕ)
      → Sorted lo (c ∷ cs) hi
      → Coalesced (c ∷ cs)
      → release c cs ≡ c ∷ cs
  unfolding release
  release-whole lo c [] hi o k = refl
  release-whole lo c (d ∷ cs) hi o k =
      let low : ltb c.addr d.addr ≡ true = ground (arith, o.1, o.2.0) in
      rw low (glue-miss c (d ∷ cs) k)

  release-cut :
      (lo : ℕ) (c : Chunk) (cs : List Chunk) (hi : ℕ)
      → Sorted lo (c ∷ cs) hi
      → Coalesced (c ∷ cs)
      → n ≤ c.units
      → release (chunk (cut n c cs).at n) (cut n c cs).left ≡ c ∷ cs
  unfolding release
  release-cut lo c cs hi o k fits = elim (Bool-cases (c.units == n)) [
    | inl e ↦
        let same : chunk c.addr n ≡ c = ground arith in
        rw e (rw same (release-whole lo c cs hi o k))
    | inr e ↦
        let high : ltb (c.addr + 8 * (c.units - n)) c.addr ≡ false = ground arith in
        rw (e, high) (release-part lo c cs hi o k (ground arith))
  ]

  release-keep :
      (c : Chunk) (g : Fit)
      → c.addr ≤ g.at
      → release (chunk g.at n) (c ∷ g.left) ≡ release_after c (chunk g.at n) g.left
  unfolding release
  release-keep c g low = let high : ltb g.at c.addr ≡ false = ground arith in rw high

  -- On a free list whose chunks do not touch, releasing the block that was just taken gives back the
  -- same free list.
  pub release-first_fit :
      (lo : ℕ) (cs : List Chunk) (hi : ℕ) (f : Fit)
      → Sorted lo cs hi
      → Coalesced cs
      → first_fit n cs ≡ some f
      → release (chunk f.at n) f.left ≡ cs
  unfolding first_fit release
  release-first_fit lo [] hi f o k e = cc
  release-first_fit lo (c ∷ cs) hi f o k e = elim (Bool-cases (leb n c.units)) [
    | inl fits ↦
        let same : cut n c cs ≡ f = ground arith in
        rw (← same) (release-cut lo c cs hi o k (leb→le n c.units fits))
    | inr small ↦ elim (Option-cases (first_fit n cs)) [
      | inl none_left ↦ absurd (ground arith)
      | inr (g, found) ↦
          let same : keep c g ≡ f = ground arith in
          let cut_ok = first_fit-IsCut n (c.addr + 8 * c.units) cs hi g pos o.2 found in
          rw (← same) (
            release-keep c g (omega (arith, cut_ok.above))
            ∙ release_after-first_fit lo c cs hi g o k found)
    ]
  ]

cut-length : (n : ℕ) (c : Chunk) (cs : List Chunk) → length (cut n c cs).left ≤ length (c ∷ cs)
cut-length n c cs = elim (Bool-cases (c.units == n)) [
  | inl e ↦ rw e (omega arith)
  | inr e ↦ rw e (omega arith)
]

first_fit-length :
    (n : ℕ) (cs : List Chunk) (f : Fit) → first_fit n cs ≡ some f → length f.left ≤ length cs
unfolding first_fit
first_fit-length n [] f e = absurd cc
first_fit-length n (c ∷ cs) f e = elim (Bool-cases (leb n c.units)) [
  | inl fits ↦ let same : cut n c cs ≡ f = ground arith in rw (← same) (cut-length n c cs)
  | inr small ↦ elim (Option-cases (first_fit n cs)) [
    | inl none_left ↦ absurd (ground arith)
    | inr (g, found) ↦
        let same : keep c g ≡ f = ground arith in
        rw (← same) (omega (arith, first_fit-length n cs g found))
  ]
]

-- What becomes of an allocation that is given back at once.
abbrev pub GivesBack : ℕ → MemHeader → Mem → List Chunk → Ptr → Option Allocated → Type 0
GivesBack fuel mh m cs hi none = ⊥
GivesBack fuel mh m cs hi (some a) =
    (a.block ≡ null)
    ⊎ ((r : MemHeader × Mem) × (deallocate fuel a.header a.block a.mem ≡ some r)
        × IsFreeList r.0 r.1 cs hi
        × (r.0.mh_free ≡ mh.mh_free))

gives_back :
    (fuel : ℕ) (mh : MemHeader) (m : Mem) (cs : List Chunk) (hi : Ptr) (n : ℕ) (o : Option Fit)
    (r : Option Allocated)
    → IsFreeList mh m cs hi
    → length cs < fuel
    → 0 < n
    → mh.mh_free < 2 ^ 32
    → Coalesced cs
    → first_fit n cs ≡ o
    → Allocates mh n m hi o r
    → GivesBack fuel mh m cs hi r
gives_back fuel mh m cs hi n none r fl long pos small k e h = rw h (inl refl)
gives_back fuel mh m cs hi n (some f) r fl long pos small k e (a, ran, g) =
    let cut_ok = first_fit-IsCut n (mh.mh_start + 8) cs hi f pos fl.sorted e in
    let start : a.header.mh_start ≡ mh.mh_start = ap MemHeader.mh_start g.header in
    let left : a.header.mh_free ≡ mh.mh_free - n = ap MemHeader.mh_free g.header in
    let enough : n ≤ mh.mh_free = omega (arith, fl.free, cut_ok.units) in
    let fewer = first_fit-length n cs f e in
    let (r, back, rel) =
      deallocate-Releases fuel a.header a.mem (chunk f.at n) f.left hi g.free_list (omega arith) pos
        (omega (arith, start, g.above)) g.apart g.below g.size (omega arith) in
    rw ran (
      inr (
        r,
        rw g.block back,
        subst (λ l. IsFreeList r.0 r.1 l hi)
            (release-first_fit n pos (mh.mh_start + 8) cs hi f fl.sorted k e) rel.free_list,
        omega (arith, rel.free_more),
      ))

-- lib_Allocate answers, and unless it answers NULL, lib_Deallocate of the block restores the free
-- list, if no two of its chunks touch. Fuel beyond the free chunks is enough for both.
pub allocate-deallocate :
    (fuel : ℕ) (mh : MemHeader) (m : Mem) (cs : List Chunk) (hi : Ptr) (nbytes : ℕ)
    → IsFreeList mh m cs hi
    → length cs < fuel
    → nbytes ≢ 0
    → mh.mh_free < 2 ^ 32
    → Coalesced cs
    → GivesBack fuel mh m cs hi (allocate fuel mh nbytes m)
allocate-deallocate fuel mh m cs hi nbytes fl long some_bytes small k =
    gives_back fuel mh m cs hi (nunits nbytes) _ _ fl long (nunits-pos nbytes) small k refl
      (allocate-first_fit mh m cs hi fl fuel nbytes some_bytes long)
