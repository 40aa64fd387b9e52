-- ===== src/Memory/Release.antt =====
-- What lib_Deallocate does on the chunks alone: the block goes to its place by address, and is
-- merged with the chunks that it touches.
use poweros_raspi.Base.{
  ℕ, ◌+◌, ◌*◌, ◌≤◌, ◌<◌, ◌≡◌, refl, inl, inr, List, [], ◌∷◌, arith, ◌==◌, ltb, if◌then◌else◌,
  Bool-cases, ltb→lt, ltb→le,
}
use poweros_raspi.ExecList.{Ptr}
use poweros_raspi.Memory.FreeList.{Chunk, chunk, chunk_end, Sorted, Sorted-weaken, Apart, total}

abbrev pub glue_units : Chunk → List Chunk → ℕ
glue_units b [] = b.units
glue_units b (c ∷ cs) = if chunk_end b == c.addr then b.units + c.units else b.units

abbrev pub glue_rest : Chunk → List Chunk → List Chunk
glue_rest b [] = []
glue_rest b (c ∷ cs) = if chunk_end b == c.addr then cs else c ∷ cs

-- `b` in front of the chunks, merged with the first one if that begins where `b` ends.
abbrev pub glue : Chunk → List Chunk → List Chunk
glue b cs = chunk b.addr (glue_units b cs) ∷ glue_rest b cs

-- The same behind a chunk `p` that begins below `b`.
unfoldable pub release_after : Chunk → Chunk → List Chunk → List Chunk
release_after p b [] = glue p (glue b [])
release_after p b (c ∷ cs) =
    if ltb b.addr c.addr then glue p (glue b (c ∷ cs)) else p ∷ release_after c b cs

unfoldable pub release : Chunk → List Chunk → List Chunk
unfolding release_after
release b [] = glue b []
release b (c ∷ cs) = if ltb b.addr c.addr then glue b (c ∷ cs) else release_after c b cs

pub glue-Sorted :
    (lo : Ptr) (b : Chunk) (cs : List Chunk) (hi : Ptr)
    → Sorted lo (b ∷ cs) hi
    → Sorted lo (glue b cs) hi
glue-Sorted lo b [] hi h = h
glue-Sorted lo b (c ∷ cs) hi h = elim (Bool-cases (chunk_end b == c.addr)) [
  | inl e ↦
      let touch : b.addr + 8 * b.units ≡ c.addr = ground arith in
      rw e (h.0, omega arith, Sorted-weaken (c.addr + 8 * c.units) _ cs hi (omega arith) h.2.2)
  | inr e ↦ rw e h
]

pub total-glue : (b : Chunk) (cs : List Chunk) → total (glue b cs) ≡ b.units + total cs
total-glue b [] = refl
total-glue b (c ∷ cs) = ground arith

pub release_after-Sorted :
    (lo : Ptr) (p b : Chunk) (cs : List Chunk) (hi : Ptr)
    → Sorted lo (p ∷ cs) hi
    → p.addr < b.addr
    → 0 < b.units
    → chunk_end b ≤ hi
    → Apart b.addr b.units (p ∷ cs)
    → Sorted lo (release_after p b cs) hi
unfolding release_after
release_after-Sorted lo p b [] hi h above pos end a =
    glue-Sorted lo p (glue b []) hi (h.0, h.1, (omega arith, pos, end))
release_after-Sorted lo p b (c ∷ cs) hi h above pos end a = elim (Bool-cases (ltb b.addr c.addr)) [
  | inl e ↦
      let low : b.addr < c.addr = ground arith in
      rw e (
        glue-Sorted lo p (glue b (c ∷ cs)) hi (
          h.0,
          h.1,
          glue-Sorted (p.addr + 8 * p.units) b (c ∷ cs) hi
              (omega arith, pos, (omega arith, h.2.1, h.2.2)),
        ))
  | inr e ↦
      let high : c.addr < b.addr = omega (arith, ltb→le b.addr c.addr e) in
      rw e (h.0, h.1, release_after-Sorted (p.addr + 8 * p.units) c b cs hi h.2 high pos end a.1)
]

pub release-Sorted :
    (lo : Ptr) (b : Chunk) (cs : List Chunk) (hi : Ptr)
    → Sorted lo cs hi
    → lo ≤ b.addr
    → 0 < b.units
    → chunk_end b ≤ hi
    → Apart b.addr b.units cs
    → Sorted lo (release b cs) hi
unfolding release
release-Sorted lo b [] hi h above pos end a = (above, pos, end)
release-Sorted lo b (c ∷ cs) hi h above pos end a = elim (Bool-cases (ltb b.addr c.addr)) [
  | inl e ↦
      let low = ltb→lt b.addr c.addr e in
      rw e (glue-Sorted lo b (c ∷ cs) hi (above, pos, (omega arith, h.1, h.2)))
  | inr e ↦
      let high : c.addr < b.addr = omega (arith, ltb→le b.addr c.addr e) in
      rw e (release_after-Sorted lo c b cs hi h high pos end a)
]

total-release_after :
    (p b : Chunk) (cs : List Chunk) → total (release_after p b cs) ≡ p.units + (b.units + total cs)
unfolding release_after
total-release_after p b [] = omega (arith, total-glue p (glue b []))
total-release_after p b (c ∷ cs) = elim (Bool-cases (ltb b.addr c.addr)) [
  | inl e ↦ rw e (omega (arith, total-glue p (glue b (c ∷ cs)), total-glue b (c ∷ cs)))
  | inr e ↦ rw e (omega (arith, total-release_after c b cs))
]

pub total-release : (b : Chunk) (cs : List Chunk) → total (release b cs) ≡ b.units + total cs
unfolding release
total-release b [] = refl
total-release b (c ∷ cs) = elim (Bool-cases (ltb b.addr c.addr)) [
  | inl e ↦ rw e (total-glue b (c ∷ cs))
  | inr e ↦ rw e (omega (arith, total-release_after c b cs))
]
