-- ===== src/Memory/FreeList.antt =====
-- What the free list of a MemHeader stands for: its chunks in the order of their addresses.
use poweros_raspi.Base.{ℕ, ◌+◌, ◌*◌, ◌≤◌, ◌<◌, ◌≡◌, ◌⊎◌, inl, refl, ◌∙◌, List, [], ◌∷◌, arith}
use poweros_raspi.ExecList.{Ptr, Mem}
use poweros_raspi.Memory.{MemHeader}

pub record Chunk : Type 0 where
  pub addr : Ptr
  pub units : ℕ

abbrev pub chunk : Ptr → ℕ → Chunk
chunk a n = record { addr = a; units = n }

-- The first byte behind the chunk.
abbrev pub chunk_end : Chunk → Ptr
chunk_end c = c.addr + 8 * c.units

abbrev pub head_addr : List Chunk → Ptr → Ptr
head_addr [] s = s
head_addr (c ∷ cs) s = c.addr

-- From `a` the mc_Next words lead through the chunks back to `s`.
abbrev pub Links : Mem → Ptr → List Chunk → Ptr → Type 0
Links m a [] s = m a ≡ s
Links m a (c ∷ cs) s = (m a ≡ c.addr) × (m (c.addr + 4) ≡ c.units) × Links m c.addr cs s

-- The chunks are not empty, lie from `lo` to `hi` in ascending order, and do not overlap.
abbrev pub Sorted : Ptr → List Chunk → Ptr → Type 0
Sorted lo [] hi = lo ≤ hi
Sorted lo (c ∷ cs) hi = (lo ≤ c.addr) × (0 < c.units) × Sorted (c.addr + 8 * c.units) cs hi

abbrev pub total : List Chunk → ℕ
total [] = 0
total (c ∷ cs) = c.units + total cs

-- The header's free list holds the chunks `cs`, below the address `hi`.
pub record IsFreeList (mh : MemHeader) (m : Mem) (cs : List Chunk) (hi : Ptr) : Type 0 where
  pub start_empty : m (mh.mh_start + 4) ≡ 0
  pub links : Links m mh.mh_start cs mh.mh_start
  pub sorted : Sorted (mh.mh_start + 8) cs hi
  pub free : mh.mh_free ≡ total cs

-- The block from `b` of `n` units overlaps none of the chunks.
abbrev pub Apart : Ptr → ℕ → List Chunk → Type 0
Apart b n [] = Unit
Apart b n (c ∷ cs) = ((b + 8 * n ≤ c.addr) ⊎ (c.addr + 8 * c.units ≤ b)) × Apart b n cs

pub Sorted-le : (lo : Ptr) (cs : List Chunk) (hi : Ptr) → Sorted lo cs hi → lo ≤ hi
Sorted-le lo [] hi h = h
Sorted-le lo (c ∷ cs) hi h = omega (arith, Sorted-le (c.addr + 8 * c.units) cs hi h.2)

pub Sorted-weaken :
    (lo lo' : Ptr) (cs : List Chunk) (hi : Ptr) → lo' ≤ lo → Sorted lo cs hi → Sorted lo' cs hi
Sorted-weaken lo lo' [] hi p h = omega arith
Sorted-weaken lo lo' (c ∷ cs) hi p h = (omega arith, h.1, h.2)

-- Stores below the chunks and off the link word keep the links.
pub Links-frame :
    (m m' : Mem) (a lo : Ptr) (cs : List Chunk) (s hi : Ptr)
    → Sorted lo cs hi
    → ((w : Ptr) → (w ≡ a) ⊎ (lo ≤ w) → m' w ≡ m w)
    → Links m a cs s
    → Links m' a cs s
Links-frame m m' a lo [] s hi o same k = same a (inl refl) ∙ k
Links-frame m m' a lo (c ∷ cs) s hi o same k = (
  same a (inl refl) ∙ k.0,
  same (c.addr + 4) (omega arith) ∙ k.1,
  Links-frame m m' c.addr (c.addr + 8 * c.units) cs s hi o.2 (λ w p. same w (omega arith)) k.2,
)
