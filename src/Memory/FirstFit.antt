-- ===== src/Memory/FirstFit.antt =====
-- The choice of lib_Allocate on the chunks alone: the end of the first chunk that is large enough.
use mathlib.Core.Option
use poweros_raspi.Base.{
  ℕ, ◌+◌, ◌-◌, ◌*◌, ◌≤◌, ◌<◌, ◌≡◌, Bool-cases, inl, inr, Option, none, some, List, [], ◌∷◌, arith,
  ◌==◌, if◌then◌else◌, leb, Option-cases,
}
use poweros_raspi.ExecList.{Ptr}
use poweros_raspi.Memory.FreeList.{Chunk, chunk, Sorted, Sorted-le, Sorted-weaken, Apart, total}

-- The block taken, and the chunks left.
pub record Fit : Type 0 where
  pub at : Ptr
  pub left : List Chunk

abbrev pub keep : Chunk → Fit → Fit
keep c f = record { at = f.at; left = c ∷ f.left }

abbrev pub cut : ℕ → Chunk → List Chunk → Fit
cut n c cs =
    if c.units == n
    then record { at = c.addr; left = cs }
    else record { at = c.addr + 8 * (c.units - n); left = chunk c.addr (c.units - n) ∷ cs }

unfoldable pub first_fit : ℕ → List Chunk → Option Fit
first_fit n [] = none
first_fit n (c ∷ cs) =
    if leb n c.units then some (cut n c cs) else Option.map (keep c) (first_fit n cs)

-- The block of `n` units is inside the area, apart from the chunks left, which are as many units
-- fewer and still in order.
pub record IsCut (n : ℕ) (lo : Ptr) (cs : List Chunk) (hi : Ptr) (f : Fit) : Type 0 where
  pub sorted : Sorted lo f.left hi
  pub units : total cs ≡ total f.left + n
  pub apart : Apart f.at n f.left
  pub above : lo ≤ f.at
  pub below : f.at + 8 * n ≤ hi

Apart-below :
    (b n lo : ℕ) (cs : List Chunk) (hi : ℕ) → b + 8 * n ≤ lo → Sorted lo cs hi → Apart b n cs
Apart-below b n lo [] hi p h = tt
Apart-below b n lo (c ∷ cs) hi p h =
    (inl (omega arith), Apart-below b n (c.addr + 8 * c.units) cs hi (omega arith) h.2)

cut-IsCut :
    (n : ℕ) (lo : Ptr) (c : Chunk) (cs : List Chunk) (hi : Ptr)
    → 0 < n
    → n ≤ c.units
    → Sorted lo (c ∷ cs) hi
    → IsCut n lo (c ∷ cs) hi (cut n c cs)
cut-IsCut n lo c cs hi pos fits h =
    let end = Sorted-le (c.addr + 8 * c.units) cs hi h.2 in
    elim (Bool-cases (c.units == n)) [
      | inl e ↦
          let same : c.units ≡ n = ground arith in
          rw e (record {
            sorted = Sorted-weaken (c.addr + 8 * c.units) lo cs hi (omega arith) h.2;
            units = omega arith;
            apart = Apart-below c.addr n (c.addr + 8 * c.units) cs hi (omega arith) h.2;
            above = h.0;
            below = omega arith;
          })
      | inr e ↦
          let more : n < c.units = ground arith in
          rw e (record {
            sorted = (
              h.0,
              omega arith,
              Sorted-weaken (c.addr + 8 * c.units) (c.addr + 8 * (c.units - n)) cs hi (omega arith)
                  h.2,
            );
            units = omega arith;
            apart = (
              inr (omega arith),
              Apart-below (c.addr + 8 * (c.units - n)) n (c.addr + 8 * c.units) cs hi (omega arith)
                  h.2,
            );
            above = omega arith;
            below = omega arith;
          })
    ]

pub first_fit-IsCut :
    (n : ℕ) (lo : Ptr) (cs : List Chunk) (hi : Ptr) (f : Fit)
    → 0 < n
    → Sorted lo cs hi
    → first_fit n cs ≡ some f
    → IsCut n lo cs hi f
unfolding first_fit
first_fit-IsCut n lo [] hi f pos h e = absurd (cc)
first_fit-IsCut n lo (c ∷ cs) hi f pos h e = elim (Bool-cases (leb n c.units)) [
  | inl fits ↦
      let same : cut n c cs ≡ f = ground arith in
      rw (← same) (cut-IsCut n lo c cs hi pos (ground arith) h)
  | inr small ↦ elim (Option-cases (first_fit n cs)) [
    | inl none_left ↦ absurd (ground arith)
    | inr (g, found) ↦
        let same : keep c g ≡ f = ground arith in
        let ih = first_fit-IsCut n (c.addr + 8 * c.units) cs hi g pos h.2 found in
        rw (← same) (record {
          sorted = (h.0, h.1, ih.sorted);
          units = omega (arith, ih.units);
          apart = (inr (omega (arith, ih.above)), ih.apart);
          above = omega (arith, ih.above);
          below = ih.below;
        })
  ]
]
