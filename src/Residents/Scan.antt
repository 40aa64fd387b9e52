-- ===== src/Residents/Scan.antt =====
-- What lib_RomTagScanner of src/kickstart/lib.exec/resident.c leaves in ResidentList.
use poweros_raspi.Base.{
  ℕ, zero, suc, ◌+◌, ◌-◌, ◌≤◌, ◌<◌, ◌≡◌, ◌↔◌, ◌⊎◌, inl, inr, refl, Bool, true, List, [], ◌∷◌,
  replicate, ◌==◌, ◌≢◌, arith, Bool-cases, int8_gt,
}
use poweros_raspi.ExecList.{Ptr}
use poweros_raspi.ExecList.Queue.{enqueue_by, IsByPri}
use poweros_raspi.ExecList.Walk.{enqueue_by-IsByPri}
use poweros_raspi.Residents.{Resident, is_tag, scan, rom_tag_scanner}

abbrev pub Member : Ptr → List Ptr → Type 0
Member q [] = ⊥
Member q (x ∷ xs) = (q ≡ x) ⊎ Member q xs

to_enqueued :
    (pri : Ptr → ℕ) (q p : Ptr) (xs : List Ptr)
    → (q ≡ p) ⊎ Member q xs
    → Member q (enqueue_by pri p xs)
to_enqueued pri q p [] (inl e) = inl e
to_enqueued pri q p [] (inr h) = absurd h
to_enqueued pri q p (x ∷ xs) h = elim (Bool-cases (int8_gt (pri p) (pri x))) [
  | inl y ↦ rw y h
  | inr low ↦ rw low (elim h [
    | inl e ↦ inr (to_enqueued pri q p xs (inl e))
    | inr (inl e) ↦ inl e
    | inr (inr m) ↦ inr (to_enqueued pri q p xs (inr m))
  ])
]

from_enqueued :
    (pri : Ptr → ℕ) (q p : Ptr) (xs : List Ptr)
    → Member q (enqueue_by pri p xs)
    → (q ≡ p) ⊎ Member q xs
from_enqueued pri q p [] = λ h. h
from_enqueued pri q p (x ∷ xs) = elim (Bool-cases (int8_gt (pri p) (pri x))) [
  | inl y ↦ rw y (λ h. h)
  | inr low ↦ rw low (λ h. elim h [
    | inl e ↦ inr (inl e)
    | inr m ↦ elim (from_enqueued pri q p xs m) [ inl e ↦ inl e | inr k ↦ inr (inr k) ]
  ])
]

-- A ROM tag at one of the `n` addresses from `p` on.
abbrev pub Tagged : (Ptr → Resident) → Ptr → ℕ → Ptr → Type 0
Tagged rom p n q = (p ≤ q) × (q < p + n) × (is_tag rom q ≡ true)

-- The list holds the tags in the range and what it held before, in the order of priority.
abbrev pub Holds : (Ptr → Resident) → Ptr → ℕ → List Ptr → List Ptr × Bool → Type 0
Holds rom p n mods (l, ok) =
    (ok ≡ true)
    × IsByPri (λ q. (rom q).rt_pri) l
    × ((q : Ptr) → Member q l ↔ (Tagged rom p n q ⊎ Member q mods))

later : (rom : Ptr → Resident) (p n q : ℕ) → Tagged rom (p + 1) n q → Tagged rom p (suc n) q
later rom p n q (le, lt, e) = (omega arith, omega arith, e)

now_or_later :
    (rom : Ptr → Resident) (p n q : ℕ)
    → Tagged rom p (suc n) q
    → ((q ≡ p) × (is_tag rom p ≡ true)) ⊎ Tagged rom (p + 1) n q
now_or_later rom p n q (le, lt, e) = elim (Bool-cases (q == p)) [
  | inl y ↦ let same : q ≡ p = ground arith in inl (same, rw (← same) e)
  | inr other ↦ let ne : q ≢ p = ground arith in inr (omega arith, omega arith, e)
]

pub scan-Holds :
    (rom : Ptr → Resident) (n : ℕ) (p : Ptr) (j : ℕ) (mods : List Ptr)
    → n ≤ j
    → IsByPri (λ q. (rom q).rt_pri) mods
    → Holds rom p n mods (scan rom n p (replicate j true) mods)
unfolding scan
scan-Holds rom zero p j mods le sorted = (
  refl,
  sorted,
  λ q. (λ h. inr h, λ h. elim h [ inl (lo, hi, e) ↦ absurd (omega arith) | inr m ↦ m ]),
)
scan-Holds rom (suc n) p zero mods le sorted = absurd (omega arith)
scan-Holds rom (suc n) p (suc j) mods le sorted = elim (Bool-cases (is_tag rom p)) [
  | inl y ↦
      let pri : Ptr → ℕ = λ q. (rom q).rt_pri in
      let (ok, by_pri, members) =
        scan-Holds rom n (p + 1) j (enqueue_by pri p mods) (omega arith)
          (enqueue_by-IsByPri pri p mods sorted) in
      rw y (
        ok,
        by_pri,
        λ q.
            let (there, back) = members q in
            (
              λ h. elim (there h) [
                | inl t ↦ inl (later rom p n q t)
                | inr m ↦ elim (from_enqueued pri q p mods m) [
                  | inl e ↦ inl (omega arith, omega arith, rw e y)
                  | inr k ↦ inr k
                ]
              ],
              λ h. elim h [
                | inl t ↦ elim (now_or_later rom p n q t) [
                  | inl (e, t) ↦ back (inr (to_enqueued pri q p mods (inl e)))
                  | inr l ↦ back (inl l)
                ]
                | inr m ↦ back (inr (to_enqueued pri q p mods (inr m)))
              ],
            ),
      )
  | inr other ↦
      let (ok, by_pri, members) = scan-Holds rom n (p + 1) (suc j) mods (omega arith) sorted in
      rw other (
        ok,
        by_pri,
        λ q.
            let (there, back) = members q in
            (
              λ h. elim (there h) [ inl t ↦ inl (later rom p n q t) | inr m ↦ inr m ],
              λ h. elim h [
                | inl t ↦ elim (now_or_later rom p n q t) [
                  | inl (e, t) ↦ absurd cc
                  | inr l ↦ back (inl l)
                ]
                | inr m ↦ back (inr m)
              ],
            ),
      )
]

-- When AllocVec gives a node for each, RomTagScanner returns TRUE and ResidentList has just the ROM tags from `start` to
-- `end` and those it had before, none behind one of a lower priority.
pub rom_tag_scanner-Holds :
    (rom : Ptr → Resident) (start end j : ℕ) (mods : List Ptr)
    → suc end - start ≤ j
    → IsByPri (λ q. (rom q).rt_pri) mods
    → Holds rom start (suc end - start) mods (rom_tag_scanner rom start end (replicate j true) mods)
unfolding rom_tag_scanner
rom_tag_scanner-Holds rom start end j mods le sorted =
    scan-Holds rom (suc end - start) start j mods le sorted
