-- ===== src/Base/Masks.antt =====
-- UINT32 values that the code only uses as sets of bits: a mask says for each bit whether it is set.
use Prim.Native.Nat.{ℕ, zero, suc, ◌<◌}
use mathlib.Core.Path.{◌≡◌, refl}
use mathlib.Core.Logic.{inl, inr}
use mathlib.Core.Bool.{Bool, true, false, not, ◌&&◌, ◌||◌}
use native.Mathlib.Omega.{arith}
use poweros_raspi.Base.Tests.{◌==◌, Bool-cases}

abbrev pub Mask : Type 0
Mask = ℕ → Bool

abbrev pub mask_none : Mask
mask_none i = false

abbrev pub mask_and : Mask → Mask → Mask
mask_and a b i = a i && b i

abbrev pub mask_or : Mask → Mask → Mask
mask_or a b i = a i || b i

abbrev pub mask_not : Mask → Mask
mask_not a i = not (a i)

-- `1 << n`
abbrev pub mask_bit : ℕ → Mask
mask_bit n i = n == i

-- Some bit below `n` is set.
pub any_below : ℕ → Mask → Bool
any_below zero m = false
any_below (suc n) m = m n || any_below n m

-- The test `m != 0` on a UINT32.
unfoldable pub non_zero : Mask → Bool
unfolding any_below
non_zero m = any_below 32 m

any_below-intro : (n : ℕ) (m : Mask) (i : ℕ) → i < n → m i ≡ true → any_below n m ≡ true
unfolding any_below
any_below-intro zero m i lt e = absurd (omega arith)
any_below-intro (suc n) m i lt e = ground (arith, any_below-intro n m i)

any_below-elim : (n : ℕ) (m : Mask) → any_below n m ≡ true → (i : ℕ) × (i < n) × (m i ≡ true)
unfolding any_below
any_below-elim zero m e = absurd (ground arith)
any_below-elim (suc n) m e = elim_bit n m (m n) refl (any_below-elim n m) e
  where
    elim_bit :
        (n : ℕ) (m : Mask) (b : Bool)
        → m n ≡ b
        → (any_below n m ≡ true → (i : ℕ) × (i < n) × (m i ≡ true))
        → (b || any_below n m) ≡ true
        → (i : ℕ) × (i < suc n) × (m i ≡ true)
    elim_bit n m true q ih e = (n, omega arith, q)
    elim_bit n m false q ih e = let (i, lt, set) = ih e in (i, omega arith, set)

pub non_zero-intro : (m : Mask) (i : ℕ) → i < 32 → m i ≡ true → non_zero m ≡ true
unfolding non_zero
non_zero-intro m i lt e = any_below-intro 32 m i lt e

pub non_zero-elim : (m : Mask) → non_zero m ≡ true → (i : ℕ) × (i < 32) × (m i ≡ true)
unfolding non_zero
non_zero-elim m e = any_below-elim 32 m e

both_ways : (m s : Bool) → (m && not s && s) ≡ true → ⊥
both_ways true true e = cc
both_ways true false e = cc
both_ways false s e = cc

-- A mask without the bits of `s` has none of them.
pub non_zero-cleared : (m s : Mask) → non_zero (mask_and (mask_and m (mask_not s)) s) ≡ false
non_zero-cleared m s = elim (Bool-cases (non_zero (mask_and (mask_and m (mask_not s)) s))) [
  | inl y ↦
      let (i, lt, set) = non_zero-elim (mask_and (mask_and m (mask_not s)) s) y in
      absurd (both_ways (m i) (s i) set)
  | inr n ↦ n
]
