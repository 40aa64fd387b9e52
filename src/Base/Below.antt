-- ===== src/Base/Below.antt =====
-- Tests of all numbers below a bound, which settle statements on bytes and bits by running through them.
use Prim.Native.Nat.{ℕ, zero, suc, ◌<◌}
use mathlib.Core.Path.{◌≡◌, refl}
use mathlib.Core.Logic.{inl, inr}
use mathlib.Core.Bool.{Bool, true, false, ◌&&◌}
use native.Mathlib.Omega.{arith}
use poweros_raspi.Base.Tests.{◌==◌, Bool-cases}

-- A test that holds for all numbers below `n`.
unfoldable pub all_below : ℕ → (ℕ → Bool) → Bool
all_below zero t = true
all_below (suc n) t = t n && all_below n t

pub and_left : (a b : Bool) → (a && b) ≡ true → a ≡ true
and_left true b e = refl
and_left false b e = e

pub and_right : (a b : Bool) → (a && b) ≡ true → b ≡ true
and_right true b e = e
and_right false b e = absurd cc

pub all_below-elim : (n : ℕ) (t : ℕ → Bool) → all_below n t ≡ true → (i : ℕ) → i < n → t i ≡ true
unfolding all_below
all_below-elim zero t all i lt = absurd (omega arith)
all_below-elim (suc n) t all i lt = elim (Bool-cases (i == n)) [
  | inl y ↦ let same : i ≡ n = ground arith in rw same (and_left (t n) (all_below n t) all)
  | inr other ↦ all_below-elim n t (and_right (t n) (all_below n t) all) i (ground arith)
]
