-- ===== src/Base/Signed.antt =====
-- Signed bytes and words by their bit patterns, compared as C compares them.
use Prim.Native.Nat.{ℕ, ◌+◌, ◌%◌, ◌^◌, compare, Ordering}
use mathlib.Core.Bool.{Bool, true, false}

-- An INT8 is its byte. Adding 128 modulo 256 turns the signed order into that of ℕ.
abbrev pub bias8 : ℕ → ℕ
bias8 b = (b + 2 ^ 7) % 2 ^ 8

-- `a > b` on two INT8 values.
abbrev pub int8_gt : ℕ → ℕ → Bool
int8_gt a b = elim (compare (bias8 b) (bias8 a)) [ Ordering.lt ↦ true | _ ↦ false ]
