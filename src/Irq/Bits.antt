-- ===== src/Irq/Bits.antt =====
-- The number of a pending bit in src/kickstart/lib.exec/intserver.c, by multiplication and a table.
use poweros_raspi.Base.{ℕ, ◌^◌, ◌<◌, ◌≡◌, refl, true, ◌==◌, arith, all_below, all_below-elim}
use poweros_raspi.Irq.{bit_positions, bit_number}

all_single : all_below 32 (λ n. bit_number (2 ^ n) == n) ≡ true
unfolding bit_number bit_positions all_below
all_single = refl

-- The table finds the bit of every word that has just one.
pub bit_number-single : (n : ℕ) → n < 32 → bit_number (2 ^ n) ≡ n
bit_number-single n lt =
    let found : (bit_number (2 ^ n) == n) ≡ true =
      all_below-elim 32 (λ n. bit_number (2 ^ n) == n) all_single n lt in
    ground arith

-- With the bits 0 and 1 pending it finds bit 28, which is not.
pub bit_number-both : bit_number 3 ≡ 28
unfolding bit_number bit_positions
bit_number-both = refl
