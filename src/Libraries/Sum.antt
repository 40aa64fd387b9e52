-- ===== src/Libraries/Sum.antt =====
-- SumLibrary of src/kickstart/lib.exec/library.c: the sum that it makes.
use mathlib.Core.Option
use poweros_raspi.Base.{
  ℕ, suc, ◌+◌, ◌≤◌, ◌<◌, ◌^◌, ◌≡◌, refl, Bool, true, false, not, some, [], ◌∷◌, ◌==◌, ltb, bit_or,
  u32, arith, all_below, all_below-elim, Bool-cases, inl, inr,
}
use poweros_raspi.ExecList.{Ptr, Mem}
use poweros_raspi.Libraries.{
  Kernel, libf_summing, libf_changed, libf_sumused, clear, flag, set_sum, forbidden, permitted,
  sum_words, passes, check_sum, sum_library, start_pass, end_pass,
}

-- The flags after a pass in which no other task touches them.
abbrev passed : ℕ → ℕ
passed f = clear (clear (bit_or f libf_summing) libf_changed) libf_summing

unchanged_below : all_below 32 (λ f. not (flag (passed f) libf_changed)) ≡ true
unfolding all_below
unchanged_below = refl

not_both : (b : Bool) → b ≡ true → not b ≡ true → ⊥
not_both true e f = absurd cc
not_both false e f = absurd cc

passed-unchanged : (f : ℕ) → f < 32 → flag (passed f) libf_changed ≡ false
passed-unchanged f lt =
    let t = all_below-elim 32 (λ f. not (flag (passed f) libf_changed)) unchanged_below f lt in
    elim (Bool-cases (flag (passed f) libf_changed)) [
      | inl y ↦ absurd (not_both (flag (passed f) libf_changed) y t)
      | inr other ↦ other
    ]

-- The loop starts above the library, and so it ends at once.
sum_words-above :
    (k : ℕ) (m : Mem) (lp library : Ptr) → library ≤ lp → sum_words (suc k) m lp library 0 ≡ some 0
unfolding sum_words
sum_words-above k m lp library le = let over : ltb lp library ≡ false = ground arith in rw over refl

-- The library uses a checksum and was changed, and no task is at summing it.
pub record IsChanged (l : Ptr) (s : Kernel) : Type 0 where
  pub small : (s.library l).lib_flags < 32
  pub fits : l + (s.library l).lib_neg_size < 2 ^ 32
  pub sumused : flag (s.library l).lib_flags libf_sumused ≡ true
  pub changed : flag (s.library l).lib_flags libf_changed ≡ true
  pub free : flag (s.library l).lib_flags libf_summing ≡ false

flags_after :
    (l : Ptr) (s : Kernel)
    → (s.library l).lib_flags < 32
    → flag ((end_pass l (start_pass l s)).library l).lib_flags libf_changed ≡ false
unfolding forbidden permitted
flags_after l s small =
    let here : (l == l) ≡ true = ground arith in
    rw here (passed-unchanged (s.library l).lib_flags small)

sum_zero :
    (k : ℕ) (l : Ptr) (s : Kernel)
    → l + (s.library l).lib_neg_size < 2 ^ 32
    → sum_words
        (suc k)
        (start_pass l s).memory
        (u32 (l + ((start_pass l s).library l).lib_neg_size))
        l
        0
      ≡ some 0
unfolding permitted
sum_zero k l s fits =
    let here : (l == l) ≡ true = ground arith in
    rw here (sum_words-above k s.memory (u32 (l + (s.library l).lib_neg_size)) l (omega arith))

one_pass :
    (k : ℕ) (l : Ptr) (s : Kernel)
    → (s.library l).lib_flags < 32
    → l + (s.library l).lib_neg_size < 2 ^ 32
    → passes (suc k) ((λ t. t) ∷ []) l s
      ≡ some (end_pass l (start_pass l s), (s.library l).lib_flags, 0)
unfolding passes Option.bind
one_pass k l s small fits = rw (sum_zero k l s fits, flags_after l s small) refl

checked :
    (l : Ptr) (old sum : ℕ) (s : Kernel)
    → flag old libf_changed ≡ true
    → check_sum l (s, old, sum) ≡ some (set_sum l sum s)
checked l old sum s e = rw e refl

-- The checksum that SumLibrary gives to a library that was changed is 0, whatever its vectors are.
pub sum_library-zero :
    (k : ℕ) (l : Ptr) (s : Kernel)
    → IsChanged l s
    → (t : Kernel) × (sum_library (suc k) ((λ t. t) ∷ []) l s ≡ some t)
      × ((t.library l).lib_sum ≡ 0)
      × (flag (t.library l).lib_flags libf_changed ≡ false)
unfolding sum_library Option.bind forbidden permitted
sum_library-zero k l s c =
    let here : (l == l) ≡ true = ground arith in
    let s1 = forbidden s in
    let summed = one_pass k l s1 c.small c.fits in
    let set = checked l (s.library l).lib_flags 0 (end_pass l (start_pass l s1)) c.changed in
    (
      permitted (set_sum l 0 (end_pass l (start_pass l s1))),
      rw (c.sumused, c.free, summed, set) refl,
      rw here refl,
      rw here (passed-unchanged (s.library l).lib_flags c.small),
    )
