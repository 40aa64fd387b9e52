-- ===== src/Util/Strings/Compare.antt =====
-- The lengths and comparisons of src/kickstart/lib.util/cstr.c against the characters of the strings.
use mathlib.Core.Path.{sym, ◌∙◌}
use poweros_raspi.Base.{
  ℕ, zero, suc, ◌+◌, ◌<◌, ◌^◌, ◌≡◌, ◌≢◌, ◌↔◌, refl, ap, min, true, false, some, List, [], ◌∷◌, map,
  ◌==◌, if◌then◌else◌, sub32, length, take, length-take_le, arith, Bool-cases, inl, inr,
}
use poweros_raspi.ExecList.{Ptr}
use poweros_raspi.Util.Chars.{to_lower, to_lower-zero, to_lower-byte, to_lower-nonzero}
use poweros_raspi.Util.Strings.{
  Bytes, IsString, end_of, strlen, end_within, strnlen, stops, stricmp, compare_loop, strnicmp,
}

pub end_of-IsString :
    (n : ℕ) (m : Bytes) (p : Ptr) (xs : List ℕ)
    → length xs < n
    → IsString m p xs
    → end_of n m p ≡ some (p + length xs)
unfolding end_of
end_of-IsString zero m p xs lt h = absurd (omega arith)
end_of-IsString (suc n) m p [] lt h =
    let at : (m p == 0) ≡ true = ground arith in rw at (ap some (omega arith))
end_of-IsString (suc n) m p (x ∷ xs) lt (e, pos, byte, h) =
    let at : (m p == 0) ≡ false = ground arith in
    rw at (end_of-IsString n m (p + 1) xs (omega arith) h ∙ ap some (omega arith))

-- Strlen of a string that ends below 2 ^ 32 is its number of chars.
pub strlen-length :
    (n : ℕ) (m : Bytes) (p : Ptr) (xs : List ℕ)
    → length xs < n
    → p + length xs < 2 ^ 32
    → IsString m p xs
    → strlen n m p ≡ some (length xs)
unfolding strlen
strlen-length n m p xs lt small h = rw (end_of-IsString n m p xs lt h) (ap some (omega arith))

end_within-IsString :
    (n : ℕ) (m : Bytes) (p : Ptr) (xs : List ℕ)
    → IsString m p xs
    → end_within n m p ≡ p + min (length xs) n
unfolding end_within
end_within-IsString zero m p xs h = omega arith
end_within-IsString (suc n) m p [] h =
    let at : (m p == 0) ≡ true = ground arith in rw at (omega arith)
end_within-IsString (suc n) m p (x ∷ xs) (e, pos, byte, h) =
    let at : (m p == 0) ≡ false = ground arith in
    rw at (omega (arith, end_within-IsString n m (p + 1) xs h))

-- Strnlen is the number of chars, but at most the count.
pub strnlen-min :
    (m : Bytes) (p : Ptr) (xs : List ℕ) (count : ℕ)
    → p + length xs < 2 ^ 32
    → IsString m p xs
    → strnlen m p count ≡ min (length xs) count
unfolding strnlen
strnlen-min m p xs count small h = omega (arith, end_within-IsString count m p xs h)

-- The difference of the first two lower-case letters that differ, with 0 behind the end.
abbrev pub difference : List ℕ → List ℕ → ℕ
difference [] [] = 0
difference [] (y ∷ ys) = sub32 0 (to_lower y)
difference (x ∷ xs) [] = sub32 (to_lower x) 0
difference (x ∷ xs) (y ∷ ys) =
    if to_lower x == to_lower y then difference xs ys else sub32 (to_lower x) (to_lower y)

pub stricmp-difference :
    (n : ℕ) (m : Bytes) (p q : Ptr) (xs ys : List ℕ)
    → length xs < n
    → IsString m p xs
    → IsString m q ys
    → stricmp n m p q ≡ some (difference xs ys)
unfolding stricmp
stricmp-difference zero m p q xs ys lt h k = absurd (omega arith)
stricmp-difference (suc n) m p q [] [] lt h k = rw (h, k, to_lower-zero) refl
stricmp-difference (suc n) m p q [] (y ∷ ys) lt h (e, pos, byte, k) =
    let low = to_lower-nonzero y byte (omega arith) in
    let small = to_lower-byte y byte in
    let stop : stops (sub32 0 (to_lower y)) (to_lower y) ≡ true = ground arith in
    rw (h, e, to_lower-zero, stop) refl
stricmp-difference (suc n) m p q (x ∷ xs) [] lt (e, pos, byte, h) k =
    let low = to_lower-nonzero x byte (omega arith) in
    let small = to_lower-byte x byte in
    let stop : stops (sub32 (to_lower x) 0) 0 ≡ true = ground arith in
    rw (k, e, to_lower-zero, stop) refl
stricmp-difference (suc n) m p q (x ∷ xs) (y ∷ ys) lt (e, pos, byte, h) (f, pos2, byte2, k) =
    let low = to_lower-nonzero y byte2 (omega arith) in
    let small = to_lower-byte x byte in
    let small2 = to_lower-byte y byte2 in
    elim (Bool-cases (to_lower x == to_lower y)) [
      | inl same ↦
          let go : stops (sub32 (to_lower x) (to_lower y)) (to_lower y) ≡ false = ground arith in
          rw (e, f, go, same) (stricmp-difference n m (p + 1) (q + 1) xs ys (omega arith) h k)
      | inr other ↦
          let stop : stops (sub32 (to_lower x) (to_lower y)) (to_lower y) ≡ true = ground arith in
          rw (e, f, stop, other) refl
    ]

-- All chars are bytes and none is the terminator, as in a string.
abbrev pub Chars : List ℕ → Type 0
Chars [] = Unit
Chars (x ∷ xs) = (0 < x) × (x < 256) × Chars xs

IsString-Chars : (m : Bytes) (p : Ptr) (xs : List ℕ) → IsString m p xs → Chars xs
IsString-Chars m p [] h = tt
IsString-Chars m p (x ∷ xs) (e, pos, byte, h) = (pos, byte, IsString-Chars m (p + 1) xs h)

abbrev head_or : List ℕ → ℕ
head_or [] = 0
head_or (x ∷ xs) = x

abbrev rest_of : List ℕ → List ℕ
rest_of [] = []
rest_of (x ∷ xs) = xs

difference-zero :
    (xs ys : List ℕ)
    → Chars xs
    → Chars ys
    → (difference xs ys ≡ 0) ↔ (map to_lower xs ≡ map to_lower ys)
difference-zero [] [] cx cy = (λ e. refl, λ e. refl)
difference-zero [] (y ∷ ys) cx (pos, byte, cy) =
    let low = to_lower-nonzero y byte (omega arith) in
    let small = to_lower-byte y byte in
    (
      λ e. absurd (omega arith),
      λ e. let bad : 0 ≡ to_lower y = ap head_or e in absurd (omega arith),
    )
difference-zero (x ∷ xs) [] (pos, byte, cx) cy =
    let low = to_lower-nonzero x byte (omega arith) in
    let small = to_lower-byte x byte in
    (
      λ e. absurd (omega arith),
      λ e. let bad : to_lower x ≡ 0 = ap head_or e in absurd (omega arith),
    )
difference-zero (x ∷ xs) (y ∷ ys) (pos, byte, cx) (pos2, byte2, cy) =
    let small = to_lower-byte x byte in
    let small2 = to_lower-byte y byte2 in
    let (there, back) = difference-zero xs ys cx cy in
    elim (Bool-cases (to_lower x == to_lower y)) [
      | inl same ↦
          let eq : to_lower x ≡ to_lower y = ground arith in
          rw same (λ e. let tails = there e in rw (eq, tails) refl, λ e. back (ap rest_of e))
      | inr other ↦
          let ne : to_lower x ≢ to_lower y = ground arith in
          rw other (λ e. absurd (omega arith), λ e. absurd (ne (ap head_or e)))
    ]

-- Stricmp comes to an end, and returns 0 just if the strings are the same but for the case of their letters.
pub stricmp-same :
    (n : ℕ) (m : Bytes) (p q : Ptr) (xs ys : List ℕ)
    → length xs < n
    → IsString m p xs
    → IsString m q ys
    → (d : ℕ) × (stricmp n m p q ≡ some d) × ((d ≡ 0) ↔ (map to_lower xs ≡ map to_lower ys))
stricmp-same n m p q xs ys lt h k = (
  difference xs ys,
  stricmp-difference n m p q xs ys lt h k,
  difference-zero xs ys (IsString-Chars m p xs h) (IsString-Chars m q ys k),
)

compare_loop-take :
    (n : ℕ) (m : Bytes) (p q : Ptr) (xs ys : List ℕ)
    → IsString m p xs
    → IsString m q ys
    → compare_loop n m p q 0 ≡ difference (take n xs) (take n ys)
unfolding compare_loop
compare_loop-take zero m p q xs ys h k = refl
compare_loop-take (suc n) m p q [] [] h k = rw (h, k, to_lower-zero) refl
compare_loop-take (suc n) m p q [] (y ∷ ys) h (e, pos, byte, k) =
    let low = to_lower-nonzero y byte (omega arith) in
    let small = to_lower-byte y byte in
    let stop : stops (sub32 0 (to_lower y)) (to_lower y) ≡ true = ground arith in
    rw (h, e, to_lower-zero, stop) refl
compare_loop-take (suc n) m p q (x ∷ xs) [] (e, pos, byte, h) k =
    let low = to_lower-nonzero x byte (omega arith) in
    let small = to_lower-byte x byte in
    let stop : stops (sub32 (to_lower x) 0) 0 ≡ true = ground arith in
    rw (k, e, to_lower-zero, stop) refl
compare_loop-take (suc n) m p q (x ∷ xs) (y ∷ ys) (e, pos, byte, h) (f, pos2, byte2, k) =
    let low = to_lower-nonzero y byte2 (omega arith) in
    let small = to_lower-byte x byte in
    let small2 = to_lower-byte y byte2 in
    elim (Bool-cases (to_lower x == to_lower y)) [
      | inl same ↦
          let go : stops (sub32 (to_lower x) (to_lower y)) (to_lower y) ≡ false = ground arith in
          let none_yet : sub32 (to_lower x) (to_lower y) ≡ 0 = ground arith in
          rw (e, f, go, same) (rw none_yet (compare_loop-take n m (p + 1) (q + 1) xs ys h k))
      | inr other ↦
          let stop : stops (sub32 (to_lower x) (to_lower y)) (to_lower y) ≡ true = ground arith in
          rw (e, f, stop, other) refl
    ]

-- Strnicmp with a count is Stricmp of the strings cut to that many chars.
pub strnicmp-take :
    (m : Bytes) (p q a b : Ptr) (xs ys : List ℕ) (count n : ℕ)
    → IsString m p xs
    → IsString m q ys
    → IsString m a (take count xs)
    → IsString m b (take count ys)
    → length xs < n
    → stricmp n m a b ≡ some (strnicmp m p q count)
unfolding strnicmp
strnicmp-take m p q a b xs ys count n h k ha hb lt =
    stricmp-difference n m a b (take count xs) (take count ys)
      (omega (arith, length-take_le count xs)) ha hb
    ∙ ap some (sym (compare_loop-take count m p q xs ys h k))
