-- ===== src/Format/Convert.antt =====
-- The conversions of lib_RawDoFmt in src/kickstart/lib.exec/rawdoformat.c, each with the arguments it takes and
-- what it prints.
use mathlib.Core.Option
use mathlib.Core.Path.{◌∙◌}
use mathlib.Core.List.{append_assoc}
use poweros_raspi.Base.{
  ℕ, zero, suc, ◌+◌, ◌≤◌, ◌<◌, ◌^◌, ◌≡◌, refl, ap, bit_and, Bool, true, false, some, List, [], ◌∷◌,
  ◌++◌, ◌==◌, if◌then◌else◌, ltb, leb, sub32, length, arith, Bool-cases, inl, inr,
}
use poweros_raspi.ExecList.{Ptr}
use poweros_raspi.Util.Strings.{Bytes, IsString}
use poweros_raspi.Format.{
  buf_size, va_arg, string_loop, name_loop, skip_loop, has_bit, bits_loop, bits_case, decimal_case,
  text, goes_on, convert,
}
use poweros_raspi.Format.Digits.{digits, raw_do_fmt_number-digits}

-- The bits of a %b argument: the number of each and its name.
abbrev pub Names : Type 0
Names = List (ℕ × List ℕ)

-- A conversion with its arguments.
pub data Conversion : Type 0 where
  bits : (ul : ℕ) (p : Ptr) (base : ℕ) (names : Names) → Conversion
  char : (c : ℕ) → Conversion
  string : (p : Ptr) (chars : List ℕ) → Conversion
  decimal octal unsigned pointer hexadecimal : (ul : ℕ) → Conversion

-- Its letter, the upper-case one or the lower-case one.
abbrev pub letter : Conversion → Bool → ℕ
letter (bits ul p base names) upper = if upper then b'B' else b'b'
letter (char c) upper = if upper then b'C' else b'c'
letter (string p chars) upper = if upper then b'S' else b's'
letter (decimal ul) upper = if upper then b'D' else b'd'
letter (octal ul) upper = if upper then b'O' else b'o'
letter (unsigned ul) upper = if upper then b'U' else b'u'
letter (pointer ul) upper = if upper then b'P' else b'p'
letter (hexadecimal ul) upper = if upper then b'X' else b'x'

abbrev pub arguments : Conversion → List ℕ
arguments (bits ul p base names) = ul ∷ p ∷ []
arguments (char c) = c ∷ []
arguments (string p chars) = p ∷ []
arguments (decimal ul) = ul ∷ []
arguments (octal ul) = ul ∷ []
arguments (unsigned ul) = ul ∷ []
arguments (pointer ul) = ul ∷ []
arguments (hexadecimal ul) = ul ∷ []

-- The names of the bits that are set, each behind `,` or the first one behind `<`.
abbrev pub set_names : ℕ → Bool → Names → List ℕ
set_names ul set [] = if set then b'>' ∷ [] else []
set_names ul set ((n, name) ∷ names) =
    if has_bit ul n
    then (if set then b',' else b'<') ∷ name ++ set_names ul true names
    else set_names ul set names

abbrev pub number : ℕ → ℕ → List ℕ
number base ul = digits buf_size base ul

abbrev pub output : Conversion → List ℕ
output (bits ul p base names) =
    if ul == 0 then number base ul else number base ul ++ set_names ul false names
output (char c) = bit_and c 127 ∷ []
output (string p chars) = chars
output (decimal ul) = if leb (2 ^ 31) ul then b'-' ∷ number 10 (sub32 0 ul) else number 10 ul
output (octal ul) = number 8 ul
output (unsigned ul) = number 10 ul
output (pointer ul) = b'0' ∷ b'x' ∷ number 16 ul
output (hexadecimal ul) = number 16 ul

-- A name has chars above the blank, as many as the loop has fuel for, and the char behind them is not one.
abbrev pub IsName : Bytes → Ptr → List ℕ → Type 0
IsName m p [] = m p ≤ b' '
IsName m p (x ∷ xs) = (m p ≡ x) × (b' ' < x) × IsName m (p + 1) xs

-- At `p` there are the numbers of the bits and their names, up to the terminator.
abbrev pub IsNames : Bytes → Ptr → Names → Type 0
IsNames m p [] = m p ≡ 0
IsNames m p ((n, name) ∷ names) =
    (m p ≡ n) × (0 < n) × IsName m (p + 1) name × IsNames m (p + 1 + length name) names

abbrev pub size : Names → ℕ
size [] = 0
size ((n, name) ∷ names) = suc (length name + size names)

-- What the arguments of a conversion need: words, strings in memory that the fuel is enough for, and a base.
abbrev pub Valid : ℕ → Bytes → Conversion → Type 0
Valid k m (bits ul p base names) =
    (ul < 2 ^ 32)
    × (m p ≡ base)
    × (8 ≤ base)
    × (base ≤ 16)
    × IsNames m (p + 1) names
    × (size names < k)
Valid k m (char c) = c < 2 ^ 32
Valid k m (string p chars) = IsString m p chars × (length chars < k)
Valid k m (decimal ul) = ul < 2 ^ 32
Valid k m (octal ul) = ul < 2 ^ 32
Valid k m (unsigned ul) = ul < 2 ^ 32
Valid k m (pointer ul) = ul < 2 ^ 32
Valid k m (hexadecimal ul) = ul < 2 ^ 32

string_loop-IsString :
    (k : ℕ) (m : Bytes) (p : Ptr) (xs : List ℕ)
    → IsString m p xs
    → length xs < k
    → string_loop k m p ≡ some xs
unfolding string_loop
string_loop-IsString zero m p xs h lt = absurd (omega arith)
string_loop-IsString (suc k) m p [] h lt = rw h refl
string_loop-IsString (suc k) m p (x ∷ xs) (e, pos, byte, h) lt =
    let more : (x == 0) ≡ false = ground arith in
    rw (e, more, string_loop-IsString k m (p + 1) xs h (omega arith)) refl

name_loop-IsName :
    (k : ℕ) (m : Bytes) (p : Ptr) (xs : List ℕ)
    → IsName m p xs
    → length xs < k
    → name_loop k m p ≡ some (xs, p + length xs)
unfolding name_loop
name_loop-IsName zero m p xs h lt = absurd (omega arith)
name_loop-IsName (suc k) m p [] h lt =
    let over : ltb b' ' (m p) ≡ false = ground arith in
    rw over (ap (λ q. some ([], q)) (omega arith))
name_loop-IsName (suc k) m p (x ∷ xs) (e, above, h) lt =
    let more : ltb b' ' x ≡ true = ground arith in
    rw (e, more, name_loop-IsName k m (p + 1) xs h (omega arith))
      (ap (λ q. some (x ∷ xs, q)) (omega arith))

skip_loop-IsName :
    (k : ℕ) (m : Bytes) (p : Ptr) (xs : List ℕ)
    → IsName m p xs
    → length xs < k
    → skip_loop k m p ≡ some (p + length xs)
unfolding skip_loop
skip_loop-IsName zero m p xs h lt = absurd (omega arith)
skip_loop-IsName (suc k) m p [] h lt =
    let over : ltb b' ' (m p) ≡ false = ground arith in rw over (ap some (omega arith))
skip_loop-IsName (suc k) m p (x ∷ xs) (e, above, h) lt =
    let more : ltb b' ' x ≡ true = ground arith in
    rw (e, more, skip_loop-IsName k m (p + 1) xs h (omega arith)) (ap some (omega arith))

-- What the loop over the bits prints, with the `>` behind it.
bits_loop-IsNames :
    (k : ℕ) (m : Bytes) (ul : ℕ) (p : Ptr) (set : Bool) (names : Names)
    → IsNames m p names
    → size names < k
    → (out : List ℕ) × (last : Bool) × (bits_loop k m ul p set ≡ some (out, last))
      × (out ++ (if last then b'>' ∷ [] else []) ≡ set_names ul set names)
unfolding bits_loop Option.bind
bits_loop-IsNames zero m ul p set names h lt = absurd (omega arith)
bits_loop-IsNames (suc k) m ul p set [] h lt = rw h ([], set, refl, refl)
bits_loop-IsNames (suc k) m ul p set ((n, name) ∷ names) (e, pos, h, hs) lt =
    let more : (n == 0) ≡ false = ground arith in
    elim (Bool-cases (has_bit ul n)) [
      | inl y ↦
          let (out, last, f, g) =
            bits_loop-IsNames k m ul (p + 1 + length name) true names hs (omega arith) in
          rw (e, more, y, name_loop-IsName k m (p + 1) name h (omega arith), f)
            (
              (if set then b',' else b'<') ∷ name ++ out,
              last,
              refl,
              ap (λ cs. (if set then b',' else b'<') ∷ cs)
                  (append_assoc name out (if last then b'>' ∷ [] else [])
                    ∙ ap (λ cs. name ++ cs) g),
            )
      | inr other ↦
          let (out, last, f, g) =
            bits_loop-IsNames k m ul (p + 1 + length name) set names hs (omega arith) in
          rw (e, more, other, skip_loop-IsName k m (p + 1) name h (omega arith)) (out, last, f, g)
    ]

bits_case-output :
    (k : ℕ) (m : Bytes) (ul : ℕ) (p : Ptr) (base : ℕ) (names : Names)
    → Valid k m (bits ul p base names)
    → bits_case k m ul p ≡ some (output (bits ul p base names))
unfolding bits_case Option.bind
bits_case-output k m ul p base names (small, e, lo, hi, h, lt) =
    let (out, last, f, g) = bits_loop-IsNames k m ul (p + 1) false names h lt in
    elim (Bool-cases (ul == 0)) [
      | inl y ↦ rw (e, raw_do_fmt_number-digits ul base (lo, hi) small, y) refl
      | inr other ↦
          rw (e, raw_do_fmt_number-digits ul base (lo, hi) small, other, f)
            (ap (λ cs. some (number base ul ++ cs)) g)
    ]

decimal_case-output : (ul : ℕ) → ul < 2 ^ 32 → decimal_case ul ≡ some (output (decimal ul))
unfolding decimal_case
decimal_case-output ul small = elim (Bool-cases (leb (2 ^ 31) ul)) [
  | inl y ↦
      rw (y, raw_do_fmt_number-digits (sub32 0 ul) 10 (omega arith, omega arith) (omega arith)) refl
  | inr other ↦ rw (other, raw_do_fmt_number-digits ul 10 (omega arith, omega arith) small) refl
]

-- Each conversion prints its output, takes its arguments and goes back to the text.
pub convert-output :
    (k : ℕ) (m : Bytes) (lflag upper : Bool) (c : Conversion) (ap : List ℕ)
    → Valid k m c
    → convert k m lflag (letter c upper) (arguments c ++ ap) ≡ some (output c, ap, goes_on text)
unfolding convert va_arg Option.bind
convert-output k m lflag false (bits ul p base names) ap v =
    rw (bits_case-output k m ul p base names v) refl
convert-output k m lflag true (bits ul p base names) ap v =
    rw (bits_case-output k m ul p base names v) refl
convert-output k m lflag false (char c) ap v = refl
convert-output k m lflag true (char c) ap v = refl
convert-output k m lflag false (string p chars) ap (h, lt) =
    rw (string_loop-IsString k m p chars h lt) refl
convert-output k m lflag true (string p chars) ap (h, lt) =
    rw (string_loop-IsString k m p chars h lt) refl
convert-output k m lflag false (decimal ul) ap v = rw (decimal_case-output ul v) refl
convert-output k m lflag true (decimal ul) ap v = rw (decimal_case-output ul v) refl
convert-output k m lflag false (octal ul) ap v =
    rw (raw_do_fmt_number-digits ul 8 (omega arith, omega arith) v) refl
convert-output k m lflag true (octal ul) ap v =
    rw (raw_do_fmt_number-digits ul 8 (omega arith, omega arith) v) refl
convert-output k m lflag false (unsigned ul) ap v =
    rw (raw_do_fmt_number-digits ul 10 (omega arith, omega arith) v) refl
convert-output k m lflag true (unsigned ul) ap v =
    rw (raw_do_fmt_number-digits ul 10 (omega arith, omega arith) v) refl
convert-output k m lflag false (pointer ul) ap v =
    rw (raw_do_fmt_number-digits ul 16 (omega arith, omega arith) v) refl
convert-output k m lflag true (pointer ul) ap v =
    rw (raw_do_fmt_number-digits ul 16 (omega arith, omega arith) v) refl
convert-output k m lflag false (hexadecimal ul) ap v =
    rw (raw_do_fmt_number-digits ul 16 (omega arith, omega arith) v) refl
convert-output k m lflag true (hexadecimal ul) ap v =
    rw (raw_do_fmt_number-digits ul 16 (omega arith, omega arith) v) refl
