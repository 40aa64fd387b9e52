-- ===== src/Format/Digits.antt =====
-- lib_int_RawDoFmtNumber of src/kickstart/lib.exec/rawdoformat.c: the digits it prints.
use mathlib.Core.Option
use mathlib.Core.Path.{◌∙◌, sym, subst}
use mathlib.Core.List.{append_assoc, append-nil}
use native.Mathlib.Nat.{div-add-mod', mod-lt, mul-le-mul_left}
use poweros_raspi.Base.{
  ℕ, zero, suc, ◌+◌, ◌-◌, ◌*◌, ◌/◌, ◌%◌, ◌^◌, ◌≤◌, ◌<◌, ◌≡◌, refl, ap, Bool, true, false, Option,
  none, some, List, [], ◌∷◌, ◌++◌, ◌==◌, if◌then◌else◌, ltb, leb, length, length-append, get_elem?,
  arith, Bool-cases, inl, inr, all_below, all_below-elim,
}
use poweros_raspi.ExecList.{Mem, write}
use poweros_raspi.Format.{digit_table, buf_size, digit, fill, drain, raw_do_fmt_number}

-- The digit of a value below 16, and the value of a digit.
abbrev pub hex : ℕ → ℕ
hex d = if ltb d 10 then b'0' + d else b'a' + (d - 10)

abbrev pub value : ℕ → ℕ
value c = if leb c b'9' then c - b'0' else c - b'a' + 10

-- The number that digits denote, behind the value of those before them.
unfoldable pub read : ℕ → ℕ → List ℕ → ℕ
read base acc [] = acc
read base acc (c ∷ cs) = read base (acc * base + value c) cs

-- The digits of a number, the last one by its remainder.
unfoldable pub digits : ℕ → ℕ → ℕ → List ℕ
digits zero base n = []
digits (suc k) base n =
    let rest = digits k base (n / base) in
    if n / base == 0 then hex (n % base) ∷ [] else rest ++ hex (n % base) ∷ []

value-hex : (d : ℕ) → d < 16 → value (hex d) ≡ d
value-hex d lt = ground arith

abbrev is_char : ℕ → Option ℕ → Bool
is_char c none = false
is_char c (some d) = d == c

is_char-some : (c : ℕ) (o : Option ℕ) → is_char c o ≡ true → o ≡ some c
is_char-some c none e = absurd cc
is_char-some c (some d) e = let same : d ≡ c = ground arith in rw same refl

table_hex : all_below 16 (λ d. is_char (hex d) (get_elem? (digit_table ++ 0 ∷ []) d)) ≡ true
unfolding all_below
table_hex = refl

digit_in_table : (d : ℕ) → d < 16 → get_elem? (digit_table ++ 0 ∷ []) d ≡ some (hex d)
digit_in_table d lt =
    is_char-some (hex d) (get_elem? (digit_table ++ 0 ∷ []) d) (
      all_below-elim 16 (λ d. is_char (hex d) (get_elem? (digit_table ++ 0 ∷ []) d)) table_hex d lt)

read-append :
    (base acc : ℕ) (xs ys : List ℕ) → read base acc (xs ++ ys) ≡ read base (read base acc xs) ys
unfolding read
read-append base acc [] ys = refl
read-append base acc (x ∷ xs) ys = read-append base (acc * base + value x) xs ys

-- The bases the digit table and the buffer are made for.
abbrev pub IsBase : ℕ → Type 0
IsBase base = (8 ≤ base) × (base ≤ 16)

pub quotient-small : (k base n : ℕ) → IsBase base → n < 8 ^ suc k → n / base < 8 ^ k
quotient-small k base n (lo, hi) lt =
    let split = div-add-mod' n base in let most = mul-le-mul_left (n / base) lo in omega arith

-- The last digit: what it counts, and that the table has it.
pub last_digit :
    (base n : ℕ)
    → IsBase base
    → (n / base * base + value (hex (n % base)) ≡ n) × (digit n base ≡ some (hex (n % base)))
unfolding digit
last_digit base n (lo, hi) =
    let split = div-add-mod' n base in
    let below : n % base < base = mod-lt n (omega arith) in
    let back = value-hex (n % base) (omega arith) in
    let nonzero : (base == 0) ≡ false = ground arith in
    (omega arith, rw nonzero (digit_in_table (n % base) (omega arith)))

last_only : (base n : ℕ) → IsBase base → n / base ≡ 0 → 0 * base + value (hex (n % base)) ≡ n
last_only base n b top =
    subst (λ q. q * base + value (hex (n % base)) ≡ n) top (last_digit base n b).0

read-digits : (k base n : ℕ) → IsBase base → n < 8 ^ suc k → read base 0 (digits (suc k) base n) ≡ n
unfolding read digits
read-digits zero base n b lt =
    let (last, found) = last_digit base n b in
    let small = quotient-small zero base n b lt in
    let at : (n / base == 0) ≡ true = ground arith in rw at (last_only base n b (omega arith))
read-digits (suc k) base n b lt =
    let (last, found) = last_digit base n b in
    let small = quotient-small (suc k) base n b lt in
    let rest = read-digits k base (n / base) b small in
    elim (Bool-cases (n / base == 0)) [
      | inl y ↦ rw y (last_only base n b (ground arith))
      | inr other ↦
          rw
            (other, read-append base 0 (digits (suc k) base (n / base)) (hex (n % base) ∷ []), rest)
            last
    ]

drain-write : (p q v : ℕ) (buf : Mem) → p ≤ q → drain p (write buf q v) ≡ drain p buf
unfolding drain
drain-write zero q v buf le = refl
drain-write (suc p) q v buf le =
    let other : (p == q) ≡ false = ground arith in
    rw other (ap (λ cs. buf p ∷ cs) (drain-write p q v buf (omega arith)))

drain-push : (p v : ℕ) (buf : Mem) → drain (suc p) (write buf p v) ≡ v ∷ drain p buf
unfolding drain
drain-push p v buf =
    let at : (p == p) ≡ true = ground arith in rw (at, drain-write p p v buf (omega arith)) refl

-- The loop fills the buffer with the digits.
fill-digits :
    (j k base n p : ℕ) (buf : Mem)
    → IsBase base
    → k < j
    → n < 8 ^ suc k
    → p + k < buf_size
    → (s : Mem × ℕ) × (fill j n base buf p ≡ some s)
      × (drain s.1 s.0 ≡ digits (suc k) base n ++ drain p buf)
unfolding fill digits Option.bind
fill-digits zero k base n p buf b le lt room = absurd (omega arith)
fill-digits (suc j) zero base n p buf b le lt room =
    let (last, found) = last_digit base n b in
    let small = quotient-small zero base n b lt in
    let at : (n / base == 0) ≡ true = ground arith in
    let fits : leb buf_size p ≡ false = ground arith in
    rw (found, fits, at) (_, refl, drain-push p (hex (n % base)) buf)
fill-digits (suc j) (suc k) base n p buf b le lt room =
    let (last, found) = last_digit base n b in
    let small = quotient-small (suc k) base n b lt in
    let fits : leb buf_size p ≡ false = ground arith in
    let rest =
      fill-digits j k base (n / base) (suc p) (write buf p (hex (n % base))) b (omega arith) small
        (omega arith) in
    elim (Bool-cases (n / base == 0)) [
      | inl y ↦ rw (found, fits, y) (_, refl, drain-push p (hex (n % base)) buf)
      | inr other ↦
          let (s, e, d) = rest in
          rw (found, fits, other)
            (
              s,
              e,
              d
                  ∙ ap (λ cs. digits (suc k) base (n / base) ++ cs)
                      (drain-push p (hex (n % base)) buf)
                  ∙ sym (
                      append_assoc (digits (suc k) base (n / base)) (hex (n % base) ∷ [])
                        (drain p buf)),
            )
    ]

length-digits_le : (k base n : ℕ) → length (digits k base n) ≤ k
unfolding digits
length-digits_le zero base n = omega arith
length-digits_le (suc k) base n = elim (Bool-cases (n / base == 0)) [
  | inl y ↦ rw y (omega arith)
  | inr other ↦
      rw (other, length-append (digits k base (n / base)) (hex (n % base) ∷ []))
        (omega (arith, length-digits_le k base (n / base)))
]

pub raw_do_fmt_number-digits :
    (ul base : ℕ)
    → IsBase base
    → ul < 2 ^ 32
    → raw_do_fmt_number ul base ≡ some (digits buf_size base ul)
unfolding raw_do_fmt_number drain
raw_do_fmt_number-digits ul base b small =
    let (s, e, d) =
      fill-digits 12 10 base ul 0 (λ a. 0) b (omega arith) (omega arith) (omega arith) in
    rw e (ap some (d ∙ append-nil (digits 11 base ul)))

-- For a base from 8 to 16 the digits that a UINT32 is printed with denote it, and the buffer has room for them.
pub raw_do_fmt_number-read :
    (ul base : ℕ)
    → IsBase base
    → ul < 2 ^ 32
    → (out : List ℕ) × (raw_do_fmt_number ul base ≡ some out)
      × (read base 0 out ≡ ul)
      × (length out ≤ buf_size)
raw_do_fmt_number-read ul base b small = (
  digits buf_size base ul,
  raw_do_fmt_number-digits ul base b small,
  read-digits 10 base ul b (omega arith),
  length-digits_le 11 base ul,
)
