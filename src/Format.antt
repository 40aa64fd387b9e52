-- ===== src/Format.antt =====
-- src/kickstart/lib.exec/rawdoformat.c: the number loops and the formatter. The chars that PutCh gets are a list.
-- `none` stands for undefined behaviour (an argument that is not there, a digit outside of the table or of `buf`,
-- a base of 0), and for loops on strings without end, which take fuel.
pub mod Digits
pub mod Convert
pub mod Run
mod Tests
use mathlib.Core.Option
use poweros_raspi.Base.{
  ℕ, zero, suc, ◌+◌, ◌-◌, ◌/◌, ◌%◌, ◌^◌, bit_and, Bool, true, false, not, ◌||◌, Option, none, some,
  List, [], ◌∷◌, ◌++◌, ◌==◌, if◌then◌else◌, ltb, leb, u32, sub32, get_elem?,
}
use poweros_raspi.ExecList.{Ptr, Mem, write}
use poweros_raspi.Util.Strings.{Bytes}

-- "0123456789abcdef"
abbrev pub digit_table : List ℕ
digit_table =
    b'0' ∷ b'1' ∷ b'2' ∷ b'3' ∷ b'4' ∷ b'5' ∷ b'6' ∷ b'7' ∷ b'8' ∷ b'9' ∷ b'a' ∷ b'b' ∷ b'c' ∷ b'd'
    ∷ b'e' ∷ b'f' ∷ []

-- sizeof(long) * 8 / 3 + 1
abbrev pub buf_size : ℕ
buf_size = 11

-- The char of the last digit.
unfoldable pub digit : ℕ → ℕ → Option ℕ
digit ul base = if base == 0 then none else get_elem? (digit_table ++ 0 ∷ []) (ul % base)

-- The first loop of lib_int_RawDoFmtNumber, with `p` counted from `buf`.
pub fill : ℕ → ℕ → ℕ → Mem → ℕ → Option (Mem × ℕ)
fill zero ul base buf p = none
fill (suc k) ul base buf p = Option.bind (digit ul base) (λ c.
    let rest = fill k (ul / base) base (write buf p c) (suc p) in
    if leb buf_size p then none else if ul / base == 0 then some (write buf p c, suc p) else rest)

-- Its second loop.
unfoldable pub drain : ℕ → Mem → List ℕ
drain zero buf = []
drain (suc p) buf = buf p ∷ drain p buf

-- lib_int_RawDoFmtNumber
unfoldable pub raw_do_fmt_number : ℕ → ℕ → Option (List ℕ)
raw_do_fmt_number ul base = Option.map (λ s. drain s.1 s.0) (fill (suc buf_size) ul base (λ a. 0) 0)

-- va_arg, on the words that are left.
unfoldable pub va_arg : List ℕ → Option (ℕ × List ℕ)
va_arg [] = none
va_arg (a ∷ ap) = some (a, ap)

-- The loop of %s.
unfoldable pub string_loop : ℕ → Bytes → Ptr → Option (List ℕ)
string_loop zero m p = none
string_loop (suc k) m p =
    let rest = string_loop k m (p + 1) in
    if m p == 0 then some [] else Option.map (λ out. m p ∷ out) rest

-- The loop of %b that prints the name of a bit.
unfoldable pub name_loop : ℕ → Bytes → Ptr → Option (List ℕ × Ptr)
name_loop zero m p = none
name_loop (suc k) m p =
    let rest = name_loop k m (p + 1) in
    if ltb b' ' (m p) then Option.map (λ r. (m p ∷ r.0, r.1)) rest else some ([], p)

-- The loop of %b that passes over a name.
unfoldable pub skip_loop : ℕ → Bytes → Ptr → Option Ptr
skip_loop zero m p = none
skip_loop (suc k) m p = let rest = skip_loop k m (p + 1) in if ltb b' ' (m p) then rest else some p

-- `ul & (1 << (n - 1))`, where a shift past bit 31 leaves 0.
abbrev pub has_bit : ℕ → ℕ → Bool
has_bit ul n = not (bit_and ul (u32 (2 ^ (n - 1))) == 0)

-- The loop of %b over the bits.
unfoldable pub bits_loop : ℕ → Bytes → ℕ → Ptr → Bool → Option (List ℕ × Bool)
bits_loop zero m ul p set = none
bits_loop (suc k) m ul p set =
    if m p == 0
    then some ([], set)
    else if has_bit ul (m p)
    then Option.bind (name_loop k m (p + 1)) (λ r.
      Option.map (λ s. ((if set then b',' else b'<') ∷ r.0 ++ s.0, s.1))
        (bits_loop k m ul r.1 true))
    else Option.bind (skip_loop k m (p + 1)) (λ q. bits_loop k m ul q set)

-- The case %b.
pub bits_case : ℕ → Bytes → ℕ → Ptr → Option (List ℕ)
bits_case k m ul p = Option.bind (raw_do_fmt_number ul (m p)) (λ number.
    if ul == 0
    then some number
    else Option.map (λ s. number ++ (s.0 ++ (if s.1 then b'>' ∷ [] else [])))
        (bits_loop k m ul (p + 1) false))

-- The case %d.
pub decimal_case : ℕ → Option (List ℕ)
decimal_case ul =
    if leb (2 ^ 31) ul
    then Option.map (λ out. b'-' ∷ out) (raw_do_fmt_number (sub32 0 ul) 10)
    else raw_do_fmt_number ul 10

-- Where the formatter stands: in the text, or behind a `%` with its `lflag`.
pub data Place : Type 0 where
  text : Place
  conversion : (lflag : Bool) → Place

-- What it does after a char: it returns, or it goes on.
pub data Next : Type 0 where
  returns : Next
  goes_on : (place : Place) → Next

-- The chars printed, the arguments left, and what comes next.
abbrev pub Outcome : Type 0
Outcome = List ℕ × List ℕ × Next

-- A case that prints and goes back to the text.
abbrev pub printed : List ℕ → Option (List ℕ) → Option Outcome
printed ap o = Option.map (λ out. (out, ap, goes_on text)) o

abbrev pub either : ℕ → ℕ → ℕ → Bool
either ch a b = ch == a || ch == b

-- The switch.
pub convert : ℕ → Bytes → Bool → ℕ → List ℕ → Option Outcome
convert k m lflag ch ap =
    if ch == 0
    then some (ch ∷ [], ap, returns)
    else if ch == b'l'
    then some ([], ap, goes_on (conversion true))
    else if either ch b'B' b'b'
    then Option.bind (va_arg ap)
        (λ a. Option.bind (va_arg a.1) (λ b. printed b.1 (bits_case k m a.0 b.0)))
    else if either ch b'C' b'c'
    then Option.bind (va_arg ap) (λ a. some (bit_and a.0 127 ∷ [], a.1, goes_on text))
    else if either ch b'S' b's'
    then Option.bind (va_arg ap) (λ a. printed a.1 (string_loop k m a.0))
    else if either ch b'D' b'd'
    then Option.bind (va_arg ap) (λ a. printed a.1 (decimal_case a.0))
    else if either ch b'O' b'o'
    then Option.bind (va_arg ap) (λ a. printed a.1 (raw_do_fmt_number a.0 8))
    else if either ch b'U' b'u'
    then Option.bind (va_arg ap) (λ a. printed a.1 (raw_do_fmt_number a.0 10))
    else if either ch b'P' b'p'
    then Option.bind (va_arg ap)
        (λ a. printed a.1 (Option.map (λ out. b'0' ∷ b'x' ∷ out) (raw_do_fmt_number a.0 16)))
    else if either ch b'X' b'x'
    then Option.bind (va_arg ap) (λ a. printed a.1 (raw_do_fmt_number a.0 16))
    else some (b'%' ∷ (if lflag then b'l' ∷ [] else []) ++ ch ∷ [], ap, goes_on text)

-- One char of the format.
pub format_char : ℕ → Bytes → Place → ℕ → List ℕ → Option Outcome
format_char k m text ch ap =
    if ch == b'%'
    then some ([], ap, goes_on (conversion false))
    else if ch == 0
    then some (ch ∷ [], ap, returns)
    else some (ch ∷ [], ap, goes_on text)
format_char k m (conversion lflag) ch ap = convert k m lflag ch ap

abbrev pub and_then :
    Outcome → (Place → List ℕ → Option (List ℕ × List ℕ)) → Option (List ℕ × List ℕ)
and_then (out, ap, returns) f = some (out, ap)
and_then (out, ap, goes_on place) f = Option.map (λ r. (out ++ r.0, r.1)) (f place ap)

-- The loop of lib_RawDoFmt, with the fuel `j` of the loops inside: all that PutCh gets, and the `ap` returned.
pub format_loop : ℕ → ℕ → Bytes → Place → Ptr → List ℕ → Option (List ℕ × List ℕ)
format_loop j zero m place fmt ap = none
format_loop j (suc k) m place fmt ap =
    Option.bind (format_char j m place (m fmt) ap)
      (λ r. and_then r (λ place ap. format_loop j k m place (fmt + 1) ap))

-- lib_RawDoFmt
pub raw_do_fmt : ℕ → Bytes → Ptr → List ℕ → Option (List ℕ × List ℕ)
raw_do_fmt k m fmt ap = format_loop k k m text fmt ap
