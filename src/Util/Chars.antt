-- ===== src/Util/Chars.antt =====
-- src/kickstart/lib.util/cstr.c: the classes of the 256 characters, and ToLower and ToUpper.
use mathlib.Core.Option
use poweros_raspi.Base.{
  ℕ, ◌+◌, ◌%◌, ◌<◌, ◌≡◌, ◌≢◌, refl, Bool, true, false, not, ◌&&◌, ◌||◌, List, ◌∷◌, ◌++◌, ◌==◌,
  bit_and, if◌then◌else◌, u32, sub32, ltb, get_elem?, replicate, arith, ltb→lt, all_below,
  all_below-elim, and_left, and_right,
}

-- _U, _L, _D, _C, _P, _S, _X and _SP
abbrev upper : ℕ
upper = 1

abbrev lower : ℕ
lower = 2

abbrev digit : ℕ
digit = 4

abbrev cntrl : ℕ
cntrl = 8

abbrev punct : ℕ
punct = 16

abbrev white : ℕ
white = 32

abbrev hex : ℕ
hex = 64

abbrev hard : ℕ
hard = 128

-- The table _ctype
unfoldable pub ctype : List ℕ
ctype =
    replicate 9 cntrl
    ++ replicate 5 (cntrl + white)
    ++ replicate 18 cntrl
    ++ (white + hard) ∷ replicate 15 punct
    ++ replicate 10 digit
    ++ replicate 7 punct
    ++ replicate 6 (upper + hex)
    ++ replicate 20 upper
    ++ replicate 6 punct
    ++ replicate 6 (lower + hex)
    ++ replicate 20 lower
    ++ replicate 4 punct
    ++ cntrl ∷ replicate 32 0
    ++ (white + hard) ∷ replicate 31 punct
    ++ replicate 23 upper
    ++ punct ∷ replicate 7 upper
    ++ replicate 24 lower
    ++ punct ∷ replicate 8 lower

-- __ismask
unfoldable pub ismask : ℕ → ℕ
unfolding ctype
ismask c = Option.get_or (get_elem? ctype (c % 256)) 0

-- util_IsLower
unfoldable pub is_lower : ℕ → Bool
is_lower c = not (bit_and (ismask c) lower == 0)

-- util_IsUpper
unfoldable pub is_upper : ℕ → Bool
is_upper c = not (bit_and (ismask c) upper == 0)

-- util_ToUpper
unfoldable pub to_upper : ℕ → ℕ
to_upper c = if is_lower c then u32 (sub32 c b'a' + b'A') else c

-- util_ToLower
unfoldable pub to_lower : ℕ → ℕ
to_lower c = if is_upper c then u32 (sub32 c b'A' + b'a') else c

abbrev byte_kept : ℕ → Bool
byte_kept c = ltb (to_lower c) 256 && (c == 0 || not (to_lower c == 0))

bytes_kept : all_below 256 byte_kept ≡ true
unfolding all_below is_upper to_lower ismask ctype
bytes_kept = refl

pub to_lower-zero : to_lower 0 ≡ 0
unfolding to_lower is_upper ismask ctype
to_lower-zero = refl

-- ToLower of a byte is a byte.
pub to_lower-byte : (c : ℕ) → c < 256 → to_lower c < 256
to_lower-byte c lt =
    ltb→lt (to_lower c) 256 (and_left _ _ (all_below-elim 256 byte_kept bytes_kept c lt))

-- Only the terminator is 0 after ToLower.
pub to_lower-nonzero : (c : ℕ) → c < 256 → c ≢ 0 → to_lower c ≢ 0
to_lower-nonzero c lt ne =
    let kept : (c == 0 || not (to_lower c == 0)) ≡ true =
      and_right (ltb (to_lower c) 256) _ (all_below-elim 256 byte_kept bytes_kept c lt) in
    ground arith

abbrev case_kept : ℕ → Bool
case_kept c =
    c == 223
    || c == 255
    || not (is_lower (to_upper c))
      && not (is_upper (to_lower c))
      && to_lower (to_upper c) == to_lower c

cases_kept : all_below 256 case_kept ≡ true
unfolding all_below is_lower is_upper to_upper to_lower ismask ctype
cases_kept = refl

-- For every byte but 223 and 255: ToUpper leaves no lower-case letter, ToLower no upper-case one, and ToLower
-- undoes ToUpper up to the case of the letter.
pub to_lower-to_upper :
    (c : ℕ)
    → c < 256
    → c ≢ 223
    → c ≢ 255
    → (is_lower (to_upper c) ≡ false)
      × (is_upper (to_lower c) ≡ false)
      × (to_lower (to_upper c) ≡ to_lower c)
to_lower-to_upper c lt n1 n2 =
    let kept : case_kept c ≡ true = all_below-elim 256 case_kept cases_kept c lt in
    (ground arith, ground arith, ground arith)
