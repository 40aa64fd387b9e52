-- ===== src/Format/Tests.antt =====
-- The format "n=%ld%s%b" at 100, the string "no" at 200 and the bits "\20\1A\2B" at 300.
use mathlib.Core.Option
use poweros_raspi.Base.{
  ℕ, ◌-◌, ◌≤◌, ◌≡◌, refl, false, none, some, List, [], ◌∷◌, ◌++◌, if◌then◌else◌, ltb, length,
  get_elem?, arith,
}
use poweros_raspi.Util.Strings.{Bytes, IsString}
use poweros_raspi.Format.{buf_size, digit, fill, raw_do_fmt_number, raw_do_fmt}
use poweros_raspi.Format.Digits.{read, digits, raw_do_fmt_number-read}
use poweros_raspi.Format.Convert.{bits, string, decimal}
use poweros_raspi.Format.Run.{
  Item, literal, converted, AllFine, concat, spelled, taken, shown, raw_do_fmt-shown,
}

raw_do_fmt_number-read_example :
    (out : List ℕ) × (raw_do_fmt_number 4096 8 ≡ some out)
    × (read 8 0 out ≡ 4096)
    × (length out ≤ buf_size)
raw_do_fmt_number-read_example =
    raw_do_fmt_number-read 4096 8 (omega arith, omega arith) (omega arith)

-- A twelfth digit is written behind the end of the buffer.
twelve_bits : raw_do_fmt_number 2048 2 ≡ none
unfolding raw_do_fmt_number fill digit Option.bind
twelve_bits = refl

abbrev items : List Item
items =
    literal b'n'
    ∷ literal b'='
    ∷ converted 1 false (decimal 4294967254)
    ∷ converted 0 false (string 200 (b'n' ∷ b'o' ∷ []))
    ∷ converted 0 false (bits 2 300 16 ((1, b'A' ∷ []) ∷ (2, b'B' ∷ []) ∷ []))
    ∷ []

abbrev bytes : Bytes
bytes p =
    if ltb p 200
    then Option.get_or (get_elem? (concat spelled items) (p - 100)) 0
    else if ltb p 300
    then Option.get_or (get_elem? (b'n' ∷ b'o' ∷ []) (p - 200)) 0
    else Option.get_or (get_elem? (16 ∷ 1 ∷ b'A' ∷ 2 ∷ b'B' ∷ []) (p - 300)) 0

items-AllFine : AllFine 20 bytes items
items-AllFine = omega arith

format-IsString : IsString bytes 100 (concat spelled items)
format-IsString = omega arith

raw_do_fmt-shown_example :
    raw_do_fmt 20 bytes 100 (concat taken items ++ 7 ∷ [])
    ≡ some (concat shown items ++ 0 ∷ [], 7 ∷ [])
raw_do_fmt-shown_example =
    raw_do_fmt-shown 20 bytes 100 items (7 ∷ []) items-AllFine format-IsString (omega arith)

shown_text :
    concat shown items
    ≡ b'n' ∷ b'=' ∷ b'-' ∷ b'4' ∷ b'2' ∷ b'n' ∷ b'o' ∷ b'2' ∷ b'<' ∷ b'B' ∷ b'>' ∷ []
unfolding digits
shown_text = refl
