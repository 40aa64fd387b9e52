-- ===== src/Format/Run.antt =====
-- lib_RawDoFmt of src/kickstart/lib.exec/rawdoformat.c: a whole format string.
use mathlib.Core.Option
use mathlib.Core.List.{append_assoc}
use poweros_raspi.Base.{
  ℕ, zero, suc, ◌+◌, ◌<◌, ◌≡◌, ◌≢◌, refl, ap, Bool, true, false, some, List, [], ◌∷◌, ◌++◌, ◌==◌,
  if◌then◌else◌, length, replicate, arith,
}
use poweros_raspi.ExecList.{Ptr}
use poweros_raspi.Util.Strings.{Bytes, IsString}
use poweros_raspi.Format.{
  Place, text, conversion, goes_on, either, convert, format_char, format_loop, raw_do_fmt,
}
use poweros_raspi.Format.Convert.{Conversion, letter, arguments, output, Valid, convert-output}

-- A part of a format: a char that stands for itself, a conversion behind some `l`, or a `%` with a char that is none.
pub data Item : Type 0 where
  literal : (c : ℕ) → Item
  converted : (ls : ℕ) (upper : Bool) (c : Conversion) → Item
  unknown : (ls : ℕ) (c : ℕ) → Item

-- `lflag` behind some `l`.
abbrev pub flagged : ℕ → Bool → Bool
flagged zero lflag = lflag
flagged (suc ls) lflag = true

abbrev pub spelled : Item → List ℕ
spelled (literal c) = c ∷ []
spelled (converted ls upper c) = b'%' ∷ replicate ls b'l' ++ letter c upper ∷ []
spelled (unknown ls c) = b'%' ∷ replicate ls b'l' ++ c ∷ []

abbrev pub taken : Item → List ℕ
taken (literal c) = []
taken (converted ls upper c) = arguments c
taken (unknown ls c) = []

abbrev pub shown : Item → List ℕ
shown (literal c) = c ∷ []
shown (converted ls upper c) = output c
shown (unknown ls c) = b'%' ∷ (if flagged ls false then b'l' ∷ [] else []) ++ c ∷ []

-- The chars that the switch has no case for.
abbrev pub HasNoCase : ℕ → Type 0
HasNoCase ch =
    ((ch == 0) ≡ false)
    × ((ch == b'l') ≡ false)
    × (either ch b'B' b'b' ≡ false)
    × (either ch b'C' b'c' ≡ false)
    × (either ch b'S' b's' ≡ false)
    × (either ch b'D' b'd' ≡ false)
    × (either ch b'O' b'o' ≡ false)
    × (either ch b'U' b'u' ≡ false)
    × (either ch b'P' b'p' ≡ false)
    × (either ch b'X' b'x' ≡ false)

abbrev pub Fine : ℕ → Bytes → Item → Type 0
Fine k m (literal c) = c ≢ b'%'
Fine k m (converted ls upper c) = Valid k m c
Fine k m (unknown ls c) = HasNoCase c

abbrev pub AllFine : ℕ → Bytes → List Item → Type 0
AllFine k m [] = Unit
AllFine k m (i ∷ is) = Fine k m i × AllFine k m is

abbrev pub concat : (Item → List ℕ) → List Item → List ℕ
concat f [] = []
concat f (i ∷ is) = f i ++ concat f is

convert-unknown :
    (k : ℕ) (m : Bytes) (lflag : Bool) (ch : ℕ) (ap : List ℕ)
    → HasNoCase ch
    → convert k m lflag ch ap
      ≡ some (b'%' ∷ (if lflag then b'l' ∷ [] else []) ++ ch ∷ [], ap, goes_on text)
unfolding convert
convert-unknown k m lflag ch ap (e0, e1, e2, e3, e4, e5, e6, e7, e8, e9) =
    rw (e0, e1, e2, e3, e4, e5, e6, e7, e8, e9) refl

-- What a run of the loop gives, behind what has been printed.
abbrev Gives : ℕ → ℕ → Bytes → Place → Ptr → List ℕ → List ℕ → List ℕ → Type 0
Gives j k m place p ap out rest = format_loop j k m place p ap ≡ some (out, rest)

-- All runs that have the fuel for the chars `xs` give the same.
abbrev Always : ℕ → Bytes → Place → List ℕ → List ℕ → List ℕ → List ℕ → Type 0
Always j m place xs ap out rest =
    (k : ℕ) (p : Ptr) → length xs < k → IsString m p xs → Gives j k m place p ap out rest

step_text :
    (j : ℕ) (m : Bytes) (c : ℕ) (xs ap out rest : List ℕ)
    → c ≢ b'%'
    → Always j m text xs ap out rest
    → Always j m text (c ∷ xs) ap (c ∷ out) rest
unfolding format_loop format_char Option.bind
step_text j m c xs ap out rest e more zero p lt h = absurd (omega arith)
step_text j m c xs ap out rest ne more (suc k) p lt (at, pos, byte, h) =
    let e : (c == b'%') ≡ false = ground arith in
    let char : (c == 0) ≡ false = ground arith in
    rw (at, e, char, more k (p + 1) (omega arith) h) refl

step_percent :
    (j : ℕ) (m : Bytes) (xs ap out rest : List ℕ)
    → Always j m (conversion false) xs ap out rest
    → Always j m text (b'%' ∷ xs) ap out rest
unfolding format_loop format_char Option.bind
step_percent j m xs ap out rest more zero p lt h = absurd (omega arith)
step_percent j m xs ap out rest more (suc k) p lt (at, pos, byte, h) =
    rw (at, more k (p + 1) (omega arith) h) refl

step_long :
    (j : ℕ) (m : Bytes) (lflag : Bool) (xs ap out rest : List ℕ)
    → Always j m (conversion true) xs ap out rest
    → Always j m (conversion lflag) (b'l' ∷ xs) ap out rest
unfolding format_loop format_char convert Option.bind
step_long j m lflag xs ap out rest more zero p lt h = absurd (omega arith)
step_long j m lflag xs ap out rest more (suc k) p lt (at, pos, byte, h) =
    rw (at, more k (p + 1) (omega arith) h) refl

step_letter :
    (j : ℕ) (m : Bytes) (lflag : Bool) (c : ℕ) (xs ap0 ap1 out1 out rest : List ℕ)
    → convert j m lflag c ap0 ≡ some (out1, ap1, goes_on text)
    → Always j m text xs ap1 out rest
    → Always j m (conversion lflag) (c ∷ xs) ap0 (out1 ++ out) rest
unfolding format_loop format_char Option.bind
step_letter j m lflag c xs ap0 ap1 out1 out rest e more zero p lt h = absurd (omega arith)
step_letter j m lflag c xs ap0 ap1 out1 out rest e more (suc k) p lt (at, pos, byte, h) =
    rw (at, e, more k (p + 1) (omega arith) h) refl

-- Some `l` and a letter.
steps_long :
    (j : ℕ) (m : Bytes) (lflag : Bool) (ls c : ℕ) (xs ap0 ap1 out1 out rest : List ℕ)
    → convert j m (flagged ls lflag) c ap0 ≡ some (out1, ap1, goes_on text)
    → Always j m text xs ap1 out rest
    → Always j m (conversion lflag) (replicate ls b'l' ++ c ∷ xs) ap0 (out1 ++ out) rest
steps_long j m lflag zero c xs ap0 ap1 out1 out rest e more =
    step_letter j m lflag c xs ap0 ap1 out1 out rest e more
steps_long j m lflag (suc zero) c xs ap0 ap1 out1 out rest e more =
    step_long j m lflag (c ∷ xs) ap0 (out1 ++ out) rest
      (steps_long j m true zero c xs ap0 ap1 out1 out rest e more)
steps_long j m lflag (suc (suc ls)) c xs ap0 ap1 out1 out rest e more =
    step_long j m lflag (replicate (suc ls) b'l' ++ c ∷ xs) ap0 (out1 ++ out) rest
      (steps_long j m true (suc ls) c xs ap0 ap1 out1 out rest e more)

end_of_format : (j : ℕ) (m : Bytes) (ap : List ℕ) → Always j m text [] ap (0 ∷ []) ap
unfolding format_loop format_char Option.bind
end_of_format j m ap zero p lt h = absurd (omega arith)
end_of_format j m ap (suc k) p lt h = rw h refl

items_shown :
    (j : ℕ) (m : Bytes) (items : List Item) (ap : List ℕ)
    → AllFine j m items
    → Always j m text
        (concat spelled items)
        (concat taken items ++ ap)
        (concat shown items ++ 0 ∷ [])
        ap
items_shown j m [] ap fine = end_of_format j m ap
items_shown j m (literal c ∷ items) ap (e, fine) =
    step_text j m c (concat spelled items) (concat taken items ++ ap) (concat shown items ++ 0 ∷ [])
      ap e (items_shown j m items ap fine)
items_shown j m (converted ls upper c ∷ items) ap (v, fine) =
    let rest = concat taken items ++ ap in
    rw
      (
        append_assoc (replicate ls b'l') (letter c upper ∷ []) (concat spelled items),
        append_assoc (arguments c) (concat taken items) ap,
        append_assoc (output c) (concat shown items) (0 ∷ []),
      )
      (step_percent j m (replicate ls b'l' ++ letter c upper ∷ concat spelled items)
        (arguments c ++ rest) (output c ++ (concat shown items ++ 0 ∷ [])) ap
        (steps_long j m false ls (letter c upper) (concat spelled items) (arguments c ++ rest) rest
          (output c) (concat shown items ++ 0 ∷ []) ap
          (convert-output j m (flagged ls false) upper c rest v) (items_shown j m items ap fine)))
items_shown j m (unknown ls c ∷ items) ap (e, fine) =
    let rest = concat taken items ++ ap in
    rw
      (
        append_assoc (replicate ls b'l') (c ∷ []) (concat spelled items),
        append_assoc (shown (unknown ls c)) (concat shown items) (0 ∷ []),
      )
      (step_percent j m (replicate ls b'l' ++ c ∷ concat spelled items) rest
        (shown (unknown ls c) ++ (concat shown items ++ 0 ∷ [])) ap
        (steps_long j m false ls c (concat spelled items) rest rest (shown (unknown ls c))
          (concat shown items ++ 0 ∷ []) ap (convert-unknown j m (flagged ls false) c rest e)
          (items_shown j m items ap fine)))

-- A format ends, prints its items one behind the other and the terminator, and takes just their arguments.
pub raw_do_fmt-shown :
    (k : ℕ) (m : Bytes) (fmt : Ptr) (items : List Item) (rest : List ℕ)
    → AllFine k m items
    → IsString m fmt (concat spelled items)
    → length (concat spelled items) < k
    → raw_do_fmt k m fmt (concat taken items ++ rest) ≡ some (concat shown items ++ 0 ∷ [], rest)
unfolding raw_do_fmt
raw_do_fmt-shown k m fmt items rest fine h lt = items_shown k m items rest fine k fmt lt h
