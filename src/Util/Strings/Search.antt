-- ===== src/Util/Strings/Search.antt =====
-- Strchr and Strrchr of src/kickstart/lib.util/cstr.c against the characters of the string.
use mathlib.Core.Path.{sym, ◌∙◌}
use poweros_raspi.Base.{
  ℕ, zero, suc, ◌+◌, ◌<◌, ◌≡◌, refl, true, false, some, List, [], ◌∷◌, ◌==◌, if◌then◌else◌, length,
  arith, Bool-cases, inl, inr,
}
use poweros_raspi.ExecList.{Ptr, null}
use poweros_raspi.Util.Strings.{Bytes, IsString, seek, strchr, last_loop, strrchr}

-- Where `c` stands first in a string at `p`; the terminator is its last char.
abbrev pub first_at : ℕ → Ptr → List ℕ → Ptr
first_at c p [] = if 0 == c then p else null
first_at c p (x ∷ xs) = if x == c then p else first_at c (p + 1) xs

-- Where `c` stands last, or `last`.
abbrev pub last_at : ℕ → Ptr → List ℕ → Ptr → Ptr
last_at c p [] last = last
last_at c p (x ∷ xs) last = last_at c (p + 1) xs (if x == c then p else last)

-- Strchr finds the first of the char, or NULL.
pub strchr-first :
    (n : ℕ) (m : Bytes) (p : Ptr) (xs : List ℕ) (c : ℕ)
    → length xs < n
    → IsString m p xs
    → strchr n m p c ≡ some (first_at c p xs)
unfolding strchr seek
strchr-first zero m p xs c lt h = absurd (omega arith)
strchr-first (suc n) m p [] c lt h =
    let end : (m p == 0) ≡ true = ground arith in rw end (rw h refl)
strchr-first (suc n) m p (x ∷ xs) c lt (e, pos, byte, h) =
    let open_yet : (m p == 0) ≡ false = ground arith in
    let rest = strchr-first n m (p + 1) xs c (omega arith) h in
    elim (Bool-cases (x == c)) [
      | inl y ↦ let at : (m p == c) ≡ true = ground arith in rw (open_yet, at, y) (rw at refl)
      | inr other ↦ let at : (m p == c) ≡ false = ground arith in rw (open_yet, at, other) rest
    ]

last_loop-last :
    (n : ℕ) (m : Bytes) (p : Ptr) (xs : List ℕ) (c : ℕ) (last : Ptr)
    → suc (length xs) < n
    → 0 < p
    → 0 < c
    → IsString m p xs
    → last_loop n m p c last ≡ some (last_at c p xs last)
unfolding last_loop
last_loop-last zero m p xs c last lt nonnull char h = absurd (omega arith)
last_loop-last (suc n) m p [] c last lt nonnull char h =
    let at : (0 == c) ≡ false = ground arith in
    rw (strchr-first n m p [] c (omega arith) h) (rw at refl)
last_loop-last (suc n) m p (x ∷ xs) c last lt nonnull char h = elim (Bool-cases (x == c)) [
  | inl y ↦
      let at : (p == null) ≡ false = ground arith in
      rw (strchr-first n m p (x ∷ xs) c (omega arith) h)
        (rw y (rw at (last_loop-last n m (p + 1) xs c p (omega arith) (omega arith) char h.3)))
  | inr other ↦
      let skip : strchr n m p c ≡ strchr n m (p + 1) c =
        strchr-first n m p (x ∷ xs) c (omega arith) h
        ∙ rw other (sym (strchr-first n m (p + 1) xs c (omega arith) h.3)) in
      rw (skip, other)
        (last_loop-last (suc n) m (p + 1) xs c last (omega arith) (omega arith) char h.3)
]

-- Strrchr finds the last of a char that is not the terminator, or NULL.
pub strrchr-last :
    (n : ℕ) (m : Bytes) (p : Ptr) (xs : List ℕ) (c : ℕ)
    → suc (length xs) < n
    → 0 < p
    → 0 < c
    → IsString m p xs
    → strrchr n m p c ≡ some (last_at c p xs null)
unfolding strrchr
strrchr-last n m p xs c lt nonnull char h =
    let at : (c == 0) ≡ false = ground arith in
    rw at (last_loop-last n m p xs c null lt nonnull char h)
