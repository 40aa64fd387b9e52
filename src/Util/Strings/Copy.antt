-- ===== src/Util/Strings/Copy.antt =====
-- Strcpy and Strcat of src/kickstart/lib.util/cstr.c: the string that is copied, and what stays as it was.
use mathlib.Core.Path.{subst, ◌∙◌}
use poweros_raspi.Base.{
  ℕ, zero, suc, ◌+◌, ◌≤◌, ◌<◌, ◌≡◌, ◌≢◌, ◌⊎◌, refl, true, false, some, List, [], ◌∷◌, ◌++◌, ◌==◌,
  length, arith, inl,
}
use poweros_raspi.ExecList.{Ptr, write}
use poweros_raspi.Util.Strings.{Bytes, IsString, copy_loop, strcpy, strcat}
use poweros_raspi.Util.Strings.Compare.{end_of-IsString}

-- A copy of `k` chars and the terminator from `s` to `d` does not write what it has yet to read.
abbrev pub Copies : Ptr → Ptr → ℕ → Type 0
Copies d s k = (d ≤ s) ⊎ (s + k < d)

-- The addresses outside of the `k + 1` chars at `d` hold in `m2` what they hold in `m1`.
abbrev pub SameOutside : Ptr → ℕ → Bytes → Bytes → Type 0
SameOutside d k m1 m2 = (q : Ptr) → (q < d) ⊎ (d + k < q) → m2 q ≡ m1 q

write-same : (m : Bytes) (d v : ℕ) → write m d v d ≡ v
write-same m d v = let at : (d == d) ≡ true = ground arith in rw at refl

write-other : (m : Bytes) (d v q : ℕ) → q ≢ d → write m d v q ≡ m q
write-other m d v q ne = let at : (q == d) ≡ false = ground arith in rw at refl

-- A string keeps its place where the memory is the same.
pub IsString-same :
    (m1 m2 : Bytes) (p : Ptr) (xs : List ℕ)
    → ((q : Ptr) → p ≤ q → q ≤ p + length xs → m2 q ≡ m1 q)
    → IsString m1 p xs
    → IsString m2 p xs
IsString-same m1 m2 p [] same h = same p (omega arith) (omega arith) ∙ h
IsString-same m1 m2 p (x ∷ xs) same (e, pos, byte, h) = (
  same p (omega arith) (omega arith) ∙ e,
  pos,
  byte,
  IsString-same m1 m2 (p + 1) xs (λ q lo hi. same q (omega arith) (omega arith)) h,
)

-- The terminator is behind the chars.
pub IsString-end : (m : Bytes) (p : Ptr) (xs : List ℕ) → IsString m p xs → m (p + length xs) ≡ 0
IsString-end m p [] h = subst (λ a. m a ≡ 0) (omega arith) h
IsString-end m p (x ∷ xs) (e, pos, byte, h) =
    subst (λ a. m a ≡ 0) (omega arith) (IsString-end m (p + 1) xs h)

-- A string that goes on at its end.
IsString-append :
    (m1 m2 : Bytes) (p : Ptr) (xs ys : List ℕ)
    → ((q : Ptr) → p ≤ q → q < p + length xs → m2 q ≡ m1 q)
    → IsString m1 p xs
    → IsString m2 (p + length xs) ys
    → IsString m2 p (xs ++ ys)
IsString-append m1 m2 p [] ys same h k = subst (λ a. IsString m2 a ys) (omega arith) k
IsString-append m1 m2 p (x ∷ xs) ys same (e, pos, byte, h) k = (
  same p (omega arith) (omega arith) ∙ e,
  pos,
  byte,
  IsString-append m1 m2 (p + 1) xs ys (λ q lo hi. same q (omega arith) (omega arith)) h
      (subst (λ a. IsString m2 a ys) (omega arith) k),
)

copy_loop-IsString :
    (n : ℕ) (m : Bytes) (d s : Ptr) (xs : List ℕ)
    → length xs < n
    → Copies d s (length xs)
    → IsString m s xs
    → (c : Bytes) × (copy_loop n m d s ≡ some c) × IsString c d xs × SameOutside d (length xs) m c
unfolding copy_loop
copy_loop-IsString zero m d s xs lt apart h = absurd (omega arith)
copy_loop-IsString (suc n) m d s [] lt apart h =
    let at : (m s == 0) ≡ true = ground arith in
    rw at (_, refl, write-same m d (m s) ∙ h, λ q out. write-other m d (m s) q (ground arith))
copy_loop-IsString (suc n) m d s (x ∷ xs) lt apart (e, pos, byte, h) =
    let at : (m s == 0) ≡ false = ground arith in
    let m1 : Bytes = write m d (m s) in
    let moved : IsString m1 (s + 1) xs =
      IsString-same m m1 (s + 1) xs (λ q lo hi. write-other m d (m s) q (ground arith)) h in
    let (c, ran, copied, same) =
      copy_loop-IsString n m1 (d + 1) (s + 1) xs (omega arith) (ground arith) moved in
    rw at (
      c,
      ran,
      (same d (inl (omega arith)) ∙ write-same m d (m s) ∙ e, pos, byte, copied),
      λ q out. same q (ground arith) ∙ write-other m d (m s) q (ground arith),
    )

-- Strcpy copies the string and changes nothing else.
pub strcpy-IsString :
    (n : ℕ) (m : Bytes) (dst src : Ptr) (xs : List ℕ)
    → length xs < n
    → Copies dst src (length xs)
    → IsString m src xs
    → (c : Bytes) × (strcpy n m dst src ≡ some c)
      × IsString c dst xs
      × SameOutside dst (length xs) m c
unfolding strcpy
strcpy-IsString n m dst src xs lt apart h = copy_loop-IsString n m dst src xs lt apart h

-- Strcat sets the second string behind the first: both together are the string there, and nothing else
-- changes.
pub strcat-IsString :
    (n : ℕ) (m : Bytes) (s1 s2 : Ptr) (xs ys : List ℕ)
    → length xs < n
    → length ys < n
    → Copies (s1 + length xs) s2 (length ys)
    → IsString m s1 xs
    → IsString m s2 ys
    → (c : Bytes) × (strcat n m s1 s2 ≡ some c)
      × IsString c s1 (xs ++ ys)
      × SameOutside (s1 + length xs) (length ys) m c
unfolding strcat
strcat-IsString n m s1 s2 xs ys lt lt2 apart h k =
    let (c, ran, copied, same) = copy_loop-IsString n m (s1 + length xs) s2 ys lt2 apart k in
    rw (end_of-IsString n m s1 xs lt h)
      (c, ran, IsString-append m c s1 xs ys (λ q lo hi. same q (inl hi)) h copied, same)
