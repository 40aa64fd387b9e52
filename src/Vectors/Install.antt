-- ===== src/Vectors/Install.antt =====
-- What the loops of src/kickstart/lib.exec/_functab.c and resident.c leave in memory: each function of the table at its
-- vector, and all else as it was.
use mathlib.Core.Option
use mathlib.Core.Path.{subst, sym, ◌∙◌}
use poweros_raspi.Base.{
  ℕ, zero, suc, ◌+◌, ◌-◌, ◌*◌, ◌≤◌, ◌<◌, ◌^◌, ◌≡◌, ◌≢◌, ◌⊎◌, refl, ap, true, false, some, List, [],
  ◌∷◌, ◌==◌, arith, length, get_elem?, map, inl,
}
use poweros_raspi.ExecList.{Ptr, Mem, write}
use poweros_raspi.Vectors.{
  end_mark, get_jump_vec, get_vec_addr, count_loop, count_func, install_loop, int_make_functions,
  half_at, neg_size, make_functions,
}

-- The functions `xs` and the -1 behind them are in memory from `p` on.
abbrev pub IsTable : Mem → Ptr → List ℕ → Type 0
IsTable m p [] = m p ≡ end_mark
IsTable m p (x ∷ xs) = (m p ≡ x) × (x ≢ end_mark) × IsTable m (p + 4) xs

-- From the vector `n` on there are the functions `xs`.
abbrev pub Vectors : Mem → Ptr → ℕ → List ℕ → Type 0
Vectors m lib n [] = Unit
Vectors m lib n (x ∷ xs) = (get_vec_addr lib n m ≡ x) × Vectors m lib (n + 1) xs

-- The vectors from `n` to `n + k - 1` are words below the base, and those that stay out of `[p, p + 4 * k]`.
pub record Fits (lib : Ptr) (n k : ℕ) (p : Ptr) : Type 0 where
  pub below : 4 * (n + k) ≤ lib + 4
  pub small : lib < 2 ^ 32
  pub apart : (lib ≤ p) ⊎ (p + 4 * k + 4 * (n + k) < lib + 4)

jump_vec : (lib n : ℕ) → 4 * n ≤ lib → lib < 2 ^ 32 → get_jump_vec lib n ≡ lib - 4 * n
unfolding get_jump_vec
jump_vec lib n le small = omega arith

write-same : (m : Mem) (p v : ℕ) → write m p v p ≡ v
write-same m p v = let at : (p == p) ≡ true = ground arith in rw at refl

write-other : (m : Mem) (p v q : ℕ) → q ≢ p → write m p v q ≡ m q
write-other m p v q ne = let at : (q == p) ≡ false = ground arith in rw at refl

IsTable-same :
    (m1 m2 : Mem) (p : Ptr) (xs : List ℕ)
    → ((q : Ptr) → p ≤ q → q ≤ p + 4 * length xs → m2 q ≡ m1 q)
    → IsTable m1 p xs
    → IsTable m2 p xs
IsTable-same m1 m2 p [] same h = same p (omega arith) (omega arith) ∙ h
IsTable-same m1 m2 p (x ∷ xs) same (e, ne, h) = (
  same p (omega arith) (omega arith) ∙ e,
  ne,
  IsTable-same m1 m2 (p + 4) xs (λ q lo hi. same q (omega arith) (omega arith)) h,
)

-- What is not at one of the vectors from `n` to `n + k - 1` stays.
abbrev pub SameElsewhere : Ptr → ℕ → ℕ → Mem → Mem → Type 0
SameElsewhere lib n k m r = (q : Ptr) → (lib < q + 4 * n) ⊎ (q + 4 * (n + k) < lib + 4) → r q ≡ m q

-- The vectors depend only on the words below the base.
pub Vectors-below :
    (l n : ℕ) (xs : List ℕ) (m r : Mem)
    → 0 < n
    → 4 * (n + length xs) ≤ l + 4
    → l < 2 ^ 32
    → ((q : Ptr) → q < l → r q ≡ m q)
    → Vectors m l n xs
    → Vectors r l n xs
unfolding get_vec_addr
Vectors-below l n [] m r pos le small same h = tt
Vectors-below l n (x ∷ xs) m r pos le small same (e, h) =
    let v : get_jump_vec l n ≡ l - 4 * n = jump_vec l n (omega arith) small in
    (
      ap r v ∙ same (l - 4 * n) (omega arith) ∙ sym (ap m v) ∙ e,
      Vectors-below l (n + 1) xs m r (omega arith) (omega arith) small same h,
    )

-- The loop from the vector `n` on.
install_loop-Vectors :
    (k : ℕ) (lib p : Ptr) (n : ℕ) (xs : List ℕ) (m : Mem)
    → length xs < k
    → 0 < n
    → Fits lib n (length xs) p
    → IsTable m p xs
    → (r : Mem) × (install_loop k lib p n m ≡ some r)
      × Vectors r lib n xs
      × SameElsewhere lib n (length xs) m r
unfolding install_loop get_vec_addr
install_loop-Vectors zero lib p n xs m lt pos f t = absurd (omega arith)
install_loop-Vectors (suc k) lib p n [] m lt pos f t =
    let over : (m p == end_mark) ≡ true = ground arith in rw over (m, refl, tt, λ q out. refl)
install_loop-Vectors (suc k) lib p n (x ∷ xs) m lt pos f (e, ne, t) =
    let go : (m p == end_mark) ≡ false = ground arith in
    let v : get_jump_vec lib n ≡ lib - 4 * n = jump_vec lib n (omega (arith, f.below)) f.small in
    let m1 = write m (get_jump_vec lib n) (m p) in
    let moved : IsTable m1 (p + 4) xs =
      IsTable-same m m1 (p + 4) xs
        (λ q lo hi. write-other m (get_jump_vec lib n) (m p) q (ground (arith, f.below, f.apart)))
        t in
    let rest : Fits lib (n + 1) (length xs) (p + 4) = record {
      below = omega (arith, f.below);
      small = f.small;
      apart = ground (arith, f.apart);
    } in
    let (r, ran, vs, same) =
      install_loop-Vectors k lib (p + 4) (n + 1) xs m1 (omega arith) (omega arith) rest moved in
    rw go (
      r,
      ran,
      (
        same (get_jump_vec lib n) (inl (omega (arith, f.below)))
            ∙ write-same m (get_jump_vec lib n) (m p)
            ∙ e,
        vs,
      ),
      λ q out.
          same q (ground arith)
          ∙ write-other m (get_jump_vec lib n) (m p) q (ground (arith, f.below)),
    )

-- IntMakeFunctions of a table that is apart from the vectors puts every function of it at its vector, the first
-- at vector 1, and changes nothing at the base or above it, or below the last vector.
pub int_make_functions-Vectors :
    (k : ℕ) (lib p : Ptr) (xs : List ℕ) (m : Mem)
    → length xs < k
    → Fits lib 1 (length xs) p
    → IsTable m p xs
    → (r : Mem) × (int_make_functions k lib p m ≡ some r)
      × Vectors r lib 1 xs
      × SameElsewhere lib 1 (length xs) m r
unfolding int_make_functions
int_make_functions-Vectors k lib p xs m lt f t =
    install_loop-Vectors k lib p 1 xs m lt (omega arith) f t

pub Vectors-get_elem? :
    (m : Mem) (lib n i : ℕ) (xs : List ℕ) (x : ℕ)
    → Vectors m lib n xs
    → get_elem? xs i ≡ some x
    → get_vec_addr lib (n + i) m ≡ x
Vectors-get_elem? m lib n i [] x vs e = absurd cc
Vectors-get_elem? m lib n zero (y ∷ xs) x (v, vs) e = ground arith
Vectors-get_elem? m lib n (suc i) (y ∷ xs) x (v, vs) e =
    let shift : n + suc i ≡ (n + 1) + i = omega arith in
    rw shift (Vectors-get_elem? m lib (n + 1) i xs x vs e)

count_loop-length :
    (k : ℕ) (m : Mem) (p : Ptr) (n : ℕ) (xs : List ℕ)
    → length xs < k
    → IsTable m p xs
    → count_loop k m p n ≡ some (n + length xs)
unfolding count_loop
count_loop-length zero m p n xs lt t = absurd (omega arith)
count_loop-length (suc k) m p n [] lt t =
    let over : (m p == end_mark) ≡ true = ground arith in rw over (ap some (omega arith))
count_loop-length (suc k) m p n (x ∷ xs) lt (e, ne, t) =
    let go : (m p == end_mark) ≡ false = ground arith in
    rw go (count_loop-length k m (p + 4) (n + 1) xs (omega arith) t ∙ ap some (omega arith))

-- intern_CountFunc is four bytes for each function.
pub count_func-length :
    (k : ℕ) (m : Mem) (p : Ptr) (xs : List ℕ)
    → length xs < k
    → 4 * length xs < 2 ^ 32
    → IsTable m p xs
    → count_func k m p ≡ some (4 * length xs)
unfolding count_func
count_func-length k m p xs lt small t =
    rw (count_loop-length k m p 0 xs lt t) (ap some (omega arith))

get_elem?-map :
    {A : Type 0} (g : A → ℕ) (xs : List A) (i : ℕ) (x : A)
    → get_elem? xs i ≡ some x
    → get_elem? (map g xs) i ≡ some (g x)
get_elem?-map g [] i x e = absurd cc
get_elem?-map g (y ∷ xs) zero x e = ap (Option.map g) e
get_elem?-map g (y ∷ xs) (suc i) x e = get_elem?-map g xs i x e

length-map : {A : Type 0} (g : A → ℕ) (xs : List A) → length (map g xs) ≡ length xs
length-map g [] = refl
length-map g (y ∷ xs) = ap suc (length-map g xs)

-- A table of functions, whose addresses `entry` gives, is installed: the one at the place `i` is called through the
-- vector `i + 1`.
pub int_make_functions-calls :
    {A : Type 0} (entry : A → ℕ) (tab : List A) (k : ℕ) (lib p : Ptr) (m : Mem)
    → length tab < k
    → Fits lib 1 (length tab) p
    → IsTable m p (map entry tab)
    → (r : Mem) × (int_make_functions k lib p m ≡ some r)
      × ((i : ℕ) (f : A) → get_elem? tab i ≡ some f → get_vec_addr lib (suc i) r ≡ entry f)
int_make_functions-calls entry tab k lib p m fuel fits t =
    let e : length (map entry tab) ≡ length tab = length-map entry tab in
    let (r, ran, vs, same) =
      int_make_functions-Vectors k lib p (map entry tab) m (omega arith)
        (subst (λ l. Fits lib 1 l p) (sym e) fits) t in
    (
      r,
      ran,
      λ i f at.
          let shift : suc i ≡ 1 + i = omega arith in
          rw shift (
            Vectors-get_elem? r lib 1 i (map entry tab) (entry f) vs
              (get_elem?-map entry tab i f at)),
    )

-- The size that MakeLibrary gives to the jump table of an array of pointers.
pub neg_size-length :
    (k : ℕ) (m : Mem) (p : Ptr) (xs : List ℕ)
    → length xs < k
    → 4 * length xs < 2 ^ 32
    → half_at m p ≢ 65535
    → IsTable m p xs
    → neg_size k m p ≡ some (4 * length xs)
unfolding neg_size count_func
neg_size-length k m p xs lt small pointers t =
    let e : (half_at m p == 65535) ≡ false = ground arith in
    rw e (count_func-length k m p xs lt small t)

-- MakeFunctions of an array of pointers puts every function of it at its vector.
pub make_functions-Vectors :
    (k : ℕ) (lib p : Ptr) (xs : List ℕ) (m : Mem)
    → length xs < k
    → Fits lib 1 (length xs) p
    → IsTable m p xs
    → (r : Mem) × (make_functions k lib p 0 m ≡ some r)
      × Vectors r lib 1 xs
      × SameElsewhere lib 1 (length xs) m r
unfolding make_functions
make_functions-Vectors k lib p xs m lt f t =
    install_loop-Vectors k lib p 1 xs m lt (omega arith) f t
