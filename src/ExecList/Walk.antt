-- ===== src/ExecList/Walk.antt =====
-- Enqueue and FindName: the loops that walk over a list.
use poweros_raspi.Base.{
  ℕ, zero, suc, ◌+◌, ◌<◌, ◌≡◌, ◌≢◌, ◌↔◌, refl, ap, true, false, Option, none, some, List, [], ◌∷◌,
  ◌++◌, arith, ◌==◌, if◌then◌else◌, length, int8_gt, Bool-cases, inl, inr,
}
use poweros_raspi.ExecList.{
  Ptr, null, Mem, enqueue, enqueue_loop, insert_before, add_head, strcmp_eq, find_loop, find_name,
}
use poweros_raspi.ExecList.Chain.{Chain, last, first, IsList, IsFresh, NonNull}
use poweros_raspi.ExecList.Relink.{IsList-link}
use poweros_raspi.ExecList.Gap.{Gap-at, Linked-frame, insert_before-Linked}
use poweros_raspi.ExecList.Ops.{SameOutside, add_head-IsList, first-nonnull}
use poweros_raspi.ExecList.Queue.{enqueue_by, find_by, IsByPri}

Chain-next : (m : Mem) (a : Ptr) (xs : List Ptr) (e : Ptr) → Chain m a xs e → m a ≡ first xs e
Chain-next m a [] e ch = ch.0
Chain-next m a (x ∷ xs) e ch = ch.0

module _ (ln_pri : Ptr → ℕ) (pri : ℕ) where
  -- The nodes that Enqueue passes, and those before which it inserts.
  passed : List Ptr → List Ptr
  passed [] = []
  passed (x ∷ xs) = if int8_gt pri (ln_pri x) then [] else x ∷ passed xs

  rest : List Ptr → List Ptr
  rest [] = []
  rest (x ∷ xs) = if int8_gt pri (ln_pri x) then x ∷ xs else rest xs

  passed-append-rest : (xs : List Ptr) → passed xs ++ rest xs ≡ xs
  unfolding passed rest
  passed-append-rest [] = refl
  passed-append-rest (x ∷ xs) = elim (Bool-cases (int8_gt pri (ln_pri x))) [
    | inl e ↦ rw e
    | inr e ↦ rw e (ap (◌∷◌ x) (passed-append-rest xs))
  ]

  enqueue_loop-rest :
      (m : Mem) (a : Ptr) (xs : List Ptr) (l fuel : ℕ)
      → Chain m a xs (l + 4)
      → m (l + 4) ≡ null
      → NonNull xs
      → length xs < fuel
      → enqueue_loop ln_pri fuel pri (first xs (l + 4)) m ≡ some (first (rest xs) (l + 4))
  unfolding enqueue_loop rest
  enqueue_loop-rest m a xs l zero ch t nn f = absurd (omega arith)
  enqueue_loop-rest m a [] l (suc fuel) ch t nn f = rw t
  enqueue_loop-rest m a (x ∷ xs) l (suc fuel) ch t nn f =
      let next = Chain-next m x xs (l + 4) ch.2 in
      let set = first-nonnull l xs nn.1 in
      let go : (m x == null) ≡ false = ground arith in
      let ih = enqueue_loop-rest m x xs l fuel ch.2 t nn.1 (omega arith) in
      elim (Bool-cases (int8_gt pri (ln_pri x))) [
        | inl e ↦ rw (go, e)
        | inr e ↦ rw (go, e, next) ih
      ]

enqueue_by-split :
    (ln_pri : Ptr → ℕ) (n : Ptr) (xs : List Ptr)
    → enqueue_by ln_pri n xs ≡ passed ln_pri (ln_pri n) xs ++ n ∷ rest ln_pri (ln_pri n) xs
unfolding passed rest
enqueue_by-split ln_pri n [] = refl
enqueue_by-split ln_pri n (x ∷ xs) = elim (Bool-cases (int8_gt (ln_pri n) (ln_pri x))) [
  | inl e ↦ rw e
  | inr e ↦ rw e (ap (◌∷◌ x) (enqueue_by-split ln_pri n xs))
]

-- The walk gives a memory, and it holds `xs`, changed at no other words than those of `node` and
-- of the old list.
abbrev pub Gives : Mem → Option Mem → Ptr → List Ptr → List Ptr → Ptr → Type 0
Gives m none l old xs node = ⊥
Gives m (some m') l old xs node = IsList m' l xs × SameOutside m m' l old node

-- Inserting before the node where the walk ends gives the sequence of `enqueue_by`.
insert_rest :
    (ln_pri : Ptr → ℕ) {m : Mem} {l : Ptr} {node : Ptr} (xs : List Ptr)
    → IsList m l xs
    → IsFresh l xs node
    → Gives m
        (some (insert_before (first (rest ln_pri (ln_pri node) xs) (l + 4)) node m))
        l
        xs
        (enqueue_by ln_pri node xs)
        node
insert_rest ln_pri {m} {l} {node} xs is new =
    let ps = passed ln_pri (ln_pri node) xs in
    let rs = rest ln_pri (ln_pri node) xs in
    let whole = passed-append-rest ln_pri (ln_pri node) xs in
    let is' : IsList m l (ps ++ rs) = rw whole is in
    let new' : IsFresh l (ps ++ rs) node = rw whole new in
    let lk = insert_before-Linked m (last l ps) node (first rs (l + 4)) (Gap-at ps rs is' new') in
    rw enqueue_by-split (
      IsList-link m _ l node ps rs is' new' lk,
      λ c p q off. Linked-frame m _ l node ps rs lk c p q (rw whole off),
    )

enqueue-empty :
    (ln_pri : Ptr → ℕ) (fuel : ℕ) (m : Mem) (l node : Ptr)
    → m (m l) ≡ null
    → enqueue ln_pri fuel l node m ≡ some (add_head l node m)
unfolding enqueue
enqueue-empty ln_pri fuel m l node e = rw e

enqueue-walk :
    (ln_pri : Ptr → ℕ) (fuel : ℕ) (m : Mem) (l node b : Ptr)
    → m (m l) ≢ null
    → enqueue_loop ln_pri fuel (ln_pri node) (m l) m ≡ some b
    → enqueue ln_pri fuel l node m ≡ some (insert_before b node m)
unfolding enqueue
enqueue-walk ln_pri fuel m l node b ne e =
    let go : (m (m l) == null) ≡ false = ground arith in rw (go, e)

-- With fuel beyond the length, Enqueue inserts the node before the first one of a lower priority,
-- and writes at no other words than those of the node and of the list.
pub enqueue-IsList :
    (ln_pri : Ptr → ℕ) (fuel : ℕ) {m : Mem} {l node : Ptr} (xs : List Ptr)
    → IsList m l xs
    → IsFresh l xs node
    → length xs < fuel
    → Gives m (enqueue ln_pri fuel l node m) l xs (enqueue_by ln_pri node xs) node
enqueue-IsList ln_pri fuel {m} {l} {node} [] is new f =
    rw (enqueue-empty ln_pri fuel m l node (ground (arith, is.chain.0, is.tail_null)))
      (add_head-IsList is new)
enqueue-IsList ln_pri fuel {m} {l} {node} (x ∷ xs) is new f =
    let next = Chain-next m x xs (l + 4) is.chain.2 in
    let set = first-nonnull l xs is.nonnull.1 in
    let loop =
      enqueue_loop-rest ln_pri (ln_pri node) m l (x ∷ xs) l fuel is.chain is.tail_null is.nonnull
        f in
    let ran =
      enqueue-walk ln_pri fuel m l node _ (ground (arith, is.chain.0)) (rw (is.chain.0) loop) in
    rw ran (insert_rest ln_pri (x ∷ xs) is new)

-- Enqueue keeps a list sorted by priority, the highest first.
pub enqueue_by-IsByPri {ℓ} :
    {A : Type ℓ} (pri : A → ℕ) (n : A) (xs : List A)
    → IsByPri pri xs
    → IsByPri pri (enqueue_by pri n xs)
enqueue_by-IsByPri pri n [] h = tt
enqueue_by-IsByPri pri n (x ∷ []) h = ground arith
enqueue_by-IsByPri pri n (x ∷ y ∷ xs) h = elim (Bool-cases (int8_gt (pri n) (pri x))) [
  | inl e ↦ rw e (ground arith, h)
  | inr e ↦ rw e (elim (Bool-cases (int8_gt (pri n) (pri y))) [
    | inl e' ↦ rw e' (e, (ground arith, h.1))
    | inr e' ↦ rw e' (h.0, rw e' at (enqueue_by-IsByPri pri n (y ∷ xs) h.1))
  ])
]

-- The node that FindName answers, NULL for none.
abbrev pub found : Option Ptr → Ptr
found none = null
found (some p) = p

find_loop-find :
    (ln_name : Ptr → List ℕ) (name : List ℕ) (fuel : ℕ) (m : Mem) (a : Ptr) (xs : List Ptr)
    (l : Ptr)
    → Chain m a xs (l + 4)
    → m (l + 4) ≡ null
    → NonNull xs
    → length xs < fuel
    → find_loop ln_name name fuel (first xs (l + 4)) m
      ≡ some (found (find_by (λ x. strcmp_eq (ln_name x) name) xs))
unfolding find_loop
find_loop-find ln_name name zero m a xs l ch t nn f = absurd (omega arith)
find_loop-find ln_name name (suc fuel) m a [] l ch t nn f = rw t
find_loop-find ln_name name (suc fuel) m a (x ∷ xs) l ch t nn f =
    let next = Chain-next m x xs (l + 4) ch.2 in
    let set = first-nonnull l xs nn.1 in
    let go : (m x == null) ≡ false = ground arith in
    let ih = find_loop-find ln_name name fuel m x xs l ch.2 t nn.1 (omega arith) in
    elim (Bool-cases (strcmp_eq (ln_name x) name)) [
      | inl e ↦ rw (go, e)
      | inr e ↦ rw (go, e, next) ih
    ]

-- strcmp answers 0 exactly on equal strings.
pub strcmp_eq_iff : (s t : List ℕ) → (strcmp_eq s t ≡ true) ↔ (s ≡ t)
unfolding strcmp_eq
strcmp_eq_iff [] [] = (λ e. refl, λ e. refl)
strcmp_eq_iff [] (c ∷ t) = (λ e. cc, λ e. cc)
strcmp_eq_iff (b ∷ s) [] = (λ e. cc, λ e. cc)
strcmp_eq_iff (b ∷ s) (c ∷ t) = let ih = strcmp_eq_iff s t in ground arith

-- With fuel beyond the length, FindName answers the first node with that name, or NULL.
pub find_name-find :
    (ln_name : Ptr → List ℕ) (name : List ℕ) (fuel : ℕ) {m : Mem} {l : Ptr} (xs : List Ptr)
    → IsList m l xs
    → length xs < fuel
    → find_name ln_name name fuel l m ≡ some (found (find_by (λ x. strcmp_eq (ln_name x) name) xs))
unfolding find_name
find_name-find ln_name name fuel {m} {l} xs is f =
    rw (Chain-next m l xs (l + 4) is.chain)
      (find_loop-find ln_name name fuel m l xs l is.chain is.tail_null is.nonnull f)
