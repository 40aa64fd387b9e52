-- ===== src/ExecList/Chain.antt =====
-- What a list in memory stands for: the chain of links from node to node.
use poweros_raspi.Base.{◌+◌, ◌≡◌, ◌≢◌, List, [], ◌∷◌, ◌++◌, arith, All, Off, Distinct}
use poweros_raspi.ExecList.{Ptr, null, Mem}

-- From `a` the successors lead through `xs` to `e`, and the predecessors back.
abbrev pub Chain : Mem → Ptr → List Ptr → Ptr → Type 0
Chain m a [] e = (m a ≡ e) × (m (e + 4) ≡ a)
Chain m a (x ∷ xs) e = (m a ≡ x) × (m (x + 4) ≡ a) × Chain m x xs e

-- The addresses of those links.
abbrev pub words : Ptr → List Ptr → Ptr → List Ptr
words a [] e = a ∷ (e + 4) ∷ []
words a (x ∷ xs) e = a ∷ (x + 4) ∷ words x xs e

abbrev pub last : Ptr → List Ptr → Ptr
last a [] = a
last a (x ∷ xs) = last x xs

abbrev pub first : List Ptr → Ptr → Ptr
first [] e = e
first (x ∷ xs) e = x

abbrev pub NonNull : List Ptr → Type 0
NonNull [] = Unit
NonNull (x ∷ xs) = (x ≢ null) × NonNull xs

-- The list at `l` holds the nodes `xs` in order, and no two of its words overlap.
pub record IsList (m : Mem) (l : Ptr) (xs : List Ptr) : Type 0 where
  pub chain : Chain m l xs (l + 4)
  pub tail_null : m (l + 4) ≡ null
  pub head_nonnull : l ≢ null
  pub nonnull : NonNull xs
  pub distinct : Distinct (words l xs (l + 4))
  pub tail_off : Off (l + 4) (words l xs (l + 4))

-- The words of `node` are no links of the list.
pub record IsFresh (l : Ptr) (xs : List Ptr) (node : Ptr) : Type 0 where
  pub nonnull : node ≢ null
  pub succ_off : Off node (words l xs (l + 4))
  pub pred_off : Off (node + 4) (words l xs (l + 4))
  pub succ_tail : node ≢ l + 4
  pub pred_tail : node ≢ l

-- The chain depends only on its words.
pub Chain-frame :
    (m m' : Mem) (a : Ptr) (xs : List Ptr) (e : Ptr)
    → All (λ c. m' c ≡ m c) (words a xs e)
    → Chain m a xs e
    → Chain m' a xs e
Chain-frame m m' a [] e same ch = ground arith
Chain-frame m m' a (x ∷ xs) e same ch =
    (ground arith, ground arith, Chain-frame m m' x xs e same.1.1 ch.2)

-- A node between the others is no word apart from its own two.
pub Off-words-insert :
    (c n : Ptr) (a : Ptr) (xs ys : List Ptr) (e : Ptr)
    → Off c (words a (xs ++ ys) e)
    → c ≢ n
    → c ≢ n + 4
    → Off c (words a (xs ++ n ∷ ys) e)
Off-words-insert c n a [] [] e off p q = (off.0, (q, (p, off.1)))
Off-words-insert c n a [] (y ∷ ys) e off p q = (off.0, (q, (p, off.1)))
Off-words-insert c n a (x ∷ xs) ys e off p q =
    (off.0, (off.1.0, Off-words-insert c n x xs ys e off.1.1 p q))

pub Off-words-remove :
    (c n : Ptr) (a : Ptr) (xs ys : List Ptr) (e : Ptr)
    → Off c (words a (xs ++ n ∷ ys) e)
    → Off c (words a (xs ++ ys) e) × (c ≢ n) × (c ≢ n + 4)
Off-words-remove c n a [] [] e off = ((off.0, off.1.1.1), off.1.1.0, off.1.0)
Off-words-remove c n a [] (y ∷ ys) e off = ((off.0, off.1.1.1), off.1.1.0, off.1.0)
Off-words-remove c n a (x ∷ xs) ys e off =
    let rest = Off-words-remove c n x xs ys e off.1.1 in
    ((off.0, (off.1.0, rest.0)), rest.1, rest.2)

-- The two words at a gap of the chain.
pub Off-gap :
    (c a : Ptr) (xs ys : List Ptr) (e : Ptr)
    → Off c (words a (xs ++ ys) e)
    → (c ≢ last a xs) × (c ≢ first ys e + 4)
Off-gap c a [] [] e off = (off.0, off.1.0)
Off-gap c a [] (y ∷ ys) e off = (off.0, off.1.0)
Off-gap c a (x ∷ xs) ys e off = Off-gap c x xs ys e off.1.1

pub Distinct-insert :
    (n a : Ptr) (xs ys : List Ptr) (e : Ptr)
    → Off n (words a (xs ++ ys) e)
    → Off (n + 4) (words a (xs ++ ys) e)
    → Distinct (words a (xs ++ ys) e)
    → Distinct (words a (xs ++ n ∷ ys) e)
Distinct-insert n a [] [] e f g d = grind arith
Distinct-insert n a [] (y ∷ ys) e f g d =
    ((ground arith, (ground arith, d.0)), ((ground arith, g.1), (f.1, d.1)))
Distinct-insert n a (x ∷ xs) ys e f g d = (
  (d.0.0, Off-words-insert a n x xs ys e d.0.1 (ground arith) (ground arith)),
  (
    Off-words-insert (x + 4) n x xs ys e d.1.0 (ground arith) (ground arith),
    Distinct-insert n x xs ys e f.1.1 g.1.1 d.1.1,
  ),
)

pub Distinct-remove :
    (n a : Ptr) (xs ys : List Ptr) (e : Ptr)
    → Distinct (words a (xs ++ n ∷ ys) e)
    → Distinct (words a (xs ++ ys) e)
Distinct-remove n a [] [] e d = (d.0.1.1, d.1.1.1)
Distinct-remove n a [] (y ∷ ys) e d = (d.0.1.1, d.1.1.1)
Distinct-remove n a (x ∷ xs) ys e d = (
  (d.0.0, (Off-words-remove a n x xs ys e d.0.1).0),
  ((Off-words-remove (x + 4) n x xs ys e d.1.0).0, Distinct-remove n x xs ys e d.1.1),
)

pub Off-words-own :
    (n a : Ptr) (xs ys : List Ptr) (e : Ptr)
    → Distinct (words a (xs ++ n ∷ ys) e)
    → Off n (words a (xs ++ ys) e) × Off (n + 4) (words a (xs ++ ys) e)
Off-words-own n a [] [] e d = grind arith
Off-words-own n a [] (y ∷ ys) e d =
    ((ground arith, d.1.1.0), (ground arith, (ground arith, d.1.0.1.1)))
Off-words-own n a (x ∷ xs) ys e d =
    let rest = Off-words-own n x xs ys e d.1.1 in
    let p = Off-words-remove a n x xs ys e d.0.1 in
    let q = Off-words-remove (x + 4) n x xs ys e d.1.0 in
    ((ground arith, (ground arith, rest.0)), (ground arith, (ground arith, rest.1)))

pub last-nonnull : (a : Ptr) (xs : List Ptr) → a ≢ null → NonNull xs → last a xs ≢ null
last-nonnull a [] p h = p
last-nonnull a (x ∷ xs) p h = last-nonnull x xs h.0 h.1

pub NonNull-insert :
    (n : Ptr) (xs ys : List Ptr) → n ≢ null → NonNull (xs ++ ys) → NonNull (xs ++ n ∷ ys)
NonNull-insert n [] ys p h = (p, h)
NonNull-insert n (x ∷ xs) ys p h = (h.0, NonNull-insert n xs ys p h.1)

pub NonNull-remove : (n : Ptr) (xs ys : List Ptr) → NonNull (xs ++ n ∷ ys) → NonNull (xs ++ ys)
NonNull-remove n [] ys h = h.1
NonNull-remove n (x ∷ xs) ys h = (h.0, NonNull-remove n xs ys h.1)

pub NonNull-mid : (x : Ptr) (xs ys : List Ptr) → NonNull (xs ++ x ∷ ys) → x ≢ null
NonNull-mid x [] ys h = h.0
NonNull-mid x (y ∷ xs) ys h = NonNull-mid x xs ys h.1

pub NonNull-drop : (xs ys : List Ptr) → NonNull (xs ++ ys) → NonNull ys
NonNull-drop [] ys h = h
NonNull-drop (x ∷ xs) ys h = NonNull-drop xs ys h.1

pub NonNull-take : (xs ys : List Ptr) → NonNull (xs ++ ys) → NonNull xs
NonNull-take [] ys h = tt
NonNull-take (x ∷ xs) ys h = (h.0, NonNull-take xs ys h.1)
