-- ===== src/ExecList/Ops.antt =====
-- NewList, IsListEmpty, AddHead, AddTail and Insert on the sequence that a list holds.
use mathlib.Core.List.{append-nil, append_assoc}
use poweros_raspi.Base.{◌+◌, ◌≡◌, ◌≢◌, List, [], ◌∷◌, ◌++◌, arith, Off}
use poweros_raspi.ExecList.{Ptr, null, Mem, new_list, add_head, add_tail, insert}
use poweros_raspi.ExecList.Chain.{
  words, last, first, IsList, IsFresh, NonNull, NonNull-mid, NonNull-drop,
}
use poweros_raspi.ExecList.Relink.{Linked, IsList-link}
use poweros_raspi.ExecList.Gap.{
  Gap, Gap-at, Linked-frame, add_head-Linked, add_tail-Linked, last-snoc,
}

-- An initialised list is empty, and its memory elsewhere is as it was.
pub new_list-IsList :
    (l : Ptr) (m : Mem)
    → l ≢ null
    → IsList (new_list l m) l []
      × ((c : Ptr) → c ≢ l → c ≢ l + 4 → c ≢ l + 8 → new_list l m c ≡ m c)
unfolding new_list
new_list-IsList l m h = (
  record {
    chain = (ground arith, ground arith);
    tail_null = ground arith;
    head_nonnull = h;
    nonnull = tt;
    distinct = grind arith;
    tail_off = grind arith;
  },
  λ c p q r. ground arith,
)

-- `m'` differs from `m` at most at the words of `node` and of the list.
abbrev pub SameOutside : Mem → Mem → Ptr → List Ptr → Ptr → Type 0
SameOutside m m' l xs node =
    (c : Ptr) → c ≢ node → c ≢ node + 4 → Off c (words l xs (l + 4)) → m' c ≡ m c

-- Adding at the head puts the node in front and writes nowhere else.
pub add_head-IsList :
    {m : Mem} {l node : Ptr} {xs : List Ptr}
    → IsList m l xs
    → IsFresh l xs node
    → IsList (add_head l node m) l (node ∷ xs) × SameOutside m (add_head l node m) l xs node
add_head-IsList {m} {l} {node} {xs} is new =
    let lk = add_head-Linked m l node (first xs (l + 4)) (Gap-at [] xs is new) in
    (IsList-link m (add_head l node m) l node [] xs is new lk, Linked-frame m _ l node [] xs lk)

-- The link of a node behind the last one.
link_last :
    (m m' : Mem) (l node : Ptr) (xs : List Ptr)
    → (Gap m (last l xs) node (l + 4) → Linked m m' (last l xs) node (l + 4))
    → IsList m l xs
    → IsFresh l xs node
    → IsList m' l (xs ++ node ∷ []) × SameOutside m m' l xs node
link_last m m' l node xs stores is new =
    let is' : IsList m l (xs ++ []) = rw append-nil is in
    let new' : IsFresh l (xs ++ []) node = rw append-nil new in
    let lk = stores (Gap-at xs [] is' new') in
    (
      IsList-link m m' l node xs [] is' new' lk,
      λ c p q off. Linked-frame m m' l node xs [] lk c p q (rw append-nil off),
    )

-- Adding at the tail puts the node last and writes nowhere else.
pub add_tail-IsList :
    {m : Mem} {l node : Ptr} {xs : List Ptr}
    → IsList m l xs
    → IsFresh l xs node
    → IsList (add_tail l node m) l (xs ++ node ∷ []) × SameOutside m (add_tail l node m) l xs node
add_tail-IsList {m} {l} {node} {xs} is new =
    link_last m _ l node xs (add_tail-Linked m l (last l xs) node) is new

-- The first node of a sequence, or the tail node behind it, is not NULL.
pub first-nonnull : (l : Ptr) (xs : List Ptr) → NonNull xs → first xs (l + 4) ≢ null
first-nonnull l [] h = omega arith
first-nonnull l (x ∷ xs) h = h.0

-- With no predecessor Insert adds at the head, with the tail node at the tail.
pub insert-ends :
    (m : Mem) (l node : Ptr)
    → l ≢ null
    → m (l + 4) ≡ null
    → (insert l node null m ≡ add_head l node m) × (insert l node (l + 4) m ≡ add_tail l node m)
unfolding insert
insert-ends m l node h e = ground arith

insert_mid-Linked :
    (m : Mem) (l p n b : Ptr) → p ≢ null → b ≢ null → Gap m p n b → Linked m (insert l n p m) p n b
unfolding insert
insert_mid-Linked m l p n b np nb g = ground arith

-- Insert behind a node of the list puts the new node right behind it and writes nowhere else.
pub insert-IsList :
    {m : Mem} {l node : Ptr} (pred : Ptr) (xs ys : List Ptr)
    → IsList m l (xs ++ pred ∷ ys)
    → IsFresh l (xs ++ pred ∷ ys) node
    → IsList (insert l node pred m) l (xs ++ pred ∷ node ∷ ys)
      × SameOutside m (insert l node pred m) l (xs ++ pred ∷ ys) node
insert-IsList {m} {l} {node} pred xs ys is new =
    let is' : IsList m l ((xs ++ pred ∷ []) ++ ys) = rw append_assoc is in
    let new' : IsFresh l ((xs ++ pred ∷ []) ++ ys) node = rw append_assoc new in
    let nb =
      first-nonnull l ys (NonNull-drop (pred ∷ []) ys (NonNull-drop xs (pred ∷ ys) is.nonnull)) in
    let gap : Gap m pred node (first ys (l + 4)) =
      rw last-snoc at (Gap-at (xs ++ pred ∷ []) ys is' new') in
    let lk = insert_mid-Linked m l pred node _ (NonNull-mid pred xs ys is.nonnull) nb gap in
    let lk' : Linked m (insert l node pred m) (last l (xs ++ pred ∷ [])) node (first ys (l + 4)) =
      rw last-snoc lk in
    (
      rw append_assoc at
          (IsList-link m (insert l node pred m) l node (xs ++ pred ∷ []) ys is' new' lk'),
      λ c p q off. Linked-frame m _ l node (xs ++ pred ∷ []) ys lk' c p q (rw append_assoc off),
    )
