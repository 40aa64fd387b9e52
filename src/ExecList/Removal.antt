-- ===== src/ExecList/Removal.antt =====
-- IsListEmpty, Remove, RemHead and RemTail on the sequence that a list holds.
use mathlib.Core.List.{append-nil}
use poweros_raspi.Base.{
  ◌+◌, ◌≡◌, ◌≢◌, ◌↔◌, refl, true, List, [], ◌∷◌, ◌++◌, arith, All, Off, Distinct, ◌==◌, false,
}
use poweros_raspi.ExecList.{
  Ptr, null, Mem, write, is_list_empty, remove, rem_head, rem_tail, get_tail,
}
use poweros_raspi.ExecList.Chain.{
  Chain, words, last, first, IsList, Off-gap, Off-words-remove, Off-words-own, Chain-frame,
  last-nonnull, NonNull-take, NonNull-mid,
}
use poweros_raspi.ExecList.Relink.{Unlinked, IsList-unlink}
use poweros_raspi.ExecList.Gap.{Chain-gap, remove-Unlinked, last-snoc}
use poweros_raspi.ExecList.Ops.{first-nonnull}

-- lh_TailPred is the last node.
last-back : {m : Mem} {l : Ptr} {xs : List Ptr} → IsList m l xs → m (l + 4 + 4) ≡ last l xs
last-back {m} {l} {xs} is =
    let ch : Chain m l (xs ++ []) (l + 4) = rw append-nil is.chain in
    (Chain-gap m l xs [] (l + 4) ch).1

last-ne : {m : Mem} {l x : Ptr} {xs : List Ptr} → IsList m l (x ∷ xs) → l ≢ last x xs
last-ne {l} {x} {xs} is = (Off-gap l x xs [] (l + 4) (rw append-nil is.distinct.0.1)).0

-- IsListEmpty answers whether the list holds no node.
pub is_list_empty_iff :
    {m : Mem} {l : Ptr} (xs : List Ptr) → IsList m l xs → (is_list_empty l m ≡ true) ↔ (xs ≡ [])
unfolding is_list_empty
is_list_empty_iff {m} {l} [] is = (λ e. refl, λ e. ground (arith, is.chain.1))
is_list_empty_iff {m} {l} (x ∷ xs) is =
    (λ e. absurd (ground (arith, last-back is, last-ne is)), λ e. cc)

-- The words around a node of the list.
record Around (m : Mem) (p n b : Ptr) : Type 0 where
  next : m n ≡ b
  prev : m (n + 4) ≡ p
  apart : p ≢ b + 4
  node_b : n ≢ b + 4
  pred_b : n + 4 ≢ b + 4

Around-Chain :
    (m : Mem) (n a : Ptr) (xs ys : List Ptr) (e : Ptr)
    → Chain m a (xs ++ n ∷ ys) e
    → Distinct (words a (xs ++ n ∷ ys) e)
    → Around m (last a xs) n (first ys e)
Around-Chain m n a [] [] e ch d = ground arith
Around-Chain m n a [] (y ∷ ys) e ch d = ground arith
Around-Chain m n a (x ∷ xs) ys e ch d = Around-Chain m n x xs ys e ch.2 d.1.1

-- Remove takes exactly that node out and keeps the others in order.
pub remove-IsList :
    {m : Mem} {l : Ptr} (node : Ptr) (xs ys : List Ptr)
    → IsList m l (xs ++ node ∷ ys)
    → IsList (remove node m) l (xs ++ ys)
remove-IsList {m} {l} node xs ys is =
    let at = Around-Chain m node l xs ys (l + 4) is.chain is.distinct in
    IsList-unlink m (remove node m) l node xs ys is (
      remove-Unlinked m (last l xs) node (first ys (l + 4)) at.next at.prev at.apart at.node_b
        at.pred_b)

rem_head-empty : (m : Mem) (l : Ptr) → m l ≡ l + 4 → m (l + 4) ≡ null → rem_head l m ≡ (m, null)
unfolding rem_head
rem_head-empty m l e t = rw (e, t)

rem_tail-empty : (m : Mem) (l : Ptr) → m (l + 8) ≡ l → m (l + 4) ≡ null → rem_tail l m ≡ (m, null)
unfolding rem_tail get_tail
rem_tail-empty m l e t = rw (e, t)

-- From an empty list RemHead and RemTail take nothing and write nothing.
pub rem-empty :
    {m : Mem} {l : Ptr} → IsList m l [] → (rem_head l m ≡ (m, null)) × (rem_tail l m ≡ (m, null))
rem-empty {m} {l} is = (
  rem_head-empty m l is.chain.0 is.tail_null,
  rem_tail-empty m l (ground (arith, is.chain.1)) is.tail_null,
)

rem_head-Unlinked :
    (m : Mem) (l x b : Ptr)
    → Around m l x b
    → m l ≡ x
    → b ≢ null
    → ((rem_head l m).1 ≡ x) × Unlinked m (rem_head l m).0 l b
unfolding rem_head
rem_head-Unlinked m l x b at e nb = ground arith

-- RemHead takes the first node, and the others stay in order.
pub rem_head-IsList :
    {m : Mem} {l : Ptr} (x : Ptr) (xs : List Ptr)
    → IsList m l (x ∷ xs)
    → ((rem_head l m).1 ≡ x) × IsList (rem_head l m).0 l xs
rem_head-IsList {m} {l} x xs is =
    let at = Around-Chain m x l [] xs (l + 4) is.chain is.distinct in
    let r =
      rem_head-Unlinked m l x (first xs (l + 4)) at is.chain.0 (first-nonnull l xs is.nonnull.1) in
    (r.0, IsList-unlink m (rem_head l m).0 l x [] xs is r.1)

-- A store outside the words of a list keeps it.
IsList-write :
    (m : Mem) (l : Ptr) (xs : List Ptr) (c v : Ptr)
    → c ≢ l + 4
    → Off c (words l xs (l + 4))
    → IsList m l xs
    → IsList (write m c v) l xs
IsList-write m l xs c v ne off is = record {
  chain = Chain-frame m (write m c v) l xs (l + 4) (same (words l xs (l + 4)) off) is.chain;
  tail_null = ground (arith, is.tail_null);
  head_nonnull = is.head_nonnull;
  nonnull = is.nonnull;
  distinct = is.distinct;
  tail_off = is.tail_off;
}
  where
    same : (ws : List Ptr) → Off c ws → All (λ d. write m c v d ≡ m d) ws
    same [] o = tt
    same (d ∷ ws) o = (ground arith, same ws o.1)

-- The first two stores of RemTail.
unlink_tail : Ptr → Ptr → Mem → Mem
unlink_tail l x m = let m = write m (l + 8) (m (x + 4)) in write m (m (l + 8)) (m x)

unlink_tail-Unlinked :
    (m : Mem) (l p x : Ptr) → Around m p x (l + 4) → Unlinked m (unlink_tail l x m) p (l + 4)
unfolding unlink_tail
unlink_tail-Unlinked m l p x at = ground arith

rem_tail-stores :
    (m : Mem) (l p x : Ptr)
    → Around m p x (l + 4)
    → p ≢ null
    → x ≢ null
    → m (l + 8) ≡ x
    → rem_tail l m ≡ (write (write (unlink_tail l x m) x null) (x + 4) null, x)
unfolding rem_tail get_tail unlink_tail
rem_tail-stores m l p x at np nx e =
    let p_set : (m (x + 4) == null) ≡ false = ground arith in
    let x_set : (x == null) ≡ false = ground arith in rw (e, p_set, x_set)

-- RemTail takes the last node and clears its links, and the others stay in order.
pub rem_tail-IsList :
    {m : Mem} {l : Ptr} (xs : List Ptr) (x : Ptr)
    → IsList m l (xs ++ x ∷ [])
    → ((rem_tail l m).1 ≡ x)
      × IsList (rem_tail l m).0 l xs
      × ((rem_tail l m).0 x ≡ null)
      × ((rem_tail l m).0 (x + 4) ≡ null)
rem_tail-IsList {m} {l} xs x is =
    let at = Around-Chain m x l xs [] (l + 4) is.chain is.distinct in
    let e : m (l + 8) ≡ x = ground (arith, last-back is, last-snoc l x xs) in
    let p_ok = last-nonnull l xs is.head_nonnull (NonNull-take xs (x ∷ []) is.nonnull) in
    let off = Off-words-own x l xs [] (l + 4) is.distinct in
    let off_tail = Off-words-remove (l + 4) x l xs [] (l + 4) is.tail_off in
    let stores = rem_tail-stores m l (last l xs) x at p_ok (NonNull-mid x xs [] is.nonnull) e in
    let is' : IsList (unlink_tail l x m) l xs = rw append-nil at (
      IsList-unlink m (unlink_tail l x m) l x xs [] is
        (unlink_tail-Unlinked m l (last l xs) x at)) in
    let is'' : IsList (write (unlink_tail l x m) x null) l xs =
      IsList-write _ l xs x null (ground arith) (rw append-nil at off.0) is' in
    rw stores (
      refl,
      IsList-write _ l xs (x + 4) null (ground arith) (rw append-nil at off.1) is'',
      ground arith,
      ground arith,
    )
