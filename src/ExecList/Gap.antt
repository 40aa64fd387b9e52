-- ===== src/ExecList/Gap.antt =====
-- The stores of the list operations, between two neighbours of a list.
use poweros_raspi.Base.{◌+◌, ◌≡◌, ◌≢◌, List, [], ◌∷◌, ◌++◌, arith, Off, Distinct, refl}
use poweros_raspi.ExecList.{Ptr, Mem, add_head, add_tail, insert_before, remove}
use poweros_raspi.ExecList.Chain.{Chain, words, last, first, IsList, IsFresh, Off-gap}
use poweros_raspi.ExecList.Relink.{Linked, Unlinked}

-- The neighbours at a gap of a chain.
pub Chain-gap :
    (m : Mem) (a : Ptr) (xs ys : List Ptr) (e : Ptr)
    → Chain m a (xs ++ ys) e
    → (m (last a xs) ≡ first ys e) × (m (first ys e + 4) ≡ last a xs)
Chain-gap m a [] [] e ch = ch
Chain-gap m a [] (y ∷ ys) e ch = (ch.0, ch.1)
Chain-gap m a (x ∷ xs) ys e ch = Chain-gap m x xs ys e ch.2

pub Distinct-gap :
    (a : Ptr) (xs ys : List Ptr) (e : Ptr)
    → Distinct (words a (xs ++ ys) e)
    → last a xs ≢ first ys e + 4
Distinct-gap a [] [] e d = d.0.0
Distinct-gap a [] (y ∷ ys) e d = d.0.0
Distinct-gap a (x ∷ xs) ys e d = Distinct-gap x xs ys e d.1.1

-- The words of the node and of the neighbours `p` and `b` at a gap are all different.
pub record Gap (m : Mem) (p n b : Ptr) : Type 0 where
  pub there : m p ≡ b
  pub back : m (b + 4) ≡ p
  pub succ_p : n ≢ p
  pub succ_b : n ≢ b + 4
  pub pred_p : n + 4 ≢ p
  pub pred_b : n + 4 ≢ b + 4
  pub apart : p ≢ b + 4

pub Gap-at :
    {m : Mem} {l : Ptr} {node : Ptr} (xs ys : List Ptr)
    → IsList m l (xs ++ ys)
    → IsFresh l (xs ++ ys) node
    → Gap m (last l xs) node (first ys (l + 4))
Gap-at {m} {l} {node} xs ys is new =
    let at = Chain-gap m l xs ys (l + 4) is.chain in
    let g = Off-gap node l xs ys (l + 4) new.succ_off in
    let h = Off-gap (node + 4) l xs ys (l + 4) new.pred_off in
    record {
      there = at.0;
      back = at.1;
      succ_p = g.0;
      succ_b = g.1;
      pred_p = h.0;
      pred_b = h.1;
      apart = Distinct-gap l xs ys (l + 4) is.distinct;
    }

-- Each group of stores links the node in.
pub insert_before-Linked :
    (m : Mem) (p n b : Ptr) → Gap m p n b → Linked m (insert_before b n m) p n b
unfolding insert_before
insert_before-Linked m p n b g = ground arith

pub add_head-Linked : (m : Mem) (l n b : Ptr) → Gap m l n b → Linked m (add_head l n m) l n b
unfolding add_head
add_head-Linked m l n b g = ground arith

pub add_tail-Linked :
    (m : Mem) (l p n : Ptr) → Gap m p n (l + 4) → Linked m (add_tail l n m) p n (l + 4)
unfolding add_tail
add_tail-Linked m l p n g = ground arith

-- A node with the neighbours `p` and `b` is linked out.
pub remove-Unlinked :
    (m : Mem) (p n b : Ptr)
    → m n ≡ b
    → m (n + 4) ≡ p
    → p ≢ b + 4
    → n ≢ b + 4
    → n + 4 ≢ b + 4
    → Unlinked m (remove n m) p b
unfolding remove
remove-Unlinked m p n b s q d e f = ground arith

-- A change at the words of a node and of its neighbours is no change elsewhere.
pub Linked-frame :
    (m m' : Mem) (l n : Ptr) (xs ys : List Ptr)
    → Linked m m' (last l xs) n (first ys (l + 4))
    → (c : Ptr) → c ≢ n
    → c ≢ n + 4
    → Off c (words l (xs ++ ys) (l + 4))
    → m' c ≡ m c
Linked-frame m m' l n xs ys lk c p q off =
    let g = Off-gap c l xs ys (l + 4) off in lk.same c p q g.0 g.1

pub last-snoc : (a x : Ptr) (xs : List Ptr) → last a (xs ++ x ∷ []) ≡ x
last-snoc a x [] = refl
last-snoc a x (y ∷ xs) = last-snoc y x xs
