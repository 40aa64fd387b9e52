-- ===== src/ExecList/Relink.antt =====
-- What the stores of the list operations do to a chain: a node is linked in, or linked out.
use poweros_raspi.Base.{◌+◌, ◌≡◌, ◌≢◌, ◌∙◌, List, [], ◌∷◌, ◌++◌, arith, All, Off, Distinct}
use poweros_raspi.ExecList.{Ptr, Mem}
use poweros_raspi.ExecList.Chain.{
  Chain, words, last, first, IsList, IsFresh, Chain-frame, Off-words-insert, Off-words-remove,
  Off-gap, Distinct-insert, Distinct-remove, NonNull-insert, NonNull-remove,
}

-- `m'` is `m` with `n` linked in between the neighbours `p` and `b`.
pub record Linked (m m' : Mem) (p n b : Ptr) : Type 0 where
  pub node_succ : m' n ≡ b
  pub node_pred : m' (n + 4) ≡ p
  pub succ : m' p ≡ n
  pub pred : m' (b + 4) ≡ n
  pub same : (c : Ptr) → c ≢ n → c ≢ n + 4 → c ≢ p → c ≢ b + 4 → m' c ≡ m c

-- `m'` is `m` with the neighbours `p` and `b` linked to one another.
pub record Unlinked (m m' : Mem) (p b : Ptr) : Type 0 where
  pub succ : m' p ≡ b
  pub pred : m' (b + 4) ≡ p
  pub same : (c : Ptr) → c ≢ p → c ≢ b + 4 → m' c ≡ m c

module _ (m m' : Mem) where
  All-same-Linked :
      (p n b : Ptr)
      → Linked m m' p n b
      → (ws : List Ptr) → Off n ws
      → Off (n + 4) ws
      → Off p ws
      → Off (b + 4) ws
      → All (λ c. m' c ≡ m c) ws
  All-same-Linked p n b lk [] f g h k = tt
  All-same-Linked p n b lk (c ∷ ws) f g h k = (
    lk.same c (ground arith) (ground arith) (ground arith) (ground arith),
    All-same-Linked p n b lk ws f.1 g.1 h.1 k.1,
  )

  All-same-Unlinked :
      (p b : Ptr)
      → Unlinked m m' p b
      → (ws : List Ptr) → Off p ws
      → Off (b + 4) ws
      → All (λ c. m' c ≡ m c) ws
  All-same-Unlinked p b lk [] h k = tt
  All-same-Unlinked p b lk (c ∷ ws) h k =
      (lk.same c (ground arith) (ground arith), All-same-Unlinked p b lk ws h.1 k.1)

  pub Chain-link :
      (n a : Ptr) (xs ys : List Ptr) (e : Ptr)
      → Linked m m' (last a xs) n (first ys e)
      → Off n (words a (xs ++ ys) e)
      → Off (n + 4) (words a (xs ++ ys) e)
      → Distinct (words a (xs ++ ys) e)
      → Chain m a (xs ++ ys) e
      → Chain m' a (xs ++ n ∷ ys) e
  Chain-link n a [] [] e lk f g d ch = (lk.succ, lk.node_pred, (lk.node_succ, lk.pred))
  Chain-link n a [] (y ∷ ys) e lk f g d ch = (
    lk.succ,
    lk.node_pred,
    (
      lk.node_succ,
      lk.pred,
      Chain-frame m m' y ys e (All-same-Linked a n y lk (words y ys e) f.1.1 g.1.1 d.0.1 d.1.0)
          ch.2,
    ),
  )
  Chain-link n a (x ∷ xs) ys e lk f g d ch =
      let gap = Off-gap a x xs ys e d.0.1 in
      let gap' = Off-gap (x + 4) x xs ys e d.1.0 in
      (
        lk.same a (ground arith) (ground arith) gap.0 gap.1 ∙ ch.0,
        lk.same (x + 4) (ground arith) (ground arith) gap'.0 gap'.1 ∙ ch.1,
        Chain-link n x xs ys e lk f.1.1 g.1.1 d.1.1 ch.2,
      )

  pub Chain-unlink :
      (n a : Ptr) (xs ys : List Ptr) (e : Ptr)
      → Unlinked m m' (last a xs) (first ys e)
      → Distinct (words a (xs ++ n ∷ ys) e)
      → Chain m a (xs ++ n ∷ ys) e
      → Chain m' a (xs ++ ys) e
  Chain-unlink n a [] [] e lk d ch = (lk.succ, lk.pred)
  Chain-unlink n a [] (y ∷ ys) e lk d ch = (
    lk.succ,
    lk.pred,
    Chain-frame m m' y ys e (All-same-Unlinked a y lk (words y ys e) d.0.1.1.1 d.1.1.1.0) ch.2.2,
  )
  Chain-unlink n a (x ∷ xs) ys e lk d ch =
      let gap = Off-gap a x xs ys e (Off-words-remove a n x xs ys e d.0.1).0 in
      let gap' = Off-gap (x + 4) x xs ys e (Off-words-remove (x + 4) n x xs ys e d.1.0).0 in
      (
        lk.same a gap.0 gap.1 ∙ ch.0,
        lk.same (x + 4) gap'.0 gap'.1 ∙ ch.1,
        Chain-unlink n x xs ys e lk d.1.1 ch.2,
      )

  -- A node linked in is a node of the list, at its place.
  pub IsList-link :
      (l n : Ptr) (xs ys : List Ptr)
      → IsList m l (xs ++ ys)
      → IsFresh l (xs ++ ys) n
      → Linked m m' (last l xs) n (first ys (l + 4))
      → IsList m' l (xs ++ n ∷ ys)
  IsList-link l n xs ys is new lk =
      let gap = Off-gap (l + 4) l xs ys (l + 4) is.tail_off in
      record {
        chain = Chain-link n l xs ys (l + 4) lk new.succ_off new.pred_off is.distinct is.chain;
        tail_null = lk.same (l + 4) (ground arith) (ground arith) gap.0 gap.1 ∙ is.tail_null;
        head_nonnull = is.head_nonnull;
        nonnull = NonNull-insert n xs ys new.nonnull is.nonnull;
        distinct = Distinct-insert n l xs ys (l + 4) new.succ_off new.pred_off is.distinct;
        tail_off =
            Off-words-insert (l + 4) n l xs ys (l + 4) is.tail_off (ground arith) (ground arith);
      }

  -- A node linked out is gone, and the others stay in order.
  pub IsList-unlink :
      (l n : Ptr) (xs ys : List Ptr)
      → IsList m l (xs ++ n ∷ ys)
      → Unlinked m m' (last l xs) (first ys (l + 4))
      → IsList m' l (xs ++ ys)
  IsList-unlink l n xs ys is lk =
      let off = (Off-words-remove (l + 4) n l xs ys (l + 4) is.tail_off).0 in
      let gap = Off-gap (l + 4) l xs ys (l + 4) off in
      record {
        chain = Chain-unlink n l xs ys (l + 4) lk is.distinct is.chain;
        tail_null = lk.same (l + 4) gap.0 gap.1 ∙ is.tail_null;
        head_nonnull = is.head_nonnull;
        nonnull = NonNull-remove n xs ys is.nonnull;
        distinct = Distinct-remove n l xs ys (l + 4) is.distinct;
        tail_off = off;
      }
