-- ===== src/ExecList/Queue.antt =====
-- The lists of exec as sequences of nodes: what the operations of list.c mean to their callers.
use poweros_raspi.Base.{
  ℕ, Bool, false, ◌≡◌, List, [], ◌∷◌, Option, none, some, if◌then◌else◌, int8_gt,
}

module _ {ℓ} {A : Type ℓ} where
  -- Enqueue: before the first node of a lower priority.
  abbrev pub enqueue_by : (A → ℕ) → A → List A → List A
  enqueue_by pri n [] = n ∷ []
  enqueue_by pri n (x ∷ xs) =
      if int8_gt (pri n) (pri x) then n ∷ x ∷ xs else x ∷ enqueue_by pri n xs

  -- Remove
  abbrev pub remove_by : (A → Bool) → List A → List A
  remove_by is [] = []
  remove_by is (x ∷ xs) = if is x then xs else x ∷ remove_by is xs

  -- RemHead
  abbrev pub head? : List A → Option A
  head? [] = none
  head? (x ∷ xs) = some x

  abbrev pub tail : List A → List A
  tail [] = []
  tail (x ∷ xs) = xs

  -- FindName
  abbrev pub find_by : (A → Bool) → List A → Option A
  find_by is [] = none
  find_by is (x ∷ xs) = if is x then some x else find_by is xs

  -- No priority is above the one before it.
  abbrev pub IsByPri : (A → ℕ) → List A → Type 0
  IsByPri pri [] = Unit
  IsByPri pri (x ∷ []) = Unit
  IsByPri pri (x ∷ y ∷ xs) = (int8_gt (pri y) (pri x) ≡ false) × IsByPri pri (y ∷ xs)
