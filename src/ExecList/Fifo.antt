-- ===== src/ExecList/Fifo.antt =====
-- lib_AddTail and lib_RemHead of src/kickstart/lib.exec/list.c together: a list in memory as the queue that the
-- message ports make of it.
use mathlib.Core.List.{append-nil, append_assoc}
use poweros_raspi.Base.{ℕ, zero, suc, ◌≡◌, refl, List, [], ◌∷◌, ◌++◌, length}
use poweros_raspi.ExecList.{Ptr, Mem, add_tail, rem_head}
use poweros_raspi.ExecList.Chain.{IsList, IsFresh}
use poweros_raspi.ExecList.Ops.{add_tail-IsList}
use poweros_raspi.ExecList.Removal.{rem_head-IsList}

-- AddTail of several nodes, one after the other.
pub add_all : Ptr → List Ptr → Mem → Mem
add_all l [] m = m
add_all l (x ∷ xs) m = add_all l xs (add_tail l x m)

abbrev pub after_rem : (Mem × Ptr) → (Mem → Mem × List Ptr) → Mem × List Ptr
after_rem (m, x) next = let (m', xs) = next m in (m', x ∷ xs)

-- `n` calls of RemHead: the memory, and what they give.
pub rem_all : ℕ → Ptr → Mem → Mem × List Ptr
rem_all zero l m = (m, [])
rem_all (suc n) l m = after_rem (rem_head l m) (rem_all n l)

-- Each of the nodes is new to the list when it is added, so none is added twice.
abbrev pub AllFresh : Ptr → List Ptr → List Ptr → Type 0
AllFresh l ws [] = Unit
AllFresh l ws (x ∷ xs) = IsFresh l ws x × AllFresh l (ws ++ x ∷ []) xs

add_all-IsList :
    (l : Ptr) (ws xs : List Ptr) (m : Mem)
    → IsList m l ws
    → AllFresh l ws xs
    → IsList (add_all l xs m) l (ws ++ xs)
unfolding add_all
add_all-IsList l ws [] m is new = rw append-nil is
add_all-IsList l ws (x ∷ xs) m is (new, others) =
    rw append_assoc at
      (add_all-IsList l (ws ++ x ∷ []) xs (add_tail l x m) (add_tail-IsList is new).0 others)

rem_all-IsList :
    (l : Ptr) (xs : List Ptr) (m : Mem)
    → IsList m l xs
    → IsList (rem_all (length xs) l m).0 l [] × ((rem_all (length xs) l m).1 ≡ xs)
unfolding rem_all
rem_all-IsList l [] m is = (is, refl)
rem_all-IsList l (x ∷ xs) m is =
    let (given, rest) = rem_head-IsList x xs is in
    let (empty, all) = rem_all-IsList l xs (rem_head l m).0 rest in (empty, rw (given, all) refl)

-- RemHead gives the nodes of a list and those that AddTail has put behind them, all of them and in their order, and
-- the list is empty then, if each node was new to the list when it was added.
pub rem_all-add_all :
    (l : Ptr) (ws xs : List Ptr) (m : Mem)
    → IsList m l ws
    → AllFresh l ws xs
    → IsList (rem_all (length (ws ++ xs)) l (add_all l xs m)).0 l []
      × ((rem_all (length (ws ++ xs)) l (add_all l xs m)).1 ≡ ws ++ xs)
rem_all-add_all l ws xs m is new = rem_all-IsList l (ws ++ xs) _ (add_all-IsList l ws xs m is new)
