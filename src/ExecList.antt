-- ===== src/ExecList.antt =====
-- src/kickstart/lib.exec/list.c: the doubly linked lists of exec, as words in memory. A `Node` at
-- address `p` has ln_Succ at `p` and ln_Pred at `p + 4`. A `List` at `l` has lh_Head at `l`, lh_Tail
-- at `l + 4` and lh_TailPred at `l + 8`, so that `l` is a node whose ln_Pred is lh_Tail, and `l + 4`
-- is a node whose ln_Succ is lh_Tail. ln_Pri and ln_Name, which no operation here writes, are
-- functions of the address.
pub mod Chain
pub mod Relink
pub mod Queue
pub mod Gap
pub mod Ops
pub mod Fifo
pub mod Removal
pub mod Walk
mod Tests
use poweros_raspi.Base.{
  ℕ, zero, suc, ◌+◌, Bool, true, false, Option, none, some, List, [], ◌∷◌, ◌==◌, if◌then◌else◌,
  int8_gt,
}

abbrev pub Ptr : Type 0
Ptr = ℕ

abbrev pub null : Ptr
null = 0

-- The UINT32 word at each address.
abbrev pub Mem : Type 0
Mem = Ptr → ℕ

abbrev pub write : Mem → Ptr → ℕ → Mem
write m p v c = if c == p then v else m c

abbrev pub ln_succ : Ptr → Ptr
ln_succ p = p

abbrev pub ln_pred : Ptr → Ptr
ln_pred p = p + 4

abbrev pub lh_head : Ptr → Ptr
lh_head l = l

abbrev pub lh_tail : Ptr → Ptr
lh_tail l = l + 4

abbrev pub lh_tail_pred : Ptr → Ptr
lh_tail_pred l = l + 8

-- lib_NewList
pub new_list : Ptr → Mem → Mem
new_list l m =
    let m = write m (lh_tail l) null in
    let m = write m (lh_head l) (lh_tail l) in write m (lh_tail_pred l) (lh_head l)

-- IsListEmpty
pub is_list_empty : Ptr → Mem → Bool
is_list_empty l m = m (lh_tail_pred l) == l

-- lib_AddHead
pub add_head : Ptr → Ptr → Mem → Mem
add_head l node m =
    let m = write m (ln_succ node) (m (lh_head l)) in
    let m = write m (ln_pred node) (lh_head l) in
    let m = write m (ln_pred (m (lh_head l))) node in write m (lh_head l) node

-- lib_AddTail
pub add_tail : Ptr → Ptr → Mem → Mem
add_tail l node m =
    let m = write m (ln_succ node) (lh_tail l) in
    let m = write m (ln_pred node) (m (lh_tail_pred l)) in
    let m = write m (ln_succ (m (lh_tail_pred l))) node in write m (lh_tail_pred l) node

-- lib_Insert
pub insert : Ptr → Ptr → Ptr → Mem → Mem
unfolding add_head add_tail
insert l node pred m =
    if pred == null
    then add_head l node m
    else if m (ln_succ pred) == null
    then add_tail l node m
    else let m = write m (ln_succ node) (m (ln_succ pred)) in
      let m = write m (ln_pred node) pred in
      let m = write m (ln_pred (m (ln_succ node))) node in write m (ln_succ pred) node

-- The four stores at the end of lib_Enqueue.
pub insert_before : Ptr → Ptr → Mem → Mem
insert_before tmpnode node m =
    let m = write m (ln_succ node) tmpnode in
    let m = write m (ln_pred node) (m (ln_pred tmpnode)) in
    let m = write m (ln_succ (m (ln_pred tmpnode))) node in write m (ln_pred tmpnode) node

-- The loop of lib_Enqueue from `tmpnode`: the node before which to insert, `none` without fuel.
pub enqueue_loop : (Ptr → ℕ) → ℕ → ℕ → Ptr → Mem → Option Ptr
enqueue_loop ln_pri zero pri tmpnode m = none
enqueue_loop ln_pri (suc fuel) pri tmpnode m =
    let rest = enqueue_loop ln_pri fuel pri (m (ln_succ tmpnode)) m in
    if m (ln_succ tmpnode) == null
    then some tmpnode
    else if int8_gt pri (ln_pri tmpnode)
    then some tmpnode
    else rest

abbrev insert_at : Option Ptr → Ptr → Mem → Option Mem
insert_at none node m = none
insert_at (some tmpnode) node m = some (insert_before tmpnode node m)

-- lib_Enqueue
pub enqueue : (Ptr → ℕ) → ℕ → Ptr → Ptr → Mem → Option Mem
unfolding add_head insert_before enqueue_loop
enqueue ln_pri fuel l node m =
    if m (ln_succ (m (lh_head l))) == null
    then some (add_head l node m)
    else insert_at (enqueue_loop ln_pri fuel (ln_pri node) (m (lh_head l)) m) node m

-- lib_Remove
pub remove : Ptr → Mem → Mem
remove node m =
    let m = write m (ln_pred (m (ln_succ node))) (m (ln_pred node)) in
    write m (ln_succ (m (ln_pred node))) (m (ln_succ node))

-- lib_RemHead: the new memory and the node, NULL if there is none.
pub rem_head : Ptr → Mem → Mem × Ptr
rem_head l m =
    let next = m (ln_succ (m (lh_head l))) in
    if next == null
    then (m, next)
    else let m = write m (ln_pred next) l in
      let node = m (lh_head l) in (write m (lh_head l) (m (ln_succ node)), node)

-- GetTail
pub get_tail : Ptr → Mem → Ptr
get_tail l m = if m (ln_pred (m (lh_tail_pred l))) == null then null else m (lh_tail_pred l)

-- lib_RemTail
pub rem_tail : Ptr → Mem → Mem × Ptr
unfolding get_tail
rem_tail l m =
    let node = get_tail l m in
    if node == null
    then (m, node)
    else let m = write m (lh_tail_pred l) (m (ln_pred node)) in
      let m = write m (ln_succ (m (lh_tail_pred l))) (m (ln_succ node)) in
      let m = write m (ln_succ node) null in (write m (ln_pred node) null, node)

-- strcmp returns 0. A C string is the list of its bytes before the '\0'.
unfoldable pub strcmp_eq : List ℕ → List ℕ → Bool
strcmp_eq [] [] = true
strcmp_eq [] (c ∷ t) = false
strcmp_eq (b ∷ s) [] = false
strcmp_eq (b ∷ s) (c ∷ t) = if b == c then strcmp_eq s t else false

-- The ForeachNode loop of lib_FindName from `tmp`: `none` without fuel, NULL if there is none.
pub find_loop : (Ptr → List ℕ) → List ℕ → ℕ → Ptr → Mem → Option Ptr
unfolding strcmp_eq
find_loop ln_name name zero tmp m = none
find_loop ln_name name (suc fuel) tmp m =
    let rest = find_loop ln_name name fuel (m (ln_succ tmp)) m in
    if m (ln_succ tmp) == null
    then some null
    else if strcmp_eq (ln_name tmp) name
    then some tmp
    else rest

-- lib_FindName
pub find_name : (Ptr → List ℕ) → List ℕ → ℕ → Ptr → Mem → Option Ptr
unfolding find_loop
find_name ln_name name fuel l m = find_loop ln_name name fuel (m (lh_head l)) m
