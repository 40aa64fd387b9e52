-- ===== src/ExecList/Tests.antt =====
-- A list at 100 that the operations of list.c build from zeroed memory.
use poweros_raspi.Base.{ℕ, ◌≡◌, refl, some, List, [], ◌∷◌, arith, ◌==◌, if◌then◌else◌}
use poweros_raspi.ExecList.{
  Ptr, null, Mem, new_list, add_head, add_tail, insert, enqueue, remove, rem_head, rem_tail,
  strcmp_eq, find_name,
}
use poweros_raspi.ExecList.Chain.{IsList, IsFresh}
use poweros_raspi.ExecList.Queue.{enqueue_by, find_by}
use poweros_raspi.ExecList.Ops.{
  SameOutside, new_list-IsList, add_head-IsList, add_tail-IsList, insert-IsList,
}
use poweros_raspi.ExecList.Removal.{remove-IsList, rem_head-IsList, rem_tail-IsList}
use poweros_raspi.ExecList.Fifo.{add_all, rem_all, rem_all-add_all}
use poweros_raspi.ExecList.Walk.{Gives, enqueue-IsList, find_name-find}

abbrev blank : Mem
blank c = 0

abbrev empty : Mem
empty = new_list 100 blank

empty-IsList : IsList empty 100 []
empty-IsList = (new_list-IsList 100 blank (ground arith)).0

IsFresh-200 : IsFresh 100 [] 200
IsFresh-200 = record {
  nonnull = ground arith;
  succ_off = ground arith;
  pred_off = ground arith;
  succ_tail = ground arith;
  pred_tail = ground arith;
}

abbrev one : Mem
one = add_head 100 200 empty

one-IsList : IsList one 100 (200 ∷ [])
one-IsList = (add_head-IsList empty-IsList IsFresh-200).0

IsFresh-300 : IsFresh 100 (200 ∷ []) 300
IsFresh-300 = record {
  nonnull = ground arith;
  succ_off = ground arith;
  pred_off = ground arith;
  succ_tail = ground arith;
  pred_tail = ground arith;
}

abbrev two : Mem
two = add_tail 100 300 one

two-IsList : IsList two 100 (200 ∷ 300 ∷ [])
two-IsList = (add_tail-IsList one-IsList IsFresh-300).0

abbrev two_nodes : List Ptr
two_nodes = 200 ∷ 300 ∷ []

IsFresh-400 : IsFresh 100 (200 ∷ 300 ∷ []) 400
IsFresh-400 = record {
  nonnull = ground arith;
  succ_off = ground arith;
  pred_off = ground arith;
  succ_tail = ground arith;
  pred_tail = ground arith;
}

-- The priorities 5, 0 and 2.
abbrev pri : Ptr → ℕ
pri p = if p == 200 then 5 else if p == 300 then 0 else 2

-- The names "a", "b" and "".
abbrev name : Ptr → List ℕ
name p = if p == 200 then 97 ∷ [] else if p == 300 then 98 ∷ [] else []

enqueue_third : enqueue_by pri 400 (200 ∷ 300 ∷ []) ≡ 200 ∷ 400 ∷ 300 ∷ []
enqueue_third = refl

find_second : find_by (λ x. strcmp_eq (name x) (98 ∷ [])) (200 ∷ 300 ∷ []) ≡ some 300
unfolding strcmp_eq
find_second = refl

add_head_run :
    IsList (add_head 100 400 two) 100 (400 ∷ 200 ∷ 300 ∷ [])
    × SameOutside two (add_head 100 400 two) 100 (200 ∷ 300 ∷ []) 400
add_head_run = add_head-IsList two-IsList IsFresh-400

add_tail_run :
    IsList (add_tail 100 400 two) 100 (200 ∷ 300 ∷ 400 ∷ [])
    × SameOutside two (add_tail 100 400 two) 100 (200 ∷ 300 ∷ []) 400
add_tail_run = add_tail-IsList two-IsList IsFresh-400

insert_run :
    IsList (insert 100 400 200 two) 100 (200 ∷ 400 ∷ 300 ∷ [])
    × SameOutside two (insert 100 400 200 two) 100 (200 ∷ 300 ∷ []) 400
insert_run = insert-IsList 200 [] (300 ∷ []) two-IsList IsFresh-400

remove-IsList_example : IsList (remove 200 two) 100 (300 ∷ [])
remove-IsList_example = remove-IsList 200 [] (300 ∷ []) two-IsList

rem_head_run : ((rem_head 100 two).1 ≡ 200) × IsList (rem_head 100 two).0 100 (300 ∷ [])
rem_head_run = rem_head-IsList 200 (300 ∷ []) two-IsList

last_removed :
    ((rem_tail 100 two).1 ≡ 300)
    × IsList (rem_tail 100 two).0 100 (200 ∷ [])
    × ((rem_tail 100 two).0 300 ≡ null)
    × ((rem_tail 100 two).0 304 ≡ null)
last_removed = rem_tail-IsList (200 ∷ []) 300 two-IsList

enqueue-IsList_example :
    Gives two (enqueue pri 3 100 400 two) 100 (200 ∷ 300 ∷ []) (200 ∷ 400 ∷ 300 ∷ []) 400
enqueue-IsList_example = enqueue-IsList pri 3 (200 ∷ 300 ∷ []) two-IsList IsFresh-400 (ground arith)

find_name-find_example : find_name name (98 ∷ []) 3 100 two ≡ some 300
unfolding strcmp_eq
find_name-find_example = find_name-find name (98 ∷ []) 3 (200 ∷ 300 ∷ []) two-IsList (ground arith)

rem_all-add_all_example :
    IsList (rem_all 3 100 (add_all 100 (300 ∷ 400 ∷ []) one)).0 100 []
    × ((rem_all 3 100 (add_all 100 (300 ∷ 400 ∷ []) one)).1 ≡ 200 ∷ 300 ∷ 400 ∷ [])
rem_all-add_all_example =
    rem_all-add_all 100 (200 ∷ []) (300 ∷ 400 ∷ []) one one-IsList (IsFresh-300, (IsFresh-400, tt))
