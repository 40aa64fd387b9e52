-- ===== src/Util/Tags.antt =====
-- src/kickstart/lib.util/tags.c: lists of tag items in memory. An item is two words, ti_Tag at `p` and ti_Data
-- at `p + 4`. The loops take fuel. Sets of flags are masks, and `flags_of` reads one from a word.
pub mod Filter
pub mod Items
use mathlib.Core.Option
use poweros_raspi.Base.{
  ℕ, zero, suc, ◌+◌, ◌*◌, ◌/◌, ◌%◌, ◌^◌, Bool, true, false, Option, none, some, ◌==◌, if◌then◌else◌,
  u32, Mask, mask_and, mask_or, mask_not,
}
use poweros_raspi.ExecList.{Ptr, null, Mem, write}

abbrev pub ti_tag : Ptr → Ptr
ti_tag p = p

abbrev pub ti_data : Ptr → Ptr
ti_data p = p + 4

abbrev pub tag_done : ℕ
tag_done = 0

abbrev pub tag_ignore : ℕ
tag_ignore = 1

abbrev pub tag_more : ℕ
tag_more = 2

abbrev pub tag_skip : ℕ
tag_skip = 3

-- `n` items after `p`.
abbrev pub items_on : Ptr → ℕ → Ptr
items_on p n = u32 (p + 8 * n)

abbrev pub or_absent : Ptr → Option (Ptr × Ptr) → Option (Ptr × Ptr)
or_absent p next = if p == null then some (null, null) else next

-- The loop of util_NextTagItem: the item, and what is in *tagListPtr then.
pub next_loop : ℕ → Mem → Ptr → Option (Ptr × Ptr)
next_loop zero m p = none
next_loop (suc n) m p =
    let following = next_loop n m (items_on p 1) in
    let linked = next_loop n m (m (ti_data p)) in
    let skipped = next_loop n m (items_on p (m (ti_data p) + 1)) in
    let tag = m (ti_tag p) in
    if tag == tag_more
    then or_absent (m (ti_data p)) linked
    else if tag == tag_ignore
    then following
    else if tag == tag_done
    then some (null, null)
    else if tag == tag_skip
    then skipped
    else some (p, items_on p 1)

-- util_NextTagItem
pub next_tag_item : ℕ → Mem → Ptr → Option (Ptr × Ptr)
next_tag_item n m p = or_absent p (next_loop n m p)

-- The head of `while ((tag = NextTagItem(&tstate)))`.
abbrev pub while_item {ℓ} :
    {A : Type ℓ} → Option (Ptr × Ptr) → Option A → (Ptr → Ptr → Option A) → Option A
while_item none over body = none
while_item (some (i, q)) over body = if i == null then over else body i q

-- util_FindTagItem
pub find_tag_item : ℕ → Mem → ℕ → Ptr → Option Ptr
find_tag_item zero m tag p = none
find_tag_item (suc n) m tag p =
    while_item (next_tag_item (suc n) m p) (some null)
      (λ i q. let rest = find_tag_item n m tag q in if m (ti_tag i) == tag then some i else rest)

-- util_GetTagData
pub get_tag_data : ℕ → Mem → ℕ → ℕ → Ptr → Option ℕ
get_tag_data n m tag default p =
    Option.map (λ i. if i == null then default else m (ti_data i)) (find_tag_item n m tag p)

abbrev pub flags_of : ℕ → Mask
flags_of w i = (w / 2 ^ i) % 2 == 1

-- The change that an item makes to the flags, with what is found of it in the map.
abbrev pub pack : Mem → Ptr → Ptr → Mask → Mask
pack m current found flags =
    if found == null
    then flags
    else if m (ti_data current) == 0
    then mask_and flags (mask_not (flags_of (m (ti_data found))))
    else mask_or flags (flags_of (m (ti_data found)))

abbrev pub with_found : Option Ptr → (Ptr → Option Mask) → Option Mask
with_found none f = none
with_found (some p) f = f p

-- util_PackBoolTags; `k` is the fuel of the search in the map.
pub pack_bool_tags : ℕ → ℕ → Mem → Mask → Ptr → Ptr → Option Mask
pack_bool_tags zero k m flags p bools = none
pack_bool_tags (suc n) k m flags p bools =
    while_item (next_tag_item (suc n) m p) (some flags) (λ i q.
      with_found (find_tag_item k m (m (ti_tag i)) bools)
        (λ found. pack_bool_tags n k m (pack m i found flags) q bools))

abbrev pub copy_item : Ptr → Ptr → Mem → Mem
copy_item to from m = write (write m (ti_tag to) (m (ti_tag from))) (ti_data to) (m (ti_data from))

-- The loop of util_RefreshTagItemClones.
pub refresh_loop : ℕ → Ptr → Ptr → Mem → Option Mem
refresh_loop zero clone p m = none
refresh_loop (suc n) clone p m =
    while_item (next_tag_item (suc n) m p) (some m)
      (λ i q. refresh_loop n (clone + 8) q (copy_item clone i m))

-- util_RefreshTagItemClones
pub refresh_tag_item_clones : ℕ → Ptr → Ptr → Mem → Option Mem
refresh_tag_item_clones n clone org m =
    if clone == null
    then some m
    else if org == null
    then some (write m (ti_tag clone) tag_done)
    else refresh_loop n clone org m

-- util_TagInArray, of the words at `p`.
pub tag_in_array : ℕ → Mem → ℕ → Ptr → Option Bool
tag_in_array zero m tag p = none
tag_in_array (suc n) m tag p =
    let rest = tag_in_array n m tag (p + 4) in
    if m p == tag_done then some false else if m p == tag then some true else rest

abbrev pub tagfilter_and : ℕ
tagfilter_and = 0

abbrev pub tagfilter_not : ℕ
tagfilter_not = 1

-- The number of valid items and the memory after an item, with whether its tag is in the array.
pub filter_item : ℕ → Bool → Ptr → ℕ → Mem → ℕ × Mem
filter_item logic hit i valid m =
    if logic == tagfilter_and
    then if hit then (u32 (valid + 1), m) else (valid, write m (ti_tag i) tag_ignore)
    else if logic == tagfilter_not
    then if hit then (valid, write m (ti_tag i) tag_ignore) else (u32 (valid + 1), m)
    else (valid, m)

-- The loop of util_FilterTagItems; `k` is the fuel of the search in the array.
pub filter_loop : ℕ → ℕ → ℕ → Ptr → Ptr → ℕ → Mem → Option (ℕ × Mem)
filter_loop zero k logic array p valid m = none
filter_loop (suc n) k logic array p valid m =
    while_item (next_tag_item (suc n) m p) (some (valid, m)) (λ i q.
      Option.bind (tag_in_array k m (m (ti_tag i)) array) (λ hit.
        let (valid', m') = filter_item logic hit i valid m in
        filter_loop n k logic array q valid' m'))

-- util_FilterTagItems: the number of valid items, and the memory.
pub filter_tag_items : ℕ → ℕ → Ptr → Ptr → ℕ → Mem → Option (ℕ × Mem)
filter_tag_items n k list array logic m =
    if list == null
    then some (0, m)
    else if array == null
    then some (0, m)
    else filter_loop n k logic array list 0 m
