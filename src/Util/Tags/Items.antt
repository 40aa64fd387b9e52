-- ===== src/Util/Tags/Items.antt =====
-- The items that a tag list of src/kickstart/lib.util/tags.c stands for, and the searches in it.
use mathlib.Core.Path.{sym, ◌∙◌}
use poweros_raspi.Base.{
  ℕ, zero, suc, ◌+◌, ◌<◌, ◌≡◌, ◌≢◌, refl, Bool, true, false, Option, some, List, [], ◌∷◌, ◌==◌,
  if◌then◌else◌, arith, Mask,
}
use poweros_raspi.ExecList.{Ptr, null, Mem}
use poweros_raspi.Util.Tags.{
  ti_tag, ti_data, tag_done, tag_ignore, tag_more, tag_skip, items_on, next_tag_item, next_loop,
  or_absent, while_item, find_tag_item, get_tag_data, pack, pack_bool_tags,
}

-- From `p` the list has the items at these addresses, in order.
pub data Items (m : Mem) : Ptr → List Ptr → Type 0 where
  absent : Items m null []
  done : {p : Ptr} → p ≢ null → m (ti_tag p) ≡ tag_done → Items m p []
  ignored :
      {p : Ptr} {xs : List Ptr}
      → p ≢ null
      → m (ti_tag p) ≡ tag_ignore
      → items_on p 1 ≢ null
      → Items m (items_on p 1) xs
      → Items m p xs
  linked :
      {p : Ptr} {xs : List Ptr}
      → p ≢ null
      → m (ti_tag p) ≡ tag_more
      → Items m (m (ti_data p)) xs
      → Items m p xs
  skipped :
      {p : Ptr} {xs : List Ptr}
      → p ≢ null
      → m (ti_tag p) ≡ tag_skip
      → items_on p (m (ti_data p) + 1) ≢ null
      → Items m (items_on p (m (ti_data p) + 1)) xs
      → Items m p xs
  item :
      {p : Ptr} {xs : List Ptr}
      → p ≢ null
      → tag_skip < m (ti_tag p)
      → Items m (items_on p 1) xs
      → Items m p (p ∷ xs)

-- The number of tag items that are read.
unfoldable pub size : {m : Mem} {p : Ptr} {xs : List Ptr} → Items m p xs → ℕ
size absent = 0
size (done ne e) = 1
size (ignored ne e on t) = suc (size t)
size (linked ne e t) = suc (size t)
size (skipped ne e on t) = suc (size t)
size (item ne e t) = suc (size t)

-- What NextTagItem gives of these items: the first, with a shorter list behind it, or NULL.
abbrev pub Continues : Mem → ℕ → List Ptr → Option (Ptr × Ptr) → Type 0
Continues m s [] r = r ≡ some (null, null)
Continues m s (x ∷ xs) r =
    (q : Ptr) × (r ≡ some (x, q)) × (x ≢ null) × (t : Items m q xs) × (size t < s)

Continues-more :
    (m : Mem) (s : ℕ) (xs : List Ptr) (r : Option (Ptr × Ptr))
    → Continues m s xs r
    → Continues m (suc s) xs r
Continues-more m s [] r c = c
Continues-more m s (x ∷ xs) r (q, e, ne, t, lt) = (q, e, ne, t, omega arith)

or_absent-on : (p : Ptr) (r : Option (Ptr × Ptr)) → p ≢ null → or_absent p r ≡ r
or_absent-on p r ne = let at : (p == null) ≡ false = ground arith in rw at refl

module _ (n : ℕ) (m : Mem) (p : Ptr) where
  loop-done : m (ti_tag p) ≡ tag_done → next_loop (suc n) m p ≡ some (null, null)
  unfolding next_loop
  loop-done e = rw e refl

  loop-ignored : m (ti_tag p) ≡ tag_ignore → next_loop (suc n) m p ≡ next_loop n m (items_on p 1)
  unfolding next_loop
  loop-ignored e = rw e refl

  loop-linked :
      m (ti_tag p) ≡ tag_more
      → next_loop (suc n) m p ≡ or_absent (m (ti_data p)) (next_loop n m (m (ti_data p)))
  unfolding next_loop
  loop-linked e = rw e refl

  loop-skipped :
      m (ti_tag p) ≡ tag_skip
      → next_loop (suc n) m p ≡ next_loop n m (items_on p (m (ti_data p) + 1))
  unfolding next_loop
  loop-skipped e = rw e refl

  loop-item : tag_skip < m (ti_tag p) → next_loop (suc n) m p ≡ some (p, items_on p 1)
  unfolding next_loop
  loop-item gt =
      let more : (m (ti_tag p) == tag_more) ≡ false = ground arith in
      let ignore : (m (ti_tag p) == tag_ignore) ≡ false = ground arith in
      let over : (m (ti_tag p) == tag_done) ≡ false = ground arith in
      let skip : (m (ti_tag p) == tag_skip) ≡ false = ground arith in
      rw (more, ignore, over, skip) refl

next-loop : (n : ℕ) (m : Mem) (p : Ptr) → p ≢ null → next_tag_item n m p ≡ next_loop n m p
unfolding next_tag_item
next-loop n m p ne = or_absent-on p (next_loop n m p) ne

next-absent : (n : ℕ) (m : Mem) → next_tag_item n m null ≡ some (null, null)
unfolding next_tag_item
next-absent n m = refl

next-linked :
    (n : ℕ) (m : Mem) (p : Ptr)
    → p ≢ null
    → m (ti_tag p) ≡ tag_more
    → next_tag_item (suc n) m p ≡ next_tag_item n m (m (ti_data p))
unfolding next_tag_item
next-linked n m p ne e = or_absent-on p (next_loop (suc n) m p) ne ∙ loop-linked n m p e

pub next_tag_item-Continues :
    (n : ℕ) (m : Mem) (p : Ptr) (xs : List Ptr) (t : Items m p xs)
    → size t < n
    → Continues m (size t) xs (next_tag_item n m p)
unfolding size
next_tag_item-Continues zero m p xs t lt = absurd (omega arith)
next_tag_item-Continues (suc n) m p xs absent lt = next-absent (suc n) m
next_tag_item-Continues (suc n) m p xs (done ne e) lt = next-loop (suc n) m p ne ∙ loop-done n m p e
next_tag_item-Continues (suc n) m p xs (ignored ne e on t) lt =
    rw (next-loop (suc n) m p ne, loop-ignored n m p e, sym (next-loop n m (items_on p 1) on))
      (Continues-more m (size t) xs _
        (next_tag_item-Continues n m (items_on p 1) xs t (omega arith)))
next_tag_item-Continues (suc n) m p xs (linked ne e t) lt = rw (next-linked n m p ne e) (
    Continues-more m (size t) xs _ (next_tag_item-Continues n m (m (ti_data p)) xs t (omega arith)))
next_tag_item-Continues (suc n) m p xs (skipped ne e on t) lt =
    let q : Ptr = items_on p (m (ti_data p) + 1) in
    rw (next-loop (suc n) m p ne, loop-skipped n m p e, sym (next-loop n m q on))
      (Continues-more m (size t) xs _ (next_tag_item-Continues n m q xs t (omega arith)))
next_tag_item-Continues (suc n) m p xs (item {xs = ys} ne gt t) lt =
    rw (next-loop (suc n) m p ne, loop-item n m p gt) (items_on p 1, refl, ne, t, omega arith)

-- The first of these items that has the tag, or NULL.
abbrev pub first_with : Mem → ℕ → List Ptr → Ptr
first_with m tag [] = null
first_with m tag (x ∷ xs) = if m (ti_tag x) == tag then x else first_with m tag xs

pub while-over :
    {A : Type 0} (r : Option (Ptr × Ptr)) (over : Option A) (body : Ptr → Ptr → Option A)
    → r ≡ some (null, null)
    → while_item r over body ≡ over
while-over r over body e = rw e refl

pub while-body :
    {A : Type 0} (r : Option (Ptr × Ptr)) (over : Option A) (body : Ptr → Ptr → Option A)
    (i q : Ptr)
    → r ≡ some (i, q)
    → i ≢ null
    → while_item r over body ≡ body i q
while-body r over body i q e ne = let at : (i == null) ≡ false = ground arith in rw e (rw at refl)

some-if : (b : Bool) (p q : Ptr) → (if b then some p else some q) ≡ some (if b then p else q)
some-if true p q = refl
some-if false p q = refl

-- FindTagItem passes over ignored and skipped items, follows the links, and gives the first item with the
-- tag, or NULL.
pub find_tag_item-first :
    (n : ℕ) (m : Mem) (tag : ℕ) (p : Ptr) (xs : List Ptr) (t : Items m p xs)
    → size t < n
    → find_tag_item n m tag p ≡ some (first_with m tag xs)
unfolding find_tag_item
find_tag_item-first zero m tag p xs t lt = absurd (omega arith)
find_tag_item-first (suc n) m tag p [] t lt =
    while-over _ _ _ (next_tag_item-Continues (suc n) m p [] t lt)
find_tag_item-first (suc n) m tag p (x ∷ xs) t lt =
    let (q, e, ne, u, less) = next_tag_item-Continues (suc n) m p (x ∷ xs) t lt in
    while-body _ _ _ x q e ne
    ∙ (rw (find_tag_item-first n m tag q xs u (omega arith))
        (some-if (m (ti_tag x) == tag) x (first_with m tag xs)))

-- The data of the first item with the tag, or the default.
pub get_tag_data-first :
    (n : ℕ) (m : Mem) (tag default : ℕ) (p : Ptr) (xs : List Ptr) (t : Items m p xs)
    → size t < n
    → get_tag_data n m tag default p
      ≡ some (if first_with m tag xs == null then default else m (ti_data (first_with m tag xs)))
unfolding get_tag_data
get_tag_data-first n m tag default p xs t lt = rw (find_tag_item-first n m tag p xs t lt) refl

-- The flags after these items, one after the other, with the map `bools`.
abbrev pub packed : Mem → List Ptr → List Ptr → Mask → Mask
packed m bools [] flags = flags
packed m bools (x ∷ xs) flags =
    packed m bools xs (pack m x (first_with m (m (ti_tag x)) bools) flags)

-- PackBoolTags sets or clears for every item of the list, in order, the flags that the map has for its tag.
pub pack_bool_tags-packed :
    (n k : ℕ) (m : Mem) (p bools : Ptr) (xs ys : List Ptr) (t : Items m p xs) (u : Items m bools ys)
    (flags : Mask)
    → size t < n
    → size u < k
    → pack_bool_tags n k m flags p bools ≡ some (packed m ys xs flags)
unfolding pack_bool_tags
pack_bool_tags-packed zero k m p bools xs ys t u flags lt lk = absurd (omega arith)
pack_bool_tags-packed (suc n) k m p bools [] ys t u flags lt lk =
    while-over _ _ _ (next_tag_item-Continues (suc n) m p [] t lt)
pack_bool_tags-packed (suc n) k m p bools (x ∷ xs) ys t u flags lt lk =
    let (q, e, ne, v, less) = next_tag_item-Continues (suc n) m p (x ∷ xs) t lt in
    while-body _ _ _ x q e ne
    ∙ (rw (find_tag_item-first k m (m (ti_tag x)) bools ys u lk)
        (pack_bool_tags-packed n k m q bools xs ys v u _ (omega arith) lk))
