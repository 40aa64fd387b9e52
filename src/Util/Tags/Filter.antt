-- ===== src/Util/Tags/Filter.antt =====
-- What util_FilterTagItems of src/kickstart/lib.util/tags.c does to lists with no item to exclude.
use mathlib.Core.Option
use mathlib.Core.Path.{◌∙◌}
use poweros_raspi.Base.{
  ℕ, zero, suc, ◌+◌, ◌<◌, ◌≡◌, ◌≢◌, refl, Bool, true, false, some, List, [], ◌∷◌, ◌==◌, arith, u32,
}
use poweros_raspi.ExecList.{Ptr, null, Mem}
use poweros_raspi.Util.Tags.{
  ti_tag, tag_done, tagfilter_and, tagfilter_not, tag_in_array, filter_item, filter_loop,
  filter_tag_items,
}
use poweros_raspi.Util.Tags.Items.{Items, size, next_tag_item-Continues, while-over, while-body}

-- TagInArray answers `hit` for the tag of each of these items.
pub data Answers (k : ℕ) (m : Mem) (array : Ptr) (hit : Bool) : List Ptr → Type 0 where
  no_more : Answers k m array hit []
  answer :
      {x : Ptr} {xs : List Ptr}
      → tag_in_array k m (m (ti_tag x)) array ≡ some hit
      → Answers k m array hit xs
      → Answers k m array hit (x ∷ xs)

-- The UINT32 count after these valid items.
abbrev pub counted : ℕ → List Ptr → ℕ
counted valid [] = valid
counted valid (x ∷ xs) = counted (u32 (valid + 1)) xs

-- The answer that makes an item valid.
abbrev pub wanted : Bool → ℕ
wanted true = tagfilter_and
wanted false = tagfilter_not

filter_item-wanted :
    (hit : Bool) (i : Ptr) (valid : ℕ) (m : Mem)
    → filter_item (wanted hit) hit i valid m ≡ (u32 (valid + 1), m)
unfolding filter_item
filter_item-wanted true i valid m = refl
filter_item-wanted false i valid m = refl

filter_loop-wanted :
    (n k : ℕ) (hit : Bool) (array p : Ptr) (valid : ℕ) (m : Mem) (xs : List Ptr) (t : Items m p xs)
    → Answers k m array hit xs
    → size t < n
    → filter_loop n k (wanted hit) array p valid m ≡ some (counted valid xs, m)
unfolding filter_loop Option.bind
filter_loop-wanted zero k hit array p valid m xs t a lt = absurd (omega arith)
filter_loop-wanted (suc n) k hit array p valid m [] t a lt =
    while-over _ _ _ (next_tag_item-Continues (suc n) m p [] t lt)
filter_loop-wanted (suc n) k hit array p valid m (x ∷ xs) t (answer e a) lt =
    let (q, at, ne, u, less) = next_tag_item-Continues (suc n) m p (x ∷ xs) t lt in
    while-body _ _ _ x q at ne
    ∙ (rw (e, filter_item-wanted hit x valid m)
        (filter_loop-wanted n k hit array q (u32 (valid + 1)) m xs u a (omega arith)))

-- FilterTagItems counts every item of the list and leaves the memory as it is, when each tag is in the array with
-- TAGFILTER_AND, or none is with TAGFILTER_NOT.
pub filter_tag_items-wanted :
    (n k : ℕ) (hit : Bool) (list array : Ptr) (m : Mem) (xs : List Ptr) (t : Items m list xs)
    → Answers k m array hit xs
    → list ≢ null
    → array ≢ null
    → size t < n
    → filter_tag_items n k list array (wanted hit) m ≡ some (counted 0 xs, m)
unfolding filter_tag_items
filter_tag_items-wanted n k hit list array m xs t a ne on lt =
    let given : (list == null) ≡ false = ground arith in
    let filter : (array == null) ≡ false = ground arith in
    rw (given, filter) (filter_loop-wanted n k hit array list 0 m xs t a lt)

-- TagInArray answers FALSE for every tag when the array has none.
pub tag_in_array-empty :
    (n : ℕ) (m : Mem) (tag : ℕ) (p : Ptr)
    → m p ≡ tag_done
    → tag_in_array (suc n) m tag p ≡ some false
unfolding tag_in_array
tag_in_array-empty n m tag p e = rw e refl
