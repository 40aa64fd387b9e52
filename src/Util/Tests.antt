-- ===== src/Util/Tests.antt =====
-- The string "Exec" at 100 and "eXEC!" at 200, and a tag list at 400 that goes on at 500.
use mathlib.Core.Option
use poweros_raspi.Base.{
  ℕ, ◌≡◌, ◌↔◌, refl, false, some, List, [], ◌∷◌, ◌++◌, map, if◌then◌else◌, arith, get_elem?, ltb,
  ◌-◌, inl, mask_none,
}
use poweros_raspi.ExecList.{null, Mem}
use poweros_raspi.Util.Chars.{is_lower, is_upper, to_upper, to_lower, to_lower-to_upper}
use poweros_raspi.Util.Strings.{Bytes, IsString, stricmp, strrchr, strcat}
use poweros_raspi.Util.Strings.Compare.{stricmp-same}
use poweros_raspi.Util.Strings.Search.{last_at, strrchr-last}
use poweros_raspi.Util.Strings.Copy.{SameOutside, strcat-IsString}
use poweros_raspi.Util.Tags.{find_tag_item, pack_bool_tags, filter_tag_items, tagfilter_not}
use poweros_raspi.Util.Tags.Filter.{filter_tag_items-wanted, no_more, answer, tag_in_array-empty}
use poweros_raspi.Util.Tags.Items.{
  Items, done, ignored, linked, skipped, item, size, first_with, packed, find_tag_item-first,
  pack_bool_tags-packed,
}

umlaut_case :
    (is_lower (to_upper 228) ≡ false)
    × (is_upper (to_lower 228) ≡ false)
    × (to_lower (to_upper 228) ≡ to_lower 228)
umlaut_case = to_lower-to_upper 228 (omega arith) (ground arith) (ground arith)

abbrev exec : List ℕ
exec = b'E' ∷ b'x' ∷ b'e' ∷ b'c' ∷ []

abbrev exec_call : List ℕ
exec_call = b'e' ∷ b'X' ∷ b'E' ∷ b'C' ∷ b'!' ∷ []

abbrev bytes : Bytes
bytes p =
    if ltb p 200
    then Option.get_or (get_elem? exec (p - 100)) 0
    else Option.get_or (get_elem? exec_call (p - 200)) 0

exec-IsString : IsString bytes 100 exec
exec-IsString = (
  refl,
  omega arith,
  omega arith,
  (
    refl,
    omega arith,
    omega arith,
    (refl, omega arith, omega arith, (refl, omega arith, omega arith, refl)),
  ),
)

exec_call-IsString : IsString bytes 200 exec_call
exec_call-IsString = (
  refl,
  omega arith,
  omega arith,
  (
    refl,
    omega arith,
    omega arith,
    (
      refl,
      omega arith,
      omega arith,
      (refl, omega arith, omega arith, (refl, omega arith, omega arith, refl)),
    ),
  ),
)

stricmp-same_example :
    (d : ℕ) × (stricmp 5 bytes 100 200 ≡ some d)
    × ((d ≡ 0) ↔ (map to_lower exec ≡ map to_lower exec_call))
stricmp-same_example =
    stricmp-same 5 bytes 100 200 exec exec_call (omega arith) exec-IsString exec_call-IsString

last_letter : strrchr 7 bytes 200 b'X' ≡ some (last_at b'X' 200 exec_call null)
last_letter =
    strrchr-last 7 bytes 200 exec_call b'X' (omega arith) (omega arith) (omega arith)
      exec_call-IsString

strcat_run :
    (c : Bytes) × (strcat 6 bytes 100 200 ≡ some c)
    × IsString c 100 (exec ++ exec_call)
    × SameOutside 104 5 bytes c
strcat_run =
    strcat-IsString 6 bytes 100 200 exec exec_call (omega arith) (omega arith) (inl (omega arith))
      exec-IsString exec_call-IsString

-- Ignored, tag 20, a link to 500, and there tag 30, one item skipped, tag 20 again, and the end. The map at
-- 600 has bit 1 for the tag 20.
abbrev words : Mem
words p =
    if ltb p 500
    then Option.get_or
        (get_elem?
          (1 ∷ 0 ∷ 0 ∷ 0 ∷ 9 ∷ 0 ∷ 0 ∷ 0 ∷ 20 ∷ 0 ∷ 0 ∷ 0 ∷ 5 ∷ 0 ∷ 0 ∷ 0 ∷ 2 ∷ 0 ∷ 0 ∷ 0 ∷ 500
            ∷ [])
          (p - 400))
        0
    else if ltb p 600
    then Option.get_or
        (get_elem? (30 ∷ 0 ∷ 0 ∷ 0 ∷ 7 ∷ 0 ∷ 0 ∷ 0 ∷ 3 ∷ 0 ∷ 0 ∷ 0 ∷ 1 ∷ []) (p - 500)) 0
    else Option.get_or (get_elem? (20 ∷ 0 ∷ 0 ∷ 0 ∷ 2 ∷ []) (p - 600)) 0

abbrev words_items : Items words 400 (408 ∷ 500 ∷ [])
words_items = ignored (ground arith) refl (ground arith) (
    item (ground arith) (omega arith) (
      linked (ground arith) refl (
        item (ground arith) (omega arith)
          (skipped (ground arith) refl (ground arith) (done (ground arith) refl)))))

abbrev map_items : Items words 600 (600 ∷ [])
map_items = item (ground arith) (omega arith) (done (ground arith) refl)

find_tag_item-first_example :
    find_tag_item 8 words 30 400 ≡ some (first_with words 30 (408 ∷ 500 ∷ []))
unfolding size
find_tag_item-first_example =
    find_tag_item-first 8 words 30 400 (408 ∷ 500 ∷ []) words_items (omega arith)

pack_bool_tags_run :
    pack_bool_tags 8 3 words mask_none 400 600
    ≡ some (packed words (600 ∷ []) (408 ∷ 500 ∷ []) mask_none)
unfolding size
pack_bool_tags_run =
    pack_bool_tags-packed 8 3 words 400 600 (408 ∷ 500 ∷ []) (600 ∷ []) words_items map_items
      mask_none (omega arith) (omega arith)

-- With the empty array at 601, TAGFILTER_NOT lets both items of the list be.
filter_tag_items_run : filter_tag_items 8 1 400 601 tagfilter_not words ≡ some (2, words)
unfolding size
filter_tag_items_run =
    filter_tag_items-wanted 8 1 false 400 601 words (408 ∷ 500 ∷ []) words_items
      (answer (tag_in_array-empty 0 words 20 601 refl)
        (answer (tag_in_array-empty 0 words 30 601 refl) no_more))
      (ground arith) (ground arith) (omega arith)
