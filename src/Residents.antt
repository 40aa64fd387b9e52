-- ===== src/Residents.antt =====
-- src/kickstart/lib.exec: resident.c, initresidentcode.c and include/resident.h: the ROM tags that RomTagScanner finds
-- and InitResidentCode starts, and the library or device that InitResident makes of one. AllocVec and the functions of
-- the modules are arguments. `none` is a `for(;;)`, a call through NULL, or a loop on memory without an end mark, which
-- takes fuel.
pub mod Scan
pub mod Install
mod Tests
use mathlib.Core.Option
use poweros_raspi.Base.{
  ℕ, zero, suc, ◌+◌, ◌-◌, ◌%◌, ◌^◌, Bool, true, false, ◌&&◌, ◌||◌, not, Option, none, some, List,
  [], ◌∷◌, ◌==◌, if◌then◌else◌, leb, u32, bit_and,
}
use poweros_raspi.ExecList.{Ptr, null, Mem}
use poweros_raspi.ExecList.Queue.{enqueue_by}
use poweros_raspi.Vectors.{half_at, make_functions, neg_size}
use poweros_raspi.Libraries.{
  Kernel, Library, put_library, nt_device, nt_library, libf_sumused, libf_changed, add_device,
  add_library, flag,
}

-- RTC_MATCHWORD
abbrev pub rtc_matchword : ℕ
rtc_matchword = 233573856

-- The functions of a module that get the library, and give one back.
abbrev pub Init : Type 0
Init = Ptr → Kernel → Kernel × Ptr

-- struct init; `init` is `none` for NULL.
pub record InitTable : Type 0 where
  pub d_size : ℕ
  pub vectors : Ptr
  pub init : Option Init

-- struct Resident, with the table at its rt_Init.
pub record Resident : Type 0 where
  pub rt_match_word : ℕ
  pub rt_match_tag : Ptr
  pub rt_flags : ℕ
  pub rt_version : ℕ
  pub rt_type : ℕ
  pub rt_pri : ℕ
  pub rt_name : List ℕ
  pub rt_id_string : Ptr
  pub rt_init : InitTable

-- AllocVec of that many bytes of MEMF_FAST: the memory, and the block or NULL.
abbrev pub AllocVec : Type 0
AllocVec = ℕ → Mem → Mem × Ptr

abbrev pub set_sizes : Ptr → ℕ → ℕ → Kernel → Kernel
set_sizes l neg pos s =
    put_library l
      (record (s.library l) { lib_neg_size = neg % 2 ^ 16; lib_pos_size = pos % 2 ^ 16 }) s

abbrev pub and_init : Option Init → Ptr → Kernel → Kernel
and_init none l s = s
and_init (some f) l s = (f l s).0

-- The jump table of lib_MakeLibrary, of offsets or of pointers.
unfoldable pub fill_vectors : ℕ → Ptr → Ptr → Mem → Option Mem
fill_vectors k l func_init m =
    if half_at m func_init == 65535
    then make_functions k l (func_init + 2) func_init m
    else make_functions k l func_init 0 m

-- lib_MakeLibrary
unfoldable pub make_library : ℕ → AllocVec → Ptr → Option Init → ℕ → Kernel → Option (Kernel × Ptr)
make_library k alloc_vec func_init lib_init data_size s =
    Option.bind (neg_size k s.memory func_init) (λ negsize.
      let (m, block) = alloc_vec (u32 (data_size + negsize)) s.memory in
      let l = u32 (block + negsize) in
      if block == null
      then some (record s { memory = m }, null)
      else Option.map
          (λ m. (and_init lib_init l (set_sizes l negsize data_size (record s { memory = m })), l))
          (fill_vectors k l func_init m))

-- The fields that lib_InitResident takes over from the ROM tag.
abbrev pub from_tag : Resident → Ptr → Kernel → Kernel
from_tag r l s =
    put_library l
      (record (s.library l) {
        ln_type = r.rt_type;
        ln_name = r.rt_name;
        lib_version = r.rt_version;
        lib_id_string = r.rt_id_string;
        lib_flags = libf_sumused + libf_changed;
      })
      s

abbrev pub call_init : Option Init → Ptr → Kernel → Kernel × Ptr
call_init none l s = (s, l)
call_init (some f) l s = f l s

-- The switch on rt_Type; `quiet` is what other tasks do while AddLibrary sums.
unfoldable pub add_by_type : ℕ → List (Kernel → Kernel) → ℕ → Kernel × Ptr → Option (Kernel × Ptr)
add_by_type k others t (s, l) =
    if l == null
    then some (s, l)
    else if t == nt_device
    then some (add_device l s, l)
    else if t == nt_library
    then Option.map (λ s. (s, l)) (add_library k others l s)
    else some (s, l)

abbrev pub without_auto_init : Option Init → Ptr → Kernel → Option (Kernel × Ptr)
without_auto_init none l s = none
without_auto_init (some f) l s = some (f l s)

-- lib_InitResident of the ROM tag at `at`, with the value that the variable `library` happens to have.
unfoldable pub init_resident :
    ℕ → List (Kernel → Kernel) → AllocVec → Ptr → Ptr → Resident → Kernel → Option (Kernel × Ptr)
init_resident k others alloc_vec library at r s =
    if not (r.rt_match_word == rtc_matchword) || not (r.rt_match_tag == at)
    then some (s, null)
    else if r.rt_flags == 0
    then without_auto_init r.rt_init.init library s
    else Option.bind (make_library k alloc_vec r.rt_init.vectors none r.rt_init.d_size s) (λ made.
      let (s, l) = made in
      if l == null
      then some (s, l)
      else add_by_type k others r.rt_type (call_init r.rt_init.init l (from_tag r l s)))

-- A struct Resident is at `p`, by what its first words hold.
abbrev pub is_tag : (Ptr → Resident) → Ptr → Bool
is_tag rom p = (rom p).rt_match_word == rtc_matchword && (rom p).rt_match_tag == p

-- The loop of lib_RomTagScanner over the addresses from `p`, of which there are `n`: ResidentList, as the tags that its
-- nodes hold, and FALSE if AllocVec gave no node (`nodes` says whether it does, call by call).
unfoldable pub scan : (Ptr → Resident) → ℕ → Ptr → List Bool → List Ptr → List Ptr × Bool
scan rom zero p nodes mods = (mods, true)
scan rom (suc n) p [] mods =
    let rest = scan rom n (p + 1) [] mods in if is_tag rom p then (mods, false) else rest
scan rom (suc n) p (node ∷ nodes) mods =
    let skipped = scan rom n (p + 1) (node ∷ nodes) mods in
    let found = scan rom n (p + 1) nodes (enqueue_by (λ q. (rom q).rt_pri) p mods) in
    if is_tag rom p then (if node then found else (mods, false)) else skipped

-- The loop of lib_InitResidentCode over ResidentList.
unfoldable pub init_resident_code :
    (Ptr → Resident → Kernel → Option (Kernel × Ptr))
    → (Ptr → Resident)
    → ℕ
    → List Ptr
    → Kernel
    → Option Kernel
init_resident_code init rom start_class [] s = some s
init_resident_code init rom start_class (p ∷ ps) s =
    if flag (rom p).rt_flags start_class
    then Option.bind (init p (rom p) s) (λ r.
      let rest = init_resident_code init rom start_class ps r.0 in
      if r.1 == null then none else rest)
    else init_resident_code init rom start_class ps s

-- lib_RomTagScanner
unfoldable pub rom_tag_scanner :
    (Ptr → Resident) → Ptr → Ptr → List Bool → List Ptr → List Ptr × Bool
rom_tag_scanner rom start end nodes mods = scan rom (suc end - start) start nodes mods
