-- ===== src/Libraries.antt =====
-- src/kickstart/lib.exec: the libraries and devices of exec (library.c, devices.c, include/library.h, device.h and
-- io.h). Libraries, devices and requests are the addresses of their structures; LibList and DevList are sequences.
-- A call through `_GETVECADDR` goes to the functions that a device or library has at its vectors, an argument here.
-- `none` is a `for(;;)`.
pub mod Drivers
pub mod Laws
pub mod Counts
mod Tests
pub mod Listed
pub mod Patched
pub mod Sum
pub mod Errors
use mathlib.Core.Option
use poweros_raspi.Base.{
  ℕ, zero, suc, ◌+◌, ◌-◌, ◌%◌, ◌^◌, Bool, true, false, ◌&&◌, not, Option, none, some, List, [], ◌∷◌,
  ◌==◌, if◌then◌else◌, ltb, leb, bit_and, bit_or, u32,
}
use poweros_raspi.ExecList.{Ptr, null, Mem, write, strcmp_eq}
use poweros_raspi.ExecList.Queue.{enqueue_by, remove_by, find_by}
use poweros_raspi.Tasks.{SysBase, forbid, permit, or_null}

abbrev pub nt_device : ℕ
nt_device = 2

abbrev pub nt_library : ℕ
nt_library = 3

abbrev pub libf_summing : ℕ
libf_summing = 1

abbrev pub libf_changed : ℕ
libf_changed = 2

abbrev pub libf_delexp : ℕ
libf_delexp = 8

abbrev pub libf_sumused : ℕ
libf_sumused = 16

-- IOERR_OPENFAIL as an INT8 and as an INT32.
abbrev pub openfail8 : ℕ
openfail8 = 255

abbrev pub openfail : ℕ
openfail = 4294967295

-- (struct Device *)-1
abbrev pub no_device : Ptr
no_device = 4294967295

-- struct Library
pub record Library : Type 0 where
  pub ln_type : ℕ
  pub ln_pri : ℕ
  pub ln_name : List ℕ
  pub lib_open_cnt : ℕ
  pub lib_flags : ℕ
  pub lib_neg_size : ℕ
  pub lib_pos_size : ℕ
  pub lib_version : ℕ
  pub lib_revision : ℕ
  pub lib_sum : ℕ
  pub lib_id_string : Ptr

-- struct IORequest; io_error is the byte.
pub record IoRequest : Type 0 where
  pub ln_type : ℕ
  pub io_device : Ptr
  pub io_unit : Ptr
  pub io_error : ℕ

-- The nesting of Forbid, LibList and DevList, the structures at their addresses, and the words of memory.
pub record Kernel : Type 0 where
  pub base : SysBase
  pub lib_list : List Ptr
  pub dev_list : List Ptr
  pub library : Ptr → Library
  pub request : Ptr → IoRequest
  pub memory : Mem

abbrev pub put_library : Ptr → Library → Kernel → Kernel
put_library p l s = record s { library = λ q. if q == p then l else s.library q }

abbrev pub put_request : Ptr → IoRequest → Kernel → Kernel
put_request p r s = record s { request = λ q. if q == p then r else s.request q }

abbrev pub set_count : Ptr → ℕ → Kernel → Kernel
set_count p n s = put_library p (record (s.library p) { lib_open_cnt = n }) s

abbrev pub set_flags : Ptr → ℕ → Kernel → Kernel
set_flags p n s = put_library p (record (s.library p) { lib_flags = n }) s

-- lib_Forbid and lib_Permit
unfoldable pub forbidden : Kernel → Kernel
forbidden s = record s { base = forbid s.base }

unfoldable pub permitted : Kernel → Kernel
permitted s = record s { base = permit s.base }

-- A UINT16 counts up and down; flags are set and cleared.
abbrev pub raise : ℕ → ℕ
raise n = (n + 1) % 2 ^ 16

abbrev pub lower : ℕ → ℕ
lower n = (n + 65535) % 2 ^ 16

abbrev pub clear : ℕ → ℕ → ℕ
clear flags f = bit_and flags (65535 - f)

-- The functions at the first vectors of a library: Open, Close and Expunge.
pub record LibFuncs : Type 0 where
  pub lib_open : Ptr → Kernel → Kernel × Ptr
  pub lib_close : Ptr → Kernel → Kernel
  pub lib_expunge : Ptr → Kernel → Kernel × ℕ

-- Those of a device, which get the request too.
pub record DevFuncs : Type 0 where
  pub dev_open : Ptr → Ptr → ℕ → ℕ → Kernel → Kernel × Ptr
  pub dev_close : Ptr → Ptr → Kernel → Kernel
  pub dev_expunge : Ptr → Kernel → Kernel × ℕ

-- FindName on a list of libraries.
abbrev pub named : List Ptr → List ℕ → Kernel → Ptr
named list name s = or_null (find_by (λ p. strcmp_eq (s.library p).ln_name name) list) null

-- lib_OpenLibrary; the name is `none` for NULL.
unfoldable pub open_library : (Ptr → LibFuncs) → Option (List ℕ) → ℕ → Kernel → Kernel × Ptr
open_library vec none version s = (s, null)
open_library vec (some lib_name) version s =
    let s = forbidden s in
    let library = named s.lib_list lib_name s in
    let s = permitted s in
    if library == null
    then (s, library)
    else if leb version (s.library library).lib_version
    then (vec library).lib_open library s
    else (s, null)

-- lib_CloseLibrary
unfoldable pub close_library : (Ptr → LibFuncs) → Ptr → Kernel → Kernel
close_library vec library s =
    if library == null then s else permitted ((vec library).lib_close library (forbidden s))

-- The loop of lib_SumLibrary over the words from `lp` up to the library.
pub sum_words : ℕ → Mem → Ptr → Ptr → ℕ → Option ℕ
sum_words zero m lp library sum = none
sum_words (suc k) m lp library sum =
    let rest = sum_words k m (lp + 4) library (u32 (sum + m lp)) in
    if ltb lp library then rest else some sum

-- One pass of the summing: the flags before it, and the sum it makes after Permit.
abbrev pub start_pass : Ptr → Kernel → Kernel
start_pass l s =
    permitted (set_flags l (clear (bit_or (s.library l).lib_flags libf_summing) libf_changed) s)

abbrev pub end_pass : Ptr → Kernel → Kernel
end_pass l s = let s = forbidden s in set_flags l (clear (s.library l).lib_flags libf_summing) s

abbrev pub flag : ℕ → ℕ → Bool
flag flags f = not (bit_and flags f == 0)

-- The passes, `others` being what other tasks do in each of them while they are permitted: the state, `oldflags` and
-- the sum of the last pass.
pub passes : ℕ → List (Kernel → Kernel) → Ptr → Kernel → Option (Kernel × ℕ × ℕ)
passes k [] l s = none
passes k (other ∷ others) l s =
    let s0 = start_pass l s in
    let old = (s.library l).lib_flags in
    Option.bind (sum_words k s0.memory (u32 (l + (s0.library l).lib_neg_size)) l 0) (λ sum.
      let s1 = end_pass l (other s0) in
      let rest = passes k others l s1 in
      if flag (s1.library l).lib_flags libf_changed then rest else some (s1, old, sum))

abbrev pub set_sum : Ptr → ℕ → Kernel → Kernel
set_sum l sum s = put_library l (record (s.library l) { lib_sum = sum }) s

-- The check of the sum, where Alert halts, and the new sum.
abbrev pub check_sum : Ptr → Kernel × ℕ × ℕ → Option Kernel
check_sum l (s, old, sum) =
    if not (flag old libf_changed) && not ((s.library l).lib_sum == sum)
    then none
    else some (set_sum l sum s)

-- lib_SumLibrary
pub sum_library : ℕ → List (Kernel → Kernel) → Ptr → Kernel → Option Kernel
sum_library k others l s =
    let s = forbidden s in
    let flags = (s.library l).lib_flags in
    Option.map permitted (
      if flag flags libf_sumused && not (flag flags libf_summing)
      then Option.bind (passes k others l s) (check_sum l)
      else some s)

-- lib_AddLibrary
pub add_library : ℕ → List (Kernel → Kernel) → Ptr → Kernel → Option Kernel
add_library k others l s =
    let s =
      put_library l
        (record (s.library l) {
          ln_type = nt_library;
          lib_flags = bit_or (s.library l).lib_flags libf_changed;
        })
        s in
    Option.map
      (λ s.
        let s = forbidden s in
        permitted (record s { lib_list = enqueue_by (λ q. (s.library q).ln_pri) l s.lib_list }))
      (sum_library k others l s)

-- lib_RemLibrary
unfoldable pub rem_library : (Ptr → LibFuncs) → Ptr → Kernel → Kernel × ℕ
rem_library vec l s =
    let s1 = forbidden s in
    let s1 = permitted (record s1 { lib_list = remove_by (λ q. q == l) s1.lib_list }) in
    if l == null then (s, 0) else (vec l).lib_expunge l s1

-- lib_AddDevice
unfoldable pub add_device : Ptr → Kernel → Kernel
add_device d s =
    let s =
      put_library d
        (record (s.library d) {
          ln_type = nt_device;
          lib_flags = bit_or (s.library d).lib_flags libf_changed;
        })
        s in
    let s = forbidden s in
    permitted (record s { dev_list = enqueue_by (λ q. (s.library q).ln_pri) d s.dev_list })

-- lib_RemDevice
unfoldable pub rem_device : (Ptr → DevFuncs) → Ptr → Kernel → Kernel × ℕ
rem_device vec d s =
    let s1 = forbidden s in
    let (s1, ret) =
      (vec d).dev_expunge d (record s1 { dev_list = remove_by (λ q. q == d) s1.dev_list }) in
    if d == null then (s, 0) else (permitted s1, ret)

-- lib_CloseDevice
unfoldable pub close_device : (Ptr → DevFuncs) → Ptr → Kernel → Kernel
close_device vec io s =
    let d = (s.request io).io_device in
    let s1 = (vec d).dev_close d io (forbidden s) in
    let s1 = put_request io (record (s1.request io) { io_device = no_device }) s1 in
    if d == null then s else permitted s1

-- An INT8 as an INT32.
abbrev pub widen : ℕ → ℕ
widen e = if ltb e 128 then e else e + 4294967040

-- What lib_OpenDevice does after the call of Open.
abbrev pub opened : Ptr → Kernel × Ptr → Kernel × ℕ
opened io (s, r) =
    let s = permitted s in
    let ret = widen (s.request io).io_error in
    if r == null
    then (s, openfail)
    else if ltb ret 2147483648
    then (s, ret)
    else (put_request io (record (s.request io) { io_device = null }) s, ret)

-- lib_OpenDevice
unfoldable pub open_device : (Ptr → DevFuncs) → List ℕ → ℕ → Ptr → ℕ → Kernel → Kernel × ℕ
open_device vec dev_name unit io flags s =
    let s = forbidden s in
    let d = named s.dev_list dev_name s in
    let s = permitted s in
    let s1 =
      put_request io (record (s.request io) { io_error = 0; io_device = d; io_unit = null }) s in
    if d == null then (s, openfail) else opened io ((vec d).dev_open d io unit flags (forbidden s1))

-- lib_SetFunction, with the offset as a UINT32 and what the return register holds after Permit.
unfoldable pub set_function : Ptr → ℕ → Ptr → ℕ → Kernel → Kernel × ℕ
set_function l offset f left s =
    let s = forbidden s in
    let s = set_flags l (bit_or (s.library l).lib_flags libf_changed) s in
    let s = record s { memory = write s.memory (u32 (l + offset)) f } in (permitted s, left)
