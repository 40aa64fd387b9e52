-- ===== src/Vectors.antt =====
-- The function vectors below the base of a library: the loops that count and install them, in
-- src/kickstart/lib.exec/_functab.c and resident.c, and `_GETVECADDR` of include/types.h, by which every call of a
-- library goes. A table of function pointers is a row of words that ends with -1. Loops take fuel.
pub mod Install
pub mod Exec
pub mod Utility
mod Tests
use mathlib.Core.Option
use poweros_raspi.Base.{
  ℕ, zero, suc, ◌+◌, ◌-◌, ◌*◌, ◌/◌, ◌%◌, ◌^◌, Option, none, some, ◌==◌, if◌then◌else◌, ltb, u32,
  sub32,
}
use poweros_raspi.ExecList.{Ptr, Mem, write}

-- `(void *)-1`
abbrev pub end_mark : ℕ
end_mark = 4294967295

-- _GETJUMPVEC
unfoldable pub get_jump_vec : Ptr → ℕ → Ptr
get_jump_vec lib n = sub32 lib (u32 (n * 4))

-- _GETVECADDR
unfoldable pub get_vec_addr : Ptr → ℕ → Mem → ℕ
unfolding get_jump_vec
get_vec_addr lib n m = m (get_jump_vec lib n)

-- The loop of intern_CountFunc.
pub count_loop : ℕ → Mem → Ptr → ℕ → Option ℕ
count_loop zero m fp n = none
count_loop (suc k) m fp n =
    let rest = count_loop k m (fp + 4) (n + 1) in if m fp == end_mark then some n else rest

-- intern_CountFunc
pub count_func : ℕ → Mem → Ptr → Option ℕ
count_func k m function_array = Option.map (λ n. u32 (n * 4)) (count_loop k m function_array 0)

-- The loop of IntMakeFunctions, and of MakeFunctions for an array of pointers.
pub install_loop : ℕ → Ptr → Ptr → ℕ → Mem → Option Mem
install_loop zero target fp n m = none
install_loop (suc k) target fp n m =
    let rest = install_loop k target (fp + 4) (n + 1) (write m (get_jump_vec target n) (m fp)) in
    if m fp == end_mark then some m else rest

-- IntMakeFunctions
pub int_make_functions : ℕ → Ptr → Ptr → Mem → Option Mem
int_make_functions k target function_array m = install_loop k target function_array 1 m

-- The INT16 at an even address, by its bits, and its value as a UINT32.
abbrev pub half_at : Mem → Ptr → ℕ
half_at m p = (m (p - p % 4) / 2 ^ (8 * (p % 4))) % 2 ^ 16

abbrev pub extend : ℕ → ℕ
extend v = if ltb v 32768 then v else v + 4294901760

-- The loop of MakeFunctions for an array of offsets.
pub offset_loop : ℕ → Ptr → ℕ → Ptr → ℕ → Mem → Option Mem
offset_loop zero target base fp n m = none
offset_loop (suc k) target base fp n m =
    let rest =
      offset_loop k target base (fp + 2) (n + 1)
        (write m (get_jump_vec target n) (u32 (base + extend (half_at m fp)))) in
    if half_at m fp == 65535 then some m else rest

-- lib_MakeFunctions
pub make_functions : ℕ → Ptr → Ptr → ℕ → Mem → Option Mem
make_functions k target function_array func_disp_base m =
    if func_disp_base == 0
    then install_loop k target function_array 1 m
    else offset_loop k target func_disp_base function_array 1 m

-- The count of offsets in lib_MakeLibrary.
pub count_offsets : ℕ → Mem → Ptr → ℕ → Option ℕ
count_offsets zero m fp negsize = none
count_offsets (suc k) m fp negsize =
    let rest = count_offsets k m (fp + 2) (u32 (negsize + 4)) in
    if half_at m fp == 65535 then some negsize else rest

-- The size of the jump table in lib_MakeLibrary.
pub neg_size : ℕ → Mem → Ptr → Option ℕ
neg_size k m func_init =
    if half_at m func_init == 65535
    then count_offsets k m (func_init + 2) 0
    else Option.map (λ n. u32 (n * 4)) (count_loop k m func_init 0)
