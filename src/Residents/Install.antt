-- ===== src/Residents/Install.antt =====
-- lib_InitResident and lib_MakeLibrary of src/kickstart/lib.exec/resident.c for a device: its vectors and DevList.
use mathlib.Core.Option
use poweros_raspi.Base.{ℕ, ◌+◌, ◌*◌, ◌≤◌, ◌^◌, ◌<◌, ◌≡◌, ◌≢◌, some, List, length, u32}
use poweros_raspi.ExecList.{Ptr, null, Mem, strcmp_eq}
use poweros_raspi.Vectors.{half_at}
use poweros_raspi.Vectors.Install.{IsTable, Fits, Vectors}
use poweros_raspi.Libraries.{Kernel, nt_device}
use poweros_raspi.Libraries.Listed.{NonePass}
use poweros_raspi.Residents.{AllocVec, Init, Resident, InitTable, rtc_matchword}

-- The Init function of a device with the base `l` and the name `name` gives the device back and leaves DevList, the
-- names of all others and the vectors below the base alone; the device keeps its name. What else it writes
-- into the device and into memory is left open.
pub record Starts (f : Init) (l : Ptr) (name : List ℕ) : Type 0 where
  pub gives : (s : Kernel) → (f l s).1 ≡ l
  pub lists : (s : Kernel) → (f l s).0.dev_list ≡ s.dev_list
  pub own_name : (s : Kernel) → (s.library l).ln_name ≡ name → ((f l s).0.library l).ln_name ≡ name
  pub names : (s : Kernel) (q : Ptr) → q ≢ l → ((f l s).0.library q).ln_name ≡ (s.library q).ln_name
  pub vectors :
      (s : Kernel) (xs : List ℕ)
      → 4 * length xs ≤ l
      → l < 2 ^ 32
      → Vectors s.memory l 1 xs
      → Vectors (f l s).0.memory l 1 xs

-- A table of functions that AllocVec leaves in place, and a block that has room for their vectors.
pub record Loads (alloc_vec : AllocVec) (t : InitTable) (xs : List ℕ) (s : Kernel) (m : Mem)
    (block : Ptr) : Type 0 where
  pub table : IsTable s.memory t.vectors xs
  pub pointers : half_at s.memory t.vectors ≢ 65535
  pub given : alloc_vec (u32 (t.d_size + 4 * length xs)) s.memory ≡ (m, block)
  pub some_block : block ≢ null
  pub table_too : IsTable m t.vectors xs
  pub pointers_too : half_at m t.vectors ≢ 65535
  pub fits : Fits (block + 4 * length xs) 1 (length xs) t.vectors

-- A ROM tag of a device that is made for InitResident: its Init function, and the name that no other device has.
pub record IsDeviceTag (at : Ptr) (r : Resident) (f : Init) (l : Ptr) (s : Kernel) : Type 0 where
  pub word : r.rt_match_word ≡ rtc_matchword
  pub tag : r.rt_match_tag ≡ at
  pub auto : r.rt_flags ≢ 0
  pub device : r.rt_type ≡ nt_device
  pub init : r.rt_init.init ≡ some f
  pub starts : Starts f l r.rt_name
  pub new_name : NonePass (λ q. strcmp_eq (s.library q).ln_name r.rt_name) s.dev_list
