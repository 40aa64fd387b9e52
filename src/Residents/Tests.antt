-- ===== src/Residents/Tests.antt =====
-- A device with two functions: its table at 100, its ROM tag at 300, and a block for it at 5000.
use mathlib.Core.Option
use poweros_raspi.Base.{
  ℕ, suc, ◌+◌, ◌-◌, ◌/◌, ◌≡◌, false, refl, true, false, some, List, [], ◌∷◌, replicate, get_elem?,
  arith, mask_none,
}
use poweros_raspi.ExecList.{Ptr, null, Mem, write}
use poweros_raspi.Tasks.{ready}
use poweros_raspi.Vectors.{end_mark}
use poweros_raspi.Vectors.Install.{Vectors}
use poweros_raspi.Libraries.{Kernel, put_library, nt_device}
use poweros_raspi.Residents.{AllocVec, Init, Resident, rtc_matchword, rom_tag_scanner, scan}
use poweros_raspi.Residents.Scan.{Holds, rom_tag_scanner-Holds}

abbrev functions : List ℕ
functions = 40000 ∷ 40004 ∷ []

abbrev memory : Mem
memory c = Option.get_or (get_elem? functions ((c - 100) / 4)) end_mark

-- Like timer_InitDev: the fields of the struct Library, and words of the device behind it.
abbrev init : Init
init l s = (
  record (put_library l
      (record (s.library l) {
        ln_type = nt_device;
        ln_pri = 0;
        ln_name = b't' ∷ [];
        lib_open_cnt = 0;
        lib_version = 1;
        lib_revision = 1;
      })
      s) { memory = write (write s.memory (l + 48) 0) (l + 52) 10000 },
  l,
)

abbrev tag : Resident
tag = record {
  rt_match_word = rtc_matchword;
  rt_match_tag = 300;
  rt_flags = 129;
  rt_version = 1;
  rt_type = nt_device;
  rt_pri = 50;
  rt_name = b't' ∷ [];
  rt_id_string = null;
  rt_init = record { d_size = 80; vectors = 100; init = some init };
}

abbrev kernel : Kernel
kernel = record {
  base = record {
    this_task = 100;
    td_nest_cnt = 255;
    id_nest_cnt = 255;
    task_ready = [];
    task_wait = [];
    task = λ p. record {
      ln_name = [];
      ln_pri = 0;
      id_nest_cnt = 255;
      td_nest_cnt = 255;
      state = ready;
      cpu_usage = 0;
      sig_alloc = mask_none;
      sig_wait = mask_none;
      sig_recvd = mask_none;
      sig_except = mask_none;
    };
    freed = [];
  };
  lib_list = [];
  dev_list = 1000 ∷ [];
  library = λ p. record {
    ln_type = nt_device;
    ln_pri = 0;
    ln_name = b'd' ∷ [];
    lib_open_cnt = 0;
    lib_flags = 0;
    lib_neg_size = 0;
    lib_pos_size = 0;
    lib_version = 0;
    lib_revision = 0;
    lib_sum = 0;
    lib_id_string = null;
  };
  request = λ p. record { ln_type = 0; io_device = null; io_unit = null; io_error = 0 };
  memory = memory;
}

abbrev alloc_vec : AllocVec
alloc_vec size m = (m, 5000)

abbrev rom : Ptr → Resident
rom p = tag

rom_tag_scanner-Holds_example :
    Holds rom 299 (suc 301 - 299) [] (rom_tag_scanner rom 299 301 (replicate 3 true) [])
rom_tag_scanner-Holds_example = rom_tag_scanner-Holds rom 299 301 3 [] (omega arith) tt

found : rom_tag_scanner rom 299 301 (replicate 3 true) [] ≡ (300 ∷ [], true)
unfolding rom_tag_scanner scan
found = refl
