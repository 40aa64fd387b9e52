-- ===== src/Libraries/Tests.antt =====
-- A timer.device at 1000 with two opens, a testdev.device at 1100, a library at 1200 and a request at 2000.
use poweros_raspi.Base.{
  ℕ, ◌<◌, ◌^◌, ◌≡◌, ◌≢◌, refl, false, List, [], ◌∷◌, some, ◌==◌, if◌then◌else◌, arith, true,
  mask_none,
}
use poweros_raspi.ExecList.{Ptr, null, strcmp_eq}
use poweros_raspi.Tasks.{ready}
use poweros_raspi.Libraries.{
  Kernel, Library, no_device, openfail, open_device, close_device, open_library, close_library,
  named, libf_changed, flag, add_device, rem_device, sum_library, forbidden, permitted,
}
use poweros_raspi.Libraries.Drivers.{
  timer_funcs, tdev_funcs, lib_funcs, timer_open_dev, tdev_expunge_dev,
}
use poweros_raspi.Libraries.Laws.{open_count, timer_funcs-IsDevice}
use poweros_raspi.Libraries.Counts.{
  Counted, SameCounts, open_device-close_device, open_library-close_library,
}
use poweros_raspi.Libraries.Errors.{timer, open_device-bad_unit, funcs, left_open}
use poweros_raspi.Libraries.Sum.{IsChanged, sum_library-zero}
use poweros_raspi.Libraries.Listed.{add_device-found}

abbrev make_library : ℕ → List ℕ → ℕ → ℕ → Library
make_library t name opens flags = record {
  ln_type = t;
  ln_pri = 0;
  ln_name = name;
  lib_open_cnt = opens;
  lib_flags = flags;
  lib_neg_size = 40;
  lib_pos_size = 60;
  lib_version = 1;
  lib_revision = 0;
  lib_sum = 7;
  lib_id_string = null;
}

abbrev timer_name : List ℕ
timer_name = b't' ∷ b'i' ∷ []

abbrev test_name : List ℕ
test_name = b't' ∷ b'e' ∷ []

abbrev lib_name : List ℕ
lib_name = b'u' ∷ []

abbrev kernel : Kernel
kernel = record {
  base = record {
    this_task = 100;
    td_nest_cnt = 255;
    id_nest_cnt = 255;
    task_ready = [];
    task_wait = [];
    task = λ p. record {
      ln_name = [];
      ln_pri = 0;
      id_nest_cnt = 255;
      td_nest_cnt = 255;
      state = ready;
      cpu_usage = 0;
      sig_alloc = mask_none;
      sig_wait = mask_none;
      sig_recvd = mask_none;
      sig_except = mask_none;
    };
    freed = [];
  };
  lib_list = 1200 ∷ [];
  dev_list = 1000 ∷ [];
  library = λ p.
      if p == 1000
      then make_library 2 timer_name 2 18
      else if p == 1100
      then make_library 2 test_name 0 0
      else make_library 3 lib_name 5 18;
  request = λ p. record { ln_type = 0; io_device = null; io_unit = null; io_error = 0 };
  memory = λ p. p;
}

kernel-counts : (q : Ptr) → open_count q kernel < 2 ^ 16
kernel-counts q = ground arith

kernel-Counted : Counted (λ d. timer_funcs) kernel
kernel-Counted = record {
  devices = λ d. timer_funcs-IsDevice;
  counts = kernel-counts;
  nesting = omega arith;
}

opened_unit : (open_device (λ d. timer_funcs) timer_name 1 2000 0 kernel).1 ≡ 0
unfolding open_device timer_open_dev forbidden permitted strcmp_eq
opened_unit = refl

open_device-close_device_example :
    let t =
      close_device
        (λ d. timer_funcs)
        2000
        (open_device (λ d. timer_funcs) timer_name 1 2000 0 kernel).0 in
    SameCounts kernel t × ((t.request 2000).io_device ≡ no_device)
open_device-close_device_example =
    open_device-close_device (λ d. timer_funcs) timer_name 1 2000 0 kernel kernel-Counted
      opened_unit

open_library-close_library_example :
    let (t, l) = open_library (λ l. lib_funcs) (some lib_name) 1 kernel in
    SameCounts kernel (close_library (λ l. lib_funcs) l t)
open_library-close_library_example =
    open_library-close_library (some lib_name) 1 kernel kernel-counts (omega arith)

timer_listed : named kernel.dev_list timer_name kernel ≢ null
unfolding strcmp_eq
timer_listed = omega arith

open_device-bad_unit_example :
    let d = named kernel.dev_list timer_name kernel in
    let (t, ret) = open_device (λ d. funcs timer) timer_name 9 2000 0 kernel in
    (ret ≡ openfail)
    × ((t.request 2000).io_device ≡ null)
    × (open_count d t ≡ left_open timer (open_count d kernel))
open_device-bad_unit_example =
    open_device-bad_unit timer timer_name 9 2000 0 kernel timer_listed (omega arith)

kernel-IsChanged : IsChanged 1200 kernel
kernel-IsChanged = record {
  small = omega arith;
  fits = omega arith;
  sumused = refl;
  changed = refl;
  free = refl;
}

sum_library-zero_example :
    (t : Kernel) × (sum_library 1 ((λ t. t) ∷ []) 1200 kernel ≡ some t)
    × ((t.library 1200).lib_sum ≡ 0)
    × (flag (t.library 1200).lib_flags libf_changed ≡ false)
sum_library-zero_example = sum_library-zero 0 1200 kernel kernel-IsChanged

same_name : strcmp_eq test_name test_name ≡ true
unfolding strcmp_eq
same_name = refl

other_name : strcmp_eq timer_name test_name ≡ false
unfolding strcmp_eq
other_name = refl

quiet_expunge : (t : Kernel) → (tdev_funcs.dev_expunge 1100 t).0.dev_list ≡ t.dev_list
unfolding tdev_expunge_dev
quiet_expunge t = refl

add_device_run :
    let t = add_device 1100 kernel in
    (named t.dev_list test_name t ≡ 1100)
    × ((rem_device (λ d. tdev_funcs) 1100 t).0.dev_list ≡ kernel.dev_list)
add_device_run =
    add_device-found (λ d. tdev_funcs) 1100 test_name kernel (omega arith) (omega arith, tt)
      same_name (other_name, tt) quiet_expunge
