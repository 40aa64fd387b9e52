-- ===== src/Libraries/Drivers.antt =====
-- The functions behind the first vectors: of timer.device (src/kickstart/dev.timer/timerdevice.c), of testdev.device
-- (src/kickstart/dev.test/testdevice.c), and of the libraries (`_library.c` of lib.exec, lib.util and lib.expansion,
-- which are the same).
use poweros_raspi.Base.{ℕ, if◌then◌else◌, ltb}
use poweros_raspi.ExecList.{Ptr}
use poweros_raspi.Libraries.{
  Kernel, DevFuncs, LibFuncs, put_request, put_library, set_count, raise, lower, clear, libf_delexp,
  openfail8,
}

abbrev nt_replymsg : ℕ
nt_replymsg = 10

-- lib_OpenCnt++ and lib_Flags &= ~LIBF_DELEXP
abbrev pub take_open : Ptr → Kernel → Kernel
take_open d s =
    let l = s.library d in
    put_library d
      (record l { lib_open_cnt = raise l.lib_open_cnt; lib_flags = clear l.lib_flags libf_delexp })
      s

abbrev pub drop_open : Ptr → Kernel → Kernel
drop_open d s = set_count d (lower (s.library d).lib_open_cnt) s

-- timer_OpenDev; the units are UNIT_MICROHZ to UNIT_WAITECLOCK.
unfoldable pub timer_open_dev : Ptr → Ptr → ℕ → ℕ → Kernel → Kernel × Ptr
timer_open_dev d io unit flags s =
    let s = take_open d s in
    let s = put_request io (record (s.request io) { ln_type = nt_replymsg }) s in
    if ltb unit 5
    then (
      put_request io (record (s.request io) { io_error = 0; io_unit = unit; io_device = d }) s,
      d,
    )
    else (put_request io (record (s.request io) { io_error = openfail8 }) s, d)

-- timer_CloseDev
unfoldable pub timer_close_dev : Ptr → Ptr → Kernel → Kernel
timer_close_dev d io s = drop_open d s

-- timer_ExpungeDev
unfoldable pub timer_expunge_dev : Ptr → Kernel → Kernel × ℕ
timer_expunge_dev d s = (s, 0)

abbrev pub timer_funcs : DevFuncs
timer_funcs = record {
  dev_open = timer_open_dev;
  dev_close = timer_close_dev;
  dev_expunge = timer_expunge_dev;
}

-- TDEV_UNIT_MAX
abbrev pub tdev_unit_max : ℕ
tdev_unit_max = 1

-- tdev_OpenDev
unfoldable pub tdev_open_dev : Ptr → Ptr → ℕ → ℕ → Kernel → Kernel × Ptr
tdev_open_dev d io unit flags s =
    if ltb unit tdev_unit_max
    then (
      take_open d
          (put_request io (record (s.request io) { io_error = 0; ln_type = nt_replymsg }) s),
      d,
    )
    else (put_request io (record (s.request io) { io_error = openfail8 }) s, d)

-- tdev_CloseDev
unfoldable pub tdev_close_dev : Ptr → Ptr → Kernel → Kernel
tdev_close_dev d io s = drop_open d s

-- tdev_ExpungeDev
unfoldable pub tdev_expunge_dev : Ptr → Kernel → Kernel × ℕ
tdev_expunge_dev d s = (s, 0)

abbrev pub tdev_funcs : DevFuncs
tdev_funcs = record {
  dev_open = tdev_open_dev;
  dev_close = tdev_close_dev;
  dev_expunge = tdev_expunge_dev;
}

-- lib_OpenLib, util_OpenLib and exp_OpenLib
unfoldable pub open_lib : Ptr → Kernel → Kernel × Ptr
open_lib l s = (set_count l (raise (s.library l).lib_open_cnt) s, l)

-- lib_CloseLib, util_CloseLib and exp_CloseLib
unfoldable pub close_lib : Ptr → Kernel → Kernel
close_lib l s = drop_open l s

-- lib_ExpungeLib, util_ExpungeLib and exp_ExpungeLib
unfoldable pub expunge_lib : Ptr → Kernel → Kernel × ℕ
expunge_lib l s = (s, 0)

abbrev pub lib_funcs : LibFuncs
lib_funcs = record { lib_open = open_lib; lib_close = close_lib; lib_expunge = expunge_lib }
