-- ===== src/Libraries/Errors.antt =====
-- OpenDevice of src/kickstart/lib.exec/devices.c with a unit that the driver does not have.
use poweros_raspi.Base.{ℕ, ◌≤◌, ◌≡◌, ◌≢◌, refl, false, true, List, ◌==◌, ltb, arith}
use mathlib.Core.Path.{◌∙◌, sym}
use poweros_raspi.ExecList.{Ptr, null}
use poweros_raspi.Libraries.{
  Kernel, DevFuncs, raise, openfail, forbidden, permitted, named, opened, open_device, put_request,
}
use poweros_raspi.Libraries.Drivers.{
  timer_funcs, tdev_funcs, timer_open_dev, tdev_open_dev, tdev_unit_max,
}
use poweros_raspi.Libraries.Laws.{open_count, error}

-- The drivers, the number of their units, and the count that a refused open leaves.
pub data Driver : Type 0 where
  timer testdev : Driver

abbrev pub funcs : Driver → DevFuncs
funcs timer = timer_funcs
funcs testdev = tdev_funcs

abbrev pub units : Driver → ℕ
units timer = 5
units testdev = tdev_unit_max

abbrev pub left_open : Driver → ℕ → ℕ
left_open timer n = raise n
left_open testdev n = n

opened-refused :
    (io : Ptr) (s : Kernel) (d : Ptr)
    → d ≢ null
    → error io s ≡ 255
    → ((opened io (s, d)).1 ≡ openfail)
      × ((((opened io (s, d)).0).request io).io_device ≡ null)
      × ((q : Ptr) → open_count q (opened io (s, d)).0 ≡ open_count q s)
unfolding permitted
opened-refused io s d ne e =
    let other : (d == null) ≡ false = ground arith in
    let here : (io == io) ≡ true = ground arith in rw (e, other) (refl, rw here refl, λ q. refl)

refusal :
    (driver : Driver) (d unit io flags : ℕ) (s : Kernel)
    → units driver ≤ unit
    → (error io ((funcs driver).dev_open d io unit flags s).0 ≡ 255)
      × (((funcs driver).dev_open d io unit flags s).1 ≡ d)
      × (open_count d ((funcs driver).dev_open d io unit flags s).0
          ≡ left_open driver (open_count d s))
unfolding timer_open_dev tdev_open_dev
refusal timer d unit io flags s le =
    let over : ltb unit 5 ≡ false = ground arith in
    let here : (io == io) ≡ true = ground arith in
    let at : (d == d) ≡ true = ground arith in
    rw over (rw (error, here) refl, refl, rw (open_count, at) refl)
refusal testdev d unit io flags s le =
    let over : ltb unit 1 ≡ false = ground arith in
    let here : (io == io) ≡ true = ground arith in rw over (rw (error, here) refl, refl, refl)

-- OpenDevice with a unit that the driver does not have returns IOERR_OPENFAIL and leaves no device in the request;
-- timer.device counts the open all the same, which nothing takes back, and testdev.device does not.
pub open_device-bad_unit :
    (driver : Driver) (name : List ℕ) (unit io flags : ℕ) (s : Kernel)
    → named s.dev_list name s ≢ null
    → units driver ≤ unit
    → let d = named s.dev_list name s in
      let (t, ret) = open_device (λ d. funcs driver) name unit io flags s in
      (ret ≡ openfail)
      × ((t.request io).io_device ≡ null)
      × (open_count d t ≡ left_open driver (open_count d s))
unfolding open_device forbidden permitted
open_device-bad_unit driver name unit io flags s ne le =
    let d = named s.dev_list name s in
    let other : (d == null) ≡ false = ground arith in
    let s0 = permitted (forbidden s) in
    let p = forbidden (
      put_request io (record (s0.request io) { io_error = 0; io_device = d; io_unit = null }) s0) in
    let (refused, given, left) = refusal driver d unit io flags p le in
    let o = (funcs driver).dev_open d io unit flags p in
    let (ret, device, counts) = opened-refused io o.0 o.1 (λ e. ne (sym given ∙ e)) refused in
    rw other (ret, device, counts d ∙ left)
