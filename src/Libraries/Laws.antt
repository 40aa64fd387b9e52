-- ===== src/Libraries/Laws.antt =====
-- The counts of opens in src/kickstart/lib.exec/devices.c and library.c, for all devices and libraries whose
-- functions count as the ones of the repository do.
use mathlib.Core.Path.{sym}
use poweros_raspi.Base.{
  ℕ, ◌≡◌, refl, ap, true, ◌==◌, if◌then◌else◌, ltb, arith, Bool-cases, inl, inr,
}
use poweros_raspi.ExecList.{Ptr}
use poweros_raspi.Libraries.{Kernel, DevFuncs, set_count, raise, lower}
use poweros_raspi.Libraries.Drivers.{
  timer_funcs, tdev_funcs, take_open, drop_open, timer_open_dev, timer_close_dev, tdev_open_dev,
  tdev_close_dev,
}

abbrev pub open_count : Ptr → Kernel → ℕ
open_count q s = (s.library q).lib_open_cnt

abbrev pub error : Ptr → Kernel → ℕ
error io s = (s.request io).io_error

-- The functions of a device count an open that they report no error for, and each close.
pub record IsDevice (f : DevFuncs) : Type 0 where
  pub gives : (d io unit flags : ℕ) (s : Kernel) → (f.dev_open d io unit flags s).1 ≡ d
  pub opens :
      (d io unit flags : ℕ) (s : Kernel)
      → error io (f.dev_open d io unit flags s).0 ≡ 0
      → (q : Ptr)
      → open_count q (f.dev_open d io unit flags s).0
        ≡ (if q == d then raise (open_count q s) else open_count q s)
  pub stays :
      (d io unit flags : ℕ) (s : Kernel)
      → (s.request io).io_device ≡ d
      → ((f.dev_open d io unit flags s).0.request io).io_device ≡ d
  pub nests : (d io unit flags : ℕ) (s : Kernel) → (f.dev_open d io unit flags s).0.base ≡ s.base
  pub closes :
      (d io : ℕ) (s : Kernel) (q : Ptr)
      → open_count q (f.dev_close d io s)
        ≡ (if q == d then lower (open_count q s) else open_count q s)
  pub nests_too : (d io : ℕ) (s : Kernel) → (f.dev_close d io s).base ≡ s.base

pub open_count-take_open :
    (d q : Ptr) (s : Kernel)
    → ((take_open d s).library q).lib_open_cnt
      ≡ (if q == d then raise (open_count q s) else open_count q s)
open_count-take_open d q s = elim (Bool-cases (q == d)) [
  | inl y ↦ let same : q ≡ d = ground arith in rw y (ap (λ p. raise (open_count p s)) (sym same))
  | inr other ↦ rw other refl
]

pub open_count-set_count :
    (d q n : ℕ) (s : Kernel)
    → ((set_count d n s).library q).lib_open_cnt ≡ (if q == d then n else open_count q s)
open_count-set_count d q n s = elim (Bool-cases (q == d)) [
  | inl y ↦ rw y refl
  | inr other ↦ rw other refl
]

pub open_count-drop_open :
    (d q : Ptr) (s : Kernel)
    → ((drop_open d s).library q).lib_open_cnt
      ≡ (if q == d then lower (open_count q s) else open_count q s)
open_count-drop_open d q s = elim (Bool-cases (q == d)) [
  | inl y ↦ let same : q ≡ d = ground arith in rw y (ap (λ p. lower (open_count p s)) (sym same))
  | inr other ↦ rw other refl
]

timer-opens :
    (d io unit flags : ℕ) (s : Kernel) (q : Ptr)
    → open_count q (timer_open_dev d io unit flags s).0
      ≡ (if q == d then raise (open_count q s) else open_count q s)
unfolding timer_open_dev
timer-opens d io unit flags s q = elim (Bool-cases (ltb unit 5)) [
  | inl y ↦ rw y (open_count-take_open d q s)
  | inr other ↦ rw other (open_count-take_open d q s)
]

timer-gives : (d io unit flags : ℕ) (s : Kernel) → (timer_open_dev d io unit flags s).1 ≡ d
unfolding timer_open_dev
timer-gives d io unit flags s = elim (Bool-cases (ltb unit 5)) [
  | inl y ↦ rw y refl
  | inr other ↦ rw other refl
]

timer-stays :
    (d io unit flags : ℕ) (s : Kernel)
    → (s.request io).io_device ≡ d
    → ((timer_open_dev d io unit flags s).0.request io).io_device ≡ d
unfolding timer_open_dev
timer-stays d io unit flags s e =
    let here : (io == io) ≡ true = ground arith in
    elim (Bool-cases (ltb unit 5)) [ inl y ↦ rw (y, here) refl | inr other ↦ rw (other, here) e ]

timer-nests :
    (d io unit flags : ℕ) (s : Kernel) → (timer_open_dev d io unit flags s).0.base ≡ s.base
unfolding timer_open_dev
timer-nests d io unit flags s = elim (Bool-cases (ltb unit 5)) [
  | inl y ↦ rw y refl
  | inr other ↦ rw other refl
]

timer-closes :
    (d io : ℕ) (s : Kernel) (q : Ptr)
    → open_count q (timer_close_dev d io s)
      ≡ (if q == d then lower (open_count q s) else open_count q s)
unfolding timer_close_dev
timer-closes d io s q = open_count-drop_open d q s

timer-nests_too : (d io : ℕ) (s : Kernel) → (timer_close_dev d io s).base ≡ s.base
unfolding timer_close_dev
timer-nests_too d io s = refl

pub timer_funcs-IsDevice : IsDevice timer_funcs
timer_funcs-IsDevice = record {
  gives = timer-gives;
  opens = λ d io unit flags s e q. timer-opens d io unit flags s q;
  stays = timer-stays;
  nests = timer-nests;
  closes = timer-closes;
  nests_too = timer-nests_too;
}

tdev-gives : (d io unit flags : ℕ) (s : Kernel) → (tdev_open_dev d io unit flags s).1 ≡ d
unfolding tdev_open_dev
tdev-gives d io unit flags s = elim (Bool-cases (ltb unit 1)) [
  | inl y ↦ rw y refl
  | inr other ↦ rw other refl
]

tdev-opens :
    (d io unit flags : ℕ) (s : Kernel)
    → error io (tdev_open_dev d io unit flags s).0 ≡ 0
    → (q : Ptr)
    → open_count q (tdev_open_dev d io unit flags s).0
      ≡ (if q == d then raise (open_count q s) else open_count q s)
unfolding tdev_open_dev
tdev-opens d io unit flags s e q =
    let here : (io == io) ≡ true = ground arith in
    elim (Bool-cases (ltb unit 1)) [
      | inl y ↦ rw y (open_count-take_open d q s)
      | inr other ↦
          let bad : ((tdev_open_dev d io unit flags s).0.request io).io_error ≡ 255 =
            rw (other, here) refl in
          absurd (omega (arith, e, bad))
    ]

tdev-stays :
    (d io unit flags : ℕ) (s : Kernel)
    → (s.request io).io_device ≡ d
    → ((tdev_open_dev d io unit flags s).0.request io).io_device ≡ d
unfolding tdev_open_dev
tdev-stays d io unit flags s e =
    let here : (io == io) ≡ true = ground arith in
    elim (Bool-cases (ltb unit 1)) [ inl y ↦ rw (y, here) e | inr other ↦ rw (other, here) e ]

tdev-nests : (d io unit flags : ℕ) (s : Kernel) → (tdev_open_dev d io unit flags s).0.base ≡ s.base
unfolding tdev_open_dev
tdev-nests d io unit flags s = elim (Bool-cases (ltb unit 1)) [
  | inl y ↦ rw y refl
  | inr other ↦ rw other refl
]

tdev-closes :
    (d io : ℕ) (s : Kernel) (q : Ptr)
    → open_count q (tdev_close_dev d io s)
      ≡ (if q == d then lower (open_count q s) else open_count q s)
unfolding tdev_close_dev
tdev-closes d io s q = open_count-drop_open d q s

tdev-nests_too : (d io : ℕ) (s : Kernel) → (tdev_close_dev d io s).base ≡ s.base
unfolding tdev_close_dev
tdev-nests_too d io s = refl

pub tdev_funcs-IsDevice : IsDevice tdev_funcs
tdev_funcs-IsDevice = record {
  gives = tdev-gives;
  opens = tdev-opens;
  stays = tdev-stays;
  nests = tdev-nests;
  closes = tdev-closes;
  nests_too = tdev-nests_too;
}
