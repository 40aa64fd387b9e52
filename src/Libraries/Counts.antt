-- ===== src/Libraries/Counts.antt =====
-- The counts of opens in src/kickstart/lib.exec/devices.c and library.c, for all devices and libraries whose
-- functions count as the ones of the repository do.
use mathlib.Core.Path.{sym, ◌∙◌}
use poweros_raspi.Base.{
  ℕ, ◌+◌, ◌%◌, ◌<◌, ◌^◌, ◌≡◌, ◌≢◌, refl, ap, Bool, true, false, List, Option, none, ◌==◌,
  if◌then◌else◌, ltb, leb, arith, Bool-cases, inl, inr, some,
}
use poweros_raspi.ExecList.{Ptr, null}
use poweros_raspi.Tasks.{forbid, permit}
use poweros_raspi.Libraries.Laws.{
  open_count, error, IsDevice, open_count-set_count, open_count-drop_open,
}
use poweros_raspi.Libraries.{
  Kernel, DevFuncs, put_request, set_count, raise, lower, no_device, widen, forbidden, permitted,
  named, opened, open_device, close_device, open_library, close_library,
}
use poweros_raspi.Libraries.Drivers.{lib_funcs, open_lib, close_lib}

-- The count of opens and the nesting of Forbid are in their range, and so is the device.
pub record Counted (vec : Ptr → DevFuncs) (s : Kernel) : Type 0 where
  pub devices : (d : Ptr) → IsDevice (vec d)
  pub counts : (q : Ptr) → open_count q s < 2 ^ 16
  pub nesting : s.base.td_nest_cnt < 256

-- What OpenDevice and CloseDevice leave as it was.
abbrev pub SameCounts : Kernel → Kernel → Type 0
SameCounts s t =
    ((q : Ptr) → open_count q t ≡ open_count q s) × (t.base.td_nest_cnt ≡ s.base.td_nest_cnt)

abbrev filled : Ptr → Ptr → Kernel → Kernel
filled io d s =
    put_request io (record (s.request io) { io_error = 0; io_device = d; io_unit = null }) s

-- The request that Open gets.
abbrev prepared : List ℕ → Ptr → Kernel → Kernel
prepared name io s =
    let s = forbidden s in let d = named s.dev_list name s in forbidden (filled io d (permitted s))

opened-zero_error :
    (io : Ptr) (s : Kernel) (r : Ptr)
    → (r == null) ≡ false
    → (opened io (s, r)).1 ≡ 0
    → (error io s ≡ 0) × ((opened io (s, r)).0 ≡ permitted s)
unfolding permitted
opened-zero_error io s r other e = elim (Bool-cases (ltb (widen (error io s)) 2147483648)) [
  | inl y ↦
      let ret : (opened io (s, r)).1 ≡ widen (error io s) = rw (other, y) refl in
      (ground (arith, e, ret), rw (other, y) refl)
  | inr wrong ↦
      let ret : (opened io (s, r)).1 ≡ widen (error io s) = rw (other, wrong) refl in
      absurd (ground (arith, e, ret))
]

opened-zero :
    (io : Ptr) (s : Kernel) (r : Ptr)
    → (opened io (s, r)).1 ≡ 0
    → (error io s ≡ 0) × ((opened io (s, r)).0 ≡ permitted s)
unfolding permitted
opened-zero io s r e = elim (Bool-cases (r == null)) [
  | inl y ↦
      let bad : (opened io (s, r)).1 ≡ 4294967295 = rw y refl in absurd (omega (arith, e, bad))
  | inr other ↦ opened-zero_error io s r other e
]

close_device-closes :
    (vec : Ptr → DevFuncs) (d io : Ptr) (s : Kernel)
    → IsDevice (vec d)
    → d ≢ null
    → (s.request io).io_device ≡ d
    → let t = close_device vec io s in
      ((q : Ptr) → open_count q t ≡ (if q == d then lower (open_count q s) else open_count q s))
      × (t.base.td_nest_cnt ≡ ((s.base.td_nest_cnt + 1) % 256 + 255) % 256)
      × ((t.request io).io_device ≡ no_device)
unfolding close_device forbidden permitted forbid permit
close_device-closes vec d io s law ne e =
    let other : (d == null) ≡ false = ground arith in
    let here : (io == io) ≡ true = ground arith in
    let nest = ap (λ b. b.td_nest_cnt) (law.nests_too d io (forbidden s)) in
    rw (e, other) (λ q. law.closes d io (forbidden s) q, omega (arith, nest), rw here refl)

-- What the Open that counts leaves behind, seen through OpenDevice.
open_device-opens :
    (vec : Ptr → DevFuncs) (name : List ℕ) (unit io flags : ℕ) (s : Kernel)
    → Counted vec s
    → (open_device vec name unit io flags s).1 ≡ 0
    → let d = named s.dev_list name s in
      let t = (open_device vec name unit io flags s).0 in
      (d ≢ null)
      × ((q : Ptr) → open_count q t ≡ (if q == d then raise (open_count q s) else open_count q s))
      × ((t.request io).io_device ≡ d)
      × (t.base.td_nest_cnt ≡ s.base.td_nest_cnt)
unfolding open_device forbidden permitted forbid permit
open_device-opens vec name unit io flags s c e =
    elim (Bool-cases (named s.dev_list name s == null)) [
      | inl y ↦
          let bad : (open_device vec name unit io flags s).1 ≡ 4294967295 = rw y refl in
          absurd (omega (arith, e, bad))
      | inr other ↦
          let d = named s.dev_list name s in
          let p = prepared name io s in
          let o = (vec d).dev_open d io unit flags p in
          let law = c.devices d in
          let called : open_device vec name unit io flags s ≡ opened io o = rw other refl in
          let ret : (opened io o).1 ≡ 0 = sym (ap (λ r. r.1) called) ∙ e in
          let (fine, state) = opened-zero io o.0 o.1 ret in
          let here : (io == io) ≡ true = ground arith in
          let same = ap (λ r. r.0) called ∙ state in
          let nest : o.0.base.td_nest_cnt ≡ p.base.td_nest_cnt =
            ap (λ b. b.td_nest_cnt) (law.nests d io unit flags p) in
          rw same (
            ground arith,
            λ q. law.opens d io unit flags p fine q,
            law.stays d io unit flags p (rw here refl),
            omega (arith, nest, c.nesting),
          )
    ]

up_down :
    (b : Bool) (n m : ℕ)
    → n < 2 ^ 16
    → m ≡ (if b then raise n else n)
    → (if b then lower m else m) ≡ n
up_down true n m lt e = omega arith
up_down false n m lt e = e

-- After an OpenDevice that returned 0 the CloseDevice of the request brings all counts of opens and the nesting of
-- Forbid back to what they were, and takes the device out of the request.
pub open_device-close_device :
    (vec : Ptr → DevFuncs) (name : List ℕ) (unit io flags : ℕ) (s : Kernel)
    → Counted vec s
    → (open_device vec name unit io flags s).1 ≡ 0
    → let t = close_device vec io (open_device vec name unit io flags s).0 in
      SameCounts s t × ((t.request io).io_device ≡ no_device)
unfolding open_device close_device forbidden permitted forbid permit
open_device-close_device vec name unit io flags s c e =
    let (some_device, counted, device, nest) = open_device-opens vec name unit io flags s c e in
    let d = named s.dev_list name s in
    let t = (open_device vec name unit io flags s).0 in
    let (closed, nest2, trash) = close_device-closes vec d io t (c.devices d) some_device device in
    (
      (
        λ q. closed q ∙ up_down (q == d) (open_count q s) (open_count q t) (c.counts q) (counted q),
        omega (arith, nest, nest2, c.nesting),
      ),
      trash,
    )

raised :
    (l q : Ptr) (s : Kernel)
    → ((set_count l (raise (open_count l s)) s).library q).lib_open_cnt
      ≡ (if q == l then raise (open_count q s) else open_count q s)
raised l q s = elim (Bool-cases (q == l)) [
  | inl y ↦
      let same : q ≡ l = ground arith in
      open_count-set_count l q (raise (open_count l s)) s
      ∙ rw y (ap (λ p. raise (open_count p s)) (sym same))
  | inr other ↦ open_count-set_count l q (raise (open_count l s)) s ∙ rw other refl
]

-- Whether OpenLibrary gives the library or NULL, CloseLibrary of what it gave brings all counts of opens and the
-- nesting of Forbid back to what they were, for libraries with the functions of the repository's.
pub open_library-close_library :
    (name : Option (List ℕ)) (version : ℕ) (s : Kernel)
    → ((q : Ptr) → open_count q s < 2 ^ 16)
    → s.base.td_nest_cnt < 256
    → let (t, l) = open_library (λ l. lib_funcs) name version s in
      SameCounts s (close_library (λ l. lib_funcs) l t)
unfolding open_library close_library forbidden permitted forbid permit open_lib close_lib
open_library-close_library none version s small nest = (λ q. refl, refl)
open_library-close_library (some name) version s small nest =
    let l = named s.lib_list name s in
    elim (Bool-cases (l == null)) [
      | inl y ↦ rw (y, y) (λ q. refl, omega (arith, nest))
      | inr other ↦ elim (Bool-cases (leb version (s.library l).lib_version)) [
        | inl new ↦
            rw (other, new, other)
              (
                λ q.
                    let t = (open_lib l (permitted (forbidden s))).0 in
                    open_count-drop_open l q (forbidden t)
                    ∙ up_down (q == l) (open_count q s) (open_count q t) (small q) (raised l q s),
                omega (arith, nest),
              )
        | inr old ↦ rw (other, old) (λ q. refl, omega (arith, nest))
      ]
    ]
