-- ===== src/Timer/Device/Requests.antt =====
-- What timer_BeginIO of src/kickstart/dev.timer/io.c does with a request, and what becomes of it.
use mathlib.Core.List.{Memᴰ}
use poweros_raspi.Base.{
  ℕ, ◌*◌, ◌+◌, ◌/◌, ◌%◌, ◌≤◌, ◌<◌, ◌≡◌, ◌^◌, refl, inl, inr, true, false, some, List, [], ◌∷◌,
  arith, Bool-cases, ◌++◌, Option, ◌≢◌, ◌⊎◌, ap, bit_and, u32, ◌==◌, leb,
}
use poweros_raspi.Timer.Time.{
  TimeVal, time, IsTime, usec, Sign, minus, same, plus, cmp_time, Ordered, add_time, add_time-usec,
  normalize-eq,
}
use poweros_raspi.Timer.Device.{
  TimeRequest, TimerBase, begin_io, begin_command, add_request, wait_until, not_quick, reset,
  add_waiter, tr_addrequest, tr_getsystime, tr_setsystime, reply_msg, finished, is_minus, is_plus,
  returned, other_unit, reply_unless_quick, ioerr_openfail,
}
use poweros_raspi.Timer.Device.Order.{IsNear, near-Ordered, Inserted, add_waiter-Inserted}
use poweros_raspi.Timer.Device.Interrupt.{ticks, HasTicks, ticks-early}

-- AddTime returns on any two times.
pub add_time-total : (src dst : TimeVal) → (t : TimeVal) × (add_time src dst ≡ some t)
unfolding add_time
add_time-total src dst =
    let s = u32 (dst.tv_secs + src.tv_secs) in
    let u = u32 (dst.tv_micro + src.tv_micro) in
    (time (u32 (s + u / 1000000)) (u % 1000000), normalize-eq 4295 s u (omega arith) (omega arith))

-- Where a request is after BeginIO, `q` being the request then: it waits in one list, or it was replied, or
-- nothing was done with it.
pub data Outcome (b : TimerBase) (r : TimeRequest) (c : TimerBase) (q : TimeRequest) : Type 0 where
  delayed :
      r.io_command ≡ tr_addrequest
      → r.io_unit ≤ 1
      → Inserted q b.vblank_list c.vblank_list
      → c.waituntil_list ≡ b.waituntil_list
      → c.replied ≡ b.replied
      → Outcome b r c q
  awaited :
      r.io_command ≡ tr_addrequest
      → r.io_unit ≡ 3
      → c.vblank_list ≡ b.vblank_list
      → Inserted q b.waituntil_list c.waituntil_list
      → c.replied ≡ b.replied
      → Outcome b r c q
  replied :
      c.vblank_list ≡ b.vblank_list
      → c.waituntil_list ≡ b.waituntil_list
      → c.replied ≡ b.replied ++ (q ∷ [])
      → Outcome b r c q
  ignored :
      r.io_command ≡ tr_addrequest
      → (r.io_unit ≡ 2) ⊎ (r.io_unit ≡ 4)
      → c ≡ b
      → q.io_error ≡ 0
      → Outcome b r c q
  refused :
      r.io_command ≡ tr_addrequest
      → 4 < r.io_unit
      → c ≡ b
      → q.io_error ≡ ioerr_openfail
      → Outcome b r c q
  quick :
      r.io_command ≢ tr_addrequest
      → bit_and r.io_flags 1 ≢ 0
      → c.vblank_list ≡ b.vblank_list
      → c.waituntil_list ≡ b.waituntil_list
      → c.replied ≡ b.replied
      → Outcome b r c q

abbrev pub Handles : TimerBase → TimeRequest → Option (TimerBase × TimeRequest) → Type 0
Handles b r o =
    (c : TimerBase) × (q : TimeRequest) × (o ≡ some (c, q))
    × (q.address ≡ r.address)
    × Outcome b r c q

wait_until-Outcome :
    (b : TimerBase) (r : TimeRequest)
    → r.io_command ≡ tr_addrequest
    → r.io_unit ≡ 3
    → Handles b r (some (wait_until b (reset r)))
unfolding wait_until reply_msg
wait_until-Outcome b r e u = elim (Bool-cases (is_plus (cmp_time b.current_time r.tr_time))) [
  | inl y ↦ rw y (_, _, refl, refl, awaited e u refl (add_waiter-Inserted _ _) refl)
  | inr n ↦ rw n (_, _, refl, refl, replied refl refl refl)
]

other_unit-Outcome :
    (b : TimerBase) (r : TimeRequest)
    → r.io_command ≡ tr_addrequest
    → 1 < r.io_unit
    → r.io_unit ≢ 3
    → Handles b r (some (b, other_unit (reset r)))
other_unit-Outcome b r e gt ne = elim (Bool-cases (r.io_unit == 2)) [
  | inl y ↦ rw y (_, _, refl, refl, ignored e (inl (ground arith)) refl refl)
  | inr n ↦ elim (Bool-cases (r.io_unit == 4)) [
    | inl y ↦ rw (n, y) (_, _, refl, refl, ignored e (inr (ground arith)) refl refl)
    | inr m ↦ rw (n, m) (_, _, refl, refl, refused e (ground arith) refl refl)
  ]
]

add_request-Outcome :
    (b : TimerBase) (r : TimeRequest)
    → r.io_command ≡ tr_addrequest
    → Handles b r (add_request b (reset r))
unfolding add_request
add_request-Outcome b r e =
    let t = add_time-total b.elapsed r.tr_time in
    elim (Bool-cases (r.io_unit == 3)) [
      | inl u ↦ rw u (wait_until-Outcome b r e (ground arith))
      | inr u ↦ elim (Bool-cases (leb r.io_unit 1)) [
        | inl f ↦
            rw (u, f, t.1)
              (_, _, refl, refl, delayed e (ground arith) (add_waiter-Inserted _ _) refl refl)
        | inr f ↦ rw (u, f) (other_unit-Outcome b r e (ground arith) (ground arith))
      ]
    ]

-- The end of TR_GETSYSTIME and TR_SETSYSTIME, with the lists as they were.
reply_unless_quick-Outcome :
    (b c : TimerBase) (r q : TimeRequest)
    → r.io_command ≢ tr_addrequest
    → q.io_flags ≡ r.io_flags
    → q.address ≡ r.address
    → c.vblank_list ≡ b.vblank_list
    → c.waituntil_list ≡ b.waituntil_list
    → c.replied ≡ b.replied
    → Handles b r (some (reply_unless_quick q c))
unfolding reply_msg
reply_unless_quick-Outcome b c r q ne f at v w p = elim (Bool-cases (bit_and q.io_flags 1 == 0)) [
  | inl y ↦ rw y (_, _, refl, at, replied v w (ap (λ l. l ++ (returned q ∷ [])) p))
  | inr n ↦ rw n (_, _, refl, at, quick ne (ground (arith, ap (λ k. bit_and k 1) f)) v w p)
]

begin_command-Outcome : (b : TimerBase) (r : TimeRequest) → Handles b r (begin_command b (reset r))
unfolding reply_msg
begin_command-Outcome b r = elim (Bool-cases (r.io_command == tr_addrequest)) [
  | inl e ↦ rw e (add_request-Outcome b r (ground arith))
  | inr e ↦ elim (Bool-cases (r.io_command == tr_getsystime)) [
    | inl f ↦
        rw (e, f)
          (reply_unless_quick-Outcome b b r (record (reset r) { tr_time = b.current_time })
            (ground arith) refl refl refl refl refl)
    | inr f ↦ elim (Bool-cases (r.io_command == tr_setsystime)) [
      | inl g ↦
          rw (e, f, g)
            (reply_unless_quick-Outcome b (record b { current_time = r.tr_time }) r (reset r)
              (ground arith) refl refl refl refl refl)
      | inr g ↦ rw (e, f, g) (_, _, refl, refl, replied refl refl refl)
    ]
  ]
]

-- BeginIO returns on every request, whatever its command, unit and time are, and the request is then in one
-- place: put into the list of UNIT_VBLANK or of UNIT_WAITUNTIL, the others there in their order, or replied
-- once. It is in none of them only with the unit UNIT_ECLOCK or UNIT_WAITECLOCK, with a unit above 4, which gets
-- IOERR_OPENFAIL, or with IOF_QUICK and another command than TR_ADDREQUEST.
pub begin_io-Outcome :
    (b : TimerBase) (r : TimeRequest)
    → (c : TimerBase) × (q : TimeRequest) × (begin_io b r ≡ some (c, q))
      × (q.address ≡ r.address)
      × Outcome b r c q
unfolding begin_io
begin_io-Outcome b r = begin_command-Outcome b r

add_waiter-Memᴰ : (r : TimeRequest) (ts : List TimeRequest) → Memᴰ r (add_waiter r ts)
unfolding add_waiter
add_waiter-Memᴰ r [] = Memᴰ.head refl
add_waiter-Memᴰ r (t ∷ ts) = elim (Bool-cases (is_minus (cmp_time t.tr_time r.tr_time))) [
  | inl e ↦ rw e (Memᴰ.head refl)
  | inr e ↦ rw e (Memᴰ.tail (add_waiter-Memᴰ r ts))
]

add_le : (s e d v : ℕ) → s ≡ e + d → v ≤ d → e + v ≤ s
add_le s e d v a b = omega arith

-- A request for a delay on UNIT_VBLANK or UNIT_MICROHZ is queued with the deadline `elapsed + delay`,
-- and is still queued after `n` interrupts if these are no longer than the delay.
pub begin_io-delay :
    (b : TimerBase) (r : TimeRequest) (n : ℕ)
    → r.io_command ≡ 9
    → r.io_unit ≤ 1
    → IsTime r.tr_time
    → HasTicks b n
    → b.elapsed.tv_secs + r.tr_time.tv_secs + 1 < 2 ^ 32
    → n * usec b.vblank_time ≤ usec r.tr_time
    → (c : TimerBase) × (q : TimeRequest) × (begin_io b r ≡ some (c, q))
      × (q.address ≡ r.address)
      × (usec q.tr_time ≡ usec b.elapsed + usec r.tr_time)
      × Memᴰ q (ticks n c).vblank_list
unfolding begin_io add_request
begin_io-delay b r n command unit ok h fits short =
    let sum = add_time-usec b.elapsed r.tr_time h.elapsed_ok ok fits in
    let q = not_quick (record (reset r) { tr_time = sum.0 }) in
    let c = record b { vblank_list = add_waiter q b.vblank_list } in
    let is_add : (r.io_command == 9) ≡ true = ground arith in
    let not_until : (r.io_unit == 3) ≡ false = ground arith in
    let is_delay : leb r.io_unit 1 ≡ true = ground arith in
    let hc : HasTicks c n = record {
      elapsed_ok = h.elapsed_ok;
      vblank_ok = h.vblank_ok;
      room = h.room;
    } in
    (
      c,
      q,
      rw (is_add, not_until, is_delay, sum.1) refl,
      refl,
      sum.3,
      ticks-early n c q hc sum.2 (add_le _ _ _ _ sum.3 short) (add_waiter-Memᴰ q b.vblank_list),
    )

is_plus-later : (a b : TimeVal) (s : Sign) → Ordered a b s → usec a ≤ usec b → is_plus s ≡ false
is_plus-later a b minus o l = refl
is_plus-later a b same o l = refl
is_plus-later a b plus o l = absurd (omega arith)

-- A UNIT_WAITUNTIL request for the present or the future is replied at once, with its time and io_Error at 0, and
-- nothing else of the timer changes, when both times are in normal form with seconds below 2 ^ 31.
pub wait_until-future :
    (b : TimerBase) (r : TimeRequest)
    → r.io_command ≡ tr_addrequest
    → r.io_unit ≡ 3
    → IsNear b.current_time
    → IsNear r.tr_time
    → usec b.current_time ≤ usec r.tr_time
    → begin_io b r
      ≡ some (
        record b { replied = b.replied ++ (returned (finished (reset r)) ∷ []) },
        returned (finished (reset r)),
      )
unfolding begin_io add_request wait_until reply_msg
wait_until-future b r command unit now near l =
    let p = is_plus-later _ _ _ (near-Ordered b.current_time r.tr_time now near) l in
    let is_add : (r.io_command == 9) ≡ true = ground arith in
    let is_until : (r.io_unit == 3) ≡ true = ground arith in rw (is_add, is_until, p) refl
