-- ===== src/Timer/Device/Abort.antt =====
-- timer_AbortIO of src/kickstart/dev.timer/io.c: a delay that is taken back.
use poweros_raspi.Base.{
  ℕ, ◌≤◌, ◌≡◌, ◌≢◌, refl, ap, true, false, some, List, [], ◌∷◌, ◌==◌, leb, arith, All, Bool-cases,
  inl, inr,
}
use poweros_raspi.Timer.Time.{TimeVal, add_time, cmp_time}
use poweros_raspi.Timer.Device.{
  TimeRequest, TimerBase, tr_addrequest, not_quick, reset, add_waiter, take_out, abort_io, begin_io,
  add_request, reply_msg, is_minus,
}

-- No request in the list is the one at `a`.
abbrev pub NotIn : ℕ → List TimeRequest → Type 0
NotIn a ts = All (λ t. t.address ≢ a) ts

take_out-add_waiter :
    (r q : TimeRequest) (ts : List TimeRequest)
    → q.address ≡ r.address
    → NotIn r.address ts
    → take_out q (add_waiter r ts) ≡ ts
unfolding add_waiter
take_out-add_waiter r q [] e h =
    let here : (r.address == q.address) ≡ true = ground arith in rw here refl
take_out-add_waiter r q (t ∷ ts) e (ne, h) =
    let here : (r.address == q.address) ≡ true = ground arith in
    let other : (t.address == q.address) ≡ false = ground arith in
    elim (Bool-cases (is_minus (cmp_time t.tr_time r.tr_time))) [
      | inl y ↦ rw (y, here) refl
      | inr later ↦ rw (later, other) (ap (λ us. t ∷ us) (take_out-add_waiter r q ts e h))
    ]

take_out-NotIn : (r : TimeRequest) (ts : List TimeRequest) → NotIn r.address ts → take_out r ts ≡ ts
take_out-NotIn r [] h = refl
take_out-NotIn r (t ∷ ts) (ne, h) =
    let other : (t.address == r.address) ≡ false = ground arith in
    rw other (ap (λ us. t ∷ us) (take_out-NotIn r ts h))

-- The request as it waits for the deadline `t`.
abbrev pub waiting : TimeRequest → TimeVal → TimeRequest
waiting r t = not_quick (record (reset r) { tr_time = t })

-- AbortIO of a delay that BeginIO has queued brings the lists of the timer back to what they were and answers the
-- request, with its io_Error at 0.
pub begin_io-abort_io :
    (b : TimerBase) (r : TimeRequest) (t : TimeVal)
    → r.io_command ≡ tr_addrequest
    → r.io_unit ≤ 1
    → add_time b.elapsed r.tr_time ≡ some t
    → NotIn r.address b.vblank_list
    → NotIn r.address b.waituntil_list
    → (c : TimerBase) × (begin_io b r ≡ some (c, waiting r t))
      × (abort_io c (waiting r t) ≡ reply_msg (waiting r t) b)
unfolding begin_io add_request abort_io
begin_io-abort_io b r t command unit sum fresh fresh_too =
    let other : (r.io_unit == 3) ≡ false = ground arith in
    let delay : leb r.io_unit 1 ≡ true = ground arith in
    let c = record b { vblank_list = add_waiter (waiting r t) b.vblank_list } in
    (
      c,
      rw (command, other, delay, sum) refl,
      rw
          (
            take_out-add_waiter (waiting r t) (waiting r t) b.vblank_list refl fresh,
            take_out-NotIn (waiting r t) b.waituntil_list fresh_too,
          )
          refl,
    )
