-- ===== src/Timer/Device.antt =====
-- src/kickstart/dev.timer/io.c, _timerirq.c and timerdevice.c: the requests of timer.device. A list
-- of requests stands for the Exec list that links them; ReplyMsg (lib.exec/messages.c) is taken up to
-- the message port: what it was called on is kept in order.
pub mod Order
pub mod Interrupt
pub mod Requests
pub mod Abort
use poweros_raspi.Base.{
  ℕ, Bool, true, false, Option, none, some, List, [], ◌∷◌, ◌++◌, ◌&&◌, ◌||◌, ◌==◌, ltb, leb,
  if◌then◌else◌, bit_and, ◌/◌,
}
use poweros_raspi.ExecList.Queue.{remove_by}
use poweros_raspi.Timer.Time.{
  TimeVal, time, Sign, minus, same, plus, cmp_time, add_time, fast_add_time,
}

-- struct TimeRequest with its IORequest and Message; `address` is where it stands, io_error the byte.
pub record TimeRequest : Type 0 where
  pub address : ℕ
  pub ln_type : ℕ
  pub mn_reply_port : ℕ
  pub io_unit : ℕ
  pub io_command : ℕ
  pub io_flags : ℕ
  pub io_error : ℕ
  pub tr_time : TimeVal

abbrev pub nt_message : ℕ
nt_message = 8

abbrev pub nt_freemsg : ℕ
nt_freemsg = 9

abbrev pub nt_replymsg : ℕ
nt_replymsg = 10

-- IOERR_OPENFAIL = -1 and IOERR_NOCMD = -3 as INT8.
abbrev pub ioerr_openfail : ℕ
ioerr_openfail = 255

abbrev pub ioerr_nocmd : ℕ
ioerr_nocmd = 253

abbrev pub tr_addrequest : ℕ
tr_addrequest = 9

abbrev pub tr_getsystime : ℕ
tr_getsystime = 10

abbrev pub tr_setsystime : ℕ
tr_setsystime = 11

-- struct TimerBase: the three times, the lists that requests wait in, and what was replied.
pub record TimerBase : Type 0 where
  pub current_time : TimeVal
  pub vblank_time : TimeVal
  pub elapsed : TimeVal
  pub vblank_list : List TimeRequest
  pub waituntil_list : List TimeRequest
  pub replied : List TimeRequest

-- What lib_ReplyMsg writes into the request.
abbrev pub returned : TimeRequest → TimeRequest
returned r = record r { ln_type = if r.mn_reply_port == 0 then nt_freemsg else nt_replymsg }

-- lib_ReplyMsg
unfoldable pub reply_msg : TimeRequest → TimerBase → TimerBase
reply_msg r b = record b { replied = b.replied ++ (returned r ∷ []) }

abbrev pub is_minus : Sign → Bool
is_minus minus = true
is_minus same = false
is_minus plus = false

abbrev pub is_plus : Sign → Bool
is_plus minus = false
is_plus same = false
is_plus plus = true

-- AddWaiter
unfoldable pub add_waiter : TimeRequest → List TimeRequest → List TimeRequest
add_waiter r [] = r ∷ []
add_waiter r (t ∷ ts) =
    let rest = add_waiter r ts in
    if is_minus (cmp_time t.tr_time r.tr_time) then r ∷ t ∷ ts else t ∷ rest

-- `io_Flags &= ~IOF_QUICK`
abbrev pub not_quick : TimeRequest → TimeRequest
not_quick r = record r { io_flags = bit_and r.io_flags 254 }

abbrev pub finished : TimeRequest → TimeRequest
finished r = record r { tr_time = time 0 0; io_error = 0 }

-- The timer after a request was handled, and the request as it stands in memory then.
abbrev pub Handled : Type 0
Handled = TimerBase × TimeRequest

-- UNIT_WAITUNTIL of AddRequest
unfoldable pub wait_until : TimerBase → TimeRequest → Handled
wait_until b r =
    if is_plus (cmp_time b.current_time r.tr_time)
    then (record b { waituntil_list = add_waiter (not_quick r) b.waituntil_list }, not_quick r)
    else (reply_msg (finished r) b, returned (finished r))

-- UNIT_MICROHZ and UNIT_VBLANK of AddRequest, with the deadline that AddTime computes.
abbrev pub queue_at : TimerBase → TimeRequest → Option TimeVal → Option Handled
queue_at b r (some t) =
    let q = not_quick (record r { tr_time = t }) in
    some (record b { vblank_list = add_waiter q b.vblank_list }, q)
queue_at b r none = none

-- The other units of AddRequest: UNIT_ECLOCK is 2 and UNIT_WAITECLOCK 4.
abbrev pub other_unit : TimeRequest → TimeRequest
other_unit r =
    if r.io_unit == 2
    then r
    else if r.io_unit == 4
    then r
    else record r { io_error = ioerr_openfail }

-- AddRequest, `none` if AddTime ran out of fuel.
unfoldable pub add_request : TimerBase → TimeRequest → Option Handled
add_request b r =
    if r.io_unit == 3
    then some (wait_until b r)
    else if leb r.io_unit 1
    then queue_at b r (add_time b.elapsed r.tr_time)
    else some (b, other_unit r)

-- `if (!(io_Flags & IOF_QUICK)) ReplyMsg(ioreq)`
abbrev pub reply_unless_quick : TimeRequest → TimerBase → Handled
reply_unless_quick r b = if bit_and r.io_flags 1 == 0 then (reply_msg r b, returned r) else (b, r)

-- What timer_BeginIO writes into a request first.
abbrev pub reset : TimeRequest → TimeRequest
reset r = record r { ln_type = nt_message; io_error = 0 }

-- The switch of timer_BeginIO, on a request that is reset.
abbrev pub begin_command : TimerBase → TimeRequest → Option Handled
begin_command b r =
    if r.io_command == tr_addrequest
    then add_request b r
    else if r.io_command == tr_getsystime
    then some (reply_unless_quick (record r { tr_time = b.current_time }) b)
    else if r.io_command == tr_setsystime
    then some (reply_unless_quick r (record b { current_time = r.tr_time }))
    else let q = record r { io_error = ioerr_nocmd } in some (reply_msg q b, returned q)

unfoldable pub begin_io : TimerBase → TimeRequest → Option Handled
begin_io b r = begin_command b (reset r)

-- The test of Timer3IRQServer.
abbrev pub is_due : TimeVal → TimeRequest → Bool
is_due e t =
    ltb t.tr_time.tv_secs e.tv_secs
    || (leb t.tr_time.tv_secs e.tv_secs && ltb t.tr_time.tv_micro e.tv_micro)

-- One ForeachNodeSafe loop of Timer3IRQServer: the request that it stops at, and the list without it.
pub record Expired : Type 0 where
  pub answered : Option TimeRequest
  pub waiting : List TimeRequest

abbrev pub skip : TimeRequest → Expired → Expired
skip t x = record x { waiting = t ∷ x.waiting }

unfoldable pub expire : TimeVal → List TimeRequest → Expired
expire e [] = record { answered = none; waiting = [] }
expire e (t ∷ ts) =
    let rest = expire e ts in
    if is_due e t then record { answered = some t; waiting = ts } else skip t rest

abbrev pub answer : Option TimeRequest → TimerBase → TimerBase
answer none b = b
answer (some t) b = reply_msg (finished t) b

-- Timer3IRQServer
unfoldable pub timer3_irq_server : TimerBase → TimerBase
timer3_irq_server b =
    let now = fast_add_time b.elapsed b.vblank_time in
    let v = expire now b.vblank_list in
    let w = expire now b.waituntil_list in
    answer w.answered (
      answer v.answered (record b {
        current_time = fast_add_time b.current_time b.vblank_time;
        elapsed = now;
        vblank_list = v.waiting;
        waituntil_list = w.waiting;
      }))

-- Remove of a request from the list that it waits in.
abbrev pub take_out : TimeRequest → List TimeRequest → List TimeRequest
take_out r ts = remove_by (λ t. t.address == r.address) ts

-- timer_AbortIO, of a request that waits if it is not answered.
unfoldable pub abort_io : TimerBase → TimeRequest → TimerBase
abort_io b r =
    if r.ln_type == nt_replymsg
    then b
    else reply_msg r (record b {
      vblank_list = take_out r b.vblank_list;
      waituntil_list = take_out r b.waituntil_list;
    })

-- timer_GetSysTime
unfoldable pub get_sys_time : TimerBase → TimeVal
get_sys_time b = b.current_time

-- What timer_InitDev writes into the times and lists; STC_FREQ_HZ is 1000000 and TICK 100.
unfoldable pub init_dev : TimerBase → TimerBase
init_dev b = record b {
  current_time = time 0 0;
  vblank_time = time 0 (1000000 / 100);
  elapsed = time 0 0;
  vblank_list = [];
  waituntil_list = [];
}
