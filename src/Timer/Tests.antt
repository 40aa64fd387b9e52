-- ===== src/Timer/Tests.antt =====
-- A timer at 10.5 s whose interrupt comes every 10 ms.
use mathlib.Core.List.{Memᴰ}
use poweros_raspi.Base.{ℕ, ◌+◌, ◌<◌, ◌≡◌, ◌^◌, refl, some, [], ◌∷◌, arith, All}
use poweros_raspi.Timer.Time.{
  TimeVal, time, IsTime, usec, Ordered, cmp_time, add_time, sub_time, normalize, fast_add_time,
  add_time-usec, sub_time-add_time, cmp_time-Ordered, fast_add_time-usec,
}
use poweros_raspi.Timer.Device.{
  TimeRequest, TimerBase, begin_io, abort_io, add_waiter, expire, reply_msg, timer3_irq_server,
  returned, finished, reset,
}
use poweros_raspi.Timer.Device.Order.{IsNear, Inserted, IsLatestFirst, add_waiter-IsLatestFirst}
use poweros_raspi.Timer.Device.Interrupt.{Expires, expire-Expires, ticks, HasTicks, ticks-drain}
use poweros_raspi.Timer.Device.Abort.{waiting, begin_io-abort_io}
use poweros_raspi.Timer.Device.Requests.{
  Outcome, begin_io-Outcome, begin_io-delay, wait_until-future,
}

abbrev request : ℕ → ℕ → TimeVal → TimeRequest
request address unit t = record {
  address = address;
  ln_type = 0;
  mn_reply_port = 64;
  io_unit = unit;
  io_command = 9;
  io_flags = 1;
  io_error = 0;
  tr_time = t;
}

abbrev early : TimeRequest
early = request 200 1 (time 10 400000)

abbrev late : TimeRequest
late = request 300 1 (time 12 0)

abbrev base : TimerBase
base = record {
  current_time = time 1000 0;
  vblank_time = time 0 10000;
  elapsed = time 10 500000;
  vblank_list = late ∷ early ∷ [];
  waituntil_list = [];
  replied = [];
}

abbrev overdue : TimerBase
overdue = record base { vblank_list = early ∷ early ∷ [] }

base-HasTicks : HasTicks base 5
base-HasTicks = record {
  elapsed_ok = record { secs = ground arith; micro = ground arith };
  vblank_ok = record { secs = ground arith; micro = ground arith };
  room = ground arith;
}

overdue-HasTicks : HasTicks overdue 2
overdue-HasTicks = record {
  elapsed_ok = record { secs = ground arith; micro = ground arith };
  vblank_ok = record { secs = ground arith; micro = ground arith };
  room = ground arith;
}

-- The interrupt answers the request that is due and keeps the other one.
tick_once : (timer3_irq_server base).vblank_list ≡ late ∷ []
unfolding timer3_irq_server expire fast_add_time reply_msg
tick_once = refl

-- A later request goes in front of an earlier one.
latest_first : add_waiter late (early ∷ []) ≡ late ∷ early ∷ []
unfolding add_waiter cmp_time
latest_first = refl

near : (s u : ℕ) → s < 2 ^ 31 → u < 1000000 → IsNear (time s u)
near s u a b = record { is_time = record { secs = omega arith; micro = b }; near = a }

add_time_run :
    (t : TimeVal) × (add_time (time 10 500000) (time 3 600000) ≡ some t)
    × IsTime t
    × (usec t ≡ usec (time 10 500000) + usec (time 3 600000))
add_time_run =
    add_time-usec (time 10 500000) (time 3 600000)
      (record { secs = ground arith; micro = ground arith })
      (record { secs = ground arith; micro = ground arith }) (ground arith)

sub_time-add_time_example :
    sub_time (time 10 500000) (time 14 100000) ≡ some (time 10 500000, time 3 600000)
unfolding add_time normalize
sub_time-add_time_example =
    sub_time-add_time (time 10 500000) (time 3 600000) (time 14 100000)
      (record { secs = ground arith; micro = ground arith })
      (record { secs = ground arith; micro = ground arith }) (ground arith) refl

cmp_time_run : Ordered (time 10 400000) (time 12 0) (cmp_time (time 10 400000) (time 12 0))
cmp_time_run =
    cmp_time-Ordered (time 10 400000) (time 12 0)
      (record { secs = ground arith; micro = ground arith })
      (record { secs = ground arith; micro = ground arith }) (ground arith) (ground arith)

fast_add_time_run :
    IsTime (fast_add_time (time 10 995000) (time 0 10000))
    × (usec (fast_add_time (time 10 995000) (time 0 10000))
        ≡ usec (time 10 995000) + usec (time 0 10000))
fast_add_time_run =
    fast_add_time-usec (time 10 995000) (time 0 10000)
      (record { secs = ground arith; micro = ground arith })
      (record { secs = ground arith; micro = ground arith }) (ground arith)

add_waiter-IsLatestFirst_example :
    Inserted late (early ∷ []) (add_waiter late (early ∷ []))
    × IsLatestFirst (add_waiter late (early ∷ []))
add_waiter-IsLatestFirst_example =
    add_waiter-IsLatestFirst late (early ∷ []) (near 12 0 (ground arith) (ground arith))
      (near 10 400000 (ground arith) (ground arith), tt) (tt, tt)

expire_run :
    Expires
      (time 10 510000)
      (late ∷ early ∷ [])
      (expire (time 10 510000) (late ∷ early ∷ [])).answered
      (expire (time 10 510000) (late ∷ early ∷ [])).waiting
expire_run = expire-Expires (time 10 510000) (late ∷ early ∷ [])

ticks-drain_example :
    ((ticks 2 overdue).vblank_list ≡ [])
    × All (λ t. Memᴰ (returned (finished t)) (ticks 2 overdue).replied) (early ∷ early ∷ [])
ticks-drain_example = ticks-drain (early ∷ early ∷ []) overdue refl overdue-HasTicks (
  (record { secs = ground arith; micro = ground arith }, ground arith),
  ((record { secs = ground arith; micro = ground arith }, ground arith), tt),
)

begin_io-Outcome_example :
    (c : TimerBase) × (q : TimeRequest) × (begin_io base (request 400 7 (time 0 0)) ≡ some (c, q))
    × (q.address ≡ 400)
    × Outcome base (request 400 7 (time 0 0)) c q
begin_io-Outcome_example = begin_io-Outcome base (request 400 7 (time 0 0))

begin_io-delay_example :
    (c : TimerBase) × (q : TimeRequest) × (begin_io base (request 400 1 (time 0 50000))
      ≡ some (c, q))
    × (q.address ≡ 400)
    × (usec q.tr_time ≡ usec (time 10 500000) + usec (time 0 50000))
    × Memᴰ q (ticks 5 c).vblank_list
begin_io-delay_example =
    begin_io-delay base (request 400 1 (time 0 50000)) 5 refl (ground arith)
      (record { secs = ground arith; micro = ground arith }) base-HasTicks (ground arith)
      (ground arith)

wait_until-future_example :
    begin_io base (request 400 3 (time 2000 0))
    ≡ some (
      record base { replied = returned (finished (reset (request 400 3 (time 2000 0)))) ∷ [] },
      returned (finished (reset (request 400 3 (time 2000 0)))),
    )
wait_until-future_example =
    wait_until-future base (request 400 3 (time 2000 0)) refl refl
      (near 1000 0 (ground arith) (ground arith)) (near 2000 0 (ground arith) (ground arith))
      (ground arith)

sum_of_delay : add_time (time 10 500000) (time 0 50000) ≡ some (time 10 550000)
unfolding add_time normalize
sum_of_delay = refl

begin_io-abort_io_example :
    (c : TimerBase) × (begin_io base (request 400 1 (time 0 50000))
      ≡ some (c, waiting (request 400 1 (time 0 50000)) (time 10 550000)))
    × (abort_io c (waiting (request 400 1 (time 0 50000)) (time 10 550000))
        ≡ reply_msg (waiting (request 400 1 (time 0 50000)) (time 10 550000)) base)
begin_io-abort_io_example =
    begin_io-abort_io base (request 400 1 (time 0 50000)) (time 10 550000) refl (ground arith)
      sum_of_delay (ground arith) tt
