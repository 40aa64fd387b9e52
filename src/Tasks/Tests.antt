-- ===== src/Tasks/Tests.antt =====
-- A system of four tasks: 100 runs, 200 and 300 are ready, 400 waits.
use poweros_raspi.Base.{
  ℕ, ◌≤◌, ◌≡◌, refl, true, false, ◌&&◌, ◌||◌, Option, none, some, [], ◌∷◌, ◌==◌, if◌then◌else◌,
  arith, Mask, mask_none, mask_or, mask_bit,
}
use poweros_raspi.ExecList.{Ptr}
use poweros_raspi.Tasks.{
  State, run, ready, wait, invalid, Task, SysBase, make_task_ready, make_task_run, dispatch,
  schedule, wait_signals, returned, wakeup_task, alloc_signal, free_signal, leave,
}
use poweros_raspi.Tasks.Consistent.{IsConsistent}
use poweros_raspi.Tasks.Switch.{Runs, Switched, schedule-Runs}
use poweros_raspi.Tasks.Steps.{signals, here, next, Reach-IsConsistent}
use poweros_raspi.Tasks.Signals.{
  wakeup_task-recvd, wait_signals-returns, alloc_signal-highest, free_signal-alloc_signal,
}

abbrev make_task : ℕ → State → Task
make_task pri s = record {
  ln_name = [];
  ln_pri = pri;
  id_nest_cnt = 255;
  td_nest_cnt = 255;
  state = s;
  cpu_usage = 0;
  sig_alloc = mask_bit 31;
  sig_wait = mask_none;
  sig_recvd = mask_bit 4;
  sig_except = mask_none;
}

abbrev tasks : Ptr → Task
tasks p =
    if p == 100
    then make_task 5 run
    else if p == 200
    then make_task 5 ready
    else if p == 300
    then make_task 0 ready
    else if p == 400
    then make_task 7 wait
    else make_task 0 invalid

abbrev base : SysBase
base = record {
  this_task = 100;
  td_nest_cnt = 255;
  id_nest_cnt = 255;
  task_ready = 200 ∷ 300 ∷ [];
  task_wait = 400 ∷ [];
  task = tasks;
  freed = [];
}

base-IsConsistent : IsConsistent base
base-IsConsistent = record {
  lists = record {
    ready_states = (refl, (refl, tt));
    wait_states = (refl, tt);
    by_pri = (refl, tt);
    ready_distinct = ground arith;
    wait_distinct = ground arith;
    ready_nonnull = ground arith;
    wait_nonnull = ground arith;
  };
  current = ground arith;
  running = refl;
}

abbrev running_task : Option SysBase → Ptr
running_task none = 0
running_task (some b) = b.this_task

-- Tasks of one priority take turns.
next_turn : running_task (schedule base) ≡ 200
unfolding schedule dispatch leave make_task_ready make_task_run
next_turn = refl

-- A task that is signalled goes before those of a lower priority.
woken : (wakeup_task 400 (mask_bit 8) base).task_ready ≡ 400 ∷ 200 ∷ 300 ∷ []
unfolding wakeup_task
woken = refl

schedule-Runs_example :
    (p : Ptr) × (r : SysBase) × (schedule base ≡ some r) × Runs p r × Switched base p r
schedule-Runs_example = schedule-Runs base base-IsConsistent (ground arith) refl

Reach-IsConsistent_example : IsConsistent (wakeup_task 400 (mask_bit 8) base)
Reach-IsConsistent_example =
    Reach-IsConsistent base-IsConsistent (next here (signals 400 (mask_bit 8) (ground arith) refl))

wakeup_task_run :
    ((wakeup_task 400 (mask_bit 8) base).task 400).sig_recvd 8
    ≡ (base.task 400).sig_recvd 8 || (400 == 400 && mask_bit 8 8)
wakeup_task_run = wakeup_task-recvd 400 400 (mask_bit 8) base 8

signal_there :
    (rcvd : Mask) × (c : SysBase) × (wait_signals (mask_or (mask_bit 4) (mask_bit 8)) base
      ≡ some (returned rcvd c))
    × (rcvd 4 ≡ true)
    × ((c.task 100).sig_recvd 4 ≡ false)
signal_there =
    wait_signals-returns (mask_or (mask_bit 4) (mask_bit 8)) base 4 (ground arith) refl refl

alloc_signal_run :
    let r = alloc_signal 31 base in
    (30 ≤ r.0)
    × (r.0 ≤ 31)
    × ((base.task 100).sig_alloc r.0 ≡ false)
    × ((r.1.task 100).sig_alloc r.0 ≡ true)
    × ((r.1.task 100).sig_recvd r.0 ≡ false)
alloc_signal_run = alloc_signal-highest 31 30 base (ground arith) (ground arith) refl

taken_and_freed :
    let r = alloc_signal 31 base in
    ((free_signal r.0 r.1).task 100).sig_alloc 30 ≡ (base.task 100).sig_alloc 30
taken_and_freed = free_signal-alloc_signal 31 30 30 base (ground arith) (ground arith) refl
