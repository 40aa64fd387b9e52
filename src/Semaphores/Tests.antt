-- ===== src/Semaphores/Tests.antt =====
-- Signal semaphores of three tasks: 100 and 200 want one, and 300 waits behind them.
use poweros_raspi.Base.{
  non_zero, mask_and, ◌≡◌, refl, true, false, none, some, [], ◌∷◌, arith, ◌==◌, if◌then◌else◌,
  mask_none, mask_bit,
}
use poweros_raspi.ExecList.{null}
use poweros_raspi.Semaphores.{
  SignalSemaphore, simple, untyped, init_semaphore, attempt, release, attempt_shared, wait_turn,
}
use poweros_raspi.Semaphores.Nesting.{
  IsFree, IsHeld, init_semaphore-IsFree, attempt-held, obtains, releases, obtain-release,
}
use poweros_raspi.Semaphores.Handover.{contended, contended-stuck}
use poweros_raspi.Semaphores.Waiting.{wait_turn-forbid}
use poweros_raspi.Tasks.{State, run, invalid, Task, SysBase, forbid, comes_back, wait}

abbrev raw : SignalSemaphore
raw = record {
  ss_owner = 12;
  ss_nest_count = 7;
  ss_queue_count = 7;
  ss_type = untyped;
  ss_wait_queue = 12 ∷ [];
}

abbrev unused : SignalSemaphore
unused = init_semaphore raw

unused-IsFree : IsFree unused
unused-IsFree = init_semaphore-IsFree raw

abbrev held_twice : SignalSemaphore
held_twice = record {
  ss_owner = 100;
  ss_nest_count = 2;
  ss_queue_count = 1;
  ss_type = simple;
  ss_wait_queue = [];
}

held_twice-IsHeld : IsHeld 100 2 held_twice
held_twice-IsHeld = record { owner = refl; nested = refl; counted = refl; no_waiter = refl }

-- Two tasks share a semaphore that none owns.
shared_by_two :
    attempt_shared 200 (attempt_shared 100 unused).1
    ≡ (true, record (attempt_shared 100 unused).1 { ss_nest_count = 2; ss_queue_count = 1 })
unfolding attempt_shared init_semaphore
shared_by_two = refl

second_attempt : attempt 200 held_twice ≡ (false, held_twice)
second_attempt =
    attempt-held 100 200 2 held_twice (ground arith) (omega arith) (omega arith) held_twice-IsHeld

obtain-release_example :
    (t : SignalSemaphore) × (obtains 3 100 unused ≡ some t) × IsFree (releases 3 t)
obtain-release_example = obtain-release 2 100 unused (omega arith) unused-IsFree

contended-stuck_example :
    ((release (contended 100 200 300 unused)).0 ≡ none)
    × ((release (contended 100 200 300 unused)).1.ss_owner ≡ 200)
    × ((release (contended 100 200 300 unused)).1.ss_wait_queue ≡ 300 ∷ [])
contended-stuck_example =
    contended-stuck 100 200 300 unused (ground arith) (ground arith) unused-IsFree

abbrev make_task : State → Task
make_task s = record {
  ln_name = [];
  ln_pri = 0;
  id_nest_cnt = 255;
  td_nest_cnt = 255;
  state = s;
  cpu_usage = 0;
  sig_alloc = mask_bit 4;
  sig_wait = mask_none;
  sig_recvd = mask_bit 4;
  sig_except = mask_none;
}

-- 100 runs and 200 is ready.
abbrev base : SysBase
base = record {
  this_task = 100;
  td_nest_cnt = 255;
  id_nest_cnt = 255;
  task_ready = 200 ∷ [];
  task_wait = [];
  task = λ p. if p == 100 then make_task run else make_task invalid;
  freed = [];
}

wait_turn-forbid_example :
    (c : SysBase) × (wait_turn (forbid base) ≡ some (comes_back c))
    × (c.this_task ≡ null)
    × (c.task_wait ≡ 100 ∷ [])
    × (c.task_ready ≡ 200 ∷ [])
    × ((c.task 100).state ≡ wait)
    × (non_zero (mask_and (c.task 100).sig_recvd (mask_bit 4)) ≡ false)
wait_turn-forbid_example = wait_turn-forbid base refl
