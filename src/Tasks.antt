-- ===== src/Tasks.antt =====
-- src/kickstart/lib.exec: the tasks of exec (tasks.c, include/tasks.h), their signals (messages.c), the
-- scheduler (schedule.c) and the nesting of Forbid (ables.c). A task is the address of its structure; the
-- lists TaskReady and TaskWait are the sequences that ExecList shows its lists to stand for. The saved
-- contexts and stacks are left out, and so are the hooks Switch and Launch, which nothing in the
-- repository sets. A switch is the change of `this_task`; `none` is a `for(;;)`.
pub mod Consistent
pub mod Switch
pub mod Steps
pub mod Signals
mod Tests
use mathlib.Core.Option
use poweros_raspi.Base.{
  ℕ, zero, suc, ◌+◌, ◌-◌, ◌%◌, Bool, true, false, ◌||◌, Option, none, some, List, [], ◌∷◌, ◌==◌,
  leb, if◌then◌else◌, u32, Mask, mask_none, mask_and, mask_or, mask_not, mask_bit, non_zero,
}
use poweros_raspi.ExecList.{Ptr, null, strcmp_eq}
use poweros_raspi.ExecList.Queue.{enqueue_by, remove_by, find_by}

-- Task_State
pub data State : Type 0 where
  invalid added run ready wait except removed dead : State

abbrev pub is_wait : State → Bool
is_wait wait = true
is_wait _ = false

abbrev pub is_ready : State → Bool
is_ready ready = true
is_ready _ = false

-- struct Task. The counters are bytes, 255 for -1.
pub record Task : Type 0 where
  pub ln_name : List ℕ
  pub ln_pri : ℕ
  pub id_nest_cnt : ℕ
  pub td_nest_cnt : ℕ
  pub state : State
  pub cpu_usage : ℕ
  pub sig_alloc : Mask
  pub sig_wait : Mask
  pub sig_recvd : Mask
  pub sig_except : Mask

-- What struct SysBase holds of the tasks, the tasks at their addresses, and those given to FreeVec.
pub record SysBase : Type 0 where
  pub this_task : Ptr
  pub td_nest_cnt : ℕ
  pub id_nest_cnt : ℕ
  pub task_ready : List Ptr
  pub task_wait : List Ptr
  pub task : Ptr → Task
  pub freed : List Ptr

abbrev pub pri_of : SysBase → Ptr → ℕ
pri_of b p = (b.task p).ln_pri

abbrev pub put : Ptr → Task → SysBase → SysBase
put p t b = record b { task = λ q. if q == p then t else b.task q }

-- Enqueue on TaskReady
abbrev pub enqueue_ready : Ptr → SysBase → SysBase
enqueue_ready p b = record b { task_ready = enqueue_by (pri_of b) p b.task_ready }

-- Remove of a node of TaskWait
abbrev pub unlink_wait : Ptr → SysBase → SysBase
unlink_wait p b = record b { task_wait = remove_by (λ q. q == p) b.task_wait }

-- Remove of a node of TaskReady
abbrev pub unlink_ready : Ptr → SysBase → SysBase
unlink_ready p b = record b { task_ready = remove_by (λ q. q == p) b.task_ready }

-- lib_Forbid
unfoldable pub forbid : SysBase → SysBase
forbid b = record b { td_nest_cnt = (b.td_nest_cnt + 1) % 256 }

-- lib_Permit
unfoldable pub permit : SysBase → SysBase
permit b = record b { td_nest_cnt = (b.td_nest_cnt + 255) % 256 }

-- MakeTaskReady
unfoldable pub make_task_ready : Ptr → SysBase → SysBase
make_task_ready p b = enqueue_ready p (
    put p
      (record (b.task p) {
        state = ready;
        cpu_usage = u32 ((b.task p).cpu_usage + 1);
        td_nest_cnt = b.td_nest_cnt;
        id_nest_cnt = b.id_nest_cnt;
      })
      b)

-- MakeTaskRun of a task that is not NULL.
unfoldable pub make_task_run : Ptr → SysBase → SysBase
make_task_run p b = record (put p (record (b.task p) { state = run }) b) {
  td_nest_cnt = (b.task p).td_nest_cnt;
  id_nest_cnt = (b.task p).id_nest_cnt;
}

-- MakeTaskDestroy
pub make_task_destroy : Ptr → SysBase → SysBase
make_task_destroy p b = record b { freed = p ∷ b.freed }

-- The switch of lib_Dispatch on the state of the task that leaves.
pub leave : State → Ptr → SysBase → Option SysBase
unfolding make_task_ready make_task_destroy
leave run p b = some (make_task_ready p b)
leave removed p b = some (make_task_destroy p b)
leave wait p b = some b
leave _ p b = none

-- The end of lib_Dispatch: RemHead, MakeTaskRun, which halts on NULL, and the new thisTask.
abbrev pub run_first : List Ptr → SysBase → Option SysBase
run_first [] b = none
run_first (p ∷ ps) b =
    some (record (make_task_run p (record b { task_ready = ps })) { this_task = p })

abbrev pub run_next : Option SysBase → Option SysBase
run_next none = none
run_next (some b) = run_first b.task_ready b

-- lib_Dispatch
pub dispatch : SysBase → Option SysBase
unfolding leave make_task_run
dispatch b =
    run_next
      (if b.this_task == null then some b else leave (b.task b.this_task).state b.this_task b)

abbrev pub is_empty : List Ptr → Bool
is_empty [] = true
is_empty (p ∷ ps) = false

-- lib_Schedule returns at once. `td_nest_cnt >= 0` is said of the INT8.
abbrev pub stays : SysBase → Bool
stays b = leb b.td_nest_cnt 127 || is_empty b.task_ready

-- lib_Schedule
pub schedule : SysBase → Option SysBase
schedule b = if stays b then some b else dispatch b

-- The end of TaskRun: the running task is over.
unfoldable pub task_exit : SysBase → Option SysBase
task_exit b = schedule (put b.this_task (record (b.task b.this_task) { state = removed }) b)

-- WaitTask
unfoldable pub wait_task : Ptr → SysBase → Option SysBase
wait_task p b =
    let t = record (b.task p) {
      td_nest_cnt = b.td_nest_cnt;
      id_nest_cnt = b.id_nest_cnt;
      state = wait;
    } in
    schedule (record (put p t b) { task_wait = p ∷ b.task_wait; this_task = null })

-- lib_Wait returns the signals that have come, or the caller sleeps in its loop, another task running, or
-- Schedule comes back at once, and with it WaitTask: the loop of lib_Wait then goes round once more, in the state
-- that is given here. The rounds that follow it are left out.
pub data Waited : Type 0 where
  returned : Mask → SysBase → Waited
  sleeps : SysBase → Waited
  comes_back : SysBase → Waited

-- What becomes of the caller of WaitTask.
abbrev pub slept : SysBase → SysBase → Waited
slept b c = if stays b then comes_back c else sleeps c

-- The loop of lib_Wait from its test on.
unfoldable pub wait_signals : Mask → SysBase → Option Waited
wait_signals set b =
    let p = b.this_task in
    let t = b.task p in
    let rcvd = mask_and t.sig_recvd set in
    if non_zero rcvd
    then some
        (returned rcvd (put p (record t { sig_recvd = mask_and t.sig_recvd (mask_not set) }) b))
    else Option.map (slept b) (wait_task p (put p (record t { sig_wait = set }) b))

-- The branch of WakeupTask for a waiting task.
abbrev pub make_ready_again : Ptr → SysBase → SysBase
make_ready_again p b =
    enqueue_ready p (put p (record (b.task p) { state = ready }) (unlink_wait p b))

-- `Task->SigRecvd |= signal`
abbrev pub receive : Ptr → Mask → SysBase → SysBase
receive p s b = put p (record (b.task p) { sig_recvd = mask_or (b.task p).sig_recvd s }) b

-- WakeupTask, lib_Signal
unfoldable pub wakeup_task : Ptr → Mask → SysBase → SysBase
wakeup_task p s b = receive p s (if is_wait (b.task p).state then make_ready_again p b else b)

-- lib_SetSignal: the old signals.
unfoldable pub set_signal : Mask → Mask → SysBase → Mask × SysBase
set_signal new set b =
    let t = b.task b.this_task in
    (
      t.sig_recvd,
      put b.this_task
          (record t {
            sig_recvd = mask_or (mask_and t.sig_recvd (mask_not set)) (mask_and set new);
          })
          b,
    )

-- The loop of lib_AllocSignal: the highest bit below `n` that is not set in SigAlloc.
pub free_below : ℕ → Mask → Option ℕ
free_below zero m = none
free_below (suc n) m = if m n then free_below n m else some n

abbrev pub take_signal : Option ℕ → SysBase → ℕ × SysBase
take_signal none b = (255, b)
take_signal (some n) b =
    let t = b.task b.this_task in
    let keep = mask_not (mask_bit n) in
    (
      n,
      put b.this_task
          (record t {
            sig_alloc = mask_or t.sig_alloc (mask_bit n);
            sig_recvd = mask_and t.sig_recvd keep;
            sig_except = mask_and t.sig_except keep;
            sig_wait = mask_and t.sig_wait keep;
          })
          b,
    )

-- lib_AllocSignal on the UINT32 of signalNum, so that -1 is above 31. The result 255 is the INT8 -1.
unfoldable pub alloc_signal : ℕ → SysBase → ℕ × SysBase
unfolding free_below
alloc_signal num b =
    let from = if leb 32 num then 31 else num in
    take_signal (free_below (suc from) (b.task b.this_task).sig_alloc) b

-- lib_FreeSignal
unfoldable pub free_signal : ℕ → SysBase → SysBase
free_signal num b =
    let t = b.task b.this_task in
    if num == 4294967295
    then b
    else put b.this_task (record t { sig_alloc = mask_and t.sig_alloc (mask_not (mask_bit num)) }) b

-- The string "UnknownTask"
abbrev pub unknown_task : List ℕ
unknown_task = b'U' ∷ b'n' ∷ b'k' ∷ b'n' ∷ b'o' ∷ b'w' ∷ b'n' ∷ b'T' ∷ b'a' ∷ b's' ∷ b'k' ∷ []

-- lib_AddTask of a task whose name, `none` for NULL, and priority are set.
unfoldable pub add_task : Ptr → Option (List ℕ) → SysBase → SysBase
add_task p name b =
    if p == null
    then b
    else enqueue_ready p (
        put p
          (record (b.task p) {
            ln_name = Option.get_or name unknown_task;
            state = ready;
            cpu_usage = 0;
            td_nest_cnt = 255;
            id_nest_cnt = 255;
          })
          b)

-- lib_FindTask: NULL if there is none, and the running task without a name.
abbrev pub or_null : Option Ptr → Ptr → Ptr
or_null none p = p
or_null (some q) p = q

pub find_task : Option (List ℕ) → SysBase → Ptr
find_task none b = b.this_task
find_task (some name) b =
    let is = λ (p : Ptr). strcmp_eq (b.task p).ln_name name in
    or_null (find_by is b.task_ready) (or_null (find_by is b.task_wait) null)

-- lib_SetTaskPri with the old priority. Its `if (task = NULL)` assigns, so that all that follows is
-- about the task NULL.
pub set_task_pri : Ptr → ℕ → SysBase → Option (ℕ × SysBase)
set_task_pri task pri b =
    let p : Ptr = null in
    let old = (b.task p).ln_pri in
    let b1 = put p (record (b.task p) { ln_pri = pri % 256 }) (forbid b) in
    let b2 =
      permit (if is_ready (b.task p).state then enqueue_ready p (unlink_ready p b1) else b1) in
    Option.map (λ c. (old, c))
      (if leb b2.td_nest_cnt 127 || is_empty b2.task_ready then some b2 else schedule b2)
