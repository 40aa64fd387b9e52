-- ===== src/Semaphores.antt =====
-- src/kickstart/lib.exec/semaphores.c: signal semaphores. Each function runs between Forbid and Permit. An
-- Obtain that has to wait is two steps: up to its Wait, and from where Wait returns. ss_NestCount and
-- ss_QueueCount are UINT32, 2 ^ 32 - 1 for -1.
pub mod Nesting
pub mod Handover
pub mod Waiting
mod Tests
use poweros_raspi.Base.{
  ℕ, ◌+◌, Bool, true, false, ◌||◌, Option, none, some, List, [], ◌∷◌, ◌++◌, ◌==◌, if◌then◌else◌,
  u32, sub32, mask_and, mask_not, mask_bit,
}
use poweros_raspi.ExecList.{Ptr, null, strcmp_eq}
use poweros_raspi.ExecList.Queue.{enqueue_by, remove_by, find_by}
use poweros_raspi.Tasks.{SysBase, Waited, put, wait_signals, or_null}

pub data SemType : Type 0 where
  untyped simple shared : SemType

-- struct SignalSemaphore. The wait queue holds the sr_Waiter of each SemaphoreRequest.
pub record SignalSemaphore : Type 0 where
  pub ss_owner : Ptr
  pub ss_nest_count : ℕ
  pub ss_queue_count : ℕ
  pub ss_type : SemType
  pub ss_wait_queue : List Ptr

-- lib_InitSemaphore, which leaves ss_Type.
unfoldable pub init_semaphore : SignalSemaphore → SignalSemaphore
init_semaphore s = record s {
  ss_wait_queue = [];
  ss_owner = null;
  ss_nest_count = 0;
  ss_queue_count = 4294967295;
}

-- What the caller of Obtain goes on with: the semaphore is its own, or it waits for SIGF_SEMAPHORE.
pub data Obtained : Type 0 where
  owns : SignalSemaphore → Obtained
  waits : SignalSemaphore → Obtained

abbrev nest : SignalSemaphore → SignalSemaphore
nest s = record s { ss_nest_count = u32 (s.ss_nest_count + 1) }

abbrev count_up : SignalSemaphore → SignalSemaphore
count_up s = record s { ss_queue_count = u32 (s.ss_queue_count + 1) }

abbrev count_down : SignalSemaphore → SignalSemaphore
count_down s = record s { ss_queue_count = sub32 s.ss_queue_count 1 }

abbrev queue : Ptr → SignalSemaphore → SignalSemaphore
queue me s = record s { ss_wait_queue = s.ss_wait_queue ++ me ∷ [] }

-- lib_ObtainSemaphore of the task `me`, up to its Wait.
unfoldable pub obtain : Ptr → SignalSemaphore → Obtained
obtain me s =
    let t = count_up s in
    if t.ss_queue_count == 0
    then owns (nest (record t { ss_owner = me; ss_type = simple }))
    else if t.ss_owner == me
    then owns (nest t)
    else waits (queue me t)

-- The Wait of lib_ObtainSemaphore and lib_ObtainSemaphoreShared for SIGF_SEMAPHORE, bit 4, which is
-- cleared before it.
unfoldable pub wait_turn : SysBase → Option Waited
wait_turn b =
    let t = b.task b.this_task in
    wait_signals (mask_bit 4)
      (put b.this_task (record t { sig_recvd = mask_and t.sig_recvd (mask_not (mask_bit 4)) }) b)

-- lib_ObtainSemaphore from where its Wait returns.
unfoldable pub obtain_woken : Ptr → SignalSemaphore → SignalSemaphore
obtain_woken me s = nest (record s { ss_owner = me; ss_type = simple })

-- lib_AttemptSemaphore
unfoldable pub attempt : Ptr → SignalSemaphore → Bool × SignalSemaphore
attempt me s =
    let t = count_up s in
    if t.ss_queue_count == 0
    then (true, nest (record t { ss_owner = me; ss_type = simple }))
    else if t.ss_owner == me
    then (true, nest t)
    else (false, count_down t)

-- The hand-over of lib_ReleaseSemaphore to the first waiter, who is signalled. The count is a UINT32, so
-- that `ss_QueueCount >= 0` holds always.
abbrev pub hand_over : List Ptr → SignalSemaphore → Option Ptr × SignalSemaphore
hand_over [] s =
    (none, record s { ss_owner = null; ss_queue_count = 4294967295; ss_type = untyped })
hand_over (w ∷ ws) s = (some w, nest (record s { ss_wait_queue = ws; ss_owner = w }))

-- lib_ReleaseSemaphore: the task that is signalled.
unfoldable pub release : SignalSemaphore → Option Ptr × SignalSemaphore
release s =
    let t = count_down (record s { ss_nest_count = sub32 s.ss_nest_count 1 }) in
    if t.ss_nest_count == 0 then hand_over t.ss_wait_queue t else (none, t)

-- lib_ObtainSemaphoreShared up to its Wait.
unfoldable pub obtain_shared : Ptr → SignalSemaphore → Obtained
obtain_shared me s =
    let t = count_up s in
    if t.ss_queue_count == 0
    then owns (nest (record t { ss_owner = null; ss_type = shared }))
    else if t.ss_owner == me || t.ss_owner == null
    then owns (nest t)
    else waits (queue me t)

-- lib_ObtainSemaphoreShared from where its Wait returns.
unfoldable pub obtain_shared_woken : SignalSemaphore → SignalSemaphore
obtain_shared_woken s = nest (record s { ss_owner = null; ss_type = shared })

-- lib_AttemptSemaphoreShared
unfoldable pub attempt_shared : Ptr → SignalSemaphore → Bool × SignalSemaphore
attempt_shared me s =
    let t = count_up s in
    if t.ss_queue_count == 0
    then (true, nest (record t { ss_owner = null; ss_type = shared }))
    else if t.ss_owner == me || t.ss_owner == null
    then (true, nest t)
    else (false, count_down t)

-- What SysBase holds of semaphores: the public ones, with their names and priorities.
pub record SemaphoreList : Type 0 where
  pub nodes : List Ptr
  pub semaphore : Ptr → SignalSemaphore
  pub ln_name : Ptr → List ℕ
  pub ln_pri : Ptr → ℕ

-- lib_AddSemaphore
unfoldable pub add_semaphore : List ℕ → Ptr → SemaphoreList → SemaphoreList
add_semaphore name p b = record b {
  nodes = enqueue_by b.ln_pri p b.nodes;
  semaphore = λ q. if q == p then init_semaphore (b.semaphore p) else b.semaphore q;
  ln_name = λ q. if q == p then name else b.ln_name q;
}

-- lib_RemSemaphore
unfoldable pub rem_semaphore : Ptr → SemaphoreList → SemaphoreList
rem_semaphore p b = record b { nodes = remove_by (λ q. q == p) b.nodes }

-- lib_FindSemaphore
unfoldable pub find_semaphore : List ℕ → SemaphoreList → Ptr
find_semaphore name b = or_null (find_by (λ p. strcmp_eq (b.ln_name p) name) b.nodes) null
