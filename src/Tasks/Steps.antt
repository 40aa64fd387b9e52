-- ===== src/Tasks/Steps.antt =====
-- The operations on tasks of src/kickstart/lib.exec, one after the other, as the interrupts and the running
-- tasks call them.
use mathlib.Core.Path.{subst, sym, ◌∙◌}
use mathlib.Core.Option
use poweros_raspi.Base.{
  ℕ, ◌<◌, ◌≡◌, ◌≢◌, refl, ap, Bool, true, false, inl, inr, Option, none, some, List, ◌∷◌, ◌==◌,
  arith, leb, if◌then◌else◌, Off, Bool-cases, Mask, mask_and, non_zero,
}
use poweros_raspi.ExecList.{Ptr, null}
use poweros_raspi.Tasks.{
  State, ready, wait, run, Task, SysBase, put, is_wait, is_empty, unlink_wait, forbid, permit,
  schedule, dispatch, task_exit, wait_signals, wait_task, Waited, returned, sleeps, comes_back,
  slept, stays, wakeup_task, make_ready_again, add_task, unknown_task, alloc_signal, take_signal,
  free_signal,
}
use poweros_raspi.Tasks.Consistent.{
  IsConsistent, HasState-Off, Lists-put, Lists-touch, Lists-enqueue, Lists-sleep, Lists-unlink,
  Off-remove_self,
}
use poweros_raspi.Tasks.Signals.{slept-ne-returned}
use poweros_raspi.Tasks.Switch.{
  Runs, run_next-Runs, schedule-IsConsistent, task_exit-Runs, ready-ne-wait, run-ne-ready,
  run-ne-wait,
}

-- A store into a task of a consistent base that keeps its state and priority.
pub touch-IsConsistent :
    (b : SysBase) (p : Ptr) (t : Task)
    → t.state ≡ (b.task p).state
    → t.ln_pri ≡ (b.task p).ln_pri
    → IsConsistent b
    → IsConsistent (put p t b)
touch-IsConsistent b p t s e c = record {
  lists = Lists-touch b p t b.task_ready b.task_wait s e c.lists;
  current = c.current;
  running = elim (Bool-cases (b.this_task == p)) [
    | inl y ↦
        let same : b.this_task ≡ p = ground arith in
        rw y (s ∙ ap (λ x. (b.task x).state) (sym same) ∙ c.running)
    | inr n ↦ rw n c.running
  ];
}

other_task :
    (b : SysBase) (p : Ptr)
    → (b.task b.this_task).state ≡ run
    → (b.task p).state ≡ wait
    → (b.this_task == p) ≡ false
other_task b p r w = elim (Bool-cases (b.this_task == p)) [
  | inl y ↦
      let same : b.this_task ≡ p = ground arith in
      absurd (run-ne-wait (sym r ∙ ap (λ x. (b.task x).state) same ∙ w))
  | inr n ↦ n
]

is_wait-eq : (s : State) → is_wait s ≡ true → s ≡ wait
is_wait-eq s e = ground arith

-- WakeupTask puts a waiting task among the ready ones.
make_ready_again-IsConsistent :
    (b : SysBase) (p : Ptr)
    → p ≢ null
    → (b.task p).state ≡ wait
    → IsConsistent b
    → IsConsistent (make_ready_again p b)
make_ready_again-IsConsistent b p ne waits c =
    let l = c.lists in
    let u = unlink_wait p b in
    let t = record (b.task p) { state = ready } in
    let off_ready =
      HasState-Off b.task ready wait p b.task_ready (λ e. ready-ne-wait (sym e)) waits
        l.ready_states in
    let off_wait = Off-remove_self p b.task_wait l.wait_distinct in
    let off =
      Lists-put u p t b.task_ready u.task_wait off_ready off_wait refl
        (Lists-unlink b.task p b.task_ready b.task_wait l) in
    let self : (p == p) ≡ true = ground arith in
    let other : (b.this_task == p) ≡ false = other_task b p c.running waits in
    record {
      lists = Lists-enqueue (put p t u) p u.task_wait ne (rw self refl) off_ready off;
      current = c.current;
      running = rw other c.running;
    }

-- Signal keeps the lists consistent.
pub wakeup_task-IsConsistent :
    (b : SysBase) (p : Ptr) (s : Mask)
    → p ≢ null
    → IsConsistent b
    → IsConsistent (wakeup_task p s b)
unfolding wakeup_task
wakeup_task-IsConsistent b p s ne c = elim (Bool-cases (is_wait (b.task p).state)) [
  | inl y ↦ rw y (
      touch-IsConsistent (make_ready_again p b) p _ refl refl
        (make_ready_again-IsConsistent b p ne (is_wait-eq (b.task p).state y) c))
  | inr n ↦ rw n (touch-IsConsistent b p _ refl refl c)
]

-- The lists after the running task went to sleep and `q` runs.
pub record Asleep (b : SysBase) (q : Ptr) (r : SysBase) : Type 0 where
  pub rest : q ∷ r.task_ready ≡ b.task_ready
  pub waiting : r.task_wait ≡ b.this_task ∷ b.task_wait
  pub signals : (r.task b.this_task).sig_wait ≡ (b.task b.this_task).sig_wait

-- Wait that goes to sleep, with scheduling permitted and a task that is ready.
pub wait_task-Runs :
    (b : SysBase)
    → IsConsistent b
    → 127 < b.td_nest_cnt
    → is_empty b.task_ready ≡ false
    → (q : Ptr) × (r : SysBase) × (wait_task b.this_task b ≡ some r) × Runs q r × Asleep b q r
unfolding wait_task schedule dispatch
wait_task-Runs b c permitted some_ready =
    let p = b.this_task in
    let l = c.lists in
    let t = record (b.task p) {
      td_nest_cnt = b.td_nest_cnt;
      id_nest_cnt = b.id_nest_cnt;
      state = wait;
    } in
    let td : leb b.td_nest_cnt 127 ≡ false = ground arith in
    let self : (p == p) ≡ true = ground arith in
    let off_ready =
      HasState-Off b.task ready run p b.task_ready run-ne-ready c.running l.ready_states in
    let off_wait = HasState-Off b.task wait run p b.task_wait run-ne-wait c.running l.wait_states in
    let asleep =
      Lists-sleep (put p t b).task p b.task_ready b.task_wait c.current (rw self refl) off_wait
        (Lists-put b p t b.task_ready b.task_wait off_ready off_wait refl l) in
    let (q, r, ran, runs, taken) =
      run_next-Runs (record (put p t b) { task_wait = p ∷ b.task_wait; this_task = null }) asleep
        some_ready in
    let left : Asleep b q r = record {
      rest = taken.rest;
      waiting = taken.waiting;
      signals = taken.signals p ∙ rw self refl;
    } in
    rw (td, some_ready) (q, r, ran, runs, left)

-- AddTask of a task that is in no list and does not run.
pub add_task-IsConsistent :
    (b : SysBase) (p : Ptr) (name : Option (List ℕ))
    → p ≢ b.this_task
    → Off p b.task_ready
    → Off p b.task_wait
    → IsConsistent b
    → IsConsistent (add_task p name b)
unfolding add_task
add_task-IsConsistent b p name ne off_ready off_wait c = elim (Bool-cases (p == null)) [
  | inl y ↦ rw y c
  | inr n ↦
      let t = record (b.task p) {
        ln_name = Option.get_or name unknown_task;
        state = ready;
        cpu_usage = 0;
        td_nest_cnt = 255;
        id_nest_cnt = 255;
      } in
      let self : (p == p) ≡ true = ground arith in
      let other : (b.this_task == p) ≡ false = ground arith in
      let kept = Lists-put b p t b.task_ready b.task_wait off_ready off_wait refl c.lists in
      rw n (record {
        lists =
            Lists-enqueue (put p t b) p b.task_wait (ground arith) (rw self refl) off_ready kept;
        current = c.current;
        running = rw other c.running;
      })
]

-- A step of the system: an interrupt calls Schedule or signals a task, or the running task calls exec. A Wait
-- returns or sleeps; a Wait that comes back from Schedule is no step. A task ends only with scheduling permitted
-- and another task ready, as the idle task is. SetTaskPri, which writes the task NULL, is no step.
pub data Step (b : SysBase) (c : SysBase) : Type 0 where
  tick : schedule b ≡ some c → Step b c
  forbids : c ≡ forbid b → Step b c
  permits : c ≡ permit b → Step b c
  signals : (p : Ptr) (s : Mask) → p ≢ null → c ≡ wakeup_task p s b → Step b c
  takes : (set rcvd : Mask) → wait_signals set b ≡ some (returned rcvd c) → Step b c
  waits : (set : Mask) → wait_signals set b ≡ some (sleeps c) → Step b c
  allocs : (n : ℕ) → c ≡ (alloc_signal n b).1 → Step b c
  frees : (n : ℕ) → c ≡ free_signal n b → Step b c
  adds :
      (p : Ptr) (name : Option (List ℕ))
      → p ≢ b.this_task
      → Off p b.task_ready
      → Off p b.task_wait
      → c ≡ add_task p name b
      → Step b c
  exits : 127 < b.td_nest_cnt → is_empty b.task_ready ≡ false → task_exit b ≡ some c → Step b c

pub data Reach (a : SysBase) : SysBase → Type 0 where
  here : Reach a a
  next : {b c : SysBase} → Reach a b → Step b c → Reach a c

forbid-IsConsistent : (b : SysBase) → IsConsistent b → IsConsistent (forbid b)
unfolding forbid
forbid-IsConsistent b c = record { lists = c.lists; current = c.current; running = c.running }

permit-IsConsistent : (b : SysBase) → IsConsistent b → IsConsistent (permit b)
unfolding permit
permit-IsConsistent b c = record { lists = c.lists; current = c.current; running = c.running }

some-eq : {b c : SysBase} → some b ≡ some c → b ≡ c
some-eq {b} e = ap (λ o. Option.get_or o b) e

sleeper : SysBase → Option Waited → SysBase
sleeper b (some (sleeps c)) = c
sleeper b (some (returned m c)) = c
sleeper b (some (comes_back c)) = c
sleeper b none = b

after :
    (b : SysBase) (o : Option Waited) (w : Waited) → o ≡ some w → sleeper b o ≡ sleeper b (some w)
after b o w e = ap (sleeper b) e

take_signal-IsConsistent :
    (o : Option ℕ) (b : SysBase) → IsConsistent b → IsConsistent (take_signal o b).1
take_signal-IsConsistent none b c = c
take_signal-IsConsistent (some n) b c = touch-IsConsistent b b.this_task _ refl refl c

alloc_signal-IsConsistent :
    (n : ℕ) (b : SysBase) → IsConsistent b → IsConsistent (alloc_signal n b).1
unfolding alloc_signal
alloc_signal-IsConsistent n b c = take_signal-IsConsistent _ b c

free_signal-IsConsistent : (n : ℕ) (b : SysBase) → IsConsistent b → IsConsistent (free_signal n b)
unfolding free_signal
free_signal-IsConsistent n b c = elim (Bool-cases (n == 4294967295)) [
  | inl y ↦ rw y c
  | inr q ↦ rw q (touch-IsConsistent b b.this_task _ refl refl c)
]

takes-IsConsistent :
    (set rcvd : Mask) (b c : SysBase)
    → IsConsistent b
    → wait_signals set b ≡ some (returned rcvd c)
    → IsConsistent c
unfolding wait_signals sleeper
takes-IsConsistent set rcvd b c ok e =
    let p = b.this_task in
    elim (Bool-cases (non_zero (mask_and (b.task p).sig_recvd set))) [
      | inl y ↦
          subst IsConsistent (after b _ (returned rcvd c) (rw y at e))
            (touch-IsConsistent b p _ refl refl ok)
      | inr n ↦ absurd (slept-ne-returned b _ rcvd c (rw n at e))
    ]

-- A Wait that sleeps was permitted to, and a task was ready.
if-sleeps :
    (stay : Bool) (r c : SysBase)
    → some (if stay then comes_back r else sleeps r) ≡ some (sleeps c)
    → (stay ≡ false) × (r ≡ c)
unfolding sleeper
if-sleeps true r c e = absurd cc
if-sleeps false r c e = (refl, ap (sleeper r) e)

slept-sleeps :
    (b : SysBase) (o : Option SysBase) (c : SysBase)
    → Option.map (slept b) o ≡ some (sleeps c)
    → (stays b ≡ false) × (o ≡ some c)
slept-sleeps b none c e = absurd cc
slept-sleeps b (some r) c e =
    let (go, same) = if-sleeps (stays b) r c e in (go, ap (λ x. some x) same)

returned-ne-sleeps : (m : Mask) (b c : SysBase) → some (returned m b) ≢ some (sleeps c)
returned-ne-sleeps m b c e = cc

waits-IsConsistent :
    (set : Mask) (b c : SysBase)
    → IsConsistent b
    → wait_signals set b ≡ some (sleeps c)
    → IsConsistent c
unfolding wait_signals
waits-IsConsistent set b c ok e =
    let p = b.this_task in
    let b' = put p (record (b.task p) { sig_wait = set }) b in
    elim (Bool-cases (non_zero (mask_and (b.task p).sig_recvd set))) [
      | inl y ↦ absurd (returned-ne-sleeps _ _ c (rw y at e))
      | inr n ↦
          let touched =
            touch-IsConsistent b p (record (b.task p) { sig_wait = set }) refl refl ok in
          let (go, slept_so) = slept-sleeps b _ c (rw n at e) in
          let (q, r, ran, runs, left) =
            wait_task-Runs b' touched (ground (arith, go)) (ground (arith, go)) in
          subst IsConsistent (some-eq (sym ran ∙ slept_so)) runs.consistent
    ]

-- Every step keeps the running task and the lists of ready and waiting tasks consistent.
pub Step-IsConsistent : {b c : SysBase} → Step b c → IsConsistent b → IsConsistent c
Step-IsConsistent {b} {c} (tick e) ok =
    let (r, ran, rc) = schedule-IsConsistent b ok in subst IsConsistent (some-eq (sym ran ∙ e)) rc
Step-IsConsistent {b} (forbids e) ok = subst IsConsistent (sym e) (forbid-IsConsistent b ok)
Step-IsConsistent {b} (permits e) ok = subst IsConsistent (sym e) (permit-IsConsistent b ok)
Step-IsConsistent {b} (signals p s ne e) ok =
    subst IsConsistent (sym e) (wakeup_task-IsConsistent b p s ne ok)
Step-IsConsistent {b} {c} (takes set rcvd e) ok = takes-IsConsistent set rcvd b c ok e
Step-IsConsistent {b} {c} (waits set e) ok = waits-IsConsistent set b c ok e
Step-IsConsistent {b} (allocs n e) ok =
    subst IsConsistent (sym e) (alloc_signal-IsConsistent n b ok)
Step-IsConsistent {b} (frees n e) ok = subst IsConsistent (sym e) (free_signal-IsConsistent n b ok)
Step-IsConsistent {b} (adds p name ne r w e) ok =
    subst IsConsistent (sym e) (add_task-IsConsistent b p name ne r w ok)
Step-IsConsistent {b} {c} (exits td some_ready e) ok =
    let (q, r, ran, runs, freed) = task_exit-Runs b ok td some_ready in
    subst IsConsistent (some-eq (sym ran ∙ e)) runs.consistent

-- In every state that is reached from a consistent one, one task runs, every ready task has the state READY
-- and stands in TaskReady by its priority, every waiting one has WAIT, and no task stands in two places. It is
-- reached by Schedule, Forbid, Permit, Signal of a task that is not NULL, AllocSignal, FreeSignal, AddTask of
-- a task in no list, by a Wait that returns or sleeps, not one that Schedule comes back to, and by the end of
-- a task with scheduling permitted and another ready, but not by SetTaskPri.
pub Reach-IsConsistent : {a b : SysBase} → IsConsistent a → Reach a b → IsConsistent b
Reach-IsConsistent ok here = ok
Reach-IsConsistent ok (next r s) = Step-IsConsistent s (Reach-IsConsistent ok r)
