-- ===== src/Tasks/Switch.antt =====
-- What lib_Schedule and lib_Dispatch of src/kickstart/lib.exec/schedule.c do to the tasks.
use mathlib.Core.Path.{sym, ◌∙◌}
use poweros_raspi.Base.{
  ℕ, ◌<◌, ◌≡◌, ◌≢◌, refl, ap, u32, ◌+◌, true, false, inl, inr, some, List, [], ◌∷◌, ◌==◌, leb,
  arith, All, Off, Bool-cases, int8_gt, ◌||◌,
}
use poweros_raspi.ExecList.{Ptr, null}
use poweros_raspi.ExecList.Queue.{enqueue_by, IsByPri}
use poweros_raspi.Tasks.{
  State, ready, wait, run, removed, SysBase, put, pri_of, make_task_ready, make_task_run,
  make_task_destroy, leave, run_first, run_next, dispatch, is_empty, schedule, task_exit,
}
use poweros_raspi.Tasks.Consistent.{
  Lists, IsConsistent, HasState-Off, Lists-put, Lists-enqueue, Lists-pop, put-pri,
}

pub ready-ne-wait : ready ≢ wait
ready-ne-wait e = cc

pub run-ne-ready : run ≢ ready
run-ne-ready e = cc

pub run-ne-wait : run ≢ wait
run-ne-wait e = cc

-- No task of the list has a higher priority than `p`.
abbrev pub NoneAbove : (Ptr → ℕ) → Ptr → List Ptr → Type 0
NoneAbove pri p ps = All (λ q. int8_gt (pri q) (pri p) ≡ false) ps

NoneAbove-trans :
    (pri : Ptr → ℕ) (p q : Ptr) (ps : List Ptr)
    → int8_gt (pri q) (pri p) ≡ false
    → NoneAbove pri q ps
    → NoneAbove pri p ps
NoneAbove-trans pri p q [] l h = tt
NoneAbove-trans pri p q (x ∷ ps) l h = (ground (arith, h.0), NoneAbove-trans pri p q ps l h.1)

IsByPri-NoneAbove :
    (pri : Ptr → ℕ) (p : Ptr) (ps : List Ptr) → IsByPri pri (p ∷ ps) → NoneAbove pri p ps
IsByPri-NoneAbove pri p [] h = tt
IsByPri-NoneAbove pri p (q ∷ ps) h =
    (h.0, NoneAbove-trans pri p q ps h.0 (IsByPri-NoneAbove pri q ps h.1))

-- A task runs, all is consistent, and no ready task has a higher priority.
pub record Runs (p : Ptr) (r : SysBase) : Type 0 where
  pub consistent : IsConsistent r
  pub this : r.this_task ≡ p
  pub highest : NoneAbove (pri_of r) r.this_task r.task_ready

-- The lists after `p` was taken from TaskReady of `b`. No task waits for other signals than before.
pub record Taken (b : SysBase) (p : Ptr) (r : SysBase) : Type 0 where
  pub rest : p ∷ r.task_ready ≡ b.task_ready
  pub waiting : r.task_wait ≡ b.task_wait
  pub signals : (q : Ptr) → (r.task q).sig_wait ≡ (b.task q).sig_wait

make_task_run-sig_wait :
    (p q : Ptr) (b : SysBase) → ((make_task_run p b).task q).sig_wait ≡ (b.task q).sig_wait
unfolding make_task_run
make_task_run-sig_wait p q b = elim (Bool-cases (q == p)) [
  | inl y ↦ let same : q ≡ p = ground arith in rw y (ap (λ x. (b.task x).sig_wait) (sym same))
  | inr n ↦ rw n refl
]

NoneAbove-run :
    (b : SysBase) (p x : Ptr) (ps : List Ptr)
    → NoneAbove (pri_of b) x ps
    → NoneAbove (pri_of (make_task_run p b)) x ps
unfolding make_task_run
NoneAbove-run b p x [] h = tt
NoneAbove-run b p x (q ∷ ps) h = (ground (arith, h.0), NoneAbove-run b p x ps h.1)

run-IsConsistent :
    (b : SysBase) (p : Ptr)
    → Lists (put p (record (b.task p) { state = run }) b).task b.task_ready b.task_wait
    → p ≢ null
    → IsConsistent (record (make_task_run p b) { this_task = p })
unfolding make_task_run
run-IsConsistent b p l ne =
    let self : (p == p) ≡ true = ground arith in
    record { lists = l; current = ne; running = rw self refl }

pub run_first-Runs :
    (b : SysBase) (p : Ptr) (ps : List Ptr)
    → Lists b.task (p ∷ ps) b.task_wait
    → p ∷ ps ≡ b.task_ready
    → (r : SysBase) × (run_first (p ∷ ps) b ≡ some r) × Runs p r × Taken b p r
unfolding make_task_run
run_first-Runs b p ps l same =
    let b' = record b { task_ready = ps } in
    let off_wait =
      HasState-Off b.task wait ready p b.task_wait ready-ne-wait l.ready_states.0 l.wait_states in
    let kept =
      Lists-put b' p (record (b.task p) { state = run }) ps b.task_wait l.ready_distinct.0 off_wait
        refl (Lists-pop b.task p ps b.task_wait l) in
    let above = IsByPri-NoneAbove (pri_of b) p ps l.by_pri in
    (
      record (make_task_run p b') { this_task = p },
      refl,
      record {
        consistent = run-IsConsistent b' p kept (λ e. l.ready_nonnull.0 (sym e));
        this = refl;
        highest = NoneAbove-run b' p p ps above;
      },
      record { rest = same; waiting = refl; signals = λ q. make_task_run-sig_wait p q b' },
    )

-- The next task of a base whose lists are right.
pub run_next-Runs :
    (b : SysBase)
    → Lists b.task b.task_ready b.task_wait
    → is_empty b.task_ready ≡ false
    → (p : Ptr) × (r : SysBase) × (run_next (some b) ≡ some r) × Runs p r × Taken b p r
run_next-Runs b l e = by_ready b b.task_ready l e refl
  where
    by_ready :
        (b : SysBase) (ps : List Ptr)
        → Lists b.task ps b.task_wait
        → is_empty ps ≡ false
        → ps ≡ b.task_ready
        → (p : Ptr) × (r : SysBase) × (run_first ps b ≡ some r) × Runs p r × Taken b p r
    by_ready b [] l e same = absurd (ground arith)
    by_ready b (p ∷ ps) l e same =
        let (r, ran, ok, taken) = run_first-Runs b p ps l same in (p, r, ran, ok, taken)

enqueue_by-nonempty :
    (pri : Ptr → ℕ) (n : Ptr) (ps : List Ptr) → is_empty (enqueue_by pri n ps) ≡ false
enqueue_by-nonempty pri n [] = refl
enqueue_by-nonempty pri n (x ∷ ps) = ground arith

-- The task that leaves is READY, and in its place among the ready tasks.
make_task_ready-Lists :
    (b : SysBase) (p : Ptr)
    → p ≢ null
    → Off p b.task_ready
    → Off p b.task_wait
    → Lists b.task b.task_ready b.task_wait
    → Lists
        (make_task_ready p b).task
        (make_task_ready p b).task_ready
        (make_task_ready p b).task_wait
unfolding make_task_ready
make_task_ready-Lists b p ne r w l =
    let t = record (b.task p) {
      state = ready;
      cpu_usage = _;
      td_nest_cnt = b.td_nest_cnt;
      id_nest_cnt = b.id_nest_cnt;
    } in
    let self : (p == p) ≡ true = ground arith in
    Lists-enqueue (put p t b) p b.task_wait ne (rw self refl) r
      (Lists-put b p t b.task_ready b.task_wait r w refl l)

leave-run : (s : State) (p : Ptr) (b : SysBase) → s ≡ run → leave s p b ≡ some (make_task_ready p b)
unfolding leave
leave-run s p b e = rw e refl

leave-removed :
    (s : State) (p : Ptr) (b : SysBase) → s ≡ removed → leave s p b ≡ some (make_task_destroy p b)
unfolding leave
leave-removed s p b e = rw e refl

make_task_ready-nonempty :
    (b : SysBase) (p : Ptr) → is_empty (make_task_ready p b).task_ready ≡ false
unfolding make_task_ready
make_task_ready-nonempty b p = enqueue_by-nonempty _ p b.task_ready

-- The tasks before and after a switch: the one that ran goes to its place by its priority among the ready ones,
-- the first of them runs and is none of the others, and TaskWait is as it was.
pub record Switched (b : SysBase) (p : Ptr) (r : SysBase) : Type 0 where
  pub turn : p ∷ r.task_ready ≡ enqueue_by (pri_of b) b.this_task b.task_ready
  pub waiting : r.task_wait ≡ b.task_wait

make_task_ready-list :
    (b : SysBase) (p : Ptr)
    → (make_task_ready p b).task_ready ≡ enqueue_by (pri_of b) p b.task_ready
unfolding make_task_ready
make_task_ready-list b p =
    let t = record (b.task p) {
      state = ready;
      cpu_usage = u32 ((b.task p).cpu_usage + 1);
      td_nest_cnt = b.td_nest_cnt;
      id_nest_cnt = b.id_nest_cnt;
    } in
    ap (λ f. enqueue_by f p b.task_ready) (sym (put-pri b p t refl))

make_task_ready-wait : (b : SysBase) (p : Ptr) → (make_task_ready p b).task_wait ≡ b.task_wait
unfolding make_task_ready
make_task_ready-wait b p = refl

-- lib_Dispatch from a running task.
pub dispatch-Runs :
    (b : SysBase)
    → IsConsistent b
    → (p : Ptr) × (r : SysBase) × (dispatch b ≡ some r) × Runs p r × Switched b p r
unfolding dispatch
dispatch-Runs b c =
    let p = b.this_task in
    let l = c.lists in
    let set : (p == null) ≡ false = ground (arith, c.current) in
    let off_ready =
      HasState-Off b.task ready run p b.task_ready run-ne-ready c.running l.ready_states in
    let off_wait = HasState-Off b.task wait run p b.task_wait run-ne-wait c.running l.wait_states in
    let (q, r, ran, runs, taken) =
      run_next-Runs (make_task_ready p b) (make_task_ready-Lists b p c.current off_ready off_wait l)
        (make_task_ready-nonempty b p) in
    let switched : Switched b q r = record {
      turn = taken.rest ∙ make_task_ready-list b p;
      waiting = taken.waiting ∙ make_task_ready-wait b p;
    } in
    rw (set, leave-run _ p b c.running) (q, r, ran, runs, switched)

-- With scheduling permitted and a ready task, lib_Schedule puts the running task to its place by its priority
-- among the ready tasks, and lets the first of these run, than which no ready task has a higher priority: all
-- the others stay in TaskReady in their order, and TaskWait is as it was. The tasks are consistent before and
-- after it.
pub schedule-Runs :
    (b : SysBase)
    → IsConsistent b
    → 127 < b.td_nest_cnt
    → is_empty b.task_ready ≡ false
    → (p : Ptr) × (r : SysBase) × (schedule b ≡ some r) × Runs p r × Switched b p r
unfolding schedule
schedule-Runs b c permitted some_ready =
    let td : leb b.td_nest_cnt 127 ≡ false = ground arith in rw (td, some_ready) (dispatch-Runs b c)

-- lib_Schedule returns with consistent lists from every consistent base: it never halts.
pub schedule-IsConsistent :
    (b : SysBase) → IsConsistent b → (r : SysBase) × (schedule b ≡ some r) × IsConsistent r
unfolding schedule
schedule-IsConsistent b c = elim (Bool-cases (leb b.td_nest_cnt 127 || is_empty b.task_ready)) [
  | inl stay ↦ rw stay (b, refl, c)
  | inr go ↦ let (p, r, ran, runs, switched) = dispatch-Runs b c in rw go (r, ran, runs.consistent)
]

run_first-freed : (ps : List Ptr) (b r : SysBase) → run_first ps b ≡ some r → r.freed ≡ b.freed
unfolding make_task_run
run_first-freed [] b r e = absurd cc
run_first-freed (p ∷ ps) b r e = ground arith

-- The end of a task: it is given back, is in no list, and another task runs.
pub task_exit-Runs :
    (b : SysBase)
    → IsConsistent b
    → 127 < b.td_nest_cnt
    → is_empty b.task_ready ≡ false
    → (p : Ptr) × (r : SysBase) × (task_exit b ≡ some r)
      × Runs p r
      × (r.freed ≡ b.this_task ∷ b.freed)
unfolding task_exit schedule dispatch make_task_destroy
task_exit-Runs b c permitted some_ready =
    let p = b.this_task in
    let l = c.lists in
    let t = record (b.task p) { state = removed } in
    let td : leb b.td_nest_cnt 127 ≡ false = ground arith in
    let set : (p == null) ≡ false = ground (arith, c.current) in
    let off_ready =
      HasState-Off b.task ready run p b.task_ready run-ne-ready c.running l.ready_states in
    let off_wait = HasState-Off b.task wait run p b.task_wait run-ne-wait c.running l.wait_states in
    let kept = Lists-put b p t b.task_ready b.task_wait off_ready off_wait refl l in
    let b' = make_task_destroy p (put p t b) in
    let gone = leave-removed ((put p t b).task p).state p (put p t b) (ground arith) in
    rw (td, some_ready, set, gone)
      (let (q, r, ran, runs, taken) = run_next-Runs b' kept some_ready in
        (q, r, ran, runs, run_first-freed b'.task_ready b' r ran))
