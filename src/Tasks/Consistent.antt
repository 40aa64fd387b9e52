-- ===== src/Tasks/Consistent.antt =====
-- What holds of the lists TaskReady and TaskWait of src/kickstart/lib.exec between two operations, and
-- how the stores and list operations on them keep it.
use mathlib.Core.Path.{subst, fun_ext, sym, ◌∙◌}
use poweros_raspi.Base.{
  ℕ, ◌≡◌, ◌≢◌, ap, false, inl, inr, List, [], ◌∷◌, ◌==◌, arith, All, Off, Distinct, Bool-cases,
  int8_gt,
}
use poweros_raspi.ExecList.{Ptr, null}
use poweros_raspi.ExecList.Queue.{enqueue_by, remove_by, IsByPri}
use poweros_raspi.ExecList.Walk.{enqueue_by-IsByPri}
use poweros_raspi.Tasks.{State, ready, wait, run, Task, SysBase, put, pri_of, enqueue_ready}

-- The state of every task of the list.
abbrev pub HasState : (Ptr → Task) → State → List Ptr → Type 0
HasState task s ps = All (λ p. (task p).state ≡ s) ps

-- The ready tasks stand by their priorities, and no task stands twice in a list, nor in the wrong one.
pub record Lists (task : Ptr → Task) (readies waiting : List Ptr) : Type 0 where
  pub ready_states : HasState task ready readies
  pub wait_states : HasState task wait waiting
  pub by_pri : IsByPri (λ p. (task p).ln_pri) readies
  pub ready_distinct : Distinct readies
  pub wait_distinct : Distinct waiting
  pub ready_nonnull : Off null readies
  pub wait_nonnull : Off null waiting

-- The lists are right, and the running task has the state that says so.
pub record IsConsistent (b : SysBase) : Type 0 where
  pub lists : Lists b.task b.task_ready b.task_wait
  pub current : b.this_task ≢ null
  pub running : (b.task b.this_task).state ≡ run

pub HasState-Off :
    (task : Ptr → Task) (s s' : State) (p : Ptr) (ps : List Ptr)
    → s' ≢ s
    → (task p).state ≡ s'
    → HasState task s ps
    → Off p ps
HasState-Off task s s' p [] d e h = tt
HasState-Off task s s' p (q ∷ ps) d e h =
    (λ same. d (sym e ∙ ap (λ x. (task x).state) same ∙ h.0), HasState-Off task s s' p ps d e h.1)

HasState-put :
    (b : SysBase) (p : Ptr) (t : Task) (s : State) (ps : List Ptr)
    → Off p ps
    → HasState b.task s ps
    → HasState (put p t b).task s ps
HasState-put b p t s [] o h = tt
HasState-put b p t s (q ∷ ps) o h =
    let other : (q == p) ≡ false = ground (arith, o.0) in
    (rw other h.0, HasState-put b p t s ps o.1 h.1)

put-pri_at :
    (b : SysBase) (p q : Ptr) (t : Task)
    → t.ln_pri ≡ (b.task p).ln_pri
    → ((put p t b).task q).ln_pri ≡ (b.task q).ln_pri
put-pri_at b p q t e = elim (Bool-cases (q == p)) [
  | inl y ↦ let same : q ≡ p = ground arith in rw y (rw same e)
  | inr n ↦ rw n
]

pub put-pri :
    (b : SysBase) (p : Ptr) (t : Task)
    → t.ln_pri ≡ (b.task p).ln_pri
    → pri_of b ≡ pri_of (put p t b)
put-pri b p t e = fun_ext (λ q. sym (put-pri_at b p q t e))

-- A store into a task that is in no list, and keeps its priority.
pub Lists-put :
    (b : SysBase) (p : Ptr) (t : Task) (rs ws : List Ptr)
    → Off p rs
    → Off p ws
    → t.ln_pri ≡ (b.task p).ln_pri
    → Lists b.task rs ws
    → Lists (put p t b).task rs ws
Lists-put b p t rs ws r w e l = record {
  ready_states = HasState-put b p t ready rs r l.ready_states;
  wait_states = HasState-put b p t wait ws w l.wait_states;
  by_pri = subst (λ f. IsByPri f rs) (put-pri b p t e) l.by_pri;
  ready_distinct = l.ready_distinct;
  wait_distinct = l.wait_distinct;
  ready_nonnull = l.ready_nonnull;
  wait_nonnull = l.wait_nonnull;
}

HasState-touch :
    (b : SysBase) (p : Ptr) (t : Task) (s : State) (ps : List Ptr)
    → t.state ≡ (b.task p).state
    → HasState b.task s ps
    → HasState (put p t b).task s ps
HasState-touch b p t s [] e h = tt
HasState-touch b p t s (q ∷ ps) e h = elim (Bool-cases (q == p)) [
  | inl y ↦
      let same : q ≡ p = ground arith in
      rw y (e ∙ ap (λ x. (b.task x).state) (sym same) ∙ h.0, HasState-touch b p t s ps e h.1)
  | inr n ↦ rw n (h.0, HasState-touch b p t s ps e h.1)
]

-- A store that keeps the state and the priority of the task.
pub Lists-touch :
    (b : SysBase) (p : Ptr) (t : Task) (rs ws : List Ptr)
    → t.state ≡ (b.task p).state
    → t.ln_pri ≡ (b.task p).ln_pri
    → Lists b.task rs ws
    → Lists (put p t b).task rs ws
Lists-touch b p t rs ws s e l = record {
  ready_states = HasState-touch b p t ready rs s l.ready_states;
  wait_states = HasState-touch b p t wait ws s l.wait_states;
  by_pri = subst (λ f. IsByPri f rs) (put-pri b p t e) l.by_pri;
  ready_distinct = l.ready_distinct;
  wait_distinct = l.wait_distinct;
  ready_nonnull = l.ready_nonnull;
  wait_nonnull = l.wait_nonnull;
}

module _ (pri : Ptr → ℕ) (n : Ptr) where
  All-enqueue_by : (P : Ptr → Type 0) (ps : List Ptr) → P n → All P ps → All P (enqueue_by pri n ps)
  All-enqueue_by P [] p h = (p, tt)
  All-enqueue_by P (x ∷ ps) p h = elim (Bool-cases (int8_gt (pri n) (pri x))) [
    | inl e ↦ rw e (p, h)
    | inr e ↦ rw e (h.0, All-enqueue_by P ps p h.1)
  ]

  pub Off-enqueue_by : (a : Ptr) (ps : List Ptr) → a ≢ n → Off a ps → Off a (enqueue_by pri n ps)
  Off-enqueue_by a [] d o = (d, tt)
  Off-enqueue_by a (x ∷ ps) d o = elim (Bool-cases (int8_gt (pri n) (pri x))) [
    | inl e ↦ rw e (d, o)
    | inr e ↦ rw e (o.0, Off-enqueue_by a ps d o.1)
  ]

  Distinct-enqueue_by : (ps : List Ptr) → Off n ps → Distinct ps → Distinct (enqueue_by pri n ps)
  Distinct-enqueue_by [] o d = (tt, tt)
  Distinct-enqueue_by (x ∷ ps) o d = elim (Bool-cases (int8_gt (pri n) (pri x))) [
    | inl e ↦ rw e (o, d)
    | inr e ↦
        rw e (Off-enqueue_by x ps (λ same. o.0 (sym same)) d.0, Distinct-enqueue_by ps o.1 d.1)
  ]

-- A ready task that is in no list is enqueued.
pub Lists-enqueue :
    (b : SysBase) (p : Ptr) (ws : List Ptr)
    → p ≢ null
    → (b.task p).state ≡ ready
    → Off p b.task_ready
    → Lists b.task b.task_ready ws
    → Lists b.task (enqueue_ready p b).task_ready ws
Lists-enqueue b p ws ne e o l = record {
  ready_states = All-enqueue_by (pri_of b) p _ b.task_ready e l.ready_states;
  wait_states = l.wait_states;
  by_pri = enqueue_by-IsByPri (pri_of b) p b.task_ready l.by_pri;
  ready_distinct = Distinct-enqueue_by (pri_of b) p b.task_ready o l.ready_distinct;
  wait_distinct = l.wait_distinct;
  ready_nonnull =
      Off-enqueue_by (pri_of b) p null b.task_ready (λ same. ne (sym same)) l.ready_nonnull;
  wait_nonnull = l.wait_nonnull;
}

-- A waiting task that is in no list goes to the front of TaskWait.
pub Lists-sleep :
    (task : Ptr → Task) (p : Ptr) (rs ws : List Ptr)
    → p ≢ null
    → (task p).state ≡ wait
    → Off p ws
    → Lists task rs ws
    → Lists task rs (p ∷ ws)
Lists-sleep task p rs ws ne e o l = record {
  ready_states = l.ready_states;
  wait_states = (e, l.wait_states);
  by_pri = l.by_pri;
  ready_distinct = l.ready_distinct;
  wait_distinct = (o, l.wait_distinct);
  ready_nonnull = l.ready_nonnull;
  wait_nonnull = (λ same. ne (sym same), l.wait_nonnull);
}

IsByPri-tail : (pri : Ptr → ℕ) (p : Ptr) (ps : List Ptr) → IsByPri pri (p ∷ ps) → IsByPri pri ps
IsByPri-tail pri p [] h = tt
IsByPri-tail pri p (q ∷ ps) h = h.1

-- The first ready task is taken off.
pub Lists-pop :
    (task : Ptr → Task) (p : Ptr) (rs ws : List Ptr) → Lists task (p ∷ rs) ws → Lists task rs ws
Lists-pop task p rs ws l = record {
  ready_states = l.ready_states.1;
  wait_states = l.wait_states;
  by_pri = IsByPri-tail (λ q. (task q).ln_pri) p rs l.by_pri;
  ready_distinct = l.ready_distinct.1;
  wait_distinct = l.wait_distinct;
  ready_nonnull = l.ready_nonnull.1;
  wait_nonnull = l.wait_nonnull;
}

module _ (p : Ptr) where
  All-remove : (P : Ptr → Type 0) (ps : List Ptr) → All P ps → All P (remove_by (λ q. q == p) ps)
  All-remove P [] h = tt
  All-remove P (x ∷ ps) h = elim (Bool-cases (x == p)) [
    | inl e ↦ rw e h.1
    | inr e ↦ rw e (h.0, All-remove P ps h.1)
  ]

  Off-remove : (a : Ptr) (ps : List Ptr) → Off a ps → Off a (remove_by (λ q. q == p) ps)
  Off-remove a [] o = tt
  Off-remove a (x ∷ ps) o = elim (Bool-cases (x == p)) [
    | inl e ↦ rw e o.1
    | inr e ↦ rw e (o.0, Off-remove a ps o.1)
  ]

  pub Off-remove_self : (ps : List Ptr) → Distinct ps → Off p (remove_by (λ q. q == p) ps)
  Off-remove_self [] d = tt
  Off-remove_self (x ∷ ps) d = elim (Bool-cases (x == p)) [
    | inl e ↦ let same : x ≡ p = ground arith in rw e (subst (λ a. Off a ps) same d.0)
    | inr e ↦ rw e ((λ same. absurd (ground arith)), Off-remove_self ps d.1)
  ]

  Distinct-remove : (ps : List Ptr) → Distinct ps → Distinct (remove_by (λ q. q == p) ps)
  Distinct-remove [] d = tt
  Distinct-remove (x ∷ ps) d = elim (Bool-cases (x == p)) [
    | inl e ↦ rw e d.1
    | inr e ↦ rw e (Off-remove x ps d.0, Distinct-remove ps d.1)
  ]

-- A task is taken off TaskWait.
pub Lists-unlink :
    (task : Ptr → Task) (p : Ptr) (rs ws : List Ptr)
    → Lists task rs ws
    → Lists task rs (remove_by (λ q. q == p) ws)
Lists-unlink task p rs ws l = record {
  ready_states = l.ready_states;
  wait_states = All-remove p _ ws l.wait_states;
  by_pri = l.by_pri;
  ready_distinct = l.ready_distinct;
  wait_distinct = Distinct-remove p ws l.wait_distinct;
  ready_nonnull = l.ready_nonnull;
  wait_nonnull = Off-remove p null ws l.wait_nonnull;
}
