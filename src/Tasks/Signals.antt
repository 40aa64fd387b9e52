-- ===== src/Tasks/Signals.antt =====
-- The signals of src/kickstart/lib.exec/messages.c and tasks.c: what Signal sends is what Wait returns, and
-- AllocSignal and FreeSignal keep the bits of a task.
use mathlib.Core.Path.{subst, sym, ◌∙◌}
use mathlib.Core.Option
use poweros_raspi.Base.{
  ℕ, zero, suc, ◌≤◌, ◌<◌, ◌≡◌, ◌≢◌, refl, ap, Bool, true, false, not, ◌&&◌, ◌||◌, inl, inr, Option,
  none, some, ◌∷◌, ◌==◌, leb, if◌then◌else◌, arith, Bool-cases, Option-cases, Mask, mask_none,
  mask_and, mask_not, mask_bit, non_zero, non_zero-intro, non_zero-elim,
}
use poweros_raspi.ExecList.{Ptr, null}
use poweros_raspi.Tasks.{
  Task, wait, SysBase, put, is_wait, wait_signals, Waited, returned, sleeps, comes_back, slept,
  stays, wakeup_task, make_ready_again, alloc_signal, free_signal, free_below, wait_task, schedule,
  forbid,
}

or_false : (a : Bool) → a ≡ (a || false)
or_false true = refl
or_false false = refl

woken-recvd :
    (w : Bool) (p q : Ptr) (b : SysBase)
    → ((if w then make_ready_again p b else b).task q).sig_recvd ≡ (b.task q).sig_recvd
woken-recvd false p q b = refl
woken-recvd true p q b = elim (Bool-cases (q == p)) [
  | inl y ↦ let same : q ≡ p = ground arith in rw y (rw same refl)
  | inr n ↦ rw n refl
]

-- The signals of the task that is signalled: those it had and those sent, and no other task's change.
pub wakeup_task-recvd :
    (p q : Ptr) (s : Mask) (b : SysBase) (i : ℕ)
    → ((wakeup_task p s b).task q).sig_recvd i ≡ (b.task q).sig_recvd i || (q == p && s i)
unfolding wakeup_task
wakeup_task-recvd p q s b i =
    let w = is_wait (b.task p).state in
    elim (Bool-cases (q == p)) [
      | inl y ↦ let same : q ≡ p = ground arith in rw (y, same, woken-recvd w p p b) refl
      | inr n ↦ rw (n, woken-recvd w p q b) (or_false _)
    ]

-- Wait returns at once if one of the signals is there: it returns exactly those of the set that are, and
-- clears them.
pub wait_signals-returns :
    (set : Mask) (b : SysBase) (i : ℕ)
    → i < 32
    → (b.task b.this_task).sig_recvd i ≡ true
    → set i ≡ true
    → (rcvd : Mask) × (c : SysBase) × (wait_signals set b ≡ some (returned rcvd c))
      × (rcvd i ≡ true)
      × ((c.task b.this_task).sig_recvd i ≡ false)
unfolding wait_signals
wait_signals-returns set b i lt has wanted =
    let t = b.task b.this_task in
    let both : mask_and t.sig_recvd set i ≡ true = rw (has, wanted) refl in
    let nz = non_zero-intro (mask_and t.sig_recvd set) i lt both in
    let self : (b.this_task == b.this_task) ≡ true = ground arith in
    (
      mask_and t.sig_recvd set,
      put b.this_task (record t { sig_recvd = mask_and t.sig_recvd (mask_not set) }) b,
      rw nz refl,
      both,
      rw (self, has, wanted) refl,
    )

or_true : (a : Bool) → (a || true) ≡ true
or_true true = refl
or_true false = refl

and_false : (a : Bool) → (a && false) ≡ false
and_false true = refl
and_false false = refl

restore : (a t : Bool) → (t ≡ true → a ≡ false) → ((a || t) && not t) ≡ a
restore a true h = rw (h refl) refl
restore true false h = refl
restore false false h = refl

and-left : (x y : Bool) → (x && y) ≡ true → x ≡ true
and-left true y e = refl
and-left false y e = e

and-right : (x y : Bool) → (x && y) ≡ true → y ≡ true
and-right true y e = e
and-right false y e = absurd cc

mask_of : Option Waited → Mask
mask_of none = mask_none
mask_of (some (returned m b)) = m
mask_of (some (sleeps b)) = mask_none
mask_of (some (comes_back b)) = mask_none

returned-mask : {m n : Mask} {b c : SysBase} → some (returned m b) ≡ some (returned n c) → m ≡ n
unfolding mask_of
returned-mask e = ap mask_of e

if-ne-returned :
    (stay : Bool) (b : SysBase) (m : Mask) (c : SysBase)
    → some (if stay then comes_back b else sleeps b) ≢ some (returned m c)
if-ne-returned true b m c e = cc
if-ne-returned false b m c e = cc

pub slept-ne-returned :
    (b : SysBase) (o : Option SysBase) (m : Mask) (c : SysBase)
    → Option.map (slept b) o ≢ some (returned m c)
slept-ne-returned b none m c e = cc
slept-ne-returned b (some d) m c e = if-ne-returned (stays b) d m c e

-- Wait returns only signals that were received and wanted, and never none.
pub wait_signals-received :
    (set : Mask) (b : SysBase) (rcvd : Mask) (c : SysBase)
    → wait_signals set b ≡ some (returned rcvd c)
    → (i : ℕ) × (i < 32)
      × (rcvd i ≡ true)
      × (set i ≡ true)
      × ((b.task b.this_task).sig_recvd i ≡ true)
unfolding wait_signals
wait_signals-received set b rcvd c e =
    let t = b.task b.this_task in
    elim (Bool-cases (non_zero (mask_and t.sig_recvd set))) [
      | inl y ↦
          let (i, lt, both) = non_zero-elim (mask_and t.sig_recvd set) y in
          let same : mask_and t.sig_recvd set ≡ rcvd = returned-mask (rw y at e) in
          (
            i,
            lt,
            subst (λ m. m i ≡ true) same both,
            and-right (t.sig_recvd i) (set i) both,
            and-left (t.sig_recvd i) (set i) both,
          )
      | inr n ↦ absurd (slept-ne-returned b _ rcvd c (rw n at e))
    ]

free_below-free : (n : ℕ) (m : Mask) (i : ℕ) → free_below n m ≡ some i → (i < n) × (m i ≡ false)
unfolding free_below
free_below-free zero m i e = absurd cc
free_below-free (suc n) m i e = elim (Bool-cases (m n)) [
  | inl y ↦ let h = free_below-free n m i (rw y at e) in (omega (arith, h.0), h.1)
  | inr q ↦ let same : n ≡ i = ground arith in (omega arith, rw (← same) q)
]

free_below-highest :
    (n : ℕ) (m : Mask) (i : ℕ) → i < n → m i ≡ false → (j : ℕ) × (free_below n m ≡ some j) × (i ≤ j)
unfolding free_below
free_below-highest zero m i lt e = absurd (omega arith)
free_below-highest (suc n) m i lt e = elim (Bool-cases (m n)) [
  | inl y ↦
      let ne : i ≢ n = λ same. absurd (differ (sym e ∙ ap m same ∙ y)) in
      let (j, found, le) = free_below-highest n m i (omega arith) e in (j, rw y found, le)
  | inr q ↦ (n, rw q refl, omega arith)
]
  where
    differ : false ≡ true → ⊥
    differ e = cc

-- AllocSignal of the bits up to `from`: a bit that was free, and the highest such; it is taken then, and no
-- signal is pending on it.
pub alloc_signal-highest :
    (from i : ℕ) (b : SysBase)
    → from < 32
    → i ≤ from
    → (b.task b.this_task).sig_alloc i ≡ false
    → let r = alloc_signal from b in
      (i ≤ r.0)
      × (r.0 ≤ from)
      × ((b.task b.this_task).sig_alloc r.0 ≡ false)
      × ((r.1.task b.this_task).sig_alloc r.0 ≡ true)
      × ((r.1.task b.this_task).sig_recvd r.0 ≡ false)
unfolding alloc_signal
alloc_signal-highest from i b small le free =
    let low : leb 32 from ≡ false = ground arith in
    let m = (b.task b.this_task).sig_alloc in
    let self : (b.this_task == b.this_task) ≡ true = ground arith in
    let (j, found, high) = free_below-highest (suc from) m i (omega arith) free in
    let (lt, was) = free_below-free (suc from) m j found in
    let own : (j == j) ≡ true = ground arith in
    rw (low, found) (rw (self, own) (high, omega (arith, lt), was, or_true _, and_false _))

-- AllocSignal fails, and changes nothing, if all bits up to `from` are taken.
pub alloc_signal-full :
    (from : ℕ) (b : SysBase)
    → from < 32
    → ((i : ℕ) → i ≤ from → (b.task b.this_task).sig_alloc i ≡ true)
    → alloc_signal from b ≡ (255, b)
unfolding alloc_signal
alloc_signal-full from b small full =
    let low : leb 32 from ≡ false = ground arith in
    let m = (b.task b.this_task).sig_alloc in
    elim (Option-cases (free_below (suc from) m)) [
      | inl e ↦ rw (low, e) refl
      | inr (j, e) ↦
          let (lt, was) = free_below-free (suc from) m j e in
          absurd (differ (sym was ∙ full j (omega arith)))
    ]
  where
    differ : false ≡ true → ⊥
    differ e = cc

-- FreeSignal of what AllocSignal gave restores the task's bits.
pub free_signal-alloc_signal :
    (from i k : ℕ) (b : SysBase)
    → from < 32
    → i ≤ from
    → (b.task b.this_task).sig_alloc i ≡ false
    → let r = alloc_signal from b in
      ((free_signal r.0 r.1).task b.this_task).sig_alloc k ≡ (b.task b.this_task).sig_alloc k
unfolding alloc_signal free_signal
free_signal-alloc_signal from i k b small le free =
    let low : leb 32 from ≡ false = ground arith in
    let m = (b.task b.this_task).sig_alloc in
    let self : (b.this_task == b.this_task) ≡ true = ground arith in
    let (j, found, high) = free_below-highest (suc from) m i (omega arith) free in
    let (lt, was) = free_below-free (suc from) m j found in
    let num : (j == 4294967295) ≡ false = ground arith in
    rw (low, found)
      (rw (num, self) (restore (m k) (j == k) (λ y. subst (λ x. m x ≡ false) (ground arith) was)))

-- But for the signal itself, which is cleared, the signals that have come, that a task waits for and that are
-- exceptions are as before AllocSignal and FreeSignal.
pub record KeepsOthers (k sig : ℕ) (t u : Task) : Type 0 where
  pub recvd : u.sig_recvd k ≡ (t.sig_recvd k && not (mask_bit sig k))
  pub waits : u.sig_wait k ≡ (t.sig_wait k && not (mask_bit sig k))
  pub excepts : u.sig_except k ≡ (t.sig_except k && not (mask_bit sig k))

pub free_signal-KeepsOthers :
    (from i k : ℕ) (b : SysBase)
    → from < 32
    → i ≤ from
    → (b.task b.this_task).sig_alloc i ≡ false
    → let r = alloc_signal from b in
      KeepsOthers k r.0 (b.task b.this_task) ((free_signal r.0 r.1).task b.this_task)
unfolding alloc_signal free_signal
free_signal-KeepsOthers from i k b small le free =
    let low : leb 32 from ≡ false = ground arith in
    let m = (b.task b.this_task).sig_alloc in
    let self : (b.this_task == b.this_task) ≡ true = ground arith in
    let (j, found, high) = free_below-highest (suc from) m i (omega arith) free in
    let (lt, was) = free_below-free (suc from) m j found in
    let num : (j == 4294967295) ≡ false = ground arith in
    rw (low, found) (rw (num, self) (record { recvd = refl; waits = refl; excepts = refl }))

-- A Wait inside Forbid, as Obtain has it: with no signal there Schedule comes back at once, in a state in which no
-- task runs.
pub wait_signals-forbid :
    (set : Mask) (b : SysBase)
    → b.td_nest_cnt ≡ 255
    → non_zero (mask_and (b.task b.this_task).sig_recvd set) ≡ false
    → (c : SysBase) × (wait_signals set (forbid b) ≡ some (comes_back c))
      × (c.this_task ≡ null)
      × (c.task_wait ≡ b.this_task ∷ b.task_wait)
      × (c.task_ready ≡ b.task_ready)
      × ((c.task b.this_task).state ≡ wait)
      × (non_zero (mask_and (c.task b.this_task).sig_recvd set) ≡ false)
unfolding wait_signals wait_task schedule forbid
wait_signals-forbid set b permitted none_there =
    let own : (b.this_task == b.this_task) ≡ true = ground arith in
    rw none_there (rw permitted (_, refl, refl, refl, refl, rw own refl, rw own none_there))
