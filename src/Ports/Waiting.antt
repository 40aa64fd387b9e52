-- ===== src/Ports/Waiting.antt =====
-- WaitPort of src/kickstart/lib.exec/ports.c: what it returns, and that it comes to an end.
use mathlib.Core.Option
use mathlib.Core.Path.{subst, sym, ◌∙◌}
use poweros_raspi.Base.{
  ℕ, suc, ◌<◌, ◌≡◌, refl, Bool, true, false, some, List, [], ◌∷◌, arith, ◌==◌, Bool-cases, inl, inr,
  Mask, mask_and, mask_not, mask_bit, non_zero, get_elem?, non_zero-cleared,
}
use poweros_raspi.ExecList.{Ptr, null}
use poweros_raspi.Tasks.{SysBase, put, returned, sleeps, wait_signals, is_empty, stays, wait}
use poweros_raspi.Tasks.Consistent.{IsConsistent, HasState}
use poweros_raspi.Tasks.Steps.{touch-IsConsistent, wait_task-Runs}
use poweros_raspi.Ports.{System, wait_port, Outcome, left_with, sleeps_in, after_wait, head_or_null}

-- The tasks are consistent, scheduling is permitted, and a task is ready to run in place of this one.
pub record CanSwitch (b : SysBase) : Type 0 where
  pub consistent : IsConsistent b
  pub permitted : 127 < b.td_nest_cnt
  pub some_ready : is_empty b.task_ready ≡ false

pending : Mask → SysBase → Bool
pending set b = non_zero (mask_and (b.task b.this_task).sig_recvd set)

-- The caller of Wait sleeps for these signals, and none of them was there.
pub record SleepsFor (set : Mask) (p : Ptr) (c : SysBase) : Type 0 where
  pub waits : (c.task p).state ≡ wait
  pub for_these : (c.task p).sig_wait ≡ set
  pub is_first : Option.get_or (get_elem? c.task_wait 0) null ≡ p

first_of : (p : Ptr) (ps qs : List Ptr) → qs ≡ p ∷ ps → Option.get_or (get_elem? qs 0) null ≡ p
first_of p ps qs e = rw e refl

asleep-wait :
    (p : Ptr) (ps : List Ptr) (c : SysBase)
    → IsConsistent c
    → c.task_wait ≡ p ∷ ps
    → (c.task p).state ≡ wait
asleep-wait p ps c ok e = (subst (HasState c.task wait) e ok.lists.wait_states).0

wait_signals-sleeps :
    (set : Mask) (b : SysBase)
    → CanSwitch b
    → pending set b ≡ false
    → (c : SysBase) × (wait_signals set b ≡ some (sleeps c)) × SleepsFor set b.this_task c
unfolding wait_signals pending
wait_signals-sleeps set b can none_there =
    let p = b.this_task in
    let self : (p == p) ≡ true = ground arith in
    let go : stays b ≡ false = ground (arith, can.permitted, can.some_ready) in
    let b1 = put p (record (b.task p) { sig_wait = set }) b in
    let (q, r, ran, runs, left) =
      wait_task-Runs b1 (touch-IsConsistent b p _ refl refl can.consistent) can.permitted
        can.some_ready in
    (
      r,
      rw none_there (rw (ran, go) refl),
      record {
        waits = asleep-wait p b.task_wait r runs.consistent left.waiting;
        for_these = left.signals ∙ rw self refl;
        is_first = first_of p b.task_wait r.task_wait left.waiting;
      },
    )

wait_signals-clears :
    (set : Mask) (b : SysBase)
    → CanSwitch b
    → pending set b ≡ true
    → (m : Mask) × (c : SysBase) × (wait_signals set b ≡ some (returned m c))
      × CanSwitch c
      × (pending set c ≡ false)
      × (c.this_task ≡ b.this_task)
unfolding wait_signals pending
wait_signals-clears set b can there =
    let p = b.this_task in
    let self : (p == p) ≡ true = ground arith in
    let t = record (b.task p) { sig_recvd = mask_and (b.task p).sig_recvd (mask_not set) } in
    (
      mask_and (b.task p).sig_recvd set,
      put p t b,
      rw there refl,
      record {
        consistent = touch-IsConsistent b p t refl refl can.consistent;
        permitted = can.permitted;
        some_ready = can.some_ready;
      },
      rw self (non_zero-cleared (b.task p).sig_recvd set),
      refl,
    )

module _ (n : ℕ) (p : Ptr) (s : System) where
  wait_port-first :
      is_empty (s.port p).mp_msg_list ≡ false
      → wait_port (suc n) p s ≡ some (left_with (head_or_null (s.port p).mp_msg_list) s)
  unfolding wait_port
  wait_port-first some_there = rw some_there refl

  wait_port-again :
      is_empty (s.port p).mp_msg_list ≡ true
      → wait_port (suc n) p s
        ≡ after_wait (wait_signals (mask_bit (s.port p).mp_sig_bit) s.base) s (wait_port n p)
  unfolding wait_port
  wait_port-again empty = rw empty refl

-- What WaitPort of the port `p` comes to when it is called in `s`: the first message of the port, or the task
-- sleeps in Wait for the signal of the port, which has no message.
pub data Ends (p : Ptr) (s : System) (o : Outcome) : Type 0 where
  has_message :
      (x : Ptr) (xs : List Ptr) → (s.port p).mp_msg_list ≡ x ∷ xs → o ≡ left_with x s → Ends p s o
  sleeps_for :
      (c : SysBase)
      → (s.port p).mp_msg_list ≡ []
      → SleepsFor (mask_bit (s.port p).mp_sig_bit) s.base.this_task c
      → o ≡ sleeps_in (record s { base = c })
      → Ends p s o

empty-nil : (xs : List Ptr) → is_empty xs ≡ true → xs ≡ []
empty-nil [] e = refl
empty-nil (x ∷ xs) e = absurd (ground arith)

head-cons : (xs : List Ptr) → is_empty xs ≡ false → (ys : List Ptr) × (xs ≡ head_or_null xs ∷ ys)
head-cons [] e = absurd (ground arith)
head-cons (x ∷ xs) e = (xs, refl)

wait_port-sleeps :
    (n : ℕ) (p : Ptr) (s : System)
    → is_empty (s.port p).mp_msg_list ≡ true
    → CanSwitch s.base
    → pending (mask_bit (s.port p).mp_sig_bit) s.base ≡ false
    → (o : Outcome) × (wait_port (suc n) p s ≡ some o) × Ends p s o
wait_port-sleeps n p s empty can none_there =
    let (c, slept_so, so) =
      wait_signals-sleeps (mask_bit (s.port p).mp_sig_bit) s.base can none_there in
    (
      sleeps_in (record s { base = c }),
      wait_port-again n p s empty ∙ rw slept_so refl,
      sleeps_for c (empty-nil _ empty) so refl,
    )

sleeps_in-eq :
    (p : Ptr) (s : System) (m : SysBase) (o : Outcome)
    → (s.port p).mp_msg_list ≡ []
    → m.this_task ≡ s.base.this_task
    → Ends p (record s { base = m }) o
    → Ends p s o
sleeps_in-eq p s m o empty same (has_message x xs e f) =
    let none_there : x ∷ xs ≡ [] = sym e ∙ empty in absurd cc
sleeps_in-eq p s m o empty same (sleeps_for c e so f) =
    sleeps_for c e (subst (λ q. SleepsFor (mask_bit (s.port p).mp_sig_bit) q c) same so) f

-- WaitPort asks at most twice, also if the port's signal was still set from a message that is gone, when the tasks
-- are consistent, scheduling is permitted and another task is ready. It returns the first message of a port that has
-- one, and changes nothing. With an empty port its task sleeps in TaskWait, for the port's signal.
pub wait_port-Ends :
    (p : Ptr) (s : System)
    → CanSwitch s.base
    → (o : Outcome) × (wait_port 2 p s ≡ some o) × Ends p s o
wait_port-Ends p s can =
    let set = mask_bit (s.port p).mp_sig_bit in
    elim (Bool-cases (is_empty (s.port p).mp_msg_list)) [
      | inr some_there ↦
          let (xs, e) = head-cons (s.port p).mp_msg_list some_there in
          (_, wait_port-first 1 p s some_there, has_message _ xs e refl)
      | inl empty ↦ elim (Bool-cases (pending set s.base)) [
        | inr none_there ↦ wait_port-sleeps 1 p s empty can none_there
        | inl there ↦
            let (m, c, got, can2, clear, same) = wait_signals-clears set s.base can there in
            let (o, ended, so) = wait_port-sleeps 0 p (record s { base = c }) empty can2 clear in
            (
              o,
              wait_port-again 1 p s empty ∙ rw got ended,
              sleeps_in-eq p s c o (empty-nil _ empty) same so,
            )
      ]
    ]
