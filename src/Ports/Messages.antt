-- ===== src/Ports/Messages.antt =====
-- What messages.c and ports.c of src/kickstart/lib.exec promise their callers: messages arrive in order, the
-- port's task is told, and a port that is deleted gives its signal back.
use mathlib.Core.Path.{sym, ◌∙◌}
use poweros_raspi.Base.{
  ℕ, zero, suc, ◌%◌, ◌<◌, ◌≡◌, ◌≢◌, refl, ap, Bool, true, false, ◌||◌, Option, none, some, List, [],
  ◌∷◌, ◌++◌, ◌==◌, if◌then◌else◌, arith, length, Bool-cases, inl, inr, Mask, mask_bit,
}
use poweros_raspi.ExecList.{Ptr, null}
use poweros_raspi.Tasks.{SysBase, wakeup_task, is_wait, alloc_signal, free_signal, take_signal}
use poweros_raspi.Tasks.Consistent.{IsConsistent}
use poweros_raspi.Tasks.Steps.{wakeup_task-IsConsistent}
use poweros_raspi.Tasks.Signals.{
  wakeup_task-recvd, alloc_signal-highest, free_signal-alloc_signal, KeepsOthers,
  free_signal-KeepsOthers,
}
use poweros_raspi.Ports.{
  System, put_msg, get_msg, add_msg, set_type, signal_port, tell, pa_signal, pa_softint, nt_message,
  create_msg_port, delete_msg_port, set_up, give_back,
}

-- A property of the system before and after the signal holds after `signal_port`.
either :
    (P : System → Type 0) (a b c : Bool) (s told : System)
    → P s
    → (a ≡ false → P told)
    → P (if a then s else if b then told else if c then told else s)
either P true b c s told before after = before
either P false true c s told before after = after refl
either P false false true s told before after = after refl
either P false false false s told before after = before

-- To tell the task leaves the ports.
pub signal_port-port : (p : Ptr) (s : System) → (signal_port p s).port ≡ s.port
unfolding signal_port
signal_port-port p s =
    let a = s.port p in
    either (λ t. t.port ≡ s.port) (a.mp_sig_task == null) (a.mp_flags % 4 == pa_signal)
      (a.mp_flags % 4 == pa_softint) s (tell p s) refl (λ e. refl)

-- To tell the task leaves the messages.
pub signal_port-message : (p : Ptr) (s : System) → (signal_port p s).message ≡ s.message
unfolding signal_port
signal_port-message p s =
    let a = s.port p in
    either (λ t. t.message ≡ s.message) (a.mp_sig_task == null) (a.mp_flags % 4 == pa_signal)
      (a.mp_flags % 4 == pa_softint) s (tell p s) refl (λ e. refl)

signal_port-IsConsistent :
    (p : Ptr) (s : System) → IsConsistent s.base → IsConsistent (signal_port p s).base
unfolding signal_port
signal_port-IsConsistent p s c =
    let a = s.port p in
    either (λ t. IsConsistent t.base) (a.mp_sig_task == null) (a.mp_flags % 4 == pa_signal)
      (a.mp_flags % 4 == pa_softint) s (tell p s) c
      (λ e. wakeup_task-IsConsistent s.base a.mp_sig_task (mask_bit a.mp_sig_bit) (ground arith) c)

-- PutMsg keeps the tasks and their lists consistent.
pub put_msg-IsConsistent :
    (p x : Ptr) (s : System) → IsConsistent s.base → IsConsistent (put_msg p x s).base
unfolding put_msg
put_msg-IsConsistent p x s c = signal_port-IsConsistent p (add_msg p x (set_type x nt_message s)) c

pub put_msg-list :
    (p x : Ptr) (s : System)
    → ((put_msg p x s).port p).mp_msg_list ≡ (s.port p).mp_msg_list ++ x ∷ []
unfolding put_msg
put_msg-list p x s =
    let self : (p == p) ≡ true = ground arith in
    rw (signal_port-port p (add_msg p x (set_type x nt_message s))) (rw self refl)

-- PutMsg of several messages, one after the other.
pub put_all : Ptr → List Ptr → System → System
put_all p [] s = s
put_all p (x ∷ xs) s = put_all p xs (put_msg p x s)

abbrev pub after_get : Ptr × System → (System → List Ptr) → List Ptr
after_get (x, s) next = x ∷ next s

-- What `n` calls of GetMsg give.
pub get_all : ℕ → Ptr → System → List Ptr
get_all zero p s = []
get_all (suc n) p s = after_get (get_msg p s) (get_all n p)

append_nil : (xs : List Ptr) → xs ++ [] ≡ xs
append_nil [] = refl
append_nil (x ∷ xs) = ap (λ ys. x ∷ ys) (append_nil xs)

append_assoc : (xs ys zs : List Ptr) → (xs ++ ys) ++ zs ≡ xs ++ (ys ++ zs)
append_assoc [] ys zs = refl
append_assoc (x ∷ xs) ys zs = ap (λ l. x ∷ l) (append_assoc xs ys zs)

put_all-list :
    (p : Ptr) (xs : List Ptr) (s : System)
    → ((put_all p xs s).port p).mp_msg_list ≡ (s.port p).mp_msg_list ++ xs
unfolding put_all
put_all-list p [] s = sym (append_nil (s.port p).mp_msg_list)
put_all-list p (x ∷ xs) s =
    rw (put_all-list p xs (put_msg p x s), put_msg-list p x s)
      (append_assoc (s.port p).mp_msg_list (x ∷ []) xs)

get_all-list :
    (p : Ptr) (xs : List Ptr) (s : System)
    → (s.port p).mp_msg_list ≡ xs
    → get_all (length xs) p s ≡ xs
unfolding get_all get_msg
get_all-list p [] s e = refl
get_all-list p (x ∷ xs) s e =
    let self : (p == p) ≡ true = ground arith in
    rw e (ap (λ l. x ∷ l) (get_all-list p xs _ (rw self refl)))

-- The messages that are put to an empty port are got from it, all of them and in their order. ExecList.Fifo is
-- about the linked list that mp_MsgList is, where no message may be put twice.
pub get_all-put_all :
    (p : Ptr) (xs : List Ptr) (s : System)
    → (s.port p).mp_msg_list ≡ []
    → get_all (length xs) p (put_all p xs s) ≡ xs
get_all-put_all p xs s e = get_all-list p xs (put_all p xs s) (rw (put_all-list p xs s, e) refl)

woken-state :
    (t : Ptr) (m : Mask) (b : SysBase) → is_wait ((wakeup_task t m b).task t).state ≡ false
unfolding wakeup_task
woken-state t m b =
    let self : (t == t) ≡ true = ground arith in
    elim (Bool-cases (is_wait (b.task t).state)) [
      | inl y ↦ rw y (rw self refl)
      | inr n ↦ rw n (rw self n)
    ]

signal_port-tell :
    (p : Ptr) (s : System)
    → (s.port p).mp_sig_task ≢ null
    → (s.port p).mp_flags % 4 ≡ pa_signal
    → signal_port p s ≡ tell p s
unfolding signal_port
signal_port-tell p s ne kind =
    let task : ((s.port p).mp_sig_task == null) ≡ false = ground arith in
    let signalled : ((s.port p).mp_flags % 4 == pa_signal) ≡ true = ground arith in
    rw (task, signalled) refl

or_true : (b : Bool) → (b || true) ≡ true
or_true true = refl
or_true false = refl

-- PutMsg to a port with PA_SIGNAL and a task: the message is the last of the port, and the task has the port's
-- signal and does not wait any more.
pub put_msg-arrives :
    (p x : Ptr) (s : System)
    → (s.port p).mp_sig_task ≢ null
    → (s.port p).mp_flags % 4 ≡ pa_signal
    → let r = put_msg p x s in
      let t = (r.base.task (s.port p).mp_sig_task) in
      ((r.port p).mp_msg_list ≡ (s.port p).mp_msg_list ++ x ∷ [])
      × (t.sig_recvd (s.port p).mp_sig_bit ≡ true)
      × (is_wait t.state ≡ false)
unfolding put_msg
put_msg-arrives p x s ne kind =
    let a = s.port p in
    let here : (p == p) ≡ true = ground arith in
    let self : (a.mp_sig_task == a.mp_sig_task) ≡ true = ground arith in
    let bit : (a.mp_sig_bit == a.mp_sig_bit) ≡ true = ground arith in
    let s1 = add_msg p x (set_type x nt_message s) in
    (
      put_msg-list p x s,
      rw (signal_port-tell p s1 (rw here ne) (rw here kind)) (
          rw here (
            wakeup_task-recvd a.mp_sig_task a.mp_sig_task (mask_bit a.mp_sig_bit) s.base
              a.mp_sig_bit
            ∙ rw (self, bit) (or_true ((s.base.task a.mp_sig_task).sig_recvd a.mp_sig_bit)))),
      rw (signal_port-tell p s1 (rw here ne) (rw here kind))
          (rw here (woken-state a.mp_sig_task (mask_bit a.mp_sig_bit) s.base)),
    )

any_signal : (b : SysBase) → alloc_signal 4294967295 b ≡ alloc_signal 31 b
unfolding alloc_signal
any_signal b = refl

take_signal-freed : (o : Option ℕ) (b : SysBase) → (take_signal o b).1.freed ≡ b.freed
take_signal-freed none b = refl
take_signal-freed (some n) b = refl

alloc_signal-freed : (n : ℕ) (b : SysBase) → (alloc_signal n b).1.freed ≡ b.freed
unfolding alloc_signal
alloc_signal-freed n b = take_signal-freed _ b

free_signal-freed : (n : ℕ) (b : SysBase) → (free_signal n b).freed ≡ b.freed
unfolding free_signal
free_signal-freed n b = elim (Bool-cases (n == 4294967295)) [
  | inl y ↦ rw y refl
  | inr n ↦ rw n refl
]

create_msg_port-set_up :
    (ret : Ptr) (i : ℕ) (s : System)
    → ret ≢ null
    → i < 32
    → (s.base.task s.base.this_task).sig_alloc i ≡ false
    → create_msg_port ret s
      ≡ (ret, set_up ret (alloc_signal 31 s.base).0 (alloc_signal 31 s.base).1 s)
unfolding create_msg_port
create_msg_port-set_up ret i s ne lt free =
    let (lo, hi, free_before, taken, clear) =
      alloc_signal-highest 31 i s.base (omega arith) (omega arith) free in
    let given : (ret == null) ≡ false = ground arith in
    let found : ((alloc_signal 31 s.base).0 == 255) ≡ false = ground arith in
    rw (any_signal s.base) (rw (given, found) refl)

delete_msg_port-set_up :
    (ret : Ptr) (sb : ℕ) (b : SysBase) (s : System)
    → ret ≢ null
    → (delete_msg_port ret (set_up ret sb b s)).base ≡ give_back ret (free_signal sb b)
unfolding delete_msg_port
delete_msg_port-set_up ret sb b s ne =
    let given : (ret == null) ≡ false = ground arith in
    let self : (ret == ret) ≡ true = ground arith in rw given (rw self refl)

-- DeleteMsgPort of a port that CreateMsgPort gave, when one of the 32 signals was free: the signals that the task
-- has are as before, and so are those that have come, that it waits for and that are exceptions, but for the port's
-- signal, which is cleared in them. The port's memory is given back.
pub delete_msg_port-create_msg_port :
    (ret : Ptr) (i k : ℕ) (s : System)
    → ret ≢ null
    → i < 32
    → (s.base.task s.base.this_task).sig_alloc i ≡ false
    → let r = create_msg_port ret s in
      let t = delete_msg_port r.0 r.1 in
      let before = s.base.task s.base.this_task in
      let after = t.base.task s.base.this_task in
      (r.0 ≡ ret)
      × (after.sig_alloc k ≡ before.sig_alloc k)
      × KeepsOthers k (r.1.port ret).mp_sig_bit before after
      × (t.base.freed ≡ ret ∷ s.base.freed)
delete_msg_port-create_msg_port ret i k s ne lt free =
    let a = alloc_signal 31 s.base in
    let self : (ret == ret) ≡ true = ground arith in
    rw (create_msg_port-set_up ret i s ne lt free, delete_msg_port-set_up ret a.0 a.1 s ne)
      (
        refl,
        free_signal-alloc_signal 31 i k s.base (omega arith) (omega arith) free,
        rw self (free_signal-KeepsOthers 31 i k s.base (omega arith) (omega arith) free),
        ap (λ l. ret ∷ l) (free_signal-freed a.0 a.1 ∙ alloc_signal-freed 31 s.base),
      )
