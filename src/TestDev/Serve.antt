-- ===== src/TestDev/Serve.antt =====
-- The loop of dev_Task in src/kickstart/dev.test/_functab.c: all requests that wait are answered, in order.
use mathlib.Core.Path.{◌∙◌, sym}
use mathlib.Core.List.{append_assoc, append-nil}
use poweros_raspi.Base.{
  ℕ, zero, suc, ◌<◌, ◌≡◌, ◌≢◌, refl, ap, true, false, some, List, [], ◌∷◌, ◌++◌, ◌==◌, length,
  arith, All, Bool-cases, inl, inr,
}
use poweros_raspi.ExecList.{Ptr, null}
use poweros_raspi.Ports.{
  System, put_port, get_msg, reply_msg, add_msg, signal_port, set_type, nt_replymsg,
}
use poweros_raspi.Ports.Messages.{signal_port-port, signal_port-message}
use poweros_raspi.TestDev.{set_error, perform_io, error_of, serve_all}

abbrev pub queue : Ptr → System → List Ptr
queue p s = (s.port p).mp_msg_list

-- The state behind one answer.
abbrev pub answered : (Ptr → ℕ) → Ptr → Ptr → System → System
answered cmd p x s = reply_msg x (perform_io cmd x (get_msg p s).1)

-- One answer takes the request out of the port `p`, puts it behind those at its reply port `q`, and sets its error.
pub record Answers (cmd : Ptr → ℕ) (p q x : Ptr) (xs : List Ptr) (s t : System) : Type 0 where
  pub taken : queue p t ≡ xs
  pub given : queue q t ≡ queue q s ++ x ∷ []
  pub error : (t.message x).io_error ≡ error_of (cmd x)
  pub others : (y : Ptr) → y ≢ x → (t.message y).io_error ≡ (s.message y).io_error
  pub ports : (y : Ptr) → (t.message y).mn_reply_port ≡ (s.message y).mn_reply_port

-- The state before the task of the reply port is told.
abbrev untold : (Ptr → ℕ) → Ptr → Ptr → Ptr → List Ptr → System → System
untold cmd p q x xs s =
    let taken = put_port p (record (s.port p) { mp_msg_list = xs }) s in
    add_msg q x (set_type x nt_replymsg (set_error x (error_of (cmd x)) taken))

get_msg-empty : (p : Ptr) (s : System) → queue p s ≡ [] → get_msg p s ≡ (null, s)
unfolding get_msg
get_msg-empty p s e = rw e refl

get_msg-head :
    (p x : Ptr) (xs : List Ptr) (s : System)
    → queue p s ≡ x ∷ xs
    → get_msg p s ≡ (x, put_port p (record (s.port p) { mp_msg_list = xs }) s)
unfolding get_msg
get_msg-head p x xs s e = rw e refl

reply_msg-told :
    (x q : Ptr) (s : System)
    → (s.message x).mn_reply_port ≡ q
    → q ≢ null
    → reply_msg x s ≡ signal_port q (add_msg q x (set_type x nt_replymsg s))
unfolding reply_msg
reply_msg-told x q s e ne = let other : (q == null) ≡ false = ground arith in rw (e, other) refl

answered-untold :
    (cmd : Ptr → ℕ) (p q x : Ptr) (xs : List Ptr) (s : System)
    → queue p s ≡ x ∷ xs
    → (s.message x).mn_reply_port ≡ q
    → q ≢ null
    → answered cmd p x s ≡ signal_port q (untold cmd p q x xs s)
unfolding perform_io
answered-untold cmd p q x xs s e r ne =
    let here : (x == x) ≡ true = ground arith in
    let taken = put_port p (record (s.port p) { mp_msg_list = xs }) s in
    ap (λ o. reply_msg x (perform_io cmd x o.1)) (get_msg-head p x xs s e)
    ∙ reply_msg-told x q (set_error x (error_of (cmd x)) taken) (rw here r) ne

same_port :
    (cmd : Ptr → ℕ) (p q x : Ptr) (xs : List Ptr) (s : System) (y : Ptr)
    → ((untold cmd p q x xs s).message y).mn_reply_port ≡ (s.message y).mn_reply_port
same_port cmd p q x xs s y =
    let here : (x == x) ≡ true = ground arith in
    elim (Bool-cases (y == x)) [
      | inl eq ↦
          let same : y ≡ x = ground arith in
          rw (eq, here) (ap (λ z. (s.message z).mn_reply_port) (sym same))
      | inr other ↦ rw other refl
    ]

answered-Answers :
    (cmd : Ptr → ℕ) (p q x : Ptr) (xs : List Ptr) (s : System)
    → queue p s ≡ x ∷ xs
    → (s.message x).mn_reply_port ≡ q
    → q ≢ null
    → q ≢ p
    → Answers cmd p q x xs s (answered cmd p x s)
answered-Answers cmd p q x xs s e r ne apart =
    let w = untold cmd p q x xs s in
    let here : (x == x) ≡ true = ground arith in
    let at_p : (p == p) ≡ true = ground arith in
    let at_q : (q == q) ≡ true = ground arith in
    let p_q : (p == q) ≡ false = ground arith in
    let q_p : (q == p) ≡ false = ground arith in
    rw (answered-untold cmd p q x xs s e r ne) (record {
      taken = ap (λ g. (g p).mp_msg_list) (signal_port-port q w) ∙ rw (p_q, at_p) refl;
      given = ap (λ g. (g q).mp_msg_list) (signal_port-port q w) ∙ rw (at_q, q_p) refl;
      error = ap (λ g. (g x).io_error) (signal_port-message q w) ∙ rw here refl;
      others = λ y other.
          let y_x : (y == x) ≡ false = ground arith in
          ap (λ g. (g y).io_error) (signal_port-message q w) ∙ rw y_x refl;
      ports =
          λ y. ap (λ g. (g y).mn_reply_port) (signal_port-message q w) ∙ same_port cmd p q x xs s y;
    })

-- Requests that all have the reply port `q`.
abbrev pub AllReplyTo : Ptr → List Ptr → System → Type 0
AllReplyTo q xs s = All (λ x. (s.message x).mn_reply_port ≡ q) xs

reply_to_still :
    (q : Ptr) (xs : List Ptr) (s t : System)
    → ((y : Ptr) → (t.message y).mn_reply_port ≡ (s.message y).mn_reply_port)
    → AllReplyTo q xs s
    → AllReplyTo q xs t
reply_to_still q [] s t same h = tt
reply_to_still q (x ∷ xs) s t same (e, h) = (same x ∙ e, reply_to_still q xs s t same h)

-- Once a request has the error of its command it keeps it.
abbrev Settled : (Ptr → ℕ) → System → System → Type 0
Settled cmd s t =
    (y : Ptr)
    → (s.message y).io_error ≡ error_of (cmd y)
    → (t.message y).io_error ≡ error_of (cmd y)

answer-Settled :
    (cmd : Ptr → ℕ) (p q x : Ptr) (xs : List Ptr) (s t : System)
    → Answers cmd p q x xs s t
    → Settled cmd s t
answer-Settled cmd p q x xs s t a y e = elim (Bool-cases (y == x)) [
  | inl eq ↦ let same : y ≡ x = ground arith in rw same a.error
  | inr other ↦ a.others y (ground arith) ∙ e
]

abbrev pub AllSettled : (Ptr → ℕ) → List Ptr → System → Type 0
AllSettled cmd xs t = All (λ x. (t.message x).io_error ≡ error_of (cmd x)) xs

serve_all-Settled :
    (cmd : Ptr → ℕ) (k : ℕ) (p q : Ptr) (xs : List Ptr) (s : System)
    → length xs < k
    → queue p s ≡ xs
    → All (λ x. x ≢ null) xs
    → AllReplyTo q xs s
    → q ≢ null
    → q ≢ p
    → (t : System) × (serve_all cmd k p s ≡ some t)
      × (queue p t ≡ [])
      × (queue q t ≡ queue q s ++ xs)
      × Settled cmd s t
      × AllSettled cmd xs t
unfolding serve_all
serve_all-Settled cmd zero p q xs s lt e nn r ne apart = absurd (omega arith)
serve_all-Settled cmd (suc k) p q [] s lt e nn r ne apart =
    rw (get_msg-empty p s e) (s, refl, e, sym (append-nil (queue q s)), λ y h. h, tt)
serve_all-Settled cmd (suc k) p q (x ∷ xs) s lt e (x_nn, nn) (r, rs) ne apart =
    let a = answered-Answers cmd p q x xs s e r ne apart in
    let s1 = answered cmd p x s in
    let (t, ran, empty, order, settled, all) =
      serve_all-Settled cmd k p q xs s1 (omega arith) a.taken nn
        (reply_to_still q xs s s1 a.ports rs) ne apart in
    let first : (get_msg p s).0 ≡ x = ap (λ o. o.0) (get_msg-head p x xs s e) in
    let some_msg : (x == null) ≡ false = ground arith in
    (
      t,
      rw (first, some_msg) ran,
      empty,
      order ∙ ap (λ l. l ++ xs) a.given ∙ append_assoc (queue q s) (x ∷ []) xs,
      λ y h. settled y (answer-Settled cmd p q x xs s s1 a y h),
      (settled x a.error, all),
    )

-- When requests wait at the port of testdev.device that all have another port as their reply port, the loop of its task
-- ends and leaves none waiting; all are at the reply port behind those already there, in the order in which they came,
-- each with the error of its command.
pub serve_all-answers :
    (cmd : Ptr → ℕ) (k : ℕ) (p q : Ptr) (xs : List Ptr) (s : System)
    → length xs < k
    → queue p s ≡ xs
    → All (λ x. x ≢ null) xs
    → AllReplyTo q xs s
    → q ≢ null
    → q ≢ p
    → (t : System) × (serve_all cmd k p s ≡ some t)
      × (queue p t ≡ [])
      × (queue q t ≡ queue q s ++ xs)
      × AllSettled cmd xs t
serve_all-answers cmd k p q xs s lt e nn r ne apart =
    let (t, ran, empty, order, settled, all) =
      serve_all-Settled cmd k p q xs s lt e nn r ne apart in
    (t, ran, empty, order, all)
