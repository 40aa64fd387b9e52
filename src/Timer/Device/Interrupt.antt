-- ===== src/Timer/Device/Interrupt.antt =====
-- What Timer3IRQServer of src/kickstart/dev.timer/_timerirq.c does to the lists of requests.
use mathlib.Core.Path.{subst, sym, ◌∙◌}
use mathlib.Core.List.{Memᴰ}
use poweros_raspi.Base.{
  ℕ, zero, suc, ◌*◌, ◌+◌, ◌≤◌, ◌<◌, ◌≡◌, ◌^◌, refl, ap, inl, inr, true, false, Option, none, some,
  List, [], ◌∷◌, ◌++◌, arith, All, Bool-cases, length,
}
use poweros_raspi.Timer.Time.{
  TimeVal, IsTime, usec, fast_add_time, fast_add_time-usec, fast_add_time-secs,
}
use poweros_raspi.Timer.Device.{
  TimeRequest, TimerBase, expire, is_due, answer, timer3_irq_server, reply_msg, finished, returned,
}

append_left : (q : TimeRequest) (xs ys : List TimeRequest) → Memᴰ q xs → Memᴰ q (xs ++ ys)
append_left q [] ys m = elim m [ ]
append_left q (x ∷ xs) ys (Memᴰ.head e) = Memᴰ.head e
append_left q (x ∷ xs) ys (Memᴰ.tail m) = Memᴰ.tail (append_left q xs ys m)

append_last : (q : TimeRequest) (xs : List TimeRequest) → Memᴰ q (xs ++ (q ∷ []))
append_last q [] = Memᴰ.head refl
append_last q (x ∷ xs) = Memᴰ.tail (append_last q xs)

is_due-early :
    (e : TimeVal) (t : TimeRequest)
    → IsTime e
    → IsTime t.tr_time
    → usec e ≤ usec t.tr_time
    → is_due e t ≡ false
is_due-early e t he ht l = ground (arith, he.micro, ht.micro)

is_due-late :
    (e : TimeVal) (t : TimeRequest)
    → IsTime e
    → IsTime t.tr_time
    → usec t.tr_time < usec e
    → is_due e t ≡ true
is_due-late e t he ht l = ground (arith, he.micro, ht.micro)

-- One step of `n` interrupts.
step-le : (e v n d : ℕ) → e + suc n * v ≤ d → (e + v ≤ d) × (e + v + n * v ≤ d)
step-le e v n d l = (omega arith, omega arith)

-- What a loop of the interrupt does: it answers nothing if no request is due, and else the first one
-- that is due, and every other request stays where it was.
abbrev pub Expires : TimeVal → List TimeRequest → Option TimeRequest → List TimeRequest → Type 0
Expires e ts none left = (left ≡ ts) × All (λ t. is_due e t ≡ false) ts
Expires e ts (some t) left =
    (pre : List TimeRequest) × (post : List TimeRequest) × (ts ≡ pre ++ (t ∷ post))
    × (left ≡ pre ++ post)
    × All (λ u. is_due e u ≡ false) pre
    × (is_due e t ≡ true)

Expires-skip :
    (e : TimeVal) (t : TimeRequest) (ts : List TimeRequest) (o : Option TimeRequest)
    (left : List TimeRequest)
    → is_due e t ≡ false
    → Expires e ts o left
    → Expires e (t ∷ ts) o (t ∷ left)
Expires-skip e t ts none left n x = (ap (◌∷◌ t) x.0, (n, x.1))
Expires-skip e t ts (some u) left n (pre, post, a, b, c, d) =
    (t ∷ pre, post, ap (◌∷◌ t) a, ap (◌∷◌ t) b, (n, c), d)

differ : (e : TimeVal) {r t : TimeRequest} → r ≡ t → is_due e r ≡ false → is_due e t ≡ true → ⊥
differ e same n y = let d = sym n ∙ ap (is_due e) same ∙ y in cc

-- Each loop of Timer3IRQServer answers the first request of its list that is due, if there is one,
-- and keeps all the others in their order.
pub expire-Expires :
    (e : TimeVal) (ts : List TimeRequest)
    → Expires e ts (expire e ts).answered (expire e ts).waiting
unfolding expire
expire-Expires e [] = (refl, tt)
expire-Expires e (t ∷ ts) = elim (Bool-cases (is_due e t)) [
  | inl y ↦ rw y ([], ts, refl, refl, tt, y)
  | inr n ↦ rw n (Expires-skip e t ts _ _ n (expire-Expires e ts))
]

expire-keeps :
    (e : TimeVal) (ts : List TimeRequest) (r : TimeRequest)
    → is_due e r ≡ false
    → Memᴰ r ts
    → Memᴰ r (expire e ts).waiting
unfolding expire
expire-keeps e [] r n m = m
expire-keeps e (t ∷ ts) r n (Memᴰ.head same) = elim (Bool-cases (is_due e t)) [
  | inl y ↦ absurd (differ e same n y)
  | inr q ↦ rw q (Memᴰ.head same)
]
expire-keeps e (t ∷ ts) r n (Memᴰ.tail m) = elim (Bool-cases (is_due e t)) [
  | inl y ↦ rw y m
  | inr q ↦ rw q (Memᴰ.tail (expire-keeps e ts r n m))
]

-- The interrupt, `n` times.
unfoldable pub ticks : ℕ → TimerBase → TimerBase
ticks zero b = b
ticks (suc n) b = ticks n (timer3_irq_server b)

-- The times of the base are in normal form, and `n` more interrupts do not overflow its seconds.
pub record HasTicks (b : TimerBase) (n : ℕ) : Type 0 where
  pub elapsed_ok : IsTime b.elapsed
  pub vblank_ok : IsTime b.vblank_time
  pub room : b.elapsed.tv_secs + n * (b.vblank_time.tv_secs + 1) < 2 ^ 32

answer-keeps :
    (o : Option TimeRequest) (b : TimerBase)
    → ((answer o b).elapsed ≡ b.elapsed)
      × ((answer o b).vblank_time ≡ b.vblank_time)
      × ((answer o b).vblank_list ≡ b.vblank_list)
unfolding reply_msg
answer-keeps none b = (refl, refl, refl)
answer-keeps (some t) b = (refl, refl, refl)

-- One interrupt on the fields that the waiting requests depend on.
tick :
    (b : TimerBase)
    → let now = fast_add_time b.elapsed b.vblank_time in
      ((timer3_irq_server b).elapsed ≡ now)
      × ((timer3_irq_server b).vblank_time ≡ b.vblank_time)
      × ((timer3_irq_server b).vblank_list ≡ (expire now b.vblank_list).waiting)
unfolding timer3_irq_server
tick b =
    let now = fast_add_time b.elapsed b.vblank_time in
    let v = (expire now b.vblank_list).answered in
    let w = (expire now b.waituntil_list).answered in
    let x = answer-keeps v _ in let y = answer-keeps w _ in (y.0 ∙ x.0, y.1 ∙ x.1, y.2 ∙ x.2)

tick-HasTicks :
    (b : TimerBase) (n : ℕ)
    → HasTicks b (suc n)
    → HasTicks (timer3_irq_server b) n
      × (usec (timer3_irq_server b).elapsed ≡ usec b.elapsed + usec b.vblank_time)
tick-HasTicks b n h =
    let t = tick b in
    let f =
      fast_add_time-usec b.elapsed b.vblank_time h.elapsed_ok h.vblank_ok (omega (arith, h.room)) in
    (
      record {
        elapsed_ok = subst IsTime (sym t.0) f.0;
        vblank_ok = subst IsTime (sym t.1) h.vblank_ok;
        room = rw (t.0, t.1) (omega (arith, h.room, fast_add_time-secs b.elapsed b.vblank_time));
      },
      ap usec t.0 ∙ f.1,
    )

pub ticks-early :
    (n : ℕ) (b : TimerBase) (r : TimeRequest)
    → HasTicks b n
    → IsTime r.tr_time
    → usec b.elapsed + n * usec b.vblank_time ≤ usec r.tr_time
    → Memᴰ r b.vblank_list
    → Memᴰ r (ticks n b).vblank_list
unfolding ticks
ticks-early zero b r h ok late m = m
ticks-early (suc n) b r h ok late m =
    let t = tick b in
    let next = tick-HasTicks b n h in
    let now = fast_add_time b.elapsed b.vblank_time in
    let f = subst IsTime t.0 next.0.elapsed_ok in
    let l = step-le (usec b.elapsed) (usec b.vblank_time) n (usec r.tr_time) late in
    let g : usec now ≡ usec b.elapsed + usec b.vblank_time = ap usec (sym t.0) ∙ next.1 in
    let wait : is_due now r ≡ false = is_due-early now r f ok (rw g l.0) in
    ticks-early n (timer3_irq_server b) r next.0 ok (rw (next.1, t.1) l.1)
      (subst (Memᴰ r) (sym t.2) (expire-keeps now b.vblank_list r wait m))

expire-head :
    (e : TimeVal) (t : TimeRequest) (ts : List TimeRequest)
    → is_due e t ≡ true
    → expire e (t ∷ ts) ≡ record { answered = some t; waiting = ts }
unfolding expire
expire-head e t ts d = rw d refl

-- What was replied stays replied.
module _ (q : TimeRequest) where
  reply_msg-keeps :
      (t : TimeRequest) (b : TimerBase) → Memᴰ q b.replied → Memᴰ q (reply_msg t b).replied
  unfolding reply_msg
  reply_msg-keeps t b m = append_left q b.replied _ m

  answer-replied :
      (o : Option TimeRequest) (b : TimerBase) → Memᴰ q b.replied → Memᴰ q (answer o b).replied
  answer-replied none b m = m
  answer-replied (some t) b m = reply_msg-keeps (finished t) b m

  tick-replied : (b : TimerBase) → Memᴰ q b.replied → Memᴰ q (timer3_irq_server b).replied
  unfolding timer3_irq_server
  tick-replied b m =
      let now = fast_add_time b.elapsed b.vblank_time in
      let v = expire now b.vblank_list in
      let w = expire now b.waituntil_list in
      let c = record b {
        current_time = fast_add_time b.current_time b.vblank_time;
        elapsed = now;
        vblank_list = v.waiting;
        waituntil_list = w.waiting;
      } in
      answer-replied w.answered (answer v.answered c) (answer-replied v.answered c m)

  ticks-replied : (n : ℕ) (b : TimerBase) → Memᴰ q b.replied → Memᴰ q (ticks n b).replied
  unfolding ticks
  ticks-replied zero b m = m
  ticks-replied (suc n) b m = ticks-replied n (timer3_irq_server b) (tick-replied b m)

-- The first request of UNIT_VBLANK is replied by the interrupt if it is due.
tick-answers :
    (b : TimerBase) (t : TimeRequest) (ts : List TimeRequest)
    → b.vblank_list ≡ t ∷ ts
    → is_due (fast_add_time b.elapsed b.vblank_time) t ≡ true
    → Memᴰ (returned (finished t)) (timer3_irq_server b).replied
unfolding timer3_irq_server reply_msg
tick-answers b t ts e d =
    let now = fast_add_time b.elapsed b.vblank_time in
    let first : (expire now b.vblank_list).answered ≡ some t =
      ap (λ l. (expire now l).answered) e ∙ ap (λ x. x.answered) (expire-head now t ts d) in
    let v = expire now b.vblank_list in
    let w = expire now b.waituntil_list in
    let c = record b {
      current_time = fast_add_time b.current_time b.vblank_time;
      elapsed = now;
      vblank_list = v.waiting;
      waituntil_list = w.waiting;
    } in
    answer-replied (returned (finished t)) w.answered (answer v.answered c) (
      subst (λ o. Memᴰ (returned (finished t)) (answer o c).replied) (sym first)
        (append_last (returned (finished t)) b.replied))

abbrev pub AllDue : ℕ → List TimeRequest → Type 0
AllDue n ts = All (λ t. IsTime t.tr_time × (usec t.tr_time < n)) ts

AllDue-weaken : (m n : ℕ) (ts : List TimeRequest) → m ≤ n → AllDue m ts → AllDue n ts
AllDue-weaken m n [] l a = tt
AllDue-weaken m n (t ∷ ts) l a = ((a.0.0, omega (arith, a.0.1)), AllDue-weaken m n ts l a.1)

-- `n` requests of UNIT_VBLANK that are all due, their times in normal form, are taken off their list by the next
-- `n` interrupts, which reply each of them with its time and io_Error at 0, if these do not overflow the seconds.
pub ticks-drain :
    (ts : List TimeRequest) (b : TimerBase)
    → b.vblank_list ≡ ts
    → HasTicks b (length ts)
    → AllDue (usec b.elapsed) ts
    → ((ticks (length ts) b).vblank_list ≡ [])
      × All (λ t. Memᴰ (returned (finished t)) (ticks (length ts) b).replied) ts
unfolding ticks
ticks-drain [] b e h a = (e, tt)
ticks-drain (r ∷ ts) b e h a =
    let t = tick b in
    let next = tick-HasTicks b (length ts) h in
    let now = fast_add_time b.elapsed b.vblank_time in
    let f = subst IsTime t.0 next.0.elapsed_ok in
    let g : usec now ≡ usec b.elapsed + usec b.vblank_time = ap usec (sym t.0) ∙ next.1 in
    let due : is_due now r ≡ true = is_due-late now r f a.0.0 (omega (arith, g, a.0.1)) in
    let left =
      t.2 ∙ ap (λ l. (expire now l).waiting) e ∙ ap (λ x. x.waiting) (expire-head now r ts due) in
    let rest =
      ticks-drain ts (timer3_irq_server b) left next.0
        (AllDue-weaken _ _ ts (omega (arith, next.1)) a.1) in
    (
      rest.0,
      (ticks-replied (returned (finished r)) (length ts) _ (tick-answers b r ts e due), rest.1),
    )
