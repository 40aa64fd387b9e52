-- ===== src/Timer/Device/Order.antt =====
-- The order in which AddWaiter of src/kickstart/dev.timer/io.c keeps the requests of a list.
use poweros_raspi.Base.{
  ℕ, ◌≤◌, ◌<◌, ◌≡◌, ◌^◌, refl, ap, inl, inr, true, false, List, [], ◌∷◌, ◌++◌, arith, All,
  Bool-cases,
}
use poweros_raspi.Timer.Time.{
  TimeVal, IsTime, Sign, minus, same, plus, cmp_time, usec, Ordered, cmp_time-Ordered,
}
use poweros_raspi.Timer.Device.{TimeRequest, add_waiter, is_minus}

-- A time in normal form that is comparable with all others of its kind.
pub record IsNear (t : TimeVal) : Type 0 where
  pub is_time : IsTime t
  pub near : t.tv_secs < 2 ^ 31

abbrev pub AllNear : List TimeRequest → Type 0
AllNear ts = All (λ t. IsNear t.tr_time) ts

abbrev pub AllUntil : ℕ → List TimeRequest → Type 0
AllUntil n ts = All (λ t. usec t.tr_time ≤ n) ts

-- Every request is at least as late as all that follow it.
abbrev pub IsLatestFirst : List TimeRequest → Type 0
IsLatestFirst [] = Unit
IsLatestFirst (t ∷ ts) = AllUntil (usec t.tr_time) ts × IsLatestFirst ts

minus-earlier : (a b : TimeVal) (s : Sign) → Ordered a b s → is_minus s ≡ true → usec a < usec b
minus-earlier a b minus o e = o
minus-earlier a b same o e = absurd (ground arith)
minus-earlier a b plus o e = absurd (ground arith)

other-later : (a b : TimeVal) (s : Sign) → Ordered a b s → is_minus s ≡ false → usec b ≤ usec a
other-later a b minus o e = absurd (ground arith)
other-later a b same o e = ground (arith, ap usec o)
other-later a b plus o e = omega arith

pub near-Ordered : (a b : TimeVal) → IsNear a → IsNear b → Ordered a b (cmp_time a b)
near-Ordered a b na nb =
    cmp_time-Ordered a b na.is_time nb.is_time (omega (arith, na.near)) (omega (arith, nb.near))

AllUntil-weaken : (m n : ℕ) (ts : List TimeRequest) → m ≤ n → AllUntil m ts → AllUntil n ts
AllUntil-weaken m n [] l a = tt
AllUntil-weaken m n (t ∷ ts) l a = (omega (arith, a.0), AllUntil-weaken m n ts l a.1)

add_waiter-All :
    (P : TimeRequest → Type 0) (r : TimeRequest) (ts : List TimeRequest)
    → P r
    → All P ts
    → All P (add_waiter r ts)
unfolding add_waiter
add_waiter-All P r [] p a = (p, tt)
add_waiter-All P r (t ∷ ts) p a = elim (Bool-cases (is_minus (cmp_time t.tr_time r.tr_time))) [
  | inl e ↦ rw e (p, a)
  | inr e ↦ rw e (a.0, add_waiter-All P r ts p a.1)
]

-- `ys` are `xs` with `q` put in at one place.
pub record Inserted (q : TimeRequest) (xs ys : List TimeRequest) : Type 0 where
  pub before : List TimeRequest
  pub behind : List TimeRequest
  pub all_before : xs ≡ before ++ behind
  pub all_after : ys ≡ before ++ (q ∷ behind)

Inserted-on :
    (q t : TimeRequest) (xs ys : List TimeRequest) → Inserted q xs ys → Inserted q (t ∷ xs) (t ∷ ys)
Inserted-on q t xs ys i = record {
  before = t ∷ i.before;
  behind = i.behind;
  all_before = ap (◌∷◌ t) i.all_before;
  all_after = ap (◌∷◌ t) i.all_after;
}

pub add_waiter-Inserted :
    (r : TimeRequest) (ts : List TimeRequest) → Inserted r ts (add_waiter r ts)
unfolding add_waiter
add_waiter-Inserted r [] = record { before = []; behind = []; all_before = refl; all_after = refl }
add_waiter-Inserted r (t ∷ ts) = elim (Bool-cases (is_minus (cmp_time t.tr_time r.tr_time))) [
  | inl e ↦ rw e (record { before = []; behind = t ∷ ts; all_before = refl; all_after = refl })
  | inr e ↦ rw e (Inserted-on r t ts _ (add_waiter-Inserted r ts))
]

add_waiter-ordered :
    (r : TimeRequest) (ts : List TimeRequest)
    → IsNear r.tr_time
    → AllNear ts
    → IsLatestFirst ts
    → IsLatestFirst (add_waiter r ts)
unfolding add_waiter
add_waiter-ordered r [] n a o = (tt, tt)
add_waiter-ordered r (t ∷ ts) n a o =
    let order = near-Ordered t.tr_time r.tr_time a.0 n in
    elim (Bool-cases (is_minus (cmp_time t.tr_time r.tr_time))) [
      | inl e ↦
          let less : usec t.tr_time < usec r.tr_time = minus-earlier _ _ _ order e in
          let low : usec t.tr_time ≤ usec r.tr_time = omega arith in
          rw e ((low, AllUntil-weaken _ _ ts low o.0), o)
      | inr e ↦ rw e (
        add_waiter-All (λ u. usec u.tr_time ≤ usec t.tr_time) r ts (other-later _ _ _ order e) o.0,
        add_waiter-ordered r ts n a.1 o.1,
      )
    ]

-- AddWaiter puts the request into the list at one place, leaves the others as they are, and keeps the order of
-- the latest request first, when all times are in normal form with seconds below 2 ^ 31.
pub add_waiter-IsLatestFirst :
    (r : TimeRequest) (ts : List TimeRequest)
    → IsNear r.tr_time
    → AllNear ts
    → IsLatestFirst ts
    → Inserted r ts (add_waiter r ts) × IsLatestFirst (add_waiter r ts)
add_waiter-IsLatestFirst r ts n a o = (add_waiter-Inserted r ts, add_waiter-ordered r ts n a o)
