-- ===== src/Timer/Time.antt =====
-- src/kickstart/dev.timer/timerfuncs.c: TimeVal arithmetic on UINT32 fields, and FastAddTime of
-- _timerirq.c.
use mathlib.Core.Path.{ap₂, subst, ◌∙◌}
use poweros_raspi.Base.{
  ℕ, zero, suc, ◌+◌, ◌-◌, ◌*◌, ◌/◌, ◌%◌, ◌^◌, ◌≤◌, ◌<◌, ◌≡◌, ◌⊎◌, refl, ap, true, false, Option,
  none, some, arith, ◌==◌, ltb, if◌then◌else◌, u32, sub32, Bool-cases, inl, inr, ltb→lt, ltb→le,
}

pub record TimeVal : Type 0 where
  pub tv_secs : ℕ
  pub tv_micro : ℕ

abbrev pub time : ℕ → ℕ → TimeVal
time s u = record { tv_secs = s; tv_micro = u }

-- The INT32 results -1, 0 and 1 of timer_CmpTime.
pub data Sign : Type 0 where
  minus same plus : Sign

-- The sign of a UINT32 read as an INT32.
abbrev pub sign32 : ℕ → Sign
sign32 d = if d == 0 then same else if ltb d (2 ^ 31) then plus else minus

-- timer_CmpTime
unfoldable pub cmp_time : TimeVal → TimeVal → Sign
cmp_time src dest = sign32 (
    if dest.tv_secs == src.tv_secs
    then sub32 src.tv_micro dest.tv_micro
    else sub32 src.tv_secs dest.tv_secs)

-- `while (t->tv_micro > 999999)`, `none` without fuel.
unfoldable pub normalize : ℕ → TimeVal → Option TimeVal
normalize zero t = none
normalize (suc fuel) t =
    let rest = normalize fuel (time (u32 (t.tv_secs + 1)) (t.tv_micro - 1000000)) in
    if ltb 999999 t.tv_micro then rest else some t

-- timer_AddTime: the new `dst`. No UINT32 needs more than 4294 rounds.
unfoldable pub add_time : TimeVal → TimeVal → Option TimeVal
add_time src dst =
    normalize 4295 (time (u32 (dst.tv_secs + src.tv_secs)) (u32 (dst.tv_micro + src.tv_micro)))

-- The borrow and the subtraction of timer_SubTime.
abbrev pub borrow : TimeVal → TimeVal → TimeVal
borrow src dest =
    if ltb dest.tv_micro src.tv_micro
    then time (sub32 (sub32 dest.tv_secs 1) src.tv_secs)
        (sub32 (u32 (dest.tv_micro + 1000000)) src.tv_micro)
    else time (sub32 dest.tv_secs src.tv_secs) (sub32 dest.tv_micro src.tv_micro)

abbrev both : Option TimeVal → Option TimeVal → Option (TimeVal × TimeVal)
both (some src) (some dest) = some (src, borrow src dest)
both none d = none
both (some s) none = none

-- timer_SubTime: the new `src` and `dest`.
pub sub_time : TimeVal → TimeVal → Option (TimeVal × TimeVal)
sub_time src dest = both (normalize 4295 src) (normalize 4295 dest)

-- FastAddTime
unfoldable pub fast_add_time : TimeVal → TimeVal → TimeVal
fast_add_time d s =
    let micro = u32 (d.tv_micro + s.tv_micro) in
    let secs = u32 (d.tv_secs + s.tv_secs) in
    if ltb 999999 micro then time (u32 (secs + 1)) (micro - 1000000) else time secs micro

pub record IsTime (t : TimeVal) : Type 0 where
  pub secs : t.tv_secs < 2 ^ 32
  pub micro : t.tv_micro < 1000000

-- The microseconds that a TimeVal stands for.
abbrev pub usec : TimeVal → ℕ
usec t = t.tv_secs * 1000000 + t.tv_micro

pub normalize-eq :
    (fuel s u : ℕ)
    → s < 2 ^ 32
    → u < fuel * 1000000
    → normalize fuel (time s u) ≡ some (time (u32 (s + u / 1000000)) (u % 1000000))
unfolding normalize
normalize-eq zero s u hs hu = absurd (omega arith)
normalize-eq (suc fuel) s u hs hu = elim (Bool-cases (ltb 999999 u)) [
  | inl e ↦
      let more : 999999 < u = ground arith in
      let a : u32 (u32 (s + 1) + (u - 1000000) / 1000000) ≡ u32 (s + u / 1000000) = omega arith in
      let b : (u - 1000000) % 1000000 ≡ u % 1000000 = omega arith in
      rw e (
        normalize-eq fuel (u32 (s + 1)) (u - 1000000) (omega arith) (omega arith)
        ∙ ap₂ (λ x y. some (time x y)) a b)
  | inr e ↦
      let less : u ≤ 999999 = ground arith in
      let a : s ≡ u32 (s + u / 1000000) = omega arith in
      let b : u ≡ u % 1000000 = omega arith in rw e (ap₂ (λ x y. some (time x y)) a b)
]

normalize-normal : (t : TimeVal) → IsTime t → normalize 4295 t ≡ some t
normalize-normal t h =
    let a : u32 (t.tv_secs + t.tv_micro / 1000000) ≡ t.tv_secs = omega (arith, h.secs, h.micro) in
    let b : t.tv_micro % 1000000 ≡ t.tv_micro = omega (arith, h.micro) in
    normalize-eq 4295 t.tv_secs t.tv_micro h.secs (omega (arith, h.micro))
    ∙ ap₂ (λ x y. some (time x y)) a b

-- With no overflow of the seconds, AddTime adds: the result is in normal form and stands for the sum
-- of the microseconds.
pub add_time-usec :
    (src dst : TimeVal)
    → IsTime src
    → IsTime dst
    → src.tv_secs + dst.tv_secs + 1 < 2 ^ 32
    → (t : TimeVal) × (add_time src dst ≡ some t) × IsTime t × (usec t ≡ usec src + usec dst)
unfolding add_time
add_time-usec src dst hs hd fits =
    let s = u32 (dst.tv_secs + src.tv_secs) in
    let u = u32 (dst.tv_micro + src.tv_micro) in
    (
      time (u32 (s + u / 1000000)) (u % 1000000),
      normalize-eq 4295 s u (omega arith) (omega arith),
      omega arith,
      omega arith,
    )

borrow-back :
    (src dst t : TimeVal)
    → IsTime src
    → IsTime dst
    → IsTime t
    → usec t ≡ usec src + usec dst
    → borrow src t ≡ dst
borrow-back src dst t hs hd ht e = elim (Bool-cases (ltb t.tv_micro src.tv_micro)) [
  | inl l ↦
      let less : t.tv_micro < src.tv_micro = ltb→lt t.tv_micro src.tv_micro l in
      let b : sub32 (u32 (t.tv_micro + 1000000)) src.tv_micro ≡ dst.tv_micro = omega arith in
      let carry : t.tv_secs ≡ src.tv_secs + dst.tv_secs + 1 = omega arith in
      let a : sub32 (sub32 t.tv_secs 1) src.tv_secs ≡ dst.tv_secs = omega arith in
      rw l (ap₂ time a b)
  | inr l ↦
      let more : src.tv_micro ≤ t.tv_micro = ltb→le t.tv_micro src.tv_micro l in
      let b : sub32 t.tv_micro src.tv_micro ≡ dst.tv_micro = omega arith in
      let carry : t.tv_secs ≡ src.tv_secs + dst.tv_secs = omega arith in
      let a : sub32 t.tv_secs src.tv_secs ≡ dst.tv_secs = omega arith in rw l (ap₂ time a b)
]

-- SubTime takes back what AddTime added.
pub sub_time-add_time :
    (src dst t : TimeVal)
    → IsTime src
    → IsTime dst
    → src.tv_secs + dst.tv_secs + 1 < 2 ^ 32
    → add_time src dst ≡ some t
    → sub_time src t ≡ some (src, dst)
unfolding add_time sub_time
sub_time-add_time src dst t hs hd fits e =
    let s = u32 (dst.tv_secs + src.tv_secs) in
    let u = u32 (dst.tv_micro + src.tv_micro) in
    let n : add_time src dst ≡ some (time (u32 (s + u / 1000000)) (u % 1000000)) =
      normalize-eq 4295 s u (omega arith) (omega arith) in
    let sum : time (u32 (s + u / 1000000)) (u % 1000000) ≡ t = cc in
    let ok : IsTime t = subst IsTime sum (record { secs = omega arith; micro = omega arith }) in
    rw (normalize-normal src hs, normalize-normal t ok)
      (ap (λ d. some (src, d))
        (borrow-back src dst t hs hd ok
          (subst (λ x. usec x ≡ usec src + usec dst) sum (omega arith))))

three : (x y : ℕ) → (x < y) ⊎ ((x ≡ y) ⊎ (y < x))
three x y = ground arith

sign32-same : (x y : ℕ) → x ≡ y → y < 2 ^ 32 → sign32 (sub32 x y) ≡ same
sign32-same x y l b = let d : sub32 x y ≡ 0 = omega arith in rw d refl

sign32-minus : (x y : ℕ) → x < y → y < x + 2 ^ 31 → y < 2 ^ 32 → sign32 (sub32 x y) ≡ minus
sign32-minus x y l near b =
    let d : sub32 x y ≡ x + 2 ^ 32 - y = omega arith in
    let nonzero : (x + 2 ^ 32 - y == 0) ≡ false = ground arith in
    let high : ltb (x + 2 ^ 32 - y) (2 ^ 31) ≡ false = ground arith in rw (d, nonzero, high) refl

sign32-plus : (x y : ℕ) → y < x → x < y + 2 ^ 31 → x < 2 ^ 32 → sign32 (sub32 x y) ≡ plus
sign32-plus x y l near b =
    let d : sub32 x y ≡ x - y = omega arith in
    let nonzero : (x - y == 0) ≡ false = ground arith in
    let low : ltb (x - y) (2 ^ 31) ≡ true = ground arith in rw (d, nonzero, low) refl

-- What CmpTime returns for times in this order.
abbrev pub Ordered : TimeVal → TimeVal → Sign → Type 0
Ordered src dest minus = usec src < usec dest
Ordered src dest same = src ≡ dest
Ordered src dest plus = usec dest < usec src

-- Where the seconds are less than 2 ^ 31 apart, CmpTime is -1 only if `src` is the earlier time,
-- 0 only if the two are equal, and 1 only if `src` is the later time.
pub cmp_time-Ordered :
    (src dest : TimeVal)
    → IsTime src
    → IsTime dest
    → src.tv_secs < dest.tv_secs + 2 ^ 31
    → dest.tv_secs < src.tv_secs + 2 ^ 31
    → Ordered src dest (cmp_time src dest)
unfolding cmp_time
cmp_time-Ordered src dest hs hd a b = elim (Bool-cases (dest.tv_secs == src.tv_secs)) [
  | inl e ↦ rw e (elim (three src.tv_micro dest.tv_micro) [
    | inl l ↦
        rw (sign32-minus src.tv_micro dest.tv_micro l (omega arith) (omega arith)) (ground arith)
    | inr (inl l) ↦
        rw (sign32-same src.tv_micro dest.tv_micro l (omega arith)) (ap₂ time (ground arith) l)
    | inr (inr l) ↦
        rw (sign32-plus src.tv_micro dest.tv_micro l (omega arith) (omega arith)) (ground arith)
  ])
  | inr e ↦ elim (three src.tv_secs dest.tv_secs) [
    | inl l ↦ rw (e, sign32-minus src.tv_secs dest.tv_secs l b (omega arith)) (omega arith)
    | inr (inl l) ↦ absurd (ground arith)
    | inr (inr l) ↦ rw (e, sign32-plus src.tv_secs dest.tv_secs l a (omega arith)) (omega arith)
  ]
]

-- The single carry of FastAddTime is enough where both times are in normal form.
pub fast_add_time-usec :
    (d s : TimeVal)
    → IsTime d
    → IsTime s
    → d.tv_secs + s.tv_secs + 1 < 2 ^ 32
    → IsTime (fast_add_time d s) × (usec (fast_add_time d s) ≡ usec d + usec s)
unfolding fast_add_time
fast_add_time-usec d s hd hs fits = ground arith

pub fast_add_time-secs : (d s : TimeVal) → (fast_add_time d s).tv_secs ≤ d.tv_secs + s.tv_secs + 1
unfolding fast_add_time
fast_add_time-secs d s = ground arith
