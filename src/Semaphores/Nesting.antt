-- ===== src/Semaphores/Nesting.antt =====
-- A semaphore that only one task wants, as src/kickstart/lib.exec/semaphores.c counts its nesting.
use mathlib.Core.Path.{subst}
use native.Mathlib.Nat.{add-zero}
use poweros_raspi.Base.{
  ℕ, zero, suc, ◌+◌, ◌-◌, ◌<◌, ◌≡◌, ◌≢◌, ◌^◌, refl, true, false, none, some, Option, [], arith,
  ◌==◌, u32, sub32,
}
use poweros_raspi.ExecList.{Ptr, null}
use poweros_raspi.Semaphores.{
  SignalSemaphore, Obtained, owns, waits, init_semaphore, obtain, attempt, release,
}

-- Nobody owns the semaphore or waits for it.
pub record IsFree (s : SignalSemaphore) : Type 0 where
  pub no_owner : s.ss_owner ≡ null
  pub no_nest : s.ss_nest_count ≡ 0
  pub no_count : s.ss_queue_count ≡ 4294967295
  pub no_waiter : s.ss_wait_queue ≡ []

-- The task `me` owns it `n` times, and nobody waits.
pub record IsHeld (me : Ptr) (n : ℕ) (s : SignalSemaphore) : Type 0 where
  pub owner : s.ss_owner ≡ me
  pub nested : s.ss_nest_count ≡ n
  pub counted : s.ss_queue_count + 1 ≡ n
  pub no_waiter : s.ss_wait_queue ≡ []

pub init_semaphore-IsFree : (s : SignalSemaphore) → IsFree (init_semaphore s)
unfolding init_semaphore
init_semaphore-IsFree s = record {
  no_owner = refl;
  no_nest = refl;
  no_count = refl;
  no_waiter = refl;
}

pub obtain-first :
    (me : Ptr) (s : SignalSemaphore)
    → IsFree s
    → (t : SignalSemaphore) × (obtain me s ≡ owns t) × IsHeld me 1 t
unfolding obtain
obtain-first me s f =
    let count : u32 (s.ss_queue_count + 1) ≡ 0 = omega (arith, f.no_count) in
    let test : (u32 (s.ss_queue_count + 1) == 0) ≡ true = ground arith in
    rw test (
      _,
      refl,
      record {
        owner = refl;
        nested = omega (arith, f.no_nest);
        counted = omega arith;
        no_waiter = f.no_waiter;
      },
    )

pub obtain-again :
    (me : Ptr) (n : ℕ) (s : SignalSemaphore)
    → 0 < n
    → n < 2 ^ 32 - 1
    → IsHeld me n s
    → (t : SignalSemaphore) × (obtain me s ≡ owns t) × IsHeld me (n + 1) t
unfolding obtain
obtain-again me n s pos small h =
    let count : u32 (s.ss_queue_count + 1) ≡ n = omega (arith, h.counted) in
    let test : (u32 (s.ss_queue_count + 1) == 0) ≡ false = ground arith in
    let own : (s.ss_owner == me) ≡ true = ground (arith, h.owner) in
    rw (test, own)
      (
        _,
        refl,
        record {
          owner = h.owner;
          nested = omega (arith, h.nested);
          counted = omega arith;
          no_waiter = h.no_waiter;
        },
      )

pub release-inner :
    (me : Ptr) (n : ℕ) (s : SignalSemaphore)
    → 0 < n
    → n < 2 ^ 32 - 1
    → IsHeld me (n + 1) s
    → IsHeld me n (release s).1
unfolding release
release-inner me n s pos small h =
    let down : sub32 s.ss_nest_count 1 ≡ n = omega (arith, h.nested) in
    let test : (sub32 s.ss_nest_count 1 == 0) ≡ false = ground arith in
    rw test (record {
      owner = h.owner;
      nested = down;
      counted = omega (arith, h.counted);
      no_waiter = h.no_waiter;
    })

pub release-last : (me : Ptr) (s : SignalSemaphore) → IsHeld me 1 s → IsFree (release s).1
unfolding release
release-last me s h =
    let down : sub32 s.ss_nest_count 1 ≡ 0 = omega (arith, h.nested) in
    let test : (sub32 s.ss_nest_count 1 == 0) ≡ true = ground arith in
    rw (test, h.no_waiter)
      (record { no_owner = refl; no_nest = down; no_count = refl; no_waiter = refl })

-- While another task holds the semaphore, Attempt fails and leaves it as it was.
pub attempt-held :
    (me other : Ptr) (n : ℕ) (s : SignalSemaphore)
    → me ≢ other
    → 0 < n
    → n < 2 ^ 32 - 1
    → IsHeld me n s
    → attempt other s ≡ (false, s)
unfolding attempt
attempt-held me other n s ne pos small h =
    let count : u32 (s.ss_queue_count + 1) ≡ n = omega (arith, h.counted) in
    let back : sub32 (u32 (s.ss_queue_count + 1)) 1 ≡ s.ss_queue_count = omega (arith, h.counted) in
    let test : (u32 (s.ss_queue_count + 1) == 0) ≡ false = ground arith in
    let own : (s.ss_owner == other) ≡ false = ground (arith, h.owner) in rw (test, own, back) refl

abbrev pub and_then : Obtained → (SignalSemaphore → Option SignalSemaphore) → Option SignalSemaphore
and_then (owns s) f = f s
and_then (waits s) f = none

-- `n` more calls of Obtain by the task that owns the semaphore.
pub obtains : ℕ → Ptr → SignalSemaphore → Option SignalSemaphore
obtains zero me s = some s
obtains (suc n) me s = and_then (obtain me s) (obtains n me)

pub releases : ℕ → SignalSemaphore → SignalSemaphore
releases zero s = s
releases (suc n) s = releases n (release s).1

obtains-IsHeld :
    (k n : ℕ) (me : Ptr) (s : SignalSemaphore)
    → 0 < n
    → n + k < 2 ^ 32
    → IsHeld me n s
    → (t : SignalSemaphore) × (obtains k me s ≡ some t) × IsHeld me (n + k) t
unfolding obtains
obtains-IsHeld zero n me s pos small h = (s, refl, rw add-zero h)
obtains-IsHeld (suc k) n me s pos small h =
    let (t, got, held) = obtain-again me n s pos (omega arith) h in
    let (u, ran, all) = obtains-IsHeld k (n + 1) me t (omega arith) (omega arith) held in
    let sum : n + 1 + k ≡ n + suc k = omega arith in
    (u, rw got ran, subst (λ x. IsHeld me x u) sum all)

releases-IsFree :
    (n : ℕ) (me : Ptr) (s : SignalSemaphore)
    → suc n < 2 ^ 32
    → IsHeld me (suc n) s
    → IsFree (releases (suc n) s)
unfolding releases
releases-IsFree zero me s small h = release-last me s h
releases-IsFree (suc n) me s small h =
    releases-IsFree n me (release s).1 (omega arith) (
      release-inner me (suc n) s (omega arith) (omega arith)
        (subst (λ x. IsHeld me x s) (succ n) h))
  where
    succ : (n : ℕ) → suc (suc n) ≡ suc n + 1
    succ n = omega arith

-- The nested use of a semaphore: a task that obtains a free one `n + 1` times without waiting and then
-- releases it as often leaves it free.
pub obtain-release :
    (n : ℕ) (me : Ptr) (s : SignalSemaphore)
    → suc n < 2 ^ 32
    → IsFree s
    → (t : SignalSemaphore) × (obtains (suc n) me s ≡ some t) × IsFree (releases (suc n) t)
unfolding obtains
obtain-release n me s small f =
    let (t, got, held) = obtain-first me s f in
    let (u, ran, all) = obtains-IsHeld n 1 me t (omega arith) (omega arith) held in
    let sum : 1 + n ≡ suc n = omega arith in
    (u, rw got ran, releases-IsFree n me u small (subst (λ x. IsHeld me x u) sum all))
