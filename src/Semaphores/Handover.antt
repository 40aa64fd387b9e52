-- ===== src/Semaphores/Handover.antt =====
-- A semaphore that src/kickstart/lib.exec/semaphores.c hands over to a task that waits for it.
use poweros_raspi.Base.{ℕ, ◌≡◌, ◌≢◌, refl, false, none, List, [], ◌∷◌, arith, ◌==◌}
use poweros_raspi.ExecList.{Ptr}
use poweros_raspi.Semaphores.{
  SignalSemaphore, simple, Obtained, owns, waits, obtain, obtain_woken, release,
}
use poweros_raspi.Semaphores.Nesting.{IsFree}

abbrev pub held_of : Obtained → SignalSemaphore
held_of (owns s) = s
held_of (waits s) = s

-- `a` obtains the semaphore, `b` waits for it, `a` releases it, `b` goes on, and `c` waits.
abbrev pub contended : Ptr → Ptr → Ptr → SignalSemaphore → SignalSemaphore
contended a b c s =
    let owned = held_of (obtain a s) in
    let wanted = held_of (obtain b owned) in
    let passed_on = obtain_woken b (release wanted).1 in held_of (obtain c passed_on)

abbrev make : Ptr → ℕ → ℕ → List Ptr → SignalSemaphore
make owner nested counted waiters = record {
  ss_owner = owner;
  ss_nest_count = nested;
  ss_queue_count = counted;
  ss_type = simple;
  ss_wait_queue = waiters;
}

obtain-free : (a : Ptr) (s : SignalSemaphore) → IsFree s → held_of (obtain a s) ≡ make a 1 0 []
unfolding obtain
obtain-free a s f = rw (f.no_count, f.no_nest, f.no_waiter) refl

obtain-waits :
    (a b : Ptr) (n : ℕ) → a ≢ b → held_of (obtain b (make a n 0 [])) ≡ make a n 1 (b ∷ [])
unfolding obtain
obtain-waits a b n ne = let other : (a == b) ≡ false = ground arith in rw other refl

release-passes : (a b : Ptr) → (release (make a 1 1 (b ∷ []))).1 ≡ make b 1 0 []
unfolding release
release-passes a b = refl

obtain_woken-nests : (b : Ptr) → obtain_woken b (make b 1 0 []) ≡ make b 2 0 []
unfolding obtain_woken
obtain_woken-nests b = refl

release-keeps : (b c : Ptr) → release (make b 2 1 (c ∷ [])) ≡ (none, make b 1 0 (c ∷ []))
unfolding release
release-keeps b c = refl

contended-eq :
    (a b c : Ptr) (s : SignalSemaphore)
    → a ≢ b
    → b ≢ c
    → IsFree s
    → contended a b c s ≡ make b 2 1 (c ∷ [])
contended-eq a b c s ab bc f =
    rw (obtain-free a s f, obtain-waits a b 1 ab, release-passes a b, obtain_woken-nests b)
      (obtain-waits b c 2 bc)

-- After a hand-over to `b` the nesting is counted twice: when `b` releases the semaphore, the task `c` that
-- waits is not signalled, and `b` stays the owner.
pub contended-stuck :
    (a b c : Ptr) (s : SignalSemaphore)
    → a ≢ b
    → b ≢ c
    → IsFree s
    → ((release (contended a b c s)).0 ≡ none)
      × ((release (contended a b c s)).1.ss_owner ≡ b)
      × ((release (contended a b c s)).1.ss_wait_queue ≡ c ∷ [])
contended-stuck a b c s ab bc f =
    rw (contended-eq a b c s ab bc f, release-keeps b c) (refl, refl, refl)
