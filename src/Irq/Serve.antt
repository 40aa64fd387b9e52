-- ===== src/Irq/Serve.antt =====
-- Which servers of src/kickstart/lib.exec/intserver.c run at an interrupt, and what is counted.
use poweros_raspi.Base.{
  ℕ, ◌+◌, ◌^◌, ◌<◌, ◌≡◌, refl, ap, Bool, true, false, Option, none, some, List, [], ◌∷◌, ◌++◌,
  Bool-cases, inl, inr,
}
use poweros_raspi.ExecList.{Ptr}
use poweros_raspi.Irq.{Servers, Pending, check_bit, serve, irq_server, count}
use poweros_raspi.Irq.Bits.{bit_number-single}

-- Just one bit is set in the register that the pending interrupt `i` is in.
pub data IsPending (r : Pending) : ℕ → Type 0 where
  in_pend1 :
      {n : ℕ}
      → n < 32
      → check_bit r.arm_irq_pend3 8 ≡ true
      → r.arm_irq_pend1 ≡ 2 ^ n
      → IsPending r n
  in_pend2 :
      {n : ℕ}
      → n < 32
      → check_bit r.arm_irq_pend3 8 ≡ false
      → check_bit r.arm_irq_pend3 9 ≡ true
      → r.arm_irq_pend2 ≡ 2 ^ n
      → IsPending r (n + 32)
  in_pend3 :
      {n : ℕ}
      → n < 32
      → check_bit r.arm_irq_pend3 8 ≡ false
      → check_bit r.arm_irq_pend3 9 ≡ false
      → r.arm_irq_pend3 ≡ 2 ^ n
      → IsPending r (n + 64)

module _ {W : Type 0} (is_handler : Ptr → ℕ → W → Bool × W) where
  -- The handlers of these servers are called in turn, and none takes the interrupt.
  pub data Refuse (number : ℕ) : List Ptr → W → W → Type 0 where
    nobody : {w : W} → Refuse number [] w w
    refuses :
        {irq : Ptr} {irqs : List Ptr} {w u : W}
        → (is_handler irq number w).0 ≡ false
        → Refuse number irqs (is_handler irq number w).1 u
        → Refuse number (irq ∷ irqs) w u

  -- The first of the servers that takes the interrupt is the last that is called; without one, all are.
  abbrev pub Served : ℕ → List Ptr → W → Option Ptr × W → Type 0
  Served number irqs w (none, u) = Refuse number irqs w u
  Served number irqs w (some irq, u) =
      (before : List Ptr) × (after : List Ptr) × (v : W) × (irqs ≡ before ++ irq ∷ after)
      × Refuse number before w v
      × (is_handler irq number v ≡ (true, u))

  pair-eta : (r : Bool × W) → r.0 ≡ true → r ≡ (true, r.1)
  pair-eta (took, u) e = ap (λ t. (t, u)) e

  later :
      (number : ℕ) (irq : Ptr) (irqs : List Ptr) (w : W) (r : Option Ptr × W)
      → (is_handler irq number w).0 ≡ false
      → Served number irqs (is_handler irq number w).1 r
      → Served number (irq ∷ irqs) w r
  later number irq irqs w (none, u) no_take s = refuses no_take s
  later number irq irqs w (some p, u) no_take (before, after, v, e, r, takes) =
      (irq ∷ before, after, v, ap (λ l. irq ∷ l) e, refuses no_take r, takes)

  pub serve-Served :
      (irqs : List Ptr) (number : ℕ) (w : W) → Served number irqs w (serve is_handler irqs number w)
  unfolding serve
  serve-Served [] number w = nobody
  serve-Served (irq ∷ irqs) number w = elim (Bool-cases (is_handler irq number w).0) [
    | inl takes ↦ rw takes ([], irqs, w, refl, nobody, pair-eta (is_handler irq number w) takes)
    | inr no_take ↦
        rw no_take
          (later number irq irqs w _ no_take (serve-Served irqs number (is_handler irq number w).1))
  ]

  -- An interrupt that is the only one pending in its register is served by the servers of its own number: they
  -- are called in their order up to the first that takes it, which counts it.
  pub irq_server-Served :
      (regs : Pending) (b : Servers) (w : W) (i : ℕ)
      → IsPending regs i
      → (r : Option Ptr × W) × Served i (b.irq_server i) w r
        × ((irq_server is_handler regs b w).1 ≡ (count r.0 b, r.1))
  unfolding irq_server
  irq_server-Served regs b w i (in_pend1 {n} lt low e) =
      rw (low, e, bit_number-single n lt)
        (serve is_handler (b.irq_server n) n w, serve-Served (b.irq_server n) n w, refl)
  irq_server-Served regs b w i (in_pend2 {n} lt low high e) =
      rw (low, high, e, bit_number-single n lt)
        (
          serve is_handler (b.irq_server (n + 32)) (n + 32) w,
          serve-Served (b.irq_server (n + 32)) (n + 32) w,
          refl,
        )
  irq_server-Served regs b w i (in_pend3 {n} lt low high e) =
      rw (low, high)
        (rw (e, bit_number-single n lt)
          (
            serve is_handler (b.irq_server (n + 64)) (n + 64) w,
            serve-Served (b.irq_server (n + 64)) (n + 64) w,
            refl,
          ))
