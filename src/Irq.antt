-- ===== src/Irq.antt =====
-- src/kickstart/lib.exec/intserver.c: the servers of exceptions and interrupts. A struct Interrupt is its
-- address; ExcServer and IRQServer hold sequences of them. A handler is code that somebody else registers: it is
-- an argument, with what it changes as the type `W`.
pub mod Bits
pub mod Serve
mod Tests
use mathlib.Core.Option
use poweros_raspi.Base.{
  ℕ, zero, suc, ◌+◌, ◌*◌, ◌/◌, ◌%◌, ◌^◌, Bool, true, false, Option, none, some, List, [], ◌∷◌, ◌==◌,
  if◌then◌else◌, leb, u32, get_elem?,
}
use poweros_raspi.ExecList.{Ptr, null}
use poweros_raspi.ExecList.Queue.{enqueue_by, remove_by}

abbrev pub exc_vectors : ℕ
exc_vectors = 8

-- What struct Interrupt and SysBase hold of the servers. IRQServer has lists for the numbers below 85 in the source,
-- and here for every number.
pub record Servers : Type 0 where
  pub exc_server : ℕ → List Ptr
  pub irq_server : ℕ → List Ptr
  pub ln_pri : Ptr → ℕ
  pub is_cycles : Ptr → ℕ
  pub is_count : Ptr → ℕ

abbrev pub set_at : (ℕ → ℕ) → ℕ → ℕ → ℕ → ℕ
set_at f i v k = if k == i then v else f k

abbrev clear_counts : Ptr → Servers → Servers
clear_counts isr b = record b {
  is_cycles = set_at b.is_cycles isr 0;
  is_count = set_at b.is_count isr 0;
}

abbrev enqueue_at : (Ptr → ℕ) → ℕ → Ptr → (ℕ → List Ptr) → ℕ → List Ptr
enqueue_at pri n isr lists k = if k == n then enqueue_by pri isr (lists k) else lists k

-- lib_AddExcServer
unfoldable pub add_exc_server : ℕ → Ptr → Servers → Servers
add_exc_server n isr b =
    if isr == null
    then b
    else if leb n exc_vectors
    then record (clear_counts isr b) { exc_server = enqueue_at b.ln_pri n isr b.exc_server }
    else b

-- lib_AddIntServer. No UINT32 is below 0, so that its second guard never returns.
unfoldable pub add_int_server : ℕ → Ptr → Servers → Servers
add_int_server n isr b =
    if isr == null
    then b
    else record (clear_counts isr b) { irq_server = enqueue_at b.ln_pri n isr b.irq_server }

-- Remove of the node from the list it is in.
abbrev unlink : Ptr → Servers → Servers
unlink isr b = record b {
  exc_server = λ k. remove_by (λ q. q == isr) (b.exc_server k);
  irq_server = λ k. remove_by (λ q. q == isr) (b.irq_server k);
}

-- lib_RemExcServer
unfoldable pub rem_exc_server : ℕ → Ptr → Servers → Servers
rem_exc_server n isr b = if isr == null then b else unlink isr b

-- lib_RemIntServer
unfoldable pub rem_int_server : ℕ → Ptr → Servers → Servers
rem_int_server n isr b = if isr == null then b else unlink isr b

-- MultiplyDeBruijnBitPosition2
pub bit_positions : List ℕ
bit_positions =
    0 ∷ 1 ∷ 28 ∷ 2 ∷ 29 ∷ 14 ∷ 24 ∷ 3 ∷ 30 ∷ 22 ∷ 20 ∷ 15 ∷ 25 ∷ 17 ∷ 4 ∷ 8 ∷ 31 ∷ 27 ∷ 13 ∷ 23 ∷ 21
    ∷ 19 ∷ 16 ∷ 7 ∷ 26 ∷ 12 ∷ 18 ∷ 6 ∷ 11 ∷ 5 ∷ 10 ∷ 9 ∷ []

-- `MultiplyDeBruijnBitPosition2[(UINT32)(IRQBits * 0x077CB531U) >> 27]`
pub bit_number : ℕ → ℕ
unfolding bit_positions
bit_number bits = Option.get_or (get_elem? bit_positions (u32 (bits * 125613361) / 2 ^ 27)) 0

-- The pending registers of the board.
pub record Pending : Type 0 where
  pub arm_irq_pend1 : ℕ
  pub arm_irq_pend2 : ℕ
  pub arm_irq_pend3 : ℕ

-- CHECK_BIT
abbrev pub check_bit : ℕ → ℕ → Bool
check_bit var pos = (var / 2 ^ pos) % 2 == 1

-- `irq->is_Count++`
abbrev pub count : Option Ptr → Servers → Servers
count none b = b
count (some irq) b = record b { is_count = set_at b.is_count irq (u32 (b.is_count irq + 1)) }

module _ {W : Type 0} (is_handler : Ptr → ℕ → W → Bool × W) where
  -- ForeachNode over the servers: the one whose handler takes the interrupt, and what the handlers did.
  pub serve : List Ptr → ℕ → W → Option Ptr × W
  serve [] number w = (none, w)
  serve (irq ∷ irqs) number w =
      let rest = serve irqs number (is_handler irq number w).1 in
      if (is_handler irq number w).0 then (some irq, (is_handler irq number w).1) else rest

  -- The servers of a list are run, and the one that takes the interrupt counts it.
  abbrev pub run_servers : List Ptr → ℕ → Servers → W → Servers × W
  run_servers irqs number b w = let r = serve irqs number w in (count r.0 b, r.1)

  -- _ExcServer
  unfoldable pub exc_server : ℕ → Servers → W → Servers × W
  exc_server number b w = run_servers (b.exc_server number) number b w

  -- _IRQServer: the registers that it leaves, the servers and what the handlers did.
  unfoldable pub irq_server : Pending → Servers → W → Pending × (Servers × W)
  irq_server regs b w =
      let low = bit_number regs.arm_irq_pend1 in
      let high = bit_number regs.arm_irq_pend2 + 32 in
      let own = bit_number regs.arm_irq_pend3 + 64 in
      if check_bit regs.arm_irq_pend3 8
      then (
        record regs { arm_irq_pend3 = 0; arm_irq_pend1 = 0 },
        run_servers (b.irq_server low) low b w,
      )
      else if check_bit regs.arm_irq_pend3 9
      then (
        record regs { arm_irq_pend3 = 0; arm_irq_pend2 = 0 },
        run_servers (b.irq_server high) high b w,
      )
      else (record regs { arm_irq_pend3 = 0 }, run_servers (b.irq_server own) own b w)
