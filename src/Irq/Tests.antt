-- ===== src/Irq/Tests.antt =====
-- Two servers of interrupt 3: 100 refuses it, 200 takes it. Each call is noted.
use poweros_raspi.Base.{ℕ, ◌≡◌, refl, Bool, Option, List, [], ◌∷◌, ◌==◌, if◌then◌else◌, arith}
use poweros_raspi.ExecList.{Ptr}
use poweros_raspi.Irq.{Servers, Pending, add_int_server, rem_int_server, irq_server, count}
use poweros_raspi.Irq.Serve.{in_pend1, Served, irq_server-Served}

abbrev handler : Ptr → ℕ → List Ptr → Bool × List Ptr
handler irq number calls = (irq == 200, irq ∷ calls)

abbrev no_servers : Servers
no_servers = record {
  exc_server = λ n. [];
  irq_server = λ n. [];
  ln_pri = λ p. if p == 100 then 10 else 0;
  is_cycles = λ p. 7;
  is_count = λ p. 7;
}

abbrev servers : Servers
servers = record no_servers { irq_server = λ n. if n == 3 then 100 ∷ 200 ∷ 300 ∷ [] else [] }

-- The server of the higher priority is first, also if it comes later.
by_priority : (add_int_server 3 100 (add_int_server 3 200 no_servers)).irq_server 3 ≡ 100 ∷ 200 ∷ []
unfolding add_int_server
by_priority = refl

removed_server : (rem_int_server 3 200 servers).irq_server 3 ≡ 100 ∷ 300 ∷ []
unfolding rem_int_server
removed_server = refl

abbrev regs : Pending
regs = record { arm_irq_pend1 = 8; arm_irq_pend2 = 0; arm_irq_pend3 = 256 }

irq_server-Served_example :
    (r : Option Ptr × List Ptr) × Served handler 3 (100 ∷ 200 ∷ 300 ∷ []) [] r
    × ((irq_server handler regs servers []).1 ≡ (count r.0 servers, r.1))
irq_server-Served_example =
    irq_server-Served handler regs servers [] 3 (in_pend1 (omega arith) refl refl)
