-- ===== src/TestDev/Tests.antt =====
-- A read at 600 and a reset at 700 wait at the port 500; their reply port is 800.
use poweros_raspi.Base.{
  ℕ, ◌≡◌, refl, some, List, [], ◌∷◌, ◌++◌, ◌==◌, if◌then◌else◌, arith, mask_none,
}
use poweros_raspi.ExecList.{Ptr}
use poweros_raspi.Tasks.{ready}
use poweros_raspi.Ports.{System}
use poweros_raspi.TestDev.{serve_all}
use poweros_raspi.TestDev.Serve.{queue, AllSettled, serve_all-answers}

abbrev waiting_at : Ptr → List Ptr
waiting_at p = if p == 500 then 600 ∷ 700 ∷ [] else []

abbrev system : System
system = record {
  base = record {
    this_task = 100;
    td_nest_cnt = 255;
    id_nest_cnt = 255;
    task_ready = [];
    task_wait = [];
    task = λ p. record {
      ln_name = [];
      ln_pri = 0;
      id_nest_cnt = 255;
      td_nest_cnt = 255;
      state = ready;
      cpu_usage = 0;
      sig_alloc = mask_none;
      sig_wait = mask_none;
      sig_recvd = mask_none;
      sig_except = mask_none;
    };
    freed = [];
  };
  port_list = [];
  port = λ p. record {
    ln_type = 7;
    ln_pri = 0;
    ln_name = [];
    mp_sig_task = 100;
    mp_msg_list = waiting_at p;
    mp_flags = 0;
    mp_sig_bit = 31;
  };
  message = λ x. record {
    ln_type = 8;
    mn_reply_port = 800;
    mn_length = 20;
    io_device = 1000;
    io_flags = 0;
    io_error = 0;
  };
}

abbrev command : Ptr → ℕ
command x = if x == 600 then 2 else 1

serve_all-answers_example :
    (t : System) × (serve_all command 3 500 system ≡ some t)
    × (queue 500 t ≡ [])
    × (queue 800 t ≡ queue 800 system ++ 600 ∷ 700 ∷ [])
    × AllSettled command (600 ∷ 700 ∷ []) t
serve_all-answers_example =
    serve_all-answers command 3 500 800 (600 ∷ 700 ∷ []) system (omega arith) refl (omega arith)
      (refl, (refl, tt)) (omega arith) (omega arith)
