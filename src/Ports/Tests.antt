-- ===== src/Ports/Tests.antt =====
-- Task 100 runs, and 200 is ready. The port 1000 belongs to task 100.
use poweros_raspi.Base.{
  ◌≡◌, refl, true, false, some, [], ◌∷◌, arith, ◌==◌, if◌then◌else◌, mask_none, mask_bit,
}
use poweros_raspi.ExecList.{null}
use poweros_raspi.Tasks.{State, run, ready, invalid, Task, SysBase, is_wait}
use poweros_raspi.Ports.{
  System, put_msg, reply_msg, create_msg_port, delete_msg_port, wait_port, Outcome, check_io,
  nt_freemsg, signal_port,
}
use poweros_raspi.Tasks.Signals.{KeepsOthers}
use poweros_raspi.Ports.Messages.{
  get_all, put_all, get_all-put_all, put_msg-arrives, delete_msg_port-create_msg_port,
}
use poweros_raspi.Ports.Waiting.{CanSwitch, Ends, wait_port-Ends}

abbrev make_task : State → Task
make_task s = record {
  ln_name = [];
  ln_pri = 0;
  id_nest_cnt = 255;
  td_nest_cnt = 255;
  state = s;
  cpu_usage = 0;
  sig_alloc = mask_bit 31;
  sig_wait = mask_none;
  sig_recvd = mask_bit 31;
  sig_except = mask_none;
}

abbrev tasks : SysBase
tasks = record {
  this_task = 100;
  td_nest_cnt = 255;
  id_nest_cnt = 255;
  task_ready = 200 ∷ [];
  task_wait = [];
  task = λ p.
      if p == 100 then make_task run else if p == 200 then make_task ready else make_task invalid;
  freed = [];
}

abbrev system : System
system = record {
  base = tasks;
  port_list = [];
  port = λ p. record {
    ln_type = 7;
    ln_pri = 0;
    ln_name = [];
    mp_sig_task = 100;
    mp_msg_list = [];
    mp_flags = 0;
    mp_sig_bit = 31;
  };
  message = λ x. record {
    ln_type = 0;
    mn_reply_port = null;
    mn_length = 20;
    io_device = null;
    io_flags = 0;
    io_error = 0;
  };
}

tasks-CanSwitch : CanSwitch tasks
tasks-CanSwitch = record {
  consistent = record {
    lists = record {
      ready_states = (refl, tt);
      wait_states = tt;
      by_pri = tt;
      ready_distinct = ground arith;
      wait_distinct = tt;
      ready_nonnull = ground arith;
      wait_nonnull = tt;
    };
    current = ground arith;
    running = refl;
  };
  permitted = omega arith;
  some_ready = refl;
}

-- A message without a reply port is free after ReplyMsg.
freed_message : ((reply_msg 5 system).message 5).ln_type ≡ nt_freemsg
unfolding reply_msg
freed_message = refl

-- CheckIO gives a request that is under way.
under_way : check_io 5 (put_msg 1000 5 system) ≡ 5
unfolding check_io put_msg signal_port
under_way = refl

get_all_run : get_all 3 1000 (put_all 1000 (1 ∷ 2 ∷ 3 ∷ []) system) ≡ 1 ∷ 2 ∷ 3 ∷ []
get_all_run = get_all-put_all 1000 (1 ∷ 2 ∷ 3 ∷ []) system refl

put_msg-arrives_example :
    let r = put_msg 1000 5 system in
    ((r.port 1000).mp_msg_list ≡ 5 ∷ [])
    × ((r.base.task 100).sig_recvd 31 ≡ true)
    × (is_wait (r.base.task 100).state ≡ false)
put_msg-arrives_example = put_msg-arrives 1000 5 system (ground arith) refl

delete_msg_port-create_msg_port_example :
    let r = create_msg_port 3000 system in
    let t = delete_msg_port r.0 r.1 in
    (r.0 ≡ 3000)
    × ((t.base.task 100).sig_alloc 30 ≡ (tasks.task 100).sig_alloc 30)
    × KeepsOthers 30 (r.1.port 3000).mp_sig_bit (tasks.task 100) (t.base.task 100)
    × (t.base.freed ≡ 3000 ∷ [])
delete_msg_port-create_msg_port_example =
    delete_msg_port-create_msg_port 3000 30 30 system (ground arith) (omega arith) refl

wait_port-Ends_example : (o : Outcome) × (wait_port 2 1000 system ≡ some o) × Ends 1000 system o
wait_port-Ends_example = wait_port-Ends 1000 system tasks-CanSwitch
