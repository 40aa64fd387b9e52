-- ===== src/TestDev/Pass.antt =====
-- The loop of dev_Task in src/kickstart/dev.test/_functab.c when a request and the timer come together.
use poweros_raspi.Base.{ℕ, ◌≡◌, refl, true, some, Mask}
use poweros_raspi.ExecList.{Ptr}
use poweros_raspi.Ports.{System}
use poweros_raspi.TestDev.{TestDevBase, serve_all, task_pass}

-- When Wait returns the signal of the task's port, the pass serves that port and neither counts the timer nor sends it a
-- request again, also when the signal of the timer was returned, and so cleared, with it.
pub task_pass-timer_lost :
    (cmd : Ptr → ℕ) (begin_timer : Ptr → System → System) (k : ℕ) (signal : Mask) (d : TestDevBase)
    (t : System)
    → signal (d.system.port d.task_port).mp_sig_bit ≡ true
    → signal (d.system.port d.timer_port).mp_sig_bit ≡ true
    → serve_all cmd k d.task_port d.system ≡ some t
    → task_pass cmd begin_timer k signal d ≡ some (record d { system = t })
unfolding task_pass
task_pass-timer_lost cmd begin_timer k signal d t task timer ran = rw (task, ran) refl
