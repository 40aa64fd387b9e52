-- ===== src/Semaphores/Waiting.antt =====
-- The Wait of Obtain in src/kickstart/lib.exec/semaphores.c, which stands between its Forbid and its Permit.
use poweros_raspi.Base.{
  ◌≡◌, true, false, non_zero, some, ◌∷◌, mask_and, mask_not, mask_bit, ◌==◌, arith,
  non_zero-cleared,
}
use poweros_raspi.ExecList.{null}
use poweros_raspi.Tasks.{SysBase, wait, put, forbid, comes_back}
use poweros_raspi.Tasks.Signals.{wait_signals-forbid}
use poweros_raspi.Semaphores.{wait_turn}

-- A task that has to wait for a semaphore is the last that runs: Obtain waits inside Forbid, so that Schedule
-- comes back at once. The task is then in TaskWait with the state WAIT, thisTask is NULL, and SIGF_SEMAPHORE is not
-- set, so that the loop of Wait goes round again. TDNestCnt is -1 before the Forbid.
pub wait_turn-forbid :
    (b : SysBase)
    → b.td_nest_cnt ≡ 255
    → (c : SysBase) × (wait_turn (forbid b) ≡ some (comes_back c))
      × (c.this_task ≡ null)
      × (c.task_wait ≡ b.this_task ∷ b.task_wait)
      × (c.task_ready ≡ b.task_ready)
      × ((c.task b.this_task).state ≡ wait)
      × (non_zero (mask_and (c.task b.this_task).sig_recvd (mask_bit 4)) ≡ false)
unfolding wait_turn forbid
wait_turn-forbid b permitted =
    let t = b.task b.this_task in
    let own : (b.this_task == b.this_task) ≡ true = ground arith in
    wait_signals-forbid (mask_bit 4)
      (put b.this_task (record t { sig_recvd = mask_and t.sig_recvd (mask_not (mask_bit 4)) }) b)
      permitted (rw own (non_zero-cleared t.sig_recvd (mask_bit 4)))
