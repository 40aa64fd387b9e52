-- ===== src/TestDev.antt =====
-- src/kickstart/dev.test: the commands of testdev.device (testdevice.c, _performio.c), and the task that serves its port
-- (_functab.c), over the messages and ports of Ports. io_Command, which nothing writes here, is an argument.
pub mod Serve
pub mod Pass
mod Tests
use mathlib.Core.Option
use poweros_raspi.Base.{
  ℕ, zero, suc, ◌+◌, ◌%◌, ◌^◌, Bool, true, false, ◌&&◌, ◌||◌, not, Option, none, some, ◌==◌,
  if◌then◌else◌, bit_and, u32, Mask,
}
use poweros_raspi.ExecList.{Ptr, null}
use poweros_raspi.Ports.{
  System, Message, put_message, put_msg, get_msg, reply_msg, is_quick, send_io,
}

abbrev pub cmd_read : ℕ
cmd_read = 2

abbrev pub cmd_write : ℕ
cmd_write = 3

abbrev pub cmd_update : ℕ
cmd_update = 4

-- IOERR_NOCMD as an INT8.
abbrev pub nocmd : ℕ
nocmd = 253

abbrev pub set_error : Ptr → ℕ → System → System
set_error x e s = put_message x (record (s.message x) { io_error = e }) s

-- The switch of tdev_PerformIO.
abbrev pub error_of : ℕ → ℕ
error_of command = if command == cmd_read then 0 else if command == cmd_update then 0 else nocmd

-- tdev_PerformIO, whose result is always TRUE.
unfoldable pub perform_io : (Ptr → ℕ) → Ptr → System → System
perform_io io_command x s = set_error x (error_of (io_command x)) s

-- `io_Flags &= ~IOF_QUICK`
abbrev pub clear_quick : Ptr → System → System
clear_quick x s =
    put_message x (record (s.message x) { io_flags = bit_and (s.message x).io_flags 254 }) s

-- tdev_BeginIO, with the TaskPort of the device.
unfoldable pub tdev_begin_io : (Ptr → ℕ) → Ptr → Ptr → System → System
tdev_begin_io io_command task_port x s =
    let s = set_error x 0 s in
    let queued = clear_quick x (put_msg task_port x s) in
    let done = perform_io io_command x s in
    if is_quick (s.message x)
    then if io_command x == cmd_read || io_command x == cmd_write then queued else done
    else queued

-- tdev_AbortIO
unfoldable pub tdev_abort_io : Ptr → System → System
tdev_abort_io x s = set_error x 0 s

-- The loop of dev_Task over the messages of its port: `none` without fuel.
pub serve_all : (Ptr → ℕ) → ℕ → Ptr → System → Option System
serve_all io_command zero port s = none
serve_all io_command (suc k) port s =
    let (x, s1) = get_msg port s in
    let rest = serve_all io_command k port (reply_msg x (perform_io io_command x s1)) in
    if x == null then some s1 else rest

-- What dev_Task keeps: struct TestDevBase, and the system.
pub record TestDevBase : Type 0 where
  pub task_port : Ptr
  pub timer_port : Ptr
  pub timer_unit : Ptr
  pub timer : ℕ
  pub system : System

-- The body of the loop of dev_Task, for the signals that Wait has returned; `begin_timer` is the BeginIO of timer.device.
unfoldable pub task_pass :
    (Ptr → ℕ) → (Ptr → System → System) → ℕ → Mask → TestDevBase → Option TestDevBase
task_pass io_command begin_timer k signal d =
    if signal (d.system.port d.task_port).mp_sig_bit
    then Option.map (λ s. record d { system = s }) (serve_all io_command k d.task_port d.system)
    else some
        (record d { timer = u32 (d.timer + 1); system = send_io begin_timer d.timer_unit d.system })
