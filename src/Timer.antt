-- ===== src/Timer.antt =====
-- src/kickstart/dev.timer: the time arithmetic (timerfuncs.c), the requests (io.c, timerdevice.c),
-- and the interrupt that answers them (_timerirq.c).
pub mod Time
pub mod Device
mod Tests
