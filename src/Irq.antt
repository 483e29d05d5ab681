-- ===== src/Irq.antt =====
-- Interrupts: opencores_driver/src/driver/int.c, and the waiting loop of ioctl.c that its handler
-- wakes.
pub mod Handler
pub mod Handled
pub mod Wait
pub mod Waiters
mod Tests
