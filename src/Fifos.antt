-- ===== src/Fifos.antt =====
-- FIFOS-1 and FIFOS-2: the text screen, the thread control blocks, the context switch, the scheduler, the
-- threads that yield and those that a timer interrupts, the descriptors of the interrupts, and the start.
pub mod Display
pub mod Interrupt
pub mod Thread
pub mod Create
pub mod Switch
pub mod Scheduler
pub mod Preempt
pub mod Boot
pub mod Start
pub mod Examples
