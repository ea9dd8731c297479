-- ===== src/Process.antt =====
-- Processes: their table, the scheduler, semaphores and messages.
pub mod State
pub mod Sched
pub mod Semaphores
pub mod Counts
pub mod Many
pub mod Messages
pub mod Ready
pub mod Highest
pub mod Resume
pub mod Suspend
pub mod Timers
pub mod Sleepers
pub mod Wakeup
pub mod Clock
pub mod Tick
pub mod Asleep
pub mod Lines
pub mod Waiting
pub mod Context
pub mod Stack
pub mod Create
pub mod End
pub mod Created
mod Tests
