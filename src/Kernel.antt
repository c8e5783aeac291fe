-- ===== src/Kernel.antt =====
-- kernel/nd_scheduler.c and kernel/nd_thread.c: the kernel's state, its operations and their laws.
pub mod State
pub mod Links
pub mod Ready
pub mod Scheduler
pub mod Thread
pub mod Stack
pub mod Expiry
pub mod Boot
pub mod Invariant
pub mod Waiting
