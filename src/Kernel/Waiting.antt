-- ===== src/Kernel/Waiting.antt =====
-- What the calls do to the lists on which threads wait: kernel/nd_thread.c.
pub mod Kept
pub mod Order
pub mod Joiners
