-- ===== src/Ipc.antt =====
-- The objects by which threads wait for one another: kernel/nd_sem.c, nd_mutex.c, nd_event.c.
pub mod Sem
pub mod Mutex
pub mod Event
pub mod MsgQueue
