-- ===== src/Lib.antt =====
-- A model of the NerdRTOS kernel, and what is proved of it.
--
-- Parts. The kernel is one record of globals (Kernel/State), which every operation passes on; the
-- files follow the sources:
--   Kernel/State      include/nd_thread.h, nd_timer.h, nd_def.h, globals of kernel/nd_scheduler.c
--   Kernel/Links      include/nd_list.h on the nodes that queue threads
--   Kernel/Ready      ready lists and bitmap: nd_thread_ready_add_tail, _add_head, _remove, nd_ffs
--   Kernel/Scheduler  kernel/nd_scheduler.c: nd_schedule_pick_next, nd_context_switch_cb, slices,
--                     interrupts, nd_thread_yield, nd_thread_delay
--   Kernel/Thread     kernel/nd_thread.c: create, pend, wakeup, suspend, resume, join, abort
--   Kernel/Expiry     the round of timer_expired in kernel/nd_timer.c for a thread's own timers
--   Kernel/Stack      the stacks of threads in kernel/nd_thread.c
--   Kernel/Boot       nd_scheduler_init, and the first switch of arch/arm/m3/context.S
--   Kernel/Invariant  the invariant of the kernel, and below it what concerns its operations
--   Kernel/Waiting    waiting lists: their order, and what the scheduler leaves alone
--   Ipc/Sem, Mutex, Event, MsgQueue  kernel/nd_sem.c, nd_mutex.c, nd_event.c, nd_queue.c
--   Timer             kernel/nd_timer.c: the tree of timers, in both configurations
--   Pool              kernel/nd_mempool.c; the pointers in free blocks byte by byte (Pool/Pointer)
--   Memheap           kernel/nd_memheap.c and nd_mem.c: block headers, allocation, release, nd_calloc
--   Klibc             kernel/nd_klibc.c: strings, nd_strtok_r (Token), nd_vsnprintf (Print); nd_memcpy
--                     is in Common/Bytes
--   Shell             components/shell/src/nd_shell.c: the line, the history, commands, the task
--   World             kernel and objects together, and the initialisation of objects
--   System            the steps of a world: threads' calls, interrupts, switches
--   Examples          small systems by which the theorems are tried
--   Common            shared names, tests, lists of addresses, 32-bit numbers, bits, bytes
--
-- A thread, a mutex and a list head are addresses (numbers); the heads of the ready lists are the
-- numbers below 32 (ND_THREAD_PRIORITY_MAX). A list is the sequence of the threads that its head
-- leads through, and each thread knows the list that its node is on; an insertion of a node that
-- is on a list already, or the removal of one that is on none, sets `fault`. A call that sleeps is
-- cut in two: up to the switch, and what it does when its thread runs again (queue_send_resume,
-- resume_error). nd_kernel_lock has no model of its own: a step is what runs between a lock and
-- its unlock. nd_hw_do_switch sets `switch_request`, and do_switch is the handler isr_pendsv of
-- the Cortex-M3 port.
--
-- Loops are on the structure of a list or on fuel: nd_ffs looks at 32 bits; the loop of
-- nd_thread_halt has as many rounds as its list is long. Indices, counts and clocks are taken
-- modulo 2 ^ 32 or 2 ^ 64 where the source's types wrap.
--
-- The steps of System are the calls, signals and initialisations of objects on a world that knows
-- which list heads nd_list_init has run on. A list whose head is null is taken for an empty one, so
-- a step on an object asks that its heads are initialised, and a step on a thread that the thread
-- was created; nd_list_remove on a node that is on no list sets `fault`, also on the tlist that
-- links all threads.
--
-- The strings of the shell, of the formatter and the bytes of the heap's blocks stand in one
-- memory, a function of addresses; the headers of the heap's blocks are five functions of their
-- addresses. The task of the shell is one function of a character; a command is what its call
-- makes of the shell. The formatter is given as many rounds as the format and its strings are
-- long, the search of a free block more rounds than the free list has blocks, and the loops over
-- the shell's lines the 128 rounds of its buffer.
--
-- Not modelled: names, stack frames and entry functions of threads, mutex.pending (never read);
-- the word-wise copy of nd_memcpy; the command ps; lib/rbtree.c, a copy of another project's
-- library, which is a parameter (Timer.RbTree); ports (with shell_getc, shell_putc), boards and
-- tests. The kernel's own model knows of a thread's timers only whether they are armed: one that
-- is may fire at any time. The loop of timer_expired runs for a number of rounds, the callbacks
-- being a parameter. The choice of the highest priority takes an empty list under a set bit for no
-- thread, and a wakeup on an empty list wakes none, where the source would take the list's head
-- for a thread. Threads that interrupt handlers suspend or end are left out of the steps.
pub mod Common
pub mod Kernel
pub mod Ipc
pub mod Timer
pub mod Pool
pub mod Klibc
pub mod Memheap
pub mod Shell
pub mod World
pub mod System
pub mod Examples
