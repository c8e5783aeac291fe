-- ===== src/Pool.antt =====
-- kernel/nd_mempool.c: a pool of blocks of one size. A free block holds in its first four bytes the
-- pointer to the next one, lowest byte first and zero for null; `cells` is the memory. (A pointer at
-- an address that is no multiple of four is stored and read as at any other.)
pub mod Pointer
pub mod Chain
pub mod Fresh
pub mod Keeps
use Prim.Native.Nat.{bit_and}
use nerd_rtos.Common.{
  Memory, Option, [], if◌then◌else◌, ltb, memcpy, none, not, some, suc, update, zero, ℕ, ◌%◌, ◌*◌,
  ◌+◌, ◌-◌, ◌/◌, ◌==◌,
}
use nerd_rtos.Ipc.MsgQueue.{is_timeout, notify}
use nerd_rtos.Kernel.Scheduler.{scheduler}
use nerd_rtos.Kernel.State.{Kernel, timeout_nowait, u32_mod}
use nerd_rtos.Kernel.Thread.{resume_error, thread_pend}

-- sizeof(void *) on the 32-bit targets
abbrev pub pointer_size : ℕ
pointer_size = 4

-- ND_ALIGN of a 32-bit size
abbrev pub align : ℕ → ℕ → ℕ
align size unit = bit_and ((size + unit - 1) % u32_mod) (u32_mod - unit)

pub record Pool : Type 0 where
  pub start : ℕ
  pub block_size : ℕ
  pub block_count : ℕ
  pub free_count : ℕ
  pub free_list : Option ℕ
  pub wait_list : ℕ
  pub cells : Memory

-- The four bytes of a 32-bit word.
abbrev pub word_byte : ℕ → ℕ → ℕ
word_byte v i =
    if i == 0
    then v % 256
    else if i == 1
    then v / 256 % 256
    else if i == 2
    then v / 65536 % 256
    else v / 16777216 % 256

abbrev pub address : Option ℕ → ℕ
address none = 0
address (some a) = a

-- *(void **)a = o
unfoldable pub write_pointer : Memory → ℕ → Option ℕ → Memory
write_pointer m a o = memcpy m a (word_byte (address o)) 0 pointer_size

abbrev pub word_at : Memory → ℕ → ℕ
word_at m a = m a + 256 * m (a + 1) + 65536 * m (a + 2) + 16777216 * m (a + 3)

abbrev pub to_pointer : ℕ → Option ℕ
to_pointer zero = none
to_pointer (suc n) = some (suc n)

-- *(void **)a
unfoldable pub pointer_at : Memory → ℕ → Option ℕ
pointer_at m a = to_pointer (word_at m a)

abbrev pub block_at : ℕ → ℕ → ℕ → ℕ
block_at start size i = start + i * size % u32_mod

-- The loop of nd_mempool_init from index `i` on, for the rounds that are left: each block points to
-- the next, the last to none.
unfoldable pub link_blocks : ℕ → ℕ → ℕ → ℕ → ℕ → Memory → Memory
link_blocks zero i start size n cells = cells
link_blocks (suc left) i start size n cells =
    let next = if ltb i (n - 1) then some (block_at start size (i + 1)) else none in
    link_blocks left (i + 1) start size n (write_pointer cells (block_at start size i) next)

unfoldable pub mempool_init : Kernel → Pool → ℕ → ℕ → ℕ → Pool × Kernel
mempool_init k p start block_size block_count = (
  record p {
    start = start;
    block_size = align block_size pointer_size;
    block_count = block_count;
    free_count = block_count;
    free_list = some start;
    cells = link_blocks block_count 0 start block_size block_count p.cells;
  },
  record k { lists = update k.lists p.wait_list [] },
)

-- What nd_mempool_alloc has done: returned a pointer, or put the thread to sleep.
pub data Alloc : Type 0 where
  gives : Option ℕ → Alloc
  sleeps : Alloc

-- The first free block is taken.
unfoldable pub take_block : Pool → Option ℕ → Alloc × Pool
take_block p none = (gives none, p)
take_block p (some b) =
    (gives (some b), record p { free_list = pointer_at p.cells b; free_count = p.free_count - 1 })

-- A round of nd_mempool_alloc by the current thread `c`, up to where it sleeps.
unfoldable pub mempool_alloc : Kernel → ℕ → Pool → ℕ → Alloc × Pool × Kernel
mempool_alloc k c p timeout =
    let (a, p') = take_block p p.free_list in
    if not (p.free_count == 0)
    then (a, p', k)
    else if timeout == timeout_nowait
    then (gives none, p, k)
    else (sleeps, p, scheduler (thread_pend k c p.wait_list timeout))

-- What it does when its thread runs again.
unfoldable pub mempool_alloc_resume : Kernel → ℕ → Pool → ℕ → Alloc × Pool × Kernel
mempool_alloc_resume k c p timeout =
    if is_timeout (resume_error k c) then (gives none, p, k) else mempool_alloc k c p timeout

-- nd_mempool_free, without the assertions of a debug build.
unfoldable pub mempool_free : Kernel → Pool → ℕ → Pool × Kernel
mempool_free k p b = (
  record p {
    cells = write_pointer p.cells b p.free_list;
    free_list = some b;
    free_count = (p.free_count + 1) % u32_mod;
  },
  notify k p.wait_list,
)
