-- ===== src/Examples/Blocks.antt =====
-- The theorems on pools at a pool of three blocks of eight bytes.
use nerd_rtos.Common.{[], arith, count, inl, none, some, ℕ, ◌∷◌, ◌≡◌, ◌≢◌}
use nerd_rtos.Examples.{blank}
use nerd_rtos.Pool.{Pool, gives, mempool_alloc, mempool_free, mempool_init}
use nerd_rtos.Pool.Chain.{IsPool, mempool_alloc-first, mempool_free-first}
use nerd_rtos.Pool.Fresh.{blocks, mempool_init-IsPool}
use nerd_rtos.Pool.Pointer.{IsDistant}

abbrev raw_pool : Pool
raw_pool = record {
  start = 0;
  block_size = 0;
  block_count = 0;
  free_count = 0;
  free_list = none;
  wait_list = 6000;
  cells = λ a. 0;
}

abbrev fresh_pool : Pool
fresh_pool = (mempool_init blank raw_pool 100 8 3).0

mempool_init-IsPool_example : IsPool fresh_pool (blocks 3 0 100 8)
mempool_init-IsPool_example =
    mempool_init-IsPool blank raw_pool 100 8 3 (omega arith) (omega arith) (omega arith)
      (omega arith)

fresh_pool-IsPool : IsPool fresh_pool (100 ∷ 108 ∷ 116 ∷ [])
unfolding blocks
fresh_pool-IsPool =
    mempool_init-IsPool blank raw_pool 100 8 3 (omega arith) (omega arith) (omega arith)
      (omega arith)

mempool_alloc-first_example :
    let (a, p', k') = mempool_alloc blank 0 fresh_pool 0 in
    (a ≡ gives (some 100)) × IsPool p' (108 ∷ 116 ∷ []) × (k' ≡ blank)
mempool_alloc-first_example =
    mempool_alloc-first blank 0 fresh_pool 0 100 (108 ∷ 116 ∷ []) fresh_pool-IsPool

abbrev used_pool : Pool
used_pool = (mempool_alloc blank 0 fresh_pool 0).1

used_pool-IsPool : IsPool used_pool (108 ∷ 116 ∷ [])
used_pool-IsPool =
    (mempool_alloc-first blank 0 fresh_pool 0 100 (108 ∷ 116 ∷ []) fresh_pool-IsPool).1

apart_from_free : (d : ℕ) → count d (108 ∷ 116 ∷ []) ≢ 0 → IsDistant 100 d
unfolding count
apart_from_free d at = inl (ground (arith, at))

mempool_free-first_example : IsPool (mempool_free blank used_pool 100).0 (100 ∷ 108 ∷ 116 ∷ [])
mempool_free-first_example =
    mempool_free-first blank used_pool 100 (108 ∷ 116 ∷ []) used_pool-IsPool
      (record { not_null = omega arith; in_range = omega arith }) apart_from_free (omega arith)
