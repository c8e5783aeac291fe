-- ===== src/Memheap/Kept.antt =====
-- What allocation and release leave as it was: the bytes of the blocks and the sizes of the others.
use nerd_rtos.Common.{
  Bool-cases, List, ap, arith, count, false, inl, inr, leb, refl, some, ℕ, ◌%◌, ◌*◌, ◌+◌, ◌-◌, ◌==◌,
  ◌∙◌, ◌≡◌, ◌≢◌, ◌≤◌,
}
use nerd_rtos.Kernel.State.{u32_mod}
use nerd_rtos.Memheap.Alloc.{
  add_available, find_fit, memheap_alloc, memheap_coalesce, memheap_free, merge_next, merge_prev,
  take_item,
}
use nerd_rtos.Memheap.Apart.{blocks_apart}
use nerd_rtos.Memheap.Invariant.{IsHeap}
use nerd_rtos.Memheap.Item.{
  MemHeap, clear_low, data_to_item, free_list_insert_after, free_list_remove, free_list_replace,
  item_data_size, item_is_free, item_next, item_size, item_split_at, item_to_data,
  phys_list_insert_after, phys_list_remove,
}

remove-bytes : (h : MemHeap) (x : ℕ) → (phys_list_remove h x).bytes ≡ h.bytes
unfolding phys_list_remove
remove-bytes h x = refl

free_remove-bytes : (h : MemHeap) (x : ℕ) → (free_list_remove h x).bytes ≡ h.bytes
unfolding free_list_remove
free_remove-bytes h x = refl

free_insert-bytes : (h : MemHeap) (a x : ℕ) → (free_list_insert_after h a x).bytes ≡ h.bytes
unfolding free_list_insert_after
free_insert-bytes h a x = refl

merge_next-bytes : (h : MemHeap) (x : ℕ) → (merge_next h x).bytes ≡ h.bytes
unfolding merge_next
merge_next-bytes h x = elim (Bool-cases (item_is_free h x)) [
  | inl e ↦ rw e (remove-bytes (free_list_remove h x) x ∙ free_remove-bytes h x)
  | inr e ↦ rw e refl
]

merge_prev-bytes : (h : MemHeap) (heap x : ℕ) → (merge_prev h heap x).bytes ≡ h.bytes
unfolding merge_prev
merge_prev-bytes h heap x = elim (Bool-cases (item_is_free h (h.prev x))) [
  | inl e ↦ rw e (remove-bytes h x)
  | inr e ↦ rw e (free_insert-bytes h heap x)
]

-- The release of a block changes no byte of any block.
pub free-bytes : (h : MemHeap) (ptr : ℕ) → (memheap_free h (some ptr)).bytes ≡ h.bytes
unfolding memheap_free memheap_coalesce
free-bytes h ptr =
    let item = data_to_item ptr in
    let h' = add_available h (item_data_size h item) in
    merge_prev-bytes (merge_next h' (item_next h' item)) (h.pool item) item
    ∙ merge_next-bytes h' (item_next h' item)

take_item-bytes : (h : MemHeap) (heap size x : ℕ) → (take_item h heap size x).bytes ≡ h.bytes
unfolding take_item phys_list_insert_after free_list_replace free_list_remove
take_item-bytes h heap size x =
    elim (Bool-cases (leb ((size + item_size) % u32_mod) (item_data_size h x))) [
      | inl e ↦ rw e refl
      | inr e ↦ rw e refl
    ]

pub alloc-bytes :
    (rounds : ℕ) (h : MemHeap) (heap size : ℕ)
    → (memheap_alloc rounds h heap size).1.bytes ≡ h.bytes
unfolding memheap_alloc
alloc-bytes rounds h heap size =
    let item = find_fit rounds h heap size (h.next_free heap) in
    elim (Bool-cases (item == heap)) [
      | inl e ↦ rw e refl
      | inr e ↦ rw e (take_item-bytes h heap size item)
    ]

take_item-next :
    (h : MemHeap) (heap size item x : ℕ)
    → x ≢ item
    → x ≢ item_split_at item size
    → (take_item h heap size item).next x ≡ h.next x
unfolding take_item phys_list_insert_after free_list_replace free_list_remove
take_item-next h heap size item x ne apart =
    let other : (item == x) ≡ false = ground (arith, ne) in
    let other' : (item_split_at item size == x) ≡ false = ground (arith, apart) in
    elim (Bool-cases (leb ((size + item_size) % u32_mod) (item_data_size h item))) [
      | inl e ↦ rw (e, other, other') refl
      | inr e ↦ rw (e, other) refl
    ]

module _ (h : MemHeap) (heap : ℕ) (bs fs : List ℕ) (x : ℕ) (f : IsHeap h heap bs fs)
    (at : count x bs ≢ 0) where
  -- The rest of a split lies within the block that is split.
  rest-apart :
      (y size : ℕ)
      → count y bs ≢ 0
      → x ≢ y
      → (size + item_size) % u32_mod ≤ item_data_size h y
      → x ≢ item_split_at y size
  rest-apart y size y_at ne fits =
      let below = f.before_heap x at in
      elim (blocks_apart h heap bs fs y x f y_at at ne) [
        | inl e ↦ omega (arith, e, fits, below, f.limited)
        | inr e ↦ omega (arith, e)
      ]

  take_item-size :
      (y size : ℕ)
      → count y bs ≢ 0
      → x ≢ y
      → item_data_size (take_item h heap size y) x ≡ item_data_size h x
  unfolding take_item free_list_remove
  take_item-size y size y_at ne =
      elim (Bool-cases (leb ((size + item_size) % u32_mod) (item_data_size h y))) [
        | inl e ↦
            ap (λ (n : ℕ). (clear_low n + (2 * u32_mod - x - item_size)) % u32_mod)
              (take_item-next h heap size y x ne (rest-apart y size y_at ne (ground (arith, e))))
        | inr e ↦ let other : (y == x) ≡ false = ground (arith, ne) in rw (e, other) refl
      ]

  -- An allocation of the block `y` does not change the size of the block `x`.
  pub alloc-size :
      (rounds size y : ℕ)
      → (memheap_alloc rounds h heap size).0 ≡ some (item_to_data y)
      → count y bs ≢ 0
      → x ≢ y
      → item_data_size (memheap_alloc rounds h heap size).1 x ≡ item_data_size h x
  unfolding memheap_alloc
  alloc-size rounds size y got y_at ne =
      let item = find_fit rounds h heap size (h.next_free heap) in
      elim (Bool-cases (item == heap)) [
        | inl e ↦ rw e refl
        | inr e ↦
            let same : item ≡ y = ground (arith, got, e) in
            rw (e, same) (take_item-size y size y_at ne)
      ]
