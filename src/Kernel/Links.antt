-- ===== src/Kernel/Links.antt =====
-- include/nd_list.h on the nodes that threads are queued by. A list is what its head leads
-- through; each node knows the head of its list.
use nerd_rtos.Common.{
  Bool, List, [], erase, false, inl, inr, is_empty, length, refl, true, update, ℕ, ◌%◌, ◌++◌, ◌||◌,
  ◌∷◌, ◌≡◌, ◌⊎◌,
}
use nerd_rtos.Kernel.State.{Kernel, Link, on, self, set_thread, u32_mod, unlinked}

abbrev pub is_on : Link → Bool
is_on (on h) = true
is_on unlinked = false
is_on self = false

pub Link-cases : (l : Link) → (l ≡ unlinked) ⊎ ((l ≡ self) ⊎ ((h : ℕ) × (l ≡ on h)))
Link-cases unlinked = inl refl
Link-cases self = inr (inl refl)
Link-cases (on h) = inr (inr (h, refl))

-- nd_list_is_linked: the node's `next` is not null.
abbrev pub is_linked : Link → Bool
is_linked unlinked = false
is_linked self = true
is_linked (on h) = true

-- nd_list_is_empty of the list with head `h`.
abbrev pub list_is_empty : Kernel → ℕ → Bool
list_is_empty k h = is_empty (k.lists h)

abbrev pub link : Kernel → ℕ → ℕ → List ℕ → Kernel
link k h t ts = record k {
  lists = update k.lists h ts;
  threads = update k.threads t (record (k.threads t) { qnode = on h });
  fault = k.fault || is_on (k.threads t).qnode;
}

-- nd_list_insert_before at the head: the node becomes the last.
unfoldable pub list_insert_before : Kernel → ℕ → ℕ → Kernel
list_insert_before k h t = link k h t (k.lists h ++ t ∷ [])

-- nd_list_insert_after at the head: the node becomes the first.
unfoldable pub list_insert_after : Kernel → ℕ → ℕ → Kernel
list_insert_after k h t = link k h t (t ∷ k.lists h)

unfoldable pub unlink : Kernel → ℕ → Link → Kernel
unlink k t unlinked = record k { fault = true }
unlink k t self = set_thread k t (record (k.threads t) { qnode = unlinked })
unlink k t (on h) = record k {
  lists = update k.lists h (erase t (k.lists h));
  threads = update k.threads t (record (k.threads t) { qnode = unlinked });
}

-- nd_list_remove: the node leaves its list and its pointers become null; on a node whose pointers
-- are null already it writes through them.
unfoldable pub list_remove : Kernel → ℕ → Kernel
unfolding unlink
list_remove k t = unlink k t (k.threads t).qnode

-- nd_list_length
abbrev pub list_length : Kernel → ℕ → ℕ
list_length k h = length (k.lists h) % u32_mod
