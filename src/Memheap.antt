-- ===== src/Memheap.antt =====
-- The heap, kernel/nd_memheap.c and nd_mem.c.
pub mod Item
pub mod Alloc
pub mod System
pub mod Ring
pub mod FirstFit
pub mod Spaced
pub mod Links
pub mod Take
pub mod Split
pub mod Apart
pub mod Allocated
pub mod Init
pub mod Merge
pub mod Marks
pub mod Release
pub mod Zeroed
pub mod Kept
pub mod Moved
pub mod Invariant
