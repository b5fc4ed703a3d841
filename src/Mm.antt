-- ===== src/Mm.antt =====
-- Memory management: page table entries, the free list, page tables, page swapping, shared pages.
pub mod Pgtable
pub mod State
pub mod Kalloc
pub mod Table
pub mod Swap
pub mod Teardown
pub mod Share
