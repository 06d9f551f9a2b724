-- ===== src/Memory.antt =====
-- src/lib/memory.c, a child for each layer: the physical page allocator, the page tables, the
-- kernel heap and the byte copies.
pub mod Pmm
pub mod State
pub mod Vmm
pub mod Heap
pub mod Copy
pub mod Map
pub mod Allocator
