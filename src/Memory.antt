-- ===== src/Memory.antt =====
-- kernel/memory: the frame allocator and the kernel heap.
pub mod Pmm
pub mod Vmm
pub mod Kheap
