-- ===== src/Memory.antt =====
-- kernel/memory.c.
mod Tests
pub mod Sample
pub mod Machine
pub mod Entry
pub mod Bitmap
pub mod Paging
pub mod Virtual
pub mod Frames
pub mod Tables
pub mod Heap
pub mod Init
pub mod Allocator
