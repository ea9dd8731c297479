-- ===== src/Paging/Tests.antt =====
-- The theorems on paging at concrete machines.
pub mod User
mod Kernel
mod Heap
