-- ===== src/Paging.antt =====
-- The virtual memory of the kernel (include/paging.h and the functions that work on its tables).
pub mod Memory
pub mod Machine
pub mod Init
pub mod UserDir
pub mod Count
pub mod Handler
pub mod Fault
pub mod Kill
pub mod Vfree
pub mod Vmalloc
mod Tests
