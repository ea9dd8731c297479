-- ===== src/Heap.antt =====
-- The heap allocator (include/memory.h, system/getmem.c, system/freemem.c, system/getstk.c).
pub mod Blocks
pub mod Getmem
pub mod Place
pub mod Freemem
pub mod RoundTrip
pub mod Getstk
mod Tests
