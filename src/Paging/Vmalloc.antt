-- ===== src/Paging/Vmalloc.antt =====
-- system/vmalloc.c: reserves pages of the private heap of the running process. The function is
-- one loop over the directory with three kinds of rounds, each in a module of its own.
pub mod Tables
pub mod Absent
pub mod Single
pub mod Multi
pub mod Whole
pub mod FirstFit
pub mod Scan
pub mod Fresh
pub mod Hang
pub mod Straddle
