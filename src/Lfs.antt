-- ===== src/Lfs.antt =====
-- device/lfs: the local file system.
pub mod Disk
pub mod File
pub mod Chains
pub mod Truncate
pub mod Position
pub mod Bytes
pub mod Stream
pub mod Open
pub mod Create
pub mod Contents
pub mod Blocks
pub mod Stored
pub mod Loaded
pub mod Setup
pub mod Opened
pub mod Written
pub mod Models
pub mod Bytewise
pub mod Repeated
pub mod Freed
pub mod Emptied
pub mod Cut
pub mod Refine
pub mod Formatted
pub mod Empty
pub mod NewFile
pub mod Reopened
pub mod OldFile
mod Tests
mod Samples
mod Runs
