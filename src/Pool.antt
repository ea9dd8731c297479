-- ===== src/Pool.antt =====
-- Buffer pools and ports: storage that processes share, guarded by semaphores.
pub mod Buffers
pub mod Pools
pub mod Making
pub mod Ports
pub mod Clearing
pub mod Chains
pub mod Mailbox
pub mod Fifo
pub mod Delivery
mod Tests
