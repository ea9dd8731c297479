-- ===== src/Net.antt =====
-- net: the protocols.
pub mod Packet
pub mod Dotted
pub mod Address
pub mod State
pub mod Table
pub mod Reception
pub mod Udp
pub mod ArpCache
pub mod Arp
pub mod Cache
pub mod Icmp
pub mod Checksum
pub mod Ping
pub mod Ip
pub mod Carry
pub mod Wire
pub mod Arrival
pub mod Input
pub mod Endpoints
pub mod Receive
pub mod Register
mod Host
mod Tests
