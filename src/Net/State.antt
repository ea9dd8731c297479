-- ===== src/Net/State.antt =====
-- include/udp.h, include/icmp.h, include/ip.h, include/arp.h and the state of the protocols.
use ece564_project.Prelude.{ℕ, ◌-◌, ◌^◌, List}
use ece564_project.Pool.Buffers.{Pools}
use ece564_project.Net.Packet.{Packet, Network}

abbrev pub udp_slots : ℕ
udp_slots = 6

abbrev pub udp_qsiz : ℕ
udp_qsiz = 8

abbrev pub udp_free : ℕ
udp_free = 0

abbrev pub udp_used : ℕ
udp_used = 1

abbrev pub udp_recv : ℕ
udp_recv = 2

abbrev pub udp_hdr_len : ℕ
udp_hdr_len = 8

abbrev pub ip_udp : ℕ
ip_udp = 17

-- struct udpentry; the queue holds the addresses of packets.
pub record UdpEntry : Type 0 where
  pub udstate : ℕ
  pub udremip : ℕ
  pub udremport : ℕ
  pub udlocport : ℕ
  pub udhead : ℕ
  pub udtail : ℕ
  pub udcount : ℕ
  pub udpid : ℕ
  pub udqueue : ℕ → ℕ

abbrev pub icmp_slots : ℕ
icmp_slots = 10

abbrev pub icmp_qsiz : ℕ
icmp_qsiz = 8

abbrev pub icmp_free : ℕ
icmp_free = 0

abbrev pub icmp_used : ℕ
icmp_used = 1

abbrev pub icmp_recv : ℕ
icmp_recv = 2

abbrev pub icmp_echoreply : ℕ
icmp_echoreply = 0

abbrev pub icmp_echoreqst : ℕ
icmp_echoreqst = 8

abbrev pub icmp_hdr_len : ℕ
icmp_hdr_len = 8

-- struct icmpentry; the cells of the queue are those of the array, and of what follows it.
pub record IcmpEntry : Type 0 where
  pub icstate : ℕ
  pub icremip : ℕ
  pub ichead : ℕ
  pub ictail : ℕ
  pub iccount : ℕ
  pub icpid : ℕ
  pub icqueue : ℕ → ℕ

abbrev pub ip_icmp : ℕ
ip_icmp = 1

abbrev pub ip_hdr_len : ℕ
ip_hdr_len = 20

abbrev pub eth_hdr_len : ℕ
eth_hdr_len = 14

abbrev pub ip_bcast : ℕ
ip_bcast = 2 ^ 32 - 1

abbrev pub ip_oqsiz : ℕ
ip_oqsiz = 8

-- struct iqentry
pub record IqEntry : Type 0 where
  pub iqhead : ℕ
  pub iqtail : ℕ
  pub iqsem : ℕ
  pub iqbuf : ℕ → ℕ

-- struct arpentry
pub record ArpEntry : Type 0 where
  pub arstate : ℕ
  pub arpaddr : ℕ
  pub arpid : ℕ
  pub arhaddr : ℕ → ℕ

-- struct arppacket
pub record ArpPacket : Type 0 where
  pub arp_ethdst : ℕ → ℕ
  pub arp_ethsrc : ℕ → ℕ
  pub arp_ethtype : ℕ
  pub arp_htype : ℕ
  pub arp_ptype : ℕ
  pub arp_hlen : ℕ
  pub arp_plen : ℕ
  pub arp_op : ℕ
  pub arp_sndha : ℕ → ℕ
  pub arp_sndpa : ℕ
  pub arp_tarha : ℕ → ℕ
  pub arp_tarpa : ℕ

-- The tables with the packets and the buffers they stand in; `ident`, `ident_to` and `ipident` are
-- the static counters of udp_send, udp_sendto and icmp_mkpkt; `frames` are the packets written to
-- the Ethernet with their lengths, the last first. A buffer that holds an ARP packet has it in
-- `arpin`, and `arpout` are the ARP packets written to the Ethernet.
pub record NetState : Type 0 where
  pub udptab : ℕ → UdpEntry
  pub icmptab : ℕ → IcmpEntry
  pub ipoqueue : IqEntry
  pub arpcache : ℕ → ArpEntry
  pub arpin : ℕ → ArpPacket
  pub arpout : List ArpPacket
  pub packets : ℕ → Packet
  pub pools : Pools
  pub netbufpool : ℕ
  pub network : Network
  pub ident : ℕ
  pub ident_to : ℕ
  pub ipident : ℕ
  pub frames : List (Packet × ℕ)
