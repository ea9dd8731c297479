-- ===== src/Net/Input.antt =====
-- net/net.c: a round of netin, and getport. What the Ethernet delivers is an argument.
use ece564_project.Prelude.{
  ℕ, ◌+◌, ◌*◌, ◌/◌, ◌%◌, ◌^◌, ◌<◌, ◌≤◌, Bool, false, ◌==◌, if◌then◌else◌, Option, arith,
}
use ece564_project.Pool.Buffers.{getbuf_wait, getbuf_take}
use ece564_project.Net.Packet.{Packet, htons}
use ece564_project.Net.State.{ArpPacket, NetState}
use ece564_project.Net.Udp.{with_buffer}
use ece564_project.Net.Icmp.{set_packet, needs_buffer, ending, drop_packet}
use ece564_project.Net.Ip.{ip_in}
use ece564_project.Net.Arp.{arp_in}

-- The conversion back is the same exchange of bytes.
unfoldable pub eth_ntoh : Packet → Packet
eth_ntoh p = record p { net_ethtype = htons p.net_ethtype }

-- The result of getbuf is not tested: with a pool that is there it is a buffer.
unfoldable pub netin_wait : NetState → Option NetState
netin_wait u = needs_buffer (with_buffer u (getbuf_wait u.netbufpool u.pools))

-- The packet that has arrived goes to the protocol of its Ethernet type; true as for ip_in.
unfoldable pub netin_dispatch : ℕ → NetState → Option (NetState × Bool)
netin_dispatch pkt u =
    let p : Packet = eth_ntoh (u.packets pkt) in
    let u1 : NetState = set_packet pkt p u in
    if p.net_ethtype == 2054
    then ending false (arp_in pkt u1)
    else if p.net_ethtype == 2048
    then ip_in pkt u1
    else drop_packet pkt u1

-- The buffer, with the packet `p` read into it, also as the ARP packet `a`.
unfoldable pub netin_take : Packet → ArpPacket → NetState → NetState × ℕ
netin_take p a u =
    let (pools, pkt) = getbuf_take u.netbufpool u.pools in
    (
      record (set_packet pkt p u) { pools = pools; arpin = λ k. if k == pkt then a else u.arpin k },
      pkt,
    )

-- The new seed, of 64 bits, and the port.
unfoldable pub getport : ℕ → ℕ × ℕ
getport netportseed =
    let seed : ℕ = (6364136223846793005 * netportseed + 1) % 2 ^ 64 in
    (seed, 50000 + seed / 2 ^ 48 % 2 ^ 16 % 15535)

-- The ports that getport gives.
pub getport-range : (seed : ℕ) → (50000 ≤ (getport seed).1) × ((getport seed).1 < 65535)
unfolding getport
getport-range seed = (omega arith, omega arith)
