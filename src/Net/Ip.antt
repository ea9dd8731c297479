-- ===== src/Net/Ip.antt =====
-- net/ip.c. What arp_resolve of net/arp.c finds is an argument of the steps behind it, and so is the
-- result of the write to the Ethernet; an echo request and an ARP request end a step.
use ece564_project.Prelude.{
  ℕ, ◌+◌, Bool, true, false, ◌||◌, ltb, ◌==◌, if◌then◌else◌, Option, some, none, ◌∷◌,
}
use Prim.Native.Nat.{bit_and}
use ece564_project.Prelude.Int.{sub_ℕ}
use ece564_project.Prelude.Ring.{next}
use ece564_project.Pool.Buffers.{freebuf}
use ece564_project.Process.Semaphores.{wait}
use ece564_project.Net.Packet.{
  Packet, Network, htons, ip_ntoh, ip_hton, udp_ntoh, udp_hton, icmp_ntoh, icmp_hton, eth_hton,
}
use ece564_project.Net.State.{
  ip_udp, ip_icmp, ip_hdr_len, eth_hdr_len, ip_bcast, ip_oqsiz, NetState,
}
use ece564_project.Net.Table.{with_pools, with_system, udp_in}
use ece564_project.Net.Icmp.{set_packet, ending, drop_packet, icmp_in}
use ece564_project.Net.Checksum.{ipcksum, icmp_cksum, icmp_bytes}

-- True: as for icmp_in, an echo request waits for the buffer of its reply.
unfoldable pub ip_local : ℕ → NetState → Option (NetState × Bool)
ip_local pkt u =
    let p : Packet = u.packets pkt in
    if p.net_ipproto == ip_udp
    then ending false (udp_in pkt u)
    else if p.net_ipproto == ip_icmp
    then icmp_in pkt u
    else drop_packet pkt u

-- ip_in from the test for 255.255.255.255 on.
unfoldable pub ip_accept : ℕ → NetState → Option (NetState × Bool)
ip_accept pkt u =
    let p : Packet = u.packets pkt in
    if p.net_ipdst == ip_bcast
    then ip_local pkt u
    else if u.network.ipvalid
    then (if (p.net_ipdst == u.network.ipucast)
          || (p.net_ipdst == u.network.ipbcast)
          || (p.net_ipdst == ip_bcast)
        then ip_local pkt u
        else drop_packet pkt u)
    else if p.net_ipproto == ip_udp
    then ip_local pkt u
    else drop_packet pkt u

-- The header that the packet encloses, in host order; `none` if its checksum is wrong.
unfoldable pub open_packet : Packet → Option Packet
open_packet p =
    if p.net_ipproto == ip_udp
    then some (udp_ntoh p)
    else if p.net_ipproto == ip_icmp
    then (if icmp_cksum (icmp_bytes p) (sub_ℕ p.net_iplen ip_hdr_len) == 0
        then some (icmp_ntoh p)
        else none)
    else some p

abbrev pub accept_opened : ℕ → NetState → Option Packet → Option (NetState × Bool)
accept_opened pkt u none = drop_packet pkt u
accept_opened pkt u (some p) = ip_accept pkt (set_packet pkt p u)

unfoldable pub ip_in : ℕ → NetState → Option (NetState × Bool)
ip_in pkt u =
    let p : Packet = ip_ntoh (u.packets pkt) in
    let u1 : NetState = set_packet pkt p u in
    if ipcksum (u.packets pkt) == 0
    then (if p.net_ipvh == 69 then accept_opened pkt u1 (open_packet p) else drop_packet pkt u1)
    else drop_packet pkt u

-- The enclosed header in network order, with its checksum.
abbrev pub with_iccksum : Packet → Packet
with_iccksum p = record p {
  net_iccksum = htons (icmp_cksum (icmp_bytes p) (sub_ℕ p.net_iplen ip_hdr_len));
}

unfoldable pub close_packet : Packet → Packet
close_packet p =
    if p.net_ipproto == ip_udp
    then udp_hton (record p { net_udpcksum = 0 })
    else if p.net_ipproto == ip_icmp
    then with_iccksum (record (icmp_hton p) { net_iccksum = 0 })
    else p

abbrev pub with_ipcksum : Packet → Packet
with_ipcksum p = record p { net_ipcksum = htons (ipcksum p) }

-- The packet that ip_out writes.
unfoldable pub wire_packet : Packet → Packet
wire_packet p = eth_hton (with_ipcksum (record (ip_hton (close_packet p)) { net_ipcksum = 0 }))

-- `ok` says that the write has not failed.
unfoldable pub ip_out : Bool → ℕ → NetState → Option (NetState × Bool)
ip_out ok pkt u =
    let p : Packet = wire_packet (u.packets pkt) in
    let u1 : NetState = set_packet pkt p u in
    ending ok (
      with_pools (record u1 { frames = (p, (u.packets pkt).net_iplen + eth_hdr_len) ∷ u.frames })
        (freebuf pkt u.pools))

-- How ip_send ends: with a result, with an echo request that waits for the buffer of its reply, or
-- with the address that arp_resolve gets.
pub data Sent : Type 0 where
  ended : NetState → Bool → Sent
  replies : NetState → Sent
  resolves : ℕ → NetState → Sent

abbrev pub sent_local : Option (NetState × Bool) → Option Sent
sent_local none = none
sent_local (some (u, true)) = some (Sent.replies u)
sent_local (some (u, false)) = some (Sent.ended u true)

abbrev pub sent_out : Option (NetState × Bool) → Option Sent
sent_out none = none
sent_out (some r) = some (Sent.ended r.0 r.1)

-- The destination itself on the local network, the router for another.
abbrev pub next_hop : ℕ → Network → ℕ
next_hop dest nd = if bit_and dest nd.ipmask == nd.ipprefix then dest else nd.iprouter

abbrev pub set_ethdst : (ℕ → ℕ) → Packet → Packet
set_ethdst mac p = record p { net_ethdst = λ i. if ltb i 6 then mac i else p.net_ethdst i }

unfoldable pub ip_send_start : Bool → ℕ → NetState → Option Sent
ip_send_start ok pkt u =
    let nd : Network = u.network in
    let p : Packet = u.packets pkt in
    let dest : ℕ = p.net_ipdst in
    if bit_and dest 4278190080 == 2130706432
    then sent_local (ip_local pkt u)
    else if dest == nd.ipucast
    then sent_local (ip_local pkt u)
    else if (dest == ip_bcast) || (dest == nd.ipbcast)
    then sent_out (ip_out ok pkt (set_packet pkt (set_ethdst nd.ethbcast p) u))
    else if next_hop dest nd == 0
    then sent_out (drop_packet pkt u)
    else some (Sent.resolves (next_hop dest nd) u)

-- After arp_resolve, which gives an Ethernet address or fails.
unfoldable pub ip_send_end : Option (ℕ → ℕ) → Bool → ℕ → NetState → Option (NetState × Bool)
ip_send_end none ok pkt u = drop_packet pkt u
ip_send_end (some mac) ok pkt u = ip_out ok pkt (set_packet pkt (set_ethdst mac (u.packets pkt)) u)

-- A round of ipout: up to its wait for a packet,
unfoldable pub ipout_wait : NetState → Option NetState
ipout_wait u = with_system u (wait u.ipoqueue.iqsem u.pools.sys)

abbrev pub take_ip : NetState → NetState
take_ip u = record u { ipoqueue = record u.ipoqueue { iqhead = next ip_oqsiz u.ipoqueue.iqhead } }

abbrev pub set_ethsrc : (ℕ → ℕ) → Packet → Packet
set_ethsrc mac p = record p { net_ethsrc = λ i. if ltb i 6 then mac i else p.net_ethsrc i }

-- and up to arp_resolve; what follows is ip_send_end.
unfoldable pub ipout_take : NetState → Option Sent
ipout_take u =
    let nd : Network = u.network in
    let pkt : ℕ = u.ipoqueue.iqbuf u.ipoqueue.iqhead in
    let p : Packet = set_ethsrc nd.ethucast (u.packets pkt) in
    let u1 : NetState = set_packet pkt p (take_ip u) in
    let dest : ℕ = p.net_ipdst in
    if (dest == ip_bcast) || (dest == nd.ipbcast)
    then sent_out (drop_packet pkt u1)
    else if dest == nd.ipucast
    then sent_local (ip_local pkt u1)
    else if next_hop dest nd == 0
    then sent_out (drop_packet pkt u1)
    else some (Sent.resolves (next_hop dest nd) u1)
