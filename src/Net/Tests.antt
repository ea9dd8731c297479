-- ===== src/Net/Tests.antt =====
-- The theorems on the protocols at a host with an endpoint in use.
use ece564_project.Prelude.{
  ℕ, ◌+◌, ◌-◌, ◌<◌, ◌≡◌, refl, true, false, ◌==◌, if◌then◌else◌, ltb, some, [], ◌∷◌, arith,
}
use ece564_project.Prelude.Int.{pos}
use ece564_project.Text.Bytes.{Memory}
use ece564_project.Process.Semaphores.{count_up, signal, release_one}
use ece564_project.Pool.Buffers.{Pools, freebuf, give_back}
use ece564_project.Net.Checksum.{ipcksum, no_ones}
use ece564_project.Net.Carry.{end_around, header_total, reference_checksum, ipcksum-reference}
use ece564_project.Net.Packet.{htons, htonl}
use ece564_project.Net.State.{UdpEntry, NetState}
use ece564_project.Net.Table.{udp_register, set_udp}
use ece564_project.Net.Reception.{udp_recv_take}
use ece564_project.Net.Ip.{ip_in, wire_packet}
use ece564_project.Net.ArpCache.{
  arp_ntoh, arp_packet, arp_alloc, arp_op_rply, find_arp, find_arstate,
}
use ece564_project.Net.Arp.{arp_in, arp_resolve_start, Resolve}
use ece564_project.Net.Endpoints.{Waiting}
use ece564_project.Net.Receive.{udp_recv_take-first}
use ece564_project.Net.Register.{Registers, udp_register-Registers}
use ece564_project.Net.Wire.{Fits, received}
use ece564_project.Net.Arrival.{ip_in-wire_packet}
use ece564_project.Net.Cache.{Gives, arp_alloc-Gives, arp_in-arp_resolve_start}
use ece564_project.Net.Dotted.{dot2ip}
use ece564_project.Net.Address.{dot2ip-dotted_decimal}
use ece564_project.Net.Host.{system, pools, packet, net}

one_waits : Waiting (net.udptab 1) (1004 ∷ [])
one_waits = record {
  ring = record {
    start = omega arith;
    room = omega arith;
    cells = λ n h. (let e : n ≡ 0 = omega arith in rw e refl);
  };
  tail = refl;
  count = refl;
}

abbrev freed : ℕ → Pools
freed buf = record pools {
  buftab = λ k. if k == 0 then record { bpnext = buf; bpsem = 0; bpsize = 8 } else pools.buftab k;
  words = λ k. if k == buf then 3000 else 0;
  sys = count_up 0 system;
}

freebuf_1004 : freebuf 1004 pools ≡ some (freed 1000, true)
unfolding freebuf give_back signal release_one
freebuf_1004 = refl

freebuf_3004 : freebuf 3004 pools ≡ some (freed 3000, true)
unfolding freebuf give_back signal release_one
freebuf_3004 = refl

abbrev memory : Memory
memory = λ k. k

-- The first two bytes, since the buffer is no longer.
udp_recv_take-first_example :
    (e : UdpEntry) × (m : Memory) × (udp_recv_take 1 500 (pos 2) memory net
      ≡ some (record (set_udp 1 e net) { pools = freed 1000 }, m, pos 2))
    × Waiting e []
    × ((k : ℕ) → m k ≡ (if ltb k 500 then k else if ltb k (500 + 2) then 97 + (k - 500) else k))
udp_recv_take-first_example =
    udp_recv_take-first net 1 1004 500 [] (pos 2) memory (freed 1000, true) one_waits freebuf_1004

udp_register-Registers_example : Registers 0 0 53 net (udp_register 0 0 53 net)
udp_register-Registers_example = udp_register-Registers 0 0 53 net

packet-Fits : Fits packet
packet-Fits = record {
  iplen = omega arith;
  ipid = omega arith;
  ipfrag = omega arith;
  ipsrc = omega arith;
  ipdst = omega arith;
  udpsport = omega arith;
  udpdport = omega arith;
  udplen = omega arith;
}

ip_in-wire_packet_example :
    (e : UdpEntry) × (u : NetState) × (ip_in 2004 net ≡ some (set_udp 1 e u, false))
    × (u.packets 2004 ≡ received packet (wire_packet packet).net_ipcksum)
    × (u.udptab ≡ net.udptab)
    × Waiting e (1004 ∷ 2004 ∷ [])
ip_in-wire_packet_example =
    ip_in-wire_packet net 2004 1 packet (1004 ∷ []) refl packet-Fits refl refl refl refl one_waits
      (omega arith) refl (λ j h. (let e : j ≡ 0 = omega arith in rw e refl))

arp_alloc-Gives_example : Gives net.arpcache (arp_alloc net.arpcache)
arp_alloc-Gives_example = arp_alloc-Gives net.arpcache

request : arp_ntoh (net.arpin 3004) ≡ record (net.arpin 3004) {
  arp_htype = 1;
  arp_ptype = 2048;
  arp_op = 1;
  arp_sndpa = 167772162;
  arp_tarpa = 167772161;
}
unfolding arp_ntoh htons htonl
request = refl

arp_in-arp_resolve_start_example :
    (u : NetState) × (mac : ℕ → ℕ) × (arp_in 3004 net ≡ some u)
    × (u.arpout
        ≡ arp_packet net.network arp_op_rply
            (λ i. 40 + i)
            (λ i. 40 + i)
            (arp_ntoh (net.arpin 3004)).arp_sndpa
          ∷ [])
    × (arp_resolve_start (arp_ntoh (net.arpin 3004)).arp_sndpa u ≡ Resolve.known mac)
    × ((i : ℕ) → i < 6 → mac i ≡ (arp_ntoh (net.arpin 3004)).arp_sndha i)
unfolding arp_ntoh htons htonl find_arp find_arstate arp_alloc
arp_in-arp_resolve_start_example =
    arp_in-arp_resolve_start net 3004 0 (freed 3000, true) refl refl refl refl refl freebuf_3004

-- "10.0.7.255" at 20
abbrev address : Memory
address = λ k.
    if k == 20
    then 49
    else if k == 22
    then 46
    else if k == 24
    then 46
    else if k == 25
    then 55
    else if k == 26
    then 46
    else if k == 27
    then 50
    else if k == 28
    then 53
    else if k == 29
    then 53
    else if k == 30
    then 0
    else 48

dot2ip-dotted_decimal_example : dot2ip 20 address ≡ some 167774207
dot2ip-dotted_decimal_example =
    dot2ip-dotted_decimal 20 10 0 7 255 address (omega arith) (omega arith) (omega arith)
      (omega arith)
      (
        refl,
        refl,
        (
          refl,
          refl,
          (
            refl,
            refl,
            (
              refl,
              refl,
              (
                refl,
                refl,
                (refl, refl, (refl, refl, (refl, refl, (refl, refl, (refl, refl, refl))))),
              ),
            ),
          ),
        ),
      )

ipcksum-reference_example : ipcksum packet ≡ (
    if ltb (end_around (header_total packet)) 65536
    then reference_checksum packet
    else no_ones (reference_checksum packet + 1))
ipcksum-reference_example = ipcksum-reference packet refl
