-- ===== src/Net/Udp.antt =====
-- net/udp.c: udp_send, udp_sendto and udp_release. The first two run in steps, since their wait for
-- a buffer may block; what they hand to ip_send is their result.
use ece564_project.Prelude.{
  ℕ, zero, suc, ◌+◌, ◌%◌, ◌^◌, Bool, true, false, ◌||◌, ltb, leb, ◌==◌, if◌then◌else◌, Option, some,
  none,
}
use ece564_project.Text.Bytes.{Memory}
use ece564_project.Process.Sched.{defer_start, defer_stop}
use ece564_project.Pool.Buffers.{Pools, freebuf, getbuf_wait, getbuf_take}
use ece564_project.Net.Packet.{Packet, Network}
use ece564_project.Net.State.{udp_slots, udp_free, udp_hdr_len, ip_udp, UdpEntry, NetState}
use ece564_project.Net.Table.{set_udp, with_pools}
use ece564_project.Net.Reception.{dequeue_packet, first_packet}

-- What udp_send reads of the entry before its wait for a buffer.
pub record Ends : Type 0 where
  pub remip : ℕ
  pub remport : ℕ
  pub locport : ℕ
  pub locip : ℕ

abbrev pub no_endpoint : ℕ → NetState → Bool
no_endpoint slot u = leb udp_slots slot || ((u.udptab slot).udstate == udp_free)

-- The checks of udp_send and its wait for a buffer; the last `none` is SYSERR.
abbrev pub with_ends : NetState → Ends → Option (Pools × Bool) → Option (NetState × Option Ends)
with_ends u ends none = none
with_ends u ends (some (p, true)) = some (record u { pools = p }, some ends)
with_ends u ends (some (p, false)) = some (record u { pools = p }, none)

unfoldable pub udp_send_start : ℕ → NetState → Option (NetState × Option Ends)
udp_send_start slot u =
    let e : UdpEntry = u.udptab slot in
    if no_endpoint slot u || (e.udremip == 0)
    then some (u, none)
    else with_ends u
        (record {
          remip = e.udremip;
          remport = e.udremport;
          locport = e.udlocport;
          locip = u.network.ipucast;
        })
        (getbuf_wait u.netbufpool u.pools)

-- The same for udp_sendto, where false is SYSERR.
abbrev pub with_buffer : NetState → Option (Pools × Bool) → Option (NetState × Bool)
with_buffer u none = none
with_buffer u (some r) = some (record u { pools = r.0 }, r.1)

unfoldable pub udp_sendto_start : ℕ → NetState → Option (NetState × Bool)
udp_sendto_start slot u =
    if no_endpoint slot u then some (u, false) else with_buffer u (getbuf_wait u.netbufpool u.pools)

-- A UDP packet over what the buffer held: `len` bytes from `buff`, where `len` is not negative.
abbrev pub udp_packet : Network → ℕ → Ends → ℕ → ℕ → Memory → Packet → Packet
udp_packet nd id ends buff len m p = record p {
  net_ethsrc = λ i. if ltb i 6 then nd.ethucast i else p.net_ethsrc i;
  net_ethtype = 2048;
  net_ipvh = 69;
  net_iptos = 0;
  net_iplen = (28 + len) % 2 ^ 16;
  net_ipid = id;
  net_ipfrag = 0;
  net_ipttl = 255;
  net_ipproto = ip_udp;
  net_ipcksum = 0;
  net_ipsrc = ends.locip;
  net_ipdst = ends.remip;
  net_udpsport = ends.locport;
  net_udpdport = ends.remport;
  net_udplen = (udp_hdr_len + len) % 2 ^ 16;
  net_udpcksum = 0;
  net_udpdata = λ i. if ltb i len then m (buff + i) else p.net_udpdata i;
}

-- The packet that is handed to ip_send.
unfoldable pub udp_send_fill : Ends → ℕ → ℕ → Memory → NetState → NetState × ℕ
udp_send_fill ends buff len m u =
    let (pools, pkt) = getbuf_take u.netbufpool u.pools in
    let p : Packet = udp_packet u.network u.ident ends buff len m (u.packets pkt) in
    (
      record u {
        pools = pools;
        packets = λ k. if k == pkt then p else u.packets k;
        ident = (u.ident + 1) % 2 ^ 16;
      },
      pkt,
    )

unfoldable pub udp_sendto_fill : ℕ → ℕ → ℕ → ℕ → ℕ → Memory → NetState → NetState × ℕ
udp_sendto_fill slot remip remport buff len m u =
    let (pools, pkt) = getbuf_take u.netbufpool u.pools in
    let ends : Ends = record {
      remip = remip;
      remport = remport;
      locport = (u.udptab slot).udlocport;
      locip = u.network.ipucast;
    } in
    let p : Packet = udp_packet u.network u.ident_to ends buff len m (u.packets pkt) in
    (
      record u {
        pools = pools;
        packets = λ k. if k == pkt then p else u.packets k;
        ident_to = (u.ident_to + 1) % 2 ^ 16;
      },
      pkt,
    )

-- while (udptr->udcount > 0)
unfoldable pub free_packets : ℕ → ℕ → NetState → Option NetState
free_packets zero slot u = some u
free_packets (suc n) slot u =
    let e : UdpEntry = u.udptab slot in
    elim (with_pools (set_udp slot (dequeue_packet e) u) (freebuf (first_packet e) u.pools)) [
      | none ↦ none
      | some u' ↦ free_packets n slot u'
    ]

abbrev pub end_release : ℕ → Option NetState → Option (NetState × Bool)
end_release slot none = none
end_release slot (some u) =
    let u1 : NetState = set_udp slot (record (u.udptab slot) { udstate = udp_free }) u in
    elim (defer_stop u1.pools.sys) [
      | none ↦ none
      | some r ↦ some (record u1 { pools = record u1.pools { sys = r.0 } }, true)
    ]

unfoldable pub udp_release : ℕ → NetState → Option (NetState × Bool)
udp_release slot u =
    if no_endpoint slot u
    then some (u, false)
    else end_release slot (
        free_packets (u.udptab slot).udcount slot
          (record u { pools = record u.pools { sys = (defer_start u.pools.sys).0 } }))
