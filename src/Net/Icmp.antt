-- ===== src/Net/Icmp.antt =====
-- net/icmp.c. icmp_recv and icmp_mkpkt run in steps, since their waits may block; their callers
-- run on in the second step.
use ece564_project.Prelude.{
  ℕ, zero, suc, ◌+◌, ◌-◌, ◌%◌, ◌^◌, Bool, true, false, ◌&&◌, ◌||◌, ltb, leb, ◌==◌, if◌then◌else◌,
  Option, some, none,
}
use ece564_project.Prelude.Int.{ℤ, pos, negsuc, pos_part, leb_ℤ, sub_ℕ, ◌+ℤ◌}
use ece564_project.Prelude.Ring.{next, set_cell}
use Prim.Native.Nat.{bit_and}
use ece564_project.Process.Semaphores.{semcount, signal}
use ece564_project.Process.Messages.{ok_word, send}
use ece564_project.Pool.Buffers.{freebuf, getbuf_wait, getbuf_take}
use ece564_project.Net.Packet.{Packet, Network}
use ece564_project.Net.State.{
  icmp_slots, icmp_qsiz, icmp_free, icmp_used, icmp_recv, icmp_echoreply, icmp_echoreqst,
  icmp_hdr_len, ip_icmp, ip_hdr_len, ip_oqsiz, IcmpEntry, NetState,
}
use ece564_project.Net.Table.{with_pools, with_system}
use ece564_project.Net.Udp.{with_buffer}

abbrev pub set_icmp : ℕ → IcmpEntry → NetState → NetState
set_icmp i e u = record u { icmptab = λ k. if k == i then e else u.icmptab k }

abbrev pub set_packet : ℕ → Packet → NetState → NetState
set_packet pkt p u = record u { packets = λ k. if k == pkt then p else u.packets k }

unfoldable pub icmp_init : NetState → NetState
icmp_init u = record u {
  icmptab =
      λ k. if ltb k icmp_slots then record (u.icmptab k) { icstate = icmp_free } else u.icmptab k;
}

-- A number stored in 16 bits.
abbrev pub low16 : ℤ → ℕ
low16 (pos n) = n % 2 ^ 16
low16 (negsuc n) = 2 ^ 16 - 1 - n % 2 ^ 16

-- An ICMP packet over what the buffer held.
abbrev pub icmp_packet : Network → ℕ → ℕ → ℕ → ℕ → ℕ → (ℕ → ℕ) → ℤ → Packet → Packet
icmp_packet nd id remip type ident seq bytes len p = record p {
  net_ethsrc = λ i. if ltb i 6 then nd.ethucast i else p.net_ethsrc i;
  net_ethtype = 2048;
  net_ipvh = 69;
  net_iptos = 0;
  net_iplen = low16 (pos 28 +ℤ len);
  net_ipid = id % 2 ^ 16;
  net_ipfrag = 0;
  net_ipttl = 255;
  net_ipproto = ip_icmp;
  net_ipcksum = 0;
  net_ipsrc = nd.ipucast;
  net_ipdst = remip;
  net_ictype = type % 256;
  net_iccode = 0;
  net_iccksum = 0;
  net_icident = ident;
  net_icseq = seq;
  net_icdata = λ i. if ltb i (pos_part len) then bytes i else p.net_icdata i;
}

-- icmp_mkpkt: the wait for a buffer is getbuf's; a missing pool is a panic, which does not return.
abbrev pub needs_buffer : Option (NetState × Bool) → Option NetState
needs_buffer none = none
needs_buffer (some (u, true)) = some u
needs_buffer (some (u, false)) = none

unfoldable pub icmp_mkpkt_wait : NetState → Option NetState
icmp_mkpkt_wait u = needs_buffer (with_buffer u (getbuf_wait u.netbufpool u.pools))

unfoldable pub icmp_mkpkt_fill : ℕ → ℕ → ℕ → ℕ → (ℕ → ℕ) → ℤ → NetState → NetState × ℕ
icmp_mkpkt_fill remip type ident seq bytes len u =
    let (pools, pkt) = getbuf_take u.netbufpool u.pools in
    let p : Packet =
      icmp_packet u.network u.ipident remip type ident seq bytes len (u.packets pkt) in
    (record (set_packet pkt p u) { pools = pools; ipident = (u.ipident + 1) % 2 ^ 32 }, pkt)

-- ip_enqueue of net/ip.c; the result of signal is not read, and false is SYSERR.
abbrev pub queue_is_full : Option ℤ → Bool
queue_is_full none = false
queue_is_full (some c) = leb_ℤ (pos ip_oqsiz) c

abbrev pub put_ip : ℕ → NetState → NetState
put_ip pkt u = record u {
  ipoqueue = record u.ipoqueue {
    iqbuf = set_cell u.ipoqueue.iqtail pkt u.ipoqueue.iqbuf;
    iqtail = next ip_oqsiz u.ipoqueue.iqtail;
  };
}

abbrev pub ending : Bool → Option NetState → Option (NetState × Bool)
ending b none = none
ending b (some u) = some (u, b)

unfoldable pub ip_enqueue : ℕ → NetState → Option (NetState × Bool)
ip_enqueue pkt u =
    if queue_is_full (semcount u.ipoqueue.iqsem u.pools.sys)
    then ending false (with_pools u (freebuf pkt u.pools))
    else ending true (with_system (put_ip pkt u) (signal u.ipoqueue.iqsem u.pools.sys))

abbrev pub drop_packet : ℕ → NetState → Option (NetState × Bool)
drop_packet pkt u = ending false (with_pools u (freebuf pkt u.pools))

-- The address of a reply is none that the entry knows of.
abbrev pub strange : Packet → IcmpEntry → Network → Bool
strange p e nd =
    (if p.net_ipsrc == e.icremip then false else true)
    && (if p.net_ipsrc == nd.ipucast then false else true)
    && (if bit_and p.net_ipsrc 2130706432 == 2130706432 then false else true)

abbrev pub enqueue_reply : ℕ → IcmpEntry → IcmpEntry
enqueue_reply pkt e = record e {
  iccount = e.iccount + 1;
  icqueue = set_cell e.ictail pkt e.icqueue;
  ictail = next icmp_qsiz e.ictail;
}

unfoldable pub deliver_reply : ℕ → ℕ → NetState → Option (NetState × Bool)
deliver_reply slot pkt u =
    let e : IcmpEntry = enqueue_reply pkt (u.icmptab slot) in
    if e.icstate == icmp_recv
    then ending false (
        with_system (set_icmp slot (record e { icstate = icmp_used }) u)
          (send e.icpid ok_word u.pools.sys))
    else some (set_icmp slot e u, false)

-- True: the packet asks for an echo, and icmp_mkpkt waits for a buffer for it.
unfoldable pub icmp_in : ℕ → NetState → Option (NetState × Bool)
icmp_in pkt u =
    let p : Packet = u.packets pkt in
    let slot : ℕ = p.net_icident in
    if (p.net_ictype == icmp_echoreply) || (p.net_ictype == icmp_echoreqst)
    then (if p.net_ictype == icmp_echoreqst
        then ending true (icmp_mkpkt_wait u)
        else if leb icmp_slots slot
        then drop_packet pkt u
        else if (u.icmptab slot).icstate == icmp_free
        then drop_packet pkt u
        else if strange p (u.icmptab slot) u.network
        then drop_packet pkt u
        else deliver_reply slot pkt u)
    else drop_packet pkt u

-- The rest for such a packet.
abbrev pub free_request : ℕ → Option (NetState × Bool) → Option NetState
free_request pkt none = none
free_request pkt (some (u, ok)) = with_pools u (freebuf pkt u.pools)

unfoldable pub icmp_in_reply : ℕ → NetState → Option NetState
icmp_in_reply pkt u =
    let p : Packet = u.packets pkt in
    let len : ℤ = sub_ℕ p.net_iplen (ip_hdr_len + icmp_hdr_len) in
    let (u1, reply) =
      icmp_mkpkt_fill p.net_ipsrc icmp_echoreply p.net_icident p.net_icseq p.net_icdata len u in
    free_request pkt (ip_enqueue reply u1)

-- The loop of icmp_register: the first free slot so far, or an error.
unfoldable pub find_icmp : ℕ → ℕ → Option ℕ → ℕ → (ℕ → IcmpEntry) → Option ℕ
find_icmp zero i freeslot remip t = freeslot
find_icmp (suc n) i freeslot remip t =
    let on = find_icmp n (i + 1) freeslot remip t in
    let first = find_icmp n (i + 1) (some i) remip t in
    if (t i).icstate == icmp_free
    then (elim freeslot [ none ↦ first | some k ↦ on ])
    else if (t i).icremip == remip
    then none
    else on

abbrev pub open_icmp : ℕ → NetState → Option ℕ → NetState × Option ℕ
open_icmp remip u none = (u, none)
open_icmp remip u (some slot) = (
  set_icmp slot
      (record (u.icmptab slot) {
        icstate = icmp_used;
        icremip = remip;
        iccount = 0;
        ichead = 0;
        ictail = 0;
        icpid = 2 ^ 32 - 1;
      })
      u,
  some slot,
)

unfoldable pub icmp_register : ℕ → NetState → NetState × Option ℕ
icmp_register remip u = open_icmp remip u (find_icmp icmp_slots 0 none remip u.icmptab)
