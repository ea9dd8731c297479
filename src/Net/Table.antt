-- ===== src/Net/Table.antt =====
-- include/udp.h and net/udp.c: the table of endpoints, udp_init, udp_in and udp_register. A slot of -1
-- or less is its word, which no table has.
use ece564_project.Prelude.{
  ℕ, zero, suc, ◌+◌, ◌-◌, ◌^◌, Bool, true, false, ◌&&◌, ◌||◌, ltb, ◌==◌, if◌then◌else◌, Option,
  some, none,
}
use ece564_project.Prelude.Ring.{next, set_cell}
use ece564_project.Process.State.{System}
use ece564_project.Process.Messages.{ok_word, send}
use ece564_project.Pool.Buffers.{Pools, freebuf}
use ece564_project.Net.Packet.{Packet}
use ece564_project.Net.State.{udp_slots, udp_qsiz, udp_free, udp_used, udp_recv, UdpEntry, NetState}

abbrev pub set_udp : ℕ → UdpEntry → NetState → NetState
set_udp i e u = record u { udptab = λ k. if k == i then e else u.udptab k }

unfoldable pub udp_init : NetState → NetState
udp_init u = record u {
  udptab = λ k. if ltb k udp_slots then record (u.udptab k) { udstate = udp_free } else u.udptab k;
}

-- The result of freebuf is not read.
abbrev pub with_pools : NetState → Option (Pools × Bool) → Option NetState
with_pools u none = none
with_pools u (some r) = some (record u { pools = r.0 })

abbrev pub with_system : NetState → Option (System × Bool) → Option NetState
with_system u none = none
with_system u (some r) = some (record u { pools = record u.pools { sys = r.0 } })

-- The entry takes a packet with this header, and has room for it.
abbrev pub accepts : Packet → UdpEntry → Bool
accepts p e =
    (if e.udstate == udp_free then false else true)
    && (p.net_udpdport == e.udlocport)
    && ((e.udremport == 0) || (p.net_udpsport == e.udremport))
    && ((e.udremip == 0) || (p.net_ipsrc == e.udremip))
    && ltb e.udcount udp_qsiz

-- The search of udp_in: `n` entries are left, from `i` on.
unfoldable pub find_endpoint : ℕ → ℕ → Packet → (ℕ → UdpEntry) → Option ℕ
find_endpoint zero i p t = none
find_endpoint (suc n) i p t =
    let rest = find_endpoint n (i + 1) p t in if accepts p (t i) then some i else rest

-- The packet goes to the tail of the queue.
abbrev pub enqueue_packet : ℕ → UdpEntry → UdpEntry
enqueue_packet pkt e = record e {
  udcount = e.udcount + 1;
  udqueue = set_cell e.udtail pkt e.udqueue;
  udtail = next udp_qsiz e.udtail;
}

-- A process that waits for it is told.
unfoldable pub deliver_packet : ℕ → ℕ → NetState → Option NetState
deliver_packet i pkt u =
    let e : UdpEntry = enqueue_packet pkt (u.udptab i) in
    if e.udstate == udp_recv
    then with_system (set_udp i (record e { udstate = udp_used }) u)
        (send e.udpid ok_word u.pools.sys)
    else some (set_udp i e u)

abbrev pub deliver_or_drop : ℕ → NetState → Option ℕ → Option NetState
deliver_or_drop pkt u none = with_pools u (freebuf pkt u.pools)
deliver_or_drop pkt u (some i) = deliver_packet i pkt u

unfoldable pub udp_in : ℕ → NetState → Option NetState
udp_in pkt u = deliver_or_drop pkt u (find_endpoint udp_slots 0 (u.packets pkt) u.udptab)

-- The entry has this registration.
abbrev pub registered : ℕ → ℕ → ℕ → UdpEntry → Bool
registered remip remport locport e =
    (if e.udstate == udp_free then false else true)
    && (remport == e.udremport)
    && (locport == e.udlocport)
    && (remip == e.udremip)

unfoldable pub is_registered : ℕ → ℕ → ℕ → ℕ → ℕ → (ℕ → UdpEntry) → Bool
is_registered zero slot remip remport locport t = false
is_registered (suc n) slot remip remport locport t =
    let rest = is_registered n (slot + 1) remip remport locport t in
    if registered remip remport locport (t slot) then true else rest

unfoldable pub find_free : ℕ → ℕ → (ℕ → UdpEntry) → Option ℕ
find_free zero slot t = none
find_free (suc n) slot t =
    let rest = find_free n (slot + 1) t in if (t slot).udstate == udp_free then some slot else rest

-- udpid is -1.
abbrev pub new_endpoint : ℕ → ℕ → ℕ → UdpEntry → UdpEntry
new_endpoint remip remport locport e = record e {
  udlocport = locport;
  udremport = remport;
  udremip = remip;
  udcount = 0;
  udhead = 0;
  udtail = 0;
  udpid = 2 ^ 32 - 1;
  udstate = udp_used;
}

abbrev pub take_slot : ℕ → ℕ → ℕ → NetState → Option ℕ → NetState × Option ℕ
take_slot remip remport locport u none = (u, none)
take_slot remip remport locport u (some slot) =
    (set_udp slot (new_endpoint remip remport locport (u.udptab slot)) u, some slot)

-- `none` is SYSERR.
unfoldable pub udp_register : ℕ → ℕ → ℕ → NetState → NetState × Option ℕ
udp_register remip remport locport u =
    if is_registered udp_slots 0 remip remport locport u.udptab
    then (u, none)
    else take_slot remip remport locport u (find_free udp_slots 0 u.udptab)
