-- ===== src/Net/ArpCache.antt =====
-- include/arp.h and net/arp.c: the cache and the packets.
use ece564_project.Prelude.{
  ℕ, zero, suc, ◌+◌, ◌&&◌, ltb, leb, ◌==◌, if◌then◌else◌, Option, some, none,
}
use ece564_project.Net.Packet.{Network, htons, htonl}
use ece564_project.Net.State.{ArpEntry, ArpPacket, NetState}

abbrev pub arp_halen : ℕ
arp_halen = 6

abbrev pub arp_palen : ℕ
arp_palen = 4

abbrev pub arp_htype : ℕ
arp_htype = 1

abbrev pub arp_ptype : ℕ
arp_ptype = 2048

abbrev pub arp_op_req : ℕ
arp_op_req = 1

abbrev pub arp_op_rply : ℕ
arp_op_rply = 2

abbrev pub arp_siz : ℕ
arp_siz = 16

abbrev pub arp_retry : ℕ
arp_retry = 3

abbrev pub arp_timeout : ℕ
arp_timeout = 300

abbrev pub ar_free : ℕ
ar_free = 0

abbrev pub ar_pending : ℕ
ar_pending = 1

abbrev pub ar_resolved : ℕ
ar_resolved = 2

abbrev pub set_arp : ℕ → ArpEntry → NetState → NetState
set_arp i e u = record u { arpcache = λ k. if k == i then e else u.arpcache k }

-- memcpy of the bytes of an Ethernet address
abbrev pub copy_ha : (ℕ → ℕ) → (ℕ → ℕ) → ℕ → ℕ
copy_ha ha old i = if ltb i arp_halen then ha i else old i

-- The entry 0 stays as it is.
unfoldable pub arp_init : NetState → NetState
arp_init u = record u {
  arpcache = λ k.
      if leb 1 k && ltb k arp_siz
      then record (u.arpcache k) { arstate = ar_free }
      else u.arpcache k;
}

-- The search for an address: `n` entries are left, from `i` on.
unfoldable pub find_arp : ℕ → ℕ → ℕ → (ℕ → ArpEntry) → Option ℕ
find_arp zero i addr t = none
find_arp (suc n) i addr t =
    let rest = find_arp n (i + 1) addr t in
    if (t i).arstate == ar_free then rest else if (t i).arpaddr == addr then some i else rest

unfoldable pub find_arstate : ℕ → ℕ → ℕ → (ℕ → ArpEntry) → Option ℕ
find_arstate zero slot state t = none
find_arstate (suc n) slot state t =
    let rest = find_arstate n (slot + 1) state t in
    if (t slot).arstate == state then some slot else rest

abbrev pub blank_entry : ArpEntry
blank_entry = record { arstate = 0; arpaddr = 0; arpid = 0; arhaddr = λ i. 0 }

abbrev pub or_else : Option ℕ → Option ℕ → Option ℕ
or_else none o = o
or_else (some k) o = some k

-- The slot of arp_alloc, or `none` for SYSERR; the callers blank it.
unfoldable pub arp_alloc : (ℕ → ArpEntry) → Option ℕ
arp_alloc t = or_else (find_arstate arp_siz 0 ar_free t) (find_arstate arp_siz 0 ar_resolved t)

unfoldable pub arp_ntoh : ArpPacket → ArpPacket
arp_ntoh p = record p {
  arp_htype = htons p.arp_htype;
  arp_ptype = htons p.arp_ptype;
  arp_op = htons p.arp_op;
  arp_sndpa = htonl p.arp_sndpa;
  arp_tarpa = htonl p.arp_tarpa;
}

unfoldable pub arp_hton : ArpPacket → ArpPacket
arp_hton p = record p {
  arp_htype = htons p.arp_htype;
  arp_ptype = htons p.arp_ptype;
  arp_op = htons p.arp_op;
  arp_sndpa = htonl p.arp_sndpa;
  arp_tarpa = htonl p.arp_tarpa;
}

-- A request or a reply in network order, with its Ethernet type.
abbrev pub arp_packet : Network → ℕ → (ℕ → ℕ) → (ℕ → ℕ) → ℕ → ArpPacket
arp_packet nd op ethdst tarha tarpa =
    let p : ArpPacket = arp_hton (record {
      arp_ethdst = ethdst;
      arp_ethsrc = nd.ethucast;
      arp_ethtype = 2054;
      arp_htype = arp_htype;
      arp_ptype = arp_ptype;
      arp_hlen = arp_halen;
      arp_plen = arp_palen;
      arp_op = op;
      arp_sndha = nd.ethucast;
      arp_sndpa = nd.ipucast;
      arp_tarha = tarha;
      arp_tarpa = tarpa;
    }) in
    record p { arp_ethtype = htons p.arp_ethtype }
