-- ===== src/Net/Arp.antt =====
-- net/arp.c: arp_resolve, in steps, since its waits for an answer block, and arp_in.
use ece564_project.Prelude.{
  ℕ, ◌+◌, ◌-◌, ◌^◌, Bool, true, false, ◌&&◌, ltb, ◌==◌, if◌then◌else◌, Option, some, none, ◌∷◌,
}
use ece564_project.Prelude.Int.{pos}
use ece564_project.Process.Messages.{
  ok_word, timeout_word, send, recvclr, recvtime_wait, recvtime_take,
}
use ece564_project.Pool.Buffers.{freebuf}
use ece564_project.Net.State.{ArpEntry, ArpPacket, NetState, ip_bcast}
use ece564_project.Net.Table.{with_pools, with_system}
use ece564_project.Net.ArpCache.{
  arp_htype, arp_ptype, arp_op_req, arp_op_rply, arp_siz, arp_retry, arp_timeout, ar_free,
  ar_pending, ar_resolved, set_arp, copy_ha, find_arp, blank_entry, arp_alloc, arp_ntoh, arp_packet,
}

-- How arp_resolve starts: with an Ethernet address, an error, or a request for an entry.
pub data Resolve : Type 0 where
  known : (ℕ → ℕ) → Resolve
  unresolved : Resolve
  asks : ℕ → ArpPacket → NetState → Resolve

abbrev pub ask_for : ℕ → NetState → Option ℕ → Resolve
ask_for nxthop u none = Resolve.unresolved
ask_for nxthop u (some slot) =
    Resolve.asks slot (arp_packet u.network arp_op_req u.network.ethbcast (λ i. 0) nxthop)
      (record (set_arp slot
        (record blank_entry { arstate = ar_pending; arpaddr = nxthop; arpid = u.pools.sys.currpid })
        u) { pools = record u.pools { sys = (recvclr u.pools.sys).0 } })

-- An entry that is found, and in use, is resolved or pending.
abbrev pub look_up : ℕ → NetState → Option ℕ → Resolve
look_up nxthop u none = ask_for nxthop u (arp_alloc u.arpcache)
look_up nxthop u (some i) =
    if (u.arpcache i).arstate == ar_resolved
    then Resolve.known (u.arpcache i).arhaddr
    else if (u.arpcache i).arstate == ar_pending
    then Resolve.unresolved
    else ask_for nxthop u (arp_alloc u.arpcache)

unfoldable pub arp_resolve_start : ℕ → NetState → Resolve
arp_resolve_start nxthop u =
    if nxthop == ip_bcast
    then Resolve.known u.network.ethbcast
    else if nxthop == u.network.ipbcast
    then Resolve.known u.network.ethbcast
    else look_up nxthop u (find_arp arp_siz 0 nxthop u.arpcache)

-- A round of its loop: the request is written, and the wait for an answer begins.
unfoldable pub arp_ask : ArpPacket → NetState → Option (NetState × Bool)
arp_ask p u = elim (recvtime_wait (pos arp_timeout) u.pools.sys) [
  | none ↦ none
  | some r ↦ some (record u { arpout = p ∷ u.arpout; pools = record u.pools { sys = r.0 } }, r.1)
]

-- What the round ends with: another one, no answer in time, an error, or the address.
pub data Answer : Type 0 where
  again : Answer
  timed_out : Answer
  error : Answer
  found : (ℕ → ℕ) → Answer

-- `i` rounds are over; the message SYSERR is the word 2^32 - 1.
unfoldable pub arp_hear : ℕ → ℕ → NetState → NetState × Answer
arp_hear i slot u =
    let (s, msg) = recvtime_take u.pools.sys in
    let u1 : NetState = record u { pools = record u.pools { sys = s } } in
    if msg == timeout_word
    then (if ltb (i + 1) arp_retry
        then (u1, Answer.again)
        else (set_arp slot (record (u.arpcache slot) { arstate = ar_free }) u1, Answer.timed_out))
    else if msg == 2 ^ 32 - 1
    then (u1, Answer.error)
    else (u1, Answer.found (u.arpcache slot).arhaddr)

abbrev pub drop_arp : ℕ → NetState → Option NetState
drop_arp pkt u = with_pools u (freebuf pkt u.pools)

-- The sender's address goes to its entry, and a process that waits for it is told.
abbrev pub update_arp : ArpPacket → NetState → Option ℕ → Option NetState
update_arp p u none = some u
update_arp p u (some slot) =
    let e : ArpEntry = record (u.arpcache slot) {
      arhaddr = copy_ha p.arp_sndha (u.arpcache slot).arhaddr;
    } in
    if e.arstate == ar_pending
    then with_system (set_arp slot (record e { arstate = ar_resolved }) u)
        (send e.arpid ok_word u.pools.sys)
    else some (set_arp slot e u)

unfoldable pub arp_reply : ℕ → ArpPacket → NetState → Option NetState
arp_reply pkt p u = drop_arp pkt (record u {
  arpout = arp_packet u.network arp_op_rply p.arp_sndha p.arp_sndha p.arp_sndpa ∷ u.arpout;
})

abbrev pub add_sender : ℕ → ArpPacket → NetState → Option ℕ → Option NetState
add_sender pkt p u none = drop_arp pkt u
add_sender pkt p u (some slot) = arp_reply pkt p (
    set_arp slot
      (record blank_entry {
        arpaddr = p.arp_sndpa;
        arhaddr = copy_ha p.arp_sndha (λ i. 0);
        arstate = ar_resolved;
      })
      u)

abbrev pub is_some : Option ℕ → Bool
is_some none = false
is_some (some k) = true

-- Only a request to this host has an answer.
abbrev pub answer_arp : ℕ → ArpPacket → Bool → Option NetState → Option NetState
answer_arp pkt p known_sender none = none
answer_arp pkt p known_sender (some u) =
    if p.arp_op == arp_op_rply
    then drop_arp pkt u
    else if u.network.ipvalid && (p.arp_tarpa == u.network.ipucast)
    then (if known_sender then arp_reply pkt p u else add_sender pkt p u (arp_alloc u.arpcache))
    else drop_arp pkt u

unfoldable pub arp_in : ℕ → NetState → Option NetState
arp_in pkt u =
    let p : ArpPacket = arp_ntoh (u.arpin pkt) in
    let u1 : NetState = record u { arpin = λ k. if k == pkt then p else u.arpin k } in
    let slot : Option ℕ = find_arp arp_siz 0 p.arp_sndpa u.arpcache in
    if (p.arp_htype == arp_htype) && (p.arp_ptype == arp_ptype)
    then answer_arp pkt p (is_some slot) (update_arp p u1 slot)
    else drop_arp pkt u1
