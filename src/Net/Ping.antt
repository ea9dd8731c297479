-- ===== src/Net/Ping.antt =====
-- net/icmp.c: icmp_recv and icmp_release.
use ece564_project.Prelude.{
  ℕ, zero, suc, ◌+◌, ◌-◌, Bool, true, false, leb, ◌==◌, if◌then◌else◌, Option, some, none,
}
use ece564_project.Prelude.Int.{ℤ, pos, negsuc, pos_part, ltb_ℤ, sub_ℕ}
use ece564_project.Prelude.Ring.{next}
use ece564_project.Text.Bytes.{Memory}
use ece564_project.Process.State.{System}
use ece564_project.Process.Sched.{defer_start, defer_stop}
use ece564_project.Process.Messages.{ok_word, timeout_word, recvclr, recvtime_wait, recvtime_take}
use ece564_project.Pool.Buffers.{freebuf}
use ece564_project.Net.Packet.{Packet}
use ece564_project.Net.State.{
  icmp_slots, icmp_free, icmp_used, icmp_recv, icmp_hdr_len, ip_hdr_len, IcmpEntry, NetState,
}
use ece564_project.Net.Table.{with_pools}
use ece564_project.Net.Reception.{RecvStart, RecvEnd, copy_data, with_data}
use ece564_project.Net.Icmp.{set_icmp}

abbrev pub no_ping : ℤ → Bool
no_ping (pos i) = leb icmp_slots i
no_ping (negsuc i) = true

abbrev pub begin_ping : ℕ → NetState → Option (System × Bool) → Option RecvStart
begin_ping slot u none = none
begin_ping slot u (some (s, true)) =
    some (RecvStart.waits (record u { pools = record u.pools { sys = s } }))
begin_ping slot u (some (s, false)) = some (
    RecvStart.refused (
      set_icmp slot (record (u.icmptab slot) { icstate = icmp_used })
        (record u { pools = record u.pools { sys = s } })))

unfoldable pub icmp_recv_start : ℤ → ℤ → NetState → Option RecvStart
icmp_recv_start icmpid timeout u =
    let slot : ℕ = pos_part icmpid in
    let e : IcmpEntry = u.icmptab slot in
    let s : System = u.pools.sys in
    if no_ping icmpid
    then some (RecvStart.refused u)
    else if e.icstate == icmp_used
    then (if e.iccount == 0
        then begin_ping slot (set_icmp slot (record e { icstate = icmp_recv; icpid = s.currpid }) u)
            (recvtime_wait timeout (recvclr s).0)
        else some RecvStart.arrived)
    else some (RecvStart.refused u)

unfoldable pub icmp_recv_wake : ℕ → NetState → NetState × RecvEnd
icmp_recv_wake slot u =
    let (s, msg) = recvtime_take u.pools.sys in
    (
      set_icmp slot (record (u.icmptab slot) { icstate = icmp_used })
          (record u { pools = record u.pools { sys = s } }),
      if msg == timeout_word
          then RecvEnd.timed_out
          else if msg == ok_word
          then RecvEnd.told
          else RecvEnd.failed,
    )

-- The head of the queue turns at ICMP_SLOTS.
abbrev pub dequeue_reply : IcmpEntry → IcmpEntry
dequeue_reply e = record e { ichead = next icmp_slots e.ichead; iccount = e.iccount - 1 }

abbrev pub first_reply : IcmpEntry → ℕ
first_reply e = e.icqueue e.ichead

-- The rounds of the loop that copies: the length of the data, or `len` if that is less.
abbrev pub reply_length : ℤ → Packet → ℕ
reply_length len p =
    let datalen = sub_ℕ p.net_iplen (ip_hdr_len + icmp_hdr_len) in
    if ltb_ℤ len datalen then pos_part len else pos_part datalen

unfoldable pub icmp_recv_take : ℕ → ℕ → ℤ → Memory → NetState → Option (NetState × Memory × ℤ)
icmp_recv_take slot buff len m u =
    let e : IcmpEntry = u.icmptab slot in
    let pkt : ℕ = first_reply e in
    let p : Packet = u.packets pkt in
    let n : ℕ = reply_length len p in
    with_data (copy_data n 0 buff p.net_icdata m) (pos n)
      (with_pools (set_icmp slot (dequeue_reply e) u) (freebuf pkt u.pools))

-- while (icmptr->iccount > 0)
unfoldable pub free_replies : ℕ → ℕ → NetState → Option NetState
free_replies zero slot u = some u
free_replies (suc n) slot u =
    let e : IcmpEntry = u.icmptab slot in
    elim (with_pools (set_icmp slot (dequeue_reply e) u) (freebuf (first_reply e) u.pools)) [
      | none ↦ none
      | some u' ↦ free_replies n slot u'
    ]

abbrev pub end_icmp : ℕ → Option NetState → Option (NetState × Bool)
end_icmp slot none = none
end_icmp slot (some u) =
    let u1 : NetState = set_icmp slot (record (u.icmptab slot) { icstate = icmp_free }) u in
    elim (defer_stop u1.pools.sys) [
      | none ↦ none
      | some r ↦ some (record u1 { pools = record u1.pools { sys = r.0 } }, true)
    ]

unfoldable pub icmp_release : ℤ → NetState → Option (NetState × Bool)
icmp_release icmpid u =
    let slot : ℕ = pos_part icmpid in
    if no_ping icmpid
    then some (u, false)
    else if (u.icmptab slot).icstate == icmp_used
    then end_icmp slot (
        free_replies (u.icmptab slot).iccount slot
          (record u { pools = record u.pools { sys = (defer_start u.pools.sys).0 } }))
    else some (u, false)
