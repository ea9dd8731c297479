-- ===== src/Net/Reception.antt =====
-- net/udp.c: udp_recv and udp_recvaddr, in steps, since their wait may block.
use ece564_project.Prelude.{
  ℕ, zero, suc, ◌+◌, ◌-◌, Bool, true, false, leb, ◌==◌, if◌then◌else◌, Option, some, none,
}
use ece564_project.Prelude.Int.{ℤ, pos_part, ltb_ℤ, sub_ℕ}
use ece564_project.Prelude.Ring.{next}
use ece564_project.Text.Bytes.{Memory, poke}
use ece564_project.Process.State.{System}
use ece564_project.Process.Messages.{ok_word, timeout_word, recvclr, recvtime_wait, recvtime_take}
use ece564_project.Pool.Buffers.{freebuf}
use ece564_project.Net.Packet.{Packet}
use ece564_project.Net.State.{
  udp_slots, udp_qsiz, udp_used, udp_recv, udp_hdr_len, UdpEntry, NetState,
}
use ece564_project.Net.Table.{set_udp, with_pools}

-- Where the first step of udp_recv ends: SYSERR, a packet in the queue, or a wait for one.
pub data RecvStart : Type 0 where
  refused : NetState → RecvStart
  arrived : RecvStart
  waits : NetState → RecvStart

abbrev pub begin_wait : ℕ → NetState → Option (System × Bool) → Option RecvStart
begin_wait slot u none = none
begin_wait slot u (some (s, true)) =
    some (RecvStart.waits (record u { pools = record u.pools { sys = s } }))
begin_wait slot u (some (s, false)) = some (
    RecvStart.refused (
      set_udp slot (record (u.udptab slot) { udstate = udp_used })
        (record u { pools = record u.pools { sys = s } })))

-- `timeout` is the int32 that recvtime gets.
unfoldable pub udp_recv_start : ℕ → ℤ → NetState → Option RecvStart
udp_recv_start slot timeout u =
    let e : UdpEntry = u.udptab slot in
    let s : System = u.pools.sys in
    if leb udp_slots slot
    then some (RecvStart.refused u)
    else if e.udstate == udp_used
    then (if e.udcount == 0
        then begin_wait slot (set_udp slot (record e { udstate = udp_recv; udpid = s.currpid }) u)
            (recvtime_wait timeout (recvclr s).0)
        else some RecvStart.arrived)
    else some (RecvStart.refused u)

-- What the process finds when it runs again: the message, or none in time.
pub data RecvEnd : Type 0 where
  timed_out : RecvEnd
  failed : RecvEnd
  told : RecvEnd

unfoldable pub udp_recv_wake : ℕ → NetState → NetState × RecvEnd
udp_recv_wake slot u =
    let (s, msg) = recvtime_take u.pools.sys in
    (
      set_udp slot (record (u.udptab slot) { udstate = udp_used })
          (record u { pools = record u.pools { sys = s } }),
      if msg == timeout_word
          then RecvEnd.timed_out
          else if msg == ok_word
          then RecvEnd.told
          else RecvEnd.failed,
    )

-- for (i=0; i<msglen; i++) *buff++ = *udataptr++
unfoldable pub copy_data : ℕ → ℕ → ℕ → (ℕ → ℕ) → Memory → Memory
copy_data zero i buff bytes m = m
copy_data (suc n) i buff bytes m = copy_data n (i + 1) (buff + 1) bytes (poke buff (bytes i) m)

-- The number of bytes: those of the packet, or the buffer's length if that is less.
abbrev pub data_length : ℤ → Packet → ℤ
data_length len p =
    let msglen = sub_ℕ p.net_udplen udp_hdr_len in if ltb_ℤ len msglen then len else msglen

-- The first packet leaves the queue.
abbrev pub dequeue_packet : UdpEntry → UdpEntry
dequeue_packet e = record e { udhead = next udp_qsiz e.udhead; udcount = e.udcount - 1 }

abbrev pub first_packet : UdpEntry → ℕ
first_packet e = e.udqueue e.udhead

-- The last step of udp_recv: the bytes in the caller's buffer, and their number.
abbrev pub with_data : Memory → ℤ → Option NetState → Option (NetState × Memory × ℤ)
with_data m n none = none
with_data m n (some u) = some (u, m, n)

unfoldable pub udp_recv_take : ℕ → ℕ → ℤ → Memory → NetState → Option (NetState × Memory × ℤ)
udp_recv_take slot buff len m u =
    let e : UdpEntry = u.udptab slot in
    let pkt : ℕ = first_packet e in
    let p : Packet = u.packets pkt in
    let n : ℤ = data_length len p in
    with_data (copy_data (pos_part n) 0 buff p.net_udpdata m) n
      (with_pools (set_udp slot (dequeue_packet e) u) (freebuf pkt u.pools))

-- udp_recvaddr does the same, and records the sender's address and port.
unfoldable pub udp_recvaddr_take :
    ℕ → ℕ → ℤ → Memory → NetState → Option (NetState × Memory × ℤ) × ℕ × ℕ
udp_recvaddr_take slot buff len m u =
    let e : UdpEntry = u.udptab slot in
    let pkt : ℕ = first_packet e in
    let p : Packet = u.packets pkt in
    let n : ℤ = data_length len p in
    (
      with_data (copy_data (pos_part n) 0 buff p.net_udpdata m) n
          (with_pools (set_udp slot (dequeue_packet e) u) (freebuf pkt u.pools)),
      p.net_ipsrc,
      p.net_udpsport,
    )
