-- ===== src/Net/Receive.antt =====
-- net/udp.c: udp_recv at an entry where packets wait.
use ece564_project.Prelude.{
  ℕ, zero, suc, ◌+◌, ◌-◌, ◌≡◌, ap, ◌∙◌, Bool, ◌==◌, if◌then◌else◌, Bool-cases, inl, inr, some, List,
  ◌∷◌, arith, ltb,
}
use ece564_project.Prelude.Int.{ℤ, pos_part}
use ece564_project.Text.Bytes.{Memory, poke}
use ece564_project.Pool.Buffers.{Pools, freebuf}
use ece564_project.Net.State.{UdpEntry, NetState}
use ece564_project.Net.Table.{set_udp, with_pools}
use ece564_project.Net.Reception.{copy_data, data_length, dequeue_packet, with_data, udp_recv_take}
use ece564_project.Net.Endpoints.{Waiting, dequeue_packet-Waiting}

-- After the copy: the bytes from `buff` on are those from the index `i` on, and the others stay.
pub copy_data-byte :
    (n i buff k : ℕ) (bytes : ℕ → ℕ) (m : Memory)
    → copy_data n i buff bytes m k
      ≡ (if ltb k buff then m k else if ltb k (buff + n) then bytes (i + (k - buff)) else m k)
unfolding copy_data
copy_data-byte zero i buff k bytes m = ground arith
copy_data-byte (suc n) i buff k bytes m =
    let rest = copy_data-byte n (i + 1) (buff + 1) k bytes (poke buff (bytes i) m) in
    elim (Bool-cases (k == buff)) [
      | inl e ↦
          let here : k ≡ buff = ground arith in
          let start : i + (k - buff) ≡ i = omega arith in ground (arith, rest, start)
      | inr e ↦ elim (Bool-cases (ltb k buff)) [
        | inl b ↦ ground (arith, rest)
        | inr b ↦
            let same : i + 1 + (k - (buff + 1)) ≡ i + (k - buff) = ground arith in
            ground (arith, rest, same)
      ]
    ]

-- The oldest packet at an entry, whose buffer can be given back: the last step of udp_recv takes
-- it from the queue and gives its buffer back; it copies the bytes of the packet to the caller's
-- buffer, no more of them than the buffer is long, and no other byte changes; the result is their
-- number.
pub udp_recv_take-first :
    (u : NetState) (slot pkt buff : ℕ) (pkts : List ℕ) (len : ℤ) (m : Memory) (r : Pools × Bool)
    → Waiting (u.udptab slot) (pkt ∷ pkts)
    → freebuf pkt u.pools ≡ some r
    → (e : UdpEntry) × (m' : Memory) × (udp_recv_take slot buff len m u
        ≡ some (record (set_udp slot e u) { pools = r.0 }, m', data_length len (u.packets pkt)))
      × Waiting e pkts
      × ((k : ℕ)
          → m' k ≡ (
              if ltb k buff
              then m k
              else if ltb k (buff + pos_part (data_length len (u.packets pkt)))
              then (u.packets pkt).net_udpdata (k - buff)
              else m k))
unfolding udp_recv_take
udp_recv_take-first u slot pkt buff pkts len m r w freed =
    let (oldest, left) = dequeue_packet-Waiting (u.udptab slot) pkt pkts w in
    let n : ℤ = data_length len (u.packets pkt) in
    let m' : Memory = copy_data (pos_part n) 0 buff (u.packets pkt).net_udpdata m in
    let u1 : NetState = set_udp slot (dequeue_packet (u.udptab slot)) u in
    (
      dequeue_packet (u.udptab slot),
      m',
      ap
            (λ p.
              with_data
                (copy_data (pos_part (data_length len (u.packets p))) 0 buff
                  (u.packets p).net_udpdata m)
                (data_length len (u.packets p)) (with_pools u1 (freebuf p u.pools)))
            oldest
          ∙ ap (λ o. with_data m' n (with_pools u1 o)) freed,
      left,
      λ k.
          (copy_data-byte (pos_part n) 0 buff k (u.packets pkt).net_udpdata m
            ∙ ap
                (λ j.
                  if ltb k buff
                  then m k
                  else if ltb k (buff + pos_part n)
                  then (u.packets pkt).net_udpdata j
                  else m k)
                (omega arith)),
    )
