-- ===== src/Net/Endpoints.antt =====
-- net/udp.c: the queue of an endpoint, and where udp_in puts a packet.
use ece564_project.Prelude.{
  ℕ, zero, suc, ◌+◌, ◌<◌, ◌≤◌, ◌≡◌, refl, sym, ap, subst, ◌∙◌, true, false, ◌==◌, if◌then◌else◌,
  Bool-cases, inl, inr, some, none, List, [], ◌∷◌, ◌++◌, length, length-append, arith,
}
use ece564_project.Prelude.Ring.{Ring, Ring-push, Ring-pop, cell, next, next-cell, cell-next}
use ece564_project.Process.Messages.{ok_word, send}
use ece564_project.Net.Packet.{Packet}
use ece564_project.Net.State.{UdpEntry, NetState, udp_slots, udp_qsiz, udp_recv, udp_used}
use ece564_project.Net.Table.{
  set_udp, accepts, find_endpoint, enqueue_packet, with_system, deliver_packet, udp_in,
}
use ece564_project.Net.Reception.{dequeue_packet, first_packet}

-- The packets that wait at an entry, the oldest first.
pub record Waiting (e : UdpEntry) (pkts : List ℕ) : Type 0 where
  pub ring : Ring udp_qsiz e.udhead e.udqueue pkts
  pub tail : e.udtail ≡ cell udp_qsiz e.udhead (length pkts)
  pub count : e.udcount ≡ length pkts

pub enqueue_packet-Waiting :
    (e : UdpEntry) (pkts : List ℕ) (pkt : ℕ)
    → Waiting e pkts
    → length pkts < udp_qsiz
    → Waiting (enqueue_packet pkt e) (pkts ++ pkt ∷ [])
enqueue_packet-Waiting e pkts pkt w room =
    let len = length-append pkts (pkt ∷ []) in
    let at_tail = w.tail in
    let count = w.count in
    record {
      ring = rw at_tail (Ring-push udp_qsiz e.udhead e.udqueue pkts pkt w.ring room);
      tail =
          ap (next udp_qsiz) at_tail
          ∙ next-cell udp_qsiz e.udhead (length pkts) w.ring.start room
          ∙ ap (cell udp_qsiz e.udhead) (omega arith);
      count = omega arith;
    }

pub dequeue_packet-Waiting :
    (e : UdpEntry) (pkt : ℕ) (pkts : List ℕ)
    → Waiting e (pkt ∷ pkts)
    → (first_packet e ≡ pkt) × Waiting (dequeue_packet e) pkts
dequeue_packet-Waiting e pkt pkts w =
    let (first, ring) = Ring-pop udp_qsiz e.udhead e.udqueue pkt pkts w.ring in
    let room = w.ring.room in
    let count = w.count in
    (
      first,
      record {
        ring = ring;
        tail = w.tail ∙ sym (cell-next udp_qsiz e.udhead (length pkts) w.ring.start (omega arith));
        count = omega arith;
      },
    )

pub find_endpoint-first :
    (n i m : ℕ) (p : Packet) (t : ℕ → UdpEntry)
    → i ≤ m
    → m < i + n
    → accepts p (t m) ≡ true
    → ((j : ℕ) → i ≤ j → j < m → accepts p (t j) ≡ false)
    → find_endpoint n i p t ≡ some m
unfolding find_endpoint
find_endpoint-first zero i m p t l h takes before = absurd (omega arith)
find_endpoint-first (suc n) i m p t l h takes before = elim (Bool-cases (i == m)) [
  | inl here ↦
      let same : m ≡ i = ground arith in
      let takes' : accepts p (t i) ≡ true = subst (λ k. accepts p (t k) ≡ true) same takes in
      rw takes' (ap some (sym same))
  | inr on ↦
      let passed = before i (omega arith) (ground arith) in
      rw passed (
        find_endpoint-first n (i + 1) m p t (ground arith) (omega arith) takes
          (λ j f b. before j (omega arith) b))
]

pub find_endpoint-none :
    (n i : ℕ) (p : Packet) (t : ℕ → UdpEntry)
    → ((j : ℕ) → i ≤ j → j < i + n → accepts p (t j) ≡ false)
    → find_endpoint n i p t ≡ none
unfolding find_endpoint
find_endpoint-none zero i p t before = refl
find_endpoint-none (suc n) i p t before =
    let passed = before i (omega arith) (omega arith) in
    rw passed (find_endpoint-none n (i + 1) p t (λ j f b. before j (omega arith) (omega arith)))

accepts-room : (p : Packet) (e : UdpEntry) → accepts p e ≡ true → e.udcount < udp_qsiz
accepts-room p e takes = ground arith

-- An entry that takes a packet, and none before it does: udp_in puts the packet behind those that
-- wait at this entry, which is then in use, and changes no other entry; if the entry is in the
-- state UDP_RECV, udp_in then tells its process, and no other.
pub udp_in-append :
    (u : NetState) (pkt i : ℕ) (pkts : List ℕ)
    → Waiting (u.udptab i) pkts
    → i < udp_slots
    → accepts (u.packets pkt) (u.udptab i) ≡ true
    → ((j : ℕ) → j < i → accepts (u.packets pkt) (u.udptab j) ≡ false)
    → (e : UdpEntry) × (udp_in pkt u ≡ (
        if (u.udptab i).udstate == udp_recv
        then with_system (set_udp i e u) (send (u.udptab i).udpid ok_word u.pools.sys)
        else some (set_udp i e u)))
      × Waiting e (pkts ++ pkt ∷ [])
      × (e.udstate ≡ (if (u.udptab i).udstate == udp_recv then udp_used else (u.udptab i).udstate))
unfolding udp_in deliver_packet
udp_in-append u pkt i pkts w h takes before =
    let e : UdpEntry = enqueue_packet pkt (u.udptab i) in
    let found =
      find_endpoint-first udp_slots 0 i (u.packets pkt) u.udptab (omega arith) (omega arith) takes
        (λ j f b. before j b) in
    let room = accepts-room (u.packets pkt) (u.udptab i) takes in
    let count = w.count in
    let queued = enqueue_packet-Waiting (u.udptab i) pkts pkt w (omega arith) in
    elim (Bool-cases ((u.udptab i).udstate == udp_recv)) [
      | inl recv ↦ (
        record e { udstate = udp_used },
        rw (found, recv) refl,
        record { ring = queued.ring; tail = queued.tail; count = queued.count },
        rw recv refl,
      )
      | inr other ↦ (e, rw (found, other) refl, queued, rw other refl)
    ]
