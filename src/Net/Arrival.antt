-- ===== src/Net/Arrival.antt =====
-- net/ip.c and net/udp.c: the way of a UDP packet from ip_out of one host to an endpoint of another.
use ece564_project.Prelude.{
  ℕ, ◌<◌, ◌≡◌, refl, sym, ap, ◌∙◌, true, false, ◌==◌, if◌then◌else◌, Bool-cases, inl, inr, some,
  List, [], ◌∷◌, ◌++◌, arith,
}
use ece564_project.Process.Messages.{ok_word, send}
use ece564_project.Net.Packet.{Packet, ip_ntoh, ip_hton, udp_ntoh, udp_hton, eth_hton}
use ece564_project.Net.State.{ip_udp, ip_bcast, udp_recv, udp_slots, NetState, UdpEntry}
use ece564_project.Net.Table.{accepts, udp_in, set_udp, with_system}
use ece564_project.Net.Icmp.{set_packet, drop_packet, ending}
use ece564_project.Net.Checksum.{ipcksum}
use ece564_project.Net.Ip.{ip_local, ip_accept, open_packet, accept_opened, ip_in, wire_packet}
use ece564_project.Net.Endpoints.{Waiting, udp_in-append}
use ece564_project.Net.Wire.{
  Fits, received, udp_wire, wire_packet-udp, udp_wire-read, wire_packet-ipcksum,
}

open_packet-udp : (q : Packet) → q.net_ipproto ≡ ip_udp → open_packet q ≡ some (udp_ntoh q)
unfolding open_packet
open_packet-udp q e = let is : (q.net_ipproto == ip_udp) ≡ true = ground arith in rw is refl

wire_packet-opened :
    (p : Packet)
    → Fits p
    → p.net_ipproto ≡ ip_udp
    → open_packet (ip_ntoh (wire_packet p)) ≡ some (received p (udp_wire p).net_ipcksum)
unfolding ip_ntoh ip_hton udp_hton eth_hton
wire_packet-opened p fits e =
    ap (λ q. open_packet (ip_ntoh q)) (wire_packet-udp p e)
    ∙ open_packet-udp (ip_ntoh (udp_wire p)) e
    ∙ ap some (udp_wire-read p fits)

wire_packet-vh :
    (p : Packet) → p.net_ipproto ≡ ip_udp → (ip_ntoh (wire_packet p)).net_ipvh ≡ p.net_ipvh
unfolding ip_ntoh ip_hton udp_hton eth_hton
wire_packet-vh p e = ap (λ q. (ip_ntoh q).net_ipvh) (wire_packet-udp p e)

-- The state in which ip_in delivers the packet.
abbrev pub opened : ℕ → Packet → NetState → NetState
opened pkt p u =
    set_packet pkt (received p (udp_wire p).net_ipcksum)
      (set_packet pkt (ip_ntoh (u.packets pkt)) u)

ip_in-accept :
    (u : NetState) (pkt : ℕ) (p : Packet)
    → u.packets pkt ≡ wire_packet p
    → Fits p
    → p.net_ipproto ≡ ip_udp
    → p.net_ipvh ≡ 69
    → ip_in pkt u ≡ ip_accept pkt (opened pkt p u)
unfolding ip_in
ip_in-accept u pkt p w fits e v =
    let good : (ipcksum (u.packets pkt) == 0) ≡ true =
      ap (λ q. ipcksum q == 0) w ∙ ap (λ c. c == 0) (wire_packet-ipcksum p) in
    let version : ((ip_ntoh (u.packets pkt)).net_ipvh == 69) ≡ true =
      ap (λ q. (ip_ntoh q).net_ipvh == 69) w ∙ ap (λ c. c == 69) (wire_packet-vh p e ∙ v) in
    let u1 : NetState = set_packet pkt (ip_ntoh (u.packets pkt)) u in
    ap
      (λ b.
        if b
        then (if (ip_ntoh (u.packets pkt)).net_ipvh == 69
            then accept_opened pkt u1 (open_packet (ip_ntoh (u.packets pkt)))
            else drop_packet pkt u1)
        else drop_packet pkt u)
      good
    ∙ ap
        (λ b.
          if b
          then accept_opened pkt u1 (open_packet (ip_ntoh (u.packets pkt)))
          else drop_packet pkt u1)
        version
    ∙ ap (accept_opened pkt u1) (ap (λ q. open_packet (ip_ntoh q)) w ∙ wire_packet-opened p fits e)

ip_accept-udp :
    (u : NetState) (pkt : ℕ)
    → (u.packets pkt).net_ipproto ≡ ip_udp
    → (u.packets pkt).net_ipdst ≡ u.network.ipucast
    → u.network.ipvalid ≡ true
    → ip_accept pkt u ≡ ending false (udp_in pkt u)
unfolding ip_accept ip_local
ip_accept-udp u pkt e d v =
    let is : ((u.packets pkt).net_ipproto == ip_udp) ≡ true = ground arith in
    let own : ((u.packets pkt).net_ipdst == u.network.ipucast) ≡ true = ground arith in
    elim (Bool-cases ((u.packets pkt).net_ipdst == ip_bcast)) [
      | inl all ↦ rw (all, is) refl
      | inr other ↦ rw (other, v, own, is) refl
    ]

opened-packet :
    (pkt : ℕ) (p : Packet) (u : NetState)
    → (opened pkt p u).packets pkt ≡ received p (udp_wire p).net_ipcksum
opened-packet pkt p u = let same : (pkt == pkt) ≡ true = ground arith in rw same refl

-- A buffer holds what ip_out makes of a UDP packet that is addressed to this host, which has an
-- address; an endpoint takes the packet, and none before it does: ip_in converts the packet back,
-- up to the Ethernet type and the checksums, and puts it behind the packets that wait at this
-- endpoint, and only there; a process in UDP_RECV is told.
pub ip_in-wire_packet :
    (u : NetState) (pkt i : ℕ) (p : Packet) (pkts : List ℕ)
    → u.packets pkt ≡ wire_packet p
    → Fits p
    → p.net_ipproto ≡ ip_udp
    → p.net_ipvh ≡ 69
    → p.net_ipdst ≡ u.network.ipucast
    → u.network.ipvalid ≡ true
    → Waiting (u.udptab i) pkts
    → i < udp_slots
    → accepts p (u.udptab i) ≡ true
    → ((j : ℕ) → j < i → accepts p (u.udptab j) ≡ false)
    → (e : UdpEntry) × (u' : NetState) × (ip_in pkt u
        ≡ ending false (
            if (u.udptab i).udstate == udp_recv
            then with_system (set_udp i e u') (send (u.udptab i).udpid ok_word u.pools.sys)
            else some (set_udp i e u')))
      × (u'.packets pkt ≡ received p (wire_packet p).net_ipcksum)
      × (u'.udptab ≡ u.udptab)
      × Waiting e (pkts ++ pkt ∷ [])
ip_in-wire_packet u pkt i p pkts w fits proto vh dst valid queue h takes before =
    let u' : NetState = opened pkt p u in
    let at = opened-packet pkt p u in
    let (e, runs, left, state) =
      udp_in-append u' pkt i pkts queue h (ap (λ q. accepts q (u.udptab i)) at ∙ takes)
        (λ j l. ap (λ q. accepts q (u.udptab j)) at ∙ before j l) in
    (
      e,
      u',
      ip_in-accept u pkt p w fits proto vh
          ∙ ip_accept-udp u' pkt (ap (λ (q : Packet). q.net_ipproto) at ∙ proto)
              (ap (λ (q : Packet). q.net_ipdst) at ∙ dst) valid
          ∙ ap (ending false) runs,
      at ∙ ap (λ (q : Packet). received p q.net_ipcksum) (sym (wire_packet-udp p proto)),
      refl,
      left,
    )
