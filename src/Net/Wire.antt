-- ===== src/Net/Wire.antt =====
-- net/ip.c and net/udp.c: the packets that ip_out writes and ip_in reads.
use ece564_project.Prelude.{ℕ, ◌<◌, ◌≡◌, refl, ◌∙◌, true, ◌==◌, arith}
use ece564_project.Net.Packet.{Packet, htons, ip_ntoh, ip_hton, udp_ntoh, udp_hton, eth_hton}
use ece564_project.Net.State.{ip_udp}
use ece564_project.Net.Checksum.{ipcksum}
use ece564_project.Net.Carry.{htons-htons, htonl-htonl, with_ipcksum-ipcksum}
use ece564_project.Net.Ip.{close_packet, with_ipcksum, wire_packet}

-- The fields that change their byte order have their sizes.
pub record Fits (p : Packet) : Type 0 where
  pub iplen : p.net_iplen < 65536
  pub ipid : p.net_ipid < 65536
  pub ipfrag : p.net_ipfrag < 65536
  pub ipsrc : p.net_ipsrc < 4294967296
  pub ipdst : p.net_ipdst < 4294967296
  pub udpsport : p.net_udpsport < 65536
  pub udpdport : p.net_udpdport < 65536
  pub udplen : p.net_udplen < 65536

-- What a packet becomes on its way: the Ethernet type and the checksums are those of the wire.
abbrev pub received : Packet → ℕ → Packet
received p cksum = record p {
  net_ethtype = htons p.net_ethtype;
  net_ipcksum = cksum;
  net_udpcksum = 0;
}

eth_hton-ipcksum : (p : Packet) → ipcksum (eth_hton p) ≡ ipcksum p
unfolding ipcksum eth_hton
eth_hton-ipcksum p = refl

-- The packets that ip_out writes have a header checksum of 0.
pub wire_packet-ipcksum : (p : Packet) → ipcksum (wire_packet p) ≡ 0
unfolding wire_packet
wire_packet-ipcksum p =
    let q : Packet = record (ip_hton (close_packet p)) { net_ipcksum = 0 } in
    eth_hton-ipcksum (with_ipcksum q) ∙ with_ipcksum-ipcksum q refl

abbrev pub udp_wire : Packet → Packet
udp_wire p =
    eth_hton (
      with_ipcksum
        (record (ip_hton (udp_hton (record p { net_udpcksum = 0 }))) { net_ipcksum = 0 }))

pub wire_packet-udp : (p : Packet) → p.net_ipproto ≡ ip_udp → wire_packet p ≡ udp_wire p
unfolding wire_packet close_packet
wire_packet-udp p e = let is : (p.net_ipproto == ip_udp) ≡ true = ground arith in rw is refl

pub udp_wire-read :
    (p : Packet) → Fits p → udp_ntoh (ip_ntoh (udp_wire p)) ≡ received p (udp_wire p).net_ipcksum
unfolding udp_ntoh ip_ntoh udp_hton ip_hton eth_hton
udp_wire-read p fits =
    rw
      (
        htons-htons p.net_iplen fits.iplen,
        htons-htons p.net_ipid fits.ipid,
        htons-htons p.net_ipfrag fits.ipfrag,
        htonl-htonl p.net_ipsrc fits.ipsrc,
        htonl-htonl p.net_ipdst fits.ipdst,
        htons-htons p.net_udpsport fits.udpsport,
        htons-htons p.net_udpdport fits.udpdport,
        htons-htons p.net_udplen fits.udplen,
      )
      refl
