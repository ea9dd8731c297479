-- ===== src/Net/Packet.antt =====
-- include/net.h, the byte order macros of include/prototypes.h, and the conversions of net/ip.c and
-- net/udp.c. A header field is the number that the code reads from it; the bytes of an address or
-- of the data are a function from an index.
use ece564_project.Prelude.{ℕ, ◌+◌, ◌*◌, ◌/◌, ◌%◌, Bool}

-- struct netpacket: IPv4 with UDP or with ICMP. The headers of the two and the data behind them
-- share their bytes; here each has its fields, as a packet is used for one of them.
pub record Packet : Type 0 where
  pub net_ethdst : ℕ → ℕ
  pub net_ethsrc : ℕ → ℕ
  pub net_ethtype : ℕ
  pub net_ipvh : ℕ
  pub net_iptos : ℕ
  pub net_iplen : ℕ
  pub net_ipid : ℕ
  pub net_ipfrag : ℕ
  pub net_ipttl : ℕ
  pub net_ipproto : ℕ
  pub net_ipcksum : ℕ
  pub net_ipsrc : ℕ
  pub net_ipdst : ℕ
  pub net_udpsport : ℕ
  pub net_udpdport : ℕ
  pub net_udplen : ℕ
  pub net_udpcksum : ℕ
  pub net_udpdata : ℕ → ℕ
  pub net_ictype : ℕ
  pub net_iccode : ℕ
  pub net_iccksum : ℕ
  pub net_icident : ℕ
  pub net_icseq : ℕ
  pub net_icdata : ℕ → ℕ

-- The fields of struct network that are used.
pub record Network : Type 0 where
  pub ipucast : ℕ
  pub ipbcast : ℕ
  pub ipmask : ℕ
  pub ipprefix : ℕ
  pub iprouter : ℕ
  pub ipvalid : Bool
  pub ethucast : ℕ → ℕ
  pub ethbcast : ℕ → ℕ

-- The bytes of a 16-bit and of a 32-bit number in the other order.
unfoldable pub htons : ℕ → ℕ
htons x = x / 256 % 256 + x % 256 * 256

unfoldable pub htonl : ℕ → ℕ
htonl x = x / 16777216 % 256 + x / 65536 % 256 * 256 + x / 256 % 256 * 65536 + x % 256 * 16777216

unfoldable pub ip_ntoh : Packet → Packet
ip_ntoh p = record p {
  net_iplen = htons p.net_iplen;
  net_ipid = htons p.net_ipid;
  net_ipfrag = htons p.net_ipfrag;
  net_ipsrc = htonl p.net_ipsrc;
  net_ipdst = htonl p.net_ipdst;
}

unfoldable pub ip_hton : Packet → Packet
ip_hton p = record p {
  net_iplen = htons p.net_iplen;
  net_ipid = htons p.net_ipid;
  net_ipfrag = htons p.net_ipfrag;
  net_ipsrc = htonl p.net_ipsrc;
  net_ipdst = htonl p.net_ipdst;
}

unfoldable pub udp_ntoh : Packet → Packet
udp_ntoh p = record p {
  net_udpsport = htons p.net_udpsport;
  net_udpdport = htons p.net_udpdport;
  net_udplen = htons p.net_udplen;
}

unfoldable pub udp_hton : Packet → Packet
udp_hton p = record p {
  net_udpsport = htons p.net_udpsport;
  net_udpdport = htons p.net_udpdport;
  net_udplen = htons p.net_udplen;
}

unfoldable pub icmp_hton : Packet → Packet
icmp_hton p = record p {
  net_iccksum = htons p.net_iccksum;
  net_icident = htons p.net_icident;
  net_icseq = htons p.net_icseq;
}

unfoldable pub icmp_ntoh : Packet → Packet
icmp_ntoh p = record p {
  net_iccksum = htons p.net_iccksum;
  net_icident = htons p.net_icident;
  net_icseq = htons p.net_icseq;
}

unfoldable pub eth_hton : Packet → Packet
eth_hton p = record p { net_ethtype = htons p.net_ethtype }
