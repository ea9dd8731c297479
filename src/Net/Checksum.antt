-- ===== src/Net/Checksum.antt =====
-- ipcksum of net/ip.c and icmp_cksum of net/icmp.c. The fields of a header that is in network
-- order are words of two bytes of which the first is the low one.
use ece564_project.Prelude.{
  ℕ, zero, suc, ◌+◌, ◌-◌, ◌*◌, ◌/◌, ◌%◌, ◌^◌, Bool, ◌==◌, if◌then◌else◌, List, [], ◌∷◌,
}
use ece564_project.Prelude.Int.{ℤ, pos, negsuc, pos_part}
use ece564_project.Net.Packet.{Packet, htons}

-- The ten words from net_ipvh on.
abbrev pub header_words : Packet → List ℕ
header_words p =
    (p.net_ipvh + p.net_iptos * 256)
    ∷ p.net_iplen
    ∷ p.net_ipid
    ∷ p.net_ipfrag
    ∷ (p.net_ipttl + p.net_ipproto * 256)
    ∷ p.net_ipcksum
    ∷ p.net_ipsrc % 65536
    ∷ p.net_ipsrc / 65536
    ∷ p.net_ipdst % 65536
    ∷ p.net_ipdst / 65536
    ∷ []

unfoldable pub sum_words : ℕ → List ℕ → ℕ
sum_words cksum [] = cksum
sum_words cksum (word ∷ ws) = sum_words ((cksum + htons word) % 2 ^ 32) ws

-- The carry is added in, and the low 16 bits are complemented.
unfoldable pub fold_carry : ℕ → ℕ
fold_carry cksum = 65535 - (cksum + cksum / 65536) % 2 ^ 32 % 65536

abbrev pub no_ones : ℕ → ℕ
no_ones cksum = if cksum == 65535 then 0 else cksum

unfoldable pub ipcksum : Packet → ℕ
ipcksum p = no_ones (fold_carry (sum_words 0 (header_words p)))

-- The bytes from net_ictype on.
abbrev pub icmp_bytes : Packet → ℕ → ℕ
icmp_bytes p i =
    if i == 0
    then p.net_ictype
    else if i == 1
    then p.net_iccode
    else if i == 2
    then p.net_iccksum % 256
    else if i == 3
    then p.net_iccksum / 256
    else if i == 4
    then p.net_icident % 256
    else if i == 5
    then p.net_icident / 256
    else if i == 6
    then p.net_icseq % 256
    else if i == 7
    then p.net_icseq / 256
    else p.net_icdata (i - 8)

-- `scount` words from the byte `i` on.
unfoldable pub sum_bytes : ℕ → ℕ → ℕ → (ℕ → ℕ) → ℕ
sum_bytes zero i cksum buf = cksum
sum_bytes (suc scount) i cksum buf =
    sum_bytes scount (i + 2) ((cksum + htons (buf i + buf (i + 1) * 256)) % 2 ^ 32) buf

-- buflen & 1
abbrev pub is_odd : ℤ → Bool
is_odd (pos n) = n % 2 == 1
is_odd (negsuc n) = n % 2 == 0

unfoldable pub icmp_cksum : (ℕ → ℕ) → ℤ → ℕ
icmp_cksum buf buflen =
    let scount : ℕ = pos_part buflen / 2 in
    let cksum : ℕ = sum_bytes scount 0 0 buf in
    fold_carry (if is_odd buflen then (cksum + buf (2 * scount) * 256) % 2 ^ 32 else cksum)
