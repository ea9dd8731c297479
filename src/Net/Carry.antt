-- ===== src/Net/Carry.antt =====
-- ipcksum of net/ip.c: its sum, its carry and its complement.
use ece564_project.Prelude.{
  ℕ, ◌+◌, ◌-◌, ◌*◌, ◌/◌, ◌%◌, ◌<◌, ◌≤◌, ◌≡◌, refl, ap, ◌∙◌, ltb, if◌then◌else◌, List, [], ◌∷◌,
  length, arith,
}
use ece564_project.Net.Packet.{Packet, htons, htonl}
use ece564_project.Net.Checksum.{header_words, sum_words, fold_carry, no_ones, ipcksum}
use ece564_project.Net.Ip.{with_ipcksum}

pub htons-bound : (x : ℕ) → htons x < 65536
unfolding htons
htons-bound x = omega arith

pub htons-htons : (x : ℕ) → x < 65536 → htons (htons x) ≡ x
unfolding htons
htons-htons x h = omega arith

pub htonl-htonl : (x : ℕ) → x < 4294967296 → htonl (htonl x) ≡ x
unfolding htonl
htonl-htonl x h = omega arith

abbrev pub total : List ℕ → ℕ
total [] = 0
total (w ∷ ws) = htons w + total ws

sum_words-total :
    (c : ℕ) (ws : List ℕ) → c + 65536 * length ws < 4294967296 → sum_words c ws ≡ c + total ws
unfolding sum_words
sum_words-total c [] h = omega arith
sum_words-total c (w ∷ ws) h =
    let b = htons-bound w in
    let n = length ws in
    ap (λ k. sum_words k ws) (omega arith)
    ∙ sum_words-total (c + htons w) ws (omega arith)
    ∙ omega arith

-- The checksum of a sum, added to it, gives 0.
fold_carry-zero : (s : ℕ) → s < 655360 → no_ones (fold_carry (s + no_ones (fold_carry s))) ≡ 0
unfolding fold_carry
fold_carry-zero s h = ground arith

header_sum : (p : Packet) → ipcksum p ≡ no_ones (fold_carry (total (header_words p)))
unfolding ipcksum
header_sum p =
    ap (λ s. no_ones (fold_carry s))
      (sum_words-total 0 (header_words p) (omega arith) ∙ omega arith)

total-bound : (ws : List ℕ) → total ws ≤ 65535 * length ws
total-bound [] = omega arith
total-bound (w ∷ ws) =
    let b = htons-bound w in let rest = total-bound ws in let n = length ws in omega arith

fold_carry-bound : (s : ℕ) → no_ones (fold_carry s) < 65536
unfolding fold_carry
fold_carry-bound s = ground arith

htons_zero : htons 0 ≡ 0
unfolding htons
htons_zero = refl

with_ipcksum-total :
    (p : Packet)
    → p.net_ipcksum ≡ 0
    → total (header_words (with_ipcksum p)) ≡ total (header_words p) + ipcksum p
with_ipcksum-total p e =
    let was : htons p.net_ipcksum ≡ 0 = ap htons e ∙ htons_zero in
    let sum = header_sum p in
    let b = fold_carry-bound (total (header_words p)) in
    let is : htons (htons (ipcksum p)) ≡ ipcksum p = htons-htons (ipcksum p) (omega arith) in
    omega arith

-- A header to which its checksum has been written in place of 0: its checksum is 0.
pub with_ipcksum-ipcksum : (p : Packet) → p.net_ipcksum ≡ 0 → ipcksum (with_ipcksum p) ≡ 0
with_ipcksum-ipcksum p e =
    let s = total (header_words p) in
    let b = total-bound (header_words p) in
    header_sum (with_ipcksum p)
    ∙ ap (λ t. no_ones (fold_carry t)) (with_ipcksum-total p e ∙ ap (λ c. s + c) (header_sum p))
    ∙ fold_carry-zero s (omega arith)

-- The one's complement sum of RFC 1071: a carry is added to the low 16 bits.
abbrev pub end_around : ℕ → ℕ
end_around s = s % 65536 + s / 65536

-- The sum of the header's words as numbers of two bytes, the high one first.
abbrev pub header_total : Packet → ℕ
header_total p = total (header_words p)

abbrev pub reference_checksum : Packet → ℕ
reference_checksum p = 65535 - end_around (end_around (header_total p))

carried :
    (s : ℕ)
    → 0 < s
    → s < 655360
    → no_ones (fold_carry s) ≡ (
        if ltb (end_around s) 65536
        then 65535 - end_around (end_around s)
        else no_ones (65535 - end_around (end_around s) + 1))
unfolding fold_carry
carried s some_bit h = ground arith

header_total-positive : (p : Packet) → p.net_ipvh ≡ 69 → 0 < header_total p
unfolding htons
header_total-positive p e = omega arith

-- For a header with the version and length 0x45: ipcksum is the checksum of RFC 1071 when the carry
-- of the header's sum, added to the low half, gives no carry; otherwise it is one more than that,
-- or 0 where this would be 65535.
pub ipcksum-reference :
    (p : Packet)
    → p.net_ipvh ≡ 69
    → ipcksum p ≡ (
        if ltb (end_around (header_total p)) 65536
        then reference_checksum p
        else no_ones (reference_checksum p + 1))
ipcksum-reference p e =
    let b = total-bound (header_words p) in
    header_sum p ∙ carried (header_total p) (header_total-positive p e) (omega arith)
