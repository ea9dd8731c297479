-- ===== src/Net/Cache.antt =====
-- net/arp.c: the cache, as arp_in, arp_alloc and arp_resolve use it.
use ece564_project.Prelude.{
  ℕ, zero, suc, ◌+◌, ◌<◌, ◌≤◌, ◌≡◌, refl, sym, ap, subst, ◌∙◌, Bool, true, false, ◌&&◌, ◌||◌, ltb,
  ◌==◌, if◌then◌else◌, Bool-cases, Option-cases, inl, inr, Option, some, none, arith, ◌∷◌,
}
use ece564_project.Pool.Buffers.{Pools, freebuf}
use ece564_project.Net.State.{ArpEntry, ArpPacket, NetState, ip_bcast}
use ece564_project.Net.Table.{with_pools}
use ece564_project.Net.ArpCache.{
  arp_halen, arp_htype, arp_ptype, arp_op_rply, arp_op_req, arp_siz, ar_free, ar_resolved, set_arp,
  copy_ha, find_arp, find_arstate, arp_alloc, arp_ntoh, arp_packet, blank_entry,
}
use ece564_project.Net.Arp.{Resolve, arp_resolve_start, arp_reply, arp_in}

find_arstate-some :
    (n i k state : ℕ) (t : ℕ → ArpEntry)
    → find_arstate n i state t ≡ some k
    → (k < i + n) × ((t k).arstate ≡ state)
unfolding find_arstate
find_arstate-some zero i k state t e = absurd (ground arith)
find_arstate-some (suc n) i k state t e = elim (Bool-cases ((t i).arstate == state)) [
  | inl here ↦
      let first = rw here at e in
      let same : i ≡ k = ground arith in
      (omega arith, subst (λ j. (t j).arstate ≡ state) same (ground arith))
  | inr other ↦
      let (h, at) = find_arstate-some n (i + 1) k state t (rw other at e) in (omega arith, at)
]

find_arstate-none :
    (n i state : ℕ) (t : ℕ → ArpEntry)
    → find_arstate n i state t ≡ none
    → (k : ℕ) → i ≤ k
    → k < i + n
    → ((t k).arstate == state) ≡ false
unfolding find_arstate
find_arstate-none zero i state t e k l h = absurd (omega arith)
find_arstate-none (suc n) i state t e k l h = elim (Bool-cases ((t i).arstate == state)) [
  | inl here ↦ absurd (let clash = rw here at e in ground arith)
  | inr other ↦ elim (Bool-cases (k == i)) [
    | inl at ↦
        let same : i ≡ k = ground arith in subst (λ j. ((t j).arstate == state) ≡ false) same other
    | inr on ↦ find_arstate-none n (i + 1) state t (rw other at e) k (ground arith) (omega arith)
  ]
]

-- An entry that matches no search before is found once it has the address.
find_arp-set :
    (n i k addr : ℕ) (t t' : ℕ → ArpEntry)
    → find_arp n i addr t ≡ none
    → ((j : ℕ) → (j == k) ≡ false → t' j ≡ t j)
    → ((t' k).arstate == ar_free) ≡ false
    → ((t' k).arpaddr == addr) ≡ true
    → i ≤ k
    → k < i + n
    → find_arp n i addr t' ≡ some k
unfolding find_arp
find_arp-set zero i k addr t t' e others used at l h = absurd (omega arith)
find_arp-set (suc n) i k addr t t' e others used at l h = elim (Bool-cases (i == k)) [
  | inl here ↦
      let same : k ≡ i = ground arith in
      let used' : ((t' i).arstate == ar_free) ≡ false =
        subst (λ j. ((t' j).arstate == ar_free) ≡ false) same used in
      let at' : ((t' i).arpaddr == addr) ≡ true =
        subst (λ j. ((t' j).arpaddr == addr) ≡ true) same at in
      rw (used', at') (ap some (sym same))
  | inr other ↦ elim (Bool-cases ((t i).arstate == ar_free)) [
    | inl free ↦
        rw (others i other, free)
          (find_arp-set n (i + 1) k addr t t' (rw free at e) others used at (ground arith)
            (omega arith))
    | inr busy ↦ elim (Bool-cases ((t i).arpaddr == addr)) [
      | inl match ↦ absurd (let clash = rw (busy, match) at e in ground arith)
      | inr differs ↦
          rw (others i other, busy, differs)
            (find_arp-set n (i + 1) k addr t t' (rw (busy, differs) at e) others used at
              (ground arith) (omega arith))
    ]
  ]
]

-- What arp_alloc may give.
pub data Gives (t : ℕ → ArpEntry) : Option ℕ → Type 0 where
  unused : (k : ℕ) → k < arp_siz → (t k).arstate ≡ ar_free → Gives t (some k)
  evicted :
      (k : ℕ)
      → k < arp_siz
      → (t k).arstate ≡ ar_resolved
      → ((j : ℕ) → j < arp_siz → ((t j).arstate == ar_free) ≡ false)
      → Gives t (some k)
  occupied :
      ((j : ℕ)
        → j < arp_siz
        → (((t j).arstate == ar_free) || ((t j).arstate == ar_resolved)) ≡ false)
      → Gives t none

-- arp_alloc gives a free entry; if there is none it gives a resolved one, and fails if there is no
-- resolved one either: no entry for which a process waits is given away.
pub arp_alloc-Gives : (t : ℕ → ArpEntry) → Gives t (arp_alloc t)
unfolding arp_alloc
arp_alloc-Gives t = elim (Option-cases (find_arstate arp_siz 0 ar_free t)) [
  | inr free ↦
      let (h, at) = find_arstate-some arp_siz 0 free.0 ar_free t free.1 in
      rw free.1 (Gives.unused free.0 (omega arith) at)
  | inl none_free ↦
      let busy = find_arstate-none arp_siz 0 ar_free t none_free in
      elim (Option-cases (find_arstate arp_siz 0 ar_resolved t)) [
        | inr old ↦
            let (h, at) = find_arstate-some arp_siz 0 old.0 ar_resolved t old.1 in
            rw (none_free, old.1)
              (Gives.evicted old.0 (omega arith) at (λ j b. busy j (omega arith) (omega arith)))
        | inl none_old ↦
            let pending = find_arstate-none arp_siz 0 ar_resolved t none_old in
            rw (none_free, none_old)
              (Gives.occupied (λ j b.
                let x = busy j (omega arith) (omega arith) in
                let y = pending j (omega arith) (omega arith) in ground arith))
      ]
]

Gives-bound : (t : ℕ → ArpEntry) (k : ℕ) → arp_alloc t ≡ some k → k < arp_siz
unfolding arp_alloc
Gives-bound t k e = elim (Option-cases (find_arstate arp_siz 0 ar_free t)) [
  | inr free ↦
      let (h, at) = find_arstate-some arp_siz 0 free.0 ar_free t free.1 in
      let same = rw free.1 at e in ground arith
  | inl none_free ↦
      let (h, at) = find_arstate-some arp_siz 0 k ar_resolved t (rw none_free at e) in omega arith
]

-- A request to this host.
abbrev pub asks_us : ArpPacket → NetState → Bool
asks_us p u =
    (p.arp_htype == arp_htype)
    && (p.arp_ptype == arp_ptype)
    && (p.arp_op == arp_op_req)
    && u.network.ipvalid
    && (p.arp_tarpa == u.network.ipucast)

-- The entry that a request from a stranger gets.
abbrev pub sender_entry : ArpPacket → ArpEntry
sender_entry p = record blank_entry {
  arpaddr = p.arp_sndpa;
  arhaddr = copy_ha p.arp_sndha (λ i. 0);
  arstate = ar_resolved;
}

abbrev pub learned : ℕ → ℕ → NetState → NetState
learned pkt slot u =
    let p : ArpPacket = arp_ntoh (u.arpin pkt) in
    set_arp slot (sender_entry p) (record u { arpin = λ k. if k == pkt then p else u.arpin k })

arp_in-learns :
    (u : NetState) (pkt slot : ℕ)
    → asks_us (arp_ntoh (u.arpin pkt)) u ≡ true
    → find_arp arp_siz 0 (arp_ntoh (u.arpin pkt)).arp_sndpa u.arpcache ≡ none
    → arp_alloc u.arpcache ≡ some slot
    → arp_in pkt u ≡ arp_reply pkt (arp_ntoh (u.arpin pkt)) (learned pkt slot u)
unfolding arp_in
arp_in-learns u pkt slot asks stranger place =
    let p : ArpPacket = arp_ntoh (u.arpin pkt) in
    let kind : ((p.arp_htype == arp_htype) && (p.arp_ptype == arp_ptype)) ≡ true = ground arith in
    let request : (p.arp_op == arp_op_rply) ≡ false = ground arith in
    let own : (u.network.ipvalid && (p.arp_tarpa == u.network.ipucast)) ≡ true = ground arith in
    rw (kind, stranger, request, own, place) refl

resolve_start-found :
    (u : NetState) (addr slot : ℕ) (e : ArpEntry)
    → (addr == ip_bcast) ≡ false
    → (addr == u.network.ipbcast) ≡ false
    → find_arp arp_siz 0 addr u.arpcache ≡ some slot
    → u.arpcache slot ≡ e
    → e.arstate ≡ ar_resolved
    → arp_resolve_start addr u ≡ Resolve.known e.arhaddr
unfolding arp_resolve_start
resolve_start-found u addr slot e all net at is state =
    let done : ((u.arpcache slot).arstate == ar_resolved) ≡ true =
      ap (λ (x : ArpEntry). x.arstate == ar_resolved) is ∙ ap (λ s. s == ar_resolved) state in
    rw (all, net, at, done) (ap (λ (x : ArpEntry). Resolve.known x.arhaddr) is)

-- A request to this host from an address that is no broadcast and not in the cache, which has room
-- for it, and a buffer that can be given back: arp_in ends, one more packet is written, the reply,
-- and after it arp_resolve finds the address of the sender without a request.
pub arp_in-arp_resolve_start :
    (u : NetState) (pkt slot : ℕ) (r : Pools × Bool)
    → asks_us (arp_ntoh (u.arpin pkt)) u ≡ true
    → find_arp arp_siz 0 (arp_ntoh (u.arpin pkt)).arp_sndpa u.arpcache ≡ none
    → arp_alloc u.arpcache ≡ some slot
    → ((arp_ntoh (u.arpin pkt)).arp_sndpa == ip_bcast) ≡ false
    → ((arp_ntoh (u.arpin pkt)).arp_sndpa == u.network.ipbcast) ≡ false
    → freebuf pkt u.pools ≡ some r
    → (u' : NetState) × (mac : ℕ → ℕ) × (arp_in pkt u ≡ some u')
      × (u'.arpout ≡ (
          let p = arp_ntoh (u.arpin pkt) in
          arp_packet u.network arp_op_rply p.arp_sndha p.arp_sndha p.arp_sndpa ∷ u.arpout))
      × (arp_resolve_start (arp_ntoh (u.arpin pkt)).arp_sndpa u' ≡ Resolve.known mac)
      × ((i : ℕ) → i < arp_halen → mac i ≡ (arp_ntoh (u.arpin pkt)).arp_sndha i)
unfolding arp_reply
arp_in-arp_resolve_start u pkt slot r asks stranger place all net freed =
    let p : ArpPacket = arp_ntoh (u.arpin pkt) in
    let u1 : NetState = learned pkt slot u in
    let u2 : NetState = record u1 {
      arpout = arp_packet u.network arp_op_rply p.arp_sndha p.arp_sndha p.arp_sndpa ∷ u.arpout;
    } in
    let u' : NetState = record u2 { pools = r.0 } in
    let same : (slot == slot) ≡ true = ground arith in
    let new : u'.arpcache slot ≡ sender_entry p = rw same refl in
    let at =
      find_arp-set arp_siz 0 slot p.arp_sndpa u.arpcache u'.arpcache stranger (λ j o. rw o refl)
        (rw new refl) (rw new (ground arith)) (omega arith) (Gives-bound u.arpcache slot place) in
    (
      u',
      (sender_entry p).arhaddr,
      arp_in-learns u pkt slot asks stranger place ∙ ap (with_pools u2) freed,
      refl,
      resolve_start-found u' p.arp_sndpa slot (sender_entry p) all net at new refl,
      λ i h. (let inside : ltb i arp_halen ≡ true = ground arith in rw inside refl),
    )
