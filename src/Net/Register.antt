-- ===== src/Net/Register.antt =====
-- net/udp.c: the registrations of udp_register.
use ece564_project.Prelude.{
  ℕ, zero, suc, ◌+◌, ◌<◌, ◌≤◌, ◌≡◌, refl, subst, true, false, ◌==◌, Bool-cases, Option-cases, inl,
  inr, Option, some, none, [], arith,
}
use ece564_project.Net.State.{UdpEntry, NetState, udp_slots, udp_free}
use ece564_project.Net.Table.{
  set_udp, registered, is_registered, find_free, new_endpoint, udp_register,
}
use ece564_project.Net.Endpoints.{Waiting}

-- Whether the slots from `i` on, `n` of them, have the registration.
is_registered-false :
    (n i remip remport locport : ℕ) (t : ℕ → UdpEntry)
    → is_registered n i remip remport locport t ≡ false
    → (k : ℕ) → i ≤ k
    → k < i + n
    → registered remip remport locport (t k) ≡ false
unfolding is_registered
is_registered-false zero i remip remport locport t none_has k l h = absurd (omega arith)
is_registered-false (suc n) i remip remport locport t none_has k l h =
    let rest = is_registered-false n (i + 1) remip remport locport t in
    elim (Bool-cases (registered remip remport locport (t i))) [
      | inl has ↦ absurd (let clash = rw has at none_has in ground arith)
      | inr lacks ↦ elim (Bool-cases (k == i)) [
        | inl e ↦
            let same : i ≡ k = ground arith in
            subst (λ j. registered remip remport locport (t j) ≡ false) same lacks
        | inr e ↦ rest (rw lacks at none_has) k (ground arith) (omega arith)
      ]
    ]

is_registered-true :
    (n i remip remport locport : ℕ) (t : ℕ → UdpEntry)
    → is_registered n i remip remport locport t ≡ true
    → (k : ℕ) × (k < i + n) × (registered remip remport locport (t k) ≡ true)
unfolding is_registered
is_registered-true zero i remip remport locport t one_has = absurd (ground arith)
is_registered-true (suc n) i remip remport locport t one_has =
    elim (Bool-cases (registered remip remport locport (t i))) [
      | inl has ↦ (i, omega arith, has)
      | inr lacks ↦
          let (k, h, has) =
            is_registered-true n (i + 1) remip remport locport t (rw lacks at one_has) in
          (k, omega arith, has)
    ]

-- The slot that find_free gives is free.
find_free-Free :
    (n i k : ℕ) (t : ℕ → UdpEntry)
    → find_free n i t ≡ some k
    → (i ≤ k) × (k < i + n) × ((t k).udstate ≡ udp_free)
unfolding find_free
find_free-Free zero i k t e = absurd (ground arith)
find_free-Free (suc n) i k t e = elim (Bool-cases ((t i).udstate == udp_free)) [
  | inl free ↦
      let found = rw free at e in
      let same : i ≡ k = ground arith in
      (omega arith, omega arith, subst (λ j. (t j).udstate ≡ udp_free) same (ground arith))
  | inr used ↦
      let (l, h, free) = find_free-Free n (i + 1) k t (rw used at e) in
      (omega arith, omega arith, free)
]

find_free-none :
    (n i : ℕ) (t : ℕ → UdpEntry)
    → find_free n i t ≡ none
    → (k : ℕ) → i ≤ k
    → k < i + n
    → ((t k).udstate == udp_free) ≡ false
unfolding find_free
find_free-none zero i t e k l h = absurd (omega arith)
find_free-none (suc n) i t e k l h = elim (Bool-cases ((t i).udstate == udp_free)) [
  | inl free ↦ absurd (let clash = rw free at e in ground arith)
  | inr used ↦ elim (Bool-cases (k == i)) [
    | inl here ↦
        let same : i ≡ k = ground arith in
        subst (λ j. ((t j).udstate == udp_free) ≡ false) same used
    | inr on ↦ find_free-none n (i + 1) t (rw used at e) k (ground arith) (omega arith)
  ]
]

-- No two slots in use have the same registration.
pub record DistinctEnds (t : ℕ → UdpEntry) : Type 0 where
  pub distinct :
      (i j : ℕ)
      → i < udp_slots
      → j < udp_slots
      → ((t i).udstate == udp_free) ≡ false
      → registered (t i).udremip (t i).udremport (t i).udlocport (t j) ≡ true
      → i ≡ j

new_endpoint-Waiting :
    (remip remport locport : ℕ) (e : UdpEntry) → Waiting (new_endpoint remip remport locport e) []
new_endpoint-Waiting remip remport locport e = record {
  ring = record { start = omega arith; room = omega arith; cells = λ n h. absurd (omega arith) };
  tail = refl;
  count = refl;
}

-- What udp_register may do.
pub data Registers (remip remport locport : ℕ) (u : NetState) : NetState × Option ℕ → Type 0 where
  known :
      (k : ℕ)
      → k < udp_slots
      → registered remip remport locport (u.udptab k) ≡ true
      → Registers remip remport locport u (u, none)
  full :
      ((k : ℕ) → k < udp_slots → ((u.udptab k).udstate == udp_free) ≡ false)
      → Registers remip remport locport u (u, none)
  taken :
      (k : ℕ) (e : UdpEntry)
      → k < udp_slots
      → (u.udptab k).udstate ≡ udp_free
      → ((j : ℕ) → j < udp_slots → registered remip remport locport (u.udptab j) ≡ false)
      → registered remip remport locport e ≡ true
      → Waiting e []
      → Registers remip remport locport u (set_udp k e u, some k)

-- udp_register: if a slot has the registration, or none is free, it reports an error and changes
-- nothing; otherwise it gives a slot that was free, which then has the registration and an empty
-- queue, and changes no other slot.
pub udp_register-Registers :
    (remip remport locport : ℕ) (u : NetState)
    → Registers remip remport locport u (udp_register remip remport locport u)
unfolding udp_register
udp_register-Registers remip remport locport u =
    elim (Bool-cases (is_registered udp_slots 0 remip remport locport u.udptab)) [
      | inl e ↦
          let (k, h, has) = is_registered-true udp_slots 0 remip remport locport u.udptab e in
          rw e (Registers.known k (omega arith) has)
      | inr e ↦
          let lacks = is_registered-false udp_slots 0 remip remport locport u.udptab e in
          elim (Option-cases (find_free udp_slots 0 u.udptab)) [
            | inl o ↦
                rw (e, o)
                  (Registers.full
                    (λ k h. find_free-none udp_slots 0 u.udptab o k (omega arith) (omega arith)))
            | inr o ↦
                let (l, h, free) = find_free-Free udp_slots 0 o.0 u.udptab o.1 in
                let new = new_endpoint remip remport locport (u.udptab o.0) in
                let answers : registered remip remport locport new ≡ true = ground arith in
                rw (e, o.1)
                  (Registers.taken o.0 new (omega arith) free
                    (λ j b. lacks j (omega arith) (omega arith)) answers
                    (new_endpoint-Waiting remip remport locport (u.udptab o.0)))
          ]
    ]

Registers-DistinctEnds :
    (remip remport locport : ℕ) (u : NetState) (r : NetState × Option ℕ)
    → Registers remip remport locport u r
    → DistinctEnds u.udptab
    → DistinctEnds r.0.udptab
Registers-DistinctEnds remip remport locport u r (Registers.known k h has) d = d
Registers-DistinctEnds remip remport locport u r (Registers.full inside) d = d
Registers-DistinctEnds remip remport locport u r (Registers.taken k e h free lacks answers w) d =
    record {
      distinct = λ i j hi hj used has. elim (Bool-cases (i == k)) [
        | inl ik ↦ elim (Bool-cases (j == k)) [
          | inl jk ↦ ground arith
          | inr jk ↦
              let lack = lacks j hj in
              let used' = rw ik at used in let has' = rw (ik, jk) at has in absurd (ground arith)
        ]
        | inr ik ↦ elim (Bool-cases (j == k)) [
          | inl jk ↦
              let lack = lacks i hi in
              let used' = rw ik at used in let has' = rw (ik, jk) at has in absurd (ground arith)
          | inr jk ↦ d.distinct i j hi hj (rw ik at used) (rw (ik, jk) at has)
        ]
      ];
    }

-- If no two slots in use have the same registration, this holds after udp_register too.
pub udp_register-DistinctEnds :
    (remip remport locport : ℕ) (u : NetState)
    → DistinctEnds u.udptab
    → DistinctEnds (udp_register remip remport locport u).0.udptab
udp_register-DistinctEnds remip remport locport u d =
    Registers-DistinctEnds remip remport locport u (udp_register remip remport locport u)
      (udp_register-Registers remip remport locport u) d
