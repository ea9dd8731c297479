-- ===== src/Heap/RoundTrip.antt =====
-- system/getmem.c and system/freemem.c one after the other.
use ece564_project.Prelude.{
  ℕ, ◌+◌, ◌-◌, ◌^◌, ◌≤◌, ◌<◌, ◌≡◌, refl, true, arith, some, List, [], ◌∷◌, ap, Bool-cases, inl, inr,
  sym, ◌∙◌,
}
use mathlib.Core.Option.{some-injective}
use ece564_project.Heap.Blocks.{
  Block, Heap, roundmb, freemem, getmem, in_block, covers, Spaced, IsHeap, covers-below,
}
use ece564_project.Heap.Getmem.{roundmb_positive, Allocates, getmem-Allocates}
use ece564_project.Heap.Freemem.{freemem-Gives}

pub covers-above :
    (low top : ℕ) (bs : List Block) (x : ℕ) → Spaced low top bs → covers bs x ≡ true → x < top
covers-above low top [] x s c = absurd (ground arith)
covers-above low top (b ∷ bs) x s c = elim (Bool-cases (covers bs x)) [
  | inl later ↦ covers-above (b.addr + b.mlength) top bs x s.3 later
  | inr here ↦ ground arith
]

-- The first blocks of two lists with the same free bytes.
head-addr :
    (low top : ℕ) (b c : Block) (bs cs : List Block)
    → Spaced low top (b ∷ bs)
    → Spaced low top (c ∷ cs)
    → ((x : ℕ) → covers (b ∷ bs) x ≡ covers (c ∷ cs) x)
    → c.addr ≤ b.addr
head-addr low top b c bs cs s t same =
    let e = same b.addr in
    let n = covers-below (c.addr + c.mlength) top cs b.addr t.3 in ground arith

head-mlength :
    (low top : ℕ) (b c : Block) (bs cs : List Block)
    → Spaced low top (b ∷ bs)
    → Spaced low top (c ∷ cs)
    → b.addr ≡ c.addr
    → ((x : ℕ) → covers (b ∷ bs) x ≡ covers (c ∷ cs) x)
    → c.mlength ≤ b.mlength
head-mlength low top b c bs cs s t first same =
    let e = same (b.addr + b.mlength) in
    let n = covers-below (b.addr + b.mlength) top bs (b.addr + b.mlength) s.3 (omega arith) in
    ground arith

block_same : (b c : Block) → b.addr ≡ c.addr → b.mlength ≡ c.mlength → b ≡ c
block_same b c e f i = record { addr = e i; mlength = f i }

pub free-determined :
    (low top : ℕ) (bs cs : List Block)
    → Spaced low top bs
    → Spaced low top cs
    → ((x : ℕ) → covers bs x ≡ covers cs x)
    → bs ≡ cs
free-determined low top [] [] s t same = refl
free-determined low top [] (c ∷ cs) s t same = absurd (let e = same c.addr in ground arith)
free-determined low top (b ∷ bs) [] s t same = absurd (let e = same b.addr in ground arith)
free-determined low top (b ∷ bs) (c ∷ cs) s t same =
    let back : (x : ℕ) → covers (c ∷ cs) x ≡ covers (b ∷ bs) x = λ x. sym (same x) in
    let addr : b.addr ≡ c.addr =
      (let p = head-addr low top b c bs cs s t same in
        let q = head-addr low top c b cs bs t s back in omega arith) in
    let mlength : b.mlength ≡ c.mlength =
      (let p = head-mlength low top b c bs cs s t addr same in
        let q = head-mlength low top c b cs bs t s (sym addr) back in omega arith) in
    let rest : (x : ℕ) → covers bs x ≡ covers cs x = λ x.
      (let e = same x in
        let p = covers-below (b.addr + b.mlength) top bs x s.3 in
        let q = covers-below (c.addr + c.mlength) top cs x t.3 in ground arith) in
    let end : c.addr + c.mlength ≡ b.addr + b.mlength = omega arith in
    let first = block_same b c addr mlength in
    let tail = free-determined (b.addr + b.mlength) top bs cs s.3 (rw end at t.3) rest in
    λ i. first i ∷ tail i

-- The free bytes lie between the bounds of the heap.
abbrev pub InBounds : Heap → Type 0
InBounds h = (x : ℕ) → covers h.free x ≡ true → (h.minheap ≤ x) × (x ≤ h.maxheap)

-- Freeing, with its length, a block that was taken from a heap in order: the result is OK, and the
-- free list and memlist.mlength are those from before.
freemem_allocated :
    (nbytes a : ℕ) (h h' : Heap)
    → IsHeap h
    → 0 < h.minheap
    → InBounds h
    → 0 < nbytes
    → nbytes ≤ 2 ^ 32 - 8
    → Allocates h h' a (roundmb nbytes)
    → (h'' : Heap) × (freemem a nbytes h' ≡ (h'', true))
      × (h''.free ≡ h.free)
      × (h''.total ≡ h.total)
freemem_allocated nbytes a h h' is low inside p small al =
    let (round, _) = roundmb_positive nbytes p small in
    let takes = al.takes in
    let first = takes.inside a (ground arith) in
    let last = takes.inside (a + roundmb nbytes - 1) (ground arith) in
    let end = covers-above 0 (2 ^ 32 - 1) h.free (a + roundmb nbytes - 1) is.spaced last in
    let (above, below) = inside a first in
    let (min_same, max_same) = al.same_bounds in
    elim (freemem-Gives a nbytes h' al.heap (omega arith) (omega arith) (omega arith) p
      (omega arith) small) [
        | inl ((x, i, c), _) ↦ absurd (let e = takes.after x in ground arith)
        | inr (h'', apart, given, heap, gives, total) ↦ (
          h'',
          given,
          free-determined 0 (2 ^ 32 - 1) h''.free h.free heap.spaced is.spaced (λ x.
              gives.after x ∙ (elim (Bool-cases (in_block a (roundmb nbytes) x)) [
                | inl i ↦ (let e = takes.inside x i in ground arith)
                | inr o ↦ (let e = takes.after x in ground arith)
              ])),
          (let e = al.total_less in omega arith),
        )
      ]

-- getmem and then freemem of the same number of bytes, on a heap in order whose free blocks lie
-- between its bounds: if getmem gives an address, freemem of that address is OK and brings back
-- the free list and memlist.mlength.
pub freemem-getmem :
    (nbytes a : ℕ) (h h' : Heap)
    → IsHeap h
    → 0 < h.minheap
    → InBounds h
    → 0 < nbytes
    → nbytes ≤ 2 ^ 32 - 8
    → getmem nbytes h ≡ (h', some a)
    → (h'' : Heap) × (freemem a nbytes h' ≡ (h'', true))
      × (h''.free ≡ h.free)
      × (h''.total ≡ h.total)
freemem-getmem nbytes a h h' is low inside p small got =
    elim (getmem-Allocates nbytes h is p small) [
      | inl (_, nothing) ↦ absurd (ground (arith, sym nothing ∙ got))
      | inr (h1, a1, _, given, _, al) ↦
          let e : (h1, some a1) ≡ (h', some a) = sym given ∙ got in
          let same_heap : h1 ≡ h' = ap (λ r. r.0) e in
          let same_addr : a1 ≡ a = some-injective a1 a (ap (λ r. r.1) e) in
          freemem_allocated nbytes a h h' is low inside p small (rw (same_heap, same_addr) at al)
    ]
