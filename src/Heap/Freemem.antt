-- ===== src/Heap/Freemem.antt =====
-- system/freemem.c: the walk along the free list, and the function, seen as sets of free bytes.
use ece564_project.Prelude.{
  ℕ, ◌+◌, ◌-◌, ◌%◌, ◌^◌, ◌≤◌, ◌<◌, ◌≡◌, refl, true, false, ◌||◌, arith, ltb, ◌==◌, List, [], ◌∷◌,
  Bool-cases, inl, inr, ◌⊎◌,
}
use ece564_project.Heap.Blocks.{
  Block, Heap, roundmb, freemem, walk, walk_behind, place_first, join_next, Spaced, IsHeap,
  Spaced-low, Spaced-bytes,
}
use ece564_project.Heap.Getmem.{roundmb_positive}
use ece564_project.Heap.Place.{
  Gives, Apart, Overlaps, Fits, runs_into-cases, join_next-Gives, Result, Gives-cons, Apart-cons,
  Overlaps-cons, place_behind-Result,
}

walk_behind-Result :
    (prev b : Block) (low top : ℕ) (bs : List Block)
    → Spaced low top (prev ∷ bs)
    → prev.addr < b.addr
    → 0 < b.mlength
    → b.addr + b.mlength ≤ top
    → top < 2 ^ 32
    → Result low top b (prev ∷ bs) (walk_behind prev b bs)
unfolding walk_behind
walk_behind-Result prev b low top [] s above p below word =
    place_behind-Result prev b low top [] s (record {
      above = above;
      some_bytes = p;
      below = below;
      word = word;
      next = omega arith;
      from = tt;
    })
walk_behind-Result prev b low top (next ∷ bs) s above p below word =
    elim (Bool-cases (ltb next.addr b.addr)) [
      | inl go ↦
          elim (walk_behind-Result next b (prev.addr + prev.mlength) top bs s.3 (ground arith) p
            below word) [
              | inl (nothing, over) ↦
                  inl (rw (go, nothing) refl, Overlaps-cons prev b (next ∷ bs) over)
              | inr (bs', found, apart, gives) ↦ inr (
                prev ∷ bs',
                rw (go, found) refl,
                Apart-cons prev b (next ∷ bs) (let g = s.3 in ground arith) apart,
                Gives-cons prev b low top (next ∷ bs) bs' s gives,
              )
            ]
      | inr stop ↦ rw stop (
          place_behind-Result prev b low top (next ∷ bs) s (record {
            above = above;
            some_bytes = p;
            below = below;
            word = word;
            next = Spaced-low (prev.addr + prev.mlength) 0 top (next ∷ bs) (omega arith) s.3;
            from = ground arith;
          }))
    ]

place_first-Result :
    (b : Block) (low top : ℕ) (bs : List Block)
    → Fits b low top bs
    → Result low top b bs (place_first b bs)
unfolding place_first
place_first-Result b low top bs f = elim (runs_into-cases b low top bs f) [
  | inl (into, over) ↦ inl (rw into refl, over)
  | inr (out, apart) ↦ inr (join_next b bs, rw out refl, apart, join_next-Gives b low top bs f out)
]

pub walk-Result :
    (b : Block) (top : ℕ) (bs : List Block)
    → Spaced 0 top bs
    → 0 < b.addr
    → 0 < b.mlength
    → b.addr + b.mlength ≤ top
    → top < 2 ^ 32
    → Result 0 top b bs (walk b bs)
unfolding walk
walk-Result b top [] s q p below word =
    place_first-Result b 0 top []
      (record { above = q; some_bytes = p; below = below; word = word; next = s; from = tt })
walk-Result b top (next ∷ bs) s q p below word = elim (Bool-cases (ltb next.addr b.addr)) [
  | inl go ↦ rw go (walk_behind-Result next b 0 top bs s (ground arith) p below word)
  | inr stop ↦ rw stop (
      place_first-Result b 0 top (next ∷ bs) (record {
        above = q;
        some_bytes = p;
        below = below;
        word = word;
        next = s;
        from = ground arith;
      }))
]

-- freemem on a heap in order, of a block of the heap that ends below 2^32: if a byte of the block
-- is free already, the result is SYSERR and the heap is unchanged; else the result is OK, the
-- bytes of the block become free and no others, memlist.mlength is more by as many, and the heap
-- is in order.
pub freemem-Gives :
    (a nbytes : ℕ) (h : Heap)
    → IsHeap h
    → 0 < h.minheap
    → h.minheap ≤ a
    → a ≤ h.maxheap
    → 0 < nbytes
    → a + roundmb nbytes ≤ 2 ^ 32 - 1
    → nbytes ≤ 2 ^ 32 - 8
    → (Overlaps (record { addr = a; mlength = roundmb nbytes }) h.free
        × (freemem a nbytes h ≡ (h, false)))
      ⊎ ((h' : Heap) × Apart (record { addr = a; mlength = roundmb nbytes }) h.free
          × (freemem a nbytes h ≡ (h', true))
          × IsHeap h'
          × Gives 0 (2 ^ 32 - 1) (record { addr = a; mlength = roundmb nbytes }) h.free h'.free
          × (h'.total ≡ h.total + roundmb nbytes))
unfolding freemem
freemem-Gives a nbytes h is low inside high p below small =
    let (round, _) = roundmb_positive nbytes p small in
    let guard : ((nbytes == 0) || ltb a h.minheap || ltb h.maxheap a) ≡ false = ground arith in
    elim (walk-Result (record { addr = a; mlength = roundmb nbytes }) (2 ^ 32 - 1) h.free is.spaced
      (omega arith) (omega arith) below (omega arith)) [
        | inl (nothing, over) ↦ inl (over, rw (guard, nothing))
        | inr (bs, found, apart, gives) ↦
            let right = is.total_right in
            let given = gives.bytes_given in
            let all = Spaced-bytes 0 (2 ^ 32 - 1) bs gives.spaced in
            let total : (h.total + roundmb nbytes) % 2 ^ 32 ≡ h.total + roundmb nbytes =
              omega arith in
            inr (
              record h { free = bs; total = (h.total + roundmb nbytes) % 2 ^ 32 },
              apart,
              rw (guard, found),
              record { spaced = gives.spaced; total_right = omega arith },
              gives,
              total,
            )
      ]
