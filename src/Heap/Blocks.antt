-- ===== src/Heap/Blocks.antt =====
-- include/memory.h, system/getmem.c, system/freemem.c and system/getstk.c: the free list, as the
-- blocks that its links pass through. NULL is 0 and no block stands at 0, since minheap is above
-- it. The interrupt mask, which each function saves and restores, is left out.
use ece564_project.Prelude.{
  ℕ, zero, suc, ◌+◌, ◌-◌, ◌*◌, ◌/◌, ◌%◌, ◌^◌, ◌≤◌, ◌<◌, ◌≡◌, refl, Bool, true, false, ◌&&◌, ◌||◌,
  arith, ltb, leb, ◌==◌, if◌then◌else◌, Option, some, none, List, [], ◌∷◌,
}
use mathlib.Core.Option.{map}

-- struct memblk, with its own address.
pub record Block : Type 0 where
  pub addr : ℕ
  pub mlength : ℕ

-- memlist and the bounds of the heap; `total` is memlist.mlength.
pub record Heap : Type 0 where
  pub free : List Block
  pub total : ℕ
  pub minheap : ℕ
  pub maxheap : ℕ

abbrev pub roundmb : ℕ → ℕ
roundmb x = (7 + x) % 2 ^ 32 / 8 * 8

abbrev pub end_of : Block → ℕ
end_of b = (b.addr + b.mlength) % 2 ^ 32

-- The search of getmem: the first block that is large enough gives its lower part.
unfoldable pub take_first : ℕ → List Block → Option (List Block × ℕ)
take_first n [] = none
take_first n (b ∷ bs) =
    let rest = take_first n bs in
    if b.mlength == n
    then some (bs, b.addr)
    else if ltb n b.mlength
    then some (record { addr = (b.addr + n) % 2 ^ 32; mlength = b.mlength - n } ∷ bs, b.addr)
    else map (λ r. (b ∷ r.0, r.1)) rest

-- memlist.mlength -= n
abbrev pub less_total : Heap → ℕ → ℕ
less_total h n = (h.total + 2 ^ 32 - n) % 2 ^ 32

-- The result `none` is SYSERR.
unfoldable pub getmem : ℕ → Heap → Heap × Option ℕ
getmem nbytes h = if nbytes == 0 then (h, none) else elim (take_first (roundmb nbytes) h.free) [
  | none ↦ (h, none)
  | some r ↦ (record h { free = r.0; total = less_total h (roundmb nbytes) }, some r.1)
]

-- The scan of getstk, which keeps the place of the last block that is large enough.
unfoldable pub last_fit : ℕ → ℕ → List Block → Option ℕ → Option ℕ
last_fit n i [] fits = fits
last_fit n i (b ∷ bs) fits = last_fit n (i + 1) bs (if leb n b.mlength then some i else fits)

-- The block at a place gives its upper part, whose address is returned.
unfoldable pub take_top : ℕ → ℕ → List Block → Option (List Block × ℕ)
take_top n i [] = none
take_top n zero (b ∷ bs) =
    if n == b.mlength
    then some (bs, b.addr)
    else some (record b { mlength = b.mlength - n } ∷ bs, (b.addr + (b.mlength - n)) % 2 ^ 32)
take_top n (suc i) (b ∷ bs) = map (λ r. (b ∷ r.0, r.1)) (take_top n i bs)

-- The address returned is that of the highest word.
unfoldable pub getstk : ℕ → Heap → Heap × Option ℕ
getstk nbytes h =
    if nbytes == 0 then (h, none) else elim (last_fit (roundmb nbytes) 0 h.free none) [
      | none ↦ (h, none)
      | some i ↦ elim (take_top (roundmb nbytes) i h.free) [
        | none ↦ (h, none)
        | some r ↦ (
          record h { free = r.0; total = less_total h (roundmb nbytes) },
          some ((r.1 + roundmb nbytes - 4) % 2 ^ 32),
        )
      ]
    ]

-- block+nbytes > next
abbrev pub runs_into : Block → List Block → Bool
runs_into b [] = false
runs_into b (next ∷ bs) = ltb next.addr (end_of b)

-- The new block, coalesced with the next one if that is adjacent.
abbrev pub join_next : Block → List Block → List Block
join_next b [] = b ∷ []
join_next b (next ∷ bs) =
    if end_of b == next.addr
    then record b { mlength = (b.mlength + next.mlength) % 2 ^ 32 } ∷ bs
    else b ∷ next ∷ bs

-- The rest of freemem for the block's place in the list: at the front, or behind `prev`.
unfoldable pub place_first : Block → List Block → Option (List Block)
place_first b next = if runs_into b next then none else some (join_next b next)

unfoldable pub place_behind : Block → Block → List Block → Option (List Block)
place_behind prev b next =
    if ltb b.addr (end_of prev) || runs_into b next
    then none
    else if end_of prev == b.addr
    then some (join_next (record prev { mlength = (prev.mlength + b.mlength) % 2 ^ 32 }) next)
    else some (prev ∷ join_next b next)

-- while ((next != NULL) && (next < block)), from a previous block on.
unfoldable pub walk_behind : Block → Block → List Block → Option (List Block)
walk_behind prev b [] = place_behind prev b []
walk_behind prev b (next ∷ bs) =
    let rest = walk_behind next b bs in
    if ltb next.addr b.addr then map (λ r. prev ∷ r) rest else place_behind prev b (next ∷ bs)

unfoldable pub walk : Block → List Block → Option (List Block)
walk b [] = place_first b []
walk b (next ∷ bs) =
    if ltb next.addr b.addr then walk_behind next b bs else place_first b (next ∷ bs)

-- The result is true for OK and false for SYSERR.
unfoldable pub freemem : ℕ → ℕ → Heap → Heap × Bool
freemem blkaddr nbytes h =
    if (nbytes == 0) || ltb blkaddr h.minheap || ltb h.maxheap blkaddr
    then (h, false)
    else elim (walk (record { addr = blkaddr; mlength = roundmb nbytes }) h.free) [
      | none ↦ (h, false)
      | some bs ↦ (record h { free = bs; total = (h.total + roundmb nbytes) % 2 ^ 32 }, true)
    ]

-- The bytes of the free list.
abbrev pub in_block : ℕ → ℕ → ℕ → Bool
in_block a n x = leb a x && ltb x (a + n)

abbrev pub covers : List Block → ℕ → Bool
covers [] x = false
covers (b ∷ bs) x = in_block b.addr b.mlength x || covers bs x

abbrev pub bytes : List Block → ℕ
bytes [] = 0
bytes (b ∷ bs) = b.mlength + bytes bs

-- Blocks of some length, with a gap below each, that end below `top`.
abbrev pub Spaced : ℕ → ℕ → List Block → Type 0
Spaced low top [] = low ≤ top
Spaced low top (b ∷ bs) =
    (low < b.addr)
    × (0 < b.mlength)
    × (b.addr + b.mlength ≤ top)
    × Spaced (b.addr + b.mlength) top bs

-- A heap whose free list is in order and whose length is that of its blocks.
pub record IsHeap (h : Heap) : Type 0 where
  pub spaced : Spaced 0 (2 ^ 32 - 1) h.free
  pub total_right : h.total ≡ bytes h.free

pub Spaced-low :
    (low low' top : ℕ) (bs : List Block) → low' ≤ low → Spaced low top bs → Spaced low' top bs
Spaced-low low low' top [] h s = omega arith
Spaced-low low low' top (b ∷ bs) h s = (omega arith, s.1, s.2, s.3)

-- Nothing is free below the first block.
pub covers-below :
    (low top : ℕ) (bs : List Block) (x : ℕ) → Spaced low top bs → x ≤ low → covers bs x ≡ false
covers-below low top [] x s h = refl
covers-below low top (b ∷ bs) x s h =
    let rest = covers-below (b.addr + b.mlength) top bs x s.3 in ground (arith)

pub Spaced-bytes : (low top : ℕ) (bs : List Block) → Spaced low top bs → low + bytes bs ≤ top
Spaced-bytes low top [] s = omega arith
Spaced-bytes low top (b ∷ bs) s =
    let rest = Spaced-bytes (b.addr + b.mlength) top bs s.3 in ground arith
