-- ===== src/Heap/Getmem.antt =====
-- system/getmem.c: the search for the first block that is large enough, seen as sets of free
-- bytes.
use ece564_project.Prelude.{
  ℕ, ◌+◌, ◌-◌, ◌%◌, ◌^◌, ◌≤◌, ◌<◌, ◌≡◌, refl, Bool, true, false, ◌||◌, arith, ltb, leb, ◌==◌,
  if◌then◌else◌, some, none, List, [], ◌∷◌, ap, Bool-cases, inl, inr, ◌⊎◌, sym,
}
use ece564_project.Heap.Blocks.{
  Block, Heap, roundmb, take_first, less_total, getmem, in_block, covers, bytes, Spaced, IsHeap,
  Spaced-low, covers-below, Spaced-bytes,
}

-- Some block is large enough.
abbrev pub fits : ℕ → List Block → Bool
fits n [] = false
fits n (b ∷ bs) = leb n b.mlength || fits n bs

-- The bytes from `a` on, `n` of them, have left the free list, and no others.
pub record Takes (low top : ℕ) (bs bs' : List Block) (a n : ℕ) : Type 0 where
  pub inside : (x : ℕ) → in_block a n x ≡ true → covers bs x ≡ true
  pub after : (x : ℕ) → covers bs' x ≡ (if in_block a n x then false else covers bs x)
  pub bytes_taken : bytes bs' + n ≡ bytes bs
  pub spaced : Spaced low top bs'

pub Takes-cons :
    (low top : ℕ) (b : Block) (bs bs' : List Block) (a n : ℕ)
    → Spaced low top (b ∷ bs)
    → Takes (b.addr + b.mlength) top bs bs' a n
    → 0 < n
    → Takes low top (b ∷ bs) (b ∷ bs') a n
Takes-cons low top b bs bs' a n s t h =
    let above : (x : ℕ) → in_block a n x ≡ true → in_block b.addr b.mlength x ≡ false = λ x i.
      (let c = covers-below (b.addr + b.mlength) top bs x s.3 in
        let d = t.inside x i in ground arith) in
    record {
      inside = λ x i. (let d = t.inside x i in ground arith);
      after = λ x. elim (Bool-cases (in_block a n x)) [
        | inl i ↦ (let d = t.after x in let e = above x i in ground arith)
        | inr o ↦ (let d = t.after x in ground arith)
      ];
      bytes_taken = let e = t.bytes_taken in omega arith;
      spaced = (s.0, s.1, s.2, t.spaced);
    }

pub Takes-all :
    (low top : ℕ) (b : Block) (bs : List Block) (n : ℕ)
    → b.mlength ≡ n
    → Spaced low top (b ∷ bs)
    → Takes low top (b ∷ bs) bs b.addr n
Takes-all low top b bs n e s = record {
  inside = λ x i. ground arith;
  after = λ x. (let c = covers-below (b.addr + b.mlength) top bs x s.3 in ground arith);
  bytes_taken = omega arith;
  spaced = Spaced-low (b.addr + b.mlength) low top bs (let a = s.0 in omega arith) s.3;
}

abbrev lower : ℕ → Block → Block
lower n b = record { addr = (b.addr + n) % 2 ^ 32; mlength = b.mlength - n }

Takes-lower :
    (low top : ℕ) (b : Block) (bs : List Block) (n : ℕ)
    → Spaced low top (b ∷ bs)
    → top < 2 ^ 32
    → 0 < n
    → n < b.mlength
    → Takes low top (b ∷ bs) (lower n b ∷ bs) b.addr n
Takes-lower low top b bs n s t p h =
    let a = s.0 in
    let e = s.2 in
    let no_wrap : (b.addr + n) % 2 ^ 32 ≡ b.addr + n = omega arith in
    let same : b.addr + n + (b.mlength - n) ≡ b.addr + b.mlength = omega arith in
    rw no_wrap (record {
      inside = λ x i. ground arith;
      after = λ x. (let c = covers-below (b.addr + b.mlength) top bs x s.3 in ground arith);
      bytes_taken = omega arith;
      spaced = (omega arith, omega arith, rw same e, rw same s.3);
    })

pub take_first-cases :
    (low top n : ℕ) (bs : List Block)
    → Spaced low top bs
    → top < 2 ^ 32
    → 0 < n
    → ((take_first n bs ≡ none) × (fits n bs ≡ false))
      ⊎ ((bs' : List Block) × (a : ℕ) × (take_first n bs ≡ some (bs', a))
          × (fits n bs ≡ true)
          × Takes low top bs bs' a n)
unfolding take_first
take_first-cases low top n [] s t p = inl (refl, refl)
take_first-cases low top n (b ∷ bs) s t p = elim (Bool-cases (b.mlength == n)) [
  | inl e ↦
      let same : b.mlength ≡ n = ground arith in
      inr (bs, b.addr, rw e refl, ground arith, Takes-all low top b bs n same s)
  | inr ne ↦ elim (Bool-cases (ltb n b.mlength)) [
    | inl l ↦ inr (
      lower n b ∷ bs,
      b.addr,
      rw (ne, l) refl,
      ground arith,
      Takes-lower low top b bs n s t p (ground arith),
    )
    | inr small ↦ elim (take_first-cases (b.addr + b.mlength) top n bs s.3 t p) [
      | inl (nothing, too_small) ↦ inl (rw (ne, small, nothing) refl, ground arith)
      | inr (bs', a, found, fit, takes) ↦ inr (
        b ∷ bs',
        a,
        rw (ne, small, found) refl,
        ground arith,
        Takes-cons low top b bs bs' a n s takes p,
      )
    ]
  ]
]

pub roundmb_positive : (n : ℕ) → 0 < n → n ≤ 2 ^ 32 - 8 → (n ≤ roundmb n) × (roundmb n < n + 8)
roundmb_positive n p h = (omega arith, omega arith)

-- The length of the free list after `n` of its bytes are taken.
pub total-less :
    (h : Heap) (bs : List Block) (a n : ℕ)
    → IsHeap h
    → Takes 0 (2 ^ 32 - 1) h.free bs a n
    → (less_total h n ≡ bytes bs) × (less_total h n + n ≡ h.total)
total-less h bs a n is t =
    let right = is.total_right in
    let all = Spaced-bytes 0 (2 ^ 32 - 1) h.free is.spaced in
    let taken = t.bytes_taken in let e : less_total h n ≡ bytes bs = omega arith in (e, omega arith)

-- What an allocation of `n` bytes at `a` makes of the heap.
pub record Allocates (h h' : Heap) (a n : ℕ) : Type 0 where
  pub heap : IsHeap h'
  pub takes : Takes 0 (2 ^ 32 - 1) h.free h'.free a n
  pub total_less : h'.total + n ≡ h.total
  pub same_bounds : (h'.minheap ≡ h.minheap) × (h'.maxheap ≡ h.maxheap)

-- getmem on a heap in order, of at least one byte and at most 2^32 - 8: if no free block has the
-- rounded length, the result is SYSERR and the heap is unchanged; else the result is the address
-- of that many bytes, which were free and which alone are free no more, memlist.mlength is less
-- by that many, and the heap is in order.
pub getmem-Allocates :
    (nbytes : ℕ) (h : Heap)
    → IsHeap h
    → 0 < nbytes
    → nbytes ≤ 2 ^ 32 - 8
    → ((fits (roundmb nbytes) h.free ≡ false) × (getmem nbytes h ≡ (h, none)))
      ⊎ ((h' : Heap) × (a : ℕ) × (fits (roundmb nbytes) h.free ≡ true)
          × (getmem nbytes h ≡ (h', some a))
          × (nbytes ≤ roundmb nbytes)
          × Allocates h h' a (roundmb nbytes))
unfolding getmem
getmem-Allocates nbytes h is p small =
    let (round, _) = roundmb_positive nbytes p small in
    let some_bytes : (nbytes == 0) ≡ false = ground arith in
    elim (take_first-cases 0 (2 ^ 32 - 1) (roundmb nbytes) h.free is.spaced (omega arith)
      (omega arith)) [
        | inl (nothing, too_small) ↦ inl (too_small, rw (some_bytes, nothing))
        | inr (bs, a, found, fit, takes) ↦
            let totals = total-less h bs a (roundmb nbytes) is takes in
            inr (
              record h { free = bs; total = less_total h (roundmb nbytes) },
              a,
              fit,
              rw (some_bytes, found),
              round,
              record {
                heap = record { spaced = takes.spaced; total_right = totals.0 };
                takes = takes;
                total_less = totals.1;
                same_bounds = (refl, refl);
              },
            )
      ]

heap_same :
    (h : Heap) (bs : List Block) (t : ℕ)
    → bs ≡ h.free
    → t ≡ h.total
    → record h { free = bs; total = t } ≡ h
heap_same h bs t e f = rw (e, f)

take_first_none :
    (b : Block) (bs : List Block)
    → 0 < b.mlength
    → b.addr < 2 ^ 32
    → take_first 0 (b ∷ bs) ≡ some (b ∷ bs, b.addr)
unfolding take_first
take_first_none b bs p word =
    let above : ltb 0 b.mlength ≡ true = ground arith in
    let other : (b.mlength == 0) ≡ false = ground arith in
    let same : (b.addr + 0) % 2 ^ 32 ≡ b.addr = omega arith in
    let all : b.mlength - 0 ≡ b.mlength = omega arith in rw (other, above, same, all)

-- A request of more than 2^32 - 8 bytes wraps around to none in roundmb: the result is the address
-- of the first free block, although its length is not asked for, and the heap is unchanged.
pub getmem-wraps :
    (nbytes : ℕ) (h : Heap) (b : Block) (bs : List Block)
    → IsHeap h
    → h.free ≡ b ∷ bs
    → 2 ^ 32 - 8 < nbytes
    → nbytes < 2 ^ 32
    → getmem nbytes h ≡ (h, some b.addr)
unfolding getmem
getmem-wraps nbytes h b bs is e big word =
    let none_left : roundmb nbytes ≡ 0 = omega arith in
    let some_bytes : (nbytes == 0) ≡ false = ground arith in
    let s : Spaced 0 (2 ^ 32 - 1) (b ∷ bs) = rw e at is.spaced in
    let first : take_first (roundmb nbytes) h.free ≡ some (b ∷ bs, b.addr) =
      rw (none_left, e) (take_first_none b bs s.1 (omega arith)) in
    let small = Spaced-bytes 0 (2 ^ 32 - 1) h.free is.spaced in
    let total : less_total h (roundmb nbytes) ≡ h.total =
      (let t = is.total_right in rw none_left (omega arith)) in
    rw (some_bytes, first)
      (ap (λ g. (g, some b.addr))
        (heap_same h (b ∷ bs) (less_total h (roundmb nbytes)) (sym e) total))
