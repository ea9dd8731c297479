-- ===== src/Heap/Getstk.antt =====
-- system/getstk.c: the scan for the last block that is large enough, seen as sets of free bytes.
use ece564_project.Prelude.{
  ℕ, zero, suc, ◌+◌, ◌-◌, ◌%◌, ◌^◌, ◌≤◌, ◌<◌, ◌≡◌, refl, true, false, arith, leb, ◌==◌,
  if◌then◌else◌, Option, some, none, List, [], ◌∷◌, ap, ◌∙◌, Bool-cases, inl, inr, ◌⊎◌,
}
use ece564_project.Heap.Blocks.{
  Block, Heap, roundmb, last_fit, take_top, getstk, less_total, Spaced, IsHeap, Spaced-low,
  covers-below,
}
use ece564_project.Heap.RoundTrip.{covers-above}
use ece564_project.Heap.Getmem.{
  fits, Takes, Takes-cons, Takes-all, roundmb_positive, total-less, Allocates,
}

-- The block at place `j` is large enough, and none behind it is.
abbrev pub LastFit : ℕ → ℕ → List Block → Type 0
LastFit n j [] = ⊥
LastFit n zero (b ∷ bs) = (leb n b.mlength ≡ true) × (fits n bs ≡ false)
LastFit n (suc j) (b ∷ bs) = LastFit n j bs

-- Where the scan ends: at what it had found before if no block is large enough, else at the last
-- one that is.
last_fit-cases :
    (n i : ℕ) (bs : List Block) (found : Option ℕ)
    → ((fits n bs ≡ false) × (last_fit n i bs found ≡ found))
      ⊎ ((j : ℕ) × (fits n bs ≡ true) × (last_fit n i bs found ≡ some (i + j)) × LastFit n j bs)
unfolding last_fit
last_fit-cases n i [] found = inl (refl, refl)
last_fit-cases n i (b ∷ bs) found =
    elim (last_fit-cases n (i + 1) bs (if leb n b.mlength then some i else found)) [
      | inr (j, fit, stop, last) ↦
          let e : i + 1 + j ≡ i + suc j = omega arith in
          inr (suc j, ground arith, rw e at stop, last)
      | inl (none_later, stop) ↦ elim (Bool-cases (leb n b.mlength)) [
        | inl here ↦
            let e : i ≡ i + 0 = omega arith in
            inr (0, ground arith, rw here ((rw here at stop) ∙ ap some e), (here, none_later))
        | inr small ↦ inl (ground arith, rw small (rw small at stop))
      ]
    ]

abbrev upper : ℕ → Block → Block
upper n b = record b { mlength = b.mlength - n }

Takes-upper :
    (low top : ℕ) (b : Block) (bs : List Block) (n : ℕ)
    → Spaced low top (b ∷ bs)
    → n < b.mlength
    → Takes low top (b ∷ bs) (upper n b ∷ bs) (b.addr + (b.mlength - n)) n
Takes-upper low top b bs n s h =
    let e = s.2 in
    record {
      inside = λ x i. ground arith;
      after = λ x. (let c = covers-below (b.addr + b.mlength) top bs x s.3 in ground arith);
      bytes_taken = omega arith;
      spaced = (
        s.0,
        omega arith,
        omega arith,
        Spaced-low (b.addr + b.mlength) (b.addr + (b.mlength - n)) top bs (omega arith) s.3,
      );
    }

take_top-Takes :
    (low top n j : ℕ) (bs : List Block)
    → Spaced low top bs
    → top < 2 ^ 32
    → 0 < n
    → LastFit n j bs
    → (bs' : List Block) × (a : ℕ) × (take_top n j bs ≡ some (bs', a)) × Takes low top bs bs' a n
unfolding take_top
take_top-Takes low top n zero [] s t p f = elim f [ ]
take_top-Takes low top n zero (b ∷ bs) s t p f = elim (Bool-cases (n == b.mlength)) [
  | inl e ↦ (bs, b.addr, rw e refl, Takes-all low top b bs n (ground arith) s)
  | inr ne ↦
      let g = f.0 in
      let e = s.2 in
      let no_wrap : (b.addr + (b.mlength - n)) % 2 ^ 32 ≡ b.addr + (b.mlength - n) = omega arith in
      (
        upper n b ∷ bs,
        b.addr + (b.mlength - n),
        rw (ne, no_wrap) refl,
        Takes-upper low top b bs n s (ground arith),
      )
]
take_top-Takes low top n (suc j) [] s t p f = elim f [ ]
take_top-Takes low top n (suc j) (b ∷ bs) s t p f =
    let (bs', a, found, takes) = take_top-Takes (b.addr + b.mlength) top n j bs s.3 t p f in
    (b ∷ bs', a, rw found refl, Takes-cons low top b bs bs' a n s takes p)

-- getstk on a heap in order, of at least one byte and at most 2^32 - 8: if no free block has the
-- rounded length, the result is SYSERR and the heap is unchanged; else the result is the address
-- of the highest word of that many bytes, which were free and which alone are free no more,
-- memlist.mlength is less by that many, and the heap is in order.
pub getstk-Allocates :
    (nbytes : ℕ) (h : Heap)
    → IsHeap h
    → 0 < nbytes
    → nbytes ≤ 2 ^ 32 - 8
    → ((fits (roundmb nbytes) h.free ≡ false) × (getstk nbytes h ≡ (h, none)))
      ⊎ ((h' : Heap) × (a : ℕ) × (fits (roundmb nbytes) h.free ≡ true)
          × (getstk nbytes h ≡ (h', some (a + roundmb nbytes - 4)))
          × Allocates h h' a (roundmb nbytes))
unfolding getstk
getstk-Allocates nbytes h is p small =
    let (round, _) = roundmb_positive nbytes p small in
    let some_bytes : (nbytes == 0) ≡ false = ground arith in
    elim (last_fit-cases (roundmb nbytes) 0 h.free none) [
      | inl (too_small, nothing) ↦ inl (too_small, rw (some_bytes, nothing))
      | inr (j, fit, at_j, last) ↦
          let (bs, a, found, takes) =
            take_top-Takes 0 (2 ^ 32 - 1) (roundmb nbytes) j h.free is.spaced (omega arith)
              (omega arith) last in
          let totals = total-less h bs a (roundmb nbytes) is takes in
          let zero_plus : 0 + j ≡ j = omega arith in
          let end =
            covers-above 0 (2 ^ 32 - 1) h.free (a + roundmb nbytes - 1) is.spaced
              (takes.inside (a + roundmb nbytes - 1) (ground arith)) in
          let no_wrap : (a + roundmb nbytes - 4) % 2 ^ 32 ≡ a + roundmb nbytes - 4 = omega arith in
          inr (
            record h { free = bs; total = less_total h (roundmb nbytes) },
            a,
            fit,
            rw (some_bytes, at_j, zero_plus, found, no_wrap),
            record {
              heap = record { spaced = takes.spaced; total_right = totals.0 };
              takes = takes;
              total_less = totals.1;
              same_bounds = (refl, refl);
            },
          )
    ]
