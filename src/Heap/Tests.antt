-- ===== src/Heap/Tests.antt =====
-- The theorems on the heap at a heap with two free blocks.
use ece564_project.Prelude.{
  ℕ, ◌+◌, ◌-◌, ◌^◌, ◌≤◌, ◌≡◌, refl, true, false, some, none, [], ◌∷◌, arith, ◌⊎◌,
}
use ece564_project.Heap.Blocks.{Block, Heap, IsHeap, take_first, getmem, freemem}
use ece564_project.Heap.Getmem.{fits, Allocates, getmem-Allocates}
use ece564_project.Heap.Place.{Gives, Apart, Overlaps}
use ece564_project.Heap.Freemem.{freemem-Gives}
use ece564_project.Heap.RoundTrip.{InBounds, freemem-getmem}

-- 16 bytes at 1000 and 64 bytes at 2000.
abbrev low_block : Block
low_block = record { addr = 1000; mlength = 16 }

abbrev high_block : Block
high_block = record { addr = 2000; mlength = 64 }

abbrev two_blocks : Heap
two_blocks = record {
  free = low_block ∷ high_block ∷ [];
  total = 80;
  minheap = 800;
  maxheap = 4000;
}

-- What getmem(20) leaves of it.
abbrev after_getmem : Heap
after_getmem = record {
  free = low_block ∷ record { addr = 2024; mlength = 40 } ∷ [];
  total = 56;
  minheap = 800;
  maxheap = 4000;
}

two_blocks-IsHeap : IsHeap two_blocks
two_blocks-IsHeap = record {
  spaced =
      (omega arith, omega arith, omega arith, (omega arith, omega arith, omega arith, omega arith));
  total_right = refl;
}

two_blocks-InBounds : InBounds two_blocks
two_blocks-InBounds x c = (ground arith, ground arith)

getmem-Allocates_example :
    ((fits 24 two_blocks.free ≡ false) × (getmem 20 two_blocks ≡ (two_blocks, none)))
    ⊎ ((h : Heap) × (a : ℕ) × (fits 24 two_blocks.free ≡ true)
        × (getmem 20 two_blocks ≡ (h, some a))
        × (20 ≤ 24)
        × Allocates two_blocks h a 24)
getmem-Allocates_example =
    getmem-Allocates 20 two_blocks two_blocks-IsHeap (omega arith) (omega arith)

freemem-Gives_example :
    (Overlaps (record { addr = 1016; mlength = 24 }) two_blocks.free
      × (freemem 1016 20 two_blocks ≡ (two_blocks, false)))
    ⊎ ((h : Heap) × Apart (record { addr = 1016; mlength = 24 }) two_blocks.free
        × (freemem 1016 20 two_blocks ≡ (h, true))
        × IsHeap h
        × Gives 0 (2 ^ 32 - 1) (record { addr = 1016; mlength = 24 }) two_blocks.free h.free
        × (h.total ≡ 80 + 24))
freemem-Gives_example =
    freemem-Gives 1016 20 two_blocks two_blocks-IsHeap (omega arith) (omega arith) (omega arith)
      (omega arith) (omega arith) (omega arith)

freemem-getmem_example :
    (h : Heap) × (freemem 2000 20 after_getmem ≡ (h, true))
    × (h.free ≡ two_blocks.free)
    × (h.total ≡ two_blocks.total)
unfolding getmem take_first
freemem-getmem_example =
    freemem-getmem 20 2000 two_blocks after_getmem two_blocks-IsHeap (omega arith)
      two_blocks-InBounds (omega arith) (omega arith) refl
