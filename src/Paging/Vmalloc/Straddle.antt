-- ===== src/Paging/Vmalloc/Straddle.antt =====
-- system/vmalloc.c for a request that fits only past the end of the first heap table, when the
-- next directory entry is not present. The loop that should find a page for the new table sets
-- `base_addr` to its end value in every round, outside of the `if`, so it looks only at the
-- first page of the table area, which holds the system's page directory.
use ece564_project.Prelude.{
  ℕ, zero, suc, ◌+◌, ◌-◌, ◌*◌, ◌/◌, ◌≤◌, ◌<◌, ◌≡◌, ◌≢◌, true, false, arith, ltb, leb, ◌==◌, some,
  Bool-cases, inl, inr, ◌∙◌, sym, ltb→lt, leb→le, ne→==, true≢false,
}
use ece564_project.Paging.Memory.{Mem, slot, addr_of, page_dir_addr_start, count_entries}
use ece564_project.Paging.Machine.{Machine}
use ece564_project.Paging.Count.{is_present}
use ece564_project.Paging.Vmalloc.Tables.{mark_pages, mark_pages_at, unallocated, positive, unused}
use ece564_project.Paging.Vmalloc.Single.{
  last_allocated, single_search, found, heap_addr, straddle_new,
}
use ece564_project.Paging.Vmalloc.Whole.{pages_of, heap_loop, vmalloc}
use ece564_project.Paging.Vmalloc.FirstFit.{count_entries-full, last_allocated_lem}

-- The table at `pt` has no run of `n` free entries, and its free entries from `j` to its end
-- are too few.
pub record IsTail (n j pt : ℕ) (m : Mem) : Type 0 where
  pub in_table : j < 1024
  pub crosses : 1024 < j + n
  pub small : n < 1024
  pub free : count_entries (1024 - j) (slot pt j) unallocated m ≡ 1024 - j
  pub before : unallocated (m (slot pt (j - 1))) ≡ false
  pub no_run : (i : ℕ) → i + n ≤ 1024 → count_entries n (slot pt i) unallocated m ≢ n

module _ (frames i dir pt j₀ : ℕ) (m : Mem) (tail : IsTail frames j₀ pt m) where
  free_in_tail : (k : ℕ) → j₀ ≤ k → k < 1024 → unallocated (m (slot pt k)) ≡ true
  free_in_tail k a b =
      count_entries-full (1024 - j₀) (slot pt j₀) unallocated m (slot pt k) tail.free (omega arith)
        (omega arith)

  jump_le : (j : ℕ) → j + frames ≤ 1024 → j + last_allocated frames (slot pt j) m < j₀
  jump_le j h =
      let (low, used) = last_allocated_lem frames (slot pt j) m (tail.no_run j h) in
      let l : ℕ = last_allocated frames (slot pt j) m in
      elim (Bool-cases (ltb (j + l) j₀)) [
        | inl before ↦ ltb→lt (j + l) j₀ before
        | inr behind ↦
            let free = free_in_tail (j + l) (ground arith) (omega arith) in
            let e : slot pt (j + l) ≡ slot pt j + l = omega arith in
            absurd (true≢false (sym free ∙ rw e used))
      ]

  -- Before `j₀` the rest of the table is not free.
  not_all_free : (j : ℕ) → j < j₀ → count_entries (1024 - j) (slot pt j) unallocated m ≢ 1024 - j
  not_all_free j h e =
      let low = tail.in_table in
      true≢false (
        sym (
          count_entries-full (1024 - j) (slot pt j) unallocated m (slot pt (j₀ - 1)) e (omega arith)
            (omega arith))
        ∙ tail.before)

  single_search-tail :
      (n j counter : ℕ)
      → j ≤ j₀
      → j₀ < j + n
      → i < 1023
      → is_present (m (slot dir (i + 1))) ≡ false
      → single_search n j counter frames i dir pt m
        ≡ found (straddle_new frames (1024 - j₀) i j₀ dir m) (heap_addr i j₀)
  unfolding single_search
  single_search-tail zero j counter a b c absent = absurd (omega arith)
  single_search-tail (suc n) j counter a b c absent = elim (Bool-cases (j == j₀)) [
    | inl e ↦
        let same : j ≡ j₀ = ground arith in
        let low = tail.in_table in
        let crosses = tail.crosses in
        let t₀ : leb 1024 j₀ ≡ false = ground arith in
        let t₁ = free_in_tail j₀ (omega arith) low in
        let t₂ : leb (j₀ + frames) 1024 ≡ false = ground arith in
        let t₃ : ((1024 - j₀) == (1024 - j₀)) ≡ true = ground arith in
        let t₄ : ltb i 1023 ≡ true = ground arith in
        rw (same, t₀, t₁, t₂, tail.free, t₃, t₄, absent)
    | inr e ↦
        let less : j < j₀ = ground arith in
        let low = tail.in_table in
        let t₀ : leb 1024 j ≡ false = ground arith in
        let t₃ =
          ne→== (count_entries (1024 - j) (slot pt j) unallocated m) (1024 - j)
            (not_all_free j less) in
        let step = λ (x : ℕ). single_search-tail n (j + 1) x (omega arith) (omega arith) c absent in
        elim (Bool-cases (unallocated (m (slot pt j)))) [
          | inr used ↦ rw (t₀, used) (step counter)
          | inl free ↦ elim (Bool-cases (leb (j + frames) 1024)) [
            | inr long ↦ rw (t₀, free, long, t₃) (step _)
            | inl fits ↦
                let le = leb→le _ _ fits in
                let jump = jump_le j le in
                let t₅ =
                  ne→== (count_entries frames (slot pt j) unallocated m) frames
                    (tail.no_run j le) in
                rw (t₀, free, fits, t₅)
                  (single_search-tail n (j + last_allocated frames (slot pt j) m + 1) _
                    (omega arith) (omega arith) c absent)
          ]
        ]
  ]

mark_pages-pres : (n s : ℕ) (m : Mem) (k : ℕ) → (mark_pages n s m k).pres ≡ (m k).pres
mark_pages-pres n s m k = rw (mark_pages_at n s m k) (ground arith)

unused-mark_pages : (n s a : ℕ) (m : Mem) → unused m a ≡ false → unused (mark_pages n s m) a ≡ false
unused-mark_pages n s a m h = rw (mark_pages_at n s m (slot a 0)) (ground arith)

straddle_new-pres :
    (frames counter i j dir : ℕ) (m : Mem) (k : ℕ)
    → unused m page_dir_addr_start ≡ false
    → (straddle_new frames counter i j dir m k).pres ≡ (m k).pres
unfolding straddle_new
straddle_new-pres frames counter i j dir m k used =
    let pt : ℕ = addr_of (m (slot dir i)).base in
    let still = unused-mark_pages (1024 - j) (slot pt j) page_dir_addr_start m used in
    rw still (
      mark_pages-pres (frames - counter) _ (mark_pages (1024 - j) (slot pt j) m) k
      ∙ mark_pages-pres (1024 - j) (slot pt j) m k)

heap_loop-tail :
    (fuel frames counter dir j : ℕ) (m : Mem)
    → is_present (m (slot dir 8)) ≡ true
    → is_present (m (slot dir 9)) ≡ false
    → IsTail frames j (addr_of (m (slot dir 8)).base) m
    → heap_loop (suc fuel) 0 frames counter 8 dir m
      ≡ some (straddle_new frames (1024 - j) 8 j dir m, some (heap_addr 8 j))
unfolding heap_loop
heap_loop-tail fuel frames counter dir j m present absent tail =
    let pt : ℕ = addr_of (m (slot dir 8)).base in
    let all_pages : frames + 0 * 1024 ≡ frames = omega arith in
    let low = tail.in_table in
    rw (
      present,
      all_pages,
      single_search-tail frames 8 dir pt j m tail 1025 0 counter (omega arith) (omega arith)
          (omega arith) absent,
    )

-- A request that fits only past the end of the first heap table, with the next directory entry
-- not present and the system's page directory in place: vmalloc returns the address of the
-- table's free tail, though the entry for the rest of the request is still not present.
pub vmalloc-straddle :
    (fuel junk nbytes j : ℕ) (m : Machine)
    → is_present (m.mem (slot (m.page_addr m.currpid) 8)) ≡ true
    → is_present (m.mem (slot (m.page_addr m.currpid) 9)) ≡ false
    → unused m.mem page_dir_addr_start ≡ false
    → IsTail (pages_of nbytes) j (addr_of (m.mem (slot (m.page_addr m.currpid) 8)).base) m.mem
    → (m' : Machine) × (vmalloc (suc fuel) junk nbytes m ≡ some (m', some (heap_addr 8 j)))
      × (is_present (m'.mem (slot (m.page_addr m.currpid) 9)) ≡ false)
unfolding vmalloc
vmalloc-straddle fuel junk nbytes j m present absent used tail =
    let n : ℕ = pages_of nbytes in
    let dir : ℕ = m.page_addr m.currpid in
    let (small, crosses, low) : (n < 1024) × (1024 < j + n) × (j < 1024) =
      (tail.small, tail.crosses, tail.in_table) in
    let no_table : n / 1024 ≡ 0 = omega arith in
    let frames : n - 0 * 1024 ≡ n = omega arith in
    let in_bounds : ltb (0 + positive n) 1024 ≡ true = ground arith in
    (
      record m { mem = straddle_new n (1024 - j) 8 j dir m.mem },
      rw (no_table, frames, in_bounds, heap_loop-tail fuel n junk dir j m.mem present absent tail),
      rw (straddle_new-pres n (1024 - j) 8 j dir m.mem (slot dir 9) used) absent,
    )
