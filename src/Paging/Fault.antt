-- ===== src/Paging/Fault.antt =====
-- What a page fault does (system/pagefault_handler.c): the frame that is claimed, the translation
-- and the counters afterwards, and the case that no frame is free.
use ece564_project.Prelude.{
  ℕ, zero, suc, ◌+◌, ◌-◌, ◌%◌, ◌≤◌, ◌<◌, ◌≡◌, ◌≢◌, refl, Bool, true, false, arith, ◌==◌, some, none,
  Bool-cases, inl, inr, ◌∙◌, ◌⊎◌,
}
use ece564_project.Paging.Memory.{
  Entry, Mem, slot, addr_of, page_dir_addr_start, modify, in_range, valid, ffs_area_pt_base,
  max_ffs_size, tally, count_entries, count_entries-modify_outside, count_entries-modify_inside,
}
use ece564_project.Paging.Machine.{Machine, switch_to, translate, translate-entries, cr3_value}
use ece564_project.Paging.Count.{
  free_ffs_pages, used_ffs_frames, allocated_virtual_pages, Apart, sum_tables-modify_elsewhere,
  free_frame, is_present, count_free, OnlyIn, sum_tables, sum_tables-modify_inside,
}
use ece564_project.Paging.Handler.{
  find_frame, take_frame, mark, claim, map_page, pd_index, pde_slot, pte_slot, pagefault_handler,
}

-- What the search finds: no frame if none is free, else the first one that is free.
pub record FirstFree (i f n : ℕ) (m : Mem) : Type 0 where
  pub low : i ≤ f
  pub high : f < i + n
  pub free : valid (m (slot ffs_area_pt_base f)) ≡ false
  pub before : (g : ℕ) → i ≤ g → g < f → valid (m (slot ffs_area_pt_base g)) ≡ true

find_frame-cases :
    (n i : ℕ) (m : Mem)
    → ((find_frame n i m ≡ none) × (count_entries n (slot ffs_area_pt_base i) free_frame m ≡ 0))
      ⊎ ((f : ℕ) × (find_frame n i m ≡ some f)
          × FirstFree i f n m
          × (0 < count_entries n (slot ffs_area_pt_base i) free_frame m))
unfolding find_frame count_entries
find_frame-cases zero i m = inl (refl, refl)
find_frame-cases (suc n) i m = elim (Bool-cases (valid (m (slot ffs_area_pt_base i)))) [
  | inr free ↦ inr (
    i,
    rw free,
    record {
      low = omega arith;
      high = omega arith;
      free = free;
      before = λ g a b. absurd (omega arith);
    },
    rw free (omega arith),
  )
  | inl used ↦
      let next : slot ffs_area_pt_base i + 1 ≡ slot ffs_area_pt_base (i + 1) = omega arith in
      elim (find_frame-cases n (i + 1) m) [
        | inl (none_left, zero_left) ↦ inl (rw used none_left, rw (used, next) (omega arith))
        | inr (f, found, first, some_left) ↦ inr (
          f,
          rw used found,
          record {
            low = omega arith;
            high = omega arith;
            free = first.free;
            before = λ g a b. elim (Bool-cases (g == i)) [
              | inl e ↦ let same : g ≡ i = ground arith in rw same used
              | inr e ↦ first.before g (ground arith) b
            ];
          },
          rw (used, next) (omega arith),
        )
      ]
]

-- The faulting address of the running process: its directory is a page, its directory entry and
-- its table entry are valid, the table entry stands in one table, and neither entry is one of
-- the FFS area's entries.
pub record IsUserPage (m : Machine) (va : ℕ) : Type 0 where
  pub aligned : m.page_addr m.currpid % 4096 ≡ 0
  pub pde_valid : valid (m.mem (pde_slot m va)) ≡ true
  pub pte_valid : valid (m.mem (pte_slot m va)) ≡ true
  pub only : OnlyIn (pte_slot m va) (pd_index va) (m.page_addr m.currpid) m.mem
  pub apart :
      (i : ℕ) → i < max_ffs_size → Apart (slot ffs_area_pt_base i) 0 (m.page_addr m.currpid) m.mem
  pub user_area : 8 ≤ pd_index va
  pub absent : is_present (m.mem (pte_slot m va)) ≡ false

-- The FFS frame `i`, the first that is free, has become the frame of the page at `va`.
pub record Claims (m m' : Machine) (va i : ℕ) : Type 0 where
  pub first : FirstFree 0 i max_ffs_size m.mem
  pub used : valid (m'.mem (slot ffs_area_pt_base i)) ≡ true
  pub maps :
      translate m'.mem m'.cr3 va ≡ some (addr_of (m.mem (slot ffs_area_pt_base i)).base + va % 4096)
  pub frame : (k : ℕ) → k ≢ slot ffs_area_pt_base i → k ≢ pte_slot m va → m'.mem k ≡ m.mem k

module _ (kill : Machine → Machine) (va : ℕ) (m : Machine) (u : IsUserPage m va) where
  handler-mem :
      pagefault_handler kill va m
      ≡ switch_to (m.page_addr m.currpid) (record m {
        mem = map_page (pte_slot m va) m.mem;
        cr3 = cr3_value page_dir_addr_start m.cr3;
      })
  unfolding pagefault_handler
  handler-mem = rw (u.pde_valid, u.pte_valid)

  pte_apart : (i : ℕ) → i < max_ffs_size → pte_slot m va ≢ slot ffs_area_pt_base i
  pte_apart i h e =
      let out = (u.apart i h).no_table (pd_index va) (omega arith) (omega arith) u.only.present in
      let inside = u.only.inside in ground arith

  claimed : ℕ → Machine
  claimed i =
      switch_to (m.page_addr m.currpid) (record m {
        mem = claim i (pte_slot m va) m.mem;
        cr3 = cr3_value page_dir_addr_start m.cr3;
      })

  handler-claimed :
      (i : ℕ) → find_frame max_ffs_size 0 m.mem ≡ some i → pagefault_handler kill va m ≡ claimed i
  unfolding map_page claimed
  handler-claimed i found = handler-mem ∙ rw (found, map_page)

  pde_same :
      (i : ℕ)
      → i < max_ffs_size
      → claim i (pte_slot m va) m.mem (pde_slot m va) ≡ m.mem (pde_slot m va)
  pde_same i h = let a = u.only.not_dir in let b = (u.apart i h).no_dir in ground arith

  pte_new :
      (i : ℕ)
      → i < max_ffs_size
      → claim i (pte_slot m va) m.mem (pte_slot m va)
        ≡ take_frame (m.mem (slot ffs_area_pt_base i)).base (m.mem (pte_slot m va))
  pte_new i h = ground (arith, pte_apart i h)

  claimed-Claims : (i : ℕ) → FirstFree 0 i max_ffs_size m.mem → Claims m (claimed i) va i
  unfolding claimed
  claimed-Claims i first = record {
    first = first;
    used = ground arith;
    maps =
        translate-entries (claimed i).mem (claimed i).cr3 va (m.page_addr m.currpid)
          (m.mem (pde_slot m va))
          (take_frame (m.mem (slot ffs_area_pt_base i)).base (m.mem (pte_slot m va)))
          (let e = u.aligned in omega arith) (pde_same i first.high) (pte_new i first.high)
          (let p = u.only.present in ground arith) refl;
    frame = λ k a b. ground arith;
  }

  -- A fault on a valid page that has no frame yet, while some FFS frame is free: the first free
  -- frame is claimed, the address is translated into it under the page directory of the running
  -- process, and no other entry of memory changes.
  pub pagefault_handler-Claims :
      0 < count_free m.mem → (i : ℕ) × Claims m (pagefault_handler kill va m) va i
  pagefault_handler-Claims some_free = elim (find_frame-cases max_ffs_size 0 m.mem) [
    | inl (_, nothing) ↦ absurd (omega arith)
    | inr (i, found, first, _) ↦ (i, rw (handler-claimed i found) (claimed-Claims i first))
  ]

  -- The memory between the two writes.
  with_pte : ℕ → Mem
  with_pte i = modify m.mem (pte_slot m va) (take_frame (m.mem (slot ffs_area_pt_base i)).base)

  pte_outside : in_range (slot ffs_area_pt_base 0) max_ffs_size (pte_slot m va) ≡ false
  pte_outside =
      elim (Bool-cases (in_range (slot ffs_area_pt_base 0) max_ffs_size (pte_slot m va))) [
        | inr out ↦ out
        | inl inside ↦
            absurd
              (pte_apart (pte_slot m va - slot ffs_area_pt_base 0) (ground arith) (ground arith))
      ]

  with_pte_dir :
      (i d : ℕ)
      → d < 1024
      → with_pte i (slot (m.page_addr m.currpid) d) ≡ m.mem (slot (m.page_addr m.currpid) d)
  unfolding with_pte
  with_pte_dir i d h = let o = u.only.not_dir in ground arith

  with_pte-Apart :
      (i : ℕ)
      → i < max_ffs_size
      → Apart (slot ffs_area_pt_base i) 0 (m.page_addr m.currpid) (with_pte i)
  with_pte-Apart i h = record {
    no_table = λ d low high p.
        rw (with_pte_dir i d high)
          ((u.apart i h).no_table d low high (rw (with_pte_dir i d high) at p));
    no_dir = (u.apart i h).no_dir;
  }

  claimed-count_free :
      (i : ℕ) → FirstFree 0 i max_ffs_size m.mem → count_free (claimed i).mem + 1 ≡ count_free m.mem
  unfolding claimed with_pte
  claimed-count_free i first =
      let outside =
        count_entries-modify_outside max_ffs_size (slot ffs_area_pt_base 0) free_frame m.mem
          (pte_slot m va) (take_frame (m.mem (slot ffs_area_pt_base i)).base) pte_outside in
      let inside =
        count_entries-modify_inside max_ffs_size (slot ffs_area_pt_base 0) free_frame (with_pte i)
          (slot ffs_area_pt_base i) mark (let h = first.high in ground arith) in
      let before : tally (free_frame (with_pte i (slot ffs_area_pt_base i))) ≡ 1 =
        (let f = first.free in ground (arith, pte_apart i first.high)) in
      omega arith

  claimed-sum :
      (i n start : ℕ) (test : Entry → Bool)
      → FirstFree 0 i max_ffs_size m.mem
      → start ≤ pd_index va
      → start + n ≡ 1024
      → sum_tables n start (m.page_addr m.currpid) test (claimed i).mem
          + tally (test (m.mem (pte_slot m va)))
        ≡ sum_tables n start (m.page_addr m.currpid) test m.mem
          + tally (test (take_frame (m.mem (slot ffs_area_pt_base i)).base (m.mem (pte_slot m va))))
  unfolding claimed with_pte
  claimed-sum i n start test first a b =
      let outer =
        sum_tables-modify_elsewhere n start (slot ffs_area_pt_base i) (m.page_addr m.currpid) test
          (with_pte i) mark 0 (with_pte-Apart i first.high) (omega arith) (omega arith) in
      let inner =
        sum_tables-modify_inside (pte_slot m va) (pd_index va) (m.page_addr m.currpid) test m.mem
          (take_frame (m.mem (slot ffs_area_pt_base i)).base) u.only n start (omega arith) a
          (omega arith) in
      omega arith

  -- Such a fault takes one frame from the free frames, adds one to the frames that the process
  -- uses, and leaves the number of its allocated pages.
  pub pagefault_handler-counts :
      0 < count_free m.mem
      → ((free_ffs_pages (pagefault_handler kill va m)).1 + 1 ≡ (free_ffs_pages m).1)
        × ((used_ffs_frames m.currpid (pagefault_handler kill va m)).1
            ≡ (used_ffs_frames m.currpid m).1 + 1)
        × ((allocated_virtual_pages m.currpid (pagefault_handler kill va m)).1
            ≡ (allocated_virtual_pages m.currpid m).1)
  unfolding free_ffs_pages used_ffs_frames allocated_virtual_pages claimed
  pagefault_handler-counts some_free = elim (find_frame-cases max_ffs_size 0 m.mem) [
    | inl (_, nothing) ↦ absurd (omega arith)
    | inr (i, found, first, _) ↦ rw (handler-claimed i found) (
      claimed-count_free i first,
      (let sum = claimed-sum i 1016 8 is_present first u.user_area refl in
          let absent : tally (is_present (m.mem (pte_slot m va))) ≡ 0 = rw u.absent in omega arith),
      (let sum = claimed-sum i 1024 0 valid first (omega arith) refl in omega arith),
    )
  ]

  -- With no free frame the handler changes nothing but CR3, which ends as that of the process:
  -- the instruction that faulted is run again and faults again.
  pub pagefault_handler-full : count_free m.mem ≡ 0 → (pagefault_handler kill va m).mem ≡ m.mem
  unfolding map_page
  pagefault_handler-full full = elim (find_frame-cases max_ffs_size 0 m.mem) [
    | inl (nothing, _) ↦ rw (handler-mem, map_page, nothing)
    | inr (i, found, first, some_free) ↦ absurd (omega arith)
  ]
