-- ===== src/Paging/Vfree/Laws.antt =====
-- What vfree (system/vfree.c) does to the table entries of the range, to the FFS area and to the
-- rest of memory.
use ece564_project.Prelude.{
  ℕ, zero, suc, ◌+◌, ◌/◌, ◌^◌, ◌≤◌, ◌<◌, ◌≡◌, ◌≢◌, true, false, ◌&&◌, arith, ◌==◌, if◌then◌else◌,
  some, lt→ltb, ◌∙◌, ap,
}
use ece564_project.Paging.Memory.{Entry, Mem, page_size, modify, count_entries, in_range}
use ece564_project.Paging.Machine.{Machine}
use ece564_project.Paging.Count.{is_present}
use ece564_project.Paging.Kill.{release_frames}
use ece564_project.Paging.Kill.Absent.{release_frames_at}
use ece564_project.Paging.Kill.Entries.{
  maps_base, maps_base-congr, freed_if, freed_if_base, freed_if-twice, freed_if-false, in_ffs,
}
use ece564_project.Paging.Vfree.{
  is_allocated, upper_bound, drop_pages, drop_page, first_slot, vfree,
}

-- The memory when one page is dropped.
after_drop : ℕ → Mem → Mem
after_drop s m = modify (if is_present (m s) then release_frames (m s).base m else m) s drop_page

after_drop_ffs :
    (s : ℕ) (m : Mem) (k : ℕ)
    → in_ffs k ≡ true
    → k ≢ s
    → after_drop s m k ≡ freed_if (is_present (m s) && ((m s).base == (m k).base)) (m k)
unfolding after_drop freed_if
after_drop_ffs s m k a b = ground (arith, release_frames_at (m s).base m k)

after_drop_other : (s : ℕ) (m : Mem) (k : ℕ) → in_ffs k ≡ false → k ≢ s → after_drop s m k ≡ m k
unfolding after_drop
after_drop_other s m k a b = ground (arith, release_frames_at (m s).base m k)

after_drop_at :
    (s : ℕ) (m : Mem) (k : ℕ)
    → in_ffs k ≡ false
    → after_drop s m k ≡ (if k == s then drop_page (m k) else m k)
unfolding after_drop
after_drop_at s m k a = ground (arith, release_frames_at (m s).base m k)

-- The `n` entries from `s` on are no entries of the FFS area.
abbrev pub RangeApart : ℕ → ℕ → Type 0
RangeApart n s = (k : ℕ) → s ≤ k → k < s + n → in_ffs k ≡ false

drop_pages_ffs :
    (n s : ℕ) (m : Mem) (k : ℕ)
    → RangeApart n s
    → in_ffs k ≡ true
    → drop_pages n s m k ≡ freed_if (maps_base n s (m k).base m) (m k)
unfolding drop_pages maps_base after_drop
drop_pages_ffs zero s m k t h = rw freed_if-false
drop_pages_ffs (suc n) s m k t h =
    let m' : Mem = after_drop s m in
    let out : in_ffs s ≡ false = t s (omega arith) (omega arith) in
    let now = after_drop_ffs s m k h (ne out) in
    let same : (m' k).base ≡ (m k).base = ap (λ (x : Entry). x.base) now ∙ freed_if_base _ (m k) in
    let later =
      maps_base-congr n (s + 1) (m k).base m m'
        (λ k' a b. after_drop_other s m k' (t k' (omega arith) (omega arith)) (omega arith)) in
    drop_pages_ffs n (s + 1) m' k (λ k' a b. t k' (omega arith) (omega arith)) h
    ∙ (rw (same, later, now) (freed_if-twice _ _ (m k)))
  where
    ne : in_ffs s ≡ false → k ≢ s
    ne out e = ground arith

drop_pages_other :
    (n s : ℕ) (m : Mem) (k : ℕ)
    → in_ffs k ≡ false
    → drop_pages n s m k ≡ (if in_range s n k then drop_page (m k) else m k)
unfolding drop_pages after_drop
drop_pages_other zero s m k a = ground arith
drop_pages_other (suc n) s m k a =
    drop_pages_other n (s + 1) (after_drop s m) k a ∙ rw (after_drop_at s m k a) (ground arith)

vfree-true :
    (ptr nbytes : ℕ) (m m' : Machine)
    → vfree ptr nbytes m ≡ some (m', true)
    → let pages = nbytes / page_size in
      let start = first_slot (m.page_addr m.currpid) m.mem ptr in
      (count_entries pages start is_allocated m.mem ≡ pages)
      × (m'.mem ≡ drop_pages pages start m.mem)
      × (m'.cr3 ≡ m.cr3)
unfolding vfree
vfree-true ptr nbytes m m' ok = ground arith

-- When vfree succeeds and no page table entry of the range stands in the FFS area (RangeApart), the
-- range was allocated as a whole. Outside of the FFS area's entries it
-- drops the entries of the range (not present, pt_avail = 2, no base) and changes nothing else;
-- in the FFS area it frees the frames of the pages of the range that were present, and no
-- other. CR3 is what it was.
pub vfree-drops :
    (ptr nbytes : ℕ) (m m' : Machine)
    → vfree ptr nbytes m ≡ some (m', true)
    → let pages = nbytes / page_size in
      let start = first_slot (m.page_addr m.currpid) m.mem ptr in
      RangeApart pages start
      → (count_entries pages start is_allocated m.mem ≡ pages)
        × ((k : ℕ)
            → in_ffs k ≡ false
            → m'.mem k ≡ (if in_range start pages k then drop_page (m.mem k) else m.mem k))
        × ((k : ℕ)
            → in_ffs k ≡ true
            → m'.mem k ≡ (
                if maps_base pages start (m.mem k).base m.mem
                then record (m.mem k) { avail = 2 }
                else m.mem k))
        × (m'.cr3 ≡ m.cr3)
unfolding freed_if
vfree-drops ptr nbytes m m' ok apart =
    let start : ℕ = first_slot (m.page_addr m.currpid) m.mem ptr in
    let (counted, same, cr3) = vfree-true ptr nbytes m m' ok in
    (
      counted,
      λ k out. ap (λ (f : Mem). f k) same ∙ drop_pages_other (nbytes / page_size) start m.mem k out,
      λ k ffs.
          ap (λ (f : Mem). f k) same ∙ drop_pages_ffs (nbytes / page_size) start m.mem k apart ffs,
      cr3,
    )

-- vfree of less than a page, below its upper bound, reports success and changes nothing: the
-- page that vmalloc gives for such a request stays allocated.
pub vfree-small :
    (ptr nbytes : ℕ) (m : Machine)
    → nbytes < page_size
    → ptr < 2 ^ 31
    → ptr < upper_bound (m.page_addr m.currpid) m.mem
    → vfree ptr nbytes m ≡ some (m, true)
unfolding vfree drop_pages count_entries
vfree-small ptr nbytes m a b c =
    let none_asked : nbytes / page_size ≡ 0 = omega arith in
    rw (none_asked, lt→ltb _ _ c) (ground arith)
