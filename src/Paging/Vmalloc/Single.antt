-- ===== src/Paging/Vmalloc/Single.antt =====
-- system/vmalloc.c, a round at a present table for a request that fits one table.
use ece564_project.Prelude.{
  ℕ, zero, suc, ◌+◌, ◌-◌, ◌*◌, ◌%◌, ◌^◌, ◌&&◌, ltb, leb, ◌==◌, if◌then◌else◌,
}
use ece564_project.Paging.Memory.{Mem, slot, addr_of, page_dir_addr_start, page_size, count_entries}
use ece564_project.Paging.Count.{is_present}
use ece564_project.Paging.Vmalloc.Tables.{install, mark_pages, unused, unallocated}

-- What a round comes to: the function returns an address, or the round goes on with the value
-- that it leaves in `counter`.
pub data Search : Type 0 where
  found : Mem → ℕ → Search
  not_here : ℕ → Search

-- The last of the `n` entries from `s` on that is allocated, as an index from `s`; 0 if none is.
unfoldable pub last_allocated : ℕ → ℕ → Mem → ℕ
last_allocated zero s m = 0
last_allocated (suc n) s m =
    let rest = last_allocated n s m in if unallocated (m (s + n)) then rest else n

-- (i * PAGE_SIZE * MAX_PT_SIZE) + (PAGE_SIZE * j)
abbrev pub heap_addr : ℕ → ℕ → ℕ
heap_addr i j = (i * page_size * 1024 + page_size * j) % 2 ^ 32

-- The request runs past the table's end, the rest of the table is free from `j` on (`counter`
-- entries), and the next directory entry is not present. The loop over the table area ends
-- after its first page, and the entries that it marks last are those of table `i` again.
unfoldable pub straddle_new : ℕ → ℕ → ℕ → ℕ → ℕ → Mem → Mem
straddle_new frames counter i j dir m =
    let pt = addr_of (m (slot dir i)).base in
    let marked = mark_pages (1024 - j) (slot pt j) m in
    let tabled =
      (if unused marked page_dir_addr_start
        then install dir (i + 1) page_dir_addr_start marked
        else marked) in
    mark_pages (frames - counter) (slot (addr_of (tabled (slot dir i)).base) 0) tabled

-- The same, with the next directory entry present: `next` is its table and `counter_v2` the
-- number of its first `frames` entries that are free.
unfoldable pub straddle_old : ℕ → ℕ → ℕ → ℕ → Mem → Mem
straddle_old counter_v2 pt next j m =
    mark_pages counter_v2 (slot next 0) (mark_pages (1024 - j) (slot pt j) m)

-- The loop over the table's entries from `j` on. `pt` is the table of directory entry `i`.
unfoldable pub single_search : ℕ → ℕ → ℕ → ℕ → ℕ → ℕ → ℕ → Mem → Search
single_search zero j counter frames i dir pt m = not_here counter
single_search (suc n) j counter frames i dir pt m =
    let free = count_entries frames (slot pt j) unallocated m in
    let free_end = count_entries (1024 - j) (slot pt j) unallocated m in
    let next = addr_of (m (slot dir (i + 1))).base in
    let counter_v2 = count_entries frames (slot next 0) unallocated m in
    let step = single_search n (j + 1) counter frames i dir pt m in
    let step_end = single_search n (j + 1) free_end frames i dir pt m in
    let jump =
      single_search n (j + last_allocated frames (slot pt j) m + 1) free frames i dir pt m in
    if leb 1024 j
    then not_here counter
    else if unallocated (m (slot pt j))
    then (if leb (j + frames) 1024
        then (if free == frames
            then found (mark_pages frames (slot pt j) m) (heap_addr i j)
            else jump)
        else if (free_end == 1024 - j) && ltb i 1023
        then (if is_present (m (slot dir (i + 1)))
            then (if free_end + counter_v2 == frames
                then found (straddle_old counter_v2 pt next j m) (heap_addr i j)
                else not_here free_end)
            else found (straddle_new frames free_end i j dir m) (heap_addr i j))
        else step_end)
    else step
