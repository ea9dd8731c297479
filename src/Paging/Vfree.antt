-- ===== src/Paging/Vfree.antt =====
-- system/vfree.c: gives back the pages of an address range of the running process.
pub mod Laws
use ece564_project.Prelude.{
  ℕ, zero, suc, ◌+◌, ◌-◌, ◌*◌, ◌/◌, ◌%◌, ◌^◌, ◌≤◌, ◌<◌, ◌≡◌, ◌≢◌, refl, Bool, true, false, ◌&&◌,
  ◌||◌, arith, ltb, leb, ◌==◌, if◌then◌else◌, Option, some, none, Bool-cases, inl, inr, ◌∙◌,
}
use ece564_project.Paging.Memory.{
  Entry, Mem, slot, addr_of, page_dir_addr_start, page_size, modify, count_entries,
}
use ece564_project.Paging.Machine.{Machine, enter_system}
use ece564_project.Paging.Count.{is_present}
use ece564_project.Paging.Kill.{release_frames}

abbrev pub is_allocated : Entry → Bool
is_allocated e = e.avail == 3

-- The first loop, from directory entry `i` on: the address of the last present table and the
-- value of `j`.
unfoldable pub find_top : ℕ → ℕ → ℕ → Mem → ℕ × ℕ
find_top zero i dir m = (dir, 0)
find_top (suc n) i dir m =
    let rest = find_top n (i + 1) dir m in
    if is_present (m (slot dir i))
    then (if i == 1023 then (addr_of (m (slot dir i)).base, i) else rest)
    else (addr_of (m (slot dir (i - 1))).base, i)

-- The second loop, from entry `n - 1` down: the last allocated entry of the table.
unfoldable pub find_last : ℕ → ℕ → Mem → Option ℕ
find_last zero pt m = none
find_last (suc n) pt m =
    let rest = find_last n pt m in if is_allocated (m (slot pt n)) then some n else rest

-- The bound that the pointer is compared with. When the table has no allocated entry it is the
-- table's own address.
unfoldable pub upper_bound : ℕ → Mem → ℕ
unfolding find_top find_last
upper_bound dir m =
    let top = find_top 1016 8 dir m in
    elim (find_last 1024 top.0 m) [
      | none ↦ top.0
      | some i ↦ (page_size * 1024 * top.1 + page_size * i) % 2 ^ 32
    ]

abbrev pub drop_page : Entry → Entry
drop_page e = record e { pres = 0; avail = 2; base = 0 }

-- The last loop: the frame of a present page is free again, and the entry is no longer allocated.
unfoldable pub drop_pages : ℕ → ℕ → Mem → Mem
drop_pages zero s m = m
drop_pages (suc n) s m =
    let released = (if is_present (m s) then release_frames (m s).base m else m) in
    drop_pages n (s + 1) (modify released s drop_page)

-- The table entry of the page at `ptr`.
abbrev pub first_slot : ℕ → Mem → ℕ → ℕ
first_slot dir m ptr = slot (addr_of (m (slot dir (ptr / 2 ^ 22))).base) (ptr % 2 ^ 22 / page_size)

-- The result is true for OK and false for SYSERR. The source divides `(int) ptr`: from 2 GB on
-- the quotient is negative and the entries that it reads lie before the directory, which the
-- model leaves out (`none`).
unfoldable pub vfree : ℕ → ℕ → Machine → Option (Machine × Bool)
vfree ptr nbytes m =
    let s = enter_system m in
    let dir = s.page_addr s.currpid in
    let pages = nbytes / page_size in
    let start = first_slot dir s.mem ptr in
    if ltb ptr (upper_bound dir s.mem)
    then (if leb (2 ^ 31) ptr
        then none
        else if count_entries pages start is_allocated s.mem == pages
        then some (record s { mem = drop_pages pages start s.mem; cr3 = m.cr3 }, true)
        else some (record s { cr3 = m.cr3 }, false))
    else some (record s { cr3 = m.cr3 }, false)
