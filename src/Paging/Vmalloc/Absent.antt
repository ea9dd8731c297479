-- ===== src/Paging/Vmalloc/Absent.antt =====
-- system/vmalloc.c, a round at a directory entry that is not present: new tables for the whole
-- request are taken from the table area, and the function returns.
use ece564_project.Prelude.{
  ℕ, zero, suc, ◌+◌, ◌-◌, ◌*◌, ◌%◌, ◌^◌, ◌&&◌, ◌||◌, ltb, ◌==◌, if◌then◌else◌, Option, some, none,
}
use ece564_project.Paging.Memory.{Mem, slot, addr_of, page_dir_addr_start, page_size}
use ece564_project.Paging.Vmalloc.Tables.{install, mark_pages, unused, positive}

-- The search for `need` unused pages in a row: the number of pages looked at, and how many are
-- still wanted.
unfoldable pub scan : ℕ → ℕ → ℕ → ℕ → ℕ → Mem → ℕ × ℕ
scan zero base_addr need counter pde_counter m = (counter, pde_counter)
scan (suc n) base_addr need counter pde_counter m =
    let left = (if unused m base_addr then pde_counter - 1 else need) in
    let rest = scan n (base_addr + page_size) need (counter + 1) left m in
    if left == 0 then (counter + 1, 0) else rest

-- The loop that gives the tables from `base_addr` up to `end` to the entries from `i` on. The
-- last of them is allocated up to `frames`, the others as a whole.
unfoldable pub alloc_tables : ℕ → ℕ → ℕ → ℕ → ℕ → ℕ → Mem → Mem
alloc_tables zero i base_addr end frames dir m = m
alloc_tables (suc n) i base_addr end frames dir m =
    let installed = install dir i base_addr m in
    let table = addr_of (installed (slot dir i)).base in
    let pages = (if ltb 0 frames && (table + page_size == end) then frames else 1024) in
    alloc_tables n (i + 1) (table + page_size) end frames dir
      (mark_pages pages (slot table 0) installed)

-- The round: the new memory, and the address that is returned (`none` for SYSERR).
unfoldable pub absent_round : ℕ → ℕ → ℕ → ℕ → Mem → Mem × Option ℕ
absent_round tables frames i dir m =
    let need = tables + positive frames in
    let (counter, left) = scan 1024 page_dir_addr_start need 0 need m in
    let end = page_dir_addr_start + page_size * counter in
    if (tables == 0) || ltb (i + need) 1024
    then (if left == 0
        then (
          alloc_tables need i (end - page_size * need) end frames dir m,
          some (i * page_size * 1024 % 2 ^ 32),
        )
        else (m, none))
    else (m, none)
