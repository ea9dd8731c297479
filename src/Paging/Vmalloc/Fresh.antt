-- ===== src/Paging/Vmalloc/Fresh.antt =====
-- system/vmalloc.c when the first directory entry of the heap is not present.
use ece564_project.Prelude.{ℕ, ◌+◌, ◌-◌, ◌*◌, ◌/◌, ◌≡◌, true, false, ltb, if◌then◌else◌}
use ece564_project.Paging.Memory.{Mem, slot, in_range}
use ece564_project.Paging.Machine.{Machine}
use ece564_project.Paging.Vmalloc.Tables.{mark, mark_pages, positive, install, fresh_pte, user_pde}
use ece564_project.Paging.Vmalloc.Scan.{area_page}

-- The memory when `n` tables from page `p` on have gone to the entries from `i` on: the first
-- `pages` entries of these tables are allocated, the others are not.
abbrev pub after_tables : ℕ → ℕ → ℕ → ℕ → ℕ → Mem → Mem
after_tables n i p pages dir m k =
    if in_range (slot dir i) n k
    then user_pde (area_page (p + (k - slot dir i)))
    else if in_range (slot (area_page p) 0) (1024 * n) k
    then (if ltb (k - slot (area_page p) 0) pages then mark fresh_pte else fresh_pte)
    else m k

-- The entries of the last table that a request fills.
abbrev pub last_pages : ℕ → ℕ
last_pages frames = if ltb 0 frames then frames else 1024

-- One round, for the table at page `p`.
one_table : ℕ → ℕ → ℕ → ℕ → Mem → Mem
one_table c dir i p m = mark_pages c (slot (area_page p) 0) (install dir i (area_page p) m)

-- The tables do not hold the directory entries.
abbrev pub DirApart : ℕ → ℕ → ℕ → ℕ → Type 0
DirApart n i p dir =
    (k : ℕ)
    → in_range (slot (area_page p) 0) (1024 * n) k ≡ true
    → in_range (slot dir i) n k ≡ false

-- The tables that a request wants.
abbrev pub tables_of : ℕ → ℕ
tables_of pages = pages / 1024 + positive (pages - pages / 1024 * 1024)
