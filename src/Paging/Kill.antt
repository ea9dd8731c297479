-- ===== src/Paging/Kill.antt =====
-- system/kill.c, kill_vm: the tables of a user process that is killed are cleared, and its frames
-- go back to the FFS area.
pub mod Absent
pub mod Entries
pub mod Frames
use ece564_project.Prelude.{
  ℕ, zero, suc, ◌+◌, ◌-◌, ◌*◌, ◌/◌, ◌%◌, ◌^◌, ◌≤◌, ◌<◌, ◌≡◌, ◌≢◌, refl, Bool, true, false, ◌&&◌,
  ◌||◌, arith, ltb, leb, ◌==◌, if◌then◌else◌, Option, some, none, Bool-cases, inl, inr, ◌∙◌,
}
use ece564_project.Paging.Memory.{
  Entry, Mem, slot, addr_of, page_dir_addr_start, page_size, modify, in_range, valid,
  ffs_area_pt_base, max_ffs_size, for_entries, for_entries_at,
}
use ece564_project.Paging.Machine.{Machine, enter_system}
use ece564_project.Paging.Count.{
  is_present, sum_tables, table_count, used_ffs_frames, allocated_virtual_pages,
}

abbrev pub zero_entry : Entry
zero_entry = record {
  pres = 0;
  writable = 0;
  user = 0;
  pwt = 0;
  pcd = 0;
  acc = 0;
  bit6 = 0;
  bit7 = 0;
  global = 0;
  avail = 0;
  base = 0;
}

abbrev pub give_back : ℕ → Entry → Entry
give_back b e = if e.base == b then record e { avail = 2 } else e

-- for (k = 0; k < MAX_FFS_SIZE; k++): each entry of the FFS area with this base is free again.
unfoldable pub release_frames : ℕ → Mem → Mem
release_frames b m = for_entries max_ffs_size 0 (slot ffs_area_pt_base 0) (λ _. give_back b) m

-- The loop over the entries of a table, from `j` on.
unfoldable pub clear_table : ℕ → ℕ → ℕ → Mem → Mem
clear_table zero j pt m = m
clear_table (suc n) j pt m =
    let e = m (slot pt j) in
    let released = (if is_present e then release_frames e.base m else m) in
    clear_table n (j + 1) pt (modify released (slot pt j) (λ _. zero_entry))

-- The loop over the directory entries, from `i` on. The kernel's own tables (i < 8) stay.
unfoldable pub clear_dir : ℕ → ℕ → ℕ → Mem → Mem
clear_dir zero i dir m = m
clear_dir (suc n) i dir m =
    let e = m (slot dir i) in
    let tables = (if is_present e && leb 8 i then clear_table 1024 0 (addr_of e.base) m else m) in
    clear_dir n (i + 1) dir (modify tables (slot dir i) (λ _. zero_entry))

-- The function leaves CR3 at the system's page directory.
unfoldable pub kill_vm : ℕ → Machine → Machine
kill_vm pid m =
    let s = enter_system m in
    if s.page_addr pid == page_dir_addr_start
    then s
    else record s { mem = clear_dir 1024 0 (s.page_addr pid) s.mem }
