-- ===== src/Paging/Vmalloc/Tables.antt =====
-- The writes that system/vmalloc.c repeats: a new page table, and pages marked as allocated.
use ece564_project.Prelude.{ℕ, ◌≡◌, Bool, true, false, arith, ltb, ◌==◌, if◌then◌else◌}
use ece564_project.Paging.Memory.{
  Entry, Mem, slot, base_of, modify, for_entries, for_entries_at, in_range,
}

abbrev pub user_pde : ℕ → Entry
user_pde addr = record {
  pres = 1;
  writable = 1;
  user = 0;
  pwt = 1;
  pcd = 1;
  acc = 1;
  bit6 = 0;
  bit7 = 0;
  global = 0;
  avail = 3;
  base = base_of addr;
}

abbrev pub fresh_pte : Entry
fresh_pte = record {
  pres = 0;
  writable = 1;
  user = 0;
  pwt = 1;
  pcd = 1;
  acc = 1;
  bit6 = 0;
  bit7 = 0;
  global = 0;
  avail = 2;
  base = 0;
}

-- Directory entry `i` gets the table at `addr`, whose entries are made new.
unfoldable pub install : ℕ → ℕ → ℕ → Mem → Mem
install dir i addr m =
    for_entries 1024 0 (slot addr 0) (λ _ _. fresh_pte) (modify m (slot dir i) (λ _. user_pde addr))

abbrev pub mark : Entry → Entry
mark e = record e { avail = 3 }

-- pt_avail = 3 for the `n` entries from `s` on.
unfoldable pub mark_pages : ℕ → ℕ → Mem → Mem
mark_pages n s m = for_entries n 0 s (λ _. mark) m

-- `pt_avail != 3`
abbrev pub unallocated : Entry → Bool
unallocated e = if e.avail == 3 then false else true

-- `pt[0].pt_avail == 0`: the page of the table area is not in use.
abbrev pub unused : Mem → ℕ → Bool
unused m addr = (m (slot addr 0)).avail == 0

-- `frames > 0` as a number.
abbrev pub positive : ℕ → ℕ
positive n = if ltb 0 n then 1 else 0

pub mark_pages_at :
    (n s : ℕ) (m : Mem) (k : ℕ) → mark_pages n s m k ≡ (if in_range s n k then mark (m k) else m k)
unfolding mark_pages
mark_pages_at n s m k = rw (for_entries_at n 0 s (λ _. mark) m k) (ground arith)

pub install_at :
    (dir i addr : ℕ) (m : Mem) (k : ℕ)
    → install dir i addr m k ≡ (
        if in_range (slot addr 0) 1024 k
        then fresh_pte
        else if k == slot dir i
        then user_pde addr
        else m k)
unfolding install
install_at dir i addr m k =
    rw
      (for_entries_at 1024 0 (slot addr 0) (λ _ _. fresh_pte)
        (modify m (slot dir i) (λ _. user_pde addr)) k)
      (ground arith)
