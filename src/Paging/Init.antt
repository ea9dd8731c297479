-- ===== src/Paging/Init.antt =====
-- system/initialize.c, initialize_page_table: the page directory of the system processes and the
-- 25 page tables that follow it, which map the kernel, the FFS area and the table area.
use ece564_project.Prelude.{
  ℕ, zero, suc, ◌+◌, ◌-◌, ◌*◌, ◌/◌, ◌%◌, ◌^◌, ◌≤◌, ◌<◌, ◌≡◌, arith, ◌∙◌, ltb, if◌then◌else◌, some,
  none,
}
use ece564_project.Paging.Memory.{
  Entry, Mem, slot, base_of, page_dir_addr_start, page_size, modify, for_entries, for_entries_at,
  in_range,
}
use ece564_project.Paging.Machine.{Machine, translate, cr3_value}

-- Not present, writable, and pd_avail = 2.
abbrev pub empty_pde : Entry
empty_pde = record {
  pres = 0;
  writable = 1;
  user = 0;
  pwt = 0;
  pcd = 0;
  acc = 0;
  bit6 = 0;
  bit7 = 0;
  global = 0;
  avail = 2;
  base = 0;
}

-- The six fields that are set when a directory entry is given the table at `addr`.
abbrev pub point_to : ℕ → Entry → Entry
point_to addr e = record e { base = base_of addr; pres = 1; pwt = 1; pcd = 1; acc = 1; avail = 3 }

-- An entry of the `i`th table, which maps the page at `addr`.
abbrev pub system_pte : ℕ → ℕ → Entry
system_pte i addr = record {
  pres = 1;
  writable = 1;
  user = 0;
  pwt = 1;
  pcd = 1;
  acc = 1;
  bit6 = 0;
  bit7 = 0;
  global = 0;
  avail = if ltb i 8 then 3 else 2;
  base = base_of addr;
}

-- The loop over the directory entries, from entry `i` with the values of `base_address` and
-- `pt_base_address`. The inner loop moves `pt_base_address` by a page for each entry.
init_tables : ℕ → ℕ → ℕ → ℕ → Mem → Mem
init_tables zero i base_address pt_base_address m = m
init_tables (suc n) i base_address pt_base_address m =
    let next = (base_address + page_size) % 2 ^ 32 in
    let pde = modify m (slot page_dir_addr_start i) (point_to next) in
    let ptes =
      for_entries 1024 0 (slot next 0)
        (λ j _. system_pte i ((pt_base_address + page_size * j) % 2 ^ 32)) pde in
    init_tables n (i + 1) next ((pt_base_address + page_size * 1024) % 2 ^ 32) ptes

-- The memory when the loops are done.
unfoldable pub system_tables : Mem → Mem
unfolding init_tables
system_tables m =
    init_tables 25 0 page_dir_addr_start 0
      (for_entries 1024 0 (slot page_dir_addr_start 0) (λ _ _. empty_pde) m)

-- The machine afterwards, and the value that is returned.
unfoldable pub initialize_page_table : Machine → Machine × ℕ
unfolding system_tables
initialize_page_table m =
    let value = cr3_value page_dir_addr_start m.cr3 in
    (record m { mem = system_tables m.mem; cr3 = value }, value)

-- The memory that `n` rounds from `i` leave, entry by entry.
abbrev after_tables : ℕ → ℕ → Mem → Mem
after_tables n i m k =
    if in_range (slot page_dir_addr_start i) n k
    then point_to (page_dir_addr_start + page_size * (k - slot page_dir_addr_start 0 + 1)) (m k)
    else if in_range (slot page_dir_addr_start (1024 * (i + 1))) (1024 * n) k
    then system_pte ((k - slot page_dir_addr_start 1024) / 1024)
        (page_size * (k - slot page_dir_addr_start 1024))
    else m k

abbrev round_ptes : ℕ → ℕ → Entry → Entry
round_ptes i j _ = system_pte i ((page_size * 1024 * i + page_size * j) % 2 ^ 32)

abbrev round_pde : ℕ → Mem → Mem
round_pde i m =
    modify m (slot page_dir_addr_start i) (point_to (page_dir_addr_start + page_size * (i + 1)))

abbrev round_slot : ℕ → ℕ
round_slot i = slot (page_dir_addr_start + page_size * (i + 1)) 0

after_tables_round :
    (n i : ℕ) (m : Mem) (k : ℕ)
    → i + suc n ≤ 25
    → after_tables n (i + 1) (for_entries 1024 0 (round_slot i) (round_ptes i) (round_pde i m)) k
      ≡ after_tables (suc n) i m k
after_tables_round n i m k h =
    rw (for_entries_at 1024 0 (round_slot i) (round_ptes i) (round_pde i m) k) (ground arith)

init_tables_at :
    (n i : ℕ) (m : Mem) (k : ℕ)
    → i + n ≤ 25
    → init_tables n i (page_dir_addr_start + page_size * i) (page_size * 1024 * i) m k
      ≡ after_tables n i m k
unfolding init_tables
init_tables_at zero i m k h = ground arith
init_tables_at (suc n) i m k h =
    let next : ℕ = page_dir_addr_start + page_size * (i + 1) in
    let e : (page_dir_addr_start + page_size * i + page_size) % 2 ^ 32 ≡ next = omega arith in
    let f : (page_size * 1024 * i + page_size * 1024) % 2 ^ 32 ≡ page_size * 1024 * (i + 1) =
      omega arith in
    rw (e, f) (init_tables_at n (i + 1) _ k (omega arith) ∙ after_tables_round n i m k h)

cleared : Mem → Mem
cleared m = for_entries 1024 0 (slot page_dir_addr_start 0) (λ _ _. empty_pde) m

system_tables_at : (m : Mem) (k : ℕ) → system_tables m k ≡ after_tables 25 0 (cleared m) k
unfolding system_tables cleared
system_tables_at m k = init_tables_at 25 0 (cleared m) k (omega arith)

cleared_at :
    (m : Mem) (k : ℕ)
    → cleared m k ≡ (if in_range (slot page_dir_addr_start 0) 1024 k then empty_pde else m k)
unfolding cleared
cleared_at m k = for_entries_at 1024 0 (slot page_dir_addr_start 0) (λ _ _. empty_pde) m k

-- The directory entry for a virtual address, and the table entry if there is one.
module _ (m : Mem) where
  pub system_pde :
      (d : ℕ)
      → d < 1024
      → system_tables m (slot page_dir_addr_start d) ≡ (
          if ltb d 25
          then point_to (page_dir_addr_start + page_size * (d + 1)) empty_pde
          else empty_pde)
  system_pde d h =
      rw (system_tables_at m (slot page_dir_addr_start d))
        (ground (arith, cleared_at m (slot page_dir_addr_start d)))

  pub system_pte_at :
      (d j : ℕ)
      → d < 25
      → j < 1024
      → system_tables m (slot page_dir_addr_start (1024 * (d + 1) + j))
        ≡ system_pte d (page_size * (1024 * d + j))
  system_pte_at d j h g =
      rw (system_tables_at m (slot page_dir_addr_start (1024 * (d + 1) + j))) (ground arith)

  -- Behind the directory and the 25 tables nothing changes.
  pub system_other : (k : ℕ) → slot page_dir_addr_start 26624 ≤ k → system_tables m k ≡ m k
  system_other k h = rw (system_tables_at m k) (ground (arith, cleared_at m k))

-- After `initialize_page_table` every address below 100 MB is translated to itself, and no
-- address above it is translated.
pub initialize_page_table-translate :
    (m : Machine) (va : ℕ)
    → va < 2 ^ 32
    → translate (initialize_page_table m).0.mem (initialize_page_table m).0.cr3 va
      ≡ (if ltb va 104857600 then some va else none)
unfolding initialize_page_table translate
initialize_page_table-translate m va h =
    ground
      (arith, system_pde m.mem (va / 2 ^ 22), system_pte_at m.mem (va / 2 ^ 22) (va / 4096 % 1024))
