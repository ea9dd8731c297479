-- ===== src/Paging/Count.antt =====
-- system/utility_functions.c: the counts of free frames, of allocated pages and of frames in use.
-- Each function enters the system's page directory, counts, and goes back to that of the running
-- process.
use ece564_project.Prelude.{
  ℕ, zero, suc, ◌+◌, ◌≤◌, ◌<◌, ◌≡◌, ◌≢◌, refl, Bool, true, false, arith, ◌==◌, if◌then◌else◌,
  Bool-cases, inl, inr, ap,
}
use ece564_project.Paging.Memory.{
  Entry, Mem, slot, addr_of, modify, in_range, valid, ffs_area_pt_base, max_ffs_size, tally,
  count_entries, count_entries-modify_outside, count_entries-modify_inside,
}
use ece564_project.Paging.Machine.{Machine, enter_system, leave_system}

abbrev pub free_frame : Entry → Bool
free_frame e = if valid e then false else true

abbrev pub is_present : Entry → Bool
is_present e = e.pres == 1

abbrev pub count_free : Mem → ℕ
count_free m = count_entries max_ffs_size (slot ffs_area_pt_base 0) free_frame m

unfoldable pub free_ffs_pages : Machine → Machine × ℕ
free_ffs_pages m = let s = enter_system m in (leave_system s, count_free s.mem)

pub free_swap_pages : ℕ
free_swap_pages = 0

-- Entry `i` of the directory: the entries of its table that pass `test`, if it is present.
unfoldable pub table_count : ℕ → ℕ → (Entry → Bool) → Mem → ℕ
table_count i dir test m =
    if is_present (m (slot dir i))
    then count_entries 1024 (slot (addr_of (m (slot dir i)).base) 0) test m
    else 0

-- for (i = start; i < start + n; i++): over the tables of the present directory entries, the
-- entries that pass `test`.
unfoldable pub sum_tables : ℕ → ℕ → ℕ → (Entry → Bool) → Mem → ℕ
sum_tables zero i dir test m = 0
sum_tables (suc n) i dir test m = table_count i dir test m + sum_tables n (i + 1) dir test m

unfoldable pub allocated_virtual_pages : ℕ → Machine → Machine × ℕ
allocated_virtual_pages pid m =
    let s = enter_system m in (leave_system s, sum_tables 1024 0 (s.page_addr pid) valid s.mem)

unfoldable pub used_ffs_frames : ℕ → Machine → Machine × ℕ
used_ffs_frames pid m =
    let s = enter_system m in (leave_system s, sum_tables 1016 8 (s.page_addr pid) is_present s.mem)

-- The entry `k` lies in the table of the present directory entry `d`, and in no other table or
-- directory entry of the process.
pub record OnlyIn (k d dir : ℕ) (m : Mem) : Type 0 where
  pub present : is_present (m (slot dir d)) ≡ true
  pub inside : in_range (slot (addr_of (m (slot dir d)).base) 0) 1024 k ≡ true
  pub not_dir : in_range (slot dir 0) 1024 k ≡ false
  pub others :
      (d' : ℕ)
      → d' < 1024
      → d' ≢ d
      → is_present (m (slot dir d')) ≡ true
      → in_range (slot (addr_of (m (slot dir d')).base) 0) 1024 k ≡ false

module _ (k d dir : ℕ) (test : Entry → Bool) (m : Mem) (f : Entry → Entry)
    (o : OnlyIn k d dir m) where
  modify_dir : (i : ℕ) → i < 1024 → modify m k f (slot dir i) ≡ m (slot dir i)
  modify_dir i h = ground (arith, o.not_dir)

  table_count-outside :
      (i : ℕ) → i < 1024 → i ≢ d → table_count i dir test (modify m k f) ≡ table_count i dir test m
  unfolding table_count
  table_count-outside i h ne =
      rw (modify_dir i h) (elim (Bool-cases (is_present (m (slot dir i)))) [
        | inl p ↦ rw p (
            count_entries-modify_outside 1024 (slot (addr_of (m (slot dir i)).base) 0) test m k f
              (o.others i h ne p))
        | inr a ↦ rw a
      ])

  table_count-inside :
      d < 1024
      → table_count d dir test (modify m k f) + tally (test (m k))
        ≡ table_count d dir test m + tally (test (f (m k)))
  unfolding table_count
  table_count-inside h =
      rw (modify_dir d h, o.present)
        (count_entries-modify_inside 1024 (slot (addr_of (m (slot dir d)).base) 0) test m k f
          o.inside)

  pub sum_tables-modify_outside :
      (n i : ℕ)
      → i + n ≤ 1024
      → d < i
      → sum_tables n i dir test (modify m k f) ≡ sum_tables n i dir test m
  unfolding sum_tables
  sum_tables-modify_outside zero i a b = refl
  sum_tables-modify_outside (suc n) i a b =
      let here = table_count-outside i (omega arith) (omega arith) in
      let later = sum_tables-modify_outside n (i + 1) (omega arith) (omega arith) in omega arith

  pub sum_tables-modify_inside :
      (n i : ℕ)
      → i + n ≤ 1024
      → i ≤ d
      → d < i + n
      → sum_tables n i dir test (modify m k f) + tally (test (m k))
        ≡ sum_tables n i dir test m + tally (test (f (m k)))
  unfolding sum_tables
  sum_tables-modify_inside zero i a b c = absurd (omega arith)
  sum_tables-modify_inside (suc n) i a b c = elim (Bool-cases (i == d)) [
    | inl e ↦
        let same : i ≡ d = ground arith in
        let here = table_count-inside (omega arith) in
        let later = sum_tables-modify_outside n (d + 1) (omega arith) (omega arith) in
        rw same (omega arith)
    | inr e ↦
        let here = table_count-outside i (omega arith) (ground arith) in
        let later = sum_tables-modify_inside n (i + 1) (omega arith) (ground arith) (omega arith) in
        omega arith
  ]

-- The entry `k` lies in no table of the present directory entries from `start` on, and it is no
-- directory entry.
pub record Apart (k start dir : ℕ) (m : Mem) : Type 0 where
  pub no_table :
      (d : ℕ)
      → start ≤ d
      → d < 1024
      → is_present (m (slot dir d)) ≡ true
      → in_range (slot (addr_of (m (slot dir d)).base) 0) 1024 k ≡ false
  pub no_dir : in_range (slot dir 0) 1024 k ≡ false

pub sum_tables-modify_elsewhere :
    (n i k dir : ℕ) (test : Entry → Bool) (m : Mem) (f : Entry → Entry) (start : ℕ)
    → Apart k start dir m
    → start ≤ i
    → i + n ≤ 1024
    → sum_tables n i dir test (modify m k f) ≡ sum_tables n i dir test m
unfolding sum_tables table_count
sum_tables-modify_elsewhere zero i k dir test m f start o a b = refl
sum_tables-modify_elsewhere (suc n) i k dir test m f start o a b =
    let dir_same : modify m k f (slot dir i) ≡ m (slot dir i) = ground (arith, o.no_dir) in
    let later =
      sum_tables-modify_elsewhere n (i + 1) k dir test m f start o (omega arith) (omega arith) in
    rw (dir_same, later)
      (elim (Bool-cases (is_present (m (slot dir i)))) [
        | inl p ↦ rw p (
            ap (λ (t : ℕ). t + sum_tables n (i + 1) dir test m)
              (count_entries-modify_outside 1024 (slot (addr_of (m (slot dir i)).base) 0) test m k f
                (o.no_table i a (omega arith) p)))
        | inr q ↦ rw q
      ])
