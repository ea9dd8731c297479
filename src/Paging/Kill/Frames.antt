-- ===== src/Paging/Kill/Frames.antt =====
-- Which frames kill_vm (system/kill.c) gives back to the FFS area.
use ece564_project.Prelude.{
  ℕ, zero, suc, ◌+◌, ◌≤◌, ◌<◌, ◌≡◌, ◌≢◌, refl, Bool, true, false, ◌&&◌, ◌||◌, arith, leb, ◌==◌,
  if◌then◌else◌, Bool-cases, inl, inr, ◌∙◌, ap,
}
use ece564_project.Paging.Memory.{
  Entry, Mem, slot, addr_of, page_dir_addr_start, modify, in_range, ffs_area_pt_base, max_ffs_size,
}
use ece564_project.Paging.Machine.{Machine}
use ece564_project.Paging.Count.{is_present}
use ece564_project.Paging.Kill.{clear_table, clear_dir, kill_vm, zero_entry}
use ece564_project.Paging.Kill.Entries.{
  in_ffs, maps_base, maps_base-congr, freed_if, freed_if_base, freed_if-twice, freed_if-false,
  clear_table_ffs, clear_table_other,
}

abbrev pub table_slot : Mem → ℕ → ℕ → ℕ
table_slot m dir d = slot (addr_of (m (slot dir d)).base) 0

abbrev pub owns : Mem → ℕ → ℕ → Bool
owns m dir d = is_present (m (slot dir d)) && leb 8 d

-- One of the process's own tables, of the `n` directory entries from `i` on, maps the base `b`.
unfoldable pub process_maps : ℕ → ℕ → ℕ → ℕ → Mem → Bool
process_maps zero i dir b m = false
process_maps (suc n) i dir b m =
    (owns m dir i && maps_base 1024 (table_slot m dir i) b m) || process_maps n (i + 1) dir b m

-- The directory, the process's own tables from `i` on and the entries of the FFS area are apart
-- from each other.
pub record IsSeparate (i dir : ℕ) (m : Mem) : Type 0 where
  pub dir_ffs : (k : ℕ) → in_ffs k ≡ true → in_range (slot dir 0) 1024 k ≡ false
  pub table_ffs :
      (d k : ℕ)
      → i ≤ d
      → d < 1024
      → owns m dir d ≡ true
      → in_range (table_slot m dir d) 1024 k ≡ true
      → in_ffs k ≡ false
  pub table_dir :
      (d k : ℕ)
      → i ≤ d
      → d < 1024
      → owns m dir d ≡ true
      → in_range (slot dir 0) 1024 k ≡ true
      → in_range (table_slot m dir d) 1024 k ≡ false
  pub table_table :
      (d d' k : ℕ)
      → i ≤ d
      → d < d'
      → d' < 1024
      → owns m dir d ≡ true
      → owns m dir d' ≡ true
      → in_range (table_slot m dir d') 1024 k ≡ true
      → in_range (table_slot m dir d) 1024 k ≡ false

-- The memory when directory entry `i` is cleared.
after_pde : ℕ → ℕ → Mem → Mem
after_pde dir i m =
    modify (if owns m dir i then clear_table 1024 0 (addr_of (m (slot dir i)).base) m else m)
      (slot dir i) (λ _. zero_entry)

module _ (dir i : ℕ) (m : Mem) (high : i < 1024) (sep : IsSeparate i dir m) where
  after_pde_ffs :
      (k : ℕ)
      → in_ffs k ≡ true
      → after_pde dir i m k
        ≡ freed_if (owns m dir i && maps_base 1024 (table_slot m dir i) (m k).base m) (m k)
  unfolding after_pde
  after_pde_ffs k h =
      let out = sep.dir_ffs k h in
      let ne : (k == slot dir i) ≡ false = ground arith in
      elim (Bool-cases (owns m dir i)) [
        | inl o ↦
            rw (o, ne)
              (clear_table_ffs 1024 0 (addr_of (m (slot dir i)).base) m k
                (λ k' a b. sep.table_ffs i k' (omega arith) high o (ground arith)) h)
        | inr o ↦ rw (o, ne, freed_if-false)
      ]

  -- An entry outside of the FFS area, the directory's entry and its table.
  after_pde_other :
      (k : ℕ)
      → in_ffs k ≡ false
      → k ≢ slot dir i
      → (owns m dir i ≡ true → in_range (table_slot m dir i) 1024 k ≡ false)
      → after_pde dir i m k ≡ m k
  unfolding after_pde
  after_pde_other k a b c =
      let ne : (k == slot dir i) ≡ false = ground arith in
      elim (Bool-cases (owns m dir i)) [
        | inl o ↦ rw (o, ne) (clear_table_other 1024 0 (addr_of (m (slot dir i)).base) m k a (c o))
        | inr o ↦ rw (o, ne)
      ]

  dir_not_ffs : (k : ℕ) → in_range (slot dir 0) 1024 k ≡ true → in_ffs k ≡ false
  dir_not_ffs k h = elim (Bool-cases (in_ffs k)) [
    | inl f ↦ let out = sep.dir_ffs k f in cc
    | inr f ↦ f
  ]

  -- A later directory entry stays, and so does each entry of a later table.
  after_pde_dir : (d : ℕ) → i < d → d < 1024 → after_pde dir i m (slot dir d) ≡ m (slot dir d)
  after_pde_dir d a b =
      let inside : in_range (slot dir 0) 1024 (slot dir d) ≡ true = ground arith in
      after_pde_other (slot dir d) (dir_not_ffs (slot dir d) inside) (omega arith)
        (λ o. sep.table_dir i (slot dir d) (omega arith) high o inside)

  after_pde_table :
      (d k : ℕ)
      → i < d
      → d < 1024
      → owns m dir d ≡ true
      → in_range (table_slot m dir d) 1024 k ≡ true
      → after_pde dir i m k ≡ m k
  after_pde_table d k a b o r =
      after_pde_other k (sep.table_ffs d k (omega arith) b o r) not_dir
        (λ o'. sep.table_table i d k (omega arith) a b o' o r)
    where
      not_dir : k ≢ slot dir i
      not_dir e =
          let inside : in_range (slot dir 0) 1024 k ≡ true = ground arith in
          let out = sep.table_dir d k (omega arith) b o inside in cc

  after_pde-IsSeparate : IsSeparate (i + 1) dir (after_pde dir i m)
  after_pde-IsSeparate = record {
    dir_ffs = sep.dir_ffs;
    table_ffs = λ d k a b. rw (after_pde_dir d (omega arith) b) (sep.table_ffs d k (omega arith) b);
    table_dir = λ d k a b. rw (after_pde_dir d (omega arith) b) (sep.table_dir d k (omega arith) b);
    table_table = λ d d' k a l b.
        rw (after_pde_dir d (omega arith) (omega arith), after_pde_dir d' (omega arith) b)
          (sep.table_table d d' k (omega arith) l b);
  }

process_maps-congr :
    (n i dir b : ℕ) (m m' : Mem)
    → ((d : ℕ) → i ≤ d → d < i + n → m' (slot dir d) ≡ m (slot dir d))
    → ((d k : ℕ)
        → i ≤ d
        → d < i + n
        → owns m dir d ≡ true
        → in_range (table_slot m dir d) 1024 k ≡ true
        → m' k ≡ m k)
    → process_maps n i dir b m' ≡ process_maps n i dir b m
unfolding process_maps
process_maps-congr zero i dir b m m' h g = refl
process_maps-congr (suc n) i dir b m m' h g =
    let later =
      process_maps-congr n (i + 1) dir b m m' (λ d p q. h d (omega arith) (omega arith))
        (λ d k p q. g d k (omega arith) (omega arith)) in
    rw (h i (omega arith) (omega arith), later)
      (elim (Bool-cases (owns m dir i)) [
        | inl o ↦ rw (
          o,
          maps_base-congr 1024 (table_slot m dir i) b m m'
              (λ k p q. g i k (omega arith) (omega arith) o (ground arith)),
        )
        | inr o ↦ rw o
      ])

clear_dir_ffs :
    (n i dir : ℕ) (m : Mem) (k : ℕ)
    → i + n ≤ 1024
    → IsSeparate i dir m
    → in_ffs k ≡ true
    → clear_dir n i dir m k ≡ freed_if (process_maps n i dir (m k).base m) (m k)
unfolding clear_dir process_maps after_pde
clear_dir_ffs zero i dir m k a sep h = rw freed_if-false
clear_dir_ffs (suc n) i dir m k a sep h =
    let m' : Mem = after_pde dir i m in
    let now = after_pde_ffs dir i m (omega arith) sep k h in
    let same : (m' k).base ≡ (m k).base = ap (λ (x : Entry). x.base) now ∙ freed_if_base _ (m k) in
    let later =
      process_maps-congr n (i + 1) dir (m k).base m m'
        (λ d p q. after_pde_dir dir i m (omega arith) sep d (omega arith) (omega arith))
        (λ d k' p q. after_pde_table dir i m (omega arith) sep d k' (omega arith) (omega arith)) in
    clear_dir_ffs n (i + 1) dir m' k (omega arith) (after_pde-IsSeparate dir i m (omega arith) sep)
      h
    ∙ rw (same, later, now) (freed_if-twice _ _ (m k))

-- kill_vm of a process whose directory and tables are apart from each other and from the FFS
-- area's entries: an entry of the FFS area becomes free exactly if one of the process's pages
-- is present with the same frame, and every other entry of the FFS area stays as it was.
pub kill_vm-frames :
    (pid f : ℕ) (m : Machine)
    → m.page_addr pid ≢ page_dir_addr_start
    → IsSeparate 0 (m.page_addr pid) m.mem
    → f < max_ffs_size
    → let e = m.mem (slot ffs_area_pt_base f) in
      (kill_vm pid m).mem (slot ffs_area_pt_base f)
      ≡ (if process_maps 1024 0 (m.page_addr pid) e.base m.mem then record e { avail = 2 } else e)
unfolding kill_vm freed_if
kill_vm-frames pid f m ne sep h =
    let own : (m.page_addr pid == page_dir_addr_start) ≡ false = ground arith in
    rw own (
      clear_dir_ffs 1024 0 (m.page_addr pid) m.mem (slot ffs_area_pt_base f) (omega arith) sep
        (ground arith))
