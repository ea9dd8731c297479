-- ===== src/Paging/Kill/Absent.antt =====
-- The pages of a process after kill_vm (system/kill.c). Each write of kill_vm clears an entry or
-- changes its avail field alone.
use ece564_project.Prelude.{
  ℕ, zero, suc, ◌+◌, ◌≤◌, ◌<◌, ◌≡◌, ◌≢◌, refl, Bool, false, arith, ◌==◌, if◌then◌else◌, Bool-cases,
  inl, inr, ◌⊎◌,
}
use ece564_project.Paging.Memory.{
  Entry, Mem, slot, addr_of, page_dir_addr_start, in_range, valid, ffs_area_pt_base, max_ffs_size,
  for_entries_at,
}
use ece564_project.Paging.Machine.{Machine}
use ece564_project.Paging.Count.{
  is_present, sum_tables, table_count, used_ffs_frames, allocated_virtual_pages,
}
use ece564_project.Paging.Kill.{give_back, release_frames, clear_table, clear_dir, kill_vm}

pub release_frames_at :
    (b : ℕ) (m : Mem) (k : ℕ)
    → release_frames b m k
      ≡ (if in_range (slot ffs_area_pt_base 0) max_ffs_size k then give_back b (m k) else m k)
unfolding release_frames
release_frames_at b m k =
    for_entries_at max_ffs_size 0 (slot ffs_area_pt_base 0) (λ _. give_back b) m k

release_frames-absent : (b : ℕ) (m : Mem) (k : ℕ) → (m k).pres ≡ 0 → (release_frames b m k).pres ≡ 0
release_frames-absent b m k h = ground (arith, release_frames_at b m k)

clear_table-absent :
    (n j pt : ℕ) (m : Mem) (k : ℕ) → (m k).pres ≡ 0 → (clear_table n j pt m k).pres ≡ 0
unfolding clear_table
clear_table-absent zero j pt m k h = h
clear_table-absent (suc n) j pt m k h =
    clear_table-absent n (j + 1) pt _ k
      (ground (arith, release_frames-absent (m (slot pt j)).base m k))

clear_dir-absent :
    (n i dir : ℕ) (m : Mem) (k : ℕ)
    → ((m k).pres ≡ 0) ⊎ ((slot dir i ≤ k) × (k < slot dir (i + n)))
    → (clear_dir n i dir m k).pres ≡ 0
unfolding clear_dir
clear_dir-absent zero i dir m k (inl h) = h
clear_dir-absent zero i dir m k (inr (a, b)) = absurd (omega arith)
clear_dir-absent (suc n) i dir m k (inl h) =
    clear_dir-absent n (i + 1) dir _ k
      (inl (ground (arith, clear_table-absent 1024 0 (addr_of (m (slot dir i)).base) m k h)))
clear_dir-absent (suc n) i dir m k (inr (a, b)) =
    clear_dir-absent n (i + 1) dir _ k (elim (Bool-cases (k == slot dir i)) [
      | inl e ↦ inl (rw e refl)
      | inr e ↦ inr (ground arith, omega arith)
    ])

sum_tables-absent :
    (n i dir : ℕ) (test : Entry → Bool) (m : Mem)
    → ((d : ℕ) → i ≤ d → d < i + n → (m (slot dir d)).pres ≡ 0)
    → sum_tables n i dir test m ≡ 0
unfolding sum_tables table_count
sum_tables-absent zero i dir test m h = refl
sum_tables-absent (suc n) i dir test m h =
    let here = h i (omega arith) (omega arith) in
    let later = sum_tables-absent n (i + 1) dir test m (λ d a b. h d (omega arith) (omega arith)) in
    ground arith

-- When kill_vm has run on a process with a page directory of its own, the process has no
-- allocated page and uses no frame.
pub kill_vm-empty :
    (pid : ℕ) (m : Machine)
    → m.page_addr pid ≢ page_dir_addr_start
    → ((allocated_virtual_pages pid (kill_vm pid m)).1 ≡ 0)
      × ((used_ffs_frames pid (kill_vm pid m)).1 ≡ 0)
unfolding kill_vm allocated_virtual_pages used_ffs_frames
kill_vm-empty pid m ne =
    let dir : ℕ = m.page_addr pid in
    let own : (m.page_addr pid == page_dir_addr_start) ≡ false = ground arith in
    let gone = λ (d : ℕ) (h : d < 1024).
      clear_dir-absent 1024 0 dir m.mem (slot dir d) (inr (omega arith, omega arith)) in
    rw own (
      sum_tables-absent 1024 0 dir valid _ (λ d a b. gone d b),
      sum_tables-absent 1016 8 dir is_present _ (λ d a b. gone d (omega arith)),
    )
