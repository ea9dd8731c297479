-- ===== src/Paging/Tests/Heap.antt =====
-- The theorems on vfree and vmalloc.
use ece564_project.Prelude.{
  ℕ, ◌<◌, ◌≡◌, refl, true, false, ◌&&◌, ◌==◌, if◌then◌else◌, arith, some, none, ltb, leb,
}
use ece564_project.Paging.Memory.{Mem, slot, page_dir_addr_start, count_entries, in_range}
use ece564_project.Paging.Machine.{Machine}
use ece564_project.Paging.Count.{is_present}
use ece564_project.Paging.Kill.{zero_entry}
use ece564_project.Paging.Kill.Entries.{in_ffs, maps_base}
use ece564_project.Paging.Vfree.{
  is_allocated, vfree, upper_bound, find_top, find_last, drop_page, drop_pages,
}
use ece564_project.Paging.Vfree.Laws.{vfree-drops}
use ece564_project.Paging.Vmalloc.Tables.{unallocated}
use ece564_project.Paging.Vmalloc.Whole.{pages_of, vmalloc}
use ece564_project.Paging.Vmalloc.FirstFit.{count_entries-full}
use ece564_project.Paging.Vmalloc.Straddle.{IsTail, vmalloc-straddle}
use ece564_project.Paging.Vmalloc.Hang.{vmalloc-hang}
use ece564_project.Paging.Tests.User.{user_dir, user_table, entry, machine, waiting, mapped}

-- `mapped` when its page is given back.
abbrev dropped : Machine
dropped = record mapped { mem = drop_pages 1 (slot user_table 0) mapped.mem }

mapped-vfree : vfree 33554432 4096 mapped ≡ some (dropped, true)
unfolding vfree upper_bound find_top find_last count_entries
mapped-vfree = refl

vfree-drops_example :
    (count_entries 1 (slot user_table 0) is_allocated mapped.mem ≡ 1)
    × ((k : ℕ)
        → in_ffs k ≡ false
        → dropped.mem k
          ≡ (if in_range (slot user_table 0) 1 k then drop_page (mapped.mem k) else mapped.mem k))
    × ((k : ℕ)
        → in_ffs k ≡ true
        → dropped.mem k ≡ (
            if maps_base 1 (slot user_table 0) (mapped.mem k).base mapped.mem
            then record (mapped.mem k) { avail = 2 }
            else mapped.mem k))
    × (dropped.cr3 ≡ mapped.cr3)
vfree-drops_example = vfree-drops 33554432 4096 mapped dropped mapped-vfree (λ k a b. ground arith)

bound_above : 33554432 < upper_bound user_dir mapped.mem
unfolding upper_bound find_top find_last
bound_above = omega arith

-- No directory entry is present.
abbrev new_process : Machine
new_process = machine (λ _. zero_entry)

-- The first 1000 entries of the table are allocated, and the system's directory is in use.
abbrev full_mem : Mem
full_mem k =
    if k == slot user_dir 8
    then entry 3 1 24603
    else if leb (slot user_table 0) k && ltb k (slot user_table 1000)
    then entry 3 0 0
    else if k == slot page_dir_addr_start 0
    then entry 3 1 24577
    else entry 0 0 0

abbrev full : Machine
full = machine full_mem

full-IsTail : IsTail 100 1000 user_table full_mem
unfolding count_entries
full-IsTail = record {
  in_table = omega arith;
  crosses = omega arith;
  small = omega arith;
  free = refl;
  before = refl;
  no_run = λ i h e.
      (let free =
          count_entries-full 100 (slot user_table i) unallocated full_mem (slot user_table i) e
            (omega arith) (omega arith) in
        absurd (ground arith));
}

vmalloc-straddle_example :
    (m : Machine) × (vmalloc 3 0 409600 full ≡ some (m, some 37650432))
    × (is_present (m.mem (slot user_dir 9)) ≡ false)
unfolding pages_of
vmalloc-straddle_example = vmalloc-straddle 2 0 409600 1000 full refl refl refl full-IsTail

vmalloc-hang_example : vmalloc 7 0 6144000 waiting ≡ none
unfolding pages_of
vmalloc-hang_example =
    vmalloc-hang 7 0 6144000 waiting (omega arith) (omega arith) (omega arith) refl refl refl refl
