-- ===== src/Paging/Handler.antt =====
-- system/pagefault_handler.c: a page fault claims the first free frame of the FFS area for the
-- faulting page. `kill` (system/kill.c) is an argument: the handler calls it on a segmentation
-- fault.
use ece564_project.Prelude.{ℕ, zero, suc, ◌+◌, ◌/◌, ◌%◌, ◌^◌, if◌then◌else◌, Option, some, none}
use ece564_project.Paging.Memory.{
  Entry, Mem, slot, addr_of, modify, valid, ffs_area_pt_base, max_ffs_size,
}
use ece564_project.Paging.Machine.{Machine, enter_system, switch_to}

-- The search for a frame that is not valid; `none` if the loop runs to its end.
unfoldable pub find_frame : ℕ → ℕ → Mem → Option ℕ
find_frame zero i m = none
find_frame (suc n) i m =
    let rest = find_frame n (i + 1) m in
    if valid (m (slot ffs_area_pt_base i)) then rest else some i

-- pt[pt_index] gets the frame and becomes present, and the frame is marked.
abbrev pub take_frame : ℕ → Entry → Entry
take_frame base e = record e { base = base; pres = 1 }

abbrev pub mark : Entry → Entry
mark e = record e { avail = 3 }

abbrev pub claim : ℕ → ℕ → Mem → Mem
claim i pte m =
    modify (modify m pte (take_frame (m (slot ffs_area_pt_base i)).base)) (slot ffs_area_pt_base i)
      mark

unfoldable pub map_page : ℕ → Mem → Mem
unfolding find_frame
map_page pte m = elim (find_frame max_ffs_size 0 m) [ none ↦ m | some i ↦ claim i pte m ]

abbrev pub pd_index : ℕ → ℕ
pd_index va = va / 2 ^ 22 % 1024

abbrev pub pt_index : ℕ → ℕ
pt_index va = va / 4096 % 1024

-- The directory entry of an address in a process, and the number of its table entry.
abbrev pub pde_slot : Machine → ℕ → ℕ
pde_slot m va = slot (m.page_addr m.currpid) (pd_index va)

abbrev pub pte_slot : Machine → ℕ → ℕ
pte_slot m va = slot (addr_of (m.mem (pde_slot m va)).base) (pt_index va)

-- The handler, with the address that read_cr2 returns.
unfoldable pub pagefault_handler : (Machine → Machine) → ℕ → Machine → Machine
unfolding map_page
pagefault_handler kill va m =
    let s = enter_system m in
    let s' =
      (if valid (s.mem (pde_slot s va))
        then (if valid (s.mem (pte_slot s va))
            then record s { mem = map_page (pte_slot s va) s.mem }
            else kill s)
        else kill s) in
    switch_to (s'.page_addr m.currpid) s'
