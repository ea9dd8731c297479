-- ===== src/Paging/Vmalloc/Whole.antt =====
-- system/vmalloc.c: the loop over the directory entries, and the function.
use ece564_project.Prelude.{
  ℕ, zero, suc, ◌+◌, ◌-◌, ◌*◌, ◌/◌, ◌&&◌, ◌||◌, ltb, ◌==◌, if◌then◌else◌, Option, some, none,
}
use ece564_project.Paging.Memory.{Mem, slot, addr_of, page_size}
use ece564_project.Paging.Machine.{Machine, enter_system}
use ece564_project.Paging.Count.{is_present}
use ece564_project.Paging.Vmalloc.Tables.{positive}
use ece564_project.Paging.Vmalloc.Absent.{absent_round}
use ece564_project.Paging.Vmalloc.Single.{single_search, found, not_here}
use ece564_project.Paging.Vmalloc.Multi.{multi_round}

-- while (i != MAX_PT_SIZE): the memory, and the address (`none` for SYSERR). The outer `none`
-- says that the fuel ran out. `tables` is initial_pde_counter.
unfoldable pub heap_loop : ℕ → ℕ → ℕ → ℕ → ℕ → ℕ → Mem → Option (Mem × Option ℕ)
heap_loop zero tables frames counter i dir m = none
heap_loop (suc n) tables frames counter i dir m =
    let pages = frames + tables * 1024 in
    let pt = addr_of (m (slot dir i)).base in
    let single : Option (Mem × Option ℕ) = elim (single_search 1025 0 counter pages i dir pt m) [
      | found m' va ↦ some (m', some va)
      | not_here counter' ↦ heap_loop n tables pages counter' (i + 1) dir m
    ] in
    let multi : Option (Mem × Option ℕ) = elim (multi_round (suc n) tables frames counter i dir m) [
      | none ↦ none
      | some (m', i', counter') ↦ heap_loop n tables frames counter' (i' + 1) dir m'
    ] in
    if i == 1024
    then some (m, none)
    else if is_present (m (slot dir i))
    then (if (tables == 0) || ((tables == 1) && (frames == 0)) then single else multi)
    else some (absent_round tables frames i dir m)

-- The pages of a request: whole pages only, and at least one.
unfoldable pub pages_of : ℕ → ℕ
pages_of nbytes = if ltb (nbytes / page_size) 1 then 1 else nbytes / page_size

-- `junk` is what the variable `counter`, which the source does not initialise, holds at the
-- start. CR3 is put back on every path.
unfoldable pub vmalloc : ℕ → ℕ → ℕ → Machine → Option (Machine × Option ℕ)
vmalloc fuel junk nbytes m =
    let s = enter_system m in
    let tables = pages_of nbytes / 1024 in
    let frames = pages_of nbytes - tables * 1024 in
    let loop = heap_loop fuel tables frames junk 8 (s.page_addr s.currpid) s.mem in
    if ltb (tables + positive frames) 1024
    then elim loop [
      | none ↦ none
      | some (mem', va) ↦ some (record s { mem = mem'; cr3 = m.cr3 }, va)
    ]
    else some (record s { cr3 = m.cr3 }, none)
