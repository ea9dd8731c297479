-- ===== src/Paging/Vmalloc/Multi.antt =====
-- system/vmalloc.c, a round at a present table for a request that wants several tables. The
-- loops run on fuel, since nothing in the source bounds the rounds of the first.
use ece564_project.Prelude.{
  ℕ, zero, suc, ◌+◌, ◌-◌, ◌*◌, ◌/◌, ◌%◌, ◌^◌, ◌||◌, ltb, leb, ◌==◌, if◌then◌else◌, Option, some,
  none,
}
use ece564_project.Paging.Memory.{Mem, slot, addr_of, page_dir_addr_start, page_size}
use ece564_project.Paging.Count.{is_present}
use ece564_project.Paging.Vmalloc.Tables.{install, mark_pages, unused, positive, unallocated}

-- The loop over the entries of one table, from `k` on: the values of `k` and `counter` behind
-- it. When the count reaches `total` the loop sets `k` to its end and then steps once more.
unfoldable pub count_row : ℕ → ℕ → ℕ → ℕ → ℕ → Mem → ℕ × ℕ
count_row zero k counter total pt m = (k, counter)
count_row (suc n) k counter total pt m =
    let counter' = (if unallocated (m (slot pt k)) then (counter + 1) % 2 ^ 32 else 0) in
    let rest = count_row n (k + 1) counter' total pt m in
    if counter' == total then (1025, counter') else rest

-- The loop that follows the free entries from table to table: the values of `counter` and
-- `va_pt_addr` behind it. `limit` is the number of tables, the partial one included.
unfoldable pub follow : ℕ → ℕ → ℕ → ℕ → ℕ → ℕ → ℕ → ℕ → ℕ → ℕ → Mem → Option (ℕ × ℕ)
follow zero j counter va pt total tables limit i dir m = none
follow (suc n) j counter va pt total tables limit i dir m =
    let (k, count) = count_row 1024 0 counter total pt m in
    let va' =
      (if j == 0
        then (i * page_size * 1024 + page_size * ((k + 2 ^ 32 - count) % 2 ^ 32)) % 2 ^ 32
        else va) in
    let next = addr_of (m (slot dir (i + (j + 1)))).base in
    let stop = follow n limit count va pt total tables limit i dir m in
    let here = follow n (j + 1) count va' pt total tables limit i dir m in
    let there = follow n (j + 1) count va' next total tables limit i dir m in
    let enough = follow n tables total va' pt total tables limit i dir m in
    if ltb j limit
    then (if ltb 0 count || (count == total)
        then (if ltb (i + (j + 1)) 1024
            then (if is_present (m (slot dir (i + (j + 1))))
                then there
                else if leb (j + 1) 2 || ltb ((j - 1) * 1024) count
                then enough
                else here)
            else here)
        else stop)
    else some (counter, va)

-- for (base_addr = …): the first unused page of the table area goes to directory entry `i`.
unfoldable pub install_first : ℕ → ℕ → ℕ → ℕ → Mem → Mem
install_first zero base_addr i dir m = m
install_first (suc n) base_addr i dir m =
    let rest = install_first n (base_addr + page_size) i dir m in
    if unused m base_addr then install dir i base_addr m else rest

-- while (counter > 0): the following tables, each marked up to what is still wanted. The result
-- is the memory and the last value of `i`.
unfoldable pub mark_tables : ℕ → ℕ → ℕ → ℕ → Mem → Option (Mem × ℕ)
mark_tables zero counter i dir m = none
mark_tables (suc n) counter i dir m =
    let tabled =
      (if is_present (m (slot dir (i + 1)))
        then m
        else install_first 1024 page_dir_addr_start (i + 1) dir m) in
    let pt = addr_of (tabled (slot dir (i + 1))).base in
    let pages = (if ltb counter 1024 then counter else 1024) in
    let rest = mark_tables n (counter - pages) (i + 1) dir (mark_pages pages (slot pt 0) tabled) in
    if ltb 0 counter then rest else some (m, i)

-- The round: the new memory, `i` and `counter`. It does not return an address.
unfoldable pub multi_round : ℕ → ℕ → ℕ → ℕ → ℕ → ℕ → Mem → Option (Mem × ℕ × ℕ)
multi_round fuel tables frames counter i dir m =
    let total = frames + tables * 1024 in
    let pt = addr_of (m (slot dir i)).base in
    elim (follow fuel 0 counter 0 pt total tables (tables + positive frames) i dir m) [
      | none ↦ none
      | some (count, va) ↦
          let j = (va + 2 ^ 32 - i * page_size * 1024 % 2 ^ 32) % 2 ^ 32 / page_size in
          let first = mark_pages (1024 - j) (slot pt j) m in
          let left = (if ltb j 1024 then (count + 2 ^ 32 + j - 1024) % 2 ^ 32 else count) in
          let rest = mark_tables fuel left i dir first in
          if count == total
          then elim rest [ none ↦ none | some (m', i') ↦ some (m', i', 0) ]
          else some (m, i, count)
    ]
