-- ===== src/Paging/Vmalloc/Hang.antt =====
-- system/vmalloc.c for a request of more than one table and less than two, when the first heap
-- table is present and the two directory entries behind it are not. The loop over the tables
-- sets `j` back to initial_pde_counter in every round, below its bound.
use ece564_project.Prelude.{
  ℕ, zero, suc, ◌+◌, ◌-◌, ◌*◌, ◌/◌, ◌%◌, ◌^◌, ◌≤◌, ◌<◌, ◌≡◌, refl, true, false, arith, ltb, ◌==◌,
  if◌then◌else◌, none, Bool-cases, inl, inr, lt→ltb,
}
use ece564_project.Paging.Memory.{Mem, slot, addr_of}
use ece564_project.Paging.Machine.{Machine}
use ece564_project.Paging.Count.{is_present}
use ece564_project.Paging.Vmalloc.Tables.{unallocated, positive}
use ece564_project.Paging.Vmalloc.Multi.{count_row, follow, multi_round}
use ece564_project.Paging.Vmalloc.Whole.{pages_of, heap_loop, vmalloc}

-- The count over a row is not 0 where the last entry of the table is free.
count_row_pos :
    (n k counter total pt : ℕ) (m : Mem)
    → k + suc n ≡ 1024
    → counter + suc n < 2 ^ 32
    → 0 < total
    → unallocated (m (slot pt 1023)) ≡ true
    → 0 < (count_row (suc n) k counter total pt m).1
unfolding count_row
count_row_pos zero k counter total pt m a b c last =
    let e : k ≡ 1023 = omega arith in rw (e, last) (ground arith)
count_row_pos (suc n) k counter total pt m a b c last =
    let counter' : ℕ = (if unallocated (m (slot pt k)) then (counter + 1) % 2 ^ 32 else 0) in
    let small : counter' + suc n < 2 ^ 32 = ground arith in
    elim (Bool-cases (counter' == total)) [
      | inl hit ↦ rw hit (ground arith)
      | inr miss ↦
          let e = count_row_pos n (k + 1) counter' total pt m (omega arith) small c last in
          rw (miss, count_row) e
    ]

module _ (dir : ℕ) (m : Mem) (frames : ℕ) where
  -- The state of the loop comes back, whatever the fuel.
  follow-hang :
      (n j counter va : ℕ)
      → j ≤ 1
      → counter + 1024 < 2 ^ 32
      → 0 < frames
      → frames < 1024
      → unallocated (m (slot (addr_of (m (slot dir 8)).base) 1023)) ≡ true
      → is_present (m (slot dir 9)) ≡ false
      → is_present (m (slot dir 10)) ≡ false
      → follow n j counter va
          (addr_of (m (slot dir 8)).base)
          (frames + 1 * 1024)
          1
          (1 + positive frames)
          8
          dir
          m
        ≡ none
  unfolding follow
  follow-hang zero j counter va a b c d last absent₁ absent₂ = refl
  follow-hang (suc n) j counter va a b c d last absent₁ absent₂ =
      let pt : ℕ = addr_of (m (slot dir 8)).base in
      let seen = lt→ltb 0 (count_row 1024 0 counter (frames + 1 * 1024) pt m).1 (
        count_row_pos 1023 0 counter (frames + 1 * 1024) pt m (omega arith) (omega arith)
          (omega arith) last) in
      let below : positive frames ≡ 1 = ground arith in
      let again = λ (x : ℕ). rw below at (
        follow-hang n 1 (frames + 1 * 1024) x (omega arith) (omega arith) c d last absent₁
          absent₂) in
      elim (Bool-cases (j == 0)) [
        | inl e ↦ let zero_j : j ≡ 0 = ground arith in rw (zero_j, below, seen, absent₁) (again _)
        | inr e ↦ let one_j : j ≡ 1 = ground arith in rw (one_j, below, seen, absent₂) (again _)
      ]

  heap_loop-hang :
      (fuel counter : ℕ)
      → counter + 1024 < 2 ^ 32
      → 0 < frames
      → frames < 1024
      → is_present (m (slot dir 8)) ≡ true
      → unallocated (m (slot (addr_of (m (slot dir 8)).base) 1023)) ≡ true
      → is_present (m (slot dir 9)) ≡ false
      → is_present (m (slot dir 10)) ≡ false
      → heap_loop fuel 1 frames counter 8 dir m ≡ none
  unfolding heap_loop multi_round
  heap_loop-hang zero counter a b c present last absent₁ absent₂ = refl
  heap_loop-hang (suc fuel) counter a b c present last absent₁ absent₂ =
      let partial : (frames == 0) ≡ false = ground arith in
      rw (
        present,
        partial,
        follow-hang (suc fuel) 0 counter 0 (omega arith) a b c last absent₁ absent₂,
      )

-- A request of more than one table's pages and less than two tables', when the first heap table
-- is present with its last entry free and the two directory entries behind it are not present,
-- and the variable `counter`, which the source does not initialise, holds at most 2^32 - 1025 at
-- the start: vmalloc does not return, whatever the fuel.
pub vmalloc-hang :
    (fuel junk nbytes : ℕ) (m : Machine)
    → junk + 1024 < 2 ^ 32
    → 1024 < pages_of nbytes
    → pages_of nbytes < 2048
    → is_present (m.mem (slot (m.page_addr m.currpid) 8)) ≡ true
    → unallocated (m.mem (slot (addr_of (m.mem (slot (m.page_addr m.currpid) 8)).base) 1023)) ≡ true
    → is_present (m.mem (slot (m.page_addr m.currpid) 9)) ≡ false
    → is_present (m.mem (slot (m.page_addr m.currpid) 10)) ≡ false
    → vmalloc fuel junk nbytes m ≡ none
unfolding vmalloc
vmalloc-hang fuel junk nbytes m a low high present last absent₁ absent₂ =
    let n : ℕ = pages_of nbytes in
    let one_table : n / 1024 ≡ 1 = omega arith in
    let in_bounds : ltb (1 + positive (n - 1 * 1024)) 1024 ≡ true = ground arith in
    rw (
      one_table,
      in_bounds,
      heap_loop-hang (m.page_addr m.currpid) m.mem (n - 1 * 1024) fuel junk a (omega arith)
          (omega arith) present last absent₁ absent₂,
    )
