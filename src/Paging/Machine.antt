-- ===== src/Paging/Machine.antt =====
-- The part of the machine that paging sees: memory, the control register CR3, and of the process
-- table the page directory of each process. While CR3 holds the system's page directory, an
-- address below 25 * 4 MB is its own physical address (see Paging/Init).
use ece564_project.Prelude.{
  ℕ, ◌+◌, ◌*◌, ◌/◌, ◌%◌, ◌^◌, ◌≡◌, arith, ◌==◌, if◌then◌else◌, Option, some, none,
}
use ece564_project.Paging.Memory.{Entry, Mem, slot, addr_of, page_dir_addr_start}

pub record Machine : Type 0 where
  pub mem : Mem
  pub cr3 : ℕ
  pub page_addr : ℕ → ℕ
  pub currpid : ℕ

-- `(addr & 0xFFFFF000) | (read_cr3() & 0x00000FFF)`
abbrev pub cr3_value : ℕ → ℕ → ℕ
cr3_value addr old = addr / 4096 * 4096 + old % 4096

-- read_cr3, the new value, write_cr3
abbrev pub switch_to : ℕ → Machine → Machine
switch_to addr m = record m { cr3 = cr3_value addr m.cr3 }

-- To the system's page directory, as each function below does first.
abbrev pub enter_system : Machine → Machine
enter_system m = switch_to page_dir_addr_start m

-- To the page directory of the running process, as each function below does last.
abbrev pub leave_system : Machine → Machine
leave_system m = switch_to (m.page_addr m.currpid) m

-- What the processor makes of a virtual address: two look-ups, each of which wants its present
-- bit. This is the hardware, against which the kernel's tables are stated.
unfoldable pub translate : Mem → ℕ → ℕ → Option ℕ
translate mem cr3 va =
    let pde = mem (slot (cr3 / 4096 * 4096) (va / 2 ^ 22 % 1024)) in
    let pte = mem (slot (addr_of pde.base) (va / 4096 % 1024)) in
    if pde.pres == 1
    then (if pte.pres == 1 then some (addr_of pte.base + va % 4096) else none)
    else none

-- A translation from the two entries that it reads.
pub translate-entries :
    (mem : Mem) (cr3 va dir : ℕ) (pde pte : Entry)
    → cr3 / 4096 * 4096 ≡ dir
    → mem (slot dir (va / 2 ^ 22 % 1024)) ≡ pde
    → mem (slot (addr_of pde.base) (va / 4096 % 1024)) ≡ pte
    → pde.pres ≡ 1
    → pte.pres ≡ 1
    → translate mem cr3 va ≡ some (addr_of pte.base + va % 4096)
unfolding translate
translate-entries mem cr3 va dir pde pte a b c d e = rw (a, b, c) (ground arith)
