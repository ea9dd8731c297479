-- ===== src/Paging/Tests/Kernel.antt =====
-- The theorems on the kernel's tables, page faults and kill_vm.
use ece564_project.Prelude.{ℕ, ◌+◌, ◌*◌, ◌<◌, ◌≡◌, refl, true, if◌then◌else◌, arith, some}
use ece564_project.Paging.Memory.{
  Entry, Mem, slot, page_dir_addr_start, ffs_area_pt_base, max_ffs_size,
}
use ece564_project.Paging.Machine.{Machine, translate}
use ece564_project.Paging.Init.{
  initialize_page_table, initialize_page_table-translate, system_tables, system_other,
}
use ece564_project.Paging.UserDir.{initialize_user_page_dir, initialize_user_page_dir-translate}
use ece564_project.Paging.Count.{count_free, free_frame, is_present}
use ece564_project.Paging.Handler.{pagefault_handler}
use ece564_project.Paging.Fault.{IsUserPage, Claims, pagefault_handler-Claims}
use ece564_project.Paging.Kill.{zero_entry, kill_vm}
use ece564_project.Paging.Kill.Frames.{IsSeparate, process_maps, kill_vm-frames}
use ece564_project.Paging.Tests.User.{
  user_dir, entry, user_mem, machine, waiting, exhausted, mapped, count_entries-some,
  count_entries-none,
}

-- All of memory is zero.
abbrev blank : Machine
blank = record { mem = λ _. zero_entry; cr3 = 0; page_addr = λ _. page_dir_addr_start; currpid = 0 }

initialize_page_table-translate_example :
    translate (initialize_page_table blank).0.mem (initialize_page_table blank).0.cr3 0x12345
    ≡ some 0x12345
initialize_page_table-translate_example =
    initialize_page_table-translate blank 0x12345 (omega arith)

initialize_user_page_dir-translate_example :
    (m : Mem) × (initialize_user_page_dir 1024 (system_tables blank.mem)
      ≡ some (m, page_dir_addr_start + 4096 * 26))
    × (translate m (page_dir_addr_start + 4096 * 26) 0x12345 ≡ some 0x12345)
initialize_user_page_dir-translate_example =
    initialize_user_page_dir-translate blank.mem 26 0x12345 (omega arith) (omega arith)
      (λ q a b. absurd (omega arith))
      (rw (system_other blank.mem (slot user_dir 0) (omega arith)) refl) (omega arith)

only_8 :
    (rest : ℕ) (first : Entry) (d : ℕ)
    → d < 1024
    → is_present (user_mem rest first (slot user_dir d)) ≡ true
    → d ≡ 8
only_8 rest first d h p = ground arith

user-IsUserPage : (rest : ℕ) → IsUserPage (machine (user_mem rest (entry 3 0 0))) 33554437
user-IsUserPage rest = record {
  aligned = refl;
  pde_valid = refl;
  pte_valid = refl;
  only = record {
    present = refl;
    inside = refl;
    not_dir = refl;
    others = λ d h ne p. absurd (ne (only_8 rest (entry 3 0 0) d h p));
  };
  apart = λ i h. record {
    no_table =
        λ d _ b p. (let same : d ≡ 8 = only_8 rest (entry 3 0 0) d b p in rw same (ground arith));
    no_dir = ground arith;
  };
  user_area = omega arith;
  absent = refl;
}

waiting-free : 0 < count_free waiting.mem
waiting-free =
    count_entries-some max_ffs_size (slot ffs_area_pt_base 0) free_frame waiting.mem (omega arith)
      refl

exhausted-full : count_free exhausted.mem ≡ 0
exhausted-full =
    count_entries-none max_ffs_size (slot ffs_area_pt_base 0) free_frame exhausted.mem
      (λ k a b. ground arith)

abbrev no_kill : Machine → Machine
no_kill m = m

pagefault_handler-Claims_example :
    (i : ℕ) × Claims waiting (pagefault_handler no_kill 33554437 waiting) 33554437 i
pagefault_handler-Claims_example =
    pagefault_handler-Claims no_kill 33554437 waiting (user-IsUserPage 0) waiting-free

mapped-IsSeparate : IsSeparate 0 user_dir mapped.mem
mapped-IsSeparate = record {
  dir_ffs = λ k h. ground arith;
  table_ffs = λ d k _ h o i.
      (let same : d ≡ 8 = only_8 0 (entry 3 1 77) d h (ground arith) in
        let i' = rw same at i in ground arith);
  table_dir = λ d k _ h o i.
      (let same : d ≡ 8 = only_8 0 (entry 3 1 77) d h (ground arith) in rw same (ground arith));
  table_table = λ d d' k _ h h' o o' i.
      (let same : d ≡ 8 = only_8 0 (entry 3 1 77) d (omega arith) (ground arith) in
        let same' : d' ≡ 8 = only_8 0 (entry 3 1 77) d' h' (ground arith) in absurd (omega arith));
}

kill_vm-frames_example : (kill_vm 3 mapped).mem (slot ffs_area_pt_base 5) ≡ (
    if process_maps 1024 0 user_dir 0 mapped.mem
    then record (mapped.mem (slot ffs_area_pt_base 5)) { avail = 2 }
    else mapped.mem (slot ffs_area_pt_base 5))
kill_vm-frames_example =
    kill_vm-frames 3 5 mapped (λ e. ground arith) mapped-IsSeparate (omega arith)
