-- ===== src/Paging/Tests/User.antt =====
-- The machines of the tests: a process whose directory stands in page 26 of the table area, with
-- one table of its own in page 27, for directory entry 8.
use ece564_project.Prelude.{
  ℕ, zero, suc, ◌+◌, ◌≤◌, ◌<◌, ◌≡◌, refl, Bool, true, false, ◌==◌, if◌then◌else◌, arith,
}
use ece564_project.Paging.Memory.{Entry, Mem, slot, count_entries}
use ece564_project.Paging.Machine.{Machine}

abbrev pub user_dir : ℕ
user_dir = 100769792

abbrev pub user_table : ℕ
user_table = 100773888

abbrev pub entry : ℕ → ℕ → ℕ → Entry
entry avail pres base = record {
  pres = pres;
  writable = 1;
  user = 0;
  pwt = 1;
  pcd = 1;
  acc = 1;
  bit6 = 0;
  bit7 = 0;
  global = 0;
  avail = avail;
  base = base;
}

-- The first entry of the table is `first`, and every other entry has the avail field `rest`.
abbrev pub user_mem : ℕ → Entry → Mem
user_mem rest first k =
    if k == slot user_dir 8
    then entry 3 1 24603
    else if k == slot user_table 0
    then first
    else entry rest 0 0

abbrev pub machine : Mem → Machine
machine m = record { mem = m; cr3 = user_dir; page_addr = λ _. user_dir; currpid = 3 }

-- The page at 32 MB is allocated, and has no frame.
abbrev pub waiting : Machine
waiting = machine (user_mem 0 (entry 3 0 0))

-- The same, with no free frame.
abbrev pub exhausted : Machine
exhausted = machine (user_mem 1 (entry 3 0 0))

-- The page at 32 MB has the frame 77.
abbrev pub mapped : Machine
mapped = machine (user_mem 0 (entry 3 1 77))

pub count_entries-some :
    (n s : ℕ) (test : Entry → Bool) (m : Mem)
    → 0 < n
    → test (m s) ≡ true
    → 0 < count_entries n s test m
unfolding count_entries
count_entries-some zero s test m p h = absurd (omega arith)
count_entries-some (suc n) s test m p h = rw h (omega arith)

pub count_entries-none :
    (n s : ℕ) (test : Entry → Bool) (m : Mem)
    → ((k : ℕ) → s ≤ k → k < s + n → test (m k) ≡ false)
    → count_entries n s test m ≡ 0
unfolding count_entries
count_entries-none zero s test m h = refl
count_entries-none (suc n) s test m h =
    let here = h s (omega arith) (omega arith) in
    let later = count_entries-none n (s + 1) test m (λ k a b. h k (omega arith) (omega arith)) in
    rw here (omega arith)
