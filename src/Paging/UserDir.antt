-- ===== src/Paging/UserDir.antt =====
-- system/vcreate.c, initialize_user_page_dir: the page directory of a new user process.
use ece564_project.Prelude.{
  ℕ, zero, suc, ◌+◌, ◌-◌, ◌*◌, ◌/◌, ◌%◌, ◌^◌, ◌≤◌, ◌<◌, ◌≡◌, Bool, true, false, arith, ltb, ◌==◌,
  Bool-cases, inl, inr, if◌then◌else◌, Option, some, none,
}
use ece564_project.Paging.Memory.{
  Mem, slot, page_dir_addr_start, page_size, for_entries, for_entries_at, in_range,
}
use ece564_project.Paging.Machine.{translate}
use ece564_project.Paging.Init.{empty_pde, point_to, system_tables, system_pte_at, system_pde}

-- `pd[0].pd_avail & (1 << 1)`: the page holds a table or a directory.
abbrev pub taken : Mem → ℕ → Bool
taken m addr = (m (slot addr 0)).avail / 2 % 2 == 1

-- The search, from `base_address` on; the loop of the source has no end, so `none` says that the
-- fuel ran out.
unfoldable pub find_page : ℕ → ℕ → Mem → Option ℕ
find_page zero base_address m = none
find_page (suc fuel) base_address m =
    let rest = find_page fuel ((base_address + page_size) % 2 ^ 32) m in
    if taken m base_address then rest else some base_address

-- The two loops that fill the directory at `addr`.
unfoldable pub fill_user_dir : ℕ → Mem → Mem
fill_user_dir addr m =
    for_entries 8 0 (slot addr 0)
      (λ i e. point_to ((page_dir_addr_start + page_size * (i + 1)) % 2 ^ 32) e)
      (for_entries 1024 0 (slot addr 0) (λ _ _. empty_pde) m)

unfoldable pub initialize_user_page_dir : ℕ → Mem → Option (Mem × ℕ)
initialize_user_page_dir fuel m = elim (find_page fuel page_dir_addr_start m) [
  | none ↦ none
  | some base_address ↦ some (fill_user_dir base_address m, base_address)
]

-- The search finds the first page that is not taken.
pub find_page-first :
    (fuel i p : ℕ) (m : Mem)
    → i ≤ p
    → p < i + fuel
    → p < 1024
    → ((q : ℕ) → i ≤ q → q < p → taken m (page_dir_addr_start + page_size * q) ≡ true)
    → taken m (page_dir_addr_start + page_size * p) ≡ false
    → find_page fuel (page_dir_addr_start + page_size * i) m
      ≡ some (page_dir_addr_start + page_size * p)
unfolding find_page
find_page-first zero i p m a b c before free = absurd (omega arith)
find_page-first (suc fuel) i p m a b c before free = elim (Bool-cases (i == p)) [
  | inl e ↦ let e' : i ≡ p = ground arith in rw (e', free)
  | inr e ↦
      let next : (page_dir_addr_start + page_size * i + page_size) % 2 ^ 32
          ≡ page_dir_addr_start + page_size * (i + 1) =
        omega arith in
      let used : taken m (page_dir_addr_start + page_size * i) ≡ true =
        before i (omega arith) (ground arith) in
      rw (next, used)
        (find_page-first fuel (i + 1) p m (ground arith) (omega arith) c
          (λ q l u. before q (omega arith) u) free)
]

cleared : ℕ → Mem → Mem
cleared addr m = for_entries 1024 0 (slot addr 0) (λ _ _. empty_pde) m

fill_user_dir_at :
    (addr : ℕ) (m : Mem) (k : ℕ)
    → fill_user_dir addr m k ≡ (
        if in_range (slot addr 0) 8 k
        then point_to (page_dir_addr_start + page_size * (k - slot addr 0 + 1)) empty_pde
        else if in_range (slot addr 0) 1024 k
        then empty_pde
        else m k)
unfolding fill_user_dir cleared
fill_user_dir_at addr m k =
    rw
      (
        for_entries_at 8 0 (slot addr 0)
            (λ i e. point_to ((page_dir_addr_start + page_size * (i + 1)) % 2 ^ 32) e)
            (cleared addr m) k,
        for_entries_at 1024 0 (slot addr 0) (λ _ _. empty_pde) m k,
      )
      (ground arith)

-- After initialize_page_table the search passes over the directory and the tables of the system.
system-taken :
    (m : Mem) (q : ℕ)
    → q < 26
    → taken (system_tables m) (page_dir_addr_start + page_size * q) ≡ true
system-taken m zero h = ground (arith, system_pde m 0)
system-taken m (suc d) h = ground (arith, system_pte_at m d 0)

user_dir-translate :
    (m : Mem) (p va : ℕ)
    → 26 ≤ p
    → p < 1024
    → va < 2 ^ 32
    → translate
        (fill_user_dir (page_dir_addr_start + page_size * p) (system_tables m))
        (page_dir_addr_start + page_size * p)
        va
      ≡ (if ltb va 33554432 then some va else none)
unfolding translate
user_dir-translate m p va a b h =
    let addr : ℕ = page_dir_addr_start + page_size * p in
    let pde = fill_user_dir_at addr (system_tables m) (slot addr (va / 2 ^ 22)) in
    let pte =
      fill_user_dir_at addr (system_tables m)
        (slot page_dir_addr_start (1024 * (va / 2 ^ 22 + 1) + va / 4096 % 1024)) in
    ground (arith, system_pte_at m (va / 2 ^ 22) (va / 4096 % 1024))

-- Let `p` be the first page of the table area, behind the system's own 26, that is not taken.
-- A directory that is made after `initialize_page_table` is put there; under it every address
-- below 32 MB is translated to itself, and no address above it is translated.
pub initialize_user_page_dir-translate :
    (m : Mem) (p va : ℕ)
    → 26 ≤ p
    → p < 1024
    → ((q : ℕ)
        → 26 ≤ q
        → q < p
        → taken (system_tables m) (page_dir_addr_start + page_size * q) ≡ true)
    → taken (system_tables m) (page_dir_addr_start + page_size * p) ≡ false
    → va < 2 ^ 32
    → (m' : Mem) × (initialize_user_page_dir 1024 (system_tables m)
        ≡ some (m', page_dir_addr_start + page_size * p))
      × (translate m' (page_dir_addr_start + page_size * p) va
          ≡ (if ltb va 33554432 then some va else none))
unfolding initialize_user_page_dir
initialize_user_page_dir-translate m p va a b before free h =
    let addr : ℕ = page_dir_addr_start + page_size * p in
    let found : find_page 1024 page_dir_addr_start (system_tables m) ≡ some addr =
      find_page-first 1024 0 p (system_tables m) (omega arith) (omega arith) b
        (λ q _ u. elim (Bool-cases (ltb q 26)) [
          | inl e ↦ system-taken m q (ground arith)
          | inr e ↦ before q (ground arith) u
        ])
        free in
    (
      fill_user_dir addr (system_tables m),
      rw (found, initialize_user_page_dir),
      user_dir-translate m p va a b h,
    )
