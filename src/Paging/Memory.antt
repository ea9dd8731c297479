-- ===== src/Paging/Memory.antt =====
-- include/paging.h: the entries of page directories and page tables, and the memory that holds
-- them. The memory is seen as a sequence of 32-bit entries: the entry at the byte address `a`
-- has the number `a / 4`. A directory entry (pd_t) and a table entry (pt_t) share one layout;
-- bit 6 is pd_mbz or pt_dirty, and bit 7 is pd_fmb or pt_mbz.
use ece564_project.Prelude.{
  ℕ, zero, suc, ◌+◌, ◌-◌, ◌*◌, ◌/◌, ◌%◌, ◌^◌, ◌≤◌, ◌<◌, ◌≡◌, refl, Bool, true, false, ◌&&◌, arith,
  ltb, leb, ◌==◌, if◌then◌else◌, Bool-cases, inl, inr,
}

pub record Entry : Type 0 where
  pub pres : ℕ
  pub writable : ℕ
  pub user : ℕ
  pub pwt : ℕ
  pub pcd : ℕ
  pub acc : ℕ
  pub bit6 : ℕ
  pub bit7 : ℕ
  pub global : ℕ
  pub avail : ℕ
  pub base : ℕ

abbrev pub xinu_pages : ℕ
xinu_pages = 8192

abbrev pub page_size : ℕ
page_size = 4096

abbrev pub max_ffs_size : ℕ
max_ffs_size = 16384

abbrev pub max_pt_size : ℕ
max_pt_size = 1024

-- (XINU_PAGES + MAX_FFS_SIZE) * PAGE_SIZE
abbrev pub page_dir_addr_start : ℕ
page_dir_addr_start = 100663296

-- PAGE_DIR_ADDR_START + PAGE_SIZE * MAX_PT_SIZE
abbrev pub pd_pt_area_end : ℕ
pd_pt_area_end = 104857600

-- PAGE_DIR_ADDR_START + XINU_PAGES * 4 + PAGE_SIZE: the tables that map the FFS area.
abbrev pub ffs_area_pt_base : ℕ
ffs_area_pt_base = 100700160

abbrev pub Mem : Type 0
Mem = ℕ → Entry

-- The number of the entry `((pt_t *) addr)[j]`.
abbrev pub slot : ℕ → ℕ → ℕ
slot addr j = addr / 4 + j

-- `(a >> 12) & 0xFFFFF`: what a base field stores of an address.
abbrev pub base_of : ℕ → ℕ
base_of a = a / 4096 % 2 ^ 20

-- `base << 12`
abbrev pub addr_of : ℕ → ℕ
addr_of b = b * 4096 % 2 ^ 32

-- `avail & 1`: the page is valid.
abbrev pub valid : Entry → Bool
valid e = e.avail % 2 == 1

-- `m[s] = f (m[s])`
abbrev pub modify : Mem → ℕ → (Entry → Entry) → Mem
modify m s f k = if k == s then f (m k) else m k

-- for (j = i; j < i + n; j++) m[s + j] = body (j, m[s + j]);
unfoldable pub for_entries : ℕ → ℕ → ℕ → (ℕ → Entry → Entry) → Mem → Mem
for_entries zero i s body m = m
for_entries (suc n) i s body m = for_entries n (i + 1) s body (modify m (s + i) (body i))

abbrev pub in_range : ℕ → ℕ → ℕ → Bool
in_range lo n k = leb lo k && ltb k (lo + n)

-- for (j = 0; j < n; j++) if (test (m[s + j])) count++;
unfoldable pub count_entries : ℕ → ℕ → (Entry → Bool) → Mem → ℕ
count_entries zero s test m = 0
count_entries (suc n) s test m = (if test (m s) then 1 else 0) + count_entries n (s + 1) test m

pub for_entries_at :
    (n i s : ℕ) (body : ℕ → Entry → Entry) (m : Mem) (k : ℕ)
    → for_entries n i s body m k ≡ (if in_range (s + i) n k then body (k - s) (m k) else m k)
unfolding for_entries
for_entries_at zero i s body m k = ground arith
for_entries_at (suc n) i s body m k =
    ground (arith, for_entries_at n (i + 1) s body (modify m (s + i) (body i)) k)

-- What `test` counts, a step function of its value.
abbrev pub tally : Bool → ℕ
tally b = if b then 1 else 0

pub count_entries-modify_outside :
    (n s : ℕ) (test : Entry → Bool) (m : Mem) (k : ℕ) (f : Entry → Entry)
    → in_range s n k ≡ false
    → count_entries n s test (modify m k f) ≡ count_entries n s test m
unfolding count_entries
count_entries-modify_outside zero s test m k f h = refl
count_entries-modify_outside (suc n) s test m k f h =
    ground (arith, count_entries-modify_outside n (s + 1) test m k f)

pub count_entries-modify_inside :
    (n s : ℕ) (test : Entry → Bool) (m : Mem) (k : ℕ) (f : Entry → Entry)
    → in_range s n k ≡ true
    → count_entries n s test (modify m k f) + tally (test (m k))
      ≡ count_entries n s test m + tally (test (f (m k)))
unfolding count_entries
count_entries-modify_inside zero s test m k f h = absurd (ground arith)
count_entries-modify_inside (suc n) s test m k f h = elim (Bool-cases (k == s)) [
  | inl e ↦ ground (arith, count_entries-modify_outside n (s + 1) test m k f)
  | inr e ↦ ground (arith, count_entries-modify_inside n (s + 1) test m k f)
]

pub count_entries-congr :
    (n s : ℕ) (test : Entry → Bool) (m m' : Mem)
    → ((k : ℕ) → s ≤ k → k < s + n → m k ≡ m' k)
    → count_entries n s test m ≡ count_entries n s test m'
unfolding count_entries
count_entries-congr zero s test m m' h = refl
count_entries-congr (suc n) s test m m' h =
    let here : m s ≡ m' s = h s (omega arith) (omega arith) in
    let later =
      count_entries-congr n (s + 1) test m m' (λ k a b. h k (omega arith) (omega arith)) in
    ground arith

pub count_entries-all :
    (n s : ℕ) (test : Entry → Bool) (m : Mem)
    → ((k : ℕ) → s ≤ k → k < s + n → test (m k) ≡ true)
    → count_entries n s test m ≡ n
unfolding count_entries
count_entries-all zero s test m h = refl
count_entries-all (suc n) s test m h =
    let here : test (m s) ≡ true = h s (omega arith) (omega arith) in
    let later = count_entries-all n (s + 1) test m (λ k a b. h k (omega arith) (omega arith)) in
    ground arith

pub count_entries-none :
    (n s : ℕ) (test : Entry → Bool) (m : Mem)
    → ((k : ℕ) → s ≤ k → k < s + n → test (m k) ≡ false)
    → count_entries n s test m ≡ 0
unfolding count_entries
count_entries-none zero s test m h = refl
count_entries-none (suc n) s test m h =
    let here : test (m s) ≡ false = h s (omega arith) (omega arith) in
    let later = count_entries-none n (s + 1) test m (λ k a b. h k (omega arith) (omega arith)) in
    ground arith

pub count_entries-le : (n s : ℕ) (test : Entry → Bool) (m : Mem) → count_entries n s test m ≤ n
unfolding count_entries
count_entries-le zero s test m = omega arith
count_entries-le (suc n) s test m = ground (arith, count_entries-le n (s + 1) test m)
