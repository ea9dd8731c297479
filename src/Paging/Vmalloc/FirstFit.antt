-- ===== src/Paging/Vmalloc/FirstFit.antt =====
-- system/vmalloc.c for a request of less than one table, when the first heap table has room.
use ece564_project.Prelude.{
  ℕ, zero, suc, ◌+◌, ◌≤◌, ◌<◌, ◌≡◌, ◌≢◌, refl, Bool, true, false, arith, ◌==◌, if◌then◌else◌,
  Bool-cases, inl, inr, ◌∙◌,
}
use ece564_project.Paging.Memory.{Entry, Mem, slot, count_entries, count_entries-le}
use ece564_project.Paging.Machine.{Machine}
use ece564_project.Paging.Vmalloc.Tables.{unallocated}
use ece564_project.Paging.Vmalloc.Single.{last_allocated}

pub count_entries-full :
    (n s : ℕ) (test : Entry → Bool) (m : Mem) (k : ℕ)
    → count_entries n s test m ≡ n
    → s ≤ k
    → k < s + n
    → test (m k) ≡ true
unfolding count_entries
count_entries-full zero s test m k h a b = absurd (omega arith)
count_entries-full (suc n) s test m k h a b = elim (Bool-cases (k == s)) [
  | inl e ↦
      let same : k ≡ s = ground arith in rw same (ground (arith, count_entries-le n (s + 1) test m))
  | inr e ↦
      count_entries-full n (s + 1) test m k (ground (arith, count_entries-le n (s + 1) test m))
        (ground arith) (omega arith)
]

count_entries-last :
    (n s : ℕ) (test : Entry → Bool) (m : Mem)
    → count_entries (suc n) s test m
      ≡ count_entries n s test m + (if test (m (s + n)) then 1 else 0)
unfolding count_entries
count_entries-last zero s test m = let e : s + 0 ≡ s = omega arith in rw e (omega arith)
count_entries-last (suc n) s test m =
    let ih = count_entries-last n (s + 1) test m in
    let e : s + 1 + n ≡ s + suc n = omega arith in let ih' = rw e at ih in omega arith

-- Where not all of the entries are free, `last_allocated` finds one that is not.
none-counted : (s : ℕ) (test : Entry → Bool) (m : Mem) → count_entries 0 s test m ≡ 0
unfolding count_entries
none-counted s test m = refl

pub last_allocated_lem :
    (n s : ℕ) (m : Mem)
    → count_entries n s unallocated m ≢ n
    → (last_allocated n s m < n) × (unallocated (m (s + last_allocated n s m)) ≡ false)
unfolding last_allocated
last_allocated_lem zero s m h = absurd (h (none-counted s unallocated m))
last_allocated_lem (suc n) s m h = elim (Bool-cases (unallocated (m (s + n)))) [
  | inl free ↦
      let last = count_entries-last n s unallocated m in
      let (low, used) = last_allocated_lem n s m (λ e. h (last ∙ rw (free, e) (omega arith))) in
      rw free (omega arith, used)
  | inr used ↦ rw used (omega arith, used)
]

-- The first run of `n` free entries of the table at `pt` begins at entry `j`.
pub record IsFirstRun (n j pt : ℕ) (m : Mem) : Type 0 where
  pub some_pages : 0 < n
  pub fits : j + n ≤ 1024
  pub free : count_entries n (slot pt j) unallocated m ≡ n
  pub first : (i : ℕ) → i < j → count_entries n (slot pt i) unallocated m ≢ n
