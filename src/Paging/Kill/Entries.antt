-- ===== src/Paging/Kill/Entries.antt =====
-- What clearing the entries of one table in kill_vm (system/kill.c) does to the FFS area.
use ece564_project.Prelude.{
  ℕ, zero, suc, ◌+◌, ◌≤◌, ◌<◌, ◌≡◌, ◌≢◌, refl, Bool, true, false, ◌&&◌, ◌||◌, arith, ◌==◌,
  if◌then◌else◌, ◌∙◌, ap,
}
use ece564_project.Paging.Memory.{
  Entry, Mem, slot, modify, in_range, ffs_area_pt_base, max_ffs_size,
}
use ece564_project.Paging.Count.{is_present}
use ece564_project.Paging.Kill.{release_frames, clear_table, zero_entry}
use ece564_project.Paging.Kill.Absent.{release_frames_at}

abbrev pub in_ffs : ℕ → Bool
in_ffs k = in_range (slot ffs_area_pt_base 0) max_ffs_size k

-- One of the `n` entries from `s` on is present with the base `b`.
unfoldable pub maps_base : ℕ → ℕ → ℕ → Mem → Bool
maps_base zero s b m = false
maps_base (suc n) s b m = (is_present (m s) && ((m s).base == b)) || maps_base n (s + 1) b m

pub maps_base-congr :
    (n s b : ℕ) (m m' : Mem)
    → ((k : ℕ) → s ≤ k → k < s + n → m' k ≡ m k)
    → maps_base n s b m' ≡ maps_base n s b m
unfolding maps_base
maps_base-congr zero s b m m' h = refl
maps_base-congr (suc n) s b m m' h =
    let here = h s (omega arith) (omega arith) in
    let later = maps_base-congr n (s + 1) b m m' (λ k p q. h k (omega arith) (omega arith)) in
    rw (here, later)

-- What becomes of an entry of the FFS area.
unfoldable pub freed_if : Bool → Entry → Entry
freed_if b e = if b then record e { avail = 2 } else e

pub freed_if_base : (b : Bool) (e : Entry) → (freed_if b e).base ≡ e.base
unfolding freed_if
freed_if_base true e = refl
freed_if_base false e = refl

pub freed_if-twice : (a b : Bool) (e : Entry) → freed_if b (freed_if a e) ≡ freed_if (a || b) e
unfolding freed_if
freed_if-twice true true e = refl
freed_if-twice true false e = refl
freed_if-twice false b e = refl

pub freed_if-false : (e : Entry) → freed_if false e ≡ e
unfolding freed_if
freed_if-false e = refl

-- The memory when entry `j` of the table is cleared.
pub after_entry : ℕ → ℕ → Mem → Mem
after_entry pt j m =
    modify (if is_present (m (slot pt j)) then release_frames (m (slot pt j)).base m else m)
      (slot pt j) (λ _. zero_entry)

pub after_entry_ffs :
    (pt j : ℕ) (m : Mem) (k : ℕ)
    → in_ffs k ≡ true
    → k ≢ slot pt j
    → after_entry pt j m k
      ≡ freed_if (is_present (m (slot pt j)) && ((m (slot pt j)).base == (m k).base)) (m k)
unfolding after_entry freed_if
after_entry_ffs pt j m k a b = ground (arith, release_frames_at (m (slot pt j)).base m k)

pub after_entry_other :
    (pt j : ℕ) (m : Mem) (k : ℕ) → in_ffs k ≡ false → k ≢ slot pt j → after_entry pt j m k ≡ m k
unfolding after_entry
after_entry_other pt j m k a b = ground (arith, release_frames_at (m (slot pt j)).base m k)

-- The `n` entries of the table from `j` on are no entries of the FFS area.
abbrev pub TableApart : ℕ → ℕ → ℕ → Type 0
TableApart n j pt = (k : ℕ) → slot pt j ≤ k → k < slot pt j + n → in_ffs k ≡ false

pub clear_table_ffs :
    (n j pt : ℕ) (m : Mem) (k : ℕ)
    → TableApart n j pt
    → in_ffs k ≡ true
    → clear_table n j pt m k ≡ freed_if (maps_base n (slot pt j) (m k).base m) (m k)
unfolding clear_table maps_base after_entry
clear_table_ffs zero j pt m k t h = rw freed_if-false
clear_table_ffs (suc n) j pt m k t h =
    let m' : Mem = after_entry pt j m in
    let ne : k ≢ slot pt j = not_ffs j (omega arith) (omega arith) in
    let now = after_entry_ffs pt j m k h ne in
    let same : (m' k).base ≡ (m k).base = ap (λ (x : Entry). x.base) now ∙ freed_if_base _ (m k) in
    let next : slot pt (j + 1) ≡ slot pt j + 1 = omega arith in
    let later =
      maps_base-congr n (slot pt j + 1) (m k).base m m'
        (λ k' a b. after_entry_other pt j m k' (t k' (omega arith) (omega arith)) (omega arith)) in
    clear_table_ffs n (j + 1) pt m' k (λ k' a b. t k' (omega arith) (omega arith)) h
    ∙ (rw (same, next, later, now) (freed_if-twice _ _ (m k)))
  where
    not_ffs : (i : ℕ) → j ≤ i → i < j + suc n → k ≢ slot pt i
    not_ffs i a b e = let out = t (slot pt i) (omega arith) (omega arith) in ground arith

pub clear_table_other :
    (n j pt : ℕ) (m : Mem) (k : ℕ)
    → in_ffs k ≡ false
    → in_range (slot pt j) n k ≡ false
    → clear_table n j pt m k ≡ m k
unfolding clear_table after_entry
clear_table_other zero j pt m k a b = refl
clear_table_other (suc n) j pt m k a b =
    clear_table_other n (j + 1) pt (after_entry pt j m) k a (ground arith)
    ∙ after_entry_other pt j m k a (ground arith)
