-- ===== src/Lfs/Setup.antt =====
-- device/lfs/lfsetup.c on an open file of one index block.
use ece564_project.Prelude.{
  ℕ, suc, ◌-◌, ◌%◌, ◌<◌, ◌≡◌, refl, sym, ap, subst, ◌∙◌, true, false, ltb, leb, Bool-cases, inl,
  inr, some, List, arith,
}
use ece564_project.Lfs.Disk.{Lfs}
use ece564_project.Lfs.File.{Lflcblk, clean_up}
use ece564_project.Lfs.Position.{first_index, seek_index, then_seek, then_load, lfsetup, set_up}
use ece564_project.Lfs.Stored.{Bytes, Stored, At, cleaned, clean_up-Stored, clean_up-file}
use ece564_project.Lfs.Loaded.{Ready, load_data-Ready}

first_index-Stored :
    (f : Lflcblk) (l : Lfs) (xs : Bytes) (ys : List ℕ)
    → Stored f l xs ys
    → first_index f l ≡ some (l, f)
unfolding first_index
first_index-Stored f l xs ys s =
    let first = s.first in
    let on : ltb f.lfpos f.lfiblock.ib_offset ≡ false = ground arith in rw (s.index, on) refl

seek_index-Stored :
    (fuel : ℕ) (f : Lflcblk) (l : Lfs) (xs : Bytes) (ys : List ℕ)
    → Stored f l xs ys
    → f.lfpos < 8192
    → seek_index (suc fuel) f l ≡ some (l, f)
unfolding seek_index
seek_index-Stored fuel f l xs ys s h =
    let first = s.first in
    let here : leb (f.lfpos - f.lfpos % 8192) f.lfiblock.ib_offset ≡ true = ground arith in
    rw here refl

-- The set-up behind the first index block.
pub seek-Ready :
    (fuel : ℕ) (f : Lflcblk) (l : Lfs) (xs : Bytes) (ys : List ℕ)
    → Stored f l xs ys
    → f.lfdbdirty ≡ false
    → f.lfpos < 8192
    → Ready (then_load (then_seek (suc fuel) (some (l, f)))) xs f.lfpos
seek-Ready fuel f l xs ys s clean h =
    subst (λ o. Ready o xs f.lfpos) (sym (ap then_load (seek_index-Stored fuel f l xs ys s h)))
      (load_data-Ready f l xs ys s clean h)

lfsetup-Ready :
    (fuel : ℕ) (f : Lflcblk) (l : Lfs) (xs : Bytes) (ys : List ℕ)
    → Stored f l xs ys
    → f.lfpos < 8192
    → Ready (lfsetup (suc fuel) f l) xs f.lfpos
unfolding lfsetup
lfsetup-Ready fuel f l xs ys s h =
    let l1 : Lfs = (clean_up f l).0 in
    let s1 : Stored (cleaned f) l1 xs ys = clean_up-Stored f l xs ys s in
    subst (λ o. Ready o xs f.lfpos)
      (sym (
        ap (λ g. then_load (then_seek (suc fuel) (first_index g l1))) (clean_up-file f l s.used)
        ∙ ap (λ o. then_load (then_seek (suc fuel) o))
            (first_index-Stored (cleaned f) l1 xs ys s1)))
      (seek-Ready fuel (cleaned f) l1 xs ys s1 refl h)

-- Whether a block is set up or in memory already.
pub set_up-Ready :
    (fuel : ℕ) (f : Lflcblk) (l : Lfs) (xs : Bytes) (ys : List ℕ)
    → Stored f l xs ys
    → (f.lfbyte < 512 → At f)
    → f.lfpos < 8192
    → Ready (set_up (suc fuel) f l) xs f.lfpos
set_up-Ready fuel f l xs ys s a h = elim (Bool-cases (leb 512 f.lfbyte)) [
  | inl e ↦ rw e (lfsetup-Ready fuel f l xs ys s h)
  | inr e ↦ rw e (l, f, ys, refl, s, a (ground arith), refl)
]
