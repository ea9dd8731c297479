-- ===== src/Lfs/Opened.antt =====
-- device/lfs/lfsetup.c on a file without an index block in memory: one that has just been opened or
-- truncated.
use ece564_project.Prelude.{
  ℕ, suc, ◌≤◌, ◌<◌, ◌≡◌, refl, sym, ap, subst, ◌∙◌, true, false, ◌||◌, ltb, ◌==◌, if◌then◌else◌,
  ◌⊎◌, inl, inr, some, List, [], length, arith,
}
use ece564_project.Queue.Chain
use ece564_project.Lfs.Disk.{lf_inull, lf_dnull, Lfs, lfiballoc, lfibclear, lfibget, write_dir}
use ece564_project.Lfs.File.{Lflcblk, clean_up}
use ece564_project.Lfs.Position.{
  set_ilist, get_index, new_first, first_index, then_seek, then_load, lfsetup,
}
use ece564_project.Lfs.Blocks.{Free, Blocks, places}
use ece564_project.Lfs.Stored.{Bytes, Stored}
use ece564_project.Lfs.Loaded.{Ready}
use ece564_project.Lfs.Setup.{seek-Ready}

-- The file has no block at all, and there are blocks for it.
pub record Fresh (f : Lflcblk) (l : Lfs) (xs : Bytes) (ys : List ℕ) : Type 0 where
  pub nothing : xs ≡ []
  pub no_index : ((l.lf_dir.lfd_files f.lfdirptr).ld_ilist == lf_inull) ≡ true
  pub spare : (l.lf_dir.lfd_ifree == lf_inull) ≡ false
  pub apart_next : (l.lf_dir.lfd_ifree == (l.disk.iblocks l.lf_dir.lfd_ifree).ib_next) ≡ false
  pub free : Free l.disk.dblocks l.lf_dir.lfd_dfree ys
  pub distinct : Chain.Distinct ys
  pub real : Chain.has lf_dnull ys ≡ false
  pub enough : 16 ≤ length ys
  pub within : (k : ℕ) → Chain.has k ys ≡ true → k < 4294967296

-- The file has one index block, on the disk.
pub record Indexed (f : Lflcblk) (l : Lfs) (xs : Bytes) (ys : List ℕ) : Type 0 where
  pub on_disk : ((l.lf_dir.lfd_files f.lfdirptr).ld_ilist == lf_inull) ≡ false
  pub stored : Stored (get_index (l.lf_dir.lfd_files f.lfdirptr).ld_ilist f l) l xs ys

-- No block of the file is in memory.
pub record Opened (f : Lflcblk) (l : Lfs) (xs : Bytes) (ys : List ℕ) : Type 0 where
  pub used : f.lf_used ≡ true
  pub size : (l.lf_dir.lfd_files f.lfdirptr).ld_size ≡ length xs
  pub no_block : f.lfinum ≡ lf_inull
  pub no_data : f.lfdnum ≡ lf_dnull
  pub data_clean : f.lfdbdirty ≡ false
  pub index_clean : f.lfibdirty ≡ false
  pub out : f.lfbyte ≡ 512
  pub blocks : Fresh f l xs ys ⊎ Indexed f l xs ys

lfiballoc-some :
    (l : Lfs)
    → (l.lf_dir.lfd_ifree == lf_inull) ≡ false
    → lfiballoc l
      ≡ some (
        record (write_dir (record l {
          lf_dir = record l.lf_dir { lfd_ifree = (l.disk.iblocks l.lf_dir.lfd_ifree).ib_next };
        })) { lf_dirdirty = false },
        l.lf_dir.lfd_ifree,
      )
unfolding lfiballoc lfibget
lfiballoc-some l o = rw o refl

no_places : (dba : ℕ → ℕ) → places 16 (λ i. if ltb i 16 then lf_dnull else dba i) ≡ 16
no_places dba = refl

none_there :
    (dba : ℕ → ℕ) (i : ℕ) → i < 16 → ((if ltb i 16 then lf_dnull else dba i) == lf_dnull) ≡ true
none_there dba i g = let inside : ltb i 16 ≡ true = ground arith in rw inside refl

empty-Blocks :
    (dba : ℕ → ℕ) (ys : List ℕ)
    → Chain.Distinct ys
    → Chain.has lf_dnull ys ≡ false
    → 16 ≤ length ys
    → ((k : ℕ) → Chain.has k ys ≡ true → k < 4294967296)
    → Blocks (λ i. if ltb i 16 then lf_dnull else dba i) 0 ys
empty-Blocks dba ys d r h w = record {
  given = λ i g. absurd (omega arith);
  once = λ i j g g' o. let clash = none_there dba i g in absurd (ground arith);
  owned = λ i g o. let clash = none_there dba i g in absurd (ground arith);
  distinct = d;
  real = r;
  enough = subst (λ n. n ≤ length ys) (sym (no_places dba)) h;
  small = λ i g. let inside : ltb i 16 ≡ true = ground arith in rw inside (omega arith);
  within = w;
}

pub clean_up_none :
    (f : Lflcblk) (l : Lfs) → f.lfibdirty ≡ false → f.lfdbdirty ≡ false → clean_up f l ≡ (l, f)
clean_up_none f l e g =
    let none_new : (f.lfibdirty || f.lfdbdirty) ≡ false = ground arith in rw none_new refl

abbrev new_index : Lflcblk → Lfs → Lflcblk
new_index f l = record f {
  lfiblock = lfibclear 0 f.lfiblock;
  lfibdirty = true;
  lfinum = l.lf_dir.lfd_ifree;
}

abbrev new_file : Lflcblk → Lfs → Lfs
new_file f l =
    set_ilist f.lfdirptr l.lf_dir.lfd_ifree
      (record (write_dir (record l {
        lf_dir = record l.lf_dir { lfd_ifree = (l.disk.iblocks l.lf_dir.lfd_ifree).ib_next };
      })) { lf_dirdirty = false })

first_index-Fresh :
    (f : Lflcblk) (l : Lfs) (xs : Bytes) (ys : List ℕ)
    → f.lfinum ≡ lf_inull
    → Fresh f l xs ys
    → first_index f l ≡ some (new_file f l, new_index f l)
unfolding first_index
first_index-Fresh f l xs ys e h =
    let closed : (f.lfinum == lf_inull) ≡ true = ground arith in
    let made = lfiballoc-some l h.spare in
    let none_yet = h.no_index in rw (closed, none_yet) (ap (new_first f) made)

first_index-Indexed :
    (f : Lflcblk) (l : Lfs) (xs : Bytes) (ys : List ℕ)
    → f.lfinum ≡ lf_inull
    → Indexed f l xs ys
    → first_index f l ≡ some (l, get_index (l.lf_dir.lfd_files f.lfdirptr).ld_ilist f l)
unfolding first_index
first_index-Indexed f l xs ys e h =
    let closed : (f.lfinum == lf_inull) ≡ true = ground arith in
    let there = h.on_disk in rw (closed, there) refl

new_file-Stored :
    (f : Lflcblk) (l : Lfs) (xs : Bytes) (ys : List ℕ)
    → Opened f l xs ys
    → Fresh f l xs ys
    → Stored (new_index f l) (new_file f l) xs ys
unfolding lfibclear
new_file-Stored f l xs ys o h =
    let none_there : length xs ≡ 0 = ap (λ (t : Bytes). length t) h.nothing in
    let same : (f.lfdirptr == f.lfdirptr) ≡ true = ground arith in
    record {
      used = o.used;
      index = h.spare;
      first = refl;
      size = rw same o.size;
      only = refl;
      unlisted = h.apart_next;
      listed = rw same refl;
      index_kept = λ clean_index. absurd (ground arith);
      fits = omega arith;
      blocks =
          subst (λ n. Blocks (λ i. if ltb i 16 then lf_dnull else f.lfiblock.ib_dba i) n ys)
            (sym none_there)
            (empty-Blocks f.lfiblock.ib_dba ys h.distinct h.real h.enough h.within);
      free = h.free;
      apart = ap (λ k. Chain.has k ys) o.no_data ∙ h.real;
      on_disk = λ q g. absurd (omega arith);
      in_memory = λ q g. absurd (omega arith);
    }

blocks-Ready :
    (fuel : ℕ) (f : Lflcblk) (l : Lfs) (xs : Bytes) (ys : List ℕ)
    → Opened f l xs ys
    → f.lfpos < 8192
    → Fresh f l xs ys ⊎ Indexed f l xs ys
    → Ready (then_load (then_seek (suc fuel) (first_index f l))) xs f.lfpos
blocks-Ready fuel f l xs ys o h (inl b) =
    subst (λ s. Ready (then_load (then_seek (suc fuel) s)) xs f.lfpos)
      (sym (first_index-Fresh f l xs ys o.no_block b))
      (seek-Ready fuel (new_index f l) (new_file f l) xs ys (new_file-Stored f l xs ys o b)
        o.data_clean h)
blocks-Ready fuel f l xs ys o h (inr b) =
    subst (λ s. Ready (then_load (then_seek (suc fuel) s)) xs f.lfpos)
      (sym (first_index-Indexed f l xs ys o.no_block b))
      (seek-Ready fuel (get_index (l.lf_dir.lfd_files f.lfdirptr).ld_ilist f l) l xs ys b.stored
        o.data_clean h)

pub lfsetup-Opened :
    (fuel : ℕ) (f : Lflcblk) (l : Lfs) (xs : Bytes) (ys : List ℕ)
    → Opened f l xs ys
    → f.lfpos < 8192
    → Ready (lfsetup (suc fuel) f l) xs f.lfpos
unfolding lfsetup
lfsetup-Opened fuel f l xs ys o h =
    subst
      (λ (p : Lfs × Lflcblk).
        Ready (then_load (then_seek (suc fuel) (first_index p.1 p.0))) xs f.lfpos)
      (sym (clean_up_none f l o.index_clean o.data_clean))
      (blocks-Ready fuel f l xs ys o h o.blocks)
