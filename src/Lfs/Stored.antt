-- ===== src/Lfs/Stored.antt =====
-- An open file of one index block, its bytes in the block in memory and in the blocks on the disk,
-- and what lflgetc.c and lflputc.c do at the end of a block.
use ece564_project.Prelude.{
  ℕ, ◌/◌, ◌%◌, ◌≤◌, ◌<◌, ◌≡◌, refl, sym, ap, subst, ◌∙◌, Bool, true, false, ◌&&◌, ◌==◌,
  if◌then◌else◌, Bool-cases, inl, inr, List, length, arith,
}
use ece564_project.Prelude.Ring.{nth}
use ece564_project.Queue.Chain
use ece564_project.Lfs.Disk.{Lfiblk, lf_inull, lf_dnull, Lfs, lfibput}
use ece564_project.Lfs.File.{Lflcblk, lfflush, clean_up}
use ece564_project.Lfs.Chains.{has-apart}
use ece564_project.Lfs.Blocks.{Free, Free-frame, Blocks}

abbrev pub Bytes : Type 0
Bytes = List ℕ

-- The bytes of the file are in the blocks on the disk, where the block in memory is not newer, and
-- those of the block in memory are there.
pub record Stored (f : Lflcblk) (l : Lfs) (xs : Bytes) (ys : List ℕ) : Type 0 where
  pub used : f.lf_used ≡ true
  pub index : (f.lfinum == lf_inull) ≡ false
  pub first : f.lfiblock.ib_offset ≡ 0
  pub size : (l.lf_dir.lfd_files f.lfdirptr).ld_size ≡ length xs
  pub only : f.lfiblock.ib_next ≡ lf_inull
  pub unlisted : (f.lfinum == l.lf_dir.lfd_ifree) ≡ false
  pub listed : (l.lf_dir.lfd_files f.lfdirptr).ld_ilist ≡ f.lfinum
  pub index_kept : f.lfibdirty ≡ false → l.disk.iblocks f.lfinum ≡ f.lfiblock
  pub fits : length xs ≤ 8192
  pub blocks : Blocks f.lfiblock.ib_dba (length xs) ys
  pub free : Free l.disk.dblocks l.lf_dir.lfd_dfree ys
  pub apart : Chain.has f.lfdnum ys ≡ false
  pub on_disk :
      (q : ℕ)
      → q < length xs
      → (f.lfdbdirty && (f.lfiblock.ib_dba (q / 512) == f.lfdnum)) ≡ false
      → l.disk.dblocks (f.lfiblock.ib_dba (q / 512)) (q % 512) ≡ nth xs q
  pub in_memory :
      (q : ℕ)
      → q < length xs
      → (f.lfiblock.ib_dba (q / 512) == f.lfdnum) ≡ true
      → f.lfdblock (q % 512) ≡ nth xs q

-- The byte pointer points to the position.
pub record At (f : Lflcblk) : Type 0 where
  pub here : f.lfbyte ≡ f.lfpos % 512
  pub block : f.lfiblock.ib_dba (f.lfpos / 512) ≡ f.lfdnum
  pub there : (f.lfdnum == lf_dnull) ≡ false

pub clean_up-dir : (f : Lflcblk) (l : Lfs) → (clean_up f l).0.lf_dir ≡ l.lf_dir
unfolding lfflush lfibput
clean_up-dir f l = ground arith

clean_up-dblocks :
    (f : Lflcblk) (l : Lfs) (k : ℕ)
    → f.lf_used ≡ true
    → (clean_up f l).0.disk.dblocks k
      ≡ (if f.lfdbdirty && (k == f.lfdnum) then f.lfdblock else l.disk.dblocks k)
unfolding lfflush lfibput
clean_up-dblocks f l k used = ground arith

clean_up-iblocks :
    (f : Lflcblk) (l : Lfs) (k : ℕ)
    → f.lf_used ≡ true
    → (clean_up f l).0.disk.iblocks k
      ≡ (if f.lfibdirty && (k == f.lfinum) then f.lfiblock else l.disk.iblocks k)
unfolding lfflush lfibput
clean_up-iblocks f l k used = ground arith

abbrev pub cleaned : Lflcblk → Lflcblk
cleaned f = record f { lfdbdirty = false; lfibdirty = false }

pub clean_up-file : (f : Lflcblk) (l : Lfs) → f.lf_used ≡ true → (clean_up f l).1 ≡ cleaned f
unfolding lfflush
clean_up-file f l used = ground arith

kept : (b : Bool) (x y : ℕ → ℕ) → (if b && false then x else y) ≡ y
kept true x y = refl
kept false x y = refl

both : (a b : Bool) → (a && b) ≡ true → b ≡ true
both true b e = e
both false b e = absurd (ground arith)

-- `l1` is `l` with what was newer in memory written to the disk.
pub record Flushed (f : Lflcblk) (l l1 : Lfs) : Type 0 where
  pub dir : l1.lf_dir ≡ l.lf_dir
  pub data_blocks :
      (k : ℕ)
      → l1.disk.dblocks k
        ≡ (if f.lfdbdirty && (k == f.lfdnum) then f.lfdblock else l.disk.dblocks k)
  pub index_blocks :
      (k : ℕ)
      → l1.disk.iblocks k
        ≡ (if f.lfibdirty && (k == f.lfinum) then f.lfiblock else l.disk.iblocks k)

clean_up-Flushed : (f : Lflcblk) (l : Lfs) → f.lf_used ≡ true → Flushed f l (clean_up f l).0
clean_up-Flushed f l used = record {
  dir = clean_up-dir f l;
  data_blocks = λ k. clean_up-dblocks f l k used;
  index_blocks = λ k. clean_up-iblocks f l k used;
}

flushed_index :
    (b : Bool) (k : ℕ) (x y : Lfiblk) → (b ≡ false → y ≡ x) → (if b && (k == k) then x else y) ≡ x
flushed_index true k x y h = let same : (k == k) ≡ true = ground arith in rw same refl
flushed_index false k x y h = h refl

pub Flushed-Stored :
    (f : Lflcblk) (l l1 : Lfs) (xs : Bytes) (ys : List ℕ)
    → Flushed f l l1
    → Stored f l xs ys
    → Stored (cleaned f) l1 xs ys
Flushed-Stored f l l1 xs ys w s =
    let dba : ℕ → ℕ = f.lfiblock.ib_dba in
    record {
      used = s.used;
      index = s.index;
      first = s.first;
      size = ap (λ d. (d.lfd_files f.lfdirptr).ld_size) w.dir ∙ s.size;
      only = s.only;
      unlisted = ap (λ d. f.lfinum == d.lfd_ifree) w.dir ∙ s.unlisted;
      listed = ap (λ d. (d.lfd_files f.lfdirptr).ld_ilist) w.dir ∙ s.listed;
      index_kept = λ clean.
          w.index_blocks f.lfinum
          ∙ flushed_index f.lfibdirty f.lfinum f.lfiblock (l.disk.iblocks f.lfinum) s.index_kept;
      fits = s.fits;
      blocks = s.blocks;
      free =
          subst (λ d. Free l1.disk.dblocks d.lfd_dfree ys) (sym w.dir)
            (Free-frame l.disk.dblocks l1.disk.dblocks l.lf_dir.lfd_dfree ys
              (λ k h.
                w.data_blocks k
                ∙ (let away : (k == f.lfdnum) ≡ false = has-apart k f.lfdnum ys h s.apart in
                    rw away (kept f.lfdbdirty f.lfdblock (l.disk.dblocks k))))
              s.free);
      apart = s.apart;
      on_disk = λ q h e.
          ap (λ (b : ℕ → ℕ). b (q % 512)) (w.data_blocks (dba (q / 512)))
          ∙ elim (Bool-cases (f.lfdbdirty && (dba (q / 512) == f.lfdnum))) [
            | inl d ↦ rw d (s.in_memory q h (both f.lfdbdirty (dba (q / 512) == f.lfdnum) d))
            | inr d ↦ rw d (s.on_disk q h d)
          ];
      in_memory = s.in_memory;
    }

pub clean_up-Stored :
    (f : Lflcblk) (l : Lfs) (xs : Bytes) (ys : List ℕ)
    → Stored f l xs ys
    → Stored (cleaned f) (clean_up f l).0 xs ys
clean_up-Stored f l xs ys s =
    Flushed-Stored f l (clean_up f l).0 xs ys (clean_up-Flushed f l s.used) s

-- The position and the byte pointer move.
pub Stored-moved :
    (f : Lflcblk) (l : Lfs) (xs : Bytes) (ys : List ℕ) (pos byte : ℕ)
    → Stored f l xs ys
    → Stored (record f { lfpos = pos; lfbyte = byte }) l xs ys
Stored-moved f l xs ys pos byte s = record {
  used = s.used;
  index = s.index;
  first = s.first;
  size = s.size;
  only = s.only;
  unlisted = s.unlisted;
  listed = s.listed;
  index_kept = s.index_kept;
  fits = s.fits;
  blocks = s.blocks;
  free = s.free;
  apart = s.apart;
  on_disk = s.on_disk;
  in_memory = s.in_memory;
}
