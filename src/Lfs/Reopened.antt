-- ===== src/Lfs/Reopened.antt =====
-- device/lfs/lflclose.c, and lfsopen.c for the same file.
use ece564_project.Prelude.{
  ℕ, ◌/◌, ◌%◌, ◌≡◌, refl, sym, ap, subst, ◌∙◌, true, false, ◌&&◌, ◌==◌, if◌then◌else◌, ◌⊎◌, inl,
  inr, List, length, arith,
}
use ece564_project.Prelude.Ring.{nth}
use ece564_project.Queue.Chain
use ece564_project.Lfs.Disk.{lf_inull, lf_dnull, Lfiblk, Lfs, lfibput, lfibget}
use ece564_project.Lfs.File.{Lflcblk, lfflush}
use ece564_project.Lfs.Position.{get_index}
use ece564_project.Lfs.Stream.{lflclose}
use ece564_project.Lfs.Open.{open_block}
use ece564_project.Lfs.Blocks.{Free, Free-frame, Blocks}
use ece564_project.Lfs.Stored.{Bytes, Stored, Flushed, Flushed-Stored, cleaned}
use ece564_project.Lfs.Opened.{Fresh, Indexed, Opened}

pub lflclose-dir : (f : Lflcblk) (l : Lfs) → (lflclose f l).0.lf_dir ≡ l.lf_dir
unfolding lflclose lfflush lfibput
lflclose-dir f l = ground arith

lflclose-dblocks :
    (f : Lflcblk) (l : Lfs) (k : ℕ)
    → f.lf_used ≡ true
    → (lflclose f l).0.disk.dblocks k
      ≡ (if f.lfdbdirty && (k == f.lfdnum) then f.lfdblock else l.disk.dblocks k)
unfolding lflclose lfflush lfibput
lflclose-dblocks f l k used = ground arith

lflclose-iblocks :
    (f : Lflcblk) (l : Lfs) (k : ℕ)
    → f.lf_used ≡ true
    → (lflclose f l).0.disk.iblocks k
      ≡ (if f.lfibdirty && (k == f.lfinum) then f.lfiblock else l.disk.iblocks k)
unfolding lflclose lfflush lfibput
lflclose-iblocks f l k used = ground arith

pub lflclose-Flushed : (f : Lflcblk) (l : Lfs) → f.lf_used ≡ true → Flushed f l (lflclose f l).0
lflclose-Flushed f l used = record {
  dir = lflclose-dir f l;
  data_blocks = λ k. lflclose-dblocks f l k used;
  index_blocks = λ k. lflclose-iblocks f l k used;
}

-- The block of the file that is opened again has nothing of the file in memory.
pub record Reopened (i : ℕ) (g : Lflcblk) : Type 0 where
  used : g.lf_used ≡ true
  entry : g.lfdirptr ≡ i
  no_block : g.lfinum ≡ lf_inull
  no_data : g.lfdnum ≡ lf_dnull
  data_clean : g.lfdbdirty ≡ false
  index_clean : g.lfibdirty ≡ false

pub open_block-Reopened :
    (name : ℕ → ℕ) (mbits i : ℕ) (f : Lflcblk) → Reopened i (open_block name mbits i f)
unfolding open_block
open_block-Reopened name mbits i f = record {
  used = refl;
  entry = refl;
  no_block = refl;
  no_data = refl;
  data_clean = refl;
  index_clean = refl;
}

-- All bytes are on the disk, and so is the index block.
clean-Indexed :
    (f g : Lflcblk) (l : Lfs) (xs : Bytes) (ys : List ℕ)
    → Stored (cleaned f) l xs ys
    → Reopened f.lfdirptr g
    → Indexed g l xs ys
unfolding lfibget
clean-Indexed f g l xs ys s r =
    let ilist : ℕ = (l.lf_dir.lfd_files f.lfdirptr).ld_ilist in
    let same : (l.lf_dir.lfd_files g.lfdirptr).ld_ilist ≡ f.lfinum =
      ap (λ k. (l.lf_dir.lfd_files k).ld_ilist) r.entry ∙ s.listed in
    let block : l.disk.iblocks (l.lf_dir.lfd_files g.lfdirptr).ld_ilist ≡ f.lfiblock =
      ap l.disk.iblocks same ∙ s.index_kept refl in
    let not_null : ((l.lf_dir.lfd_files g.lfdirptr).ld_ilist == lf_inull) ≡ false =
      ap (λ k. k == lf_inull) same ∙ s.index in
    record {
      on_disk = not_null;
      stored = record {
        used = r.used;
        index = not_null;
        first = ap (λ (b : Lfiblk). b.ib_offset) block ∙ s.first;
        size = ap (λ k. (l.lf_dir.lfd_files k).ld_size) r.entry ∙ s.size;
        only = ap (λ (b : Lfiblk). b.ib_next) block ∙ s.only;
        unlisted = ap (λ k. k == l.lf_dir.lfd_ifree) same ∙ s.unlisted;
        listed = refl;
        index_kept = λ e. refl;
        fits = s.fits;
        blocks = subst (λ (b : Lfiblk). Blocks b.ib_dba (length xs) ys) (sym block) s.blocks;
        free = s.free;
        apart = ap (λ k. Chain.has k ys) r.no_data ∙ s.blocks.real;
        on_disk = λ q h e.
            subst (λ (b : Lfiblk). l.disk.dblocks (b.ib_dba (q / 512)) (q % 512) ≡ nth xs q)
              (sym block) (s.on_disk q h refl);
        in_memory = λ q h.
            subst
              (λ (b : Lfiblk).
                (b.ib_dba (q / 512) == g.lfdnum) ≡ true → g.lfdblock (q % 512) ≡ nth xs q)
              (sym block)
              (λ e.
                let given = s.blocks.given (q / 512) (omega arith) in
                let none_there = r.no_data in absurd (ground arith));
      };
    }

closed-Fresh :
    (f g : Lflcblk) (l l1 : Lfs) (xs : Bytes) (ys : List ℕ)
    → Fresh f l xs ys
    → f.lfdbdirty ≡ false
    → f.lfibdirty ≡ false
    → Flushed f l l1
    → g.lfdirptr ≡ f.lfdirptr
    → Fresh g l1 xs ys
closed-Fresh f g l l1 xs ys h clean index_clean w e = record {
  nothing = h.nothing;
  no_index =
      ap (λ k. (l1.lf_dir.lfd_files k).ld_ilist == lf_inull) e
      ∙ ap (λ d. (d.lfd_files f.lfdirptr).ld_ilist == lf_inull) w.dir
      ∙ h.no_index;
  spare = ap (λ d. d.lfd_ifree == lf_inull) w.dir ∙ h.spare;
  apart_next =
      ap (λ d. d.lfd_ifree == (l1.disk.iblocks d.lfd_ifree).ib_next) w.dir
      ∙ ap (λ (b : Lfiblk). l.lf_dir.lfd_ifree == b.ib_next)
          (w.index_blocks l.lf_dir.lfd_ifree
            ∙ ap
                (λ b.
                  if b && (l.lf_dir.lfd_ifree == f.lfinum)
                  then f.lfiblock
                  else l.disk.iblocks l.lf_dir.lfd_ifree)
                index_clean)
      ∙ h.apart_next;
  free =
      subst (λ d. Free l1.disk.dblocks d.lfd_dfree ys) (sym w.dir)
        (Free-frame l.disk.dblocks l1.disk.dblocks l.lf_dir.lfd_dfree ys
          (λ k o.
            w.data_blocks k
            ∙ ap (λ b. if b && (k == f.lfdnum) then f.lfdblock else l.disk.dblocks k) clean)
          h.free);
  distinct = h.distinct;
  real = h.real;
  enough = h.enough;
  within = h.within;
}

-- As far as the index block is read from the disk, nothing is to be flushed.
closed-Indexed :
    (f g : Lflcblk) (l l1 : Lfs) (xs : Bytes) (ys : List ℕ)
    → Indexed f l xs ys
    → f.lfdbdirty ≡ false
    → f.lfibdirty ≡ false
    → Flushed f l l1
    → Reopened f.lfdirptr g
    → Indexed g l1 xs ys
unfolding lfibget
closed-Indexed f g l l1 xs ys h clean index_clean w r =
    let f1 : Lflcblk = get_index (l.lf_dir.lfd_files f.lfdirptr).ld_ilist f l in
    let w1 : Flushed f1 l l1 = record {
      dir = w.dir;
      data_blocks = w.data_blocks;
      index_blocks = λ k.
          w.index_blocks k
          ∙ ap (λ b. if b && (k == f.lfinum) then f.lfiblock else l.disk.iblocks k) index_clean
          ∙ sym (
              ap (λ b. if b && (k == f1.lfinum) then f1.lfiblock else l.disk.iblocks k)
                index_clean);
    } in
    clean-Indexed f1 g l1 xs ys (Flushed-Stored f1 l l1 xs ys w1 h.stored) r

pub closed_blocks :
    (f g : Lflcblk) (l l1 : Lfs) (xs : Bytes) (ys : List ℕ)
    → Opened f l xs ys ⊎ Stored f l xs ys
    → Flushed f l l1
    → Reopened f.lfdirptr g
    → Fresh g l1 xs ys ⊎ Indexed g l1 xs ys
closed_blocks f g l l1 xs ys (inr s) w r =
    inr (clean-Indexed f g l1 xs ys (Flushed-Stored f l l1 xs ys w s) r)
closed_blocks f g l l1 xs ys (inl o) w r = elim o.blocks [
  | inl b ↦ inl (closed-Fresh f g l l1 xs ys b o.data_clean o.index_clean w r.entry)
  | inr b ↦ inr (closed-Indexed f g l l1 xs ys b o.data_clean o.index_clean w r)
]
