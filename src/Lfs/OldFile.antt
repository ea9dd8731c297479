-- ===== src/Lfs/OldFile.antt =====
-- A file that is closed and opened again, device/lfs/lflclose.c and lfsopen.c.
use ece564_project.Prelude.{
  ℕ, suc, ◌+◌, ◌%◌, ◌≤◌, ◌≡◌, refl, ap, ◌∙◌, true, false, ◌==◌, if◌then◌else◌, inl, some, none,
  List, length, arith,
}
use ece564_project.Prelude.Int.{pos, ltb_ℤ}
use ece564_project.Lfs.Disk.{Lfs, lfibput, lfscheck}
use ece564_project.Lfs.File.{Lflcblk, lfflush}
use ece564_project.Lfs.Stream.{failed, lflclose}
use ece564_project.Lfs.Open.{
  has_bit, lfgetmode, ends_within, search_table, load_dir, find_file, open_block, open_found,
  open_file, with_entry, with_mode, lfsopen,
}
use ece564_project.Lfs.Contents.{Contents, Request, added_all, answers, calls}
use ece564_project.Lfs.Models.{Models}
use ece564_project.Lfs.Refine.{calls-answers}
use ece564_project.Lfs.NewFile.{opened_mode}
use ece564_project.Lfs.Reopened.{
  lflclose-dir, lflclose-Flushed, Reopened, open_block-Reopened, closed_blocks,
}

lflclose-disk :
    (f : Lflcblk) (l : Lfs)
    → ((lflclose f l).0.lf_dskdev ≡ l.lf_dskdev)
      × ((lflclose f l).0.lf_dirpresent ≡ l.lf_dirpresent)
unfolding lflclose lfflush lfibput
lflclose-disk f l = ground arith

lflclose_ok : (f : Lflcblk) (l : Lfs) → f.lf_used ≡ true → (lflclose f l).2 ≡ true
unfolding lflclose
lflclose_ok f l used = ground arith

-- The table with the entry of the file closed.
abbrev pub closed_table : ℕ → Lflcblk → Lfs → (ℕ → Lflcblk) → ℕ → Lflcblk
closed_table k f l tab j = if j == k then (lflclose f l).1 else tab j

abbrev entered : (ℕ → ℕ) → ℕ → ℕ → ℕ → (ℕ → Lflcblk) → ℕ → Lflcblk
entered name mbits i next tab k = if k == next then open_block name mbits i (tab next) else tab k

open_file_found :
    (name : ℕ → ℕ) (mbits next i : ℕ) (tab : ℕ → Lflcblk) (l : Lfs)
    → has_bit 4 mbits ≡ false
    → find_file l.lf_dir.lfd_nfiles 0 name l.lf_dir.lfd_files ≡ some i
    → open_file name mbits next tab (l, true)
      ≡ (l, entered name mbits i next tab, pos (tab next).lfdev)
unfolding open_file
open_file_found name mbits next i tab l mode found =
    ap (open_found name mbits next tab l) found ∙ rw mode refl

present_dir : (l : Lfs) → l.lf_dirpresent ≡ true → load_dir l ≡ (l, true)
unfolding load_dir
present_dir l h =
    ap
      (λ b.
        if b
        then (l, true)
        else if lfscheck l.disk.directory
        then (record l { lf_dir = l.disk.directory; lf_dirpresent = true }, true)
        else (record l { lf_dir = l.disk.directory }, false))
      h

lfsopen_found :
    (nlfl next mbits i : ℕ) (name mode : ℕ → ℕ) (tab : ℕ → Lflcblk) (l : Lfs)
    → ltb_ℤ l.lf_dskdev (pos 0) ≡ false
    → l.lf_dirpresent ≡ true
    → ends_within 16 0 name ≡ true
    → lfgetmode mode ≡ pos mbits
    → has_bit 4 mbits ≡ false
    → find_file l.lf_dir.lfd_nfiles 0 name l.lf_dir.lfd_files ≡ some i
    → search_table nlfl 0 name tab none ≡ some (some next)
    → lfsopen nlfl name mode tab l ≡ (l, entered name mbits i next tab, pos (tab next).lfdev)
unfolding lfsopen
lfsopen_found nlfl next mbits i name mode tab l chosen present short parsed old found free_entry =
    ap
      (λ b.
        if b
        then (l, tab, failed)
        else if ends_within 16 0 name
        then with_mode nlfl name tab l (lfgetmode mode)
        else (l, tab, failed))
      chosen
    ∙ ap (λ b. if b then with_mode nlfl name tab l (lfgetmode mode) else (l, tab, failed)) short
    ∙ ap (with_mode nlfl name tab l) parsed
    ∙ ap (with_entry name mbits tab l) free_entry
    ∙ ap (open_file name mbits next tab) (present_dir l present)
    ∙ open_file_found name mbits next i tab l old found

reopened-Models :
    (name : ℕ → ℕ) (mbits : ℕ) (f g : Lflcblk) (l : Lfs) (c : Contents) (ys : List ℕ)
    → Models f l c ys
    → Models (open_block name mbits f.lfdirptr g) (lflclose f l).0 (record c { at = 0 }) ys
unfolding open_block
reopened-Models name mbits f g l c ys m =
    let r : Reopened f.lfdirptr (open_block name mbits f.lfdirptr g) =
      open_block-Reopened name mbits f.lfdirptr g in
    let size = ap (λ d. (d.lfd_files f.lfdirptr).ld_size) (lflclose-dir f l) ∙ m.size in
    record {
      used = refl;
      size = size;
      fits = m.fits;
      held = inl (record {
        used = refl;
        size = size;
        no_block = refl;
        no_data = refl;
        data_clean = refl;
        index_clean = refl;
        out = refl;
        blocks =
            closed_blocks f (open_block name mbits f.lfdirptr g) l (lflclose f l).0 c.bytes ys
              m.held (lflclose-Flushed f l m.used) r;
      });
      position = refl;
      near = omega arith;
      pointer = λ k. absurd (omega arith);
    }

-- An open file of at most one index block stands for a sequence of bytes, as Models says, and the
-- directory, which is in memory, has it under a name of at most 15 characters. It is closed, and
-- that is OK; then lfsopen of the name, in a mode that does not ask for a new file, while no other
-- entry of the table has it and one is free, succeeds, and lfmode gets the read and write bits of
-- the mode; and every call of a sequence of calls returns what the same operation returns on the
-- bytes of the file, from the first on, if these and the bytes that are written are at most 8192.
-- This holds for each such mode, since no call reads lfmode: a file that is opened with "r" can be
-- written, and one that is opened with "w" can be read, although include/file.h calls these bits
-- grants of access.
pub lflclose-lfsopen :
    (f : Lflcblk) (l : Lfs) (c : Contents) (ys : List ℕ) (nlfl k next mbits : ℕ) (name mode : ℕ → ℕ)
    (tab : ℕ → Lflcblk) (fuel : ℕ) (rs : List Request)
    → Models f l c ys
    → ltb_ℤ l.lf_dskdev (pos 0) ≡ false
    → l.lf_dirpresent ≡ true
    → ends_within 16 0 name ≡ true
    → lfgetmode mode ≡ pos mbits
    → has_bit 4 mbits ≡ false
    → find_file l.lf_dir.lfd_nfiles 0 name l.lf_dir.lfd_files ≡ some f.lfdirptr
    → search_table nlfl 0 name (closed_table k f l tab) none ≡ some (some next)
    → length c.bytes + added_all rs ≤ 8192
    → (tab2 : ℕ → Lflcblk) × ((lflclose f l).2 ≡ true)
      × (lfsopen nlfl name mode (closed_table k f l tab) (lflclose f l).0
          ≡ ((lflclose f l).0, tab2, pos (closed_table k f l tab next).lfdev))
      × ((tab2 next).lfmode ≡ mbits % 4)
      × (calls (suc (suc fuel)) rs (tab2 next) (lflclose f l).0
          ≡ some (answers rs (record c { at = 0 })))
lflclose-lfsopen f l c ys nlfl k next mbits name mode tab fuel rs m chosen present short parsed old
      found free_entry bounded =
    let l1 : Lfs = (lflclose f l).0 in
    let tab1 : ℕ → Lflcblk = closed_table k f l tab in
    let (disk, dir) = lflclose-disk f l in
    let here : (next == next) ≡ true = ground arith in
    (
      entered name mbits f.lfdirptr next tab1,
      lflclose_ok f l m.used,
      lfsopen_found nlfl next mbits f.lfdirptr name mode tab1 l1
          (ap (λ z. ltb_ℤ z (pos 0)) disk ∙ chosen) (dir ∙ present) short parsed old
          (ap (λ d. find_file d.lfd_nfiles 0 name d.lfd_files) (lflclose-dir f l) ∙ found)
          free_entry,
      opened_mode name mbits next f.lfdirptr tab1,
      ap
            (λ b.
              calls (suc (suc fuel)) rs
                (if b then open_block name mbits f.lfdirptr (tab1 next) else tab1 next) l1)
            here
          ∙ calls-answers fuel rs (open_block name mbits f.lfdirptr (tab1 next)) l1
              (record c { at = 0 }) ys (reopened-Models name mbits f (tab1 next) l c ys m) bounded,
    )
