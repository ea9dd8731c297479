-- ===== src/Lfs/NewFile.antt =====
-- device/lfs/lfsopen.c for a file that the directory does not have yet, and the calls that follow.
use ece564_project.Prelude.{
  ℕ, zero, suc, ◌+◌, ◌-◌, ◌*◌, ◌/◌, ◌%◌, ◌^◌, ◌≤◌, ◌<◌, ◌≡◌, refl, ap, ◌∙◌, true, false, ltb, ◌==◌,
  if◌then◌else◌, inl, some, none, List, arith,
}
use ece564_project.Prelude.Int.{pos, ltb_ℤ}
use ece564_project.Lfs.Disk.{lf_inull, lf_dnull, Lfiblk, Lfdir, Lfs, lfscheck}
use ece564_project.Lfs.File.{Lflcblk}
use ece564_project.Lfs.Open.{
  has_bit, lfgetmode, ends_within, search_table, load_dir, find_file, add_file, open_block,
  open_file, with_entry, with_mode, lfsopen,
}
use ece564_project.Lfs.Stream.{failed}
use ece564_project.Lfs.Create.{new_dir, lfscreate}
use ece564_project.Lfs.Contents.{Request, added_all, answers, calls}
use ece564_project.Lfs.Chains.{Linked}
use ece564_project.Lfs.Cut.{no_contents}
use ece564_project.Lfs.Models.{Models}
use ece564_project.Lfs.Refine.{calls-answers}
use ece564_project.Lfs.Formatted.{upto, length-upto, has-upto, has-upto_above, upto-Distinct}
use ece564_project.Lfs.Empty.{sectors_of, ibsectors_of, Empty, new_dir_checked, lfscreate-Empty}

-- The directory of the empty file system is in memory.
abbrev loaded_dir : ℕ → Lfs → Lfs
loaded_dir d l = record l { lf_dir = new_dir d; lf_dirpresent = true }

load_dir-Empty :
    (disk_id n m d : ℕ) (old l : Lfs)
    → Empty disk_id n m d old l
    → old.lf_dirpresent ≡ false
    → load_dir l ≡ (loaded_dir d l, true)
unfolding load_dir
load_dir-Empty disk_id n m d old l e absent =
    let gone : l.lf_dirpresent ≡ false = e.present ∙ absent in
    let check : lfscheck l.disk.directory ≡ true =
      ap (λ dir. lfscheck dir) e.made ∙ new_dir_checked d in
    ap
      (λ b.
        if b
        then (l, true)
        else if lfscheck l.disk.directory
        then (record l { lf_dir = l.disk.directory; lf_dirpresent = true }, true)
        else (record l { lf_dir = l.disk.directory }, false))
      gone
    ∙ ap
        (λ b.
          if b
          then (record l { lf_dir = l.disk.directory; lf_dirpresent = true }, true)
          else (record l { lf_dir = l.disk.directory }, false))
        check
    ∙ ap (λ (dir : Lfdir). (record l { lf_dir = dir; lf_dirpresent = true }, true)) e.made

abbrev pub opened_table : (ℕ → ℕ) → ℕ → ℕ → (ℕ → Lflcblk) → ℕ → Lflcblk
opened_table name mbits next tab k = if k == next then open_block name mbits 0 (tab next) else tab k

open_file-Empty :
    (name : ℕ → ℕ) (mbits next d : ℕ) (tab : ℕ → Lflcblk) (l : Lfs)
    → has_bit 8 mbits ≡ false
    → open_file name mbits next tab (loaded_dir d l, true)
      ≡ (add_file name (loaded_dir d l), opened_table name mbits next tab, pos (tab next).lfdev)
unfolding open_file find_file
open_file-Empty name mbits next d tab l mode = rw mode refl

lfsopen-Empty :
    (disk_id n m d nlfl next mbits : ℕ) (name mode : ℕ → ℕ) (tab : ℕ → Lflcblk) (old l : Lfs)
    → Empty disk_id n m d old l
    → old.lf_dirpresent ≡ false
    → ends_within 16 0 name ≡ true
    → lfgetmode mode ≡ pos mbits
    → has_bit 8 mbits ≡ false
    → search_table nlfl 0 name tab none ≡ some (some next)
    → lfsopen nlfl name mode tab l
      ≡ (add_file name (loaded_dir d l), opened_table name mbits next tab, pos (tab next).lfdev)
unfolding lfsopen
lfsopen-Empty disk_id n m d nlfl next mbits name mode tab old l e absent short parsed fresh found =
    let chosen : ltb_ℤ l.lf_dskdev (pos 0) ≡ false =
      ap (λ z. ltb_ℤ z (pos 0)) e.selected
      ∙ (let some_disk : ltb (disk_id + 0) 0 ≡ false = ground arith in some_disk) in
    ap
      (λ b.
        if b
        then (l, tab, failed)
        else if ends_within 16 0 name
        then with_mode nlfl name tab l (lfgetmode mode)
        else (l, tab, failed))
      chosen
    ∙ ap (λ b. if b then with_mode nlfl name tab l (lfgetmode mode) else (l, tab, failed)) short
    ∙ ap (with_mode nlfl name tab l) parsed
    ∙ ap (with_entry name mbits tab l) found
    ∙ ap (open_file name mbits next tab) (load_dir-Empty disk_id n m d old l e absent)
    ∙ open_file-Empty name mbits next d tab l fresh

first_apart :
    (n : ℕ) (t : ℕ → Lfiblk) → 0 < n → Linked t 0 (upto n 0) lf_inull → (0 == (t 0).ib_next) ≡ false
first_apart zero t h c = absurd (omega arith)
first_apart (suc zero) t h c = ap (λ k. 0 == k) c.1
first_apart (suc (suc n)) t h c = ap (λ k. 0 == k) c.1.0

new_file-Models :
    (disk_id n m d mbits : ℕ) (name : ℕ → ℕ) (f : Lflcblk) (old l : Lfs)
    → Empty disk_id n m d old l
    → 0 < n
    → 16 ≤ m
    → d + m ≤ 4294967295
    → Models (open_block name mbits 0 f) (add_file name (loaded_dir d l)) no_contents (upto m d)
unfolding open_block add_file
new_file-Models disk_id n m d mbits name f old l e some_blocks room small =
    let len = length-upto m d in
    record {
      used = refl;
      size = refl;
      fits = omega arith;
      held = inl (record {
        used = refl;
        size = refl;
        no_block = refl;
        no_data = refl;
        data_clean = refl;
        index_clean = refl;
        out = refl;
        blocks = inl (record {
          nothing = refl;
          no_index = refl;
          spare = refl;
          apart_next = first_apart n l.disk.iblocks some_blocks e.index_free;
          free = e.data_free;
          distinct = upto-Distinct m d;
          real = has-upto_above m d lf_dnull small;
          enough = omega arith;
          within = λ k h. let below = has-upto m d k h in omega arith;
        });
      });
      position = refl;
      near = omega arith;
      pointer = λ k. absurd (omega arith);
    }

pub opened_mode :
    (name : ℕ → ℕ) (mbits next i : ℕ) (tab : ℕ → Lflcblk)
    → (if next == next then open_block name mbits i (tab next) else tab next).lfmode ≡ mbits % 4
unfolding open_block
opened_mode name mbits next i tab = let here : (next == next) ≡ true = ground arith in rw here refl

-- On a disk of `dsiz` bytes, while no disk is selected and no directory is in memory, lfscreate for
-- at least one index block, whose sectors are at most half of those of the disk and leave sixteen
-- for data; then lfsopen of a name of at most 15 characters that is not open, in a mode that does
-- not ask for an old file, while an entry of the table is free: both succeed, the file's lfmode
-- gets the read and write bits of the mode, and every call of a sequence of lflputc, lflgetc,
-- lflseek, lflwrite, lflread and lflcontrol, for truncation, that writes at most 8192 bytes in all
-- returns what the same operation returns on a sequence of bytes that is empty at first. This
-- holds for each such mode, since none of these functions reads lfmode: they write to a file that
-- is opened with "r" and read from one that is opened with "w", although include/file.h calls these
-- bits grants of access.
pub lfsopen-answers :
    (disk_id lfiblks dsiz : ℕ) (junk : Lfiblk) (l : Lfs) (nlfl next mbits : ℕ) (name mode : ℕ → ℕ)
    (tab : ℕ → Lflcblk) (fuel : ℕ) (rs : List Request)
    → ltb_ℤ l.lf_dskdev (pos 0) ≡ true
    → l.lf_dirpresent ≡ false
    → 0 < lfiblks
    → (lfiblks + 6) / 7 ≤ dsiz / 512 / 2
    → (lfiblks + 6) / 7 + 17 ≤ dsiz / 512
    → dsiz < 2 ^ 32
    → ends_within 16 0 name ≡ true
    → lfgetmode mode ≡ pos mbits
    → has_bit 8 mbits ≡ false
    → search_table nlfl 0 name tab none ≡ some (some next)
    → added_all rs ≤ 8192
    → (l1 : Lfs) × (l2 : Lfs) × (tab2 : ℕ → Lflcblk) × (lfscreate false disk_id lfiblks dsiz junk l
        ≡ (l1, true))
      × (lfsopen nlfl name mode tab l1 ≡ (l2, tab2, pos (tab next).lfdev))
      × ((tab2 next).lfmode ≡ mbits % 4)
      × (calls (suc (suc fuel)) rs (tab2 next) l2 ≡ some (answers rs no_contents))
lfsopen-answers disk_id lfiblks dsiz junk l nlfl next mbits name mode tab fuel rs unset absent
      some_blocks half room small short parsed fresh found bounded =
    let k : ℕ = ibsectors_of lfiblks in
    let m : ℕ = sectors_of dsiz - k - 1 in
    let (l1, runs, e) =
      lfscreate-Empty disk_id lfiblks dsiz junk l unset some_blocks half (omega arith) small in
    let l2 : Lfs = add_file name (loaded_dir (k + 1) l1) in
    let here : (next == next) ≡ true = ground arith in
    (
      l1,
      l2,
      opened_table name mbits next tab,
      runs,
      lfsopen-Empty disk_id (k * 7) m (k + 1) nlfl next mbits name mode tab l l1 e absent short
          parsed fresh found,
      opened_mode name mbits next 0 tab,
      ap
            (λ b.
              calls (suc (suc fuel)) rs (if b then open_block name mbits 0 (tab next) else tab next)
                l2)
            here
          ∙ calls-answers fuel rs (open_block name mbits 0 (tab next)) l2 no_contents
              (upto m (k + 1))
              (new_file-Models disk_id (k * 7) m (k + 1) mbits name (tab next) l l1 e (omega arith)
                (omega arith) (omega arith))
              (omega arith),
    )
