-- ===== src/Lfs/File.antt =====
-- device/lfs/lfflush.c and lftruncate.c, on an open file; a pointer to an entry of the directory is
-- its index, and lfbyte is an index into lfdblock.
use ece564_project.Prelude.{
  ℕ, zero, suc, ◌+◌, Bool, true, false, ◌||◌, ltb, ◌==◌, if◌then◌else◌, Option, some, none,
}
use ece564_project.Lfs.Disk.{
  lf_blksiz, lf_inull, lf_dnull, lf_iblen, Lfiblk, Ldentry, Lfs, write_dir, write_block, lfibget,
  lfibput, lfdbfree,
}

-- struct lflcblk, without its semaphore
pub record Lflcblk : Type 0 where
  pub lf_used : Bool
  pub lfdev : ℕ
  pub lfmode : ℕ
  pub lfname : ℕ → ℕ
  pub lfdirptr : ℕ
  pub lfpos : ℕ
  pub lfinum : ℕ
  pub lfiblock : Lfiblk
  pub lfdnum : ℕ
  pub lfdblock : ℕ → ℕ
  pub lfbyte : ℕ
  pub lfibdirty : Bool
  pub lfdbdirty : Bool

abbrev pub flush_dir : Lfs → Lfs
flush_dir l = if l.lf_dirdirty then record (write_dir l) { lf_dirdirty = false } else l

abbrev pub flush_data : Lflcblk → Lfs → Lfs
flush_data f l = if f.lfdbdirty then write_block f.lfdnum f.lfdblock l else l

abbrev pub flush_index : Lflcblk → Lfs → Lfs
flush_index f l = if f.lfibdirty then lfibput f.lfinum f.lfiblock l else l

-- False is SYSERR.
unfoldable pub lfflush : Lflcblk → Lfs → Lfs × Lflcblk × Bool
lfflush f l =
    if f.lf_used
    then (
      flush_index f (flush_data f (flush_dir l)),
      record f { lfdbdirty = false; lfibdirty = false },
      true,
    )
    else (l, f, false)

-- The data blocks of an index block from the index `i` on; `n` are left.
unfoldable pub free_blocks : ℕ → ℕ → (ℕ → ℕ → ℕ) → (ℕ → ℕ) → Lfs → Lfs
free_blocks zero i junk dba l = l
free_blocks (suc n) i junk dba l =
    free_blocks n (i + 1) junk dba
      (if dba i == lf_dnull then l else lfdbfree (junk (dba i)) (dba i) l)

-- The block that goes back to the disk.
abbrev pub cleared : ℕ → Lfiblk → Lfiblk
cleared ifree ib = record ib {
  ib_dba = λ i. if ltb i lf_iblen then lf_dnull else ib.ib_dba i;
  ib_offset = 0;
  ib_next = if ib.ib_next == lf_inull then ifree else ib.ib_next;
}

-- A round of the walk along the file's index blocks.
unfoldable pub free_index : ℕ → ℕ → (ℕ → ℕ → ℕ) → Lfs → Lfs
free_index ifree ib junk l =
    lfibput ib (cleared ifree (lfibget ib l)) (free_blocks lf_iblen 0 junk (lfibget ib l).ib_dba l)

-- for (nextib=firstib; nextib!=ifree; nextib=iblock.ib_next)
unfoldable pub walk_index : ℕ → ℕ → ℕ → (ℕ → ℕ → ℕ) → Lfs → Option Lfs
walk_index zero ifree nextib junk l = none
walk_index (suc fuel) ifree nextib junk l =
    let rest =
      walk_index fuel ifree (cleared ifree (lfibget nextib l)).ib_next junk
        (free_index ifree nextib junk l) in
    if nextib == ifree then some l else rest

abbrev pub set_entry : ℕ → Ldentry → Lfs → Lfs
set_entry i e l = record l {
  lf_dir = record l.lf_dir { lfd_files = λ k. if k == i then e else l.lf_dir.lfd_files k };
  lf_dirdirty = true;
}

abbrev pub set_ifree : ℕ → Option Lfs → Option Lfs
set_ifree ib none = none
set_ifree ib (some l) =
    some (record l { lf_dir = record l.lf_dir { lfd_ifree = ib }; lf_dirdirty = true })

-- What is written before the file's blocks go.
abbrev pub clean_up : Lflcblk → Lfs → Lfs × Lflcblk
clean_up f l =
    if f.lfibdirty || f.lfdbdirty then (let (l', f', ok) = lfflush f l in (l', f')) else (l, f)

abbrev pub rewound : Lflcblk → Lflcblk
rewound f = record f { lfpos = 0; lfinum = lf_inull; lfdnum = lf_dnull; lfbyte = lf_blksiz }

abbrev pub with_file : Lflcblk → Option Lfs → Option (Lfs × Lflcblk)
with_file f none = none
with_file f (some l) = some (l, f)

unfoldable pub lftruncate : ℕ → (ℕ → ℕ → ℕ) → Lflcblk → Lfs → Option (Lfs × Lflcblk)
lftruncate fuel junk f l =
    let entry : Ldentry = l.lf_dir.lfd_files f.lfdirptr in
    let (l1, f1) = clean_up f l in
    if entry.ld_size == 0
    then some (l, f)
    else with_file (rewound f1) (
        set_ifree entry.ld_ilist (
          walk_index fuel l1.lf_dir.lfd_ifree entry.ld_ilist junk
            (set_entry f.lfdirptr (record entry { ld_ilist = lf_inull; ld_size = 0 }) l1)))
