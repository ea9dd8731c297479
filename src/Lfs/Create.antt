-- ===== src/Lfs/Create.antt =====
-- device/lfs/lfsinit.c, lflinit.c, lfscreate.c and lfsckfmt.c
use ece564_project.Prelude.{
  ℕ, zero, suc, ◌+◌, ◌-◌, ◌*◌, ◌/◌, ◌%◌, ◌^◌, Bool, true, false, ◌||◌, ltb, ◌==◌, if◌then◌else◌,
  Option, some, none,
}
use ece564_project.Prelude.Int.{pos, negsuc, ltb_ℤ}
use ece564_project.Lfs.File.{Lflcblk}
use ece564_project.Lfs.Disk.{
  lf_blksiz, lf_inull, lf_dnull, lfs_id, Lfiblk, Lfdir, Lfs, write_block, lfibget, lfibput,
  lfibclear, nextdb, with_nextdb, lfscheck,
}

unfoldable pub lfsinit : Lfs → Lfs
lfsinit l = record l {
  lf_dskdev = negsuc 0;
  lf_dir = record {
    lfd_fsysid = 0;
    lfd_allzeros = 0;
    lfd_allones = 0;
    lfd_dfree = 0;
    lfd_ifree = 0;
    lfd_nfiles = 0;
    lfd_files = λ k. record { ld_size = 0; ld_ilist = 0; ld_name = λ i. 0 };
    lfd_revid = 0;
  };
  lf_dirpresent = false;
  lf_dirdirty = false;
}

-- The null pointer to an entry of the directory is the index 0, which is not read before the file is
-- open; the mode is not set.
unfoldable pub lflinit : ℕ → ℕ → Lflcblk
lflinit dev mode = record {
  lf_used = false;
  lfdev = dev;
  lfmode = mode;
  lfname = λ i. 0;
  lfdirptr = 0;
  lfpos = 0;
  lfinum = lf_inull;
  lfiblock = record { ib_next = 0; ib_offset = 0; ib_dba = λ i. 0 };
  lfdnum = 0;
  lfdblock = λ i. 0;
  lfbyte = lf_blksiz;
  lfibdirty = false;
  lfdbdirty = false;
}

-- The directory of an empty file system; `dbindex` is the first data block.
abbrev pub new_dir : ℕ → Lfdir
new_dir dbindex = record {
  lfd_fsysid = lfs_id;
  lfd_allzeros = 0;
  lfd_allones = 2 ^ 32 - 1;
  lfd_dfree = dbindex;
  lfd_ifree = 0;
  lfd_nfiles = 0;
  lfd_files = λ k. record { ld_size = 0; ld_ilist = 0; ld_name = λ i. 0 };
  lfd_revid =
      lfs_id / 16777216 % 256
      + lfs_id / 65536 % 256 * 256
      + lfs_id / 256 % 256 * 65536
      + lfs_id % 256 * 16777216;
}

-- The list of the free index blocks from `i` on; `n` and the last are left.
unfoldable pub make_iblocks : ℕ → ℕ → Lfiblk → Lfs → Lfs
make_iblocks zero i ib l = lfibput i (record ib { ib_next = lf_inull }) l
make_iblocks (suc n) i ib l =
    make_iblocks n (i + 1) ib (lfibput i (record ib { ib_next = i + 1 }) l)

-- The list of the free data blocks from `d` on.
unfoldable pub make_dblocks : ℕ → ℕ → Lfs → Lfs
make_dblocks zero d l = write_block d (with_nextdb lf_dnull (λ i. 0)) l
make_dblocks (suc n) d l = make_dblocks n (d + 1) (write_block d (with_nextdb (d + 1) (λ i. 0)) l)

-- `junk` is what the index block on the stack holds before it is cleared; closing the disk is left
-- out. False is SYSERR.
unfoldable pub lfscreate : Bool → ℕ → ℕ → ℕ → Lfiblk → Lfs → Lfs × Bool
lfscreate bad_dev disk_id lfiblks dsiz junk l =
    let l1 : Lfs = record l { lf_dskdev = pos disk_id } in
    let sectors : ℕ = dsiz / lf_blksiz in
    let ibsectors : ℕ = (lfiblks + 6) / 7 in
    let dbindex : ℕ = ibsectors + 1 in
    let dblks : ℕ = (sectors + 2 ^ 32 - ibsectors - 1) % 2 ^ 32 in
    let l2 : Lfs = record l1 { disk = record l1.disk { directory = new_dir dbindex } } in
    if bad_dev || (if ltb_ℤ l.lf_dskdev (pos 0) then false else true)
    then (l, false)
    else if ltb (sectors / 2) ibsectors
    then (l1, false)
    else (
      make_dblocks ((dblks + 2 ^ 32 - 1) % 2 ^ 32) dbindex
          (make_iblocks (ibsectors * 7 - 1) 0 (lfibclear 0 junk) l2),
      true,
    )

abbrev pub plus_one : Option ℕ → Option ℕ
plus_one none = none
plus_one (some n) = some (n + 1)

unfoldable pub count_iblocks : ℕ → ℕ → Lfs → Option ℕ
count_iblocks zero nextib l = none
count_iblocks (suc fuel) nextib l =
    let rest = count_iblocks fuel (lfibget nextib l).ib_next l in
    if nextib == lf_inull then some 0 else plus_one rest

unfoldable pub count_dblocks : ℕ → ℕ → Lfs → Option ℕ
count_dblocks zero next l = none
count_dblocks (suc fuel) next l =
    let rest = count_dblocks fuel (nextdb (l.disk.dblocks next)) l in
    if next == lf_dnull then some 0 else plus_one rest

-- The numbers of index blocks and data blocks that it prints; a panic is `none`.
unfoldable pub lfsckfmt : ℕ → Lfs → Option (ℕ × ℕ)
lfsckfmt fuel l =
    if lfscheck l.disk.directory
    then elim (count_iblocks fuel l.disk.directory.lfd_ifree l) [
      | none ↦ none
      | some n ↦ elim (count_dblocks fuel l.disk.directory.lfd_dfree l) [
        | none ↦ none
        | some m ↦ some (n, m)
      ]
    ]
    else none
