-- ===== src/Lfs/Disk.antt =====
-- include/lfilesys.h and the functions of device/lfs that work on the blocks of the disk. The disk's
-- sectors are a directory, the index blocks, seven to a sector, and the data blocks; the index
-- blocks are kept by their numbers and the data blocks by their sectors. Reads and writes of the
-- disk succeed, as those of device/ram do.
use ece564_project.Prelude.{
  ℕ, ◌+◌, ◌-◌, ◌*◌, ◌/◌, ◌%◌, ◌^◌, Bool, false, ◌&&◌, ltb, ◌==◌, if◌then◌else◌, Option, some, none,
}
use ece564_project.Prelude.Int.{ℤ}

abbrev pub lf_blksiz : ℕ
lf_blksiz = 512

abbrev pub lf_inull : ℕ
lf_inull = 2 ^ 32 - 1

abbrev pub lf_dnull : ℕ
lf_dnull = 2 ^ 32 - 1

abbrev pub lf_iblen : ℕ
lf_iblen = 16

abbrev pub lfs_id : ℕ
lfs_id = 1483304565

-- struct lfiblk
pub record Lfiblk : Type 0 where
  pub ib_next : ℕ
  pub ib_offset : ℕ
  pub ib_dba : ℕ → ℕ

-- struct ldentry
pub record Ldentry : Type 0 where
  pub ld_size : ℕ
  pub ld_ilist : ℕ
  pub ld_name : ℕ → ℕ

-- struct lfdir, without the version; lfd_nfiles is not negative.
pub record Lfdir : Type 0 where
  pub lfd_fsysid : ℕ
  pub lfd_allzeros : ℕ
  pub lfd_allones : ℕ
  pub lfd_dfree : ℕ
  pub lfd_ifree : ℕ
  pub lfd_nfiles : ℕ
  pub lfd_files : ℕ → Ldentry
  pub lfd_revid : ℕ

-- The directory, the index blocks and the bytes of the data blocks on the disk.
pub record Disk : Type 0 where
  pub directory : Lfdir
  pub iblocks : ℕ → Lfiblk
  pub dblocks : ℕ → ℕ → ℕ

-- struct lfdata, without its semaphore, with the disk that lf_dskdev names
pub record Lfs : Type 0 where
  pub lf_dskdev : ℤ
  pub lf_dirpresent : Bool
  pub lf_dir : Lfdir
  pub lf_dirdirty : Bool
  pub disk : Disk

-- write(lf_dskdev, &lf_dir, LF_AREA_DIR)
abbrev pub write_dir : Lfs → Lfs
write_dir l = record l { disk = record l.disk { directory = l.lf_dir } }

abbrev pub write_block : ℕ → (ℕ → ℕ) → Lfs → Lfs
write_block dnum bytes l = record l {
  disk = record l.disk { dblocks = λ k. if k == dnum then bytes else l.disk.dblocks k };
}

unfoldable pub lfibget : ℕ → Lfs → Lfiblk
lfibget inum l = l.disk.iblocks inum

unfoldable pub lfibput : ℕ → Lfiblk → Lfs → Lfs
lfibput inum ib l = record l {
  disk = record l.disk { iblocks = λ k. if k == inum then ib else l.disk.iblocks k };
}

unfoldable pub lfibclear : ℕ → Lfiblk → Lfiblk
lfibclear offset ib = record ib {
  ib_offset = offset;
  ib_dba = λ i. if ltb i lf_iblen then lf_dnull else ib.ib_dba i;
  ib_next = lf_inull;
}

-- The panic that there is no block left, which does not return, is `none`.
unfoldable pub lfiballoc : Lfs → Option (Lfs × ℕ)
lfiballoc l =
    let ibnum : ℕ = l.lf_dir.lfd_ifree in
    let next : ℕ = (lfibget ibnum l).ib_next in
    if ibnum == lf_inull
    then none
    else some (
      record (write_dir (record l { lf_dir = record l.lf_dir { lfd_ifree = next } })) {
        lf_dirdirty = false;
      },
      ibnum,
    )

-- lf_nextdb: the first four bytes of a free data block, the low one first
abbrev pub nextdb : (ℕ → ℕ) → ℕ
nextdb b = b 0 + b 1 * 256 + b 2 * 65536 + b 3 * 16777216

abbrev pub with_nextdb : ℕ → (ℕ → ℕ) → ℕ → ℕ
with_nextdb n b i =
    if i == 0
    then n % 256
    else if i == 1
    then n / 256 % 256
    else if i == 2
    then n / 65536 % 256
    else if i == 3
    then n / 16777216 % 256
    else b i

-- The block's number, and the buffer filled with '+'.
unfoldable pub lfdballoc : Lfs → Option (Lfs × ℕ × (ℕ → ℕ))
lfdballoc l =
    let dnum : ℕ = l.lf_dir.lfd_dfree in
    let next : ℕ = nextdb (l.disk.dblocks dnum) in
    if dnum == lf_dnull
    then none
    else some (
      record (write_dir (record l { lf_dir = record l.lf_dir { lfd_dfree = next } })) {
        lf_dirdirty = false;
      },
      dnum,
      λ i. 43,
    )

-- `junk` is what the buffer on the stack holds behind the pointer.
unfoldable pub lfdbfree : (ℕ → ℕ) → ℕ → Lfs → Lfs
lfdbfree junk dnum l =
    write_dir (record (write_block dnum (with_nextdb l.lf_dir.lfd_dfree junk) l) {
      lf_dir = record l.lf_dir { lfd_dfree = dnum };
    })

-- True is OK.
unfoldable pub lfscheck : Lfdir → Bool
lfscheck d =
    (d.lfd_fsysid == lfs_id)
    && (d.lfd_allzeros == 0)
    && (d.lfd_allones == 2 ^ 32 - 1)
    && (d.lfd_revid
        == lfs_id / 16777216 % 256
          + lfs_id / 65536 % 256 * 256
          + lfs_id / 256 % 256 * 65536
          + lfs_id % 256 * 16777216)
