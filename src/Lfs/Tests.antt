-- ===== src/Lfs/Tests.antt =====
-- The theorems on the file system at a disk with a file of two index blocks.
use ece564_project.Prelude.{
  ℕ, ◌+◌, ◌-◌, ◌^◌, ◌≡◌, refl, true, false, ◌==◌, if◌then◌else◌, some, [], ◌∷◌, arith,
}
use ece564_project.Prelude.Int.{pos}
use ece564_project.Lfs.Disk.{lf_inull, lf_dnull, lfs_id, Lfiblk, Lfdir, Lfs}
use ece564_project.Lfs.File.{Lflcblk, lftruncate}
use ece564_project.Lfs.Chains.{Linked}
use ece564_project.Lfs.Truncate.{lftruncate-Frees}

-- The file 0 has the index blocks 4 and 2, and the blocks 3 and 5 are free.
abbrev directory : Lfdir
directory = record {
  lfd_fsysid = lfs_id;
  lfd_allzeros = 0;
  lfd_allones = 2 ^ 32 - 1;
  lfd_dfree = 30;
  lfd_ifree = 3;
  lfd_nfiles = 1;
  lfd_files = λ k. record { ld_size = 8200; ld_ilist = 4; ld_name = λ i. 0 };
  lfd_revid = 1970170200;
}

abbrev index_block : ℕ → Lfiblk
index_block k = record {
  ib_next = if k == 4 then 2 else if k == 3 then 5 else lf_inull;
  ib_offset = if k == 2 then 8192 else 0;
  ib_dba = λ i. if i == 0 then 20 + k else lf_dnull;
}

abbrev files : Lfs
files = record {
  lf_dskdev = pos 7;
  lf_dirpresent = true;
  lf_dir = directory;
  lf_dirdirty = false;
  disk = record { directory = directory; iblocks = index_block; dblocks = λ k i. 0 };
}

-- It is open at its end, and nothing is to be written.
abbrev file : Lflcblk
file = record {
  lf_used = true;
  lfdev = 8;
  lfmode = 3;
  lfname = λ i. 0;
  lfdirptr = 0;
  lfpos = 8200;
  lfinum = 2;
  lfiblock = index_block 2;
  lfdnum = 22;
  lfdblock = λ i. 0;
  lfbyte = 8;
  lfibdirty = false;
  lfdbdirty = false;
}

lftruncate-Frees_example :
    (l : Lfs) × (f : Lflcblk) × (lftruncate 3 (λ d i. 0) file files ≡ some (l, f))
    × Linked l.disk.iblocks l.lf_dir.lfd_ifree (4 ∷ 2 ∷ 3 ∷ 5 ∷ []) lf_inull
    × ((k : ℕ)
        → l.lf_dir.lfd_files k ≡ (
            if k == 0
            then record (directory.lfd_files 0) { ld_ilist = lf_inull; ld_size = 0 }
            else directory.lfd_files k))
lftruncate-Frees_example =
    lftruncate-Frees 3 (λ d i. 0) file files 4 (2 ∷ []) (3 ∷ 5 ∷ []) refl refl (refl, (refl, refl))
      (refl, (refl, refl)) (refl, (refl, (refl, (refl, tt)))) refl (omega arith)
