-- ===== src/Lfs/Samples.antt =====
-- Disks with sixteen free data blocks, and files on them.
use ece564_project.Prelude.{
  ℕ, ◌+◌, ◌-◌, ◌/◌, ◌%◌, ◌^◌, ◌≡◌, refl, sym, subst, true, false, ◌==◌, if◌then◌else◌, inr, List,
  [], ◌∷◌, arith,
}
use ece564_project.Prelude.Int.{pos, negsuc}
use ece564_project.Prelude.Ring.{nth}
use ece564_project.Queue.Chain
use ece564_project.Lfs.Disk.{lf_inull, lf_dnull, lfs_id, Lfs}
use ece564_project.Lfs.File.{Lflcblk}
use ece564_project.Lfs.Position.{Got}
use ece564_project.Lfs.Contents.{Request, Reply, fill_from}
use ece564_project.Lfs.Blocks.{Free, Blocks}
use ece564_project.Lfs.Stored.{Stored}
use ece564_project.Lfs.Models.{Models}

-- The blocks 30 to 45 are free, each with the number of the next.
abbrev pub free_bytes : ℕ → ℕ → ℕ
free_bytes k i = if k == 45 then 255 else if i == 0 then k + 1 else 0

abbrev pub disk_now : Lfs
disk_now = record {
  lf_dskdev = pos 7;
  lf_dirpresent = true;
  lf_dir = record {
    lfd_fsysid = lfs_id;
    lfd_allzeros = 0;
    lfd_allones = 2 ^ 32 - 1;
    lfd_dfree = 30;
    lfd_ifree = 3;
    lfd_nfiles = 1;
    lfd_files = λ k. record { ld_size = 0; ld_ilist = lf_inull; ld_name = λ i. 0 };
    lfd_revid = 1970170200;
  };
  lf_dirdirty = false;
  disk = record {
    directory = record {
      lfd_fsysid = lfs_id;
      lfd_allzeros = 0;
      lfd_allones = 2 ^ 32 - 1;
      lfd_dfree = 30;
      lfd_ifree = 3;
      lfd_nfiles = 1;
      lfd_files = λ k. record { ld_size = 0; ld_ilist = lf_inull; ld_name = λ i. 0 };
      lfd_revid = 1970170200;
    };
    iblocks = λ k. record { ib_next = lf_inull; ib_offset = 0; ib_dba = λ i. lf_dnull };
    dblocks = free_bytes;
  };
}

abbrev pub some_file : Lflcblk
some_file = record {
  lf_used = true;
  lfdev = 8;
  lfmode = 3;
  lfname = λ i. 0;
  lfdirptr = 0;
  lfpos = 0;
  lfinum = lf_inull;
  lfiblock = record { ib_next = lf_inull; ib_offset = 0; ib_dba = λ i. lf_dnull };
  lfdnum = lf_dnull;
  lfdblock = λ i. 0;
  lfbyte = 512;
  lfibdirty = false;
  lfdbdirty = false;
}

abbrev pub free_ones : List ℕ
free_ones = 30 ∷ 31 ∷ 32 ∷ 33 ∷ 34 ∷ 35 ∷ 36 ∷ 37 ∷ 38 ∷ 39 ∷ 40 ∷ 41 ∷ 42 ∷ 43 ∷ 44 ∷ 45 ∷ []

no_bytes-Free : Free free_bytes 30 free_ones
no_bytes-Free = (
  refl,
  (
    refl,
    (
      refl,
      (
        refl,
        (
          refl,
          (
            refl,
            (refl, (refl, (refl, (refl, (refl, (refl, (refl, (refl, (refl, (refl, refl)))))))))),
          ),
        ),
      ),
    ),
  ),
)

no_bytes-Distinct : Chain.Distinct free_ones
no_bytes-Distinct = (
  refl,
  (
    refl,
    (
      refl,
      (
        refl,
        (
          refl,
          (
            refl,
            (refl, (refl, (refl, (refl, (refl, (refl, (refl, (refl, (refl, (refl, tt)))))))))),
          ),
        ),
      ),
    ),
  ),
)

abbrev pub no_buffer : ℕ → ℕ
no_buffer i = 0

-- Three bytes are written and one of them again, and five are asked for.
abbrev pub requests : List Request
requests =
    Request.write (65 ∷ 66 ∷ 67 ∷ [])
    ∷ Request.seek 4
    ∷ Request.seek 1
    ∷ Request.put 68
    ∷ Request.seek 0
    ∷ Request.get
    ∷ Request.read 5 no_buffer
    ∷ Request.get
    ∷ Request.truncate (λ k i. 0)
    ∷ Request.put 69
    ∷ Request.seek 0
    ∷ Request.get
    ∷ []

abbrev pub replies : List Reply
replies =
    Reply.count (pos 3)
    ∷ Reply.ok false
    ∷ Reply.ok true
    ∷ Reply.ok true
    ∷ Reply.ok true
    ∷ Reply.got (Got.byte 65)
    ∷ Reply.filled (pos 2) (fill_from 2 1 (65 ∷ 68 ∷ 67 ∷ []) no_buffer)
    ∷ Reply.got Got.at_end
    ∷ Reply.ok true
    ∷ Reply.ok true
    ∷ Reply.ok true
    ∷ Reply.got (Got.byte 69)
    ∷ []

abbrev pub new_disk : Lfs
new_disk = record disk_now { lf_dskdev = negsuc 0; lf_dirpresent = false }

abbrev pub table : ℕ → Lflcblk
table k = record some_file { lf_used = false; lfdev = 8 + k }

abbrev pub name_a : ℕ → ℕ
name_a i = if i == 0 then 97 else 0

-- "rw"
abbrev pub mode_rw : ℕ → ℕ
mode_rw i = if i == 0 then 114 else if i == 1 then 119 else 0

-- The file has the byte 65, which is not yet on the disk.
abbrev pub disk_then : Lfs
disk_then = record disk_now {
  lf_dir = record disk_now.lf_dir {
    lfd_ifree = 4;
    lfd_files = λ k. record { ld_size = 1; ld_ilist = 3; ld_name = name_a };
  };
}

abbrev pub written_file : Lflcblk
written_file = record some_file {
  lfname = name_a;
  lfpos = 1;
  lfinum = 3;
  lfiblock = record {
    ib_next = lf_inull;
    ib_offset = 0;
    ib_dba = λ i. if i == 0 then 29 else lf_dnull;
  };
  lfdnum = 29;
  lfdblock = λ i. if i == 0 then 65 else 43;
  lfbyte = 1;
  lfibdirty = true;
  lfdbdirty = true;
}

one_block : Blocks written_file.lfiblock.ib_dba 1 free_ones
one_block = record {
  given = λ i h. let first : (i == 0) ≡ true = ground arith in rw first refl;
  once = λ i j g h o e. ground arith;
  owned = λ i g o. let first : (i == 0) ≡ true = ground arith in rw first refl;
  distinct = no_bytes-Distinct;
  real = refl;
  enough = omega arith;
  small = λ i h. ground arith;
  within = λ k h. ground arith;
}

one_byte : Stored written_file disk_then (65 ∷ []) free_ones
one_byte = record {
  used = refl;
  index = refl;
  first = refl;
  size = refl;
  only = refl;
  unlisted = refl;
  listed = refl;
  index_kept = λ e. absurd (ground arith);
  fits = omega arith;
  blocks = one_block;
  free = no_bytes-Free;
  apart = refl;
  on_disk = λ q h e. let first : (q / 512 == 0) ≡ true = ground arith in absurd (ground arith);
  in_memory = λ q h e.
      let first : q ≡ 0 = omega arith in
      subst (λ k. written_file.lfdblock (k % 512) ≡ nth (65 ∷ []) k) (sym first) refl;
}

pub one_byte-Models : Models written_file disk_then (record { bytes = 65 ∷ []; at = 1 }) free_ones
one_byte-Models = record {
  used = refl;
  size = refl;
  fits = omega arith;
  held = inr one_byte;
  position = refl;
  near = omega arith;
  pointer = λ h. record { here = refl; block = refl; there = refl };
}
