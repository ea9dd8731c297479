-- ===== src/Lfs/Runs.antt =====
-- The theorems on the files as sequences of bytes at disks with sixteen and with eighteen free data
-- blocks.
use ece564_project.Prelude.{
  ℕ, ◌≡◌, refl, true, false, ◌==◌, if◌then◌else◌, some, List, [], ◌∷◌, arith,
}
use ece564_project.Prelude.Int.{pos}
use ece564_project.Lfs.Disk.{Lfs}
use ece564_project.Lfs.File.{Lflcblk, lfflush}
use ece564_project.Lfs.Position.{Got}
use ece564_project.Lfs.Stream.{lflclose}
use ece564_project.Lfs.Open.{ends_within, lfgetmode, search_table, find_file, same_name, lfsopen}
use ece564_project.Lfs.Create.{lfscreate, lfsckfmt}
use ece564_project.Lfs.Contents.{Request, Reply, answer, answers, calls}
use ece564_project.Lfs.Empty.{lfscreate-lfsckfmt}
use ece564_project.Lfs.NewFile.{lfsopen-answers}
use ece564_project.Lfs.OldFile.{closed_table, lflclose-lfsopen}
use ece564_project.Lfs.Samples.{
  some_file, free_ones, requests, replies, new_disk, table, name_a, mode_rw, disk_then,
  written_file, one_byte-Models,
}

-- A disk of 20 sectors, with a sector of seven index blocks.
lfscreate-lfsckfmt_example :
    (l : Lfs) × (lfscreate false 7 1 10240 some_file.lfiblock new_disk ≡ (l, true))
    × (lfsckfmt 27 l ≡ some (7, 18))
lfscreate-lfsckfmt_example =
    lfscreate-lfsckfmt 7 1 10240 some_file.lfiblock new_disk 27 refl (omega arith) (omega arith)
      (omega arith) (omega arith) (omega arith)

lfsopen-answers_example :
    (l1 : Lfs) × (l2 : Lfs) × (tab2 : ℕ → Lflcblk) × (lfscreate false 7 1 10240 some_file.lfiblock
        new_disk
      ≡ (l1, true))
    × (lfsopen 6 name_a mode_rw table l1 ≡ (l2, tab2, pos 8))
    × ((tab2 0).lfmode ≡ 3)
    × (calls 2 requests (tab2 0) l2 ≡ some replies)
unfolding answers answer ends_within lfgetmode search_table
lfsopen-answers_example =
    lfsopen-answers 7 1 10240 some_file.lfiblock new_disk 6 0 3 name_a mode_rw table 0 requests refl
      refl (omega arith) (omega arith) (omega arith) (omega arith) refl refl refl refl (omega arith)

abbrev mode_r : ℕ → ℕ
mode_r i = if i == 0 then 114 else 0

-- A byte is read, another one is written behind it, and that one is read.
abbrev requests_r : List Request
requests_r = Request.get ∷ Request.put 66 ∷ Request.seek 1 ∷ Request.get ∷ []

-- The file is opened with "r", and a byte is written.
lflclose-lfsopen_example :
    (tab2 : ℕ → Lflcblk) × ((lflclose written_file disk_then).2 ≡ true)
    × (lfsopen 6 name_a mode_r
          (closed_table 0 written_file disk_then table)
          (lflclose written_file disk_then).0
        ≡ ((lflclose written_file disk_then).0, tab2, pos 8))
    × ((tab2 0).lfmode ≡ 1)
    × (calls 2 requests_r (tab2 0) (lflclose written_file disk_then).0
        ≡ some (
            Reply.got (Got.byte 65) ∷ Reply.ok true ∷ Reply.ok true ∷ Reply.got (Got.byte 66) ∷ []))
unfolding answers answer ends_within lfgetmode search_table find_file same_name lflclose lfflush
lflclose-lfsopen_example =
    lflclose-lfsopen written_file disk_then (record { bytes = 65 ∷ []; at = 1 }) free_ones 6 0 0 1
      name_a mode_r table 0 requests_r one_byte-Models refl refl refl refl refl refl refl
      (omega arith)
