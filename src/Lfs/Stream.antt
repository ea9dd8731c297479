-- ===== src/Lfs/Stream.antt =====
-- device/lfs/lflread.c, lflwrite.c, lflcontrol.c and lflclose.c, between the waits for the mutexes
-- and the signals. A buffer of the caller is no part of the file.
use ece564_project.Prelude.{
  ℕ, zero, suc, ◌+◌, ◌%◌, Bool, true, false, ◌||◌, ◌==◌, if◌then◌else◌, Option, some, none,
}
use ece564_project.Prelude.Int.{ℤ, pos, negsuc}
use ece564_project.Prelude.Ring.{set_cell}
use ece564_project.Lfs.Disk.{Lfs}
use ece564_project.Lfs.File.{Lflcblk, lfflush, lftruncate}
use ece564_project.Lfs.Position.{Got, lflgetc, lflputc}

-- SYSERR
abbrev pub failed : ℤ
failed = negsuc 0

-- EOF
abbrev pub no_more : ℤ
no_more = negsuc 1

abbrev pub WriteResult : Type 0
WriteResult = Lfs × Lflcblk × ℤ

abbrev pub after_put :
    (Lflcblk → Lfs → Option WriteResult) → Option (Lfs × Lflcblk × Bool) → Option WriteResult
after_put rest none = none
after_put rest (some (l, f, ok)) = if ok then rest f l else some (l, f, failed)

-- `n` bytes are left, and `i` are written.
unfoldable pub write_bytes : ℕ → ℕ → ℕ → (ℕ → ℕ) → Lflcblk → Lfs → Option WriteResult
write_bytes fuel zero i buff f l = some (l, f, pos i)
write_bytes fuel (suc n) i buff f l =
    after_put (write_bytes fuel n (i + 1) buff) (lflputc fuel (buff i) f l)

unfoldable pub lflwrite : ℕ → (ℕ → ℕ) → ℤ → Lflcblk → Lfs → Option WriteResult
lflwrite fuel buff (pos count) f l = write_bytes fuel count 0 buff f l
lflwrite fuel buff (negsuc n) f l = some (l, f, failed)

abbrev pub ReadResult : Type 0
ReadResult = Lfs × Lflcblk × (ℕ → ℕ) × ℤ

abbrev pub after_get :
    ((ℕ → ℕ) → Lflcblk → Lfs → Option ReadResult)
    → ℕ
    → (ℕ → ℕ)
    → Option (Lfs × Lflcblk × Got)
    → Option ReadResult
after_get rest i buff none = none
after_get rest i buff (some (l, f, Got.refused)) = some (l, f, buff, failed)
after_get rest i buff (some (l, f, Got.at_end)) =
    some (l, f, buff, if i == 0 then no_more else pos i)
after_get rest i buff (some (l, f, Got.byte ch)) = rest (set_cell i (ch % 256) buff) f l

-- `n` bytes are left, and `numread` are read.
unfoldable pub read_bytes : ℕ → ℕ → ℕ → (ℕ → ℕ) → Lflcblk → Lfs → Option ReadResult
read_bytes fuel zero numread buff f l = some (l, f, buff, pos numread)
read_bytes fuel (suc n) numread buff f l =
    after_get (read_bytes fuel n (numread + 1)) numread buff (lflgetc fuel f l)

unfoldable pub lflread : ℕ → (ℕ → ℕ) → ℤ → Lflcblk → Lfs → Option ReadResult
lflread fuel buff (pos count) f l = read_bytes fuel count 0 buff f l
lflread fuel buff (negsuc n) f l = some (l, f, buff, failed)

unfoldable pub lflclose : Lflcblk → Lfs → Lfs × Lflcblk × Bool
lflclose f l =
    let (l1, f1) =
      (if l.lf_dirdirty || f.lfdbdirty || f.lfibdirty
        then (let (l', f', ok) = lfflush f l in (l', f'))
        else (l, f)) in
    if f.lf_used then (l1, record f1 { lf_used = false }, true) else (l, f, false)

abbrev pub truncated : Option (Lfs × Lflcblk) → Option (Lfs × Lflcblk × Bool)
truncated none = none
truncated (some (l, f)) = some (l, f, true)

-- The function 2 is LF_CTL_TRUNC. False is SYSERR.
unfoldable pub lflcontrol : ℕ → (ℕ → ℕ → ℕ) → ℕ → Lflcblk → Lfs → Option (Lfs × Lflcblk × Bool)
lflcontrol fuel junk func f l =
    if f.lf_used
    then (if func == 2 then truncated (lftruncate fuel junk f l) else some (l, f, false))
    else some (l, f, false)
