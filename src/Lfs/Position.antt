-- ===== src/Lfs/Position.antt =====
-- device/lfs/lfsetup.c, lflgetc.c, lflputc.c and lflseek.c, between the waits for the mutexes of the
-- file and of the directory and the signals behind them.
use ece564_project.Prelude.{
  ℕ, zero, suc, ◌+◌, ◌-◌, ◌/◌, ◌%◌, ◌^◌, Bool, true, false, ltb, leb, ◌==◌, if◌then◌else◌, Option,
  some, none,
}
use ece564_project.Prelude.Ring.{set_cell}
use ece564_project.Lfs.Disk.{
  lf_blksiz, lf_inull, lf_dnull, Lfiblk, Ldentry, Lfs, lfibget, lfibput, lfibclear, lfiballoc,
  lfdballoc,
}
use ece564_project.Lfs.File.{Lflcblk, clean_up}

abbrev pub lf_idata : ℕ
lf_idata = 8192

abbrev pub FileStep : Type 0
FileStep = Option (Lfs × Lflcblk)

-- ldptr->field = v
abbrev pub set_ilist : ℕ → ℕ → Lfs → Lfs
set_ilist i ib l = record l {
  lf_dir = record l.lf_dir {
    lfd_files = λ k.
        if k == i then record (l.lf_dir.lfd_files k) { ld_ilist = ib } else l.lf_dir.lfd_files k;
  };
}

abbrev pub get_index : ℕ → Lflcblk → Lfs → Lflcblk
get_index ib f l = record f { lfiblock = lfibget ib l; lfinum = ib }

abbrev pub new_first : Lflcblk → Option (Lfs × ℕ) → FileStep
new_first f none = none
new_first f (some r) = some (
  set_ilist f.lfdirptr r.1 r.0,
  record f { lfiblock = lfibclear 0 f.lfiblock; lfibdirty = true; lfinum = r.1 },
)

-- An index block is in memory behind this.
unfoldable pub first_index : Lflcblk → Lfs → FileStep
first_index f l =
    let ilist : ℕ = (l.lf_dir.lfd_files f.lfdirptr).ld_ilist in
    if f.lfinum == lf_inull
    then (if ilist == lf_inull then new_first f (lfiballoc l) else some (l, get_index ilist f l))
    else if ltb f.lfpos f.lfiblock.ib_offset
    then some (l, get_index ilist f l)
    else some (l, f)

abbrev pub new_next : Lflcblk → Option (Lfs × ℕ) → FileStep
new_next f none = none
new_next f (some r) =
    let old : Lfiblk = record f.lfiblock { ib_next = r.1 } in
    some (
      lfibput f.lfinum old r.0,
      record f {
        lfinum = r.1;
        lfiblock = lfibclear ((old.ib_offset + lf_idata) % 2 ^ 32) old;
        lfibdirty = true;
        lfdnum = lf_dnull;
      },
    )

abbrev pub next_index : Lflcblk → Lfs → FileStep
next_index f l =
    if f.lfiblock.ib_next == lf_inull
    then new_next f (lfiballoc l)
    else some (l, record (get_index f.lfiblock.ib_next f l) { lfdnum = lf_dnull })

-- while ((lfptr->lfpos & ~LF_IMASK) > ibptr->ib_offset)
unfoldable pub seek_index : ℕ → Lflcblk → Lfs → FileStep
seek_index zero f l = none
seek_index (suc fuel) f l =
    if leb (f.lfpos - f.lfpos % lf_idata) f.lfiblock.ib_offset
    then some (l, f)
    else elim (next_index f l) [ none ↦ none | some r ↦ seek_index fuel r.1 r.0 ]

abbrev pub set_dba : ℕ → ℕ → Lfiblk → Lfiblk
set_dba i dnum ib = record ib { ib_dba = set_cell i dnum ib.ib_dba }

abbrev pub new_data : ℕ → Lflcblk → Option (Lfs × ℕ × (ℕ → ℕ)) → FileStep
new_data i f none = none
new_data i f (some r) = some (
  r.0,
  record f {
    lfdblock = r.2;
    lfiblock = set_dba i r.1 f.lfiblock;
    lfibdirty = true;
    lfdnum = r.1;
    lfbyte = f.lfpos % lf_blksiz;
  },
)

-- The data block of the position, and the byte in it.
unfoldable pub load_data : Lflcblk → Lfs → FileStep
load_data f l =
    let i : ℕ = f.lfpos % lf_idata / 512 in
    let dnum : ℕ = f.lfiblock.ib_dba i in
    if dnum == lf_dnull
    then new_data i f (lfdballoc l)
    else if dnum == f.lfdnum
    then some (l, record f { lfbyte = f.lfpos % lf_blksiz })
    else some (
      l,
      record f {
        lfdblock = l.disk.dblocks dnum;
        lfdbdirty = false;
        lfdnum = dnum;
        lfbyte = f.lfpos % lf_blksiz;
      },
    )

abbrev pub then_seek : ℕ → FileStep → FileStep
then_seek fuel none = none
then_seek fuel (some r) = seek_index fuel r.1 r.0

abbrev pub then_load : FileStep → FileStep
then_load none = none
then_load (some r) = load_data r.1 r.0

unfoldable pub lfsetup : ℕ → Lflcblk → Lfs → FileStep
lfsetup fuel f l = let (l1, f1) = clean_up f l in then_load (then_seek fuel (first_index f1 l1))

-- The set-up, if the byte pointer is behind the block.
abbrev pub set_up : ℕ → Lflcblk → Lfs → FileStep
set_up fuel f l = if leb lf_blksiz f.lfbyte then lfsetup fuel f l else some (l, f)

-- SYSERR, EOF or a byte.
pub data Got : Type 0 where
  refused : Got
  at_end : Got
  byte : ℕ → Got

abbrev pub take_byte : FileStep → Option (Lfs × Lflcblk × Got)
take_byte none = none
take_byte (some r) =
    let (l, f) = r in
    some (
      l,
      record f { lfbyte = f.lfbyte + 1; lfpos = (f.lfpos + 1) % 2 ^ 32 },
      Got.byte (f.lfdblock f.lfbyte % 256),
    )

unfoldable pub lflgetc : ℕ → Lflcblk → Lfs → Option (Lfs × Lflcblk × Got)
lflgetc fuel f l =
    if f.lf_used
    then (if leb (l.lf_dir.lfd_files f.lfdirptr).ld_size f.lfpos
        then some (l, f, Got.at_end)
        else take_byte (set_up fuel f l))
    else some (l, f, Got.refused)

abbrev pub grow : Lflcblk → Lfs → Lfs
grow f l =
    let e : Ldentry = l.lf_dir.lfd_files f.lfdirptr in
    if leb e.ld_size f.lfpos
    then record l {
      lf_dir = record l.lf_dir {
        lfd_files = λ k.
            if k == f.lfdirptr
            then record (l.lf_dir.lfd_files k) { ld_size = (e.ld_size + 1) % 2 ^ 32 }
            else l.lf_dir.lfd_files k;
      };
      lf_dirdirty = true;
    }
    else l

abbrev pub put_byte : ℕ → FileStep → Option (Lfs × Lflcblk × Bool)
put_byte ch none = none
put_byte ch (some r) =
    let (l, f) = r in
    some (
      grow f l,
      record f {
        lfdblock = set_cell f.lfbyte ch f.lfdblock;
        lfbyte = f.lfbyte + 1;
        lfpos = (f.lfpos + 1) % 2 ^ 32;
        lfdbdirty = true;
      },
      true,
    )

-- False is SYSERR.
unfoldable pub lflputc : ℕ → ℕ → Lflcblk → Lfs → Option (Lfs × Lflcblk × Bool)
lflputc fuel ch f l =
    if f.lf_used
    then (if ltb (l.lf_dir.lfd_files f.lfdirptr).ld_size f.lfpos
        then some (l, f, false)
        else put_byte ch (set_up fuel f l))
    else some (l, f, false)

unfoldable pub lflseek : ℕ → Lflcblk → Lfs → Lflcblk × Bool
lflseek offset f l =
    if f.lf_used
    then (if ltb (l.lf_dir.lfd_files f.lfdirptr).ld_size offset
        then (f, false)
        else (record f { lfpos = offset; lfbyte = lf_blksiz }, true))
    else (f, false)
