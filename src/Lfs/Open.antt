-- ===== src/Lfs/Open.antt =====
-- device/lfs/lfgetmode.c and lfsopen.c, between the wait for the mutex of the directory and the
-- signals. A string is a function from the index of a character to it.
use ece564_project.Prelude.{
  ℕ, zero, suc, ◌+◌, ◌/◌, ◌%◌, Bool, true, false, ◌||◌, leb, ◌==◌, if◌then◌else◌, Option, some,
  none,
}
use ece564_project.Prelude.Int.{ℤ, pos, negsuc, ltb_ℤ}
use ece564_project.Prelude.Ring.{set_cell}
use ece564_project.Lfs.Disk.{lf_blksiz, lf_inull, lf_dnull, Ldentry, Lfs, lfscheck}
use ece564_project.Lfs.File.{Lflcblk}
use ece564_project.Lfs.Stream.{failed}

abbrev pub lf_name_len : ℕ
lf_name_len = 16

abbrev pub lf_num_dir_ent : ℕ
lf_num_dir_ent = 20

-- The bits of a mode: 1 and 2 are reading and writing, 4 is a new file and 8 an old one.
abbrev pub has_bit : ℕ → ℕ → Bool
has_bit bit mbits = mbits / bit % 2 == 1

-- A character of the mode string.
abbrev pub mode_char : ℕ → ℕ → Option ℕ
mode_char ch mbits =
    if ch == 114
    then (if has_bit 1 mbits then none else some (mbits + 1))
    else if ch == 119
    then (if has_bit 2 mbits then none else some (mbits + 2))
    else if ch == 111
    then (if has_bit 8 mbits || has_bit 4 mbits then none else some (mbits + 8))
    else if ch == 110
    then (if has_bit 8 mbits || has_bit 4 mbits then none else some (mbits + 4))
    else none

abbrev pub mode_loop : ℕ → ℕ → (ℕ → ℕ) → ℕ → ℤ
mode_loop zero i mode mbits = failed
mode_loop (suc n) i mode mbits =
    if mode i == 0
    then pos (if mbits % 4 == 0 then mbits + 3 else mbits)
    else elim (mode_char (mode i) mbits) [ none ↦ failed | some b ↦ mode_loop n (i + 1) mode b ]

-- Each character stands for a bit that is not yet set, and only one of o and n can stand, so that
-- the loop ends at the fourth character or before.
unfoldable pub lfgetmode : (ℕ → ℕ) → ℤ
lfgetmode mode = mode_loop 4 0 mode 0

-- One of the next `n` characters ends the string.
unfoldable pub ends_within : ℕ → ℕ → (ℕ → ℕ) → Bool
ends_within zero i name = false
ends_within (suc n) i name = (name i == 0) || ends_within n (i + 1) name

-- Whether the comparison from the index `i` on ends at the end of both strings; the first one ends
-- within `n` characters.
unfoldable pub same_name : ℕ → ℕ → (ℕ → ℕ) → (ℕ → ℕ) → Bool
same_name zero i nam cmp = false
same_name (suc n) i nam cmp =
    let rest : Bool = same_name n (i + 1) nam cmp in
    if nam i == 0 then cmp i == 0 else if nam i == cmp i then rest else false

-- The string that ends within `n` characters is copied.
unfoldable pub copy_file_name : ℕ → ℕ → (ℕ → ℕ) → (ℕ → ℕ) → ℕ → ℕ
copy_file_name zero i from to = to
copy_file_name (suc n) i from to =
    let next : ℕ → ℕ = set_cell i (from i) to in
    let rest : ℕ → ℕ = copy_file_name n (i + 1) from next in if from i == 0 then next else rest

abbrev pub or_first : Option ℕ → ℕ → Option ℕ
or_first none i = some i
or_first (some k) i = some k

-- The first free entry of the table, from `i` on; `none` if the file is open.
unfoldable pub search_table : ℕ → ℕ → (ℕ → ℕ) → (ℕ → Lflcblk) → Option ℕ → Option (Option ℕ)
search_table zero i name tab next = some next
search_table (suc n) i name tab next =
    let free_entry = search_table n (i + 1) name tab (or_first next i) in
    let other_file = search_table n (i + 1) name tab next in
    if (tab i).lf_used
    then (if same_name lf_name_len 0 name (tab i).lfname then none else other_file)
    else free_entry

-- False is SYSERR: the disk holds no file system.
unfoldable pub load_dir : Lfs → Lfs × Bool
load_dir l =
    if l.lf_dirpresent
    then (l, true)
    else if lfscheck l.disk.directory
    then (record l { lf_dir = l.disk.directory; lf_dirpresent = true }, true)
    else (record l { lf_dir = l.disk.directory }, false)

-- The entry of the file, among `n` from `i` on.
unfoldable pub find_file : ℕ → ℕ → (ℕ → ℕ) → (ℕ → Ldentry) → Option ℕ
find_file zero i name files = none
find_file (suc n) i name files =
    let rest = find_file n (i + 1) name files in
    if same_name lf_name_len 0 name (files i).ld_name then some i else rest

-- A new entry for an empty file.
unfoldable pub add_file : (ℕ → ℕ) → Lfs → Lfs
add_file name l =
    let n : ℕ = l.lf_dir.lfd_nfiles in
    record l {
      lf_dir = record l.lf_dir {
        lfd_nfiles = n + 1;
        lfd_files = λ k.
            if k == n
            then record (l.lf_dir.lfd_files k) {
              ld_size = 0;
              ld_name = copy_file_name lf_name_len 0 name (l.lf_dir.lfd_files k).ld_name;
              ld_ilist = lf_inull;
            }
            else l.lf_dir.lfd_files k;
      };
    }

-- lfmode = mbits & LF_MODE_RW. The read and write bits are kept here, and no function of device/lfs
-- reads them.
unfoldable pub open_block : (ℕ → ℕ) → ℕ → ℕ → Lflcblk → Lflcblk
open_block name mbits i f = record f {
  lf_used = true;
  lfdirptr = i;
  lfmode = mbits % 4;
  lfpos = 0;
  lfname = copy_file_name lf_name_len 0 name f.lfname;
  lfinum = lf_inull;
  lfdnum = lf_dnull;
  lfbyte = lf_blksiz;
  lfibdirty = false;
  lfdbdirty = false;
}

abbrev pub Opening : Type 0
Opening = Lfs × (ℕ → Lflcblk) × ℤ

abbrev pub enter : (ℕ → ℕ) → ℕ → ℕ → (ℕ → Lflcblk) → ℕ → Lfs → Opening
enter name mbits next tab i l =
    (l, λ k. if k == next then open_block name mbits i (tab next) else tab k, pos (tab next).lfdev)

-- Whether the directory has the file, and where.
abbrev pub open_found : (ℕ → ℕ) → ℕ → ℕ → (ℕ → Lflcblk) → Lfs → Option ℕ → Opening
open_found name mbits next tab l none =
    if has_bit 8 mbits
    then (l, tab, failed)
    else if leb lf_num_dir_ent l.lf_dir.lfd_nfiles
    then (l, tab, failed)
    else enter name mbits next tab l.lf_dir.lfd_nfiles (add_file name l)
open_found name mbits next tab l (some i) =
    if has_bit 4 mbits then (l, tab, failed) else enter name mbits next tab i l

unfoldable pub open_file : (ℕ → ℕ) → ℕ → ℕ → (ℕ → Lflcblk) → Lfs × Bool → Opening
open_file name mbits next tab (l, false) = (l, tab, failed)
open_file name mbits next tab (l, true) =
    open_found name mbits next tab l (find_file l.lf_dir.lfd_nfiles 0 name l.lf_dir.lfd_files)

abbrev pub with_entry : (ℕ → ℕ) → ℕ → (ℕ → Lflcblk) → Lfs → Option (Option ℕ) → Opening
with_entry name mbits tab l none = (l, tab, failed)
with_entry name mbits tab l (some none) = (l, tab, failed)
with_entry name mbits tab l (some (some next)) = open_file name mbits next tab (load_dir l)

abbrev pub with_mode : ℕ → (ℕ → ℕ) → (ℕ → Lflcblk) → Lfs → ℤ → Opening
with_mode nlfl name tab l (negsuc n) = (l, tab, failed)
with_mode nlfl name tab l (pos mbits) =
    with_entry name mbits tab l (search_table nlfl 0 name tab none)

-- The device of the file, or SYSERR.
unfoldable pub lfsopen : ℕ → (ℕ → ℕ) → (ℕ → ℕ) → (ℕ → Lflcblk) → Lfs → Opening
lfsopen nlfl name mode tab l =
    if ltb_ℤ l.lf_dskdev (pos 0)
    then (l, tab, failed)
    else if ends_within lf_name_len 0 name
    then with_mode nlfl name tab l (lfgetmode mode)
    else (l, tab, failed)
