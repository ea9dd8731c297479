-- ===== src/Lfs/Bytes.antt =====
-- device/lfs/lflputc.c, lflseek.c and lflgetc.c at one position of a file.
use ece564_project.Prelude.{
  ℕ, suc, ◌+◌, ◌-◌, ◌/◌, ◌%◌, ◌^◌, ◌<◌, ◌≤◌, ◌≡◌, refl, ap, ◌∙◌, true, false, ◌||◌, ltb, leb, ◌==◌,
  if◌then◌else◌, Bool-cases, inl, inr, some, arith,
}
use ece564_project.Prelude.Ring.{set_cell}
use ece564_project.Lfs.Disk.{lf_inull, lf_dnull, Lfs}
use ece564_project.Lfs.File.{Lflcblk, lfflush, clean_up}
use ece564_project.Lfs.Position.{
  first_index, seek_index, load_data, then_seek, then_load, lfsetup, set_up, Got, take_byte,
  lflgetc, grow, put_byte, lflputc, lflseek,
}

-- The index block and the data block of the file's position are in memory.
pub record Loaded (f : Lflcblk) : Type 0 where
  pub index : (f.lfinum == lf_inull) ≡ false
  pub covers : f.lfiblock.ib_offset ≡ f.lfpos - f.lfpos % 8192
  pub block : f.lfiblock.ib_dba (f.lfpos % 8192 / 512) ≡ f.lfdnum
  pub there : (f.lfdnum == lf_dnull) ≡ false

first_index-Loaded : (f : Lflcblk) (l : Lfs) → Loaded f → first_index f l ≡ some (l, f)
unfolding first_index
first_index-Loaded f l d =
    let covers = d.covers in
    let on : ltb f.lfpos f.lfiblock.ib_offset ≡ false = ground arith in rw (d.index, on) refl

seek_index-Loaded :
    (fuel : ℕ) (f : Lflcblk) (l : Lfs) → Loaded f → seek_index (suc fuel) f l ≡ some (l, f)
unfolding seek_index
seek_index-Loaded fuel f l d =
    let covers = d.covers in
    let here : leb (f.lfpos - f.lfpos % 8192) f.lfiblock.ib_offset ≡ true = ground arith in
    rw here refl

load_data-Loaded :
    (f : Lflcblk) (l : Lfs)
    → Loaded f
    → load_data f l ≡ some (l, record f { lfbyte = f.lfpos % 512 })
unfolding load_data
load_data-Loaded f l d =
    let there : (f.lfiblock.ib_dba (f.lfpos % 8192 / 512) == lf_dnull) ≡ false =
      ap (λ k. k == lf_dnull) d.block ∙ d.there in
    let block = d.block in
    let same : (f.lfiblock.ib_dba (f.lfpos % 8192 / 512) == f.lfdnum) ≡ true = ground arith in
    rw (there, same) refl

lfflush-Loaded : (f : Lflcblk) (l : Lfs) → Loaded f → Loaded (lfflush f l).1
unfolding lfflush
lfflush-Loaded f l d = elim (Bool-cases f.lf_used) [
  | inl e ↦ rw e (record { index = d.index; covers = d.covers; block = d.block; there = d.there })
  | inr e ↦ rw e (record { index = d.index; covers = d.covers; block = d.block; there = d.there })
]

clean_up-Loaded : (f : Lflcblk) (l : Lfs) → Loaded f → Loaded (clean_up f l).1
clean_up-Loaded f l d = elim (Bool-cases (f.lfibdirty || f.lfdbdirty)) [
  | inl e ↦ rw e (lfflush-Loaded f l d)
  | inr e ↦ rw e d
]

-- While the blocks are in memory, the set-up writes what has changed and puts the pointer to the byte.
pub lfsetup-Loaded :
    (fuel : ℕ) (f : Lflcblk) (l : Lfs)
    → Loaded f
    → lfsetup (suc fuel) f l
      ≡ some ((clean_up f l).0, record (clean_up f l).1 { lfbyte = (clean_up f l).1.lfpos % 512 })
unfolding lfsetup
lfsetup-Loaded fuel f l d =
    let (l1, f1) = clean_up f l in
    let d1 : Loaded f1 = clean_up-Loaded f l d in
    ap (λ o. then_load (then_seek (suc fuel) o)) (first_index-Loaded f1 l1 d1)
    ∙ ap then_load (seek_index-Loaded fuel f1 l1 d1)
    ∙ load_data-Loaded f1 l1 d1

lflputc-Loaded :
    (fuel ch : ℕ) (f : Lflcblk) (l : Lfs)
    → f.lf_used ≡ true
    → f.lfbyte < 512
    → f.lfpos ≤ (l.lf_dir.lfd_files f.lfdirptr).ld_size
    → lflputc fuel ch f l ≡ put_byte ch (some (l, f))
unfolding lflputc
lflputc-Loaded fuel ch f l used inside fits =
    let old : ltb (l.lf_dir.lfd_files f.lfdirptr).ld_size f.lfpos ≡ false = ground arith in
    let here : leb 512 f.lfbyte ≡ false = ground arith in rw (used, old, here) refl

grow-size :
    (f : Lflcblk) (l : Lfs)
    → f.lfpos ≤ (l.lf_dir.lfd_files f.lfdirptr).ld_size
    → (l.lf_dir.lfd_files f.lfdirptr).ld_size < 4294967295
    → f.lfpos < ((grow f l).lf_dir.lfd_files f.lfdirptr).ld_size
grow-size f l fits small = elim (Bool-cases (leb (l.lf_dir.lfd_files f.lfdirptr).ld_size f.lfpos)) [
  | inl e ↦
      let same : (f.lfdirptr == f.lfdirptr) ≡ true = ground arith in rw (e, same) (ground arith)
  | inr e ↦ rw e (ground arith)
]

-- What the set-up leaves of the block in memory.
clean_up-keeps :
    (f : Lflcblk) (l : Lfs)
    → ((clean_up f l).1.lfpos ≡ f.lfpos) × ((clean_up f l).1.lfdblock ≡ f.lfdblock)
unfolding lfflush
clean_up-keeps f l = ground arith

lflgetc-lfsetup :
    (fuel : ℕ) (f : Lflcblk) (l : Lfs)
    → f.lf_used ≡ true
    → f.lfbyte ≡ 512
    → f.lfpos < (l.lf_dir.lfd_files f.lfdirptr).ld_size
    → lflgetc fuel f l ≡ take_byte (lfsetup fuel f l)
unfolding lflgetc
lflgetc-lfsetup fuel f l used out inside =
    let more : leb (l.lf_dir.lfd_files f.lfdirptr).ld_size f.lfpos ≡ false = ground arith in
    let beyond : leb 512 f.lfbyte ≡ true = ground arith in
    ap
      (λ b.
        if b
        then (if leb (l.lf_dir.lfd_files f.lfdirptr).ld_size f.lfpos
            then some (l, f, Got.at_end)
            else take_byte (set_up fuel f l))
        else some (l, f, Got.refused))
      used
    ∙ ap (λ b. if b then some (l, f, Got.at_end) else take_byte (set_up fuel f l)) more
    ∙ ap (λ b. take_byte (if b then lfsetup fuel f l else some (l, f))) beyond

lflgetc-Loaded :
    (fuel : ℕ) (f : Lflcblk) (l : Lfs)
    → f.lf_used ≡ true
    → f.lfbyte ≡ 512
    → Loaded f
    → f.lfpos < (l.lf_dir.lfd_files f.lfdirptr).ld_size
    → (f' : Lflcblk) × (lflgetc (suc fuel) f l
        ≡ some ((clean_up f l).0, f', Got.byte (f.lfdblock (f.lfpos % 512) % 256)))
      × (f'.lfpos ≡ (f.lfpos + 1) % 2 ^ 32)
lflgetc-Loaded fuel f l used out d inside =
    let (l1, f1) = clean_up f l in
    let (pos, block) = clean_up-keeps f l in
    let f2 : Lflcblk = record f1 { lfbyte = f1.lfpos % 512 } in
    (
      record f2 { lfbyte = f2.lfbyte + 1; lfpos = (f1.lfpos + 1) % 2 ^ 32 },
      lflgetc-lfsetup (suc fuel) f l used out inside
          ∙ (ap take_byte (lfsetup-Loaded fuel f l d)
              ∙ ap
                  (λ b. some (
                    l1,
                    record f2 { lfbyte = f2.lfbyte + 1; lfpos = (f1.lfpos + 1) % 2 ^ 32 },
                    Got.byte b,
                  ))
                  (ap (λ (t : ℕ → ℕ). t (f1.lfpos % 512) % 256) block
                    ∙ ap (λ k. f.lfdblock (k % 512) % 256) pos)),
      ap (λ k. (k + 1) % 2 ^ 32) pos,
    )

-- An open file whose blocks at its position are in memory, the position not behind its end, and
-- fewer than 2^32 - 1 bytes: a byte is written, then the file is put back to this position; reading
-- gives the byte, and the position is the next one.
pub lflputc-lflgetc :
    (fuel ch : ℕ) (f : Lflcblk) (l : Lfs)
    → f.lf_used ≡ true
    → Loaded f
    → f.lfbyte ≡ f.lfpos % 512
    → f.lfpos ≤ (l.lf_dir.lfd_files f.lfdirptr).ld_size
    → (l.lf_dir.lfd_files f.lfdirptr).ld_size < 4294967295
    → ch < 256
    → (l1 : Lfs) × (f1 : Lflcblk) × (f2 : Lflcblk) × (l3 : Lfs) × (f3 : Lflcblk) × (lflputc
          (suc fuel)
          ch
          f
          l
        ≡ some (l1, f1, true))
      × (lflseek f.lfpos f1 l1 ≡ (f2, true))
      × (lflgetc (suc fuel) f2 l1 ≡ some (l3, f3, Got.byte ch))
      × (f3.lfpos ≡ f.lfpos + 1)
unfolding lflseek
lflputc-lflgetc fuel ch f l used d at fits small char =
    let l1 : Lfs = grow f l in
    let f1 : Lflcblk = record f {
      lfdblock = set_cell f.lfbyte ch f.lfdblock;
      lfbyte = f.lfbyte + 1;
      lfpos = (f.lfpos + 1) % 2 ^ 32;
      lfdbdirty = true;
    } in
    let f2 : Lflcblk = record f1 { lfpos = f.lfpos; lfbyte = 512 } in
    let size : f.lfpos < (l1.lf_dir.lfd_files f.lfdirptr).ld_size = grow-size f l fits small in
    let d2 : Loaded f2 = record {
      index = d.index;
      covers = d.covers;
      block = d.block;
      there = d.there;
    } in
    let (f3, runs, pos) = lflgetc-Loaded fuel f2 l1 used refl d2 size in
    let inside : ltb (l1.lf_dir.lfd_files f.lfdirptr).ld_size f.lfpos ≡ false = ground arith in
    let cell : (f.lfpos % 512 == f.lfbyte) ≡ true = ground arith in
    (
      l1,
      f1,
      f2,
      (clean_up f2 l1).0,
      f3,
      lflputc-Loaded (suc fuel) ch f l used (omega arith) fits,
      ap
            (λ b.
              if b
              then (if ltb (l1.lf_dir.lfd_files f.lfdirptr).ld_size f.lfpos
                  then (f1, false)
                  else (f2, true))
              else (f1, false))
            used
          ∙ ap (λ b. if b then (f1, false) else (f2, true)) inside,
      runs
          ∙ ap (λ b. some ((clean_up f2 l1).0, f3, Got.byte b))
              (ap (λ b. (if b then ch else f.lfdblock (f.lfpos % 512)) % 256) cell ∙ omega arith),
      pos ∙ omega arith,
    )
