-- ===== src/Lfs/Written.antt =====
-- What device/lfs/lflputc.c changes in the bytes of a file of one index block.
use ece564_project.Prelude.{
  ℕ, ◌+◌, ◌/◌, ◌%◌, ◌^◌, ◌≤◌, ◌<◌, ◌≡◌, refl, sym, ap, subst, ◌∙◌, Bool, true, false, ◌&&◌, leb,
  ◌==◌, if◌then◌else◌, Bool-cases, inl, inr, List, length, arith,
}
use ece564_project.Prelude.Ring.{nth, set_cell}
use ece564_project.Lfs.Disk.{lf_dnull, Disk, Lfs}
use ece564_project.Lfs.File.{Lflcblk}
use ece564_project.Lfs.Position.{grow}
use ece564_project.Lfs.Contents.{write_at, length-write_at, nth-write_at}
use ece564_project.Lfs.Blocks.{Free, Blocks, Blocks-grow}
use ece564_project.Lfs.Stored.{Bytes, Stored, At}

grow_size :
    (f : Lflcblk) (l : Lfs)
    → ((grow f l).lf_dir.lfd_files f.lfdirptr).ld_size ≡ (
        if leb (l.lf_dir.lfd_files f.lfdirptr).ld_size f.lfpos
        then ((l.lf_dir.lfd_files f.lfdirptr).ld_size + 1) % 2 ^ 32
        else (l.lf_dir.lfd_files f.lfdirptr).ld_size)
grow_size f l = elim (Bool-cases (leb (l.lf_dir.lfd_files f.lfdirptr).ld_size f.lfpos)) [
  | inl e ↦ let same : (f.lfdirptr == f.lfdirptr) ≡ true = ground arith in rw (e, same) refl
  | inr e ↦ rw e refl
]

grow-disk : (f : Lflcblk) (l : Lfs) → (grow f l).disk ≡ l.disk
grow-disk f l = elim (Bool-cases (leb (l.lf_dir.lfd_files f.lfdirptr).ld_size f.lfpos)) [
  | inl e ↦ rw e refl
  | inr e ↦ rw e refl
]

grow-ifree : (f : Lflcblk) (l : Lfs) → (grow f l).lf_dir.lfd_ifree ≡ l.lf_dir.lfd_ifree
grow-ifree f l = elim (Bool-cases (leb (l.lf_dir.lfd_files f.lfdirptr).ld_size f.lfpos)) [
  | inl e ↦ rw e refl
  | inr e ↦ rw e refl
]

grow-ilist :
    (f : Lflcblk) (l : Lfs)
    → ((grow f l).lf_dir.lfd_files f.lfdirptr).ld_ilist ≡ (l.lf_dir.lfd_files f.lfdirptr).ld_ilist
grow-ilist f l = elim (Bool-cases (leb (l.lf_dir.lfd_files f.lfdirptr).ld_size f.lfpos)) [
  | inl e ↦ let same : (f.lfdirptr == f.lfdirptr) ≡ true = ground arith in rw (e, same) refl
  | inr e ↦ rw e refl
]

grow-dfree : (f : Lflcblk) (l : Lfs) → (grow f l).lf_dir.lfd_dfree ≡ l.lf_dir.lfd_dfree
grow-dfree f l = elim (Bool-cases (leb (l.lf_dir.lfd_files f.lfdirptr).ld_size f.lfpos)) [
  | inl e ↦ rw e refl
  | inr e ↦ rw e refl
]

abbrev pub put_in : ℕ → Lflcblk → Lflcblk
put_in ch f = record f {
  lfdblock = set_cell f.lfbyte ch f.lfdblock;
  lfbyte = f.lfbyte + 1;
  lfpos = (f.lfpos + 1) % 2 ^ 32;
  lfdbdirty = true;
}

write_at-Blocks :
    (dba : ℕ → ℕ) (pos ch : ℕ) (xs : Bytes) (ys : List ℕ)
    → Blocks dba (length xs) ys
    → pos ≤ length xs
    → (dba (pos / 512) == lf_dnull) ≡ false
    → Blocks dba (length (write_at pos ch xs)) ys
write_at-Blocks dba pos ch xs ys b near o =
    let len = length-write_at pos ch xs near in
    subst (λ n. Blocks dba n ys) (sym len)
      (elim (Bool-cases (leb (length xs) pos)) [
        | inl e ↦
            let same : pos ≡ length xs = ground arith in
            rw e (
              Blocks-grow dba (length xs) ys b (ap (λ k. dba (k / 512) == lf_dnull) (sym same) ∙ o))
        | inr e ↦ rw e b
      ])

-- A byte other than the one at the position was there before.
put_other :
    (pos ch q : ℕ) (xs : Bytes)
    → pos ≤ length xs
    → q < length (write_at pos ch xs)
    → (q == pos) ≡ false
    → (q < length xs) × (nth (write_at pos ch xs) q ≡ nth xs q)
put_other pos ch q xs near h o =
    let len = length-write_at pos ch xs near in
    (ground arith, nth-write_at pos ch xs q near h ∙ rw o refl)

put_here :
    (pos ch : ℕ) (xs : Bytes)
    → pos ≤ length xs
    → pos < length (write_at pos ch xs)
    → nth (write_at pos ch xs) pos ≡ ch
put_here pos ch xs near h =
    let same : (pos == pos) ≡ true = ground arith in
    nth-write_at pos ch xs pos near h ∙ rw same refl

put_in-in_memory :
    (ch : ℕ) (f : Lflcblk) (l : Lfs) (xs : Bytes) (ys : List ℕ)
    → Stored f l xs ys
    → At f
    → f.lfpos ≤ length xs
    → f.lfpos < 8192
    → (q : ℕ) → q < length (write_at f.lfpos ch xs)
    → (f.lfiblock.ib_dba (q / 512) == f.lfdnum) ≡ true
    → set_cell f.lfbyte ch f.lfdblock (q % 512) ≡ nth (write_at f.lfpos ch xs) q
put_in-in_memory ch f l xs ys s a near h q g c = elim (Bool-cases (q == f.lfpos)) [
  | inl e ↦
      let same : q ≡ f.lfpos = ground arith in
      let cell : (q % 512 == f.lfbyte) ≡ true = let here = a.here in ground arith in
      rw cell (
        sym (
          ap (nth (write_at f.lfpos ch xs)) same
          ∙ put_here f.lfpos ch xs near (subst (λ k. k < length (write_at f.lfpos ch xs)) same g)))
  | inr e ↦
      let (old, byte) = put_other f.lfpos ch q xs near g e in
      let fits = s.fits in
      let given : (f.lfiblock.ib_dba (q / 512) == lf_dnull) ≡ false =
        s.blocks.given (q / 512) (omega arith) in
      let block = a.block in
      let there : f.lfiblock.ib_dba (q / 512) ≡ f.lfiblock.ib_dba (f.lfpos / 512) = ground arith in
      let one : q / 512 ≡ f.lfpos / 512 =
        s.blocks.once (q / 512) (f.lfpos / 512) (omega arith) (omega arith) given there in
      let here = a.here in
      let cell : (q % 512 == f.lfbyte) ≡ false = ground arith in
      rw cell (s.in_memory q old c ∙ sym byte)
]

unlike : (a b : Bool) → b ≡ false → (a && b) ≡ false
unlike true b e = e
unlike false b e = refl

grown :
    (n pos : ℕ)
    → n ≤ 8192
    → (if leb n pos then (n + 1) % 2 ^ 32 else n) ≡ (if leb n pos then n + 1 else n)
grown n pos h = elim (Bool-cases (leb n pos)) [ inl e ↦ rw e (omega arith) | inr e ↦ rw e refl ]

-- Within a block, the pointer and the position go on together.
pub next_pointer :
    (f : Lflcblk)
    → At f
    → f.lfpos < 8192
    → f.lfbyte + 1 < 512
    → (f.lfbyte + 1 ≡ (f.lfpos + 1) % 2 ^ 32 % 512)
      × (f.lfiblock.ib_dba ((f.lfpos + 1) % 2 ^ 32 / 512) ≡ f.lfdnum)
next_pointer f a h k =
    let here = a.here in
    let place : (f.lfpos + 1) % 2 ^ 32 / 512 ≡ f.lfpos / 512 = omega arith in
    (omega arith, ap f.lfiblock.ib_dba place ∙ a.block)

put_in-on_disk :
    (ch : ℕ) (f : Lflcblk) (l : Lfs) (xs : Bytes) (ys : List ℕ)
    → Stored f l xs ys
    → At f
    → f.lfpos ≤ length xs
    → (q : ℕ) → q < length (write_at f.lfpos ch xs)
    → (f.lfiblock.ib_dba (q / 512) == f.lfdnum) ≡ false
    → l.disk.dblocks (f.lfiblock.ib_dba (q / 512)) (q % 512) ≡ nth (write_at f.lfpos ch xs) q
put_in-on_disk ch f l xs ys s a near q g c = elim (Bool-cases (q == f.lfpos)) [
  | inl e ↦
      let same : q ≡ f.lfpos = ground arith in
      let block = ap (λ k. f.lfiblock.ib_dba (k / 512)) same ∙ a.block in absurd (ground arith)
  | inr e ↦
      let (old, byte) = put_other f.lfpos ch q xs near g e in
      s.on_disk q old (unlike f.lfdbdirty (f.lfiblock.ib_dba (q / 512) == f.lfdnum) c) ∙ sym byte
]

pub put_in-Stored :
    (ch : ℕ) (f : Lflcblk) (l : Lfs) (xs : Bytes) (ys : List ℕ)
    → Stored f l xs ys
    → At f
    → f.lfpos ≤ length xs
    → f.lfpos < 8192
    → Stored (put_in ch f) (grow f l) (write_at f.lfpos ch xs) ys
put_in-Stored ch f l xs ys s a near h =
    let len = length-write_at f.lfpos ch xs near in
    let fits = s.fits in
    let size = s.size in
    let l2 : Lfs = grow f l in
    let there : (f.lfiblock.ib_dba (f.lfpos / 512) == lf_dnull) ≡ false =
      ap (λ k. k == lf_dnull) a.block ∙ a.there in
    record {
      used = s.used;
      index = s.index;
      first = s.first;
      size = grow_size f l ∙ rw size (grown (length xs) f.lfpos fits) ∙ sym len;
      only = s.only;
      unlisted = ap (λ k. f.lfinum == k) (grow-ifree f l) ∙ s.unlisted;
      listed = grow-ilist f l ∙ s.listed;
      index_kept =
          λ clean. ap (λ (d : Disk). d.iblocks f.lfinum) (grow-disk f l) ∙ s.index_kept clean;
      fits = ground arith;
      blocks = write_at-Blocks f.lfiblock.ib_dba f.lfpos ch xs ys s.blocks near there;
      free =
          subst (λ d. Free d.dblocks l2.lf_dir.lfd_dfree ys) (sym (grow-disk f l))
            (subst (λ k. Free l.disk.dblocks k ys) (sym (grow-dfree f l)) s.free);
      apart = s.apart;
      on_disk = λ q g c.
          ap (λ (d : Disk). d.dblocks (f.lfiblock.ib_dba (q / 512)) (q % 512)) (grow-disk f l)
          ∙ put_in-on_disk ch f l xs ys s a near q g c;
      in_memory = put_in-in_memory ch f l xs ys s a near h;
    }
