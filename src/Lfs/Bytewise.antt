-- ===== src/Lfs/Bytewise.antt =====
-- A byte written or read at the position, and a position sought.
use ece564_project.Prelude.{
  ℕ, suc, ◌+◌, ◌/◌, ◌%◌, ◌<◌, ◌≡◌, refl, sym, ap, subst, ◌∙◌, true, false, ltb, leb, if◌then◌else◌,
  some, List, length, arith,
}
use ece564_project.Prelude.Ring.{nth}
use ece564_project.Lfs.Disk.{Lfs}
use ece564_project.Lfs.File.{Lflcblk}
use ece564_project.Lfs.Position.{set_up, Got, take_byte, lflgetc, grow, put_byte, lflputc, lflseek}
use ece564_project.Lfs.Contents.{Contents, write_at}
use ece564_project.Lfs.Stored.{Stored, At}
use ece564_project.Lfs.Written.{put_in}
use ece564_project.Lfs.Models.{Models, set_up-Models, put_in-Models, passed, passed-Models, sought}

lflputc-Models :
    (fuel ch : ℕ) (f : Lflcblk) (l : Lfs) (c : Contents) (ys : List ℕ)
    → Models f l c ys
    → lflputc fuel ch f l ≡ put_byte ch (set_up fuel f l)
unfolding lflputc
lflputc-Models fuel ch f l c ys m =
    let size = m.size in
    let position = m.position in
    let near = m.near in
    let inside : ltb (l.lf_dir.lfd_files f.lfdirptr).ld_size f.lfpos ≡ false = ground arith in
    rw (m.used, inside) refl

pub put_step :
    (fuel ch : ℕ) (f : Lflcblk) (l : Lfs) (c : Contents) (ys : List ℕ)
    → Models f l c ys
    → c.at < 8192
    → (l' : Lfs) × (f' : Lflcblk) × (ys' : List ℕ) × (lflputc (suc fuel) ch f l
        ≡ some (l', f', true))
      × Models f' l' (record { bytes = write_at c.at ch c.bytes; at = c.at + 1 }) ys'
put_step fuel ch f l c ys m h =
    let (l1, f1, ys1, runs, s1, a1, at) = set_up-Models fuel f l c ys m h in
    let near = m.near in
    (
      grow f1 l1,
      put_in ch f1,
      ys1,
      lflputc-Models (suc fuel) ch f l c ys m ∙ ap (put_byte ch) runs,
      subst
          (λ k.
            Models (put_in ch f1) (grow f1 l1)
              (record { bytes = write_at k ch c.bytes; at = k + 1 }) ys1)
          at (put_in-Models ch f1 l1 c.bytes ys1 s1 a1 (omega arith) (omega arith)),
    )

lflgetc-Models :
    (fuel : ℕ) (f : Lflcblk) (l : Lfs) (c : Contents) (ys : List ℕ)
    → Models f l c ys
    → lflgetc fuel f l
      ≡ (if leb (length c.bytes) c.at then some (l, f, Got.at_end) else take_byte (set_up fuel f l))
unfolding lflgetc
lflgetc-Models fuel f l c ys m = rw (m.used, m.size, m.position) refl

-- The byte at the position, in the block in memory.
byte_here :
    (f : Lflcblk) (l : Lfs) (c : Contents) (ys : List ℕ)
    → Stored f l c.bytes ys
    → At f
    → f.lfpos ≡ c.at
    → c.at < length c.bytes
    → f.lfdblock f.lfbyte ≡ nth c.bytes c.at
byte_here f l c ys s a e h =
    let here : f.lfbyte ≡ c.at % 512 = a.here ∙ ap (λ k. k % 512) e in
    let block = ap (λ k. f.lfiblock.ib_dba (k / 512)) (sym e) ∙ a.block in
    ap f.lfdblock here ∙ s.in_memory c.at h (ground arith)

pub get_end :
    (fuel : ℕ) (f : Lflcblk) (l : Lfs) (c : Contents) (ys : List ℕ)
    → Models f l c ys
    → leb (length c.bytes) c.at ≡ true
    → lflgetc fuel f l ≡ some (l, f, Got.at_end)
get_end fuel f l c ys m e = lflgetc-Models fuel f l c ys m ∙ rw e refl

pub get_step :
    (fuel : ℕ) (f : Lflcblk) (l : Lfs) (c : Contents) (ys : List ℕ)
    → Models f l c ys
    → leb (length c.bytes) c.at ≡ false
    → (l' : Lfs) × (f' : Lflcblk) × (ys' : List ℕ) × (lflgetc (suc fuel) f l
        ≡ some (l', f', Got.byte (nth c.bytes c.at % 256)))
      × Models f' l' (record c { at = c.at + 1 }) ys'
get_step fuel f l c ys m e =
    let inside : c.at < length c.bytes = ground arith in
    let fits = m.fits in
    let (l1, f1, ys1, runs, s1, a1, at) = set_up-Models fuel f l c ys m (omega arith) in
    (
      l1,
      passed f1,
      ys1,
      lflgetc-Models (suc fuel) f l c ys m
          ∙ ap (λ b. if b then some (l, f, Got.at_end) else take_byte (set_up (suc fuel) f l)) e
          ∙ ap take_byte runs
          ∙ ap (λ b. some (l1, passed f1, Got.byte (b % 256)))
              (byte_here f1 l1 c ys1 s1 a1 at inside),
      passed-Models f1 l1 c ys1 s1 a1 at inside,
    )

pub lflseek-Models :
    (offset : ℕ) (f : Lflcblk) (l : Lfs) (c : Contents) (ys : List ℕ)
    → Models f l c ys
    → lflseek offset f l
      ≡ (if ltb (length c.bytes) offset then (f, false) else (sought offset f, true))
unfolding lflseek
lflseek-Models offset f l c ys m =
    ap
      (λ b.
        if b
        then (if ltb (l.lf_dir.lfd_files f.lfdirptr).ld_size offset
            then (f, false)
            else (sought offset f, true))
        else (f, false))
      m.used
    ∙ ap (λ n. if ltb n offset then (f, false) else (sought offset f, true)) m.size
