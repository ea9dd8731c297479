-- ===== src/Lfs/Loaded.antt =====
-- The data block of a position, in device/lfs/lfsetup.c.
use ece564_project.Prelude.{
  ℕ, ◌*◌, ◌/◌, ◌%◌, ◌<◌, ◌≡◌, refl, sym, ap, subst, ◌∙◌, Bool, true, false, ◌&&◌, ◌==◌,
  if◌then◌else◌, Bool-cases, inl, inr, some, List, [], ◌∷◌, length, arith,
}
use ece564_project.Prelude.Ring.{nth}
use ece564_project.Queue.Chain
use ece564_project.Lfs.Disk.{lf_dnull, Lfs, lfdballoc, nextdb, write_dir}
use ece564_project.Lfs.File.{Lflcblk}
use ece564_project.Lfs.Position.{FileStep, new_data, set_dba, load_data}
use ece564_project.Lfs.Blocks.{Blocks-new, new-apart, places-some}
use ece564_project.Lfs.Stored.{Bytes, Stored, At, Stored-moved}

-- The step ends with the byte pointer at the position `pos`, and the file's bytes are the same.
abbrev pub Ready : FileStep → Bytes → ℕ → Type 0
Ready o xs pos =
    (l : Lfs) × (f : Lflcblk) × (ys : List ℕ) × (o ≡ some (l, f))
    × Stored f l xs ys
    × At f
    × (f.lfpos ≡ pos)

load_data-new :
    (f : Lflcblk) (l : Lfs)
    → f.lfpos < 8192
    → f.lfiblock.ib_dba (f.lfpos / 512) ≡ lf_dnull
    → load_data f l ≡ new_data (f.lfpos / 512) f (lfdballoc l)
unfolding load_data
load_data-new f l h e =
    let i : f.lfpos % 8192 / 512 ≡ f.lfpos / 512 = omega arith in
    let out : (f.lfiblock.ib_dba (f.lfpos / 512) == lf_dnull) ≡ true = ground arith in
    rw (i, out) refl

abbrev loaded : Lflcblk → (ℕ → ℕ) → ℕ → Bool → Lflcblk
loaded f bytes dnum dirty = record f {
  lfdblock = bytes;
  lfdbdirty = dirty;
  lfdnum = dnum;
  lfbyte = f.lfpos % 512;
}

load_data-old :
    (f : Lflcblk) (l : Lfs)
    → f.lfpos < 8192
    → (f.lfiblock.ib_dba (f.lfpos / 512) == lf_dnull) ≡ false
    → load_data f l ≡ (
        if f.lfiblock.ib_dba (f.lfpos / 512) == f.lfdnum
        then some (l, record f { lfbyte = f.lfpos % 512 })
        else some (
          l,
          loaded f
              (l.disk.dblocks (f.lfiblock.ib_dba (f.lfpos / 512)))
              (f.lfiblock.ib_dba (f.lfpos / 512))
              false,
        ))
unfolding load_data
load_data-old f l h e = let i : f.lfpos % 8192 / 512 ≡ f.lfpos / 512 = omega arith in rw (i, e) refl

lfdballoc-some :
    (l : Lfs) (d : ℕ)
    → l.lf_dir.lfd_dfree ≡ d
    → (d == lf_dnull) ≡ false
    → lfdballoc l
      ≡ some (
        record (write_dir
            (record l { lf_dir = record l.lf_dir { lfd_dfree = nextdb (l.disk.dblocks d) } })) {
              lf_dirdirty = false;
            },
        d,
        λ i. 43,
      )
unfolding lfdballoc
lfdballoc-some l d e o = rw (e, o) refl

on_disk_clean :
    (f : Lflcblk) (l : Lfs) (xs : Bytes) (ys : List ℕ)
    → Stored f l xs ys
    → f.lfdbdirty ≡ false
    → (q : ℕ) → q < length xs
    → l.disk.dblocks (f.lfiblock.ib_dba (q / 512)) (q % 512) ≡ nth xs q
on_disk_clean f l xs ys s clean q h =
    s.on_disk q h (ap (λ b. b && (f.lfiblock.ib_dba (q / 512) == f.lfdnum)) clean)

-- The block of the position is in memory.
same-Ready :
    (f : Lflcblk) (l : Lfs) (xs : Bytes) (ys : List ℕ)
    → Stored f l xs ys
    → f.lfiblock.ib_dba (f.lfpos / 512) ≡ f.lfdnum
    → (f.lfiblock.ib_dba (f.lfpos / 512) == lf_dnull) ≡ false
    → Ready (some (l, record f { lfbyte = f.lfpos % 512 })) xs f.lfpos
same-Ready f l xs ys s e o = (
  l,
  record f { lfbyte = f.lfpos % 512 },
  ys,
  refl,
  Stored-moved f l xs ys f.lfpos (f.lfpos % 512) s,
  record { here = refl; block = e; there = ap (λ k. k == lf_dnull) (sym e) ∙ o },
  refl,
)

-- It is read from the disk.
other-Ready :
    (f : Lflcblk) (l : Lfs) (xs : Bytes) (ys : List ℕ) (d : ℕ)
    → Stored f l xs ys
    → f.lfdbdirty ≡ false
    → f.lfpos < 8192
    → f.lfiblock.ib_dba (f.lfpos / 512) ≡ d
    → (d == lf_dnull) ≡ false
    → Ready (some (l, loaded f (l.disk.dblocks d) d false)) xs f.lfpos
other-Ready f l xs ys d s clean h e o =
    let dba : ℕ → ℕ = f.lfiblock.ib_dba in
    let given : (dba (f.lfpos / 512) == lf_dnull) ≡ false = ap (λ k. k == lf_dnull) e ∙ o in
    (
      l,
      loaded f (l.disk.dblocks d) d false,
      ys,
      refl,
      record {
        used = s.used;
        index = s.index;
        first = s.first;
        size = s.size;
        only = s.only;
        unlisted = s.unlisted;
        listed = s.listed;
        index_kept = s.index_kept;
        fits = s.fits;
        blocks = s.blocks;
        free = s.free;
        apart =
            subst (λ k. Chain.has k ys ≡ false) e
              (s.blocks.owned (f.lfpos / 512) (omega arith) given);
        on_disk = λ q g c. on_disk_clean f l xs ys s clean q g;
        in_memory = λ q g c.
            let same : dba (q / 512) ≡ d = ground arith in
            subst (λ k. l.disk.dblocks k (q % 512) ≡ nth xs q) same
              (on_disk_clean f l xs ys s clean q g);
      },
      record { here = refl; block = e; there = o },
      refl,
    )

place_apart :
    (dba : ℕ → ℕ) (size i q : ℕ)
    → dba i ≡ lf_dnull
    → ((k : ℕ) → k * 512 < size → (dba k == lf_dnull) ≡ false)
    → q < size
    → (q / 512 == i) ≡ false
place_apart dba size i q e given h = elim (Bool-cases (q / 512 == i)) [
  | inl c ↦
      let same : q / 512 ≡ i = ground arith in
      let clash = ap (λ k. dba k == lf_dnull) same ∙ ap (λ k. k == lf_dnull) e in
      let some_block = given (q / 512) (omega arith) in absurd (ground arith)
  | inr c ↦ c
]

-- It is the first of the free blocks.
new-Ready :
    (f : Lflcblk) (l : Lfs) (xs : Bytes) (d : ℕ) (ys : List ℕ)
    → Stored f l xs (d ∷ ys)
    → f.lfdbdirty ≡ false
    → f.lfpos < 8192
    → f.lfiblock.ib_dba (f.lfpos / 512) ≡ lf_dnull
    → Ready (new_data (f.lfpos / 512) f (lfdballoc l)) xs f.lfpos
new-Ready f l xs d ys s clean h e =
    let i : ℕ = f.lfpos / 512 in
    let dba : ℕ → ℕ = f.lfiblock.ib_dba in
    let there : (d == lf_dnull) ≡ false = let real = s.blocks.real in ground arith in
    let l1 : Lfs =
      record (write_dir
        (record l { lf_dir = record l.lf_dir { lfd_dfree = nextdb (l.disk.dblocks d) } })) {
          lf_dirdirty = false;
        } in
    let here : (i == i) ≡ true = ground arith in
    let away = λ (q : ℕ) (g : q < length xs). place_apart dba (length xs) i q e s.blocks.given g in
    (
      l1,
      record f {
        lfdblock = λ i. 43;
        lfiblock = set_dba i d f.lfiblock;
        lfibdirty = true;
        lfdnum = d;
        lfbyte = f.lfpos % 512;
      },
      ys,
      ap (new_data i f) (lfdballoc-some l d s.free.0 there),
      record {
        used = s.used;
        index = s.index;
        first = s.first;
        size = s.size;
        only = s.only;
        unlisted = s.unlisted;
        listed = s.listed;
        index_kept = λ clean_index. absurd (ground arith);
        fits = s.fits;
        blocks = Blocks-new dba (length xs) i d ys s.blocks (omega arith) e;
        free = s.free.1;
        apart = s.blocks.distinct.0;
        on_disk = λ q g c. rw (away q g) (on_disk_clean f l xs (d ∷ ys) s clean q g);
        in_memory = λ q g. rw (away q g) (λ c.
            let fits = s.fits in
            let unlike = new-apart dba (length xs) d ys s.blocks (q / 512) (omega arith) in
            absurd (ground arith));
      },
      record { here = refl; block = rw here refl; there = there },
      refl,
    )

some-Ready :
    (f : Lflcblk) (l : Lfs) (xs : Bytes) (ys : List ℕ)
    → Stored f l xs ys
    → f.lfdbdirty ≡ false
    → f.lfpos < 8192
    → f.lfiblock.ib_dba (f.lfpos / 512) ≡ lf_dnull
    → Ready (new_data (f.lfpos / 512) f (lfdballoc l)) xs f.lfpos
some-Ready f l xs [] s clean h e =
    let enough = s.blocks.enough in
    let needed = places-some 16 (f.lfpos / 512) f.lfiblock.ib_dba (omega arith) e in
    absurd (omega arith)
some-Ready f l xs (d ∷ ys) s clean h e = new-Ready f l xs d ys s clean h e

pub load_data-Ready :
    (f : Lflcblk) (l : Lfs) (xs : Bytes) (ys : List ℕ)
    → Stored f l xs ys
    → f.lfdbdirty ≡ false
    → f.lfpos < 8192
    → Ready (load_data f l) xs f.lfpos
load_data-Ready f l xs ys s clean h =
    let dba : ℕ → ℕ = f.lfiblock.ib_dba in
    let d : ℕ = dba (f.lfpos / 512) in
    elim (Bool-cases (d == lf_dnull)) [
      | inl e ↦
          let empty : d ≡ lf_dnull = ground arith in
          subst (λ o. Ready o xs f.lfpos) (sym (load_data-new f l h empty))
            (some-Ready f l xs ys s clean h empty)
      | inr e ↦
          subst (λ o. Ready o xs f.lfpos) (sym (load_data-old f l h e))
            (elim (Bool-cases (d == f.lfdnum)) [
              | inl c ↦ rw c (same-Ready f l xs ys s (ground arith) e)
              | inr c ↦ rw c (other-Ready f l xs ys d s clean h refl e)
            ])
    ]
