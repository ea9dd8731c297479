-- ===== src/Lfs/Cut.antt =====
-- device/lfs/lftruncate.c as an operation of a sequence of bytes.
use ece564_project.Prelude.{
  ℕ, suc, ◌≡◌, refl, sym, ap, subst, ◌∙◌, true, false, ◌==◌, Bool-cases, inl, inr, Option, some,
  List, [], ◌∷◌, length, arith,
}
use ece564_project.Lfs.Disk.{Ldentry, Lfs}
use ece564_project.Lfs.File.{Lflcblk, clean_up, rewound, lftruncate}
use ece564_project.Lfs.Position.{get_index}
use ece564_project.Lfs.Contents.{Contents}
use ece564_project.Lfs.Stored.{Bytes, Stored, cleaned, clean_up-dir, clean_up-Stored, clean_up-file}
use ece564_project.Lfs.Opened.{Opened, clean_up_none}
use ece564_project.Lfs.Models.{Models}
use ece564_project.Lfs.Emptied.{lftruncate-emptied, emptied-Opened}

abbrev pub no_contents : Contents
no_contents = record { bytes = []; at = 0 }

abbrev Cut : Option (Lfs × Lflcblk) → Type 0
Cut o = (l : Lfs) × (f : Lflcblk) × (ys : List ℕ) × (o ≡ some (l, f)) × Models f l no_contents ys

Opened-Models :
    (f : Lflcblk) (l : Lfs) (ys : List ℕ)
    → Opened f l [] ys
    → f.lfpos ≡ 0
    → Models f l no_contents ys
Opened-Models f l ys o e = record {
  used = o.used;
  size = o.size;
  fits = omega arith;
  held = inl o;
  position = e;
  near = omega arith;
  pointer = λ h. let out = o.out in absurd (omega arith);
}

lftruncate_none :
    (fuel : ℕ) (junk : ℕ → ℕ → ℕ) (f : Lflcblk) (l : Lfs)
    → ((l.lf_dir.lfd_files f.lfdirptr).ld_size == 0) ≡ true
    → lftruncate fuel junk f l ≡ some (l, f)
unfolding lftruncate
lftruncate_none fuel junk f l e = rw e refl

no_bytes_left : (xs : Bytes) → length xs ≡ 0 → xs ≡ []
no_bytes_left [] h = refl
no_bytes_left (x ∷ xs) h = absurd (omega arith)

nothing-Cut :
    (fuel : ℕ) (junk : ℕ → ℕ → ℕ) (f : Lflcblk) (l : Lfs) (c : Contents) (ys : List ℕ)
    → Models f l c ys
    → ((l.lf_dir.lfd_files f.lfdirptr).ld_size == 0) ≡ true
    → Cut (lftruncate fuel junk f l)
nothing-Cut fuel junk f l c ys m e =
    let size = m.size in
    let near = m.near in
    let left : c.bytes ≡ [] = no_bytes_left c.bytes (ground arith) in
    let at : c.at ≡ 0 = ground arith in
    (
      l,
      f,
      ys,
      lftruncate_none fuel junk f l e,
      subst (λ k. Models f l (record { bytes = []; at = k }) ys) at
          (subst (λ xs. Models f l (record { bytes = xs; at = c.at }) ys) left m),
    )

Stored-Cut :
    (fuel : ℕ) (junk : ℕ → ℕ → ℕ) (f g f1 : Lflcblk) (l l1 : Lfs) (xs : Bytes) (ys : List ℕ)
    → ((l.lf_dir.lfd_files f.lfdirptr).ld_size == 0) ≡ false
    → clean_up f l ≡ (l1, f1)
    → l1.lf_dir ≡ l.lf_dir
    → Stored g l1 xs ys
    → g.lfibdirty ≡ false
    → g.lfdirptr ≡ f.lfdirptr
    → f1 ≡ cleaned f
    → f.lf_used ≡ true
    → Cut (lftruncate (suc (suc fuel)) junk f l)
Stored-Cut fuel junk f g f1 l l1 xs ys full flushed dir s clean e file used =
    let entry : Ldentry = l.lf_dir.lfd_files f.lfdirptr in
    let o = emptied-Opened f g f1 l1 xs ys junk entry s clean e file used in
    (
      _,
      rewound f1,
      _,
      lftruncate-emptied fuel junk f g f1 l l1 xs ys full flushed dir s clean e,
      Opened-Models (rewound f1) _ _ o refl,
    )

pub truncate_step :
    (fuel : ℕ) (junk : ℕ → ℕ → ℕ) (f : Lflcblk) (l : Lfs) (c : Contents) (ys : List ℕ)
    → Models f l c ys
    → Cut (lftruncate (suc (suc fuel)) junk f l)
truncate_step fuel junk f l c ys m =
    elim (Bool-cases ((l.lf_dir.lfd_files f.lfdirptr).ld_size == 0)) [
      | inl e ↦ nothing-Cut (suc (suc fuel)) junk f l c ys m e
      | inr e ↦ elim m.held [
        | inr s ↦
            Stored-Cut fuel junk f (cleaned f) (clean_up f l).1 l (clean_up f l).0 c.bytes ys e refl
              (clean_up-dir f l) (clean_up-Stored f l c.bytes ys s) refl refl
              (clean_up-file f l m.used) m.used
        | inl o ↦ elim o.blocks [
          | inl b ↦
              let size = m.size in
              let none_there = ap (λ (t : Bytes). length t) b.nothing in absurd (ground arith)
          | inr b ↦
              let flushed = clean_up_none f l o.index_clean o.data_clean in
              Stored-Cut fuel junk f (get_index (l.lf_dir.lfd_files f.lfdirptr).ld_ilist f l) f l l
                c.bytes ys e flushed refl b.stored o.index_clean refl
                (sym (ap (λ (p : Lfs × Lflcblk). p.1) flushed) ∙ clean_up-file f l m.used) m.used
        ]
      ]
    ]
