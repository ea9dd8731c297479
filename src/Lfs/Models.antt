-- ===== src/Lfs/Models.antt =====
-- The sequence of bytes and the position that an open file stands for.
use ece564_project.Prelude.{
  ℕ, suc, ◌+◌, ◌%◌, ◌^◌, ◌≤◌, ◌<◌, ◌≡◌, refl, subst, true, leb, ◌⊎◌, inl, inr, List, length, arith,
}
use ece564_project.Lfs.Disk.{Lfs}
use ece564_project.Lfs.File.{Lflcblk}
use ece564_project.Lfs.Position.{get_index, set_up, grow}
use ece564_project.Lfs.Contents.{Contents, write_at, length-write_at}
use ece564_project.Lfs.Stored.{Bytes, Stored, Stored-moved, At}
use ece564_project.Lfs.Loaded.{Ready}
use ece564_project.Lfs.Setup.{set_up-Ready}
use ece564_project.Lfs.Opened.{Opened, lfsetup-Opened}
use ece564_project.Lfs.Written.{put_in, put_in-Stored, next_pointer}

pub record Models (f : Lflcblk) (l : Lfs) (c : Contents) (ys : List ℕ) : Type 0 where
  pub used : f.lf_used ≡ true
  pub size : (l.lf_dir.lfd_files f.lfdirptr).ld_size ≡ length c.bytes
  pub fits : length c.bytes ≤ 8192
  pub held : Opened f l c.bytes ys ⊎ Stored f l c.bytes ys
  pub position : f.lfpos ≡ c.at
  pub near : c.at ≤ length c.bytes
  pub pointer : f.lfbyte < 512 → At f

Stored-Models :
    (f : Lflcblk) (l : Lfs) (c : Contents) (ys : List ℕ)
    → Stored f l c.bytes ys
    → f.lfpos ≡ c.at
    → c.at ≤ length c.bytes
    → (f.lfbyte < 512 → At f)
    → Models f l c ys
Stored-Models f l c ys s e n p = record {
  used = s.used;
  size = s.size;
  fits = s.fits;
  held = inr s;
  position = e;
  near = n;
  pointer = p;
}

-- Before a byte is read or written, its block is in memory.
pub set_up-Models :
    (fuel : ℕ) (f : Lflcblk) (l : Lfs) (c : Contents) (ys : List ℕ)
    → Models f l c ys
    → c.at < 8192
    → Ready (set_up (suc fuel) f l) c.bytes c.at
set_up-Models fuel f l c ys m h =
    let position = m.position in
    subst (Ready (set_up (suc fuel) f l) c.bytes) position (elim m.held [
      | inl o ↦
          let out = o.out in
          let beyond : leb 512 f.lfbyte ≡ true = ground arith in
          rw beyond (lfsetup-Opened fuel f l c.bytes ys o (omega arith))
      | inr s ↦ set_up-Ready fuel f l c.bytes ys s m.pointer (omega arith)
    ])

pub put_in-Models :
    (ch : ℕ) (f : Lflcblk) (l : Lfs) (xs : Bytes) (ys : List ℕ)
    → Stored f l xs ys
    → At f
    → f.lfpos ≤ length xs
    → f.lfpos < 8192
    → Models
        (put_in ch f)
        (grow f l)
        (record { bytes = write_at f.lfpos ch xs; at = f.lfpos + 1 })
        ys
put_in-Models ch f l xs ys s a near h =
    let len = length-write_at f.lfpos ch xs near in
    Stored-Models (put_in ch f) (grow f l)
      (record { bytes = write_at f.lfpos ch xs; at = f.lfpos + 1 }) ys
      (put_in-Stored ch f l xs ys s a near h) (omega arith) (ground arith)
      (λ k.
        let (here, block) = next_pointer f a h k in
        record { here = here; block = block; there = a.there })

abbrev pub passed : Lflcblk → Lflcblk
passed f = record f { lfbyte = f.lfbyte + 1; lfpos = (f.lfpos + 1) % 2 ^ 32 }

pub passed-Models :
    (f : Lflcblk) (l : Lfs) (c : Contents) (ys : List ℕ)
    → Stored f l c.bytes ys
    → At f
    → f.lfpos ≡ c.at
    → c.at < length c.bytes
    → Models (passed f) l (record c { at = c.at + 1 }) ys
passed-Models f l c ys s a e h =
    let fits = s.fits in
    Stored-Models (passed f) l (record c { at = c.at + 1 }) ys
      (Stored-moved f l c.bytes ys ((f.lfpos + 1) % 2 ^ 32) (f.lfbyte + 1) s) (omega arith)
      (omega arith)
      (λ k.
        let (here, block) = next_pointer f a (omega arith) k in
        record { here = here; block = block; there = a.there })

abbrev pub sought : ℕ → Lflcblk → Lflcblk
sought offset f = record f { lfpos = offset; lfbyte = 512 }

sought-Opened :
    (offset : ℕ) (f : Lflcblk) (l : Lfs) (xs : Bytes) (ys : List ℕ)
    → Opened f l xs ys
    → Opened (sought offset f) l xs ys
sought-Opened offset f l xs ys o = record {
  used = o.used;
  size = o.size;
  no_block = o.no_block;
  no_data = o.no_data;
  data_clean = o.data_clean;
  index_clean = o.index_clean;
  out = refl;
  blocks = elim o.blocks [
    | inl b ↦ inl (record {
      nothing = b.nothing;
      no_index = b.no_index;
      spare = b.spare;
      apart_next = b.apart_next;
      free = b.free;
      distinct = b.distinct;
      real = b.real;
      enough = b.enough;
      within = b.within;
    })
    | inr b ↦ inr (record {
      on_disk = b.on_disk;
      stored =
          Stored-moved (get_index (l.lf_dir.lfd_files f.lfdirptr).ld_ilist f l) l xs ys offset 512
            b.stored;
    })
  ];
}

pub sought-Models :
    (offset : ℕ) (f : Lflcblk) (l : Lfs) (c : Contents) (ys : List ℕ)
    → Models f l c ys
    → offset ≤ length c.bytes
    → Models (sought offset f) l (record c { at = offset }) ys
sought-Models offset f l c ys m h = record {
  used = m.used;
  size = m.size;
  fits = m.fits;
  held = elim m.held [
    | inl o ↦ inl (sought-Opened offset f l c.bytes ys o)
    | inr s ↦ inr (Stored-moved f l c.bytes ys offset 512 s)
  ];
  position = refl;
  near = h;
  pointer = λ k. absurd (omega arith);
}
