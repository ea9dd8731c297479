-- ===== src/Lfs/Emptied.antt =====
-- device/lfs/lftruncate.c on an open file of at most one index block: its bytes are gone.
use ece564_project.Prelude.{
  ℕ, suc, ◌≤◌, ◌≡◌, refl, sym, ap, subst, ◌∙◌, Bool, true, false, ◌==◌, if◌then◌else◌, inl, some,
  List, [], length, arith,
}
use ece564_project.Lfs.Disk.{lf_inull, Lfiblk, Ldentry, Lfs, lfibget, lfibput, lfdbfree}
use ece564_project.Lfs.File.{
  Lflcblk, free_blocks, free_index, walk_index, set_entry, set_ifree, clean_up, rewound, with_file,
  lftruncate,
}
use ece564_project.Lfs.Chains.{free_index-iblocks, free_index-files}
use ece564_project.Lfs.Truncate.{walk_index-one, walk_index_end}
use ece564_project.Lfs.Blocks.{Free}
use ece564_project.Lfs.Stored.{Bytes, Stored, cleaned}
use ece564_project.Lfs.Opened.{Fresh, Opened}
use ece564_project.Lfs.Freed.{freed, Giving, free_blocks-Giving, length-freed}

freed_ifree :
    (b : Bool) (junk : ℕ → ℕ) (dnum : ℕ) (l : Lfs)
    → (if b then l else lfdbfree junk dnum l).lf_dir.lfd_ifree ≡ l.lf_dir.lfd_ifree
unfolding lfdbfree
freed_ifree true junk dnum l = refl
freed_ifree false junk dnum l = refl

-- What the walk over the one index block does.
abbrev one_freed : ℕ → ℕ → (ℕ → ℕ → ℕ) → Lfs → Lfs
one_freed ifree x junk l = free_index ifree x junk l

free_index_data :
    (ifree x : ℕ) (junk : ℕ → ℕ → ℕ) (l : Lfs)
    → ((free_index ifree x junk l).disk.dblocks
        ≡ (free_blocks 16 0 junk (l.disk.iblocks x).ib_dba l).disk.dblocks)
      × ((free_index ifree x junk l).lf_dir.lfd_dfree
          ≡ (free_blocks 16 0 junk (l.disk.iblocks x).ib_dba l).lf_dir.lfd_dfree)
unfolding free_index lfibget lfibput
free_index_data ifree x junk l = (refl, refl)

-- The entry of the file and the head of the free index blocks, as lftruncate leaves them.
abbrev pub emptied : ℕ → ℕ → (ℕ → ℕ → ℕ) → Ldentry → Lfs → Lfs
emptied i x junk entry l =
    let l2 : Lfs = set_entry i (record entry { ld_ilist = lf_inull; ld_size = 0 }) l in
    let l3 : Lfs = free_index l.lf_dir.lfd_ifree x junk l2 in
    record l3 { lf_dir = record l3.lf_dir { lfd_ifree = x }; lf_dirdirty = true }

Stored-Giving :
    (f : Lflcblk) (l l2 : Lfs) (xs : Bytes) (ys : List ℕ)
    → Stored f l xs ys
    → l2.disk ≡ l.disk
    → l2.lf_dir.lfd_dfree ≡ l.lf_dir.lfd_dfree
    → Giving 0 f.lfiblock.ib_dba ys l2
Stored-Giving f l l2 xs ys s disk dfree = record {
  once = s.blocks.once;
  owned = λ j h g o. s.blocks.owned j g o;
  distinct = s.blocks.distinct;
  real = s.blocks.real;
  small = s.blocks.small;
  within = s.blocks.within;
  free =
      subst (λ d. Free d.dblocks l2.lf_dir.lfd_dfree ys) (sym disk)
        (subst (λ k. Free l.disk.dblocks k ys) (sym dfree) s.free);
}

emptied-Fresh :
    (f g : Lflcblk) (l : Lfs) (xs : Bytes) (ys : List ℕ) (junk : ℕ → ℕ → ℕ) (entry : Ldentry)
    → Stored f l xs ys
    → f.lfibdirty ≡ false
    → g.lfdirptr ≡ f.lfdirptr
    → Fresh g (emptied f.lfdirptr f.lfinum junk entry l) [] (freed 16 0 f.lfiblock.ib_dba ys)
emptied-Fresh f g l xs ys junk entry s clean e =
    let i : ℕ = f.lfdirptr in
    let x : ℕ = f.lfinum in
    let ifree : ℕ = l.lf_dir.lfd_ifree in
    let l2 : Lfs = set_entry i (record entry { ld_ilist = lf_inull; ld_size = 0 }) l in
    let l3 : Lfs = free_index ifree x junk l2 in
    let here : (i == i) ≡ true = ground arith in
    let same : (x == x) ≡ true = ground arith in
    let block : l2.disk.iblocks x ≡ f.lfiblock = s.index_kept clean in
    let giving : Giving 16 (l2.disk.iblocks x).ib_dba (freed 16 0 (l2.disk.iblocks x).ib_dba ys)
        (free_blocks 16 0 junk (l2.disk.iblocks x).ib_dba l2) =
      free_blocks-Giving 16 0 junk (l2.disk.iblocks x).ib_dba ys l2
        (subst (λ (b : Lfiblk). Giving 0 b.ib_dba ys l2) (sym block)
          (Stored-Giving f l l2 xs ys s refl refl))
        refl in
    let (dblocks, dfree) = free_index_data ifree x junk l2 in
    let last : (f.lfiblock.ib_next == lf_inull) ≡ true = let only = s.only in ground arith in
    let next : (l3.disk.iblocks x).ib_next ≡ ifree =
      ap (λ (b : Lfiblk). b.ib_next) (free_index-iblocks ifree x junk l2 x)
      ∙ rw (same, block, last) refl in
    let long = length-freed 16 0 f.lfiblock.ib_dba ys (length ys) 16 refl (omega arith) in
    let enough = s.blocks.enough in
    subst (λ (b : Lfiblk). Fresh g (emptied i x junk entry l) [] (freed 16 0 b.ib_dba ys)) block
      (record {
        nothing = refl;
        no_index =
            ap (λ k. (l3.lf_dir.lfd_files k).ld_ilist == lf_inull) e
            ∙ ap (λ files. (files i).ld_ilist == lf_inull) (free_index-files ifree x junk l2)
            ∙ rw here refl;
        spare = s.index;
        apart_next = ap (λ k. x == k) next ∙ s.unlisted;
        free =
            subst (λ t. Free t l3.lf_dir.lfd_dfree (freed 16 0 (l2.disk.iblocks x).ib_dba ys))
              (sym dblocks)
              (subst
                (λ k.
                  Free (free_blocks 16 0 junk (l2.disk.iblocks x).ib_dba l2).disk.dblocks k
                    (freed 16 0 (l2.disk.iblocks x).ib_dba ys))
                (sym dfree) giving.free);
        distinct = giving.distinct;
        real = giving.real;
        enough =
            subst (λ (b : Lfiblk). 16 ≤ length (freed 16 0 b.ib_dba ys)) (sym block) (omega arith);
        within = giving.within;
      })

-- The walk over the one index block.
walk_one :
    (fuel ifree x : ℕ) (junk : ℕ → ℕ → ℕ) (l : Lfs)
    → (x == ifree) ≡ false
    → ((l.disk.iblocks x).ib_next == lf_inull) ≡ true
    → walk_index (suc (suc fuel)) ifree x junk l ≡ some (free_index ifree x junk l)
walk_one fuel ifree x junk l apart last =
    walk_index-one (suc fuel) ifree x junk l apart
    ∙ ap
        (λ b.
          walk_index (suc fuel) ifree (if b then ifree else (l.disk.iblocks x).ib_next) junk
            (free_index ifree x junk l))
        last
    ∙ walk_index_end fuel ifree junk (free_index ifree x junk l)

-- The flushed file `g` on the disk `l1` has the index block of `f`.
pub lftruncate-emptied :
    (fuel : ℕ) (junk : ℕ → ℕ → ℕ) (f g f1 : Lflcblk) (l l1 : Lfs) (xs : Bytes) (ys : List ℕ)
    → ((l.lf_dir.lfd_files f.lfdirptr).ld_size == 0) ≡ false
    → clean_up f l ≡ (l1, f1)
    → l1.lf_dir ≡ l.lf_dir
    → Stored g l1 xs ys
    → g.lfibdirty ≡ false
    → g.lfdirptr ≡ f.lfdirptr
    → lftruncate (suc (suc fuel)) junk f l
      ≡ some (emptied f.lfdirptr g.lfinum junk (l.lf_dir.lfd_files f.lfdirptr) l1, rewound f1)
unfolding lftruncate
lftruncate-emptied fuel junk f g f1 l l1 xs ys full flushed dir s clean e =
    let i : ℕ = f.lfdirptr in
    let x : ℕ = g.lfinum in
    let entry : Ldentry = l.lf_dir.lfd_files i in
    let ifree : ℕ = l1.lf_dir.lfd_ifree in
    let l2 : Lfs = set_entry i (record entry { ld_ilist = lf_inull; ld_size = 0 }) l1 in
    let block : l2.disk.iblocks x ≡ g.lfiblock = s.index_kept clean in
    let last : ((l2.disk.iblocks x).ib_next == lf_inull) ≡ true =
      ap (λ (b : Lfiblk). b.ib_next == lf_inull) block ∙ (let only = s.only in ground arith) in
    let ilist : entry.ld_ilist ≡ x =
      ap (λ d. (d.lfd_files i).ld_ilist) (sym dir)
      ∙ ap (λ k. (l1.lf_dir.lfd_files k).ld_ilist) (sym e)
      ∙ s.listed in
    ap
      (λ b.
        if b
        then some (l, f)
        else with_file (rewound (clean_up f l).1) (
            set_ifree entry.ld_ilist (
              walk_index (suc (suc fuel)) (clean_up f l).0.lf_dir.lfd_ifree entry.ld_ilist junk (
                set_entry i (record entry { ld_ilist = lf_inull; ld_size = 0 }) (clean_up f l).0))))
      full
    ∙ ap
        (λ (p : Lfs × Lflcblk). with_file (rewound p.1) (
          set_ifree entry.ld_ilist (
            walk_index (suc (suc fuel)) p.0.lf_dir.lfd_ifree entry.ld_ilist junk
              (set_entry i (record entry { ld_ilist = lf_inull; ld_size = 0 }) p.0))))
        flushed
    ∙ ap (λ k. with_file (rewound f1) (set_ifree k (walk_index (suc (suc fuel)) ifree k junk l2)))
        ilist
    ∙ ap (λ o. with_file (rewound f1) (set_ifree x o))
        (walk_one fuel ifree x junk l2 s.unlisted last)

pub emptied-Opened :
    (f g f1 : Lflcblk) (l1 : Lfs) (xs : Bytes) (ys : List ℕ) (junk : ℕ → ℕ → ℕ) (entry : Ldentry)
    → Stored g l1 xs ys
    → g.lfibdirty ≡ false
    → g.lfdirptr ≡ f.lfdirptr
    → f1 ≡ cleaned f
    → f.lf_used ≡ true
    → Opened
        (rewound f1)
        (emptied f.lfdirptr g.lfinum junk entry l1)
        []
        (freed 16 0 g.lfiblock.ib_dba ys)
emptied-Opened f g f1 l1 xs ys junk entry s clean e file used =
    let i : ℕ = f.lfdirptr in
    let here : (i == i) ≡ true = ground arith in
    let l2 : Lfs = set_entry i (record entry { ld_ilist = lf_inull; ld_size = 0 }) l1 in
    let new : Lfs = emptied i g.lfinum junk entry l1 in
    subst (λ h. Opened (rewound h) new [] (freed 16 0 g.lfiblock.ib_dba ys)) (sym file)
      (record {
        used = used;
        size =
            ap (λ files. (files i).ld_size) (free_index-files l1.lf_dir.lfd_ifree g.lfinum junk l2)
            ∙ rw here refl;
        no_block = refl;
        no_data = refl;
        data_clean = refl;
        index_clean = refl;
        out = refl;
        blocks = inl (
            subst
              (λ k.
                Fresh (rewound (cleaned f)) (emptied k g.lfinum junk entry l1) []
                  (freed 16 0 g.lfiblock.ib_dba ys))
              e (emptied-Fresh g (rewound (cleaned f)) l1 xs ys junk entry s clean (sym e)));
      })
