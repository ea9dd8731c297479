-- ===== src/Lfs/Truncate.antt =====
-- device/lfs/lftruncate.c and the lists of index blocks.
use ece564_project.Prelude.{
  ℕ, zero, suc, ◌+◌, ◌≤◌, ◌≡◌, refl, sym, ap, subst, ◌∙◌, true, false, ◌==◌, if◌then◌else◌, some,
  List, [], ◌∷◌, ◌++◌, length, arith,
}
use ece564_project.Queue.Chain
use ece564_project.Lfs.Disk.{lf_inull, Lfiblk, Ldentry, Lfs, lfibget, lfibput}
use ece564_project.Lfs.File.{
  Lflcblk, cleared, free_index, walk_index, set_entry, set_ifree, clean_up, rewound, with_file,
  lfflush, lftruncate,
}
use ece564_project.Lfs.Chains.{
  Linked, Linked-frame, Linked-append, free_index-iblocks, free_index-files, has-apart,
}

-- What the walk leaves: the file's blocks lead to the free list, and no other block changes and no
-- entry of the directory.
record Walked (l l' : Lfs) (xs : List ℕ) (h e : ℕ) : Type 0 where
  linked : Linked l'.disk.iblocks h xs e
  others : (k : ℕ) → Chain.has k xs ≡ false → l'.disk.iblocks k ≡ l.disk.iblocks k
  entries : l'.lf_dir.lfd_files ≡ l.lf_dir.lfd_files

pub walk_index-one :
    (fuel ifree x : ℕ) (junk : ℕ → ℕ → ℕ) (l : Lfs)
    → (x == ifree) ≡ false
    → walk_index (suc fuel) ifree x junk l
      ≡ walk_index fuel ifree
          (if (l.disk.iblocks x).ib_next == lf_inull then ifree else (l.disk.iblocks x).ib_next)
          junk
          (free_index ifree x junk l)
unfolding walk_index lfibget
walk_index-one fuel ifree x junk l e = rw e refl

pub walk_index_end :
    (fuel ifree : ℕ) (junk : ℕ → ℕ → ℕ) (l : Lfs)
    → walk_index (suc fuel) ifree ifree junk l ≡ some l
unfolding walk_index
walk_index_end fuel ifree junk l = let same : (ifree == ifree) ≡ true = ground arith in rw same refl

walk_index-Walked :
    (fuel ifree x : ℕ) (xs : List ℕ) (junk : ℕ → ℕ → ℕ) (l : Lfs)
    → Linked l.disk.iblocks x (x ∷ xs) lf_inull
    → Chain.has ifree (x ∷ xs) ≡ false
    → Chain.has lf_inull (x ∷ xs) ≡ false
    → Chain.Distinct (x ∷ xs)
    → length xs + 2 ≤ fuel
    → (l' : Lfs) × (walk_index fuel ifree x junk l ≡ some l') × Walked l l' (x ∷ xs) x ifree
walk_index-Walked zero ifree x xs junk l c out null d f = absurd (omega arith)
walk_index-Walked (suc zero) ifree x xs junk l c out null d f = absurd (omega arith)
walk_index-Walked (suc (suc fuel)) ifree x [] junk l c out null d f =
    let l2 : Lfs = free_index ifree x junk l in
    let change = free_index-iblocks ifree x junk l in
    let last : ((l.disk.iblocks x).ib_next == lf_inull) ≡ true = ground arith in
    let here : (x == x) ≡ true = ground arith in
    let new : l2.disk.iblocks x ≡ cleared ifree (l.disk.iblocks x) = change x ∙ rw here refl in
    (
      l2,
      walk_index-one (suc fuel) ifree x junk l (ground arith)
          ∙ rw last (walk_index_end fuel ifree junk l2),
      record {
        linked = (refl, ap (λ (b : Lfiblk). b.ib_next) new ∙ rw last refl);
        others = λ k o. change k ∙ (let away : (k == x) ≡ false = ground arith in rw away refl);
        entries = free_index-files ifree x junk l;
      },
    )
walk_index-Walked (suc (suc fuel)) ifree x (y ∷ ys) junk l c out null d f =
    let l2 : Lfs = free_index ifree x junk l in
    let change = free_index-iblocks ifree x junk l in
    let on : ((l.disk.iblocks x).ib_next == lf_inull) ≡ false = ground arith in
    let here : (x == x) ≡ true = ground arith in
    let new : l2.disk.iblocks x ≡ cleared ifree (l.disk.iblocks x) = change x ∙ rw here refl in
    let next : (l.disk.iblocks x).ib_next ≡ y = c.1.0 in
    let left : Linked l2.disk.iblocks y (y ∷ ys) lf_inull =
      Linked-frame l.disk.iblocks l2.disk.iblocks y (y ∷ ys) lf_inull
        (λ k h.
          change k ∙ (let away : (k == x) ≡ false = has-apart k x (y ∷ ys) h d.0 in rw away refl))
        (refl, c.1.1) in
    let (l', runs, walked) =
      walk_index-Walked (suc fuel) ifree y ys junk l2 left (ground arith) (ground arith) d.1
        (omega arith) in
    (
      l',
      walk_index-one (suc fuel) ifree x junk l (ground arith) ∙ rw (on, next) runs,
      record {
        linked = (
          refl,
          subst (λ k. Linked l'.disk.iblocks k (y ∷ ys) ifree)
              (sym (ap (λ (b : Lfiblk). b.ib_next) (walked.others x d.0 ∙ new) ∙ rw on next))
              walked.linked,
        );
        others = λ k o.
            (walked.others k (ground arith)
              ∙ change k
              ∙ (let away : (k == x) ≡ false = ground arith in rw away refl));
        entries = walked.entries ∙ free_index-files ifree x junk l;
      },
    )

clean_up-files : (f : Lflcblk) (l : Lfs) → (clean_up f l).0.lf_dir.lfd_files ≡ l.lf_dir.lfd_files
unfolding lfflush lfibput
clean_up-files f l = ground arith

free-out :
    (t : ℕ → Lfiblk) (ifree : ℕ) (xs ys : List ℕ)
    → Linked t ifree ys lf_inull
    → Chain.Distinct (xs ++ ys)
    → Chain.has lf_inull xs ≡ false
    → Chain.has ifree xs ≡ false
free-out t ifree xs [] c d null = subst (λ k. Chain.has k xs ≡ false) (sym c) null
free-out t ifree xs (y ∷ ys) c d null =
    subst (λ k. Chain.has k xs ≡ false) (sym c.0)
      (Chain.Distinct-apart xs (y ∷ ys) y d (ground arith))

-- The file is not empty, and after the flush its index blocks and the free ones are two lists on the
-- disk without a block in common: with one round for each of the file's blocks and one more,
-- lftruncate ends; all these blocks are free, the file's first and in their order, the file's entry
-- has no block and the size 0, and no other entry changes.
pub lftruncate-Frees :
    (fuel : ℕ) (junk : ℕ → ℕ → ℕ) (f : Lflcblk) (l : Lfs) (x : ℕ) (xs ys : List ℕ)
    → ((l.lf_dir.lfd_files f.lfdirptr).ld_size == 0) ≡ false
    → (l.lf_dir.lfd_files f.lfdirptr).ld_ilist ≡ x
    → Linked (clean_up f l).0.disk.iblocks x (x ∷ xs) lf_inull
    → Linked (clean_up f l).0.disk.iblocks (clean_up f l).0.lf_dir.lfd_ifree ys lf_inull
    → Chain.Distinct ((x ∷ xs) ++ ys)
    → Chain.has lf_inull (x ∷ xs) ≡ false
    → length xs + 2 ≤ fuel
    → (l' : Lfs) × (f' : Lflcblk) × (lftruncate fuel junk f l ≡ some (l', f'))
      × Linked l'.disk.iblocks l'.lf_dir.lfd_ifree ((x ∷ xs) ++ ys) lf_inull
      × ((k : ℕ)
          → l'.lf_dir.lfd_files k ≡ (
              if k == f.lfdirptr
              then record (l.lf_dir.lfd_files f.lfdirptr) { ld_ilist = lf_inull; ld_size = 0 }
              else l.lf_dir.lfd_files k))
unfolding lftruncate
lftruncate-Frees fuel junk f l x xs ys full first c free d null enough =
    let l1 : Lfs = (clean_up f l).0 in
    let ifree : ℕ = l1.lf_dir.lfd_ifree in
    let entry : Ldentry = l.lf_dir.lfd_files f.lfdirptr in
    let l2 : Lfs = set_entry f.lfdirptr (record entry { ld_ilist = lf_inull; ld_size = 0 }) l1 in
    let (l3, runs, walked) =
      walk_index-Walked fuel ifree x xs junk l2 c
        (free-out l1.disk.iblocks ifree (x ∷ xs) ys free d null) null
        (Chain.Distinct-left (x ∷ xs) ys d) enough in
    let l' : Lfs = record l3 { lf_dir = record l3.lf_dir { lfd_ifree = x }; lf_dirdirty = true } in
    let rest : Linked l'.disk.iblocks ifree ys lf_inull =
      Linked-frame l1.disk.iblocks l'.disk.iblocks ifree ys lf_inull
        (λ k h. walked.others k (Chain.Distinct-apart (x ∷ xs) ys k d h)) free in
    (
      l',
      rewound (clean_up f l).1,
      rw full (
          ap
            (λ i.
              with_file (rewound (clean_up f l).1) (set_ifree i (walk_index fuel ifree i junk l2)))
            first
          ∙ ap (λ o. with_file (rewound (clean_up f l).1) (set_ifree x o)) runs),
      Linked-append l'.disk.iblocks x (x ∷ xs) ifree ys lf_inull walked.linked rest,
      λ k.
          ap (λ (t : ℕ → Ldentry). t k) walked.entries
          ∙ ap
              (λ (t : ℕ → Ldentry).
                if k == f.lfdirptr then record entry { ld_ilist = lf_inull; ld_size = 0 } else t k)
              (clean_up-files f l),
    )
