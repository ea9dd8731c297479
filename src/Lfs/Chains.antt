-- ===== src/Lfs/Chains.antt =====
-- The lists of index blocks on the disk.
use ece564_project.Prelude.{
  ℕ, zero, suc, ◌+◌, ◌≡◌, refl, sym, ap, subst, ◌∙◌, Bool, true, false, ◌==◌, if◌then◌else◌,
  Bool-cases, inl, inr, List, [], ◌∷◌, ◌++◌, arith,
}
use ece564_project.Queue.Chain
use ece564_project.Lfs.Disk.{lf_dnull, lf_iblen, Lfiblk, Lfs, lfibget, lfibput, lfdbfree}
use ece564_project.Lfs.File.{free_blocks, cleared, free_index}

-- From the block `h` on, the links lead through `xs` to `e`.
abbrev pub Linked : (ℕ → Lfiblk) → ℕ → List ℕ → ℕ → Type 0
Linked t h [] e = h ≡ e
Linked t h (x ∷ xs) e = (h ≡ x) × Linked t (t x).ib_next xs e

pub Linked-frame :
    (t t' : ℕ → Lfiblk) (h : ℕ) (xs : List ℕ) (e : ℕ)
    → ((k : ℕ) → Chain.has k xs ≡ true → t' k ≡ t k)
    → Linked t h xs e
    → Linked t' h xs e
Linked-frame t t' h [] e same l = l
Linked-frame t t' h (x ∷ xs) e same l = (
  l.0,
  subst (λ (b : Lfiblk). Linked t' b.ib_next xs e) (sym (same x (ground arith)))
      (Linked-frame t t' (t x).ib_next xs e (λ k h. same k (ground arith)) l.1),
)

pub Linked-append :
    (t : ℕ → Lfiblk) (h : ℕ) (xs : List ℕ) (e : ℕ) (ys : List ℕ) (e' : ℕ)
    → Linked t h xs e
    → Linked t e ys e'
    → Linked t h (xs ++ ys) e'
Linked-append t h [] e ys e' l l' = subst (λ k. Linked t k ys e') (sym l) l'
Linked-append t h (x ∷ xs) e ys e' l l' = (l.0, Linked-append t (t x).ib_next xs e ys e' l.1 l')

freed-iblocks :
    (b : Bool) (junk : ℕ → ℕ) (dnum : ℕ) (l : Lfs)
    → (if b then l else lfdbfree junk dnum l).disk.iblocks ≡ l.disk.iblocks
unfolding lfdbfree
freed-iblocks true junk dnum l = refl
freed-iblocks false junk dnum l = refl

free_blocks-iblocks :
    (n i : ℕ) (junk : ℕ → ℕ → ℕ) (dba : ℕ → ℕ) (l : Lfs)
    → (free_blocks n i junk dba l).disk.iblocks ≡ l.disk.iblocks
unfolding free_blocks
free_blocks-iblocks zero i junk dba l = refl
free_blocks-iblocks (suc n) i junk dba l =
    free_blocks-iblocks n (i + 1) junk dba
      (if dba i == lf_dnull then l else lfdbfree (junk (dba i)) (dba i) l)
    ∙ freed-iblocks (dba i == lf_dnull) (junk (dba i)) (dba i) l

pub free_index-iblocks :
    (ifree ib : ℕ) (junk : ℕ → ℕ → ℕ) (l : Lfs) (k : ℕ)
    → (free_index ifree ib junk l).disk.iblocks k
      ≡ (if k == ib then cleared ifree (l.disk.iblocks ib) else l.disk.iblocks k)
unfolding free_index lfibget lfibput
free_index-iblocks ifree ib junk l k =
    ap (λ (t : ℕ → Lfiblk). if k == ib then cleared ifree (l.disk.iblocks ib) else t k)
      (free_blocks-iblocks lf_iblen 0 junk (l.disk.iblocks ib).ib_dba l)

pub has-apart :
    (k x : ℕ) (xs : List ℕ) → Chain.has k xs ≡ true → Chain.has x xs ≡ false → (k == x) ≡ false
has-apart k x xs h o = elim (Bool-cases (k == x)) [
  | inl e ↦
      let same : k ≡ x = ground arith in
      let clash = subst (λ j. Chain.has j xs ≡ true) same h in absurd (ground arith)
  | inr e ↦ e
]

freed-files :
    (b : Bool) (junk : ℕ → ℕ) (dnum : ℕ) (l : Lfs)
    → (if b then l else lfdbfree junk dnum l).lf_dir.lfd_files ≡ l.lf_dir.lfd_files
unfolding lfdbfree
freed-files true junk dnum l = refl
freed-files false junk dnum l = refl

free_blocks-files :
    (n i : ℕ) (junk : ℕ → ℕ → ℕ) (dba : ℕ → ℕ) (l : Lfs)
    → (free_blocks n i junk dba l).lf_dir.lfd_files ≡ l.lf_dir.lfd_files
unfolding free_blocks
free_blocks-files zero i junk dba l = refl
free_blocks-files (suc n) i junk dba l =
    free_blocks-files n (i + 1) junk dba
      (if dba i == lf_dnull then l else lfdbfree (junk (dba i)) (dba i) l)
    ∙ freed-files (dba i == lf_dnull) (junk (dba i)) (dba i) l

pub free_index-files :
    (ifree ib : ℕ) (junk : ℕ → ℕ → ℕ) (l : Lfs)
    → (free_index ifree ib junk l).lf_dir.lfd_files ≡ l.lf_dir.lfd_files
unfolding free_index lfibput
free_index-files ifree ib junk l = free_blocks-files lf_iblen 0 junk (lfibget ib l).ib_dba l
