-- ===== src/Lfs/Freed.antt =====
-- The data blocks of a file that device/lfs/lftruncate.c gives back.
use ece564_project.Prelude.{
  ℕ, zero, suc, ◌+◌, ◌≤◌, ◌<◌, ◌≡◌, refl, sym, ap, subst, ◌∙◌, Bool, true, false, ◌||◌, ◌==◌,
  if◌then◌else◌, Bool-cases, inl, inr, List, [], ◌∷◌, length, arith,
}
use ece564_project.Queue.Chain
use ece564_project.Lfs.Disk.{lf_dnull, Lfs, nextdb, with_nextdb, lfdbfree}
use ece564_project.Lfs.File.{free_blocks}
use ece564_project.Lfs.Chains.{has-apart}
use ece564_project.Lfs.Blocks.{Free, Free-frame, places}
use ece564_project.Lfs.Formatted.{nextdb-with_nextdb}

-- The free list after the blocks of `n` places from `i` on.
abbrev pub freed : ℕ → ℕ → (ℕ → ℕ) → List ℕ → List ℕ
freed zero i dba ys = ys
freed (suc n) i dba ys = freed n (i + 1) dba (if dba i == lf_dnull then ys else dba i ∷ ys)

-- The blocks of the places before `i` are back in the free list `ys`.
pub record Giving (i : ℕ) (dba : ℕ → ℕ) (ys : List ℕ) (l : Lfs) : Type 0 where
  pub once : (j k : ℕ) → j < 16 → k < 16 → (dba j == lf_dnull) ≡ false → dba j ≡ dba k → j ≡ k
  pub owned : (j : ℕ) → i ≤ j → j < 16 → (dba j == lf_dnull) ≡ false → Chain.has (dba j) ys ≡ false
  pub distinct : Chain.Distinct ys
  pub real : Chain.has lf_dnull ys ≡ false
  pub small : (j : ℕ) → j < 16 → dba j < 4294967296
  pub within : (k : ℕ) → Chain.has k ys ≡ true → k < 4294967296
  pub free : Free l.disk.dblocks l.lf_dir.lfd_dfree ys

head_small :
    (t : ℕ → ℕ → ℕ) (h : ℕ) (ys : List ℕ)
    → Free t h ys
    → ((k : ℕ) → Chain.has k ys ≡ true → k < 4294967296)
    → h < 4294967296
head_small t h [] c w = let e : h ≡ lf_dnull = c in omega arith
head_small t h (y ∷ ys) c w =
    let e : h ≡ y = c.0 in
    let there : Chain.has y (y ∷ ys) ≡ true = ground arith in let small = w y there in omega arith

lfdbfree-Free :
    (junk : ℕ → ℕ) (d : ℕ) (ys : List ℕ) (l : Lfs)
    → Free l.disk.dblocks l.lf_dir.lfd_dfree ys
    → l.lf_dir.lfd_dfree < 4294967296
    → Chain.has d ys ≡ false
    → Free (lfdbfree junk d l).disk.dblocks (lfdbfree junk d l).lf_dir.lfd_dfree (d ∷ ys)
unfolding lfdbfree
lfdbfree-Free junk d ys l c small o =
    let t : ℕ → ℕ → ℕ =
      λ k. if k == d then with_nextdb l.lf_dir.lfd_dfree junk else l.disk.dblocks k in
    let same : (d == d) ≡ true = ground arith in
    let next : nextdb (t d) ≡ l.lf_dir.lfd_dfree =
      ap (λ b. nextdb (if b then with_nextdb l.lf_dir.lfd_dfree junk else l.disk.dblocks d)) same
      ∙ nextdb-with_nextdb l.lf_dir.lfd_dfree junk small in
    (
      refl,
      subst (λ k. Free t k ys) (sym next)
          (Free-frame l.disk.dblocks t l.lf_dir.lfd_dfree ys
            (λ k h. let away : (k == d) ≡ false = has-apart k d ys h o in rw away refl) c),
    )

other_place :
    (i j : ℕ) (dba : ℕ → ℕ)
    → ((j k : ℕ) → j < 16 → k < 16 → (dba j == lf_dnull) ≡ false → dba j ≡ dba k → j ≡ k)
    → i + 1 ≤ j
    → j < 16
    → (dba j == lf_dnull) ≡ false
    → (dba j == dba i) ≡ false
other_place i j dba once h g o = elim (Bool-cases (dba j == dba i)) [
  | inl e ↦
      let same : dba j ≡ dba i = ground arith in
      let clash = once j i g (omega arith) o same in absurd (omega arith)
  | inr e ↦ e
]

neither : (a b : Bool) → a ≡ false → b ≡ false → (a || b) ≡ false
neither a b e h = rw (e, h) refl

Giving-free :
    (i : ℕ) (dba : ℕ → ℕ) (ys : List ℕ) (junk : ℕ → ℕ) (l : Lfs)
    → Giving i dba ys l
    → i < 16
    → (dba i == lf_dnull) ≡ false
    → Giving (i + 1) dba (dba i ∷ ys) (lfdbfree junk (dba i) l)
Giving-free i dba ys junk l g h o =
    let out = g.owned i (omega arith) h o in
    record {
      once = g.once;
      owned = λ j b c e.
          neither (dba j == dba i) (Chain.has (dba j) ys) (other_place i j dba g.once b c e)
            (g.owned j (omega arith) c e);
      distinct = (out, g.distinct);
      real = let real = g.real in ground arith;
      small = g.small;
      within = λ k c. elim (Bool-cases (k == dba i)) [
        | inl e ↦ let small = g.small i h in ground arith
        | inr e ↦ g.within k (ground arith)
      ];
      free =
          lfdbfree-Free junk (dba i) ys l g.free
            (head_small l.disk.dblocks l.lf_dir.lfd_dfree ys g.free g.within) out;
    }

Giving-skip :
    (i : ℕ) (dba : ℕ → ℕ) (ys : List ℕ) (l : Lfs) → Giving i dba ys l → Giving (i + 1) dba ys l
Giving-skip i dba ys l g = record {
  once = g.once;
  owned = λ j b c e. g.owned j (omega arith) c e;
  distinct = g.distinct;
  real = g.real;
  small = g.small;
  within = g.within;
  free = g.free;
}

-- All blocks of the file are free.
pub free_blocks-Giving :
    (n i : ℕ) (junk : ℕ → ℕ → ℕ) (dba : ℕ → ℕ) (ys : List ℕ) (l : Lfs)
    → Giving i dba ys l
    → i + n ≡ 16
    → Giving 16 dba (freed n i dba ys) (free_blocks n i junk dba l)
unfolding free_blocks
free_blocks-Giving zero i junk dba ys l g e =
    let here : i ≡ 16 = omega arith in subst (λ k. Giving k dba ys l) here g
free_blocks-Giving (suc n) i junk dba ys l g e = elim (Bool-cases (dba i == lf_dnull)) [
  | inl o ↦
      rw o (free_blocks-Giving n (i + 1) junk dba ys l (Giving-skip i dba ys l g) (omega arith))
  | inr o ↦ rw o (
      free_blocks-Giving n (i + 1) junk dba (dba i ∷ ys) (lfdbfree (junk (dba i)) (dba i) l)
        (Giving-free i dba ys (junk (dba i)) l g (omega arith) o) (omega arith))
]

places_next :
    (i : ℕ) (dba : ℕ → ℕ)
    → places (i + 1) dba ≡ (if dba i == lf_dnull then places i dba + 1 else places i dba)
places_next i dba = let next : i + 1 ≡ suc i = omega arith in ap (λ k. places k dba) next

-- Each place has a block in the free list or had none.
pub length-freed :
    (n i : ℕ) (dba : ℕ → ℕ) (ys : List ℕ) (base m : ℕ)
    → m ≡ i + n
    → i + base ≤ places i dba + length ys
    → m + base ≤ places m dba + length (freed n i dba ys)
length-freed zero i dba ys base m e h =
    let here : m ≡ i = omega arith in subst (λ k. k + base ≤ places k dba + length ys) (sym here) h
length-freed (suc n) i dba ys base m e h =
    let next = places_next i dba in
    elim (Bool-cases (dba i == lf_dnull)) [
      | inl o ↦ rw o (length-freed n (i + 1) dba ys base m (omega arith) (ground arith))
      | inr o ↦ rw o (length-freed n (i + 1) dba (dba i ∷ ys) base m (omega arith) (ground arith))
    ]
