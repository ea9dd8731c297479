-- ===== src/Lfs/Formatted.antt =====
-- The lists that device/lfs/lfscreate.c makes, and what lfsckfmt.c counts.
use ece564_project.Prelude.{
  ℕ, zero, suc, ◌+◌, ◌≤◌, ◌<◌, ◌≡◌, refl, sym, ap, subst, ◌∙◌, Bool, true, false, ◌||◌, Bool-cases,
  inl, inr, ◌==◌, some, List, [], ◌∷◌, length, arith,
}
use ece564_project.Queue.Chain
use ece564_project.Lfs.Disk.{
  lf_inull, lf_dnull, Lfiblk, Lfs, write_block, lfibget, lfibput, nextdb, with_nextdb,
}
use ece564_project.Lfs.Create.{make_iblocks, make_dblocks, count_iblocks, count_dblocks}
use ece564_project.Lfs.Chains.{Linked}
use ece564_project.Lfs.Blocks.{Free}

-- The `n` numbers from `i` on.
abbrev pub upto : ℕ → ℕ → List ℕ
upto zero i = []
upto (suc n) i = i ∷ upto n (i + 1)

pub length-upto : (n i : ℕ) → length (upto n i) ≡ n
length-upto zero i = refl
length-upto (suc n) i = ap suc (length-upto n (i + 1))

has-upto_below : (n i k : ℕ) → k < i → Chain.has k (upto n i) ≡ false
has-upto_below zero i k h = refl
has-upto_below (suc n) i k h =
    let rest = has-upto_below n (i + 1) k (omega arith) in
    let away : (k == i) ≡ false = ground arith in rw (away, rest) refl

behind : (a b : Bool) → a ≡ false → (a || b) ≡ true → b ≡ true
behind true b e h = absurd (ground arith)
behind false b e h = h

pub has-upto_above : (n i k : ℕ) → i + n ≤ k → Chain.has k (upto n i) ≡ false
has-upto_above zero i k h = refl
has-upto_above (suc n) i k h =
    let rest = has-upto_above n (i + 1) k (omega arith) in
    let away : (k == i) ≡ false = ground arith in rw (away, rest) refl

pub has-upto : (n i k : ℕ) → Chain.has k (upto n i) ≡ true → k < i + n
has-upto zero i k h = absurd (ground arith)
has-upto (suc n) i k h = elim (Bool-cases (k == i)) [
  | inl e ↦ ground arith
  | inr e ↦
      let rest = has-upto n (i + 1) k (behind (k == i) (Chain.has k (upto n (i + 1))) e h) in
      omega arith
]

pub upto-Distinct : (n i : ℕ) → Chain.Distinct (upto n i)
upto-Distinct zero i = tt
upto-Distinct (suc n) i = (has-upto_below n (i + 1) i (omega arith), upto-Distinct n (i + 1))

pub nextdb-with_nextdb : (n : ℕ) (b : ℕ → ℕ) → n < 4294967296 → nextdb (with_nextdb n b) ≡ n
nextdb-with_nextdb n b h = omega arith

make_dblocks_below :
    (n d : ℕ) (l : Lfs) (k : ℕ) → k < d → (make_dblocks n d l).disk.dblocks k ≡ l.disk.dblocks k
unfolding make_dblocks
make_dblocks_below zero d l k h = let away : (k == d) ≡ false = ground arith in rw away refl
make_dblocks_below (suc n) d l k h =
    make_dblocks_below n (d + 1) (write_block d (with_nextdb (d + 1) (λ i. 0)) l) k (omega arith)
    ∙ (let away : (k == d) ≡ false = ground arith in rw away refl)

-- Only the data blocks change.
pub make_dblocks_frame :
    (n d : ℕ) (l : Lfs)
    → make_dblocks n d l
      ≡ record l { disk = record l.disk { dblocks = (make_dblocks n d l).disk.dblocks } }
unfolding make_dblocks
make_dblocks_frame zero d l = refl
make_dblocks_frame (suc n) d l =
    make_dblocks_frame n (d + 1) (write_block d (with_nextdb (d + 1) (λ i. 0)) l)

pub make_dblocks-Free :
    (n d : ℕ) (l : Lfs)
    → d + n < 4294967295
    → Free (make_dblocks n d l).disk.dblocks d (upto (suc n) d)
unfolding make_dblocks
make_dblocks-Free zero d l h =
    let same : (d == d) ≡ true = ground arith in
    (refl, rw same (nextdb-with_nextdb lf_dnull (λ i. 0) (omega arith)))
make_dblocks-Free (suc n) d l h =
    let l1 : Lfs = write_block d (with_nextdb (d + 1) (λ i. 0)) l in
    let same : (d == d) ≡ true = ground arith in
    let t : ℕ → ℕ → ℕ = (make_dblocks n (d + 1) l1).disk.dblocks in
    let first : t d ≡ with_nextdb (d + 1) (λ i. 0) =
      make_dblocks_below n (d + 1) l1 d (omega arith) ∙ rw same refl in
    let next : nextdb (t d) ≡ d + 1 =
      ap (λ (b : ℕ → ℕ). nextdb b) first ∙ nextdb-with_nextdb (d + 1) (λ i. 0) (omega arith) in
    (
      refl,
      subst (λ k. Free t k (upto (suc n) (d + 1))) (sym next)
          (make_dblocks-Free n (d + 1) l1 (omega arith)),
    )

make_iblocks_below :
    (n i : ℕ) (ib : Lfiblk) (l : Lfs) (k : ℕ)
    → k < i
    → (make_iblocks n i ib l).disk.iblocks k ≡ l.disk.iblocks k
unfolding make_iblocks lfibput
make_iblocks_below zero i ib l k h = let away : (k == i) ≡ false = ground arith in rw away refl
make_iblocks_below (suc n) i ib l k h =
    make_iblocks_below n (i + 1) ib (lfibput i (record ib { ib_next = i + 1 }) l) k (omega arith)
    ∙ (let away : (k == i) ≡ false = ground arith in rw away refl)

-- Only the index blocks change.
pub make_iblocks_frame :
    (n i : ℕ) (ib : Lfiblk) (l : Lfs)
    → make_iblocks n i ib l
      ≡ record l { disk = record l.disk { iblocks = (make_iblocks n i ib l).disk.iblocks } }
unfolding make_iblocks lfibput
make_iblocks_frame zero i ib l = refl
make_iblocks_frame (suc n) i ib l =
    make_iblocks_frame n (i + 1) ib (lfibput i (record ib { ib_next = i + 1 }) l)

pub make_iblocks-Linked :
    (n i : ℕ) (ib : Lfiblk) (l : Lfs)
    → Linked (make_iblocks n i ib l).disk.iblocks i (upto (suc n) i) lf_inull
unfolding make_iblocks lfibput
make_iblocks-Linked zero i ib l = let same : (i == i) ≡ true = ground arith in (refl, rw same refl)
make_iblocks-Linked (suc n) i ib l =
    let l1 : Lfs = lfibput i (record ib { ib_next = i + 1 }) l in
    let same : (i == i) ≡ true = ground arith in
    let t : ℕ → Lfiblk = (make_iblocks n (i + 1) ib l1).disk.iblocks in
    let first : t i ≡ record ib { ib_next = i + 1 } =
      make_iblocks_below n (i + 1) ib l1 i (omega arith) ∙ rw same refl in
    (
      refl,
      subst (λ (b : Lfiblk). Linked t b.ib_next (upto (suc n) (i + 1)) lf_inull) (sym first)
          (make_iblocks-Linked n (i + 1) ib l1),
    )

-- With one round for each block of the list and one more, the count is the length of the list.
pub count_iblocks-length :
    (fuel h : ℕ) (xs : List ℕ) (l : Lfs)
    → Linked l.disk.iblocks h xs lf_inull
    → Chain.has lf_inull xs ≡ false
    → length xs < fuel
    → count_iblocks fuel h l ≡ some (length xs)
unfolding count_iblocks lfibget
count_iblocks-length zero h xs l c o e = absurd (omega arith)
count_iblocks-length (suc fuel) h [] l c o e =
    let out : (h == lf_inull) ≡ true = ground arith in rw out refl
count_iblocks-length (suc fuel) h (x ∷ xs) l c o e =
    let head : h ≡ x = c.0 in
    let more : (h == lf_inull) ≡ false = ground arith in
    let rest =
      count_iblocks-length fuel (l.disk.iblocks x).ib_next xs l c.1 (ground arith) (omega arith) in
    rw (more, head, rest) (ap some (omega arith))

pub count_dblocks-length :
    (fuel h : ℕ) (xs : List ℕ) (l : Lfs)
    → Free l.disk.dblocks h xs
    → Chain.has lf_dnull xs ≡ false
    → length xs < fuel
    → count_dblocks fuel h l ≡ some (length xs)
unfolding count_dblocks
count_dblocks-length zero h xs l c o e = absurd (omega arith)
count_dblocks-length (suc fuel) h [] l c o e =
    let out : (h == lf_dnull) ≡ true = ground arith in rw out refl
count_dblocks-length (suc fuel) h (x ∷ xs) l c o e =
    let head : h ≡ x = c.0 in
    let more : (h == lf_dnull) ≡ false = ground arith in
    let rest =
      count_dblocks-length fuel (nextdb (l.disk.dblocks x)) xs l c.1 (ground arith) (omega arith) in
    rw (more, head, rest) (ap some (omega arith))
