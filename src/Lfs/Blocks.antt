-- ===== src/Lfs/Blocks.antt =====
-- The data blocks of a file of one index block, and the list of free data blocks.
use ece564_project.Prelude.{
  ℕ, zero, suc, ◌+◌, ◌*◌, ◌/◌, ◌≤◌, ◌<◌, ◌≡◌, refl, sym, ap, subst, ◌∙◌, true, false, ltb, ◌==◌,
  if◌then◌else◌, Bool-cases, inl, inr, List, [], ◌∷◌, length, arith,
}
use ece564_project.Prelude.Ring.{set_cell}
use ece564_project.Queue.Chain
use ece564_project.Lfs.Disk.{lf_dnull, nextdb}

-- From the block `h` on, the first bytes of the blocks lead through `ys` to the end.
abbrev pub Free : (ℕ → ℕ → ℕ) → ℕ → List ℕ → Type 0
Free t h [] = h ≡ lf_dnull
Free t h (y ∷ ys) = (h ≡ y) × Free t (nextdb (t y)) ys

pub Free-frame :
    (t t' : ℕ → ℕ → ℕ) (h : ℕ) (ys : List ℕ)
    → ((k : ℕ) → Chain.has k ys ≡ true → t' k ≡ t k)
    → Free t h ys
    → Free t' h ys
Free-frame t t' h [] same c = c
Free-frame t t' h (y ∷ ys) same c = (
  c.0,
  subst (λ (b : ℕ → ℕ). Free t' (nextdb b) ys) (sym (same y (ground arith)))
      (Free-frame t t' (nextdb (t y)) ys (λ k h. same k (ground arith)) c.1),
)

-- The places among the first `n` without a block.
abbrev pub places : ℕ → (ℕ → ℕ) → ℕ
places zero dba = 0
places (suc n) dba = if dba n == lf_dnull then places n dba + 1 else places n dba

-- The blocks `dba` of a file of `size` bytes and the free blocks `ys`: a block for each byte, none
-- twice, none of them free, and a free one for each place that has none.
pub record Blocks (dba : ℕ → ℕ) (size : ℕ) (ys : List ℕ) : Type 0 where
  pub given : (i : ℕ) → i * 512 < size → (dba i == lf_dnull) ≡ false
  pub once : (i j : ℕ) → i < 16 → j < 16 → (dba i == lf_dnull) ≡ false → dba i ≡ dba j → i ≡ j
  pub owned : (i : ℕ) → i < 16 → (dba i == lf_dnull) ≡ false → Chain.has (dba i) ys ≡ false
  pub distinct : Chain.Distinct ys
  pub real : Chain.has lf_dnull ys ≡ false
  pub enough : places 16 dba ≤ length ys
  pub small : (i : ℕ) → i < 16 → dba i < 4294967296
  pub within : (k : ℕ) → Chain.has k ys ≡ true → k < 4294967296

places-out : (n i d : ℕ) (dba : ℕ → ℕ) → n ≤ i → places n (set_cell i d dba) ≡ places n dba
places-out zero i d dba h = refl
places-out (suc n) i d dba h =
    let rest = places-out n i d dba (omega arith) in
    let away : (n == i) ≡ false = ground arith in rw (away, rest) refl

pub places-set_cell :
    (n i d : ℕ) (dba : ℕ → ℕ)
    → i < n
    → dba i ≡ lf_dnull
    → (d == lf_dnull) ≡ false
    → places n (set_cell i d dba) + 1 ≡ places n dba
places-set_cell zero i d dba h e o = absurd (omega arith)
places-set_cell (suc n) i d dba h e o = elim (Bool-cases (n == i)) [
  | inl s ↦
      let same : n ≡ i = ground arith in
      let rest = places-out n i d dba (omega arith) in
      let empty : (dba n == lf_dnull) ≡ true =
        ap (λ k. dba k == lf_dnull) same ∙ ap (λ k. k == lf_dnull) e in
      rw (s, o, empty, rest) refl
  | inr s ↦ let rest = places-set_cell n i d dba (ground arith) e o in rw s (ground arith)
]

-- A place without a block leaves no free list empty.
pub places-some : (n i : ℕ) (dba : ℕ → ℕ) → i < n → dba i ≡ lf_dnull → 1 ≤ places n dba
places-some n i dba h e = let less = places-set_cell n i 0 dba h e refl in omega arith

pub new-apart :
    (dba : ℕ → ℕ) (size d : ℕ) (ys : List ℕ)
    → Blocks dba size (d ∷ ys)
    → (m : ℕ) → m < 16
    → (d == dba m) ≡ false
new-apart dba size d ys b m h = elim (Bool-cases (dba m == lf_dnull)) [
  | inl e ↦ let real = b.real in ground arith
  | inr e ↦ let out = b.owned m h e in ground arith
]

new-once :
    (dba : ℕ → ℕ) (size i d : ℕ) (ys : List ℕ)
    → Blocks dba size (d ∷ ys)
    → dba i ≡ lf_dnull
    → (j k : ℕ) → j < 16
    → k < 16
    → (set_cell i d dba j == lf_dnull) ≡ false
    → set_cell i d dba j ≡ set_cell i d dba k
    → j ≡ k
new-once dba size i d ys b e j k hj hk =
    let aj = new-apart dba size d ys b j hj in
    let ak = new-apart dba size d ys b k hk in
    elim (Bool-cases (j == i)) [
      | inl sj ↦ elim (Bool-cases (k == i)) [
        | inl sk ↦ λ o s. ground arith
        | inr sk ↦ rw (sj, sk) (λ o s. absurd (ground arith))
      ]
      | inr sj ↦ elim (Bool-cases (k == i)) [
        | inl sk ↦ rw (sj, sk) (λ o s. absurd (ground arith))
        | inr sk ↦ rw (sj, sk) (λ o s. b.once j k hj hk o s)
      ]
    ]

new-there : (d : ℕ) (ys : List ℕ) → Chain.has lf_dnull (d ∷ ys) ≡ false → (d == lf_dnull) ≡ false
new-there d ys h = ground arith

has-first : (d : ℕ) (ys : List ℕ) → Chain.has d (d ∷ ys) ≡ true
has-first d ys = ground arith

has-more : (k d : ℕ) (ys : List ℕ) → Chain.has k ys ≡ true → Chain.has k (d ∷ ys) ≡ true
has-more k d ys h = ground arith

has-behind : (k d : ℕ) (ys : List ℕ) → Chain.has k (d ∷ ys) ≡ false → Chain.has k ys ≡ false
has-behind k d ys h = ground arith

-- The first free block is given a place.
pub Blocks-new :
    (dba : ℕ → ℕ) (size i d : ℕ) (ys : List ℕ)
    → Blocks dba size (d ∷ ys)
    → i < 16
    → dba i ≡ lf_dnull
    → Blocks (set_cell i d dba) size ys
Blocks-new dba size i d ys b h e =
    let real = b.real in
    let (new, distinct) = b.distinct in
    let there : (d == lf_dnull) ≡ false = new-there d ys real in
    let fewer = places-set_cell 16 i d dba h e there in
    let enough = b.enough in
    record {
      given = λ k g. elim (Bool-cases (k == i)) [ inl s ↦ rw s there | inr s ↦ rw s (b.given k g) ];
      once = new-once dba size i d ys b e;
      owned = λ k g. elim (Bool-cases (k == i)) [
        | inl s ↦ rw s (λ o. new)
        | inr s ↦ rw s (λ o. has-behind (dba k) d ys (b.owned k g o))
      ];
      distinct = distinct;
      real = has-behind lf_dnull d ys real;
      enough = omega arith;
      small = λ k g. elim (Bool-cases (k == i)) [
        | inl s ↦ rw s (b.within d (has-first d ys))
        | inr s ↦ rw s (b.small k g)
      ];
      within = λ k h. b.within k (has-more k d ys h);
    }

-- A byte more, in a block that the file has.
pub Blocks-grow :
    (dba : ℕ → ℕ) (size : ℕ) (ys : List ℕ)
    → Blocks dba size ys
    → (dba (size / 512) == lf_dnull) ≡ false
    → Blocks dba (size + 1) ys
Blocks-grow dba size ys b o = record {
  given = λ i h. elim (Bool-cases (ltb (i * 512) size)) [
    | inl s ↦ b.given i (ground arith)
    | inr s ↦ let e : size / 512 ≡ i = ground arith in subst (λ k. (dba k == lf_dnull) ≡ false) e o
  ];
  once = b.once;
  owned = b.owned;
  distinct = b.distinct;
  real = b.real;
  enough = b.enough;
  small = b.small;
  within = b.within;
}
