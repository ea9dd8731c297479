-- ===== src/Heap/Place.antt =====
-- system/freemem.c: what freemem makes of a block at its place in the free list, behind a
-- previous block or at the front.
use ece564_project.Prelude.{
  ℕ, ◌+◌, ◌%◌, ◌^◌, ◌≤◌, ◌<◌, ◌≡◌, refl, true, false, ◌||◌, arith, ltb, ◌==◌, Option, some, none,
  List, [], ◌∷◌, Bool-cases, inl, inr, ◌⊎◌,
}
use ece564_project.Heap.Blocks.{
  Block, place_behind, join_next, runs_into, end_of, in_block, covers, bytes, Spaced, covers-below,
}

-- The bytes of the block have become free, and no others.
pub record Gives (low top : ℕ) (b : Block) (bs bs' : List Block) : Type 0 where
  pub after : (x : ℕ) → covers bs' x ≡ (in_block b.addr b.mlength x || covers bs x)
  pub bytes_given : bytes bs' ≡ bytes bs + b.mlength
  pub spaced : Spaced low top bs'

-- No byte of the block is free.
abbrev pub Apart : Block → List Block → Type 0
Apart b bs = (x : ℕ) → in_block b.addr b.mlength x ≡ true → covers bs x ≡ false

-- Some byte of the block is free.
abbrev pub Overlaps : Block → List Block → Type 0
Overlaps b bs = (x : ℕ) × (in_block b.addr b.mlength x ≡ true) × (covers bs x ≡ true)

-- The list begins behind the place of the block.
abbrev pub From : Block → List Block → Type 0
From b [] = Unit {0}
From b (next ∷ bs) = b.addr ≤ next.addr

pub record Fits (b : Block) (low top : ℕ) (bs : List Block) : Type 0 where
  pub above : low < b.addr
  pub some_bytes : 0 < b.mlength
  pub below : b.addr + b.mlength ≤ top
  pub word : top < 2 ^ 32
  pub next : Spaced 0 top bs
  pub from : From b bs

pub runs_into-cases :
    (b : Block) (low top : ℕ) (bs : List Block)
    → Fits b low top bs
    → ((runs_into b bs ≡ true) × Overlaps b bs) ⊎ ((runs_into b bs ≡ false) × Apart b bs)
runs_into-cases b low top [] f = inr (refl, λ x h. refl)
runs_into-cases b low top (next ∷ bs) f =
    let f1 = f.below in
    let f2 = f.word in
    let f3 = f.from in
    let f4 = f.next in
    let no_wrap : end_of b ≡ b.addr + b.mlength = omega arith in
    elim (Bool-cases (runs_into b (next ∷ bs))) [
      | inl into ↦ inl (into, (next.addr, ground arith, ground arith))
      | inr out ↦ inr (
        out,
        λ x h. (let c = covers-below (next.addr + next.mlength) top bs x f4.3 in ground arith),
      )
    ]

pub join_next-Gives :
    (b : Block) (low top : ℕ) (bs : List Block)
    → Fits b low top bs
    → runs_into b bs ≡ false
    → Gives low top b bs (join_next b bs)
join_next-Gives b low top [] f out = record {
  after = λ x. refl;
  bytes_given = omega arith;
  spaced = (f.above, f.some_bytes, f.below, f.below);
}
join_next-Gives b low top (next ∷ bs) f out =
    let f1 = f.below in
    let f2 = f.word in
    let f3 = f.from in
    let f4 = f.next in
    let f5 = f.above in
    let f6 = f.some_bytes in
    let no_wrap : end_of b ≡ b.addr + b.mlength = omega arith in
    let clear : b.addr + b.mlength ≤ next.addr = ground arith in
    elim (Bool-cases (end_of b == next.addr)) [
      | inl touch ↦
          let same : (b.mlength + next.mlength) % 2 ^ 32 ≡ b.mlength + next.mlength = omega arith in
          let end : b.addr + (b.mlength + next.mlength) ≡ next.addr + next.mlength = ground arith in
          rw (touch, same)
            (record {
              after = λ x. ground arith;
              bytes_given = omega arith;
              spaced = (f5, omega arith, rw end f4.2, rw end f4.3);
            })
      | inr gap ↦ rw gap (record {
        after = λ x. refl;
        bytes_given = omega arith;
        spaced = (f5, f6, f1, (ground arith, f4.1, f4.2, f4.3));
      })
    ]

-- What the walk makes of a block: no list if a byte of it is free already.
abbrev pub Result : ℕ → ℕ → Block → List Block → Option (List Block) → Type 0
Result low top b bs r =
    ((r ≡ none) × Overlaps b bs)
    ⊎ ((bs' : List Block) × (r ≡ some bs') × Apart b bs × Gives low top b bs bs')

pub Gives-cons :
    (prev b : Block) (low top : ℕ) (bs bs' : List Block)
    → Spaced low top (prev ∷ bs)
    → Gives (prev.addr + prev.mlength) top b bs bs'
    → Gives low top b (prev ∷ bs) (prev ∷ bs')
Gives-cons prev b low top bs bs' s g = record {
  after = λ x. (let a = g.after x in ground arith);
  bytes_given = let e = g.bytes_given in omega arith;
  spaced = (s.0, s.1, s.2, g.spaced);
}

-- The previous block and the new one, which it touches.
Gives-merge :
    (prev b : Block) (low top : ℕ) (bs bs' : List Block)
    → prev.addr + prev.mlength ≡ b.addr
    → Gives low top (record { addr = prev.addr; mlength = prev.mlength + b.mlength }) bs bs'
    → Gives low top b (prev ∷ bs) bs'
Gives-merge prev b low top bs bs' e g = record {
  after = λ x. (let a = g.after x in ground arith);
  bytes_given = let h = g.bytes_given in omega arith;
  spaced = g.spaced;
}

pub Apart-cons :
    (prev b : Block) (bs : List Block)
    → prev.addr + prev.mlength ≤ b.addr
    → Apart b bs
    → Apart b (prev ∷ bs)
Apart-cons prev b bs h a x i = let c = a x i in ground arith

pub Overlaps-cons : (prev b : Block) (bs : List Block) → Overlaps b bs → Overlaps b (prev ∷ bs)
Overlaps-cons prev b bs (x, i, c) = (x, i, ground arith)

Fits-low :
    (b : Block) (low low' top : ℕ) (bs : List Block)
    → low' < b.addr
    → Fits b low top bs
    → Fits b low' top bs
Fits-low b low low' top bs h f = record {
  above = h;
  some_bytes = f.some_bytes;
  below = f.below;
  word = f.word;
  next = f.next;
  from = f.from;
}

From-merged :
    (prev b : Block) (n : ℕ) (bs : List Block)
    → prev.addr < b.addr
    → From b bs
    → From (record { addr = prev.addr; mlength = n }) bs
From-merged prev b n [] h f = tt
From-merged prev b n (next ∷ bs) h f = omega arith

runs_into-merged :
    (prev b : Block) (n : ℕ) (bs : List Block)
    → prev.addr + n ≡ b.addr + b.mlength
    → runs_into b bs ≡ false
    → runs_into (record { addr = prev.addr; mlength = n }) bs ≡ false
runs_into-merged prev b n [] e r = refl
runs_into-merged prev b n (next ∷ bs) e r = rw e r

pub place_behind-Result :
    (prev b : Block) (low top : ℕ) (bs : List Block)
    → Spaced low top (prev ∷ bs)
    → Fits b prev.addr top bs
    → Result low top b (prev ∷ bs) (place_behind prev b bs)
unfolding place_behind
place_behind-Result prev b low top bs s f =
    let above = f.above in
    let word = f.word in
    let below = f.below in
    let some_bytes = f.some_bytes in
    let end : end_of prev ≡ prev.addr + prev.mlength = (let t = s.2 in omega arith) in
    elim (Bool-cases (ltb b.addr (end_of prev))) [
      | inl inside ↦ inl (rw inside refl, (b.addr, ground arith, ground arith))
      | inr behind ↦
          let clear : prev.addr + prev.mlength ≤ b.addr = ground arith in
          elim (runs_into-cases b prev.addr top bs f) [
            | inl (into, over) ↦ inl (rw (behind, into) refl, Overlaps-cons prev b bs over)
            | inr (out, apart) ↦ elim (Bool-cases (end_of prev == b.addr)) [
              | inl touch ↦
                  let next : prev.addr + prev.mlength ≡ b.addr = ground arith in
                  let n : ℕ = prev.mlength + b.mlength in
                  let same : (prev.mlength + b.mlength) % 2 ^ 32 ≡ n = omega arith in
                  let end' : prev.addr + n ≡ b.addr + b.mlength = omega arith in
                  inr (
                    join_next (record { addr = prev.addr; mlength = n }) bs,
                    rw (behind, out, touch, same) refl,
                    Apart-cons prev b bs clear apart,
                    Gives-merge prev b low top bs
                        (join_next (record { addr = prev.addr; mlength = n }) bs) next
                        (join_next-Gives (record { addr = prev.addr; mlength = n }) low top bs
                          (record {
                            above = s.0;
                            some_bytes = omega arith;
                            below = omega arith;
                            word = word;
                            next = f.next;
                            from = From-merged prev b n bs above f.from;
                          })
                          (runs_into-merged prev b n bs end' out)),
                  )
              | inr gap ↦ inr (
                prev ∷ join_next b bs,
                rw (behind, out, gap) refl,
                Apart-cons prev b bs clear apart,
                Gives-cons prev b low top bs (join_next b bs) s (
                    join_next-Gives b (prev.addr + prev.mlength) top bs
                      (Fits-low b prev.addr (prev.addr + prev.mlength) top bs (ground arith) f)
                      out),
              )
            ]
          ]
    ]
