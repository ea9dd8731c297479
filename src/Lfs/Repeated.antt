-- ===== src/Lfs/Repeated.antt =====
-- lflread and lflwrite as operations of a sequence of bytes.
use ece564_project.Prelude.{
  ℕ, zero, suc, ◌+◌, ◌-◌, ◌%◌, ◌≤◌, ◌≡◌, refl, sym, ap, subst, ◌∙◌, true, false, ◌&&◌, ltb, leb,
  ◌==◌, if◌then◌else◌, Bool-cases, inl, inr, some, List, [], ◌∷◌, length, arith,
}
use ece564_project.Prelude.Int.{ℤ, pos}
use ece564_project.Prelude.Ring.{nth, set_cell}
use ece564_project.Lfs.Disk.{Lfs}
use ece564_project.Lfs.File.{Lflcblk}
use ece564_project.Lfs.Stream.{no_more, after_put, write_bytes, after_get, read_bytes}
use ece564_project.Lfs.Contents.{Contents, write_at, overwrite, available, length-write_at}
use ece564_project.Lfs.Models.{Models}
use ece564_project.Lfs.Bytewise.{put_step, get_end, get_step}

pub write_bytes-Models :
    (fuel i : ℕ) (xs : List ℕ) (buff : ℕ → ℕ) (f : Lflcblk) (l : Lfs) (c : Contents) (ys : List ℕ)
    (end total : ℕ)
    → Models f l c ys
    → length c.bytes + length xs ≤ 8192
    → ((j : ℕ) → buff (i + j) ≡ nth xs j)
    → end ≡ c.at + length xs
    → total ≡ i + length xs
    → (l' : Lfs) × (f' : Lflcblk) × (ys' : List ℕ) × (write_bytes (suc fuel) (length xs) i buff f l
        ≡ some (l', f', pos total))
      × Models f' l' (record { bytes = overwrite c.at xs c.bytes; at = end }) ys'
unfolding write_bytes
write_bytes-Models fuel i [] buff f l c ys end total m h same e t = (
  l,
  f,
  ys,
  ap (λ k. some (l, f, pos k)) (omega arith),
  subst (λ k. Models f l (record c { at = k }) ys) (omega arith) m,
)
write_bytes-Models fuel i (x ∷ xs) buff f l c ys end total m h same e t =
    let near = m.near in
    let first : buff i ≡ x = ap buff (omega arith) ∙ same 0 in
    let len = length-write_at c.at (buff i) c.bytes near in
    let (l1, f1, ys1, runs, m1) = put_step fuel (buff i) f l c ys m (omega arith) in
    let (l2, f2, ys2, rest, m2) =
      write_bytes-Models fuel (i + 1) xs buff f1 l1
        (record { bytes = write_at c.at (buff i) c.bytes; at = c.at + 1 }) ys1 end total m1
        (ground arith) (λ j. ap buff (omega arith) ∙ same (suc j)) (omega arith) (omega arith) in
    (
      l2,
      f2,
      ys2,
      ap (after_put (write_bytes (suc fuel) (length xs) (i + 1) buff)) runs ∙ rest,
      subst
          (λ k.
            Models f2 l2
              (record { bytes = overwrite (c.at + 1) xs (write_at c.at k c.bytes); at = end }) ys2)
          first m2,
    )

-- The bytes of the buffer from `i` on, and what lflread returns.
abbrev pub between : ℕ → ℕ → ℕ → List ℕ → (ℕ → ℕ) → ℕ → ℕ
between i k at bytes buff j =
    if leb i j && ltb j (i + k) then nth bytes (at + (j - i)) % 256 else buff j

abbrev pub result : ℕ → ℕ → ℤ
result total n = if (total == 0) && ltb 0 n then no_more else pos total

between_none :
    (i at : ℕ) (bytes : List ℕ) (buff : ℕ → ℕ) (j : ℕ) → buff j ≡ between i 0 at bytes buff j
between_none i at bytes buff j =
    let out : (leb i j && ltb j (i + 0)) ≡ false = ground arith in rw out refl

between_step :
    (i k at : ℕ) (bytes : List ℕ) (buff : ℕ → ℕ) (j : ℕ)
    → between (i + 1) k (at + 1) bytes (set_cell i (nth bytes at % 256 % 256) buff) j
      ≡ between i (k + 1) at bytes buff j
between_step i k at bytes buff j = elim (Bool-cases (j == i)) [
  | inl e ↦
      let out : (leb (i + 1) j && ltb j (i + 1 + k)) ≡ false = ground arith in
      let inside : (leb i j && ltb j (i + (k + 1))) ≡ true = ground arith in
      let place : at + (j - i) ≡ at = ground arith in rw (out, inside, e, place) (omega arith)
  | inr e ↦
      let same : (leb (i + 1) j && ltb j (i + 1 + k)) ≡ (leb i j && ltb j (i + (k + 1))) =
        ground arith in
      elim (Bool-cases (leb i j && ltb j (i + (k + 1)))) [
        | inl g ↦
            let place : at + 1 + (j - (i + 1)) ≡ at + (j - i) = ground arith in
            rw (same, g, place) refl
        | inr g ↦ rw (same, g, e) refl
      ]
]

ends : (i : ℕ) → (if i == 0 then no_more else pos i) ≡ (if (i == 0) && true then no_more else pos i)
ends i = elim (Bool-cases (i == 0)) [ inl e ↦ rw e refl | inr e ↦ rw e refl ]

goes_on : (i k k' n : ℕ) → k' ≡ k + 1 → result (i + 1 + k) n ≡ result (i + k') (suc n)
goes_on i k k' n e =
    let sum : i + k' ≡ i + 1 + k = omega arith in
    let some_read : (i + 1 + k == 0) ≡ false = ground arith in rw (sum, some_read) refl

pub read_bytes-Models :
    (fuel n i : ℕ) (buff : ℕ → ℕ) (f : Lflcblk) (l : Lfs) (c : Contents) (ys : List ℕ) (k : ℕ)
    → Models f l c ys
    → k ≡ available n c
    → (l' : Lfs) × (f' : Lflcblk) × (ys' : List ℕ) × (b : ℕ → ℕ) × (read_bytes
          (suc fuel)
          n
          i
          buff
          f
          l
        ≡ some (l', f', b, result (i + k) n))
      × ((j : ℕ) → b j ≡ between i k c.at c.bytes buff j)
      × Models f' l' (record c { at = c.at + k }) ys'
unfolding read_bytes
read_bytes-Models fuel zero i buff f l c ys k m e =
    let none_left : k ≡ 0 = ground arith in
    (
      l,
      f,
      ys,
      buff,
      ap (λ v. some (l, f, buff, v))
          (let out : ((i + k == 0) && ltb 0 0) ≡ false = ground arith in
            rw out (ap pos (omega arith))),
      λ j.
          between_none i c.at c.bytes buff j
          ∙ ap (λ z. between i z c.at c.bytes buff j) (sym none_left),
      subst (λ z. Models f l (record c { at = z }) ys) (omega arith) m,
    )
read_bytes-Models fuel (suc n) i buff f l c ys k m e =
    elim (Bool-cases (leb (length c.bytes) c.at)) [
      | inl g ↦
          let none_left : k ≡ 0 = ground arith in
          (
            l,
            f,
            ys,
            buff,
            ap (after_get (read_bytes (suc fuel) n (i + 1)) i buff)
                  (get_end (suc fuel) f l c ys m g)
                ∙ ap (λ v. some (l, f, buff, v))
                    (let more : ltb 0 (suc n) ≡ true = ground arith in
                      let sum : i + k ≡ i = omega arith in rw (more, sum) (ends i)),
            λ j.
                between_none i c.at c.bytes buff j
                ∙ ap (λ z. between i z c.at c.bytes buff j) (sym none_left),
            subst (λ z. Models f l (record c { at = z }) ys) (omega arith) m,
          )
      | inr g ↦
          let (l1, f1, ys1, runs, m1) = get_step fuel f l c ys m g in
          let byte : ℕ = nth c.bytes c.at % 256 % 256 in
          let left : k ≡ k - 1 + 1 = ground arith in
          let (l2, f2, ys2, b, rest, cells, m2) =
            read_bytes-Models fuel n (i + 1) (set_cell i byte buff) f1 l1
              (record c { at = c.at + 1 }) ys1 (k - 1) m1 (ground arith) in
          (
            l2,
            f2,
            ys2,
            b,
            ap (after_get (read_bytes (suc fuel) n (i + 1)) i buff) runs
                ∙ rest
                ∙ ap (λ v. some (l2, f2, b, v)) (goes_on i (k - 1) k n left),
            λ j.
                cells j
                ∙ between_step i (k - 1) c.at c.bytes buff j
                ∙ ap (λ z. between i z c.at c.bytes buff j) (sym left),
            subst (λ z. Models f2 l2 (record c { at = z }) ys2) (omega arith) m2,
          )
    ]
