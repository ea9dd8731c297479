-- ===== src/Prelude/Ring.antt =====
-- Circular buffers: an array of `k` cells, read from an index on, around the end of the array.
use Prim.Native.Nat.{ℕ, zero, suc, ◌+◌, ◌-◌, ◌≤◌, ◌<◌}
use mathlib.Core.Path.{◌≡◌, refl, sym, ap, ◌∙◌}
use mathlib.Core.Logic.{inl, inr}
use mathlib.Core.Bool.{true, false}
use mathlib.Core.List.{List, [], ◌∷◌, ◌++◌}
use native.Mathlib.Omega.{arith}
use ece564_project.Prelude.Tests.{ltb, leb, ◌==◌, if◌then◌else◌, Bool-cases}
use ece564_project.Prelude.Lists.{length, length-append}

-- The index behind `i`.
abbrev pub next : ℕ → ℕ → ℕ
next k i = if leb k (i + 1) then 0 else i + 1

-- The index of the `n`th cell from `h` on.
abbrev pub cell : ℕ → ℕ → ℕ → ℕ
cell k h n = if leb k (h + n) then h + n - k else h + n

abbrev pub set_cell : ℕ → ℕ → (ℕ → ℕ) → ℕ → ℕ
set_cell i v b j = if j == i then v else b j

abbrev pub nth : List ℕ → ℕ → ℕ
nth [] n = 0
nth (x ∷ xs) zero = x
nth (x ∷ xs) (suc n) = nth xs n

-- The cells from `h` on hold `xs`.
pub record Ring (k h : ℕ) (b : ℕ → ℕ) (xs : List ℕ) : Type 0 where
  pub start : h < k
  pub room : length xs ≤ k
  pub cells : (n : ℕ) → n < length xs → b (cell k h n) ≡ nth xs n

pub next-cell : (k h n : ℕ) → h < k → n < k → next k (cell k h n) ≡ cell k h (n + 1)
next-cell k h n s r = ground arith

pub cell-next : (k h n : ℕ) → h < k → n < k → cell k (next k h) n ≡ cell k h (suc n)
cell-next k h n s r = ground arith

cell_zero : (k h : ℕ) → h < k → cell k h 0 ≡ h
cell_zero k h s = ground arith

cell_apart : (k h m n : ℕ) → h < k → m < n → n < k → (cell k h m == cell k h n) ≡ false
cell_apart k h m n s l r = ground arith

nth-left : (xs ys : List ℕ) (n : ℕ) → n < length xs → nth (xs ++ ys) n ≡ nth xs n
nth-left [] ys n h = absurd (omega arith)
nth-left (x ∷ xs) ys zero h = refl
nth-left (x ∷ xs) ys (suc n) h = nth-left xs ys n (omega arith)

nth-length : (xs : List ℕ) (y : ℕ) (n : ℕ) → n ≡ length xs → nth (xs ++ y ∷ []) n ≡ y
nth-length [] y zero e = refl
nth-length [] y (suc n) e = absurd (omega arith)
nth-length (x ∷ xs) y zero e = absurd (omega arith)
nth-length (x ∷ xs) y (suc n) e = nth-length xs y n (omega arith)

-- A new last element.
pub Ring-push :
    (k h : ℕ) (b : ℕ → ℕ) (xs : List ℕ) (v : ℕ)
    → Ring k h b xs
    → length xs < k
    → Ring k h (set_cell (cell k h (length xs)) v b) (xs ++ v ∷ [])
Ring-push k h b xs v r f =
    let len = length-append xs (v ∷ []) in
    record {
      start = r.start;
      room = omega arith;
      cells = λ n l. elim (Bool-cases (ltb n (length xs))) [
        | inl e ↦
            let other = cell_apart k h n (length xs) r.start (ground arith) f in
            rw other (r.cells n (ground arith) ∙ sym (nth-left xs (v ∷ []) n (ground arith)))
        | inr e ↦
            let same : n ≡ length xs = ground arith in
            let here : (cell k h n == cell k h (length xs)) ≡ true = ground arith in
            rw here (sym (nth-length xs v n same))
      ];
    }

-- The first element goes.
pub Ring-pop :
    (k h : ℕ) (b : ℕ → ℕ) (x : ℕ) (xs : List ℕ)
    → Ring k h b (x ∷ xs)
    → (b h ≡ x) × Ring k (next k h) b xs
Ring-pop k h b x xs r =
    let room = r.room in
    let start = r.start in
    (
      ap b (sym (cell_zero k h r.start)) ∙ r.cells 0 (omega arith),
      record {
        start = ground arith;
        room = omega arith;
        cells = λ n l. ap b (cell-next k h n r.start (omega arith)) ∙ r.cells (suc n) (omega arith);
      },
    )

-- The last elements go.
pub Ring-left : (k h : ℕ) (b : ℕ → ℕ) (xs ys : List ℕ) → Ring k h b (xs ++ ys) → Ring k h b xs
Ring-left k h b xs ys r =
    let len = length-append xs ys in
    let room = r.room in
    record {
      start = r.start;
      room = omega arith;
      cells = λ n l. r.cells n (omega arith) ∙ nth-left xs ys n l;
    }
