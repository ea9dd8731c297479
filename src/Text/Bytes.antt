-- ===== src/Text/Bytes.antt =====
-- Memory as a function from an address to a byte, and the strings and blocks in it. Addresses are
-- natural numbers: an object does not wrap around the end of memory.
use ece564_project.Prelude.{
  ℕ, ◌+◌, ◌-◌, ◌<◌, ◌≡◌, Bool, true, false, arith, ltb, leb, ◌==◌, if◌then◌else◌, List, [], ◌∷◌,
  length, ◌∙◌,
}
use ece564_project.Prelude.Int.{ℤ, pos, negsuc}

abbrev pub Memory : Type 0
Memory = ℕ → ℕ

-- *a = v
abbrev pub poke : ℕ → ℕ → Memory → Memory
poke a v m k = if k == a then v else m k

-- A char is signed: a byte from 128 on stands for a negative number.
abbrev pub as_char : ℕ → ℤ
as_char b = if ltb b 128 then pos b else negsuc (255 - b)

abbrev pub Bytes : List ℕ → Type 0
Bytes [] = Unit {0}
Bytes (x ∷ xs) = (x < 256) × Bytes xs

-- The bytes `xs` stand at `a`.
abbrev pub Holds : Memory → ℕ → List ℕ → Type 0
Holds m a [] = Unit {0}
Holds m a (x ∷ xs) = (m a ≡ x) × Holds m (a + 1) xs

-- The string `xs` stands at `a`: its bytes, none of them 0, and a 0 behind them.
abbrev pub IsString : Memory → ℕ → List ℕ → Type 0
IsString m a [] = m a ≡ 0
IsString m a (x ∷ xs) = (m a ≡ x) × ((x == 0) ≡ false) × IsString m (a + 1) xs

abbrev pub within : ℕ → ℕ → ℕ → Bool
within k a n = if leb a k then ltb k (a + n) else false

pub IsString-frame :
    (m m' : Memory) (a : ℕ) (xs : List ℕ)
    → ((k : ℕ) → within k a (length xs + 1) ≡ true → m' k ≡ m k)
    → IsString m a xs
    → IsString m' a xs
IsString-frame m m' a [] same s = same a (ground arith) ∙ s
IsString-frame m m' a (x ∷ xs) same s = (
  same a (ground arith) ∙ s.0,
  s.1,
  IsString-frame m m' (a + 1) xs (λ k h. same k (ground arith)) s.2,
)

pub Holds-frame :
    (m m' : Memory) (a : ℕ) (xs : List ℕ)
    → ((k : ℕ) → within k a (length xs) ≡ true → m' k ≡ m k)
    → Holds m a xs
    → Holds m' a xs
Holds-frame m m' a [] same s = tt
Holds-frame m m' a (x ∷ xs) same s =
    (same a (ground arith) ∙ s.0, Holds-frame m m' (a + 1) xs (λ k h. same k (ground arith)) s.1)
