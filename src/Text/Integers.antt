-- ===== src/Text/Integers.antt =====
-- lib/atoi.c, lib/atol.c, lib/abs.c, lib/labs.c and lib/rand.c. An int or long is its 32-bit word.
use ece564_project.Prelude.{
  ℕ, zero, suc, ◌+◌, ◌-◌, ◌*◌, ◌%◌, Bool, true, false, ◌||◌, ◌&&◌, ltb, leb, ◌==◌, if◌then◌else◌,
  Option, some, none,
}
use ece564_project.Prelude.Int.{ℤ, pos, negsuc}
use ece564_project.Text.Bytes.{Memory}

abbrev pub two32 : ℕ
two32 = 4294967296

-- The signed number of a word.
abbrev pub as_int : ℕ → ℤ
as_int w = if ltb w 2147483648 then pos w else negsuc (two32 - 1 - w)

-- -w
abbrev pub negated : ℕ → ℕ
negated w = (two32 - w) % two32

unfoldable pub abs : ℕ → ℕ
abs arg = if leb 2147483648 arg then negated arg else arg

unfoldable pub labs : ℕ → ℕ
labs arg = if leb 2147483648 arg then negated arg else arg

-- RAND_MAX + 1 is 2^31 - 1. The product wraps. The result is the new seed as well.
unfoldable pub rand_r : ℕ → ℕ
rand_r seed = (16807 * seed % two32) % 2147483647

-- The first loop: the pointer behind the blanks and the sign, and whether that is a minus.
unfoldable pub skip_sign : ℕ → ℕ → Memory → Option (ℕ × Bool)
skip_sign zero p m = none
skip_sign (suc fuel) p m =
    let rest = skip_sign fuel (p + 1) m in
    if (m p == 32) || (m p == 9)
    then rest
    else if m p == 45
    then some (p + 1, true)
    else if m p == 43
    then some (p + 1, false)
    else some (p, false)

abbrev pub digit : ℕ → Bool
digit c = leb 48 c && leb c 57

-- n = n * 10 + *p++ - '0'
unfoldable pub read_digits : ℕ → ℕ → ℕ → Memory → Option ℕ
read_digits zero p n m = none
read_digits (suc fuel) p n m =
    let rest = read_digits fuel (p + 1) ((n * 10 + m p + (two32 - 48)) % two32) m in
    if digit (m p) then rest else some n

unfoldable pub atoi : ℕ → ℕ → Memory → Option ℕ
atoi fuel p m = elim (skip_sign fuel p m) [
  | none ↦ none
  | some (p', f) ↦ elim (read_digits fuel p' 0 m) [
    | none ↦ none
    | some n ↦ some (if f then negated n else n)
  ]
]

unfoldable pub atol : ℕ → ℕ → Memory → Option ℕ
atol fuel p m = elim (skip_sign fuel p m) [
  | none ↦ none
  | some (p', f) ↦ elim (read_digits fuel p' 0 m) [
    | none ↦ none
    | some n ↦ some (if f then negated n else n)
  ]
]
