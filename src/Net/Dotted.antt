-- ===== src/Net/Dotted.antt =====
-- net/dot2ip.c.
use ece564_project.Prelude.{
  ℕ, zero, suc, ◌+◌, ◌-◌, ◌*◌, ◌/◌, ◌%◌, ◌^◌, ◌<◌, ◌≡◌, refl, ap, ◌∙◌, true, false, ◌||◌, ltb, ◌==◌,
  if◌then◌else◌, Bool-cases, inl, inr, Option, some, none, List, [], ◌∷◌, ◌++◌, length, arith,
}
use ece564_project.Text.Bytes.{Memory}

-- Where a segment ends: the pointer behind the last character read, the value, this character.
abbrev pub Segment : Type 0
Segment = ℕ × ℕ × ℕ

-- The loop over the characters of a segment: `left` rounds from `nch` on. A char from 128 on is
-- negative, and so is no digit.
unfoldable pub read_segment : ℕ → ℕ → ℕ → ℕ → ℕ → Memory → Option Segment
read_segment zero nch dotted val ch m = some (dotted, val, ch)
read_segment (suc left) nch dotted val ch m =
    let c : ℕ = m dotted in
    let rest = read_segment left (nch + 1) (dotted + 1) (10 * val + (c - 48)) c m in
    if (c == 0) || (c == 46)
    then (if nch == 0 then none else some (dotted + 1, val, c))
    else if ltb c 48 || ltb 57 c
    then none
    else rest

-- The loop over the segments; behind it seg is 4.
unfoldable pub read_segments : ℕ → ℕ → ℕ → ℕ → Memory → Option ℕ
read_segments zero seg dotted ipaddr m = none
read_segments (suc left) seg dotted ipaddr m = elim (read_segment 4 0 dotted 0 0 m) [
  | none ↦ none
  | some s ↦
      let (next, val, ch) = s in
      let ipaddr' : ℕ = ipaddr * 256 % 2 ^ 32 + val in
      let rest = read_segments left (seg + 1) next ipaddr' m in
      if ltb 255 val
      then none
      else if ch == 0
      then (if seg == 3 then some ipaddr' else none)
      else rest
]

-- *result, or `none` for SYSERR
unfoldable pub dot2ip : ℕ → Memory → Option ℕ
dot2ip dotted m = read_segments 4 0 dotted 0 m

-- A byte in decimal, without leading zeros.
abbrev pub decimal : ℕ → List ℕ
decimal b =
    if ltb b 10
    then (48 + b) ∷ []
    else if ltb b 100
    then (48 + b / 10) ∷ (48 + b % 10) ∷ []
    else (48 + b / 100) ∷ (48 + b / 10 % 10) ∷ (48 + b % 10) ∷ []

-- The four bytes with points between them.
abbrev pub dotted_decimal : ℕ → ℕ → ℕ → ℕ → List ℕ
dotted_decimal a b c d = decimal a ++ 46 ∷ (decimal b ++ 46 ∷ (decimal c ++ 46 ∷ decimal d))

-- The bytes of a segment, and the one that ends it.
abbrev pub Reads : Memory → ℕ → List ℕ → ℕ → Type 0
Reads m a [] t = m a ≡ t
Reads m a (x ∷ xs) t = (m a ≡ x) × Reads m (a + 1) xs t

read_segment-end :
    (left nch a val ch t : ℕ) (m : Memory)
    → m a ≡ t
    → ((t == 0) || (t == 46)) ≡ true
    → (nch == 0) ≡ false
    → read_segment (suc left) nch a val ch m ≡ some (a + 1, val, t)
unfolding read_segment
read_segment-end left nch a val ch t m e stop n = rw (e, stop, n) refl

read_segment-digit :
    (left nch a val ch c nch' val' : ℕ) (m : Memory)
    → m a ≡ 48 + c
    → c < 10
    → nch + 1 ≡ nch'
    → 10 * val + c ≡ val'
    → read_segment (suc left) nch a val ch m ≡ read_segment left nch' (a + 1) val' (48 + c) m
unfolding read_segment
read_segment-digit left nch a val ch c nch' val' m e h n v =
    let digit : (ltb (48 + c) 48 || ltb 57 (48 + c)) ≡ false = ground arith in
    let on : ((48 + c == 0) || (48 + c == 46)) ≡ false = ground arith in
    let value : 48 + c - 48 ≡ c = omega arith in rw (e, on, digit, value, n, v) refl

pub read_segment-decimal :
    (a b t : ℕ) (m : Memory)
    → b < 256
    → ((t == 0) || (t == 46)) ≡ true
    → Reads m a (decimal b) t
    → read_segment 4 0 a 0 0 m ≡ some (a + length (decimal b) + 1, b, t)
read_segment-decimal a b t m h stop r = elim (Bool-cases (ltb b 10)) [
  | inl one ↦
      let (first, end) = rw one at r in
      rw one (
        read_segment-digit 3 0 a 0 0 b 1 b m first (ground arith) refl (omega arith)
        ∙ read_segment-end 2 1 (a + 1) b (48 + b) t m end stop refl
        ∙ ap (λ k. some (k, b, t)) (omega arith))
  | inr more ↦ elim (Bool-cases (ltb b 100)) [
    | inl two ↦
        let (first, others) = rw (more, two) at r in
        let (second, end) = others in
        rw (more, two)
          (read_segment-digit 3 0 a 0 0 (b / 10) 1 (b / 10) m first (ground arith) refl
              (omega arith)
            ∙ read_segment-digit 2 1 (a + 1) (b / 10) (48 + b / 10) (b % 10) 2 b m second
                (omega arith) refl (omega arith)
            ∙ read_segment-end 1 2 (a + 1 + 1) b (48 + b % 10) t m end stop refl
            ∙ ap (λ k. some (k, b, t)) (omega arith))
    | inr three ↦
        let (first, others) = rw (more, three) at r in
        let (second, rest) = others in
        let (third, end) = rest in
        rw (more, three)
          (read_segment-digit 3 0 a 0 0 (b / 100) 1 (b / 100) m first (ground arith) refl
              (omega arith)
            ∙ read_segment-digit 2 1 (a + 1) (b / 100) (48 + b / 100) (b / 10 % 10) 2 (b / 10) m
                second (omega arith) refl (omega arith)
            ∙ read_segment-digit 1 2 (a + 1 + 1) (b / 10) (48 + b / 10 % 10) (b % 10) 3 b m third
                (omega arith) refl (omega arith)
            ∙ read_segment-end 0 3 (a + 1 + 1 + 1) b (48 + b % 10) t m end stop refl
            ∙ ap (λ k. some (k, b, t)) (omega arith))
  ]
]
