-- ===== src/Text/Numbers.antt =====
-- lib/atoi.c: atoi reads decimal numbers.
use ece564_project.Prelude.{
  ℕ, zero, suc, ◌+◌, ◌-◌, ◌*◌, ◌/◌, ◌%◌, ◌≤◌, ◌<◌, ◌≡◌, refl, Bool, true, false, ◌||◌, arith, ltb,
  ◌==◌, if◌then◌else◌, Option, some, none, Bool-cases, inl, inr, List, [], ◌∷◌, ◌++◌, length, ◌∙◌,
  ap,
}
use ece564_project.Prelude.Int.{ℤ, pos, negsuc}
use ece564_project.Text.Bytes.{Memory, IsString}
use ece564_project.Text.Integers.{two32, as_int, negated, skip_sign, digit, read_digits, atoi}

-- The decimal digits of a number.
abbrev pub decimal : ℕ → ℕ → List ℕ
decimal zero n = []
decimal (suc rounds) n =
    let rest = decimal rounds (n / 10) in
    if ltb n 10 then (48 + n) ∷ [] else rest ++ (48 + n % 10) ∷ []

abbrev pub Digits : List ℕ → Type 0
Digits [] = Unit {0}
Digits (d ∷ ds) = (digit d ≡ true) × Digits ds

abbrev pub Blanks : List ℕ → Type 0
Blanks [] = Unit {0}
Blanks (b ∷ bs) = (((b == 32) || (b == 9)) ≡ true) × Blanks bs

abbrev value : ℕ → List ℕ → ℕ
value n [] = n
value n (d ∷ ds) = value (n * 10 + (d - 48)) ds

value_grows : (n : ℕ) (ds : List ℕ) → n ≤ value n ds
value_grows n [] = omega arith
value_grows n (d ∷ ds) = (let h = value_grows (n * 10 + (d - 48)) ds in omega arith)

value-append : (n : ℕ) (ds : List ℕ) (d : ℕ) → value n (ds ++ d ∷ []) ≡ value n ds * 10 + (d - 48)
value-append n [] d = refl
value-append n (e ∷ ds) d = value-append (n * 10 + (e - 48)) ds d

Digits-append : (ds : List ℕ) (d : ℕ) → Digits ds → digit d ≡ true → Digits (ds ++ d ∷ [])
Digits-append [] d h g = (g, tt)
Digits-append (e ∷ ds) d h g = (h.0, Digits-append ds d h.1 g)

decimal-Digits : (rounds n : ℕ) → Digits (decimal rounds n)
decimal-Digits zero n = tt
decimal-Digits (suc rounds) n = elim (Bool-cases (ltb n 10)) [
  | inl e ↦ rw e (ground arith, tt)
  | inr e ↦ rw e (
      Digits-append (decimal rounds (n / 10)) (48 + n % 10) (decimal-Digits rounds (n / 10))
        (ground arith))
]

value-decimal : (rounds n : ℕ) → n < rounds → value 0 (decimal rounds n) ≡ n
value-decimal zero n h = absurd (omega arith)
value-decimal (suc rounds) n h = elim (Bool-cases (ltb n 10)) [
  | inl e ↦ rw e (ground arith)
  | inr e ↦
      let rest = value-decimal rounds (n / 10) (ground arith) in
      rw e (value-append 0 (decimal rounds (n / 10)) (48 + n % 10) ∙ rw rest (omega arith))
]

read_digits-value :
    (fuel p n : ℕ) (m : Memory) (ds : List ℕ)
    → IsString m p ds
    → Digits ds
    → value n ds < two32
    → length ds < fuel
    → read_digits fuel p n m ≡ some (value n ds)
unfolding read_digits
read_digits-value zero p n m ds s d v h = absurd (omega arith)
read_digits-value (suc fuel) p n m [] s d v h = rw s refl
read_digits-value (suc fuel) p n m (c ∷ ds) s d v h =
    let g = value_grows (n * 10 + (c - 48)) ds in
    let step : (n * 10 + c + (two32 - 48)) % two32 ≡ n * 10 + (c - 48) = ground arith in
    let more = read_digits-value fuel (p + 1) (n * 10 + (c - 48)) m ds s.2 d.1 v (omega arith) in
    let last : digit c ≡ true = d.0 in rw (s.0, last, step) more

-- The sign before a number: none, '-' or '+'.
pub data Sign : Type 0 where
  plain : Sign
  minus : Sign
  plus : Sign

abbrev pub sign_text : Sign → List ℕ
sign_text Sign.plain = []
sign_text Sign.minus = 45 ∷ []
sign_text Sign.plus = 43 ∷ []

abbrev pub is_minus : Sign → Bool
is_minus Sign.minus = true
is_minus Sign.plain = false
is_minus Sign.plus = false

-- Where the blanks and the sign end, there are the digits.
skip_sign-rest :
    (fuel p : ℕ) (m : Memory) (bs : List ℕ) (sign : Sign) (d : ℕ) (ds : List ℕ)
    → IsString m p (bs ++ (sign_text sign ++ d ∷ ds))
    → Blanks bs
    → digit d ≡ true
    → length bs + length ds + 1 < fuel
    → (p' : ℕ) × (skip_sign fuel p m ≡ some (p', is_minus sign)) × IsString m p' (d ∷ ds)
unfolding skip_sign
skip_sign-rest zero p m bs sign d ds s b g h = absurd (omega arith)
skip_sign-rest (suc fuel) p m [] Sign.plain d ds s b g h =
    let blank : ((d == 32) || (d == 9)) ≡ false = ground arith in
    let no_minus : (d == 45) ≡ false = ground arith in
    let no_plus : (d == 43) ≡ false = ground arith in
    (p, rw (s.0, blank, no_minus, no_plus) refl, s)
skip_sign-rest (suc fuel) p m [] Sign.minus d ds s b g h = (p + 1, rw s.0 refl, s.2)
skip_sign-rest (suc fuel) p m [] Sign.plus d ds s b g h = (p + 1, rw s.0 refl, s.2)
skip_sign-rest (suc fuel) p m (c ∷ bs) sign d ds s b g h =
    let (p', run, t) = skip_sign-rest fuel (p + 1) m bs sign d ds s.2 b.1 g (omega arith) in
    let blank : ((c == 32) || (c == 9)) ≡ true = b.0 in (p', rw (s.0, blank) run, t)

-- The digits of a number have a first one.
decimal-cons : (rounds n : ℕ) → n < rounds → (d : ℕ) × (ds : List ℕ) × (decimal rounds n ≡ d ∷ ds)
decimal-cons zero n h = absurd (omega arith)
decimal-cons (suc rounds) n h = elim (Bool-cases (ltb n 10)) [
  | inl e ↦ (48 + n, [], rw e refl)
  | inr e ↦
      let (d, ds, r) = decimal-cons rounds (n / 10) (ground arith) in
      (d, ds ++ (48 + n % 10) ∷ [], rw (e, r) refl)
]

atoi_at :
    (fuel p p' n : ℕ) (f : Bool) (m : Memory)
    → skip_sign fuel p m ≡ some (p', f)
    → read_digits fuel p' 0 m ≡ some n
    → atoi fuel p m ≡ some (if f then negated n else n)
unfolding atoi
atoi_at fuel p p' n f m e g =
    ap
      (λ (o : Option (ℕ × Bool)). elim o as (λ _. Option ℕ) [
        | none ↦ none
        | some (i, b) ↦ elim (read_digits fuel i 0 m) as (λ _. Option ℕ) [
          | none ↦ none
          | some v ↦ some (if b then negated v else v)
        ]
      ])
      e
    ∙ ap
        (λ (o : Option ℕ). elim o as (λ _. Option ℕ) [
          | none ↦ none
          | some v ↦ some (if f then negated v else v)
        ])
        g

-- The number with its sign.
abbrev pub signed : Sign → ℕ → ℤ
signed sign n = if is_minus sign then (if n == 0 then pos 0 else negsuc (n - 1)) else pos n

signed_word :
    (sign : Sign) (n : ℕ)
    → n < 2147483648
    → as_int (if is_minus sign then negated n else n) ≡ signed sign n
signed_word Sign.plain n h = ground arith
signed_word Sign.plus n h = ground arith
signed_word Sign.minus n h = ground arith

-- atoi of blanks and tabs, a sign or none, and the decimal digits of a number below 2^31 ends
-- with the number, negative behind a minus.
pub atoi-decimal :
    (fuel p : ℕ) (m : Memory) (bs : List ℕ) (sign : Sign) (rounds n : ℕ)
    → IsString m p (bs ++ (sign_text sign ++ decimal rounds n))
    → Blanks bs
    → n < 2147483648
    → n < rounds
    → length bs + length (decimal rounds n) + 1 < fuel
    → (w : ℕ) × (atoi fuel p m ≡ some w) × (as_int w ≡ signed sign n)
atoi-decimal fuel p m bs sign rounds n s b small enough h =
    let (d, ds, e) = decimal-cons rounds n enough in
    let digits : Digits (d ∷ ds) = rw e at (decimal-Digits rounds n) in
    let read : value 0 (d ∷ ds) ≡ n = rw e at (value-decimal rounds n enough) in
    let long : length (decimal rounds n) ≡ suc (length ds) = rw e refl in
    let (p', skip, t) = skip_sign-rest fuel p m bs sign d ds (rw e at s) b digits.0 (omega arith) in
    let run =
      read_digits-value fuel p' 0 m (d ∷ ds) t digits (rw read (omega arith)) (omega arith) in
    (
      if is_minus sign then negated n else n,
      atoi_at fuel p p' n (is_minus sign) m skip (rw read at run),
      signed_word sign n small,
    )
