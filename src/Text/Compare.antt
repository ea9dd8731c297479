-- ===== src/Text/Compare.antt =====
-- lib/strcmp.c, lib/strncmp.c and lib/memcmp.c.
use ece564_project.Prelude.{
  ℕ, zero, suc, ◌+◌, ◌<◌, ◌≡◌, refl, true, false, arith, ◌==◌, if◌then◌else◌, Option, some, none,
  Bool-cases, inl, inr, List, [], ◌∷◌, ◌++◌, length, ap, ◌⊎◌,
}
use ece564_project.Prelude.Int.{ℤ, pos, negsuc, ltb_ℤ, ◌-ℤ◌, -ℤ_parts}
use ece564_project.Text.Bytes.{Memory, as_char, Bytes, Holds, IsString}

unfoldable pub strcmp : ℕ → ℕ → ℕ → Memory → Option ℤ
strcmp zero str1 str2 m = none
strcmp (suc fuel) str1 str2 m =
    let rest = strcmp fuel (str1 + 1) (str2 + 1) m in
    if m str1 == m str2
    then (if m str1 == 0 then some (pos 0) else rest)
    else some (if ltb_ℤ (as_char (m str1)) (as_char (m str2)) then negsuc 0 else pos 1)

-- The rounds left are n; for n <= 0 there are none.
unfoldable pub strncmp : ℕ → ℕ → ℕ → Memory → ℤ
strncmp zero s1 s2 m = pos 0
strncmp (suc n) s1 s2 m =
    let rest = strncmp n (s1 + 1) (s2 + 1) m in
    if m s1 == m s2 then (if m s1 == 0 then pos 0 else rest) else as_char (m s1) -ℤ as_char (m s2)

unfoldable pub memcmp : ℕ → ℕ → ℕ → Memory → ℤ
memcmp zero s1 s2 m = pos 0
memcmp (suc n) s1 s2 m =
    let rest = memcmp n (s1 + 1) (s2 + 1) m in
    if m s1 == m s2 then rest else pos (m s1) -ℤ pos (m s2)

abbrev pub take : ℕ → List ℕ → List ℕ
take zero xs = []
take (suc n) [] = []
take (suc n) (x ∷ xs) = x ∷ take n xs

-- At the first place where they differ, the first list has the smaller byte, read by `value`.
pub record Before (value : ℕ → ℤ) (xs ys : List ℕ) : Type 0 where
  pub front : List ℕ
  pub x : ℕ
  pub xs' : List ℕ
  pub y : ℕ
  pub ys' : List ℕ
  pub first : xs ≡ front ++ x ∷ xs'
  pub second : ys ≡ front ++ y ∷ ys'
  pub smaller : ltb_ℤ (value x) (value y) ≡ true

-- The bytes of a string with its 0.
abbrev pub ended : List ℕ → List ℕ
ended xs = xs ++ 0 ∷ []

-- What the sign of a result says of two lists of bytes.
abbrev pub Orders : (ℕ → ℤ) → List ℕ → List ℕ → ℤ → Type 0
Orders value xs ys r =
    ((r ≡ pos 0) × (xs ≡ ys))
    ⊎ (((ltb_ℤ r (pos 0) ≡ true) × Before value xs ys)
        ⊎ ((ltb_ℤ (pos 0) r ≡ true) × Before value ys xs))

Before-cons :
    (value : ℕ → ℤ) (z : ℕ) (xs ys : List ℕ) → Before value xs ys → Before value (z ∷ xs) (z ∷ ys)
Before-cons value z xs ys b = record {
  front = z ∷ b.front;
  x = b.x;
  xs' = b.xs';
  y = b.y;
  ys' = b.ys';
  first = ap (λ l. z ∷ l) b.first;
  second = ap (λ l. z ∷ l) b.second;
  smaller = b.smaller;
}

Orders-cons :
    (value : ℕ → ℤ) (z : ℕ) (xs ys : List ℕ) (r : ℤ)
    → Orders value xs ys r
    → Orders value (z ∷ xs) (z ∷ ys) r
Orders-cons value z xs ys r (inl (e, same)) = inl (e, ap (λ l. z ∷ l) same)
Orders-cons value z xs ys r (inr (inl (e, b))) = inr (inl (e, Before-cons value z xs ys b))
Orders-cons value z xs ys r (inr (inr (e, b))) = inr (inr (e, Before-cons value z ys xs b))

Before-head :
    (value : ℕ → ℤ) (x y : ℕ) (xs ys : List ℕ)
    → ltb_ℤ (value x) (value y) ≡ true
    → Before value (x ∷ xs) (y ∷ ys)
Before-head value x y xs ys h = record {
  front = [];
  x = x;
  xs' = xs;
  y = y;
  ys' = ys;
  first = refl;
  second = refl;
  smaller = h;
}

-- Two chars are in one order or the other.
chars_differ :
    (x y : ℕ)
    → x < 256
    → y < 256
    → (x == y) ≡ false
    → ltb_ℤ (as_char x) (as_char y) ≡ false
    → ltb_ℤ (as_char y) (as_char x) ≡ true
chars_differ x y a b n h = ground arith

-- Different first bytes, of which the result is the difference.
difference-Orders :
    (value : ℕ → ℤ) (x y : ℕ) (xs ys : List ℕ)
    → (ltb_ℤ (value x) (value y) ≡ false → ltb_ℤ (value y) (value x) ≡ true)
    → Orders value (x ∷ xs) (y ∷ ys) (value x -ℤ value y)
difference-Orders value x y xs ys other = elim (Bool-cases (ltb_ℤ (value x) (value y))) [
  | inl less ↦
      inr (inl (ground (arith, -ℤ_parts (value x) (value y)), Before-head value x y xs ys less))
  | inr more ↦
      let greater = other more in
      inr (inr (ground (arith, -ℤ_parts (value x) (value y)), Before-head value y x ys xs greater))
]

strcmp_differ :
    (x y : ℕ) (xs ys : List ℕ)
    → x < 256
    → y < 256
    → (x == y) ≡ false
    → Orders as_char (x ∷ xs) (y ∷ ys) (if ltb_ℤ (as_char x) (as_char y) then negsuc 0 else pos 1)
strcmp_differ x y xs ys a b n = elim (Bool-cases (ltb_ℤ (as_char x) (as_char y))) [
  | inl less ↦ rw less (inr (inl (refl, Before-head as_char x y xs ys less)))
  | inr more ↦
      rw more (inr (inr (refl, Before-head as_char y x ys xs (chars_differ x y a b n more))))
]

-- strcmp of two strings ends after one round for each byte of the first and one more; the result
-- is 0 if the strings are equal, negative if the first has the smaller char at the first place
-- where they differ, and positive if the second has. The 0 behind a string counts, and chars are
-- signed.
pub strcmp-Orders :
    (fuel str1 str2 : ℕ) (m : Memory) (xs ys : List ℕ)
    → IsString m str1 xs
    → IsString m str2 ys
    → Bytes xs
    → Bytes ys
    → length xs < fuel
    → (r : ℤ) × (strcmp fuel str1 str2 m ≡ some r) × Orders as_char (ended xs) (ended ys) r
unfolding strcmp
strcmp-Orders zero str1 str2 m xs ys s t a b h = absurd (omega arith)
strcmp-Orders (suc fuel) str1 str2 m [] [] s t a b h = (pos 0, rw (s, t) refl, inl (refl, refl))
strcmp-Orders (suc fuel) str1 str2 m [] (y ∷ ys) s t a b h =
    let n : (0 == y) ≡ false = (let u = t.1 in ground arith) in
    (
      if ltb_ℤ (as_char 0) (as_char y) then negsuc 0 else pos 1,
      rw (s, t.0, n) refl,
      strcmp_differ 0 y [] (ended ys) (omega arith) b.0 n,
    )
strcmp-Orders (suc fuel) str1 str2 m (x ∷ xs) [] s t a b h = (
  if ltb_ℤ (as_char x) (as_char 0) then negsuc 0 else pos 1,
  rw (s.0, t, s.1) refl,
  strcmp_differ x 0 (ended xs) [] a.0 (omega arith) s.1,
)
strcmp-Orders (suc fuel) str1 str2 m (x ∷ xs) (y ∷ ys) s t a b h = elim (Bool-cases (x == y)) [
  | inl e ↦
      let same : y ≡ x = ground arith in
      let (r, run, o) =
        strcmp-Orders fuel (str1 + 1) (str2 + 1) m xs ys s.2 t.2 a.1 b.1 (omega arith) in
      (r, rw (s.0, t.0, e, s.1) run, rw same (Orders-cons as_char x (ended xs) (ended ys) r o))
  | inr n ↦ (
    if ltb_ℤ (as_char x) (as_char y) then negsuc 0 else pos 1,
    rw (s.0, t.0, n) refl,
    strcmp_differ x y (ended xs) (ended ys) a.0 b.0 n,
  )
]

-- strncmp of two strings: the result orders their first n bytes, the 0 behind a string included,
-- as signed chars. It is 0 if these are equal, negative if the first string has the smaller char
-- at the first place where they differ, and positive if the second has.
pub strncmp-Orders :
    (n s1 s2 : ℕ) (m : Memory) (xs ys : List ℕ)
    → IsString m s1 xs
    → IsString m s2 ys
    → Bytes xs
    → Bytes ys
    → Orders as_char (take n (ended xs)) (take n (ended ys)) (strncmp n s1 s2 m)
unfolding strncmp
strncmp-Orders zero s1 s2 m xs ys s t a b = inl (refl, refl)
strncmp-Orders (suc n) s1 s2 m [] [] s t a b = rw (s, t) (inl (refl, refl))
strncmp-Orders (suc n) s1 s2 m [] (y ∷ ys) s t a b =
    let d : (0 == y) ≡ false = (let u = t.1 in ground arith) in
    rw (s, t.0, d)
      (difference-Orders as_char 0 y (take n []) (take n (ended ys))
        (chars_differ 0 y (omega arith) b.0 d))
strncmp-Orders (suc n) s1 s2 m (x ∷ xs) [] s t a b =
    rw (s.0, t, s.1)
      (difference-Orders as_char x 0 (take n (ended xs)) (take n [])
        (chars_differ x 0 a.0 (omega arith) s.1))
strncmp-Orders (suc n) s1 s2 m (x ∷ xs) (y ∷ ys) s t a b = elim (Bool-cases (x == y)) [
  | inl e ↦
      let same : y ≡ x = ground arith in
      let o = strncmp-Orders n (s1 + 1) (s2 + 1) m xs ys s.2 t.2 a.1 b.1 in
      rw (s.0, t.0, e, s.1, same)
        (Orders-cons as_char x (take n (ended xs)) (take n (ended ys))
          (strncmp n (s1 + 1) (s2 + 1) m) o)
  | inr d ↦
      rw (s.0, t.0, d)
        (difference-Orders as_char x y (take n (ended xs)) (take n (ended ys))
          (chars_differ x y a.0 b.0 d))
]

-- memcmp of two blocks of the same length: the result is 0 if they hold the same bytes, negative
-- if the first has the smaller byte at the first place where they differ, and positive if the
-- second has. Bytes are not signed.
pub memcmp-Orders :
    (n s1 s2 : ℕ) (m : Memory) (xs ys : List ℕ)
    → Holds m s1 xs
    → Holds m s2 ys
    → length xs ≡ n
    → length ys ≡ n
    → Orders pos xs ys (memcmp n s1 s2 m)
unfolding memcmp
memcmp-Orders zero s1 s2 m [] [] s t a b = inl (refl, refl)
memcmp-Orders zero s1 s2 m [] (y ∷ ys) s t a b = absurd (omega arith)
memcmp-Orders zero s1 s2 m (x ∷ xs) ys s t a b = absurd (omega arith)
memcmp-Orders (suc n) s1 s2 m [] ys s t a b = absurd (omega arith)
memcmp-Orders (suc n) s1 s2 m (x ∷ xs) [] s t a b = absurd (omega arith)
memcmp-Orders (suc n) s1 s2 m (x ∷ xs) (y ∷ ys) s t a b = elim (Bool-cases (x == y)) [
  | inl e ↦
      let same : y ≡ x = ground arith in
      let o = memcmp-Orders n (s1 + 1) (s2 + 1) m xs ys s.1 t.1 (omega arith) (omega arith) in
      rw (s.0, t.0, e, same) (Orders-cons pos x xs ys (memcmp n (s1 + 1) (s2 + 1) m) o)
  | inr d ↦ rw (s.0, t.0, d) (difference-Orders pos x y xs ys (λ h. ground arith))
]
