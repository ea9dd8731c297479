-- ===== src/Text/Search.antt =====
-- lib/strchr.c, lib/strrchr.c and lib/strstr.c. The outer `none` stands for a loop that has not
-- ended, the inner for NULL.
use ece564_project.Prelude.{
  ℕ, zero, suc, ◌+◌, ◌%◌, ◌<◌, ◌≡◌, refl, Bool, false, ◌||◌, arith, ◌==◌, if◌then◌else◌, Option,
  some, none, Bool-cases, inl, inr, List, [], ◌∷◌, ◌++◌, length, ◌∙◌, ap, length-append,
}
use mathlib.Core.List.{append_assoc}
use ece564_project.Text.Bytes.{Memory, IsString}
use ece564_project.Text.Compare.{ended}

unfoldable pub strchr : ℕ → ℕ → ℕ → Memory → Option (Option ℕ)
strchr zero s c m = none
strchr (suc fuel) s c m =
    let rest = strchr fuel (s + 1) c m in
    if m s == 0
    then some (if c % 256 == m s then some s else none)
    else if m s == c % 256
    then some (some s)
    else rest

-- The loop of strrchr, with the value of r.
unfoldable pub find_last_char : ℕ → ℕ → ℕ → Option ℕ → Memory → Option (Option ℕ)
find_last_char zero s c r m = none
find_last_char (suc fuel) s c r m =
    let rest = find_last_char fuel (s + 1) c (if m s == c % 256 then some s else r) m in
    if m s == 0 then some (if c % 256 == m s then some s else r) else rest

unfoldable pub strrchr : ℕ → ℕ → ℕ → Memory → Option (Option ℕ)
strrchr fuel s c m = find_last_char fuel s c none m

-- The inner loop of strstr, and whether it ends at the end of the substring.
unfoldable pub matches : ℕ → ℕ → ℕ → Memory → Option Bool
matches zero cq cr m = none
matches (suc fuel) cq cr m =
    let rest = matches fuel (cq + 1) (cr + 1) m in
    if (m cq == 0) || (m cr == 0)
    then some (m cr == 0)
    else if m cq == m cr
    then rest
    else some (m cr == 0)

unfoldable pub strstr : ℕ → ℕ → ℕ → Memory → Option (Option ℕ)
strstr zero cs ct m = none
strstr (suc fuel) cs ct m =
    let rest = strstr fuel (cs + 1) ct m in
    let hit = matches (suc fuel) cs ct m in
    if m cs == 0
    then some none
    else if m cs == m ct
    then elim hit [ none ↦ none | some b ↦ if b then some (some cs) else rest ]
    else rest

abbrev pub occurs : ℕ → List ℕ → Bool
occurs c [] = false
occurs c (x ∷ xs) = (c == x) || occurs c xs

occurs-append : (c : ℕ) (xs ys : List ℕ) → occurs c (xs ++ ys) ≡ (occurs c xs || occurs c ys)
occurs-append c [] ys = refl
occurs-append c (x ∷ xs) ys = ground (arith, occurs-append c xs ys)

-- The first place of the byte `c` among the bytes from `s` on, if there is one.
pub data FirstAt (s c : ℕ) (xs : List ℕ) : Option ℕ → Type 0 where
  found :
      (front back : List ℕ)
      → xs ≡ front ++ c ∷ back
      → occurs c front ≡ false
      → FirstAt s c xs (some (s + length front))
  absent : occurs c xs ≡ false → FirstAt s c xs none

FirstAt-cons :
    (s c x : ℕ) (xs : List ℕ) (r : Option ℕ)
    → (c == x) ≡ false
    → FirstAt (s + 1) c xs r
    → FirstAt s c (x ∷ xs) r
FirstAt-cons s c x xs r other (found front back e out) =
    let more : s + length (x ∷ front) ≡ (s + 1) + length front = omega arith in
    let t : FirstAt s c (x ∷ xs) (some (s + length (x ∷ front))) =
      found (x ∷ front) back (ap (λ l. x ∷ l) e) (ground arith) in
    rw more at t
FirstAt-cons s c x xs r other (absent out) = absent (ground arith)

FirstAt-here : (s c : ℕ) (xs : List ℕ) → FirstAt s c (c ∷ xs) (some s)
FirstAt-here s c xs =
    let e : s + 0 ≡ s = omega arith in
    let t : FirstAt s c (c ∷ xs) (some (s + 0)) = found [] xs refl refl in rw e at t

-- strchr of a string ends after one round for each byte and one more, at the first byte of the
-- string, its 0 included, that is the low byte of `c`, or with NULL if there is none.
pub strchr-FirstAt :
    (fuel s c : ℕ) (m : Memory) (xs : List ℕ)
    → IsString m s xs
    → length xs < fuel
    → (r : Option ℕ) × (strchr fuel s c m ≡ some r) × FirstAt s (c % 256) (ended xs) r
unfolding strchr
strchr-FirstAt zero s c m xs t h = absurd (omega arith)
strchr-FirstAt (suc fuel) s c m [] t h = elim (Bool-cases (c % 256 == 0)) [
  | inl e ↦
      let same : c % 256 ≡ 0 = ground arith in
      (some s, rw (t, e) refl, rw same (FirstAt-here s 0 []))
  | inr n ↦ (none, rw (t, n) refl, absent (ground arith))
]
strchr-FirstAt (suc fuel) s c m (x ∷ xs) t h = elim (Bool-cases (x == c % 256)) [
  | inl e ↦
      let same : x ≡ c % 256 = ground arith in
      (some s, rw (t.0, t.1, e) refl, rw same (FirstAt-here s (c % 256) (ended xs)))
  | inr n ↦
      let (r, run, f) = strchr-FirstAt fuel (s + 1) c m xs t.2 (omega arith) in
      (r, rw (t.0, t.1, n) run, FirstAt-cons s (c % 256) x (ended xs) r (ground arith) f)
]

-- The last place of the byte `c` among the bytes from `s` on, if there is one.
pub data LastAt (s c : ℕ) (xs : List ℕ) : Option ℕ → Type 0 where
  found :
      (front back : List ℕ)
      → xs ≡ front ++ c ∷ back
      → occurs c back ≡ false
      → LastAt s c xs (some (s + length front))
  absent : occurs c xs ≡ false → LastAt s c xs none

LastAt-append :
    (s c : ℕ) (done : List ℕ) (x : ℕ) (r : Option ℕ)
    → (c == x) ≡ false
    → LastAt s c done r
    → LastAt s c (done ++ x ∷ []) r
LastAt-append s c done x r other (LastAt.found front back e out) =
    LastAt.found front (back ++ x ∷ [])
      (ap (λ l. l ++ x ∷ []) e ∙ append_assoc front (c ∷ back) (x ∷ []))
      (occurs-append c back (x ∷ []) ∙ ground arith)
LastAt-append s c done x r other (LastAt.absent out) =
    LastAt.absent (occurs-append c done (x ∷ []) ∙ ground arith)

LastAt-here : (s c : ℕ) (done : List ℕ) → LastAt s c (done ++ c ∷ []) (some (s + length done))
LastAt-here s c done = LastAt.found done [] refl refl

find_last_char-LastAt :
    (fuel s c : ℕ) (done : List ℕ) (r : Option ℕ) (m : Memory) (xs : List ℕ)
    → IsString m (s + length done) xs
    → LastAt s (c % 256) done r
    → length xs < fuel
    → (r' : Option ℕ) × (find_last_char fuel (s + length done) c r m ≡ some r')
      × LastAt s (c % 256) (done ++ ended xs) r'
unfolding find_last_char
find_last_char-LastAt zero s c done r m xs t l h = absurd (omega arith)
find_last_char-LastAt (suc fuel) s c done r m [] t l h = elim (Bool-cases (c % 256 == 0)) [
  | inl e ↦
      let same : c % 256 ≡ 0 = ground arith in
      (some (s + length done), rw (t, e) refl, rw same (LastAt-here s 0 done))
  | inr n ↦ (r, rw (t, n) refl, LastAt-append s (c % 256) done 0 r n l)
]
find_last_char-LastAt (suc fuel) s c done r m (x ∷ xs) t l h =
    let next : s + length (done ++ x ∷ []) ≡ (s + length done) + 1 =
      omega (arith, length-append done (x ∷ [])) in
    let all : (done ++ x ∷ []) ++ ended xs ≡ done ++ ended (x ∷ xs) =
      append_assoc done (x ∷ []) (ended xs) in
    let step : (r1 : Option ℕ)
        → (if x == c % 256 then some (s + length done) else r) ≡ r1
        → LastAt s (c % 256) (done ++ x ∷ []) r1
        → (r' : Option ℕ) × (find_last_char (suc fuel) (s + length done) c r m ≡ some r')
          × LastAt s (c % 256) (done ++ ended (x ∷ xs)) r' =
      λ r1 e l1.
        let (r', run, l') =
          find_last_char-LastAt fuel s c (done ++ x ∷ []) r1 m xs (rw next t.2) l1 (omega arith) in
        (r', rw (t.0, t.1, e) (rw next at run), rw all at l') in
    elim (Bool-cases (x == c % 256)) [
      | inl e ↦
          let same : c % 256 ≡ x = ground arith in
          step (some (s + length done)) (rw e refl) (rw same (LastAt-here s x done))
      | inr n ↦ step r (rw n refl) (LastAt-append s (c % 256) done x r (ground arith) l)
    ]

-- strrchr of a string ends after one round for each byte and one more, at the last byte of the
-- string, its 0 included, that is the low byte of `c`, or with NULL if there is none.
pub strrchr-LastAt :
    (fuel s c : ℕ) (m : Memory) (xs : List ℕ)
    → IsString m s xs
    → length xs < fuel
    → (r : Option ℕ) × (strrchr fuel s c m ≡ some r) × LastAt s (c % 256) (ended xs) r
unfolding strrchr
strrchr-LastAt fuel s c m xs t h =
    let e : s + 0 ≡ s = omega arith in
    rw e at (find_last_char-LastAt fuel s c [] none m xs (rw e t) (LastAt.absent refl) h)
