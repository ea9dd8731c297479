-- ===== src/Text/Substring.antt =====
-- lib/strstr.c: the first place of a string in another.
use ece564_project.Prelude.{
  ℕ, zero, suc, ◌+◌, ◌≤◌, ◌<◌, ◌≡◌, refl, Bool, true, false, ◌&&◌, arith, ◌==◌, if◌then◌else◌,
  Option, some, none, Bool-cases, inl, inr, List, [], ◌∷◌, ◌++◌, length, ◌∙◌, ap, sym, true≢false,
  length-append,
}
use ece564_project.Text.Bytes.{Memory, IsString}
use ece564_project.Text.Search.{matches, strstr}

abbrev starts : List ℕ → List ℕ → Bool
starts [] xs = true
starts (y ∷ ys) [] = false
starts (y ∷ ys) (x ∷ xs) = (x == y) && starts ys xs

starts-append : (ys b : List ℕ) → starts ys (ys ++ b) ≡ true
starts-append [] b = refl
starts-append (y ∷ ys) b = ground (arith, starts-append ys b)

starts_rest : (ys xs : List ℕ) → starts ys xs ≡ true → (b : List ℕ) × (xs ≡ ys ++ b)
starts_rest [] xs h = (xs, refl)
starts_rest (y ∷ ys) [] h = absurd (true≢false (sym h))
starts_rest (y ∷ ys) (x ∷ xs) h =
    let (b, e) = starts_rest ys xs (ground arith) in
    let same : x ≡ y = ground arith in (b, rw same (ap (λ l. y ∷ l) e))

-- The first place of `ys` among the bytes `xs` that stand at `cs`, if there is one.
pub data FirstOf (cs : ℕ) (ys xs : List ℕ) : Option ℕ → Type 0 where
  found :
      (front back : List ℕ)
      → xs ≡ front ++ (ys ++ back)
      → ((f b : List ℕ) → xs ≡ f ++ (ys ++ b) → length front ≤ length f)
      → FirstOf cs ys xs (some (cs + length front))
  absent : ((f b : List ℕ) → xs ≡ f ++ (ys ++ b) → ⊥) → FirstOf cs ys xs none

abbrev tail : List ℕ → List ℕ
tail [] = []
tail (x ∷ xs) = xs

matches-starts :
    (fuel cq cr : ℕ) (m : Memory) (xs ys : List ℕ)
    → IsString m cq xs
    → IsString m cr ys
    → length xs < fuel
    → matches fuel cq cr m ≡ some (starts ys xs)
unfolding matches
matches-starts zero cq cr m xs ys s t h = absurd (omega arith)
matches-starts (suc fuel) cq cr m [] [] s t h = rw (s, t) refl
matches-starts (suc fuel) cq cr m [] (y ∷ ys) s t h = rw (s, t.0, t.1) refl
matches-starts (suc fuel) cq cr m (x ∷ xs) [] s t h = rw (s.0, t, s.1) refl
matches-starts (suc fuel) cq cr m (x ∷ xs) (y ∷ ys) s t h = elim (Bool-cases (x == y)) [
  | inl e ↦
      let more = matches-starts fuel (cq + 1) (cr + 1) m xs ys s.2 t.2 (omega arith) in
      rw (s.0, t.0, s.1, t.1, e) more
  | inr n ↦ rw (s.0, t.0, s.1, t.1, n) refl
]

-- A list that does not start with `ys` has it behind its first byte.
behind :
    (ys : List ℕ) (x : ℕ) (xs f b : List ℕ)
    → starts ys (x ∷ xs) ≡ false
    → x ∷ xs ≡ f ++ (ys ++ b)
    → (f' : List ℕ) × (length f ≡ suc (length f')) × (xs ≡ f' ++ (ys ++ b))
behind ys x xs [] b later e =
    absurd (true≢false (sym (starts-append ys b) ∙ ap (starts ys) (sym e) ∙ later))
behind ys x xs (z ∷ f) b later e = (f, refl, ap tail e)

FirstOf-cons :
    (cs : ℕ) (ys : List ℕ) (x : ℕ) (xs : List ℕ) (r : Option ℕ)
    → starts ys (x ∷ xs) ≡ false
    → FirstOf (cs + 1) ys xs r
    → FirstOf cs ys (x ∷ xs) r
FirstOf-cons cs ys x xs r later (found front back e first) =
    let more : cs + length (x ∷ front) ≡ (cs + 1) + length front = omega arith in
    let t : FirstOf cs ys (x ∷ xs) (some (cs + length (x ∷ front))) =
      found (x ∷ front) back (ap (λ l. x ∷ l) e) (λ f b g.
        let (f', long, h) = behind ys x xs f b later g in
        let short = first f' b h in omega arith) in
    rw more at t
FirstOf-cons cs ys x xs r later (absent out) =
    absent (λ f b g. let (f', long, h) = behind ys x xs f b later g in out f' b h)

FirstOf-here : (cs : ℕ) (ys xs : List ℕ) → starts ys xs ≡ true → FirstOf cs ys xs (some cs)
FirstOf-here cs ys xs h =
    let (b, e) = starts_rest ys xs h in
    let same : cs + 0 ≡ cs = omega arith in
    let t : FirstOf cs ys xs (some (cs + 0)) = found [] b e (λ f b g. omega arith) in rw same at t

FirstOf-nil : (cs y : ℕ) (ys : List ℕ) → FirstOf cs (y ∷ ys) [] none
FirstOf-nil cs y ys = absent (λ f b g.
    let e : 0 ≡ length (f ++ y ∷ (ys ++ b)) = ap length g in
    let n : length (f ++ y ∷ (ys ++ b)) ≡ length f + suc (length (ys ++ b)) =
      length-append f (y ∷ (ys ++ b)) in
    absurd (omega arith))

strstr_step :
    (fuel cs ct : ℕ) (m : Memory) (b : Bool)
    → (m cs == 0) ≡ false
    → matches (suc fuel) cs ct m ≡ some b
    → strstr (suc fuel) cs ct m ≡ (
        if m cs == m ct
        then (if b then some (some cs) else strstr fuel (cs + 1) ct m)
        else strstr fuel (cs + 1) ct m)
unfolding strstr
strstr_step fuel cs ct m b n e =
    ap
      (λ (z : Bool).
        if z
        then some none
        else if m cs == m ct
        then elim (matches (suc fuel) cs ct m) as (λ _. Option (Option ℕ)) [
          | none ↦ none
          | some b' ↦ if b' then some (some cs) else strstr fuel (cs + 1) ct m
        ]
        else strstr fuel (cs + 1) ct m)
      n
    ∙ ap
        (λ (o : Option Bool).
          if m cs == m ct
          then elim o as (λ _. Option (Option ℕ)) [
            | none ↦ none
            | some b' ↦ if b' then some (some cs) else strstr fuel (cs + 1) ct m
          ]
          else strstr fuel (cs + 1) ct m)
        e

strstr_end : (fuel cs ct : ℕ) (m : Memory) → m cs ≡ 0 → strstr (suc fuel) cs ct m ≡ some none
unfolding strstr
strstr_end fuel cs ct m e = rw e refl

-- strstr for a string that is not empty ends after one round for each byte of the searched string
-- and one more: at the first place where the string stands in it, or with NULL if there is none.
pub strstr-FirstOf :
    (fuel cs ct : ℕ) (m : Memory) (xs : List ℕ) (y : ℕ) (ys : List ℕ)
    → IsString m cs xs
    → IsString m ct (y ∷ ys)
    → length xs < fuel
    → (r : Option ℕ) × (strstr fuel cs ct m ≡ some r) × FirstOf cs (y ∷ ys) xs r
strstr-FirstOf zero cs ct m xs y ys s t h = absurd (omega arith)
strstr-FirstOf (suc fuel) cs ct m [] y ys s t h =
    (none, strstr_end fuel cs ct m s, FirstOf-nil cs y ys)
strstr-FirstOf (suc fuel) cs ct m (x ∷ xs) y ys s t h =
    let run = matches-starts (suc fuel) cs ct m (x ∷ xs) (y ∷ ys) s t h in
    let n : (m cs == 0) ≡ false = rw s.0 s.1 in
    elim (Bool-cases (starts (y ∷ ys) (x ∷ xs))) [
      | inl here ↦
          let same : (m cs == m ct) ≡ true = rw (s.0, t.0) (ground arith) in
          (
            some cs,
            strstr_step fuel cs ct m true n (rw here at run) ∙ rw same refl,
            FirstOf-here cs (y ∷ ys) (x ∷ xs) here,
          )
      | inr later ↦
          let (r, more, f) = strstr-FirstOf fuel (cs + 1) ct m xs y ys s.2 t (omega arith) in
          let skip : (b : Bool)
              → (if b then strstr fuel (cs + 1) ct m else strstr fuel (cs + 1) ct m)
                ≡ strstr fuel (cs + 1) ct m =
            λ b.
              elim b
                as (λ k.
                  (if k then strstr fuel (cs + 1) ct m else strstr fuel (cs + 1) ct m)
                  ≡ strstr fuel (cs + 1) ct m) [ true ↦ refl | false ↦ refl ] in
          (
            r,
            strstr_step fuel cs ct m false n (rw later at run) ∙ skip (m cs == m ct) ∙ more,
            FirstOf-cons cs (y ∷ ys) x xs r later f,
          )
    ]

-- For an empty string strstr gives NULL.
pub strstr_empty :
    (fuel cs ct : ℕ) (m : Memory) (xs : List ℕ)
    → IsString m cs xs
    → m ct ≡ 0
    → length xs < fuel
    → strstr fuel cs ct m ≡ some none
unfolding strstr
strstr_empty zero cs ct m xs s t h = absurd (omega arith)
strstr_empty (suc fuel) cs ct m [] s t h = rw s refl
strstr_empty (suc fuel) cs ct m (x ∷ xs) s t h =
    rw (s.0, s.1, t, s.1) (strstr_empty fuel (cs + 1) ct m xs s.2 t (omega arith))
