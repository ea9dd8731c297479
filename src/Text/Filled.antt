-- ===== src/Text/Filled.antt =====
-- lib/strncpy.c, lib/strncat.c, lib/memcpy.c and lib/memset.c: the bytes that they write.
use ece564_project.Prelude.{
  ℕ, zero, suc, ◌+◌, ◌%◌, ◌<◌, ◌≡◌, refl, Bool, true, false, arith, ◌==◌, if◌then◌else◌, Option,
  some, none, List, [], ◌∷◌, ◌++◌, length, ◌∙◌, ap, sym, subst,
}
use ece564_project.Text.Bytes.{Memory, poke, Holds, IsString, Holds-frame}
use ece564_project.Text.Compare.{take}
use ece564_project.Text.Copy.{
  fill, strncpy, find_end, append_up_to, strncat, memcpy, memset, apart, Same, Same-next,
  first_byte, poke-IsString,
}

abbrev pub repeat : ℕ → ℕ → List ℕ
repeat zero v = []
repeat (suc n) v = v ∷ repeat n v

-- Exactly `n` bytes: those of the list, cut off or with zeros behind them.
abbrev pub padded : ℕ → List ℕ → List ℕ
padded zero xs = []
padded (suc n) [] = 0 ∷ padded n []
padded (suc n) (x ∷ xs) = x ∷ padded n xs

fill-Same : (n a v : ℕ) (m : Memory) → Same m (fill n a v m) a n
unfolding fill
fill-Same zero a v m = λ k h. refl
fill-Same (suc n) a v m =
    Same-next m (fill n (a + 1) v (poke a v m)) a v n (fill-Same n (a + 1) v (poke a v m))

fill-Holds : (n a v : ℕ) (m : Memory) → Holds (fill n a v m) a (repeat n v)
unfolding fill
fill-Holds zero a v m = tt
fill-Holds (suc n) a v m = (
  first_byte m (fill n (a + 1) v (poke a v m)) a v n (fill-Same n (a + 1) v (poke a v m)),
  fill-Holds n (a + 1) v (poke a v m),
)

repeat-padded : (n : ℕ) → repeat n 0 ≡ padded n []
repeat-padded zero = refl
repeat-padded (suc n) = ap (λ l. 0 ∷ l) (repeat-padded n)

-- memset writes the low byte of `c` to each of the `n` bytes, and to no other.
pub memset-repeat :
    (s c n : ℕ) (m : Memory)
    → Holds (memset s c n m) s (repeat n (c % 256)) × Same m (memset s c n m) s n
unfolding memset
memset-repeat s c n m = (fill-Holds n s (c % 256) m, fill-Same n s (c % 256) m)

strncpy_step :
    (n s1 s2 : ℕ) (m : Memory) (b : Bool)
    → (m s2 == 0) ≡ b
    → strncpy (suc n) s1 s2 m ≡ (
        if b
        then fill n (s1 + 1) 0 (poke s1 (m s2) m)
        else strncpy n (s1 + 1) (s2 + 1) (poke s1 (m s2) m))
unfolding strncpy
strncpy_step n s1 s2 m b h =
    ap
      (λ (c : Bool).
        if c
        then fill n (s1 + 1) 0 (poke s1 (m s2) m)
        else strncpy n (s1 + 1) (s2 + 1) (poke s1 (m s2) m))
      h

strncpy-zero : (s1 s2 : ℕ) (m : Memory) → strncpy zero s1 s2 m ≡ m
unfolding strncpy
strncpy-zero s1 s2 m = refl

-- strncpy from a string that is apart from the `n` bytes it writes: they hold the string, cut off
-- after `n` bytes or with zeros behind it, and no other byte changes.
pub strncpy-padded :
    (n s1 s2 : ℕ) (m : Memory) (xs : List ℕ)
    → IsString m s2 xs
    → apart s2 (length xs + 1) s1 n ≡ true
    → Holds (strncpy n s1 s2 m) s1 (padded n xs) × Same m (strncpy n s1 s2 m) s1 n
strncpy-padded zero s1 s2 m xs s d = rw (strncpy-zero s1 s2 m) (tt, λ k h. refl)
strncpy-padded (suc n) s1 s2 m [] s d =
    let m1 : Memory = poke s1 (m s2) m in
    let same = fill-Same n (s1 + 1) 0 m1 in
    subst (λ f. Holds f s1 (padded (suc n) []) × Same m f s1 (suc n))
      (sym (strncpy_step n s1 s2 m true (ground arith)))
      (
        (
          first_byte m (fill n (s1 + 1) 0 m1) s1 (m s2) n same ∙ s,
          rw (repeat-padded n) at (fill-Holds n (s1 + 1) 0 m1),
        ),
        Same-next m (fill n (s1 + 1) 0 m1) s1 (m s2) n same,
      )
strncpy-padded (suc n) s1 s2 m (x ∷ xs) s d =
    let m1 : Memory = poke s1 (m s2) m in
    let (copy, same) =
      strncpy-padded n (s1 + 1) (s2 + 1) m1 xs
        (poke-IsString m s1 (m s2) n s2 xs (ground arith) s.2) (ground arith) in
    let m' : Memory = strncpy n (s1 + 1) (s2 + 1) m1 in
    let nonzero : (m s2 == 0) ≡ false = rw s.0 s.1 in
    subst (λ f. Holds f s1 (x ∷ padded n xs) × Same m f s1 (suc n))
      (sym (strncpy_step n s1 s2 m false nonzero))
      ((first_byte m m' s1 (m s2) n same ∙ s.0, copy), Same-next m m' s1 (m s2) n same)

-- memcpy of a block that is apart from where it is copied to: the copy stands at `s`, and no
-- other byte changes.
pub memcpy-Holds :
    (n s ct : ℕ) (m : Memory) (xs : List ℕ)
    → Holds m ct xs
    → length xs ≡ n
    → apart ct n s n ≡ true
    → Holds (memcpy s ct n m) s xs × Same m (memcpy s ct n m) s n
unfolding memcpy
memcpy-Holds zero s ct m [] h e d = (tt, λ k w. refl)
memcpy-Holds zero s ct m (x ∷ xs) h e d = absurd (omega arith)
memcpy-Holds (suc n) s ct m [] h e d = absurd (omega arith)
memcpy-Holds (suc n) s ct m (x ∷ xs) h e d =
    let m1 : Memory = poke s (m ct) m in
    let m' : Memory = memcpy (s + 1) (ct + 1) n m1 in
    let (copy, same) =
      memcpy-Holds n (s + 1) (ct + 1) m1 xs (Holds-frame m m1 (ct + 1) xs (λ k w. ground arith) h.1)
        (omega arith) (ground arith) in
    ((first_byte m m' s (m ct) n same ∙ h.0, copy), Same-next m m' s (m ct) n same)

find_end_lem :
    (fuel s1 : ℕ) (m : Memory) (xs : List ℕ)
    → IsString m s1 xs
    → length xs < fuel
    → find_end fuel s1 m ≡ some (s1 + length xs)
unfolding find_end
find_end_lem zero s1 m xs s h = absurd (omega arith)
find_end_lem (suc fuel) s1 m [] s h = rw s (ground arith)
find_end_lem (suc fuel) s1 m (x ∷ xs) s h =
    rw (s.0, s.1, find_end_lem fuel (s1 + 1) m xs s.2 (omega arith)) (ground arith)

append_zero :
    (s1 s2 : ℕ) (m : Memory) (b : Bool)
    → (m s2 == 0) ≡ b
    → append_up_to zero s1 s2 m ≡ (if b then poke s1 (m s2) m else poke s1 0 (poke s1 (m s2) m))
unfolding append_up_to
append_zero s1 s2 m b h =
    ap (λ (c : Bool). if c then poke s1 (m s2) m else poke s1 0 (poke s1 (m s2) m)) h

append_step :
    (n s1 s2 : ℕ) (m : Memory) (b : Bool)
    → (m s2 == 0) ≡ b
    → append_up_to (suc n) s1 s2 m
      ≡ (if b then poke s1 (m s2) m else append_up_to n (s1 + 1) (s2 + 1) (poke s1 (m s2) m))
unfolding append_up_to
append_step n s1 s2 m b h =
    ap
      (λ (c : Bool).
        if c then poke s1 (m s2) m else append_up_to n (s1 + 1) (s2 + 1) (poke s1 (m s2) m))
      h

append_up_to-IsString :
    (n s1 s2 : ℕ) (m : Memory) (ys : List ℕ)
    → IsString m s2 ys
    → apart s2 (length ys + 1) s1 (n + 1) ≡ true
    → IsString (append_up_to n s1 s2 m) s1 (take n ys) × Same m (append_up_to n s1 s2 m) s1 (n + 1)
append_up_to-IsString zero s1 s2 m [] s d =
    rw (append_zero s1 s2 m true (ground arith)) (ground arith, λ k w. ground arith)
append_up_to-IsString zero s1 s2 m (y ∷ ys) s d =
    rw (append_zero s1 s2 m false (rw s.0 s.1)) (ground arith, λ k w. ground arith)
append_up_to-IsString (suc n) s1 s2 m [] s d =
    rw (append_step n s1 s2 m true (ground arith)) (ground arith, λ k w. ground arith)
append_up_to-IsString (suc n) s1 s2 m (y ∷ ys) s d =
    let m1 : Memory = poke s1 (m s2) m in
    let m' : Memory = append_up_to n (s1 + 1) (s2 + 1) m1 in
    let (copy, same) =
      append_up_to-IsString n (s1 + 1) (s2 + 1) m1 ys
        (poke-IsString m s1 (m s2) (n + 1) s2 ys (ground arith) s.2) (ground arith) in
    subst (λ f. IsString f s1 (y ∷ take n ys) × Same m f s1 (suc n + 1))
      (sym (append_step n s1 s2 m false (rw s.0 s.1)))
      (
        (first_byte m m' s1 (m s2) (n + 1) same ∙ s.0, s.1, copy),
        λ k w. Same-next m m' s1 (m s2) (n + 1) same k (ground arith),
      )

IsString-append :
    (m m' : Memory) (a n : ℕ) (xs ys : List ℕ)
    → IsString m a xs
    → IsString m' (a + length xs) ys
    → Same m m' (a + length xs) n
    → IsString m' a (xs ++ ys)
IsString-append m m' a n [] ys s t same = let e : a + 0 ≡ a = omega arith in rw e at t
IsString-append m m' a n (x ∷ xs) ys s t same =
    let e : a + length (x ∷ xs) ≡ (a + 1) + length xs = omega arith in
    (
      same a (ground arith) ∙ s.0,
      s.1,
      IsString-append m m' (a + 1) n xs ys s.2 (rw e at t) (λ k w. same k (ground arith)),
    )

-- strncat ends after one round for each byte of the first string and one more: it holds its old
-- bytes and then the first `n` of the second string, with a 0 behind them, if the second string
-- is apart from the n + 1 bytes from the end of the first on. No other byte changes.
pub strncat-IsString :
    (fuel s1 s2 n : ℕ) (m : Memory) (xs ys : List ℕ)
    → IsString m s1 xs
    → IsString m s2 ys
    → apart s2 (length ys + 1) (s1 + length xs) (n + 1) ≡ true
    → length xs < fuel
    → (m' : Memory) × (strncat fuel s1 s2 n m ≡ some m')
      × IsString m' s1 (xs ++ take n ys)
      × Same m m' (s1 + length xs) (n + 1)
unfolding strncat
strncat-IsString fuel s1 s2 n m xs ys s t d h =
    let e : ℕ = s1 + length xs in
    let (copy, same) = append_up_to-IsString n e s2 m ys t d in
    (
      append_up_to n e s2 m,
      ap
          (λ (o : Option ℕ). elim o as (λ _. Option Memory) [
            | none ↦ none
            | some i ↦ some (append_up_to n i s2 m)
          ])
          (find_end_lem fuel s1 m xs s h),
      IsString-append m (append_up_to n e s2 m) s1 (n + 1) xs (take n ys) s copy same,
      same,
    )
