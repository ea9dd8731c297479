-- ===== src/Text/Copy.antt =====
-- lib/strcpy.c, lib/strncpy.c, lib/strncat.c, lib/memcpy.c, lib/memset.c and lib/bzero.c. A number
-- of bytes is its positive part: for a negative int the loops run no round, and strncat takes
-- it for 0.
use ece564_project.Prelude.{
  ℕ, zero, suc, ◌+◌, ◌%◌, ◌<◌, ◌≡◌, refl, Bool, true, false, ◌||◌, arith, leb, ◌==◌, if◌then◌else◌,
  Option, some, none, List, [], ◌∷◌, length, ◌∙◌,
}
use ece564_project.Text.Bytes.{Memory, poke, within, IsString, IsString-frame}

-- while ((*tar++ = *src++) != 0) ;
unfoldable pub strcpy : ℕ → ℕ → ℕ → Memory → Option Memory
strcpy zero tar src m = none
strcpy (suc fuel) tar src m =
    let m' : Memory = poke tar (m src) m in
    let rest = strcpy fuel (tar + 1) (src + 1) m' in if m src == 0 then some m' else rest

-- while (++i < n) *s1++ = 0
unfoldable pub fill : ℕ → ℕ → ℕ → Memory → Memory
fill zero s1 v m = m
fill (suc n) s1 v m = fill n (s1 + 1) v (poke s1 v m)

unfoldable pub strncpy : ℕ → ℕ → ℕ → Memory → Memory
strncpy zero s1 s2 m = m
strncpy (suc n) s1 s2 m =
    let m' : Memory = poke s1 (m s2) m in
    let rest = strncpy n (s1 + 1) (s2 + 1) m' in if m s2 == 0 then fill n (s1 + 1) 0 m' else rest

-- while (*s1++) ; --s1
unfoldable pub find_end : ℕ → ℕ → Memory → Option ℕ
find_end zero s1 m = none
find_end (suc fuel) s1 m =
    let rest = find_end fuel (s1 + 1) m in if m s1 == 0 then some s1 else rest

unfoldable pub append_up_to : ℕ → ℕ → ℕ → Memory → Memory
append_up_to zero s1 s2 m =
    let m' : Memory = poke s1 (m s2) m in if m s2 == 0 then m' else poke s1 0 m'
append_up_to (suc n) s1 s2 m =
    let m' : Memory = poke s1 (m s2) m in
    let rest = append_up_to n (s1 + 1) (s2 + 1) m' in if m s2 == 0 then m' else rest

unfoldable pub strncat : ℕ → ℕ → ℕ → ℕ → Memory → Option Memory
strncat fuel s1 s2 n m = elim (find_end fuel s1 m) [
  | none ↦ none
  | some e ↦ some (append_up_to n e s2 m)
]

unfoldable pub memcpy : ℕ → ℕ → ℕ → Memory → Memory
memcpy s ct zero m = m
memcpy s ct (suc n) m = memcpy (s + 1) (ct + 1) n (poke s (m ct) m)

unfoldable pub memset : ℕ → ℕ → ℕ → Memory → Memory
memset s c n m = fill n s (c % 256) m

unfoldable pub bzero : ℕ → ℕ → Memory → Memory
bzero p len m = fill len p 0 m

-- The `n` bytes at `a` and the `k` bytes at `b` have no byte in common.
abbrev pub apart : ℕ → ℕ → ℕ → ℕ → Bool
apart a n b k = leb (a + n) b || leb (b + k) a

-- `m'` is `m` but for the `n` bytes at `a`.
abbrev pub Same : Memory → Memory → ℕ → ℕ → Type 0
Same m m' a n = (k : ℕ) → within k a n ≡ false → m' k ≡ m k

pub Same-next : (m m' : Memory) (a v n : ℕ) → Same (poke a v m) m' (a + 1) n → Same m m' a (suc n)
Same-next m m' a v n same k h = same k (ground arith) ∙ ground arith

-- One byte is written, and the rest behind it.
pub first_byte : (m m' : Memory) (a v n : ℕ) → Same (poke a v m) m' (a + 1) n → m' a ≡ v
first_byte m m' a v n same = same a (ground arith) ∙ ground arith

pub poke-IsString :
    (m : Memory) (a v n b : ℕ) (xs : List ℕ)
    → apart b (length xs + 2) a (suc n) ≡ true
    → IsString m (b + 1) xs
    → IsString (poke a v m) (b + 1) xs
poke-IsString m a v n b xs h s = IsString-frame m (poke a v m) (b + 1) xs (λ k w. ground arith) s

-- strcpy of a string that is apart from the bytes it is copied to ends after one round for each
-- byte and one more: the copy stands at the target, and no byte behind or before it changes.
pub strcpy-IsString :
    (fuel tar src : ℕ) (m : Memory) (xs : List ℕ)
    → IsString m src xs
    → apart src (length xs + 1) tar (length xs + 1) ≡ true
    → length xs < fuel
    → (m' : Memory) × (strcpy fuel tar src m ≡ some m')
      × IsString m' tar xs
      × Same m m' tar (length xs + 1)
unfolding strcpy
strcpy-IsString zero tar src m xs s d h = absurd (omega arith)
strcpy-IsString (suc fuel) tar src m [] s d h =
    (poke tar (m src) m, rw s refl, ground arith, λ k w. ground arith)
strcpy-IsString (suc fuel) tar src m (x ∷ xs) s d h =
    let m1 : Memory = poke tar (m src) m in
    let (m', run, copy, same) =
      strcpy-IsString fuel (tar + 1) (src + 1) m1 xs
        (poke-IsString m tar (m src) (length xs + 1) src xs (ground arith) s.2) (ground arith)
        (omega arith) in
    (
      m',
      rw (s.0, s.1) (rw s.0 at run),
      (first_byte m m' tar (m src) (length xs + 1) same ∙ s.0, s.1, copy),
      λ k w. Same-next m m' tar (m src) (length xs + 1) same k (ground arith),
    )
