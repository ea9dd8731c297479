-- ===== src/Text/Ctype.antt =====
-- include/ctype.h and lib/ctype_.c: the classes of characters. The table has one entry more at
-- its front, for EOF.
use ece564_project.Prelude.{
  ℕ, zero, suc, ◌+◌, ◌<◌, ◌≡◌, refl, Bool, true, false, ◌||◌, ◌&&◌, arith, leb, ◌==◌, if◌then◌else◌,
  Bool-cases, inl, inr, List, [], ◌∷◌,
}
use Prim.Native.Nat.{bit_and}

abbrev pub upper : ℕ
upper = 1

abbrev pub lower : ℕ
lower = 2

abbrev pub number : ℕ
number = 4

abbrev pub space : ℕ
space = 8

abbrev pub punct : ℕ
punct = 16

abbrev pub ctrl : ℕ
ctrl = 32

abbrev pub hex : ℕ
hex = 64

-- _ctype_; an entry with two classes has the sum of their bits.
abbrev pub ctype_table : List ℕ
ctype_table =
    0
    ∷ ctrl
    ∷ ctrl
    ∷ ctrl
    ∷ ctrl
    ∷ ctrl
    ∷ ctrl
    ∷ ctrl
    ∷ ctrl
    ∷ ctrl
    ∷ space
    ∷ space
    ∷ space
    ∷ space
    ∷ space
    ∷ ctrl
    ∷ ctrl
    ∷ ctrl
    ∷ ctrl
    ∷ ctrl
    ∷ ctrl
    ∷ ctrl
    ∷ ctrl
    ∷ ctrl
    ∷ ctrl
    ∷ ctrl
    ∷ ctrl
    ∷ ctrl
    ∷ ctrl
    ∷ ctrl
    ∷ ctrl
    ∷ ctrl
    ∷ ctrl
    ∷ space
    ∷ punct
    ∷ punct
    ∷ punct
    ∷ punct
    ∷ punct
    ∷ punct
    ∷ punct
    ∷ punct
    ∷ punct
    ∷ punct
    ∷ punct
    ∷ punct
    ∷ punct
    ∷ punct
    ∷ punct
    ∷ number
    ∷ number
    ∷ number
    ∷ number
    ∷ number
    ∷ number
    ∷ number
    ∷ number
    ∷ number
    ∷ number
    ∷ punct
    ∷ punct
    ∷ punct
    ∷ punct
    ∷ punct
    ∷ punct
    ∷ punct
    ∷ (upper + hex)
    ∷ (upper + hex)
    ∷ (upper + hex)
    ∷ (upper + hex)
    ∷ (upper + hex)
    ∷ (upper + hex)
    ∷ upper
    ∷ upper
    ∷ upper
    ∷ upper
    ∷ upper
    ∷ upper
    ∷ upper
    ∷ upper
    ∷ upper
    ∷ upper
    ∷ upper
    ∷ upper
    ∷ upper
    ∷ upper
    ∷ upper
    ∷ upper
    ∷ upper
    ∷ upper
    ∷ upper
    ∷ upper
    ∷ punct
    ∷ punct
    ∷ punct
    ∷ punct
    ∷ punct
    ∷ punct
    ∷ (lower + hex)
    ∷ (lower + hex)
    ∷ (lower + hex)
    ∷ (lower + hex)
    ∷ (lower + hex)
    ∷ (lower + hex)
    ∷ lower
    ∷ lower
    ∷ lower
    ∷ lower
    ∷ lower
    ∷ lower
    ∷ lower
    ∷ lower
    ∷ lower
    ∷ lower
    ∷ lower
    ∷ lower
    ∷ lower
    ∷ lower
    ∷ lower
    ∷ lower
    ∷ lower
    ∷ lower
    ∷ lower
    ∷ lower
    ∷ punct
    ∷ punct
    ∷ punct
    ∷ punct
    ∷ ctrl
    ∷ []

abbrev pub entry : List ℕ → ℕ → ℕ
entry [] i = 0
entry (x ∷ xs) zero = x
entry (x ∷ xs) (suc i) = entry xs i

-- (_ctype_+1)[c] & mask, as a test
abbrev pub has_class : ℕ → ℕ → Bool
has_class mask c = if bit_and (entry ctype_table (c + 1)) mask == 0 then false else true

unfoldable pub isalpha : ℕ → Bool
isalpha c = has_class (upper + lower) c

unfoldable pub isupper : ℕ → Bool
isupper c = has_class (upper) c

unfoldable pub islower : ℕ → Bool
islower c = has_class (lower) c

unfoldable pub isdigit : ℕ → Bool
isdigit c = has_class (number) c

unfoldable pub isxdigit : ℕ → Bool
isxdigit c = has_class (number + hex) c

unfoldable pub isspace : ℕ → Bool
isspace c = has_class (space) c

unfoldable pub ispunct : ℕ → Bool
ispunct c = has_class (punct) c

unfoldable pub isalnum : ℕ → Bool
isalnum c = has_class (upper + lower + number) c

unfoldable pub isprint : ℕ → Bool
isprint c = has_class (punct + upper + lower + number + space) c

unfoldable pub iscntrl : ℕ → Bool
iscntrl c = has_class (ctrl) c

-- The characters from `a` to `b`.
abbrev pub between : ℕ → ℕ → ℕ → Bool
between a b c = leb a c && leb c b

abbrev same : Bool → Bool → Bool
same a b = if a then b else (if b then false else true)

same_lem : (a b : Bool) → same a b ≡ true → a ≡ b
same_lem a b h = ground arith

abbrev all_below : ℕ → (ℕ → Bool) → Bool
all_below zero test = true
all_below (suc n) test = test n && all_below n test

all_below-at : (n : ℕ) (test : ℕ → Bool) (c : ℕ) → all_below n test ≡ true → c < n → test c ≡ true
all_below-at zero test c h l = absurd (omega arith)
all_below-at (suc n) test c h l = elim (Bool-cases (c == n)) [
  | inl e ↦ (let s : c ≡ n = ground arith in rw s (ground arith))
  | inr e ↦ all_below-at n test c (ground arith) (ground arith)
]

classes_agree :
    (f g : ℕ → Bool) → all_below 128 (λ c. same (f c) (g c)) ≡ true → (c : ℕ) → c < 128 → f c ≡ g c
classes_agree f g h c l = same_lem (f c) (g c) (all_below-at 128 (λ k. same (f k) (g k)) c h l)

abbrev pub capital : ℕ → Bool
capital c = between 65 90 c

abbrev pub small : ℕ → Bool
small c = between 97 122 c

abbrev pub decimal_digit : ℕ → Bool
decimal_digit c = between 48 57 c

abbrev pub white : ℕ → Bool
white c = between 9 13 c || (c == 32)

abbrev pub sign_char : ℕ → Bool
sign_char c = between 33 47 c || between 58 64 c || between 91 96 c || between 123 126 c

-- For every character below 128 the classes that the table gives are the ranges of ASCII: letters,
-- digits and punctuation as usual; the five characters from 9 to 13 are white space and count as
-- printable, and they are no control characters.
pub ctype-ranges :
    (c : ℕ)
    → c < 128
    → (isupper c ≡ capital c)
      × (islower c ≡ small c)
      × (isalpha c ≡ (capital c || small c))
      × (isdigit c ≡ decimal_digit c)
      × (isxdigit c ≡ (decimal_digit c || between 65 70 c || between 97 102 c))
      × (isspace c ≡ white c)
      × (ispunct c ≡ sign_char c)
      × (isalnum c ≡ (capital c || small c || decimal_digit c))
      × (isprint c ≡ (between 32 126 c || between 9 13 c))
      × (iscntrl c ≡ (between 0 8 c || between 14 31 c || (c == 127)))
unfolding isupper islower isalpha isdigit isxdigit isspace ispunct isalnum isprint iscntrl
ctype-ranges c h = (
  classes_agree isupper capital refl c h,
  classes_agree islower small refl c h,
  classes_agree isalpha (λ k. capital k || small k) refl c h,
  classes_agree isdigit decimal_digit refl c h,
  classes_agree isxdigit (λ k. decimal_digit k || between 65 70 k || between 97 102 k) refl c h,
  classes_agree isspace white refl c h,
  classes_agree ispunct sign_char refl c h,
  classes_agree isalnum (λ k. capital k || small k || decimal_digit k) refl c h,
  classes_agree isprint (λ k. between 32 126 k || between 9 13 k) refl c h,
  classes_agree iscntrl (λ k. between 0 8 k || between 14 31 k || (k == 127)) refl c h,
)
