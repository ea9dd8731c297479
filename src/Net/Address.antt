-- ===== src/Net/Address.antt =====
-- net/dot2ip.c and addresses in dotted decimal.
use ece564_project.Prelude.{
  ℕ, suc, ◌+◌, ◌*◌, ◌%◌, ◌^◌, ◌<◌, ◌≡◌, refl, ap, ◌∙◌, false, ltb, ◌==◌, if◌then◌else◌, Option,
  some, none, List, [], ◌∷◌, ◌++◌, length, arith, subst,
}
use ece564_project.Text.Bytes.{Memory, IsString}
use ece564_project.Net.Dotted.{
  Segment, Reads, read_segments, dot2ip, decimal, dotted_decimal, read_segment-decimal,
}

IsString-Reads : (m : Memory) (a : ℕ) (xs : List ℕ) → IsString m a xs → Reads m a xs 0
IsString-Reads m a [] h = h
IsString-Reads m a (x ∷ xs) h =
    let (here, char, rest) = h in (here, IsString-Reads m (a + 1) xs rest)

IsString-split :
    (m : Memory) (a x : ℕ) (xs ys : List ℕ)
    → IsString m a (xs ++ x ∷ ys)
    → Reads m a xs x × IsString m (a + length xs + 1) ys
IsString-split m a x [] ys h =
    let (here, char, rest) = h in (here, subst (λ k. IsString m k ys) (omega arith) rest)
IsString-split m a x (z ∷ xs) ys h =
    let (here, char, rest) = h in
    let (reads, left) = IsString-split m (a + 1) x xs ys rest in
    ((here, reads), subst (λ k. IsString m k ys) (omega arith) left)

-- What the loop does after a segment.
after_segment : ℕ → ℕ → ℕ → Memory → Option Segment → Option ℕ
after_segment left seg ip m o = elim o [
  | none ↦ none
  | some s ↦
      let (next, val, ch) = s in
      let ip' : ℕ = ip * 256 % 2 ^ 32 + val in
      let rest = read_segments left (seg + 1) next ip' m in
      if ltb 255 val then none else if ch == 0 then (if seg == 3 then some ip' else none) else rest
]

read_segments-next :
    (left seg a ip b seg' ip' : ℕ) (m : Memory)
    → b < 256
    → Reads m a (decimal b) 46
    → seg + 1 ≡ seg'
    → ip * 256 % 2 ^ 32 + b ≡ ip'
    → read_segments (suc left) seg a ip m
      ≡ read_segments left seg' (a + length (decimal b) + 1) ip' m
unfolding read_segments after_segment
read_segments-next left seg a ip b seg' ip' m h r n i =
    let small : ltb 255 b ≡ false = ground arith in
    ap (after_segment left seg ip m) (read_segment-decimal a b 46 m h refl r)
    ∙ rw (small, n, i) refl

read_segments-last :
    (left a ip b ip' : ℕ) (m : Memory)
    → b < 256
    → Reads m a (decimal b) 0
    → ip * 256 % 2 ^ 32 + b ≡ ip'
    → read_segments (suc left) 3 a ip m ≡ some ip'
unfolding read_segments after_segment
read_segments-last left a ip b ip' m h r i =
    let small : ltb 255 b ≡ false = ground arith in
    ap (after_segment left 3 ip m) (read_segment-decimal a b 0 m h refl r) ∙ rw (small, i) refl

-- The string holds four bytes in decimal without leading zeros, with points between them: dot2ip
-- succeeds with the address of these bytes, the first of which is the highest.
pub dot2ip-dotted_decimal :
    (p a b c d : ℕ) (m : Memory)
    → a < 256
    → b < 256
    → c < 256
    → d < 256
    → IsString m p (dotted_decimal a b c d)
    → dot2ip p m ≡ some (((a * 256 + b) * 256 + c) * 256 + d)
unfolding dot2ip
dot2ip-dotted_decimal p a b c d m ha hb hc hd s =
    let (ra, sa) =
      IsString-split m p 46 (decimal a) (decimal b ++ 46 ∷ (decimal c ++ 46 ∷ decimal d)) s in
    let pb = p + length (decimal a) + 1 in
    let (rb, sb) = IsString-split m pb 46 (decimal b) (decimal c ++ 46 ∷ decimal d) sa in
    let pc = pb + length (decimal b) + 1 in
    let (rc, sc) = IsString-split m pc 46 (decimal c) (decimal d) sb in
    let pd = pc + length (decimal c) + 1 in
    read_segments-next 3 0 p 0 a 1 a m ha ra refl (omega arith)
    ∙ read_segments-next 2 1 pb a b 2 (a * 256 + b) m hb rb refl (omega arith)
    ∙ read_segments-next 1 2 pc (a * 256 + b) c 3 ((a * 256 + b) * 256 + c) m hc rc refl
        (omega arith)
    ∙ read_segments-last 0 pd ((a * 256 + b) * 256 + c) d (((a * 256 + b) * 256 + c) * 256 + d) m hd
        (IsString-Reads m pd (decimal d) sc) (omega arith)
