-- ===== src/Shell/Bounds.antt =====
-- shell/lexan.c: the analyser ends, and it stays inside its arrays.
use ece564_project.Prelude.{
  ℕ, zero, suc, ◌+◌, ◌≤◌, ◌<◌, ◌≡◌, refl, Bool, true, false, ◌||◌, arith, leb, ◌==◌, Option, some,
  none, Bool-cases, inl, inr, ◌⊎◌, ◌∙◌, ap,
}
use ece564_project.Text.Bytes.{Memory}
use ece564_project.Shell.Lexan.{
  Lex, at_end, skip_blanks, token, after_blanks, lexan_loop, lexan, one_char,
}
use ece564_project.Shell.Loops.{skip_blanks-stops}
use ece564_project.Shell.Tokens.{
  Within, Within-mono, Within-at, Stepped, one_char-Stepped, quoted-Stepped, word-Stepped,
}

module _ (fuel e line : ℕ) (m : Memory) (s0 s : Lex) (z : at_end (m e) ≡ true) (low : s.p ≤ e)
    (inner : at_end (m s.p) ≡ false) (f : e < s.p + fuel) (free : s.ntok < 32)
    (w : Within s.p line s0 s) where
  single :
      (r : Option (Lex × Bool)) (typ : ℕ)
      → r ≡ one_char typ (m s.p) s
      → (s' : Lex) × (ok : Bool) × (r ≡ some (s', ok)) × Stepped e line s0 s s' ok
  single r typ same =
      let (s', run, step) = one_char-Stepped fuel e line m s0 s z low inner f free w typ (m s.p) in
      (s', true, same ∙ run, step)

  token-Stepped :
      (s' : Lex) × (ok : Bool) × (token fuel m s ≡ some (s', ok)) × Stepped e line s0 s s' ok
  unfolding token
  token-Stepped = elim (Bool-cases (m s.p == 38)) [
    | inl a ↦ single (token fuel m s) 0 (rw a refl)
    | inr a ↦ elim (Bool-cases (m s.p == 60)) [
      | inl b ↦ single (token fuel m s) 1 (rw (a, b) refl)
      | inr b ↦ elim (Bool-cases (m s.p == 62)) [
        | inl c ↦ single (token fuel m s) 2 (rw (a, b, c) refl)
        | inr c ↦ elim (Bool-cases ((m s.p == 39) || (m s.p == 34))) [
          | inl d ↦
              let (s', ok, run, step) = quoted-Stepped fuel e line m s0 s z low inner f free w in
              (s', ok, rw (a, b, c, d) run, step)
          | inr d ↦
              let (s', ok, run, step) = word-Stepped fuel e line m s0 s z low inner f free w in
              (s', ok, rw (a, b, c, d) run, step)
        ]
      ]
    ]
  ]

-- What the analyser leaves and returns.
pub record Analysed (e line : ℕ) (s0 s : Lex) (r : Option ℕ) : Type 0 where
  pub inside : Within e line s0 s
  pub result : (r ≡ none) ⊎ (r ≡ some s.ntok)

lexan_loop_end :
    (n fuel : ℕ) (m : Memory) (s : Lex)
    → at_end (m s.p) ≡ true
    → lexan_loop (suc n) fuel m s ≡ some (s, some s.ntok)
unfolding lexan_loop
lexan_loop_end n fuel m s h = rw h refl

lexan_loop_full :
    (n fuel : ℕ) (m : Memory) (s : Lex)
    → at_end (m s.p) ≡ false
    → leb 32 s.ntok ≡ true
    → lexan_loop (suc n) fuel m s ≡ some (s, none)
unfolding lexan_loop
lexan_loop_full n fuel m s h g = rw (h, g) refl

lexan_loop_more :
    (n fuel : ℕ) (m : Memory) (s : Lex)
    → at_end (m s.p) ≡ false
    → leb 32 s.ntok ≡ false
    → lexan_loop (suc n) fuel m s
      ≡ after_blanks (lexan_loop n fuel m) fuel m s (skip_blanks fuel m s.p)
unfolding lexan_loop
lexan_loop_more n fuel m s h g = rw (h, g) refl

lexan_loop-Analysed :
    (n fuel e line : ℕ) (m : Memory) (s0 s : Lex)
    → at_end (m e) ≡ true
    → s.p ≤ e
    → e < s.p + n
    → e < s.p + fuel
    → Within s.p line s0 s
    → (s' : Lex) × (r : Option ℕ) × (lexan_loop n fuel m s ≡ some (s', r)) × Analysed e line s0 s' r
lexan_loop-Analysed zero fuel e line m s0 s z low h f w = absurd (omega arith)
lexan_loop-Analysed (suc n) fuel e line m s0 s z low h f w = elim (Bool-cases (at_end (m s.p))) [
  | inl stop ↦ (
    s,
    some s.ntok,
    lexan_loop_end n fuel m s stop,
    record { inside = Within-mono s.p line s0 s w e low; result = inr refl },
  )
  | inr on ↦ elim (Bool-cases (leb 32 s.ntok)) [
    | inl full ↦ (
      s,
      none,
      lexan_loop_full n fuel m s on full,
      record { inside = Within-mono s.p line s0 s w e low; result = inl refl },
    )
    | inr free ↦
        let (p, skipped, from, to) = skip_blanks-stops fuel m s.p e z low f in
        let s1 : Lex = record s { p = p } in
        let w1 : Within p line s0 s1 =
          Within-mono s.p line s0 s1 (Within-at s.p line s0 s w p) p from in
        let start =
          lexan_loop_more n fuel m s on free
          ∙ ap (after_blanks (lexan_loop n fuel m) fuel m s) skipped in
        elim (Bool-cases (at_end (m p))) [
          | inl stop ↦ (
            s1,
            some s.ntok,
            start ∙ rw stop refl,
            record { inside = Within-mono p line s0 s1 w1 e to; result = inr refl },
          )
          | inr inner ↦
              let (s2, ok, run, step) =
                token-Stepped fuel e line m s0 s1 z to inner (omega arith) (ground arith) w1 in
              elim (Bool-cases ok) [
                | inr bad ↦ (
                  s2,
                  none,
                  start ∙ rw (inner, run, bad) refl,
                  record { inside = step.inside; result = inl refl },
                )
                | inl good ↦
                    let (forth, high, w2) = step.onwards good in
                    let (s3, r, rest, done) =
                      lexan_loop-Analysed n fuel e line m s0 s2 z high (omega arith) (omega arith)
                        w2 in
                    (s3, r, start ∙ rw (inner, run, good) rest, done)
              ]
        ]
  ]
]

-- lexan of a line in memory, when there is a newline or a 0 at `e`, the address of the line or one
-- behind it: it ends, with the number of its tokens or with SYSERR. There are at most 32 tokens, no
-- entry of the arrays of tokens from the 32nd on is written, and in the token buffer nothing is
-- written from the index on, which is at most the number of bytes of the line before that newline
-- or 0 and one for each token.
pub lexan-Analysed :
    (fuel e line : ℕ) (m : Memory) (s : Lex)
    → ((m e == 10) || (m e == 0)) ≡ true
    → line ≤ e
    → e < line + fuel
    → (s' : Lex) × (r : Option ℕ) × (lexan fuel m line s ≡ some (s', r)) × Analysed e line s s' r
unfolding lexan
lexan-Analysed fuel e line m s z low f =
    lexan_loop-Analysed fuel fuel e line m s (record s { p = line; ntok = 0; tbindex = 0 })
      (ground arith) low f f
      (record {
        count = omega arith;
        index = omega arith;
        toks = λ i h. refl;
        types = λ i h. refl;
        beyond = λ i h. refl;
      })
