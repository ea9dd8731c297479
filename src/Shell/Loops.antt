-- ===== src/Shell/Loops.antt =====
-- shell/lexan.c: the inner loops end at the end of the line.
use ece564_project.Prelude.{
  ℕ, zero, suc, ◌+◌, ◌≤◌, ◌<◌, ◌≡◌, refl, true, false, ◌||◌, arith, ◌==◌, some, Bool-cases, inl,
  inr, ◌∙◌, ap,
}
use ece564_project.Text.Bytes.{Memory}
use ece564_project.Shell.Lexan.{
  Lex, emit, advance, at_end, skip_blanks, copy_quoted, ends_word, copy_word,
}

-- From `s` to `s'` the token buffer got `k` more bytes, and nothing else changed but p.
pub record Copied (s s' : Lex) (k : ℕ) : Type 0 where
  pub index : s'.tbindex ≡ s.tbindex + k
  pub count : s'.ntok ≡ s.ntok
  pub toks : s'.tok ≡ s.tok
  pub types : s'.toktyp ≡ s.toktyp
  pub beyond : (i : ℕ) → s'.tbindex ≤ i → s'.tokbuf i ≡ s.tokbuf i

Copied-emit : (s s' : Lex) (ch k : ℕ) → Copied (emit ch (advance s)) s' k → Copied s s' (suc k)
Copied-emit s s' ch k c =
    let i = c.index in
    record {
      index = i ∙ ground arith;
      count = c.count;
      toks = c.toks;
      types = c.types;
      beyond = λ j h. c.beyond j h ∙ ground arith;
    }

Copied-advance : (s : Lex) → Copied s (advance s) 0
Copied-advance s = record {
  index = ground arith;
  count = refl;
  toks = refl;
  types = refl;
  beyond = λ j h. refl;
}

Copied-same : (s : Lex) → Copied s s 0
Copied-same s = record {
  index = ground arith;
  count = refl;
  toks = refl;
  types = refl;
  beyond = λ j h. refl;
}

-- A loop goes on at most up to the end of the line at `e`, a newline or a 0.
pub before_end :
    (m : Memory) (p e : ℕ) → at_end (m e) ≡ true → p ≤ e → at_end (m p) ≡ false → p + 1 ≤ e
before_end m p e z h n = elim (Bool-cases (p == e)) [
  | inr a ↦ ground arith
  | inl a ↦ let same : p ≡ e = ground arith in let y = ap m same in absurd (ground arith)
]

pub skip_blanks-stops :
    (fuel : ℕ) (m : Memory) (p e : ℕ)
    → at_end (m e) ≡ true
    → p ≤ e
    → e < p + fuel
    → (p' : ℕ) × (skip_blanks fuel m p ≡ some p') × (p ≤ p') × (p' ≤ e)
unfolding skip_blanks
skip_blanks-stops zero m p e z h f = absurd (omega arith)
skip_blanks-stops (suc n) m p e z h f = elim (Bool-cases ((m p == 32) || (m p == 9))) [
  | inr stop ↦ (p, rw stop refl, omega arith, h)
  | inl on ↦
      let more = before_end m p e z h (ground arith) in
      let (p', run, low, high) = skip_blanks-stops n m (p + 1) e z more (omega arith) in
      (p', rw on run, omega arith, high)
]

pub copy_quoted-Copied :
    (fuel : ℕ) (m : Memory) (quote : ℕ) (s : Lex) (e : ℕ)
    → at_end (m e) ≡ true
    → s.p ≤ e
    → e < s.p + fuel
    → (s' : Lex) × (ch : ℕ) × (k : ℕ) × (copy_quoted fuel m quote s ≡ some (s', ch))
      × Copied s s' k
      × (s'.p ≡ s.p + k + 1)
      × (s.p + k ≤ e)
      × (ch ≡ m (s.p + k))
unfolding copy_quoted
copy_quoted-Copied zero m quote s e z h f = absurd (omega arith)
copy_quoted-Copied (suc n) m quote s e z h f =
    elim (Bool-cases ((m s.p == quote) || at_end (m s.p))) [
      | inl stop ↦ (
        advance s,
        m s.p,
        0,
        rw stop refl,
        Copied-advance s,
        omega arith,
        omega arith,
        ap m (omega arith),
      )
      | inr on ↦
          let more = before_end m s.p e z h (ground arith) in
          let (s', ch, k, run, c, at_p, high, last) =
            copy_quoted-Copied n m quote (emit (m s.p) (advance s)) e z more (omega arith) in
          (
            s',
            ch,
            suc k,
            rw on run,
            Copied-emit s s' (m s.p) k c,
            omega arith,
            omega arith,
            last ∙ ap m (omega arith),
          )
    ]

pub copy_word-Copied :
    (fuel : ℕ) (m : Memory) (s : Lex) (e : ℕ)
    → at_end (m e) ≡ true
    → s.p ≤ e
    → e < s.p + fuel
    → (s' : Lex) × (k : ℕ) × (copy_word fuel m s ≡ some s')
      × Copied s s' k
      × (s'.p ≡ s.p + k)
      × (s'.p ≤ e)
unfolding copy_word
copy_word-Copied zero m s e z h f = absurd (omega arith)
copy_word-Copied (suc n) m s e z h f = elim (Bool-cases (ends_word (m s.p))) [
  | inl stop ↦ (s, 0, rw stop refl, Copied-same s, omega arith, h)
  | inr on ↦
      let more = before_end m s.p e z h (ground arith) in
      let (s', k, run, c, at_p, high) =
        copy_word-Copied n m (emit (m s.p) (advance s)) e z more (omega arith) in
      (s', suc k, rw on run, Copied-emit s s' (m s.p) k c, omega arith, high)
]
