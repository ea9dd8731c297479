-- ===== src/Shell/Tokens.antt =====
-- shell/lexan.c: each kind of token stays inside the arrays.
use ece564_project.Prelude.{
  ℕ, ◌+◌, ◌≤◌, ◌<◌, ◌≡◌, refl, Bool, true, false, arith, ◌==◌, some, Bool-cases, inl, inr, ◌∙◌, ap,
}
use ece564_project.Text.Bytes.{Memory}
use ece564_project.Shell.Lexan.{
  Lex, emit, advance, end_token, at_end, copy_quoted, copy_word, end_quoted, appended, end_word,
  enter_token, one_char,
}
use ece564_project.Shell.Loops.{Copied, before_end, copy_quoted-Copied, copy_word-Copied}

-- At most 32 tokens; the token buffer holds at most one byte for each byte from `line` up to `b`
-- and one for each token; the arrays are unchanged from the 32nd entry on, and the token buffer
-- from its index on.
pub record Within (b line : ℕ) (s0 s : Lex) : Type 0 where
  pub count : s.ntok ≤ 32
  pub index : s.tbindex + line ≤ b + s.ntok
  pub toks : (i : ℕ) → 32 ≤ i → s.tok i ≡ s0.tok i
  pub types : (i : ℕ) → 32 ≤ i → s.toktyp i ≡ s0.toktyp i
  pub beyond : (i : ℕ) → s.tbindex ≤ i → s.tokbuf i ≡ s0.tokbuf i

module _ (b line : ℕ) (s0 s : Lex) (w : Within b line s0 s) where
  pub Within-mono : (e : ℕ) → b ≤ e → Within e line s0 s
  Within-mono e h =
      (let i = w.index in
        record {
          count = w.count;
          index = omega arith;
          toks = w.toks;
          types = w.types;
          beyond = w.beyond;
        })

  pub Within-at : (p : ℕ) → Within b line s0 (record s { p = p })
  Within-at p = record {
    count = w.count;
    index = w.index;
    toks = w.toks;
    types = w.types;
    beyond = w.beyond;
  }

  Within-Copied : (s' : Lex) (k : ℕ) → Copied s s' k → Within (b + k) line s0 s'
  Within-Copied s' k c =
      let i = w.index in
      let j = c.index in
      let n = c.count in
      let m = w.count in
      record {
        count = omega arith;
        index = omega arith;
        toks = λ x h. ap (λ f. f x) c.toks ∙ w.toks x h;
        types = λ x h. ap (λ f. f x) c.types ∙ w.types x h;
        beyond = λ x h. c.beyond x h ∙ w.beyond x (omega arith);
      }

  Within-enter : (typ : ℕ) → s.ntok < 32 → Within b line s0 (enter_token typ s)
  Within-enter typ h = record {
    count = w.count;
    index = w.index;
    toks = λ x g. (let t = w.toks x g in ground arith);
    types = λ x g. (let t = w.types x g in ground arith);
    beyond = w.beyond;
  }

  Within-emit : (ch : ℕ) → Within (b + 1) line s0 (emit ch s)
  Within-emit ch =
      (let i = w.index in
        record {
          count = w.count;
          index = ground arith;
          toks = w.toks;
          types = w.types;
          beyond = λ x h. (let t = w.beyond x (ground arith) in ground arith);
        })

  Within-end : s.ntok < 32 → Within b line s0 (end_token s)
  Within-end h =
      (let i = w.index in
        record {
          count = ground arith;
          index = ground arith;
          toks = w.toks;
          types = w.types;
          beyond = λ x h. (let t = w.beyond x (ground arith) in ground arith);
        })

-- What a token leaves: if it is one, the pointer is behind it.
pub record Stepped (e line : ℕ) (s0 s s' : Lex) (ok : Bool) : Type 0 where
  pub inside : Within e line s0 s'
  pub onwards : ok ≡ true → (s.p < s'.p) × (s'.p ≤ e) × Within s'.p line s0 s'

Stepped-on :
    (e line : ℕ) (s0 s s' : Lex)
    → Within s'.p line s0 s'
    → s.p < s'.p
    → s'.p ≤ e
    → Stepped e line s0 s s' true
Stepped-on e line s0 s s' w low high = record {
  inside = Within-mono s'.p line s0 s' w e high;
  onwards = λ t. (low, high, w);
}

Stepped-error : (e line : ℕ) (s0 s s' : Lex) → Within e line s0 s' → Stepped e line s0 s s' false
Stepped-error e line s0 s s' w = record { inside = w; onwards = λ t. absurd (ground arith) }

module _ (fuel e line : ℕ) (m : Memory) (s0 s : Lex) (z : at_end (m e) ≡ true) (low : s.p ≤ e)
    (inner : at_end (m s.p) ≡ false) (f : e < s.p + fuel) (free : s.ntok < 32)
    (w : Within s.p line s0 s) where
  more : s.p + 1 ≤ e
  more = before_end m s.p e z low (ground arith)

  pub one_char-Stepped :
      (typ ch : ℕ)
      → (s' : Lex) × (one_char typ ch s ≡ some (s', true)) × Stepped e line s0 s s' true
  one_char-Stepped typ ch =
      let s1 : Lex = enter_token typ s in
      let s2 : Lex = emit ch (advance s1) in
      let w1 = Within-enter s.p line s0 s w typ free in
      let w2 = Within-emit s.p line s0 (advance s1) (Within-at s.p line s0 s1 w1 (s.p + 1)) ch in
      (
        end_token s2,
        refl,
        Stepped-on e line s0 s (end_token s2) (Within-end (s.p + 1) line s0 s2 w2 free)
            (omega arith) more,
      )

  pub quoted-Stepped :
      (s' : Lex) × (ok : Bool) × (end_quoted
          (m s.p)
          (copy_quoted fuel m (m s.p) (advance (enter_token 3 s)))
        ≡ some (s', ok))
      × Stepped e line s0 s s' ok
  quoted-Stepped =
      let s1 : Lex = enter_token 3 s in
      let w1 = Within-at s.p line s0 s1 (Within-enter s.p line s0 s w 3 free) (s.p + 1) in
      let (s2, c, k, run, copied, at_p, high, last) =
        copy_quoted-Copied fuel m (m s.p) (advance s1) e z more (omega arith) in
      let w2 : Within (s.p + k) line s0 s2 =
        Within-Copied s.p line s0 (advance s1) w1 s2 k copied in
      elim (Bool-cases (c == m s.p)) [
        | inl end ↦
            let behind = before_end m (s.p + 1 + k) e z high (ground arith) in
            let count = copied.count in
            let w3 = Within-mono (s.p + k) line s0 s2 w2 s2.p (omega arith) in
            (
              end_token s2,
              true,
              ap (end_quoted (m s.p)) run ∙ rw end refl,
              Stepped-on e line s0 s (end_token s2) (Within-end s2.p line s0 s2 w3 (omega arith))
                  (omega arith) (omega arith),
            )
        | inr unclosed ↦ (
          s2,
          false,
          ap (end_quoted (m s.p)) run ∙ rw unclosed refl,
          Stepped-error e line s0 s s2 (Within-mono (s.p + k) line s0 s2 w2 e (omega arith)),
        )
      ]

  pub word-Stepped :
      (s' : Lex) × (ok : Bool) × (end_word m
          (copy_word fuel m (emit (m s.p) (advance (enter_token 3 s))))
        ≡ some (s', ok))
      × Stepped e line s0 s s' ok
  word-Stepped =
      let s1 : Lex = enter_token 3 s in
      let s2 : Lex = emit (m s.p) (advance s1) in
      let w1 = Within-at s.p line s0 s1 (Within-enter s.p line s0 s w 3 free) (s.p + 1) in
      let w2 = Within-emit s.p line s0 (advance s1) w1 (m s.p) in
      let (s3, k, run, copied, at_p, high) = copy_word-Copied fuel m s2 e z more (omega arith) in
      let count = copied.count in
      let w3 : Within s3.p line s0 s3 =
        Within-mono (s.p + 1 + k) line s0 s3 (Within-Copied (s.p + 1) line s0 s2 w2 s3 k copied)
          s3.p (omega arith) in
      elim (Bool-cases (appended (m s3.p))) [
        | inl bad ↦ (
          s3,
          false,
          ap (end_word m) run ∙ rw bad refl,
          Stepped-error e line s0 s s3 (Within-mono s3.p line s0 s3 w3 e high),
        )
        | inr good ↦ (
          end_token s3,
          true,
          ap (end_word m) run ∙ rw good refl,
          Stepped-on e line s0 s (end_token s3) (Within-end s3.p line s0 s3 w3 (omega arith))
              (omega arith) high,
        )
      ]
