-- ===== src/Text/Measure.antt =====
-- lib/strlen.c and lib/strnlen.c. A length below 2^31 is meant, so that the int does not wrap.
use ece564_project.Prelude.{
  ℕ, zero, suc, ◌+◌, ◌-◌, ◌≤◌, ◌<◌, ◌≡◌, false, arith, ◌==◌, if◌then◌else◌, Option, some, none,
  Bool-cases, inl, inr, List, [], ◌∷◌, length,
}
use ece564_project.Text.Bytes.{Memory, IsString}

-- while (*str++ != 0) len++; `none` if the fuel runs out.
unfoldable pub count_chars : ℕ → ℕ → ℕ → Memory → Option ℕ
count_chars zero str len m = none
count_chars (suc fuel) str len m =
    let rest = count_chars fuel (str + 1) (len + 1) m in if m str == 0 then some len else rest

unfoldable pub strlen : ℕ → ℕ → Memory → Option ℕ
strlen fuel str m = count_chars fuel str 0 m

-- while (*s++ && n < len) n++; `left` is len - n.
unfoldable pub count_up_to : ℕ → ℕ → ℕ → Memory → ℕ
count_up_to zero s n m = n
count_up_to (suc left) s n m =
    let rest = count_up_to left (s + 1) (n + 1) m in if m s == 0 then n else rest

unfoldable pub strnlen : ℕ → ℕ → Memory → ℕ
strnlen s len m = count_up_to len s 0 m

count_chars-length :
    (fuel str len : ℕ) (m : Memory) (xs : List ℕ)
    → IsString m str xs
    → length xs < fuel
    → count_chars fuel str len m ≡ some (len + length xs)
unfolding count_chars
count_chars-length zero str len m xs s h = absurd (omega arith)
count_chars-length (suc fuel) str len m [] s h = rw s (ground arith)
count_chars-length (suc fuel) str len m (x ∷ xs) s h =
    let more = count_chars-length fuel (str + 1) (len + 1) m xs s.2 (omega arith) in
    rw (s.0, s.1, more) (ground arith)

-- strlen of a string in memory ends after one round for each byte and one more, with the number
-- of its bytes.
pub strlen-length :
    (fuel str : ℕ) (m : Memory) (xs : List ℕ)
    → IsString m str xs
    → length xs < fuel
    → strlen fuel str m ≡ some (length xs)
unfolding strlen
strlen-length fuel str m xs s h = rw (count_chars-length fuel str 0 m xs s h) (ground arith)

-- Among the first `len` bytes from `s` there is no 0 before the result, and there is one at the
-- result if it is less than `len`.
pub record Measures (m : Memory) (s len r : ℕ) : Type 0 where
  pub bounded : r ≤ len
  pub inside : (i : ℕ) → i < r → (m (s + i) == 0) ≡ false
  pub ended : r < len → m (s + r) ≡ 0

count_up_to-Measures :
    (left s n : ℕ) (m : Memory) → (r : ℕ) × (count_up_to left s n m ≡ n + r) × Measures m s left r
unfolding count_up_to
count_up_to-Measures zero s n m = (
  0,
  ground arith,
  record {
    bounded = omega arith;
    inside = λ i h. absurd (omega arith);
    ended = λ h. absurd (omega arith);
  },
)
count_up_to-Measures (suc left) s n m =
    let (r, e, d) = count_up_to-Measures left (s + 1) (n + 1) m in
    elim (Bool-cases (m s == 0)) [
      | inl stop ↦ (
        0,
        rw stop (ground arith),
        record {
          bounded = omega arith;
          inside = λ i h. absurd (omega arith);
          ended = λ h. ground arith;
        },
      )
      | inr go ↦ (
        suc r,
        rw (go, e) (omega arith),
        record {
          bounded = let b = d.bounded in omega arith;
          inside = λ i h. elim (Bool-cases (i == 0)) [
            | inl e ↦ (let same : s + i ≡ s = ground arith in rw same go)
            | inr e ↦
                (let same : s + i ≡ (s + 1) + (i - 1) = ground arith in
                  rw same (d.inside (i - 1) (ground arith)))
          ];
          ended = λ h.
              (let same : s + suc r ≡ (s + 1) + r = omega arith in rw same (d.ended (omega arith)));
        },
      )
    ]

-- strnlen, of any memory: the result is at most `len`, no byte before it is 0, and if it is less
-- than `len` the byte at it is 0.
pub strnlen-Measures : (s len : ℕ) (m : Memory) → Measures m s len (strnlen s len m)
unfolding strnlen
strnlen-Measures s len m =
    let (r, e, d) = count_up_to-Measures len s 0 m in
    let same : count_up_to len s 0 m ≡ r = rw e (ground arith) in rw same d
