-- ===== src/Text/Tests.antt =====
-- The theorems on the C library at a memory with three strings.
use ece564_project.Prelude.{ℕ, ◌≡◌, refl, some, [], ◌∷◌, arith}
use ece564_project.Prelude.Int.{ℤ, negsuc}
use ece564_project.Text.Bytes.{Memory, as_char, poke}
use ece564_project.Text.Compare.{strcmp, Orders, ended, strcmp-Orders}
use ece564_project.Text.Integers.{atoi, as_int}
use ece564_project.Text.Numbers.{Sign, atoi-decimal}

-- "ab" at 100, "ac" at 200 and " -12" at 300
abbrev memory : Memory
memory = poke 100 97 (
    poke 101 98
      (poke 200 97 (poke 201 99 (poke 300 32 (poke 301 45 (poke 302 49 (poke 303 50 (λ k. 0))))))))

strcmp-Orders_example :
    (r : ℤ) × (strcmp 3 100 200 memory ≡ some r)
    × Orders as_char (ended (97 ∷ 98 ∷ [])) (ended (97 ∷ 99 ∷ [])) r
strcmp-Orders_example =
    strcmp-Orders 3 100 200 memory (97 ∷ 98 ∷ []) (97 ∷ 99 ∷ []) (refl, refl, (refl, refl, refl))
      (refl, refl, (refl, refl, refl)) (omega arith, (omega arith, tt))
      (omega arith, (omega arith, tt)) (omega arith)

atoi-decimal_example : (w : ℕ) × (atoi 5 300 memory ≡ some w) × (as_int w ≡ negsuc 11)
atoi-decimal_example =
    atoi-decimal 5 300 memory (32 ∷ []) Sign.minus 13 12
      (refl, refl, (refl, refl, (refl, refl, (refl, refl, refl)))) (refl, tt) (omega arith)
      (omega arith) (omega arith)
