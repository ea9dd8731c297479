-- ===== src/Shell/Tests.antt =====
-- The analyser at the line "a >b" with a newline and no 0 behind it.
use ece564_project.Prelude.{ℕ, ◌≡◌, refl, Option, some, arith}
use ece564_project.Text.Bytes.{Memory, poke}
use ece564_project.Shell.Lexan.{Lex, skip_blanks, copy_word, token, lexan_loop, lexan}
use ece564_project.Shell.Bounds.{Analysed, lexan-Analysed}

abbrev memory : Memory
memory = poke 100 97 (poke 101 32 (poke 102 62 (poke 103 98 (poke 104 10 (λ k. 65)))))

abbrev before : Lex
before = record { p = 0; ntok = 0; tbindex = 0; tokbuf = λ i. 7; tok = λ i. 7; toktyp = λ i. 7 }

lexan-Analysed_example :
    (s : Lex) × (r : Option ℕ) × (lexan 5 memory 100 before ≡ some (s, r))
    × Analysed 104 100 before s r
lexan-Analysed_example = lexan-Analysed 5 104 100 memory before refl (omega arith) (omega arith)

-- It has three tokens, and the index is 6.
three_tokens : (s : Lex) × (lexan 5 memory 100 before ≡ some (s, some 3)) × (s.tbindex ≡ 6)
unfolding lexan lexan_loop skip_blanks token copy_word
three_tokens = (_, refl, refl)
