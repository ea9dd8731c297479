-- ===== src/Shell/Lexan.antt =====
-- shell/lexan.c and the constants of include/shell.h that it uses. The line stands in memory; the
-- token buffer and the two arrays of tokens are functions from an index. `tlen` is the index into
-- the token buffer at the end. The fuel bounds each loop.
use ece564_project.Prelude.{
  ℕ, zero, suc, ◌+◌, Bool, true, false, ◌||◌, leb, ◌==◌, if◌then◌else◌, Option, some, none,
}
use ece564_project.Text.Bytes.{Memory}

abbrev pub shell_maxtok : ℕ
shell_maxtok = 32

abbrev pub sh_newline : ℕ
sh_newline = 10

abbrev pub sh_amper : ℕ
sh_amper = 38

abbrev pub sh_blank : ℕ
sh_blank = 32

abbrev pub sh_tab : ℕ
sh_tab = 9

abbrev pub sh_squote : ℕ
sh_squote = 39

abbrev pub sh_dquote : ℕ
sh_dquote = 34

abbrev pub sh_less : ℕ
sh_less = 60

abbrev pub sh_greater : ℕ
sh_greater = 62

abbrev pub sh_tok_amper : ℕ
sh_tok_amper = 0

abbrev pub sh_tok_less : ℕ
sh_tok_less = 1

abbrev pub sh_tok_greater : ℕ
sh_tok_greater = 2

abbrev pub sh_tok_other : ℕ
sh_tok_other = 3

-- The variables of lexan and what its arguments point to.
pub record Lex : Type 0 where
  pub p : ℕ
  pub ntok : ℕ
  pub tbindex : ℕ
  pub tokbuf : ℕ → ℕ
  pub tok : ℕ → ℕ
  pub toktyp : ℕ → ℕ

abbrev pub set_at : ℕ → ℕ → (ℕ → ℕ) → ℕ → ℕ
set_at i v f k = if k == i then v else f k

-- tokbuf[tbindex++] = ch
abbrev pub emit : ℕ → Lex → Lex
emit ch s = record s { tokbuf = set_at s.tbindex ch s.tokbuf; tbindex = s.tbindex + 1 }

-- p++
abbrev pub advance : Lex → Lex
advance s = record s { p = s.p + 1 }

-- tokbuf[tbindex++] = NULLCH; ntok++
abbrev pub end_token : Lex → Lex
end_token s = record (emit 0 s) { ntok = s.ntok + 1 }

abbrev pub at_end : ℕ → Bool
at_end ch = (ch == 0) || (ch == sh_newline)

unfoldable pub skip_blanks : ℕ → Memory → ℕ → Option ℕ
skip_blanks zero m p = none
skip_blanks (suc n) m p =
    let rest = skip_blanks n m (p + 1) in
    if (m p == sh_blank) || (m p == sh_tab) then rest else some p

-- while (((ch=*p++) != quote) && (ch != SH_NEWLINE) && (ch != NULLCH)), with the last ch
unfoldable pub copy_quoted : ℕ → Memory → ℕ → Lex → Option (Lex × ℕ)
copy_quoted zero m quote s = none
copy_quoted (suc n) m quote s =
    let rest = copy_quoted n m quote (emit (m s.p) (advance s)) in
    if (m s.p == quote) || at_end (m s.p) then some (advance s, m s.p) else rest

abbrev pub ends_word : ℕ → Bool
ends_word ch =
    at_end ch
    || (ch == sh_less)
    || (ch == sh_greater)
    || (ch == sh_blank)
    || (ch == sh_tab)
    || (ch == sh_amper)
    || (ch == sh_squote)
    || (ch == sh_dquote)

-- The loop over the rest of a token that is not quoted; the last ch is *p.
unfoldable pub copy_word : ℕ → Memory → Lex → Option Lex
copy_word zero m s = none
copy_word (suc n) m s =
    let rest = copy_word n m (emit (m s.p) (advance s)) in
    if ends_word (m s.p) then some s else rest

-- A quoted string; false is SYSERR, for a string without its end quote.
abbrev pub end_quoted : ℕ → Option (Lex × ℕ) → Option (Lex × Bool)
end_quoted quote none = none
end_quoted quote (some r) = some (if r.1 == quote then (end_token r.0, true) else (r.0, false))

-- Another token; false is SYSERR, for one that is appended to it.
abbrev pub appended : ℕ → Bool
appended ch = (ch == sh_squote) || (ch == sh_dquote) || (ch == sh_less) || (ch == sh_greater)

abbrev pub end_word : Memory → Option Lex → Option (Lex × Bool)
end_word m none = none
end_word m (some s) = some (if appended (m s.p) then (s, false) else (end_token s, true))

-- The entries of the token, and the token.
abbrev pub enter_token : ℕ → Lex → Lex
enter_token typ s = record s {
  tok = set_at s.ntok s.tbindex s.tok;
  toktyp = set_at s.ntok typ s.toktyp;
}

abbrev pub one_char : ℕ → ℕ → Lex → Option (Lex × Bool)
one_char typ ch s = some (end_token (emit ch (advance (enter_token typ s))), true)

unfoldable pub token : ℕ → Memory → Lex → Option (Lex × Bool)
token fuel m s =
    let ch : ℕ = m s.p in
    let s1 : Lex = enter_token sh_tok_other s in
    if ch == sh_amper
    then one_char sh_tok_amper ch s
    else if ch == sh_less
    then one_char sh_tok_less ch s
    else if ch == sh_greater
    then one_char sh_tok_greater ch s
    else if (ch == sh_squote) || (ch == sh_dquote)
    then end_quoted ch (copy_quoted fuel m ch (advance s1))
    else end_word m (copy_word fuel m (emit ch (advance s1)))

abbrev pub after_token :
    (Lex → Option (Lex × Option ℕ)) → Option (Lex × Bool) → Option (Lex × Option ℕ)
after_token next none = none
after_token next (some (s, true)) = next s
after_token next (some (s, false)) = some (s, none)

-- What follows the skipped blanks.
abbrev pub after_blanks :
    (Lex → Option (Lex × Option ℕ)) → ℕ → Memory → Lex → Option ℕ → Option (Lex × Option ℕ)
after_blanks next fuel m s none = none
after_blanks next fuel m s (some p) =
    if at_end (m p)
    then some (record s { p = p }, some s.ntok)
    else after_token next (token fuel m (record s { p = p }))

-- The outer loop. The result is the number of tokens, or `none` for SYSERR.
unfoldable pub lexan_loop : ℕ → ℕ → Memory → Lex → Option (Lex × Option ℕ)
lexan_loop zero fuel m s = none
lexan_loop (suc n) fuel m s =
    if at_end (m s.p)
    then some (s, some s.ntok)
    else if leb shell_maxtok s.ntok
    then some (s, none)
    else after_blanks (lexan_loop n fuel m) fuel m s (skip_blanks fuel m s.p)

unfoldable pub lexan : ℕ → Memory → ℕ → Lex → Option (Lex × Option ℕ)
lexan fuel m line s = lexan_loop fuel fuel m (record s { p = line; ntok = 0; tbindex = 0 })
