-- ===== src/Tty/Cooked.antt =====
-- device/tty/ttyhandle_in.c in cooked mode: the driver edits the line that is typed.
use ece564_project.Prelude.{
  ℕ, ◌+◌, ◌<◌, ◌≡◌, refl, Bool, true, false, ◌&&◌, ◌||◌, arith, leb, ◌==◌, if◌then◌else◌, Option,
  some, List, [], ◌∷◌, ◌++◌, length, ap,
}
use ece564_project.Process.Many.{semcount-Calm}
use ece564_project.Tty.Control.{Tty, ty_newline, ty_return}
use ece564_project.Tty.Input.{
  eputc, put_eof, put_char, end_line, kill_line, erase_char, avail, available, handle_cooked,
}
use ece564_project.Tty.Lines.{Keys, keys, Line, drop_last}
use ece564_project.Tty.Edits.{Edits, renamed, killed, erased}
use ece564_project.Tty.Puts.{typed, belled, ended, eof_first, eof_within}

-- The lines that can be read, and the one that is typed.
abbrev pub Lines : Type 0
Lines = List ℕ × List ℕ

abbrev pub edit_eof : ℕ → List ℕ → List ℕ → Lines
edit_eof c xs [] = (xs ++ c ∷ [], [])
edit_eof c xs (y ∷ ys) = (xs, y ∷ ys)

-- Line editing on lists: kill, erase, end of line, a full buffer, end of file, another character.
abbrev pub edit_line : Keys → ℕ → List ℕ → List ℕ → Lines
edit_line k c xs ys =
    if (c == k.killc) && k.kill
    then (xs, [])
    else if ((c == k.erasec) || (c == k.erasec2)) && k.erase
    then (xs, drop_last ys)
    else if (c == ty_newline) || (c == ty_return)
    then (xs ++ (ys ++ c ∷ []), [])
    else if leb 127 (length xs + length ys)
    then (xs, ys)
    else if (c == k.eofch) && k.eof
    then edit_eof c xs ys
    else (xs, ys ++ c ∷ [])

-- The character that counts for `ch`.
abbrev pub mapped : Keys → ℕ → ℕ
mapped k ch = if (ch == ty_return) && k.crlf then ty_newline else ch

-- Flow control comes first.
abbrev pub edit : Keys → ℕ → List ℕ → List ℕ → Lines
edit k ch xs ys =
    if k.flow && (mapped k ch == k.start)
    then (xs, ys)
    else if k.flow && (mapped k ch == k.stop)
    then (xs, ys)
    else edit_line k (mapped k ch) xs ys

-- An end of file at the last cell of the buffer: its pointer would leave the buffer.
abbrev pub overruns : ℕ → Tty → Bool
overruns ch t =
    (mapped (keys t) ch == t.tyeofch) && t.tyeof && (t.tyicursor == 0) && (t.tyitail == 127)

-- Both sides of a test.
pub choose :
    (t : Tty) (b : Bool) (r r' : Option Tty) (p p' : Lines)
    → (b ≡ true → Edits t r p.0 p.1)
    → (b ≡ false → Edits t r' p'.0 p'.1)
    → Edits t (if b then r else r') (if b then p else p').0 (if b then p else p').1
choose t true r r' p p' f g = f refl
choose t false r r' p p' f g = g refl

avail-length : (t : Tty) (xs ys : List ℕ) → Line t xs ys → avail t ≡ length xs
avail-length t xs ys l = ap available (semcount-Calm t.tyisem (length xs) t.sys l.calm)

edit_eof-Edits :
    (t : Tty) (c : ℕ) (xs ys : List ℕ)
    → Line t xs ys
    → length xs + length ys < 128
    → ((t.tyicursor == 0) && (t.tyitail == 127)) ≡ false
    → Edits t (put_eof c t) (edit_eof c xs ys).0 (edit_eof c xs ys).1
edit_eof-Edits t c xs [] l f inside =
    let start = l.ring.start in
    let tail = l.tail in let cursor = l.cursor in eof_first t c xs l (omega arith) (ground arith)
edit_eof-Edits t c xs (y ∷ ys) l f inside = eof_within t c y xs ys l

-- A character that is put into the buffer if it has room.
insert-Edits :
    (t : Tty) (c : ℕ) (xs ys : List ℕ)
    → Line t xs ys
    → length xs + length ys < 128
    → ((c == t.tyeofch) && t.tyeof && (t.tyicursor == 0) && (t.tyitail == 127)) ≡ false
    → (n : ℕ) → n ≡ length xs + length ys
    → Edits t
        (if leb 127 n
          then some (eputc t.tyifullc t)
          else if (c == t.tyeofch) && t.tyeof
          then put_eof c t
          else some (put_char c t))
        (if leb 127 n
          then (xs, ys)
          else if (c == t.tyeofch) && t.tyeof
          then edit_eof c xs ys
          else (xs, ys ++ c ∷ [])).0
        (if leb 127 n
          then (xs, ys)
          else if (c == t.tyeofch) && t.tyeof
          then edit_eof c xs ys
          else (xs, ys ++ c ∷ [])).1
insert-Edits t c xs ys l f inside n e =
    choose t (leb 127 n) (some (eputc t.tyifullc t))
      (if (c == t.tyeofch) && t.tyeof then put_eof c t else some (put_char c t)) (xs, ys)
      (if (c == t.tyeofch) && t.tyeof then edit_eof c xs ys else (xs, ys ++ c ∷ []))
      (λ full. belled t t.tyifullc xs ys l)
      (λ free.
        choose t ((c == t.tyeofch) && t.tyeof) (put_eof c t) (some (put_char c t))
          (edit_eof c xs ys) (xs, ys ++ c ∷ []) (λ eof. edit_eof-Edits t c xs ys l f (ground arith))
          (λ other. typed t c xs ys l f))

pub handle_cooked-Edits :
    (t : Tty) (c : ℕ) (xs ys : List ℕ)
    → Line t xs ys
    → length xs + length ys < 128
    → ((c == t.tyeofch) && t.tyeof && (t.tyicursor == 0) && (t.tyitail == 127)) ≡ false
    → Edits t (handle_cooked c t) (edit_line (keys t) c xs ys).0 (edit_line (keys t) c xs ys).1
unfolding handle_cooked
handle_cooked-Edits t c xs ys l f inside =
    let room : Option Tty =
      if (c == t.tyeofch) && t.tyeof then put_eof c t else some (put_char c t) in
    let count : avail t + t.tyicursor ≡ length xs + length ys =
      (let a = avail-length t xs ys l in let b = l.cursor in omega arith) in
    let stored : Lines =
      if (c == t.tyeofch) && t.tyeof then edit_eof c xs ys else (xs, ys ++ c ∷ []) in
    let rest : Lines = if leb 127 (length xs + length ys) then (xs, ys) else stored in
    let run : Option Tty =
      if leb 127 (avail t + t.tyicursor) then some (eputc t.tyifullc t) else room in
    let last : Edits t run rest.0 rest.1 =
      renamed t (if leb 127 (length xs + length ys) then some (eputc t.tyifullc t) else room) run
        rest.0 rest.1 (ap (λ n. if leb 127 n then some (eputc t.tyifullc t) else room) count)
        (insert-Edits t c xs ys l f inside (length xs + length ys) refl) in
    let line : Lines = if (c == 10) || (c == 13) then (xs ++ (ys ++ c ∷ []), []) else rest in
    let end : Option Tty = if (c == 10) || (c == 13) then end_line c t else run in
    let rub : Bool = ((c == t.tyierasec) || (c == t.tyierasec2)) && t.tyierase in
    choose t ((c == t.tyikillc) && t.tyikill) (some (kill_line t))
      (if rub then some (erase_char t) else end) (xs, []) (if rub then (xs, drop_last ys) else line)
      (λ kill. killed t xs ys l)
      (λ on.
        choose t rub (some (erase_char t)) end (xs, drop_last ys) line (λ erase. erased t xs ys l)
          (λ go.
            choose t ((c == 10) || (c == 13)) (end_line c t) run (xs ++ (ys ++ c ∷ []), []) rest
              (λ newline. ended t c xs ys l f) (λ plain. last)))
