-- ===== src/Tty/Lines.antt =====
-- device/tty/ttyhandle_in.c: the input buffer as the lines that are complete and the one that is
-- typed.
use ece564_project.Prelude.{
  ℕ, ◌+◌, ◌%◌, ◌<◌, ◌≡◌, refl, sym, Bool, true, false, ◌&&◌, ◌||◌, arith, ◌==◌, if◌then◌else◌, List,
  [], ◌∷◌, ◌++◌, length, ◌∙◌, ap, subst,
}
use ece564_project.Prelude.Ring.{Ring, cell, set_cell, Ring-push}
use ece564_project.Process.Many.{Calm}
use ece564_project.Tty.Control.{Tty, ty_ibuflen, ty_imcooked, ty_newline, ty_return, ttykickout}
use ece564_project.Tty.Input.{eputc, nonprintable, echoch, rub_out, erase_echo, echo_if}

-- The keys that the line editing honours.
pub record Keys : Type 0 where
  pub erase : Bool
  pub erasec : ℕ
  pub erasec2 : ℕ
  pub kill : Bool
  pub killc : ℕ
  pub eof : Bool
  pub eofch : ℕ
  pub crlf : Bool
  pub flow : Bool
  pub start : ℕ
  pub stop : ℕ

abbrev pub keys : Tty → Keys
keys t = record {
  erase = t.tyierase;
  erasec = t.tyierasec;
  erasec2 = t.tyierasec2;
  kill = t.tyikill;
  killc = t.tyikillc;
  eof = t.tyeof;
  eofch = t.tyeofch;
  crlf = t.tyicrlf;
  flow = t.tyoflow;
  start = t.tyostart;
  stop = t.tyostop;
}

-- In cooked mode, `xs` can be read, `ys` is the line that is typed, and no process waits for input.
pub record Line (t : Tty) (xs ys : List ℕ) : Type 0 where
  pub cooked : t.tyimode ≡ ty_imcooked
  pub ring : Ring ty_ibuflen t.tyihead t.tyibuff (xs ++ ys)
  pub tail : t.tyitail ≡ cell ty_ibuflen t.tyihead (length xs + length ys)
  pub cursor : t.tyicursor ≡ length ys
  pub calm : Calm t.tyisem (length xs) t.sys

-- A control block without its echo.
abbrev pub quiet : Tty → Tty
quiet t = record t { tyebuff = λ i. 0; tyetail = 0; ier = 0; writes = []; tyoheld = false }

pub Line-quiet : (t t' : Tty) (xs ys : List ℕ) → quiet t' ≡ quiet t → Line t xs ys → Line t' xs ys
Line-quiet t t' xs ys e l = loud (subst (λ u. Line u xs ys) (sym e) hushed)
  where
    hushed : Line (quiet t) xs ys
    hushed = record {
      cooked = l.cooked;
      ring = l.ring;
      tail = l.tail;
      cursor = l.cursor;
      calm = l.calm;
    }

    loud : Line (quiet t') xs ys → Line t' xs ys
    loud q = record {
      cooked = q.cooked;
      ring = q.ring;
      tail = q.tail;
      cursor = q.cursor;
      calm = q.calm;
    }

pub eputc-quiet : (ch : ℕ) (t : Tty) → quiet (eputc ch t) ≡ quiet t
unfolding eputc ttykickout
eputc-quiet ch t = refl

pub if-quiet :
    (b : Bool) (t u v : Tty)
    → quiet u ≡ quiet t
    → quiet v ≡ quiet t
    → quiet (if b then u else v) ≡ quiet t
if-quiet true t u v e f = e
if-quiet false t u v e f = f

pub eputc_twice-quiet : (c d : ℕ) (t : Tty) → quiet (eputc c (eputc d t)) ≡ quiet t
eputc_twice-quiet c d t = eputc-quiet c (eputc d t) ∙ eputc-quiet d t

echoch-quiet : (ch : ℕ) (t : Tty) → quiet (echoch ch t) ≡ quiet t
unfolding echoch
echoch-quiet ch t =
    if-quiet (((ch == ty_newline) || (ch == ty_return)) && t.tyecrlf) t
      (eputc ty_newline (eputc ty_return t))
      (if nonprintable ch && t.tyevis then eputc ((ch + 64) % 256) (eputc 94 t) else eputc ch t)
      (eputc_twice-quiet ty_newline ty_return t)
      (if-quiet (nonprintable ch && t.tyevis) t (eputc ((ch + 64) % 256) (eputc 94 t)) (eputc ch t)
        (eputc_twice-quiet ((ch + 64) % 256) 94 t) (eputc-quiet ch t))

pub echo_if-quiet : (ch : ℕ) (t : Tty) → quiet (echo_if ch t) ≡ quiet t
echo_if-quiet ch t = if-quiet t.tyiecho t (echoch ch t) t (echoch-quiet ch t) refl

rub_out-quiet : (t : Tty) → quiet (rub_out t) ≡ quiet t
rub_out-quiet t = if-quiet t.tyieback t (eputc 8 (eputc 32 t)) t (eputc_twice-quiet 8 32 t) refl

rub-quiet : (t : Tty) → quiet (rub_out (eputc 8 t)) ≡ quiet t
rub-quiet t = rub_out-quiet (eputc 8 t) ∙ eputc-quiet 8 t

pub erase_echo-quiet : (ch : ℕ) (t : Tty) → quiet (erase_echo ch t) ≡ quiet t
unfolding erase_echo
erase_echo-quiet ch t =
    let first : Tty = if t.tyevis then rub_out (eputc 8 t) else t in
    if-quiet (nonprintable ch) t (rub_out (eputc 8 first)) (rub_out (eputc 8 t))
      (rub-quiet first ∙ if-quiet t.tyevis t (rub_out (eputc 8 t)) t (rub-quiet t) refl)
      (rub-quiet t)

-- A character goes to the end of the buffer.
pub put-Ring :
    (h n tail : ℕ) (b : ℕ → ℕ) (zs : List ℕ) (c : ℕ)
    → Ring ty_ibuflen h b zs
    → n ≡ length zs
    → n < 128
    → tail ≡ cell ty_ibuflen h n
    → Ring ty_ibuflen h (set_cell tail c b) (zs ++ c ∷ [])
put-Ring h n tail b zs c r e f t =
    let same : tail ≡ cell ty_ibuflen h (length zs) = t ∙ ap (cell ty_ibuflen h) e in
    subst (λ i. Ring ty_ibuflen h (set_cell i c b) (zs ++ c ∷ [])) (sym same)
      (Ring-push ty_ibuflen h b zs c r (omega arith))

abbrev pub drop_last : List ℕ → List ℕ
drop_last [] = []
drop_last (y ∷ []) = []
drop_last (y ∷ z ∷ zs) = y ∷ drop_last (z ∷ zs)

pub drop_last-split : (y : ℕ) (ys : List ℕ) → (z : ℕ) × (y ∷ ys ≡ drop_last (y ∷ ys) ++ z ∷ [])
drop_last-split y [] = (y, refl)
drop_last-split y (z ∷ zs) = let (w, e) = drop_last-split z zs in (w, ap (λ l. y ∷ l) e)
