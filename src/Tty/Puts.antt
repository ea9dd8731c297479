-- ===== src/Tty/Puts.antt =====
-- device/tty/ttyhandle_in.c: characters that go into the buffer.
use ece564_project.Prelude.{
  ℕ, ◌+◌, ◌<◌, ◌≡◌, refl, sym, Bool, false, arith, ◌==◌, if◌then◌else◌, some, none, List, [], ◌∷◌,
  ◌++◌, length, length-append, ◌∙◌, ap, subst,
}
use ece564_project.Prelude.Ring.{Ring, next, cell, set_cell, next-cell}
use mathlib.Core.List.{append-nil, append_assoc}
use ece564_project.Process.Many.{Calm, signaln-Calm, signal-Calm}
use ece564_project.Tty.Control.{Tty, ty_ibuflen}
use ece564_project.Tty.Input.{
  eputc, put_in, echo_if, with_sys, signal_input, end_line, put_eof, put_char,
}
use ece564_project.Tty.Lines.{keys, Line, Line-quiet, eputc-quiet, echo_if-quiet, put-Ring}
use ece564_project.Tty.Edits.{Edits, shown, renamed}

next-tail :
    (h n tail : ℕ)
    → h < 128
    → n < 128
    → tail ≡ cell ty_ibuflen h n
    → next ty_ibuflen tail ≡ cell ty_ibuflen h (n + 1)
next-tail h n tail s r e = ap (next ty_ibuflen) e ∙ next-cell ty_ibuflen h n s r

put-Line :
    (t : Tty) (xs ys : List ℕ) (ch : ℕ)
    → Line t xs ys
    → length xs + length ys < 128
    → Ring ty_ibuflen t.tyihead (set_cell t.tyitail ch t.tyibuff) (xs ++ (ys ++ ch ∷ []))
put-Line t xs ys ch l f =
    subst (λ zs. Ring ty_ibuflen t.tyihead (set_cell t.tyitail ch t.tyibuff) zs)
      (append_assoc xs ys (ch ∷ []))
      (put-Ring t.tyihead (length xs + length ys) t.tyitail t.tyibuff (xs ++ ys) ch l.ring
        (omega (arith, length-append xs ys)) f l.tail)

-- The echo leaves the lines.
echoed : (ch : ℕ) (t : Tty) (xs ys : List ℕ) → Line t xs ys → Line (echo_if ch t) xs ys
echoed ch t xs ys = Line-quiet t (echo_if ch t) xs ys (echo_if-quiet ch t)

pub typed :
    (t : Tty) (ch : ℕ) (xs ys : List ℕ)
    → Line t xs ys
    → length xs + length ys < 128
    → Edits t (some (put_char ch t)) xs (ys ++ ch ∷ [])
unfolding put_in
typed t ch xs ys l f =
    let t1 : Tty = echo_if ch t in
    let l1 = echoed ch t xs ys l in
    let len = length-append ys (ch ∷ []) in
    let cursor = l1.cursor in
    record {
      after = put_char ch t;
      runs = refl;
      line = record {
        cooked = l1.cooked;
        ring = put-Line t1 xs ys ch l1 f;
        tail =
            next-tail t1.tyihead (length xs + length ys) t1.tyitail l1.ring.start f l1.tail
            ∙ ap (cell ty_ibuflen t1.tyihead) (omega arith);
        cursor = omega arith;
        calm = l1.calm;
      };
      keeps = ap keys (echo_if-quiet ch t);
    }

pub belled : (t : Tty) (ch : ℕ) (xs ys : List ℕ) → Line t xs ys → Edits t (some (eputc ch t)) xs ys
belled t ch xs ys l = shown t t (eputc ch t) xs ys (eputc-quiet ch t) l refl

pub ended :
    (t : Tty) (ch : ℕ) (xs ys : List ℕ)
    → Line t xs ys
    → length xs + length ys < 128
    → Edits t (end_line ch t) (xs ++ (ys ++ ch ∷ [])) []
unfolding put_in
ended t ch xs ys l f =
    let t1 : Tty = echo_if ch t in
    let l1 = echoed ch t xs ys l in
    let (s, run, calm) = signaln-Calm t1.tyisem (t1.tyicursor + 1) (length xs) t1.sys l1.calm in
    let new : List ℕ = xs ++ (ys ++ ch ∷ []) in
    let cursor = l1.cursor in
    let len : length new ≡ length xs + (t1.tyicursor + 1) =
      omega (arith, length-append xs (ys ++ ch ∷ []), length-append ys (ch ∷ [])) in
    record {
      after = record (put_in ch t1) { sys = s; tyicursor = 0 };
      runs =
          ap
            (λ o. elim (with_sys (put_in ch t1) o) [
              | none ↦ none
              | some t2 ↦ some (record t2 { tyicursor = 0 })
            ])
            run;
      line = record {
        cooked = l1.cooked;
        ring =
            subst (λ zs. Ring ty_ibuflen t1.tyihead (set_cell t1.tyitail ch t1.tyibuff) zs)
              (sym (append-nil new)) (put-Line t1 xs ys ch l1 f);
        tail =
            next-tail t1.tyihead (length xs + length ys) t1.tyitail l1.ring.start f l1.tail
            ∙ ap (cell ty_ibuflen t1.tyihead) (omega arith);
        cursor = refl;
        calm = subst (λ n. Calm t1.tyisem n s) (sym len) calm;
      };
      keeps = ap keys (echo_if-quiet ch t);
    }

put_eof_at :
    (t : Tty) (ch n : ℕ)
    → (echo_if ch t).tyicursor ≡ n
    → put_eof ch t ≡ (
        if n == 0
        then signal_input (record (echo_if ch t) {
          tyibuff = set_cell (echo_if ch t).tyitail ch (echo_if ch t).tyibuff;
          tyitail = (echo_if ch t).tyitail + 1;
        })
        else some (echo_if ch t))
put_eof_at t ch n e =
    ap
      (λ k.
        if k == 0
        then signal_input (record (echo_if ch t) {
          tyibuff = set_cell (echo_if ch t).tyitail ch (echo_if ch t).tyibuff;
          tyitail = (echo_if ch t).tyitail + 1;
        })
        else some (echo_if ch t))
      e

-- The end of file is a character of its own at the start of a line, and nothing within one.
pub eof_first :
    (t : Tty) (ch : ℕ) (xs : List ℕ)
    → Line t xs []
    → length xs < 128
    → t.tyitail < 127
    → Edits t (put_eof ch t) (xs ++ ch ∷ []) []
eof_first t ch xs l f inside =
    let t1 : Tty = echo_if ch t in
    let l1 = echoed ch t xs [] l in
    let (s, run, calm) = signal-Calm t1.tyisem (length xs) t1.sys l1.calm in
    let t2 : Tty = record t1 {
      tyibuff = set_cell t1.tyitail ch t1.tyibuff;
      tyitail = t1.tyitail + 1;
    } in
    let place : t1.tyitail ≡ t.tyitail = ap (λ (u : Tty). u.tyitail) (echo_if-quiet ch t) in
    let forth : t1.tyitail + 1 ≡ next ty_ibuflen t1.tyitail = ground arith in
    let len : length (xs ++ ch ∷ []) ≡ length xs + 1 = omega (arith, length-append xs (ch ∷ [])) in
    record {
      after = record t2 { sys = s };
      runs = put_eof_at t ch 0 l1.cursor ∙ ap (with_sys t2) run;
      line = record {
        cooked = l1.cooked;
        ring =
            subst (λ zs. Ring ty_ibuflen t1.tyihead (set_cell t1.tyitail ch t1.tyibuff) zs)
              (sym (append-nil (xs ++ ch ∷ []))) (put-Line t1 xs [] ch l1 (omega arith));
        tail =
            forth
            ∙ next-tail t1.tyihead (length xs + 0) t1.tyitail l1.ring.start (omega arith) l1.tail
            ∙ ap (cell ty_ibuflen t1.tyihead) (omega arith);
        cursor = l1.cursor;
        calm = subst (λ n. Calm t1.tyisem n s) (sym len) calm;
      };
      keeps = ap keys (echo_if-quiet ch t);
    }

pub eof_within :
    (t : Tty) (ch y : ℕ) (xs ys : List ℕ) → Line t xs (y ∷ ys) → Edits t (put_eof ch t) xs (y ∷ ys)
eof_within t ch y xs ys l =
    let t1 : Tty = echo_if ch t in
    let l1 = echoed ch t xs (y ∷ ys) l in
    let open_line : (length (y ∷ ys) == 0) ≡ false = ground arith in
    renamed t (some t1) (put_eof ch t) xs (y ∷ ys)
      (put_eof_at t ch (length (y ∷ ys)) l1.cursor
        ∙ ap
            (λ (b : Bool).
              if b
              then signal_input (record t1 {
                tyibuff = set_cell t1.tyitail ch t1.tyibuff;
                tyitail = t1.tyitail + 1;
              })
              else some t1)
            open_line)
      (shown t t t1 xs (y ∷ ys) (echo_if-quiet ch t) l refl)
