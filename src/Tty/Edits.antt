-- ===== src/Tty/Edits.antt =====
-- device/tty/ttyhandle_in.c: what each key does to the lines.
use ece564_project.Prelude.{
  ℕ, suc, ◌+◌, ◌-◌, ◌≤◌, ◌<◌, ◌≡◌, refl, sym, Bool, true, arith, ltb, if◌then◌else◌, Option, some,
  List, [], ◌∷◌, ◌++◌, length, length-append, ◌∙◌, ap, subst,
}
use ece564_project.Prelude.Ring.{Ring, cell, Ring-left}
use mathlib.Core.List.{append-nil, append_assoc}
use ece564_project.Tty.Control.{Tty, ty_ibuflen}
use ece564_project.Tty.Input.{erase_echo, back, erase1, kill_line, erase_char}
use ece564_project.Tty.Lines.{
  keys, Line, quiet, Line-quiet, if-quiet, eputc_twice-quiet, erase_echo-quiet, drop_last,
  drop_last-split,
}

-- A step of the driver ends, with these lines and the same keys.
pub record Edits (t : Tty) (r : Option Tty) (xs ys : List ℕ) : Type 0 where
  pub after : Tty
  pub runs : r ≡ some after
  pub line : Line after xs ys
  pub keeps : keys after ≡ keys t

pub shown :
    (t t1 t2 : Tty) (xs ys : List ℕ)
    → quiet t2 ≡ quiet t1
    → Line t1 xs ys
    → keys t1 ≡ keys t
    → Edits t (some t2) xs ys
shown t t1 t2 xs ys e l k = record {
  after = t2;
  runs = refl;
  line = Line-quiet t1 t2 xs ys e l;
  keeps = ap keys e ∙ k;
}

back-cell :
    (h a b tail n : ℕ)
    → h < 128
    → a + b ≤ 128
    → tail ≡ cell ty_ibuflen h (a + b)
    → n ≡ b
    → back n tail ≡ cell ty_ibuflen h a
back-cell h a b tail n s r t e = rw (t, e) (ground arith)

pub total : (t : Tty) (xs ys : List ℕ) → Line t xs ys → length xs + length ys ≤ 128
total t xs ys l = (let r = l.ring.room in let a = length-append xs ys in omega arith)

pub killed : (t : Tty) (xs ys : List ℕ) → Line t xs ys → Edits t (some (kill_line t)) xs []
killed t xs ys l =
    let t1 : Tty = record t { tyitail = back t.tyicursor t.tyitail; tyicursor = 0 } in
    shown t t1 (kill_line t) xs [] (eputc_twice-quiet 10 13 t1)
      (record {
        cooked = l.cooked;
        ring =
            subst (λ zs. Ring ty_ibuflen t.tyihead t.tyibuff zs) (sym (append-nil xs))
              (Ring-left ty_ibuflen t.tyihead t.tyibuff xs ys l.ring);
        tail =
            back-cell t.tyihead (length xs) (length ys) t.tyitail t.tyicursor l.ring.start
              (total t xs ys l) l.tail l.cursor
            ∙ ap (cell ty_ibuflen t.tyihead) (omega arith);
        cursor = refl;
        calm = l.calm;
      })
      refl

erase_char_at :
    (t : Tty) (n : ℕ)
    → t.tyicursor ≡ n
    → erase_char t ≡ (if ltb 0 n then erase1 (record t { tyicursor = t.tyicursor - 1 }) else t)
erase_char_at t n e =
    ap (λ k. if ltb 0 k then erase1 (record t { tyicursor = t.tyicursor - 1 }) else t) e

erase1-quiet : (t : Tty) → quiet (erase1 t) ≡ quiet (record t { tyitail = back 1 t.tyitail })
unfolding erase1
erase1-quiet t =
    let t1 : Tty = record t { tyitail = back 1 t.tyitail } in
    if-quiet t1.tyiecho t1 (erase_echo (t1.tyibuff t1.tyitail) t1) t1
      (erase_echo-quiet (t1.tyibuff t1.tyitail) t1) refl

length-drop_last : (y : ℕ) (ys : List ℕ) → length (drop_last (y ∷ ys)) ≡ length ys
length-drop_last y [] = refl
length-drop_last y (z ∷ zs) = ap suc (length-drop_last z zs)

pub renamed :
    (t : Tty) (r r' : Option Tty) (xs ys : List ℕ) → r' ≡ r → Edits t r xs ys → Edits t r' xs ys
renamed t r r' xs ys e d = record {
  after = d.after;
  runs = e ∙ d.runs;
  line = d.line;
  keeps = d.keeps;
}

pub erased :
    (t : Tty) (xs ys : List ℕ) → Line t xs ys → Edits t (some (erase_char t)) xs (drop_last ys)
erased t xs [] l =
    renamed t (some t) (some (erase_char t)) xs [] (ap some (erase_char_at t 0 l.cursor))
      (shown t t t xs [] refl l refl)
erased t xs (y ∷ ys) l =
    let t1 : Tty = record t { tyicursor = t.tyicursor - 1 } in
    let up : ltb 0 (length (y ∷ ys)) ≡ true = ground arith in
    let same : erase_char t ≡ erase1 t1 =
      erase_char_at t (length (y ∷ ys)) l.cursor
      ∙ ap (λ (b : Bool). if b then erase1 t1 else t) up in
    let (z, split) = drop_last-split y ys in
    let len = length-drop_last y ys in
    let whole : xs ++ (y ∷ ys) ≡ (xs ++ drop_last (y ∷ ys)) ++ z ∷ [] =
      ap (λ l. xs ++ l) split ∙ sym (append_assoc xs (drop_last (y ∷ ys)) (z ∷ [])) in
    let room = total t xs (y ∷ ys) l in
    let cursor = l.cursor in
    renamed t (some (erase1 t1)) (some (erase_char t)) xs (drop_last (y ∷ ys)) (ap some same) (
      shown t (record t1 { tyitail = back 1 t1.tyitail }) (erase1 t1) xs (drop_last (y ∷ ys))
        (erase1-quiet t1)
        (record {
          cooked = l.cooked;
          ring =
              Ring-left ty_ibuflen t.tyihead t.tyibuff (xs ++ drop_last (y ∷ ys)) (z ∷ [])
                (subst (λ zs. Ring ty_ibuflen t.tyihead t.tyibuff zs) whole l.ring);
          tail =
              back-cell t.tyihead (length xs + length ys) 1 t.tyitail 1 l.ring.start (omega arith)
                (l.tail ∙ ap (cell ty_ibuflen t.tyihead) (omega arith)) refl
              ∙ ap (cell ty_ibuflen t.tyihead) (omega arith);
          cursor = omega arith;
          calm = l.calm;
        })
        refl)
