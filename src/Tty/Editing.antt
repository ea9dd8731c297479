-- ===== src/Tty/Editing.antt =====
-- device/tty/ttyhandle_in.c and device/tty/ttygetc.c: a line in cooked mode, as a line editor.
use ece564_project.Prelude.{
  ℕ, ◌+◌, ◌<◌, ◌≡◌, refl, sym, Bool, true, false, ◌&&◌, ◌==◌, if◌then◌else◌, Option, some, none,
  List, ◌∷◌, ◌++◌, length, ◌∙◌, ap, arith,
}
use ece564_project.Prelude.Ring.{cell, Ring-pop, cell-next}
use ece564_project.Process.Many.{wait-Calm}
use ece564_project.Tty.Control.{Tty, ty_ibuflen, ty_imcooked, ty_imraw, ty_imcbreak, ttykickout}
use ece564_project.Tty.Input.{
  with_sys, ttygetc_wait, ttygetc_take, handle_raw, handle_cbreak, handle_cooked, handle_mode,
  handle_flow, ttyhandle_in,
}
use ece564_project.Tty.Lines.{keys, Line, Line-quiet}
use ece564_project.Tty.Edits.{Edits, shown, total, renamed}
use ece564_project.Tty.Cooked.{
  Lines, edit_line, edit, mapped, overruns, choose, handle_cooked-Edits,
}

ttyhandle_in-cooked :
    (ch : ℕ) (t : Tty) → t.tyimode ≡ 67 → ttyhandle_in ch t ≡ handle_flow (mapped (keys t) ch) t
unfolding ttyhandle_in
ttyhandle_in-cooked ch t e =
    ap (λ m. if m == ty_imraw then handle_raw ch t else handle_flow (mapped (keys t) ch) t) e

handle_mode-cooked :
    (c : ℕ) (t : Tty)
    → t.tyimode ≡ 67
    → handle_mode c t ≡ handle_cooked c (record t { tyoheld = false })
handle_mode-cooked c t e =
    let t1 : Tty = record t { tyoheld = false } in
    ap (λ m. if m == ty_imcbreak then handle_cbreak c t1 else handle_cooked c t1) e

released :
    (t : Tty) (xs ys : List ℕ)
    → Line t xs ys
    → Edits t (some (ttykickout (record t { tyoheld = false }))) xs ys
unfolding ttykickout
released t xs ys l = shown t t (ttykickout (record t { tyoheld = false })) xs ys refl l refl

held :
    (t : Tty) (xs ys : List ℕ) → Line t xs ys → Edits t (some (record t { tyoheld = true })) xs ys
held t xs ys l = shown t t (record t { tyoheld = true }) xs ys refl l refl

unheld :
    (t : Tty) (r : Option Tty) (xs ys : List ℕ)
    → Edits (record t { tyoheld = false }) r xs ys
    → Edits t r xs ys
unheld t r xs ys d = record { after = d.after; runs = d.runs; line = d.line; keeps = d.keeps }

handle_mode-Edits :
    (t : Tty) (c : ℕ) (xs ys : List ℕ)
    → Line t xs ys
    → length xs + length ys < 128
    → ((c == t.tyeofch) && t.tyeof && (t.tyicursor == 0) && (t.tyitail == 127)) ≡ false
    → Edits t (handle_mode c t) (edit_line (keys t) c xs ys).0 (edit_line (keys t) c xs ys).1
handle_mode-Edits t c xs ys l f inside =
    let t1 : Tty = record t { tyoheld = false } in
    let lines : Lines = edit_line (keys t) c xs ys in
    renamed t (handle_cooked c t1) (handle_mode c t) lines.0 lines.1
      (handle_mode-cooked c t l.cooked)
      (unheld t (handle_cooked c t1) lines.0 lines.1
        (handle_cooked-Edits t1 c xs ys (Line-quiet t t1 xs ys refl l) f inside))

-- In cooked mode, while no process waits for input and the buffer has a free cell, a character
-- other than an end of file at the last cell of the buffer: the driver ends, and the lines that
-- can be read and the line that is typed are those of the line editor; the keys stay.
pub ttyhandle_in-edit :
    (ch : ℕ) (t : Tty) (xs ys : List ℕ)
    → Line t xs ys
    → length xs + length ys < 128
    → overruns ch t ≡ false
    → (t' : Tty) × (ttyhandle_in ch t ≡ some t')
      × Line t' (edit (keys t) ch xs ys).0 (edit (keys t) ch xs ys).1
      × (keys t' ≡ keys t)
ttyhandle_in-edit ch t xs ys l f inside =
    let c : ℕ = mapped (keys t) ch in
    let line : Lines = edit_line (keys t) c xs ys in
    let stop : Bool = t.tyoflow && (c == t.tyostop) in
    let flow : Edits t (handle_flow c t) (edit (keys t) ch xs ys).0 (edit (keys t) ch xs ys).1 =
      choose t (t.tyoflow && (c == t.tyostart)) (some (ttykickout (record t { tyoheld = false })))
        (if stop then some (record t { tyoheld = true }) else handle_mode c t) (xs, ys)
        (if stop then (xs, ys) else line) (λ start. released t xs ys l)
        (λ on.
          choose t stop (some (record t { tyoheld = true })) (handle_mode c t) (xs, ys) line
            (λ stopped. held t xs ys l) (λ go. handle_mode-Edits t c xs ys l f inside)) in
    (flow.after, ttyhandle_in-cooked ch t l.cooked ∙ flow.runs, flow.line, flow.keeps)

read_first :
    (t : Tty) (x : ℕ)
    → t.tyimode ≡ ty_imcooked
    → t.tyibuff t.tyihead ≡ x
    → (ttygetc_take t).1 ≡ (if t.tyeof && (x == t.tyeofch) then none else some x)
unfolding ttygetc_take
read_first t x m e =
    ap
      (λ k.
        if (k == ty_imcooked) && t.tyeof && (t.tyibuff t.tyihead == t.tyeofch)
        then none
        else some (t.tyibuff t.tyihead))
      m
    ∙ ap (λ c. if t.tyeof && (c == t.tyeofch) then none else some c) e

-- In cooked mode, while characters can be read, ttygetc does not block: it returns the first of
-- them, or EOF if that is the end of file, and the others and the line that is typed stay.
pub ttygetc-first :
    (t : Tty) (x : ℕ) (xs ys : List ℕ)
    → Line t (x ∷ xs) ys
    → (t1 : Tty) × (t2 : Tty) × (ttygetc_wait t ≡ some t1)
      × (ttygetc_take t1 ≡ (t2, if t.tyeof && (x == t.tyeofch) then none else some x))
      × Line t2 xs ys
      × (keys t2 ≡ keys t)
unfolding ttygetc_take
ttygetc-first t x xs ys l =
    let (s, run, calm) = wait-Calm t.tyisem (length xs) t.sys l.calm in
    let t1 : Tty = record t { sys = s } in
    let (first, ring) = Ring-pop ty_ibuflen t.tyihead t.tyibuff x (xs ++ ys) l.ring in
    let room = total t (x ∷ xs) ys l in
    (
      t1,
      (ttygetc_take t1).0,
      ap (with_sys t) run,
      ap (λ r. ((ttygetc_take t1).0, r)) (read_first t1 x l.cooked first),
      record {
        cooked = l.cooked;
        ring = ring;
        tail =
            l.tail
            ∙ ap (cell ty_ibuflen t.tyihead) (omega arith)
            ∙ sym
                (cell-next ty_ibuflen t.tyihead (length xs + length ys) l.ring.start (omega arith));
        cursor = l.cursor;
        calm = calm;
      },
      refl,
    )
