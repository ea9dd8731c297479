-- ===== src/Tty/Input.antt =====
-- device/tty/ttyhandle_in.c and device/tty/ttygetc.c: characters that arrive, line editing, and
-- their echo. ttygetc runs in two steps, since its wait may block.
use ece564_project.Prelude.{
  ℕ, ◌+◌, ◌-◌, ◌%◌, Bool, true, false, ◌&&◌, ◌||◌, ltb, leb, ◌==◌, if◌then◌else◌, Option, some,
  none,
}
use ece564_project.Prelude.Int.{ℤ, pos, pos_part, ltb_ℤ}
use ece564_project.Prelude.Ring.{next, set_cell}
use ece564_project.Text.Bytes.{as_char}
use ece564_project.Process.State.{System}
use ece564_project.Process.Semaphores.{semcount, wait, signal, signaln}
use ece564_project.Tty.Control.{
  Tty, ty_ebuflen, ty_ibuflen, ty_imraw, ty_imcooked, ty_imcbreak, ty_backsp, ty_blank, ty_newline,
  ty_return, ty_uparrow, ttykickout,
}

-- *tyetail++ = ch, around the end of the buffer
unfoldable pub eputc : ℕ → Tty → Tty
eputc ch t =
    ttykickout
      (record t { tyebuff = set_cell t.tyetail ch t.tyebuff; tyetail = next ty_ebuflen t.tyetail })

-- ch < TY_BLANK, for a signed char, or DEL
abbrev pub nonprintable : ℕ → Bool
nonprintable ch = ltb_ℤ (as_char ch) (pos ty_blank) || (ch == 127)

unfoldable pub echoch : ℕ → Tty → Tty
echoch ch t =
    if ((ch == ty_newline) || (ch == ty_return)) && t.tyecrlf
    then eputc ty_newline (eputc ty_return t)
    else if nonprintable ch && t.tyevis
    then eputc ((ch + 64) % 256) (eputc ty_uparrow t)
    else eputc ch t

-- One character is erased on the screen.
abbrev pub rub_out : Tty → Tty
rub_out t = if t.tyieback then eputc ty_backsp (eputc ty_blank t) else t

unfoldable pub erase_echo : ℕ → Tty → Tty
erase_echo ch t =
    if nonprintable ch
    then rub_out (eputc ty_backsp (if t.tyevis then rub_out (eputc ty_backsp t) else t))
    else rub_out (eputc ty_backsp t)

-- tyitail -= n, around the start of the buffer
abbrev pub back : ℕ → ℕ → ℕ
back n tail = if ltb tail n then tail + ty_ibuflen - n else tail - n

unfoldable pub erase1 : Tty → Tty
erase1 t =
    let t1 : Tty = record t { tyitail = back 1 t.tyitail } in
    if t1.tyiecho then erase_echo (t1.tyibuff t1.tyitail) t1 else t1

-- *tyitail++ = ch, around the end of the buffer
unfoldable pub put_in : ℕ → Tty → Tty
put_in ch t = record t {
  tyibuff = set_cell t.tyitail ch t.tyibuff;
  tyitail = next ty_ibuflen t.tyitail;
}

abbrev pub echo_if : ℕ → Tty → Tty
echo_if ch t = if t.tyiecho then echoch ch t else t

abbrev pub with_sys : Tty → Option (System × Bool) → Option Tty
with_sys t none = none
with_sys t (some r) = some (record t { sys = r.0 })

-- signal(typtr->tyisem) and signaln(typtr->tyisem, n)
abbrev pub signal_input : Tty → Option Tty
signal_input t = with_sys t (signal t.tyisem t.sys)

abbrev pub signal_line : ℕ → Tty → Option Tty
signal_line n t = with_sys t (signaln t.tyisem (pos n) t.sys)

-- semcount of a semaphore, or 0 if processes wait; its SYSERR is -1.
abbrev pub available : Option ℤ → ℕ
available none = 0
available (some c) = pos_part c

abbrev pub avail : Tty → ℕ
avail t = available (semcount t.tyisem t.sys)

unfoldable pub handle_raw : ℕ → Tty → Option Tty
handle_raw ch t = if leb ty_ibuflen (avail t) then some t else signal_input (put_in ch t)

unfoldable pub handle_cbreak : ℕ → Tty → Option Tty
handle_cbreak ch t =
    if leb ty_ibuflen (avail t)
    then some (eputc t.tyifullc t)
    else signal_input (echo_if ch (put_in ch t))

-- Cooked mode: kill, erase, end of line, a full buffer, end of file, and any other character.
abbrev pub kill_line : Tty → Tty
kill_line t =
    eputc ty_newline
      (eputc ty_return (record t { tyitail = back t.tyicursor t.tyitail; tyicursor = 0 }))

abbrev pub erase_char : Tty → Tty
erase_char t = if ltb 0 t.tyicursor then erase1 (record t { tyicursor = t.tyicursor - 1 }) else t

abbrev pub end_line : ℕ → Tty → Option Tty
end_line ch t =
    let t1 : Tty = put_in ch (echo_if ch t) in
    elim (signal_line (t1.tyicursor + 1) t1) [
      | none ↦ none
      | some t2 ↦ some (record t2 { tyicursor = 0 })
    ]

-- The pointer is not moved around the end of the buffer here.
abbrev pub put_eof : ℕ → Tty → Option Tty
put_eof ch t =
    let t1 : Tty = echo_if ch t in
    if t1.tyicursor == 0
    then signal_input
        (record t1 { tyibuff = set_cell t1.tyitail ch t1.tyibuff; tyitail = t1.tyitail + 1 })
    else some t1

abbrev pub put_char : ℕ → Tty → Tty
put_char ch t =
    let t1 : Tty = echo_if ch t in put_in ch (record t1 { tyicursor = t1.tyicursor + 1 })

unfoldable pub handle_cooked : ℕ → Tty → Option Tty
handle_cooked ch t =
    if (ch == t.tyikillc) && t.tyikill
    then some (kill_line t)
    else if ((ch == t.tyierasec) || (ch == t.tyierasec2)) && t.tyierase
    then some (erase_char t)
    else if (ch == ty_newline) || (ch == ty_return)
    then end_line ch t
    else if leb (ty_ibuflen - 1) (avail t + t.tyicursor)
    then some (eputc t.tyifullc t)
    else if (ch == t.tyeofch) && t.tyeof
    then put_eof ch t
    else some (put_char ch t)

-- The modes, when flow control has not taken the character.
abbrev pub handle_mode : ℕ → Tty → Option Tty
handle_mode ch t =
    let t1 : Tty = record t { tyoheld = false } in
    if t.tyimode == ty_imcbreak then handle_cbreak ch t1 else handle_cooked ch t1

abbrev pub handle_flow : ℕ → Tty → Option Tty
handle_flow ch t =
    if t.tyoflow && (ch == t.tyostart)
    then some (ttykickout (record t { tyoheld = false }))
    else if t.tyoflow && (ch == t.tyostop)
    then some (record t { tyoheld = true })
    else handle_mode ch t

-- `ch` is the character that the device gives.
unfoldable pub ttyhandle_in : ℕ → Tty → Option Tty
ttyhandle_in ch t =
    if t.tyimode == ty_imraw
    then handle_raw ch t
    else handle_flow (if (ch == ty_return) && t.tyicrlf then ty_newline else ch) t

abbrev pub ttygetc_wait : Tty → Option Tty
ttygetc_wait t = with_sys t (wait t.tyisem t.sys)

-- `none` is EOF; else the char, as a byte.
unfoldable pub ttygetc_take : Tty → Tty × Option ℕ
ttygetc_take t =
    let ch : ℕ = t.tyibuff t.tyihead in
    (
      record t { tyihead = next ty_ibuflen t.tyihead },
      if (t.tyimode == ty_imcooked) && t.tyeof && (ch == t.tyeofch) then none else some ch,
    )
