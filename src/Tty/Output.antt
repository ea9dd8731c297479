-- ===== src/Tty/Output.antt =====
-- device/tty/ttyputc.c and ttyhandle_out.c: characters that leave. ttyputc runs in two steps, since
-- its wait may block.
use ece564_project.Prelude.{
  ℕ, zero, suc, ◌+◌, ◌*◌, ◌/◌, ◌%◌, Bool, ◌&&◌, ltb, ◌==◌, if◌then◌else◌, Option, some, none, ◌∷◌,
}
use ece564_project.Prelude.Int.{ℤ, pos, negsuc, pos_part, leb_ℤ, ◌-ℤ◌}
use ece564_project.Prelude.Ring.{next, set_cell}
use ece564_project.Process.Semaphores.{semcount, wait, signaln}
use ece564_project.Tty.Control.{
  Tty, Write, ty_obuflen, ty_ebuflen, ty_newline, uart_fifo_size, write_ier, ttykickout,
}
use ece564_project.Tty.Input.{with_sys}

abbrev pub ttyputc_wait : Tty → Option Tty
ttyputc_wait t = with_sys t (wait t.tyosem t.sys)

-- *tyotail++ = ch, around the end of the buffer
unfoldable pub ttyputc_put : ℕ → Tty → Tty
ttyputc_put ch t =
    ttykickout
      (record t { tyobuff = set_cell t.tyotail ch t.tyobuff; tyotail = next ty_obuflen t.tyotail })

-- The characters that ttyputc puts into the buffer for one, each with a wait of its own.
abbrev pub has_return : ℕ → Tty → Bool
has_return ch t = (ch == ty_newline) && t.tyocrlf

-- io_outb(csrptr->buffer, ch)
abbrev pub send_char : ℕ → Tty → Tty
send_char ch t = record t { writes = Write.to_buffer ch ∷ t.writes }

-- While the FIFO has `uspace` left and the echo queue is not empty; the space that is left then.
unfoldable pub send_echo : ℕ → Tty → Tty × ℕ
send_echo zero t = (t, 0)
send_echo (suc uspace) t =
    let rest =
      send_echo uspace
        (record (send_char (t.tyebuff t.tyehead) t) { tyehead = next ty_ebuflen t.tyehead }) in
    if t.tyehead == t.tyetail then (t, suc uspace) else rest

-- The same for the output queue, with `avail` characters in it; the number of those sent.
unfoldable pub send_output : ℕ → ℕ → Tty → Tty × ℕ
send_output zero avail t = (t, 0)
send_output (suc uspace) zero t = (t, 0)
send_output (suc uspace) (suc avail) t =
    let (t', ochars) =
      send_output uspace avail
        (record (send_char (t.tyobuff t.tyohead) t) { tyohead = next ty_obuflen t.tyohead }) in
    (t', ochars + 1)

-- semcount's SYSERR is -1.
abbrev pub count_of : Option ℤ → ℤ
count_of none = negsuc 0
count_of (some c) = c

-- ier & ~UART_IER_ETBEI
abbrev pub without_etbei : ℕ → ℕ
without_etbei v = v / 4 * 4 + v % 2

abbrev pub send_queues : Tty → Option Tty
send_queues t =
    let (t1, uspace) = send_echo uart_fifo_size t in
    let count = count_of (semcount t1.tyosem t1.sys) in
    let (t2, ochars) = send_output uspace (pos_part (pos ty_obuflen -ℤ count)) t1 in
    if ltb 0 ochars then with_sys t2 (signaln t2.tyosem (pos ochars) t2.sys) else some t2

unfoldable pub ttyhandle_out : Tty → Option Tty
ttyhandle_out t =
    if t.tyoheld
    then some t
    else if (t.tyehead == t.tyetail) && leb_ℤ (pos ty_obuflen) (count_of (semcount t.tyosem t.sys))
    then some (write_ier (without_etbei t.ier) t)
    else send_queues t
