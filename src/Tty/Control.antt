-- ===== src/Tty/Control.antt =====
-- include/tty.h, the registers of include/uart.h that the driver writes, device/tty/ttyinit.c,
-- ttykickout.c and ttycontrol.c. A pointer into a buffer is an index into it. What the driver
-- writes to the device is a list, the last write first.
use ece564_project.Prelude.{ℕ, ◌+◌, Bool, true, false, Option, some, none, List, ◌∷◌}
use ece564_project.Prelude.Int.{ℤ, pos}
use ece564_project.Process.State.{System}
use ece564_project.Process.Semaphores.{semcreate, semcount, wait, signal}

abbrev pub ty_ebuflen : ℕ
ty_ebuflen = 20

abbrev pub ty_ibuflen : ℕ
ty_ibuflen = 128

abbrev pub ty_obuflen : ℕ
ty_obuflen = 64

abbrev pub ty_imraw : ℕ
ty_imraw = 82

abbrev pub ty_imcooked : ℕ
ty_imcooked = 67

abbrev pub ty_imcbreak : ℕ
ty_imcbreak = 75

abbrev pub ty_backsp : ℕ
ty_backsp = 8

abbrev pub ty_backsp2 : ℕ
ty_backsp2 = 127

abbrev pub ty_eofch : ℕ
ty_eofch = 4

abbrev pub ty_blank : ℕ
ty_blank = 32

abbrev pub ty_newline : ℕ
ty_newline = 10

abbrev pub ty_return : ℕ
ty_return = 13

abbrev pub ty_stopch : ℕ
ty_stopch = 19

abbrev pub ty_strtch : ℕ
ty_strtch = 17

abbrev pub ty_killch : ℕ
ty_killch = 21

abbrev pub ty_uparrow : ℕ
ty_uparrow = 94

abbrev pub ty_fullch : ℕ
ty_fullch = 7

abbrev pub uart_fifo_size : ℕ
uart_fifo_size = 16

abbrev pub uart_ier_erbfi : ℕ
uart_ier_erbfi = 1

abbrev pub uart_ier_etbei : ℕ
uart_ier_etbei = 2

-- Writes to the device: a character into its FIFO, and its interrupt enable register.
pub data Write : Type 0 where
  to_buffer : ℕ → Write
  to_ier : ℕ → Write

-- struct ttycblk, with the device and the system
pub record Tty : Type 0 where
  pub tyihead : ℕ
  pub tyitail : ℕ
  pub tyibuff : ℕ → ℕ
  pub tyisem : ℕ
  pub tyohead : ℕ
  pub tyotail : ℕ
  pub tyobuff : ℕ → ℕ
  pub tyosem : ℕ
  pub tyehead : ℕ
  pub tyetail : ℕ
  pub tyebuff : ℕ → ℕ
  pub tyimode : ℕ
  pub tyiecho : Bool
  pub tyieback : Bool
  pub tyevis : Bool
  pub tyecrlf : Bool
  pub tyicrlf : Bool
  pub tyierase : Bool
  pub tyierasec : ℕ
  pub tyierasec2 : ℕ
  pub tyeof : Bool
  pub tyeofch : ℕ
  pub tyikill : Bool
  pub tyikillc : ℕ
  pub tyicursor : ℕ
  pub tyoflow : Bool
  pub tyoheld : Bool
  pub tyostop : ℕ
  pub tyostart : ℕ
  pub tyocrlf : Bool
  pub tyifullc : ℕ
  pub ier : ℕ
  pub writes : List Write
  pub sys : System

abbrev pub write_ier : ℕ → Tty → Tty
write_ier v t = record t { ier = v; writes = Write.to_ier v ∷ t.writes }

-- Receive and transmit interrupts are enabled.
unfoldable pub ttykickout : Tty → Tty
ttykickout t = write_ier (uart_ier_erbfi + uart_ier_etbei) t

-- A result of semcreate, where SYSERR is -1.
abbrev pub sem_of : Option ℕ → ℕ
sem_of none = 4294967295
sem_of (some sem) = sem

-- The control block of a line at the start. The set-up of the device (baud rate, FIFO and
-- interrupt vector) is left out, but for the kick at the end.
unfoldable pub ttyinit : Tty → Tty
ttyinit t =
    let (s1, isem) = semcreate (pos 0) t.sys in
    let (s2, osem) = semcreate (pos ty_obuflen) s1 in
    ttykickout (record t {
      tyihead = 0;
      tyitail = 0;
      tyisem = sem_of isem;
      tyohead = 0;
      tyotail = 0;
      tyosem = sem_of osem;
      tyehead = 0;
      tyetail = 0;
      tyimode = ty_imcooked;
      tyiecho = true;
      tyieback = true;
      tyevis = true;
      tyecrlf = true;
      tyicrlf = true;
      tyierase = true;
      tyierasec = ty_backsp;
      tyierasec2 = ty_backsp2;
      tyeof = true;
      tyeofch = ty_eofch;
      tyikill = true;
      tyikillc = ty_killch;
      tyicursor = 0;
      tyoflow = true;
      tyoheld = false;
      tyostop = ty_stopch;
      tyostart = ty_strtch;
      tyocrlf = true;
      tyifullc = ty_fullch;
      sys = s2;
    })

-- The requests of ttycontrol.
pub data Request : Type 0 where
  tc_nextc : Request
  tc_moder : Request
  tc_modec : Request
  tc_modek : Request
  tc_ichars : Request
  tc_echo : Request
  tc_noecho : Request
  other : Request

-- What ttycontrol returns.
pub data Reply : Type 0 where
  done : Reply
  char : ℕ → Reply
  count : Option ℤ → Reply
  failed : Reply

-- The wait of TC_NEXTC may block, and then the rest runs when the process runs again.
unfoldable pub look_ahead : Tty → Option (Tty × Reply)
look_ahead t = elim (signal t.tyisem t.sys) [
  | none ↦ none
  | some r ↦ some (record t { sys = r.0 }, Reply.char (t.tyibuff t.tyitail))
]

unfoldable pub ttycontrol : Request → Tty → Option (Tty × Reply)
ttycontrol Request.tc_nextc t = elim (wait t.tyisem t.sys) [
  | none ↦ none
  | some r ↦ look_ahead (record t { sys = r.0 })
]
ttycontrol Request.tc_moder t = some (record t { tyimode = ty_imraw }, Reply.done)
ttycontrol Request.tc_modec t = some (record t { tyimode = ty_imcooked }, Reply.done)
ttycontrol Request.tc_modek t = some (record t { tyimode = ty_imcbreak }, Reply.done)
ttycontrol Request.tc_ichars t = some (t, Reply.count (semcount t.tyisem t.sys))
ttycontrol Request.tc_echo t = some (record t { tyiecho = true }, Reply.done)
ttycontrol Request.tc_noecho t = some (record t { tyiecho = false }, Reply.done)
ttycontrol Request.other t = some (t, Reply.failed)
