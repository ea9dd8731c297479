-- ===== src/Tty/Tests.antt =====
-- The theorems on the serial line at one with a line to read and one that is typed.
use ece564_project.Prelude.{
  ◌+◌, ◌≡◌, refl, true, false, ◌==◌, if◌then◌else◌, some, [], ◌∷◌, arith, Bool-cases, inl, inr,
}
use ece564_project.Prelude.Int.{pos}
use ece564_project.Queue.Table.{empty}
use ece564_project.Process.State.{System, pr_free}
use ece564_project.Tty.Control.{Tty}
use ece564_project.Tty.Input.{ttyhandle_in}
use ece564_project.Tty.Lines.{Line, keys}
use ece564_project.Tty.Editing.{ttyhandle_in-edit}

abbrev system : System
system = record {
  proctab = λ k. record {
    prstate = pr_free;
    prprio = pos 0;
    prsem = 0;
    prmsg = 0;
    prhasmsg = false;
    page_addr = 4096;
  };
  semtab = λ k. record { used = true; scount = pos 2; squeue = 100 + k + k };
  queuetab = λ k. record { qkey = pos 0; qnext = empty; qprev = empty };
  currpid = 9;
  readylist = 204;
  sleepq = 206;
  ndefers = 0;
  attempt = false;
  preempt = 10;
  cr3 = 4096;
  nextsem = 0;
}

-- "a" and the end of its line can be read, at the end of the buffer; "bc" is typed.
abbrev tty : Tty
tty = record {
  tyihead = 126;
  tyitail = 2;
  tyibuff = λ i. if i == 126 then 97 else if i == 127 then 10 else if i == 0 then 98 else 99;
  tyisem = 0;
  tyohead = 0;
  tyotail = 0;
  tyobuff = λ i. 0;
  tyosem = 1;
  tyehead = 0;
  tyetail = 0;
  tyebuff = λ i. 0;
  tyimode = 67;
  tyiecho = true;
  tyieback = true;
  tyevis = true;
  tyecrlf = true;
  tyicrlf = true;
  tyierase = true;
  tyierasec = 8;
  tyierasec2 = 127;
  tyeof = true;
  tyeofch = 4;
  tyikill = true;
  tyikillc = 21;
  tyicursor = 2;
  tyoflow = true;
  tyoheld = false;
  tyostop = 19;
  tyostart = 17;
  tyocrlf = true;
  tyifullc = 7;
  ier = 3;
  writes = [];
  sys = system;
}

tty-Line : Line tty (97 ∷ 10 ∷ []) (98 ∷ 99 ∷ [])
tty-Line = record {
  cooked = refl;
  ring = record {
    start = omega arith;
    room = omega arith;
    cells = λ n h. elim (Bool-cases (n == 0)) [
      | inl a ↦ (let e : n ≡ 0 = ground arith in rw e refl)
      | inr a ↦ elim (Bool-cases (n == 1)) [
        | inl b ↦ (let e : n ≡ 1 = ground arith in rw e refl)
        | inr b ↦ elim (Bool-cases (n == 2)) [
          | inl c ↦ (let e : n ≡ 2 = ground arith in rw e refl)
          | inr c ↦ (let e : n ≡ 3 = ground arith in rw e refl)
        ]
      ]
    ];
  };
  tail = refl;
  cursor = refl;
  calm = record { used = refl; count = refl; direct = refl };
}

-- The erase key takes "c" back.
ttyhandle_in-edit_example :
    (t : Tty) × (ttyhandle_in 8 tty ≡ some t)
    × Line t (97 ∷ 10 ∷ []) (98 ∷ [])
    × (keys t ≡ keys tty)
ttyhandle_in-edit_example =
    ttyhandle_in-edit 8 tty (97 ∷ 10 ∷ []) (98 ∷ 99 ∷ []) tty-Line (omega arith) refl
