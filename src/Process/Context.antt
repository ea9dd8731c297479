-- ===== src/Process/Context.antt =====
-- system/create.c and system/vcreate.c: the stack of a new process; system/ctxsw.S: what the
-- switch to a process takes from its stack. Memory is a function from the address of a word to
-- the word; a stack grows downwards.
use ece564_project.Prelude.{ℕ, ◌+◌, ◌-◌, ◌%◌, ◌^◌, ◌==◌, if◌then◌else◌, List, [], ◌∷◌}

abbrev pub Words : Type 0
Words = ℕ → ℕ

abbrev pub write_word : ℕ → ℕ → Words → Words
write_word a v m k = if k == a then v else m k

-- saddr and the memory that it points into.
pub record Stack : Type 0 where
  pub saddr : ℕ
  pub words : Words

-- *--saddr = v
unfoldable pub push : ℕ → Stack → Stack
push v st =
    let a = (st.saddr + (2 ^ 32 - 4)) % 2 ^ 32 in
    record { saddr = a; words = write_word a v st.words }

-- The arguments, the last one first.
unfoldable pub push_args : List ℕ → Stack → Stack
push_args [] st = st
push_args (x ∷ xs) st = push x (push_args xs st)

abbrev pub stack_magic : ℕ
stack_magic = 168471209

-- 0x00000200: interrupts are enabled.
abbrev pub enabled : ℕ
enabled = 512

-- From the magic word down to the frame that ctxsw expects; `saddr` is prstkptr at the end.
unfoldable pub build_stack : ℕ → ℕ → List ℕ → ℕ → Words → Stack
build_stack funcaddr initret args saddr m =
    let top : Stack = record { saddr = saddr; words = write_word saddr stack_magic m } in
    let call : Stack = push saddr (push funcaddr (push initret (push_args args top))) in
    let regs : Stack = push 0 (push 0 (push 0 (push 0 (push enabled call)))) in
    let last : Stack = push 0 (push 0 (push call.saddr (push 0 regs))) in
    record last { words = write_word (push 0 regs).saddr last.saddr last.words }

-- What ctxsw restores, from its second half: popal, movl 4(%esp) to ebp, popfl, the step over ebp
-- and ret.
pub record Restored : Type 0 where
  pub eip : ℕ
  pub ebp : ℕ
  pub eflags : ℕ
  pub esp : ℕ

abbrev pub ctxsw_restore : ℕ → Words → Restored
ctxsw_restore sp m = record {
  eip = m (sp + 40);
  ebp = m (sp + 36);
  eflags = m (sp + 32);
  esp = sp + 44;
}
