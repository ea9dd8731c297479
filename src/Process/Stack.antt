-- ===== src/Process/Stack.antt =====
-- system/create.c and system/ctxsw.S: a new process starts in its function.
use ece564_project.Prelude.{
  ℕ, ◌+◌, ◌-◌, ◌*◌, ◌%◌, ◌^◌, ◌≤◌, ◌<◌, ◌≡◌, refl, arith, List, [], ◌∷◌, ◌++◌, length, ◌∙◌, subst,
  sym,
}
use ece564_project.Process.Context.{
  Words, write_word, Stack, push, push_args, stack_magic, enabled, build_stack, ctxsw_restore,
}

-- The words stand at `a`, one behind the other.
abbrev pub HasWords : Words → ℕ → List ℕ → Type 0
HasWords m a [] = Unit {0}
HasWords m a (w ∷ ws) = (m a ≡ w) × HasWords m (a + 4) ws

HasWords-below :
    (m : Words) (a b v : ℕ) (ws : List ℕ)
    → b < a
    → HasWords m a ws
    → HasWords (write_word b v m) a ws
HasWords-below m a b v [] h w = tt
HasWords-below m a b v (x ∷ xs) h w =
    (ground arith, HasWords-below m (a + 4) b v xs (omega arith) w.1)

push_down : (a : ℕ) → 4 ≤ a → a < 2 ^ 32 → (a + (2 ^ 32 - 4)) % 2 ^ 32 ≡ a - 4
push_down a h g = ground arith

-- A stack with `ws` on it, from `saddr` on.
record OnStack (st : Stack) (a : ℕ) (ws : List ℕ) : Type 0 where
  at : st.saddr ≡ a
  holds : HasWords st.words a ws

written-OnStack :
    (b v : ℕ) (st : Stack) (a : ℕ) (ws : List ℕ)
    → 4 ≤ a
    → b ≡ a - 4
    → OnStack st a ws
    → OnStack (record { saddr = b; words = write_word b v st.words }) (a - 4) (v ∷ ws)
written-OnStack b v st a ws h e o =
    let next : a - 4 + 4 ≡ a = omega arith in
    record {
      at = e;
      holds = (ground arith, rw next (HasWords-below st.words a b v ws (omega arith) o.holds));
    }

push-OnStack :
    (v : ℕ) (st : Stack) (a : ℕ) (ws : List ℕ)
    → 4 ≤ a
    → a < 2 ^ 32
    → OnStack st a ws
    → OnStack (push v st) (a - 4) (v ∷ ws)
unfolding push
push-OnStack v st a ws h g o =
    written-OnStack ((st.saddr + (2 ^ 32 - 4)) % 2 ^ 32) v st a ws h (rw o.at (push_down a h g)) o

push_args-OnStack :
    (args : List ℕ) (st : Stack) (a : ℕ) (ws : List ℕ)
    → 4 * length args ≤ a
    → a < 2 ^ 32
    → OnStack st a ws
    → OnStack (push_args args st) (a - 4 * length args) (args ++ ws)
unfolding push_args
push_args-OnStack [] st a ws h g o = (let e : a - 4 * 0 ≡ a = omega arith in rw e o)
push_args-OnStack (x ∷ xs) st a ws h g o =
    let rest = push_args-OnStack xs st a ws (omega arith) g o in
    let e : a - 4 * length (x ∷ xs) ≡ a - 4 * length xs - 4 = omega arith in
    rw e (
      push-OnStack x (push_args xs st) (a - 4 * length xs) (xs ++ ws) (omega arith) (omega arith)
        rest)

-- The frame, from prstkptr on: the registers that popal takes, the flags, ebp, the address that
-- ret takes, then the return address of the function and its arguments.
abbrev pub frame : ℕ → ℕ → ℕ → ℕ → ℕ → List ℕ → List ℕ
frame sp ebp top funcaddr initret args =
    0
    ∷ 0
    ∷ ebp
    ∷ sp
    ∷ 0
    ∷ 0
    ∷ 0
    ∷ 0
    ∷ enabled
    ∷ top
    ∷ funcaddr
    ∷ initret
    ∷ (args ++ stack_magic ∷ [])

fourth_word :
    (m : Words) (a b v w0 w1 w2 w3 : ℕ) (ws : List ℕ)
    → b ≡ a + 12
    → HasWords m a (w0 ∷ w1 ∷ w2 ∷ w3 ∷ ws)
    → HasWords (write_word b v m) a (w0 ∷ w1 ∷ w2 ∷ v ∷ ws)
fourth_word m a b v w0 w1 w2 w3 ws e h = (
  ground arith,
  (
    ground arith,
    (
      ground arith,
      (ground arith, HasWords-below m (a + 4 + 4 + 4 + 4) b v ws (omega (arith, e)) h.1.1.1.1),
    ),
  ),
)

push_next :
    (b v k : ℕ) (st : Stack) (ws : List ℕ)
    → b < 2 ^ 32
    → k + 4 ≤ b
    → OnStack st (b - k) ws
    → OnStack (push v st) (b - (k + 4)) (v ∷ ws)
push_next b v k st ws g room o =
    let e : b - (k + 4) ≡ b - k - 4 = omega arith in
    rw e (push-OnStack v st (b - k) ws (omega arith) (omega arith) o)

-- The three words of the call: the return address, the function and the word for ebp.
push_call :
    (b v1 v2 v3 : ℕ) (st : Stack) (ws : List ℕ)
    → b < 2 ^ 32
    → 48 ≤ b
    → OnStack st b ws
    → OnStack (push v3 (push v2 (push v1 st))) (b - 12) (v3 ∷ v2 ∷ v1 ∷ ws)
push_call b v1 v2 v3 st ws g room o =
    let z : b - 0 ≡ b = omega arith in
    let o1 = push_next b v1 0 st ws g (omega arith) (rw z o) in
    let o2 = push_next b v2 4 (push v1 st) (v1 ∷ ws) g (omega arith) o1 in
    push_next b v3 8 (push v2 (push v1 st)) (v2 ∷ v1 ∷ ws) g (omega arith) o2

-- The flags and the four registers behind them.
push_regs :
    (b f : ℕ) (st : Stack) (ws : List ℕ)
    → b < 2 ^ 32
    → 48 ≤ b
    → OnStack st (b - 12) ws
    → OnStack (push 0 (push 0 (push 0 (push 0 (push f st))))) (b - 32) (0 ∷ 0 ∷ 0 ∷ 0 ∷ f ∷ ws)
push_regs b f st ws g room o =
    let o1 = push_next b f 12 st ws g (omega arith) o in
    let o2 = push_next b 0 16 (push f st) (f ∷ ws) g (omega arith) o1 in
    let o3 = push_next b 0 20 (push 0 (push f st)) (0 ∷ f ∷ ws) g (omega arith) o2 in
    let o4 = push_next b 0 24 (push 0 (push 0 (push f st))) (0 ∷ 0 ∷ f ∷ ws) g (omega arith) o3 in
    push_next b 0 28 (push 0 (push 0 (push 0 (push f st)))) (0 ∷ 0 ∷ 0 ∷ f ∷ ws) g (omega arith) o4

-- The place for esp, ebp and two registers more, and esp written at the end.
push_last :
    (b e : ℕ) (st : Stack) (ws : List ℕ)
    → b < 2 ^ 32
    → 48 ≤ b
    → OnStack st (b - 32) ws
    → let last = push 0 (push 0 (push e (push 0 st))) in
      (last.saddr ≡ b - 48)
      × HasWords
          (write_word (push 0 st).saddr last.saddr last.words)
          (b - 48)
          (0 ∷ 0 ∷ e ∷ (b - 48) ∷ ws)
push_last b e st ws g room o =
    let o1 = push_next b 0 32 st ws g (omega arith) o in
    let o2 = push_next b e 36 (push 0 st) (0 ∷ ws) g (omega arith) o1 in
    let o3 = push_next b 0 40 (push e (push 0 st)) (e ∷ 0 ∷ ws) g (omega arith) o2 in
    let o4 = push_next b 0 44 (push 0 (push e (push 0 st))) (0 ∷ e ∷ 0 ∷ ws) g (omega arith) o3 in
    let last : Stack = push 0 (push 0 (push e (push 0 st))) in
    let slot : b - 36 ≡ (b - 48) + 12 = omega arith in
    (
      o4.at,
      subst
          (λ x.
            HasWords (write_word (push 0 st).saddr last.saddr last.words) (b - 48)
              (0 ∷ 0 ∷ e ∷ x ∷ ws))
          o4.at
          (fourth_word last.words (b - 48) (push 0 st).saddr last.saddr 0 0 e 0 ws (o1.at ∙ slot)
            o4.holds),
    )

-- build_stack from a word address below 2^32 with room for the arguments and 12 words more: the
-- stack pointer is 12 words and the arguments below it, and the frame stands there, the saved
-- stack pointer in the place of esp.
pub build_stack-frame :
    (funcaddr initret : ℕ) (args : List ℕ) (saddr : ℕ) (m : Words)
    → 4 * length args + 48 ≤ saddr
    → saddr < 2 ^ 32
    → let st = build_stack funcaddr initret args saddr m in
      let sp = saddr - 4 * length args - 48 in
      (st.saddr ≡ sp) × HasWords st.words sp (frame sp (sp + 36) saddr funcaddr initret args)
unfolding build_stack
build_stack-frame funcaddr initret args saddr m h g =
    let top : Stack = record { saddr = saddr; words = write_word saddr stack_magic m } in
    let o0 : OnStack top saddr (stack_magic ∷ []) = record {
      at = refl;
      holds = (ground arith, tt);
    } in
    let o1 = push_args-OnStack args top saddr (stack_magic ∷ []) (omega arith) g o0 in
    let b : ℕ = saddr - 4 * length args in
    let st : Stack = push_args args top in
    let ws : List ℕ = args ++ stack_magic ∷ [] in
    let o2 = push_call b initret funcaddr saddr st ws (omega arith) (omega arith) o1 in
    let call : Stack = push saddr (push funcaddr (push initret st)) in
    let o3 =
      push_regs b enabled call (saddr ∷ funcaddr ∷ initret ∷ ws) (omega arith) (omega arith) o2 in
    let regs : Stack = push 0 (push 0 (push 0 (push 0 (push enabled call)))) in
    let (sp, words) =
      push_last b call.saddr regs (0 ∷ 0 ∷ 0 ∷ 0 ∷ enabled ∷ saddr ∷ funcaddr ∷ initret ∷ ws)
        (omega arith) (omega arith) o3 in
    let up : b - 12 ≡ (b - 48) + 36 = omega arith in
    (
      sp,
      subst
          (λ x.
            HasWords (build_stack funcaddr initret args saddr m).words (b - 48)
              (frame (b - 48) x saddr funcaddr initret args))
          (o2.at ∙ up) words,
    )

restored :
    (a : ℕ) (m : Words) (w0 w1 w2 w3 w4 w5 w6 w7 f e i : ℕ) (ws : List ℕ)
    → HasWords m a (w0 ∷ w1 ∷ w2 ∷ w3 ∷ w4 ∷ w5 ∷ w6 ∷ w7 ∷ f ∷ e ∷ i ∷ ws)
    → (m (a + 40) ≡ i) × (m (a + 36) ≡ e) × (m (a + 32) ≡ f) × HasWords m (a + 44) ws
restored a m w0 w1 w2 w3 w4 w5 w6 w7 f e i ws h =
    let at8 : a + 4 + 4 + 4 + 4 + 4 + 4 + 4 + 4 ≡ a + 32 = omega arith in
    let at9 : a + 32 + 4 ≡ a + 36 = omega arith in
    let at10 : a + 36 + 4 ≡ a + 40 = omega arith in
    let at11 : a + 40 + 4 ≡ a + 44 = omega arith in
    let t : HasWords m (a + 32) (f ∷ e ∷ i ∷ ws) =
      subst (λ x. HasWords m x (f ∷ e ∷ i ∷ ws)) at8 h.1.1.1.1.1.1.1.1 in
    let u : HasWords m (a + 36) (e ∷ i ∷ ws) = subst (λ x. HasWords m x (e ∷ i ∷ ws)) at9 t.1 in
    let v : HasWords m (a + 40) (i ∷ ws) = subst (λ x. HasWords m x (i ∷ ws)) at10 u.1 in
    (v.0, u.0, t.0, subst (λ x. HasWords m x ws) at11 v.1)

-- The switch to a new process, from its saved stack pointer, with the stack as build_stack made
-- it: the function starts, with interrupts enabled and ebp at the top of the stack, as if it had
-- been called from userret with the arguments.
pub ctxsw_restore-build_stack :
    (funcaddr initret : ℕ) (args : List ℕ) (saddr : ℕ) (m : Words)
    → 4 * length args + 48 ≤ saddr
    → saddr < 2 ^ 32
    → let st = build_stack funcaddr initret args saddr m in
      let r = ctxsw_restore st.saddr st.words in
      (r.eip ≡ funcaddr)
      × (r.ebp ≡ saddr)
      × (r.eflags ≡ enabled)
      × HasWords st.words r.esp (initret ∷ (args ++ stack_magic ∷ []))
      × (r.esp + 4 * length args + 4 ≡ saddr)
ctxsw_restore-build_stack funcaddr initret args saddr m h g =
    let st : Stack = build_stack funcaddr initret args saddr m in
    let sp : ℕ = saddr - 4 * length args - 48 in
    let (e, w) = build_stack-frame funcaddr initret args saddr m h g in
    let moved : HasWords st.words st.saddr (frame sp (sp + 36) saddr funcaddr initret args) =
      subst (λ x. HasWords st.words x (frame sp (sp + 36) saddr funcaddr initret args)) (sym e) w in
    let r =
      restored st.saddr st.words 0 0 (sp + 36) sp 0 0 0 0 enabled saddr funcaddr
        (initret ∷ (args ++ stack_magic ∷ [])) moved in
    (r.0, r.1, r.2, r.3, omega (arith, e))
