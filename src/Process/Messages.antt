-- ===== src/Process/Messages.antt =====
-- system/send.c, system/receive.c, system/recvclr.c and system/recvtime.c: a process has room for
-- one message. A receiver that has to wait runs in two steps: up to resched, and after it.
use ece564_project.Prelude.{
  ℕ, ◌-◌, ◌≡◌, ◌^◌, refl, Bool, true, false, arith, ◌==◌, if◌then◌else◌, Option, some, none,
}
use ece564_project.Prelude.Int.{ℤ, pos, ltb_ℤ}
use ece564_project.Queue.Table.{insertd}
use ece564_project.Process.State.{
  System, Procent, pr_recv, pr_rectim, update_proc, set_state, is_bad_pid,
}
use ece564_project.Process.Sched.{rounds, resched, ready, unsleep}

-- OK and TIMEOUT as a umsg32.
abbrev pub ok_word : ℕ
ok_word = 1

abbrev pub timeout_word : ℕ
timeout_word = 2 ^ 32 - 3

abbrev pub deliver : ℕ → ℕ → System → System
deliver p msg s = update_proc p (λ e. record e { prmsg = msg; prhasmsg = true }) s

unfoldable pub send : ℕ → ℕ → System → Option (System × Bool)
send p msg s =
    let e : Procent = s.proctab p in
    let s1 : System = deliver p msg s in
    if is_bad_pid s p
    then some (s, false)
    else if e.prhasmsg
    then some (s, false)
    else if e.prstate == pr_recv
    then elim (ready p s1) [ none ↦ none | some r ↦ some (r.0, true) ]
    else if e.prstate == pr_rectim
    then elim (ready p (unsleep p s1).0) [ none ↦ none | some r ↦ some (r.0, true) ]
    else some (s1, true)

abbrev pub has_message : System → Bool
has_message s = (s.proctab s.currpid).prhasmsg

abbrev pub clear_message : System → System
clear_message s = update_proc s.currpid (λ e. record e { prhasmsg = false }) s

-- The first step of receive: nothing if a message is there, else the process blocks.
unfoldable pub receive_wait : System → Option System
receive_wait s = if has_message s then some s else resched (set_state s.currpid pr_recv s)

-- The second step: the message is taken.
unfoldable pub receive_take : System → System × ℕ
receive_take s = (clear_message s, (s.proctab s.currpid).prmsg)

unfoldable pub recvclr : System → System × ℕ
recvclr s = if has_message s then (clear_message s, (s.proctab s.currpid).prmsg) else (s, ok_word)

-- The first step of recvtime; true if the process goes on to the second step, false if the
-- result is SYSERR.
unfoldable pub recvtime_wait : ℤ → System → Option (System × Bool)
recvtime_wait maxwait s =
    if ltb_ℤ maxwait (pos 0)
    then some (s, false)
    else if has_message s
    then some (s, true)
    else elim (insertd (is_bad_pid s) rounds s.currpid s.sleepq maxwait s.queuetab) [
      | none ↦ none
      | some r ↦
          if r.1
          then elim (resched (set_state s.currpid pr_rectim (record s { queuetab = r.0 }))) [
            | none ↦ none
            | some s' ↦ some (s', true)
          ]
          else some (record s { queuetab = r.0 }, false)
    ]

unfoldable pub recvtime_take : System → System × ℕ
recvtime_take s =
    if has_message s then (clear_message s, (s.proctab s.currpid).prmsg) else (s, timeout_word)

receive_wait-message : (s : System) → has_message s ≡ true → receive_wait s ≡ some s
unfolding receive_wait
receive_wait-message s h = rw h refl

recvclr-message : (s : System) → has_message s ≡ true → recvclr s ≡ receive_take s
unfolding recvclr receive_take
recvclr-message s h = rw h refl

send_refused :
    (s : System) (p msg : ℕ)
    → is_bad_pid s p ≡ false
    → (s.proctab p).prhasmsg ≡ true
    → send p msg s ≡ some (s, false)
unfolding send
send_refused s p msg known full = rw (known, full) refl

-- What `p` finds when it runs: its message, which it can take once.
pub record Delivered (s s' : System) (p msg : ℕ) : Type 0 where
  pub no_wait : receive_wait (record s' { currpid = p }) ≡ some (record s' { currpid = p })
  pub received : (receive_take (record s' { currpid = p })).1 ≡ msg
  pub by_recvclr : recvclr (record s' { currpid = p }) ≡ receive_take (record s' { currpid = p })
  pub taken : has_message (receive_take (record s' { currpid = p })).0 ≡ false
  pub others : (k : ℕ) → (k == p) ≡ false → s'.proctab k ≡ s.proctab k

-- send to a process that is in use, has no message and does not wait for one: the result is OK,
-- and no other process changes. When the recipient runs, receive and recvclr give it the message
-- without blocking, and then it has none. A second message before that is refused, and changes
-- nothing.
pub send-receive_take :
    (s : System) (p msg msg2 : ℕ)
    → is_bad_pid s p ≡ false
    → (s.proctab p).prhasmsg ≡ false
    → ((s.proctab p).prstate == pr_recv) ≡ false
    → ((s.proctab p).prstate == pr_rectim) ≡ false
    → (s' : System) × (send p msg s ≡ some (s', true))
      × (send p msg2 s' ≡ some (s', false))
      × Delivered s s' p msg
unfolding send receive_take
send-receive_take s p msg msg2 known empty_box not_recv not_rectim =
    let full : has_message (record (deliver p msg s) { currpid = p }) ≡ true = ground arith in
    (
      deliver p msg s,
      rw (known, empty_box, not_recv, not_rectim) refl,
      send_refused (deliver p msg s) p msg2 (ground arith) (ground arith),
      record {
        no_wait = receive_wait-message (record (deliver p msg s) { currpid = p }) full;
        received = ground arith;
        by_recvclr = recvclr-message (record (deliver p msg s) { currpid = p }) full;
        taken = ground arith;
        others = λ k h. ground arith;
      },
    )
