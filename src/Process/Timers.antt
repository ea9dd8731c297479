-- ===== src/Process/Timers.antt =====
-- system/sleep.c, system/yield.c, system/wakeup.c and system/clkhandler.c. A process that sleeps
-- returns when it runs again. A delay is an int32 that does not pass its bounds; the counters of
-- the clock are uint32 and wrap.
use ece564_project.Prelude.{
  ℕ, zero, suc, ◌+◌, ◌-◌, ◌*◌, ◌%◌, Bool, true, false, ◌||◌, leb, ◌==◌, if◌then◌else◌, Option, some,
  none,
}
use ece564_project.Prelude.Int.{ℤ, pos, pos_part, ltb_ℤ, leb_ℤ, ◌-ℤ◌}
use ece564_project.Queue.Table.{insertd, dequeue, firstid, firstkey, is_empty, set_key}
use ece564_project.Process.State.{System, pr_sleep, set_state, is_bad_pid, as_pid}
use ece564_project.Process.Sched.{rounds, quantum, resched, ready, defer_start, defer_stop}

abbrev pub max_seconds : ℕ
max_seconds = 2147483

unfoldable pub yield : System → Option (System × Bool)
yield s = elim (resched s) [ none ↦ none | some s' ↦ some (s', true) ]

-- The caller, already in the sleep queue, gives up the processor.
unfoldable pub fall_asleep : System → Option (System × Bool)
fall_asleep s = elim (resched (set_state s.currpid pr_sleep s)) [
  | none ↦ none
  | some s' ↦ some (s', true)
]

unfoldable pub sleepms : ℤ → System → Option (System × Bool)
sleepms delay s =
    if ltb_ℤ delay (pos 0)
    then some (s, false)
    else if leb_ℤ delay (pos 0)
    then yield s
    else elim (insertd (is_bad_pid s) rounds s.currpid s.sleepq delay s.queuetab) [
      | none ↦ none
      | some (queue, done) ↦
          if done
          then fall_asleep (record s { queuetab = queue })
          else some (record s { queuetab = queue }, false)
    ]

-- The result of sleepms is not read.
unfoldable pub sleep : ℤ → System → Option (System × Bool)
sleep delay s =
    if ltb_ℤ delay (pos 0) || ltb_ℤ (pos max_seconds) delay
    then some (s, false)
    else elim (sleepms (pos (1000 * pos_part delay)) s) [ none ↦ none | some r ↦ some (r.0, true) ]

-- nonempty(sleepq) && firstkey(sleepq) <= 0
unfoldable pub is_due : System → Bool
is_due s =
    if is_empty s.queuetab s.sleepq then false else leb_ℤ (firstkey s.queuetab s.sleepq) (pos 0)

-- while (nonempty(sleepq) && firstkey(sleepq) <= 0) ready(dequeue(sleepq))
unfoldable pub wake_due : ℕ → System → Option System
wake_due zero s = none
wake_due (suc n) s =
    let (queue, first) = dequeue s.sleepq s.queuetab in
    elim (is_due s) [
      | false ↦ some s
      | true ↦ elim (ready (as_pid first) (record s { queuetab = queue })) [
        | none ↦ none
        | some r ↦ wake_due n r.0
      ]
    ]

unfoldable pub wakeup : System → Option System
wakeup s = elim (wake_due rounds (defer_start s).0) [
  | none ↦ none
  | some s' ↦ elim (defer_stop s') [ none ↦ none | some r ↦ some r.0 ]
]

abbrev pub two32 : ℕ
two32 = 4294967296

-- clktime and count1000
pub record Clock : Type 0 where
  pub clktime : ℕ
  pub count1000 : ℕ

-- --count1000 and, after a second, ++clktime
abbrev pub count_ms : Clock → Clock
count_ms c =
    let left = (c.count1000 + (two32 - 1)) % two32 in
    if leb left 0
    then record { clktime = (c.clktime + 1) % two32; count1000 = 1000 }
    else record { clktime = c.clktime; count1000 = left }

abbrev pub count_delay : System → System
count_delay s = record s {
  queuetab =
      set_key s.queuetab (firstid s.queuetab s.sleepq) (firstkey s.queuetab s.sleepq -ℤ pos 1);
}

unfoldable pub tick_sleepers : System → Option System
tick_sleepers s =
    if is_empty s.queuetab s.sleepq
    then some s
    else (let s' : System = count_delay s in
        if leb_ℤ (firstkey s'.queuetab s'.sleepq) (pos 0) then wakeup s' else some s')

unfoldable pub tick_slice : System → Option System
tick_slice s =
    let left = (s.preempt + (two32 - 1)) % two32 in
    if leb left 0
    then resched (record s { preempt = quantum })
    else some (record s { preempt = left })

-- A wakeup that switches to another process ends the step: the rest of the handler, tick_slice,
-- runs when the interrupted process runs again.
unfoldable pub clkhandler : Clock → System → Option (Clock × System)
clkhandler c s = elim (tick_sleepers s) [
  | none ↦ none
  | some s' ↦
      if s'.currpid == s.currpid
      then elim (tick_slice s') [ none ↦ none | some s'' ↦ some (count_ms c, s'') ]
      else some (count_ms c, s')
]
