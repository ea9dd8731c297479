-- ===== src/Process/Sched.antt =====
-- system/resched.c, system/ready.c, system/suspend.c, system/resume.c, system/chprio.c and
-- system/unsleep.c. A call of resched that switches ends with the new process running: what the
-- caller does when it runs again is a step of its own. `none` stands for a loop of insert that
-- has not ended within `rounds` rounds. The calls of disable and restore
-- are left out.
use ece564_project.Prelude.{
  ℕ, ◌+◌, ◌-◌, Bool, true, false, ◌&&◌, ◌||◌, ltb, leb, ◌==◌, if◌then◌else◌, Option, some, none,
}
use ece564_project.Prelude.Int.{ℤ, ltb_ℤ, ◌+ℤ◌}
use ece564_project.Queue.Table.{QTable, nproc, insert, dequeue, getitem, firstkey, set_key}
use ece564_project.Paging.Machine.{cr3_value}
use ece564_project.Process.State.{
  System, Procent, pr_curr, pr_ready, pr_susp, pr_sleep, pr_rectim, nullproc, update_proc,
  set_state, is_bad_pid, as_pid,
}

abbrev pub rounds : ℕ
rounds = 101

abbrev pub quantum : ℕ
quantum = 10

-- The first process of the ready list takes the processor.
unfoldable pub switch_context : System → System
switch_context s =
    let (queue, first) = dequeue s.readylist s.queuetab in
    let new : ℕ = as_pid first in
    set_state new pr_curr (record s {
      queuetab = queue;
      currpid = new;
      cr3 = cr3_value (s.proctab new).page_addr s.cr3;
      preempt = quantum;
    })

-- insert(pid, readylist, proctab[pid].prprio)
unfoldable pub insert_ready : ℕ → System → Option System
insert_ready p s =
    elim (insert (is_bad_pid s) rounds p s.readylist (s.proctab p).prprio s.queuetab) [
      | none ↦ none
      | some r ↦ some (record s { queuetab = r.0 })
    ]

unfoldable pub resched : System → Option System
resched s =
    if ltb 0 s.ndefers
    then some (record s { attempt = true })
    else if (s.proctab s.currpid).prstate == pr_curr
    then (if ltb_ℤ (firstkey s.queuetab s.readylist) (s.proctab s.currpid).prprio
        then some s
        else elim (insert_ready s.currpid (set_state s.currpid pr_ready s)) [
          | none ↦ none
          | some s' ↦ some (switch_context s')
        ])
    else some (switch_context s)

-- resched_cntl(DEFER_START) and resched_cntl(DEFER_STOP); true stands for OK.
unfoldable pub defer_start : System → System × Bool
defer_start s = (
  record s { ndefers = s.ndefers + 1; attempt = if s.ndefers == 0 then false else s.attempt },
  true,
)

unfoldable pub defer_stop : System → Option (System × Bool)
defer_stop s =
    if s.ndefers == 0
    then some (s, false)
    else (let s' : System = record s { ndefers = s.ndefers - 1 } in
        if (s'.ndefers == 0) && s'.attempt
        then elim (resched s') [ none ↦ none | some s'' ↦ some (s'', true) ]
        else some (s', true))

unfoldable pub ready : ℕ → System → Option (System × Bool)
ready p s =
    if is_bad_pid s p then some (s, false) else elim (insert_ready p (set_state p pr_ready s)) [
      | none ↦ none
      | some s' ↦ elim (resched s') [ none ↦ none | some s'' ↦ some (s'', true) ]
    ]

-- The result is the priority, or `none` for SYSERR. A process that suspends itself returns when
-- it runs again, with the priority that it has then.
unfoldable pub suspend : ℕ → System → Option (System × Option ℤ)
suspend p s =
    let e : Procent = s.proctab p in
    if is_bad_pid s p || (p == nullproc)
    then some (s, none)
    else if (if e.prstate == pr_curr
        then false
        else (if e.prstate == pr_ready then false else true))
    then some (s, none)
    else if e.prstate == pr_ready
    then some
        (set_state p pr_susp (record s { queuetab = (getitem p s.queuetab).0 }), some e.prprio)
    else elim (resched (set_state p pr_susp s)) [
      | none ↦ none
      | some s' ↦ some (s', some (s'.proctab p).prprio)
    ]

unfoldable pub resume : ℕ → System → Option (System × Option ℤ)
resume p s =
    let e : Procent = s.proctab p in
    if is_bad_pid s p
    then some (s, none)
    else if (e.prstate == pr_susp)
    then elim (ready p s) [ none ↦ none | some r ↦ some (r.0, some e.prprio) ]
    else some (s, none)

unfoldable pub chprio : ℕ → ℤ → System → System × Option ℤ
chprio p newprio s =
    if is_bad_pid s p
    then (s, none)
    else (update_proc p (λ e. record e { prprio = newprio }) s, some (s.proctab p).prprio)

-- pidnext < NPROC compares signed numbers, so that EMPTY passes.
unfoldable pub unsleep : ℕ → System → System × Bool
unsleep p s =
    let e : Procent = s.proctab p in
    let next : ℕ = (s.queuetab p).qnext in
    if is_bad_pid s p
    then (s, false)
    else if (if e.prstate == pr_sleep
        then false
        else (if e.prstate == pr_rectim then false else true))
    then (s, false)
    else (let t : QTable =
          (if ltb next nproc || leb 32768 next
            then set_key s.queuetab next ((s.queuetab next).qkey +ℤ (s.queuetab p).qkey)
            else s.queuetab) in
        (record s { queuetab = (getitem p t).0 }, true))
