-- ===== src/Process/Semaphores.antt =====
-- system/semcreate.c, system/semdelete.c, system/semreset.c, system/semcount.c, system/wait.c,
-- system/signal.c and system/signaln.c. A count is an integer, so that the wrap of an int32 at
-- 2^31 is left out. In a pair, true stands for OK and false for SYSERR; `none` stands for a loop
-- that has not ended within its fuel.
use ece564_project.Prelude.{
  ℕ, zero, suc, ◌+◌, Bool, true, false, ◌||◌, leb, ◌==◌, if◌then◌else◌, Option, some, none,
}
use ece564_project.Prelude.Int.{ℤ, pos, pos_part, neg_part, ltb_ℤ, ◌+ℤ◌, ◌-ℤ◌}
use ece564_project.Queue.Table.{nsem, empty, enqueue, dequeue, getfirst}
use ece564_project.Process.State.{
  System, pr_wait, update_proc, update_sem, is_bad_pid, is_bad_sem, as_pid,
}
use ece564_project.Process.Sched.{rounds, resched, ready, defer_start, defer_stop}

abbrev pub count_up : ℕ → System → System
count_up i s = update_sem i (λ e. record e { scount = e.scount +ℤ pos 1 }) s

abbrev pub count_down : ℕ → System → System
count_down i s = update_sem i (λ e. record e { scount = e.scount -ℤ pos 1 }) s

-- newsem, whose static nextsem is in the system.
unfoldable pub newsem : ℕ → System → System × Option ℕ
newsem zero s = (s, none)
newsem (suc n) s =
    let sem : ℕ = s.nextsem in
    let s' : System = record s { nextsem = if leb nsem (sem + 1) then 0 else sem + 1 } in
    let rest = newsem n s' in
    if (s.semtab sem).used
    then rest
    else (update_sem sem (λ e. record e { used = true }) s', some sem)

unfoldable pub semcreate : ℤ → System → System × Option ℕ
semcreate count s =
    if ltb_ℤ count (pos 0)
    then (s, none)
    else (let (s', r) = newsem nsem s in
        elim r [
          | none ↦ (s', none)
          | some sem ↦ (update_sem sem (λ e. record e { scount = count }) s', some sem)
        ])

unfoldable pub semcount : ℕ → System → Option ℤ
semcount sem s =
    if is_bad_sem sem || (if (s.semtab sem).used then false else true)
    then none
    else some (s.semtab sem).scount

-- The caller waits in the queue of the semaphore.
unfoldable pub block : ℕ → System → Option (System × Bool)
block sem s =
    let s1 : System = update_proc s.currpid (λ e. record e { prstate = pr_wait; prsem = sem }) s in
    let (queue, _) = enqueue (is_bad_pid s1) s1.currpid (s1.semtab sem).squeue s1.queuetab in
    elim (resched (record s1 { queuetab = queue })) [ none ↦ none | some s' ↦ some (s', true) ]

-- Up to the call of resched, which returns when the process is signalled.
unfoldable pub wait : ℕ → System → Option (System × Bool)
wait sem s =
    if is_bad_sem sem || (if (s.semtab sem).used then false else true)
    then some (s, false)
    else (let s1 : System = count_down sem s in
        if ltb_ℤ (s1.semtab sem).scount (pos 0) then block sem s1 else some (s1, true))

-- if ((semptr->scount++) < 0) ready(dequeue(semptr->squeue))
unfoldable pub release_one : ℕ → System → Option System
release_one sem s =
    let s1 : System = count_up sem s in
    if ltb_ℤ (s.semtab sem).scount (pos 0)
    then (let (queue, first) = dequeue (s1.semtab sem).squeue s1.queuetab in
        elim (ready (as_pid first) (record s1 { queuetab = queue })) [
          | none ↦ none
          | some r ↦ some r.0
        ])
    else some s1

unfoldable pub signal : ℕ → System → Option (System × Bool)
signal sem s =
    if is_bad_sem sem || (if (s.semtab sem).used then false else true)
    then some (s, false)
    else elim (release_one sem s) [ none ↦ none | some s' ↦ some (s', true) ]

-- for (; count > 0; count--)
unfoldable pub release_many : ℕ → ℕ → System → Option System
release_many zero sem s = some s
release_many (suc n) sem s = elim (release_one sem s) [
  | none ↦ none
  | some s' ↦ release_many n sem s'
]

abbrev pub finish : Option System → Option (System × Bool)
finish none = none
finish (some s) = elim (defer_stop s) [ none ↦ none | some r ↦ some (r.0, true) ]

unfoldable pub signaln : ℕ → ℤ → System → Option (System × Bool)
signaln sem count s =
    if is_bad_sem sem || ltb_ℤ count (pos 0)
    then some (s, false)
    else if (s.semtab sem).used
    then finish (release_many (pos_part count) sem (defer_start s).0)
    else some (s, false)

-- while (semptr->scount++ < 0) ready(getfirst(semptr->squeue))
unfoldable pub release_waiting : ℕ → ℕ → System → Option System
release_waiting zero sem s = none
release_waiting (suc n) sem s =
    let s1 : System = count_up sem s in
    let (queue, first) = getfirst (s1.semtab sem).squeue s1.queuetab in
    elim (ltb_ℤ (s.semtab sem).scount (pos 0)) [
      | false ↦ some s1
      | true ↦ elim (ready first (record s1 { queuetab = queue })) [
        | none ↦ none
        | some r ↦ release_waiting n sem r.0
      ]
    ]

-- The fuel is one more than the number that the count is below 0.
unfoldable pub semdelete : ℕ → System → Option (System × Bool)
semdelete sem s =
    if is_bad_sem sem
    then some (s, false)
    else if (s.semtab sem).used
    then finish (
        release_waiting (neg_part (s.semtab sem).scount + 1) sem
          (defer_start (update_sem sem (λ e. record e { used = false }) s)).0)
    else some (s, false)

-- while ((pid=getfirst(semqueue)) != EMPTY) ready(pid)
unfoldable pub release_all : ℕ → ℕ → System → Option System
release_all zero q s = none
release_all (suc n) q s =
    let (queue, first) = getfirst q s.queuetab in
    elim (first == empty) [
      | true ↦ some (record s { queuetab = queue })
      | false ↦ elim (ready first (record s { queuetab = queue })) [
        | none ↦ none
        | some r ↦ release_all n q r.0
      ]
    ]

unfoldable pub semreset : ℕ → ℤ → System → Option (System × Bool)
semreset sem count s =
    if ltb_ℤ count (pos 0) || is_bad_sem sem || (if (s.semtab sem).used then false else true)
    then some (s, false)
    else elim (release_all rounds (s.semtab sem).squeue (defer_start s).0) [
      | none ↦ none
      | some s' ↦ finish (some (update_sem sem (λ e. record e { scount = count }) s'))
    ]
