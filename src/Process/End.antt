-- ===== src/Process/End.antt =====
-- system/kill.c, system/exit.c and system/userret.c: the end of a process. kill runs in two
-- steps, since the message to the parent may switch to it: kill_start is the code up to that
-- message, kill_finish the code behind it. `close` is the function of system/close.c, which calls
-- a device driver.
use ece564_project.Prelude.{
  ℕ, ◌+◌, ◌-◌, ◌%◌, ◌^◌, ◌≡◌, refl, true, false, ◌||◌, arith, ◌==◌, if◌then◌else◌, Option, some,
  none, Bool-cases, inl, inr, List, ◌∷◌, ◌++◌, length-append, ◌∙◌, ap,
}
use ece564_project.Prelude.Int.{ℤ, pos, leb_ℤ, ◌+ℤ◌, ◌-ℤ◌, +ℤ_parts}
use ece564_project.Queue.Table.{getitem}
use ece564_project.Queue.Chain
use ece564_project.Queue.Laws.{getitem-IsQueue}
use ece564_project.Heap.Blocks.{Heap, freemem, roundmb}
use ece564_project.Paging.Machine.{Machine}
use ece564_project.Paging.Kill.{kill_vm}
use ece564_project.Process.State.{
  System, pr_free, pr_curr, pr_ready, pr_sleep, pr_wait, pr_rectim, nullproc, set_state, is_bad_pid,
}
use ece564_project.Process.Sched.{resched, unsleep}
use ece564_project.Process.Semaphores.{count_up}
use ece564_project.Process.Messages.{send}
use ece564_project.Process.Create.{Kernel, Details}
use ece564_project.Process.Lines.{Waiting, count_up_queue}

-- The result of the first step: SYSERR, the halt of the processor in xdone, or the message sent.
pub data KillStart : Type 0 where
  refused : KillStart
  halted : KillStart
  notified : Kernel → KillStart

unfoldable pub kill_start : ℕ → Kernel → Option KillStart
kill_start pid k =
    let left : ℤ = k.prcount -ℤ pos 1 in
    if is_bad_pid k.sys pid || (pid == nullproc)
    then some KillStart.refused
    else if leb_ℤ left (pos 1)
    then some KillStart.halted
    else elim (send (k.details pid).prparent pid k.sys) [
      | none ↦ none
      | some r ↦ some (KillStart.notified (record k { sys = r.0; prcount = left }))
    ]

-- freestk(prstkbase, prstklen)
abbrev pub freestk : ℕ → ℕ → Heap → Heap
freestk p len h = (freemem ((p + (2 ^ 32 - roundmb len) + 4) % 2 ^ 32) (roundmb len) h).0

-- kill_vm works on the paging structures, CR3 and the process table.
abbrev pub release_memory : ℕ → Kernel → Kernel
release_memory pid k =
    let m : Machine = kill_vm pid (record {
      mem = k.mem;
      cr3 = k.sys.cr3;
      page_addr = λ p. (k.sys.proctab p).page_addr;
      currpid = k.sys.currpid;
    }) in
    record k { mem = m.mem; sys = record k.sys { cr3 = m.cr3 } }

-- The switch on the state of the process.
unfoldable pub leave_state : ℕ → Kernel → Option Kernel
leave_state pid k =
    let s : System = k.sys in
    let state : ℕ = (s.proctab pid).prstate in
    if state == pr_curr
    then (let k1 : Kernel = release_memory pid (record k { sys = set_state pid pr_free s }) in
        elim (resched k1.sys) [ none ↦ none | some s' ↦ some (record k1 { sys = s' }) ])
    else if (state == pr_sleep) || (state == pr_rectim)
    then some (record k { sys = set_state pid pr_free (unsleep pid s).0 })
    else if state == pr_wait
    then (let s1 : System = count_up (s.proctab pid).prsem s in
        some (record k {
          sys = set_state pid pr_free (record s1 { queuetab = (getitem pid s1.queuetab).0 });
        }))
    else if state == pr_ready
    then some (record k {
      sys = set_state pid pr_free (record s { queuetab = (getitem pid s.queuetab).0 });
    })
    else some (record k { sys = set_state pid pr_free s })

unfoldable pub kill_finish : (ℕ → Kernel → Kernel) → ℕ → Kernel → Option Kernel
kill_finish close pid k =
    let d : Details = k.details pid in
    let k1 : Kernel = close (d.prdesc 2) (close (d.prdesc 1) (close (d.prdesc 0) k)) in
    leave_state pid (record k1 { heap = freestk d.prstkbase d.prstklen k1.heap })

-- exit and userret call kill(getpid()).
unfoldable pub exit_start : Kernel → Option KillStart
exit_start k = kill_start k.sys.currpid k

has-remove :
    (k p : ℕ) (xs ys : List ℕ) → Chain.has k (xs ++ ys) ≡ true → Chain.has k (xs ++ p ∷ ys) ≡ true
has-remove k p xs ys h = ground (arith, Chain.has-append k xs ys, Chain.has-append k xs (p ∷ ys))

-- The semaphore's queue without the process that is killed.
abbrev killed_waiting : ℕ → System → System
killed_waiting p s =
    let s1 : System = count_up (s.proctab p).prsem s in
    set_state p pr_free (record s1 { queuetab = (getitem p s1.queuetab).0 })

killed-Waiting :
    (s : System) (sem p : ℕ) (xs ys : List ℕ)
    → Waiting s sem (xs ++ p ∷ ys)
    → (s.proctab p).prsem ≡ sem
    → Waiting (killed_waiting p s) sem (xs ++ ys)
killed-Waiting s sem p xs ys w e =
    let same : ((killed_waiting p s).semtab sem).squeue ≡ (s.semtab sem).squeue =
      rw e (count_up_queue sem s) in
    let more : ((killed_waiting p s).semtab sem).scount ≡ (s.semtab sem).scount +ℤ pos 1 =
      rw e (ground arith) in
    let d = w.line.queue.distinct in
    let absent : Chain.has p (xs ++ ys) ≡ false =
      (let left = Chain.Distinct-apart xs (p ∷ ys) p d (ground arith) in
        let right = (Chain.Distinct-right xs (p ∷ ys) d).0 in
        ground (arith, Chain.has-append p xs ys)) in
    let other : (k : ℕ) → Chain.has k (xs ++ ys) ≡ true → (k == p) ≡ false = λ k h.
      elim (Bool-cases (k == p)) [
        | inr n ↦ n
        | inl z ↦
            let same : k ≡ p = ground arith in
            let y = ap (λ i. Chain.has i (xs ++ ys)) same in absurd (ground arith)
      ] in
    record {
      line = record {
        queue = rw same (getitem-IsQueue s.queuetab (s.semtab sem).squeue p xs ys w.line.queue);
        states = λ k h.
            (let a = w.line.states k (has-remove k p xs ys h) in let b = other k h in ground arith);
        sems = λ k h. (let a = w.line.sems k (has-remove k p xs ys h) in ground arith);
      };
      count =
          (let c = w.count in
            rw more (
              ground (
                arith,
                length-append xs ys,
                length-append xs (p ∷ ys),
                +ℤ_parts (s.semtab sem).scount (pos 1),
              )));
    }

leave_state_wait :
    (p : ℕ) (k : Kernel)
    → (k.sys.proctab p).prstate ≡ pr_wait
    → leave_state p k ≡ some (record k { sys = killed_waiting p k.sys })
unfolding leave_state
leave_state_wait p k e = rw e refl

-- The end of a process that waits on a semaphore, in the second step of kill, when closing its
-- devices leaves the tables of processes, semaphores and queues as they are: its entry is free, the
-- others wait on in their order, and their number is still the count below 0.
pub kill_finish-Waiting :
    (close : ℕ → Kernel → Kernel) (p : ℕ) (k : Kernel) (sem : ℕ) (xs ys : List ℕ)
    → ((d : ℕ) (k' : Kernel) → (close d k').sys ≡ k'.sys)
    → Waiting k.sys sem (xs ++ p ∷ ys)
    → (k' : Kernel) × (kill_finish close p k ≡ some k')
      × Waiting k'.sys sem (xs ++ ys)
      × ((k'.sys.proctab p).prstate ≡ pr_free)
      × ((i : ℕ) → (i == p) ≡ false → k'.sys.proctab i ≡ k.sys.proctab i)
      × (k'.sys.currpid ≡ k.sys.currpid)
unfolding kill_finish
kill_finish-Waiting close p k sem xs ys quiet w =
    let inside : Chain.has p (xs ++ p ∷ ys) ≡ true =
      ground (arith, Chain.has-append p xs (p ∷ ys)) in
    let d : Details = k.details p in
    let k1 : Kernel = close (d.prdesc 2) (close (d.prdesc 1) (close (d.prdesc 0) k)) in
    let same : k1.sys ≡ k.sys =
      quiet (d.prdesc 2) (close (d.prdesc 1) (close (d.prdesc 0) k))
      ∙ quiet (d.prdesc 1) (close (d.prdesc 0) k)
      ∙ quiet (d.prdesc 0) k in
    let k2 : Kernel = record k1 { heap = freestk d.prstkbase d.prstklen k1.heap } in
    let state : (k2.sys.proctab p).prstate ≡ pr_wait =
      ap (λ (s : System). (s.proctab p).prstate) same ∙ w.line.states p inside in
    let left = killed-Waiting k.sys sem p xs ys w (w.line.sems p inside) in
    (
      record k2 { sys = killed_waiting p k2.sys },
      leave_state_wait p k2 state,
      rw same left,
      ground arith,
      λ i h. (let e = ap (λ (s : System). s.proctab i) same in ground arith),
      ap (λ (s : System). s.currpid) same,
    )
