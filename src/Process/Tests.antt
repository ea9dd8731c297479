-- ===== src/Process/Tests.antt =====
-- The theorems on processes at a system with three of them.
mod Sleepers
mod Semaphores
mod Ends
use ece564_project.Prelude.{
  ℕ, ◌+◌, ◌<◌, ◌≡◌, refl, true, false, ◌==◌, if◌then◌else◌, some, none, List, [], ◌∷◌, arith, ◌⊎◌,
  Bool-cases, inl, inr,
}
use ece564_project.Prelude.Int.{ℤ, pos, negsuc, ◌-ℤ◌}
use ece564_project.Queue.Table.{QTable, empty, max_key, min_key, nsem}
use ece564_project.Queue.Chain
use ece564_project.Queue.Frames.{reads, Separate}
use ece564_project.Queue.Laws.{IsQueue}
use ece564_project.Process.State.{System, Procent, pr_free, pr_curr, pr_ready, pr_susp, pr_wait}
use ece564_project.Process.State.{set_state}
use ece564_project.Process.Sched.{resched, resume, suspend}
use ece564_project.Process.Resume.{resume-Dispatched}
use ece564_project.Process.Suspend.{suspend-ready}
use ece564_project.Process.Ready.{ReadyList, Dispatched, Kept, Switched}
use ece564_project.Process.Highest.{resched-Dispatched, resched-gives_up}
use ece564_project.Process.Messages.{send, Delivered, send-receive_take}
use ece564_project.Process.Semaphores.{semcreate, semcount, wait, signal}
use ece564_project.Process.Counts.{created, semcreate-created, signal-wait}

-- The ready list 204 holds the processes 3, with the key 7, and 5, with the key 4.
abbrev pub list : QTable
list k =
    if k == 204
    then record { qkey = max_key; qnext = 3; qprev = empty }
    else if k == 3
    then record { qkey = pos 7; qnext = 5; qprev = 204 }
    else if k == 5
    then record { qkey = pos 4; qnext = 205; qprev = 3 }
    else if k == 205
    then record { qkey = min_key; qnext = empty; qprev = 5 }
    else record { qkey = pos 0; qnext = empty; qprev = empty }

abbrev pub proc : ℕ → ℤ → Procent
proc state prio = record {
  prstate = state;
  prprio = prio;
  prsem = 0;
  prmsg = 0;
  prhasmsg = false;
  page_addr = 4096;
}

-- The process 9 has the given state, and the semaphore 0 has the count 2.
abbrev pub three : ℕ → System
three state = record {
  proctab = λ k.
      if k == 3
      then proc pr_ready (pos 7)
      else if k == 5
      then proc pr_ready (pos 4)
      else if k == 9
      then proc state (pos 5)
      else proc pr_free (pos 0);
  semtab = λ k. record { used = (k == 0); scount = pos 2; squeue = 100 + k + k };
  queuetab = list;
  currpid = 9;
  readylist = 204;
  sleepq = 206;
  ndefers = 0;
  attempt = false;
  preempt = 10;
  cr3 = 4096;
  nextsem = 0;
}

pub list-IsQueue : IsQueue list 204 (3 ∷ 5 ∷ [])
list-IsQueue = record {
  good = refl;
  chain = (refl, refl, (refl, refl, (refl, refl)));
  distinct = (refl, (refl, tt));
  pids = (omega arith, (omega arith, tt));
}

three-ReadyList : (state : ℕ) → ReadyList (three state) (3 ∷ 5 ∷ [])
three-ReadyList state = record {
  queue = list-IsQueue;
  descending = ((refl, tt), (tt, tt));
  tail = refl;
  ready = λ k h. elim (Bool-cases (k == 3)) [
    | inl e ↦ rw e refl
    | inr a ↦ (let e : (k == 5) ≡ true = ground arith in rw (a, e) refl)
  ];
  keys = λ k h. elim (Bool-cases (k == 3)) [
    | inl e ↦ (let same : k ≡ 3 = ground arith in rw same refl)
    | inr a ↦ (let same : k ≡ 5 = ground arith in rw same refl)
  ];
}

resched-Dispatched_example :
    (s : System) × (ys : List ℕ) × (resched (three pr_curr) ≡ some s)
    × Dispatched s ys
    × ((k : ℕ) → Chain.has k (s.currpid ∷ ys) ≡ Chain.has k (9 ∷ 3 ∷ 5 ∷ []))
    × Kept (three pr_curr) s (3 ∷ 5 ∷ [])
resched-Dispatched_example =
    resched-Dispatched (three pr_curr) (3 ∷ 5 ∷ []) (three-ReadyList pr_curr) refl
      (record { pid = omega arith; absent = refl }) refl refl (omega arith)

-- The process 12 is suspended, and 9 runs.
abbrev sleeper : System
sleeper = set_state 12 pr_susp (three pr_curr)

sleeper-ReadyList : ReadyList sleeper (3 ∷ 5 ∷ [])
sleeper-ReadyList = record {
  queue = list-IsQueue;
  descending = ((refl, tt), (tt, tt));
  tail = refl;
  ready = λ k h. (let a = (three-ReadyList pr_curr).ready k h in ground arith);
  keys = λ k h. (let a = (three-ReadyList pr_curr).keys k h in ground arith);
}

-- The list 204 with the processes 3, of the given key, and 5, and the list 206 with the process 11.
abbrev pub both_lists : ℤ → QTable
both_lists key k =
    if k == 206
    then record { qkey = max_key; qnext = 11; qprev = empty }
    else if k == 11
    then record { qkey = pos 6; qnext = 207; qprev = 206 }
    else if k == 207
    then record { qkey = min_key; qnext = empty; qprev = 11 }
    else if k == 3
    then record (list 3) { qkey = key }
    else list k

-- The process 9 runs, 11 is ready, and 3 and 5 are in the list 204.
abbrev pub two_more : ℤ → ℕ → ℕ → System
two_more key state sem = record (three pr_curr) {
  proctab = λ k.
      if k == 3
      then record (proc state (pos 7)) { prsem = sem }
      else if k == 5
      then record (proc state (pos 4)) { prsem = sem }
      else if k == 11
      then proc pr_ready (pos 6)
      else if k == 9
      then proc pr_curr (pos 5)
      else proc pr_free (pos 0);
  semtab = λ k. record {
    used = true;
    scount = if k == 52 then negsuc 1 else pos 0;
    squeue = 100 + k + k;
  };
  queuetab = both_lists key;
  readylist = 206;
  sleepq = 204;
}

pub apart : Separate 204 (3 ∷ 5 ∷ []) 206 (11 ∷ [])
apart k h = ground arith
