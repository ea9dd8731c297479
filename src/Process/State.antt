-- ===== src/Process/State.antt =====
-- include/process.h, include/semaphore.h and include/resched.h: the tables and variables of the
-- scheduler. The stack, name, parent and devices of a process are left out: no function here
-- reads them. A prstate is its number in process.h, and NPROC is 100 (config/conf.h).
use ece564_project.Prelude.{ℕ, Bool, ◌||◌, leb, ◌==◌, if◌then◌else◌, Option, some, none}
use ece564_project.Prelude.Int.{ℤ}
use ece564_project.Queue.Table.{QTable, nproc, nsem, empty}

abbrev pub pr_free : ℕ
pr_free = 0

abbrev pub pr_curr : ℕ
pr_curr = 1

abbrev pub pr_ready : ℕ
pr_ready = 2

abbrev pub pr_recv : ℕ
pr_recv = 3

abbrev pub pr_sleep : ℕ
pr_sleep = 4

abbrev pub pr_susp : ℕ
pr_susp = 5

abbrev pub pr_wait : ℕ
pr_wait = 6

abbrev pub pr_rectim : ℕ
pr_rectim = 7

abbrev pub nullproc : ℕ
nullproc = 0

-- struct procent
pub record Procent : Type 0 where
  pub prstate : ℕ
  pub prprio : ℤ
  pub prsem : ℕ
  pub prmsg : ℕ
  pub prhasmsg : Bool
  pub page_addr : ℕ

-- struct sentry; `used` is true for S_USED.
pub record Sentry : Type 0 where
  pub used : Bool
  pub scount : ℤ
  pub squeue : ℕ

pub record System : Type 0 where
  pub proctab : ℕ → Procent
  pub semtab : ℕ → Sentry
  pub queuetab : QTable
  pub currpid : ℕ
  pub readylist : ℕ
  pub sleepq : ℕ
  pub ndefers : ℕ
  pub attempt : Bool
  pub preempt : ℕ
  pub cr3 : ℕ
  pub nextsem : ℕ

abbrev pub update_proc : ℕ → (Procent → Procent) → System → System
update_proc p f s = record s { proctab = λ k. if k == p then f (s.proctab k) else s.proctab k }

abbrev pub set_state : ℕ → ℕ → System → System
set_state p v s = update_proc p (λ e. record e { prstate = v }) s

abbrev pub update_sem : ℕ → (Sentry → Sentry) → System → System
update_sem i f s = record s { semtab = λ k. if k == i then f (s.semtab k) else s.semtab k }

abbrev pub is_bad_pid : System → ℕ → Bool
is_bad_pid s p = leb nproc p || ((s.proctab p).prstate == pr_free)

abbrev pub is_bad_sem : ℕ → Bool
is_bad_sem i = leb nsem i

-- A pid that a queue function returns: SYSERR and EMPTY are both -1.
abbrev pub as_pid : Option ℕ → ℕ
as_pid none = empty
as_pid (some p) = p
