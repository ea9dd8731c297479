-- ===== src/Process/Asleep.antt =====
-- system/sleep.c: the running process enters the sleep queue, and the next one runs.
use ece564_project.Prelude.{
  ℕ, ◌≤◌, ◌≡◌, Bool, true, false, ◌||◌, arith, ◌==◌, if◌then◌else◌, Option, some, none, Bool-cases,
  inl, inr, List, ◌∷◌, length, ◌∙◌, ap,
}
use ece564_project.Prelude.Int.{ℤ, pos, leb_ℤ, ltb_ℤ}
use ece564_project.Queue.Table.{QTable, insertd}
use ece564_project.Queue.Chain
use ece564_project.Queue.Laws.{IsQueue, IsNew, good_qid}
use ece564_project.Queue.Frames.{reads, Separate}
use ece564_project.Queue.Priority.{Keys}
use ece564_project.Queue.Wakes.{not_negative}
use ece564_project.Queue.Delta.{Delays, Delays-frame, insertd-Delays}
use ece564_project.Process.State.{System, Procent, pr_curr, pr_sleep, set_state, is_bad_pid}
use ece564_project.Process.Sched.{rounds, resched}
use ece564_project.Process.Timers.{fall_asleep, sleepms}
use ece564_project.Process.Ready.{ReadyList, Dispatched}
use ece564_project.Process.Highest.{resched-gives_up}
use ece564_project.Process.Sleepers.{ReadyList-frame}

sleepms_at :
    (delay : ℤ) (s s' : System) (t : QTable)
    → ltb_ℤ (pos 0) delay ≡ true
    → insertd (is_bad_pid s) rounds s.currpid s.sleepq delay s.queuetab ≡ some (t, true)
    → fall_asleep (record s { queuetab = t }) ≡ some (s', true)
    → sleepms delay s ≡ some (s', true)
unfolding sleepms
sleepms_at delay s s' t h e run =
    let low : ltb_ℤ delay (pos 0) ≡ false = ground arith in
    let some_time : leb_ℤ delay (pos 0) ≡ false = ground arith in
    rw (low, some_time)
      (ap
          (λ (o : Option (QTable × Bool)). elim o as (λ _. Option (System × Bool)) [
            | none ↦ none
            | some (queue, done) ↦
                if done
                then fall_asleep (record s { queuetab = queue })
                else some (record s { queuetab = queue }, false)
          ])
          e
        ∙ run)

fall_asleep_at :
    (s s' : System)
    → resched (set_state s.currpid pr_sleep s) ≡ some s'
    → fall_asleep s ≡ some (s', true)
unfolding fall_asleep
fall_asleep_at s s' e =
    ap
      (λ (o : Option System). elim o as (λ _. Option (System × Bool)) [
        | none ↦ none
        | some s2 ↦ some (s2, true)
      ])
      e

-- A ready list and the state of a process that is not in it.
set_sleep-ReadyList :
    (s : System) (p : ℕ) (xs : List ℕ)
    → Chain.has p xs ≡ false
    → ReadyList s xs
    → ReadyList (set_state p pr_sleep s) xs
set_sleep-ReadyList s p xs out r =
    let apart : (k : ℕ) → Chain.has k xs ≡ true → (k == p) ≡ false = λ k h.
      elim (Bool-cases (k == p)) [
        | inr n ↦ n
        | inl e ↦ (let same : k ≡ p = ground arith in let z = rw same at h in absurd (ground arith))
      ] in
    record {
      queue = r.queue;
      descending = r.descending;
      tail = r.tail;
      ready = λ k h. (let a = r.ready k h in let b = apart k h in ground arith);
      keys = λ k h. (let a = r.keys k h in ground arith);
    }

-- sleepms for some time, of the running process, without deferral, while another process is ready
-- and the sleep queue is a delta list with at most 100 processes and apart from the ready list: it
-- is OK; the caller's state is PR_SLEEP and it is due `delay` from now, behind those that are due
-- by then, all other wake times are as they were, the first ready process runs, and the entries of
-- all other processes do not change.
pub sleepms-Delays :
    (s : System) (delay : ℤ) (xs : List ℕ) (x : ℕ) (ys : List ℕ)
    → ltb_ℤ (pos 0) delay ≡ true
    → IsQueue s.queuetab s.sleepq xs
    → Keys not_negative s.queuetab xs
    → ReadyList s (x ∷ ys)
    → Separate s.sleepq xs s.readylist (x ∷ ys)
    → IsNew s.currpid xs
    → Chain.has s.currpid (x ∷ ys) ≡ false
    → (s.proctab s.currpid).prstate ≡ pr_curr
    → s.ndefers ≡ 0
    → length xs ≤ 100
    → (s' : System) × (sleepms delay s ≡ some (s', true))
      × Delays s.queuetab s'.queuetab s'.sleepq s.currpid delay xs
      × Dispatched s' ys
      × (s'.currpid ≡ x)
      × ((s'.proctab s.currpid).prstate ≡ pr_sleep)
      × ((k : ℕ) → (k == s.currpid) ≡ false → (k == x) ≡ false → s'.proctab k ≡ s.proctab k)
sleepms-Delays s delay xs x ys some_time queue nonneg r apart new out current defers len =
    let p : ℕ = s.currpid in
    let small = new.pid in
    let known : is_bad_pid s p ≡ false = ground arith in
    let (t, placed, delays, frame) =
      insertd-Delays (is_bad_pid s) rounds s.queuetab s.sleepq p delay xs queue nonneg new known
        (omega arith) in
    let good = good_qid s.sleepq queue.good in
    let good' = good_qid s.readylist r.queue.good in
    let outside : (k : ℕ) → reads s.readylist (x ∷ ys) k ≡ true → reads s.sleepq xs k ≡ false =
      λ k h. elim (Bool-cases (reads s.sleepq xs k)) [
        | inr n ↦ n
        | inl e ↦ (let a = apart k e in absurd (ground arith))
      ] in
    let other : (k : ℕ) → reads s.readylist (x ∷ ys) k ≡ true → (k == p) ≡ false = λ k h.
      elim (Bool-cases (k == p)) [
        | inr n ↦ n
        | inl e ↦ (let same : k ≡ p = ground arith in let z = rw same at h in absurd (ground arith))
      ] in
    let s1 : System = record s { queuetab = t } in
    let r1 = ReadyList-frame s t (x ∷ ys) (λ k h. frame k (other k h) (outside k h)) r in
    let s2 : System = set_state p pr_sleep s1 in
    let r2 = set_sleep-ReadyList s1 p (x ∷ ys) out r1 in
    let (s', done, dispatched, k) = resched-gives_up s2 x ys r2 (ground arith) defers in
    let caller : (s'.proctab p).prstate ≡ pr_sleep =
      ap (λ (e : Procent). e.prstate) (k.others p (ground arith)) ∙ ground arith in
    let clear : reads s.readylist (x ∷ ys) p ≡ false = ground arith in
    let away : (k : ℕ)
        → ((k == p) || reads s.sleepq xs k) ≡ true
        → reads s.readylist (x ∷ ys) k ≡ false =
      λ k h. elim (Bool-cases (k == p)) [
        | inl e ↦ (let z : k ≡ p = ground arith in ap (reads s.readylist (x ∷ ys)) z ∙ clear)
        | inr n ↦ apart k (ground arith)
      ] in
    (
      s',
      sleepms_at delay s s' t some_time placed (fall_asleep_at s1 s' done),
      rw k.sleepers (
          Delays-frame s.queuetab t s'.queuetab s.sleepq p delay xs (λ i h. k.entries i (away i h))
            delays),
      dispatched,
      k.current,
      caller,
      λ i h g. k.others i g ∙ ground arith,
    )
