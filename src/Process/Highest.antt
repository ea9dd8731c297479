-- ===== src/Process/Highest.antt =====
-- system/resched.c: the process that runs after resched, and the ready list.
use ece564_project.Prelude.{
  ℕ, ◌+◌, ◌≤◌, ◌≡◌, refl, true, false, arith, ltb, ◌==◌, some, Bool-cases, inl, inr, List, [], ◌∷◌,
  ◌++◌, length, ◌∙◌, ap,
}
use ece564_project.Prelude.Int.{leb_ℤ, ltb_ℤ}
use ece564_project.Queue.Table.{min_key, firstkey}
use ece564_project.Queue.Chain
use ece564_project.Queue.Laws.{IsQueue, IsNew, rest_of}
use ece564_project.Queue.Frames.{reads, dequeue_kept}
use ece564_project.Process.State.{System, pr_curr, pr_ready, set_state}
use ece564_project.Process.Sched.{switch_context, resched}
use ece564_project.Process.Ready.{
  keys-highest, switch-Dispatched, switch_any, insert_ready-ReadyList, has-middle, ReadyList,
  Dispatched, Kept, Switched,
}

pub set_ready-ReadyList :
    (s : System) (p : ℕ) (xs : List ℕ) → ReadyList s xs → ReadyList (set_state p pr_ready s) xs
set_ready-ReadyList s p xs r = record {
  queue = r.queue;
  descending = r.descending;
  tail = r.tail;
  ready = λ k h. (let a = r.ready k h in ground arith);
  keys = λ k h. (let a = r.keys k h in ground arith);
}

switch_others :
    (s : System) (k : ℕ)
    → (k == (switch_context s).currpid) ≡ false
    → (switch_context s).proctab k ≡ s.proctab k
unfolding switch_context
switch_others s k h = ground arith

switch-Switched :
    (s : System) (x : ℕ) (xs : List ℕ)
    → IsQueue s.queuetab s.readylist xs
    → (switch_context s).currpid ≡ x
    → Switched s (switch_context s) x xs
unfolding switch_context
switch-Switched s x xs is now = record {
  current = now;
  sleepers = refl;
  semaphores = refl;
  others = λ k h. switch_others s k (rw now h);
  entries = λ k h. dequeue_kept s.queuetab s.readylist xs k is h;
}

switch-Kept :
    (s s2 : System) (xs zs : List ℕ)
    → s2.sleepq ≡ s.sleepq
    → s2.readylist ≡ s.readylist
    → s2.semtab ≡ s.semtab
    → ((k : ℕ) → Chain.has k (s.currpid ∷ xs) ≡ false → (switch_context s2).proctab k ≡ s.proctab k)
    → ((k : ℕ) → (s2.proctab k).prprio ≡ (s.proctab k).prprio)
    → IsQueue s2.queuetab s2.readylist zs
    → ((k : ℕ)
        → (k == s.currpid) ≡ false
        → reads s.readylist xs k ≡ false
        → s2.queuetab k ≡ s.queuetab k)
    → ((k : ℕ) → Chain.has k (s.currpid ∷ xs) ≡ false → Chain.has k zs ≡ false)
    → Kept s (switch_context s2) xs
unfolding switch_context
switch-Kept s s2 xs zs sleepers list semaphores others prios queue frame inside = record {
  sleepers = sleepers;
  list = list;
  prios = λ k. (let a = prios k in ground arith);
  semaphores = semaphores;
  others = others;
  slice = inr refl;
  entries = λ k h o.
      dequeue_kept s2.queuetab s2.readylist zs k queue
        (rw list (let a = inside k (ground arith) in ground arith))
      ∙ frame k h o;
}

-- The current process goes back to the ready list, and the first of the list runs.
resched-preempts :
    (s : System) (xs : List ℕ)
    → ReadyList s xs
    → (s.proctab s.currpid).prstate ≡ pr_curr
    → IsNew s.currpid xs
    → s.ndefers ≡ 0
    → ltb_ℤ min_key (s.proctab s.currpid).prprio ≡ true
    → ltb_ℤ (firstkey s.queuetab s.readylist) (s.proctab s.currpid).prprio ≡ false
    → length xs ≤ 100
    → (s' : System) × (ys : List ℕ) × (resched s ≡ some s')
      × Dispatched s' ys
      × ((k : ℕ) → Chain.has k (s'.currpid ∷ ys) ≡ Chain.has k (s.currpid ∷ xs))
      × Kept s s' xs
unfolding resched
resched-preempts s xs r current new defers prio low len =
    let s1 : System = set_state s.currpid pr_ready s in
    let (t, ys, zs, done, splits, r1, frame, _) =
      insert_ready-ReadyList s1 s.currpid xs (set_ready-ReadyList s s.currpid xs r) new
        (ground arith) (ground arith) len in
    let s2 : System = record s1 { queuetab = t } in
    let no_defer : ltb 0 s.ndefers ≡ false = ground arith in
    let is_curr : ((s.proctab s.currpid).prstate == pr_curr) ≡ true = ground arith in
    let switched = switch_any s2 ys s.currpid zs r1 in
    (
      switch_context s2,
      rest_of (ys ++ s.currpid ∷ zs),
      rw (no_defer, is_curr, low, done) refl,
      switched.0,
      λ k. switched.1 k ∙ has-middle k s.currpid xs ys zs splits,
      switch-Kept s s2 xs (ys ++ s.currpid ∷ zs) refl refl refl
          (λ k h.
            let m = switched.1 k ∙ has-middle k s.currpid xs ys zs splits ∙ h in
            switch_others s2 k (ground arith) ∙ ground arith)
          (λ k. ground arith) r1.queue frame (λ k h. has-middle k s.currpid xs ys zs splits ∙ h),
    )

-- A current process above the first key stays.
stays-highest :
    (s : System) (xs : List ℕ)
    → ReadyList s xs
    → ltb_ℤ (firstkey s.queuetab s.readylist) (s.proctab s.currpid).prprio ≡ true
    → (k : ℕ) → Chain.has k xs ≡ true
    → leb_ℤ (s.proctab k).prprio (s.proctab s.currpid).prprio ≡ true
stays-highest s [] r above k h = absurd (ground arith)
stays-highest s (x ∷ xs) r above k h =
    let next = Chain.Chain-next s.queuetab s.readylist (x ∷ xs) (s.readylist + 1) r.queue.chain in
    let key : firstkey s.queuetab s.readylist ≡ (s.proctab x).prprio =
      ap (λ n. (s.queuetab n).qkey) next ∙ r.keys x (ground arith) in
    let first : ltb_ℤ (s.proctab x).prprio (s.proctab s.currpid).prprio ≡ true = rw key at above in
    elim (Bool-cases (k == x)) [
      | inl e ↦ (let same : k ≡ x = ground arith in rw same (ground arith))
      | inr other ↦ (let b = keys-highest s x xs r k (ground arith) in ground arith)
    ]

-- resched without deferral, called by an eligible process whose priority is above MINKEY, while
-- the ready list is in order and holds at most 100 processes: it ends, the process that runs then
-- has the highest priority of all that are eligible, the ready list is in order and holds all the
-- others, and each of those is ready. The entries of other queues do not change, and no priority.
pub resched-Dispatched :
    (s : System) (xs : List ℕ)
    → ReadyList s xs
    → (s.proctab s.currpid).prstate ≡ pr_curr
    → IsNew s.currpid xs
    → s.ndefers ≡ 0
    → ltb_ℤ min_key (s.proctab s.currpid).prprio ≡ true
    → length xs ≤ 100
    → (s' : System) × (ys : List ℕ) × (resched s ≡ some s')
      × Dispatched s' ys
      × ((k : ℕ) → Chain.has k (s'.currpid ∷ ys) ≡ Chain.has k (s.currpid ∷ xs))
      × Kept s s' xs
unfolding resched
resched-Dispatched s xs r current new defers prio len =
    elim (Bool-cases (ltb_ℤ (firstkey s.queuetab s.readylist) (s.proctab s.currpid).prprio)) [
      | inr low ↦ resched-preempts s xs r current new defers prio low len
      | inl above ↦
          let no_defer : ltb 0 s.ndefers ≡ false = ground arith in
          let is_curr : ((s.proctab s.currpid).prstate == pr_curr) ≡ true = ground arith in
          (
            s,
            xs,
            rw (no_defer, is_curr, above) refl,
            record {
              ready_list = r;
              current = current;
              not_ready = new;
              highest = stays-highest s xs r above;
            },
            λ k. refl,
            record {
              sleepers = refl;
              list = refl;
              prios = λ k. refl;
              semaphores = refl;
              others = λ k h. refl;
              slice = inl refl;
              entries = λ k h o. refl;
            },
          )
    ]

-- resched without deferral, called by a process that is no longer eligible, while the ready list
-- is in order and holds a process: the first of the list runs, it has the highest priority of
-- the list, and the list holds the rest in order. The entries of other queues do not change.
pub resched-gives_up :
    (s : System) (x : ℕ) (xs : List ℕ)
    → ReadyList s (x ∷ xs)
    → ((s.proctab s.currpid).prstate == pr_curr) ≡ false
    → s.ndefers ≡ 0
    → (s' : System) × (resched s ≡ some s') × Dispatched s' xs × Switched s s' x (x ∷ xs)
unfolding resched
resched-gives_up s x xs r blocked defers =
    let no_defer : ltb 0 s.ndefers ≡ false = ground arith in
    let (d, e) = switch-Dispatched s x xs r in
    (switch_context s, rw (no_defer, blocked) refl, d, switch-Switched s x (x ∷ xs) r.queue e)
