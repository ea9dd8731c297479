-- ===== src/Process/Lines.antt =====
-- system/wait.c and system/signal.c: the processes that wait on a semaphore.
use ece564_project.Prelude.{
  ℕ, ◌≡◌, refl, Bool, true, false, arith, ◌==◌, if◌then◌else◌, Option, some, none, Bool-cases, inl,
  inr, List, [], ◌∷◌, ◌++◌, length, ◌∙◌, ap,
}
use ece564_project.Prelude.Int.{pos, neg_part, ltb_ℤ, -ℤ_parts}
use ece564_project.Queue.Table.{QTable, enqueue}
use ece564_project.Queue.Chain
use ece564_project.Queue.Laws.{IsQueue, IsNew, good_qid, enqueue-snoc}
use ece564_project.Queue.Frames.{reads, Separate, IsQueue-frame}
use ece564_project.Process.State.{System, Procent, pr_curr, pr_wait, update_proc, is_bad_pid}
use ece564_project.Process.Sched.{resched}
use ece564_project.Process.Semaphores.{wait, block, count_up, count_down}
use ece564_project.Process.Counts.{accepted, wait-accepted}
use ece564_project.Process.Ready.{ReadyList, Dispatched}
use ece564_project.Process.Highest.{resched-gives_up}
use ece564_project.Process.Sleepers.{ReadyList-frame}

-- The processes `xs` stand in the queue of the semaphore `sem`, first to last, and wait.
pub record Queued (s : System) (sem : ℕ) (xs : List ℕ) : Type 0 where
  pub queue : IsQueue s.queuetab (s.semtab sem).squeue xs
  pub states : (k : ℕ) → Chain.has k xs ≡ true → (s.proctab k).prstate ≡ pr_wait
  pub sems : (k : ℕ) → Chain.has k xs ≡ true → (s.proctab k).prsem ≡ sem

-- The count of the semaphore says how many they are.
pub record Waiting (s : System) (sem : ℕ) (xs : List ℕ) : Type 0 where
  pub line : Queued s sem xs
  pub count : length xs ≡ neg_part (s.semtab sem).scount

pub count_down_queue :
    (sem : ℕ) (s : System) → ((count_down sem s).semtab sem).squeue ≡ (s.semtab sem).squeue
count_down_queue sem s = ground arith

pub count_up_queue :
    (sem : ℕ) (s : System) → ((count_up sem s).semtab sem).squeue ≡ (s.semtab sem).squeue
count_up_queue sem s = ground arith

-- The caller of wait, about to give up the processor.
abbrev pub waiting : ℕ → System → System
waiting sem s = update_proc s.currpid (λ e. record e { prstate = pr_wait; prsem = sem }) s

pub block_at :
    (sem : ℕ) (s s' : System)
    → resched (record (waiting sem s) {
      queuetab =
          (enqueue (is_bad_pid (waiting sem s)) s.currpid (s.semtab sem).squeue s.queuetab).0;
    })
      ≡ some s'
    → block sem s ≡ some (s', true)
unfolding block
block_at sem s s' e =
    ap
      (λ (o : Option System). elim o as (λ _. Option (System × Bool)) [
        | none ↦ none
        | some r ↦ some (r, true)
      ])
      e

pub waiting-ReadyList :
    (s : System) (sem : ℕ) (xs : List ℕ)
    → Chain.has s.currpid xs ≡ false
    → ReadyList s xs
    → ReadyList (waiting sem s) xs
waiting-ReadyList s sem xs out r =
    let apart : (k : ℕ) → Chain.has k xs ≡ true → (k == s.currpid) ≡ false = λ k h.
      elim (Bool-cases (k == s.currpid)) [
        | inr n ↦ n
        | inl e ↦
            (let z : k ≡ s.currpid = ground arith in let y = rw z at h in absurd (ground arith))
      ] in
    record {
      queue = r.queue;
      descending = r.descending;
      tail = r.tail;
      ready = λ k h. (let a = r.ready k h in let b = apart k h in ground arith);
      keys = λ k h. (let a = r.keys k h in ground arith);
    }

pub wait_blocks :
    (sem : ℕ) (s : System)
    → accepted sem s ≡ true
    → ltb_ℤ (pos 0) (s.semtab sem).scount ≡ false
    → wait sem s ≡ block sem (count_down sem s)
wait_blocks sem s a p =
    let below : ltb_ℤ ((count_down sem s).semtab sem).scount (pos 0) ≡ true =
      ground (arith, -ℤ_parts (s.semtab sem).scount (pos 1)) in
    wait-accepted sem s a
    ∙ ap (λ (b : Bool). if b then block sem (count_down sem s) else some (count_down sem s, true))
        below

-- Queues apart from each other read no entry in common, in either order.
pub flip-Separate :
    (q : ℕ) (xs : List ℕ) (r : ℕ) (ys : List ℕ) → Separate q xs r ys → Separate r ys q xs
flip-Separate q xs r ys apart k h = elim (Bool-cases (reads q xs k)) [
  | inr n ↦ n
  | inl e ↦ (let a = apart k e in absurd (ground arith))
]

-- A pid that is not in the list of a queue is none of its entries.
pub not_read :
    (q p : ℕ) (xs : List ℕ) (t : QTable) → IsQueue t q xs → IsNew p xs → reads q xs p ≡ false
not_read q p xs t is new =
    let g = good_qid q is.good in let a = new.pid in let b = new.absent in ground arith

-- The processes that wait in `s2` wait in `s'` too, when their entries are kept.
pub Queued-kept :
    (s2 s' : System) (sem : ℕ) (xs : List ℕ)
    → s'.semtab ≡ s2.semtab
    → IsQueue s2.queuetab (s2.semtab sem).squeue xs
    → ((i : ℕ) → reads (s2.semtab sem).squeue xs i ≡ true → s'.queuetab i ≡ s2.queuetab i)
    → ((i : ℕ) → Chain.has i xs ≡ true → s'.proctab i ≡ s2.proctab i)
    → ((i : ℕ)
        → Chain.has i xs ≡ true
        → ((s2.proctab i).prstate ≡ pr_wait) × ((s2.proctab i).prsem ≡ sem))
    → Queued s' sem xs
Queued-kept s2 s' sem xs sems queue kept procs asleep = record {
  queue = rw sems (IsQueue-frame s2.queuetab s'.queuetab (s2.semtab sem).squeue xs kept queue);
  states = λ i h. ap (λ (e : Procent). e.prstate) (procs i h) ∙ (asleep i h).0;
  sems = λ i h. ap (λ (e : Procent). e.prsem) (procs i h) ∙ (asleep i h).1;
}

-- The running process enters the queue of the semaphore, and the first ready one runs.
pub block-Queued :
    (sem : ℕ) (s : System) (xs : List ℕ) (x : ℕ) (ys : List ℕ)
    → Queued s sem xs
    → ReadyList s (x ∷ ys)
    → Separate (s.semtab sem).squeue xs s.readylist (x ∷ ys)
    → IsNew s.currpid xs
    → Chain.has s.currpid (x ∷ ys) ≡ false
    → (s.proctab s.currpid).prstate ≡ pr_curr
    → s.ndefers ≡ 0
    → (s' : System) × (block sem s ≡ some (s', true))
      × Queued s' sem (xs ++ s.currpid ∷ [])
      × (s'.semtab ≡ s.semtab)
      × Dispatched s' ys
      × (s'.currpid ≡ x)
block-Queued sem s xs x ys w r apart new out current defers =
    let c : ℕ = s.currpid in
    let q : ℕ = (s.semtab sem).squeue in
    let s1 : System = waiting sem s in
    let small = new.pid in
    let known : is_bad_pid s1 c ≡ false = ground arith in
    let (queue, _, frame) = enqueue-snoc (is_bad_pid s1) s.queuetab q c xs w.queue new known in
    let t : QTable = (enqueue (is_bad_pid s1) c q s.queuetab).0 in
    let r1 = waiting-ReadyList s sem (x ∷ ys) out r in
    let clear =
      not_read s.readylist c (x ∷ ys) s.queuetab r.queue (record { pid = new.pid; absent = out }) in
    let other : (k : ℕ) → reads s.readylist (x ∷ ys) k ≡ true → (k == c) ≡ false = λ k h.
      elim (Bool-cases (k == c)) [
        | inr n ↦ n
        | inl e ↦
            let z : k ≡ c = ground arith in
            let y = ap (reads s.readylist (x ∷ ys)) z in absurd (ground arith)
      ] in
    let r2 =
      ReadyList-frame s1 t (x ∷ ys)
        (λ k h. frame k (
          let z = other k h in
          let v = flip-Separate q xs s.readylist (x ∷ ys) apart k h in ground arith))
        r1 in
    let s2 : System = record s1 { queuetab = t } in
    let (s', done, dispatched, k) = resched-gives_up s2 x ys r2 (ground arith) defers in
    let kept : (i : ℕ) → reads q (xs ++ c ∷ []) i ≡ true → s'.queuetab i ≡ t i = λ i h.
      k.entries i (elim (Bool-cases (i == c)) [
        | inl e ↦ (let z : i ≡ c = ground arith in ap (reads s.readylist (x ∷ ys)) z ∙ clear)
        | inr n ↦ apart i (ground (arith, Chain.has-append i xs (c ∷ [])))
      ]) in
    let not_first : (i : ℕ) → Chain.has i (xs ++ c ∷ []) ≡ true → (i == x) ≡ false = λ i h.
      elim (Bool-cases (i == x)) [
        | inr n ↦ n
        | inl e ↦
            let z : i ≡ x = ground arith in
            let y = rw z at h in
            let v = flip-Separate q xs s.readylist (x ∷ ys) apart x (ground arith) in
            absurd (ground (arith, Chain.has-append x xs (c ∷ [])))
      ] in
    let asleep : (i : ℕ)
        → Chain.has i (xs ++ c ∷ []) ≡ true
        → ((s2.proctab i).prstate ≡ pr_wait) × ((s2.proctab i).prsem ≡ sem) =
      λ i h. elim (Bool-cases (i == c)) [
        | inl e ↦ rw e (refl, refl)
        | inr n ↦
            let old : Chain.has i xs ≡ true = ground (arith, Chain.has-append i xs (c ∷ [])) in
            rw n (w.states i old, w.sems i old)
      ] in
    (
      s',
      block_at sem s s' done,
      Queued-kept s2 s' sem (xs ++ c ∷ []) k.semaphores queue kept
          (λ i h. k.others i (not_first i h)) asleep,
      k.semaphores,
      dispatched,
      k.current,
    )
