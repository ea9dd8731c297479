-- ===== src/Process/Ready.antt =====
-- system/ready.c and system/resched.c: the ready list.
use ece564_project.Prelude.{
  ℕ, ◌+◌, ◌≤◌, ◌≡◌, refl, Bool, true, false, arith, ◌==◌, Option, some, none, Bool-cases, inl, inr,
  ◌⊎◌, List, [], ◌∷◌, ◌++◌, length, ◌∙◌, ap,
}
use ece564_project.Prelude.Int.{ℤ, leb_ℤ, ltb_ℤ}
use ece564_project.Queue.Table.{QTable, min_key, insert, dequeue}
use ece564_project.Queue.Chain
use ece564_project.Queue.Laws.{IsQueue, IsNew, good_qid, dequeue-uncons, dequeue_key, rest_of}
use ece564_project.Queue.Frames.{reads}
use ece564_project.Queue.Priority.{Keys, Descending, insert-Inserts, Descending-frame}
use ece564_project.Process.State.{System, pr_curr, pr_ready, is_bad_pid}
use ece564_project.Process.Sched.{rounds, quantum, switch_context, insert_ready}

-- The ready list holds `xs` in descending order, each of them ready, with its priority as its
-- key.
pub record ReadyList (s : System) (xs : List ℕ) : Type 0 where
  pub queue : IsQueue s.queuetab s.readylist xs
  pub descending : Descending s.queuetab xs
  pub tail : (s.queuetab (s.readylist + 1)).qkey ≡ min_key
  pub ready : (k : ℕ) → Chain.has k xs ≡ true → (s.proctab k).prstate ≡ pr_ready
  pub keys : (k : ℕ) → Chain.has k xs ≡ true → (s.queuetab k).qkey ≡ (s.proctab k).prprio

-- The running process is not ready, and no ready process has a higher priority.
pub record Dispatched (s : System) (xs : List ℕ) : Type 0 where
  pub ready_list : ReadyList s xs
  pub current : (s.proctab s.currpid).prstate ≡ pr_curr
  pub not_ready : IsNew s.currpid xs
  pub highest :
      (k : ℕ)
      → Chain.has k xs ≡ true
      → leb_ℤ (s.proctab k).prprio (s.proctab s.currpid).prprio ≡ true

-- The queues other than the ready list are as they were, and so is what names them.
pub record Kept (s s' : System) (xs : List ℕ) : Type 0 where
  pub sleepers : s'.sleepq ≡ s.sleepq
  pub list : s'.readylist ≡ s.readylist
  pub prios : (k : ℕ) → (s'.proctab k).prprio ≡ (s.proctab k).prprio
  pub semaphores : s'.semtab ≡ s.semtab
  pub others : (k : ℕ) → Chain.has k (s.currpid ∷ xs) ≡ false → s'.proctab k ≡ s.proctab k
  pub slice : (s'.preempt ≡ s.preempt) ⊎ (s'.preempt ≡ quantum)
  pub entries :
      (k : ℕ)
      → (k == s.currpid) ≡ false
      → reads s.readylist xs k ≡ false
      → s'.queuetab k ≡ s.queuetab k

-- The first process of the ready list, `x`, runs, and nothing else changed but the ready list.
pub record Switched (s s' : System) (x : ℕ) (xs : List ℕ) : Type 0 where
  pub current : s'.currpid ≡ x
  pub sleepers : s'.sleepq ≡ s.sleepq
  pub semaphores : s'.semtab ≡ s.semtab
  pub others : (k : ℕ) → (k == x) ≡ false → s'.proctab k ≡ s.proctab k
  pub entries : (k : ℕ) → reads s.readylist xs k ≡ false → s'.queuetab k ≡ s.queuetab k

pub Keys-at :
    (test : ℤ → Bool) (t : QTable) (xs : List ℕ) (k : ℕ)
    → Keys test t xs
    → Chain.has k xs ≡ true
    → test (t k).qkey ≡ true
Keys-at test t [] k h e = absurd (ground arith)
Keys-at test t (x ∷ xs) k h e = elim (Bool-cases (k == x)) [
  | inl same ↦ (let s : k ≡ x = ground arith in rw s h.0)
  | inr other ↦ Keys-at test t xs k h.1 (ground arith)
]

-- No ready process has a higher priority than the first.
pub keys-highest :
    (s : System) (x : ℕ) (xs : List ℕ)
    → ReadyList s (x ∷ xs)
    → (k : ℕ) → Chain.has k xs ≡ true
    → leb_ℤ (s.proctab k).prprio (s.proctab x).prprio ≡ true
keys-highest s x xs r k h =
    rw (r.keys k (ground arith), r.keys x (ground arith)) at
      (Keys-at (λ v. leb_ℤ v (s.queuetab x).qkey) s.queuetab xs k r.descending.0 h)

-- The switch to the first process of the ready list.
pub switch-Dispatched :
    (s : System) (x : ℕ) (xs : List ℕ)
    → ReadyList s (x ∷ xs)
    → Dispatched (switch_context s) xs × ((switch_context s).currpid ≡ x)
unfolding switch_context
switch-Dispatched s x xs r =
    let (queue, first) = dequeue-uncons s.queuetab s.readylist (x ∷ xs) r.queue in
    let d = r.queue.distinct in
    let same = dequeue_key s.queuetab s.readylist in
    rw first (
      record {
        ready_list = record {
          queue = queue;
          descending =
              Descending-frame s.queuetab (dequeue s.readylist s.queuetab).0 xs (λ k h. same k)
                r.descending.1;
          tail = same (s.readylist + 1) ∙ r.tail;
          ready = λ k h. (let a = d.0 in let b = r.ready k (ground arith) in ground arith);
          keys = λ k h. same k ∙ (let b = r.keys k (ground arith) in ground arith);
        };
        current = ground arith;
        not_ready = record { pid = r.queue.pids.0; absent = d.0 };
        highest = λ k h. (let e = keys-highest s x xs r k h in ground arith);
      },
      refl,
    )

pub switch_any :
    (s : System) (ys : List ℕ) (p : ℕ) (zs : List ℕ)
    → ReadyList s (ys ++ p ∷ zs)
    → Dispatched (switch_context s) (rest_of (ys ++ p ∷ zs))
      × ((k : ℕ)
          → Chain.has k ((switch_context s).currpid ∷ rest_of (ys ++ p ∷ zs))
            ≡ Chain.has k (ys ++ p ∷ zs))
switch_any s [] p zs r = let (d, e) = switch-Dispatched s p zs r in (d, λ k. rw e refl)
switch_any s (y ∷ ys) p zs r =
    let (d, e) = switch-Dispatched s y (ys ++ p ∷ zs) r in (d, λ k. rw e refl)

pub insert_ready_at :
    (s : System) (p : ℕ) (t : QTable)
    → insert (is_bad_pid s) rounds p s.readylist (s.proctab p).prprio s.queuetab ≡ some (t, true)
    → insert_ready p s ≡ some (record s { queuetab = t })
unfolding insert_ready
insert_ready_at s p t e =
    ap
      (λ (o : Option (QTable × Bool)). elim o as (λ _. Option System) [
        | none ↦ none
        | some r ↦ some (record s { queuetab = r.0 })
      ])
      e

-- A ready process that is not in the ready list is put there.
pub insert_ready-ReadyList :
    (s : System) (p : ℕ) (xs : List ℕ)
    → ReadyList s xs
    → IsNew p xs
    → (s.proctab p).prstate ≡ pr_ready
    → ltb_ℤ min_key (s.proctab p).prprio ≡ true
    → length xs ≤ 100
    → (t : QTable) × (ys : List ℕ) × (zs : List ℕ) × (insert_ready p s
        ≡ some (record s { queuetab = t }))
      × (xs ≡ ys ++ zs)
      × ReadyList (record s { queuetab = t }) (ys ++ p ∷ zs)
      × ((k : ℕ) → (k == p) ≡ false → reads s.readylist xs k ≡ false → t k ≡ s.queuetab k)
      × ((k : ℕ) → (k == p) ≡ false → (t k).qkey ≡ (s.queuetab k).qkey)
insert_ready-ReadyList s p xs r new state prio len =
    let low = new.pid in
    let good = good_qid s.readylist r.queue.good in
    let (t, done, i) =
      insert-Inserts (is_bad_pid s) rounds s.queuetab s.readylist p (s.proctab p).prprio xs r.queue
        r.descending new (ground arith) (rw r.tail (ground arith)) (omega arith) in
    let splits = i.splits in
    let other : (k : ℕ)
        → (k == p) ≡ false
        → Chain.has k (i.front ++ p ∷ i.back) ≡ true
        → Chain.has k xs ≡ true =
      λ k a h. rw splits (
        ground
          (arith, Chain.has-append k i.front i.back, Chain.has-append k i.front (p ∷ i.back))) in
    (
      t,
      i.front,
      i.back,
      insert_ready_at s p t done,
      splits,
      record {
        queue = i.queue;
        descending = i.descending;
        tail = i.key_frame (s.readylist + 1) (ground arith) ∙ r.tail;
        ready = λ k h. elim (Bool-cases (k == p)) [
          | inl e ↦ (let same : k ≡ p = ground arith in rw same state)
          | inr a ↦ r.ready k (other k a h)
        ];
        keys = λ k h. elim (Bool-cases (k == p)) [
          | inl e ↦ (let same : k ≡ p = ground arith in rw same i.key_set)
          | inr a ↦ i.key_frame k a ∙ r.keys k (other k a h)
        ];
      },
      i.frame,
      i.key_frame,
    )

pub has-middle :
    (k p : ℕ) (xs ys zs : List ℕ)
    → xs ≡ ys ++ zs
    → Chain.has k (ys ++ p ∷ zs) ≡ Chain.has k (p ∷ xs)
has-middle k p xs ys zs e =
    rw e (ground (arith, Chain.has-append k ys zs, Chain.has-append k ys (p ∷ zs)))
