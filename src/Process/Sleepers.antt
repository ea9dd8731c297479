-- ===== src/Process/Sleepers.antt =====
-- system/wakeup.c: one process leaves the sleep queue.
use ece564_project.Prelude.{
  ℕ, ◌+◌, ◌≤◌, ◌≡◌, refl, true, false, arith, ltb, ◌==◌, some, Bool-cases, inl, inr, List, [], ◌∷◌,
  ◌++◌, length, ◌∙◌, ap, length-append,
}
use ece564_project.Prelude.Int.{pos, leb_ℤ, ltb_ℤ}
use ece564_project.Queue.Table.{QTable, min_key, dequeue}
use ece564_project.Queue.Chain
use ece564_project.Queue.Laws.{IsQueue, IsNew, dequeue-uncons, dequeue_key, good_qid}
use ece564_project.Queue.Frames.{reads, Separate, IsQueue-frame, dequeue_outside}
use ece564_project.Queue.Priority.{Keys, Descending-frame, Keys-frame}
use ece564_project.Process.State.{System, pr_free, pr_ready, set_state, is_bad_pid}
use ece564_project.Process.Sched.{resched, ready, insert_ready}
use ece564_project.Process.Ready.{ReadyList, insert_ready-ReadyList, has-middle}
use ece564_project.Process.Highest.{set_ready-ReadyList}

-- The first processes of the sleep queue, `due`, have no time left; the ready list holds `ys`.
pub record Sleeping (s : System) (due later ys : List ℕ) : Type 0 where
  pub asleep : IsQueue s.queuetab s.sleepq (due ++ later)
  pub ready_list : ReadyList s ys
  pub separate : Separate s.sleepq (due ++ later) s.readylist ys
  pub no_time : Keys (λ k. leb_ℤ k (pos 0)) s.queuetab due
  pub alive : (k : ℕ) → Chain.has k due ≡ true → ((s.proctab k).prstate == pr_free) ≡ false
  pub above : (k : ℕ) → Chain.has k due ≡ true → ltb_ℤ min_key (s.proctab k).prprio ≡ true

-- The first of the processes `later` has time left.
abbrev pub HasTime : QTable → List ℕ → Type 0
HasTime t [] = Unit {0}
HasTime t (x ∷ xs) = leb_ℤ (t x).qkey (pos 0) ≡ false

-- From `s` to `s'` the processes `gone` went to the ready list, and nothing else changed.
pub record Woken (s s' : System) (gone ys ys' : List ℕ) : Type 0 where
  pub current : s'.currpid ≡ s.currpid
  pub defers : s'.ndefers ≡ s.ndefers
  pub sleepers : s'.sleepq ≡ s.sleepq
  pub list : s'.readylist ≡ s.readylist
  pub slice : s'.preempt ≡ s.preempt
  pub others : (k : ℕ) → Chain.has k gone ≡ false → s'.proctab k ≡ s.proctab k
  pub prios : (k : ℕ) → (s'.proctab k).prprio ≡ (s.proctab k).prprio
  pub keys : (k : ℕ) → Chain.has k gone ≡ false → (s'.queuetab k).qkey ≡ (s.queuetab k).qkey
  pub members : (k : ℕ) → Chain.has k ys' ≡ Chain.has k (gone ++ ys)
  pub count : length ys' ≡ length gone + length ys

pub resched_deferred :
    (s : System) → ltb 0 s.ndefers ≡ true → resched s ≡ some (record s { attempt = true })
unfolding resched
resched_deferred s h = rw h refl

pub ready_deferred :
    (p : ℕ) (s s1 : System)
    → is_bad_pid s p ≡ false
    → insert_ready p (set_state p pr_ready s) ≡ some s1
    → ltb 0 s1.ndefers ≡ true
    → ready p s ≡ some (record s1 { attempt = true }, true)
unfolding ready
ready_deferred p s s1 known placed h = rw (known, placed, resched_deferred s1 h) refl

-- A ready list keeps its processes when only other entries change.
pub ReadyList-frame :
    (s : System) (t : QTable) (ys : List ℕ)
    → ((k : ℕ) → reads s.readylist ys k ≡ true → t k ≡ s.queuetab k)
    → ReadyList s ys
    → ReadyList (record s { queuetab = t }) ys
ReadyList-frame s t ys same r = record {
  queue = IsQueue-frame s.queuetab t s.readylist ys same r.queue;
  descending =
      Descending-frame s.queuetab t ys (λ k h. rw (same k (ground arith)) refl) r.descending;
  tail = rw (same (s.readylist + 1) (ground arith)) r.tail;
  ready = r.ready;
  keys = λ k h. rw (same k (ground arith)) (r.keys k h);
}

pub ReadyList-attempt :
    (s : System) (ys : List ℕ) → ReadyList s ys → ReadyList (record s { attempt = true }) ys
ReadyList-attempt s ys r = record {
  queue = r.queue;
  descending = r.descending;
  tail = r.tail;
  ready = r.ready;
  keys = r.keys;
}

pub reads-rest :
    (q d : ℕ) (due later : List ℕ) (k : ℕ)
    → reads q (due ++ later) k ≡ true
    → reads q (d ∷ (due ++ later)) k ≡ true
reads-rest q d due later k h = ground arith

-- The first of the sleeping processes is dequeued and made ready.
pub wake_one :
    (s : System) (d : ℕ) (due later ys : List ℕ)
    → Sleeping s (d ∷ due) later ys
    → ltb 0 s.ndefers ≡ true
    → length ys ≤ 100
    → (s' : System) × (ys' : List ℕ) × (ready d
          (record s { queuetab = (dequeue s.sleepq s.queuetab).0 })
        ≡ some (s', true))
      × Sleeping s' due later ys'
      × Woken s s' (d ∷ []) ys ys'
      × (s'.attempt ≡ true)
wake_one s d due later ys w h len =
    let xs : List ℕ = due ++ later in
    let (queue, _) = dequeue-uncons s.queuetab s.sleepq (d ∷ xs) w.asleep in
    let t0 : QTable = (dequeue s.sleepq s.queuetab).0 in
    let outside = dequeue_outside s.queuetab s.sleepq d xs in
    let apart = w.separate in
    let low = w.asleep.pids.0 in
    let good = good_qid s.sleepq w.asleep.good in
    let good' = good_qid s.readylist w.ready_list.queue.good in
    let s0 : System = record s { queuetab = t0 } in
    let flipped : (k : ℕ) → reads s.readylist ys k ≡ true → reads s.sleepq (d ∷ xs) k ≡ false =
      λ k r. elim (Bool-cases (reads s.sleepq (d ∷ xs) k)) [
        | inr n ↦ n
        | inl e ↦ (let a = apart k e in ground arith)
      ] in
    let r0 : ReadyList s0 ys =
      ReadyList-frame s t0 ys (λ k r. outside k w.asleep (flipped k r)) w.ready_list in
    let new : IsNew d ys = record {
      pid = low;
      absent = (let a = apart d (ground arith) in ground arith);
    } in
    let s1 : System = set_state d pr_ready s0 in
    let (t, front, back, placed, splits, r1, frame, keep) =
      insert_ready-ReadyList s1 d ys (set_ready-ReadyList s0 d ys r0) new (ground arith)
        (let a = w.above d (ground arith) in ground arith) len in
    let absent : Chain.has d xs ≡ false = w.asleep.distinct.0 in
    let small : ltb d 100 ≡ true = ground arith in
    let other : (k : ℕ) → reads s.sleepq xs k ≡ true → (k == d) ≡ false = λ k r.
      elim (Bool-cases (k == d)) [
        | inr n ↦ n
        | inl e ↦ (let same : k ≡ d = ground arith in let z = rw same at r in absurd (ground arith))
      ] in
    let free : (k : ℕ) → reads s.sleepq xs k ≡ true → reads s.readylist ys k ≡ false =
      λ k r. apart k (reads-rest s.sleepq d due later k r) in
    let key : (k : ℕ) → (k == d) ≡ false → (t k).qkey ≡ (s.queuetab k).qkey =
      λ k n. keep k n ∙ dequeue_key s.queuetab s.sleepq k in
    let members = λ (k : ℕ). has-middle k d ys front back splits in
    let known : is_bad_pid s0 d ≡ false = (let a = w.alive d (ground arith) in ground arith) in
    (
      record s1 { queuetab = t; attempt = true },
      front ++ d ∷ back,
      ready_deferred d s0 (record s1 { queuetab = t }) known placed h,
      record {
        asleep = IsQueue-frame t0 t s.sleepq xs (λ k r. frame k (other k r) (free k r)) queue;
        ready_list = ReadyList-attempt (record s1 { queuetab = t }) (front ++ d ∷ back) r1;
        separate =
            λ k r. (let a = free k r in let b = other k r in let c = members k in ground arith);
        no_time =
            Keys-frame (λ k. leb_ℤ k (pos 0)) s.queuetab t due
              (λ k r. key k (other k (ground (arith, Chain.has-append k due later)))) w.no_time.1;
        alive = λ k r. (let a = w.alive k (ground arith) in ground arith);
        above = λ k r. (let a = w.above k (ground arith) in ground arith);
      },
      record {
        current = refl;
        defers = refl;
        sleepers = refl;
        list = refl;
        slice = refl;
        others = λ k r. ground arith;
        prios = λ k. ground arith;
        keys = λ k r. key k (ground arith);
        members = members;
        count =
            (let e = ap length splits in
              omega (arith, length-append front back, length-append front (d ∷ back)));
      },
      refl,
    )
