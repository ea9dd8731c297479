-- ===== src/Process/Waiting.antt =====
-- system/wait.c and system/signal.c: a semaphore with waiting processes. A count below 0 is the
-- number of the processes that wait, and they wait in the order in which they came.
use ece564_project.Prelude.{
  ℕ, ◌≤◌, ◌≡◌, Bool, true, false, arith, ◌==◌, if◌then◌else◌, Option, some, none, Bool-cases, inl,
  inr, List, [], ◌∷◌, ◌++◌, length, length-append, ◌∙◌, ap, sym,
}
use ece564_project.Prelude.Int.{pos, ltb_ℤ, ◌+ℤ◌, ◌-ℤ◌, +ℤ_parts, -ℤ_parts}
use ece564_project.Queue.Table.{QTable, dequeue, min_key}
use ece564_project.Queue.Chain
use ece564_project.Queue.Laws.{IsNew, good_qid, dequeue-uncons}
use ece564_project.Queue.Frames.{reads, Separate, dequeue_outside}
use ece564_project.Process.State.{System, Sentry, pr_curr, is_bad_pid, is_bad_sem, as_pid}
use ece564_project.Process.Sched.{ready}
use ece564_project.Process.Semaphores.{wait, signal, release_one, count_up, count_down}
use ece564_project.Process.Counts.{accepted}
use ece564_project.Process.Ready.{ReadyList, Dispatched}
use ece564_project.Process.Resume.{ready-Dispatched}
use ece564_project.Process.Sleepers.{ReadyList-frame}
use ece564_project.Process.Lines.{
  count_down_queue, count_up_queue, wait_blocks, flip-Separate, Queued-kept, block-Queued, Waiting,
}

-- wait on a semaphore in use without a positive count, by the running process, without deferral,
-- while another process is ready: it is OK; the count is one less, the caller is the last of the
-- processes that wait, whose number is the count below 0, and the first ready process runs.
pub wait-Waiting :
    (sem : ℕ) (s : System) (xs : List ℕ) (x : ℕ) (ys : List ℕ)
    → accepted sem s ≡ true
    → ltb_ℤ (pos 0) (s.semtab sem).scount ≡ false
    → Waiting s sem xs
    → ReadyList s (x ∷ ys)
    → Separate (s.semtab sem).squeue xs s.readylist (x ∷ ys)
    → IsNew s.currpid xs
    → Chain.has s.currpid (x ∷ ys) ≡ false
    → (s.proctab s.currpid).prstate ≡ pr_curr
    → s.ndefers ≡ 0
    → (s' : System) × (wait sem s ≡ some (s', true))
      × Waiting s' sem (xs ++ s.currpid ∷ [])
      × ((s'.semtab sem).scount ≡ (s.semtab sem).scount -ℤ pos 1)
      × Dispatched s' ys
      × (s'.currpid ≡ x)
wait-Waiting sem s xs x ys a p w r apart new out current defers =
    let s0 : System = count_down sem s in
    let same = count_down_queue sem s in
    let (s', done, line, sems, dispatched, now) =
      block-Queued sem s0 xs x ys
        (record { queue = rw same w.line.queue; states = w.line.states; sems = w.line.sems })
        (record {
          queue = r.queue;
          descending = r.descending;
          tail = r.tail;
          ready = r.ready;
          keys = r.keys;
        })
        (rw same apart) new out current defers in
    let less : (s'.semtab sem).scount ≡ (s.semtab sem).scount -ℤ pos 1 =
      ap (λ (f : ℕ → Sentry). (f sem).scount) sems ∙ ground arith in
    (
      s',
      wait_blocks sem s a p ∙ done,
      record {
        line = line;
        count =
            (let e = w.count in
              rw less (
                ground (
                  arith,
                  length-append xs (s.currpid ∷ []),
                  -ℤ_parts (s.semtab sem).scount (pos 1),
                )));
      },
      less,
      dispatched,
      now,
    )

abbrev release_rest : Option (System × Bool) → Option System
release_rest o = elim o as (λ _. Option System) [ none ↦ none | some r ↦ some r.0 ]

release_one_waiting :
    (sem : ℕ) (s s' : System) (w : ℕ)
    → ltb_ℤ (s.semtab sem).scount (pos 0) ≡ true
    → (dequeue (s.semtab sem).squeue s.queuetab).1 ≡ some w
    → ready w (record (count_up sem s) { queuetab = (dequeue (s.semtab sem).squeue s.queuetab).0 })
      ≡ some (s', true)
    → release_one sem s ≡ some s'
unfolding release_one
release_one_waiting sem s s' w below first run =
    let same = count_up_queue sem s in
    let queue : dequeue ((count_up sem s).semtab sem).squeue s.queuetab
        ≡ dequeue (s.semtab sem).squeue s.queuetab =
      ap (λ q. dequeue q s.queuetab) same in
    ap
      (λ (b : Bool).
        if b
        then release_rest (
            ready (as_pid (dequeue ((count_up sem s).semtab sem).squeue s.queuetab).1)
              (record (count_up sem s) {
                queuetab = (dequeue ((count_up sem s).semtab sem).squeue s.queuetab).0;
              }))
        else some (count_up sem s))
      below
    ∙ ap
        (λ (d : QTable × Option ℕ).
          release_rest (ready (as_pid d.1) (record (count_up sem s) { queuetab = d.0 })))
        queue
    ∙ ap
        (λ (o : Option ℕ). release_rest (
          ready (as_pid o)
            (record (count_up sem s) { queuetab = (dequeue (s.semtab sem).squeue s.queuetab).0 })))
        first
    ∙ ap release_rest run

signal_released :
    (sem : ℕ) (s s' : System)
    → accepted sem s ≡ true
    → release_one sem s ≡ some s'
    → signal sem s ≡ some (s', true)
unfolding signal
signal_released sem s s' a run =
    let good : is_bad_sem sem ≡ false = ground arith in
    let used : (s.semtab sem).used ≡ true = ground arith in
    rw (good, used)
      (ap
        (λ (o : Option System). elim o as (λ _. Option (System × Bool)) [
          | none ↦ none
          | some r ↦ some (r, true)
        ])
        run)

-- signal on a semaphore on which processes wait, without deferral, with priorities above MINKEY
-- and at most 99 ready processes: it is OK; the count is one more, the process that waited
-- longest waits no more, the others wait on in their order, and their number is the count below
-- 0; of the caller, the released process and the ready ones, one of the highest priority runs.
pub signal-Waiting :
    (sem : ℕ) (s : System) (w : ℕ) (ws ys : List ℕ)
    → accepted sem s ≡ true
    → Waiting s sem (w ∷ ws)
    → ReadyList s ys
    → Separate (s.semtab sem).squeue (w ∷ ws) s.readylist ys
    → (s.proctab s.currpid).prstate ≡ pr_curr
    → IsNew s.currpid ys
    → s.ndefers ≡ 0
    → ltb_ℤ min_key (s.proctab s.currpid).prprio ≡ true
    → ltb_ℤ min_key (s.proctab w).prprio ≡ true
    → length ys ≤ 99
    → (s' : System) × (zs : List ℕ) × (signal sem s ≡ some (s', true))
      × Waiting s' sem ws
      × ((s'.semtab sem).scount ≡ (s.semtab sem).scount +ℤ pos 1)
      × Dispatched s' zs
      × ((k : ℕ) → Chain.has k (s'.currpid ∷ zs) ≡ Chain.has k (s.currpid ∷ w ∷ ys))
signal-Waiting sem s w ws ys a wt r apart current new defers prio prio' len =
    let q : ℕ = (s.semtab sem).squeue in
    let t : QTable = (dequeue q s.queuetab).0 in
    let (queue, first) = dequeue-uncons s.queuetab q (w ∷ ws) wt.line.queue in
    let outside = dequeue_outside s.queuetab q w ws in
    let s0 : System = record (count_up sem s) { queuetab = t } in
    let r0 =
      ReadyList-frame (count_up sem s) t ys
        (λ k h. outside k wt.line.queue (flip-Separate q (w ∷ ws) s.readylist ys apart k h))
        (record {
          queue = r.queue;
          descending = r.descending;
          tail = r.tail;
          ready = r.ready;
          keys = r.keys;
        }) in
    let small = wt.line.queue.pids.0 in
    let state = wt.line.states w (ground arith) in
    let known : is_bad_pid s0 w ≡ false = ground arith in
    let running : (k : ℕ) → Chain.has k (w ∷ ws) ≡ true → (k == s.currpid) ≡ false = λ k h.
      elim (Bool-cases (k == s.currpid)) [
        | inr n ↦ n
        | inl e ↦
            let same : k ≡ s.currpid = ground arith in
            let z = rw same at (wt.line.states k h) in absurd (omega arith)
      ] in
    let other : (s.currpid == w) ≡ false = (let z = running w (ground arith) in ground arith) in
    let absent : Chain.has w ys ≡ false = (let z = apart w (ground arith) in ground arith) in
    let (s', zs, done, dispatched, members, k) =
      ready-Dispatched s0 w ys r0 current new known other (record { pid = small; absent = absent })
        defers prio prio' len in
    let same = count_up_queue sem s in
    let good = good_qid q wt.line.queue.good in
    let alone = wt.line.queue.distinct.0 in
    let pid = new.pid in
    let away : (i : ℕ)
        → reads q ws i ≡ true
        → ((i == s.currpid) ≡ false) × ((i == w) ≡ false) × (reads s.readylist ys i ≡ false) =
      λ i h. (
        elim (Bool-cases (Chain.has i ws)) [
          | inl z ↦ running i (ground arith)
          | inr z ↦ ground arith
        ],
        elim (Bool-cases (i == w)) [
          | inr n ↦ n
          | inl e ↦
              let z : i ≡ w = ground arith in let v = ap (reads q ws) z in absurd (ground arith)
        ],
        apart i (ground arith),
      ) in
    let more : (s'.semtab sem).scount ≡ (s.semtab sem).scount +ℤ pos 1 =
      ap (λ (f : ℕ → Sentry). (f sem).scount) k.semaphores ∙ ground arith in
    let below : ltb_ℤ (s.semtab sem).scount (pos 0) ≡ true = (let e = wt.count in ground arith) in
    (
      s',
      zs,
      signal_released sem s s' a (release_one_waiting sem s s' w below first done),
      record {
        line =
            Queued-kept s0 s' sem ws k.semaphores (rw same queue)
              (λ i h.
                let z = away i (ap (λ j. reads j ws i) (sym same) ∙ h) in k.entries i z.0 z.1 z.2)
              (λ i h. k.others i (let z = away i (ground arith) in ground arith))
              (λ i h. (wt.line.states i (ground arith), wt.line.sems i (ground arith)));
        count =
            (let e = wt.count in rw more (ground (arith, +ℤ_parts (s.semtab sem).scount (pos 1))));
      },
      more,
      dispatched,
      members,
    )
