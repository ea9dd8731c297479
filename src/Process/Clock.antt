-- ===== src/Process/Clock.antt =====
-- system/wakeup.c and system/clkhandler.c: what a tick of the clock does to the sleeping
-- processes.
use ece564_project.Prelude.{
  ℕ, ◌+◌, ◌≤◌, ◌≡◌, refl, Bool, true, false, arith, ◌==◌, Option, some, none, Bool-cases, inl, inr,
  ◌⊎◌, List, [], ◌∷◌, ◌++◌, length, ◌∙◌, ap,
}
use ece564_project.Prelude.Int.{ltb_ℤ}
use ece564_project.Queue.Table.{QEntry, min_key}
use ece564_project.Queue.Chain
use ece564_project.Queue.Laws.{IsQueue, IsNew, good_qid}
use ece564_project.Queue.Frames.{reads, IsQueue-frame}
use ece564_project.Process.State.{System, pr_curr}
use ece564_project.Process.Sched.{quantum, resched, defer_start, defer_stop}
use ece564_project.Process.Timers.{wake_due, wakeup}
use ece564_project.Process.Ready.{Dispatched}
use ece564_project.Process.Highest.{resched-Dispatched}
use ece564_project.Process.Sleepers.{Sleeping, HasTime}
use ece564_project.Process.Wakeup.{wake_due-Woken}

-- defer_stop after an attempt, at the outermost level.
defer_stop_last :
    (s s' : System)
    → s.ndefers ≡ 1
    → s.attempt ≡ true
    → resched (record s { ndefers = 0 }) ≡ some s'
    → defer_stop s ≡ some (s', true)
unfolding defer_stop
defer_stop_last s s' n a run =
    rw (n, a)
      (ap
        (λ (o : Option System). elim o as (λ _. Option (System × Bool)) [
          | none ↦ none
          | some s'' ↦ some (s'', true)
        ])
        (rw a at run))

wakeup_at :
    (s s1 s2 : System)
    → wake_due 101 (defer_start s).0 ≡ some s1
    → defer_stop s1 ≡ some (s2, true)
    → wakeup s ≡ some s2
unfolding wakeup
wakeup_at s s1 s2 a b =
    ap
      (λ (o : Option System). elim o as (λ _. Option System) [
        | none ↦ none
        | some s' ↦ elim (defer_stop s') as (λ _. Option System) [ none ↦ none | some r ↦ some r.0 ]
      ])
      a
    ∙ ap
        (λ (o : Option (System × Bool)). elim o as (λ _. Option System) [
          | none ↦ none
          | some r ↦ some r.0
        ])
        b

Sleeping-defer :
    (s : System) (due later ys : List ℕ) (n : ℕ) (a : Bool)
    → Sleeping s due later ys
    → Sleeping (record s { ndefers = n; attempt = a }) due later ys
Sleeping-defer s due later ys n a w =
    let r = w.ready_list in
    record {
      asleep = w.asleep;
      ready_list = record {
        queue = r.queue;
        descending = r.descending;
        tail = r.tail;
        ready = r.ready;
        keys = r.keys;
      };
      separate = w.separate;
      no_time = w.no_time;
      alive = w.alive;
      above = w.above;
    }

defer_start_lem :
    (s : System) → s.ndefers ≡ 0 → (defer_start s).0 ≡ record s { ndefers = 1; attempt = false }
unfolding defer_start
defer_start_lem s h = rw h refl

-- wakeup, called by an eligible process without deferral while at least one process of the sleep
-- queue has no time left: it ends, exactly the processes without time have left the sleep queue,
-- they and the ready ones compete for the processor, of which one of the highest priority runs,
-- and the delays of the processes that sleep on are as they were.
pub wakeup-Dispatched :
    (s : System) (d : ℕ) (due later ys : List ℕ)
    → Sleeping s (d ∷ due) later ys
    → HasTime s.queuetab later
    → (s.proctab s.currpid).prstate ≡ pr_curr
    → IsNew s.currpid ((d ∷ due) ++ ys)
    → Chain.has s.currpid later ≡ false
    → s.ndefers ≡ 0
    → ltb_ℤ min_key (s.proctab s.currpid).prprio ≡ true
    → length (d ∷ due) + length ys ≤ 100
    → (s' : System) × (zs : List ℕ) × (wakeup s ≡ some s')
      × Dispatched s' zs
      × ((k : ℕ) → Chain.has k (s'.currpid ∷ zs) ≡ Chain.has k (s.currpid ∷ ((d ∷ due) ++ ys)))
      × IsQueue s'.queuetab s'.sleepq later
      × ((k : ℕ) → Chain.has k later ≡ true → (s'.queuetab k).qkey ≡ (s.queuetab k).qkey)
      × ((s'.preempt ≡ s.preempt) ⊎ (s'.preempt ≡ quantum))
wakeup-Dispatched s d due later ys w time current new awake defers prio len =
    let s0 : System = record s { ndefers = 1; attempt = false } in
    let (s1, ys1, run, w1, k, attempt) =
      wake_due-Woken 101 s0 (d ∷ due) later ys (Sleeping-defer s (d ∷ due) later ys 1 false w) time
        refl (omega arith) len in
    let s2 : System = record s1 { ndefers = 0 } in
    let same : s2.currpid ≡ s.currpid = k.current in
    let gone : Chain.has s.currpid (d ∷ due) ≡ false =
      (let a = new.absent in ground (arith, Chain.has-append s.currpid due ys)) in
    let proc = k.others s.currpid gone in
    let state : (s2.proctab s2.currpid).prstate ≡ pr_curr = rw (same, proc) current in
    let outside : Chain.has s.currpid ys1 ≡ false = k.members s.currpid ∙ new.absent in
    let small = new.pid in
    let w2 = Sleeping-defer s1 [] later ys1 0 s1.attempt w1 in
    let count = k.count in
    let (s', zs, done, dispatched, members, kept) =
      resched-Dispatched s2 ys1 w2.ready_list state
        (rw same (record { pid = new.pid; absent = outside })) refl (rw (same, proc) prio)
        (omega arith) in
    let good = good_qid s1.sleepq w1.asleep.good in
    let entries : (x : ℕ) → reads s1.sleepq later x ≡ true → s'.queuetab x ≡ s1.queuetab x = λ x r.
      kept.entries x
        (rw same (elim (Bool-cases (x == s.currpid)) [
          | inr n ↦ n
          | inl e ↦
              (let z : x ≡ s.currpid = ground arith in let y = rw z at r in absurd (ground arith))
        ]))
        (w1.separate x r) in
    (
      s',
      zs,
      wakeup_at s s1 s' (rw (defer_start_lem s defers) run)
          (defer_stop_last s1 s' k.defers attempt done),
      dispatched,
      λ x. members x ∙ (let a = k.members x in rw same (ground arith)),
      rw kept.sleepers (IsQueue-frame s1.queuetab s'.queuetab s1.sleepq later entries w1.asleep),
      λ x h.
          ap (λ (e : QEntry). e.qkey) (entries x (ground arith))
          ∙ k.keys x (Chain.Distinct-apart (d ∷ due) later x w.asleep.distinct h),
      elim kept.slice [ inl e ↦ inl (e ∙ k.slice) | inr e ↦ inr e ],
    )
