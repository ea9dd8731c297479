-- ===== src/Process/Tests/Semaphores.antt =====
-- The theorems on wait and signal at a system where the processes 3 and 5 wait.
use ece564_project.Prelude.{
  ℕ, ◌≡◌, refl, true, ◌==◌, some, List, [], ◌∷◌, arith, Bool-cases, inl, inr,
}
use ece564_project.Prelude.Int.{pos, negsuc, ◌+ℤ◌, ◌-ℤ◌}
use ece564_project.Queue.Chain
use ece564_project.Process.State.{System, pr_wait}
use ece564_project.Process.Semaphores.{wait, signal}
use ece564_project.Process.Ready.{ReadyList, Dispatched}
use ece564_project.Process.Lines.{Waiting}
use ece564_project.Process.Waiting.{wait-Waiting, signal-Waiting}
use ece564_project.Process.Tests.{two_more, apart}

-- The processes 3 and 5 wait on the semaphore 52.
abbrev pub waiters : System
waiters = two_more (pos 7) pr_wait 52

pub waiters-Waiting : Waiting waiters 52 (3 ∷ 5 ∷ [])
waiters-Waiting = record {
  line = record {
    queue = record {
      good = refl;
      chain = (refl, refl, (refl, refl, (refl, refl)));
      distinct = (refl, (refl, tt));
      pids = (omega arith, (omega arith, tt));
    };
    states = λ k h. elim (Bool-cases (k == 3)) [
      | inl e ↦ rw e refl
      | inr a ↦ (let e : (k == 5) ≡ true = ground arith in rw (a, e) refl)
    ];
    sems = λ k h. elim (Bool-cases (k == 3)) [
      | inl e ↦ rw e refl
      | inr a ↦ (let e : (k == 5) ≡ true = ground arith in rw (a, e) refl)
    ];
  };
  count = refl;
}

waiters-ReadyList : ReadyList waiters (11 ∷ [])
waiters-ReadyList = record {
  queue = record {
    good = refl;
    chain = (refl, refl, (refl, refl));
    distinct = (refl, tt);
    pids = (omega arith, tt);
  };
  descending = (tt, tt);
  tail = refl;
  ready = λ k h. (let same : k ≡ 11 = ground arith in rw same refl);
  keys = λ k h. (let same : k ≡ 11 = ground arith in rw same refl);
}

signal-Waiting_example :
    (s : System) × (ys : List ℕ) × (signal 52 waiters ≡ some (s, true))
    × Waiting s 52 (5 ∷ [])
    × ((s.semtab 52).scount ≡ negsuc 1 +ℤ pos 1)
    × Dispatched s ys
    × ((k : ℕ) → Chain.has k (s.currpid ∷ ys) ≡ Chain.has k (9 ∷ 3 ∷ 11 ∷ []))
signal-Waiting_example =
    signal-Waiting 52 waiters 3 (5 ∷ []) (11 ∷ []) refl waiters-Waiting waiters-ReadyList apart refl
      (record { pid = omega arith; absent = refl }) refl refl refl (omega arith)

wait-Waiting_example :
    (s : System) × (wait 52 waiters ≡ some (s, true))
    × Waiting s 52 (3 ∷ 5 ∷ 9 ∷ [])
    × ((s.semtab 52).scount ≡ negsuc 1 -ℤ pos 1)
    × Dispatched s []
    × (s.currpid ≡ 11)
wait-Waiting_example =
    wait-Waiting 52 waiters (3 ∷ 5 ∷ []) 11 [] refl refl waiters-Waiting waiters-ReadyList apart
      (record { pid = omega arith; absent = refl }) refl refl refl
