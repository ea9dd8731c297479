-- ===== src/Process/Tests/Sleepers.antt =====
-- The theorems on the clock and on sleeping at a system where the processes 3 and 5 sleep.
use ece564_project.Prelude.{ℕ, ◌≡◌, refl, true, false, ◌==◌, some, List, [], ◌∷◌, ◌++◌, arith}
use ece564_project.Prelude.Int.{ℤ, pos, ◌-ℤ◌}
use ece564_project.Queue.Chain
use ece564_project.Queue.Laws.{IsQueue}
use ece564_project.Queue.Wakes.{wakes}
use ece564_project.Queue.Delta.{Delays}
use ece564_project.Process.State.{System, pr_sleep}
use ece564_project.Process.Timers.{Clock, sleepms, count_delay, count_ms, clkhandler}
use ece564_project.Process.Ready.{ReadyList, Dispatched}
use ece564_project.Process.Sleepers.{Sleeping}
use ece564_project.Process.Asleep.{sleepms-Delays}
use ece564_project.Process.Tick.{earlier, at_zero, clkhandler-wakes}
use ece564_project.Process.Tests.{both_lists, two_more, apart}

-- The process 3 sleeps for `key`, and 5 for 4 more.
abbrev sleepers : ℤ → System
sleepers key = two_more key pr_sleep 0

sleepers-IsQueue : (key : ℤ) → IsQueue (both_lists key) 204 (3 ∷ 5 ∷ [])
sleepers-IsQueue key = record {
  good = refl;
  chain = (refl, refl, (refl, refl, (refl, refl)));
  distinct = (refl, (refl, tt));
  pids = (omega arith, (omega arith, tt));
}

sleepers-ReadyList : (key : ℤ) → ReadyList (sleepers key) (11 ∷ [])
sleepers-ReadyList key = record {
  queue = record {
    good = refl;
    chain = (refl, refl, (refl, refl));
    distinct = (refl, tt);
    pids = (omega arith, tt);
  };
  descending = (tt, tt);
  tail = refl;
  ready = λ k h. (let same : k ≡ 11 = ground arith in rw same refl);
  keys = λ k h. (let same : k ≡ 11 = ground arith in rw same refl);
}

sleepms-Delays_example :
    (s : System) × (sleepms (pos 9) (sleepers (pos 7)) ≡ some (s, true))
    × Delays (both_lists (pos 7)) s.queuetab s.sleepq 9 (pos 9) (3 ∷ 5 ∷ [])
    × Dispatched s []
    × (s.currpid ≡ 11)
    × ((s.proctab 9).prstate ≡ pr_sleep)
    × ((k : ℕ) → (k == 9) ≡ false → (k == 11) ≡ false → s.proctab k ≡ (sleepers (pos 7)).proctab k)
sleepms-Delays_example =
    sleepms-Delays (sleepers (pos 7)) (pos 9) (3 ∷ 5 ∷ []) 11 [] refl (sleepers-IsQueue (pos 7))
      (refl, (refl, tt)) (sleepers-ReadyList (pos 7)) apart
      (record { pid = omega arith; absent = refl }) refl refl refl (omega arith)

-- One more tick and the process 3 wakes up.
tick-Sleeping : Sleeping (count_delay (sleepers (pos 1))) (3 ∷ []) (5 ∷ []) (11 ∷ [])
unfolding ◌-ℤ◌
tick-Sleeping = record {
  asleep = record {
    good = refl;
    chain = (refl, refl, (refl, refl, (refl, refl)));
    distinct = (refl, (refl, tt));
    pids = (omega arith, (omega arith, tt));
  };
  ready_list = record {
    queue = record {
      good = refl;
      chain = (refl, refl, (refl, refl));
      distinct = (refl, tt);
      pids = (omega arith, tt);
    };
    descending = (tt, tt);
    tail = refl;
    ready = λ k h. (let same : k ≡ 11 = ground arith in rw same refl);
    keys = λ k h. (let same : k ≡ 11 = ground arith in rw same refl);
  };
  separate = apart;
  no_time = (refl, tt);
  alive = λ k h. (let same : k ≡ 3 = ground arith in rw same refl);
  above = λ k h. (let same : k ≡ 3 = ground arith in rw same refl);
}

abbrev clock : Clock
clock = record { clktime = 4; count1000 = 1000 }

clkhandler-wakes_example :
    (s : System) × (zs : List ℕ) × (clkhandler clock (sleepers (pos 1)) ≡ some (count_ms clock, s))
    × (earlier (wakes (both_lists (pos 1)) (pos 0) (3 ∷ 5 ∷ []))
        ≡ at_zero (3 ∷ []) ++ wakes s.queuetab (pos 0) (5 ∷ []))
    × IsQueue s.queuetab s.sleepq (5 ∷ [])
    × Dispatched s zs
    × ((k : ℕ) → Chain.has k (s.currpid ∷ zs) ≡ Chain.has k (9 ∷ 3 ∷ 11 ∷ []))
unfolding ◌-ℤ◌
clkhandler-wakes_example =
    clkhandler-wakes clock (sleepers (pos 1)) 3 [] (5 ∷ []) (11 ∷ []) tick-Sleeping refl (refl, tt)
      (sleepers-IsQueue (pos 1)) refl (record { pid = omega arith; absent = refl }) refl refl refl
      (omega arith) (omega arith) (omega arith)
