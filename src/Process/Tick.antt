-- ===== src/Process/Tick.antt =====
-- system/clkhandler.c: a tick of the clock and the wake times of the sleeping processes.
use ece564_project.Prelude.{
  ℕ, ◌+◌, ◌-◌, ◌%◌, ◌≤◌, ◌<◌, ◌≡◌, refl, true, false, arith, leb, ◌==◌, if◌then◌else◌, Option, some,
  none, Bool-cases, inl, inr, ◌⊎◌, List, [], ◌∷◌, ◌++◌, length, ◌∙◌, ap, sym,
}
use ece564_project.Prelude.Int.{ℤ, pos, leb_ℤ, ltb_ℤ, ◌+ℤ◌, ◌-ℤ◌, +ℤ_parts, -ℤ_parts, eq_of_parts}
use ece564_project.Queue.Table.{QTable, min_key, firstkey, set_key}
use ece564_project.Queue.Chain
use ece564_project.Queue.Laws.{IsQueue, IsNew, first_of-cons}
use ece564_project.Queue.Priority.{Keys}
use ece564_project.Queue.Wakes.{wakes, total, not_negative}
use ece564_project.Queue.Delta.{wakes-append, wakes-frame}
use ece564_project.Process.State.{System, pr_curr}
use ece564_project.Process.Timers.{
  wakeup, Clock, count_ms, count_delay, tick_sleepers, tick_slice, clkhandler, two32,
}
use ece564_project.Process.Ready.{Dispatched}
use ece564_project.Process.Sleepers.{Sleeping, HasTime}
use ece564_project.Process.Wakeup.{key_of_first}
use ece564_project.Process.Clock.{wakeup-Dispatched}

-- All times one less.
abbrev pub earlier : List (ℕ × ℤ) → List (ℕ × ℤ)
earlier [] = []
earlier (e ∷ es) = (e.0, e.1 -ℤ pos 1) ∷ earlier es

abbrev pub at_zero : List ℕ → List (ℕ × ℤ)
at_zero [] = []
at_zero (x ∷ xs) = (x, pos 0) ∷ at_zero xs

move_back : (now k : ℤ) → (now -ℤ pos 1) +ℤ k ≡ (now +ℤ k) -ℤ pos 1
move_back now k = eq_of_parts ((now -ℤ pos 1) +ℤ k) ((now +ℤ k) -ℤ pos 1) (
    omega (
      arith,
      +ℤ_parts (now -ℤ pos 1) k,
      -ℤ_parts now (pos 1),
      -ℤ_parts (now +ℤ k) (pos 1),
      +ℤ_parts now k,
    ))

move_key : (now k : ℤ) → now +ℤ (k -ℤ pos 1) ≡ (now +ℤ k) -ℤ pos 1
move_key now k = eq_of_parts (now +ℤ (k -ℤ pos 1)) ((now +ℤ k) -ℤ pos 1) (
    omega (
      arith,
      +ℤ_parts now (k -ℤ pos 1),
      -ℤ_parts k (pos 1),
      -ℤ_parts (now +ℤ k) (pos 1),
      +ℤ_parts now k,
    ))

wakes-earlier :
    (t : QTable) (now : ℤ) (xs : List ℕ) → wakes t (now -ℤ pos 1) xs ≡ earlier (wakes t now xs)
wakes-earlier t now [] = refl
wakes-earlier t now (x ∷ xs) =
    rw (move_back now (t x).qkey)
      (ap (λ l. (x, (now +ℤ (t x).qkey) -ℤ pos 1) ∷ l) (wakes-earlier t (now +ℤ (t x).qkey) xs))

-- A first delay that is one less makes all wake times one less.
wakes_tick :
    (t t' : QTable) (d : ℕ) (xs : List ℕ)
    → (t' d).qkey ≡ (t d).qkey -ℤ pos 1
    → ((k : ℕ) → Chain.has k xs ≡ true → (t' k).qkey ≡ (t k).qkey)
    → wakes t' (pos 0) (d ∷ xs) ≡ earlier (wakes t (pos 0) (d ∷ xs))
wakes_tick t t' d xs first same =
    let now : ℤ = pos 0 +ℤ (t d).qkey in
    let rest = wakes-frame t t' (now -ℤ pos 1) xs same in
    rw (first, move_key (pos 0) (t d).qkey)
      (ap (λ l. (d, now -ℤ pos 1) ∷ l) (rest.0 ∙ wakes-earlier t now xs))

no_time_left : (k : ℤ) → leb_ℤ k (pos 0) ≡ true → not_negative k ≡ true → pos 0 +ℤ k ≡ pos 0
no_time_left k h n = eq_of_parts (pos 0 +ℤ k) (pos 0) (ground (arith, +ℤ_parts (pos 0) k))

wakes_zero :
    (t : QTable) (xs : List ℕ)
    → Keys (λ k. leb_ℤ k (pos 0)) t xs
    → Keys not_negative t xs
    → (wakes t (pos 0) xs ≡ at_zero xs) × (total t (pos 0) xs ≡ pos 0)
wakes_zero t [] h n = (refl, refl)
wakes_zero t (x ∷ xs) h n =
    let e = no_time_left (t x).qkey h.0 n.0 in
    let rest = wakes_zero t xs h.1 n.1 in rw e (ap (λ l. (x, pos 0) ∷ l) rest.0, rest.1)

-- After the tick `t0` and the wakeup `t1` the times are one less, and those that are 0 are gone.
wakes_gone :
    (t t0 t1 : QTable) (d : ℕ) (due later : List ℕ)
    → (t0 d).qkey ≡ (t d).qkey -ℤ pos 1
    → ((k : ℕ) → Chain.has k (due ++ later) ≡ true → (t0 k).qkey ≡ (t k).qkey)
    → Keys (λ k. leb_ℤ k (pos 0)) t0 (d ∷ due)
    → Keys not_negative t0 (d ∷ due)
    → ((k : ℕ) → Chain.has k later ≡ true → (t1 k).qkey ≡ (t0 k).qkey)
    → earlier (wakes t (pos 0) ((d ∷ due) ++ later)) ≡ at_zero (d ∷ due) ++ wakes t1 (pos 0) later
wakes_gone t t0 t1 d due later own one h n keys =
    let (zeros, spent) = wakes_zero t0 (d ∷ due) h n in
    sym (wakes_tick t t0 d (due ++ later) own one)
    ∙ wakes-append t0 (pos 0) (d ∷ due) later
    ∙ ap (λ l. l ++ wakes t0 (total t0 (pos 0) (d ∷ due)) later) zeros
    ∙ ap (λ z. at_zero (d ∷ due) ++ wakes t0 z later) spent
    ∙ ap (λ l. at_zero (d ∷ due) ++ l) (sym (wakes-frame t0 t1 (pos 0) later keys).0)

count_delay_key :
    (s : System) (d : ℕ) (xs : List ℕ) (k : ℕ)
    → IsQueue s.queuetab s.sleepq (d ∷ xs)
    → ((count_delay s).queuetab k).qkey
      ≡ (if k == d then (s.queuetab d).qkey -ℤ pos 1 else (s.queuetab k).qkey)
count_delay_key s d xs k is =
    let next = Chain.Chain-next s.queuetab s.sleepq (d ∷ xs) (s.sleepq + 1) is.chain in
    ap (λ n. (set_key s.queuetab n ((s.queuetab n).qkey -ℤ pos 1) k).qkey) next ∙ ground arith

tick_slice_goes_on :
    (s : System)
    → 1 < s.preempt
    → s.preempt < two32
    → tick_slice s ≡ some (record s { preempt = s.preempt - 1 })
unfolding tick_slice
tick_slice_goes_on s h g =
    let e : (s.preempt + (two32 - 1)) % two32 ≡ s.preempt - 1 = ground arith in
    let more : leb (s.preempt - 1) 0 ≡ false = ground arith in rw e (rw more refl)

tick_sleepers_due :
    (s s' : System) (d : ℕ) (xs : List ℕ)
    → IsQueue s.queuetab s.sleepq (d ∷ xs)
    → leb_ℤ (firstkey (count_delay s).queuetab s.sleepq) (pos 0) ≡ true
    → wakeup (count_delay s) ≡ some s'
    → tick_sleepers s ≡ some s'
unfolding tick_sleepers
tick_sleepers_due s s' d xs is h run = rw (first_of-cons s.queuetab s.sleepq d xs is, h) run

-- The rest of the handler behind the sleep queue, in the process `p`.
abbrev rest_of_tick : Clock → ℕ → System → Option (Clock × System)
rest_of_tick c p s =
    if s.currpid == p
    then elim (tick_slice s) as (λ _. Option (Clock × System)) [
      | none ↦ none
      | some s' ↦ some (count_ms c, s')
    ]
    else some (count_ms c, s)

clkhandler_behind :
    (c : Clock) (s s1 : System)
    → tick_sleepers s ≡ some s1
    → clkhandler c s ≡ rest_of_tick c s.currpid s1
unfolding clkhandler
clkhandler_behind c s s1 e =
    ap
      (λ (o : Option System). elim o as (λ _. Option (Clock × System)) [
        | none ↦ none
        | some s' ↦ rest_of_tick c s.currpid s'
      ])
      e

-- The interrupted process goes on, with one tick less of its time slice, or another one runs.
rest_of_tick_cases :
    (c : Clock) (s : System) (p : ℕ)
    → 1 < s.preempt
    → s.preempt < two32
    → (rest_of_tick c p s ≡ some (count_ms c, record s { preempt = s.preempt - 1 }))
      ⊎ (rest_of_tick c p s ≡ some (count_ms c, s))
rest_of_tick_cases c s p h g = elim (Bool-cases (s.currpid == p)) [
  | inl stays ↦ inl (rw (stays, tick_slice_goes_on s h g) refl)
  | inr switched ↦ inr (rw switched refl)
]

Dispatched-slice :
    (s : System) (zs : List ℕ) (n : ℕ) → Dispatched s zs → Dispatched (record s { preempt = n }) zs
Dispatched-slice s zs n d =
    let r = d.ready_list in
    record {
      ready_list = record {
        queue = r.queue;
        descending = r.descending;
        tail = r.tail;
        ready = r.ready;
        keys = r.keys;
      };
      current = d.current;
      not_ready = d.not_ready;
      highest = d.highest;
    }

-- A tick of the clock while the time slice goes on, when the first delays of the sleep queue
-- run out: the handler ends; the wake times of all sleeping processes are one less, those whose
-- time is 0 then have left the queue and the others are in it; the former compete with the
-- ready processes for the processor, and one of the highest priority runs.
pub clkhandler-wakes :
    (c : Clock) (s : System) (d : ℕ) (due later ys : List ℕ)
    → Sleeping (count_delay s) (d ∷ due) later ys
    → HasTime (count_delay s).queuetab later
    → Keys not_negative (count_delay s).queuetab (d ∷ due)
    → IsQueue s.queuetab s.sleepq ((d ∷ due) ++ later)
    → (s.proctab s.currpid).prstate ≡ pr_curr
    → IsNew s.currpid ((d ∷ due) ++ ys)
    → Chain.has s.currpid later ≡ false
    → s.ndefers ≡ 0
    → ltb_ℤ min_key (s.proctab s.currpid).prprio ≡ true
    → length (d ∷ due) + length ys ≤ 100
    → 1 < s.preempt
    → s.preempt < two32
    → (s' : System) × (zs : List ℕ) × (clkhandler c s ≡ some (count_ms c, s'))
      × (earlier (wakes s.queuetab (pos 0) ((d ∷ due) ++ later))
          ≡ at_zero (d ∷ due) ++ wakes s'.queuetab (pos 0) later)
      × IsQueue s'.queuetab s'.sleepq later
      × Dispatched s' zs
      × ((k : ℕ) → Chain.has k (s'.currpid ∷ zs) ≡ Chain.has k (s.currpid ∷ ((d ∷ due) ++ ys)))
clkhandler-wakes c s d due later ys w time nonneg is current new awake defers prio len slice small =
    let s0 : System = count_delay s in
    let t0 : QTable = s0.queuetab in
    let xs : List ℕ = due ++ later in
    let (s1, zs, run, dispatched, members, queue, keys, slices) =
      wakeup-Dispatched s0 d due later ys w time current new awake defers prio len in
    let first : leb_ℤ (firstkey t0 s.sleepq) (pos 0) ≡ true =
      ap (λ k. leb_ℤ k (pos 0)) (key_of_first s0 d xs w.asleep) ∙ w.no_time.0 in
    let tick = tick_sleepers_due s s1 d xs is first run in
    let more : (1 < s1.preempt) × (s1.preempt < two32) = (elim slices [
      | inl e ↦ (omega arith, omega arith)
      | inr e ↦ (omega arith, omega arith)
    ]) in
    let one : (k : ℕ) → Chain.has k xs ≡ true → (t0 k).qkey ≡ (s.queuetab k).qkey = λ k h.
      count_delay_key s d xs k is
      ∙ (let a = is.distinct.0 in
          elim (Bool-cases (k == d)) [
            | inr n ↦ rw n refl
            | inl e ↦
                (let same : k ≡ d = ground arith in let z = rw same at h in absurd (ground arith))
          ]) in
    let own : (t0 d).qkey ≡ (s.queuetab d).qkey -ℤ pos 1 =
      count_delay_key s d xs d is ∙ ground arith in
    let times = wakes_gone s.queuetab t0 s1.queuetab d due later own one w.no_time nonneg keys in
    let behind = clkhandler_behind c s s1 tick in
    elim (rest_of_tick_cases c s1 s.currpid more.0 more.1) [
      | inl stays ↦ (
        record s1 { preempt = s1.preempt - 1 },
        zs,
        behind ∙ stays,
        times,
        queue,
        Dispatched-slice s1 zs (s1.preempt - 1) dispatched,
        members,
      )
      | inr switched ↦ (s1, zs, behind ∙ switched, times, queue, dispatched, members)
    ]
