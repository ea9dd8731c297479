-- ===== src/Process/Wakeup.antt =====
-- system/wakeup.c and system/clkhandler.c: the processes whose time has come leave the sleep
-- queue for the ready list, while rescheduling is deferred.
use ece564_project.Prelude.{
  ℕ, zero, suc, ◌+◌, ◌≤◌, ◌<◌, ◌≡◌, refl, Bool, true, false, arith, ltb, ◌==◌, if◌then◌else◌,
  Option, some, none, Bool-cases, inl, inr, List, [], ◌∷◌, ◌++◌, length, ◌∙◌, ap,
}
use ece564_project.Prelude.Int.{pos, leb_ℤ}
use ece564_project.Queue.Table.{QTable, dequeue, firstkey}
use ece564_project.Queue.Chain
use ece564_project.Queue.Laws.{IsQueue, dequeue-uncons, first_of-nil, first_of-cons}
use ece564_project.Process.State.{System, as_pid}
use ece564_project.Process.Sched.{ready}
use ece564_project.Process.Timers.{is_due, wake_due}
use ece564_project.Process.Sleepers.{HasTime, wake_one, Sleeping, Woken}

pub key_of_first :
    (s : System) (x : ℕ) (xs : List ℕ)
    → IsQueue s.queuetab s.sleepq (x ∷ xs)
    → firstkey s.queuetab s.sleepq ≡ (s.queuetab x).qkey
key_of_first s x xs is =
    ap (λ n. (s.queuetab n).qkey)
      (Chain.Chain-next s.queuetab s.sleepq (x ∷ xs) (s.sleepq + 1) is.chain)

-- The loop ends when the first process has time left.
not_due :
    (s : System) (later : List ℕ)
    → IsQueue s.queuetab s.sleepq later
    → HasTime s.queuetab later
    → is_due s ≡ false
unfolding is_due
not_due s [] is h = rw (first_of-nil s.queuetab s.sleepq is) refl
not_due s (x ∷ later) is h =
    rw (first_of-cons s.queuetab s.sleepq x later is)
      (ap (λ k. leb_ℤ k (pos 0)) (key_of_first s x later is) ∙ h)

first_due :
    (s : System) (d : ℕ) (xs : List ℕ)
    → IsQueue s.queuetab s.sleepq (d ∷ xs)
    → leb_ℤ (s.queuetab d).qkey (pos 0) ≡ true
    → is_due s ≡ true
unfolding is_due
first_due s d xs is h =
    rw (first_of-cons s.queuetab s.sleepq d xs is)
      (ap (λ k. leb_ℤ k (pos 0)) (key_of_first s d xs is) ∙ h)

-- The round of the loop behind its test.
abbrev wake_rest : ℕ → Option (System × Bool) → Option System
wake_rest n o = elim o as (λ _. Option System) [ none ↦ none | some r ↦ wake_due n r.0 ]

abbrev wake_round : ℕ → System → Bool → Option System
wake_round n s b = elim b as (λ _. Option System) [
  | false ↦ some s
  | true ↦ wake_rest n (
      ready (as_pid (dequeue s.sleepq s.queuetab).1)
        (record s { queuetab = (dequeue s.sleepq s.queuetab).0 }))
]

wake_due_stop : (n : ℕ) (s : System) → is_due s ≡ false → wake_due (suc n) s ≡ some s
unfolding wake_due
wake_due_stop n s h = ap (λ (b : Bool). wake_round n s b) h

wake_due_go :
    (n : ℕ) (s s1 : System) (d : ℕ)
    → is_due s ≡ true
    → (dequeue s.sleepq s.queuetab).1 ≡ some d
    → ready d (record s { queuetab = (dequeue s.sleepq s.queuetab).0 }) ≡ some (s1, true)
    → wake_due (suc n) s ≡ wake_due n s1
unfolding wake_due
wake_due_go n s s1 d h first e =
    ap (λ (b : Bool). wake_round n s b) h
    ∙ ap
        (λ (o : Option ℕ).
          wake_rest n (ready (as_pid o) (record s { queuetab = (dequeue s.sleepq s.queuetab).0 })))
        first
    ∙ ap (λ o. wake_rest n o) e

HasTime-frame :
    (t t' : QTable) (xs : List ℕ)
    → ((k : ℕ) → Chain.has k xs ≡ true → (t' k).qkey ≡ (t k).qkey)
    → HasTime t xs
    → HasTime t' xs
HasTime-frame t t' [] same h = tt
HasTime-frame t t' (x ∷ xs) same h = rw (same x (ground arith)) h

Woken-cons :
    (s s1 s2 : System) (d : ℕ) (due ys ys1 ys2 : List ℕ)
    → Woken s s1 (d ∷ []) ys ys1
    → Woken s1 s2 due ys1 ys2
    → Woken s s2 (d ∷ due) ys ys2
Woken-cons s s1 s2 d due ys ys1 ys2 a b = record {
  current = b.current ∙ a.current;
  defers = b.defers ∙ a.defers;
  sleepers = b.sleepers ∙ a.sleepers;
  list = b.list ∙ a.list;
  slice = b.slice ∙ a.slice;
  others = λ k h. b.others k (ground arith) ∙ a.others k (ground arith);
  prios = λ k. b.prios k ∙ a.prios k;
  keys = λ k h. b.keys k (ground arith) ∙ a.keys k (ground arith);
  members = λ k.
      b.members k
      ∙ (let e = a.members k in
          ground (arith, Chain.has-append k due ys1, Chain.has-append k due ys));
  count = let e = a.count in let f = b.count in omega arith;
}

Woken-nil : (s : System) (ys : List ℕ) → Woken s s [] ys ys
Woken-nil s ys = record {
  current = refl;
  defers = refl;
  sleepers = refl;
  list = refl;
  slice = refl;
  others = λ k h. refl;
  prios = λ k. refl;
  keys = λ k h. refl;
  members = λ k. refl;
  count = omega arith;
}

abbrev not_nil : List ℕ → Bool
not_nil [] = false
not_nil (x ∷ xs) = true

pub wake_due-Woken :
    (fuel : ℕ) (s : System) (due later ys : List ℕ)
    → Sleeping s due later ys
    → HasTime s.queuetab later
    → ltb 0 s.ndefers ≡ true
    → length due < fuel
    → length due + length ys ≤ 100
    → (s' : System) × (ys' : List ℕ) × (wake_due fuel s ≡ some s')
      × Sleeping s' [] later ys'
      × Woken s s' due ys ys'
      × (s'.attempt ≡ (if not_nil due then true else s.attempt))
wake_due-Woken zero s due later ys w time h fuel len = absurd (omega arith)
wake_due-Woken (suc n) s [] later ys w time h fuel len =
    (s, ys, wake_due_stop n s (not_due s later w.asleep time), w, Woken-nil s ys, refl)
wake_due-Woken (suc n) s (d ∷ due) later ys w time h fuel len =
    let (s1, ys1, run, w1, k1, a1) = wake_one s d due later ys w h (omega arith) in
    let count = k1.count in
    let (_, first) = dequeue-uncons s.queuetab s.sleepq (d ∷ (due ++ later)) w.asleep in
    let apart : (k : ℕ) → Chain.has k later ≡ true → (k == d) ≡ false = λ k r.
      (let x = w.asleep.distinct.0 in
        elim (Bool-cases (k == d)) [
          | inr n ↦ n
          | inl e ↦
              (let same : k ≡ d = ground arith in
                let z = rw same at r in ground (arith, Chain.has-append d due later))
        ]) in
    let time1 : HasTime s1.queuetab later =
      HasTime-frame s.queuetab s1.queuetab later
        (λ k r. k1.keys k (let x = apart k r in ground arith)) time in
    let (s2, ys2, run2, w2, k2, a2) =
      wake_due-Woken n s1 due later ys1 w1 time1 (rw k1.defers h) (omega arith) (omega arith) in
    let attempts : (due : List ℕ) → (if not_nil due then true else s1.attempt) ≡ true = λ due.
      elim due as (λ l. (if not_nil l then true else s1.attempt) ≡ true) [
        | [] ↦ a1
        | x ∷ xs ↦ refl
      ] in
    (
      s2,
      ys2,
      wake_due_go n s s1 d (first_due s d (due ++ later) w.asleep w.no_time.0) first run ∙ run2,
      w2,
      Woken-cons s s1 s2 d due ys ys1 ys2 k1 k2,
      a2 ∙ attempts due,
    )
