-- ===== src/Process/Many.antt =====
-- system/signaln.c: several signals to a semaphore on which no process waits.
use ece564_project.Prelude.{
  ℕ, zero, suc, ◌+◌, ◌-◌, ◌≡◌, refl, true, false, arith, ◌==◌, some, none, ◌∙◌, ap, subst,
}
use ece564_project.Prelude.Int.{pos, ltb_ℤ, ◌+ℤ◌, ◌-ℤ◌, +ℤ_parts, -ℤ_parts, eq_of_parts}
use ece564_project.Process.State.{System, is_bad_sem}
use ece564_project.Process.Sched.{defer_start, defer_stop}
use ece564_project.Process.Semaphores.{
  semcount, wait, count_down, signal, signaln, release_one, release_many, finish, count_up,
}
use ece564_project.Process.Counts.{accepted, signal_unwaited, wait_positive}

-- A semaphore with the count `n`, and no call of resched is deferred.
pub record Calm (sem n : ℕ) (s : System) : Type 0 where
  pub used : accepted sem s ≡ true
  pub count : (s.semtab sem).scount ≡ pos n
  pub direct : s.ndefers ≡ 0

-- Between resched_cntl(DEFER_START) and resched_cntl(DEFER_STOP).
record Deferred (sem n : ℕ) (s : System) : Type 0 where
  used : accepted sem s ≡ true
  count : (s.semtab sem).scount ≡ pos n
  once : s.ndefers ≡ 1
  quiet : s.attempt ≡ false

one_more : (n : ℕ) → pos n +ℤ pos 1 ≡ pos (n + 1)
one_more n = eq_of_parts (pos n +ℤ pos 1) (pos (n + 1)) (omega (arith, +ℤ_parts (pos n) (pos 1)))

counted_up :
    (sem n : ℕ) (s : System)
    → (s.semtab sem).scount ≡ pos n
    → ((count_up sem s).semtab sem).scount ≡ pos (n + 1)
counted_up sem n s c =
    let e : ((count_up sem s).semtab sem).scount ≡ (s.semtab sem).scount +ℤ pos 1 = ground arith in
    e ∙ ap (λ k. k +ℤ pos 1) c ∙ one_more n

release_one_unwaited :
    (sem n : ℕ) (s : System)
    → (s.semtab sem).scount ≡ pos n
    → release_one sem s ≡ some (count_up sem s)
unfolding release_one
release_one_unwaited sem n s c =
    let free : ltb_ℤ (s.semtab sem).scount (pos 0) ≡ false = rw c (ground arith) in rw free refl

release_many_step :
    (m sem : ℕ) (s s' : System)
    → release_one sem s ≡ some s'
    → release_many (suc m) sem s ≡ release_many m sem s'
unfolding release_many
release_many_step m sem s s' e = ap (λ o. elim o [ none ↦ none | some x ↦ release_many m sem x ]) e

release_many-Deferred :
    (m sem n : ℕ) (s : System)
    → Deferred sem n s
    → (s' : System) × (release_many m sem s ≡ some s') × Deferred sem (n + m) s'
unfolding release_many
release_many-Deferred zero sem n s d =
    let same : n ≡ n + 0 = omega arith in (s, refl, subst (λ k. Deferred sem k s) same d)
release_many-Deferred (suc m) sem n s d =
    let run = release_one_unwaited sem n s d.count in
    let used = d.used in
    let (s', more, d') = release_many-Deferred m sem (n + 1) (count_up sem s) (record {
      used = ground arith;
      count = counted_up sem n s d.count;
      once = d.once;
      quiet = d.quiet;
    }) in
    let total : n + 1 + m ≡ n + suc m = omega arith in
    (
      s',
      release_many_step m sem s (count_up sem s) run ∙ more,
      subst (λ k. Deferred sem k s') total d',
    )

-- signaln, for a count that is not negative.
signaln-accepted :
    (sem m : ℕ) (s : System)
    → accepted sem s ≡ true
    → signaln sem (pos m) s ≡ finish (release_many m sem (defer_start s).0)
unfolding signaln
signaln-accepted sem m s a =
    let good : is_bad_sem sem ≡ false = ground arith in
    let used : (s.semtab sem).used ≡ true = ground arith in
    let up : ltb_ℤ (pos m) (pos 0) ≡ false = ground arith in rw (good, up, used) refl

defer_start-Deferred : (sem n : ℕ) (s : System) → Calm sem n s → Deferred sem n (defer_start s).0
unfolding defer_start
defer_start-Deferred sem n s c =
    let direct = c.direct in
    record { used = c.used; count = c.count; once = ground arith; quiet = ground arith }

defer_stop_quiet :
    (s : System)
    → s.ndefers ≡ 1
    → s.attempt ≡ false
    → defer_stop s ≡ some (record s { ndefers = s.ndefers - 1 }, true)
unfolding defer_stop
defer_stop_quiet s o q =
    let some_left : (s.ndefers == 0) ≡ false = ground arith in rw (some_left, q) (ground arith)

finish-Calm :
    (sem n : ℕ) (s : System)
    → Deferred sem n s
    → (s' : System) × (finish (some s) ≡ some (s', true)) × Calm sem n s'
finish-Calm sem n s d = (
  record s { ndefers = s.ndefers - 1 },
  ap (λ o. elim o [ none ↦ none | some r ↦ some (r.0, true) ]) (defer_stop_quiet s d.once d.quiet),
  record { used = d.used; count = d.count; direct = (let o = d.once in ground arith) },
)

pub signaln-Calm :
    (sem m n : ℕ) (s : System)
    → Calm sem n s
    → (s' : System) × (signaln sem (pos m) s ≡ some (s', true)) × Calm sem (n + m) s'
signaln-Calm sem m n s c =
    let (s1, run, d) =
      release_many-Deferred m sem n (defer_start s).0 (defer_start-Deferred sem n s c) in
    let (s2, stop, c') = finish-Calm sem (n + m) s1 d in
    (s2, signaln-accepted sem m s c.used ∙ ap finish run ∙ stop, c')

pub signal-Calm :
    (sem n : ℕ) (s : System)
    → Calm sem n s
    → (s' : System) × (signal sem s ≡ some (s', true)) × Calm sem (n + 1) s'
signal-Calm sem n s c =
    let used = c.used in
    (
      count_up sem s,
      signal_unwaited sem s c.used (rw c.count (ground arith)),
      record { used = ground arith; count = counted_up sem n s c.count; direct = c.direct },
    )

pub semcount-Calm : (sem n : ℕ) (s : System) → Calm sem n s → semcount sem s ≡ some (pos n)
unfolding semcount
semcount-Calm sem n s c =
    let a = c.used in
    let good : is_bad_sem sem ≡ false = ground arith in
    let used : (s.semtab sem).used ≡ true = ground arith in rw (good, used) (ap some c.count)

one_less : (n : ℕ) → pos (suc n) -ℤ pos 1 ≡ pos n
one_less n =
    eq_of_parts (pos (suc n) -ℤ pos 1) (pos n) (omega (arith, -ℤ_parts (pos (suc n)) (pos 1)))

pub wait-Calm :
    (sem n : ℕ) (s : System)
    → Calm sem (suc n) s
    → (s' : System) × (wait sem s ≡ some (s', true)) × Calm sem n s'
wait-Calm sem n s c =
    let used = c.used in
    let less : ((count_down sem s).semtab sem).scount ≡ (s.semtab sem).scount -ℤ pos 1 =
      ground arith in
    (
      count_down sem s,
      wait_positive sem s c.used (rw c.count (ground arith)),
      record {
        used = ground arith;
        count = less ∙ ap (λ k. k -ℤ pos 1) c.count ∙ one_less n;
        direct = c.direct;
      },
    )
