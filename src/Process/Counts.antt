-- ===== src/Process/Counts.antt =====
-- system/semcreate.c, system/wait.c and system/signal.c: the choice of a semaphore, and
-- the count of one on which nobody has to wait.
use ece564_project.Prelude.{
  ℕ, zero, suc, ◌+◌, ◌-◌, ◌%◌, ◌<◌, ◌≡◌, refl, sym, Bool, true, false, arith, leb, ◌==◌,
  if◌then◌else◌, some, none, Bool-cases, inl, inr, ◌⊎◌, ap, ◌∙◌,
}
use ece564_project.Prelude.Int.{ℤ, pos, ltb_ℤ, ◌+ℤ◌, ◌-ℤ◌, +ℤ_parts, -ℤ_parts, eq_of_parts}
use ece564_project.Queue.Table.{nsem}
use ece564_project.Process.State.{System, Sentry, update_sem, is_bad_sem}
use ece564_project.Process.Semaphores.{
  newsem, semcreate, semcount, block, wait, signal, release_one, count_up, count_down,
}

newsem-cases :
    (n : ℕ) (s : System)
    → s.nextsem < nsem
    → (((newsem n s).1 ≡ none)
        × ((i : ℕ) → i < n → (s.semtab ((s.nextsem + i) % nsem)).used ≡ true)
        × ((newsem n s).0.semtab ≡ s.semtab))
      ⊎ ((sem : ℕ) × ((newsem n s).1 ≡ some sem)
          × (sem < nsem)
          × ((s.semtab sem).used ≡ false)
          × ((newsem n s).0.semtab ≡ (update_sem sem (λ e. record e { used = true }) s).semtab))
unfolding newsem
newsem-cases zero s low = inl (refl, λ i h. absurd (omega arith), refl)
newsem-cases (suc n) s low =
    let sem : ℕ = s.nextsem in
    let s1 : System = record s { nextsem = if leb nsem (sem + 1) then 0 else sem + 1 } in
    elim (Bool-cases (s.semtab sem).used) [
      | inr free ↦ inr (sem, rw free refl, low, free, rw free refl)
      | inl taken ↦ elim (newsem-cases n s1 (ground arith)) [
        | inl (nothing, used, same) ↦ inl (
          rw taken nothing,
          λ i h. elim (Bool-cases (i == 0)) [
            | inl e ↦
                let first : (s.nextsem + i) % nsem ≡ s.nextsem = ground arith in rw first taken
            | inr later ↦
                let step : (s.nextsem + i) % nsem ≡ (s1.nextsem + (i - 1)) % nsem = ground arith in
                rw step (used (i - 1) (ground arith))
          ],
          rw taken same,
        )
        | inr (i, found, small, free, same) ↦ inr (i, rw taken found, small, free, rw taken same)
      ]
    ]

-- The table with the semaphore `sem` in use and `count` as its count.
abbrev pub created : ℕ → ℤ → System → ℕ → Sentry
created sem count s =
    (update_sem sem (λ e. record e { scount = count })
      (update_sem sem (λ e. record e { used = true }) s)).semtab

semcreate-none :
    (count : ℤ) (s : System)
    → ltb_ℤ count (pos 0) ≡ false
    → (newsem nsem s).1 ≡ none
    → semcreate count s ≡ ((newsem nsem s).0, none)
unfolding semcreate
semcreate-none count s h e = rw (h, e) refl

semcreate-some :
    (count : ℤ) (s : System) (sem : ℕ)
    → ltb_ℤ count (pos 0) ≡ false
    → (newsem nsem s).1 ≡ some sem
    → semcreate count s
      ≡ (update_sem sem (λ e. record e { scount = count }) (newsem nsem s).0, some sem)
unfolding semcreate
semcreate-some count s sem h e = rw (h, e) refl

-- Every semaphore is tried.
comes_round : (k i : ℕ) → k < nsem → i < nsem → (k + (i + nsem - k) % nsem) % nsem ≡ i
comes_round k i a b = ground arith

-- semcreate of a count that is not negative: if all semaphores are in use, the result is SYSERR
-- and the semaphore table is unchanged; else the result is a semaphore that was free, which is
-- now in use with that count, and no other semaphore changes.
pub semcreate-created :
    (count : ℤ) (s : System)
    → s.nextsem < nsem
    → ltb_ℤ count (pos 0) ≡ false
    → (((semcreate count s).1 ≡ none)
        × ((i : ℕ) → i < nsem → (s.semtab i).used ≡ true)
        × ((semcreate count s).0.semtab ≡ s.semtab))
      ⊎ ((sem : ℕ) × ((semcreate count s).1 ≡ some sem)
          × (sem < nsem)
          × ((s.semtab sem).used ≡ false)
          × ((semcreate count s).0.semtab ≡ created sem count s))
semcreate-created count s low h = elim (newsem-cases nsem s low) [
  | inl (nothing, used, same) ↦
      let r = semcreate-none count s h nothing in
      inl (
        rw r refl,
        λ i b.
            rw (sym (comes_round s.nextsem i low b))
              (used ((i + nsem - s.nextsem) % nsem) (omega arith)),
        rw r same,
      )
  | inr (sem, found, small, free, same) ↦
      let r = semcreate-some count s sem h found in
      inr (
        sem,
        rw r refl,
        small,
        free,
        rw r (λ i k. if k == sem then record (same i k) { scount = count } else same i k),
      )
]

-- A semaphore that the functions accept.
abbrev pub accepted : ℕ → System → Bool
accepted sem s = if is_bad_sem sem then false else (s.semtab sem).used

pub wait-accepted :
    (sem : ℕ) (s : System)
    → accepted sem s ≡ true
    → wait sem s ≡ (
        if ltb_ℤ ((count_down sem s).semtab sem).scount (pos 0)
        then block sem (count_down sem s)
        else some (count_down sem s, true))
unfolding wait
wait-accepted sem s a =
    let good : is_bad_sem sem ≡ false = ground arith in
    let used : (s.semtab sem).used ≡ true = ground arith in rw (good, used) refl

pub wait_positive :
    (sem : ℕ) (s : System)
    → accepted sem s ≡ true
    → ltb_ℤ (pos 0) (s.semtab sem).scount ≡ true
    → wait sem s ≡ some (count_down sem s, true)
wait_positive sem s a p =
    let free : ltb_ℤ ((count_down sem s).semtab sem).scount (pos 0) ≡ false =
      ground (arith, -ℤ_parts (s.semtab sem).scount (pos 1)) in
    wait-accepted sem s a
    ∙ ap (λ (b : Bool). if b then block sem (count_down sem s) else some (count_down sem s, true))
        free

pub back_up : (c : ℤ) → (c -ℤ pos 1) +ℤ pos 1 ≡ c
back_up c =
    eq_of_parts ((c -ℤ pos 1) +ℤ pos 1) c
      (omega (arith, +ℤ_parts (c -ℤ pos 1) (pos 1), -ℤ_parts c (pos 1)))

pub signal_unwaited :
    (sem : ℕ) (s : System)
    → accepted sem s ≡ true
    → ltb_ℤ (s.semtab sem).scount (pos 0) ≡ false
    → signal sem s ≡ some (count_up sem s, true)
unfolding signal release_one
signal_unwaited sem s a p =
    let good : is_bad_sem sem ≡ false = ground arith in
    let used : (s.semtab sem).used ≡ true = ground arith in rw (good, used, p) refl

-- wait on a semaphore in use with a positive count, and then signal: neither blocks nor releases
-- a process, both are OK, the process table and the queues do not change, the count in between
-- is less by 1, and in the end every semaphore is as it was.
pub signal-wait :
    (sem : ℕ) (s : System)
    → accepted sem s ≡ true
    → ltb_ℤ (pos 0) (s.semtab sem).scount ≡ true
    → (s1 : System) × (s2 : System) × (wait sem s ≡ some (s1, true))
      × (semcount sem s1 ≡ some ((s.semtab sem).scount -ℤ pos 1))
      × (signal sem s1 ≡ some (s2, true))
      × ((k : ℕ) → s2.semtab k ≡ s.semtab k)
      × (s2.proctab ≡ s.proctab)
      × (s2.queuetab ≡ s.queuetab)
      × (s2.currpid ≡ s.currpid)
unfolding semcount
signal-wait sem s a p =
    let s1 : System = count_down sem s in
    let good : is_bad_sem sem ≡ false = ground arith in
    let used : (s1.semtab sem).used ≡ true = ground arith in
    let free : ltb_ℤ (s1.semtab sem).scount (pos 0) ≡ false =
      ground (arith, -ℤ_parts (s.semtab sem).scount (pos 1)) in
    (
      s1,
      count_up sem s1,
      wait_positive sem s a p,
      rw (good, used) (ground arith),
      signal_unwaited sem s1 (rw (good, used)) free,
      λ k. elim (Bool-cases (k == sem)) [
        | inl e ↦ rw e (rw (back_up (s.semtab k).scount) refl)
        | inr e ↦ rw e refl
      ],
      refl,
      refl,
      refl,
    )
