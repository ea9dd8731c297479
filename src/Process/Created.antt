-- ===== src/Process/Created.antt =====
-- system/create.c: when create succeeds, and what it changes.
use ece564_project.Prelude.{
  ℕ, zero, suc, ◌+◌, ◌-◌, ◌%◌, ◌<◌, ◌≡◌, refl, sym, true, false, arith, ◌==◌, if◌then◌else◌, some,
  none, Option-cases, Bool-cases, inl, inr, ◌⊎◌, List, ◌∙◌, ap, subst,
}
use ece564_project.Prelude.Int.{ℤ, pos, ltb_ℤ, ◌+ℤ◌}
use ece564_project.Queue.Table.{nproc}
use ece564_project.Heap.Blocks.{getstk}
use ece564_project.Paging.Memory.{page_dir_addr_start}
use ece564_project.Process.State.{System, Procent, pr_free}
use ece564_project.Process.Create.{
  Kernel, newpid, stack_size, new_entry, enter_process, enter_found, allocate, create,
}

newpid-cases :
    (n next : ℕ) (procs : ℕ → Procent)
    → (((newpid n next procs).1 ≡ none)
        × ((i : ℕ) → i < n → ((procs ((next + i) % nproc)).prstate == pr_free) ≡ false))
      ⊎ ((p : ℕ) × ((newpid n next procs).1 ≡ some p) × (p < nproc) × ((procs p).prstate ≡ pr_free))
unfolding newpid
newpid-cases zero next procs = inl (refl, λ i h. absurd (omega arith))
newpid-cases (suc n) next procs =
    let p : ℕ = next % nproc in
    elim (Bool-cases ((procs p).prstate == pr_free)) [
      | inl free ↦ inr (p, rw free refl, omega arith, ground arith)
      | inr taken ↦ elim (newpid-cases n (p + 1) procs) [
        | inl (nothing, used) ↦ inl (
          rw taken nothing,
          λ i h. elim (Bool-cases (i == 0)) [
            | inl e ↦ (let first : (next + i) % nproc ≡ p = ground arith in rw first taken)
            | inr later ↦
                let step : (next + i) % nproc ≡ (p + 1 + (i - 1)) % nproc = ground arith in
                rw step (used (i - 1) (ground arith))
          ],
        )
        | inr (q, hit, low, free) ↦ inr (q, rw taken hit, low, free)
      ]
    ]

-- Every process is tried.
comes_round : (next i : ℕ) → i < nproc → (next + (i + nproc - next % nproc) % nproc) % nproc ≡ i
comes_round next i h = ground arith

-- Why create fails.
pub data Refused (ssize : ℕ) (priority : ℤ) (k : Kernel) : Type 0 where
  low_priority : ltb_ℤ priority (pos 1) ≡ true → Refused ssize priority k
  no_process :
      ((i : ℕ) → i < nproc → ((k.sys.proctab i).prstate == pr_free) ≡ false)
      → Refused ssize priority k
  no_stack : (getstk (stack_size ssize) k.heap).1 ≡ none → Refused ssize priority k

-- There is no reason to fail when each of the checks has succeeded.
not-Refused :
    (ssize : ℕ) (priority : ℤ) (k : Kernel) (pid saddr : ℕ)
    → ltb_ℤ priority (pos 1) ≡ false
    → pid < nproc
    → (k.sys.proctab pid).prstate ≡ pr_free
    → (getstk (stack_size ssize) k.heap).1 ≡ some saddr
    → ¬ Refused ssize priority k
not-Refused ssize priority k pid saddr enough low free got (low_priority few) =
    absurd (ground arith)
not-Refused ssize priority k pid saddr enough low free got (no_process used) =
    let taken = used pid low in absurd (ground arith)
not-Refused ssize priority k pid saddr enough low free got (no_stack none_left) =
    absurd (ground arith)

-- The new process and all others.
pub record Created (k k' : Kernel) (pid ssize : ℕ) (priority : ℤ) : Type 0 where
  pub low : pid < nproc
  pub was_free : (k.sys.proctab pid).prstate ≡ pr_free
  pub entry : k'.sys.proctab pid ≡ new_entry priority page_dir_addr_start (k.sys.proctab pid)
  pub parent : (k'.details pid).prparent ≡ k.sys.currpid
  pub stack : (getstk (stack_size ssize) k.heap).1 ≡ some (k'.details pid).prstkbase
  pub heap : k'.heap ≡ (getstk (stack_size ssize) k.heap).0
  pub others : (i : ℕ) → (i == pid) ≡ false → k'.sys.proctab i ≡ k.sys.proctab i
  pub queues : k'.sys.queuetab ≡ k.sys.queuetab
  pub current : k'.sys.currpid ≡ k.sys.currpid
  pub counted : k'.prcount ≡ k.prcount +ℤ pos 1

allocate-cases :
    (ssize : ℕ) (priority : ℤ) (k : Kernel)
    → (((allocate (stack_size ssize) priority k).1 ≡ none)
        × ((allocate (stack_size ssize) priority k).0.sys ≡ k.sys)
        × Refused ssize priority k)
      ⊎ ((pid : ℕ) × (saddr : ℕ) × ((allocate (stack_size ssize) priority k).1 ≡ some (pid, saddr))
          × ((allocate (stack_size ssize) priority k).0.sys ≡ k.sys)
          × ((allocate (stack_size ssize) priority k).0.prcount ≡ k.prcount)
          × ((allocate (stack_size ssize) priority k).0.heap ≡ (getstk (stack_size ssize) k.heap).0)
          × (pid < nproc)
          × ((k.sys.proctab pid).prstate ≡ pr_free)
          × (ltb_ℤ priority (pos 1) ≡ false)
          × ((getstk (stack_size ssize) k.heap).1 ≡ some saddr))
unfolding allocate
allocate-cases ssize priority k = elim (Bool-cases (ltb_ℤ priority (pos 1))) [
  | inl few ↦ inl (rw few refl, rw few refl, low_priority few)
  | inr enough ↦ elim (newpid-cases nproc k.nextpid k.sys.proctab) [
    | inl (nothing, used) ↦ inl (
      rw (enough, nothing) refl,
      rw (enough, nothing) refl,
      no_process (λ i h.
          rw (sym (comes_round k.nextpid i h))
            (used ((i + nproc - k.nextpid % nproc) % nproc) (omega arith))),
    )
    | inr (p, hit, low, free) ↦ elim (Option-cases (getstk (stack_size ssize) k.heap).1) [
      | inl no_mem ↦
          inl (rw (enough, hit, no_mem) refl, rw (enough, hit, no_mem) refl, no_stack no_mem)
      | inr (saddr, got) ↦ inr (
        p,
        saddr,
        rw (enough, hit, got) refl,
        rw (enough, hit, got) refl,
        rw (enough, hit, got) refl,
        rw (enough, hit, got) refl,
        low,
        free,
        enough,
        got,
      )
    ]
  ]
]

enter_process-Created :
    (funcaddr initret ssize : ℕ) (priority : ℤ) (name : ℕ → ℕ) (pid : ℕ) (args : List ℕ) (saddr : ℕ)
    (k k1 : Kernel)
    → k1.sys ≡ k.sys
    → k1.prcount ≡ k.prcount
    → k1.heap ≡ (getstk (stack_size ssize) k.heap).0
    → pid < nproc
    → (k.sys.proctab pid).prstate ≡ pr_free
    → (getstk (stack_size ssize) k.heap).1 ≡ some saddr
    → Created k
        (enter_process funcaddr initret
          (stack_size ssize)
          priority
          name
          pid
          args
          saddr
          page_dir_addr_start
          k1)
        pid
        ssize
        priority
unfolding enter_process
enter_process-Created funcaddr initret ssize priority name pid args saddr k k1 same count heap low
      free got =
    record {
      low = low;
      was_free = free;
      entry =
          ap
            (λ (s : System).
              if pid == pid
              then new_entry priority page_dir_addr_start (s.proctab pid)
              else s.proctab pid)
            same
          ∙ ground arith;
      parent =
          (let new =
              enter_process funcaddr initret (stack_size ssize) priority name pid args saddr
                page_dir_addr_start k1 in
            let here : (new.details pid).prparent ≡ k1.sys.currpid = ground arith in
            here ∙ ap (λ (s : System). s.currpid) same);
      stack =
          (let new =
              enter_process funcaddr initret (stack_size ssize) priority name pid args saddr
                page_dir_addr_start k1 in
            let here : (new.details pid).prstkbase ≡ saddr = ground arith in
            got ∙ ap (λ a. some a) (sym here));
      heap = heap;
      others = λ i h. rw h (ap (λ (s : System). s.proctab i) same);
      queues = ap (λ (s : System). s.queuetab) same;
      current = ap (λ (s : System). s.currpid) same;
      counted = ap (λ c. c +ℤ pos 1) count;
    }

create_refused :
    (funcaddr initret ssize : ℕ) (priority : ℤ) (name : ℕ → ℕ) (args : List ℕ) (k : Kernel)
    → (allocate (stack_size ssize) priority k).1 ≡ none
    → create funcaddr initret ssize priority name args k
      ≡ ((allocate (stack_size ssize) priority k).0, none)
unfolding create
create_refused funcaddr initret ssize priority name args k e =
    ap
      (enter_found funcaddr initret (stack_size ssize) priority name args
        (allocate (stack_size ssize) priority k).0)
      e

create_entered :
    (funcaddr initret ssize : ℕ) (priority : ℤ) (name : ℕ → ℕ) (args : List ℕ) (k : Kernel)
    (pid saddr : ℕ)
    → (allocate (stack_size ssize) priority k).1 ≡ some (pid, saddr)
    → create funcaddr initret ssize priority name args k ≡ (
      enter_process funcaddr initret
          (stack_size ssize)
          priority
          name
          pid
          args
          saddr
          page_dir_addr_start
          (allocate (stack_size ssize) priority k).0,
      some pid,
    )
unfolding create
create_entered funcaddr initret ssize priority name args k pid saddr e =
    ap
      (enter_found funcaddr initret (stack_size ssize) priority name args
        (allocate (stack_size ssize) priority k).0)
      e

-- create fails exactly if the priority is below 1, no entry of the process table is free, or there
-- is no memory for the stack, and then it changes no process and no queue. Else the new process
-- was free and is suspended with that priority, the caller is its parent, its stack is the block
-- that getstk gives, one process more is counted, and no other process and no queue changes.
pub create-Created :
    (funcaddr initret ssize : ℕ) (priority : ℤ) (name : ℕ → ℕ) (args : List ℕ) (k : Kernel)
    → let (k', r) = create funcaddr initret ssize priority name args k in
      ((r ≡ none) × (k'.sys ≡ k.sys) × Refused ssize priority k)
      ⊎ ((pid : ℕ) × (r ≡ some pid)
          × (¬ Refused ssize priority k)
          × Created k k' pid ssize priority)
create-Created funcaddr initret ssize priority name args k =
    elim (allocate-cases ssize priority k) [
      | inl (nothing, same, why) ↦
          let e = create_refused funcaddr initret ssize priority name args k nothing in
          inl (ap (λ r. r.1) e, ap (λ r. r.0.sys) e ∙ same, why)
      | inr (pid, saddr, hit, same, count, heap, low, free, enough, got) ↦
          let e = create_entered funcaddr initret ssize priority name args k pid saddr hit in
          inr (
            pid,
            ap (λ r. r.1) e,
            not-Refused ssize priority k pid saddr enough low free got,
            subst (λ k'. Created k k' pid ssize priority) (sym (ap (λ r. r.0) e))
                (enter_process-Created funcaddr initret ssize priority name pid args saddr k
                  (allocate (stack_size ssize) priority k).0 same count heap low free got),
          )
    ]
