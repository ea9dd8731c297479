-- ===== src/Process/Suspend.antt =====
-- system/suspend.c: a ready process, or the running one, is suspended.
use ece564_project.Prelude.{
  ℕ, ◌+◌, ◌≡◌, refl, Bool, true, false, arith, ◌==◌, some, List, [], ◌∷◌, ◌++◌, ◌∙◌,
}
use ece564_project.Prelude.Int.{ℤ, leb_ℤ}
use ece564_project.Queue.Table.{QTable, getitem}
use ece564_project.Queue.Chain
use ece564_project.Queue.Laws.{getitem-IsQueue, AllPids-right}
use ece564_project.Queue.Priority.{Keys, Descending, Descending-frame}
use ece564_project.Process.State.{
  System, pr_curr, pr_ready, pr_susp, set_state, is_bad_pid, nullproc,
}
use ece564_project.Process.Sched.{suspend}
use ece564_project.Process.Ready.{ReadyList}

getitem_key : (p : ℕ) (t : QTable) (k : ℕ) → ((getitem p t).0 k).qkey ≡ (t k).qkey
unfolding getitem
getitem_key p t k = ground arith

Keys-remove :
    (test : ℤ → Bool) (t : QTable) (xs : List ℕ) (p : ℕ) (ys : List ℕ)
    → Keys test t (xs ++ p ∷ ys)
    → Keys test t (xs ++ ys)
Keys-remove test t [] p ys k = k.1
Keys-remove test t (x ∷ xs) p ys k = (k.0, Keys-remove test t xs p ys k.1)

Descending-remove :
    (t : QTable) (xs : List ℕ) (p : ℕ) (ys : List ℕ)
    → Descending t (xs ++ p ∷ ys)
    → Descending t (xs ++ ys)
Descending-remove t [] p ys d = d.1
Descending-remove t (x ∷ xs) p ys d =
    (Keys-remove (λ k. leb_ℤ k (t x).qkey) t xs p ys d.0, Descending-remove t xs p ys d.1)

-- The system with the ready process `p` taken out of the ready list.
abbrev suspended : ℕ → System → System
suspended p s = set_state p pr_susp (record s { queuetab = (getitem p s.queuetab).0 })

suspended-ReadyList :
    (s : System) (p : ℕ) (xs ys : List ℕ)
    → ReadyList s (xs ++ p ∷ ys)
    → ReadyList (suspended p s) (xs ++ ys)
suspended-ReadyList s p xs ys r =
    let inside : (k : ℕ) → Chain.has k (xs ++ ys) ≡ true → Chain.has k (xs ++ p ∷ ys) ≡ true =
      λ k h. ground (arith, Chain.has-append k xs ys, Chain.has-append k xs (p ∷ ys)) in
    let absent : Chain.has p (xs ++ ys) ≡ false =
      (let d = r.queue.distinct in
        let left = Chain.Distinct-apart xs (p ∷ ys) p d (ground arith) in
        let right = (Chain.Distinct-right xs (p ∷ ys) d).0 in
        ground (arith, Chain.has-append p xs ys)) in
    record {
      queue = getitem-IsQueue s.queuetab s.readylist p xs ys r.queue;
      descending =
          Descending-frame s.queuetab (getitem p s.queuetab).0 (xs ++ ys)
            (λ k h. getitem_key p s.queuetab k) (Descending-remove s.queuetab xs p ys r.descending);
      tail = getitem_key p s.queuetab (s.readylist + 1) ∙ r.tail;
      ready = λ k h. (let a = r.ready k (inside k h) in ground arith);
      keys = λ k h. getitem_key p s.queuetab k ∙ (let a = r.keys k (inside k h) in ground arith);
    }

-- suspend of a ready process other than the null process: the result is its priority, it is
-- suspended, the ready list is in order and holds the others, and the same process runs.
pub suspend-ready :
    (s : System) (p : ℕ) (xs ys : List ℕ)
    → ReadyList s (xs ++ p ∷ ys)
    → (p == nullproc) ≡ false
    → (s' : System) × (suspend p s ≡ some (s', some (s.proctab p).prprio))
      × ReadyList s' (xs ++ ys)
      × ((s'.proctab p).prstate ≡ pr_susp)
      × (s'.currpid ≡ s.currpid)
unfolding suspend
suspend-ready s p xs ys r not_null =
    let right = AllPids-right xs (p ∷ ys) r.queue.pids in
    let ready : (s.proctab p).prstate ≡ pr_ready =
      r.ready p (ground (arith, Chain.has-append p xs (p ∷ ys))) in
    let is_ready : ((s.proctab p).prstate == pr_ready) ≡ true = ground arith in
    let not_curr : ((s.proctab p).prstate == pr_curr) ≡ false = ground arith in
    let known : is_bad_pid s p ≡ false = (let small = right.0 in ground arith) in
    (
      suspended p s,
      rw (known, not_null, not_curr, is_ready) refl,
      suspended-ReadyList s p xs ys r,
      ground arith,
      refl,
    )
