-- ===== src/Process/Resume.antt =====
-- system/ready.c and system/resume.c: a suspended process becomes ready again.
use ece564_project.Prelude.{
  ℕ, ◌≤◌, ◌≡◌, refl, Bool, true, false, ◌||◌, arith, ◌==◌, some, Bool-cases, inl, inr, List, ◌∷◌,
  ◌++◌, length, ◌∙◌, ap, length-append,
}
use ece564_project.Prelude.Int.{ltb_ℤ}
use ece564_project.Queue.Table.{min_key}
use ece564_project.Queue.Chain
use ece564_project.Queue.Laws.{IsNew}
use ece564_project.Queue.Frames.{reads}
use ece564_project.Process.State.{System, pr_curr, pr_ready, pr_susp, set_state, is_bad_pid}
use ece564_project.Process.Sched.{resched, insert_ready, ready, resume}
use ece564_project.Process.Ready.{ReadyList, Dispatched, insert_ready-ReadyList, has-middle}
use ece564_project.Process.Highest.{set_ready-ReadyList, resched-Dispatched}

ready_at :
    (p : ℕ) (s s1 s2 : System)
    → is_bad_pid s p ≡ false
    → insert_ready p (set_state p pr_ready s) ≡ some s1
    → resched s1 ≡ some s2
    → ready p s ≡ some (s2, true)
unfolding ready
ready_at p s s1 s2 known placed done = rw (known, placed, done) refl

resume_at :
    (p : ℕ) (s s2 : System)
    → is_bad_pid s p ≡ false
    → (s.proctab p).prstate ≡ pr_susp
    → ready p s ≡ some (s2, true)
    → resume p s ≡ some (s2, some (s.proctab p).prprio)
unfolding resume
resume_at p s s2 known susp done =
    let is_susp : ((s.proctab p).prstate == pr_susp) ≡ true = ground arith in
    rw (known, is_susp, done) refl

-- What ready leaves as it is.
pub record Readied (s s' : System) (p : ℕ) (xs : List ℕ) : Type 0 where
  pub sleepers : s'.sleepq ≡ s.sleepq
  pub list : s'.readylist ≡ s.readylist
  pub semaphores : s'.semtab ≡ s.semtab
  pub prios : (k : ℕ) → (s'.proctab k).prprio ≡ (s.proctab k).prprio
  pub others : (k : ℕ) → Chain.has k (s.currpid ∷ p ∷ xs) ≡ false → s'.proctab k ≡ s.proctab k
  pub entries :
      (k : ℕ)
      → (k == s.currpid) ≡ false
      → (k == p) ≡ false
      → reads s.readylist xs k ≡ false
      → s'.queuetab k ≡ s.queuetab k

-- ready of a process that is in no place of the ready list, without deferral.
pub ready-Dispatched :
    (s : System) (p : ℕ) (xs : List ℕ)
    → ReadyList s xs
    → (s.proctab s.currpid).prstate ≡ pr_curr
    → IsNew s.currpid xs
    → is_bad_pid s p ≡ false
    → (s.currpid == p) ≡ false
    → IsNew p xs
    → s.ndefers ≡ 0
    → ltb_ℤ min_key (s.proctab s.currpid).prprio ≡ true
    → ltb_ℤ min_key (s.proctab p).prprio ≡ true
    → length xs ≤ 99
    → (s' : System) × (ys : List ℕ) × (ready p s ≡ some (s', true))
      × Dispatched s' ys
      × ((k : ℕ) → Chain.has k (s'.currpid ∷ ys) ≡ Chain.has k (s.currpid ∷ p ∷ xs))
      × Readied s s' p xs
ready-Dispatched s p xs r current new known other new' defers prio prio' len =
    let s1 : System = set_state p pr_ready s in
    let (t, ys, zs, placed, splits, r1, frame, _) =
      insert_ready-ReadyList s1 p xs (set_ready-ReadyList s p xs r) new' (ground arith)
        (ground arith) (omega arith) in
    let s2 : System = record s1 { queuetab = t } in
    let out : Chain.has s.currpid (ys ++ p ∷ zs) ≡ false =
      has-middle s.currpid p xs ys zs splits ∙ (let a = new.absent in ground arith) in
    let more : length (ys ++ p ∷ zs) ≤ 100 =
      (let e = ap length splits in omega (arith, length-append ys zs, length-append ys (p ∷ zs))) in
    let (s', rest, done, d, members, kept) =
      resched-Dispatched s2 (ys ++ p ∷ zs) r1 (ground arith)
        (record { pid = new.pid; absent = out }) defers (ground arith) more in
    let middle = λ (k : ℕ). has-middle k p xs ys zs splits in
    (
      s',
      rest,
      ready_at p s s2 s' known placed done,
      d,
      λ k. members k ∙ ap (λ (b : Bool). (k == s.currpid) || b) (middle k),
      record {
        sleepers = kept.sleepers;
        list = kept.list;
        semaphores = kept.semaphores;
        prios = λ k. kept.prios k ∙ ground arith;
        others = λ k h. kept.others k (let m = middle k in ground arith) ∙ ground arith;
        entries = λ k a b o. kept.entries k a (let m = middle k in ground arith) ∙ frame k b o;
      },
    )

-- resume of a suspended process that is in no place of the ready list, without deferral, with
-- priorities above MINKEY and at most 99 ready processes in an ordered ready list: it ends and
-- returns the priority of the process, and then a process of the highest priority among the
-- eligible ones runs, the resumed one included, and the ready list is in order and holds all the
-- others.
pub resume-Dispatched :
    (s : System) (p : ℕ) (xs : List ℕ)
    → ReadyList s xs
    → (s.proctab s.currpid).prstate ≡ pr_curr
    → IsNew s.currpid xs
    → (s.proctab p).prstate ≡ pr_susp
    → IsNew p xs
    → s.ndefers ≡ 0
    → ltb_ℤ min_key (s.proctab s.currpid).prprio ≡ true
    → ltb_ℤ min_key (s.proctab p).prprio ≡ true
    → length xs ≤ 99
    → (s' : System) × (ys : List ℕ) × (resume p s ≡ some (s', some (s.proctab p).prprio))
      × Dispatched s' ys
      × ((k : ℕ) → Chain.has k (s'.currpid ∷ ys) ≡ Chain.has k (s.currpid ∷ p ∷ xs))
resume-Dispatched s p xs r current new susp new' defers prio prio' len =
    let small = new'.pid in
    let other : (s.currpid == p) ≡ false = (elim (Bool-cases (s.currpid == p)) [
      | inr n ↦ n
      | inl e ↦
          (let same : s.currpid ≡ p = ground arith in
            let c = rw same at current in absurd (omega arith))
    ]) in
    let known : is_bad_pid s p ≡ false = ground arith in
    let (s', rest, done, d, members, _) =
      ready-Dispatched s p xs r current new known other new' defers prio prio' len in
    (s', rest, resume_at p s s' known susp done, d, members)
