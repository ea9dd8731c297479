-- ===== src/Queue/Laws.antt =====
-- system/queue.c against lists: the list of processes that a queue holds, and what enqueue and
-- dequeue make of it.
use ece564_project.Prelude.{
  ℕ, ◌+◌, ◌≤◌, ◌<◌, ◌≡◌, refl, Bool, true, false, arith, some, List, [], ◌∷◌, ◌++◌,
}
use mathlib.Core.List.{append-nil, append_assoc}
use ece564_project.Queue.Table.{
  QTable, set_next, set_prev, nproc, empty, is_bad_qid, is_empty, link, getitem, getfirst, enqueue,
  dequeue,
}
use ece564_project.Queue.Chain

abbrev pub AllPids : List ℕ → Type 0
AllPids [] = Unit {0}
AllPids (x ∷ xs) = (x < nproc) × AllPids xs

-- The queue `q` holds the processes `xs`, first to last.
pub record IsQueue (t : QTable) (q : ℕ) (xs : List ℕ) : Type 0 where
  pub good : is_bad_qid q ≡ false
  pub chain : Chain.Chain t q xs (q + 1)
  pub distinct : Chain.Distinct xs
  pub pids : AllPids xs

-- A process that is in no place of the queue.
pub record IsNew (p : ℕ) (xs : List ℕ) : Type 0 where
  pub pid : p < nproc
  pub absent : Chain.has p xs ≡ false

pub AllPids-not_has : (xs : List ℕ) (k : ℕ) → AllPids xs → nproc ≤ k → Chain.has k xs ≡ false
AllPids-not_has [] k a h = refl
AllPids-not_has (x ∷ xs) k a h = ground (arith, AllPids-not_has xs k a.1 h)

pub AllPids-left : (xs ys : List ℕ) → AllPids (xs ++ ys) → AllPids xs
AllPids-left [] ys a = tt
AllPids-left (x ∷ xs) ys a = (a.0, AllPids-left xs ys a.1)

pub AllPids-right : (xs ys : List ℕ) → AllPids (xs ++ ys) → AllPids ys
AllPids-right [] ys a = a
AllPids-right (x ∷ xs) ys a = AllPids-right xs ys a.1

pub AllPids-append : (xs ys : List ℕ) → AllPids xs → AllPids ys → AllPids (xs ++ ys)
AllPids-append [] ys a b = b
AllPids-append (x ∷ xs) ys a b = (a.0, AllPids-append xs ys a.1 b)

pub Distinct-insert :
    (xs ys : List ℕ) (p : ℕ)
    → Chain.Distinct (xs ++ ys)
    → Chain.has p (xs ++ ys) ≡ false
    → Chain.Distinct (xs ++ p ∷ ys)
Distinct-insert [] ys p d h = (h, d)
Distinct-insert (x ∷ xs) ys p d h = (
  ground (arith, Chain.has-append x xs ys, Chain.has-append x xs (p ∷ ys)),
  Distinct-insert xs ys p d.1 (ground arith),
)

pub good_qid : (q : ℕ) → is_bad_qid q ≡ false → (nproc ≤ q) × (q < 303)
good_qid q h = ground arith

-- Linking a new process between two parts of a queue.
pub link-IsQueue :
    (t : QTable) (q p : ℕ) (xs ys : List ℕ)
    → IsQueue t q (xs ++ ys)
    → IsNew p (xs ++ ys)
    → IsQueue (link p (Chain.last_of q xs) (Chain.first_of ys (q + 1)) t) q (xs ++ p ∷ ys)
link-IsQueue t q p xs [] is new =
    let low = (good_qid q is.good).0 in
    let small = new.pid in
    let pids = AllPids-left xs [] is.pids in
    record {
      good = is.good;
      chain =
          Chain.link-Chain t p q xs (q + 1)
            (record {
              distinct = (AllPids-not_has xs q pids low, Chain.Distinct-left xs [] is.distinct);
              end_new = ground (arith, AllPids-not_has xs (q + 1) pids);
              pid_new = let a = new.absent in ground (arith, Chain.has-append p xs []);
              pid_end = ground arith;
            })
            (rw append-nil at is.chain);
      distinct = Distinct-insert xs [] p is.distinct new.absent;
      pids = AllPids-append xs (p ∷ []) pids (new.pid, tt);
    }
link-IsQueue t q p xs (y ∷ ys) is new =
    let low = (good_qid q is.good).0 in
    let small = new.pid in
    let a = new.absent in
    let pids = AllPids-left xs (y ∷ ys) is.pids in
    let right = AllPids-right xs (y ∷ ys) is.pids in
    let (front, back) = Chain.Chain-split t q xs y ys (q + 1) is.chain in
    let apart = λ (k : ℕ) (h : Chain.has k (y ∷ ys) ≡ true).
      Chain.Distinct-apart xs (y ∷ ys) k is.distinct h in
    let fresh : Chain.Fresh p q xs y = record {
      distinct = (AllPids-not_has xs q pids low, Chain.Distinct-left xs (y ∷ ys) is.distinct);
      end_new = ground (arith, apart y (ground arith));
      pid_new = ground (arith, Chain.has-append p xs (y ∷ ys));
      pid_end = ground (arith, Chain.has-append p xs (y ∷ ys));
    } in
    let t' : QTable = link p (Chain.last_of q xs) y t in
    record {
      good = is.good;
      chain = rw append_assoc at (
          Chain.Chain-append t' q (xs ++ p ∷ []) y ys (q + 1)
            (Chain.link-Chain t p q xs y fresh front)
            (Chain.link-Chain_behind t p q xs y ys (q + 1) fresh
              (ground (arith, Chain.has-append p xs (y ∷ ys)))
              (Chain.Distinct-right xs (y ∷ ys) is.distinct) (ground arith)
              (λ k h. ground (arith, apart k (ground arith), AllPids-not_has (y ∷ ys) q right low))
              back));
      distinct = Distinct-insert xs (y ∷ ys) p is.distinct new.absent;
      pids = AllPids-append xs (p ∷ y ∷ ys) pids (new.pid, right);
    }

pub first_of-nil : (t : QTable) (q : ℕ) → IsQueue t q [] → is_empty t q ≡ true
first_of-nil t q is = let c = is.chain in let g = good_qid q is.good in ground arith

pub first_of-cons :
    (t : QTable) (q x : ℕ) (xs : List ℕ) → IsQueue t q (x ∷ xs) → is_empty t q ≡ false
first_of-cons t q x xs is =
    let c = is.chain in let g = good_qid q is.good in let p = is.pids in ground arith

abbrev pub rest_of : List ℕ → List ℕ
rest_of [] = []
rest_of (x ∷ xs) = xs

Distinct-remove :
    (xs ys : List ℕ) (p : ℕ) → Chain.Distinct (xs ++ p ∷ ys) → Chain.Distinct (xs ++ ys)
Distinct-remove [] ys p d = d.1
Distinct-remove (x ∷ xs) ys p d = (
  ground (arith, Chain.has-append x xs ys, Chain.has-append x xs (p ∷ ys)),
  Distinct-remove xs ys p d.1,
)

link_outside :
    (t : QTable) (q p : ℕ) (xs : List ℕ) (k : ℕ)
    → Chain.has k (q ∷ (q + 1) ∷ p ∷ xs) ≡ false
    → link p (Chain.last_of q xs) (q + 1) t k ≡ t k
unfolding link
link_outside t q p xs k h = ground (arith, Chain.last_of-has q xs k)

-- Unlinking a process of a queue.
pub getitem-IsQueue :
    (t : QTable) (q p : ℕ) (xs ys : List ℕ)
    → IsQueue t q (xs ++ p ∷ ys)
    → IsQueue (getitem p t).0 q (xs ++ ys)
getitem-IsQueue t q p xs ys is =
    let (low, high) = good_qid q is.good in
    let all : List ℕ = xs ++ p ∷ ys in
    let right = AllPids-right xs (p ∷ ys) is.pids in
    record {
      good = is.good;
      chain =
          Chain.getitem-Chain t p q xs ys (q + 1) (AllPids-not_has all q is.pids low, is.distinct)
            (ground (arith, AllPids-not_has all (q + 1) is.pids)) is.chain;
      distinct = Distinct-remove xs ys p is.distinct;
      pids = AllPids-append xs ys (AllPids-left xs (p ∷ ys) is.pids) right.1;
    }

-- The writes of EMPTY to a process that is in no place of the queue.
unlinked-IsQueue :
    (t : QTable) (q p : ℕ) (xs : List ℕ)
    → IsQueue t q xs
    → p < nproc
    → Chain.has p xs ≡ false
    → IsQueue (set_next (set_prev t p empty) p empty) q xs
unlinked-IsQueue t q p xs is small out =
    let (low, high) = good_qid q is.good in
    record {
      good = is.good;
      chain =
          Chain.Chain-frame t (set_next (set_prev t p empty) p empty) q xs (q + 1)
            (λ k h. ground arith) (λ k h. ground arith) is.chain;
      distinct = is.distinct;
      pids = is.pids;
    }

-- enqueue on a queue that holds `xs`, of a process that is in use and not in the queue: the
-- process is returned, and the queue holds `xs` and then the process. No entry outside of the
-- queue changes, but for that of the process.
pub enqueue-snoc :
    (is_bad_pid : ℕ → Bool) (t : QTable) (q p : ℕ) (xs : List ℕ)
    → IsQueue t q xs
    → IsNew p xs
    → is_bad_pid p ≡ false
    → IsQueue (enqueue is_bad_pid p q t).0 q (xs ++ p ∷ [])
      × ((enqueue is_bad_pid p q t).1 ≡ some p)
      × ((k : ℕ)
          → Chain.has k (q ∷ (q + 1) ∷ p ∷ xs) ≡ false
          → (enqueue is_bad_pid p q t).0 k ≡ t k)
unfolding enqueue
enqueue-snoc is_bad_pid t q p xs is new known =
    let prev = Chain.Chain-prev t q xs (q + 1) is.chain in
    let new' : IsNew p (xs ++ []) = rw append-nil new in
    rw (is.good, known, prev)
      (link-IsQueue t q p xs [] (rw append-nil is) new', refl, λ k h. link_outside t q p xs k h)

pub dequeue-nil : (t : QTable) (q : ℕ) → IsQueue t q [] → dequeue q t ≡ (t, some empty)
unfolding dequeue
dequeue-nil t q is = rw (is.good, first_of-nil t q is)

pub dequeue-cons :
    (t : QTable) (q x : ℕ) (xs : List ℕ)
    → IsQueue t q (x ∷ xs)
    → dequeue q t ≡ (set_next (set_prev (getitem x t).0 x empty) x empty, some x)
unfolding dequeue getfirst getitem
dequeue-cons t q x xs is =
    let next = Chain.Chain-next t q (x ∷ xs) (q + 1) is.chain in
    rw (is.good, first_of-cons t q x xs is, next)

-- dequeue on a queue with a first process returns that process, and the queue holds the rest;
-- on an empty queue it returns EMPTY and the queue stays empty.
pub dequeue-uncons :
    (t : QTable) (q : ℕ) (xs : List ℕ)
    → IsQueue t q xs
    → IsQueue (dequeue q t).0 q (rest_of xs) × ((dequeue q t).1 ≡ some (Chain.first_of xs empty))
dequeue-uncons t q [] is = rw (dequeue-nil t q is) (is, refl)
dequeue-uncons t q (x ∷ xs) is =
    let d = is.distinct in
    rw (dequeue-cons t q x xs is)
      (unlinked-IsQueue (getitem x t).0 q x xs (getitem-IsQueue t q x [] xs is) is.pids.0 d.0, refl)

-- Two operations in a row on a queue with the processes `xs`: after the new process is enqueued,
-- dequeue returns the first of `xs`, or the new process if there was none.
pub dequeue-enqueue :
    (is_bad_pid : ℕ → Bool) (t : QTable) (q p : ℕ) (xs : List ℕ)
    → IsQueue t q xs
    → IsNew p xs
    → is_bad_pid p ≡ false
    → (dequeue q (enqueue is_bad_pid p q t).0).1 ≡ some (Chain.first_of xs p)
dequeue-enqueue is_bad_pid t q p [] is new known =
    (dequeue-uncons (enqueue is_bad_pid p q t).0 q (p ∷ [])
      (enqueue-snoc is_bad_pid t q p [] is new known).0).1
dequeue-enqueue is_bad_pid t q p (x ∷ xs) is new known =
    (dequeue-uncons (enqueue is_bad_pid p q t).0 q (x ∷ (xs ++ p ∷ []))
      (enqueue-snoc is_bad_pid t q p (x ∷ xs) is new known).0).1

-- dequeue changes no key.
pub dequeue_key : (t : QTable) (q k : ℕ) → ((dequeue q t).0 k).qkey ≡ (t k).qkey
unfolding dequeue getfirst getitem
dequeue_key t q k = ground arith
