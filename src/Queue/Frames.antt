-- ===== src/Queue/Frames.antt =====
-- What the functions of the queue table leave as it is: a queue keeps its processes when another
-- queue changes.
use ece564_project.Prelude.{
  ℕ, ◌+◌, ◌≡◌, refl, Bool, true, false, ◌||◌, arith, ◌==◌, List, [], ◌∷◌, ◌++◌, ap,
}
use ece564_project.Queue.Table.{QTable, QEntry, link, getitem, dequeue}
use ece564_project.Queue.Chain
use ece564_project.Queue.Laws.{IsQueue, dequeue-cons, dequeue-nil}

-- The entries that a queue reads: its head, its tail and its processes.
abbrev pub reads : ℕ → List ℕ → ℕ → Bool
reads q xs k = (k == q) || (k == q + 1) || Chain.has k xs

-- The queues `q` with `xs` and `r` with `ys` read no entry in common.
abbrev pub Separate : ℕ → List ℕ → ℕ → List ℕ → Type 0
Separate q xs r ys = (k : ℕ) → reads q xs k ≡ true → reads r ys k ≡ false

pub IsQueue-frame :
    (t t' : QTable) (q : ℕ) (xs : List ℕ)
    → ((k : ℕ) → reads q xs k ≡ true → t' k ≡ t k)
    → IsQueue t q xs
    → IsQueue t' q xs
IsQueue-frame t t' q xs same is = record {
  good = is.good;
  chain =
      Chain.Chain-frame t t' q xs (q + 1)
        (λ k h. ap (λ (e : QEntry). e.qnext) (same k (ground arith)))
        (λ k h. ap (λ (e : QEntry). e.qprev) (same k (ground arith))) is.chain;
  distinct = is.distinct;
  pids = is.pids;
}

pub first_of-has :
    (xs : List ℕ) (e k : ℕ)
    → (k == e) ≡ false
    → Chain.has k xs ≡ false
    → (k == Chain.first_of xs e) ≡ false
first_of-has [] e k h g = h
first_of-has (x ∷ xs) e k h g = ground arith

link_spares :
    (t : QTable) (p prev next k : ℕ)
    → (k == p) ≡ false
    → (k == prev) ≡ false
    → (k == next) ≡ false
    → link p prev next t k ≡ t k
unfolding link
link_spares t p prev next k a b c = ground arith

-- Linking a process into a queue, with a new key for it.
pub linked_outside :
    (t : QTable) (q p : ℕ) (xs ys : List ℕ) (k : ℕ)
    → (k == p) ≡ false
    → reads q (xs ++ ys) k ≡ false
    → link p (Chain.last_of q xs) (Chain.first_of ys (q + 1)) t k ≡ t k
linked_outside t q p xs ys k a h =
    let parts = Chain.has-append k xs ys in
    link_spares t p (Chain.last_of q xs) (Chain.first_of ys (q + 1)) k a
      (Chain.last_of-has q xs k (ground arith) (ground arith))
      (first_of-has ys (q + 1) k (ground arith) (ground arith))

getitem_spares :
    (t : QTable) (p k : ℕ)
    → (k == (t p).qprev) ≡ false
    → (k == (t p).qnext) ≡ false
    → (getitem p t).0 k ≡ t k
unfolding getitem
getitem_spares t p k a b = ground arith

-- Unlinking a process of a queue changes only entries of the queue.
pub getitem_outside :
    (t : QTable) (q p : ℕ) (xs ys : List ℕ) (k : ℕ)
    → IsQueue t q (xs ++ p ∷ ys)
    → reads q (xs ++ p ∷ ys) k ≡ false
    → (getitem p t).0 k ≡ t k
getitem_outside t q p xs ys k is h =
    let (front, back) = Chain.Chain-split t q xs p ys (q + 1) is.chain in
    let parts = Chain.has-append k xs (p ∷ ys) in
    let prev = Chain.last_of-has q xs k (ground arith) (ground arith) in
    let next = first_of-has ys (q + 1) k (ground arith) (ground arith) in
    getitem_spares t p k (rw (Chain.Chain-prev t q xs p front) prev)
      (rw (Chain.Chain-next t p ys (q + 1) back) next)

-- dequeue changes only entries of the queue.
pub dequeue_outside :
    (t : QTable) (q x : ℕ) (xs : List ℕ) (k : ℕ)
    → IsQueue t q (x ∷ xs)
    → reads q (x ∷ xs) k ≡ false
    → (dequeue q t).0 k ≡ t k
dequeue_outside t q x xs k is h =
    rw (dequeue-cons t q x xs is) (let same = getitem_outside t q x [] xs k is h in ground arith)

pub dequeue_kept :
    (t : QTable) (q : ℕ) (xs : List ℕ) (k : ℕ)
    → IsQueue t q xs
    → reads q xs k ≡ false
    → (dequeue q t).0 k ≡ t k
dequeue_kept t q [] k is h = rw (dequeue-nil t q is) refl
dequeue_kept t q (x ∷ xs) k is h = dequeue_outside t q x xs k is h
