-- ===== src/Queue/Chain.antt =====
-- Doubly linked chains in the queue table: what the links of a queue say, and how linking and
-- unlinking a process changes the list that they stand for.
use ece564_project.Prelude.{
  ℕ, ◌≡◌, refl, Bool, true, false, ◌||◌, arith, ◌==◌, if◌then◌else◌, ◌∙◌, List, [], ◌∷◌, ◌++◌,
}
use mathlib.Core.List.{append-nil}
use ece564_project.Queue.Table.{QTable, set_next, set_prev, link, getitem}

abbrev pub has : ℕ → List ℕ → Bool
has a [] = false
has a (x ∷ xs) = (a == x) || has a xs

abbrev pub Distinct : List ℕ → Type 0
Distinct [] = Unit {0}
Distinct (x ∷ xs) = (has x xs ≡ false) × Distinct xs

-- From `a` the next links lead through `xs` to `e`, and the previous links lead back.
abbrev pub Chain : QTable → ℕ → List ℕ → ℕ → Type 0
Chain t a [] e = ((t a).qnext ≡ e) × ((t e).qprev ≡ a)
Chain t a (x ∷ xs) e = ((t a).qnext ≡ x) × ((t x).qprev ≡ a) × Chain t x xs e

-- The last node before the end.
abbrev pub last_of : ℕ → List ℕ → ℕ
last_of a [] = a
last_of a (x ∷ xs) = last_of x xs

-- The first node behind the start.
abbrev pub first_of : List ℕ → ℕ → ℕ
first_of [] e = e
first_of (x ∷ xs) e = x

pub Chain-prev :
    (t : QTable) (a : ℕ) (xs : List ℕ) (e : ℕ) → Chain t a xs e → (t e).qprev ≡ last_of a xs
Chain-prev t a [] e c = c.1
Chain-prev t a (x ∷ xs) e c = Chain-prev t x xs e c.2

pub Chain-next :
    (t : QTable) (a : ℕ) (xs : List ℕ) (e : ℕ) → Chain t a xs e → (t a).qnext ≡ first_of xs e
Chain-next t a [] e c = c.0
Chain-next t a (x ∷ xs) e c = c.0

pub last_of-has :
    (a : ℕ) (xs : List ℕ) (b : ℕ)
    → (b == a) ≡ false
    → has b xs ≡ false
    → (b == last_of a xs) ≡ false
last_of-has a [] b h g = h
last_of-has a (x ∷ xs) b h g = last_of-has x xs b (ground arith) (ground arith)

pub has-append : (a : ℕ) (xs ys : List ℕ) → has a (xs ++ ys) ≡ (has a xs || has a ys)
has-append a [] ys = refl
has-append a (x ∷ xs) ys = ground (arith, has-append a xs ys)

-- A chain survives a change that spares the links that it reads.
pub Chain-frame :
    (t t' : QTable) (a : ℕ) (xs : List ℕ) (e : ℕ)
    → ((k : ℕ) → ((k == a) || has k xs) ≡ true → (t' k).qnext ≡ (t k).qnext)
    → ((k : ℕ) → ((k == e) || has k xs) ≡ true → (t' k).qprev ≡ (t k).qprev)
    → Chain t a xs e
    → Chain t' a xs e
Chain-frame t t' a [] e next prev c = (next a (ground arith) ∙ c.0, prev e (ground arith) ∙ c.1)
Chain-frame t t' a (x ∷ xs) e next prev c = (
  next a (ground arith) ∙ c.0,
  prev x (ground arith) ∙ c.1,
  Chain-frame t t' x xs e (λ k h. next k (ground arith)) (λ k h. prev k (ground arith)) c.2,
)

pub Chain-append :
    (t : QTable) (a : ℕ) (xs : List ℕ) (b : ℕ) (ys : List ℕ) (e : ℕ)
    → Chain t a xs b
    → Chain t b ys e
    → Chain t a (xs ++ b ∷ ys) e
Chain-append t a [] b ys e c d = (c.0, c.1, d)
Chain-append t a (x ∷ xs) b ys e c d = (c.0, c.1, Chain-append t x xs b ys e c.2 d)

-- The two parts of a chain at one of its nodes.
pub Chain-split :
    (t : QTable) (a : ℕ) (xs : List ℕ) (b : ℕ) (ys : List ℕ) (e : ℕ)
    → Chain t a (xs ++ b ∷ ys) e
    → Chain t a xs b × Chain t b ys e
Chain-split t a [] b ys e c = ((c.0, c.1), c.2)
Chain-split t a (x ∷ xs) b ys e c =
    let (front, back) = Chain-split t x xs b ys e c.2 in ((c.0, c.1, front), back)

-- The nodes of a chain are distinct, and `p` is none of them.
pub record Fresh (p a : ℕ) (xs : List ℕ) (e : ℕ) : Type 0 where
  pub distinct : Distinct (a ∷ xs)
  pub end_new : ((e == a) || has e xs) ≡ false
  pub pid_new : ((p == a) || has p xs) ≡ false
  pub pid_end : (p == e) ≡ false

-- Linked before the end of a chain, a process becomes its last node.
pub link-Chain :
    (t : QTable) (p a : ℕ) (xs : List ℕ) (e : ℕ)
    → Fresh p a xs e
    → Chain t a xs e
    → Chain (link p (last_of a xs) e t) a (xs ++ p ∷ []) e
unfolding link
link-Chain t p a [] e f c = (ground arith, ground arith, (ground arith, ground arith))
link-Chain t p a (x ∷ xs) e f c =
    let apart =
      last_of-has x xs a (let d = f.distinct in ground arith)
        (let d = f.distinct in ground arith) in
    (
      ground arith,
      ground arith,
      link-Chain t p x xs e
          (record {
            distinct = f.distinct.1;
            end_new = let h = f.end_new in ground arith;
            pid_new = let h = f.pid_new in ground arith;
            pid_end = f.pid_end;
          })
          c.2,
    )

link_next :
    (p prev next : ℕ) (t : QTable) (k : ℕ)
    → (link p prev next t k).qnext ≡ (if k == prev then p else if k == p then next else (t k).qnext)
unfolding link
link_next p prev next t k = ground arith

link_prev :
    (p prev next : ℕ) (t : QTable) (k : ℕ)
    → (link p prev next t k).qprev ≡ (if k == next then p else if k == p then prev else (t k).qprev)
unfolding link
link_prev p prev next t k = ground arith

-- The chain behind the place of the new process is not touched.
pub link-Chain_behind :
    (t : QTable) (p a : ℕ) (xs : List ℕ) (b : ℕ) (ys : List ℕ) (e : ℕ)
    → Fresh p a xs b
    → ((p == e) || has p ys) ≡ false
    → Distinct (b ∷ ys)
    → (b == e) ≡ false
    → ((k : ℕ) → ((k == b) || has k ys) ≡ true → ((k == a) || has k xs) ≡ false)
    → Chain t b ys e
    → Chain (link p (last_of a xs) b t) b ys e
link-Chain_behind t p a xs b ys e f new d be apart c =
    Chain-frame t (link p (last_of a xs) b t) b ys e
      (λ k h.
        let out =
          last_of-has a xs k (let o = apart k h in ground arith)
            (let o = apart k h in ground arith) in
        let pe = f.pid_end in link_next p (last_of a xs) b t k ∙ ground arith)
      (λ k h. link_prev p (last_of a xs) b t k ∙ ground arith) c

-- The two writes that join `prev` and `next`.
abbrev join : ℕ → ℕ → QTable → QTable
join prev next t = set_prev (set_next t prev next) next prev

-- A chain is given another end.
join-Chain :
    (t : QTable) (a : ℕ) (xs : List ℕ) (p b : ℕ)
    → Distinct (a ∷ xs)
    → ((b == a) || has b xs) ≡ false
    → Chain t a xs p
    → Chain (join (last_of a xs) b t) a xs b
join-Chain t a [] p b d n c = (ground arith, ground arith)
join-Chain t a (x ∷ xs) p b d n c =
    let apart = last_of-has x xs a (ground arith) (ground arith) in
    (ground arith, ground arith, join-Chain t x xs p b d.1 (ground arith) c.2)

join-Chain_behind :
    (t : QTable) (prev b : ℕ) (ys : List ℕ) (e : ℕ)
    → Distinct (b ∷ ys)
    → (b == e) ≡ false
    → ((k : ℕ) → ((k == b) || has k ys) ≡ true → (k == prev) ≡ false)
    → Chain t b ys e
    → Chain (join prev b t) b ys e
join-Chain_behind t prev b ys e d be apart c =
    Chain-frame t (join prev b t) b ys e (λ k h. let o = apart k h in ground arith)
      (λ k h. ground arith) c

pub Distinct-left : (xs ys : List ℕ) → Distinct (xs ++ ys) → Distinct xs
Distinct-left [] ys d = tt
Distinct-left (x ∷ xs) ys d = (ground (arith, has-append x xs ys), Distinct-left xs ys d.1)

pub Distinct-right : (xs ys : List ℕ) → Distinct (xs ++ ys) → Distinct ys
Distinct-right [] ys d = d
Distinct-right (x ∷ xs) ys d = Distinct-right xs ys d.1

pub Distinct-apart :
    (xs ys : List ℕ) (k : ℕ) → Distinct (xs ++ ys) → has k ys ≡ true → has k xs ≡ false
Distinct-apart [] ys k d h = refl
Distinct-apart (x ∷ xs) ys k d h = ground (arith, has-append x xs ys, Distinct-apart xs ys k d.1 h)

-- A process is unlinked from a chain.
pub getitem-Chain :
    (t : QTable) (p a : ℕ) (xs ys : List ℕ) (e : ℕ)
    → Distinct (a ∷ xs ++ p ∷ ys)
    → has e (a ∷ xs ++ p ∷ ys) ≡ false
    → Chain t a (xs ++ p ∷ ys) e
    → Chain (getitem p t).0 a (xs ++ ys) e
unfolding getitem
getitem-Chain t p a xs [] e d n c =
    let (front, back) = Chain-split t a xs p [] e c in
    rw (Chain-prev t a xs p front, back.0, append-nil)
      (join-Chain t a xs p e (Distinct-left (a ∷ xs) (p ∷ []) d)
        (ground (arith, has-append e xs (p ∷ []))) front)
getitem-Chain t p a xs (y ∷ ys) e d n c =
    let (front, back) = Chain-split t a xs p (y ∷ ys) e c in
    let apart =
      λ (k : ℕ) (h : has k (p ∷ y ∷ ys) ≡ true). Distinct-apart (a ∷ xs) (p ∷ y ∷ ys) k d h in
    let right = Distinct-right (a ∷ xs) (p ∷ y ∷ ys) d in
    rw (Chain-prev t a xs p front, back.0)
      (Chain-append (join (last_of a xs) y t) a xs y ys e
        (join-Chain t a xs p y (Distinct-left (a ∷ xs) (p ∷ y ∷ ys) d) (apart y (ground arith))
          front)
        (join-Chain_behind t (last_of a xs) y ys e right.1
          (ground (arith, has-append e xs (p ∷ y ∷ ys)))
          (λ k h.
            let o = apart k (ground arith) in last_of-has a xs k (ground arith) (ground arith))
          back.2))
