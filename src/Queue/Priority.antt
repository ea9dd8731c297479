-- ===== src/Queue/Priority.antt =====
-- system/insert.c: priority queues, which are queues whose keys descend.
use ece564_project.Prelude.{
  ℕ, zero, suc, ◌+◌, ◌<◌, ◌≡◌, refl, ap, Bool, true, false, arith, ◌==◌, Option, some, Bool-cases,
  inl, inr, ◌∙◌, List, [], ◌∷◌, ◌++◌, length,
}
use mathlib.Core.List.{append-nil}
use ece564_project.Prelude.Int.{ℤ, leb_ℤ, ltb_ℤ}
use ece564_project.Queue.Table.{QTable, set_key, link, insert, find_smaller}
use ece564_project.Queue.Chain
use ece564_project.Queue.Laws.{IsQueue, IsNew, link-IsQueue}
use ece564_project.Queue.Frames.{reads, linked_outside}

-- Every process of the list has a key that passes the test.
abbrev pub Keys : (ℤ → Bool) → QTable → List ℕ → Type 0
Keys test t [] = Unit {0}
Keys test t (x ∷ xs) = (test (t x).qkey ≡ true) × Keys test t xs

-- Keys in descending order.
abbrev pub Descending : QTable → List ℕ → Type 0
Descending t [] = Unit {0}
Descending t (x ∷ xs) = Keys (λ k. leb_ℤ k (t x).qkey) t xs × Descending t xs

-- `t'` is `t` with the process `p` of key `key` behind all of `q` whose key is at least `key`.
pub record Inserts (t t' : QTable) (q p : ℕ) (key : ℤ) (xs : List ℕ) : Type 0 where
  pub front : List ℕ
  pub back : List ℕ
  pub splits : xs ≡ front ++ back
  pub queue : IsQueue t' q (front ++ p ∷ back)
  pub key_set : (t' p).qkey ≡ key
  pub key_frame : (k : ℕ) → (k == p) ≡ false → (t' k).qkey ≡ (t k).qkey
  pub frame : (k : ℕ) → (k == p) ≡ false → reads q xs k ≡ false → t' k ≡ t k
  pub not_smaller : Keys (λ k. leb_ℤ key k) t' front
  pub smaller : Keys (λ k. ltb_ℤ k key) t' back
  pub descending : Descending t' (front ++ p ∷ back)

pub link_key : (p prev next : ℕ) (t : QTable) (k : ℕ) → (link p prev next t k).qkey ≡ (t k).qkey
unfolding link
link_key p prev next t k = ground arith

pub Keys-frame :
    (test : ℤ → Bool) (t t' : QTable) (xs : List ℕ)
    → ((k : ℕ) → Chain.has k xs ≡ true → (t' k).qkey ≡ (t k).qkey)
    → Keys test t xs
    → Keys test t' xs
Keys-frame test t t' [] same k = tt
Keys-frame test t t' (x ∷ xs) same k =
    (rw (same x (ground arith)) k.0, Keys-frame test t t' xs (λ y h. same y (ground arith)) k.1)

Keys-weaken :
    (test test' : ℤ → Bool) (t : QTable) (xs : List ℕ)
    → ((k : ℤ) → test k ≡ true → test' k ≡ true)
    → Keys test t xs
    → Keys test' t xs
Keys-weaken test test' t [] w k = tt
Keys-weaken test test' t (x ∷ xs) w k = (w (t x).qkey k.0, Keys-weaken test test' t xs w k.1)

pub Descending-frame :
    (t t' : QTable) (xs : List ℕ)
    → ((k : ℕ) → Chain.has k xs ≡ true → (t' k).qkey ≡ (t k).qkey)
    → Descending t xs
    → Descending t' xs
Descending-frame t t' [] same d = tt
Descending-frame t t' (x ∷ xs) same d = (
  rw (same x (ground arith))
      (Keys-frame (λ k. leb_ℤ k (t x).qkey) t t' xs (λ y h. same y (ground arith)) d.0),
  Descending-frame t t' xs (λ y h. same y (ground arith)) d.1,
)

-- Where the search stops: behind the keys that are not smaller than `key`.
record Stops (t : QTable) (key : ℤ) (xs : List ℕ) (e : ℕ) (result : Option ℕ) : Type 0 where
  front : List ℕ
  back : List ℕ
  splits : xs ≡ front ++ back
  found : result ≡ some (Chain.first_of back e)
  not_smaller : Keys (λ k. leb_ℤ key k) t front
  smaller : Keys (λ k. ltb_ℤ k key) t back

find_smaller-Stops :
    (fuel : ℕ) (t : QTable) (key : ℤ) (a : ℕ) (xs : List ℕ) (e : ℕ)
    → Chain.Chain t a xs e
    → Descending t xs
    → leb_ℤ key (t e).qkey ≡ false
    → length xs < fuel
    → Stops t key xs e (find_smaller fuel key (Chain.first_of xs e) t)
unfolding find_smaller
find_smaller-Stops zero t key a xs e c d low h = absurd (omega arith)
find_smaller-Stops (suc n) t key a [] e c d low h = record {
  front = [];
  back = [];
  splits = refl;
  found = rw low refl;
  not_smaller = tt;
  smaller = tt;
}
find_smaller-Stops (suc n) t key a (x ∷ xs) e c d low h = elim (Bool-cases (leb_ℤ key (t x).qkey)) [
  | inr stop ↦ record {
    front = [];
    back = x ∷ xs;
    splits = refl;
    found = rw stop refl;
    not_smaller = tt;
    smaller = (
      ground arith,
      Keys-weaken (λ k. leb_ℤ k (t x).qkey) (λ k. ltb_ℤ k key) t xs (λ k g. ground arith) d.0,
    );
  }
  | inl go ↦
      let r = find_smaller-Stops n t key x xs e c.2 d.1 low (omega arith) in
      let next = Chain.Chain-next t x xs e c.2 in
      record {
        front = x ∷ r.front;
        back = r.back;
        splits = ap (λ l. x ∷ l) r.splits;
        found = rw (go, next) r.found;
        not_smaller = (go, r.not_smaller);
        smaller = r.smaller;
      }
]

Keys-insert :
    (test : ℤ → Bool) (t : QTable) (ys : List ℕ) (p : ℕ) (zs : List ℕ)
    → test (t p).qkey ≡ true
    → Keys test t (ys ++ zs)
    → Keys test t (ys ++ p ∷ zs)
Keys-insert test t [] p zs h k = (h, k)
Keys-insert test t (y ∷ ys) p zs h k = (k.0, Keys-insert test t ys p zs h k.1)

Descending-insert :
    (t : QTable) (key : ℤ) (p : ℕ) (ys zs : List ℕ)
    → (t p).qkey ≡ key
    → Keys (λ k. leb_ℤ key k) t ys
    → Keys (λ k. ltb_ℤ k key) t zs
    → Descending t (ys ++ zs)
    → Descending t (ys ++ p ∷ zs)
Descending-insert t key p [] zs e high low d = (
  Keys-weaken (λ k. ltb_ℤ k key) (λ k. leb_ℤ k (t p).qkey) t zs (λ k g. rw e (ground arith)) low,
  d,
)
Descending-insert t key p (y ∷ ys) zs e high low d = (
  Keys-insert (λ k. leb_ℤ k (t y).qkey) t ys p zs (rw e high.0) d.0,
  Descending-insert t key p ys zs e high.1 low d.1,
)

pub set_key-IsQueue :
    (t : QTable) (q p : ℕ) (key : ℤ) (xs : List ℕ) → IsQueue t q xs → IsQueue (set_key t p key) q xs
set_key-IsQueue t q p key xs is = record {
  good = is.good;
  chain =
      Chain.Chain-frame t (set_key t p key) q xs (q + 1) (λ k h. ground arith) (λ k h. ground arith)
        is.chain;
  distinct = is.distinct;
  pids = is.pids;
}

-- The node before the one that the search stops at.
pub Chain-prev_at :
    (t : QTable) (a : ℕ) (ys zs : List ℕ) (e : ℕ)
    → Chain.Chain t a (ys ++ zs) e
    → (t (Chain.first_of zs e)).qprev ≡ Chain.last_of a ys
Chain-prev_at t a ys [] e c = Chain.Chain-prev t a ys e (rw append-nil at c)
Chain-prev_at t a ys (z ∷ zs) e c = Chain.Chain-prev t a ys z (Chain.Chain-split t a ys z zs e c).0

-- insert puts the process at the place that the search stops at.
placed-Inserts :
    (t : QTable) (q p : ℕ) (key : ℤ) (xs ys zs : List ℕ)
    → IsQueue t q xs
    → Descending t xs
    → IsNew p xs
    → xs ≡ ys ++ zs
    → Keys (λ k. leb_ℤ key k) t ys
    → Keys (λ k. ltb_ℤ k key) t zs
    → Inserts t
        (link p (t (Chain.first_of zs (q + 1))).qprev (Chain.first_of zs (q + 1)) (set_key t p key))
        q
        p
        key
        xs
placed-Inserts t q p key xs ys zs is d new splits high low =
    let is' : IsQueue t q (ys ++ zs) = rw splits at is in
    let d' : Descending t (ys ++ zs) = rw splits at d in
    let new' : IsNew p (ys ++ zs) = rw splits at new in
    let prev = Chain-prev_at t q ys zs (q + 1) is'.chain in
    let next : ℕ = Chain.first_of zs (q + 1) in
    let t' : QTable = link p (Chain.last_of q ys) next (set_key t p key) in
    let keys : (k : ℕ) → (t' k).qkey ≡ (set_key t p key k).qkey =
      λ k. link_key p (Chain.last_of q ys) next (set_key t p key) k in
    let same : (k : ℕ) → Chain.has k (ys ++ zs) ≡ true → (t' k).qkey ≡ (t k).qkey =
      λ k h. keys k ∙ (let a = new'.absent in ground arith) in
    let key_set : (t' p).qkey ≡ key = keys p ∙ ground arith in
    let high' =
      Keys-frame (λ k. leb_ℤ key k) t t' ys
        (λ k h. same k (ground (arith, Chain.has-append k ys zs))) high in
    let low' =
      Keys-frame (λ k. ltb_ℤ k key) t t' zs
        (λ k h. same k (ground (arith, Chain.has-append k ys zs))) low in
    rw prev (record {
      front = ys;
      back = zs;
      splits = splits;
      queue =
          link-IsQueue (set_key t p key) q p ys zs (set_key-IsQueue t q p key (ys ++ zs) is') new';
      key_set = key_set;
      key_frame = λ k h. keys k ∙ ground arith;
      frame =
          λ k h o. linked_outside (set_key t p key) q p ys zs k h (rw splits at o) ∙ ground arith;
      not_smaller = high';
      smaller = low';
      descending =
          Descending-insert t' key p ys zs key_set high' low'
            (Descending-frame t t' (ys ++ zs) same d');
    })

-- insert on a queue whose keys descend, of a process that is in use and not in the queue, with
-- a key that is above the key of the queue's tail: the loop ends within one round for each
-- process and one more, the result is OK, and the process stands behind all processes whose key
-- is not smaller than its own and before all others, which keep their order. No entry outside of
-- the queue changes, but for that of the process.
pub insert-Inserts :
    (is_bad_pid : ℕ → Bool) (fuel : ℕ) (t : QTable) (q p : ℕ) (key : ℤ) (xs : List ℕ)
    → IsQueue t q xs
    → Descending t xs
    → IsNew p xs
    → is_bad_pid p ≡ false
    → leb_ℤ key (t (q + 1)).qkey ≡ false
    → length xs < fuel
    → (t' : QTable) × (insert is_bad_pid fuel p q key t ≡ some (t', true)) × Inserts t t' q p key xs
unfolding insert
insert-Inserts is_bad_pid fuel t q p key xs is d new known tail h =
    let stop = find_smaller-Stops fuel t key q xs (q + 1) is.chain d tail h in
    let first = Chain.Chain-next t q xs (q + 1) is.chain in
    (
      link p (t (Chain.first_of stop.back (q + 1))).qprev (Chain.first_of stop.back (q + 1))
          (set_key t p key),
      rw (is.good, known, first, stop.found) refl,
      placed-Inserts t q p key xs stop.front stop.back is d new stop.splits stop.not_smaller
          stop.smaller,
    )
