-- ===== src/Queue/Delta.antt =====
-- system/insertd.c: a delta list holds for each process its delay behind the one before it.
-- Its wake times are the sums of the delays.
use ece564_project.Prelude.{
  ℕ, ◌+◌, ◌<◌, ◌≡◌, refl, ap, Bool, true, false, ◌||◌, arith, ◌==◌, if◌then◌else◌, some, ◌∙◌,
  Bool-cases, inl, inr, List, [], ◌∷◌, ◌++◌, length,
}
use ece564_project.Prelude.Int.{ℤ, pos, ◌+ℤ◌, ◌-ℤ◌, leb_ℤ, ltb_ℤ}
use ece564_project.Queue.Table.{QTable, QEntry, set_key, link, insertd, queuetail}
use ece564_project.Queue.Chain
use ece564_project.Queue.Laws.{
  IsQueue, IsNew, link-IsQueue, good_qid, AllPids-right, AllPids-not_has,
}
use ece564_project.Queue.Frames.{reads, IsQueue-frame, first_of-has, linked_outside}
use ece564_project.Queue.Priority.{Keys, link_key, set_key-IsQueue}
use ece564_project.Queue.Wakes.{
  wakes, total, Times, not_negative, back_step, next_step, from_now, find_delta-Stops,
}

pub wakes-append :
    (t : QTable) (now : ℤ) (xs ys : List ℕ)
    → wakes t now (xs ++ ys) ≡ wakes t now xs ++ wakes t (total t now xs) ys
wakes-append t now [] ys = refl
wakes-append t now (x ∷ xs) ys =
    ap (λ l. (x, now +ℤ (t x).qkey) ∷ l) (wakes-append t (now +ℤ (t x).qkey) xs ys)

pub wakes-frame :
    (t t' : QTable) (now : ℤ) (xs : List ℕ)
    → ((k : ℕ) → Chain.has k xs ≡ true → (t' k).qkey ≡ (t k).qkey)
    → (wakes t' now xs ≡ wakes t now xs) × (total t' now xs ≡ total t now xs)
wakes-frame t t' now [] same = (refl, refl)
wakes-frame t t' now (x ∷ xs) same =
    let rest = wakes-frame t t' (now +ℤ (t x).qkey) xs (λ k h. same k (ground arith)) in
    rw (same x (ground arith)) (ap (λ l. (x, now +ℤ (t x).qkey) ∷ l) rest.0, rest.1)

-- `t'` is `t` with the process `p` in the list, to wake up `key` from now: behind those that wake
-- up by then, before those that wake up later, and with all other wake times as they were.
pub record Delays (t t' : QTable) (q p : ℕ) (key : ℤ) (xs : List ℕ) : Type 0 where
  pub front : List ℕ
  pub back : List ℕ
  pub splits : xs ≡ front ++ back
  pub queue : IsQueue t' q (front ++ p ∷ back)
  pub due : Times (λ w. leb_ℤ w key) (wakes t (pos 0) front)
  pub later : Times (λ w. ltb_ℤ key w) (wakes t (total t (pos 0) front) back)
  pub old : wakes t (pos 0) xs ≡ wakes t (pos 0) front ++ wakes t (total t (pos 0) front) back
  pub times :
      wakes t' (pos 0) (front ++ p ∷ back)
      ≡ wakes t (pos 0) front ++ (p, key) ∷ wakes t (total t (pos 0) front) back

-- What insertd writes for a stop between `prev` and `next`.
abbrev linked : QTable → ℕ → ℕ → ℕ → ℤ → QTable
linked t p prev next key = link p prev next (set_key t p key)

abbrev delayed : QTable → ℕ → ℕ → ℕ → ℕ → ℤ → QTable
delayed t q p prev next key =
    if next == queuetail q
    then linked t p prev next key
    else set_key (linked t p prev next key) next ((linked t p prev next key next).qkey -ℤ key)

-- The wake times of the processes behind the new one: the first delay has shrunk by what the new
-- process takes.
back_times :
    (t t' : QTable) (key now : ℤ) (z : ℕ) (zs : List ℕ)
    → (t' z).qkey ≡ (t z).qkey -ℤ (key -ℤ now)
    → ((k : ℕ) → Chain.has k zs ≡ true → (t' k).qkey ≡ (t k).qkey)
    → wakes t' key (z ∷ zs) ≡ wakes t now (z ∷ zs)
back_times t t' key now z zs first same =
    let head : key +ℤ (t' z).qkey ≡ now +ℤ (t z).qkey = rw first (next_step key now (t z).qkey) in
    let tail = wakes-frame t t' (now +ℤ (t z).qkey) zs same in
    rw head (ap (λ l. (z, now +ℤ (t z).qkey) ∷ l) tail.0)

-- The wake times of a list with `p` in it, from those of its parts.
times_around :
    (t t' : QTable) (p : ℕ) (key : ℤ) (ys zs : List ℕ)
    → ((k : ℕ) → Chain.has k ys ≡ true → (t' k).qkey ≡ (t k).qkey)
    → (t' p).qkey ≡ key -ℤ total t (pos 0) ys
    → wakes t' key zs ≡ wakes t (total t (pos 0) ys) zs
    → wakes t' (pos 0) (ys ++ p ∷ zs)
      ≡ wakes t (pos 0) ys ++ (p, key) ∷ wakes t (total t (pos 0) ys) zs
times_around t t' p key ys zs same own behind =
    let front = wakes-frame t t' (pos 0) ys same in
    let step : total t' (pos 0) ys +ℤ (t' p).qkey ≡ key =
      rw (front.1, own) (back_step key (total t (pos 0) ys)) in
    rw (wakes-append t' (pos 0) ys (p ∷ zs), front.0, step, behind)

linked_key :
    (t : QTable) (p prev next : ℕ) (key : ℤ) (k : ℕ)
    → (linked t p prev next key k).qkey ≡ (if k == p then key else (t k).qkey)
linked_key t p prev next key k = link_key p prev next (set_key t p key) k ∙ ground arith

-- The keys behind insertd, when it stops before the tail and when it stops at the tail.
delayed_inside :
    (t : QTable) (q p prev next : ℕ) (key : ℤ) (k : ℕ)
    → (next == q + 1) ≡ false
    → (delayed t q p prev next key k).qkey ≡ (
        if k == next
        then (linked t p prev next key next).qkey -ℤ key
        else (linked t p prev next key k).qkey)
delayed_inside t q p prev next key k h = rw h (ground arith)

delayed_end :
    (t : QTable) (q p prev next : ℕ) (key : ℤ)
    → (next == q + 1) ≡ true
    → delayed t q p prev next key ≡ linked t p prev next key
delayed_end t q p prev next key h = rw h

linked_spares :
    (t : QTable) (q p : ℕ) (key : ℤ) (ys zs : List ℕ) (k : ℕ)
    → (k == p) ≡ false
    → reads q (ys ++ zs) k ≡ false
    → linked t p (Chain.last_of q ys) (Chain.first_of zs (q + 1)) key k ≡ t k
linked_spares t q p key ys zs k h o =
    linked_outside (set_key t p key) q p ys zs k h o ∙ ground arith

delayed_outside :
    (t : QTable) (q p : ℕ) (key : ℤ) (ys zs : List ℕ) (k : ℕ)
    → (k == p) ≡ false
    → reads q (ys ++ zs) k ≡ false
    → delayed t q p (Chain.last_of q ys) (Chain.first_of zs (q + 1)) key k ≡ t k
delayed_outside t q p key ys zs k h o =
    let next : ℕ = Chain.first_of zs (q + 1) in
    let prev : ℕ = Chain.last_of q ys in
    let spared = linked_spares t q p key ys zs k h o in
    let apart : (k == next) ≡ false =
      first_of-has zs (q + 1) k (ground arith) (ground (arith, Chain.has-append k ys zs)) in
    elim (Bool-cases (next == q + 1)) [
      | inl e ↦ ap (λ f. f k) (delayed_end t q p prev next key e) ∙ spared
      | inr e ↦ rw e (rw apart spared)
    ]

module _ (t : QTable) (q p : ℕ) (key : ℤ) (ys : List ℕ) where
  -- What is left of the key at the stop.
  abbrev left : ℤ
  left = key -ℤ total t (pos 0) ys

  linked-IsQueue :
      (zs : List ℕ)
      → IsQueue t q (ys ++ zs)
      → IsNew p (ys ++ zs)
      → IsQueue (linked t p (Chain.last_of q ys) (Chain.first_of zs (q + 1)) left) q (ys ++ p ∷ zs)
  linked-IsQueue zs is new =
      link-IsQueue (set_key t p left) q p ys zs (set_key-IsQueue t q p left (ys ++ zs) is) new

  delayed_behind :
      (zs : List ℕ)
      → IsQueue t q (ys ++ zs)
      → IsNew p (ys ++ zs)
      → IsQueue
          (delayed t q p (Chain.last_of q ys) (Chain.first_of zs (q + 1)) left)
          q
          (ys ++ p ∷ zs)
        × (wakes
              (delayed t q p (Chain.last_of q ys) (Chain.first_of zs (q + 1)) left)
              (pos 0)
              (ys ++ p ∷ zs)
            ≡ wakes t (pos 0) ys ++ (p, key) ∷ wakes t (total t (pos 0) ys) zs)
  delayed_behind [] is new =
      let t' : QTable = linked t p (Chain.last_of q ys) (q + 1) left in
      rw (delayed_end t q p (Chain.last_of q ys) (q + 1) left (ground arith)) (
        linked-IsQueue [] is new,
        times_around t t' p key ys []
            (λ k h.
              linked_key t p (Chain.last_of q ys) (q + 1) left k
              ∙ (let a = new.absent in ground (arith, Chain.has-append p ys [])))
            (linked_key t p (Chain.last_of q ys) (q + 1) left p ∙ ground arith) refl,
      )
  delayed_behind (z ∷ zs) is new =
      let prev : ℕ = Chain.last_of q ys in
      let t' : QTable = delayed t q p prev z left in
      let inside : (z == q + 1) ≡ false =
        (let r = AllPids-right ys (z ∷ zs) is.pids in let g = good_qid q is.good in ground arith) in
      let other : (p == z) ≡ false =
        (let a = new.absent in ground (arith, Chain.has-append p ys (z ∷ zs))) in
      let turned : (z == p) ≡ false = ground arith in
      let absent : (Chain.has p ys || Chain.has p (z ∷ zs)) ≡ false =
        rw (Chain.has-append p ys (z ∷ zs)) at new.absent in
      let first : Chain.has z ys ≡ false =
        Chain.Distinct-apart ys (z ∷ zs) z is.distinct (ground arith) in
      let alone : Chain.has z zs ≡ false = (Chain.Distinct-right ys (z ∷ zs) is.distinct).0 in
      let keys : (k : ℕ) → (k == z) ≡ false → (k == p) ≡ false → (t' k).qkey ≡ (t k).qkey = λ k a b.
        delayed_inside t q p prev z left k inside ∙ rw (a, linked_key t p prev z left k, b) in
      (
        rw inside (
            set_key-IsQueue (linked t p prev z left) q z ((linked t p prev z left z).qkey -ℤ left)
              (ys ++ p ∷ z ∷ zs) (linked-IsQueue (z ∷ zs) is new)),
        times_around t t' p key ys (z ∷ zs) (λ k h. keys k (ground arith) (ground arith))
            (delayed_inside t q p prev z left p inside
              ∙ rw (other, linked_key t p prev z left p) (ground arith))
            (back_times t t' key (total t (pos 0) ys) z zs
              (delayed_inside t q p prev z left z inside
                ∙ rw (linked_key t p prev z left z, turned) (ground arith))
              (λ k h. keys k (ground arith) (ground arith))),
      )

-- insertd on a delta list with no negative delay, of a process that is in use and not in the
-- list: the loop ends within one round for each process and one more, the result is OK, the
-- process is to wake up `key` from now, it stands behind those that wake up by then and before
-- those that wake up later, and the wake times of the others are as they were. No entry outside of
-- the list changes, but for that of the process.
pub insertd-Delays :
    (is_bad_pid : ℕ → Bool) (fuel : ℕ) (t : QTable) (q p : ℕ) (key : ℤ) (xs : List ℕ)
    → IsQueue t q xs
    → Keys not_negative t xs
    → IsNew p xs
    → is_bad_pid p ≡ false
    → length xs < fuel
    → (t' : QTable) × (insertd is_bad_pid fuel p q key t ≡ some (t', true))
      × Delays t t' q p key xs
      × ((k : ℕ) → (k == p) ≡ false → reads q xs k ≡ false → t' k ≡ t k)
unfolding insertd
insertd-Delays is_bad_pid fuel t q p key xs is k new known h =
    let low = (good_qid q is.good).0 in
    let outside = AllPids-not_has xs (q + 1) is.pids (omega arith) in
    let stop = find_delta-Stops fuel q t key (pos 0) key q xs is.chain outside k (from_now key) h in
    let next = Chain.Chain-next t q xs (q + 1) is.chain in
    let (queue, times) =
      delayed_behind t q p key stop.front stop.back (rw stop.splits at is)
        (rw stop.splits at new) in
    (
      delayed t q p (Chain.last_of q stop.front) (Chain.first_of stop.back (q + 1))
          (key -ℤ total t (pos 0) stop.front),
      rw (is.good, known, next, stop.found) refl,
      record {
        front = stop.front;
        back = stop.back;
        splits = stop.splits;
        queue = queue;
        due = stop.due;
        later = stop.later;
        old = ap (wakes t (pos 0)) stop.splits ∙ wakes-append t (pos 0) stop.front stop.back;
        times = times;
      },
      λ k a o.
          delayed_outside t q p (key -ℤ total t (pos 0) stop.front) stop.front stop.back k a
            (rw stop.splits at o),
    )

-- The list survives a change of other entries.
pub Delays-frame :
    (t t1 t2 : QTable) (q p : ℕ) (key : ℤ) (xs : List ℕ)
    → ((k : ℕ) → ((k == p) || reads q xs k) ≡ true → t2 k ≡ t1 k)
    → Delays t t1 q p key xs
    → Delays t t2 q p key xs
Delays-frame t t1 t2 q p key xs same d =
    let all : List ℕ = d.front ++ p ∷ d.back in
    let inside : (k : ℕ) → Chain.has k all ≡ true → ((k == p) || reads q xs k) ≡ true = λ k h.
      rw d.splits (
        ground
          (arith, Chain.has-append k d.front d.back, Chain.has-append k d.front (p ∷ d.back))) in
    record {
      front = d.front;
      back = d.back;
      splits = d.splits;
      queue =
          IsQueue-frame t1 t2 q all
            (λ k r.
              same k
                (elim (Bool-cases (Chain.has k all)) [ inl h ↦ inside k h | inr n ↦ ground arith ]))
            d.queue;
      due = d.due;
      later = d.later;
      old = d.old;
      times =
          (wakes-frame t1 t2 (pos 0) all
            (λ k h. ap (λ (e : QEntry). e.qkey) (same k (inside k h)))).0
          ∙ d.times;
    }
