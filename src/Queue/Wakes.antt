-- ===== src/Queue/Wakes.antt =====
-- The wake times of a delta list, and where the loop of system/insertd.c stops.
use ece564_project.Prelude.{
  ℕ, zero, suc, ◌+◌, ◌<◌, ◌≡◌, refl, ap, Bool, true, false, arith, ◌==◌, Option, some, Bool-cases,
  inl, inr, List, [], ◌∷◌, ◌++◌, length,
}
use ece564_project.Prelude.Int.{ℤ, pos, ◌+ℤ◌, ◌-ℤ◌, leb_ℤ, ltb_ℤ, +ℤ_parts, -ℤ_parts, eq_of_parts}
use ece564_project.Queue.Table.{QTable, find_delta}
use ece564_project.Queue.Chain
use ece564_project.Queue.Priority.{Keys}

-- The processes with their wake times, from the time `now`.
abbrev pub wakes : QTable → ℤ → List ℕ → List (ℕ × ℤ)
wakes t now [] = []
wakes t now (x ∷ xs) = (x, now +ℤ (t x).qkey) ∷ wakes t (now +ℤ (t x).qkey) xs

-- The time behind the list.
abbrev pub total : QTable → ℤ → List ℕ → ℤ
total t now [] = now
total t now (x ∷ xs) = total t (now +ℤ (t x).qkey) xs

abbrev pub Times : (ℤ → Bool) → List (ℕ × ℤ) → Type 0
Times test [] = Unit {0}
Times test (e ∷ es) = (test e.1 ≡ true) × Times test es

-- Where the loop stops, started with what is left of `key` at the time `now`.
pub record Stops (t : QTable) (key now : ℤ) (a : ℕ) (xs : List ℕ) (e : ℕ) (r : Option (ℕ × ℕ × ℤ))
    : Type 0 where
  pub front : List ℕ
  pub back : List ℕ
  pub splits : xs ≡ front ++ back
  pub found : r ≡ some (Chain.last_of a front, Chain.first_of back e, key -ℤ total t now front)
  pub due : Times (λ w. leb_ℤ w key) (wakes t now front)
  pub later : Times (λ w. ltb_ℤ key w) (wakes t (total t now front) back)

abbrev pub not_negative : ℤ → Bool
not_negative k = leb_ℤ (pos 0) k

pub later_step :
    (key now k : ℤ) → ltb_ℤ key now ≡ true → not_negative k ≡ true → ltb_ℤ key (now +ℤ k) ≡ true
later_step key now k h n = ground (arith, +ℤ_parts now k)

pub stop_step : (key now k : ℤ) → leb_ℤ k (key -ℤ now) ≡ false → ltb_ℤ key (now +ℤ k) ≡ true
stop_step key now k h = ground (arith, +ℤ_parts now k, -ℤ_parts key now)

pub due_step : (key now k : ℤ) → leb_ℤ k (key -ℤ now) ≡ true → leb_ℤ (now +ℤ k) key ≡ true
due_step key now k h = ground (arith, +ℤ_parts now k, -ℤ_parts key now)

pub rest_step : (key now k : ℤ) → (key -ℤ now) -ℤ k ≡ key -ℤ (now +ℤ k)
rest_step key now k = eq_of_parts ((key -ℤ now) -ℤ k) (key -ℤ (now +ℤ k)) (
    omega
      (arith, -ℤ_parts (key -ℤ now) k, -ℤ_parts key now, -ℤ_parts key (now +ℤ k), +ℤ_parts now k))

pub back_step : (key now : ℤ) → now +ℤ (key -ℤ now) ≡ key
back_step key now =
    eq_of_parts (now +ℤ (key -ℤ now)) key
      (omega (arith, +ℤ_parts now (key -ℤ now), -ℤ_parts key now))

pub next_step : (key now k : ℤ) → key +ℤ (k -ℤ (key -ℤ now)) ≡ now +ℤ k
next_step key now k = eq_of_parts (key +ℤ (k -ℤ (key -ℤ now))) (now +ℤ k) (
    omega (
      arith,
      +ℤ_parts key (k -ℤ (key -ℤ now)),
      -ℤ_parts k (key -ℤ now),
      -ℤ_parts key now,
      +ℤ_parts now k,
    ))

pub from_now : (key : ℤ) → key ≡ key -ℤ pos 0
from_now key = eq_of_parts key (key -ℤ pos 0) (omega (arith, -ℤ_parts key (pos 0)))

pub wakes-later :
    (t : QTable) (now key : ℤ) (xs : List ℕ)
    → Keys not_negative t xs
    → ltb_ℤ key now ≡ true
    → Times (λ w. ltb_ℤ key w) (wakes t now xs)
wakes-later t now key [] k h = tt
wakes-later t now key (x ∷ xs) k h =
    let next : ltb_ℤ key (now +ℤ (t x).qkey) ≡ true = later_step key now (t x).qkey h k.0 in
    (next, wakes-later t (now +ℤ (t x).qkey) key xs k.1 next)

pub find_delta-Stops :
    (fuel q : ℕ) (t : QTable) (key now rest : ℤ) (a : ℕ) (xs : List ℕ)
    → Chain.Chain t a xs (q + 1)
    → Chain.has (q + 1) xs ≡ false
    → Keys not_negative t xs
    → rest ≡ key -ℤ now
    → length xs < fuel
    → Stops t key now a xs (q + 1) (find_delta fuel q a (Chain.first_of xs (q + 1)) rest t)
unfolding find_delta
find_delta-Stops zero q t key now rest a xs c apart k e h = absurd (omega arith)
find_delta-Stops (suc n) q t key now rest a [] c apart k e h = record {
  front = [];
  back = [];
  splits = refl;
  found = rw e (ground arith);
  due = tt;
  later = tt;
}
find_delta-Stops (suc n) q t key now rest a (x ∷ xs) c apart k e h =
    let inside : (x == q + 1) ≡ false = ground arith in
    elim (Bool-cases (leb_ℤ (t x).qkey rest)) [
      | inr stop ↦
          let next : ltb_ℤ key (now +ℤ (t x).qkey) ≡ true =
            stop_step key now (t x).qkey (rw e at stop) in
          record {
            front = [];
            back = x ∷ xs;
            splits = refl;
            found = rw (inside, stop) (rw e refl);
            due = tt;
            later = (next, wakes-later t (now +ℤ (t x).qkey) key xs k.1 next);
          }
      | inl go ↦
          let r =
            find_delta-Stops n q t key (now +ℤ (t x).qkey) (rest -ℤ (t x).qkey) x xs c.2
              (ground arith) k.1 (rw e (rest_step key now (t x).qkey)) (omega arith) in
          let next = Chain.Chain-next t x xs (q + 1) c.2 in
          record {
            front = x ∷ r.front;
            back = r.back;
            splits = ap (λ l. x ∷ l) r.splits;
            found = rw (inside, go, next) r.found;
            due = (due_step key now (t x).qkey (rw e at go), r.due);
            later = r.later;
          }
    ]
