-- ===== src/Queue/Tests.antt =====
-- The theorems on queues at a queue with two processes.
use ece564_project.Prelude.{
  ℕ, ◌≡◌, refl, Bool, true, false, ◌==◌, if◌then◌else◌, some, [], ◌∷◌, arith,
}
use ece564_project.Prelude.Int.{pos}
use ece564_project.Queue.Table.{QTable, empty, max_key, min_key, insert, insertd}
use ece564_project.Queue.Laws.{IsQueue, IsNew}
use ece564_project.Queue.Priority.{Inserts, insert-Inserts}
use ece564_project.Queue.Frames.{reads}
use ece564_project.Queue.Delta.{Delays, insertd-Delays}

-- The queue 200 holds the processes 3, with the key 7, and 5, with the key 4.
abbrev items : QTable
items k =
    if k == 200
    then record { qkey = max_key; qnext = 3; qprev = empty }
    else if k == 3
    then record { qkey = pos 7; qnext = 5; qprev = 200 }
    else if k == 5
    then record { qkey = pos 4; qnext = 201; qprev = 3 }
    else if k == 201
    then record { qkey = min_key; qnext = empty; qprev = 5 }
    else record { qkey = pos 0; qnext = empty; qprev = empty }

abbrev nobody : ℕ → Bool
nobody p = false

items-IsQueue : IsQueue items 200 (3 ∷ 5 ∷ [])
items-IsQueue = record {
  good = refl;
  chain = (refl, refl, (refl, refl, (refl, refl)));
  distinct = (refl, (refl, tt));
  pids = (omega arith, (omega arith, tt));
}

nine-IsNew : IsNew 9 (3 ∷ 5 ∷ [])
nine-IsNew = record { pid = omega arith; absent = refl }

insert-Inserts_example :
    (t : QTable) × (insert nobody 3 9 200 (pos 5) items ≡ some (t, true))
    × Inserts items t 200 9 (pos 5) (3 ∷ 5 ∷ [])
insert-Inserts_example =
    insert-Inserts nobody 3 items 200 9 (pos 5) (3 ∷ 5 ∷ []) items-IsQueue ((refl, tt), (tt, tt))
      nine-IsNew refl refl (omega arith)

insertd-Delays_example :
    (t : QTable) × (insertd nobody 3 9 200 (pos 8) items ≡ some (t, true))
    × Delays items t 200 9 (pos 8) (3 ∷ 5 ∷ [])
    × ((k : ℕ) → (k == 9) ≡ false → reads 200 (3 ∷ 5 ∷ []) k ≡ false → t k ≡ items k)
insertd-Delays_example =
    insertd-Delays nobody 3 items 200 9 (pos 8) (3 ∷ 5 ∷ []) items-IsQueue (refl, (refl, tt))
      nine-IsNew refl (omega arith)
