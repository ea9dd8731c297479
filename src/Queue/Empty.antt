-- ===== src/Queue/Empty.antt =====
-- system/newqueue.c: a queue without a process.
use ece564_project.Prelude.{ℕ, ◌+◌, ◌≡◌, refl, false, arith, leb, ◌==◌, some, []}
use ece564_project.Queue.Table.{QTable, nqent, max_key, min_key, is_bad_qid, newqueue}
use ece564_project.Queue.Laws.{IsQueue, good_qid}

-- newqueue while two entries are left in the table: the result is the static number, which is two
-- more afterwards, it is a queue without a process, its head and tail have the greatest and the
-- smallest key, and no other entry changes.
pub newqueue-IsQueue :
    (nextqid : ℕ) (t : QTable)
    → is_bad_qid nextqid ≡ false
    → let (t', next, q) = newqueue nextqid t in
      (q ≡ some nextqid)
      × (next ≡ nextqid + 2)
      × IsQueue t' nextqid []
      × ((t' nextqid).qkey ≡ max_key)
      × ((t' (nextqid + 1)).qkey ≡ min_key)
      × ((k : ℕ) → (k == nextqid) ≡ false → (k == nextqid + 1) ≡ false → t' k ≡ t k)
unfolding newqueue
newqueue-IsQueue nextqid t good =
    let g = good_qid nextqid good in
    let room : leb nqent nextqid ≡ false = ground arith in
    rw room (
      refl,
      refl,
      record { good = good; chain = (ground arith, ground arith); distinct = tt; pids = tt },
      ground arith,
      ground arith,
      λ k a b. ground arith,
    )
