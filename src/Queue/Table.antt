-- ===== src/Queue/Table.antt =====
-- include/queue.h, system/queue.c, system/getitem.c, system/newqueue.c, system/insert.c and
-- system/insertd.c. A qid16 or pid32 is its bit pattern, so that EMPTY (-1) is 65535 and a
-- negative number is too large for every table. Keys are integers.
use ece564_project.Prelude.{
  ℕ, zero, suc, ◌+◌, ◌-◌, Bool, true, false, ◌&&◌, ◌||◌, ltb, leb, ◌==◌, if◌then◌else◌, Option,
  some, none,
}
use ece564_project.Prelude.Int.{ℤ, pos, negsuc, ◌-ℤ◌, leb_ℤ}

abbrev pub nproc : ℕ
nproc = 100

abbrev pub nsem : ℕ
nsem = 100

-- NPROC + 4 + NSEM + NSEM
abbrev pub nqent : ℕ
nqent = 304

abbrev pub empty : ℕ
empty = 65535

abbrev pub max_key : ℤ
max_key = pos 2147483647

abbrev pub min_key : ℤ
min_key = negsuc 2147483647

pub record QEntry : Type 0 where
  pub qkey : ℤ
  pub qnext : ℕ
  pub qprev : ℕ

abbrev pub QTable : Type 0
QTable = ℕ → QEntry

abbrev pub set_next : QTable → ℕ → ℕ → QTable
set_next t i v k = if k == i then record (t k) { qnext = v } else t k

abbrev pub set_prev : QTable → ℕ → ℕ → QTable
set_prev t i v k = if k == i then record (t k) { qprev = v } else t k

abbrev pub set_key : QTable → ℕ → ℤ → QTable
set_key t i v k = if k == i then record (t k) { qkey = v } else t k

abbrev pub queuehead : ℕ → ℕ
queuehead q = q

abbrev pub queuetail : ℕ → ℕ
queuetail q = q + 1

abbrev pub firstid : QTable → ℕ → ℕ
firstid t q = (t (queuehead q)).qnext

abbrev pub lastid : QTable → ℕ → ℕ
lastid t q = (t (queuetail q)).qprev

-- firstid(q) >= NPROC, as signed numbers
abbrev pub is_empty : QTable → ℕ → Bool
is_empty t q = leb nproc (firstid t q) && ltb (firstid t q) 32768

abbrev pub firstkey : QTable → ℕ → ℤ
firstkey t q = (t (firstid t q)).qkey

abbrev pub is_bad_qid : ℕ → Bool
is_bad_qid q = ltb q nproc || leb (nqent - 1) q

-- The four writes that put `pid` between `prev` and `next`.
unfoldable pub link : ℕ → ℕ → ℕ → QTable → QTable
link pid prev next t =
    set_prev (set_next (set_prev (set_next t pid next) pid prev) prev pid) next pid

-- getitem: `pid` is unlinked from the list that it is in.
unfoldable pub getitem : ℕ → QTable → QTable × ℕ
getitem pid t =
    let next = (t pid).qnext in
    let prev = (t pid).qprev in (set_prev (set_next t prev next) next prev, pid)

unfoldable pub getfirst : ℕ → QTable → QTable × ℕ
getfirst q t = if is_empty t q then (t, empty) else getitem (t (queuehead q)).qnext t

unfoldable pub getlast : ℕ → QTable → QTable × ℕ
getlast q t = if is_empty t q then (t, empty) else getitem (t (queuetail q)).qprev t

-- The functions below check the process with `is_bad_pid` (include/process.h), which reads the
-- process table. The result `none` is SYSERR.
unfoldable pub enqueue : (ℕ → Bool) → ℕ → ℕ → QTable → QTable × Option ℕ
enqueue is_bad_pid pid q t =
    if is_bad_qid q || is_bad_pid pid
    then (t, none)
    else (link pid (t (queuetail q)).qprev (queuetail q) t, some pid)

unfoldable pub dequeue : ℕ → QTable → QTable × Option ℕ
dequeue q t =
    if is_bad_qid q
    then (t, none)
    else if is_empty t q
    then (t, some empty)
    else (let (t', pid) = getfirst q t in (set_next (set_prev t' pid empty) pid empty, some pid))

-- while (queuetab[curr].qkey >= key) curr = queuetab[curr].qnext; `none` if the fuel runs out.
unfoldable pub find_smaller : ℕ → ℤ → ℕ → QTable → Option ℕ
find_smaller zero key curr t = none
find_smaller (suc n) key curr t =
    let rest = find_smaller n key (t curr).qnext t in
    if leb_ℤ key (t curr).qkey then rest else some curr

-- The result is true for OK and false for SYSERR.
unfoldable pub insert : (ℕ → Bool) → ℕ → ℕ → ℕ → ℤ → QTable → Option (QTable × Bool)
insert is_bad_pid fuel pid q key t =
    if is_bad_qid q || is_bad_pid pid
    then some (t, false)
    else elim (find_smaller fuel key (firstid t q) t) [
      | none ↦ none
      | some curr ↦ some (link pid (t curr).qprev curr (set_key t pid key), true)
    ]

-- The loop of insertd: the values of `prev`, `next` and `key` behind it.
unfoldable pub find_delta : ℕ → ℕ → ℕ → ℕ → ℤ → QTable → Option (ℕ × ℕ × ℤ)
find_delta zero q prev next key t = none
find_delta (suc n) q prev next key t =
    let rest = find_delta n q next (t next).qnext (key -ℤ (t next).qkey) t in
    if (if next == queuetail q then false else leb_ℤ (t next).qkey key)
    then rest
    else some (prev, next, key)

unfoldable pub insertd : (ℕ → Bool) → ℕ → ℕ → ℕ → ℤ → QTable → Option (QTable × Bool)
insertd is_bad_pid fuel pid q key t =
    if is_bad_qid q || is_bad_pid pid
    then some (t, false)
    else elim (find_delta fuel q (queuehead q) (t (queuehead q)).qnext key t) [
      | none ↦ none
      | some (prev, next, key') ↦
          let linked = link pid prev next (set_key t pid key') in
          some (
            if next == queuetail q
                then linked
                else set_key linked next ((linked next).qkey -ℤ key'),
            true,
          )
    ]

-- newqueue, with the value of the static `nextqid`. The guard lets NQENT - 1 pass.
unfoldable pub newqueue : ℕ → QTable → QTable × ℕ × Option ℕ
newqueue nextqid t =
    let q = nextqid in
    if leb nqent q then (t, nextqid, none) else (
      set_key
          (set_prev
            (set_next
              (set_key (set_prev (set_next t (queuehead q) (queuetail q)) (queuehead q) empty)
                (queuehead q) max_key)
              (queuetail q) empty)
            (queuetail q) (queuehead q))
          (queuetail q) min_key,
      nextqid + 2,
      some q,
    )
