-- ===== src/Pool/Buffers.antt =====
-- include/bufpool.h, system/bufinit.c, system/mkbufpool.c, system/getbuf.c and system/freebuf.c.
-- The first word of a free buffer is the link to the next one, that of a buffer in use the number
-- of its pool. getbuf runs in two steps, since its wait may block.
use ece564_project.Prelude.{
  ℕ, zero, suc, ◌+◌, ◌-◌, ◌*◌, ◌/◌, ◌%◌, ◌^◌, Bool, true, false, ◌||◌, leb, ◌==◌, if◌then◌else◌,
  Option, some, none,
}
use ece564_project.Prelude.Int.{ℤ, pos, pos_part, ltb_ℤ}
use ece564_project.Heap.Blocks.{Heap, getmem, freemem}
use ece564_project.Process.State.{System}
use ece564_project.Process.Semaphores.{semcreate, wait, signal}
use ece564_project.Process.Context.{Words, write_word}

abbrev pub nbpools_max : ℕ
nbpools_max = 20

abbrev pub bp_minb : ℕ
bp_minb = 8

abbrev pub bp_maxb : ℕ
bp_maxb = 8192

abbrev pub bp_maxn : ℕ
bp_maxn = 2048

-- struct bpentry
pub record BpEntry : Type 0 where
  pub bpnext : ℕ
  pub bpsem : ℕ
  pub bpsize : ℕ

pub record Pools : Type 0 where
  pub buftab : ℕ → BpEntry
  pub nbpools : ℕ
  pub words : Words
  pub sys : System
  pub heap : Heap

abbrev pub set_entry : ℕ → BpEntry → Pools → Pools
set_entry i e p = record p { buftab = λ k. if k == i then e else p.buftab k }

abbrev pub set_bpnext : ℕ → ℕ → Pools → Pools
set_bpnext i v p = set_entry i (record (p.buftab i) { bpnext = v }) p

unfoldable pub bufinit : Pools → Pools
bufinit p = record p { nbpools = 0 }

-- The loop that links the buffers: `n` more behind the one at `buf`.
unfoldable pub link_buffers : ℕ → ℕ → ℕ → Words → Words
link_buffers zero buf size m = write_word buf 0 m
link_buffers (suc n) buf size m = link_buffers n (buf + size) size (write_word buf (buf + size) m)

-- (bufsiz + 3) & ~3
abbrev pub round4 : ℕ → ℕ
round4 n = (n + 3) / 4 * 4

abbrev pub bad_pool : ℤ → ℤ → Pools → Bool
bad_pool bufsiz numbufs p =
    ltb_ℤ bufsiz (pos bp_minb)
    || ltb_ℤ (pos bp_maxb) bufsiz
    || ltb_ℤ numbufs (pos 1)
    || ltb_ℤ (pos bp_maxn) numbufs
    || leb nbpools_max p.nbpools

-- The pool with its memory at `buf` and the semaphore that semcreate gave.
abbrev pub with_semaphore : ℕ → ℕ → ℕ → Pools → System → Option ℕ → Pools × Option ℕ
with_semaphore size n buf p sys none = (
  record p {
    buftab = λ k.
        if k == p.nbpools then record (p.buftab k) { bpnext = buf; bpsize = size } else p.buftab k;
    sys = sys;
    heap = (freemem buf (n * (size + 4)) p.heap).0;
  },
  none,
)
with_semaphore size n buf p sys (some sem) = (
  record p {
    buftab = λ k.
        if k == p.nbpools then record { bpnext = buf; bpsem = sem; bpsize = size } else p.buftab k;
    nbpools = p.nbpools + 1;
    sys = sys;
    words = link_buffers (n - 1) buf (size + 4) p.words;
  },
  some p.nbpools,
)

-- The pool with the memory that getmem gave.
abbrev pub with_memory : ℕ → ℕ → Pools → Option ℕ → Pools × Option ℕ
with_memory size n p none = (p, none)
with_memory size n p (some buf) =
    let (sys, sem) = semcreate (pos n) p.sys in with_semaphore size n buf p sys sem

unfoldable pub mkbufpool : ℤ → ℤ → Pools → Pools × Option ℕ
mkbufpool bufsiz numbufs p =
    let size : ℕ = round4 (pos_part bufsiz) in
    let n : ℕ = pos_part numbufs in
    let (heap, got) = getmem (n * (size + 4)) p.heap in
    if bad_pool bufsiz numbufs p
    then (p, none)
    else with_memory size n (record p { heap = heap }) got

-- The check and the wait; false is SYSERR. The result of wait is not read.
unfoldable pub getbuf_wait : ℕ → Pools → Option (Pools × Bool)
getbuf_wait poolid p =
    if leb p.nbpools poolid then some (p, false) else elim (wait (p.buftab poolid).bpsem p.sys) [
      | none ↦ none
      | some r ↦ some (record p { sys = r.0 }, true)
    ]

-- The rest of getbuf, when the process has passed the semaphore.
unfoldable pub getbuf_take : ℕ → Pools → Pools × ℕ
getbuf_take poolid p =
    let buf : ℕ = (p.buftab poolid).bpnext in
    (
      record (set_bpnext poolid (p.words buf) p) { words = write_word buf poolid p.words },
      (buf + 4) % 2 ^ 32,
    )

-- The check of the pool's number and the rest of freebuf.
unfoldable pub give_back : ℕ → ℕ → Pools → Option (Pools × Bool)
give_back buf poolid p =
    let entry : BpEntry = p.buftab poolid in
    if leb p.nbpools poolid then some (p, false) else elim (signal entry.bpsem p.sys) [
      | none ↦ none
      | some r ↦ some (
        record (set_bpnext poolid buf p) { words = write_word buf entry.bpnext p.words; sys = r.0 },
        true,
      )
    ]

unfoldable pub freebuf : ℕ → Pools → Option (Pools × Bool)
freebuf bufaddr p = let buf : ℕ = (bufaddr + (2 ^ 32 - 4)) % 2 ^ 32 in give_back buf (p.words buf) p
