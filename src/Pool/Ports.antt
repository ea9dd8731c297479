-- ===== src/Pool/Ports.antt =====
-- include/ports.h, system/ptinit.c, ptcreate.c, ptsend.c, ptrecv.c, ptcount.c, ptclear.c,
-- ptreset.c and ptdelete.c. A node stands at its address, and NULL is 0. ptsend and ptrecv run in
-- two steps, since their wait may block. `dispose` is an argument of the source's functions; what
-- it does to the rest of the system is left out.
use ece564_project.Prelude.{
  ℕ, zero, suc, ◌+◌, ◌-◌, ◌*◌, ◌%◌, ◌^◌, Bool, true, false, ◌||◌, ltb, leb, ◌==◌, if◌then◌else◌,
  Option, some, none,
}
use ece564_project.Prelude.Int.{ℤ, pos, negsuc}
use ece564_project.Heap.Blocks.{Heap, getmem}
use ece564_project.Process.State.{System}
use ece564_project.Process.Semaphores.{semcreate, wait, signal}

abbrev pub nports : ℕ
nports = 30

abbrev pub pt_free : ℕ
pt_free = 1

abbrev pub pt_limbo : ℕ
pt_limbo = 2

abbrev pub pt_alloc : ℕ
pt_alloc = 3

-- struct ptnode
pub record PtNode : Type 0 where
  pub ptmsg : ℕ
  pub ptnext : ℕ

-- struct ptentry
pub record PtEntry : Type 0 where
  pub ptssem : ℕ
  pub ptrsem : ℕ
  pub ptstate : ℕ
  pub ptmaxcnt : ℕ
  pub ptseq : ℕ
  pub pthead : ℕ
  pub pttail : ℕ

pub record Ports : Type 0 where
  pub porttab : ℕ → PtEntry
  pub nodes : ℕ → PtNode
  pub ptfree : ℕ
  pub ptnextid : ℕ
  pub sys : System

abbrev pub set_port : ℕ → (PtEntry → PtEntry) → Ports → Ports
set_port i f p = record p { porttab = λ k. if k == i then f (p.porttab k) else p.porttab k }

abbrev pub set_node : ℕ → PtNode → (ℕ → PtNode) → ℕ → PtNode
set_node a n m k = if k == a then n else m k

abbrev pub set_ptnext : ℕ → ℕ → (ℕ → PtNode) → ℕ → PtNode
set_ptnext a v m = set_node a (record (m a) { ptnext = v }) m

-- ++ptseq, an int32 as its word
abbrev pub next_seq : ℕ → ℕ
next_seq n = (n + 1) % 2 ^ 32

-- The loop that links the nodes, `n` more behind the one at `curr`.
unfoldable pub link_nodes : ℕ → ℕ → (ℕ → PtNode) → ℕ → PtNode
link_nodes zero curr m = set_ptnext curr 0 m
link_nodes (suc n) curr m = link_nodes n (curr + 8) (set_ptnext curr (curr + 8) m)

-- `none` stands for the panic.
unfoldable pub ptinit : ℕ → Heap → Ports → Option (Ports × Heap)
ptinit maxmsgs h p =
    let (heap, got) = getmem (maxmsgs * 8 % 2 ^ 32) h in
    elim got [
      | none ↦ none
      | some nodes ↦ some (
        record p {
          porttab = λ k.
              if ltb k nports
              then record (p.porttab k) { ptstate = pt_free; ptseq = 0 }
              else p.porttab k;
          nodes = link_nodes (maxmsgs - 1) nodes p.nodes;
          ptfree = nodes;
          ptnextid = 0;
        },
        heap,
      )
    ]

-- A result of semcreate, where SYSERR is -1.
abbrev pub sem_or_error : Option ℕ → ℕ
sem_or_error none = 2 ^ 32 - 1
sem_or_error (some sem) = sem

-- A free port is taken, with its two semaphores.
abbrev pub take_port : ℕ → ℕ → Ports → Ports
take_port i count p =
    let (s1, ssem) = semcreate (pos count) p.sys in
    let (s2, rsem) = semcreate (pos 0) s1 in
    set_port i
      (λ e. record {
        ptssem = sem_or_error ssem;
        ptrsem = sem_or_error rsem;
        ptstate = pt_alloc;
        ptmaxcnt = count % 2 ^ 16;
        ptseq = next_seq e.ptseq;
        pthead = 0;
        pttail = 0;
      })
      (record p { sys = s2 })

unfoldable pub find_port : ℕ → ℕ → Ports → Ports × Option ℕ
find_port zero count p = (p, none)
find_port (suc n) count p =
    let i : ℕ = p.ptnextid in
    let p1 : Ports = record p { ptnextid = if leb nports (i + 1) then 0 else i + 1 } in
    let rest = find_port n count p1 in
    if (p.porttab i).ptstate == pt_free then (take_port i count p1, some i) else rest

unfoldable pub ptcreate : ℤ → Ports → Ports × Option ℕ
ptcreate (pos count) p = find_port nports count p
ptcreate (negsuc count) p = (p, none)

abbrev pub is_bad_port : ℕ → Ports → Bool
is_bad_port i p = leb nports i || (if (p.porttab i).ptstate == pt_alloc then false else true)

-- The checks of ptsend and the wait for space; the number that is kept, or SYSERR.
unfoldable pub ptsend_wait : ℕ → Ports → Option (Ports × Option ℕ)
ptsend_wait i p =
    if is_bad_port i p then some (p, none) else elim (wait (p.porttab i).ptssem p.sys) [
      | none ↦ none
      | some (s, ok) ↦ some (record p { sys = s }, if ok then some (p.porttab i).ptseq else none)
    ]

-- The port behind the wait: it was not deleted or reset.
abbrev pub same_port : ℕ → ℕ → Ports → Bool
same_port i seq p = if (p.porttab i).ptstate == pt_alloc then (p.porttab i).ptseq == seq else false

-- The first free node leaves the free list, with the message.
abbrev pub take_node : ℕ → ℕ → Ports → Ports
take_node node msg p = record p {
  ptfree = (p.nodes node).ptnext;
  nodes = set_node node (record { ptmsg = msg; ptnext = 0 }) p.nodes;
}

-- A node of an empty port, and a node at the tail of a port.
abbrev pub link_first : ℕ → ℕ → Ports → Ports
link_first i node p = set_port i (λ e. record e { pthead = node; pttail = node }) p

abbrev pub link_behind : ℕ → ℕ → ℕ → Ports → Ports
link_behind i node tail p =
    set_port i (λ e. record e { pttail = node }) (record p { nodes = set_ptnext tail node p.nodes })

unfoldable pub link_message : ℕ → ℕ → Ports → Ports
link_message i msg p =
    let p1 : Ports = take_node p.ptfree msg p in
    if (p.porttab i).pttail == 0
    then link_first i p.ptfree p1
    else link_behind i p.ptfree (p.porttab i).pttail p1

-- The rest of ptsend: a refusal, the panic without a free node, or the message in the port.
pub data Sent : Type 0 where
  refused : Sent
  panicked : Sent
  sent : Ports → Sent

unfoldable pub ptsend_put : ℕ → ℕ → ℕ → Ports → Option Sent
ptsend_put i seq msg p =
    if same_port i seq p
    then (if p.ptfree == 0
        then some Sent.panicked
        else (let p1 : Ports = link_message i msg p in
            elim (signal (p1.porttab i).ptrsem p1.sys) [
              | none ↦ none
              | some r ↦ some (Sent.sent (record p1 { sys = r.0 }))
            ]))
    else some Sent.refused

unfoldable pub ptrecv_wait : ℕ → Ports → Option (Ports × Option ℕ)
ptrecv_wait i p =
    if is_bad_port i p then some (p, none) else elim (wait (p.porttab i).ptrsem p.sys) [
      | none ↦ none
      | some (s, ok) ↦ some (record p { sys = s }, if ok then some (p.porttab i).ptseq else none)
    ]

-- The first node leaves the port for the free list.
abbrev pub free_node : ℕ → Ports → Ports
free_node node p = record p { nodes = set_ptnext node p.ptfree p.nodes; ptfree = node }

unfoldable pub unlink_message : ℕ → Ports → Ports
unlink_message i p =
    let node : ℕ = (p.porttab i).pthead in
    free_node node (
      if node == (p.porttab i).pttail
      then set_port i (λ e. record e { pthead = 0; pttail = 0 }) p
      else set_port i (λ e. record e { pthead = (p.nodes node).ptnext }) p)

-- The rest of ptrecv; the inner `none` is SYSERR.
unfoldable pub ptrecv_take : ℕ → ℕ → Ports → Option (Ports × Option ℕ)
ptrecv_take i seq p =
    if same_port i seq p
    then (let p1 : Ports = unlink_message i p in
        elim (signal (p1.porttab i).ptssem p1.sys) [
          | none ↦ none
          | some r ↦ some (record p1 { sys = r.0 }, some (p.nodes (p.porttab i).pthead).ptmsg)
        ])
    else some (p, none)
