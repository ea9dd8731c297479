-- ===== src/Pool/Clearing.antt =====
-- system/ptcount.c, system/ptclear.c, system/ptreset.c and system/ptdelete.c. The function that
-- disposes of a message is an argument, and works on the system.
use ece564_project.Prelude.{
  ℕ, zero, suc, Bool, true, false, ◌==◌, if◌then◌else◌, Option, some, none,
}
use ece564_project.Prelude.Int.{ℤ, pos, negsuc, neg_part, ltb_ℤ, ◌+ℤ◌}
use ece564_project.Process.State.{System}
use ece564_project.Process.Semaphores.{semcount, semreset, semdelete}
use ece564_project.Pool.Ports.{
  Ports, PtEntry, PtNode, pt_free, pt_limbo, pt_alloc, set_port, set_ptnext, next_seq, is_bad_port,
}

-- semcount's SYSERR is -1.
abbrev pub count_or_error : Option ℤ → ℤ
count_or_error none = negsuc 0
count_or_error (some c) = c

-- The result `none` is SYSERR.
unfoldable pub ptcount : ℕ → Ports → Option ℤ
ptcount i p =
    let count = count_or_error (semcount (p.porttab i).ptrsem p.sys) in
    let sndcnt = count_or_error (semcount (p.porttab i).ptssem p.sys) in
    if is_bad_port i p
    then none
    else if ltb_ℤ count (pos 0)
    then some count
    else if ltb_ℤ sndcnt (pos 0)
    then some (count +ℤ pos (neg_part sndcnt))
    else some count

-- for ( ; walk!=NULL ; walk=walk->ptnext) (*dispose)(walk->ptmsg); `none` if the fuel runs out.
unfoldable pub dispose_all : (ℕ → System → System) → ℕ → ℕ → (ℕ → PtNode) → System → Option System
dispose_all dispose zero walk m s = none
dispose_all dispose (suc n) walk m s =
    let rest = dispose_all dispose n (m walk).ptnext m (dispose (m walk).ptmsg s) in
    if walk == 0 then some s else rest

-- The messages go to the free list.
abbrev pub free_messages : ℕ → Ports → Ports
free_messages i p = if (p.porttab i).pthead == 0 then p else record p {
  nodes = set_ptnext (p.porttab i).pttail p.ptfree p.nodes;
  ptfree = (p.porttab i).pthead;
}

abbrev pub both : Option (System × Bool) → (System → Option (System × Bool)) → Option System
both none f = none
both (some r) f = elim (f r.0) [ none ↦ none | some r' ↦ some r'.0 ]

-- The semaphores are reset for a port that lives on, and deleted for one that ends.
unfoldable pub clear_semaphores : PtEntry → ℕ → System → Option System
clear_semaphores e newstate s =
    if newstate == pt_alloc
    then both (semreset e.ptssem (pos e.ptmaxcnt) s) (semreset e.ptrsem (pos 0))
    else both (semdelete e.ptssem s) (semdelete e.ptrsem)

unfoldable pub ptclear : (ℕ → System → System) → ℕ → ℕ → ℕ → Ports → Option Ports
ptclear dispose fuel i newstate p =
    let p1 : Ports =
      set_port i (λ e. record e { ptstate = pt_limbo; ptseq = next_seq e.ptseq }) p in
    elim (dispose_all dispose fuel (p1.porttab i).pthead p1.nodes p1.sys) [
      | none ↦ none
      | some s ↦
          let p2 : Ports = free_messages i (record p1 { sys = s }) in
          let p3 : Ports =
            (if newstate == pt_alloc
              then set_port i (λ e. record e { pthead = 0; pttail = 0 }) p2
              else p2) in
          elim (clear_semaphores (p3.porttab i) newstate p3.sys) [
            | none ↦ none
            | some s' ↦
                some (set_port i (λ e. record e { ptstate = newstate }) (record p3 { sys = s' }))
          ]
    ]

unfoldable pub ptreset : (ℕ → System → System) → ℕ → ℕ → Ports → Option (Ports × Bool)
ptreset dispose fuel i p =
    if is_bad_port i p
    then some (p, false)
    else elim (ptclear dispose fuel i pt_alloc p) [ none ↦ none | some p' ↦ some (p', true) ]

unfoldable pub ptdelete : (ℕ → System → System) → ℕ → ℕ → Ports → Option (Ports × Bool)
ptdelete dispose fuel i p =
    if is_bad_port i p then some (p, false) else elim (ptclear dispose fuel i pt_free p) [
      | none ↦ none
      | some p' ↦ some (record p' { ptnextid = i }, true)
    ]
