-- ===== src/Pool/Delivery.antt =====
-- system/ptsend.c and system/ptrecv.c: a port is a queue of messages.
use ece564_project.Prelude.{
  ℕ, ◌≡◌, refl, true, false, arith, ◌==◌, some, none, List, [], ◌∷◌, ◌++◌, ◌∙◌, ap,
}
use ece564_project.Prelude.Int.{pos, ltb_ℤ}
use ece564_project.Process.State.{System}
use ece564_project.Process.Semaphores.{signal, count_up}
use ece564_project.Process.Counts.{accepted, signal_unwaited}
use ece564_project.Pool.Ports.{
  Ports, same_port, link_message, unlink_message, Sent, ptsend_put, ptrecv_take,
}
use ece564_project.Pool.Chains.{IsPort}
use ece564_project.Pool.Mailbox.{link_message-IsPort}
use ece564_project.Pool.Fifo.{unlink_message-IsPort}

-- The system's fields do not matter to the lists of a port.
IsPort-sys :
    (p : Ports) (i : ℕ) (ns fs : List (ℕ × ℕ)) (s : System)
    → IsPort p i ns fs
    → IsPort (record p { sys = s }) i ns fs
IsPort-sys p i ns fs s is = record {
  allocated = is.allocated;
  linked = is.linked;
  tail = is.tail;
  free = is.free;
  distinct = is.distinct;
}

-- Sending and receiving leave the semaphores of each port and the rest of the system.
link_message_kept :
    (p : Ports) (i msg k : ℕ)
    → (((link_message i msg p).porttab k).ptrsem ≡ (p.porttab k).ptrsem)
      × ((link_message i msg p).sys ≡ p.sys)
unfolding link_message
link_message_kept p i msg k = (ground arith, ground arith)

unlink_message_kept :
    (p : Ports) (i k : ℕ)
    → (((unlink_message i p).porttab k).ptssem ≡ (p.porttab k).ptssem)
      × ((unlink_message i p).sys ≡ p.sys)
unfolding unlink_message
unlink_message_kept p i k = (ground arith, ground arith)

-- ptsend behind its wait, on a port that is the same as before, with a free node and a
-- semaphore of the receivers on which none waits: the message becomes the port's last one, in the
-- first free node, and the semaphore's count is one more.
pub ptsend_put-last :
    (p : Ports) (i seq msg f v : ℕ) (ns fs : List (ℕ × ℕ))
    → IsPort p i ns ((f, v) ∷ fs)
    → same_port i seq p ≡ true
    → accepted (p.porttab i).ptrsem p.sys ≡ true
    → ltb_ℤ (p.sys.semtab (p.porttab i).ptrsem).scount (pos 0) ≡ false
    → (p' : Ports) × (ptsend_put i seq msg p ≡ some (Sent.sent p'))
      × IsPort p' i (ns ++ (f, msg) ∷ []) fs
      × (p'.sys ≡ count_up (p.porttab i).ptrsem p.sys)
unfolding ptsend_put
ptsend_put-last p i seq msg f v ns fs is same a c =
    let (sem, kept) = link_message_kept p i msg i in
    let s : System = count_up (p.porttab i).ptrsem p.sys in
    let signalled : signal ((link_message i msg p).porttab i).ptrsem (link_message i msg p).sys
        ≡ some (s, true) =
      ap (λ k. signal k (link_message i msg p).sys) sem
      ∙ ap (λ t. signal (p.porttab i).ptrsem t) kept
      ∙ signal_unwaited (p.porttab i).ptrsem p.sys a c in
    let nonzero : (p.ptfree == 0) ≡ false = (let x = is.free in ground arith) in
    (
      record (link_message i msg p) { sys = s },
      rw (same, nonzero)
          (ap
            (λ o. elim o [
              | none ↦ none
              | some r ↦ some (Sent.sent (record (link_message i msg p) { sys = r.0 }))
            ])
            signalled),
      IsPort-sys (link_message i msg p) i (ns ++ (f, msg) ∷ []) fs s
          (link_message-IsPort p i f v msg ns fs is),
      refl,
    )

-- ptrecv behind its wait, on a port that is the same as before, with a message in it and a
-- semaphore of the senders on which none waits: it returns the port's first message, whose node
-- becomes the first free one, the other messages stay in order, and the semaphore's count is one
-- more.
pub ptrecv_take-first :
    (p : Ports) (i seq : ℕ) (n : ℕ × ℕ) (ns fs : List (ℕ × ℕ))
    → IsPort p i (n ∷ ns) fs
    → same_port i seq p ≡ true
    → accepted (p.porttab i).ptssem p.sys ≡ true
    → ltb_ℤ (p.sys.semtab (p.porttab i).ptssem).scount (pos 0) ≡ false
    → (p' : Ports) × (ptrecv_take i seq p ≡ some (p', some n.1))
      × IsPort p' i ns (n ∷ fs)
      × (p'.sys ≡ count_up (p.porttab i).ptssem p.sys)
unfolding ptrecv_take
ptrecv_take-first p i seq n ns fs is same a c =
    let (sem, kept) = unlink_message_kept p i i in
    let s : System = count_up (p.porttab i).ptssem p.sys in
    let signalled : signal ((unlink_message i p).porttab i).ptssem (unlink_message i p).sys
        ≡ some (s, true) =
      ap (λ k. signal k (unlink_message i p).sys) sem
      ∙ ap (λ t. signal (p.porttab i).ptssem t) kept
      ∙ signal_unwaited (p.porttab i).ptssem p.sys a c in
    let first : (p.nodes (p.porttab i).pthead).ptmsg ≡ n.1 =
      ap (λ h. (p.nodes h).ptmsg) is.linked.0 ∙ is.linked.2 in
    (
      record (unlink_message i p) { sys = s },
      rw same (
          ap
            (λ o. elim o [
              | none ↦ none
              | some r ↦ some (
                record (unlink_message i p) { sys = r.0 },
                some (p.nodes (p.porttab i).pthead).ptmsg,
              )
            ])
            signalled
          ∙ ap (λ m. some (record (unlink_message i p) { sys = s }, some m)) first),
      IsPort-sys (unlink_message i p) i ns (n ∷ fs) s (unlink_message-IsPort p i n ns fs is),
      refl,
    )
