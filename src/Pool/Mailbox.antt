-- ===== src/Pool/Mailbox.antt =====
-- system/ptsend.c and system/ptrecv.c: a port holds its messages in the order in which they were
-- sent.
use ece564_project.Prelude.{
  ℕ, ◌≡◌, refl, sym, true, false, arith, ◌==◌, Bool-cases, inl, inr, List, [], ◌∷◌, ◌++◌, ◌∙◌, ap,
  subst,
}
use ece564_project.Queue.Chain
use ece564_project.Pool.Ports.{Ports, take_node, link_first, link_behind, link_message}
use ece564_project.Pool.Chains.{
  Linked, node_ids, last_id, Linked-frame, Linked-append, last_id-has, last_id_nonzero,
  last_id-snoc, sent-Distinct, IsPort,
}

module _ (p : Ports) (i f v msg : ℕ) (ns fs : List (ℕ × ℕ)) (is : IsPort p i ns ((f, v) ∷ fs)) where
  -- The node with the message.
  abbrev new : Ports
  new = take_node f msg p

  old_apart :
      (k : ℕ)
      → Chain.has k (node_ids fs) ≡ true
      → (Chain.has k (node_ids ns) ≡ false) × ((k == f) ≡ false)
  old_apart k h =
      let d = is.distinct in
      let right = Chain.Distinct-right (node_ids ns) (node_ids ((f, v) ∷ fs)) d in
      (
        Chain.Distinct-apart (node_ids ns) (node_ids ((f, v) ∷ fs)) k d (ground arith),
        elim (Bool-cases (k == f)) [
          | inr n ↦ n
          | inl e ↦
              let same : k ≡ f = ground arith in
              let z = rw same at h in let r = right.0 in absurd (ground arith)
        ],
      )

  out : Chain.has f (node_ids ns) ≡ false
  out = Chain.Distinct-apart (node_ids ns) (node_ids ((f, v) ∷ fs)) f is.distinct (ground arith)

  first-IsPort : ns ≡ [] → IsPort (link_first i f new) i ((f, msg) ∷ []) fs
  first-IsPort e =
      let d = rw e at is.distinct in
      let right = Chain.Distinct-right (node_ids ns) (node_ids ((f, v) ∷ fs)) is.distinct in
      record {
        allocated = (let a = is.allocated in ground arith);
        linked = (ground arith, is.free.1, ground arith, ground arith);
        tail = ground arith;
        free =
            Linked-frame p.nodes new.nodes (p.nodes f).ptnext fs
              (λ k h. let a = (old_apart k h).1 in ground arith) is.free.3;
        distinct = right;
      }

  behind-IsPort :
      (n : ℕ × ℕ) (rest : List (ℕ × ℕ))
      → ns ≡ n ∷ rest
      → IsPort (link_behind i f (last_id (n ∷ rest)) new) i (ns ++ (f, msg) ∷ []) fs
  behind-IsPort n rest e =
      let linked : Linked p.nodes (p.porttab i).pthead (n ∷ rest) = rw e at is.linked in
      let fresh : Chain.has f (node_ids (n ∷ rest)) ≡ false = rw e at out in
      let distinct : Chain.Distinct (node_ids (n ∷ rest)) =
        rw e at (Chain.Distinct-left (node_ids ns) (node_ids ((f, v) ∷ fs)) is.distinct) in
      let old : Linked new.nodes (p.porttab i).pthead (n ∷ rest) =
        Linked-frame p.nodes new.nodes (p.porttab i).pthead (n ∷ rest)
          (λ k h. elim (Bool-cases (k == f)) [
            | inr z ↦ rw z refl
            | inl z ↦
                let same : k ≡ f = ground arith in let y = rw same at h in absurd (ground arith)
          ])
          linked in
      let done : Ports = link_behind i f (last_id (n ∷ rest)) new in
      let head : (done.porttab i).pthead ≡ (p.porttab i).pthead = ground arith in
      let last : (done.porttab i).pttail ≡ f = ground arith in
      record {
        allocated = (let a = is.allocated in ground arith);
        linked =
            subst (λ h. Linked done.nodes h (ns ++ (f, msg) ∷ [])) (sym head)
              (subst (λ l. Linked done.nodes (p.porttab i).pthead (l ++ (f, msg) ∷ [])) (sym e)
                (Linked-append new.nodes (p.porttab i).pthead n rest f msg old distinct fresh
                  is.free.1 (ground arith)));
        tail = last ∙ sym (last_id-snoc ns f msg);
        free =
            Linked-frame p.nodes done.nodes (p.nodes f).ptnext fs
              (λ k h.
                let (a, b) = old_apart k h in
                let c = last_id-has rest n k (rw e at a) in ground arith)
              is.free.3;
        distinct = sent-Distinct ns fs f v msg is.distinct;
      }

link_message_first :
    (p : Ports) (i msg : ℕ)
    → (p.porttab i).pttail ≡ 0
    → link_message i msg p ≡ link_first i p.ptfree (take_node p.ptfree msg p)
unfolding link_message
link_message_first p i msg h = rw h refl

link_message_behind :
    (p : Ports) (i msg : ℕ)
    → ((p.porttab i).pttail == 0) ≡ false
    → link_message i msg p ≡ link_behind i p.ptfree (p.porttab i).pttail (take_node p.ptfree msg p)
unfolding link_message
link_message_behind p i msg h = rw h refl

pub link_message-IsPort :
    (p : Ports) (i f v msg : ℕ) (ns fs : List (ℕ × ℕ))
    → IsPort p i ns ((f, v) ∷ fs)
    → IsPort (link_message i msg p) i (ns ++ (f, msg) ∷ []) fs
link_message-IsPort p i f v msg [] fs is =
    let first = first-IsPort p i f v msg [] fs is refl in
    subst (λ p'. IsPort p' i ((f, msg) ∷ []) fs)
      (sym (
        link_message_first p i msg is.tail
        ∙ ap (λ a. link_first i a (take_node a msg p)) is.free.0))
      first
link_message-IsPort p i f v msg (n ∷ ns) fs is =
    let behind = behind-IsPort p i f v msg (n ∷ ns) fs is n ns refl in
    let nonzero : ((p.porttab i).pttail == 0) ≡ false =
      ap (λ t. t == 0) is.tail ∙ last_id_nonzero p.nodes (p.porttab i).pthead n ns is.linked in
    subst (λ p'. IsPort p' i ((n ∷ ns) ++ (f, msg) ∷ []) fs)
      (sym (
        link_message_behind p i msg nonzero
        ∙ ap (λ t. link_behind i p.ptfree t (take_node p.ptfree msg p)) is.tail
        ∙ ap (λ a. link_behind i a (last_id (n ∷ ns)) (take_node a msg p)) is.free.0))
      behind
