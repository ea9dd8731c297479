-- ===== src/Pool/Fifo.antt =====
-- system/ptsend.c and system/ptrecv.c: messages leave a port in the order in which they came.
use ece564_project.Prelude.{
  ℕ, ◌≡◌, refl, sym, true, false, arith, ◌==◌, Bool-cases, inl, inr, List, [], ◌∷◌, ◌++◌, ◌∙◌, ap,
  subst,
}
use ece564_project.Queue.Chain
use ece564_project.Pool.Ports.{Ports, PtNode, set_ptnext, set_port, free_node, unlink_message}
use ece564_project.Pool.Chains.{Linked, node_ids, last_id, IsPort, Linked-frame}

-- The border moves by one to the left.
swap-Distinct :
    (x : ℕ) (xs ys : List ℕ) → Chain.Distinct (x ∷ xs ++ ys) → Chain.Distinct (xs ++ x ∷ ys)
swap-Distinct x [] ys d = d
swap-Distinct x (z ∷ xs) ys d = (
  ground (arith, Chain.has-append z xs ys, Chain.has-append z xs (x ∷ ys)),
  swap-Distinct x xs ys (ground arith, d.1.1),
)

-- The first node is not the last of two or more.
first_not_last :
    (n n' : ℕ) (ns : List ℕ) → Chain.has n (n' ∷ ns) ≡ false → (n == Chain.last_of n' ns) ≡ false
first_not_last n n' ns h = Chain.last_of-has n' ns n (ground arith) (ground arith)

module _ (p : Ports) (i : ℕ) (n : ℕ × ℕ) (ns fs : List (ℕ × ℕ)) (is : IsPort p i (n ∷ ns) fs) where
  out_of_rest : Chain.has n.0 (node_ids ns ++ node_ids fs) ≡ false
  out_of_rest = is.distinct.0

  -- The chains of the others, when the first node is linked to the free list.
  rest-Linked :
      (head : ℕ) (ms : List (ℕ × ℕ))
      → Chain.has n.0 (node_ids ms) ≡ false
      → Linked p.nodes head ms
      → Linked (set_ptnext n.0 p.ptfree p.nodes) head ms
  rest-Linked head ms out l =
      Linked-frame p.nodes (set_ptnext n.0 p.ptfree p.nodes) head ms
        (λ k h. elim (Bool-cases (k == n.0)) [
          | inr z ↦ rw z refl
          | inl z ↦
              let same : k ≡ n.0 = ground arith in let y = rw same at h in absurd (ground arith)
        ])
        l

  freed-Linked : Linked (set_ptnext n.0 p.ptfree p.nodes) n.0 (n ∷ fs)
  freed-Linked =
      let next : set_ptnext n.0 p.ptfree p.nodes n.0 ≡ record (p.nodes n.0) { ptnext = p.ptfree } =
        ground arith in
      let out : Chain.has n.0 (node_ids fs) ≡ false =
        (let o = out_of_rest in ground (arith, Chain.has-append n.0 (node_ids ns) (node_ids fs))) in
      (
        refl,
        is.linked.1,
        ap (λ (e : PtNode). e.ptmsg) next ∙ is.linked.2,
        subst (λ (e : PtNode). Linked (set_ptnext n.0 p.ptfree p.nodes) e.ptnext fs) (sym next)
            (rest-Linked p.ptfree fs out is.free),
      )

  emptied-IsPort :
      ns ≡ []
      → IsPort
          (free_node n.0 (set_port i (λ e. record e { pthead = 0; pttail = 0 }) p))
          i
          []
          (n ∷ fs)
  emptied-IsPort e = record {
    allocated = (let a = is.allocated in ground arith);
    linked = ground arith;
    tail = ground arith;
    free = freed-Linked;
    distinct = rw e at is.distinct;
  }

  shortened-IsPort :
      (n' : ℕ × ℕ) (rest : List (ℕ × ℕ))
      → ns ≡ n' ∷ rest
      → IsPort
          (free_node n.0 (set_port i (λ e. record e { pthead = (p.nodes n.0).ptnext }) p))
          i
          ns
          (n ∷ fs)
  shortened-IsPort n' rest e =
      let done : Ports =
        free_node n.0 (set_port i (λ e. record e { pthead = (p.nodes n.0).ptnext }) p) in
      let head : (done.porttab i).pthead ≡ (p.nodes n.0).ptnext = ground arith in
      let out : Chain.has n.0 (node_ids ns) ≡ false =
        (let o = out_of_rest in ground (arith, Chain.has-append n.0 (node_ids ns) (node_ids fs))) in
      let last : last_id (n ∷ ns) ≡ last_id ns = rw e refl in
      let tail : (done.porttab i).pttail ≡ (p.porttab i).pttail = ground arith in
      record {
        allocated = (let a = is.allocated in ground arith);
        linked =
            subst (λ h. Linked done.nodes h ns) (sym head)
              (rest-Linked (p.nodes n.0).ptnext ns out is.linked.3);
        tail = tail ∙ is.tail ∙ last;
        free = freed-Linked;
        distinct = swap-Distinct n.0 (node_ids ns) (node_ids fs) is.distinct;
      }

unlink_message_last :
    (p : Ports) (i : ℕ)
    → ((p.porttab i).pthead == (p.porttab i).pttail) ≡ true
    → unlink_message i p
      ≡ free_node (p.porttab i).pthead (set_port i (λ e. record e { pthead = 0; pttail = 0 }) p)
unfolding unlink_message
unlink_message_last p i h = rw h refl

unlink_message_more :
    (p : Ports) (i : ℕ)
    → ((p.porttab i).pthead == (p.porttab i).pttail) ≡ false
    → unlink_message i p
      ≡ free_node
          (p.porttab i).pthead
          (set_port i (λ e. record e { pthead = (p.nodes (p.porttab i).pthead).ptnext }) p)
unfolding unlink_message
unlink_message_more p i h = rw h refl

pub unlink_message-IsPort :
    (p : Ports) (i : ℕ) (n : ℕ × ℕ) (ns fs : List (ℕ × ℕ))
    → IsPort p i (n ∷ ns) fs
    → IsPort (unlink_message i p) i ns (n ∷ fs)
unlink_message-IsPort p i n [] fs is =
    let h : ((p.porttab i).pthead == (p.porttab i).pttail) ≡ true =
      (let a = is.linked.0 in let b = is.tail in ground arith) in
    subst (λ p'. IsPort p' i [] (n ∷ fs))
      (sym (
        unlink_message_last p i h
        ∙ ap (λ a. free_node a (set_port i (λ e. record e { pthead = 0; pttail = 0 }) p))
            is.linked.0))
      (emptied-IsPort p i n [] fs is refl)
unlink_message-IsPort p i n (n' ∷ ns) fs is =
    let last : (n.0 == Chain.last_of n'.0 (node_ids ns)) ≡ false =
      first_not_last n.0 n'.0 (node_ids ns) (
        let d = is.distinct.0 in
        ground (arith, Chain.has-append n.0 (node_ids (n' ∷ ns)) (node_ids fs))) in
    let h : ((p.porttab i).pthead == (p.porttab i).pttail) ≡ false =
      (let a = is.linked.0 in let b = is.tail in ground arith) in
    subst (λ p'. IsPort p' i (n' ∷ ns) (n ∷ fs))
      (sym (
        unlink_message_more p i h
        ∙ ap (λ a. free_node a (set_port i (λ e. record e { pthead = (p.nodes a).ptnext }) p))
            is.linked.0))
      (shortened-IsPort p i n (n' ∷ ns) fs is n' ns refl)
