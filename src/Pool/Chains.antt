-- ===== src/Pool/Chains.antt =====
-- include/ports.h: the messages of a port as a list of nodes.
use ece564_project.Prelude.{
  ℕ, ◌≡◌, refl, sym, true, false, arith, ◌==◌, List, [], ◌∷◌, ◌++◌, ◌∙◌, ap, subst,
}
use ece564_project.Queue.Chain
use ece564_project.Pool.Ports.{Ports, PtNode, pt_alloc, set_ptnext}

-- The nodes are linked from `head` to NULL, and hold the messages.
abbrev pub Linked : (ℕ → PtNode) → ℕ → List (ℕ × ℕ) → Type 0
Linked m head [] = head ≡ 0
Linked m head (n ∷ ns) =
    (head ≡ n.0) × ((n.0 == 0) ≡ false) × ((m n.0).ptmsg ≡ n.1) × Linked m (m n.0).ptnext ns

abbrev pub node_ids : List (ℕ × ℕ) → List ℕ
node_ids [] = []
node_ids (n ∷ ns) = n.0 ∷ node_ids ns

abbrev pub messages : List (ℕ × ℕ) → List ℕ
messages [] = []
messages (n ∷ ns) = n.1 ∷ messages ns

-- The last node, or NULL.
abbrev pub last_id : List (ℕ × ℕ) → ℕ
last_id [] = 0
last_id (n ∷ ns) = Chain.last_of n.0 (node_ids ns)

-- The port holds the messages of the nodes `ns`, and the nodes `fs` are free.
pub record IsPort (p : Ports) (i : ℕ) (ns fs : List (ℕ × ℕ)) : Type 0 where
  pub allocated : (p.porttab i).ptstate ≡ pt_alloc
  pub linked : Linked p.nodes (p.porttab i).pthead ns
  pub tail : (p.porttab i).pttail ≡ last_id ns
  pub free : Linked p.nodes p.ptfree fs
  pub distinct : Chain.Distinct (node_ids ns ++ node_ids fs)

pub Linked-frame :
    (m m' : ℕ → PtNode) (head : ℕ) (ns : List (ℕ × ℕ))
    → ((k : ℕ) → Chain.has k (node_ids ns) ≡ true → m' k ≡ m k)
    → Linked m head ns
    → Linked m' head ns
Linked-frame m m' head [] same l = l
Linked-frame m m' head (n ∷ ns) same l =
    let here : m' n.0 ≡ m n.0 = same n.0 (ground arith) in
    (
      l.0,
      l.1,
      ap (λ (e : PtNode). e.ptmsg) here ∙ l.2,
      subst (λ (e : PtNode). Linked m' e.ptnext ns) (sym here)
          (Linked-frame m m' (m n.0).ptnext ns (λ k h. same k (ground arith)) l.3),
    )

-- A new last node.
pub Linked-append :
    (m : ℕ → PtNode) (head : ℕ) (n : ℕ × ℕ) (ns : List (ℕ × ℕ)) (f msg : ℕ)
    → Linked m head (n ∷ ns)
    → Chain.Distinct (node_ids (n ∷ ns))
    → Chain.has f (node_ids (n ∷ ns)) ≡ false
    → (f == 0) ≡ false
    → m f ≡ record { ptmsg = msg; ptnext = 0 }
    → Linked (set_ptnext (last_id (n ∷ ns)) f m) head ((n ∷ ns) ++ (f, msg) ∷ [])
Linked-append m head n [] f msg l d out nonzero new =
    let other : (f == n.0) ≡ false = ground arith in
    (l.0, l.1, ground arith, (ground arith, nonzero, rw (other, new) refl, rw (other, new) refl))
Linked-append m head n (n' ∷ ns) f msg l d out nonzero new =
    let m' = set_ptnext (last_id (n ∷ n' ∷ ns)) f m in
    let rest = Linked-append m (m n.0).ptnext n' ns f msg l.3 d.1 (ground arith) nonzero new in
    let apart : (n.0 == Chain.last_of n'.0 (node_ids ns)) ≡ false =
      Chain.last_of-has n'.0 (node_ids ns) n.0 (let x = d.0 in ground arith)
        (let x = d.0 in ground arith) in
    (l.0, l.1, rw apart l.2, rw apart rest)

pub last_id-has :
    (ns : List (ℕ × ℕ)) (n : ℕ × ℕ) (k : ℕ)
    → Chain.has k (node_ids (n ∷ ns)) ≡ false
    → (k == last_id (n ∷ ns)) ≡ false
last_id-has ns n k h = Chain.last_of-has n.0 (node_ids ns) k (ground arith) (ground arith)

pub last_id_nonzero :
    (m : ℕ → PtNode) (head : ℕ) (n : ℕ × ℕ) (ns : List (ℕ × ℕ))
    → Linked m head (n ∷ ns)
    → (last_id (n ∷ ns) == 0) ≡ false
last_id_nonzero m head n [] l = l.1
last_id_nonzero m head n (n' ∷ ns) l = last_id_nonzero m (m n.0).ptnext n' ns l.3

pub last_id-snoc : (ns : List (ℕ × ℕ)) (f msg : ℕ) → last_id (ns ++ (f, msg) ∷ []) ≡ f
last_id-snoc [] f msg = refl
last_id-snoc (n ∷ []) f msg = refl
last_id-snoc (n ∷ n' ∷ ns) f msg = last_id-snoc (n' ∷ ns) f msg

pub node_ids-append : (ns ms : List (ℕ × ℕ)) → node_ids (ns ++ ms) ≡ node_ids ns ++ node_ids ms
node_ids-append [] ms = refl
node_ids-append (n ∷ ns) ms = ap (λ l. n.0 ∷ l) (node_ids-append ns ms)

-- An identity at the border of two lists may stand in either.
pub move_border : (xs : List ℕ) (f : ℕ) (ys : List ℕ) → (xs ++ f ∷ []) ++ ys ≡ xs ++ f ∷ ys
move_border [] f ys = refl
move_border (x ∷ xs) f ys = ap (λ l. x ∷ l) (move_border xs f ys)

pub sent-Distinct :
    (ns fs : List (ℕ × ℕ)) (f v msg : ℕ)
    → Chain.Distinct (node_ids ns ++ node_ids ((f, v) ∷ fs))
    → Chain.Distinct (node_ids (ns ++ (f, msg) ∷ []) ++ node_ids fs)
sent-Distinct ns fs f v msg d =
    rw (node_ids-append ns ((f, msg) ∷ []), move_border (node_ids ns) f (node_ids fs)) d
