-- ===== src/Pool/Pools.antt =====
-- system/mkbufpool.c, system/getbuf.c and system/freebuf.c: the free buffers of a pool, and the
-- semaphore that counts them.
use ece564_project.Prelude.{
  ℕ, suc, ◌+◌, ◌-◌, ◌%◌, ◌^◌, ◌<◌, ◌≡◌, refl, Bool, true, false, arith, leb, ◌==◌, if◌then◌else◌,
  Option, some, none, List, [], ◌∷◌, length, ◌∙◌, ap,
}
use ece564_project.Prelude.Int.{pos, ltb_ℤ, ◌+ℤ◌, ◌-ℤ◌, -ℤ_parts, +ℤ_parts, eq_of_parts}
use ece564_project.Queue.Chain
use ece564_project.Process.State.{System}
use ece564_project.Process.Semaphores.{wait, signal, count_up, count_down}
use ece564_project.Process.Counts.{accepted, wait_positive, signal_unwaited}
use ece564_project.Process.Context.{Words, write_word}
use ece564_project.Pool.Buffers.{Pools, getbuf_wait, getbuf_take, give_back, freebuf, set_bpnext}

-- The free buffers are linked by their first words, from `head` to NULL.
abbrev pub FreeList : Words → ℕ → List ℕ → Type 0
FreeList m head [] = head ≡ 0
FreeList m head (b ∷ bs) =
    (head ≡ b) × ((b == 0) ≡ false) × (Chain.has b bs ≡ false) × FreeList m (m b) bs

-- The pool has the free buffers `bs`, and its semaphore counts them.
pub record IsPool (p : Pools) (poolid : ℕ) (bs : List ℕ) : Type 0 where
  pub known : leb p.nbpools poolid ≡ false
  pub buffers : FreeList p.words (p.buftab poolid).bpnext bs
  pub used : accepted (p.buftab poolid).bpsem p.sys ≡ true
  pub counted : (p.sys.semtab (p.buftab poolid).bpsem).scount ≡ pos (length bs)

FreeList-frame :
    (m : Words) (a v head : ℕ) (bs : List ℕ)
    → Chain.has a bs ≡ false
    → FreeList m head bs
    → FreeList (write_word a v m) head bs
FreeList-frame m a v head [] h f = f
FreeList-frame m a v head (b ∷ bs) h f =
    let out : Chain.has a bs ≡ false = ground arith in
    let other : (b == a) ≡ false = ground arith in
    (f.0, f.1, f.2, rw other (FreeList-frame m a v (m b) bs out f.3))

accepted_down :
    (sem : ℕ) (s : System) → accepted sem s ≡ true → accepted sem (count_down sem s) ≡ true
accepted_down sem s h = ground arith

accepted_up : (sem : ℕ) (s : System) → accepted sem s ≡ true → accepted sem (count_up sem s) ≡ true
accepted_up sem s h = ground arith

one_less : (n : ℕ) → pos (suc n) -ℤ pos 1 ≡ pos n
one_less n =
    eq_of_parts (pos (suc n) -ℤ pos 1) (pos n) (omega (arith, -ℤ_parts (pos (suc n)) (pos 1)))

one_more : (n : ℕ) → pos n +ℤ pos 1 ≡ pos (suc n)
one_more n = eq_of_parts (pos n +ℤ pos 1) (pos (suc n)) (omega (arith, +ℤ_parts (pos n) (pos 1)))

count_down_at :
    (sem : ℕ) (s : System) (n : ℕ)
    → (s.semtab sem).scount ≡ pos (suc n)
    → ((count_down sem s).semtab sem).scount ≡ pos n
count_down_at sem s n h =
    let e : ((count_down sem s).semtab sem).scount ≡ (s.semtab sem).scount -ℤ pos 1 =
      ground arith in
    e ∙ ap (λ c. c -ℤ pos 1) h ∙ one_less n

count_up_at :
    (sem : ℕ) (s : System) (n : ℕ)
    → (s.semtab sem).scount ≡ pos n
    → ((count_up sem s).semtab sem).scount ≡ pos (suc n)
count_up_at sem s n h =
    let e : ((count_up sem s).semtab sem).scount ≡ (s.semtab sem).scount +ℤ pos 1 = ground arith in
    e ∙ ap (λ c. c +ℤ pos 1) h ∙ one_more n

getbuf_wait_at :
    (poolid : ℕ) (p : Pools) (s : System)
    → leb p.nbpools poolid ≡ false
    → wait (p.buftab poolid).bpsem p.sys ≡ some (s, true)
    → getbuf_wait poolid p ≡ some (record p { sys = s }, true)
unfolding getbuf_wait
getbuf_wait_at poolid p s known run = rw known (
    ap
      (λ (o : Option (System × Bool)). elim o as (λ _. Option (Pools × Bool)) [
        | none ↦ none
        | some r ↦ some (record p { sys = r.0 }, true)
      ])
      run)

-- The first free buffer is taken.
taken-IsPool :
    (poolid : ℕ) (p : Pools) (b : ℕ) (bs : List ℕ)
    → IsPool p poolid (b ∷ bs)
    → IsPool
        (getbuf_take poolid (record p { sys = count_down (p.buftab poolid).bpsem p.sys })).0
        poolid
        bs
unfolding getbuf_take
taken-IsPool poolid p b bs is =
    let sem : ℕ = (p.buftab poolid).bpsem in
    let head = is.buffers.0 in
    let rest : FreeList p.words (p.words (p.buftab poolid).bpnext) bs = rw head is.buffers.3 in
    let out : Chain.has (p.buftab poolid).bpnext bs ≡ false = rw head is.buffers.2 in
    let next : (if poolid == poolid
          then record (p.buftab poolid) { bpnext = p.words (p.buftab poolid).bpnext }
          else p.buftab poolid)
        ≡ record (p.buftab poolid) { bpnext = p.words (p.buftab poolid).bpnext } =
      ground arith in
    record {
      known = is.known;
      buffers = rw next (
          FreeList-frame p.words (p.buftab poolid).bpnext poolid (p.words (p.buftab poolid).bpnext)
            bs out rest);
      used = rw next (accepted_down sem p.sys is.used);
      counted = rw next (count_down_at sem p.sys (length bs) is.counted);
    }

-- The pools behind give_back, and the semaphores behind its signal.
abbrev returned : ℕ → ℕ → System → Pools → Pools
returned buf poolid s p = record (set_bpnext poolid buf p) {
  words = write_word buf (p.buftab poolid).bpnext p.words;
  sys = s;
}

give_back_at :
    (b poolid : ℕ) (p : Pools) (s : System)
    → leb p.nbpools poolid ≡ false
    → signal (p.buftab poolid).bpsem p.sys ≡ some (s, true)
    → give_back b poolid p ≡ some (returned b poolid s p, true)
unfolding give_back
give_back_at b poolid p s known run = rw known (
    ap
      (λ (o : Option (System × Bool)). elim o as (λ _. Option (Pools × Bool)) [
        | none ↦ none
        | some r ↦ some (returned b poolid r.0 p, true)
      ])
      run)

freebuf_at :
    (bufaddr b poolid : ℕ) (p : Pools)
    → (bufaddr + (2 ^ 32 - 4)) % 2 ^ 32 ≡ b
    → p.words b ≡ poolid
    → freebuf bufaddr p ≡ give_back b poolid p
unfolding freebuf
freebuf_at bufaddr b poolid p at word =
    ap (λ a. give_back a (p.words a) p) at ∙ ap (λ i. give_back b i p) word

returned-IsPool :
    (poolid : ℕ) (p : Pools) (b : ℕ) (bs : List ℕ)
    → IsPool p poolid bs
    → (b == 0) ≡ false
    → Chain.has b bs ≡ false
    → IsPool (returned b poolid (count_up (p.buftab poolid).bpsem p.sys) p) poolid (b ∷ bs)
returned-IsPool poolid p b bs is some_address out =
    let sem : ℕ = (p.buftab poolid).bpsem in
    let next : (if poolid == poolid
          then record (p.buftab poolid) { bpnext = b }
          else p.buftab poolid)
        ≡ record (p.buftab poolid) { bpnext = b } =
      ground arith in
    let here : write_word b (p.buftab poolid).bpnext p.words b ≡ (p.buftab poolid).bpnext =
      ground arith in
    record {
      known = is.known;
      buffers = rw next (
        refl,
        some_address,
        out,
        rw here (
            FreeList-frame p.words b (p.buftab poolid).bpnext (p.buftab poolid).bpnext bs out
              is.buffers),
      );
      used = rw next (accepted_up sem p.sys is.used);
      counted = rw next (count_up_at sem p.sys (length bs) is.counted);
    }

take_address :
    (poolid : ℕ) (p : Pools) → (getbuf_take poolid p).1 ≡ ((p.buftab poolid).bpnext + 4) % 2 ^ 32
unfolding getbuf_take
take_address poolid p = refl

take_word :
    (poolid : ℕ) (p : Pools) (k : ℕ)
    → (getbuf_take poolid p).0.words k
      ≡ (if k == (p.buftab poolid).bpnext then poolid else p.words k)
unfolding getbuf_take
take_word poolid p k = refl

-- getbuf of a pool with a free buffer does not block and returns the address behind the first
-- word of the first free buffer, which holds the number of the pool; the others stay free, and
-- the semaphore counts them. freebuf of that address is OK, and the pool has the same free
-- buffers again, in the same order.
pub freebuf-getbuf :
    (poolid : ℕ) (p : Pools) (b : ℕ) (bs : List ℕ)
    → IsPool p poolid (b ∷ bs)
    → b + 4 < 2 ^ 32
    → (p1 : Pools) × (p2 : Pools) × (p3 : Pools) × (getbuf_wait poolid p ≡ some (p1, true))
      × (getbuf_take poolid p1 ≡ (p2, b + 4))
      × IsPool p2 poolid bs
      × (p2.words b ≡ poolid)
      × (freebuf (b + 4) p2 ≡ some (p3, true))
      × IsPool p3 poolid (b ∷ bs)
      × ((k : ℕ) → (k == b) ≡ false → p3.words k ≡ p.words k)
freebuf-getbuf poolid p b bs is small =
    let sem : ℕ = (p.buftab poolid).bpsem in
    let p1 : Pools = record p { sys = count_down sem p.sys } in
    let p2 : Pools = (getbuf_take poolid p1).0 in
    let head = is.buffers.0 in
    let taken = taken-IsPool poolid p b bs is in
    let addr : (getbuf_take poolid p1).1 ≡ b + 4 =
      take_address poolid p1 ∙ rw head (ground arith) in
    let word : p2.words b ≡ poolid = take_word poolid p1 b ∙ rw head (ground arith) in
    let start : (b + 4 + (2 ^ 32 - 4)) % 2 ^ 32 ≡ b = ground arith in
    let quiet : ltb_ℤ (p2.sys.semtab (p2.buftab poolid).bpsem).scount (pos 0) ≡ false =
      rw taken.counted (ground arith) in
    let run = signal_unwaited (p2.buftab poolid).bpsem p2.sys taken.used quiet in
    (
      p1,
      p2,
      returned b poolid (count_up (p2.buftab poolid).bpsem p2.sys) p2,
      getbuf_wait_at poolid p (count_down sem p.sys) is.known
          (wait_positive sem p.sys is.used (rw is.counted (ground arith))),
      ap (λ a. (p2, a)) addr,
      taken,
      word,
      freebuf_at (b + 4) b poolid p2 start word
          ∙ give_back_at b poolid p2 (count_up (p2.buftab poolid).bpsem p2.sys) taken.known run,
      returned-IsPool poolid p2 b bs taken is.buffers.1 is.buffers.2,
      λ k h. (let e = take_word poolid p1 k in ground arith),
    )
