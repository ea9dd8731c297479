-- ===== src/Pool/Making.antt =====
-- system/mkbufpool.c: the buffers of a new pool.
use ece564_project.Prelude.{
  ℕ, zero, suc, ◌+◌, ◌-◌, ◌*◌, ◌<◌, ◌≡◌, refl, true, false, arith, Option, some, none, inl, inr,
  ◌⊎◌, List, [], ◌∷◌, length, ◌∙◌, ap, subst, sym,
}
use ece564_project.Prelude.Int.{ℤ, pos, pos_part}
use ece564_project.Queue.Chain
use ece564_project.Queue.Table.{nsem}
use ece564_project.Heap.Blocks.{Heap, getmem}
use ece564_project.Process.State.{Sentry}
use ece564_project.Process.Semaphores.{semcreate}
use ece564_project.Process.Counts.{created, semcreate-created}
use ece564_project.Process.Context.{Words, write_word}
use ece564_project.Pool.Buffers.{
  Pools, round4, bad_pool, link_buffers, with_semaphore, with_memory, mkbufpool,
}
use ece564_project.Pool.Pools.{FreeList, IsPool}

-- `n` addresses from `a` on, `size` apart.
abbrev pub spaced : ℕ → ℕ → ℕ → List ℕ
spaced zero a size = []
spaced (suc n) a size = a ∷ spaced n (a + size) size

length-spaced : (n a size : ℕ) → length (spaced n a size) ≡ n
length-spaced zero a size = refl
length-spaced (suc n) a size = ap suc (length-spaced n (a + size) size)

spaced_above : (n a size k : ℕ) → k < a → Chain.has k (spaced n a size) ≡ false
spaced_above zero a size k h = refl
spaced_above (suc n) a size k h =
    let rest = spaced_above n (a + size) size k (omega arith) in ground arith

link_buffers_below : (n buf size k : ℕ) (m : Words) → k < buf → link_buffers n buf size m k ≡ m k
unfolding link_buffers
link_buffers_below zero buf size k m h = ground arith
link_buffers_below (suc n) buf size k m h =
    link_buffers_below n (buf + size) size k (write_word buf (buf + size) m) (omega arith)
    ∙ ground arith

link_buffers-FreeList :
    (n buf size : ℕ) (m : Words)
    → 0 < buf
    → 0 < size
    → FreeList (link_buffers n buf size m) buf (spaced (suc n) buf size)
unfolding link_buffers
link_buffers-FreeList zero buf size m h g = (refl, ground arith, refl, ground arith)
link_buffers-FreeList (suc n) buf size m h g =
    let m1 : Words = write_word buf (buf + size) m in
    let next : link_buffers n (buf + size) size m1 buf ≡ buf + size =
      link_buffers_below n (buf + size) size buf m1 (omega arith) ∙ ground arith in
    (
      refl,
      ground arith,
      spaced_above (suc n) (buf + size) size buf (omega arith),
      rw next (link_buffers-FreeList n (buf + size) size m1 (omega arith) g),
    )

with_semaphore-IsPool :
    (size n buf sem : ℕ) (p : Pools)
    → 0 < n
    → 0 < buf
    → sem < nsem
    → (semcreate (pos n) p.sys).0.semtab ≡ created sem (pos n) p.sys
    → IsPool
        (with_semaphore size n buf p (semcreate (pos n) p.sys).0 (some sem)).0
        p.nbpools
        (spaced n buf (size + 4))
with_semaphore-IsPool size n buf sem p some_buffers h low sems =
    let e : suc (n - 1) ≡ n = omega arith in
    let links : FreeList (link_buffers (n - 1) buf (size + 4) p.words) buf
        (spaced n buf (size + 4)) =
      subst
        (λ i. FreeList (link_buffers (n - 1) buf (size + 4) p.words) buf (spaced i buf (size + 4)))
        e (link_buffers-FreeList (n - 1) buf (size + 4) p.words h (omega arith)) in
    let here : (with_semaphore size n buf p (semcreate (pos n) p.sys).0 (some sem)).0.buftab
          p.nbpools
        ≡ record { bpnext = buf; bpsem = sem; bpsize = size } =
      ground arith in
    let used : ((semcreate (pos n) p.sys).0.semtab sem).used ≡ true =
      ap (λ (f : ℕ → Sentry). (f sem).used) sems ∙ ground arith in
    record {
      known = ground arith;
      buffers = rw here links;
      used = rw here (ground arith);
      counted = rw here (
          ap (λ (f : ℕ → Sentry). (f sem).scount) sems
          ∙ (let l = length-spaced n buf (size + 4) in rw l (ground arith)));
    }

mkbufpool_at :
    (bufsiz numbufs : ℤ) (p : Pools) (heap : Heap) (buf : ℕ)
    → bad_pool bufsiz numbufs p ≡ false
    → getmem (pos_part numbufs * (round4 (pos_part bufsiz) + 4)) p.heap ≡ (heap, some buf)
    → mkbufpool bufsiz numbufs p
      ≡ with_memory
          (round4 (pos_part bufsiz))
          (pos_part numbufs)
          (record p { heap = heap })
          (some buf)
unfolding mkbufpool
mkbufpool_at bufsiz numbufs p heap buf good got = rw good (
    ap
      (λ (r : Heap × Option ℕ).
        with_memory (round4 (pos_part bufsiz)) (pos_part numbufs) (record p { heap = r.0 }) r.1)
      got)

-- mkbufpool with arguments in range, a table of pools that is not full and memory for the buffers
-- at `buf`: if no semaphore is free it fails and the number of pools stays; else it returns the
-- next number, one more pool is known, and all buffers of that pool are free, one behind the
-- other, as many as its semaphore counts.
pub mkbufpool-IsPool :
    (bufsiz numbufs : ℤ) (p : Pools) (heap : Heap) (buf : ℕ)
    → bad_pool bufsiz numbufs p ≡ false
    → getmem (pos_part numbufs * (round4 (pos_part bufsiz) + 4)) p.heap ≡ (heap, some buf)
    → 0 < buf
    → p.sys.nextsem < nsem
    → let (p', r) = mkbufpool bufsiz numbufs p in
      ((r ≡ none) × (p'.nbpools ≡ p.nbpools))
      ⊎ ((r ≡ some p.nbpools)
          × (p'.nbpools ≡ p.nbpools + 1)
          × IsPool p' p.nbpools (spaced (pos_part numbufs) buf (round4 (pos_part bufsiz) + 4)))
mkbufpool-IsPool bufsiz numbufs p heap buf good got h next =
    let size : ℕ = round4 (pos_part bufsiz) in
    let n : ℕ = pos_part numbufs in
    let p0 : Pools = record p { heap = heap } in
    let enough : 0 < n = ground arith in
    let entered : mkbufpool bufsiz numbufs p ≡ with_memory size n p0 (some buf) =
      mkbufpool_at bufsiz numbufs p heap buf good got in
    elim (semcreate-created (pos n) p0.sys next (ground arith)) [
      | inl (nothing, _, _) ↦
          let e : mkbufpool bufsiz numbufs p
              ≡ with_semaphore size n buf p0 (semcreate (pos n) p.sys).0 none =
            entered ∙ ap (with_semaphore size n buf p0 (semcreate (pos n) p.sys).0) nothing in
          inl (ap (λ r. r.1) e, ap (λ r. r.0.nbpools) e)
      | inr (sem, hit, low, _, sems) ↦
          let e : mkbufpool bufsiz numbufs p
              ≡ with_semaphore size n buf p0 (semcreate (pos n) p.sys).0 (some sem) =
            entered ∙ ap (with_semaphore size n buf p0 (semcreate (pos n) p.sys).0) hit in
          inr (
            ap (λ r. r.1) e,
            ap (λ r. r.0.nbpools) e,
            subst (λ (r : Pools × Option ℕ). IsPool r.0 p.nbpools (spaced n buf (size + 4))) (sym e)
                (with_semaphore-IsPool size n buf sem p0 enough h low sems),
          )
    ]
