-- ===== src/Pool/Tests.antt =====
-- The theorems on buffer pools and ports at a pool with two buffers and a port with one message.
use ece564_project.Prelude.{
  ℕ, ◌+◌, ◌≡◌, refl, true, false, ◌==◌, if◌then◌else◌, some, [], ◌∷◌, arith,
}
use ece564_project.Prelude.Int.{pos}
use ece564_project.Queue.Table.{empty}
use ece564_project.Process.State.{System, pr_free}
use ece564_project.Process.Semaphores.{count_up}
use ece564_project.Pool.Buffers.{Pools, getbuf_wait, getbuf_take, freebuf}
use ece564_project.Pool.Pools.{IsPool, freebuf-getbuf}
use ece564_project.Pool.Ports.{Ports, pt_alloc, pt_free, Sent, ptsend_put, ptrecv_take}
use ece564_project.Pool.Chains.{IsPort}
use ece564_project.Pool.Delivery.{ptsend_put-last, ptrecv_take-first}

-- All semaphores are in use; 0 has the count 2, 1 the count 3 and 2 the count 1.
abbrev system : System
system = record {
  proctab = λ k. record {
    prstate = pr_free;
    prprio = pos 0;
    prsem = 0;
    prmsg = 0;
    prhasmsg = false;
    page_addr = 4096;
  };
  semtab = λ k. record {
    used = true;
    scount = if k == 0 then pos 2 else if k == 1 then pos 3 else pos 1;
    squeue = 100 + k + k;
  };
  queuetab = λ k. record { qkey = pos 0; qnext = empty; qprev = empty };
  currpid = 9;
  readylist = 204;
  sleepq = 206;
  ndefers = 0;
  attempt = false;
  preempt = 10;
  cr3 = 4096;
  nextsem = 0;
}

-- The pool 0 has free buffers at 1000 and 1012.
abbrev pools : Pools
pools = record {
  buftab = λ k. record { bpnext = 1000; bpsem = 0; bpsize = 8 };
  nbpools = 1;
  words = λ k. if k == 1000 then 1012 else 0;
  sys = system;
  heap = record { free = []; total = 0; minheap = 800; maxheap = 4000 };
}

freebuf-getbuf_example :
    (p1 : Pools) × (p2 : Pools) × (p3 : Pools) × (getbuf_wait 0 pools ≡ some (p1, true))
    × (getbuf_take 0 p1 ≡ (p2, 1004))
    × IsPool p2 0 (1012 ∷ [])
    × (p2.words 1000 ≡ 0)
    × (freebuf 1004 p2 ≡ some (p3, true))
    × IsPool p3 0 (1000 ∷ 1012 ∷ [])
    × ((k : ℕ) → (k == 1000) ≡ false → p3.words k ≡ pools.words k)
freebuf-getbuf_example =
    freebuf-getbuf 0 pools 1000 (1012 ∷ [])
      (record {
        known = refl;
        buffers = (refl, refl, refl, (refl, refl, refl, refl));
        used = refl;
        counted = refl;
      })
      (omega arith)

-- The port 3 holds the message 7 in the node 100, and the nodes 108 and 116 are free.
abbrev ports : Ports
ports = record {
  porttab = λ k. record {
    ptssem = 1;
    ptrsem = 2;
    ptstate = if k == 3 then pt_alloc else pt_free;
    ptmaxcnt = 4;
    ptseq = 5;
    pthead = 100;
    pttail = 100;
  };
  nodes = λ k.
      if k == 100
      then record { ptmsg = 7; ptnext = 0 }
      else if k == 108
      then record { ptmsg = 0; ptnext = 116 }
      else record { ptmsg = 0; ptnext = 0 };
  ptfree = 108;
  ptnextid = 4;
  sys = system;
}

ports-IsPort : IsPort ports 3 ((100, 7) ∷ []) ((108, 0) ∷ (116, 0) ∷ [])
ports-IsPort = record {
  allocated = refl;
  linked = (refl, refl, refl, refl);
  tail = refl;
  free = (refl, refl, refl, (refl, refl, refl, refl));
  distinct = (refl, (refl, (refl, tt)));
}

ptsend_put-last_example :
    (p : Ports) × (ptsend_put 3 5 8 ports ≡ some (Sent.sent p))
    × IsPort p 3 ((100, 7) ∷ (108, 8) ∷ []) ((116, 0) ∷ [])
    × (p.sys ≡ count_up 2 system)
ptsend_put-last_example =
    ptsend_put-last ports 3 5 8 108 0 ((100, 7) ∷ []) ((116, 0) ∷ []) ports-IsPort refl refl refl

ptrecv_take-first_example :
    (p : Ports) × (ptrecv_take 3 5 ports ≡ some (p, some 7))
    × IsPort p 3 [] ((100, 7) ∷ (108, 0) ∷ (116, 0) ∷ [])
    × (p.sys ≡ count_up 1 system)
ptrecv_take-first_example =
    ptrecv_take-first ports 3 5 (100, 7) [] ((108, 0) ∷ (116, 0) ∷ []) ports-IsPort refl refl refl
