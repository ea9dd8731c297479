-- ===== src/Process/Tests/Ends.antt =====
-- The theorems on the creation and the end of processes.
use ece564_project.Prelude.{ℕ, ◌+◌, ◌≡◌, refl, false, ◌==◌, some, none, [], ◌∷◌, arith, ◌⊎◌}
use ece564_project.Prelude.Int.{pos}
use ece564_project.Paging.Memory.{Mem}
use ece564_project.Process.State.{System, pr_curr, pr_free}
use ece564_project.Process.Context.{Words, build_stack, ctxsw_restore, enabled, stack_magic}
use ece564_project.Process.Stack.{HasWords, ctxsw_restore-build_stack}
use ece564_project.Process.Create.{Kernel, create}
use ece564_project.Process.Created.{Refused, Created, create-Created}
use ece564_project.Process.Lines.{Waiting}
use ece564_project.Process.End.{kill_finish, kill_finish-Waiting}
use ece564_project.Process.Tests.{three}
use ece564_project.Process.Tests.Semaphores.{waiters, waiters-Waiting}

abbrev zero_words : Words
zero_words k = 0

ctxsw_restore-build_stack_example :
    let st = build_stack 7000 8000 (1 ∷ 2 ∷ []) 5000 zero_words in
    let r = ctxsw_restore st.saddr st.words in
    (r.eip ≡ 7000)
    × (r.ebp ≡ 5000)
    × (r.eflags ≡ enabled)
    × HasWords st.words r.esp (8000 ∷ 1 ∷ 2 ∷ stack_magic ∷ [])
    × (r.esp + 8 + 4 ≡ 5000)
ctxsw_restore-build_stack_example =
    ctxsw_restore-build_stack 7000 8000 (1 ∷ 2 ∷ []) 5000 zero_words (omega arith) (omega arith)

abbrev pages : Mem
pages k = record {
  pres = 0;
  writable = 0;
  user = 0;
  pwt = 0;
  pcd = 0;
  acc = 0;
  bit6 = 0;
  bit7 = 0;
  global = 0;
  avail = 0;
  base = 0;
}

abbrev kernel : System → Kernel
kernel s = record {
  sys = s;
  details = λ k. record {
    prstkptr = 0;
    prstkbase = 3000;
    prstklen = 400;
    prname = λ i. 0;
    prparent = 0;
    prdesc = λ i. 0;
  };
  heap = record {
    free = record { addr = 1000; mlength = 800 } ∷ [];
    total = 800;
    minheap = 800;
    maxheap = 4000;
  };
  mem = pages;
  words = zero_words;
  prcount = pos 4;
  nextpid = 9;
}

create-Created_example :
    let (k, r) = create 7000 8000 400 (pos 20) (λ i. 0) (1 ∷ []) (kernel (three pr_curr)) in
    ((r ≡ none) × (k.sys ≡ three pr_curr) × Refused 400 (pos 20) (kernel (three pr_curr)))
    ⊎ ((pid : ℕ) × (r ≡ some pid)
        × (¬ Refused 400 (pos 20) (kernel (three pr_curr)))
        × Created (kernel (three pr_curr)) k pid 400 (pos 20))
create-Created_example =
    create-Created 7000 8000 400 (pos 20) (λ i. 0) (1 ∷ []) (kernel (three pr_curr))

kill_finish-Waiting_example :
    (k : Kernel) × (kill_finish (λ d k. k) 3 (kernel waiters) ≡ some k)
    × Waiting k.sys 52 (5 ∷ [])
    × ((k.sys.proctab 3).prstate ≡ pr_free)
    × ((i : ℕ) → (i == 3) ≡ false → k.sys.proctab i ≡ waiters.proctab i)
    × (k.sys.currpid ≡ 9)
kill_finish-Waiting_example =
    kill_finish-Waiting (λ d k. k) 3 (kernel waiters) 52 [] (5 ∷ []) (λ d k. refl) waiters-Waiting
