-- ===== src/Process/Create.antt =====
-- system/create.c, system/vcreate.c, system/kill.c, system/exit.c, system/userret.c,
-- system/getpid.c and system/getprio.c: processes begin and end. `Kernel` has the system of
-- State with what these functions need besides. The functions of devices are arguments.
use ece564_project.Prelude.{
  ℕ, zero, suc, ◌+◌, ◌-◌, ◌%◌, ◌^◌, false, ltb, ◌==◌, if◌then◌else◌, Option, some, none, List,
}
use ece564_project.Prelude.Int.{ℤ, pos, ltb_ℤ, ◌+ℤ◌}
use ece564_project.Queue.Table.{nproc}
use ece564_project.Heap.Blocks.{Heap, getstk, roundmb}
use ece564_project.Paging.Memory.{Mem, page_dir_addr_start}
use ece564_project.Paging.Machine.{cr3_value}
use ece564_project.Paging.UserDir.{initialize_user_page_dir}
use ece564_project.Process.State.{System, Procent, pr_free, pr_susp, update_proc, is_bad_pid}
use ece564_project.Process.Context.{Words, Stack, build_stack}

-- The fields of a process table entry that the scheduler does not read.
pub record Details : Type 0 where
  pub prstkptr : ℕ
  pub prstkbase : ℕ
  pub prstklen : ℕ
  pub prname : ℕ → ℕ
  pub prparent : ℕ
  pub prdesc : ℕ → ℕ

-- `mem` is the memory of the paging structures and `words` that of the stacks.
pub record Kernel : Type 0 where
  pub sys : System
  pub details : ℕ → Details
  pub heap : Heap
  pub mem : Mem
  pub words : Words
  pub prcount : ℤ
  pub nextpid : ℕ

abbrev pub set_details : ℕ → Details → Kernel → Kernel
set_details p d k = record k { details = λ i. if i == p then d else k.details i }

unfoldable pub newpid : ℕ → ℕ → (ℕ → Procent) → ℕ × Option ℕ
newpid zero nextpid procs = (nextpid, none)
newpid (suc n) nextpid procs =
    let p = nextpid % nproc in
    let rest = newpid n (p + 1) procs in
    if (procs p).prstate == pr_free then (p + 1, some p) else rest

abbrev pub minstk : ℕ
minstk = 400

abbrev pub pnmlen : ℕ
pnmlen = 16

abbrev pub console : ℕ
console = 0

-- for (i=0 ; i<PNMLEN-1 && (prname[i]=name[i])!=NULLCH; i++) ;
unfoldable pub copy_name : ℕ → ℕ → (ℕ → ℕ) → (ℕ → ℕ) → ℕ → ℕ
copy_name zero i name old = old
copy_name (suc n) i name old =
    let new : ℕ → ℕ = λ j. if j == i then name i else old j in
    let rest = copy_name n (i + 1) name new in if name i == 0 then new else rest

abbrev pub stack_size : ℕ → ℕ
stack_size ssize = roundmb (if ltb ssize minstk then minstk else ssize)

-- The entry of a new process, from what it held before. prsem is -1.
abbrev pub new_entry : ℤ → ℕ → Procent → Procent
new_entry priority page_addr e = record e {
  prstate = pr_susp;
  prprio = priority;
  prsem = 2 ^ 32 - 1;
  prhasmsg = false;
  page_addr = page_addr;
}

-- The part of create behind its checks, with the stack at `saddr` and the page directory.
unfoldable pub enter_process : ℕ → ℕ → ℕ → ℤ → (ℕ → ℕ) → ℕ → List ℕ → ℕ → ℕ → Kernel → Kernel
enter_process funcaddr initret ssize priority name pid args saddr page_addr k =
    let st : Stack = build_stack funcaddr initret args saddr k.words in
    let old : Details = k.details pid in
    set_details pid
      (record {
        prstkptr = st.saddr;
        prstkbase = saddr;
        prstklen = ssize;
        prname = copy_name (pnmlen - 1) 0 name (λ j. if j == pnmlen - 1 then 0 else old.prname j);
        prparent = k.sys.currpid;
        prdesc = λ i. if ltb i 3 then console else old.prdesc i;
      })
      (record k {
        sys = update_proc pid (new_entry priority page_addr) k.sys;
        words = st.words;
        prcount = k.prcount +ℤ pos 1;
      })

-- What create and vcreate check and allocate first: the pid and the stack.
unfoldable pub allocate : ℕ → ℤ → Kernel → Kernel × Option (ℕ × ℕ)
allocate ssize priority k =
    if ltb_ℤ priority (pos 1)
    then (k, none)
    else (let (next, pid) = newpid nproc k.nextpid k.sys.proctab in
        let k1 : Kernel = record k { nextpid = next } in
        elim pid [
          | none ↦ (k1, none)
          | some p ↦
              let (heap, stk) = getstk ssize k.heap in
              elim stk [
                | none ↦ (record k1 { heap = heap }, none)
                | some saddr ↦ (record k1 { heap = heap }, some (p, saddr))
              ]
        ])

-- `none` is SYSERR.
abbrev pub enter_found :
    ℕ → ℕ → ℕ → ℤ → (ℕ → ℕ) → List ℕ → Kernel → Option (ℕ × ℕ) → Kernel × Option ℕ
enter_found funcaddr initret ssize priority name args k none = (k, none)
enter_found funcaddr initret ssize priority name args k (some (pid, saddr)) = (
  enter_process funcaddr initret ssize priority name pid args saddr page_dir_addr_start k,
  some pid,
)

unfoldable pub create : ℕ → ℕ → ℕ → ℤ → (ℕ → ℕ) → List ℕ → Kernel → Kernel × Option ℕ
create funcaddr initret ssize priority name args k =
    let (k1, found) = allocate (stack_size ssize) priority k in
    enter_found funcaddr initret (stack_size ssize) priority name args k1 found

abbrev pub set_cr3 : ℕ → Kernel → Kernel
set_cr3 addr k = record k { sys = record k.sys { cr3 = cr3_value addr k.sys.cr3 } }

-- CR3 is set to the system's directory first, and to the caller's at the end. The outer `none`
-- says that the search for a page of the table area ran out of fuel.
unfoldable pub vcreate : ℕ → ℕ → ℕ → ℕ → ℤ → (ℕ → ℕ) → List ℕ → Kernel → Option (Kernel × Option ℕ)
vcreate fuel funcaddr initret ssize priority name args k =
    let (k1, found) = allocate (stack_size ssize) priority (set_cr3 page_dir_addr_start k) in
    elim found [
      | none ↦ some (k1, none)
      | some (pid, saddr) ↦ elim (initialize_user_page_dir fuel k1.mem) [
        | none ↦ none
        | some (mem, dir) ↦
            let k2 : Kernel =
              enter_process funcaddr initret (stack_size ssize) priority name pid args saddr dir
                (record k1 { mem = mem }) in
            some (set_cr3 (k2.sys.proctab k2.sys.currpid).page_addr k2, some pid)
      ]
    ]

unfoldable pub getprio : ℕ → System → Option ℤ
getprio pid s = if is_bad_pid s pid then none else some (s.proctab pid).prprio

abbrev pub getpid : System → ℕ
getpid s = s.currpid
