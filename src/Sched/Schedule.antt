-- ===== src/Sched/Schedule.antt =====
-- `schedule` of kernel/sched.c on a ready queue, and `switch_to` of kernel/process.c.
use testcode.Base.{
  ℕ, zero, suc, ◌+◌, ◌%◌, ◌≤◌, ◌<◌, ◌≡◌, ◌≢◌, refl, ◌∙◌, none, some, true, ◌⊎◌, inl, inr, ◌↔◌, List,
  ◌∷◌, arith, Bool-cases, update,
}
use native.Mathlib.Decide.{dec_lt}
use testcode.Machine.{
  Kernel, Process, ProcStatus, Symbols, to_user, shutdown, panic, nproc, dram_base, phys_top,
}
use testcode.Machine.Word.{pgsize, add64}
use testcode.Sched.{
  switch_to, schedule, all_over, is_over, kernel_sp, kernel_trap, kernel_satp, epc, make_satp,
  user_status,
}
use testcode.Sched.Queue.{IsQueue}

-- The trap frame of a process is a page of memory.
abbrev pub HasTrapframe : Kernel → ℕ → Type 0
HasTrapframe s p =
    ((s.procs p).trapframe % pgsize ≡ 0)
    × (dram_base ≤ (s.procs p).trapframe)
    × ((s.procs p).trapframe < phys_top)

-- The process `p` resumes: the trap frame holds what the next trap needs, and the registers are
-- those of `p`.
pub record Resumes (img : Symbols) (p : ℕ) (s s' : Kernel) : Type 0 where
  pub current : s'.current ≡ some p
  pub queue : s'.ready_queue_head ≡ s.ready_queue_head
  pub procs : s'.procs ≡ s.procs
  pub pc : s'.csr.sepc ≡ s.mem ((s.procs p).trapframe + epc)
  pub satp : s'.csr.satp ≡ make_satp (s.procs p).pagetable
  pub sstatus : s'.csr.sstatus ≡ user_status s.csr.sstatus
  pub stvec : s'.csr.stvec ≡ img.smode_trap_vector
  pub stack : s'.mem ((s.procs p).trapframe + kernel_sp) ≡ (s.procs p).kstack
  pub kernel_space : s'.mem ((s.procs p).trapframe + kernel_satp) ≡ s.csr.satp
  pub handler : s'.mem ((s.procs p).trapframe + kernel_trap) ≡ img.smode_trap_handler
  pub rest :
      (a : ℕ)
      → a ≢ (s.procs p).trapframe + kernel_sp
      → a ≢ (s.procs p).trapframe + kernel_satp
      → a ≢ (s.procs p).trapframe + kernel_trap
      → s'.mem a ≡ s.mem a

-- The state in which `switch_to` leaves the kernel.
abbrev resumed : Symbols → ℕ → Kernel → Kernel
resumed img p s =
    let tf = (s.procs p).trapframe in
    let m1 = update s.mem (tf + kernel_sp) (s.procs p).kstack in
    let m2 = update m1 (tf + kernel_satp) s.csr.satp in
    let m3 = update m2 (tf + kernel_trap) img.smode_trap_handler in
    record s {
      current = some p;
      mem = m3;
      csr = record s.csr {
        stvec = img.smode_trap_vector;
        sstatus = user_status s.csr.sstatus;
        sepc = m3 (tf + epc);
        satp = make_satp (s.procs p).pagetable;
      };
    }

switch_to_run :
    (img : Symbols) (p : ℕ) (s : Kernel)
    → HasTrapframe s p
    → switch_to img p s ≡ to_user (resumed img p s)
unfolding switch_to
switch_to_run img p s (al, lo, hi) =
    let a : add64 (s.procs p).trapframe kernel_sp ≡ (s.procs p).trapframe + kernel_sp =
      omega arith in
    let b : add64 (s.procs p).trapframe kernel_satp ≡ (s.procs p).trapframe + kernel_satp =
      omega arith in
    let c : add64 (s.procs p).trapframe kernel_trap ≡ (s.procs p).trapframe + kernel_trap =
      omega arith in
    let d : add64 (s.procs p).trapframe epc ≡ (s.procs p).trapframe + epc = omega arith in
    rw (a, b, c, d) (ground arith)

resumed-Resumes :
    (img : Symbols) (p : ℕ) (s : Kernel) → HasTrapframe s p → Resumes img p s (resumed img p s)
resumed-Resumes img p s tf = record {
  current = refl;
  queue = refl;
  procs = refl;
  pc = ground arith;
  satp = refl;
  sstatus = refl;
  stvec = refl;
  stack = ground arith;
  kernel_space = ground arith;
  handler = ground arith;
  rest = λ a x y z. ground arith;
}

-- If the trap frame of a process is a page of memory, `switch_to` passes control to user mode
-- with the process current, the registers set up for it, the words for the next trap in its trap
-- frame, and the ready queue, the process table and the rest of memory unchanged.
pub switch_to-Resumes :
    (img : Symbols) (p : ℕ) (s : Kernel)
    → HasTrapframe s p
    → (s' : Kernel) × (switch_to img p s ≡ to_user s') × Resumes img p s s'
switch_to-Resumes img p s tf =
    (resumed img p s, switch_to_run img p s tf, resumed-Resumes img p s tf)

-- The queue without its first process, which is current.
abbrev popped : ℕ → Kernel → Kernel
popped p s = record s { current = some p; ready_queue_head = (s.procs p).queue_next }

schedule_run :
    (img : Symbols) (p : ℕ) (xs : List ℕ) (s : Kernel)
    → IsQueue s (p ∷ xs)
    → schedule img s ≡ switch_to img p (popped p s)
unfolding schedule
schedule_run img p xs s v = ground arith

-- The first process of the queue resumes.
pub record Dispatched (img : Symbols) (p : ℕ) (xs : List ℕ) (s s' : Kernel) : Type 0 where
  pub resumes : Resumes img p (popped p s) s'
  pub queue : IsQueue s' xs
  pub status : (s'.procs p).status ≡ ProcStatus.ready

-- If processes wait and the first one has its trap frame in memory, `schedule` passes control to
-- it: registers and trap frame are set up for it, the others wait in their order, and its status
-- is READY still.
pub schedule-Dispatched :
    (img : Symbols) (p : ℕ) (xs : List ℕ) (s : Kernel)
    → IsQueue s (p ∷ xs)
    → HasTrapframe s p
    → (s' : Kernel) × (schedule img s ≡ to_user s') × Dispatched img p xs s s'
schedule-Dispatched img p xs s v tf = (
  resumed img p (popped p s),
  schedule_run img p xs s v ∙ switch_to_run img p (popped p s) tf,
  record {
    resumes = resumed-Resumes img p (popped p s) tf;
    queue = record {
      links = v.links.1;
      distinct = v.distinct.1;
      below = v.below.1;
      ready = v.ready.1;
    };
    status = v.ready.0;
  },
)

all_over_iff :
    (n : ℕ) (procs : ℕ → Process)
    → (all_over n procs ≡ true) ↔ ((i : ℕ) → i < n → is_over (procs i).status ≡ true)
unfolding all_over
all_over_iff zero procs = (λ h i lt. absurd (omega arith), λ h. refl)
all_over_iff (suc n) procs = (
  λ h i lt. elim (dec_lt i n) [
    | yes l ↦ (all_over_iff n procs).0 (ground arith) i l
    | no ge ↦ let last : i ≡ n = omega arith in rw last (ground arith)
  ],
  λ h. ground (arith, (all_over_iff n procs).1 (λ i lt. h i (omega arith)), h n (omega arith)),
)

-- If no process waits, `schedule` shuts the machine down with code 0 and each of the 32 processes
-- is FREE or ZOMBIE, or it panics and one of them is neither.
pub schedule_idle :
    (img : Symbols) (s : Kernel)
    → s.ready_queue_head ≡ none
    → ((schedule img s ≡ shutdown 0) × ((i : ℕ) → i < nproc → is_over (s.procs i).status ≡ true))
      ⊎ ((schedule img s ≡ panic) × ¬ ((i : ℕ) → i < nproc → is_over (s.procs i).status ≡ true))
unfolding schedule
schedule_idle img s e = elim (Bool-cases (all_over nproc s.procs)) [
  | inl h ↦ inl (rw (e, h) refl, (all_over_iff nproc s.procs).0 h)
  | inr h ↦ inr (rw (e, h) refl, λ all. ground (arith, (all_over_iff nproc s.procs).1 all))
]
