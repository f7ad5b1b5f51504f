-- ===== src/Sched.antt =====
-- kernel/sched.c and `switch_to` of kernel/process.c: the ready queue is a list of processes linked
-- by `queue_next`. `schedule` and `switch_to` end in user mode and do not return.
pub mod Queue
pub mod Rotate
pub mod Schedule
use testcode.Base.{
  ℕ, zero, suc, ◌+◌, ◌-◌, ◌*◌, ◌/◌, ◌^◌, bit_and, bit_or, Option, none, some, Bool, true, false,
  ◌&&◌, ◌||◌, not, ◌==◌, if◌then◌else◌,
}
use testcode.Machine.{
  Kernel, Process, Csr, ProcStatus, Symbols, K, pure, ◌>>=◌, ◌>>◌, stop, panic, shutdown, to_user,
  out_of_fuel, get, modify, assert, load, store, set_proc, nproc,
}
use testcode.Machine.Word.{add64}

abbrev pub is_ready : ProcStatus → Bool
is_ready ProcStatus.ready = true
is_ready _ = false

-- FREE or ZOMBIE.
abbrev pub is_over : ProcStatus → Bool
is_over ProcStatus.free = true
is_over ProcStatus.zombie = true
is_over _ = false

-- `p->queue_next = proc; proc->status = READY; proc->queue_next = NULL`.
abbrev pub append_after : (p proc : ℕ) → Kernel → Kernel
append_after p proc s =
    let s : Kernel = set_proc s p (record (s.procs p) { queue_next = some proc }) in
    set_proc s proc (record (s.procs proc) { status = ProcStatus.ready; queue_next = none })

-- The walk to the last element of the queue, which ends early at `proc`.
unfoldable pub insert_loop : ℕ → (p proc : ℕ) → K (Unit {0})
insert_loop zero p proc = stop out_of_fuel
insert_loop (suc n) p proc = do
  s ← get
  elim ((s.procs p).queue_next) [
    | none ↦ if p == proc then pure tt else modify (append_after p proc)
    | some q ↦ if p == proc then pure tt else insert_loop n q proc
  ]

abbrev pub start_queue : ℕ → Kernel → Kernel
start_queue proc s =
    record (set_proc s proc
      (record (s.procs proc) { status = ProcStatus.ready; queue_next = none })) {
        ready_queue_head = some proc;
      }

unfoldable pub insert_to_ready_queue : ℕ → K (Unit {0})
unfolding insert_loop
insert_to_ready_queue proc = do
  s ← get
  elim (s.ready_queue_head) [
    | none ↦ modify (start_queue proc)
    | some p ↦ insert_loop (nproc + 1) p proc
  ]

-- Offsets in `struct trapframe`.
abbrev pub kernel_sp : ℕ
kernel_sp = 248

abbrev pub kernel_trap : ℕ
kernel_trap = 256

abbrev pub epc : ℕ
epc = 264

abbrev pub kernel_satp : ℕ
kernel_satp = 272

-- SPP cleared, SPIE set.
abbrev pub user_status : ℕ → ℕ
user_status x = bit_or (bit_and x (2 ^ 64 - 1 - 2 ^ 8)) (2 ^ 5)

-- MAKE_SATP.
abbrev pub make_satp : ℕ → ℕ
make_satp pagetable = bit_or (8 * 2 ^ 60) (pagetable / 2 ^ 12)

abbrev set_csr : (Csr → Csr) → Kernel → Kernel
set_csr f s = record s { csr = f s.csr }

-- `return_to_user` gets the page table as a value of satp, and loads it.
unfoldable pub switch_to : Symbols → ℕ → K (Unit {0})
unfolding load store
switch_to img proc = do
  modify (λ s. record s { current = some proc })
  modify (set_csr (λ c. record c { stvec = img.smode_trap_vector }))
  s ← get
  store (add64 (s.procs proc).trapframe kernel_sp) (s.procs proc).kstack
  store (add64 (s.procs proc).trapframe kernel_satp) s.csr.satp
  store (add64 (s.procs proc).trapframe kernel_trap) img.smode_trap_handler
  modify (set_csr (λ c. record c { sstatus = user_status c.sstatus }))
  pc ← load (add64 (s.procs proc).trapframe epc)
  modify (set_csr (λ c. record c { sepc = pc; satp = make_satp (s.procs proc).pagetable }))
  to_user

-- `should_shutdown`: the processes below `n` are all FREE or ZOMBIE.
unfoldable pub all_over : ℕ → (ℕ → Process) → Bool
all_over zero procs = true
all_over (suc n) procs = all_over n procs && is_over (procs n).status

-- `current->status == RUNNING;` in the source compares and stores nothing.
unfoldable pub schedule : Symbols → K (Unit {0})
unfolding switch_to all_over
schedule img = do
  s ← get
  elim (s.ready_queue_head) [
    | none ↦ if all_over nproc s.procs then stop (shutdown 0) else stop panic
    | some p ↦ do
      modify (λ t. record t { current = some p })
      assert (is_ready (s.procs p).status)
      modify (λ t. record t { ready_queue_head = (t.procs p).queue_next })
      switch_to img p
  ]
