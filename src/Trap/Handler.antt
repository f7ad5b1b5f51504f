-- ===== src/Trap/Handler.antt =====
-- `handle_syscall` and `smode_trap_handler` of kernel/strap.c.
use testcode.Base.{ℕ, ◌+◌, ◌^◌, bit_and, ◌||◌, ◌==◌, if◌then◌else◌}
use testcode.Machine.{K, ◌>>=◌, ◌>>◌, stop, panic, get, deref, assert, load, store}
use testcode.Machine.Word.{add64}
use testcode.Process.Create.{regs_a0, regs_a1}
use testcode.Sched.{epc, switch_to}
use testcode.Syscall.Table.{World, do_syscall, has_current}
use testcode.Trap.{handle_mtimer_trap, rrsched, handle_user_page_fault, cause_store_page_fault}

abbrev pub cause_user_ecall : ℕ
cause_user_ecall = 8

abbrev pub cause_mtimer_s_trap : ℕ
cause_mtimer_s_trap = 2 ^ 63 + 1

abbrev pub cause_load_page_fault : ℕ
cause_load_page_fault = 13

abbrev pub sstatus_spp : ℕ
sstatus_spp = 2 ^ 8

abbrev pub regs_a2 : ℕ
regs_a2 = 88

abbrev pub regs_a3 : ℕ
regs_a3 = 96

-- The result goes to the trap frame that the call began with.
unfoldable pub handle_syscall : World → (tf : ℕ) → K (Unit {0})
handle_syscall world tf = do
  pc ← load (add64 tf epc)
  store (add64 tf epc) (add64 pc 4)
  a0 ← load (add64 tf regs_a0)
  a1 ← load (add64 tf regs_a1)
  a2 ← load (add64 tf regs_a2)
  a3 ← load (add64 tf regs_a3)
  ret ← do_syscall world a0 a1 a2 a3
  store (add64 tf regs_a0) ret

-- The `switch` on the cause.
unfoldable pub handle_cause : World → (cause tf : ℕ) → K (Unit {0})
handle_cause world cause tf = do
  s ← get
  if cause == cause_user_ecall
      then handle_syscall world tf
      else if cause == cause_mtimer_s_trap
      then handle_mtimer_trap >> rrsched world.img
      else if cause == cause_store_page_fault || cause == cause_load_page_fault
      then handle_user_page_fault cause s.csr.stval
      else stop panic

unfoldable pub smode_trap_handler : World → K (Unit {0})
smode_trap_handler world = do
  s ← get
  assert (bit_and s.csr.sstatus sstatus_spp == 0)
  assert (has_current s)
  i ← deref s.current
  store (add64 (s.procs i).trapframe epc) s.csr.sepc
  handle_cause world s.csr.scause (s.procs i).trapframe
  s ← get
  i ← deref s.current
  switch_to world.img i
