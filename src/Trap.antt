-- ===== src/Trap.antt =====
-- kernel/strap.c: the timer interrupt, the round-robin scheduler and the page-fault handler.
pub mod Ecall
pub mod Handler
pub mod PageFault
pub mod RoundRobin
pub mod Timer
pub mod Fair
pub mod Turns
use testcode.Base.{
  ℕ, ◌+◌, ◌-◌, ◌*◌, ◌%◌, ◌/◌, ◌^◌, bit_and, Option, none, some, Bool, true, not, ◌==◌,
  if◌then◌else◌,
}
use testcode.Machine.{
  Kernel, Process, Symbols, K, pure, ◌>>=◌, ◌>>◌, get, modify, deref, set_proc, time_slice_len,
}
use testcode.Machine.Word.{add32, add64, slt32, pgsize, round_down}
use testcode.Pmm.{alloc_page}
use testcode.Vmm.{user_vm_map, prot_to_type, prot_read, prot_write}
use testcode.Sched.{insert_to_ready_queue, schedule}

-- The tick is counted, and SIP_SSIP cleared.
pub handle_mtimer_trap : K (Unit {0})
handle_mtimer_trap = modify λ s. record s {
  g_ticks = add64 s.g_ticks 1;
  csr = record s.csr { sip = bit_and s.csr.sip (2 ^ 64 - 1 - 2) };
}

abbrev pub count_tick : ℕ → Kernel → Kernel
count_tick i s = set_proc s i (record (s.procs i) {
  tick_count = add32 (s.procs i).tick_count 1;
  total_tick_count = add32 (s.procs i).total_tick_count 1;
})

abbrev pub reset_tick : ℕ → Kernel → Kernel
reset_tick i s = set_proc s i (record (s.procs i) { tick_count = 0 })

unfoldable pub rrsched : Symbols → K (Unit {0})
rrsched img = do
  s ← get
  i ← deref s.current
  modify (count_tick i)
  t ← get
  if slt32 (t.procs i).tick_count time_slice_len
      then pure tt
      else do modify (reset_tick i); insert_to_ready_queue i; schedule img

abbrev pub cause_store_page_fault : ℕ
cause_store_page_fault = 0xf

-- Another cause than a store is only reported.
unfoldable pub handle_user_page_fault : (mcause stval : ℕ) → K (Unit {0})
handle_user_page_fault mcause stval = if not (mcause == cause_store_page_fault) then pure tt else do
  newpage ← alloc_page
  s ← get
  i ← deref s.current
  user_vm_map (s.procs i).pagetable (round_down stval) pgsize newpage
      (prot_to_type (prot_write + prot_read) true)
