-- ===== src/Machine/State.antt =====
-- The kernel's data: `struct process` of kernel/process.h, the globals of
-- pmm.c, vmm.c, sched.c, process.c and strap.c, the control and status registers, and memory.
use testcode.Base.{ℕ, ◌+◌, ◌*◌, ◌^◌, Option, update}

abbrev pub dram_base : ℕ
dram_base = 0x80000000

-- PHYS_TOP: DRAM_BASE plus 128 MB.
abbrev pub phys_top : ℕ
phys_top = dram_base + 128 * 1024 * 1024

abbrev pub nproc : ℕ
nproc = 32

abbrev pub time_slice_len : ℕ
time_slice_len = 2

-- MAXVA, one beyond the highest virtual address.
abbrev pub max_va : ℕ
max_va = 2 ^ 38

pub data ProcStatus : Type 0 where
  free ready running blocked zombie : ProcStatus

-- `struct process`. Pointers into the table `procs` are indices of it; `int` fields are patterns.
pub record Process : Type 0 where
  pub kstack : ℕ
  pub pagetable : ℕ
  pub trapframe : ℕ
  pub mapped_info : ℕ
  pub total_mapped_region : ℕ
  pub pid : ℕ
  pub status : ProcStatus
  pub parent : Option ℕ
  pub queue_next : Option ℕ
  pub tick_count : ℕ
  pub total_tick_count : ℕ
  pub total_mem_count : ℕ
  pub pfiles : ℕ

-- The control and status registers that the kernel reads and writes.
pub record Csr : Type 0 where
  pub sstatus : ℕ
  pub sepc : ℕ
  pub scause : ℕ
  pub stval : ℕ
  pub sip : ℕ
  pub satp : ℕ
  pub stvec : ℕ

-- Addresses that the linker script gives to the kernel.
pub record Symbols : Type 0 where
  pub kernel_end : ℕ
  pub etext : ℕ
  pub trap_sec_start : ℕ
  pub smode_trap_vector : ℕ
  pub smode_trap_handler : ℕ

-- `mem a` is the 64-bit word at the physical address `a`, a multiple of eight.
-- `free_list` is `g_free_mem_list.next`; a null pointer to a process is `none`.
pub record Kernel : Type 0 where
  pub mem : ℕ → ℕ
  pub free_list : ℕ
  pub free_mem_start_addr : ℕ
  pub free_mem_end_addr : ℕ
  pub g_mem_size : ℕ
  pub g_kernel_pagetable : ℕ
  pub procs : ℕ → Process
  pub current : Option ℕ
  pub ready_queue_head : Option ℕ
  pub g_ticks : ℕ
  pub g_ufree_page : ℕ
  pub ramdisk0_base_addr : ℕ
  pub vdev_list : ℕ → ℕ
  pub csr : Csr

-- A store to fields of `procs[i]`.
abbrev pub set_proc : Kernel → ℕ → Process → Kernel
set_proc s i p = record s { procs = update s.procs i p }
