-- ===== src/Boot.antt =====
-- kernel/kernel.c: the start of the kernel in supervisor mode.
use testcode.Base.{ℕ}
use testcode.Elf.{load_bincode_from_host_elf}
use testcode.Machine.{Kernel, K, pure, ◌>>=◌, ◌>>◌, modify}
use testcode.Pmm.{pmm_init}
use testcode.Process.Create.{alloc_process, init_proc_pool}
use testcode.Sched.{insert_to_ready_queue, schedule, make_satp}
use testcode.Syscall.Table.{World}
use testcode.Vfs.{fs_init}
use testcode.Vmm.{kern_vm_init}

-- `write_csr(satp, v)`
abbrev pub write_satp : (v : Kernel → ℕ) → K (Unit {0})
write_satp v = modify λ s. record s { csr = record s.csr { satp = v s } }

pub enable_paging : K (Unit {0})
enable_paging = write_satp λ s. make_satp s.g_kernel_pagetable

-- The result is the index of the process.
pub load_user_program : World → K ℕ
load_user_program world = do
  proc ← alloc_process world.img world.spike_files
  load_bincode_from_host_elf world.elf proc
  pure proc

unfoldable pub s_start : World → K ℕ
s_start world = do
  write_satp λ s. 0
  pmm_init world.img
  kern_vm_init world.img
  enable_paging
  init_proc_pool
  fs_init world.code world.fuel
  proc ← load_user_program world
  insert_to_ready_queue proc
  schedule world.img
  pure 0
