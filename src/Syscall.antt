-- ===== src/Syscall.antt =====
-- kernel/syscall.c: the system calls that allocate and free a page of the user, `yield` and `exit`.
pub mod Exit
pub mod Files
pub mod Page
pub mod Table
pub mod Yield
use testcode.Base.{ℕ, ◌+◌, ◌*◌, ◌/◌, ◌%◌, ◌^◌, Option, none, some, Bool, true}
use testcode.Machine.{Kernel, Process, Symbols, K, pure, ◌>>=◌, ◌>>◌, get, modify, deref}
use testcode.Machine.Word.{add64, pgsize}
use testcode.Pmm.{alloc_page}
use testcode.Process.{free_process}
use testcode.Sched.{insert_to_ready_queue, schedule}
use testcode.Vmm.{user_vm_map, user_vm_unmap, prot_to_type, prot_read, prot_write}

abbrev pub advance_ufree : Kernel → Kernel
advance_ufree s = record s { g_ufree_page = add64 s.g_ufree_page pgsize }

-- The result is the virtual address of the new page.
unfoldable pub sys_user_allocate_page : K ℕ
sys_user_allocate_page = do
  pa ← alloc_page
  s ← get
  let va : ℕ = s.g_ufree_page
  modify advance_ufree
  i ← deref s.current
  user_vm_map (s.procs i).pagetable va pgsize pa (prot_to_type (prot_write + prot_read) true)
  pure va

unfoldable pub sys_user_free_page : ℕ → K ℕ
sys_user_free_page va = do
  s ← get
  i ← deref s.current
  user_vm_unmap (s.procs i).pagetable va pgsize true
  pure 0

unfoldable pub sys_user_yield : Symbols → K ℕ
sys_user_yield img = do s ← get; i ← deref s.current; insert_to_ready_queue i; schedule img; pure 0

-- The exit code is only reported.
unfoldable pub sys_user_exit : Symbols → (code : ℕ) → K ℕ
sys_user_exit img code = do s ← get; i ← deref s.current; ret ← free_process i; schedule img; pure 0
