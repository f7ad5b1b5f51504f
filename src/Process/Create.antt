-- ===== src/Process/Create.antt =====
-- `init_proc_pool`, `alloc_process` and `realloc_process` of kernel/process.c. The files of the
-- host interface are the parameter `SpikeFiles`.
use testcode.Base.{
  ◌-◌, ℕ, zero, suc, ◌+◌, ◌*◌, Option, none, some, Bool, true, false, ltb, if◌then◌else◌,
}
use testcode.Machine.{
  Process, ProcStatus, Symbols, K, pure, ◌>>=◌, ◌>>◌, stop, panic, get, modify, store, store32,
  set_proc, nproc,
}
use testcode.Machine.Memory.{fill, clear_page}
use testcode.Machine.Word.{add64, pgsize}
use testcode.File.{SpikeFiles, files_create}
use testcode.Pmm.{alloc_page, free_page}
use testcode.Process.{unmap_regions, rounds_of}
use testcode.Vmm.{user_vm_map, prot_to_type, prot_read, prot_write, prot_exec}

abbrev pub user_stack_top : ℕ
user_stack_top = 0x7ffff000

-- Offsets of registers in `struct trapframe`, and its size in words.
abbrev pub regs_sp : ℕ
regs_sp = 8

abbrev pub regs_a0 : ℕ
regs_a0 = 72

abbrev pub regs_a1 : ℕ
regs_a1 = 80

abbrev pub trapframe_words : ℕ
trapframe_words = 35

-- The values of `seg_type`.
abbrev pub code_segment : ℕ
code_segment = 0

abbrev pub data_segment : ℕ
data_segment = 1

abbrev pub stack_segment : ℕ
stack_segment = 2

abbrev pub context_segment : ℕ
context_segment = 3

abbrev pub system_segment : ℕ
system_segment = 4

abbrev pub is_free : ProcStatus → Bool
is_free ProcStatus.free = true
is_free _ = false

-- The first usable entry of the table, of the `n` from `i` on.
unfoldable pub find_free : ℕ → (i : ℕ) → (ℕ → Process) → Option ℕ
find_free zero i procs = none
find_free (suc n) i procs =
    let rest = find_free n (i + 1) procs in if is_free (procs i).status then some i else rest

-- The table as `init_proc_pool` leaves it.
abbrev pub empty_process : (pid : ℕ) → Process
empty_process pid = record {
  kstack = 0;
  pagetable = 0;
  trapframe = 0;
  mapped_info = 0;
  total_mapped_region = 0;
  pid = pid;
  status = ProcStatus.free;
  parent = none;
  queue_next = none;
  tick_count = 0;
  total_tick_count = 0;
  total_mem_count = 0;
  pfiles = 0;
}

unfoldable pub init_proc_pool : K (Unit {0})
init_proc_pool =
    modify λ s. record s { procs = λ i. if ltb i nproc then empty_process i else s.procs i }

-- An assignment to fields of `procs[i]`.
abbrev pub set_fields : (i : ℕ) → (Process → Process) → K (Unit {0})
set_fields i f = modify λ s. set_proc s i (f (s.procs i))

-- `mapped_info[j] = { va, npages, seg_type }`
unfoldable pub set_region : (mapped_info j va npages seg_type : ℕ) → K (Unit {0})
set_region mapped_info j va npages seg_type = do
  store (add64 mapped_info (16 * j)) va
  store32 (add64 mapped_info (16 * j + 8)) npages
  store32 (add64 mapped_info (16 * j + 12)) seg_type

-- The user stack, the trap frame and the trap vector are mapped.
unfoldable pub map_segments : Symbols → (i user_stack : ℕ) → K (Unit {0})
map_segments img i user_stack = do
  s ← get
  user_vm_map (s.procs i).pagetable (user_stack_top - pgsize) pgsize user_stack
      (prot_to_type (prot_write + prot_read) true)
  set_region (s.procs i).mapped_info 0 (user_stack_top - pgsize) 1 stack_segment
  user_vm_map (s.procs i).pagetable (s.procs i).trapframe pgsize (s.procs i).trapframe
      (prot_to_type (prot_write + prot_read) false)
  set_region (s.procs i).mapped_info 1 (s.procs i).trapframe 1 context_segment
  user_vm_map (s.procs i).pagetable img.trap_sec_start pgsize img.trap_sec_start
      (prot_to_type (prot_read + prot_exec) false)
  set_region (s.procs i).mapped_info 2 img.trap_sec_start 1 system_segment

-- A trap frame and a page directory, cleared.
unfoldable pub new_frame : (i : ℕ) → K (Unit {0})
new_frame i = do
  trapframe ← alloc_page
  set_fields i (λ p. record p { trapframe = trapframe })
  fill trapframe_words trapframe 0
  pagetable ← alloc_page
  set_fields i (λ p. record p { pagetable = pagetable })
  clear_page pagetable

-- The pages of a new process: all that `alloc_process` does but for `procs[i]`'s counts and files.
unfoldable pub alloc_space : Symbols → (i : ℕ) → K (Unit {0})
alloc_space img i = do
  new_frame i
  kstack ← alloc_page
  set_fields i (λ p. record p { kstack = add64 kstack pgsize })
  user_stack ← alloc_page
  s ← get
  store (add64 (s.procs i).trapframe regs_sp) user_stack_top
  mapped_info ← alloc_page
  set_fields i (λ p. record p { mapped_info = mapped_info })
  clear_page mapped_info
  map_segments img i user_stack

-- The result is the index of the process.
unfoldable pub alloc_process : Symbols → SpikeFiles → K ℕ
unfolding alloc_space new_frame map_segments store
alloc_process img files = do
  s ← get
  elim (find_free nproc 0 s.procs) [
    | none ↦ stop panic
    | some i ↦ do
      set_fields i (λ p. record p { total_mem_count = 0 })
      alloc_space img i
      set_fields i (λ p. record p { total_mapped_region = 3; total_tick_count = 0; tick_count = 0 })
      pfiles ← files_create files
      set_fields i (λ p. record p { pfiles = pfiles })
      pure i
  ]

unfoldable pub realloc_process : Symbols → (i : ℕ) → K (Unit {0})
unfolding new_frame map_segments store
realloc_process img i = do
  s ← get
  unmap_regions (rounds_of (s.procs i).total_mapped_region) i 0
  s ← get
  free_page (s.procs i).pagetable
  new_frame i
  user_stack ← alloc_page
  s ← get
  store (add64 (s.procs i).trapframe regs_sp) user_stack_top
  clear_page (s.procs i).mapped_info
  map_segments img i user_stack
  set_fields i (λ p. record p {
    total_mapped_region = 3;
    tick_count = 0;
    total_tick_count = 0;
    total_mem_count = 3;
  })
