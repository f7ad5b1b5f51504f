-- ===== src/Process.antt =====
-- kernel/process.c: `free_process` and `do_wait`, by which a parent reclaims a child that has ended.
pub mod Built
pub mod Create
pub mod Fork
pub mod Frame
pub mod Pages
pub mod Region
pub mod Segments
pub mod Space
pub mod Info
pub mod Wait
use testcode.Base.{
  ◌-◌, ℕ, zero, suc, ◌+◌, ◌*◌, ◌/◌, ◌%◌, ◌^◌, Option, none, some, Bool, true, false, ◌&&◌, ◌||◌,
  not, ◌==◌, ltb, if◌then◌else◌,
}
use testcode.Machine.{
  Kernel, Process, ProcStatus, K, pure, ◌>>=◌, ◌>>◌, get, modify, load, set_proc, nproc,
}
use testcode.Machine.Word.{add64, sub64, slt32, sext32, pgsize}
use testcode.Pmm.{free_page}
use testcode.Vmm.{user_vm_unmap, minus_one}

abbrev pub is_zombie : ProcStatus → Bool
is_zombie ProcStatus.zombie = true
is_zombie _ = false

unfoldable pub free_process : ℕ → K ℕ
free_process proc = do
  modify (λ s. set_proc s proc (record (s.procs proc) { status = ProcStatus.zombie }))
  pure 0

-- `==` on two pointers to processes.
abbrev pub same_process : Option ℕ → Option ℕ → Bool
same_process none none = true
same_process none (some b) = false
same_process (some a) none = false
same_process (some a) (some b) = a == b

-- The process `i` is a child of the current one, and `do_wait(pid)` asks for it.
abbrev pub is_wanted : Kernel → (pid i : ℕ) → Bool
is_wanted s pid i =
    same_process (s.procs i).parent s.current
    && not (slt32 0 pid && not (sext32 pid == (s.procs i).pid))

-- A `struct mapped_region` at `a`: `va`, then `npages` and `seg_type` in one word. The frames of
-- code segments are kept, and segments of other types are skipped.
unmap_region : (pagetable a : ℕ) → K (Unit {0})
unmap_region pagetable a = do
  va ← load a
  w ← load (add64 a 8)
  let size : ℕ = w % 2 ^ 32 * pgsize % 2 ^ 32
  let seg_type : ℕ = w / 2 ^ 32
  if seg_type == 1 || seg_type == 2 || seg_type == 3
      then user_vm_unmap pagetable va size true
      else if seg_type == 0
      then user_vm_unmap pagetable va size false
      else pure tt

pub unmap_regions : ℕ → (i j : ℕ) → K (Unit {0})
unmap_regions zero i j = pure tt
unmap_regions (suc n) i j = do
  s ← get
  unmap_region (s.procs i).pagetable (add64 (s.procs i).mapped_info (16 * j))
  unmap_regions n i (j + 1)

-- The rounds of `for (j = 0; j < total; ++j)` on `int`.
abbrev pub rounds_of : ℕ → ℕ
rounds_of total = if ltb total (2 ^ 31) then total else 0

abbrev cleared_process : Process → Process
cleared_process p = record p {
  status = ProcStatus.free;
  parent = none;
  queue_next = none;
  tick_count = 0;
  total_mem_count = 0;
  total_tick_count = 0;
}

-- What `do_wait` does with the zombie `procs[i]`; the result is its process id, as an `int`.
pub reclaim : ℕ → K ℕ
reclaim i = do
  s ← get
  let child_pid : ℕ = (s.procs i).pid % 2 ^ 32
  free_page (sub64 (s.procs i).kstack pgsize)
  unmap_regions (rounds_of (s.procs i).total_mapped_region) i 0
  t ← get
  free_page (t.procs i).mapped_info
  t ← get
  free_page (t.procs i).pagetable
  modify (λ u. set_proc u i (cleared_process (u.procs i)))
  pure child_pid

-- The `int` -2.
abbrev pub minus_two : ℕ
minus_two = 2 ^ 32 - 2

-- The processes from `i` on, `n` of them.
unfoldable pub wait_loop : ℕ → (pid i : ℕ) → (havekids : Bool) → K ℕ
wait_loop zero pid i havekids = pure (if havekids then minus_two else minus_one)
wait_loop (suc n) pid i havekids = do
  s ← get
  let rest : K ℕ = wait_loop n pid (i + 1) (havekids || is_wanted s pid i)
  if is_wanted s pid i && is_zombie (s.procs i).status then reclaim i else rest

pub do_wait : ℕ → K ℕ
unfolding wait_loop
do_wait pid = wait_loop nproc pid 0 false
