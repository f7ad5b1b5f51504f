-- ===== src/Process/Fork.antt =====
-- `do_fork` of kernel/process.c: the loop over the regions of the parent is `fork_regions`, and its
-- `switch` is `fork_region`.
use testcode.Base.{ℕ, zero, suc, ◌+◌, ◌*◌, ◌/◌, ◌%◌, ◌^◌, some, true, ◌==◌, if◌then◌else◌}
use testcode.Machine.{ProcStatus, Symbols, K, pure, ◌>>=◌, ◌>>◌, get, load, store}
use testcode.Machine.Memory.{copy, copy_block}
use testcode.Machine.Word.{add64, add32, pgsize}
use testcode.File.{SpikeFiles}
use testcode.Pmm.{alloc_page}
use testcode.Process.{rounds_of}
use testcode.Sched.{insert_to_ready_queue}
use testcode.Vmm.{map_pages, lookup_pa, prot_to_type, prot_read, prot_write, prot_exec}
use testcode.Process.Create.{
  regs_a0, trapframe_words, code_segment, data_segment, stack_segment, context_segment, set_fields,
  set_region, alloc_process,
}

-- `child->mapped_info[child->total_mapped_region++] = { va, npages, seg_type }`
unfoldable pub add_region : (child va npages seg_type : ℕ) → K (Unit {0})
add_region child va npages seg_type = do
  s ← get
  set_region (s.procs child).mapped_info (s.procs child).total_mapped_region va npages seg_type
  set_fields child (λ p. record p { total_mapped_region = add32 p.total_mapped_region 1 })

-- `n` pages of a code segment from the page `j` on are mapped in the child too.
unfoldable pub share_pages : ℕ → (parent child va j : ℕ) → K (Unit {0})
share_pages zero parent child va j = pure tt
share_pages (suc n) parent child va j = do
  s ← get
  addr ← lookup_pa (s.procs parent).pagetable (add64 va (j * pgsize))
  ret ←
      map_pages (s.procs child).pagetable (add64 va (j * pgsize)) pgsize addr
        (prot_to_type (prot_write + prot_read + prot_exec) true)
  share_pages n parent child va (j + 1)

-- `n` pages of a data segment from the page `j` on are copied.
unfoldable pub copy_pages : ℕ → (parent child va j : ℕ) → K (Unit {0})
copy_pages zero parent child va j = pure tt
copy_pages (suc n) parent child va j = do
  pa ← alloc_page
  s ← get
  addr ← lookup_pa (s.procs parent).pagetable (add64 va (j * pgsize))
  copy_block pa addr
  ret ←
      map_pages (s.procs child).pagetable (add64 va (j * pgsize)) pgsize pa
        (prot_to_type (prot_write + prot_read) true)
  copy_pages n parent child va (j + 1)

-- The page of the user stack at `va` is copied.
unfoldable pub copy_stack : (parent child va : ℕ) → K (Unit {0})
unfolding load
copy_stack parent child va = do
  s ← get
  stack_va ← load (s.procs child).mapped_info
  dest ← lookup_pa (s.procs child).pagetable stack_va
  src ← lookup_pa (s.procs parent).pagetable va
  copy_block dest src

-- The child gets the segment that the region at `a` describes.
unfoldable pub fork_region : (parent child a : ℕ) → K (Unit {0})
unfolding load
fork_region parent child a = do
  s ← get
  va ← load a
  w ← load (add64 a 8)
  let npages : ℕ = w % 2 ^ 32
  let seg_type : ℕ = w / 2 ^ 32
  if seg_type == context_segment
      then copy trapframe_words (s.procs child).trapframe (s.procs parent).trapframe
      else if seg_type == stack_segment
      then copy_stack parent child va
      else if seg_type == code_segment
      then share_pages npages parent child va 0 >> add_region child va npages code_segment
      else if seg_type == data_segment
      then copy_pages npages parent child va 0 >> add_region child va npages data_segment
      else pure tt

unfoldable pub fork_regions : ℕ → (parent child i : ℕ) → K (Unit {0})
fork_regions zero parent child i = pure tt
fork_regions (suc n) parent child i = do
  s ← get
  fork_region parent child (add64 (s.procs parent).mapped_info (16 * i))
  fork_regions n parent child (i + 1)

-- The result is the process id of the child, as an `int`.
unfoldable pub do_fork : Symbols → SpikeFiles → (parent : ℕ) → K ℕ
unfolding store
do_fork img files parent = do
  child ← alloc_process img files
  s ← get
  fork_regions (rounds_of (s.procs parent).total_mapped_region) parent child 0
  set_fields child (λ p. record p { status = ProcStatus.ready })
  s ← get
  store (add64 (s.procs child).trapframe regs_a0) 0
  set_fields child (λ p. record p {
    parent = some parent;
    tick_count = 0;
    total_tick_count = 0;
    total_mem_count = p.total_mapped_region;
  })
  insert_to_ready_queue child
  s ← get
  pure ((s.procs child).pid % 2 ^ 32)
