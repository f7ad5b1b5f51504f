-- ===== src/Process/Space.antt =====
-- The address space that `alloc_process` and `realloc_process` of kernel/process.c give a process.
use testcode.Base.{
  ℕ, ◌+◌, ◌-◌, ◌/◌, ◌%◌, ◌≤◌, ◌<◌, ◌≡◌, ◌≢◌, refl, true, false, ◌&&◌, List, length, if◌then◌else◌,
  ◌==◌,
}
use testcode.Machine.{Kernel, Symbols, max_va, dram_base, phys_top}
use testcode.Machine.Word.{pgsize, round_down}
use testcode.Process.Create.{user_stack_top, stack_segment, context_segment, system_segment}
use testcode.Process.Region.{region_word}
use testcode.Vmm.{prot_to_type, prot_read, prot_write, prot_exec}
use testcode.Vmm.Entry.{leaf_entry}
use testcode.Vmm.Owner.{SameOwners}
use testcode.Vmm.Space.{Space, Outside}
use testcode.Vmm.Tables.{Role, Keeps, IsRoot, leaf}

abbrev pub stack_va : ℕ
stack_va = user_stack_top - pgsize

-- PTE_R | PTE_A | PTE_W | PTE_D | PTE_U, the same without PTE_U, and PTE_R | PTE_A | PTE_X.
abbrev pub stack_perm : ℕ
stack_perm = 0xd6

abbrev pub frame_perm : ℕ
frame_perm = 0xc6

abbrev pub vector_perm : ℕ
vector_perm = 0x4a

pub prot_to_type-stack : prot_to_type (prot_write + prot_read) true ≡ stack_perm
unfolding prot_to_type
prot_to_type-stack = refl

pub prot_to_type-frame : prot_to_type (prot_write + prot_read) false ≡ frame_perm
unfolding prot_to_type
prot_to_type-frame = refl

pub prot_to_type-vector : prot_to_type (prot_read + prot_exec) false ≡ vector_perm
unfolding prot_to_type
prot_to_type-vector = refl

-- A page of memory.
pub record IsRamPage (p : ℕ) : Type 0 where
  pub aligned : p % pgsize ≡ 0
  pub low : dram_base ≤ p
  pub high : p + pgsize ≤ phys_top

-- A process with a fresh directory, a trap frame and a page for `mapped_info`.
pub record CanBuild (img : Symbols) (i user_stack : ℕ) (s : Kernel) (role : Role) (xs : List ℕ)
    : Type 0 where
  pub space : Space s role xs
  pub root : IsRoot role (s.procs i).pagetable
  pub unmapped : (va : ℕ) → va < max_va → leaf s.mem 2 (s.procs i).pagetable va ≡ 0
  pub info : IsRamPage (s.procs i).mapped_info
  pub outside : Outside role xs (s.procs i).mapped_info
  pub trapframe : IsRamPage (s.procs i).trapframe
  pub vector : IsRamPage img.trap_sec_start
  pub apart : (s.procs i).trapframe ≢ img.trap_sec_start
  pub stack : IsRamPage user_stack
  pub enough : 6 ≤ length xs

-- The entry of an address of the space `pd` with the stack, the trap frame and the trap vector.
abbrev pub segment_leaf : (pd trapframe vector user_stack r va old : ℕ) → ℕ
segment_leaf pd trapframe vector user_stack r va old =
    if r == pd && va / 4096 == vector / 4096
    then leaf_entry vector vector_perm
    else if r == pd && va / 4096 == trapframe / 4096
    then leaf_entry trapframe frame_perm
    else if r == pd && va / 4096 == stack_va / 4096
    then leaf_entry user_stack stack_perm
    else old

-- The three pages are mapped and listed in `mapped_info`, and no other page is.
pub record Segments (img : Symbols) (i user_stack : ℕ) (s : Kernel) (role : Role) (xs : List ℕ)
    (s' : Kernel) : Type 0 where
  pub role' : Role
  pub rest : List ℕ
  pub space : Space s' role' rest
  pub keeps : Keeps role role'
  pub used : length xs ≤ length rest + 6
  pub leaves :
      (r va : ℕ)
      → IsRoot role r
      → va < max_va
      → leaf s'.mem 2 r va
        ≡ segment_leaf
            (s.procs i).pagetable
            (s.procs i).trapframe
            img.trap_sec_start
            user_stack
            r
            va
            (leaf s.mem 2 r va)
  pub owners : SameOwners s s'
  -- Pages that were neither tables nor free stay, but for `mapped_info`.
  pub frame :
      (b : ℕ)
      → Outside role xs (round_down b)
      → round_down b ≢ (s.procs i).mapped_info
      → s'.mem b ≡ s.mem b
  pub stack_region : s'.mem (s.procs i).mapped_info ≡ stack_va
  pub stack_kind : s'.mem ((s.procs i).mapped_info + 8) ≡ region_word 1 stack_segment
  pub frame_region : s'.mem ((s.procs i).mapped_info + 16) ≡ (s.procs i).trapframe
  pub frame_kind : s'.mem ((s.procs i).mapped_info + 24) ≡ region_word 1 context_segment
  pub vector_region : s'.mem ((s.procs i).mapped_info + 32) ≡ img.trap_sec_start
  pub vector_kind : s'.mem ((s.procs i).mapped_info + 40) ≡ region_word 1 system_segment
