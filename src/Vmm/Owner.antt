-- ===== src/Vmm/Owner.antt =====
-- The pages of a process stay the same while its pages are counted.
use testcode.Base.{ℕ, ◌≡◌, refl, ◌∙◌, arith}
use testcode.Machine.{Kernel, Process}
use testcode.Pmm.{count_page}

-- The fields of a process that name its pages.
pub record SamePages (p p' : Process) : Type 0 where
  pub kstack : p'.kstack ≡ p.kstack
  pub pagetable : p'.pagetable ≡ p.pagetable
  pub trapframe : p'.trapframe ≡ p.trapframe
  pub mapped_info : p'.mapped_info ≡ p.mapped_info

abbrev pub SameOwners : Kernel → Kernel → Type 0
SameOwners s s' = (i : ℕ) → SamePages (s.procs i) (s'.procs i)

pub same_pages : (p : Process) → SamePages p p
same_pages p = record { kstack = refl; pagetable = refl; trapframe = refl; mapped_info = refl }

pub SamePages-trans : {p p' p'' : Process} → SamePages p p' → SamePages p' p'' → SamePages p p''
SamePages-trans a b = record {
  kstack = b.kstack ∙ a.kstack;
  pagetable = b.pagetable ∙ a.pagetable;
  trapframe = b.trapframe ∙ a.trapframe;
  mapped_info = b.mapped_info ∙ a.mapped_info;
}

pub SameOwners-count : (f : ℕ → ℕ) (s : Kernel) → SameOwners s (count_page f s)
SameOwners-count f s i = record {
  kstack = ground arith;
  pagetable = ground arith;
  trapframe = ground arith;
  mapped_info = ground arith;
}
