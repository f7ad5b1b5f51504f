-- ===== src/Trap/PageFault.antt =====
-- `handle_user_page_fault` of kernel/strap.c.
use testcode.Base.{ℕ, ◌%◌, ◌≤◌, ◌<◌, ◌≡◌, refl, some, true, false, List, ◌∷◌, length, arith}
use testcode.Base.Bits.{has_bit}
use testcode.Machine.{Kernel, max_va, phys_top}
use testcode.Machine.Returns.{Returns}
use testcode.Machine.Word.{pgsize, round_down}
use testcode.Pmm.FreeList.{IsFree, taken, alloc_page-IsFree}
use testcode.Trap.{handle_user_page_fault, cause_store_page_fault}
use testcode.Vmm.{user_vm_map, prot_to_type}
use testcode.Vmm.NewPage.{Space-taken, PageAdded, user_vm_map-PageAdded}
use testcode.Vmm.Space.{Space}
use testcode.Vmm.Tables.{Role, IsRoot, leaf}

-- PTE_R | PTE_A | PTE_W | PTE_D | PTE_U.
abbrev pub user_page : ℕ
user_page = 0xd6

pub prot_to_type-user : prot_to_type 3 true ≡ user_page
unfolding prot_to_type
prot_to_type-user = refl

pub pagetable_taken :
    (p i : ℕ) (s : Kernel)
    → s.current ≡ some i
    → ((taken p s).procs i).pagetable ≡ (s.procs i).pagetable
pagetable_taken p i s c = ground arith

fault_run :
    {s : Kernel} (i p stval : ℕ) (xs : List ℕ)
    → s.current ≡ some i
    → IsFree s (p ∷ xs)
    → handle_user_page_fault cause_store_page_fault stval s
      ≡ user_vm_map
          ((taken p s).procs i).pagetable
          (round_down stval)
          pgsize
          p
          user_page
          (taken p s)
unfolding handle_user_page_fault
fault_run {s} i p stval xs c v = ground (arith, (alloc_page-IsFree v).0, c, prot_to_type-user)

pub page_of_list :
    {s : Kernel} (p : ℕ) (xs : List ℕ) → IsFree s (p ∷ xs) → (p % pgsize ≡ 0) × (p < phys_top)
page_of_list p xs v = (v.pages.0.0, omega (arith, v.pages.0.2, v.to_top))

module _ {s : Kernel} {role : Role} {xs : List ℕ} (i p stval : ℕ) (c : s.current ≡ some i)
    (sp : Space s role (p ∷ xs)) (at : IsRoot role (s.procs i).pagetable) (h : stval < max_va)
    (unused : has_bit (leaf s.mem 2 (s.procs i).pagetable stval) 0 ≡ false)
    (enough : 2 ≤ length xs) where
  -- If page tables, free pages and other pages are apart, a process is current, the faulting
  -- address is below MAXVA and not mapped, and three pages are free, then
  -- `handle_user_page_fault` returns on a store fault: the page of the address is mapped,
  -- readable, writable and for the user, to the first free page, and the other pages of all
  -- address spaces keep their entries.
  pub handle_user_page_fault-PageAdded :
      Returns
        (λ _. PageAdded (taken p s) role xs (s.procs i).pagetable stval p user_page)
        (handle_user_page_fault cause_store_page_fault stval s)
  handle_user_page_fault-PageAdded =
      rw (fault_run i p stval xs c sp.free, pagetable_taken p i s c)
        (user_vm_map-PageAdded (s.procs i).pagetable stval p user_page (Space-taken sp) at h unused
          enough (page_of_list p xs sp.free).0 (omega (arith, page_of_list p xs sp.free))
          (omega arith) refl)
