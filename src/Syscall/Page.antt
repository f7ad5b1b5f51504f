-- ===== src/Syscall/Page.antt =====
-- `sys_user_allocate_page` and `sys_user_free_page` of kernel/syscall.c.
use testcode.Base.{
  ℕ, ◌+◌, ◌/◌, ◌%◌, ◌≤◌, ◌<◌, ◌≡◌, ◌≢◌, refl, ap, ◌∙◌, none, some, true, false, ◌&&◌, List, [], ◌∷◌,
  length, arith, ◌==◌, leb, ltb, if◌then◌else◌,
}
use mathlib.Core.Path.{subst}
use testcode.Base.Bits.{has_bit}
use testcode.Machine.{Kernel, max_va, pure, ◌>>=◌}
use testcode.Machine.Returns
use testcode.Machine.Returns.{Returns, returns}
use testcode.Machine.Word.{pgsize, round_down}
use testcode.Pmm.FreeList.{IsFree, taken, alloc_page-IsFree}
use testcode.Syscall.{sys_user_allocate_page, sys_user_free_page, advance_ufree}
use testcode.Trap.PageFault.{user_page, prot_to_type-user, pagetable_taken, page_of_list}
use testcode.Vmm.{user_vm_map, user_vm_unmap, pte_to_pa}
use testcode.Vmm.Entry.{page_of}
use testcode.Vmm.Lookup.{translate}
use testcode.Vmm.NewPage.{Space-taken, PageAdded, user_vm_map-PageAdded}
use testcode.Vmm.Space.{Space}
use testcode.Vmm.Tables.{Role, IsRoot, leaf}
use testcode.Vmm.Unmap.{IsFrame, IsLeaf, user_vm_unmap-Unmapped}

allocate_run :
    {s : Kernel} (i p : ℕ) (xs : List ℕ)
    → s.current ≡ some i
    → IsFree s (p ∷ xs)
    → sys_user_allocate_page s
      ≡ (user_vm_map ((taken p s).procs i).pagetable s.g_ufree_page pgsize p user_page >>= λ _.
            pure s.g_ufree_page)
          (advance_ufree (taken p s))
unfolding sys_user_allocate_page
allocate_run {s} i p xs c v = ground (arith, (alloc_page-IsFree v).0, c, prot_to_type-user)

-- The space is as it was.
Space-advance :
    {s : Kernel} {role : Role} {xs : List ℕ} → Space s role xs → Space (advance_ufree s) role xs
Space-advance sp = record {
  free = record {
    from_dram = sp.free.from_dram;
    to_top = sp.free.to_top;
    chain = sp.free.chain;
    distinct = sp.free.distinct;
    pages = sp.free.pages;
  };
  tables = sp.tables;
  apart = sp.apart;
}

module _ {s : Kernel} {role : Role} {xs : List ℕ} (i p : ℕ) (c : s.current ≡ some i)
    (sp : Space s role (p ∷ xs)) (at : IsRoot role (s.procs i).pagetable)
    (h : s.g_ufree_page < max_va) (al : s.g_ufree_page % pgsize ≡ 0)
    (unused : has_bit (leaf s.mem 2 (s.procs i).pagetable s.g_ufree_page) 0 ≡ false)
    (enough : 2 ≤ length xs) where
  -- If page tables, free pages and other pages are apart, a process is current, `g_ufree_page` is
  -- aligned, below MAXVA and not mapped, and three pages are free, then `sys_user_allocate_page`
  -- returns the old value of `g_ufree_page`, that page is mapped to the first free page, and the
  -- other pages of all address spaces keep their entries.
  pub sys_user_allocate_page-PageAdded :
      Returns
        (λ va s'.
          (va ≡ s.g_ufree_page)
          × PageAdded
              (advance_ufree (taken p s))
              role
              xs
              (s.procs i).pagetable
              s.g_ufree_page
              p
              user_page
              s')
        (sys_user_allocate_page s)
  sys_user_allocate_page-PageAdded =
      let base : round_down s.g_ufree_page ≡ s.g_ufree_page = omega arith in
      rw (allocate_run i p xs c sp.free, pagetable_taken p i s c)
        (Returns.bind
          (subst
            (λ b.
              Returns
                (λ _.
                  PageAdded (advance_ufree (taken p s)) role xs (s.procs i).pagetable s.g_ufree_page
                    p user_page)
                (user_vm_map (s.procs i).pagetable b pgsize p user_page
                  (advance_ufree (taken p s))))
            base
            (user_vm_map-PageAdded (s.procs i).pagetable s.g_ufree_page p user_page
              (Space-advance (Space-taken sp)) at h unused enough (page_of_list p xs sp.free).0
              (omega (arith, page_of_list p xs sp.free)) (omega arith) refl))
          (λ _ s' d. returns (refl, d)))

-- The page at `va` is gone and its frame `p` is the first free page.
pub record PageRemoved (s : Kernel) (role : Role) (xs : List ℕ) (pd va p : ℕ) (s' : Kernel)
    : Type 0 where
  pub space : Space s' role (p ∷ xs)
  pub unmapped : translate s'.mem pd va ≡ 0
  pub others :
      (r va' : ℕ)
      → IsRoot role r
      → va' < max_va
      → (r ≡ pd → va / 4096 ≢ va' / 4096)
      → translate s'.mem r va' ≡ translate s.mem r va'
  pub frame : (b : ℕ) → role (round_down b) ≡ none → b ≢ p → s'.mem b ≡ s.mem b

free_run :
    (i va : ℕ) (s : Kernel)
    → s.current ≡ some i
    → sys_user_free_page va s
      ≡ (user_vm_unmap (s.procs i).pagetable va pgsize true >>= λ _. pure 0) s
unfolding sys_user_free_page
free_run i va s c = rw c refl

module _ {s : Kernel} {role : Role} {xs : List ℕ} (i va : ℕ) (c : s.current ≡ some i)
    (sp : Space s role xs) (at : IsRoot role (s.procs i).pagetable) (al : va % 4096 ≡ 0)
    (h : va + 4096 ≤ max_va) (is : IsLeaf (leaf s.mem 2 (s.procs i).pagetable va))
    (frame : IsFrame s role xs (pte_to_pa (leaf s.mem 2 (s.procs i).pagetable va))) where
  -- If page tables, free pages and other pages are apart, a process is current, and its page at
  -- the aligned address is mapped by a leaf entry to a frame that may be freed, then
  -- `sys_user_free_page` returns 0, the page is not mapped any more, its frame is the first free
  -- page, the other pages of all address spaces translate as before, and words outside the tables
  -- and the frame keep their values.
  pub sys_user_free_page-PageRemoved :
      Returns
        (λ ret s'.
          (ret ≡ 0)
          × PageRemoved s role xs
              (s.procs i).pagetable
              va
              (pte_to_pa (leaf s.mem 2 (s.procs i).pagetable va))
              s')
        (sys_user_free_page va s)
  sys_user_free_page-PageRemoved =
      let pd : ℕ = (s.procs i).pagetable in
      let e : ℕ = leaf s.mem 2 pd va in
      rw (free_run i va s c) (
        Returns.bind
          (user_vm_unmap-Unmapped true pd va (e ∷ []) s role xs sp at al h (refl, is, frame, tt))
          (λ _ s' u. returns (
            refl,
            record {
              space = u.space;
              unmapped =
                  ap page_of (u.leaves pd va at (omega arith) ∙ here pd va (leaf s.mem 2 pd va));
              others = λ r va' at' h' ne.
                  ap page_of (u.leaves r va' at' h' ∙ there pd va r va' (leaf s.mem 2 r va') ne);
              frame = λ b out ne. u.frame b out (ground (arith, ne));
            },
          )))
    where
      here :
          (pd va old : ℕ)
          → (if pd == pd && (leb (va / 4096) (va / 4096) && ltb (va / 4096) (va / 4096 + 1))
              then 0
              else old)
            ≡ 0
      here pd va old = ground arith

      there :
          (pd va r va' old : ℕ)
          → (r ≡ pd → va / 4096 ≢ va' / 4096)
          → (if r == pd && (leb (va / 4096) (va' / 4096) && ltb (va' / 4096) (va / 4096 + 1))
              then 0
              else old)
            ≡ old
      there pd va r va' old ne = ground (arith, ne)
