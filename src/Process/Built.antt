-- ===== src/Process/Built.antt =====
-- `alloc_space`: all pages that `alloc_process` of kernel/process.c takes for a process but its table
-- of files.
use testcode.Base.{
  ℕ, ◌+◌, ◌≤◌, ◌<◌, ◌≡◌, ◌≢◌, refl, sym, ap, ◌∙◌, none, false, List, ◌∷◌, length, mem-head,
  mem-tail, ne_of_mem, arith, update_self, update_ne, ◌==◌,
}
use mathlib.Core.Option.{none-ne-some}
use testcode.Machine.{Kernel, Symbols, max_va, set_proc}
use testcode.Machine.Access.{store_run}
use testcode.Machine.Memory.{filled_outside, clear_page_lem}
use testcode.Machine.Returns
use testcode.Machine.Returns.{Returns, returns}
use testcode.Machine.Word.{pgsize, round_down, add64, add32}
use testcode.Pmm.FreeList.{taken, alloc_page-IsFree}
use testcode.Process.Create.{alloc_space, regs_sp, user_stack_top}
use testcode.Process.Frame.{HasFrame, new_frame-HasFrame}
use testcode.Process.Segments.{map_segments-Segments}
use testcode.Process.Space.{IsRamPage, CanBuild, Segments, segment_leaf}
use testcode.Vmm.NewPage.{Space-taken}
use testcode.Vmm.NewRoot.{with_root}
use testcode.Vmm.Owner.{SamePages, SameOwners-count}
use testcode.Vmm.Off.{Off, Space-Off, leaf-Off}
use testcode.Vmm.Space.{Space, Outside}
use testcode.Vmm.Tables.{Role, IsRoot, leaf}
use testcode.Process.Pages.{
  with_kstack, with_stack, with_info, Off-kstack, Off-stack, Off-info, head-IsRamPage,
}

taken_same : (i p : ℕ) (s : Kernel) → SamePages (s.procs i) ((taken p s).procs i)
taken_same i p s = SameOwners-count (λ c. add32 c 1) s i

-- The pages of the process are these, and its address space has the stack, the trap frame and the
-- trap vector; the other address spaces stay.
pub record Built (img : Symbols) (s : Kernel) (role : Role) (rest : List ℕ) (t q k u mi i : ℕ)
    (s' : Kernel) : Type 0 where
  pub trapframe : (s'.procs i).trapframe ≡ t
  pub pagetable : (s'.procs i).pagetable ≡ q
  pub kstack : (s'.procs i).kstack ≡ k + pgsize
  pub mapped_info : (s'.procs i).mapped_info ≡ mi
  pub stack_pointer : s'.mem (t + regs_sp) ≡ user_stack_top
  pub role' : Role
  pub free : List ℕ
  pub space : Space s' role' free
  pub root : IsRoot role' q
  pub own :
      (va : ℕ) → va < max_va → leaf s'.mem 2 q va ≡ segment_leaf q t img.trap_sec_start u q va 0
  pub others : (r va : ℕ) → IsRoot role r → va < max_va → leaf s'.mem 2 r va ≡ leaf s.mem 2 r va

module _ {s s1 : Kernel} {role : Role} {t q k u mi : ℕ} {rest : List ℕ} (i : ℕ)
    (sp : Space s role (t ∷ (q ∷ (k ∷ (u ∷ (mi ∷ rest))))))
    (h : HasFrame s role (k ∷ (u ∷ (mi ∷ rest))) t q i s1) where
  abbrev s2 : Kernel
  s2 = with_kstack i k s1

  abbrev s3 : Kernel
  s3 = with_stack t u s2

  abbrev s4 : Kernel
  s4 = with_info i mi s3

  frame_apart : Outside (with_root role q) (k ∷ (u ∷ (mi ∷ rest))) t
  frame_apart = (
    update_ne role _ (
          ne_of_mem q t (q ∷ (k ∷ (u ∷ (mi ∷ rest)))) (mem-head q (k ∷ (u ∷ (mi ∷ rest))))
            sp.free.distinct.0)
        ∙ sp.apart t (mem-head t (q ∷ (k ∷ (u ∷ (mi ∷ rest))))),
    ground (arith, sp.free.distinct.0),
  )

  space2 : Space s2 (with_root role q) (u ∷ (mi ∷ rest))
  space2 = Space-Off (Space-taken h.space) (Off-kstack i k s1 (with_root role q) (u ∷ (mi ∷ rest)))

  off3 : Off (with_root role q) (mi ∷ rest) (taken u s2) s3
  off3 =
      Off-stack t u space2 (frame_apart.0, ground (arith, frame_apart.1))
        (head-IsRamPage t sp).aligned

  space3 : Space s3 (with_root role q) (mi ∷ rest)
  space3 = Space-Off (Space-taken space2) off3

  off4 : Off (with_root role q) rest (taken mi s3) s4
  off4 = Off-info i mi space3

  space4 : Space s4 (with_root role q) rest
  space4 = Space-Off (Space-taken space3) off4

  trapframe4 : (s4.procs i).trapframe ≡ t
  trapframe4 =
      ap (λ p. p.trapframe) (update_self (taken mi s3).procs i _)
      ∙ ((taken_same i mi s3).trapframe
          ∙ ((taken_same i u s2).trapframe
              ∙ (ap (λ p. p.trapframe) (update_self (taken k s1).procs i _)
                  ∙ ((taken_same i k s1).trapframe ∙ h.trapframe))))

  trapframe3 : ((taken u s2).procs i).trapframe ≡ t
  trapframe3 =
      (taken_same i u s2).trapframe
      ∙ (ap (λ p. p.trapframe) (update_self (taken k s1).procs i _)
          ∙ ((taken_same i k s1).trapframe ∙ h.trapframe))

  pagetable4 : (s4.procs i).pagetable ≡ q
  pagetable4 =
      ap (λ p. p.pagetable) (update_self (taken mi s3).procs i _)
      ∙ ((taken_same i mi s3).pagetable
          ∙ ((taken_same i u s2).pagetable
              ∙ (ap (λ p. p.pagetable) (update_self (taken k s1).procs i _)
                  ∙ ((taken_same i k s1).pagetable ∙ h.pagetable))))

  kstack4 : (s4.procs i).kstack ≡ add64 k pgsize
  kstack4 =
      ap (λ p. p.kstack) (update_self (taken mi s3).procs i _)
      ∙ ((taken_same i mi s3).kstack
          ∙ ((taken_same i u s2).kstack ∙ ap (λ p. p.kstack) (update_self (taken k s1).procs i _)))

  mapped_info4 : (s4.procs i).mapped_info ≡ mi
  mapped_info4 = ap (λ p. p.mapped_info) (update_self (taken mi s3).procs i _)

  -- No translation changes after the directory was made.
  leaf4 :
      (r va : ℕ)
      → IsRoot (with_root role q) r
      → va < max_va
      → leaf s4.mem 2 r va ≡ leaf s1.mem 2 r va
  leaf4 r va at b =
      leaf-Off (Space-taken space3) off4 r va at b ∙ leaf-Off (Space-taken space2) off3 r va at b

  can_build :
      (img : Symbols)
      → IsRamPage img.trap_sec_start
      → img.trap_sec_start ≢ t
      → 6 ≤ length rest
      → CanBuild img i u s4 (with_root role q) rest
  can_build img vector apart enough = record {
    space = space4;
    root = rw pagetable4 h.root;
    unmapped = λ va b. rw pagetable4 (leaf4 q va h.root b ∙ h.unmapped va);
    info = rw mapped_info4 (head-IsRamPage mi space3);
    outside = rw mapped_info4 (space3.apart mi (mem-head mi rest), space3.free.distinct.0);
    trapframe = rw trapframe4 (head-IsRamPage t sp);
    vector = vector;
    apart = rw trapframe4 (λ e. apart (sym e));
    stack = head-IsRamPage u space2;
    enough = enough;
  }

  stack_pointer4 : s4.mem (t + regs_sp) ≡ user_stack_top
  stack_pointer4 =
      let ne : t ≢ mi = ground (arith, frame_apart.1) in
      filled_outside 512 mi 0 s3.mem (t + regs_sp)
        (omega (arith, ne, (head-IsRamPage t sp).aligned, (head-IsRamPage mi space3).aligned))
      ∙ update_self s2.mem (t + regs_sp) user_stack_top

  fresh : role q ≡ none
  fresh =
      sp.apart q (mem-tail q t (q ∷ (k ∷ (u ∷ (mi ∷ rest)))) (mem-head q (k ∷ (u ∷ (mi ∷ rest)))))

  built :
      (img : Symbols) (s' : Kernel)
      → Segments img i u s4 (with_root role q) rest s'
      → Built img s role rest t q k u mi i s'
  built img s' g = record {
    trapframe = (g.owners i).trapframe ∙ trapframe4;
    pagetable = (g.owners i).pagetable ∙ pagetable4;
    kstack = (g.owners i).kstack ∙ (kstack4 ∙ omega (arith, (head-IsRamPage k h.space).high));
    mapped_info = (g.owners i).mapped_info ∙ mapped_info4;
    stack_pointer =
        let home : round_down (t + regs_sp) ≡ t = omega (arith, (head-IsRamPage t sp).aligned) in
        let out : Outside (with_root role q) rest t =
          (frame_apart.0, ground (arith, frame_apart.1)) in
        let ne : t ≢ mi = ground (arith, frame_apart.1) in
        g.frame (t + regs_sp) (rw home out) (rw (home, mapped_info4) ne) ∙ stack_pointer4;
    role' = g.role';
    free = g.rest;
    space = g.space;
    root = g.keeps q _ h.root;
    own = λ va b.
        g.leaves q va h.root b
        ∙ rw (pagetable4, trapframe4, leaf4 q va h.root b, h.unmapped va) refl;
    others = λ r va at b.
        let ne : r ≢ q = λ e. none-ne-some _ (sym fresh ∙ (ap role (sym e) ∙ at)) in
        let at' : IsRoot (with_root role q) r = update_ne role _ (λ e. ne (sym e)) ∙ at in
        let differ : (r == q) ≡ false = ground (arith, ne) in
        g.leaves r va at' b ∙ rw (pagetable4, differ) (leaf4 r va at' b ∙ h.others r va at b);
  }

module _ {img : Symbols} {s : Kernel} {role : Role} {t q k u mi : ℕ} {rest : List ℕ} (i : ℕ)
    (sp : Space s role (t ∷ (q ∷ (k ∷ (u ∷ (mi ∷ rest)))))) (vector : IsRamPage img.trap_sec_start)
    (apart : img.trap_sec_start ≢ t) (enough : 6 ≤ length rest) where
  -- If page tables, free pages and other pages are apart, eleven pages are free, and the trap
  -- vector is a page of memory but not the first free one, then `alloc_space` returns: trap
  -- frame, directory, kernel stack, stack and `mapped_info` of the process are the first five
  -- free pages, and the stack pointer in its trap frame is the top of the stack; in its address
  -- space the stack is mapped for the user, trap frame and trap vector are mapped for the kernel,
  -- and nothing else; the other address spaces stay; and free pages, tables and other pages are
  -- apart again.
  pub alloc_space-Built : Returns (λ _. Built img s role rest t q k u mi i) (alloc_space img i s)
  unfolding alloc_space
  alloc_space-Built = Returns.bind (new_frame-HasFrame i sp) λ _ s1 h.
      let frame = head-IsRamPage t sp in
      let info = head-IsRamPage mi (space3 i sp h) in
      let wrap : add64 t regs_sp ≡ t + regs_sp = omega (arith, frame.high) in
      rw
        (
          (alloc_page-IsFree h.space.free).0,
          (alloc_page-IsFree (space2 i sp h).free).0,
          trapframe3 i sp h,
          wrap,
          store_run (t + regs_sp) (taken u (s2 i sp h)) (omega (arith, frame.aligned))
              (omega (arith, frame.low)) (omega (arith, frame.high)) user_stack_top,
          (alloc_page-IsFree (space3 i sp h).free).0,
          clear_page_lem mi
              (set_proc (taken mi (s3 i sp h)) i
                (record ((taken mi (s3 i sp h)).procs i) { mapped_info = mi }))
              info.aligned info.low info.high,
        )
        (Returns.mono (map_segments-Segments (can_build i sp h img vector apart enough))
          λ _ s' g. built i sp h img s' g)
