-- ===== src/Process/Frame.antt =====
-- `new_frame`: the trap frame and the page directory that `alloc_process` and `realloc_process`
-- of kernel/process.c give a process.
use testcode.Base.{
  ℕ, ◌+◌, ◌*◌, ◌<◌, ◌≡◌, ◌≢◌, refl, ap, ◌∙◌, List, ◌∷◌, mem-head, ne_of_mem, arith, update_self,
  All-mem,
}
use testcode.Machine.{Kernel, ok, max_va, set_proc}
use testcode.Machine.Memory.{filled, filled_inside, filled_outside, fill_lem, clear_page_lem}
use testcode.Machine.Returns.{Returns, returns}
use testcode.Pmm.FreeList.{IsPage, taken, alloc_page-IsFree}
use testcode.Process.Create.{new_frame, trapframe_words}
use testcode.Vmm.NewPage.{Space-taken}
use testcode.Vmm.NewRoot.{with_root, Space-rooted, root_role, leaf_new, leaf_old, root_page, other}
use testcode.Vmm.Off.{Off, Space-Off, leaf-Off}
use testcode.Vmm.Space.{Space}
use testcode.Vmm.Tables.{Role, IsRoot, slot, leaf}

-- The process has the trap frame `t`, cleared, and the directory `q` of an address space in which
-- nothing is mapped; the other address spaces stay.
pub record HasFrame (s : Kernel) (role : Role) (rest : List ℕ) (t q i : ℕ) (s' : Kernel)
    : Type 0 where
  pub trapframe : (s'.procs i).trapframe ≡ t
  pub pagetable : (s'.procs i).pagetable ≡ q
  pub cleared : (n : ℕ) → n < trapframe_words → s'.mem (t + 8 * n) ≡ 0
  pub space : Space s' (with_root role q) rest
  pub root : IsRoot (with_root role q) q
  pub unmapped : (va : ℕ) → leaf s'.mem 2 q va ≡ 0
  pub others : (r va : ℕ) → IsRoot role r → va < max_va → leaf s'.mem 2 r va ≡ leaf s.mem 2 r va

module _ {s : Kernel} {role : Role} {t q : ℕ} {rest : List ℕ} (i : ℕ)
    (sp : Space s role (t ∷ q ∷ rest)) where
  -- The state after the trap frame was cleared.
  abbrev framed : Kernel
  framed =
      let s1 = set_proc (taken t s) i (record ((taken t s).procs i) { trapframe = t }) in
      record s1 { mem = filled trapframe_words t 0 s.mem }

  framed-Off : Off role (q ∷ rest) (taken t s) framed
  framed-Off = record {
    tables = λ p n x at h.
        let ne = other sp p x at in
        filled_outside trapframe_words t 0 s.mem (slot p n)
          (omega (arith, ne, sp.tables.aligned p x at, root_page sp, h));
    links = λ p n.
        let ne : p ≢ t = ne_of_mem p t (q ∷ rest) n sp.free.distinct.0 in
        filled_outside trapframe_words t 0 s.mem p
          (omega (arith, ne, (All-mem (IsPage s) p (q ∷ rest) sp.free.pages.1 n).0, root_page sp));
    list = refl;
    start = refl;
    end = refl;
  }

  framed-Space : Space framed role (q ∷ rest)
  framed-Space = Space-Off (Space-taken sp) framed-Off

  abbrev after : Kernel
  after =
      let s1 = set_proc (taken q framed) i (record ((taken q framed).procs i) { pagetable = q }) in
      record s1 { mem = filled 512 q 0 framed.mem }

  frame_run : new_frame i s ≡ ok tt after
  unfolding new_frame
  frame_run =
      let (al, low, high) = root_page sp in
      let (al', low', high') = root_page framed-Space in
      rw
        (
          (alloc_page-IsFree sp.free).0,
          fill_lem trapframe_words t 0
              (set_proc (taken t s) i (record ((taken t s).procs i) { trapframe = t }))
              (omega arith) low (omega arith),
          (alloc_page-IsFree framed-Space.free).0,
          clear_page_lem q
              (set_proc (taken q framed) i (record ((taken q framed).procs i) { pagetable = q }))
              al' low' high',
        )
        refl

  kept_frame : ((taken q framed).procs i).trapframe ≡ t
  kept_frame =
      ground
        (arith, update_self (taken t s).procs i (record ((taken t s).procs i) { trapframe = t }))

  apart : q ≢ t
  apart = ne_of_mem q t (q ∷ rest) (mem-head q rest) sp.free.distinct.0

  stays_clear : (n : ℕ) → n < trapframe_words → after.mem (t + 8 * n) ≡ 0
  stays_clear n h =
      let outside =
        filled_outside 512 q 0 framed.mem (t + 8 * n)
          (omega (arith, apart, root_page sp, root_page framed-Space, h)) in
      outside ∙ filled_inside trapframe_words t 0 s.mem n h

  -- If page tables, free pages and other pages are apart and two pages are free, `new_frame`
  -- returns: the trap frame of the process is the first of them, cleared, its directory is the
  -- second, the root of one more address space in which no address is mapped, every page of the
  -- other address spaces keeps its entry, and free pages, tables and other pages are apart again.
  pub new_frame-HasFrame : Returns (λ _. HasFrame s role rest t q i) (new_frame i s)
  new_frame-HasFrame = rw frame_run (
      returns record {
        trapframe = ap (λ p. p.trapframe) (update_self (taken q framed).procs i _) ∙ kept_frame;
        pagetable = ap (λ p. p.pagetable) (update_self (taken q framed).procs i _);
        cleared = stays_clear;
        space = Space-Off (Space-rooted framed-Space) (record {
          tables = λ p n x at h. refl;
          links = λ p n. refl;
          list = refl;
          start = refl;
          end = refl;
        });
        root = root_role framed-Space;
        unmapped = leaf_new framed-Space;
        others = λ r va at h.
            leaf_old framed-Space r va at h ∙ leaf-Off (Space-taken sp) framed-Off r va at h;
      })
