-- ===== src/Process/Pages.antt =====
-- The pages that `alloc_process` of kernel/process.c takes after trap frame and directory.
use testcode.Base.{ℕ, ◌+◌, ◌%◌, ◌≡◌, refl, List, ◌∷◌, mem-head, arith, update, update_ne}
use testcode.Machine.{Kernel, set_proc}
use testcode.Machine.Memory.{filled, filled_outside}
use testcode.Machine.Word.{pgsize, add64}
use testcode.Pmm.FreeList.{taken}
use testcode.Process.Create.{regs_sp, user_stack_top}
use testcode.Process.Space.{IsRamPage}
use testcode.Vmm.NewPage.{Space-taken}
use testcode.Vmm.Off.{Off, page-Off}
use testcode.Vmm.Space.{Space, Outside}
use testcode.Vmm.Tables.{Role}

-- The kernel stack `k` is taken.
abbrev pub with_kstack : (i k : ℕ) → Kernel → Kernel
with_kstack i k s =
    set_proc (taken k s) i (record ((taken k s).procs i) { kstack = add64 k pgsize })

-- The stack `u` is taken, and the trap frame `t` gets the stack pointer.
abbrev pub with_stack : (t u : ℕ) → Kernel → Kernel
with_stack t u s = record (taken u s) { mem = update s.mem (t + regs_sp) user_stack_top }

-- The page `mi` is taken for `mapped_info` and cleared.
abbrev pub with_info : (i mi : ℕ) → Kernel → Kernel
with_info i mi s =
    let s1 : Kernel =
      set_proc (taken mi s) i (record ((taken mi s).procs i) { mapped_info = mi }) in
    record s1 { mem = filled 512 mi 0 s.mem }

pub Off-kstack :
    (i k : ℕ) (s : Kernel) (role : Role) (rest : List ℕ)
    → Off role rest (taken k s) (with_kstack i k s)
Off-kstack i k s role rest = record {
  tables = λ p n x a h. refl;
  links = λ p n. refl;
  list = refl;
  start = refl;
  end = refl;
}

module _ {s : Kernel} {role : Role} {rest : List ℕ} where
  pub Off-stack :
      (t u : ℕ)
      → Space s role (u ∷ rest)
      → Outside role (u ∷ rest) t
      → t % pgsize ≡ 0
      → Off role rest (taken u s) (with_stack t u s)
  Off-stack t u sp out al =
      page-Off t (update s.mem (t + regs_sp) user_stack_top) (Space-taken sp)
        (out.0, ground (arith, out.1)) al
        (λ b away. update_ne s.mem user_stack_top (λ e. away (omega (arith, e, al))))

  pub Off-info :
      (i mi : ℕ) → Space s role (mi ∷ rest) → Off role rest (taken mi s) (with_info i mi s)
  Off-info i mi sp =
      let (al, low, high) = sp.free.pages.0 in
      let out : Outside role rest mi = (sp.apart mi (mem-head mi rest), sp.free.distinct.0) in
      let off =
        page-Off mi (filled 512 mi 0 s.mem) (Space-taken sp) out al
          (λ b away. filled_outside 512 mi 0 s.mem b (omega (arith, al, away))) in
      record { tables = off.tables; links = off.links; list = refl; start = refl; end = refl }

  pub head-IsRamPage : (p : ℕ) → Space s role (p ∷ rest) → IsRamPage p
  head-IsRamPage p sp =
      let (al, low, high) = sp.free.pages.0 in
      let a = sp.free.from_dram in
      let b = sp.free.to_top in record { aligned = al; low = omega arith; high = omega arith }
