-- ===== src/Vmm/Off.antt =====
-- Changes of memory off the page tables and the free pages.
use testcode.Base.{
  ◌≢◌, ℕ, zero, suc, ◌%◌, ◌≤◌, ◌<◌, ◌≡◌, refl, sym, ap, ◌∙◌, inl, inr, some, true, List, mem, arith,
  Bool-cases, All-mem,
}
use mathlib.Core.Option.{none-ne-some}
use testcode.Base.Bits.{has_bit}
use testcode.Machine.{Kernel, max_va}
use testcode.Machine.Word.{pgsize, round_down}
use testcode.Pmm.FreeList.{IsPage, Chain-frame}
use testcode.Vmm.{px, pte_to_pa}
use testcode.Vmm.Space.{Space, Outside}
use testcode.Vmm.Tables.{
  Role, Place, place, IsRoot, slot, prefix, leaf, px-lt, root_on_way, child_on_way,
}
use testcode.Vmm.Tables.Frame.{Tables-frame}

-- Words of tables and the links of the free list stay, and the memory manager stays.
pub record Off (role : Role) (xs : List ℕ) (s s' : Kernel) : Type 0 where
  pub tables :
      (p i : ℕ) (x : Place) → role p ≡ some x → i < 512 → s'.mem (slot p i) ≡ s.mem (slot p i)
  pub links : (p : ℕ) → mem p xs ≡ true → s'.mem p ≡ s.mem p
  pub list : s'.free_list ≡ s.free_list
  pub start : s'.free_mem_start_addr ≡ s.free_mem_start_addr
  pub end : s'.free_mem_end_addr ≡ s.free_mem_end_addr

module _ {role : Role} {xs : List ℕ} {s s' : Kernel} (sp : Space s role xs)
    (o : Off role xs s s') where
  pub Space-Off : Space s' role xs
  Space-Off = record {
    free = record {
      from_dram = rw o.start sp.free.from_dram;
      to_top = rw o.end sp.free.to_top;
      chain = rw o.list (Chain-frame s.mem s'.mem s.free_list xs o.links sp.free.chain);
      distinct = sp.free.distinct;
      pages = rw (o.start, o.end) sp.free.pages;
    };
    tables = Tables-frame sp.tables s'.mem (λ p r l v i at h. o.tables p i _ at h);
    apart = sp.apart;
  }

  leaf_same :
      (r l pt va : ℕ)
      → l ≤ 2
      → role pt ≡ some (place r l (prefix (suc l) va))
      → leaf s'.mem l pt va ≡ leaf s.mem l pt va
  leaf_same r zero pt va h at = o.tables pt (px 0 va) _ at (px-lt 0 va)
  leaf_same r (suc l) pt va h at =
      rw (o.tables pt (px (suc l) va) _ at (px-lt (suc l) va))
        (elim (Bool-cases (has_bit (s.mem (slot pt (px (suc l) va))) 0)) [
          | inl valid ↦ rw valid (
              leaf_same r l (pte_to_pa (s.mem (slot pt (px (suc l) va)))) va (omega arith)
                (child_on_way sp.tables r l pt va (omega arith) at valid))
          | inr absent ↦ rw absent refl
        ])

  pub leaf-Off : (r va : ℕ) → IsRoot role r → va < max_va → leaf s'.mem 2 r va ≡ leaf s.mem 2 r va
  leaf-Off r va at h = leaf_same r 2 r va (omega arith) (root_on_way role r va h at)

-- Words of such a page may change.
pub page-Off :
    {s : Kernel} {role : Role} {xs : List ℕ} (p : ℕ) (m : ℕ → ℕ)
    → Space s role xs
    → Outside role xs p
    → p % pgsize ≡ 0
    → ((b : ℕ) → round_down b ≢ p → m b ≡ s.mem b)
    → Off role xs s (record s { mem = m })
page-Off {s} {role} {xs} p m sp out al same = record {
  tables = λ q i x at h. same (slot q i) (λ home.
      let there : q ≡ p = omega (arith, home, sp.tables.aligned q x at, h, al) in
      none-ne-some x (sym out.0 ∙ (ap role (sym there) ∙ at)));
  links = λ q i. same q (λ home.
      let there : q ≡ p = omega (arith, home, (All-mem (IsPage s) q xs sp.free.pages i).0) in
      ground (arith, out.1, there, i));
  list = refl;
  start = refl;
  end = refl;
}
