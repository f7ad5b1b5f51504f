-- ===== src/Vmm/Walk.antt =====
-- `page_walk` of kernel/vmm.c with `alloc != 0`.
mod Change
mod Grow
pub use Change.*
pub use Grow.*
use testcode.Base.{
  ℕ, zero, suc, ◌+◌, ◌%◌, ◌≤◌, ◌<◌, ◌≡◌, ◌≢◌, ◌⊎◌, inl, inr, refl, sym, ap, ◌∙◌, none, some, true,
  false, List, [], ◌∷◌, length, mem, arith, update, update_ne, update_self, leb, All-mem, ◌==◌,
  Bool-cases, mem-head, mem-tail, ne_of_mem,
}
use mathlib.Core.Bool.{true≢false}
use mathlib.Core.Option.{none-ne-some}
use testcode.Base.Bits.{has_bit}
use testcode.Machine.{Kernel, ok, max_va, phys_top, dram_base}
use testcode.Machine.Memory.{filled, filled_outside, clear_page_lem}
use testcode.Machine.Returns
use testcode.Machine.Returns.{Returns, returns}
use testcode.Machine.Word.{pgsize, round_down, add32}
use testcode.Pmm.{count_page}
use testcode.Pmm.FreeList.{IsPage, Chain-frame, taken, alloc_page-IsFree, alloc_page_empty}
use testcode.Vmm.{pte_to_pa, px, walk_step, walk, page_walk}
use testcode.Vmm.Entry.{table_entry, table_entry_target, table_entry_valid}
use testcode.Vmm.Owner.{SameOwners-count, same_pages}
use testcode.Vmm.Space.{Space, Outside, entry-slot, slot-in_ram, walk_step_valid}
use testcode.Vmm.Tables.{
  Role, Place, Keeps, none_before, place, IsRoot, slot, prefix, walk_to, leaf, child_on_way,
  root_on_way, px-lt, prefix_step,
}
use testcode.Vmm.Tables.Grow.{Growth, grown_role, Tables-grown, leaf-grown, old_role, old_word}

-- A round that found or made the table `q` and left the state `s1`, then the rest of the walk.
Walked-step :
    {s s1 : Kernel} {role role1 : Role} {xs rest : List ℕ} {x : Place} (l pt va q : ℕ)
    → Extends s role s1 role1
    → length xs ≤ suc (length rest)
    → ((p : ℕ) → Outside role xs p → Outside role1 rest p)
    → role1 pt ≡ some x
    → has_bit (s1.mem (slot pt (px (suc l) va))) 0 ≡ true
    → pte_to_pa (s1.mem (slot pt (px (suc l) va))) ≡ q
    → (a : ℕ) (s' : Kernel) → Walked s1 role1 rest l q va a s'
    → Walked s role xs (suc l) pt va a s'
Walked-step {s} {s1} {role} {xs} {rest} {x} l pt va q ext more out at valid next a s' w = record {
  role' = w.role';
  rest = w.rest;
  space = w.space;
  extends = Extends-trans s role ext w.extends;
  used = omega (arith, w.used);
  outside = λ p o. w.outside p (out p o);
  found = found (w.found);
}
  where
    word : s'.mem (slot pt (px (suc l) va)) ≡ s1.mem (slot pt (px (suc l) va))
    word = w.extends.stays pt (px (suc l) va) x at (px-lt (suc l) va) valid

    found :
        (walk_to s'.mem l q va ≡ some a) ⊎ ((a ≡ 0) × (length rest < l))
        → (walk_to s'.mem (suc l) pt va ≡ some a) ⊎ ((a ≡ 0) × (length xs < suc l))
    found (inl e) = inl (rw (word, valid, next) e)
    found (inr (z, few)) = inr (z, omega arith)

abbrev WalkReturns : (l r va : ℕ) → Type 0
WalkReturns l r va =
    (pt : ℕ) (s : Kernel) (role : Role) (xs : List ℕ)
    → Space s role xs
    → role pt ≡ some (place r l (prefix (suc l) va))
    → Returns (Walked s role xs l pt va) (walk true l pt va s)

walk_absent :
    (l r va : ℕ)
    → l ≤ 1
    → WalkReturns l r va
    → (pt : ℕ) (s : Kernel) (role : Role) (xs : List ℕ) → Space s role xs
    → role pt ≡ some (place r (suc l) (prefix (suc (suc l)) va))
    → has_bit (s.mem (slot pt (px (suc l) va))) 0 ≡ false
    → Returns (Walked s role xs (suc l) pt va) (walk true (suc l) pt va s)
unfolding walk
walk_absent l r va h ih pt s role [] sp at absent =
    rw (walk_step_empty {s = s} sp (suc l) pt va at absent) (
      returns (record {
        role' = role;
        rest = [];
        space = Space-counted sp;
        extends =
            Extends-same s (counted sp) role refl refl refl (SameOwners-count (λ c. add32 c 1) s);
        used = omega arith;
        outside = λ p o. o;
        found = inr (refl, omega arith);
      }))
walk_absent l r va h ih pt s role (q ∷ rest) sp at absent =
    let ext = Extends-after sp r l pt va h at absent in
    let word : (after sp r l pt va h at absent).mem (slot pt (px (suc l) va)) ≡ table_entry q =
      update_self (filled 512 q 0 s.mem) (slot pt (px (suc l) va)) (table_entry q) in
    rw (walk_step_grow {s = s} sp r l pt va h at absent) (
      Returns.mono
        (ih q (after sp r l pt va h at absent) (role_after sp r l pt va h at absent) rest
          (Space-after sp r l pt va h at absent) (role_q sp r l pt va h at absent))
        (Walked-step l pt va q ext (omega arith) (others_stay sp r l pt va h at absent)
          (ext.keeps pt _ at) (rw word (table_entry_valid q))
          (rw word (
            table_entry_target q (q_page sp r l pt va h at absent).0
              (omega (arith, q_page sp r l pt va h at absent))))))

walk_round : (l r va : ℕ) → l ≤ 1 → WalkReturns l r va → WalkReturns (suc l) r va
unfolding walk
walk_round l r va h ih pt s role xs sp at =
    elim (Bool-cases (has_bit (s.mem (slot pt (px (suc l) va))) 0)) [
      | inl valid ↦ rw (walk_step_valid {s = s} sp.tables true (suc l) pt va at valid) (
          Returns.mono
            (ih (pte_to_pa (s.mem (slot pt (px (suc l) va)))) s role xs sp
              (child_on_way sp.tables r l pt va h at valid))
            (Walked-step l pt va _
              (Extends-same s s role refl refl refl (λ i. same_pages (s.procs i))) (omega arith)
              (λ p o. o) at valid refl))
      | inr absent ↦ walk_absent l r va h ih pt s role xs sp at absent
    ]

pub walk-Walked : (l r va : ℕ) → l ≤ 2 → WalkReturns l r va
unfolding walk
walk-Walked zero r va h pt s role xs sp at = rw (entry-slot sp.tables pt at 0 va) (
    returns (record {
      role' = role;
      rest = xs;
      space = sp;
      extends = Extends-same s s role refl refl refl (λ i. same_pages (s.procs i));
      used = omega arith;
      outside = λ p o. o;
      found = inl refl;
    }))
walk-Walked (suc l) r va h pt s role xs sp at =
    walk_round l r va (omega arith) (walk-Walked l r va (omega arith)) pt s role xs sp at

-- If page tables, free pages and other pages are apart and the address is below MAXVA,
-- `page_walk` with `alloc` set returns the entry of the address, and no entry of any page of any
-- address space changes; or it returns 0 and fewer than two pages were free. It takes at most two
-- free pages, and free pages, tables and other pages are apart again.
pub page_walk-Walked :
    (pd va : ℕ) (s : Kernel) (role : Role) (xs : List ℕ)
    → Space s role xs
    → IsRoot role pd
    → va < max_va
    → Returns (Walked s role xs 2 pd va) (page_walk pd va true s)
unfolding page_walk
page_walk-Walked pd va s role xs sp at h =
    let below : leb max_va va ≡ false = ground arith in
    rw below (walk-Walked 2 pd va (omega arith) pd s role xs sp (root_on_way role pd va h at))
