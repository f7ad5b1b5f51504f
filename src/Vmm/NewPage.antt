-- ===== src/Vmm/NewPage.antt =====
-- A page that `alloc_page` returns, mapped at an address of the user.
use testcode.Base.{
  ℕ, zero, suc, ◌-◌, ◌+◌, ◌*◌, ◌/◌, ◌%◌, ◌^◌, ◌≤◌, ◌<◌, ◌≡◌, sym, ap, ◌∙◌, true, false, ◌||◌, List,
  ◌∷◌, length, mem-tail, arith,
}
use mathlib.Core.Path.{subst}
use testcode.Base.Bits.{has_bit}
use testcode.Machine.{Kernel, max_va}
use testcode.Machine.Returns
use testcode.Machine.Returns.{Returns}
use testcode.Machine.Word.{pgsize, round_down}
use testcode.Pmm.FreeList.{taken, alloc_page-IsFree}
use testcode.Vmm.{user_vm_map, bit_r, bit_w, px, pte_to_pa}
use testcode.Vmm.Entry.{leaf_entry, page_of, page_of-leaf_entry}
use testcode.Vmm.Lookup.{translate}
use testcode.Vmm.Map.{Mapped, mapped_leaf, CanMap, page_span, user_vm_map-Mapped}
use testcode.Vmm.Space.{Space}
use testcode.Vmm.Tables.{Role, IsRoot, leaf, slot, prefix, px-prefix}

pub Space-taken :
    {s : Kernel} {role : Role} {p : ℕ} {xs : List ℕ}
    → Space s role (p ∷ xs)
    → Space (taken p s) role xs
Space-taken {s} {role} {p} {xs} sp = record {
  free = (alloc_page-IsFree sp.free).1;
  tables = sp.tables;
  apart = λ q i. sp.apart q (mem-tail q p xs i);
}

mapped_first :
    (m : ℕ → ℕ) (pd va p perm : ℕ)
    → mapped_leaf m pd (round_down va) 1 p perm pd va ≡ leaf_entry p perm
mapped_first m pd va p perm =
    let same : round_down va / 4096 ≡ va / 4096 = omega arith in
    let start : p + (va / 4096 - va / 4096) * 4096 ≡ p = omega arith in
    rw (same, start) (ground arith)

-- The page `p` is mapped at the address `va`, and nothing else changes for the users.
pub record PageAdded (s : Kernel) (role : Role) (xs : List ℕ) (pd va p perm : ℕ) (s' : Kernel)
    : Type 0 where
  pub mapped : Mapped s role xs pd (round_down va) 1 p perm s'
  pub translates : translate s'.mem pd va ≡ p

px_same : (l va va' : ℕ) → l ≤ 2 → va / 4096 ≡ va' / 4096 → px l va ≡ px l va'
px_same l va va' h e =
    px-prefix l va h ∙ (ap (λ q. q % 512) (prefix_same l va va' e) ∙ sym (px-prefix l va' h))
  where
    prefix_same : (l va va' : ℕ) → va / 4096 ≡ va' / 4096 → prefix l va ≡ prefix l va'
    prefix_same zero va va' e = e
    prefix_same (suc l) va va' e = ap (λ q. q / 512) (prefix_same l va va' e)

leaf_same :
    (m : ℕ → ℕ) (l pt va va' : ℕ)
    → l ≤ 2
    → va / 4096 ≡ va' / 4096
    → leaf m l pt va ≡ leaf m l pt va'
leaf_same m zero pt va va' h e = rw (px_same 0 va va' h e)
leaf_same m (suc l) pt va va' h e = rw (
  px_same (suc l) va va' h e,
  leaf_same m l (pte_to_pa (m (slot pt (px (suc l) va')))) va va' (omega arith) e,
)

pub user_vm_map-PageAdded :
    {s : Kernel} {role : Role} {xs : List ℕ} (pd va p perm : ℕ)
    → Space s role xs
    → IsRoot role pd
    → va < max_va
    → has_bit (leaf s.mem 2 pd va) 0 ≡ false
    → 2 ≤ length xs
    → p % pgsize ≡ 0
    → p < 2 ^ 55
    → perm < 1024
    → (has_bit perm bit_r || has_bit perm bit_w) ≡ true
    → Returns
        (λ _. PageAdded s role xs pd va p perm)
        (user_vm_map pd (round_down va) pgsize p perm s)
user_vm_map-PageAdded {s} {role} {xs} pd va p perm sp at h unused enough al small perms flags =
    let base : round_down (round_down va) ≡ round_down va = omega arith in
    let one : page_span (round_down va) pgsize ≡ 1 = omega arith in
    let can : CanMap s xs pd (round_down va) pgsize p = record {
      some_bytes = omega arith;
      below = omega arith;
      physical = omega arith;
      unused = λ va' lo hi.
          ap (λ e. has_bit e 0) (leaf_same s.mem 2 pd va' va (omega arith) (omega arith)) ∙ unused;
      enough = omega arith;
    } in
    Returns.mono (user_vm_map-Mapped pd (round_down va) pgsize p perm sp at can) λ _ s' d.
      let mapped : Mapped s role xs pd (round_down va) 1 p perm s' =
        subst (λ k. Mapped s role xs pd (round_down va) k p perm s') one
          (subst (λ b. Mapped s role xs pd b (page_span (round_down va) pgsize) p perm s') base
            d) in
      record {
        mapped = mapped;
        translates =
            ap page_of (mapped.leaves pd va at h ∙ mapped_first s.mem pd va p perm)
            ∙ page_of-leaf_entry p perm al (omega arith) perms flags;
      }
