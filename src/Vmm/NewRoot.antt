-- ===== src/Vmm/NewRoot.antt =====
-- A free page that is cleared and becomes the directory of a new address space.
use testcode.Base.{
  ℕ, suc, ◌+◌, ◌*◌, ◌%◌, ◌≤◌, ◌<◌, ◌≡◌, ◌≢◌, refl, sym, ap, ◌∙◌, inl, inr, none, some, true, List,
  ◌∷◌, mem-head, mem-tail, ne_of_mem, arith, update, update_ne, update_self, Bool-cases, ==_iff,
  ◌==◌, All-mem,
}
use mathlib.Core.Path.{subst}
use mathlib.Core.Bool.{false≢true}
use mathlib.Core.Option.{none-ne-some}
use testcode.Base.Bits.{has_bit}
use testcode.Machine.{Kernel, max_va, dram_base, phys_top}
use testcode.Machine.Memory.{filled, filled_inside, filled_outside}
use testcode.Machine.Word.{pgsize}
use testcode.Pmm.FreeList.{IsPage, taken}
use testcode.Vmm.{px, pte_to_pa}
use testcode.Vmm.NewPage.{Space-taken}
use testcode.Vmm.Off.{Off, Space-Off, leaf-Off}
use testcode.Vmm.Space.{Space}
use testcode.Vmm.Tables.{Role, Place, place, IsRoot, slot, leaf, px-lt}

-- The page `q` is the directory of one more address space.
abbrev pub with_root : Role → ℕ → Role
with_root role q = update role q (some (place q 2 0))

module _ {s : Kernel} {role : Role} {q : ℕ} {rest : List ℕ} (sp : Space s role (q ∷ rest)) where
  -- The state after `alloc_page` took the page and `clear_page` cleared it.
  abbrev pub rooted : Kernel
  rooted = record (taken q s) { mem = filled 512 q 0 s.mem }

  pub root_page : (q % pgsize ≡ 0) × (dram_base ≤ q) × (q + pgsize ≤ phys_top)
  root_page =
      let (al, low, high) = sp.free.pages.0 in
      let a = sp.free.from_dram in let b = sp.free.to_top in (al, omega arith, omega arith)

  fresh : role q ≡ none
  fresh = sp.apart q (mem-head q rest)

  pub other : (p : ℕ) (x : Place) → role p ≡ some x → p ≢ q
  other p x at same = none-ne-some x (sym fresh ∙ (ap role (sym same) ∙ at))

  -- The page was free, so no table and no other free page lost a word.
  cleared-Off : Off role rest (taken q s) rooted
  cleared-Off = record {
    tables = λ p i x at h.
        let ne = other p x at in
        filled_outside 512 q 0 s.mem (slot p i)
          (omega (arith, ne, sp.tables.aligned p x at, root_page, h));
    links = λ p i.
        let ne : p ≢ q = ne_of_mem p q rest i sp.free.distinct.0 in
        filled_outside 512 q 0 s.mem p
          (omega (arith, ne, (All-mem (IsPage s) p rest sp.free.pages.1 i).0, root_page));
    list = refl;
    start = refl;
    end = refl;
  }

  same-Space : Space rooted role rest
  same-Space = Space-Off (Space-taken sp) cleared-Off

  by_case {ℓ} :
      (P : ℕ → Place → Type ℓ)
      → ((p : ℕ) (x : Place) → role p ≡ some x → P p x)
      → ((x : Place) → P q x)
      → (p : ℕ) (x : Place) → with_root role q p ≡ some x
      → P p x
  by_case P old new p x at = elim (Bool-cases (p == q)) [
    | inl e ↦ subst (λ a. P a x) (sym ((==_iff p q).0 e)) (new x)
    | inr e ↦ old p x (rw e at at)
  ]

  pub old_role : (p : ℕ) (x : Place) → role p ≡ some x → with_root role q p ≡ some x
  old_role p x at = update_ne role _ (λ same. other p x at (sym same)) ∙ at

  rooted_child :
      (p r l v i : ℕ)
      → with_root role q p ≡ some (place r (suc l) v)
      → i < 512
      → has_bit (rooted.mem (slot p i)) 0 ≡ true
      → with_root role q (pte_to_pa (rooted.mem (slot p i))) ≡ some (place r l (v * 512 + i))
  rooted_child p r l v i at h valid = elim (Bool-cases (p == q)) [
    | inl e ↦
        let zero_word : rooted.mem (slot p i) ≡ 0 =
          ap (λ x. rooted.mem (slot x i)) ((==_iff p q).0 e) ∙ filled_inside 512 q 0 s.mem i h in
        absurd (false≢true (rw zero_word at valid))
    | inr e ↦
        let before : role p ≡ some (place r (suc l) v) = rw e at at in
        let word : rooted.mem (slot p i) ≡ s.mem (slot p i) = cleared-Off.tables p i _ before h in
        rw word (old_role _ _ (sp.tables.child p r l v i before h (rw word at valid)))
  ]

  pub Space-rooted : Space rooted (with_root role q) rest
  Space-rooted = record {
    free = same-Space.free;
    tables = record {
      aligned = by_case (λ a x. a % pgsize ≡ 0) sp.tables.aligned (λ x. root_page.0);
      low = by_case (λ a x. dram_base ≤ a) sp.tables.low (λ x. root_page.1);
      high = by_case (λ a x. a + pgsize ≤ phys_top) sp.tables.high (λ x. root_page.2);
      child = rooted_child;
    };
    apart = λ p i.
        update_ne role _ (λ same. ne_of_mem p q rest i sp.free.distinct.0 (sym same))
        ∙ sp.apart p (mem-tail p q rest i);
  }

  pub root_role : IsRoot (with_root role q) q
  root_role = update_self role q _

  -- No address is mapped in the new space, and the old ones are as they were.
  pub leaf_new : (va : ℕ) → leaf rooted.mem 2 q va ≡ 0
  leaf_new va = rw (filled_inside 512 q 0 s.mem (px 2 va) (px-lt 2 va)) refl

  pub leaf_old :
      (r va : ℕ) → IsRoot role r → va < max_va → leaf rooted.mem 2 r va ≡ leaf s.mem 2 r va
  leaf_old r va at h = leaf-Off (Space-taken sp) cleared-Off r va at h
