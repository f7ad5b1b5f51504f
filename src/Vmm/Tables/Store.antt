-- ===== src/Vmm/Tables/Store.antt =====
-- A store to the entry of one page, as in `map_pages` and `user_vm_unmap` of kernel/vmm.c.
use testcode.Base.{
  ℕ, zero, suc, ◌/◌, ◌≤◌, ◌<◌, ◌≡◌, ◌≢◌, refl, sym, ap, ◌∙◌, inl, inr, Option, none, some, Bool,
  true, false, ◌&&◌, arith, update, update_self, update_ne, if◌then◌else◌, ◌==◌, Bool-cases,
}
use testcode.Machine.{max_va}
use testcode.Vmm.{pte_to_pa, px}
use testcode.Vmm.Tables.{
  Role, Tables, IsRoot, slot, walk_to, leaf, px-lt, walk_to-place, walk_to-leaf, walk_to-none,
  root_on_way,
}
use testcode.Vmm.Tables.Frame.{
  SameUpper, walk_to-frame, leaf_store-SameUpper, walk_to-injective, Tables-frame,
}

px-page : (l va va' : ℕ) → l ≤ 2 → va' / 4096 ≡ va / 4096 → px l va' ≡ px l va
px-page zero va va' h same = omega (arith, same)
px-page (suc zero) va va' h same = omega (arith, same)
px-page (suc (suc zero)) va va' h same = omega (arith, same)
px-page (suc (suc (suc l))) va va' h same = absurd (omega arith)

-- Addresses of one page have one entry.
pub walk_to-page :
    (m : ℕ → ℕ) (l pt va va' : ℕ)
    → l ≤ 2
    → va' / 4096 ≡ va / 4096
    → walk_to m l pt va' ≡ walk_to m l pt va
walk_to-page m zero pt va va' h same = ap (λ i. some (slot pt i)) (px-page 0 va va' h same)
walk_to-page m (suc l) pt va va' h same = rw (
  px-page (suc l) va va' h same,
  walk_to-page m l (pte_to_pa (m (slot pt (px (suc l) va)))) va va' (omega arith) same,
)

-- `va'` in the space `r` lies on the page of `va` in the space `pd`.
abbrev pub same_page : (pd va r va' : ℕ) → Bool
same_page pd va r va' = r == pd && va' / 4096 == va / 4096

module _ {m : ℕ → ℕ} {role : Role} (t : Tables m role) (pd va a e : ℕ) (at : IsRoot role pd)
    (h : va < max_va) (way : walk_to m 2 pd va ≡ some a) where
  store_upper : SameUpper role m (update m a e)
  store_upper =
      let (p, rp, ea) =
        walk_to-place t pd 2 pd va (omega arith) (root_on_way role pd va h at) way in
      rw ea (leaf_store-SameUpper p (px 0 va) e t rp (px-lt 0 va))

  pub Tables-store : Tables (update m a e) role
  Tables-store = Tables-frame t (update m a e) store_upper

  way_after :
      (r va' : ℕ)
      → IsRoot role r
      → va' < max_va
      → walk_to (update m a e) 2 r va' ≡ walk_to m 2 r va'
  way_after r va' at' h' =
      walk_to-frame t (update m a e) store_upper r 2 r va' (omega arith)
        (root_on_way role r va' h' at')

  other_way : (r va' : ℕ) → same_page pd va r va' ≡ true → walk_to m 2 r va' ≡ some a
  other_way r va' same =
      let er : r ≡ pd = ground arith in
      let ev : va' / 4096 ≡ va / 4096 = ground arith in
      rw er (walk_to-page m 2 pd va va' (omega arith) ev ∙ way)

  pub leaf-store :
      (r va' : ℕ)
      → IsRoot role r
      → va' < max_va
      → leaf (update m a e) 2 r va' ≡ (if same_page pd va r va' then e else leaf m 2 r va')
  leaf-store r va' at' h' = elim (Bool-cases (same_page pd va r va')) [
    | inl same ↦ rw same (
        walk_to-leaf (update m a e) 2 r va' a (way_after r va' at' h' ∙ other_way r va' same)
        ∙ update_self m a e)
    | inr differ ↦ rw differ (by_way (walk_to m 2 r va') refl differ)
  ]
    where
      by_way :
          (w : Option ℕ)
          → walk_to m 2 r va' ≡ w
          → same_page pd va r va' ≡ false
          → leaf (update m a e) 2 r va' ≡ leaf m 2 r va'
      by_way none w differ =
          walk_to-none (update m a e) 2 r va' (way_after r va' at' h' ∙ w)
          ∙ sym (walk_to-none m 2 r va' w)
      by_way (some a') w differ =
          walk_to-leaf (update m a e) 2 r va' a' (way_after r va' at' h' ∙ w)
          ∙ (update_ne m e (apart w) ∙ sym (walk_to-leaf m 2 r va' a' w))
        where
          apart : walk_to m 2 r va' ≡ some a' → a ≢ a'
          apart w same = ground (
            arith,
            walk_to-injective t pd va r va' a at at' h h' way (w ∙ ap some (sym same)),
            differ,
          )
