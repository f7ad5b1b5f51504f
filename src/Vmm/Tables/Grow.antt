-- ===== src/Vmm/Tables/Grow.antt =====
-- A cleared page that becomes a table, as `page_walk` of kernel/vmm.c adds it.
use testcode.Base.{
  ℕ, zero, suc, ◌+◌, ◌*◌, ◌%◌, ◌≤◌, ◌<◌, ◌≡◌, sym, ap, ◌∙◌, ◌≢◌, ◌⊎◌, inl, inr, none, some, true,
  false, arith, update, update_self, update_ne, if◌then◌else◌, ◌==◌, ==_iff, Bool-cases,
}
use mathlib.Core.Path.{subst}
use mathlib.Core.Bool.{false≢true}
use mathlib.Core.Option.{none-ne-some}
use testcode.Base.Bits.{has_bit}
use testcode.Machine.{dram_base, phys_top}
use testcode.Machine.Memory.{filled, filled_inside, filled_outside}
use testcode.Machine.Word.{pgsize}
use testcode.Vmm.{pte_to_pa, px}
use testcode.Vmm.Tables.{
  Role, Place, place, Tables, slot, prefix, leaf, slot-ne, px-lt, child_on_way,
}

-- The free page `q` is to hang below the entry `i`, still invalid, of the table `p`.
pub record Growth (m : ℕ → ℕ) (role : Role) (r l v p i q e : ℕ) : Type 0 where
  pub tables : Tables m role
  pub parent : role p ≡ some (place r (suc l) v)
  pub index : i < 512
  pub unused : has_bit (m (slot p i)) 0 ≡ false
  pub fresh : role q ≡ none
  pub aligned : q % pgsize ≡ 0
  pub low : dram_base ≤ q
  pub high : q + pgsize ≤ phys_top
  pub target : pte_to_pa e ≡ q
  pub valid : has_bit e 0 ≡ true

-- Memory after `memset(q, 0, PGSIZE)` and the store of the new entry.
abbrev pub grown : (ℕ → ℕ) → (p i q e : ℕ) → ℕ → ℕ
grown m p i q e = update (filled 512 q 0 m) (slot p i) e

abbrev pub grown_role : Role → (r l v i q : ℕ) → Role
grown_role role r l v i q = update role q (some (place r l (v * 512 + i)))

module _ {m : ℕ → ℕ} {role : Role} {r l v p i q e : ℕ} (g : Growth m role r l v p i q e) where
  ne_fresh : (p' : ℕ) {x : Place} → role p' ≡ some x → p' ≢ q
  ne_fresh p' at same = none-ne-some _ (sym g.fresh ∙ (ap role (sym same) ∙ at))

  pub old_role : (p' : ℕ) {x : Place} → role p' ≡ some x → grown_role role r l v i q p' ≡ some x
  old_role p' at = update_ne role _ (λ same. ne_fresh p' at (sym same)) ∙ at

  fresh_word : (j : ℕ) → j < 512 → grown m p i q e (slot q j) ≡ 0
  fresh_word j h =
      update_ne (filled 512 q 0 m) e
        (slot-ne (g.tables.aligned p _ g.parent) g.aligned g.index h (inl (ne_fresh p g.parent)))
      ∙ filled_inside 512 q 0 m j h

  pub old_word :
      (p' j : ℕ) {x : Place}
      → role p' ≡ some x
      → j < 512
      → slot p' j ≢ slot p i
      → grown m p i q e (slot p' j) ≡ m (slot p' j)
  old_word p' j at h ne =
      update_ne (filled 512 q 0 m) e (λ same. ne (sym same))
      ∙ filled_outside 512 q 0 m (slot p' j) (apart (ne_fresh p' at))
    where
      apart : p' ≢ q → (slot p' j < q) ⊎ (q + 8 * 512 ≤ slot p' j)
      apart ne' = omega (arith, g.tables.aligned p' _ at, g.aligned)

  pub new_entry : grown m p i q e (slot p i) ≡ e
  new_entry = update_self (filled 512 q 0 m) (slot p i) e

  same_slot :
      (p' j : ℕ) {x : Place}
      → role p' ≡ some x
      → j < 512
      → slot p' j ≡ slot p i
      → (p' ≡ p) × (j ≡ i)
  same_slot p' j at h same =
      let a = g.tables.aligned p' _ at in
      let b = g.tables.aligned p _ g.parent in let c = g.index in (omega arith, omega arith)

  old_child :
      (p' r' l' v' j : ℕ)
      → role p' ≡ some (place r' (suc l') v')
      → j < 512
      → has_bit (grown m p i q e (slot p' j)) 0 ≡ true
      → grown_role role r l v i q (pte_to_pa (grown m p i q e (slot p' j)))
        ≡ some (place r' l' (v' * 512 + j))
  old_child p' r' l' v' j at h valid = elim (Bool-cases (slot p' j == slot p i)) [
    | inl e1 ↦
        let same : slot p' j ≡ slot p i = (==_iff _ _).0 e1 in
        let (ep, ej) = same_slot p' j at h same in
        let places : some (place r' (suc l') v') ≡ some (place r (suc l) v) =
          sym at ∙ (ap role ep ∙ g.parent) in
        ap (λ a. new_role (pte_to_pa (grown m p i q e a))) same
        ∙ (ap (λ w. new_role (pte_to_pa w)) new_entry
            ∙ (ap new_role g.target ∙ (update_self role q _ ∙ ground (arith, places, ej))))
    | inr e1 ↦
        let differ : slot p' j ≢ slot p i = λ same. ground (arith, same, e1) in
        let word = old_word p' j at h differ in
        rw word (old_role _ (g.tables.child p' r' l' v' j at h (rw word at valid)))
  ]
    where
      new_role : Role
      new_role = grown_role role r l v i q

  grown_child :
      (p' r' l' v' j : ℕ)
      → grown_role role r l v i q p' ≡ some (place r' (suc l') v')
      → j < 512
      → has_bit (grown m p i q e (slot p' j)) 0 ≡ true
      → grown_role role r l v i q (pte_to_pa (grown m p i q e (slot p' j)))
        ≡ some (place r' l' (v' * 512 + j))
  grown_child p' r' l' v' j at h valid = elim (Bool-cases (p' == q)) [
    | inl e1 ↦
        let same : p' ≡ q = (==_iff p' q).0 e1 in
        let zero_word : grown m p i q e (slot p' j) ≡ 0 =
          ap (λ x. grown m p i q e (slot x j)) same ∙ fresh_word j h in
        absurd (false≢true (rw zero_word at valid))
    | inr e1 ↦
        let at' : role p' ≡ some (place r' (suc l') v') = rw e1 at at in
        old_child p' r' l' v' j at' h valid
  ]

  by_case {ℓ} :
      (P : ℕ → Place → Type ℓ)
      → ((p' : ℕ) (x : Place) → role p' ≡ some x → P p' x)
      → ((x : Place) → P q x)
      → (p' : ℕ) (x : Place) → grown_role role r l v i q p' ≡ some x
      → P p' x
  by_case P old new p' x at = elim (Bool-cases (p' == q)) [
    | inl e1 ↦ subst (λ a. P a x) (sym ((==_iff p' q).0 e1)) (new x)
    | inr e1 ↦ old p' x (rw e1 at at)
  ]

  -- The new table has its place, and every other table keeps its own.
  pub Tables-grown : Tables (grown m p i q e) (grown_role role r l v i q)
  Tables-grown = record {
    aligned = by_case (λ a x. a % pgsize ≡ 0) g.tables.aligned (λ x. g.aligned);
    low = by_case (λ a x. dram_base ≤ a) g.tables.low (λ x. g.low);
    high = by_case (λ a x. a + pgsize ≤ phys_top) g.tables.high (λ x. g.high);
    child = grown_child;
  }

  fresh_leaf : (k va : ℕ) → leaf (grown m p i q e) k q va ≡ 0
  fresh_leaf zero va = fresh_word (px 0 va) (px-lt 0 va)
  fresh_leaf (suc k) va = rw (fresh_word (px (suc k) va) (px-lt (suc k) va))

  -- Every page of every address space has the entry that it had.
  pub leaf-grown :
      (r' k pt va : ℕ)
      → k ≤ 2
      → role pt ≡ some (place r' k (prefix (suc k) va))
      → leaf (grown m p i q e) k pt va ≡ leaf m k pt va
  leaf-grown r' zero pt va h at = old_word pt (px 0 va) at (px-lt 0 va) differ
    where
      differ : slot pt (px 0 va) ≢ slot p i
      differ same =
          let ep = (same_slot pt (px 0 va) at (px-lt 0 va) same).0 in
          let places : some (place r' 0 (prefix 1 va)) ≡ some (place r (suc l) v) =
            sym at ∙ (ap role ep ∙ g.parent) in
          ground (arith, places)
  leaf-grown r' (suc k) pt va h at = elim (Bool-cases (slot pt (px (suc k) va) == slot p i)) [
    | inl e1 ↦
        let same : slot pt (px (suc k) va) ≡ slot p i = (==_iff _ _).0 e1 in
        let word : grown m p i q e (slot pt (px (suc k) va)) ≡ e =
          ap (grown m p i q e) same ∙ new_entry in
        let before : has_bit (m (slot pt (px (suc k) va))) 0 ≡ false =
          ap (λ a. has_bit (m a) 0) same ∙ g.unused in
        rw (word, g.valid, g.target, before) (fresh_leaf k va)
    | inr e1 ↦
        let word =
          old_word pt (px (suc k) va) at (px-lt (suc k) va) (λ same. ground (arith, same, e1)) in
        rw word (
          old_leaf (λ a. leaf-grown r' k a va (omega arith))
            (Bool-cases (has_bit (m (slot pt (px (suc k) va))) 0)))
  ]
    where
      old_leaf :
          ((a : ℕ)
            → role a ≡ some (place r' k (prefix (suc k) va))
            → leaf (grown m p i q e) k a va ≡ leaf m k a va)
          → (has_bit (m (slot pt (px (suc k) va))) 0 ≡ true)
            ⊎ (has_bit (m (slot pt (px (suc k) va))) 0 ≡ false)
          → (if has_bit (m (slot pt (px (suc k) va))) 0
              then leaf (grown m p i q e) k (pte_to_pa (m (slot pt (px (suc k) va)))) va
              else 0)
            ≡ leaf m (suc k) pt va
      old_leaf next (inl valid) = rw valid (
          next (pte_to_pa (m (slot pt (px (suc k) va))))
            (child_on_way g.tables r' k pt va (omega arith) at valid))
      old_leaf next (inr not_valid) = rw not_valid
