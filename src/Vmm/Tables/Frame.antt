-- ===== src/Vmm/Tables/Frame.antt =====
-- Changes of memory that leave the upper tables alone.
use testcode.Base.{
  ℕ, zero, suc, ◌/◌, ◌≤◌, ◌<◌, ◌≡◌, refl, sym, ◌∙◌, ◌≢◌, inl, inr, some, arith, update, Bool-cases,
  update_ne, ap,
}
use testcode.Base.Bits.{has_bit}
use testcode.Machine.{max_va}
use testcode.Vmm.{pte_to_pa, px}
use testcode.Vmm.Tables.{
  Role, place, Tables, slot, prefix, walk_to, walk_to-place, root_on_way, slot-ne, px-lt,
  child_on_way,
}

-- `m'` agrees with `m` on the tables above level 0.
abbrev pub SameUpper : Role → (ℕ → ℕ) → (ℕ → ℕ) → Type 0
SameUpper role m m' =
    (p r l v i : ℕ) → role p ≡ some (place r (suc l) v) → i < 512 → m' (slot p i) ≡ m (slot p i)

module _ {m : ℕ → ℕ} {role : Role} (t : Tables m role) (m' : ℕ → ℕ)
    (same : SameUpper role m m') where
  pub Tables-frame : Tables m' role
  Tables-frame = record {
    aligned = t.aligned;
    low = t.low;
    high = t.high;
    child = λ p r l v i at h valid.
        rw (same p r l v i at h) (t.child p r l v i at h (rw (same p r l v i at h) at valid));
  }

  pub walk_to-frame :
      (r l pt va : ℕ)
      → l ≤ 2
      → role pt ≡ some (place r l (prefix (suc l) va))
      → walk_to m' l pt va ≡ walk_to m l pt va
  walk_to-frame r zero pt va h at = refl
  walk_to-frame r (suc l) pt va h at =
      rw (same pt r l _ (px (suc l) va) at (px-lt (suc l) va))
        (elim (Bool-cases (has_bit (m (slot pt (px (suc l) va))) 0)) [
          | inl valid ↦ rw valid (
              walk_to-frame r l (pte_to_pa (m (slot pt (px (suc l) va)))) va (omega arith)
                (child_on_way t r l pt va (omega arith) at valid))
          | inr not_valid ↦ rw not_valid
        ])

-- A store to a table at level 0 leaves the upper tables alone.
pub leaf_store-SameUpper :
    {m : ℕ → ℕ} {role : Role} {r v : ℕ} (p i e : ℕ)
    → Tables m role
    → role p ≡ some (place r 0 v)
    → i < 512
    → SameUpper role m (update m (slot p i) e)
leaf_store-SameUpper {m} {role} p i e t at h q r' l v' j at' h' =
    update_ne m e (slot-ne (t.aligned p _ at) (t.aligned q _ at') h h' (inl distinct))
  where
    distinct : p ≢ q
    distinct same = ground (arith, ap role same)

module _ {m : ℕ → ℕ} {role : Role} (t : Tables m role) where
  -- Only the page of `va` in the space of `pd` has the entry that a walk for it ends at.
  pub walk_to-injective :
      (pd va r va' a : ℕ)
      → role pd ≡ some (place pd 2 0)
      → role r ≡ some (place r 2 0)
      → va < max_va
      → va' < max_va
      → walk_to m 2 pd va ≡ some a
      → walk_to m 2 r va' ≡ some a
      → (r ≡ pd) × (va' / 4096 ≡ va / 4096)
  walk_to-injective pd va r va' a at at' h h' e e' =
      let (p, rp, ep) = walk_to-place t pd 2 pd va (omega arith) (root_on_way role pd va h at) e in
      let (p', rp', ep') =
        walk_to-place t r 2 r va' (omega arith) (root_on_way role r va' h' at') e' in
      same_slot p p' rp rp' (sym ep ∙ ep')
    where
      same_slot :
          (p p' : ℕ)
          → role p ≡ some (place pd 0 (prefix 1 va))
          → role p' ≡ some (place r 0 (prefix 1 va'))
          → slot p (px 0 va) ≡ slot p' (px 0 va')
          → (r ≡ pd) × (va' / 4096 ≡ va / 4096)
      same_slot p p' rp rp' es =
          let same : p ≡ p' = omega (arith, t.aligned p _ rp, t.aligned p' _ rp') in
          let both : some (place pd 0 (prefix 1 va)) ≡ some (place r 0 (prefix 1 va')) =
            sym rp ∙ (ap role same ∙ rp') in
          (ground (arith, both), ground (arith, both, es, same))
