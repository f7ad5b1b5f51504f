-- ===== src/Vmm/Tables.antt =====
-- What the words of memory mean as page tables: every table page has one place in one address
-- space, so address spaces share no table.
pub mod Frame
pub mod Grow
pub mod Store
use testcode.Base.{
  ℕ, zero, suc, ◌+◌, ◌*◌, ◌/◌, ◌%◌, ◌^◌, ◌≤◌, ◌<◌, ◌≡◌, refl, sym, ap, ◌∙◌, ◌≢◌, ◌⊎◌, inl, inr,
  Option, none, some, Bool, true, false, arith, update, if◌then◌else◌, ◌==◌, bit_or, Bool-cases,
  Option-cases,
}
use mathlib.Core.Option.{none-ne-some}
use testcode.Base.Bits.{has_bit}
use testcode.Machine.{dram_base, phys_top, max_va}
use testcode.Machine.Memory.{filled, filled_inside, filled_outside}
use testcode.Machine.Word.{add64, pgsize}
use testcode.Vmm.{pte_to_pa, px, entry}

-- The place of a table: the address space by its directory, the level, and the number of the first
-- page that it maps, in units of its span.
pub record Place : Type 0 where
  pub root : ℕ
  pub level : ℕ
  pub prefix : ℕ

abbrev pub place : ℕ → ℕ → ℕ → Place
place r l v = record { root = r; level = l; prefix = v }

-- The table pages, each with its place.
abbrev pub Role : Type 0
Role = ℕ → Option Place

-- Every table of `role` is one of `role'`, at the same place.
abbrev pub Keeps : Role → Role → Type 0
Keeps role role' = (p : ℕ) (x : Place) → role p ≡ some x → role' p ≡ some x

pub none_before : (role role' : Role) → Keeps role role' → (p : ℕ) → role' p ≡ none → role p ≡ none
none_before role role' keeps p out = elim (Option-cases (role p)) [
  | inl e ↦ e
  | inr (x, e) ↦ absurd (none-ne-some x (sym out ∙ keeps p x e))
]

-- The number of the page of `va`, and of the spans of the tables above it.
abbrev pub prefix : ℕ → ℕ → ℕ
prefix zero va = va / 4096
prefix (suc l) va = prefix l va / 512

-- The address of the word `i` of a table.
abbrev pub slot : ℕ → ℕ → ℕ
slot p i = p + 8 * i

pub record Tables (m : ℕ → ℕ) (role : Role) : Type 0 where
  pub aligned : (p : ℕ) (x : Place) → role p ≡ some x → p % pgsize ≡ 0
  pub low : (p : ℕ) (x : Place) → role p ≡ some x → dram_base ≤ p
  pub high : (p : ℕ) (x : Place) → role p ≡ some x → p + pgsize ≤ phys_top
  pub child :
      (p r l v i : ℕ)
      → role p ≡ some (place r (suc l) v)
      → i < 512
      → has_bit (m (slot p i)) 0 ≡ true
      → role (pte_to_pa (m (slot p i))) ≡ some (place r l (v * 512 + i))

-- `pd` is the directory of an address space.
abbrev pub IsRoot : Role → ℕ → Type 0
IsRoot role pd = role pd ≡ some (place pd 2 0)

-- The address of the entry of `va` in the tables below `pt`, if they reach it.
abbrev pub walk_to : (ℕ → ℕ) → (level pt va : ℕ) → Option ℕ
walk_to m zero pt va = some (slot pt (px 0 va))
walk_to m (suc l) pt va =
    if has_bit (m (slot pt (px (suc l) va))) 0
    then walk_to m l (pte_to_pa (m (slot pt (px (suc l) va)))) va
    else none

-- The entry of `va`, 0 where the tables do not reach it.
abbrev pub leaf : (ℕ → ℕ) → (level pt va : ℕ) → ℕ
leaf m zero pt va = m (slot pt (px 0 va))
leaf m (suc l) pt va =
    if has_bit (m (slot pt (px (suc l) va))) 0
    then leaf m l (pte_to_pa (m (slot pt (px (suc l) va)))) va
    else 0

pub px-prefix : (l va : ℕ) → l ≤ 2 → px l va ≡ prefix l va % 512
px-prefix zero va h = refl
px-prefix (suc zero) va h = omega arith
px-prefix (suc (suc zero)) va h = omega arith
px-prefix (suc (suc (suc l))) va h = absurd (omega arith)

pub prefix_step : (l va : ℕ) → l ≤ 2 → prefix (suc l) va * 512 + px l va ≡ prefix l va
prefix_step l va h = rw (px-prefix l va h) (omega arith)

pub prefix_root : (va : ℕ) → va < max_va → prefix 3 va ≡ 0
prefix_root va h = omega arith

pub root_on_way :
    (role : Role) (pd va : ℕ)
    → va < max_va
    → IsRoot role pd
    → role pd ≡ some (place pd 2 (prefix 3 va))
root_on_way role pd va h at = at ∙ ap (λ v. some (place pd 2 v)) (sym (prefix_root va h))

pub px-lt : (l va : ℕ) → px l va < 512
px-lt l va = omega arith

-- Words of different pages, or of different places of one page, are different.
pub slot-ne :
    {p q i j : ℕ}
    → p % pgsize ≡ 0
    → q % pgsize ≡ 0
    → i < 512
    → j < 512
    → (p ≢ q) ⊎ (i ≢ j)
    → slot p i ≢ slot q j
slot-ne ap aq hi hj (inl ne) = omega arith
slot-ne ap aq hi hj (inr ne) = omega arith

module _ {m : ℕ → ℕ} {role : Role} (t : Tables m role) where
  -- The table below one that lies on the way to `va` lies on the way too.
  pub child_on_way :
      (r l pt va : ℕ)
      → l ≤ 1
      → role pt ≡ some (place r (suc l) (prefix (suc (suc l)) va))
      → has_bit (m (slot pt (px (suc l) va))) 0 ≡ true
      → role (pte_to_pa (m (slot pt (px (suc l) va)))) ≡ some (place r l (prefix (suc l) va))
  child_on_way r l pt va h at valid =
      rw (prefix_step (suc l) va (omega arith)) at
        (t.child pt r l (prefix (suc (suc l)) va) (px (suc l) va) at (px-lt (suc l) va) valid)

  -- The entry that a walk ends at lies in a table at level 0 that stands for the pages of `va`.
  pub walk_to-place :
      (r l pt va : ℕ) {a : ℕ}
      → l ≤ 2
      → role pt ≡ some (place r l (prefix (suc l) va))
      → walk_to m l pt va ≡ some a
      → (p : ℕ) × (role p ≡ some (place r 0 (prefix 1 va))) × (a ≡ slot p (px 0 va))
  walk_to-place r zero pt va h at e = (pt, at, cc)
  walk_to-place r (suc l) pt va h at e =
      elim (Bool-cases (has_bit (m (slot pt (px (suc l) va))) 0)) [
        | inl valid ↦
            walk_to-place r l (pte_to_pa (m (slot pt (px (suc l) va)))) va (omega arith)
              (child_on_way r l pt va (omega arith) at valid) (rw valid at e)
        | inr not_valid ↦ absurd (none-ne-some _ (rw not_valid at e))
      ]

pub walk_to-leaf : (m : ℕ → ℕ) (l pt va a : ℕ) → walk_to m l pt va ≡ some a → leaf m l pt va ≡ m a
walk_to-leaf m zero pt va a e = ground arith
walk_to-leaf m (suc l) pt va a e =
    ground (arith, walk_to-leaf m l (pte_to_pa (m (slot pt (px (suc l) va)))) va a)

pub walk_to-none : (m : ℕ → ℕ) (l pt va : ℕ) → walk_to m l pt va ≡ none → leaf m l pt va ≡ 0
walk_to-none m zero pt va e = cc
walk_to-none m (suc l) pt va e =
    ground (arith, walk_to-none m l (pte_to_pa (m (slot pt (px (suc l) va)))) va)
