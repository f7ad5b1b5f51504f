-- ===== src/Vmm/Space.antt =====
-- The memory of the running kernel: free pages, table pages and all other pages are apart.
use testcode.Base.{
  ℕ, zero, suc, ◌≤◌, ◌<◌, ◌≡◌, Option, none, some, Bool, true, false, List, arith, mem,
}
use testcode.Base.Bits.{has_bit}
use testcode.Machine.{Kernel, ok, in_ram, load, store, max_va}
use testcode.Pmm.FreeList.{IsFree}
use testcode.Vmm.{pte_to_pa, px, entry, walk_step, walk, page_walk}
use testcode.Vmm.Tables.{
  Role, Place, place, Tables, IsRoot, slot, prefix, walk_to, child_on_way, root_on_way, px-lt,
}
use testcode.Base.{Bool-cases, inl, inr, update}

-- `role` gives the table pages, `xs` the free ones.
pub record Space (s : Kernel) (role : Role) (xs : List ℕ) : Type 0 where
  pub free : IsFree s xs
  pub tables : Tables s.mem role
  pub apart : (p : ℕ) → mem p xs ≡ true → role p ≡ none

-- The page `p` is no table and not free.
abbrev pub Outside : Role → List ℕ → (p : ℕ) → Type 0
Outside role xs p = (role p ≡ none) × (mem p xs ≡ false)

module _ {m : ℕ → ℕ} {role : Role} (t : Tables m role) (pt : ℕ) {x : Place}
    (at : role pt ≡ some x) where
  pub entry-slot : (l va : ℕ) → entry l pt va ≡ slot pt (px l va)
  entry-slot l va = omega (arith, t.high pt x at, px-lt l va)

  pub slot-in_ram : (i : ℕ) → i < 512 → in_ram (slot pt i) ≡ true
  slot-in_ram i h = ground (arith, t.high pt x at, t.low pt x at, t.aligned pt x at)

pub load_ok : (a : ℕ) (s : Kernel) → in_ram a ≡ true → load a s ≡ ok (s.mem a) s
unfolding load
load_ok a s h = rw h

pub store_ok :
    (a v : ℕ) (s : Kernel)
    → in_ram a ≡ true
    → store a v s ≡ ok tt (record s { mem = update s.mem a v })
unfolding store
store_ok a v s h = rw h

-- A null pointer for `none`.
abbrev pub address : Option ℕ → ℕ
address none = 0
address (some a) = a

module _ {s : Kernel} {role : Role} (t : Tables s.mem role) where
  pub walk_step_valid :
      (alloc : Bool) (l pt va : ℕ) {x : Place}
      → role pt ≡ some x
      → has_bit (s.mem (slot pt (px l va))) 0 ≡ true
      → walk_step alloc l pt va s ≡ ok (some (pte_to_pa (s.mem (slot pt (px l va))))) s
  unfolding walk_step
  walk_step_valid alloc l pt va at valid =
      rw (entry-slot t pt at l va, slot-in_ram t pt at (px l va) (px-lt l va), valid)

  walk_step_absent :
      (l pt va : ℕ) {x : Place}
      → role pt ≡ some x
      → has_bit (s.mem (slot pt (px l va))) 0 ≡ false
      → walk_step false l pt va s ≡ ok none s
  unfolding walk_step
  walk_step_absent l pt va at absent =
      rw (entry-slot t pt at l va, slot-in_ram t pt at (px l va) (px-lt l va), absent)

  walk-walk_to :
      (r l pt va : ℕ)
      → l ≤ 2
      → role pt ≡ some (place r l (prefix (suc l) va))
      → walk false l pt va s ≡ ok (address (walk_to s.mem l pt va)) s
  unfolding walk
  walk-walk_to r zero pt va h at = rw (entry-slot t pt at 0 va)
  walk-walk_to r (suc l) pt va h at =
      elim (Bool-cases (has_bit (s.mem (slot pt (px (suc l) va))) 0)) [
        | inl valid ↦
            rw (walk_step_valid false (suc l) pt va at valid, valid)
              (walk-walk_to r l (pte_to_pa (s.mem (slot pt (px (suc l) va)))) va (omega arith)
                (child_on_way t r l pt va (omega arith) at valid))
        | inr absent ↦ rw (walk_step_absent (suc l) pt va at absent, absent)
      ]

  -- `page_walk` with `alloc == 0` finds the entry and changes nothing.
  pub page_walk-walk_to :
      (pd va : ℕ)
      → IsRoot role pd
      → va < max_va
      → page_walk pd va false s ≡ ok (address (walk_to s.mem 2 pd va)) s
  unfolding page_walk
  page_walk-walk_to pd va at h =
      ground (arith, walk-walk_to pd 2 pd va (omega arith) (root_on_way role pd va h at))
