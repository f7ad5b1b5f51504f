-- ===== src/Vmm/Map/Stored.antt =====
-- A store to the entry of a page.
use testcode.Base.{
  ℕ, ◌/◌, ◌<◌, ◌≡◌, ◌≢◌, refl, sym, ap, ◌∙◌, inl, inr, none, some, false, List, mem, All-mem, arith,
  update, Bool-cases,
}
use mathlib.Core.Option.{none-ne-some}
use testcode.Machine.{Kernel, max_va}
use testcode.Machine.Word.{round_down}
use testcode.Pmm.FreeList.{IsPage, Chain-update}
use testcode.Vmm.{px}
use testcode.Vmm.Space.{Space}
use testcode.Vmm.Tables.{Role, place, IsRoot, slot, walk_to, walk_to-place, root_on_way, px-lt}
use testcode.Vmm.Tables.Store.{Tables-store}

-- A store to the entry of `va` keeps free pages and tables apart.
module _ {s : Kernel} {role : Role} {xs : List ℕ} (sp : Space s role xs) (pd va a e : ℕ)
    (at : IsRoot role pd) (h : va < max_va) (way : walk_to s.mem 2 pd va ≡ some a) where
  abbrev pub stored : Kernel
  stored = record s { mem = update s.mem a e }

  entry_place : (p : ℕ) × (role p ≡ some (place pd 0 (va / 4096 / 512))) × (a ≡ slot p (px 0 va))
  entry_place = walk_to-place sp.tables pd 2 pd va (omega arith) (root_on_way role pd va h at) way

  -- The entry lies in a table page.
  pub entry_in_table : (b : ℕ) → role (round_down b) ≡ none → a ≢ b
  entry_in_table b out same =
      let (p, rp, ea) = entry_place in
      let home : round_down b ≡ p = omega (arith, same, ea, sp.tables.aligned p _ rp, px-lt 0 va) in
      none-ne-some _ (sym out ∙ (ap role home ∙ rp))

  not_free : mem a xs ≡ false
  not_free = elim (Bool-cases (mem a xs)) [
    | inl i ↦
        let page : round_down a ≡ a = omega (arith, (All-mem (IsPage s) a xs sp.free.pages i).0) in
        absurd (entry_in_table a (ap role page ∙ sp.apart a i) refl)
    | inr o ↦ o
  ]

  pub Space-stored : Space stored role xs
  Space-stored = record {
    free = record {
      from_dram = sp.free.from_dram;
      to_top = sp.free.to_top;
      chain = Chain-update s.mem s.free_list a e xs not_free sp.free.chain;
      distinct = sp.free.distinct;
      pages = sp.free.pages;
    };
    tables = Tables-store sp.tables pd va a e at h way;
    apart = sp.apart;
  }
