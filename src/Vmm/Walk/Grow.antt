-- ===== src/Vmm/Walk/Grow.antt =====
-- One round of `page_walk` that adds a table, or finds no page for it.
use testcode.Base.{
  ℕ, suc, ◌+◌, ◌%◌, ◌≤◌, ◌≡◌, ◌≢◌, refl, sym, ap, ◌∙◌, none, some, true, false, List, [], ◌∷◌, mem,
  arith, update, update_ne, update_self, All-mem, ◌==◌, mem-head, mem-tail, ne_of_mem,
}
use mathlib.Core.Bool.{true≢false}
use mathlib.Core.Option.{none-ne-some}
use testcode.Base.Bits.{has_bit}
use testcode.Machine.{Kernel, ok, phys_top, dram_base}
use testcode.Machine.Memory.{filled, filled_outside, clear_page_lem}
use testcode.Machine.Word.{pgsize, round_down, add32}
use testcode.Pmm.{count_page}
use testcode.Pmm.FreeList.{IsPage, Chain-frame, taken, alloc_page-IsFree, alloc_page_empty}
use testcode.Vmm.{px, walk_step}
use testcode.Vmm.Entry.{table_entry, table_entry_target, table_entry_valid}
use testcode.Vmm.Owner.{SameOwners-count}
use testcode.Vmm.Space.{Space, Outside, entry-slot, slot-in_ram}
use testcode.Vmm.Tables.{Role, Place, place, slot, prefix, root_on_way, px-lt, prefix_step}
use testcode.Vmm.Tables.Grow.{Growth, grown_role, Tables-grown, leaf-grown, old_role, old_word}
use testcode.Vmm.Walk.Change.{Extends}

-- The state after a round of the loop that hangs the free page `q` below the entry `a`.
abbrev hung : (q a : ℕ) → Kernel → Kernel
hung q a s = record (taken q s) { mem = update (filled 512 q 0 s.mem) a (table_entry q) }

-- A round of the loop at an invalid entry, when the page `q` heads the free list.
module _ {s : Kernel} {role : Role} {q : ℕ} {rest : List ℕ} (sp : Space s role (q ∷ rest))
    (r l pt va : ℕ) (small : l ≤ 1)
    (at : role pt ≡ some (place r (suc l) (prefix (suc (suc l)) va)))
    (absent : has_bit (s.mem (slot pt (px (suc l) va))) 0 ≡ false) where
  pub q_page : (q % pgsize ≡ 0) × (dram_base ≤ q) × (q + pgsize ≤ phys_top)
  q_page =
      let (al, low, high) = sp.free.pages.0 in
      let a = sp.free.from_dram in let b = sp.free.to_top in (al, omega arith, omega arith)

  growth : Growth s.mem role r l (prefix (suc (suc l)) va) pt (px (suc l) va) q (table_entry q)
  growth = record {
    tables = sp.tables;
    parent = at;
    index = px-lt (suc l) va;
    unused = absent;
    fresh = sp.apart q (mem-head q rest);
    aligned = q_page.0;
    low = q_page.1;
    high = q_page.2;
    target = table_entry_target q q_page.0 (omega (arith, q_page));
    valid = table_entry_valid q;
  }

  abbrev pub after : Kernel
  after = hung q (slot pt (px (suc l) va)) s

  abbrev pub role_after : Role
  role_after = grown_role role r l (prefix (suc (suc l)) va) (px (suc l) va) q

  pub walk_step_grow : walk_step true (suc l) pt va s ≡ ok (some q) after
  unfolding walk_step
  walk_step_grow =
      let nonzero : (q == 0) ≡ false = ground (arith, q_page) in
      let ram = slot-in_ram sp.tables pt at (px (suc l) va) (px-lt (suc l) va) in
      let cleared = clear_page_lem q (taken q s) q_page.0 q_page.1 q_page.2 in
      rw (
        entry-slot sp.tables pt at (suc l) va,
        ram,
        absent,
        (alloc_page-IsFree sp.free).0,
        nonzero,
        cleared,
        ram,
      )

  -- A word outside the new table and outside the other tables.
  other_word : (b : ℕ) → round_down b ≢ q → role (round_down b) ≡ none → after.mem b ≡ s.mem b
  other_word b ne out =
      update_ne (filled 512 q 0 s.mem) (table_entry q) elsewhere
      ∙ filled_outside 512 q 0 s.mem b (omega (arith, q_page))
    where
      elsewhere : slot pt (px (suc l) va) ≢ b
      elsewhere same =
          let home : round_down b ≡ pt =
            omega (arith, same, sp.tables.aligned pt _ at, px-lt (suc l) va) in
          none-ne-some _ (sym out ∙ (ap role home ∙ at))

  free_word : (x : ℕ) → mem x rest ≡ true → after.mem x ≡ s.mem x
  free_word x i =
      let page : round_down x ≡ x =
        omega (arith, (All-mem (IsPage s) x rest sp.free.pages.1 i).0) in
      other_word x (λ same. ne_of_mem x q rest i sp.free.distinct.0 (sym page ∙ same))
        (ap role page ∙ sp.apart x (mem-tail x q rest i))

  pub Space-after : Space after role_after rest
  Space-after = record {
    free = record {
      from_dram = sp.free.from_dram;
      to_top = sp.free.to_top;
      chain = Chain-frame s.mem after.mem (s.mem q) rest free_word sp.free.chain.1;
      distinct = sp.free.distinct.1;
      pages = sp.free.pages.1;
    };
    tables = Tables-grown growth;
    apart = λ p i.
        update_ne role _ (λ same. ne_of_mem p q rest i sp.free.distinct.0 (sym same))
        ∙ sp.apart p (mem-tail p q rest i);
  }

  pub Extends-after : Extends s role after role_after
  Extends-after = record {
    keeps = λ p x at'. old_role growth p at';
    same_leaf = λ r' va' at' h'.
        leaf-grown growth r' 2 r' va' (omega arith) (root_on_way role r' va' h' at');
    stays = λ p i x at' h' valid.
        old_word growth p i at' h'
          (λ same. true≢false (sym valid ∙ (ap (λ a. has_bit (s.mem a) 0) same ∙ absent)));
    frame = λ b out.
        other_word b
          (λ same. none-ne-some _ (sym out ∙ (ap role_after same ∙ update_self role q _)))
          (ground (arith, out));
    owners = SameOwners-count (λ c. add32 c 1) s;
    start = refl;
    end = refl;
  }

  -- Only the page `q` became a table.
  pub others_stay : (p : ℕ) → Outside role (q ∷ rest) p → Outside role_after rest p
  others_stay p (none_here, unlisted) =
      let ne : q ≢ p = ground (arith, unlisted) in
      (update_ne role _ ne ∙ none_here, ground (arith, unlisted))

  pub role_q : role_after q ≡ some (place r l (prefix (suc l) va))
  role_q =
      update_self role q _ ∙ ap (λ v. some (place r l v)) (prefix_step (suc l) va (omega arith))

-- `walk` stops short: no page is left.
module _ {s : Kernel} {role : Role} (sp : Space s role []) where
  abbrev pub counted : Kernel
  counted = count_page (λ c. add32 c 1) s

  pub walk_step_empty :
      (l pt va : ℕ) {x : Place}
      → role pt ≡ some x
      → has_bit (s.mem (slot pt (px l va))) 0 ≡ false
      → walk_step true l pt va s ≡ ok none counted
  unfolding walk_step
  walk_step_empty l pt va at absent = rw (
    entry-slot sp.tables pt at l va,
    slot-in_ram sp.tables pt at (px l va) (px-lt l va),
    absent,
    alloc_page_empty sp.free,
  )

  pub Space-counted : Space counted role []
  Space-counted = record {
    free = record {
      from_dram = sp.free.from_dram;
      to_top = sp.free.to_top;
      chain = sp.free.chain;
      distinct = tt;
      pages = tt;
    };
    tables = sp.tables;
    apart = sp.apart;
  }
