-- ===== src/Vmm/Map.antt =====
-- `map_pages` and `user_vm_map` of kernel/vmm.c.
mod Stored
mod Range
mod Step
pub use Stored.*
pub use Range.*
pub use Step.*
use testcode.Base.{
  ℕ, zero, suc, ◌+◌, ◌-◌, ◌*◌, ◌/◌, ◌%◌, ◌^◌, ◌≤◌, ◌<◌, ◌≡◌, ◌≢◌, refl, sym, ap, ◌∙◌, inl, inr,
  none, some, Bool, true, false, ◌&&◌, List, length, mem, All-mem, arith, update, update_ne,
  if◌then◌else◌, ◌==◌, ltb, leb, Bool-cases, ==_iff, leb→le, ltb-false, lt→ltb,
}
use mathlib.Core.Option.{none-ne-some}
use testcode.Base.Bits.{has_bit}
use testcode.Machine.{Kernel, max_va}
use testcode.Machine.Returns
use testcode.Machine.Returns.{Returns, returns}
use testcode.Machine.Word.{pgsize, round_down, add64}
use testcode.Pmm.FreeList.{IsPage, Chain-update}
use testcode.Vmm.{px, map_loop, map_pages, user_vm_map, last_page}
use testcode.Vmm.Entry.{leaf_entry}
use testcode.Vmm.Lookup.{walk_entry}
use testcode.Vmm.Owner.{same_pages}
use testcode.Vmm.Space.{Space, load_ok, store_ok}
use testcode.Vmm.Tables.{
  Role, Keeps, none_before, place, IsRoot, slot, walk_to, leaf, walk_to-place, root_on_way,
  walk_to-leaf, px-lt,
}
use testcode.Vmm.Tables.Store.{same_page, Tables-store, leaf-store}
use testcode.Vmm.Walk.{Walked, page_walk-Walked}

-- The loop maps `k` pages, given enough free pages and rounds.
map_loop-Mapped :
    (n pd first last pa perm k : ℕ) (s : Kernel) (role : Role) (xs : List ℕ)
    → Space s role xs
    → IsRoot role pd
    → first % 4096 ≡ 0
    → first + k * 4096 ≡ last + 4096
    → last < max_va
    → pa + k * 4096 < 2 ^ 56
    → PageFree s pd first k
    → 2 * k ≤ length xs
    → k < n
    → Returns
        (λ ret s'. (ret ≡ 0) × Mapped s role xs pd first k pa perm s')
        (map_loop n pd first last pa perm s)
unfolding map_loop
map_loop-Mapped zero pd first last pa perm k s role xs sp at al e h small unused enough fuel =
    absurd (omega arith)
map_loop-Mapped (suc n) pd first last pa perm zero s role xs sp at al e h small unused enough fuel =
    let over : ltb last first ≡ true = lt→ltb last first (omega arith) in
    rw over (
      returns (
        refl,
        record {
          role' = role;
          rest = xs;
          space = sp;
          keeps = λ p x at'. at';
          leaves = λ r va' at' h'.
              mapped_none (λ p. leaf_entry p perm) (r == pd) (va' / 4096) (first / 4096) pa
                (leaf s.mem 2 r va');
          frame = λ b out. refl;
          used = omega arith;
          outside = λ p o. o;
          owners = λ i. same_pages (s.procs i);
          start = refl;
          end = refl;
        },
      ))
map_loop-Mapped (suc n) pd first last pa perm (suc k) s role xs sp at al e h small unused enough
      fuel =
    let under : ltb last first ≡ false = ltb-false last first (omega arith) in
    rw under (
      Returns.bind (page_walk-Walked pd first s role xs sp at (omega arith)) λ a s1 w.
        elim (w.found) [
          | inl way ↦
              let start : first < max_va = omega arith in
              let at1 = root_kept pd first k a 0 at start w way unused in
              let (ne, ram) = walk_entry w.space.tables pd first at1 a start way in
              let nonzero : (a == 0) ≡ false = ground (arith, ne) in
              let wrap : add64 first 4096 ≡ first + 4096 = omega arith in
              let wrap' : add64 pa 4096 ≡ pa + 4096 = omega arith in
              rw
                (
                  nonzero,
                  load_ok a s1 ram,
                  entry_unused pd first k a 0 at start w way unused,
                  store_ok a (leaf_entry pa perm) s1 ram,
                  wrap,
                  wrap',
                )
                (Returns.mono
                  (map_loop-Mapped n pd (first + 4096) last (pa + 4096) perm k
                    (stored w.space pd first a (leaf_entry pa perm) at1 start way) w.role' w.rest
                    (Space-stored w.space pd first a (leaf_entry pa perm) at1 start way) at1
                    (omega arith) (omega arith) h (omega arith)
                    (rest_unused pd first k a (leaf_entry pa perm) at start w way unused al
                      (omega arith))
                    (omega (arith, w.used)) (omega arith))
                  (Mapped-cons pd first k pa perm a at start al w way))
          | inr (z, few) ↦ absurd (omega arith)
        ])

-- The number of pages that the bytes `[va, va + size)` touch.
abbrev pub page_span : (va size : ℕ) → ℕ
page_span va size = (va + size - 1) / 4096 - va / 4096 + 1

-- The request is in range: not empty, below MAXVA, to pages not in use, with tables to spare.
pub record CanMap (s : Kernel) (xs : List ℕ) (pd va size pa : ℕ) : Type 0 where
  pub some_bytes : 0 < size
  pub below : va + size ≤ max_va
  pub physical : pa + page_span va size * 4096 < 2 ^ 56
  pub unused :
      (va' : ℕ)
      → va / 4096 ≤ va' / 4096
      → va' / 4096 < va / 4096 + page_span va size
      → has_bit (leaf s.mem 2 pd va') 0 ≡ false
  pub enough : 2 * page_span va size ≤ length xs

module _ {s : Kernel} {role : Role} {xs : List ℕ} (pd va size pa perm : ℕ) (sp : Space s role xs)
    (at : IsRoot role pd) (can : CanMap s xs pd va size pa) where
  -- `map_pages` returns 0 and maps the pages of the range, nothing else changes.
  pub map_pages-Mapped :
      Returns
        (λ ret s'. (ret ≡ 0) × Mapped s role xs pd (round_down va) (page_span va size) pa perm s')
        (map_pages pd va size pa perm s)
  unfolding map_pages
  map_pages-Mapped =
      let c1 = can.some_bytes in
      let c2 = can.below in
      let same : round_down va / 4096 ≡ va / 4096 = omega arith in
      map_loop-Mapped ((last_page va size - round_down va) / pgsize + 2) pd (round_down va)
        (last_page va size) pa perm (page_span va size) s role xs sp at (omega arith) (omega arith)
        (omega arith) can.physical (λ va' lo hi. can.unused va' (omega arith) (omega arith))
        can.enough (omega arith)

  -- If page tables, free pages and other pages are apart, the directory is one of an address
  -- space, the range is not empty and lies below MAXVA, its frames end below 2^56, none of its
  -- pages is mapped, and two free pages are left for each page of it, then `user_vm_map` returns,
  -- without a panic or a fault: each page of the range has an entry for its frame with the given
  -- flags, every other page of every address space keeps its entry, words outside the tables keep
  -- their values, and free pages, tables and other pages are apart again.
  pub user_vm_map-Mapped :
      Returns
        (λ _. Mapped s role xs pd (round_down va) (page_span va size) pa perm)
        (user_vm_map pd va size pa perm s)
  unfolding user_vm_map
  user_vm_map-Mapped = Returns.bind map_pages-Mapped λ ret s' (z, d). rw z (returns d)
