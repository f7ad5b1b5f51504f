-- ===== src/Vmm/Unmap/Clear.antt =====
-- One round of `user_vm_unmap`: an entry is cleared, and its frame freed or kept.
use testcode.Base.{
  ℕ, ◌+◌, ◌≤◌, ◌<◌, ◌≡◌, ◌≢◌, refl, sym, ap, ◌∙◌, Option, none, some, Bool, true, false, List, ◌∷◌,
  arith, update, update_ne, if◌then◌else◌, ◌==◌,
}
use mathlib.Core.Bool.{false≢true}
use testcode.Base.Bits.{has_bit}
use testcode.Machine.{Kernel, ok, in_ram, max_va}
use testcode.Machine.Word.{round_down}
use testcode.Pmm.{free_page}
use testcode.Pmm.FreeList.{released, free_page-IsFree}
use testcode.Vmm.{pte_to_pa, pte_flags, page_walk, unmap_page}
use testcode.Vmm.Lookup.{walk_entry}
use testcode.Vmm.Map.{Space-stored, entry_in_table}
use testcode.Vmm.Space.{Space, address, load_ok, page_walk-walk_to}
use testcode.Vmm.Tables.{Role, IsRoot, walk_to, leaf, walk_to-leaf, walk_to-none}
use testcode.Vmm.Tables.Store.{same_page, leaf-store}
use testcode.Vmm.Unmap.Release.{IsFrame, Space-released, walk_to-released, leaf-released}

-- The entry `e` maps a page: it is valid and a leaf.
abbrev pub IsLeaf : ℕ → Type 0
IsLeaf e = (has_bit e 0 ≡ true) × (pte_flags e ≢ 1)

-- A page that is mapped has an entry to walk to.
pub way_of_leaf :
    (m : ℕ → ℕ) (pd va : ℕ)
    → has_bit (leaf m 2 pd va) 0 ≡ true
    → (a : ℕ) × (walk_to m 2 pd va ≡ some a)
way_of_leaf m pd va valid = by_way (walk_to m 2 pd va) refl
  where
    by_way : (w : Option ℕ) → walk_to m 2 pd va ≡ w → (a : ℕ) × (walk_to m 2 pd va ≡ some a)
    by_way none w = absurd (false≢true (rw (walk_to-none m 2 pd va w) at valid))
    by_way (some a) w = (a, w)

-- The state in which `user_vm_unmap` clears an entry.
abbrev pub freed : Bool → ℕ → Kernel → Kernel
freed true p s = released p s
freed false p s = s

-- The free pages then.
abbrev pub pushed : Bool → ℕ → List ℕ → List ℕ
pushed true p xs = p ∷ xs
pushed false p xs = xs

abbrev pub MayFree : Bool → Kernel → Role → List ℕ → ℕ → Type 0
MayFree true s role xs p = IsFrame s role xs p
MayFree false s role xs p = Unit

-- The state once the entry at `a`, of the frame `p`, is cleared.
abbrev pub cleared : Bool → (p a : ℕ) → Kernel → Kernel
cleared free p a s = record (freed free p s) { mem = update (freed free p s).mem a 0 }

unmap_page_keeps :
    {s : Kernel} (pd va a e : ℕ)
    → page_walk pd va false s ≡ ok a s
    → a ≢ 0
    → in_ram a ≡ true
    → s.mem a ≡ e
    → IsLeaf e
    → unmap_page pd va false s ≡ ok tt (record s { mem = update s.mem a 0 })
unfolding unmap_page
unmap_page_keeps pd va a e found ne ram value is = ground arith

unmap_page_frees :
    {s : Kernel} (pd va a e : ℕ)
    → page_walk pd va false s ≡ ok a s
    → a ≢ 0
    → in_ram a ≡ true
    → s.mem a ≡ e
    → IsLeaf e
    → free_page (pte_to_pa e) s ≡ ok tt (released (pte_to_pa e) s)
    → unmap_page pd va true s
      ≡ ok tt
          (record (released (pte_to_pa e) s) { mem = update (released (pte_to_pa e) s).mem a 0 })
unfolding unmap_page
unmap_page_frees {s} pd va a e found ne ram value is step =
    let (valid, is_leaf) = is in
    let nonzero : (a == 0) ≡ false = ground arith in
    let flags : (pte_flags e == 1) ≡ false = ground arith in
    rw (found, nonzero, load_ok a s ram, value, valid, flags, step, ram)

module _ {s : Kernel} {role : Role} {xs : List ℕ} (sp : Space s role xs) (pd va : ℕ)
    (at : IsRoot role pd) (h : va < max_va) (is : IsLeaf (leaf s.mem 2 pd va)) (a : ℕ)
    (way : walk_to s.mem 2 pd va ≡ some a) where
  abbrev frame_of : ℕ
  frame_of = pte_to_pa (leaf s.mem 2 pd va)

  found : page_walk pd va false s ≡ ok a s
  found = page_walk-walk_to sp.tables pd va at h ∙ ap (λ w. ok (address w) s) way

  value : s.mem a ≡ leaf s.mem 2 pd va
  value = sym (walk_to-leaf s.mem 2 pd va a way)

  pub unmap_page-cleared :
      (free : Bool)
      → MayFree free s role xs frame_of
      → unmap_page pd va free s ≡ ok tt (cleared free frame_of a s)
  unmap_page-cleared true may =
      let (ne, ram) = walk_entry sp.tables pd va at a h way in
      unmap_page_frees pd va a (leaf s.mem 2 pd va) found ne ram value is
        (free_page-IsFree frame_of sp.free may.0 may.1).0
  unmap_page-cleared false may =
      let (ne, ram) = walk_entry sp.tables pd va at a h way in
      unmap_page_keeps pd va a (leaf s.mem 2 pd va) found ne ram value is

  pub Space-cleared :
      (free : Bool)
      → MayFree free s role xs frame_of
      → Space (cleared free frame_of a s) role (pushed free frame_of xs)
  Space-cleared true may =
      Space-stored (Space-released sp frame_of may) pd va a 0 at h
        (walk_to-released sp frame_of may pd va at h ∙ way)
  Space-cleared false may = Space-stored sp pd va a 0 at h way

  pub leaf-cleared :
      (free : Bool)
      → MayFree free s role xs frame_of
      → (r va' : ℕ) → IsRoot role r
      → va' < max_va
      → leaf (cleared free frame_of a s).mem 2 r va'
        ≡ (if same_page pd va r va' then 0 else leaf s.mem 2 r va')
  leaf-cleared true may r va' at' h' =
      leaf-store (Space-released sp frame_of may).tables pd va a 0 at h
        (walk_to-released sp frame_of may pd va at h ∙ way) r va' at' h'
      ∙ ap (λ old. if same_page pd va r va' then 0 else old)
          (leaf-released sp frame_of may r va' at' h')
  leaf-cleared false may r va' at' h' = leaf-store sp.tables pd va a 0 at h way r va' at' h'

  pub later-cleared :
      (free : Bool) (may : MayFree free s role xs frame_of) (va' : ℕ)
      → va + 4096 ≤ va'
      → va' < max_va
      → leaf (cleared free frame_of a s).mem 2 pd va' ≡ leaf s.mem 2 pd va'
  later-cleared free may va' lo h' =
      let differ : same_page pd va pd va' ≡ false = ground arith in
      rw (leaf-cleared free may pd va' at h', differ)

  pub word-cleared :
      (free : Bool)
      → (b : ℕ) → role (round_down b) ≡ none
      → b ≢ frame_of
      → (cleared free frame_of a s).mem b ≡ s.mem b
  word-cleared true b out ne =
      update_ne (released frame_of s).mem 0 (entry_in_table sp pd va a 0 at h way b out)
      ∙ update_ne s.mem s.free_list (λ same. ne (sym same))
  word-cleared false b out ne = update_ne s.mem 0 (entry_in_table sp pd va a 0 at h way b out)
