-- ===== src/Vmm/Unmap.antt =====
-- `user_vm_unmap` of kernel/vmm.c.
mod Release
mod Clear
pub use Release.*
pub use Clear.*
use testcode.Base.{
  ℕ, zero, suc, ◌+◌, ◌-◌, ◌*◌, ◌/◌, ◌%◌, ◌≤◌, ◌<◌, ◌≡◌, ◌≢◌, refl, sym, ap, ◌∙◌, inl, inr, Option,
  none, some, Bool, true, false, ◌&&◌, List, [], ◌∷◌, length, mem, arith, update, update_ne,
  if◌then◌else◌, ◌==◌, ==_iff, ltb, leb, Bool-cases, ltb-false, lt→ltb,
}
use mathlib.Core.Path.{subst}
use mathlib.Core.Bool.{false≢true}
use mathlib.Core.Option.{none-ne-some}
use testcode.Base.Bits.{has_bit}
use testcode.Machine.{Kernel, ok, in_ram, max_va}
use testcode.Machine.Returns
use testcode.Machine.Returns.{Returns, returns}
use testcode.Machine.Word.{pgsize, round_down, add64}
use testcode.Pmm.{free_page}
use testcode.Pmm.FreeList.{IsPage, released, free_page-IsFree}
use testcode.Vmm.{px, pte_to_pa, pte_flags, page_walk, unmap_page, unmap_loop, user_vm_unmap}
use testcode.Vmm.Lookup.{walk_entry}
use mathlib.Core.List.{map}
use testcode.Vmm.Map.{mapped_step, mapped_none, Space-stored, entry_in_table}
use testcode.Vmm.Space.{Space, address, load_ok, page_walk-walk_to}
use testcode.Vmm.Tables.{
  Role, Place, IsRoot, slot, walk_to, leaf, walk_to-place, root_on_way, walk_to-leaf, walk_to-none,
  px-lt,
}
use testcode.Vmm.Tables.Frame.{SameUpper, Tables-frame, walk_to-frame}
use testcode.Vmm.Tables.Store.{same_page, leaf-store}

-- The pages from `va` on are mapped by the entries `es`, whose frames may be freed in turn.
abbrev pub Maps : Bool → Kernel → Role → List ℕ → (pd va : ℕ) → List ℕ → Type 0
Maps free s role xs pd va [] = Unit {0}
Maps free s role xs pd va (e ∷ es) =
    (leaf s.mem 2 pd va ≡ e)
    × IsLeaf e
    × MayFree free s role xs (pte_to_pa e)
    × Maps free s role (pushed free (pte_to_pa e) xs) pd (va + 4096) es

-- The free pages after those of `es` were freed.
abbrev pub push_all : Bool → List ℕ → List ℕ → List ℕ
push_all free [] xs = xs
push_all free (e ∷ es) xs = push_all free es (pushed free (pte_to_pa e) xs)

may_later :
    (free : Bool) (s s' : Kernel) (role : Role) (xs : List ℕ) (p : ℕ)
    → s'.free_mem_start_addr ≡ s.free_mem_start_addr
    → s'.free_mem_end_addr ≡ s.free_mem_end_addr
    → MayFree free s role xs p
    → MayFree free s' role xs p
may_later true s s' role xs p es ee may = ((may.0.0, omega arith, omega arith), may.1, may.2)
may_later false s s' role xs p es ee may = tt

-- Clearing an earlier page leaves the later ones mapped.
Maps-later :
    (free : Bool) (s s' : Kernel) (role : Role) (xs : List ℕ) (pd va : ℕ) (es : List ℕ)
    → s'.free_mem_start_addr ≡ s.free_mem_start_addr
    → s'.free_mem_end_addr ≡ s.free_mem_end_addr
    → ((va' : ℕ)
        → va ≤ va'
        → va' < va + length es * 4096
        → leaf s'.mem 2 pd va' ≡ leaf s.mem 2 pd va')
    → Maps free s role xs pd va es
    → Maps free s' role xs pd va es
Maps-later free s s' role xs pd va [] es1 ee same m = tt
Maps-later free s s' role xs pd va (e ∷ es) es1 ee same m = (
  same va (omega arith) (omega arith) ∙ m.0,
  m.1,
  may_later free s s' role xs (pte_to_pa e) es1 ee m.2,
  Maps-later free s s' role (pushed free (pte_to_pa e) xs) pd (va + 4096) es es1 ee
      (λ va' lo hi. same va' (omega arith) (omega arith)) m.3,
)

-- What unmapping the pages of `es` does to the state `s`.
pub record Unmapped (free : Bool) (s : Kernel) (role : Role) (xs : List ℕ) (pd va : ℕ) (es : List ℕ)
    (s' : Kernel) : Type 0 where
  pub space : Space s' role (push_all free es xs)
  pub leaves :
      (r va' : ℕ)
      → IsRoot role r
      → va' < max_va
      → leaf s'.mem 2 r va' ≡ (
          if r == pd && (leb (va / 4096) (va' / 4096) && ltb (va' / 4096) (va / 4096 + length es))
          then 0
          else leaf s.mem 2 r va')
  pub frame :
      (b : ℕ) → role (round_down b) ≡ none → mem b (map pte_to_pa es) ≡ false → s'.mem b ≡ s.mem b
  pub start : s'.free_mem_start_addr ≡ s.free_mem_start_addr
  pub end : s'.free_mem_end_addr ≡ s.free_mem_end_addr

freed_limits :
    (free : Bool) (p a : ℕ) (s : Kernel)
    → ((cleared free p a s).free_mem_start_addr ≡ s.free_mem_start_addr)
      × ((cleared free p a s).free_mem_end_addr ≡ s.free_mem_end_addr)
freed_limits true p a s = (refl, refl)
freed_limits false p a s = (refl, refl)

module _ {free : Bool} {s : Kernel} {role : Role} {xs : List ℕ} (sp : Space s role xs) (pd va : ℕ)
    (at : IsRoot role pd) (h : va < max_va) (is : IsLeaf (leaf s.mem 2 pd va)) (a : ℕ)
    (way : walk_to s.mem 2 pd va ≡ some a)
    (may : MayFree free s role xs (pte_to_pa (leaf s.mem 2 pd va))) where
  Unmapped-cons :
      (es : List ℕ) (s' : Kernel)
      → va % 4096 ≡ 0
      → Unmapped free
          (cleared free (pte_to_pa (leaf s.mem 2 pd va)) a s)
          role
          (pushed free (pte_to_pa (leaf s.mem 2 pd va)) xs)
          pd
          (va + 4096)
          es
          s'
      → Unmapped free s role xs pd va (leaf s.mem 2 pd va ∷ es) s'
  Unmapped-cons es s' al u = record {
    space = u.space;
    leaves = λ r va' at' h'.
        u.leaves r va' at' h'
        ∙ (ap (after r va') (leaf-cleared sp pd va at h is a way free may r va' at' h')
            ∙ regroup r va' (leaf s.mem 2 r va'));
    frame = λ b out unfreed.
        u.frame b out (ground (arith, unfreed))
        ∙ word-cleared sp pd va at h is a way free b out (λ same. ground (arith, unfreed, same));
    start = u.start ∙ (freed_limits free (pte_to_pa (leaf s.mem 2 pd va)) a s).0;
    end = u.end ∙ (freed_limits free (pte_to_pa (leaf s.mem 2 pd va)) a s).1;
  }
    where
      after : ℕ → ℕ → ℕ → ℕ
      after r va' old =
          if r == pd
            && (leb ((va + 4096) / 4096) (va' / 4096)
                && ltb (va' / 4096) ((va + 4096) / 4096 + length es))
          then 0
          else old

      regroup :
          (r va' old : ℕ)
          → after r va' (if same_page pd va r va' then 0 else old) ≡ (
              if r == pd
                && (leb (va / 4096) (va' / 4096) && ltb (va' / 4096) (va / 4096 + suc (length es)))
              then 0
              else old)
      regroup r va' old =
          let next : (va + 4096) / 4096 ≡ va / 4096 + 1 = omega arith in
          rw next (mapped_step (λ _. 0) (r == pd) (va' / 4096) (va / 4096) (length es) 0 old)

unmap_loop-Unmapped :
    (free : Bool) (n pd va end : ℕ) (es : List ℕ) (s : Kernel) (role : Role) (xs : List ℕ)
    → Space s role xs
    → IsRoot role pd
    → va % 4096 ≡ 0
    → va + length es * 4096 ≡ end
    → end ≤ max_va
    → Maps free s role xs pd va es
    → length es < n
    → Returns (λ _. Unmapped free s role xs pd va es) (unmap_loop n pd va end free s)
unfolding unmap_loop
unmap_loop-Unmapped free zero pd va end es s role xs sp at al e h m fuel = absurd (omega arith)
unmap_loop-Unmapped free (suc n) pd va end [] s role xs sp at al e h m fuel =
    let over : ltb va end ≡ false = ltb-false va end (omega arith) in
    rw over (
      returns (record {
        space = sp;
        leaves = λ r va' at' h'.
            mapped_none (λ _. 0) (r == pd) (va' / 4096) (va / 4096) 0 (leaf s.mem 2 r va');
        frame = λ b out un. refl;
        start = refl;
        end = refl;
      }))
unmap_loop-Unmapped free (suc n) pd va end (e ∷ es) s role xs sp at al eq h m fuel =
    let l = leaf s.mem 2 pd va in
    let (is, may, rest) =
      subst
        (λ x.
          IsLeaf x
          × MayFree free s role xs (pte_to_pa x)
          × Maps free s role (pushed free (pte_to_pa x) xs) pd (va + 4096) es)
        (sym m.0) (m.1, m.2, m.3) in
    let under : ltb va end ≡ true = lt→ltb va end (omega arith) in
    let wrap : add64 va 4096 ≡ va + 4096 = omega arith in
    let top : va < max_va = omega arith in
    let (a, way) = way_of_leaf s.mem pd va is.0 in
    let limits = freed_limits free (pte_to_pa l) a s in
    subst
      (λ x.
        Returns (λ _. Unmapped free s role xs pd va (x ∷ es)) (unmap_loop (suc n) pd va end free s))
      m.0
      (rw (under, unmap_page-cleared sp pd va at top is a way free may, wrap)
        (Returns.mono
          (unmap_loop-Unmapped free n pd (va + 4096) end es (cleared free (pte_to_pa l) a s) role
            (pushed free (pte_to_pa l) xs) (Space-cleared sp pd va at top is a way free may) at
            (omega arith) (omega arith) h
            (Maps-later free s (cleared free (pte_to_pa l) a s) role (pushed free (pte_to_pa l) xs)
              pd (va + 4096) es limits.0 limits.1
              (λ va' lo hi. later-cleared sp pd va at top is a way free may va' lo (omega arith))
              rest)
            (omega arith))
          (λ _ s' u. Unmapped-cons sp pd va at top is a way may es s' al u)))

-- If page tables, free pages and other pages are apart, the range is aligned and below MAXVA, and
-- each page of it is mapped by a leaf entry, to frames that may be freed if `free` is set, then
-- `user_vm_unmap` returns: the entries of the range are 0, every other page of every address
-- space keeps its entry, the frames are free pages if `free` is set, and words outside the tables
-- and the frames keep their values.
pub user_vm_unmap-Unmapped :
    (free : Bool) (pd va : ℕ) (es : List ℕ) (s : Kernel) (role : Role) (xs : List ℕ)
    → Space s role xs
    → IsRoot role pd
    → va % 4096 ≡ 0
    → va + length es * 4096 ≤ max_va
    → Maps free s role xs pd va es
    → Returns
        (λ _. Unmapped free s role xs pd va es)
        (user_vm_unmap pd va (length es * 4096) free s)
unfolding user_vm_unmap
user_vm_unmap-Unmapped free pd va es s role xs sp at al h m =
    let aligned : (va % pgsize == 0) ≡ true = ground arith in
    let wrap : add64 va (length es * 4096) ≡ va + length es * 4096 = omega arith in
    rw (aligned, wrap)
      (unmap_loop-Unmapped free ((va + length es * 4096 - va) / pgsize + 2) pd va
        (va + length es * 4096) es s role xs sp at al refl h m (omega arith))
