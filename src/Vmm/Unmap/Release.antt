-- ===== src/Vmm/Unmap/Release.antt =====
-- `free_page` on the frame of a user page, as `user_vm_unmap` calls it.
use testcode.Base.{
  ℕ, ◌<◌, ◌≡◌, ◌≢◌, refl, sym, ap, ◌∙◌, inl, inr, Option, none, some, false, List, ◌∷◌, mem, arith,
  update_ne, ◌==◌, ==_iff, Bool-cases,
}
use mathlib.Core.Option.{none-ne-some}
use testcode.Machine.{Kernel, max_va}
use testcode.Pmm.FreeList.{IsPage, released, free_page-IsFree}
use testcode.Vmm.{px}
use testcode.Vmm.Space.{Space}
use testcode.Vmm.Tables.{
  Role, Place, IsRoot, slot, walk_to, leaf, walk_to-place, root_on_way, walk_to-leaf, walk_to-none,
  px-lt,
}
use testcode.Vmm.Tables.Frame.{SameUpper, Tables-frame, walk_to-frame}

-- The frame `p` of a user page, in use.
abbrev pub IsFrame : Kernel → Role → List ℕ → ℕ → Type 0
IsFrame s role xs p = IsPage s p × (mem p xs ≡ false) × (role p ≡ none)

module _ {s : Kernel} {role : Role} {xs : List ℕ} (sp : Space s role xs) (p : ℕ)
    (frame : IsFrame s role xs p) where
  untouched :
      (q i : ℕ) {x : Place}
      → role q ≡ some x
      → i < 512
      → (released p s).mem (slot q i) ≡ s.mem (slot q i)
  untouched q i at h = update_ne s.mem s.free_list elsewhere
    where
      elsewhere : p ≢ slot q i
      elsewhere same =
          let home : q ≡ p = omega (arith, same, sp.tables.aligned q _ at, frame.0.0) in
          none-ne-some _ (sym frame.2 ∙ (ap role (sym home) ∙ at))

  upper : SameUpper role s.mem (released p s).mem
  upper q r l v i at h = untouched q i at h

  pub Space-released : Space (released p s) role (p ∷ xs)
  Space-released = record {
    free = (free_page-IsFree p sp.free frame.0 frame.1).1;
    tables = Tables-frame sp.tables (released p s).mem upper;
    apart = λ q i. elim (Bool-cases (q == p)) [
      | inl e ↦ ap role ((==_iff q p).0 e) ∙ frame.2
      | inr e ↦ sp.apart q (rw e at i)
    ];
  }

  module _ (r va : ℕ) (at : IsRoot role r) (h : va < max_va) where
    pub walk_to-released : walk_to (released p s).mem 2 r va ≡ walk_to s.mem 2 r va
    walk_to-released =
        walk_to-frame sp.tables (released p s).mem upper r 2 r va (omega arith)
          (root_on_way role r va h at)

    pub leaf-released : leaf (released p s).mem 2 r va ≡ leaf s.mem 2 r va
    leaf-released = by_way (walk_to s.mem 2 r va) refl
      where
        by_way :
            (w : Option ℕ)
            → walk_to s.mem 2 r va ≡ w
            → leaf (released p s).mem 2 r va ≡ leaf s.mem 2 r va
        by_way none w =
            walk_to-none (released p s).mem 2 r va (walk_to-released ∙ w)
            ∙ sym (walk_to-none s.mem 2 r va w)
        by_way (some a) w =
            let (q, rq, ea) =
              walk_to-place sp.tables r 2 r va (omega arith) (root_on_way role r va h at) w in
            walk_to-leaf (released p s).mem 2 r va a (walk_to-released ∙ w)
            ∙ (ap (released p s).mem ea
                ∙ (untouched q (px 0 va) rq (px-lt 0 va)
                    ∙ (ap s.mem (sym ea) ∙ sym (walk_to-leaf s.mem 2 r va a w))))
