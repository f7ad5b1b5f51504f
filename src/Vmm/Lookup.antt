-- ===== src/Vmm/Lookup.antt =====
-- `lookup_pa` and `user_va_to_pa` of kernel/vmm.c.
use testcode.Base.{
  ℕ, ◌%◌, ◌≤◌, ◌<◌, ◌≡◌, ◌≢◌, sym, ap, ◌∙◌, some, true, false, arith, ◌==◌, if◌then◌else◌, inl, inr,
  Option-cases,
}
use testcode.Machine.{Kernel, ok, pure, in_ram, max_va}
use testcode.Machine.Word.{add64}
use testcode.Vmm.{page_walk, lookup_pa, user_va_to_pa, px}
use testcode.Vmm.Entry.{page_of}
use testcode.Vmm.Space.{page_walk-walk_to, address, slot-in_ram}
use testcode.Vmm.Tables.{
  Role, Tables, IsRoot, walk_to, leaf, root_on_way, walk_to-place, walk_to-leaf, walk_to-none,
  px-lt,
}

-- The physical page of `va` in the address space of `pd`, 0 if there is none.
abbrev pub translate : (ℕ → ℕ) → (pd va : ℕ) → ℕ
translate m pd va = page_of (leaf m 2 pd va)

module _ {m : ℕ → ℕ} {role : Role} (t : Tables m role) (pd va : ℕ) (at : IsRoot role pd) where
  -- The entry that a walk ends at is a word of memory.
  pub walk_entry : (a : ℕ) → va < max_va → walk_to m 2 pd va ≡ some a → (a ≢ 0) × (in_ram a ≡ true)
  walk_entry a h e =
      let (p, rp, ea) = walk_to-place t pd 2 pd va (omega arith) (root_on_way role pd va h at) e in
      (omega (arith, t.low p _ rp, ea), rw ea (slot-in_ram t p rp (px 0 va) (px-lt 0 va)))

module _ {s : Kernel} (pd va : ℕ) (h : va < max_va) where
  lookup_absent : page_walk pd va false s ≡ ok 0 s → lookup_pa pd va s ≡ ok 0 s
  unfolding lookup_pa
  lookup_absent e = ground arith

  lookup_found :
      (a : ℕ)
      → page_walk pd va false s ≡ ok a s
      → a ≢ 0
      → in_ram a ≡ true
      → lookup_pa pd va s ≡ ok (page_of (s.mem a)) s
  unfolding lookup_pa
  lookup_found a e ne ram = ground arith

-- If the tables are well formed, the directory is one of an address space and the address is
-- below MAXVA, `lookup_pa` returns the page that the tables map the address to, 0 if none, and
-- changes nothing.
pub lookup_pa-translate :
    {s : Kernel} {role : Role} (pd va : ℕ)
    → Tables s.mem role
    → IsRoot role pd
    → va < max_va
    → lookup_pa pd va s ≡ ok (translate s.mem pd va) s
lookup_pa-translate {s} pd va t at h = elim (Option-cases (walk_to s.mem 2 pd va)) [
  | inl e ↦
      lookup_absent pd va h (page_walk-walk_to t pd va at h ∙ ap (λ w. ok (address w) s) e)
      ∙ ap (λ x. ok (page_of x) s) (sym (walk_to-none s.mem 2 pd va e))
  | inr (a, e) ↦
      let (ne, ram) = walk_entry t pd va at a h e in
      lookup_found pd va h a (page_walk-walk_to t pd va at h ∙ ap (λ w. ok (address w) s) e) ne ram
      ∙ ap (λ x. ok (page_of x) s) (sym (walk_to-leaf s.mem 2 pd va a e))
]

pub lookup_pa-beyond : (pd va : ℕ) (s : Kernel) → max_va ≤ va → lookup_pa pd va s ≡ ok 0 s
unfolding lookup_pa
lookup_pa-beyond pd va s h = ground arith

-- If the tables are well formed, the directory is one of an address space and the address is
-- below MAXVA, `user_va_to_pa` returns the physical page of the address plus the offset in the
-- page, or 0 if the page is not mapped, and changes nothing.
pub user_va_to_pa-translate :
    {s : Kernel} {role : Role} (pd va : ℕ)
    → Tables s.mem role
    → IsRoot role pd
    → va < max_va
    → user_va_to_pa pd va s
      ≡ ok (if translate s.mem pd va == 0 then 0 else add64 (translate s.mem pd va) (va % 4096)) s
unfolding user_va_to_pa
user_va_to_pa-translate {s} pd va t at h =
    rw (lookup_pa-translate {s = s} pd va t at h) (by_test (translate s.mem pd va))
  where
    by_test :
        (p : ℕ)
        → (if p == 0 then pure 0 else pure (add64 p (va % 4096))) s
          ≡ ok (if p == 0 then 0 else add64 p (va % 4096)) s
    by_test p = ground arith
