-- ===== src/Vmm/Map/Step.antt =====
-- One round of `map_pages`, and what mapping several pages does.
use testcode.Base.{
  ℕ, suc, ◌+◌, ◌-◌, ◌*◌, ◌/◌, ◌%◌, ◌≤◌, ◌<◌, ◌≡◌, sym, ap, ◌∙◌, none, some, false, ◌&&◌, List,
  length, arith, update, update_ne, if◌then◌else◌, ◌==◌, ltb, leb,
}
use testcode.Base.Bits.{has_bit}
use testcode.Machine.{Kernel, max_va}
use testcode.Machine.Word.{round_down}
use testcode.Vmm.Entry.{leaf_entry}
use testcode.Vmm.Owner.{SameOwners, SamePages-trans}
use testcode.Vmm.Space.{Space, Outside}
use testcode.Vmm.Tables.{Role, Keeps, none_before, IsRoot, walk_to, leaf, walk_to-leaf}
use testcode.Vmm.Tables.Store.{same_page, leaf-store}
use testcode.Vmm.Walk.{Walked}
use testcode.Vmm.Map.Stored.{stored, entry_in_table}
use testcode.Vmm.Map.Range.{mapped_step}

-- The entry of `va'` in the space `r` once `k` pages from `va` on are mapped to those from `pa` on.
abbrev pub mapped_leaf : (m : ℕ → ℕ) (pd va k pa perm r va' : ℕ) → ℕ
mapped_leaf m pd va k pa perm r va' =
    if r == pd && (leb (va / 4096) (va' / 4096) && ltb (va' / 4096) (va / 4096 + k))
    then leaf_entry (pa + (va' / 4096 - va / 4096) * 4096) perm
    else leaf m 2 r va'

-- What mapping `k` pages does to the state `s`, when it succeeds.
pub record Mapped (s : Kernel) (role : Role) (xs : List ℕ) (pd va k pa perm : ℕ) (s' : Kernel)
    : Type 0 where
  pub role' : Role
  pub rest : List ℕ
  pub space : Space s' role' rest
  pub keeps : Keeps role role'
  pub leaves :
      (r va' : ℕ)
      → IsRoot role r
      → va' < max_va
      → leaf s'.mem 2 r va' ≡ mapped_leaf s.mem pd va k pa perm r va'
  pub frame : (b : ℕ) → role' (round_down b) ≡ none → s'.mem b ≡ s.mem b
  pub used : length xs ≤ length rest + 2 * k
  pub outside : (p : ℕ) → Outside role xs p → Outside role' rest p
  pub owners : SameOwners s s'
  pub start : s'.free_mem_start_addr ≡ s.free_mem_start_addr
  pub end : s'.free_mem_end_addr ≡ s.free_mem_end_addr

abbrev pub PageFree : Kernel → (pd first k : ℕ) → Type 0
PageFree s pd first k =
    (va : ℕ)
    → first / 4096 ≤ va / 4096
    → va / 4096 < first / 4096 + k
    → has_bit (leaf s.mem 2 pd va) 0 ≡ false

-- A page was walked to and its entry stored; then the other pages were mapped.
pub Mapped-cons :
    {s s1 : Kernel} {role : Role} {xs : List ℕ} (pd first k pa perm a : ℕ) (at : IsRoot role pd)
    (h : first < max_va) (al : first % 4096 ≡ 0) (w : Walked s role xs 2 pd first a s1)
    (way : walk_to s1.mem 2 pd first ≡ some a)
    → (ret : ℕ) (s' : Kernel)
    → (ret ≡ 0)
      × Mapped
          (stored w.space pd first a (leaf_entry pa perm) (w.extends.keeps pd _ at) h way)
          w.role'
          w.rest
          pd
          (first + 4096)
          k
          (pa + 4096)
          perm
          s'
    → (ret ≡ 0) × Mapped s role xs pd first (suc k) pa perm s'
Mapped-cons {s} {s1} {role} pd first k pa perm a at h al w way ret s' (z, d) = (
  z,
  record {
    role' = d.role';
    rest = d.rest;
    space = d.space;
    keeps = λ p x at'. d.keeps p x (w.extends.keeps p x at');
    leaves = λ r va' at' h'.
        d.leaves r va' (w.extends.keeps r _ at') h'
        ∙ (ap (after r va') (one_page r va' at' h') ∙ regroup r va' (leaf s.mem 2 r va'));
    frame = λ b out.
        let out' = none_before w.role' d.role' d.keeps (round_down b) out in
        d.frame b out
        ∙ (update_ne s1.mem (leaf_entry pa perm) (
              entry_in_table w.space pd first a (leaf_entry pa perm) (w.extends.keeps pd _ at) h way
                b out')
            ∙ w.extends.frame b out');
    used = omega (arith, w.used, d.used);
    outside = λ p o. d.outside p (w.outside p o);
    owners = λ i. SamePages-trans (w.extends.owners i) (d.owners i);
    start = d.start ∙ w.extends.start;
    end = d.end ∙ w.extends.end;
  },
)
  where
    after : ℕ → ℕ → ℕ → ℕ
    after r va' old =
        if r == pd
          && (leb ((first + 4096) / 4096) (va' / 4096)
              && ltb (va' / 4096) ((first + 4096) / 4096 + k))
        then leaf_entry (pa + 4096 + (va' / 4096 - (first + 4096) / 4096) * 4096) perm
        else old

    one_page :
        (r va' : ℕ)
        → IsRoot role r
        → va' < max_va
        → leaf (update s1.mem a (leaf_entry pa perm)) 2 r va'
          ≡ (if same_page pd first r va' then leaf_entry pa perm else leaf s.mem 2 r va')
    one_page r va' at' h' =
        leaf-store w.space.tables pd first a (leaf_entry pa perm) (w.extends.keeps pd _ at) h way r
          va' (w.extends.keeps r _ at') h'
        ∙ ap (λ old. if same_page pd first r va' then leaf_entry pa perm else old)
            (w.extends.same_leaf r va' at' h')

    regroup :
        (r va' old : ℕ)
        → after r va' (if same_page pd first r va' then leaf_entry pa perm else old) ≡ (
            if r == pd
              && (leb (first / 4096) (va' / 4096) && ltb (va' / 4096) (first / 4096 + suc k))
            then leaf_entry (pa + (va' / 4096 - first / 4096) * 4096) perm
            else old)
    regroup r va' old =
        let next : (first + 4096) / 4096 ≡ first / 4096 + 1 = omega arith in
        rw next
          (mapped_step (λ p. leaf_entry p perm) (r == pd) (va' / 4096) (first / 4096) k pa old)

-- The first page of a range was walked to in vain mapped: what the rest of the loop relies on.
module _ {s s1 : Kernel} {role : Role} {xs : List ℕ} (pd first k a e : ℕ) (at : IsRoot role pd)
    (h : first < max_va) (w : Walked s role xs 2 pd first a s1)
    (way : walk_to s1.mem 2 pd first ≡ some a) (unused : PageFree s pd first (suc k)) where
  pub root_kept : IsRoot w.role' pd
  root_kept = w.extends.keeps pd _ at

  pub entry_unused : has_bit (s1.mem a) 0 ≡ false
  entry_unused =
      ap (λ x. has_bit x 0)
        (sym (walk_to-leaf s1.mem 2 pd first a way) ∙ w.extends.same_leaf pd first at h)
      ∙ unused first (omega arith) (omega arith)

  pub rest_unused :
      first % 4096 ≡ 0
      → first + suc k * 4096 ≤ max_va
      → PageFree (stored w.space pd first a e root_kept h way) pd (first + 4096) k
  rest_unused al top va lo hi =
      let inside : va < max_va = omega arith in
      let differ : same_page pd first pd va ≡ false = ground arith in
      rw
        (
          leaf-store w.space.tables pd first a e root_kept h way pd va root_kept inside,
          differ,
          w.extends.same_leaf pd va at inside,
        )
        (unused va (omega arith) (omega arith))
