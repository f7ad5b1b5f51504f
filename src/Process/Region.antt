-- ===== src/Process/Region.antt =====
-- A page mapped for a process and its entry in `mapped_info`, as `alloc_process` and
-- `realloc_process` of kernel/process.c do it.
use testcode.Base.{
  ℕ, ◌+◌, ◌-◌, ◌*◌, ◌/◌, ◌%◌, ◌^◌, ◌≤◌, ◌<◌, ◌≡◌, ◌≢◌, refl, ◌∙◌, inl, inr, Bool, Bool-cases,
  ==_iff, true, false, ◌&&◌, ◌||◌, List, length, arith, update, if◌then◌else◌, ◌==◌, leb, ltb,
}
use mathlib.Core.Path.{subst}
use testcode.Base.Bits.{has_bit}
use testcode.Machine.{Kernel, ok, K, ◌>>◌, max_va, dram_base, phys_top}
use testcode.Machine.Access.{store_run, store32_low, store32_high}
use testcode.Machine.Returns
use testcode.Machine.Returns.{Returns, returns}
use testcode.Machine.Word.{pgsize, round_down, add64}
use testcode.Process.Create.{set_region}
use testcode.Vmm.{user_vm_map, bit_r, bit_w}
use testcode.Vmm.Entry.{leaf_entry}
use testcode.Vmm.Map.{Mapped}
use testcode.Vmm.NewPage.{user_vm_map-PageAdded}
use testcode.Vmm.Off.{Off, Space-Off, leaf-Off, page-Off}
use testcode.Vmm.Owner.{SameOwners}
use testcode.Vmm.Space.{Space, Outside}
use testcode.Vmm.Tables.{Role, Keeps, IsRoot, leaf}

-- A page of memory for `mapped_info`, and an index in it.
pub record IsTable (mi j : ℕ) : Type 0 where
  pub aligned : mi % pgsize ≡ 0
  pub low : dram_base ≤ mi
  pub high : mi + pgsize ≤ phys_top
  pub below : 16 * j + 16 ≤ pgsize

-- Both `int` fields of an entry, in one word.
abbrev pub region_word : (npages seg_type : ℕ) → ℕ
region_word npages seg_type = npages + seg_type * 2 ^ 32

-- Memory after an entry was written.
abbrev entered : (a va npages seg_type : ℕ) → (ℕ → ℕ) → ℕ → ℕ
entered a va npages seg_type m =
    let m : ℕ → ℕ = update m a va in
    let m : ℕ → ℕ = update m (a + 8) (m (a + 8) / 2 ^ 32 * 2 ^ 32 + npages % 2 ^ 32) in
    update m (a + 8) (m (a + 8) % 2 ^ 32 + seg_type % 2 ^ 32 * 2 ^ 32)

module _ (mi j va npages seg_type : ℕ) (s : Kernel) (t : IsTable mi j) where
  set_region_run :
      set_region mi j va npages seg_type s
      ≡ ok tt (record s { mem = entered (mi + 16 * j) va npages seg_type s.mem })
  unfolding set_region
  set_region_run =
      let a1 : add64 mi (16 * j) ≡ mi + 16 * j = omega (arith, t.high, t.below) in
      let a2 : add64 mi (16 * j + 8) ≡ mi + 16 * j + 8 = omega (arith, t.high, t.below) in
      let a3 : add64 mi (16 * j + 12) ≡ mi + 16 * j + 8 + 4 = omega (arith, t.high, t.below) in
      let m1 : Kernel = record s { mem = update s.mem (mi + 16 * j) va } in
      let m2 : Kernel = record m1 {
        mem =
            update m1.mem (mi + 16 * j + 8)
              (m1.mem (mi + 16 * j + 8) / 2 ^ 32 * 2 ^ 32 + npages % 2 ^ 32);
      } in
      rw
        (
          a1,
          a2,
          a3,
          store_run (mi + 16 * j) s (omega (arith, t.aligned)) (omega (arith, t.low))
              (omega (arith, t.high, t.below)) va,
          store32_low (mi + 16 * j + 8) m1 (omega (arith, t.aligned)) (omega (arith, t.low))
              (omega (arith, t.high, t.below)) npages,
          store32_high (mi + 16 * j + 8) m2 (omega (arith, t.aligned)) (omega (arith, t.low))
              (omega (arith, t.high, t.below)) seg_type,
        )
        refl

  first_word : entered (mi + 16 * j) va npages seg_type s.mem (mi + 16 * j) ≡ va
  first_word = ground arith

  second_word :
      npages < 2 ^ 32
      → seg_type < 2 ^ 32
      → entered (mi + 16 * j) va npages seg_type s.mem (mi + 16 * j + 8)
        ≡ region_word npages seg_type
  second_word h1 h2 =
      let here : (mi + 16 * j + 8 == mi + 16 * j + 8) ≡ true = ground arith in
      let differs : (mi + 16 * j + 8 == mi + 16 * j) ≡ false = ground arith in
      rw (here, differs) (omega arith)

  pub other_word :
      (b : ℕ)
      → b ≢ mi + 16 * j
      → b ≢ mi + 16 * j + 8
      → entered (mi + 16 * j) va npages seg_type s.mem b ≡ s.mem b
  other_word b ne1 ne2 = ground arith

one_page :
    (b : Bool) (x f pa perm old : ℕ)
    → (if b && (leb f x && ltb x (f + 1)) then leaf_entry (pa + (x - f) * 4096) perm else old)
      ≡ (if b && x == f then leaf_entry pa perm else old)
one_page false x f pa perm old = refl
one_page true x f pa perm old = elim (Bool-cases (x == f)) [
  | inl e ↦
      let same : x ≡ f = (==_iff x f).0 e in
      let first : pa + (x - f) * 4096 ≡ pa = omega arith in rw first (ground (arith, same))
  | inr e ↦ ground (arith, e)
]

-- The page at `va` is mapped to `pa`, with an entry in `mapped_info`; nothing else changes.
pub record Segment (s : Kernel) (role : Role) (xs : List ℕ) (pd mi j va pa perm seg_type : ℕ)
    (s' : Kernel) : Type 0 where
  pub role' : Role
  pub rest : List ℕ
  pub space : Space s' role' rest
  pub keeps : Keeps role role'
  pub outside : (p : ℕ) → Outside role xs p → Outside role' rest p
  pub used : length xs ≤ length rest + 2
  pub leaves :
      (r va' : ℕ)
      → IsRoot role r
      → va' < max_va
      → leaf s'.mem 2 r va'
        ≡ (if r == pd && va' / 4096 == va / 4096 then leaf_entry pa perm else leaf s.mem 2 r va')
  pub owners : SameOwners s s'
  pub region : s'.mem (mi + 16 * j) ≡ va
  pub kind : s'.mem (mi + 16 * j + 8) ≡ region_word 1 seg_type
  pub frame :
      (b : ℕ)
      → Outside role xs (round_down b)
      → b ≢ mi + 16 * j
      → b ≢ mi + 16 * j + 8
      → s'.mem b ≡ s.mem b

-- What a segment needs: its page is not mapped, and two pages are free.
pub record CanAdd (s : Kernel) (role : Role) (xs : List ℕ) (pd mi j va pa perm seg_type : ℕ)
    : Type 0 where
  pub space : Space s role xs
  pub root : IsRoot role pd
  pub table : IsTable mi j
  pub outside : Outside role xs mi
  pub va_aligned : va % pgsize ≡ 0
  pub below : va < max_va
  pub unused : has_bit (leaf s.mem 2 pd va) 0 ≡ false
  pub enough : 2 ≤ length xs
  pub pa_aligned : pa % pgsize ≡ 0
  pub small : pa < 2 ^ 55
  pub perms : perm < 1024
  pub flags : (has_bit perm bit_r || has_bit perm bit_w) ≡ true
  pub kinds : seg_type < 2 ^ 32

module _ {s : Kernel} {role : Role} {xs : List ℕ} {pd mi j va pa perm seg_type : ℕ}
    (c : CanAdd s role xs pd mi j va pa perm seg_type) where
  map_page : Returns (λ _. Mapped s role xs pd va 1 pa perm) (user_vm_map pd va pgsize pa perm s)
  map_page =
      let base : round_down va ≡ va = omega (arith, c.va_aligned) in
      subst
        (λ b. Returns (λ _. Mapped s role xs pd b 1 pa perm) (user_vm_map pd b pgsize pa perm s))
        base
        (Returns.mono
          (user_vm_map-PageAdded pd va pa perm c.space c.root c.below c.unused c.enough c.pa_aligned
            c.small c.perms c.flags)
          (λ _ s' d. d.mapped))

  abbrev entered_in : Kernel → Kernel
  entered_in s1 = record s1 { mem = entered (mi + 16 * j) va 1 seg_type s1.mem }

  added-Segment :
      (s1 : Kernel)
      → Mapped s role xs pd va 1 pa perm s1
      → Segment s role xs pd mi j va pa perm seg_type (entered_in s1)
  added-Segment s1 d =
      let out : Outside (d.role') (d.rest) mi = d.outside mi c.outside in
      let off : Off (d.role') (d.rest) s1 (entered_in s1) =
        page-Off mi (entered (mi + 16 * j) va 1 seg_type s1.mem) d.space out c.table.aligned
          (λ b away.
            other_word mi j va 1 seg_type s1 c.table b
              (λ e. away (omega (arith, e, c.table.aligned, c.table.below)))
              (λ e. away (omega (arith, e, c.table.aligned, c.table.below)))) in
      record {
        role' = d.role';
        rest = d.rest;
        space = Space-Off d.space off;
        keeps = d.keeps;
        outside = d.outside;
        used = d.used;
        leaves = λ r va' at h.
            leaf-Off d.space off r va' (d.keeps r _ at) h
            ∙ (d.leaves r va' at h
                ∙ one_page (r == pd) (va' / 4096) (va / 4096) pa perm (leaf s.mem 2 r va'));
        owners = d.owners;
        region = first_word mi j va 1 seg_type s1 c.table;
        kind = second_word mi j va 1 seg_type s1 c.table (omega arith) c.kinds;
        frame = λ b o ne1 ne2.
            other_word mi j va 1 seg_type s1 c.table b ne1 ne2
            ∙ d.frame b (d.outside (round_down b) o).0;
      }

  -- A page is mapped, its entry is written, and `k` runs.
  pub added_then :
      {Q : Unit {0} → Kernel → Type 0} (k : K (Unit {0}))
      → ((s' : Kernel) → Segment s role xs pd mi j va pa perm seg_type s' → Returns Q (k s'))
      → Returns Q ((user_vm_map pd va pgsize pa perm >> (set_region mi j va 1 seg_type >> k)) s)
  added_then k next = Returns.bind map_page λ _ s1 d.
      rw (set_region_run mi j va 1 seg_type s1 c.table) (next (entered_in s1) (added-Segment s1 d))

  pub added_last :
      Returns
        (λ _. Segment s role xs pd mi j va pa perm seg_type)
        ((user_vm_map pd va pgsize pa perm >> set_region mi j va 1 seg_type) s)
  added_last =
      Returns.bind map_page
        λ _ s1 d. rw (set_region_run mi j va 1 seg_type s1 c.table) (returns (added-Segment s1 d))
