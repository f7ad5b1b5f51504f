-- ===== src/Process/Segments.antt =====
-- `map_segments`: the pages that `alloc_process` and `realloc_process` of kernel/process.c map for
-- a process.
use testcode.Base.{
  ℕ, ◌+◌, ◌*◌, ◌/◌, ◌%◌, ◌≤◌, ◌<◌, ◌≡◌, ◌≢◌, refl, sym, ap, ◌∙◌, false, ◌&&◌, List, arith, ◌==◌,
}
use testcode.Base.Bits.{has_bit}
use testcode.Machine.{Kernel, Symbols, max_va}
use testcode.Machine.Returns
use testcode.Machine.Returns.{Returns}
use testcode.Machine.Word.{pgsize, round_down}
use testcode.Process.Create.{map_segments, stack_segment, context_segment, system_segment}
use testcode.Process.Region.{IsTable, region_word, Segment, CanAdd, added_then, added_last}
use testcode.Vmm.Owner.{SamePages-trans}
use testcode.Vmm.Space.{Outside}
use testcode.Vmm.Tables.{Role, IsRoot, leaf}
use testcode.Process.Space.{
  stack_va, stack_perm, frame_perm, vector_perm, prot_to_type-stack, prot_to_type-frame,
  prot_to_type-vector, IsRamPage, CanBuild, Segments,
}

IsTable-IsRamPage : (mi j : ℕ) → IsRamPage mi → j ≤ 2 → IsTable mi j
IsTable-IsRamPage mi j p h = record {
  aligned = p.aligned;
  low = p.low;
  high = p.high;
  below = omega arith;
}

module _ {s : Kernel} {role : Role} {xs : List ℕ} {pd mi j va pa perm seg_type : ℕ} {s' : Kernel}
    (g : Segment s role xs pd mi j va pa perm seg_type s') where
  -- Another page is not mapped by it.
  still_unused :
      (va' : ℕ)
      → IsRoot role pd
      → va' < max_va
      → va' / 4096 ≢ va / 4096
      → has_bit (leaf s.mem 2 pd va') 0 ≡ false
      → has_bit (leaf s'.mem 2 pd va') 0 ≡ false
  still_unused va' at h ne unused =
      let other : (pd == pd && va' / 4096 == va / 4096) ≡ false = ground (arith, ne) in
      rw (g.leaves pd va' at h, other) unused

  own_kind : (k : ℕ) → k ≡ 16 * j + 8 → s'.mem (mi + k) ≡ region_word 1 seg_type
  own_kind k e = let place_of : mi + k ≡ mi + 16 * j + 8 = omega (arith, e) in rw place_of g.kind

  -- So do words of other pages.
  other_page :
      (b : ℕ)
      → Outside role xs (round_down b)
      → mi % pgsize ≡ 0
      → 16 * j + 16 ≤ pgsize
      → round_down b ≢ mi
      → s'.mem b ≡ s.mem b
  other_page b out al h ne = g.frame b out (λ e. ne (omega (arith, e))) (λ e. ne (omega (arith, e)))

  -- Words of `mapped_info` that belong to other entries stay.
  other_entry :
      (k : ℕ)
      → Outside role xs mi
      → mi % pgsize ≡ 0
      → k < pgsize
      → k ≢ 16 * j
      → k ≢ 16 * j + 8
      → s'.mem (mi + k) ≡ s.mem (mi + k)
  other_entry k out al h ne1 ne2 =
      let home : round_down (mi + k) ≡ mi = omega arith in
      g.frame (mi + k) (rw home out) (omega (arith, ne1)) (omega (arith, ne2))

module _ {img : Symbols} {i user_stack : ℕ} {s : Kernel} {role : Role} {xs : List ℕ}
    (c : CanBuild img i user_stack s role xs) where
  abbrev pd : ℕ
  pd = (s.procs i).pagetable

  abbrev mi : ℕ
  mi = (s.procs i).mapped_info

  stack_first : CanAdd s role xs pd mi 0 stack_va user_stack stack_perm stack_segment
  stack_first = record {
    space = c.space;
    root = c.root;
    table = IsTable-IsRamPage mi 0 c.info (omega arith);
    outside = c.outside;
    va_aligned = refl;
    below = omega arith;
    unused = rw (c.unmapped stack_va (omega arith)) refl;
    enough = omega (arith, c.enough);
    pa_aligned = c.stack.aligned;
    small = omega (arith, c.stack.high);
    perms = omega arith;
    flags = refl;
    kinds = omega arith;
  }

  module _ {s1 : Kernel}
      (g1 : Segment s role xs pd mi 0 stack_va user_stack stack_perm stack_segment s1) where
    frame_next :
        CanAdd s1 g1.role' g1.rest pd mi 1
          (s.procs i).trapframe
          (s.procs i).trapframe
          frame_perm
          context_segment
    frame_next = record {
      space = g1.space;
      root = g1.keeps pd _ c.root;
      table = IsTable-IsRamPage mi 1 c.info (omega arith);
      outside = g1.outside mi c.outside;
      va_aligned = c.trapframe.aligned;
      below = omega (arith, c.trapframe.high);
      unused =
          still_unused g1 (s.procs i).trapframe c.root (omega (arith, c.trapframe.high))
            (omega (arith, c.trapframe.low))
            (rw (c.unmapped (s.procs i).trapframe (omega (arith, c.trapframe.high))) refl);
      enough = omega (arith, c.enough, g1.used);
      pa_aligned = c.trapframe.aligned;
      small = omega (arith, c.trapframe.high);
      perms = omega arith;
      flags = refl;
      kinds = omega arith;
    }

    module _ {s2 : Kernel}
        (g2 : Segment s1 g1.role' g1.rest pd mi 1
          (s.procs i).trapframe
          (s.procs i).trapframe
          frame_perm
          context_segment
          s2) where
      vector_last :
          CanAdd s2 g2.role' g2.rest pd mi 2 img.trap_sec_start img.trap_sec_start vector_perm
            system_segment
      vector_last = record {
        space = g2.space;
        root = g2.keeps pd _ (g1.keeps pd _ c.root);
        table = IsTable-IsRamPage mi 2 c.info (omega arith);
        outside = g2.outside mi (g1.outside mi c.outside);
        va_aligned = c.vector.aligned;
        below = omega (arith, c.vector.high);
        unused =
            still_unused g2 img.trap_sec_start (g1.keeps pd _ c.root) (omega (arith, c.vector.high))
              (omega (arith, c.vector.aligned, c.trapframe.aligned, c.apart))
              (still_unused g1 img.trap_sec_start c.root (omega (arith, c.vector.high))
                (omega (arith, c.vector.low))
                (rw (c.unmapped img.trap_sec_start (omega (arith, c.vector.high))) refl));
        enough = omega (arith, c.enough, g1.used, g2.used);
        pa_aligned = c.vector.aligned;
        small = omega (arith, c.vector.high);
        perms = omega arith;
        flags = refl;
        kinds = omega arith;
      }

      built :
          (s3 : Kernel)
          → Segment s2 g2.role' g2.rest pd mi 2 img.trap_sec_start img.trap_sec_start vector_perm
              system_segment s3
          → Segments img i user_stack s role xs s3
      built s3 g3 =
          let out1 : Outside (g1.role') (g1.rest) mi = g1.outside mi c.outside in
          let out2 : Outside (g2.role') (g2.rest) mi = g2.outside mi out1 in
          let zero_off : mi + 0 ≡ mi = omega arith in
          record {
            role' = g3.role';
            rest = g3.rest;
            space = g3.space;
            keeps = λ p x at. g3.keeps p x (g2.keeps p x (g1.keeps p x at));
            used = omega (arith, g1.used, g2.used, g3.used);
            leaves = λ r va at h.
                rw
                  (
                    g3.leaves r va (g2.keeps r _ (g1.keeps r _ at)) h,
                    g2.leaves r va (g1.keeps r _ at) h,
                    g1.leaves r va at h,
                  )
                  refl;
            owners =
                λ n. SamePages-trans (SamePages-trans (g1.owners n) (g2.owners n)) (g3.owners n);
            frame = λ b o ne.
                let o1 : Outside (g1.role') (g1.rest) (round_down b) =
                  g1.outside (round_down b) o in
                let o2 : Outside (g2.role') (g2.rest) (round_down b) =
                  g2.outside (round_down b) o1 in
                other_page g3 b o2 c.info.aligned (omega arith) ne
                ∙ (other_page g2 b o1 c.info.aligned (omega arith) ne
                    ∙ other_page g1 b o c.info.aligned (omega arith) ne);
            stack_region =
                ap s3.mem (sym zero_off)
                ∙ (other_entry g3 0 out2 c.info.aligned (omega arith) (omega arith) (omega arith)
                    ∙ (other_entry g2 0 out1 c.info.aligned (omega arith) (omega arith)
                          (omega arith)
                        ∙ g1.region));
            stack_kind =
                other_entry g3 8 out2 c.info.aligned (omega arith) (omega arith) (omega arith)
                ∙ (other_entry g2 8 out1 c.info.aligned (omega arith) (omega arith) (omega arith)
                    ∙ own_kind g1 8 refl);
            frame_region =
                other_entry g3 16 out2 c.info.aligned (omega arith) (omega arith) (omega arith)
                ∙ g2.region;
            frame_kind =
                other_entry g3 24 out2 c.info.aligned (omega arith) (omega arith) (omega arith)
                ∙ own_kind g2 24 refl;
            vector_region = g3.region;
            vector_kind = own_kind g3 40 refl;
          }

  -- If page tables, free pages and other pages are apart, nothing is mapped in the address space
  -- of the process, its trap frame, its `mapped_info`, its stack and the trap vector are pages of
  -- memory, the trap frame is not the page of the trap vector, `mapped_info` is neither a table
  -- nor free, and six pages are free, then `map_segments` returns: in the address space the stack
  -- is mapped for the user, trap frame and trap vector are mapped for the kernel, and nothing
  -- else; the other address spaces stay; `mapped_info` lists the three pages with their kinds;
  -- and free pages, tables and other pages are apart again.
  pub map_segments-Segments :
      Returns (λ _. Segments img i user_stack s role xs) (map_segments img i user_stack s)
  unfolding map_segments
  map_segments-Segments =
      rw (prot_to_type-stack, prot_to_type-frame, prot_to_type-vector)
        (added_then stack_first _ (λ s1 g1.
          added_then (frame_next g1) _ (λ s2 g2.
            Returns.mono (added_last (vector_last g1 g2)) (λ _ s3 g3. built g1 g2 s3 g3))))
