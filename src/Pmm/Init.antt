-- ===== src/Pmm/Init.antt =====
-- The free list that kernel/pmm.c builds at boot.
use testcode.Base.{
  ℕ, zero, suc, ◌+◌, ◌-◌, ◌*◌, ◌/◌, ◌%◌, ◌≤◌, ◌<◌, ◌≡◌, refl, sym, true, ◌↔◌, List, [], ◌∷◌, arith,
  All, All-lt_mono, mem, mem_of_below, mem, ◌↔◌, ◌||◌, ◌&&◌, leb, ltb, ◌==◌, [], true, ◌*◌,
  ltb-false, lt→ltb,
}
use native.Mathlib.Decide.{dec_lt}
use testcode.Machine.{Kernel, Symbols, dram_base, phys_top}
use testcode.Machine.Returns
use testcode.Machine.Returns.{Returns, returns}
use testcode.Machine.Word.{pgsize, round_up, add64, sub64}
use mathlib.Core.Path.{subst}
use testcode.Pmm.{free_pages, rounds, min_ram, pmm_init}
use testcode.Pmm.FreeList.{IsFree, free_page-IsFree}

-- `k` pages from `p` on, pushed in turn on `xs`.
abbrev pub descend : ℕ → ℕ → List ℕ → List ℕ
descend zero p xs = xs
descend (suc k) p xs = descend k (p + pgsize) (p ∷ xs)

-- The number of rounds of the loop from `p`: it stops one page before `end`.
abbrev pub page_count : ℕ → ℕ → ℕ
page_count p end = (end - 1 - p) / pgsize

-- What the loop leaves behind: the pages `xs` are free and the limits are those of `s`.
pub record Built (s s' : Kernel) (xs : List ℕ) : Type 0 where
  pub free_list : IsFree s' xs
  pub start : s'.free_mem_start_addr ≡ s.free_mem_start_addr
  pub end : s'.free_mem_end_addr ≡ s.free_mem_end_addr

module _ (end : ℕ) where
  free_pages-Built :
      (n p : ℕ) {s : Kernel} {xs : List ℕ}
      → IsFree s xs
      → All (λ x. x < p) xs
      → p % pgsize ≡ 0
      → s.free_mem_start_addr ≤ p
      → p ≤ phys_top
      → s.free_mem_end_addr ≡ end
      → (end - p) / pgsize < n
      → Returns (λ _ s'. Built s s' (descend (page_count p end) p xs)) (free_pages n p end s)
  unfolding free_pages
  free_pages-Built zero p v lo al ge top e fuel = absurd (omega arith)
  free_pages-Built (suc n) p {s} {xs} v lo al ge top e fuel = elim (dec_lt (p + pgsize) end) [
    | yes more ↦
        let out = mem_of_below p xs lo in
        let step = free_page-IsFree p v (al, ge, omega arith) out in
        let wrap : add64 p pgsize ≡ p + pgsize = omega arith in
        let counted : page_count p end ≡ suc (page_count (p + pgsize) end) = omega arith in
        rw (wrap, lt→ltb _ _ more, step.0, counted)
          (Returns.mono
            (free_pages-Built n (p + pgsize) step.1
              (omega arith, All-lt_mono p (p + pgsize) xs (omega arith) lo) (omega arith)
              (omega arith) (omega arith) e (omega arith))
            λ _ s' b. record { free_list = b.free_list; start = b.start; end = b.end })
    | no done ↦
        let wrap : add64 p pgsize ≡ p + pgsize = omega arith in
        let none_left : page_count p end ≡ 0 = omega arith in
        rw (wrap, ltb-false (p + pgsize) end (omega arith), none_left)
          (returns (record { free_list = v; start = refl; end = refl }))
  ]

mem-descend :
    (a k p : ℕ) (xs : List ℕ)
    → p % pgsize ≡ 0
    → mem a (descend k p xs)
      ≡ (mem a xs || (leb p a && ltb a (p + k * pgsize) && (a % pgsize == 0)))
mem-descend a zero p xs al = ground arith
mem-descend a (suc k) p xs al = ground (arith, mem-descend a k (p + pgsize) (p ∷ xs))

-- The pages of `[start, end)`, but for a page that ends at `end` or beyond it.
abbrev pub InRange : ℕ → ℕ → ℕ → Type 0
InRange start end a = (a % pgsize ≡ 0) × (start ≤ a) × (a + pgsize < end)

range_iff :
    (a start end : ℕ)
    → start % pgsize ≡ 0
    → (mem a (descend (page_count start end) start []) ≡ true) ↔ InRange start end a
range_iff a start end al = (
  ground (arith, mem-descend a (page_count start end) start []),
  ground (arith, mem-descend a (page_count start end) start []),
)

-- The memory that the boot code leaves to the page allocator.
abbrev pub first_page : Symbols → ℕ
first_page sym = round_up sym.kernel_end

abbrev pub memory_end : Kernel → ℕ
memory_end s = min_ram s.g_mem_size + dram_base

pub record Booted (sym : Symbols) (s s' : Kernel) : Type 0 where
  pub pages : List ℕ
  pub free_list : IsFree s' pages
  pub start : s'.free_mem_start_addr ≡ first_page sym
  pub end : s'.free_mem_end_addr ≡ memory_end s
  pub range : (a : ℕ) → (mem a pages ≡ true) ↔ InRange (first_page sym) (memory_end s) a

-- The kernel image lies in memory and is not empty.
abbrev pub Fits : Symbols → Kernel → Type 0
Fits sym s = (dram_base < sym.kernel_end) × (sym.kernel_end ≤ min_ram s.g_mem_size + dram_base)

round_up_aligned : (a : ℕ) → round_up a % pgsize ≡ 0
round_up_aligned a = omega arith

-- If the kernel image is not empty and fits into the memory that is used, `pmm_init` returns with
-- a free list without repetitions, which holds exactly the aligned pages from the end of the
-- kernel on that end before the end of memory; a page that ends at the end of memory is not in
-- it.
pub pmm_init-Booted :
    (sym : Symbols) (s : Kernel) → Fits sym s → Returns (λ _. Booted sym s) (pmm_init sym s)
unfolding pmm_init
pmm_init-Booted img s fits =
    let enough : sub64 img.kernel_end dram_base ≤ min_ram s.g_mem_size = ground arith in
    let bound : min_ram s.g_mem_size ≤ 128 * 1024 * 1024 = ground arith in
    let end : add64 (min_ram s.g_mem_size) dram_base ≡ memory_end s = omega arith in
    let start = first_page img in
    let idem : round_up start ≡ start = omega arith in
    rw (ltb-false (min_ram s.g_mem_size) (sub64 img.kernel_end dram_base) enough, end)
      (Returns.mono
        (free_pages-Built (memory_end s) (rounds start (memory_end s)) (round_up start)
          (record {
            from_dram = omega arith;
            to_top = omega arith;
            chain = refl;
            distinct = tt;
            pages = tt;
          })
          tt (omega arith) (omega arith) (omega arith) refl (omega arith))
        λ _ s' b. record {
          pages = descend (page_count (round_up start) (memory_end s)) (round_up start) [];
          free_list = b.free_list;
          range = λ a.
              subst
                (λ x.
                  (mem a (descend (page_count (round_up start) (memory_end s)) (round_up start) [])
                    ≡ true)
                  ↔ InRange x (memory_end s) a)
                idem (range_iff a (round_up start) (memory_end s) (round_up_aligned start));
          start = b.start;
          end = b.end;
        })
