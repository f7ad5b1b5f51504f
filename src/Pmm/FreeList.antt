-- ===== src/Pmm/FreeList.antt =====
-- The free list of kernel/pmm.c as a list of pages, for `free_page` and `alloc_page`.
use testcode.Base.{
  ℕ, ◌%◌, ◌≤◌, ◌<◌, ◌≡◌, refl, true, false, mem-head, mem-tail, List, [], ◌∷◌, arith, All, mem,
  Distinct, update, update_self,
}
use testcode.Machine.{Kernel, ok, panic, dram_base, phys_top}
use testcode.Machine.Word.{pgsize, add32, sub32}
use testcode.Pmm.{count_page, free_page, alloc_page}

-- From `h` the first words of the pages lead through `xs` to the null pointer.
abbrev pub Chain : (ℕ → ℕ) → ℕ → List ℕ → Type 0
Chain m h [] = h ≡ 0
Chain m h (x ∷ xs) = (h ≡ x) × Chain m (m x) xs

-- `p` is a page that the memory manager hands out.
abbrev pub IsPage : Kernel → ℕ → Type 0
IsPage s p = (p % pgsize ≡ 0) × (s.free_mem_start_addr ≤ p) × (p < s.free_mem_end_addr)

pub record IsFree (s : Kernel) (xs : List ℕ) : Type 0 where
  pub from_dram : dram_base ≤ s.free_mem_start_addr
  pub to_top : s.free_mem_end_addr ≤ phys_top
  pub chain : Chain s.mem s.free_list xs
  pub distinct : Distinct xs
  pub pages : All (IsPage s) xs

pub Chain-update :
    (m : ℕ → ℕ) (h a v : ℕ) (xs : List ℕ)
    → mem a xs ≡ false
    → Chain m h xs
    → Chain (update m a v) h xs
Chain-update m h a v [] out c = c
Chain-update m h a v (x ∷ xs) out c = ground (arith, Chain-update m (m x) a v xs)

pub Chain-frame :
    (m m' : ℕ → ℕ) (h : ℕ) (xs : List ℕ)
    → ((x : ℕ) → mem x xs ≡ true → m' x ≡ m x)
    → Chain m h xs
    → Chain m' h xs
Chain-frame m m' h [] same c = c
Chain-frame m m' h (x ∷ xs) same c = (
  c.0,
  rw (same x (mem-head x xs)) (Chain-frame m m' (m x) xs (λ y i. same y (mem-tail y x xs i)) c.1),
)

-- The state after `alloc_page` took the page `p`.
abbrev pub taken : ℕ → Kernel → Kernel
taken p s = count_page (λ c. add32 c 1) (record s { free_list = s.mem p })

-- The state after `free_page` put the page `p` back.
abbrev pub released : ℕ → Kernel → Kernel
released p s =
    count_page (λ c. sub32 c 1) (record s { mem = update s.mem p s.free_list; free_list = p })

-- If the free list stands for a list of pages with `p` in front, `alloc_page` returns `p` and the
-- free list stands for the rest.
pub alloc_page-IsFree :
    {s : Kernel} {p : ℕ} {xs : List ℕ}
    → IsFree s (p ∷ xs)
    → (alloc_page s ≡ ok p (taken p s)) × IsFree (taken p s) xs
unfolding alloc_page
alloc_page-IsFree {s} {p} {xs} v = (
  ground arith,
  record {
    from_dram = v.from_dram;
    to_top = v.to_top;
    chain = v.chain.1;
    distinct = v.distinct.1;
    pages = v.pages.1;
  },
)

pub alloc_page_empty :
    {s : Kernel} → IsFree s [] → alloc_page s ≡ ok 0 (count_page (λ c. add32 c 1) s)
unfolding alloc_page
alloc_page_empty v = ground arith

-- If the free list stands for a list of pages and `p` is a page that the memory manager hands out
-- and not in it, `free_page` returns and the free list stands for the list with `p` in front.
pub free_page-IsFree :
    {s : Kernel} (p : ℕ) {xs : List ℕ}
    → IsFree s xs
    → IsPage s p
    → mem p xs ≡ false
    → (free_page p s ≡ ok tt (released p s)) × IsFree (released p s) (p ∷ xs)
unfolding free_page
free_page-IsFree {s} p {xs} v page out = (
  ground arith,
  record {
    from_dram = v.from_dram;
    to_top = v.to_top;
    chain = (refl, rw (update_self s.mem p s.free_list) (Chain-update s.mem _ p _ xs out v.chain));
    distinct = (out, v.distinct);
    pages = (page, v.pages);
  },
)

pub free_page_panic : (s : Kernel) (p : ℕ) → ¬ (IsPage s p) → free_page p s ≡ panic
unfolding free_page
free_page_panic s p h = ground arith
