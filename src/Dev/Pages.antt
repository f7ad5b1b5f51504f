-- ===== src/Dev/Pages.antt =====
-- The pages that `init_ramdisk0` of kernel/dev.c takes.
use testcode.Base.{ℕ, zero, suc, ◌+◌, ◌*◌, ◌≡◌, List, [], ◌∷◌, ◌++◌, arith}
use testcode.Dev.{alloc_blocks, init_ramdisk0, ramdisk0_block}
use testcode.Machine.{Kernel}
use testcode.Machine.Returns.{Returns, returns}
use testcode.Machine.Word.{pgsize}
use testcode.Pmm.FreeList.{IsFree, taken, alloc_page-IsFree}

-- `n` pages that end with the page `base`, the highest first.
abbrev pub pages_down : ℕ → (base : ℕ) → List ℕ
pages_down zero base = []
pages_down (suc n) base = (base + n * pgsize) ∷ pages_down n base

-- The disk begins at `base`, and the pages `xs` are free.
pub record HasDisk (base : ℕ) (xs : List ℕ) (s' : Kernel) : Type 0 where
  pub base_addr : s'.ramdisk0_base_addr ≡ base
  pub free_list : IsFree s' xs

set_base :
    {s : Kernel} {xs : List ℕ} (p : ℕ)
    → IsFree s xs
    → IsFree (record s { ramdisk0_base_addr = p }) xs
set_base p v = record {
  from_dram = v.from_dram;
  to_top = v.to_top;
  chain = v.chain;
  distinct = v.distinct;
  pages = v.pages;
}

alloc_blocks-HasDisk :
    (n base : ℕ) (xs : List ℕ) (s : Kernel)
    → IsFree s (pages_down (suc n) base ++ xs)
    → Returns (λ _. HasDisk base xs) (alloc_blocks (suc n) s)
unfolding alloc_blocks
alloc_blocks-HasDisk zero base xs s v =
    let (run, v') = alloc_page-IsFree v in
    rw run
      (returns (record { base_addr = omega arith; free_list = set_base (base + 0 * pgsize) v' }))
alloc_blocks-HasDisk (suc n) base xs s v =
    let (run, v') = alloc_page-IsFree v in
    let p = base + suc n * pgsize in
    rw run (
      alloc_blocks-HasDisk n base xs (record (taken p s) { ramdisk0_base_addr = p })
        (set_base p v'))

-- If the free list begins with 128 pages that stand one below the other, `init_ramdisk0` returns:
-- the disk begins at the lowest of these pages, and the free list stands for the pages behind
-- them.
pub init_ramdisk0-HasDisk :
    (base : ℕ) (xs : List ℕ) (s : Kernel)
    → IsFree s (pages_down ramdisk0_block base ++ xs)
    → Returns (λ _. HasDisk base xs) (init_ramdisk0 s)
unfolding init_ramdisk0
init_ramdisk0-HasDisk base xs s v = alloc_blocks-HasDisk 127 base xs s v
