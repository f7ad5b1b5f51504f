-- ===== src/Vmm.antt =====
-- kernel/vmm.c: Sv39 page tables in physical memory. A table is a page of 512 words, and the entry
-- of a page at level 0, 1 or 2 is found by nine bits of the virtual address.
pub mod Entry
pub mod Lookup
pub mod Map
pub mod NewPage
pub mod NewRoot
pub mod Off
pub mod Owner
pub mod Space
pub mod Tables
pub mod Unmap
pub mod Walk
use testcode.Base.{
  ℕ, zero, suc, ◌+◌, ◌-◌, ◌*◌, ◌/◌, ◌%◌, ◌^◌, bit_or, Option, none, some, Bool, true, false, ◌||◌,
  ◌&&◌, not, ◌==◌, ltb, leb, if◌then◌else◌,
}
use testcode.Base.Bits.{has_bit}
use testcode.Machine.{
  Kernel, Symbols, K, pure, ◌>>=◌, ◌>>◌, stop, panic, out_of_fuel, modify, load, store, dram_base,
  phys_top, max_va,
}
use testcode.Machine.Memory.{clear_page}
use testcode.Machine.Word.{add64, sub64, pgsize, round_down}
use testcode.Pmm.{alloc_page, free_page}

abbrev pub pa_to_pte : ℕ → ℕ
pa_to_pte pa = pa / 2 ^ 12 * 2 ^ 10

abbrev pub pte_to_pa : ℕ → ℕ
pte_to_pa pte = pte / 2 ^ 10 * 2 ^ 12 % 2 ^ 64

abbrev pub pte_flags : ℕ → ℕ
pte_flags pte = pte % 2 ^ 10

-- PX(level, va).
abbrev pub px : ℕ → ℕ → ℕ
px level va = va / 2 ^ (12 + 9 * level) % 2 ^ 9

-- The numbers of the bits PTE_V, PTE_R and PTE_W.
abbrev pub bit_v : ℕ
bit_v = 0

abbrev pub bit_r : ℕ
bit_r = 1

abbrev pub bit_w : ℕ
bit_w = 2

abbrev pub prot_read : ℕ
prot_read = 1

abbrev pub prot_write : ℕ
prot_write = 2

abbrev pub prot_exec : ℕ
prot_exec = 4

-- `if (c) perm |= flags`.
abbrev or_if : Bool → ℕ → ℕ → ℕ
or_if c perm flags = if c then bit_or perm flags else perm

-- PTE_R | PTE_A is 0x42, PTE_W | PTE_D is 0x84, PTE_X | PTE_A is 0x48, and PTE_U is 0x10.
unfoldable pub prot_to_type : (prot : ℕ) → (user : Bool) → ℕ
prot_to_type prot user =
    let perm : ℕ = or_if (has_bit prot 0) 0 0x42 in
    let perm : ℕ = or_if (has_bit prot 1) perm 0x84 in
    let perm : ℕ = or_if (has_bit prot 2) perm 0x48 in
    let perm : ℕ = if perm == 0 then 0x2 else perm in or_if user perm 0x10

abbrev pub entry : (level pt va : ℕ) → ℕ
entry level pt va = add64 pt (8 * px level va)

-- One round of the loop of `page_walk`: the table of the next level, or `none` for `return 0`.
unfoldable pub walk_step : (alloc : Bool) → (level pt va : ℕ) → K (Option ℕ)
unfolding load store
walk_step alloc level pt va = do
  e ← load (entry level pt va)
  if has_bit e bit_v then pure (some (pte_to_pa e)) else if not alloc then pure none else do
    p ← alloc_page
    if p == 0
        then pure none
        else do clear_page p; store (entry level pt va) (bit_or (pa_to_pte p) 1); pure (some p)

unfoldable pub walk : (alloc : Bool) → (level pt va : ℕ) → K ℕ
unfolding walk_step
walk alloc zero pt va = pure (entry 0 pt va)
walk alloc (suc level) pt va = do
  next ← walk_step alloc (suc level) pt va
  elim next [ none ↦ pure 0 | some p ↦ walk alloc level p va ]

-- The address of the entry that maps `va`, or 0.
unfoldable pub page_walk : (page_dir va : ℕ) → (alloc : Bool) → K ℕ
unfolding walk
page_walk page_dir va alloc = if leb max_va va then stop panic else walk alloc 2 page_dir va

-- The `int` -1.
abbrev pub minus_one : ℕ
minus_one = 2 ^ 32 - 1

unfoldable pub map_loop : ℕ → (page_dir first last pa perm : ℕ) → K ℕ
unfolding load store
map_loop zero page_dir first last pa perm = stop out_of_fuel
map_loop (suc n) page_dir first last pa perm = if ltb last first then pure 0 else do
  pte ← page_walk page_dir first true
  if pte == 0 then pure minus_one else do
    e ← load pte
    if has_bit e bit_v then stop panic else do
      store pte (bit_or (bit_or (pa_to_pte pa) perm) 1)
      map_loop n page_dir (add64 first pgsize) last (add64 pa pgsize) perm

-- The last page of a range of `size` bytes from `va` on.
abbrev pub last_page : (va size : ℕ) → ℕ
last_page va size = round_down (sub64 (add64 va size) 1)

unfoldable pub map_pages : (page_dir va size pa perm : ℕ) → K ℕ
map_pages page_dir va size pa perm =
    map_loop ((last_page va size - round_down va) / pgsize + 2) page_dir (round_down va)
      (last_page va size) pa perm

-- The physical address of the page that holds `va`, or 0.
unfoldable pub lookup_pa : (pagetable va : ℕ) → K ℕ
unfolding load
lookup_pa pagetable va = if leb max_va va then pure 0 else do
  pte ← page_walk pagetable va false
  if pte == 0 then pure 0 else do
    e ← load pte
    if not (has_bit e bit_v) || (not (has_bit e bit_r) && not (has_bit e bit_w))
        then pure 0
        else pure (pte_to_pa e)

pub kern_vm_map : (page_dir va pa sz perm : ℕ) → K (Unit {0})
kern_vm_map page_dir va pa sz perm = do
  ret ← map_pages page_dir va sz pa perm
  if ret == 0 then pure tt else stop panic

pub kern_vm_init : Symbols → K (Unit {0})
unfolding kern_vm_map
kern_vm_init sym = do
  t_page_dir ← alloc_page
  clear_page t_page_dir
  kern_vm_map t_page_dir dram_base dram_base (sub64 sym.etext dram_base)
      (prot_to_type (prot_read + prot_exec) false)
  shown ← lookup_pa t_page_dir dram_base
  kern_vm_map t_page_dir sym.etext sym.etext (sub64 phys_top sym.etext)
      (prot_to_type (prot_read + prot_write) false)
  shown ← lookup_pa t_page_dir sym.etext
  modify (λ s. record s { g_kernel_pagetable = t_page_dir })

-- The physical address of a byte of the user's memory, or 0.
unfoldable pub user_va_to_pa : (page_dir va : ℕ) → K ℕ
user_va_to_pa page_dir va = do
  page_addr ← lookup_pa page_dir va
  if page_addr == 0 then pure 0 else pure (add64 page_addr (va % 2 ^ 12))

unfoldable pub user_vm_map : (page_dir va size pa perm : ℕ) → K (Unit {0})
user_vm_map page_dir va size pa perm = do
  ret ← map_pages page_dir va size pa perm
  if ret == 0 then pure tt else stop panic

-- One round of the loop of `user_vm_unmap`.
unfoldable pub unmap_page : (page_dir a : ℕ) → (free : Bool) → K (Unit {0})
unfolding load store
unmap_page page_dir a free = do
  pte ← page_walk page_dir a false
  if pte == 0 then stop panic else do
    e ← load pte
    if not (has_bit e bit_v)
        then stop panic
        else if pte_flags e == 1
        then stop panic
        else do if free then free_page (pte_to_pa e) else pure tt; store pte 0

unfoldable pub unmap_loop : ℕ → (page_dir a end : ℕ) → (free : Bool) → K (Unit {0})
unfolding unmap_page
unmap_loop zero page_dir a end free = stop out_of_fuel
unmap_loop (suc n) page_dir a end free =
    if ltb a end
    then unmap_page page_dir a free >> unmap_loop n page_dir (add64 a pgsize) end free
    else pure tt

unfoldable pub user_vm_unmap : (page_dir va size : ℕ) → (free : Bool) → K (Unit {0})
user_vm_unmap page_dir va size free =
    if not (va % pgsize == 0)
    then stop panic
    else unmap_loop ((add64 va size - va) / pgsize + 2) page_dir va (add64 va size) free
