-- ===== src/Pmm.antt =====
-- kernel/pmm.c: the list of free physical pages. A free page holds in its first word the address of
-- the next one.
pub mod FreeList
pub mod Init
use testcode.Base.{
  ℕ, zero, suc, ◌+◌, ◌-◌, ◌*◌, ◌/◌, ◌%◌, ◌^◌, Option, none, some, Bool, ◌||◌, not, ◌==◌, ltb, leb,
  if◌then◌else◌, update,
}
use testcode.Machine.{
  Kernel, Process, Symbols, K, pure, ◌>>=◌, ◌>>◌, stop, panic, out_of_fuel, get, modify, load,
  store, dram_base,
}
use testcode.Machine.Word.{add32, sub32, add64, sub64, pgsize, round_up}

-- `if ( current != NULL ) ++ current->total_mem_count`, or `--`.
abbrev pub count_procs : (ℕ → ℕ) → Option ℕ → (ℕ → Process) → ℕ → Process
count_procs f none procs = procs
count_procs f (some i) procs =
    update procs i (record (procs i) { total_mem_count = f (procs i).total_mem_count })

abbrev pub count_page : (ℕ → ℕ) → Kernel → Kernel
count_page f s = record s { procs = count_procs f s.current s.procs }

unfoldable pub free_page : ℕ → K (Unit {0})
unfolding store
free_page pa = do
  s ← get
  if not (pa % pgsize == 0) || ltb pa s.free_mem_start_addr || leb s.free_mem_end_addr pa
      then stop panic
      else do
        store pa s.free_list
        modify (λ t. record t { free_list = pa })
        modify (count_page (λ c. sub32 c 1))

-- The address of a page, or 0 if no page is left.
unfoldable pub alloc_page : K ℕ
unfolding load
alloc_page = do
  s ← get
  if s.free_list == 0 then (modify (count_page (λ c. add32 c 1)) >> pure 0) else do
    next ← load s.free_list
    modify (λ t. record t { free_list = next })
    modify (count_page (λ c. add32 c 1))
    pure s.free_list

-- The loop `for (p = ...; p + PGSIZE < end; p += PGSIZE) free_page(p)`.
free_pages : ℕ → (p end : ℕ) → K (Unit {0})
free_pages zero p end = stop out_of_fuel
free_pages (suc n) p end =
    if ltb (add64 p pgsize) end then free_page p >> free_pages n (add64 p pgsize) end else pure tt

abbrev pub rounds : (start end : ℕ) → ℕ
rounds start end = (end - round_up start) / pgsize + 1

pub create_freepage_list : (start end : ℕ) → K (Unit {0})
unfolding free_pages
create_freepage_list start end = do
  modify (λ s. record s { free_list = 0 })
  free_pages (rounds start end) (round_up start) end

abbrev pub pke_max_allowable_ram : ℕ
pke_max_allowable_ram = 128 * 1024 * 1024

abbrev pub min_ram : ℕ → ℕ
min_ram n = if ltb pke_max_allowable_ram n then pke_max_allowable_ram else n

pub pmm_init : Symbols → K (Unit {0})
unfolding create_freepage_list
pmm_init sym = do
  let kernel_size = sub64 sym.kernel_end dram_base
  modify (λ s. record s {
    free_mem_start_addr = round_up sym.kernel_end;
    g_mem_size = min_ram s.g_mem_size;
  })
  s ← get
  if ltb s.g_mem_size kernel_size then stop panic else do
    modify (λ t. record t { free_mem_end_addr = add64 t.g_mem_size dram_base })
    t ← get
    create_freepage_list t.free_mem_start_addr t.free_mem_end_addr
