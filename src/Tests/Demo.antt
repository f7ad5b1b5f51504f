-- ===== src/Tests/Demo.antt =====
-- Four free pages, one address space with the page 0x1000 mapped, and two processes.
use testcode.Base.{
  ℕ, ◌+◌, ◌*◌, ◌%◌, ◌<◌, ◌≡◌, refl, inl, inr, Option, none, some, true, List, [], ◌∷◌, arith, ◌==◌,
  ◌&&◌, leb, ltb, ◌⊎◌, suc, if◌then◌else◌,
}
use testcode.Base.Bits.{has_bit}
use testcode.Machine.{Kernel, Process, ProcStatus, Symbols}
use testcode.Machine.Word.{pgsize}
use testcode.Pmm.FreeList.{IsFree, IsPage}
use testcode.Vmm.Space.{Space}
use testcode.Vmm.Tables.{Role, place, Tables, slot}
use testcode.Sched.Queue.{IsQueue}

abbrev pub directory : ℕ
directory = 0x80001000

abbrev pub middle : ℕ
middle = 0x80002000

abbrev pub last : ℕ
last = 0x80003000

-- The frame of the page 0x1000.
abbrev pub user_frame : ℕ
user_frame = 0x80014000

abbrev pub memory : ℕ → ℕ
memory a =
    if a == directory
    then 0x80002 * 1024 + 1
    else if a == middle
    then 0x80003 * 1024 + 1
    else if a == last + 8
    then 0x80014 * 1024 + 0xd7
    else if a == 0x80010000
    then 0x80011000
    else if a == 0x80011000
    then 0x80012000
    else if a == 0x80012000
    then 0x80013000
    else if a == 0x80015000 + 264
    then 0x1000
    else if a == 0x80016000 + 264
    then 0x1004
    else 0

abbrev pub process : (trapframe ticks : ℕ) → Option ℕ → Process
process trapframe ticks next = record {
  kstack = 0x80018000;
  pagetable = directory;
  trapframe = trapframe;
  mapped_info = 0;
  total_mapped_region = 0;
  pid = 0;
  status = ProcStatus.ready;
  parent = none;
  queue_next = next;
  tick_count = ticks;
  total_tick_count = 0;
  total_mem_count = 0;
  pfiles = 0;
}

abbrev pub idle_process : Process
idle_process = record (process 0 0 none) { status = ProcStatus.free }

-- The process 0 runs, in the last tick of its slice, and the process 1 waits.
abbrev pub demo : Kernel
demo = record {
  mem = memory;
  free_list = 0x80010000;
  free_mem_start_addr = 0x80010000;
  free_mem_end_addr = 0x80020000;
  g_mem_size = 0x4000000;
  g_kernel_pagetable = 0;
  procs = λ i.
      if i == 0
      then process 0x80015000 1 none
      else if i == 1
      then process 0x80016000 0 none
      else idle_process;
  current = some 0;
  ready_queue_head = some 1;
  g_ticks = 0;
  g_ufree_page = 0x400000;
  ramdisk0_base_addr = 0;
  vdev_list = λ i. 0;
  csr = record { sstatus = 0; sepc = 0; scause = 0; stval = 0; sip = 0; satp = 0; stvec = 0 };
}

abbrev pub image : Symbols
image = record {
  kernel_end = 0x80008000;
  etext = 0x80004000;
  trap_sec_start = 0x80003000;
  smode_trap_vector = 0x80003000;
  smode_trap_handler = 0x80000100;
}

abbrev pub demo_pages : List ℕ
demo_pages = 0x80010000 ∷ 0x80011000 ∷ 0x80012000 ∷ 0x80013000 ∷ []

abbrev pub demo_role : Role
demo_role p =
    if p == directory
    then some (place directory 2 0)
    else if p == middle
    then some (place directory 1 0)
    else if p == last
    then some (place directory 0 0)
    else none

IsPage-in_range :
    (p : ℕ) → (p % pgsize == 0 && leb 0x80010000 p && ltb p 0x80020000) ≡ true → IsPage demo p
IsPage-in_range p e = ground (arith, e)

pub demo_pages-IsFree : IsFree demo demo_pages
demo_pages-IsFree = record {
  from_dram = omega arith;
  to_top = omega arith;
  chain = (refl, (refl, (refl, (refl, refl))));
  distinct = (refl, (refl, (refl, (refl, tt))));
  pages = (
    IsPage-in_range _ refl,
    (IsPage-in_range _ refl, (IsPage-in_range _ refl, (IsPage-in_range _ refl, tt))),
  );
}

tables_above :
    (p r l v : ℕ)
    → demo_role p ≡ some (place r (suc l) v)
    → ((p ≡ directory) × (r ≡ directory) × (l ≡ 1) × (v ≡ 0))
      ⊎ ((p ≡ middle) × (r ≡ directory) × (l ≡ 0) × (v ≡ 0))
tables_above p r l v at = ground (arith, at)

only_first :
    (p i : ℕ)
    → (p ≡ directory) ⊎ (p ≡ middle)
    → i < 512
    → has_bit (memory (slot p i)) 0 ≡ true
    → i ≡ 0
only_first p i which h valid = ground (arith, valid)

pub demo-Tables : Tables memory demo_role
demo-Tables = record {
  aligned = λ p x at. ground (arith, at);
  low = λ p x at. ground (arith, at);
  high = λ p x at. ground (arith, at);
  child = λ p r l v i at h valid. elim (tables_above p r l v at) [
    | inl (ep, er, el, ev) ↦
        let first : i ≡ 0 = only_first p i (inl ep) h valid in rw (ep, er, el, ev, first) refl
    | inr (ep, er, el, ev) ↦
        let first : i ≡ 0 = only_first p i (inr ep) h valid in rw (ep, er, el, ev, first) refl
  ];
}

pub demo-Space : Space demo demo_role demo_pages
demo-Space = record {
  free = demo_pages-IsFree;
  tables = demo-Tables;
  apart = λ p i. ground (arith, i);
}

pub demo-IsQueue : IsQueue demo (1 ∷ [])
demo-IsQueue = record {
  links = (refl, refl);
  distinct = (refl, tt);
  below = (omega arith, tt);
  ready = (refl, tt);
}
