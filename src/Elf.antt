-- ===== src/Elf.antt =====
-- kernel/elf.c: the loader of a program. The files of the host are the parameter `ElfFile`; the local
-- variables of the loader are read from the host as words.
pub mod Exec
use testcode.Base.{
  List, ℕ, zero, suc, ◌+◌, ◌-◌, ◌*◌, ◌/◌, ◌%◌, ◌^◌, Bool, true, false, not, ◌==◌, ltb, leb,
  if◌then◌else◌,
}
use testcode.Machine.{K, pure, ◌>>=◌, ◌>>◌, stop, panic, get, load, store, assert}
use testcode.Sched.{epc}
use testcode.Machine.Memory.{clear_page}
use testcode.Machine.Word.{add64, sub64, add32, sext32, pgsize}
use testcode.Pmm.{alloc_page}
use testcode.Process.Create.{code_segment, data_segment, set_fields, set_region}
use testcode.Vmm.{user_vm_map, prot_to_type, prot_read, prot_write, prot_exec}

-- `local_pread f nb offset` reads into a local variable: the result, and the words that are read.
-- `local_open` opens the file whose name is in a local variable.
-- `main_vars` is the call HTIFSYS_getmainvars: the result, and the words of the buffer.
pub record ElfFile : Type 0 where
  pub spike_file_open : (path flags mode : ℕ) → K ℕ
  pub local_open : (path : List ℕ) → (flags mode : ℕ) → K ℕ
  pub spike_file_close : (f : ℕ) → K ℕ
  pub spike_file_pread : (f dest nb offset : ℕ) → K ℕ
  pub local_pread : (f nb offset : ℕ) → K (ℕ × (ℕ → ℕ))
  pub main_vars : K (ℕ × (ℕ → ℕ))

abbrev pub elf_magic : ℕ
elf_magic = 0x464c457f

abbrev pub elf_prog_load : ℕ
elf_prog_load = 1

-- SEGMENT_READABLE with SEGMENT_EXECUTABLE, and with SEGMENT_WRITABLE.
abbrev pub readable_executable : ℕ
readable_executable = 5

abbrev pub readable_writable : ℕ
readable_writable = 6

pub data ElfStatus : Type 0 where
  el_ok el_eio el_enomem el_notelf el_err : ElfStatus

-- The fields of the header that the loader uses, and its size.
pub record ElfHeader : Type 0 where
  pub magic : ℕ
  pub entry : ℕ
  pub phoff : ℕ
  pub phnum : ℕ

abbrev pub header_size : ℕ
header_size = 64

abbrev pub elf_header : (ℕ → ℕ) → ElfHeader
elf_header w = record { magic = w 0 % 2 ^ 32; entry = w 3; phoff = w 4; phnum = w 7 % 2 ^ 16 }

pub record ProgHeader : Type 0 where
  pub seg_type : ℕ
  pub flags : ℕ
  pub off : ℕ
  pub vaddr : ℕ
  pub filesz : ℕ
  pub memsz : ℕ

abbrev pub prog_header_size : ℕ
prog_header_size = 56

abbrev pub prog_header : (ℕ → ℕ) → ProgHeader
prog_header w = record {
  seg_type = w 0 % 2 ^ 32;
  flags = w 0 / 2 ^ 32 % 2 ^ 32;
  off = w 1;
  vaddr = w 2;
  filesz = w 4;
  memsz = w 5;
}

-- A page for a segment of the process `p`.
unfoldable pub elf_alloc_mb : (p elf_va size : ℕ) → K ℕ
elf_alloc_mb p elf_va size = do
  assert (ltb size pgsize)
  pa ← alloc_page
  if pa == 0 then stop panic else do
    clear_page pa
    s ← get
    user_vm_map (s.procs p).pagetable elf_va pgsize pa
        (prot_to_type (prot_write + prot_read + prot_exec) true)
    pure pa

-- The header, or an error.
unfoldable pub elf_init : ElfFile → (f : ℕ) → K (ElfStatus × ElfHeader)
elf_init file f = do
  (ret, w) ← file.local_pread f header_size 0
  let ehdr : ElfHeader = elf_header w
  if not (ret == header_size)
      then pure (el_eio, ehdr)
      else if not (ehdr.magic == elf_magic)
      then pure (el_notelf, ehdr)
      else pure (el_ok, ehdr)

-- The first of the `n` regions from `j` on whose address is 0, or the one behind them.
unfoldable pub find_region : ℕ → (mapped_info j : ℕ) → K ℕ
unfolding load
find_region zero mapped_info j = pure j
find_region (suc n) mapped_info j = do
  va ← load (add64 mapped_info (16 * j))
  let rest : K ℕ = find_region n mapped_info (j + 1)
  if va == 0 then pure j else rest

-- The type of a segment, by its flags.
unfoldable pub segment_type : (flags : ℕ) → K ℕ
segment_type flags =
    if flags == readable_executable
    then pure code_segment
    else if flags == readable_writable
    then pure data_segment
    else stop panic

-- The segment is recorded in `mapped_info`.
unfoldable pub record_region : (p : ℕ) → ProgHeader → K (Unit {0})
record_region p ph = do
  s ← get
  j ← find_region (pgsize / 16) (s.procs p).mapped_info 0
  seg_type ← segment_type ph.flags
  set_region (s.procs p).mapped_info j ph.vaddr 1 seg_type
  set_fields p (λ q. record q { total_mapped_region = add32 q.total_mapped_region 1 })

-- One segment that is to be loaded.
unfoldable pub load_segment : ElfFile → (f p : ℕ) → ProgHeader → K ElfStatus
load_segment file f p ph =
    if ltb ph.memsz ph.filesz
    then pure el_err
    else if ltb (add64 ph.vaddr ph.memsz) ph.vaddr
    then pure el_err
    else do
      dest ← elf_alloc_mb p ph.vaddr ph.memsz
      ret ← file.spike_file_pread f dest ph.memsz ph.off
      if not (ret == ph.memsz) then pure el_eio else do record_region p ph; pure el_ok

-- The `n` program headers from the offset `off` on, which is an `int`.
unfoldable pub load_segments : ℕ → ElfFile → (f p off : ℕ) → K ElfStatus
load_segments zero file f p off = pure el_ok
load_segments (suc n) file f p off = do
  (ret, w) ← file.local_pread f prog_header_size (sext32 off)
  let ph : ProgHeader = prog_header w
  let rest : K ElfStatus = load_segments n file f p (add32 off prog_header_size)
  if not (ret == prog_header_size)
      then pure el_eio
      else if not (ph.seg_type == elf_prog_load)
      then rest
      else do
        status ← load_segment file f p ph
        elim status [
          | el_ok ↦ rest
          | el_eio ↦ pure el_eio
          | el_enomem ↦ pure el_enomem
          | el_notelf ↦ pure el_notelf
          | el_err ↦ pure el_err
        ]

unfoldable pub elf_load : ElfFile → (f p : ℕ) → ElfHeader → K ElfStatus
elf_load file f p ehdr = load_segments ehdr.phnum file f p (ehdr.phoff % 2 ^ 32)

abbrev pub is_ok : ElfStatus → Bool
is_ok el_ok = true
is_ok _ = false

-- The number of arguments behind the kernel, and the first one.
unfoldable pub parse_args : ElfFile → K (ℕ × ℕ)
parse_args file = do
  (r, buf) ← file.main_vars
  assert (r == 0)
  pure (sub64 (buf 0) 1, if ltb 1 (buf 0) then buf 2 else buf 0)

-- `IS_ERR_VALUE`
abbrev pub is_err_value : ℕ → Bool
is_err_value x = leb (2 ^ 64 - 4096) x

-- From the check of the open file `f` on: the program is loaded into the process `p`.
unfoldable pub load_program : ElfFile → (f p : ℕ) → K (Unit {0})
unfolding store
load_program file f p = do
  assert (not (is_err_value f))
  (status, ehdr) ← elf_init file f
  assert (is_ok status)
  status ← elf_load file f p ehdr
  assert (is_ok status)
  s ← get
  store (add64 (s.procs p).trapframe epc) ehdr.entry
  ret ← file.spike_file_close f
  pure tt

unfoldable pub load_bincode_from_host_elf : ElfFile → (p : ℕ) → K (Unit {0})
load_bincode_from_host_elf file p = do
  (argc, arg) ← parse_args file
  assert (not (argc == 0))
  f ← file.spike_file_open arg 0 0
  load_program file f p
