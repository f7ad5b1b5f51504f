-- ===== src/File.antt =====
-- kernel/file.c: the table of open files of a process, on a page of its own. The files of the host
-- interface are the parameter `SpikeFiles`.
use testcode.Base.{ℕ, zero, suc, ◌+◌, ◌*◌, Bool, not, ◌==◌, if◌then◌else◌}
use testcode.Machine.{K, pure, ◌>>=◌, ◌>>◌, store, load32, store32}
use testcode.Machine.Word.{add64, add32}
use testcode.Pmm.{alloc_page, free_page}
use testcode.Vmm.{minus_one}

-- The array `spike_files`: `kfd` and `refcnt` of each entry.
pub record SpikeFiles : Type 0 where
  pub kfd : ℕ → ℕ
  pub refcnt : ℕ → ℕ

abbrev pub max_files : ℕ
max_files = 128

-- The values of `status`.
abbrev pub fd_host : ℕ
fd_host = 0

abbrev pub fd_none : ℕ
fd_none = 1

-- `&pfiles->ofile[i]`, and the offsets in `struct file`.
abbrev pub ofile : (pfiles i : ℕ) → ℕ
ofile pfiles i = add64 pfiles (8 + 32 * i)

abbrev pub file_fd : ℕ
file_fd = 12

abbrev pub file_ref : ℕ
file_ref = 20

-- `&pfiles->nfile`
abbrev pub nfile : (pfiles : ℕ) → ℕ
nfile pfiles = add64 pfiles (8 + 32 * max_files)

abbrev pub is_open : SpikeFiles → (i : ℕ) → Bool
is_open files i = not (files.kfd i == minus_one)

-- The entry `i` becomes a file of the host.
unfoldable pub host_entry : SpikeFiles → (pfiles i : ℕ) → K (Unit {0})
host_entry files pfiles i = do
  store32 (ofile pfiles i) fd_host
  store32 (add64 (ofile pfiles i) file_fd) (files.kfd i)
  store32 (add64 (ofile pfiles i) file_ref) (files.refcnt i)
  n ← load32 (nfile pfiles)
  store32 (nfile pfiles) (add32 n 1)

-- The first loop, for `n` entries from `i` on.
unfoldable pub host_entries : ℕ → SpikeFiles → (pfiles i : ℕ) → K (Unit {0})
host_entries zero files pfiles i = pure tt
host_entries (suc n) files pfiles i = do
  if is_open files i then host_entry files pfiles i else pure tt
  host_entries n files pfiles (i + 1)

-- An entry that is no file of the host is free.
unfoldable pub free_entry : (pfiles i : ℕ) → K (Unit {0})
unfolding store32 load32
free_entry pfiles i = do
  status ← load32 (ofile pfiles i)
  if status == fd_host
      then pure tt
      else do store32 (ofile pfiles i) fd_none; store32 (add64 (ofile pfiles i) file_ref) 0

-- The second loop.
unfoldable pub free_entries : ℕ → (pfiles i : ℕ) → K (Unit {0})
free_entries zero pfiles i = pure tt
free_entries (suc n) pfiles i = free_entry pfiles i >> free_entries n pfiles (i + 1)

unfoldable pub files_create : SpikeFiles → K ℕ
unfolding store
files_create files = do
  pfiles ← alloc_page
  store pfiles 0
  store32 (nfile pfiles) 0
  host_entries max_files files pfiles 0
  free_entries max_files pfiles 0
  pure pfiles

pub files_destroy : (pfiles : ℕ) → K (Unit {0})
files_destroy pfiles = free_page pfiles

unfoldable pub do_read : (fd buf count : ℕ) → K ℕ
do_read fd buf count = pure minus_one

unfoldable pub do_write : (fd buf count : ℕ) → K ℕ
do_write fd buf count = pure minus_one

pub do_close : (fd : ℕ) → K ℕ
do_close fd = pure minus_one
