-- ===== src/Vfs/Entries.antt =====
-- The entries of the table that `files_create` of kernel/file.c makes, for `do_open`.
use testcode.Base.{ℕ, zero, suc, ◌+◌, ◌%◌, ◌≤◌, ◌<◌, ◌≡◌, refl, none, true, ◌^◌, ◌⊎◌, arith}
use testcode.Dev.{Code}
use testcode.File.{SpikeFiles, is_open, file_fd, max_files, ofile, nfile, fd_host}
use testcode.Machine.{Kernel, ok, panic, load32}
use testcode.Machine.Returns.{Returns}
use testcode.Machine.Word.{add64}
use testcode.Vfs.Open.{find_entry, open_inode}
use testcode.Vfs.HostEntries.{opened}

-- The `n` entries from `i` on have the status FD_HOST.
abbrev pub AllHost : Kernel → (pfiles n i : ℕ) → Type 0
AllHost s pfiles n i = (j : ℕ) → i ≤ j → j < i + n → load32 (ofile pfiles j) s ≡ ok fd_host s

find_entry-AllHost :
    (n pfiles i : ℕ) (s : Kernel) → AllHost s pfiles n i → find_entry n pfiles i s ≡ ok none s
unfolding find_entry
find_entry-AllHost zero pfiles i s h = refl
find_entry-AllHost (suc n) pfiles i s h =
    rw (h i (omega arith) (omega arith))
      (find_entry-AllHost n pfiles (i + 1) s (λ j lo hi. h j (omega arith) (omega arith)))

pub open_inode_panic :
    (code : Code) (pfiles flags node : ℕ) (s : Kernel)
    → AllHost s pfiles max_files 0
    → open_inode code pfiles flags node s ≡ panic
unfolding open_inode
open_inode_panic code pfiles flags node s h = rw (find_entry-AllHost max_files pfiles 0 s h) refl

-- Where `files_create` leaves the machine: the open files of the host are in the table, and no
-- entry can be opened.
pub record NoEntry (files : SpikeFiles) (p : ℕ) (s : Kernel) (pfiles : ℕ) (s' : Kernel)
    : Type 0 where
  pub table : pfiles ≡ p
  pub full : (code : Code) (flags node : ℕ) → open_inode code pfiles flags node s' ≡ panic
  pub fds :
      (j : ℕ)
      → j < max_files
      → is_open files j ≡ true
      → load32 (add64 (ofile p j) file_fd) s' ≡ ok (files.kfd j % 2 ^ 32) s'
  pub count : load32 (nfile p) s' ≡ ok (opened max_files files 0) s'
  pub rest : (a : ℕ) → (a < p) ⊎ (p + 4104 < a) → s'.mem a ≡ s.mem a
