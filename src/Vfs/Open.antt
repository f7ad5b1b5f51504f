-- ===== src/Vfs/Open.antt =====
-- `vfs_open` of kernel/vfs.c and `do_open` of kernel/file.c.
use testcode.Base.{ℕ, zero, suc, ◌+◌, ◌*◌, ◌%◌, Option, none, some, not, ◌||◌, ◌==◌, if◌then◌else◌}
use testcode.Dev.{Code}
use testcode.File.{max_files, ofile, nfile, file_fd, file_ref, fd_host, fd_none}
use testcode.Hostfs.{Host, host_open}
use testcode.Machine.{
  K, pure, ◌>>=◌, ◌>>◌, stop, panic, fault, get, load, store, load32, store32, deref,
}
use testcode.Machine.Word.{add64, add32, sext32}
use testcode.Rfs.{Fstat, rfs_fstat}
use testcode.Rfs.Inode
use testcode.Vfs.{on_host, not_found, inode, vfs_lookup}

-- `flags & MASK_FILEMODE`; the values from 0 on are O_RDONLY, O_WRONLY and O_RDWR.
abbrev pub file_mode : (flags : ℕ) → ℕ
file_mode flags = flags % 4

-- The result, and the inode. A file that is not found leaves `*inode_store` what `node` was, which is
-- not initialised: `stale`.
unfoldable pub vfs_open : Code → Host → (fuel stale path flags : ℕ) → K (ℕ × ℕ)
vfs_open code host fuel stale path flags = if file_mode flags == 3 then stop panic else do
  found ← vfs_lookup code fuel path
  elim found [
    | on_host ↦ do kfd ← host_open host path flags; pure (kfd, stale)
    | inode n ↦ pure (0, n)
    | not_found ↦ pure (0, stale)
  ]

-- `&pfiles->ofile[fd]` for a descriptor that may be negative.
abbrev pub ofile_at : (pfiles fd : ℕ) → ℕ
ofile_at pfiles fd = add64 pfiles (8 + 32 * sext32 fd)

-- The first entry with FD_NONE among the `n` from `fd` on.
unfoldable pub find_entry : ℕ → (pfiles fd : ℕ) → K (Option ℕ)
unfolding load32
find_entry zero pfiles fd = pure none
find_entry (suc n) pfiles fd = do
  status ← load32 (ofile pfiles fd)
  let rest : K (Option ℕ) = find_entry n pfiles (fd + 1)
  if status == fd_none then pure (some fd) else rest

-- `vop_fstat(node, stat)`
unfoldable pub vop_fstat : Code → (node : ℕ) → K Fstat
unfolding load
vop_fstat code node = do
  ops ← load (add64 node Inode.in_ops)
  if ops == code.rfs_node_dirops || ops == code.rfs_node_fileops then rfs_fstat node else stop fault

-- The entry `fd` is opened on an inode; FD_OPENED is 2.
unfoldable pub open_entry : Code → (pfiles fd flags node : ℕ) → K (Unit {0})
unfolding store store32
open_entry code pfiles fd flags node = do
  let pfile : ℕ = ofile pfiles fd
  store32 pfile 2
  store32 (add64 pfile 4) (if file_mode flags == 1 then 0 else 1)
  store32 (add64 pfile 8) (if file_mode flags == 0 then 0 else 1)
  store32 (add64 pfile file_fd) fd
  store32 (add64 pfile file_ref) 1
  store (add64 pfile 24) node
  store32 (add64 pfile 16) 0
  st ← vop_fstat code node
  store32 (add64 pfile 16) st.st_size

-- `++ current->pfiles->nfile; return pfile->fd`
unfoldable pub count_file : (pfiles pfile : ℕ) → K ℕ
unfolding load32 store32
count_file pfiles pfile = do
  n ← load32 (nfile pfiles)
  store32 (nfile pfiles) (add32 n 1)
  load32 (add64 pfile file_fd)

-- The file of the host `fd`, or the error -1.
unfoldable pub open_host : (pfiles fd : ℕ) → K ℕ
unfolding store32
open_host pfiles fd = do
  store32 (ofile_at pfiles fd) fd_host
  store32 (add64 (ofile_at pfiles fd) file_fd) fd
  count_file pfiles (ofile_at pfiles fd)

unfoldable pub open_inode : Code → (pfiles flags node : ℕ) → K ℕ
open_inode code pfiles flags node = do
  entry ← find_entry max_files pfiles 0
  elim entry [
    | none ↦ stop panic
    | some fd ↦ do open_entry code pfiles fd flags node; count_file pfiles (ofile pfiles fd)
  ]

unfoldable pub do_open : Code → Host → (fuel stale pathname flags : ℕ) → K ℕ
do_open code host fuel stale pathname flags = if file_mode flags == 3 then stop panic else do
  (ret, node) ← vfs_open code host fuel stale pathname flags
  s ← get
  i ← deref s.current
  if not (ret == 0)
      then open_host (s.procs i).pfiles ret
      else open_inode code (s.procs i).pfiles flags node
