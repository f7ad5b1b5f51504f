-- ===== src/Rfs.antt =====
-- kernel/rfs.c: the file system on the RAM disk, with the structures of kernel/rfs.h and kernel/vfs.h
-- as words of memory. `sprint` is left out.
pub mod Fs
pub mod Inode
pub mod Mount
pub mod Lookup
use testcode.Base.{
  ℕ, zero, suc, ◌+◌, ◌-◌, ◌*◌, ◌/◌, ◌%◌, ◌^◌, Option, none, some, Bool, true, false, not, ◌&&◌,
  ◌||◌, ◌==◌, if◌then◌else◌,
}
use testcode.Dev.{Code, dop_input, dop_output}
use testcode.Machine.{Kernel, K, pure, ◌>>=◌, ◌>>◌, stop, panic, load, store, load32, store32}
use testcode.Machine.Bytes.{load8, store8, compare_strings}
use testcode.Machine.Memory.{copy, copy_block, clear_page}
use testcode.Machine.Word.{add64, sub32, slt32, sext32, pgsize}
use testcode.Pmm.{alloc_page}
use testcode.Rfs.Fs
use testcode.Rfs.Inode

abbrev pub rfs_type : ℕ
rfs_type = 0

abbrev pub rfs_magic : ℕ
rfs_magic = 12345

abbrev pub rfs_max_inode_num : ℕ
rfs_max_inode_num = 10

abbrev pub rfs_ndirect : ℕ
rfs_ndirect = 10

-- The numbers of the blocks of the superblock, of the first inode, of the bitmap and of the data.
abbrev pub rfs_blkn_super : ℕ
rfs_blkn_super = 0

abbrev pub rfs_blkn_inode : ℕ
rfs_blkn_inode = 1

abbrev pub rfs_blkn_bitmap : ℕ
rfs_blkn_bitmap = 11

abbrev pub rfs_blkn_free : ℕ
rfs_blkn_free = 12

abbrev pub t_free : ℕ
t_free = 0

abbrev pub t_dir : ℕ
t_dir = 2

abbrev pub t_file : ℕ
t_file = 3

-- The size of `struct rfs_direntry`.
abbrev pub direntry_size : ℕ
direntry_size = 32

unfoldable pub alloc_fs : (fs_type : ℕ) → K ℕ
unfolding store32
alloc_fs fs_type = do fs ← alloc_page; store32 (add64 fs Fs.fs_type) fs_type; pure fs

unfoldable pub alloc_inode : (in_type : ℕ) → K ℕ
unfolding store32
alloc_inode in_type = do node ← alloc_page; store32 (add64 node Inode.in_type) in_type; pure node

-- `d_output` of the device moves a block into the buffer, and `d_input` the buffer into a block.
unfoldable pub rfs_r1block : Code → (rfs blkno : ℕ) → K ℕ
unfolding load
rfs_r1block code rfs blkno = do
  dev ← load (add64 rfs Fs.dev)
  buffer ← load (add64 rfs Fs.buffer)
  dop_output code dev buffer blkno

unfoldable pub rfs_w1block : Code → (rfs blkno : ℕ) → K ℕ
unfolding load
rfs_w1block code rfs blkno = do
  dev ← load (add64 rfs Fs.dev)
  buffer ← load (add64 rfs Fs.buffer)
  dop_input code dev buffer blkno

-- `if ((ret = rfs_w1block(...)) != 0) panic(...)`
unfoldable pub write_block : Code → (rfs blkno : ℕ) → K (Unit {0})
write_block code rfs blkno = do
  ret ← rfs_w1block code rfs blkno
  if ret == 0 then pure tt else stop panic

-- The fields of the `struct rfs_dinode` at `d`, but for the addresses.
unfoldable pub set_dinode : (d size node_type nlinks blocks : ℕ) → K (Unit {0})
unfolding store32
set_dinode d size node_type nlinks blocks = do
  store32 (add64 d Inode.size) size
  store32 (add64 d Inode.node_type) node_type
  store32 (add64 d Inode.nlinks) nlinks
  store32 (add64 d Inode.blocks) blocks

-- The operations of an inode, by its type.
unfoldable pub rfs_get_ops : Code → (node_type : ℕ) → K ℕ
rfs_get_ops code node_type =
    if node_type == t_dir
    then pure code.rfs_node_dirops
    else if node_type == t_file
    then pure code.rfs_node_fileops
    else stop panic

-- `n` addresses of blocks are copied.
unfoldable pub copy_addrs : ℕ → (dnode din : ℕ) → K (Unit {0})
copy_addrs n dnode din = copy n (add64 dnode Inode.addrs) (add64 din Inode.addrs)

-- The new inode in memory, of the inode on disk at `din`.
unfoldable pub rfs_create_inode : Code → (rfs din ino : ℕ) → K ℕ
unfolding load store load32 store32
rfs_create_inode code rfs din ino = do
  node ← alloc_inode rfs_type
  size ← load32 (add64 din Inode.size)
  node_type ← load32 (add64 din Inode.node_type)
  nlinks ← load32 (add64 din Inode.nlinks)
  blocks ← load32 (add64 din Inode.blocks)
  set_dinode node size node_type nlinks blocks
  copy_addrs rfs_ndirect node din
  store32 (add64 node Inode.inum) ino
  store32 (add64 node Inode.ref) 0
  store (add64 node Inode.in_fs) rfs
  ops ← rfs_get_ops code node_type
  store (add64 node Inode.in_ops) ops
  pure node

-- The inode is read from the block `RFS_BLKN_INODE`, whatever `ino` is.
unfoldable pub rfs_load_dinode : Code → (rfs ino : ℕ) → K ℕ
unfolding load
rfs_load_dinode code rfs ino = do
  ret ← rfs_r1block code rfs rfs_blkn_inode
  if not (ret == 0)
      then stop panic
      else do buffer ← load (add64 rfs Fs.buffer); rfs_create_inode code rfs buffer ino

unfoldable pub rfs_get_root : Code → (fs : ℕ) → K ℕ
rfs_get_root code fs = rfs_load_dinode code fs rfs_blkn_inode

pub rfs_sync : (fs : ℕ) → K ℕ
rfs_sync fs = stop panic

-- `struct fstat`: mode, links, blocks and size.
pub record Fstat : Type 0 where
  pub st_mode : ℕ
  pub st_nlinks : ℕ
  pub st_blocks : ℕ
  pub st_size : ℕ

unfoldable pub rfs_fstat : (node : ℕ) → K Fstat
unfolding load32
rfs_fstat node = do
  node_type ← load32 (add64 node Inode.node_type)
  nlinks ← load32 (add64 node Inode.nlinks)
  blocks ← load32 (add64 node Inode.blocks)
  size ← load32 (add64 node Inode.size)
  pure (record { st_mode = node_type; st_nlinks = nlinks; st_blocks = blocks; st_size = size })

-- `rfs_unmount`, `rfs_cleanup`, and the operations of the tables of functions that do nothing.
pub rfs_unmount : (fs : ℕ) → K ℕ
rfs_unmount fs = pure 0

pub rfs_cleanup : (fs : ℕ) → K (Unit {0})
rfs_cleanup fs = pure tt

pub rfs_opendir : (node open_flags : ℕ) → K ℕ
rfs_opendir node open_flags = pure 0

pub rfs_openfile : (node open_flags : ℕ) → K ℕ
rfs_openfile node open_flags = pure 0

pub rfs_close : (node : ℕ) → K ℕ
rfs_close node = pure 0
