-- ===== src/Rfs/Mount.antt =====
-- `rfs_do_mount` of kernel/rfs.c: a new file system on the RAM disk. `super.ninodes` is the number that
-- was just written to the superblock.
use testcode.Base.{ℕ, zero, suc, ◌+◌, ◌-◌, ◌*◌}
use testcode.Dev.{Code}
use testcode.Machine.{K, pure, ◌>>=◌, ◌>>◌, store, store32}
use testcode.Machine.Bytes.{store8}
use testcode.Machine.Memory.{copy_block, clear_page}
use testcode.Machine.Word.{add64}
use testcode.Pmm.{alloc_page}
use testcode.Rfs.{
  rfs_type, rfs_magic, rfs_max_inode_num, rfs_ndirect, rfs_blkn_super, rfs_blkn_inode,
  rfs_blkn_bitmap, rfs_blkn_free, t_free, t_dir, direntry_size, alloc_fs, write_block, set_dinode,
}
use testcode.Rfs.Fs
use testcode.Rfs.Inode

-- The buffer is written to the blocks of the inodes from the inode `i` on.
unfoldable pub write_inodes : ℕ → Code → (rfs i : ℕ) → K (Unit {0})
write_inodes zero code rfs i = pure tt
write_inodes (suc n) code rfs i = do
  write_block code rfs (rfs_blkn_inode + i)
  write_inodes n code rfs (i + 1)

-- The superblock of a new file system, in its `struct rfs_fs`.
unfoldable pub set_superblock : (rfs : ℕ) → K (Unit {0})
unfolding store32
set_superblock rfs = do
  store32 rfs rfs_magic
  store32 (add64 rfs 4) (1 + rfs_max_inode_num + 1 + rfs_max_inode_num * rfs_ndirect)
  store32 (add64 rfs 8) (rfs_max_inode_num * rfs_ndirect)
  store32 (add64 rfs 12) rfs_max_inode_num

-- The superblock and the bitmap.
unfoldable pub write_super : Code → (rfs buffer : ℕ) → K (Unit {0})
unfolding store store32
write_super code rfs buffer = do
  set_superblock rfs
  copy_block buffer rfs
  write_block code rfs rfs_blkn_super
  freemap ← alloc_page
  store (add64 rfs Fs.freemap) freemap
  clear_page freemap
  store32 freemap 1
  copy_block buffer freemap
  write_block code rfs rfs_blkn_bitmap

-- The inodes, and the block of the root directory.
unfoldable pub write_root : Code → (rfs buffer : ℕ) → K (Unit {0})
unfolding store store32 store8
write_root code rfs buffer = do
  set_dinode buffer 0 t_free 0 0
  write_inodes (rfs_max_inode_num - 1) code rfs 1
  set_dinode buffer direntry_size t_dir 1 1
  store (add64 buffer Inode.addrs) rfs_blkn_free
  write_block code rfs rfs_blkn_inode
  store32 buffer rfs_blkn_inode
  store8 (add64 buffer 4) b'/'
  store8 (add64 buffer 5) 0
  write_block code rfs rfs_blkn_free

-- The file system is stored at `*vfs_fs`.
unfoldable pub rfs_do_mount : Code → (dev vfs_fs : ℕ) → K ℕ
unfolding store store32
rfs_do_mount code dev vfs_fs = do
  fs ← alloc_fs rfs_type
  store (add64 fs Fs.dev) dev
  store32 (add64 fs Fs.dirty) 0
  buffer ← alloc_page
  store (add64 fs Fs.buffer) buffer
  write_super code fs buffer
  write_root code fs buffer
  store (add64 fs Fs.fs_sync) code.rfs_sync_ptr
  store (add64 fs Fs.fs_get_root) code.rfs_get_root_ptr
  store (add64 fs Fs.fs_unmount) code.rfs_unmount_ptr
  store (add64 fs Fs.fs_cleanup) code.rfs_cleanup_ptr
  store vfs_fs fs
  pure 0
