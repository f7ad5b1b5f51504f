-- ===== src/Rfs/Inode.antt =====
-- Offsets in `struct inode` of kernel/vfs.h, which begins with its `struct rfs_dinode` of kernel/rfs.h.
use testcode.Base.{ℕ}

abbrev pub size : ℕ
size = 0

abbrev pub node_type : ℕ
node_type = 4

abbrev pub nlinks : ℕ
nlinks = 8

abbrev pub blocks : ℕ
blocks = 12

abbrev pub addrs : ℕ
addrs = 16

abbrev pub in_type : ℕ
in_type = 96

abbrev pub inum : ℕ
inum = 100

abbrev pub ref : ℕ
ref = 104

abbrev pub in_fs : ℕ
in_fs = 112

abbrev pub in_ops : ℕ
in_ops = 120
