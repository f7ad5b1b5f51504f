-- ===== src/Rfs/Fs.antt =====
-- Offsets in `struct fs` of kernel/vfs.h, which begins with its `struct rfs_fs` of kernel/rfs.h.
use testcode.Base.{ℕ}

abbrev pub dev : ℕ
dev = 16

abbrev pub freemap : ℕ
freemap = 24

abbrev pub dirty : ℕ
dirty = 32

abbrev pub buffer : ℕ
buffer = 40

abbrev pub fs_type : ℕ
fs_type = 48

abbrev pub fs_sync : ℕ
fs_sync = 56

abbrev pub fs_get_root : ℕ
fs_get_root = 64

abbrev pub fs_unmount : ℕ
fs_unmount = 72

abbrev pub fs_cleanup : ℕ
fs_cleanup = 80
