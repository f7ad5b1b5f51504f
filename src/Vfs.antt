-- ===== src/Vfs.antt =====
-- kernel/vfs.c: devices, their file systems, and paths. Loops that end at a NUL byte run on fuel.
pub mod Device
pub mod Entries
pub mod HostEntries
pub mod Open
pub mod Path
use testcode.Base.{
  ℕ, zero, suc, ◌+◌, ◌-◌, ◌*◌, ◌/◌, ◌%◌, ◌^◌, Option, none, some, Bool, true, false, not, ◌&&◌,
  ◌||◌, ◌==◌, if◌then◌else◌,
}
use testcode.Dev.{Code, dev_ptr, dev_fs, dev_init}
use testcode.File.{max_files, ofile, nfile, file_fd, file_ref, fd_host, fd_none}
use testcode.Hostfs.{Host, host_open}
use testcode.Machine.{
  Kernel, K, pure, ◌>>=◌, ◌>>◌, stop, panic, fault, out_of_fuel, get, load, store, load32, store32,
  deref,
}
use testcode.Machine.Bytes.{load8, store8, compare_strings}
use testcode.Machine.Word.{add64, add32}
use testcode.Rfs.Mount.{rfs_do_mount}
use testcode.Rfs.{rfs_get_root, Fstat, rfs_fstat}
use testcode.Rfs.Fs
use testcode.Rfs.Inode
use testcode.Rfs.Lookup.{rfs_lookup}
use testcode.Vmm.{minus_one}

abbrev pub max_dev : ℕ
max_dev = 10

-- The search in `vdev_list`, for the `n` devices from `i` on: `found` is the last one looked at.
unfoldable pub find_device : ℕ → (fuel devname i found : ℕ) → K ℕ
unfolding load
find_device zero fuel devname i found = pure found
find_device (suc n) fuel devname i found = do
  s ← get
  name ← load (s.vdev_list i)
  c ← compare_strings fuel name devname
  let rest : K ℕ = find_device n fuel devname (i + 1) (s.vdev_list i)
  if c == 0 then pure (s.vdev_list i) else rest

-- A device that is not null.
unfoldable pub get_entry : (fuel devname : ℕ) → K ℕ
get_entry fuel devname = do
  pdev ← find_device max_dev fuel devname 0 0
  if pdev == 0 then stop panic else pure pdev

unfoldable pub vfs_mount : (fuel devname : ℕ) → (mountfunc : ℕ → ℕ → K ℕ) → K ℕ
unfolding load
vfs_mount fuel devname mountfunc = do
  pdev ← get_entry fuel devname
  pdevice ← load (add64 pdev dev_ptr)
  ret ← mountfunc pdevice (add64 pdev dev_fs)
  pure 0

unfoldable pub rfs_mount : Code → (fuel devname : ℕ) → K ℕ
rfs_mount code fuel devname = vfs_mount fuel devname (rfs_do_mount code)

unfoldable pub rfs_init : Code → (fuel : ℕ) → K (Unit {0})
rfs_init code fuel = do
  ret ← rfs_mount code fuel code.ramdisk0_name
  if ret == 0 then pure tt else stop panic

unfoldable pub fs_init : Code → (fuel : ℕ) → K (Unit {0})
fs_init code fuel = do dev_init code; rfs_init code fuel

-- `fsop_get_root(fs)`
unfoldable pub fsop_get_root : Code → (fs : ℕ) → K ℕ
unfolding load
fsop_get_root code fs = do
  ptr ← load (add64 fs Fs.fs_get_root)
  if ptr == code.rfs_get_root_ptr then rfs_get_root code fs else stop fault

-- The inode of the root directory of the device.
unfoldable pub vfs_get_root : Code → (fuel devname : ℕ) → K ℕ
unfolding load
vfs_get_root code fuel devname = do
  pdev ← get_entry fuel devname
  fs ← load (add64 pdev dev_fs)
  rootdir ← fsop_get_root code fs
  if rootdir == 0 then stop panic else pure rootdir

-- The index of the first colon of a path, from the index `i` on.
unfoldable pub find_colon : ℕ → (path i : ℕ) → K (Option ℕ)
unfolding load8
find_colon zero path i = stop out_of_fuel
find_colon (suc n) path i = do
  c ← load8 (add64 path i)
  let rest : K (Option ℕ) = find_colon n path (i + 1)
  if c == 0 then pure none else if c == b':' then pure (some i) else rest

-- A path on a device: the path there, and the root directory; `none` for a file of the host. The
-- colon is overwritten.
unfoldable pub get_device : Code → (fuel path : ℕ) → K (Option (ℕ × ℕ))
unfolding store8
get_device code fuel path = do
  colon ← find_colon fuel path 0
  elim colon [
    | none ↦ pure none
    | some i ↦ do
      store8 (add64 path i) 0
      root ← vfs_get_root code fuel path
      pure (some (add64 path (i + 1), root))
  ]

-- What `vfs_lookup` finds: -1, 0 with an inode, or 1.
pub data Found : Type 0 where
  on_host not_found : Found
  inode : ℕ → Found

-- `vop_lookup(dir, path, node_store)`
unfoldable pub vop_lookup : Code → (fuel dir path : ℕ) → K Found
unfolding load
vop_lookup code fuel dir path = do
  ops ← load (add64 dir Inode.in_ops)
  if not (ops == code.rfs_node_dirops) then stop fault else do
    node ← rfs_lookup code fuel dir path
    pure (elim node [ none ↦ not_found | some n ↦ inode n ])

unfoldable pub vfs_lookup : Code → (fuel path : ℕ) → K Found
unfolding load8
vfs_lookup code fuel path = do
  device ← get_device code fuel path
  elim device [
    | none ↦ pure on_host
    | some (subpath, dir) ↦ do
      c ← load8 subpath
      if not (c == b'/') then stop panic else vop_lookup code fuel dir subpath
  ]
