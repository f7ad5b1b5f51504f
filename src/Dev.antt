-- ===== src/Dev.antt =====
-- kernel/dev.c: the RAM disk, and its entry in the list of devices. A function pointer is the address
-- of the code, from the record `Code`, and a call through it compares.
pub mod Disk
pub mod Pages
use testcode.Base.{
  ℕ, zero, suc, ◌+◌, ◌-◌, ◌*◌, ◌/◌, ◌%◌, ◌^◌, Bool, true, false, not, ◌||◌, ◌==◌, if◌then◌else◌,
  update,
}
use testcode.Machine.{
  Kernel, K, pure, ◌>>=◌, ◌>>◌, stop, panic, fault, get, modify, load, store, store32,
}
use testcode.Machine.Memory.{copy_block}
use testcode.Machine.Word.{add64, slt32, pgsize}
use testcode.Pmm.{alloc_page}

-- Addresses that the linker gives to functions, tables of functions and strings.
pub record Code : Type 0 where
  pub ramdisk0_input_ptr : ℕ
  pub ramdisk0_output_ptr : ℕ
  pub rfs_sync_ptr : ℕ
  pub rfs_get_root_ptr : ℕ
  pub rfs_unmount_ptr : ℕ
  pub rfs_cleanup_ptr : ℕ
  pub rfs_node_dirops : ℕ
  pub rfs_node_fileops : ℕ
  pub ramdisk0_name : ℕ

abbrev pub ramdisk0_block : ℕ
ramdisk0_block = 128

-- The block number is a pattern of type `int`.
abbrev pub is_block : ℕ → Bool
is_block blkno = not (slt32 blkno 0 || not (slt32 blkno ramdisk0_block))

abbrev pub block_addr : (base blkno : ℕ) → ℕ
block_addr base blkno = add64 base (blkno * pgsize)

unfoldable pub ramdisk0_input : (buffer blkno : ℕ) → K ℕ
ramdisk0_input buffer blkno = do
  s ← get
  if not (is_block blkno)
      then stop panic
      else do copy_block (block_addr s.ramdisk0_base_addr blkno) buffer; pure 0

unfoldable pub ramdisk0_output : (buffer blkno : ℕ) → K ℕ
ramdisk0_output buffer blkno = do
  s ← get
  if not (is_block blkno)
      then stop panic
      else do copy_block buffer (block_addr s.ramdisk0_base_addr blkno); pure 0

-- Offsets in `struct device` and `struct vfs_dev_t`.
abbrev pub d_input : ℕ
d_input = 8

abbrev pub d_output : ℕ
d_output = 16

abbrev pub dev_ptr : ℕ
dev_ptr = 16

abbrev pub dev_fs : ℕ
dev_fs = 24

-- A call through a pointer to a function of a device.
unfoldable pub call_device : Code → (ptr buffer blkno : ℕ) → K ℕ
call_device code ptr buffer blkno =
    if ptr == code.ramdisk0_input_ptr
    then ramdisk0_input buffer blkno
    else if ptr == code.ramdisk0_output_ptr
    then ramdisk0_output buffer blkno
    else stop fault

-- `dop_input(dev, buffer, blkno)`
unfoldable pub dop_input : Code → (dev buffer blkno : ℕ) → K ℕ
unfolding load
dop_input code dev buffer blkno = do
  ptr ← load (add64 dev d_input)
  call_device code ptr buffer blkno

-- `dop_output(dev, buffer, blkno)`
unfoldable pub dop_output : Code → (dev buffer blkno : ℕ) → K ℕ
unfolding load
dop_output code dev buffer blkno = do
  ptr ← load (add64 dev d_output)
  call_device code ptr buffer blkno

unfoldable pub dev_init_ramdisk0 : Code → K (Unit {0})
unfolding store store32
dev_init_ramdisk0 code = do
  pdev ← alloc_page
  store pdev code.ramdisk0_name
  store32 (add64 pdev 8) 0
  pd ← alloc_page
  store32 pd ramdisk0_block
  store32 (add64 pd 4) pgsize
  store (add64 pd d_input) code.ramdisk0_input_ptr
  store (add64 pd d_output) code.ramdisk0_output_ptr
  store (add64 pdev dev_ptr) pd
  modify λ s. record s { vdev_list = update s.vdev_list 0 pdev }

-- `n` rounds of the loop of `init_ramdisk0`.
unfoldable pub alloc_blocks : ℕ → K (Unit {0})
alloc_blocks zero = pure tt
alloc_blocks (suc n) = do
  page ← alloc_page
  modify (λ s. record s { ramdisk0_base_addr = page })
  alloc_blocks n

unfoldable pub init_ramdisk0 : K (Unit {0})
init_ramdisk0 = alloc_blocks ((ramdisk0_block * pgsize - 1) / pgsize + 1)

pub dev_init : Code → K (Unit {0})
dev_init code = do init_ramdisk0; dev_init_ramdisk0 code
