-- ===== src/Tests/Disk.antt =====
-- The theorems on the RAM disk, files and the table of open files, on small states.
use testcode.Base.{
  ℕ, zero, suc, ◌+◌, ◌-◌, ◌*◌, ◌^◌, ◌≤◌, ◌≡◌, inl, refl, false, [], ◌∷◌, ◌++◌, arith, ◌==◌, ◌<◌,
  ltb, ◌||◌, if◌then◌else◌, mem, All, Distinct,
}
use testcode.Dev.{Code, ramdisk0_input, ramdisk0_output, init_ramdisk0}
use testcode.Dev.Disk.{Stored, ramdisk0_output-ramdisk0_input}
use testcode.Dev.Pages.{pages_down, HasDisk, init_ramdisk0-HasDisk}
use testcode.File.{SpikeFiles}
use testcode.Hostfs.{Host, host_open}
use testcode.Machine.{Kernel, ok, fault, pure, and_then, load}
use testcode.Machine.Bytes.{byte_of, load8, compare_strings}
use testcode.Machine.Returns.{Returns}
use testcode.Machine.Word.{pgsize}
use testcode.Pmm.FreeList.{Chain, IsPage, IsFree}
use testcode.Rfs.Lookup.{rfs_lookup, BlockNumber, IsAbsolute, rfs_lookup-BlockNumber}
use testcode.Syscall.Files.{sys_user_read, sys_user_write, sys_user_read-count}
use testcode.Tests.Demo.{demo, demo-Tables}
use testcode.Vfs.{get_entry}
use testcode.Vfs.Device.{Differs, at_match, get_entry-Stops}
use testcode.Vfs.Open.{vfs_open}
use testcode.Vfs.Path.{IsHostPath, vfs_open-host_open}
use testcode.Vmm.{minus_one}

abbrev with_disk : Kernel
with_disk = record demo { ramdisk0_base_addr = 0x80020000 }

ramdisk0_output-ramdisk0_input_example :
    (s1 : Kernel) × (s' : Kernel) × (ramdisk0_input 0x80010000 1 with_disk ≡ ok 0 s1)
    × (ramdisk0_output 0x80011000 1 s1 ≡ ok 0 s')
    × Stored 0x80010000 0x80011000 1 with_disk s'
ramdisk0_output-ramdisk0_input_example =
    ramdisk0_output-ramdisk0_input 0x80010000 0x80011000 1 with_disk (omega arith)
      (refl, omega arith, omega arith) (refl, omega arith, omega arith)
      (refl, omega arith, omega arith) (inl (omega arith)) (inl (omega arith))

abbrev disk_base : ℕ
disk_base = 0x80010000

-- 128 free pages, the highest first.
abbrev fresh : Kernel
fresh = record demo {
  mem = λ a. if a == disk_base then 0 else a - 4096;
  free_list = disk_base + 127 * pgsize;
  free_mem_start_addr = disk_base;
  free_mem_end_addr = disk_base + 128 * pgsize;
}

down_Chain : (n : ℕ) → Chain fresh.mem (disk_base + n * pgsize) (pages_down (suc n) disk_base ++ [])
down_Chain zero = (refl, refl)
down_Chain (suc n) =
    let next : fresh.mem (disk_base + suc n * pgsize) ≡ disk_base + n * pgsize = ground arith in
    (refl, rw next (down_Chain n))

not_below : (n p : ℕ) → disk_base + n * pgsize ≤ p → mem p (pages_down n disk_base ++ []) ≡ false
not_below zero p h = refl
not_below (suc n) p h = ground (arith, not_below n p (omega arith))

down_Distinct : (n : ℕ) → Distinct (pages_down n disk_base ++ [])
down_Distinct zero = tt
down_Distinct (suc n) = (not_below n (disk_base + n * pgsize) (omega arith), down_Distinct n)

down_pages : (n : ℕ) → n ≤ 128 → All (IsPage fresh) (pages_down n disk_base ++ [])
down_pages zero h = tt
down_pages (suc n) h = ((omega arith, omega arith, omega arith), down_pages n (omega arith))

fresh-IsFree : IsFree fresh (pages_down 128 disk_base ++ [])
fresh-IsFree = record {
  from_dram = omega arith;
  to_top = omega arith;
  chain = down_Chain 127;
  distinct = down_Distinct 128;
  pages = down_pages 128 (omega arith);
}

init_ramdisk0-HasDisk_example : Returns (λ _. HasDisk disk_base []) (init_ramdisk0 fresh)
init_ramdisk0-HasDisk_example = init_ramdisk0-HasDisk disk_base [] fresh fresh-IsFree

-- Two devices, "h" and "rd", whose name is asked for from another place in memory.
abbrev with_devices : Kernel
with_devices = record demo {
  mem = λ a.
      if a == 0x80012000
      then 0x80013000
      else if a == 0x80012008
      then 0x80013008
      else if a == 0x80013000
      then b'h'
      else if a == 0x80013008 || a == 0x80013010
      then b'r' + b'd' * 256
      else 0;
  vdev_list = λ i. if i == 0 then 0x80012000 else if i == 1 then 0x80012008 else 0;
}

name_run :
    (load 0x80012000 with_devices ≡ ok 0x80013000 with_devices)
    × (load 0x80012008 with_devices ≡ ok 0x80013008 with_devices)
unfolding load
name_run = (refl, refl)

compare_run :
    (compare_strings 3 0x80013000 0x80013010 with_devices ≡ ok (2 ^ 32 - 10) with_devices)
    × (compare_strings 3 0x80013008 0x80013010 with_devices ≡ ok 0 with_devices)
unfolding load load8 byte_of compare_strings
compare_run = (refl, refl)

host_Differs : (j : ℕ) → j < 1 → Differs 3 0x80013010 with_devices j
host_Differs j h =
    let first : j ≡ 0 = omega arith in
    rw first (record {
      compared = record {
        name = 0x80013000;
        difference = 2 ^ 32 - 10;
        load_run = name_run.0;
        compare_run = compare_run.0;
      };
      other = omega arith;
    })

get_entry-Stops_example : get_entry 3 0x80013010 with_devices ≡ ok 0x80012008 with_devices
get_entry-Stops_example =
    get_entry-Stops 3 0x80013010 with_devices 1 (ok 0x80012008 with_devices) (omega arith)
      host_Differs
      (at_match
        (record {
          name = 0x80013008;
          difference = 0;
          load_run = name_run.1;
          compare_run = compare_run.1;
        })
        refl)

-- The standard files of the host, and no other.
abbrev pub std_files : SpikeFiles
std_files = record {
  kfd = λ i. if ltb i 3 then i else minus_one;
  refcnt = λ i. if ltb i 3 then 4 else 0;
}

-- A free page of zeros.
abbrev zero_pages : Kernel
zero_pages = record demo { mem = λ a. 0 }

abbrev pub code : Code
code = record {
  ramdisk0_input_ptr = 1;
  ramdisk0_output_ptr = 2;
  rfs_sync_ptr = 3;
  rfs_get_root_ptr = 4;
  rfs_unmount_ptr = 5;
  rfs_cleanup_ptr = 6;
  rfs_node_dirops = 7;
  rfs_node_fileops = 8;
  ramdisk0_name = 9;
}

-- The root directory that a mount makes, at 0x80010000, and the path "/a" at 0x80011000.
abbrev with_root : Kernel
with_root = record demo {
  mem = λ a.
      if a == 0x80010000
      then 2 * 2 ^ 32 + 32
      else if a == 0x80010008
      then 2 ^ 32 + 1
      else if a == 0x80010010
      then 12
      else if a == 0x80011000
      then 97 * 256 + 47
      else 0;
}

root_block : BlockNumber with_root 0x80010000
root_block = record {
  in_node = (refl, omega arith, omega arith);
  blocks = omega arith;
  few = omega arith;
  entries = omega arith;
  small = omega arith;
  number = omega arith;
}

path-IsAbsolute : IsAbsolute with_root 0x80011000
unfolding byte_of
path-IsAbsolute = record { inside = refl; next_inside = refl; slash = refl; named = omega arith }

rfs_lookup-BlockNumber_example : rfs_lookup code 2 0x80010000 0x80011000 with_root ≡ fault
rfs_lookup-BlockNumber_example =
    rfs_lookup-BlockNumber code 2 0x80010000 0x80011000 with_root root_block path-IsAbsolute
      (omega arith)

sys_user_read-count_example :
    (sys_user_read 2 0 0x1000 100 demo ≡ ok 100 demo)
    × (sys_user_write 2 0 0x1000 100 demo ≡ ok 100 demo)
sys_user_read-count_example =
    sys_user_read-count {s = demo} 0 0 0 0x1000 100 refl demo-Tables refl (omega arith)

-- A host that opens each file as the descriptor 3.
abbrev pub host : Host
host = record {
  spike_file_open = λ path flags mode. pure 0x1000;
  spike_file_dup = λ f. pure 3;
  spike_file_decref = λ f. pure tt;
  spike_file_get = λ fd. pure 0x1000;
  spike_file_read = λ f buf count. pure 0;
  spike_file_write = λ f buf count. pure 0;
  spike_file_close = λ f. pure 0;
}

path-IsHostPath : IsHostPath with_root 0x80011000 0 (b'/' ∷ b'a' ∷ [])
unfolding load8 load byte_of
path-IsHostPath = (refl, omega arith, omega arith, (refl, omega arith, omega arith, refl))

vfs_open-host_open_example :
    vfs_open code host 3 0 0x80011000 2 with_root
    ≡ and_then (host_open host 0x80011000 2 with_root) (λ kfd. pure (kfd, 0))
vfs_open-host_open_example =
    vfs_open-host_open code host 3 0 0x80011000 2 with_root (b'/' ∷ b'a' ∷ []) path-IsHostPath
      (omega arith) (omega arith)
