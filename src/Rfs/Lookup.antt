-- ===== src/Rfs/Lookup.antt =====
-- `rfs_lookup` of kernel/rfs.c. `strcmp` runs on fuel.
use testcode.Base.{
  ℕ, zero, suc, ◌+◌, ◌-◌, ◌*◌, ◌/◌, ◌%◌, ◌^◌, Option, none, some, true, false, not, ◌≤◌, ◌<◌, ◌≡◌,
  ◌≢◌, refl, arith, ◌&&◌, ◌==◌, if◌then◌else◌,
}
use testcode.Dev.{Code}
use testcode.Machine.{
  Kernel, K, pure, ◌>>=◌, stop, ok, panic, fault, in_ram, dram_base, phys_top, load, load32,
}
use testcode.Machine.Access.{load_run, load32_low, load32_high}
use testcode.Machine.Bytes.{load8, byte_of, compare_strings}
use testcode.Machine.Word.{add64, sub32, slt32, sext32, pgsize}
use testcode.Rfs.{rfs_r1block, rfs_create_inode, direntry_size}
use testcode.Rfs.Fs
use testcode.Rfs.Inode

-- The inode of the directory entry at `de`; the number of the inode is that of the block it is read
-- from.
unfoldable pub found_entry : Code → (rfs de : ℕ) → K ℕ
unfolding load load32
found_entry code rfs de = do
  inum ← load32 de
  ret ← rfs_r1block code rfs inum
  buffer ← load (add64 rfs Fs.buffer)
  inum ← load32 de
  rfs_create_inode code rfs buffer inum

-- The `n` directory entries from the entry `j` of the block at `de` on.
unfoldable pub find_entry : ℕ → Code → (fuel rfs path de j : ℕ) → K (Option ℕ)
find_entry zero code fuel rfs path de j = pure none
find_entry (suc n) code fuel rfs path de j = do
  let rest : K (Option ℕ) = find_entry n code fuel rfs path de (j + 1)
  c ← compare_strings fuel (add64 de (direntry_size * j + 4)) path
  if not (c == 0)
      then rest
      else do node ← found_entry code rfs (add64 de (direntry_size * j)); pure (some node)

-- The entries in the block `i` of a directory of `size` bytes, as an `int`.
abbrev pub entry_count : (size i : ℕ) → ℕ
entry_count size i =
    let left : ℕ = sub32 size (i * pgsize) in
    if slt32 pgsize left then pgsize / direntry_size else sext32 left / direntry_size % 2 ^ 32

-- The rounds of a loop up to an `int`.
abbrev pub rounds_to : ℕ → ℕ
rounds_to n = if slt32 0 n then n else 0

-- The `n` blocks from the block `i` on. A block is taken to be at the address `addrs[i]`.
unfoldable pub find_in_blocks : ℕ → Code → (fuel rfs node path i : ℕ) → K (Option ℕ)
unfolding load load32
find_in_blocks zero code fuel rfs node path i = pure none
find_in_blocks (suc n) code fuel rfs node path i = do
  de ← load (add64 node (Inode.addrs + 8 * i))
  size ← load32 (add64 node Inode.size)
  found ← find_entry (rounds_to (entry_count size i)) code fuel rfs path de 0
  elim found [
    | some inode ↦ pure (some inode)
    | none ↦ find_in_blocks n code fuel rfs node path (i + 1)
  ]

-- The inode of the file, or `none` for the result 1.
unfoldable pub rfs_lookup : Code → (fuel node path : ℕ) → K (Option ℕ)
rfs_lookup code fuel node path = do
  rfs ← load (add64 node Inode.in_fs)
  c0 ← load8 path
  c1 ← load8 (add64 path 1)
  if c0 == b'/' && c1 == 0 then stop panic else if not (c0 == b'/') then stop panic else do
    blocks ← load32 (add64 node Inode.blocks)
    find_in_blocks (rounds_to blocks) code fuel rfs node (add64 path 1) 0

-- A directory in memory whose first block has a number that is no address of memory.
pub record BlockNumber (s : Kernel) (node : ℕ) : Type 0 where
  pub in_node : (node % 8 ≡ 0) × (dram_base ≤ node) × (node + pgsize ≤ phys_top)
  pub blocks : 0 < s.mem (node + 8) / 2 ^ 32
  pub few : s.mem (node + 8) / 2 ^ 32 < 2 ^ 31
  pub entries : 32 ≤ s.mem node % 2 ^ 32
  pub small : s.mem node % 2 ^ 32 ≤ pgsize
  pub number : s.mem (node + Inode.addrs) < dram_base - pgsize

-- A path in memory that begins with a slash and goes on.
pub record IsAbsolute (s : Kernel) (path : ℕ) : Type 0 where
  pub inside : in_ram (path / 8 * 8) ≡ true
  pub next_inside : in_ram ((path + 1) / 8 * 8) ≡ true
  pub slash : byte_of (s.mem (path / 8 * 8)) (path % 8) ≡ b'/'
  pub named : byte_of (s.mem ((path + 1) / 8 * 8)) ((path + 1) % 8) ≢ 0

compare_strings_fault :
    (fuel a b : ℕ) (s : Kernel) → 0 < fuel → a < dram_base → compare_strings fuel a b s ≡ fault
unfolding compare_strings load8 load
compare_strings_fault zero a b s pos low = absurd (omega arith)
compare_strings_fault (suc n) a b s pos low =
    let out : in_ram (a / 8 * 8) ≡ false = ground arith in rw out refl

find_entry_fault :
    (n : ℕ) (code : Code) (fuel rfs path de : ℕ) (s : Kernel)
    → 0 < n
    → 0 < fuel
    → de < dram_base - pgsize
    → find_entry n code fuel rfs path de 0 s ≡ fault
unfolding find_entry
find_entry_fault zero code fuel rfs path de s some_entry pos low = absurd (omega arith)
find_entry_fault (suc n) code fuel rfs path de s some_entry pos low =
    rw (compare_strings_fault fuel (add64 de (direntry_size * 0 + 4)) path s pos (omega arith)) refl

some_entries : (size : ℕ) → 32 ≤ size → size ≤ pgsize → 0 < rounds_to (entry_count size 0)
some_entries size h k = ground arith

find_in_blocks_fault :
    (n : ℕ) (code : Code) (fuel rfs node path : ℕ) (s : Kernel)
    → BlockNumber s node
    → 0 < n
    → 0 < fuel
    → find_in_blocks n code fuel rfs node path 0 s ≡ fault
unfolding find_in_blocks
find_in_blocks_fault zero code fuel rfs node path s b some_block pos = absurd (omega arith)
find_in_blocks_fault (suc n) code fuel rfs node path s b some_block pos =
    let at : add64 node (Inode.addrs + 8 * 0) ≡ node + Inode.addrs = omega (arith, b.in_node) in
    let at' : add64 node Inode.size ≡ node = omega (arith, b.in_node) in
    rw
      (
        at,
        at',
        load_run (node + Inode.addrs) s (omega (arith, b.in_node)) (omega (arith, b.in_node))
            (omega (arith, b.in_node)),
        load32_low node s b.in_node.0 b.in_node.1 (omega (arith, b.in_node)),
        find_entry_fault (rounds_to (entry_count (s.mem node % 2 ^ 32) 0)) code fuel rfs path
            (s.mem (node + Inode.addrs)) s (some_entries (s.mem node % 2 ^ 32) b.entries b.small)
            pos b.number,
      )
      refl

load8_run :
    (a : ℕ) (s : Kernel)
    → in_ram (a / 8 * 8) ≡ true
    → load8 a s ≡ ok (byte_of (s.mem (a / 8 * 8)) (a % 8)) s
unfolding load8 load
load8_run a s inside = rw inside refl

-- If an inode in memory has a block and a size between 32 bytes and a page, its first block has a
-- number that is at least a page below the start of memory, and the path is in memory, begins
-- with a slash and goes on, then `rfs_lookup` faults.
pub rfs_lookup-BlockNumber :
    (code : Code) (fuel node path : ℕ) (s : Kernel)
    → BlockNumber s node
    → IsAbsolute s path
    → 0 < fuel
    → rfs_lookup code fuel node path s ≡ fault
unfolding rfs_lookup
rfs_lookup-BlockNumber code fuel node path s b name pos =
    let at : add64 node Inode.in_fs ≡ node + Inode.in_fs = omega (arith, b.in_node) in
    let at' : add64 node Inode.blocks ≡ node + 8 + 4 = omega (arith, b.in_node) in
    let at'' : add64 path 1 ≡ path + 1 = ground (arith, name.inside) in
    let n = s.mem (node + 8) / 2 ^ 32 % 2 ^ 32 in
    let some_block : 0 < rounds_to n = ground (arith, b.blocks, b.few) in
    let c0 = byte_of (s.mem (path / 8 * 8)) (path % 8) in
    let c1 = byte_of (s.mem ((path + 1) / 8 * 8)) ((path + 1) % 8) in
    let is_slash : (c0 == b'/') ≡ true = ground (arith, name.slash) in
    let has_name : (c1 == 0) ≡ false = ground (arith, name.named) in
    rw
      (
        at,
        at',
        at'',
        load_run (node + Inode.in_fs) s (omega (arith, b.in_node)) (omega (arith, b.in_node))
            (omega (arith, b.in_node)),
        load8_run path s name.inside,
        load8_run (path + 1) s name.next_inside,
        is_slash,
        has_name,
        load32_high (node + 8) s (omega (arith, b.in_node)) (omega (arith, b.in_node))
            (omega (arith, b.in_node)),
        find_in_blocks_fault (rounds_to n) code fuel (s.mem (node + Inode.in_fs)) node (path + 1) s
            b some_block pos,
      )
      refl
