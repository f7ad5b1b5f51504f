-- ===== src/Vfs/Path.antt =====
-- Paths in `vfs_open` of kernel/vfs.c.
use testcode.Base.{
  ℕ, zero, suc, ◌+◌, ◌<◌, ◌≡◌, ◌≢◌, refl, false, ◌==◌, none, List, [], ◌∷◌, arith, length,
}
use testcode.Dev.{Code}
use testcode.Hostfs.{Host, host_open}
use testcode.Machine.{Kernel, ok, pure, and_then}
use testcode.Machine.Bytes.{load8}
use testcode.Machine.Word.{add64}
use testcode.Vfs.{find_colon, get_device, vfs_lookup}
use testcode.Vfs.Open.{file_mode, vfs_open}

-- From the index `i` on, the path reads as the bytes `xs`, none of them a colon, and a NUL.
abbrev pub IsHostPath : Kernel → (path i : ℕ) → List ℕ → Type 0
IsHostPath s path i [] = load8 (add64 path i) s ≡ ok 0 s
IsHostPath s path i (x ∷ xs) =
    (load8 (add64 path i) s ≡ ok x s) × (x ≢ 0) × (x ≢ b':') × IsHostPath s path (i + 1) xs

find_colon-none :
    (n path i : ℕ) (s : Kernel) (xs : List ℕ)
    → IsHostPath s path i xs
    → length xs < n
    → find_colon n path i s ≡ ok none s
unfolding find_colon
find_colon-none zero path i s xs h fuel = absurd (omega arith)
find_colon-none (suc n) path i s [] h fuel = rw h refl
find_colon-none (suc n) path i s (x ∷ xs) h fuel =
    let more : (x == 0) ≡ false = ground (arith, h.1) in
    let plain : (x == b':') ≡ false = ground (arith, h.2) in
    rw (h.0, more, plain) (find_colon-none n path (i + 1) s xs h.3 (omega arith))

-- If the path reads as bytes without a colon up to a NUL, the fuel is more than their number, and
-- the mode in the flags is not 3, then `vfs_open` does what `host_open` does with the path,
-- returns its result, and leaves the inode as it was.
pub vfs_open-host_open :
    (code : Code) (host : Host) (fuel stale path flags : ℕ) (s : Kernel) (xs : List ℕ)
    → IsHostPath s path 0 xs
    → length xs < fuel
    → file_mode flags ≢ 3
    → vfs_open code host fuel stale path flags s
      ≡ and_then (host_open host path flags s) (λ kfd. pure (kfd, stale))
unfolding vfs_open vfs_lookup get_device
vfs_open-host_open code host fuel stale path flags s xs h enough mode =
    let valid : (file_mode flags == 3) ≡ false = ground (arith, mode) in
    rw (valid, find_colon-none fuel path 0 s xs h enough) refl
