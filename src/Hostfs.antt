-- ===== src/Hostfs.antt =====
-- kernel/hostfs.c: files of the host. The functions of the host interface are the record `Host`; a file
-- is the address of a `spike_file_t`, and an error is a negative `int64`.
use testcode.Base.{ℕ, ◌^◌, leb, if◌then◌else◌}
use testcode.Machine.{K, pure, ◌>>=◌, ◌>>◌}
use testcode.Machine.Word.{slt32}
use testcode.Vmm.{minus_one}

pub record Host : Type 0 where
  pub spike_file_open : (path flags mode : ℕ) → K ℕ
  pub spike_file_dup : (f : ℕ) → K ℕ
  pub spike_file_decref : (f : ℕ) → K (Unit {0})
  pub spike_file_get : (fd : ℕ) → K ℕ
  pub spike_file_read : (f buf count : ℕ) → K ℕ
  pub spike_file_write : (f buf count : ℕ) → K ℕ
  pub spike_file_close : (f : ℕ) → K ℕ

-- A descriptor, or -1.
unfoldable pub host_open : Host → (pathname flags : ℕ) → K ℕ
host_open host pathname flags = do
  f ← host.spike_file_open pathname flags 0
  if leb (2 ^ 63) f then pure minus_one else do
    fd ← host.spike_file_dup f
    if slt32 fd 0 then (host.spike_file_decref f >> pure minus_one) else pure fd

pub host_read : Host → (fd buf count : ℕ) → K ℕ
host_read host fd buf count = do f ← host.spike_file_get fd; host.spike_file_read f buf count

pub host_write : Host → (fd buf count : ℕ) → K ℕ
host_write host fd buf count = do f ← host.spike_file_get fd; host.spike_file_write f buf count

pub host_close : Host → (fd : ℕ) → K ℕ
host_close host fd = do f ← host.spike_file_get fd; host.spike_file_close f
