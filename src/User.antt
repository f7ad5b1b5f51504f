-- ===== src/User.antt =====
-- user/user_lib.c: a program of a user as the system calls it asks for, less those of `printu`.
pub mod Interface
pub mod Programs
pub mod Serve
use testcode.Base.{ℕ, zero, suc, ◌+◌, ◌%◌, ◌^◌, List, ◌==◌, if◌then◌else◌}
use testcode.Machine.Word.{sext32}
use testcode.Process.{minus_two}
use testcode.Str.{Bytes}
use testcode.Syscall.Table.{SysCall, sysnum}

-- The number of a call and its first three arguments; the others are 0.
pub record Request : Type 0 where
  pub number : ℕ
  pub a1 : ℕ
  pub a2 : ℕ
  pub a3 : ℕ

-- A program returns, asks the kernel, or runs out of fuel. The kernel answers with the register
-- a0 and with memory, since it may write there.
pub data User {ℓ} (A : Type ℓ) : Type ℓ where
  returned : A → Bytes → User A
  asks : Request → Bytes → (ℕ → Bytes → User A) → User A
  out_of_fuel : User A

-- Code of a user, which runs on its memory.
abbrev pub Code {ℓ} : Type ℓ → Type ℓ
Code A = Bytes → User A

unfoldable pub then_run {ℓ κ} : {A : Type ℓ} {B : Type κ} → User A → (A → Code B) → User B
then_run (returned a m) f = f a m
then_run (asks r m k) f = asks r m (λ ret m'. then_run (k ret m') f)
then_run out_of_fuel f = out_of_fuel

abbrev pub pure {ℓ} : {A : Type ℓ} → A → Code A
pure a m = returned a m

infixl 5 ◌>>=◌ ◌>>◌
abbrev pub ◌>>=◌ {ℓ κ} : {A : Type ℓ} {B : Type κ} → Code A → (A → Code B) → Code B
(c >>= f) m = then_run (c m) f

abbrev pub ◌>>◌ {ℓ κ} : {A : Type ℓ} {B : Type κ} → Code A → Code B → Code B
(c >> d) m = then_run (c m) (λ a. d)

abbrev pub memory : Code Bytes
memory m = returned m m

abbrev pub no_fuel {ℓ} : {A : Type ℓ} → Code A
no_fuel m = out_of_fuel

-- The answer goes through a variable of type `int`.
unfoldable pub do_user_call : SysCall → (a1 a2 a3 : ℕ) → Code ℕ
do_user_call call a1 a2 a3 m =
    asks (record { number = sysnum call; a1 = a1; a2 = a2; a3 = a3 }) m
      (λ ret m'. returned (sext32 (ret % 2 ^ 32)) m')

-- A call whose result is an `int`.
abbrev pub int_call : SysCall → (a1 a2 a3 : ℕ) → Code ℕ
int_call call a1 a2 a3 = do ret ← do_user_call call a1 a2 a3; pure (ret % 2 ^ 32)

-- Arguments of type `int` are 32-bit patterns, whose sign is extended.
unfoldable pub exit : (code : ℕ) → Code ℕ
exit code = int_call SysCall.exit (sext32 code) 0 0

unfoldable pub naive_malloc : Code ℕ
naive_malloc = do_user_call SysCall.allocate_page 0 0 0

unfoldable pub naive_free : (va : ℕ) → Code (Unit {0})
naive_free va = do ret ← do_user_call SysCall.free_page va 0 0; pure tt

unfoldable pub fork : Code ℕ
fork = int_call SysCall.fork 0 0 0

unfoldable pub yield : Code (Unit {0})
yield = do ret ← do_user_call SysCall.yield 0 0 0; pure tt

-- The loop gets `n` rounds.
unfoldable pub wait : ℕ → (pid : ℕ) → Code ℕ
wait zero pid = no_fuel
wait (suc n) pid = do
  ret ← int_call SysCall.wait (sext32 pid) 0 0
  if ret == minus_two then (yield >> wait n pid) else pure ret

unfoldable pub getlineu : (dst size : ℕ) → Code ℕ
getlineu dst size = int_call SysCall.getline dst (sext32 size) 0

unfoldable pub exec : (path argv : ℕ) → Code ℕ
exec path argv = int_call SysCall.exec path argv 0

unfoldable pub open_file : (pathname flags : ℕ) → Code ℕ
open_file pathname flags = int_call SysCall.open_file pathname (sext32 flags) 0

unfoldable pub read : (fd buf count : ℕ) → Code ℕ
read fd buf count = int_call SysCall.read (sext32 fd) buf count

unfoldable pub write : (fd buf count : ℕ) → Code ℕ
write fd buf count = int_call SysCall.write (sext32 fd) buf count

unfoldable pub close : (fd : ℕ) → Code ℕ
close fd = int_call SysCall.close (sext32 fd) 0 0

unfoldable pub getinfo : Code ℕ
getinfo = int_call SysCall.getinfo 0 0 0
