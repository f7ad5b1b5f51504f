-- ===== src/User/Interface.antt =====
-- user/user_lib.c on one side of a system call and kernel/syscall.c on the other.
use testcode.Base.{ℕ, suc, ◌^◌, ◌%◌, ◌<◌, ◌≡◌, refl, ap, ◌∙◌, arith}
use testcode.Machine.{Kernel, K}
use testcode.Machine.Word.{sext32}
use testcode.Str.{Bytes}
use testcode.Syscall.{sys_user_exit, sys_user_allocate_page, sys_user_free_page, sys_user_yield}
use testcode.Syscall.Files.{
  sys_user_fork, sys_user_wait, sys_user_open, sys_user_read, sys_user_write, sys_user_close,
}
use testcode.Syscall.Table.{
  World, SysCall, sysnum, do_syscall, run_call, do_syscall-sysnum, sys_user_getline, sys_user_exec,
  sys_user_getinfo,
}
use testcode.User.{User, Request, asks, then_run, do_user_call}

-- The calls of the library, less `printu`, with their arguments; `wait` has the rounds `n + 1`.
pub data LibCall : Type 0 where
  lib_exit : (code : ℕ) → LibCall
  lib_malloc : LibCall
  lib_free : (va : ℕ) → LibCall
  lib_fork : LibCall
  lib_yield : LibCall
  lib_wait : (n pid : ℕ) → LibCall
  lib_getline : (dst size : ℕ) → LibCall
  lib_exec : (path argv : ℕ) → LibCall
  lib_open : (pathname flags : ℕ) → LibCall
  lib_read : (fd buf count : ℕ) → LibCall
  lib_write : (fd buf count : ℕ) → LibCall
  lib_close : (fd : ℕ) → LibCall
  lib_getinfo : LibCall

-- What a program runs until it asks the kernel.
abbrev pub program_of : LibCall → (m : Bytes) → User ℕ
program_of (lib_exit code) m = testcode.User.exit code m
program_of lib_malloc m = testcode.User.naive_malloc m
program_of (lib_free va) m = then_run (testcode.User.naive_free va m) (λ _. testcode.User.pure 0)
program_of lib_fork m = testcode.User.fork m
program_of lib_yield m = then_run (testcode.User.yield m) (λ _. testcode.User.pure 0)
program_of (lib_wait n pid) m = testcode.User.wait (suc n) pid m
program_of (lib_getline dst size) m = testcode.User.getlineu dst size m
program_of (lib_exec path argv) m = testcode.User.exec path argv m
program_of (lib_open pathname flags) m = testcode.User.open_file pathname flags m
program_of (lib_read fd buf count) m = testcode.User.read fd buf count m
program_of (lib_write fd buf count) m = testcode.User.write fd buf count m
program_of (lib_close fd) m = testcode.User.close fd m
program_of lib_getinfo m = testcode.User.getinfo m

-- What the kernel is to run for it, on the arguments of the program.
abbrev pub kernel_of : World → LibCall → K ℕ
kernel_of world (lib_exit code) = sys_user_exit world.img (sext32 code)
kernel_of world lib_malloc = sys_user_allocate_page
kernel_of world (lib_free va) = sys_user_free_page va
kernel_of world lib_fork = sys_user_fork world.img world.spike_files
kernel_of world lib_yield = sys_user_yield world.img
kernel_of world (lib_wait n pid) = sys_user_wait pid
kernel_of world (lib_getline dst size) = sys_user_getline world.console dst size
kernel_of world (lib_exec path argv) = sys_user_exec world path argv
kernel_of world (lib_open pathname flags) =
    sys_user_open world.code world.host world.fuel world.stale pathname flags
kernel_of world (lib_read fd buf count) = sys_user_read world.fuel fd buf count
kernel_of world (lib_write fd buf count) = sys_user_write world.fuel fd buf count
kernel_of world (lib_close fd) = sys_user_close fd
kernel_of world lib_getinfo = sys_user_getinfo

-- Arguments of type `int` are patterns of 32 bits.
abbrev pub HasInts : LibCall → Type 0
HasInts (lib_wait n pid) = pid < 2 ^ 32
HasInts (lib_getline dst size) = size < 2 ^ 32
HasInts (lib_open pathname flags) = flags < 2 ^ 32
HasInts (lib_read fd buf count) = fd < 2 ^ 32
HasInts (lib_write fd buf count) = fd < 2 ^ 32
HasInts (lib_close fd) = fd < 2 ^ 32
HasInts c = Unit

-- The program asks, and the kernel runs its function on the request.
pub record Agrees (world : World) (m : Bytes) (program : User ℕ) (call : K ℕ) : Type 0 where
  pub request : Request
  pub next : ℕ → Bytes → User ℕ
  pub asked : program ≡ asks request m next
  pub served :
      (s : Kernel) → do_syscall world request.number request.a1 request.a2 request.a3 s ≡ call s

int_arg : (a : ℕ) → a < 2 ^ 32 → sext32 a % 2 ^ 32 ≡ a
int_arg a h = omega arith

agrees :
    (world : World) (m : Bytes) (sys : SysCall) (a1 a2 a3 : ℕ) {program : User ℕ} {call : K ℕ}
    (next : ℕ → Bytes → User ℕ)
    → program ≡ asks (record { number = sysnum sys; a1 = a1; a2 = a2; a3 = a3 }) m next
    → ((s : Kernel) → run_call world sys a1 a2 a3 s ≡ call s)
    → Agrees world m program call
agrees world m sys a1 a2 a3 next asked runs = record {
  request = record { number = sysnum sys; a1 = a1; a2 = a2; a3 = a3 };
  next = next;
  asked = asked;
  served = λ s. do_syscall-sysnum world sys a1 a2 a3 s ∙ runs s;
}

-- If arguments of type `int` are patterns of 32 bits, the first request of each function of
-- user_lib.c but `printu` makes `do_syscall` run the kernel's function for it on the arguments
-- that the program gave.
pub program_of-Agrees :
    (world : World) (c : LibCall) (m : Bytes)
    → HasInts c
    → Agrees world m (program_of c m) (kernel_of world c)
unfolding testcode.User.exit testcode.User.naive_malloc testcode.User.naive_free testcode.User.fork
    testcode.User.yield testcode.User.wait testcode.User.getlineu testcode.User.exec
    testcode.User.open_file testcode.User.read testcode.User.write testcode.User.close
    testcode.User.getinfo do_user_call then_run run_call
program_of-Agrees world (lib_exit code) m ints =
    agrees world m SysCall.exit (sext32 code) 0 0 _ refl (λ s. refl)
program_of-Agrees world lib_malloc m ints =
    agrees world m SysCall.allocate_page 0 0 0 _ refl (λ s. refl)
program_of-Agrees world (lib_free va) m ints =
    agrees world m SysCall.free_page va 0 0 _ refl (λ s. refl)
program_of-Agrees world lib_fork m ints = agrees world m SysCall.fork 0 0 0 _ refl (λ s. refl)
program_of-Agrees world lib_yield m ints = agrees world m SysCall.yield 0 0 0 _ refl (λ s. refl)
program_of-Agrees world (lib_wait n pid) m ints =
    agrees world m SysCall.wait (sext32 pid) 0 0 _ refl
      (λ s. ap (λ a. sys_user_wait a s) (int_arg pid ints))
program_of-Agrees world (lib_getline dst size) m ints =
    agrees world m SysCall.getline dst (sext32 size) 0 _ refl
      (λ s. ap (λ a. sys_user_getline world.console dst a s) (int_arg size ints))
program_of-Agrees world (lib_exec path argv) m ints =
    agrees world m SysCall.exec path argv 0 _ refl (λ s. refl)
program_of-Agrees world (lib_open pathname flags) m ints =
    agrees world m SysCall.open_file pathname (sext32 flags) 0 _ refl (λ s.
      ap (λ a. sys_user_open world.code world.host world.fuel world.stale pathname a s)
        (int_arg flags ints))
program_of-Agrees world (lib_read fd buf count) m ints =
    agrees world m SysCall.read (sext32 fd) buf count _ refl
      (λ s. ap (λ a. sys_user_read world.fuel a buf count s) (int_arg fd ints))
program_of-Agrees world (lib_write fd buf count) m ints =
    agrees world m SysCall.write (sext32 fd) buf count _ refl
      (λ s. ap (λ a. sys_user_write world.fuel a buf count s) (int_arg fd ints))
program_of-Agrees world (lib_close fd) m ints =
    agrees world m SysCall.close (sext32 fd) 0 0 _ refl
      (λ s. ap (λ a. sys_user_close a s) (int_arg fd ints))
program_of-Agrees world lib_getinfo m ints = agrees world m SysCall.getinfo 0 0 0 _ refl (λ s. refl)
