-- ===== src/Syscall/Table.antt =====
-- The table of system calls of kernel/syscall.c, and the calls on the console and on programs.
use testcode.Base.{
  ℕ, ◌+◌, ◌%◌, ◌^◌, ◌≡◌, refl, ap, Bool, true, false, ◌==◌, Option, none, some, if◌then◌else◌,
}
use testcode.Dev.{Code}
use testcode.Elf.{ElfFile}
use testcode.Elf.Exec.{current_pa, do_exec}
use testcode.File.{SpikeFiles}
use testcode.Hostfs.{Host}
use testcode.Machine.{Kernel, Symbols, K, pure, ◌>>=◌, ◌>>◌, stop, panic, get, assert}
use testcode.Process.Info.{do_getinfo}
use testcode.Syscall.{sys_user_exit, sys_user_allocate_page, sys_user_free_page, sys_user_yield}
use testcode.Syscall.Files.{
  sys_user_fork, sys_user_wait, sys_user_open, sys_user_read, sys_user_write, sys_user_close,
}

-- Output of a string and input of a line, at addresses of the kernel.
pub record Console : Type 0 where
  pub sprint : (pa : ℕ) → K (Unit {0})
  pub sgetline : (pa size : ℕ) → K (Unit {0})

-- What the kernel is linked with and runs on, and the fuel of its loops on strings and files.
pub record World : Type 0 where
  pub img : Symbols
  pub code : Code
  pub spike_files : SpikeFiles
  pub host : Host
  pub elf : ElfFile
  pub console : Console
  pub stale : ℕ
  pub fuel : ℕ

abbrev pub has_current : Kernel → Bool
has_current s = elim s.current [ none ↦ false | some i ↦ true ]

unfoldable pub sys_user_print : Console → (buf n : ℕ) → K ℕ
sys_user_print console buf n = do
  s ← get
  assert (has_current s)
  pa ← current_pa buf
  console.sprint pa
  pure 0

unfoldable pub sys_user_getline : Console → (dst size : ℕ) → K ℕ
sys_user_getline console dst size = do
  s ← get
  assert (has_current s)
  pa ← current_pa dst
  console.sgetline pa size
  pure 0

pub sys_user_exec : World → (path argv : ℕ) → K ℕ
sys_user_exec world path argv = do ret ← do_exec world.img world.elf world.fuel argv; pure 0

pub sys_user_getinfo : K ℕ
sys_user_getinfo = do_getinfo

-- The numbers of the calls.
pub data SysCall : Type 0 where
  print exit allocate_page free_page fork yield wait getline exec open_file read write close
        getinfo :
      SysCall

abbrev pub sys_user_base : ℕ
sys_user_base = 64

abbrev pub sysnum : SysCall → ℕ
sysnum SysCall.print = sys_user_base
sysnum SysCall.exit = sys_user_base + 1
sysnum SysCall.allocate_page = sys_user_base + 2
sysnum SysCall.free_page = sys_user_base + 3
sysnum SysCall.fork = sys_user_base + 4
sysnum SysCall.yield = sys_user_base + 5
sysnum SysCall.wait = sys_user_base + 14
sysnum SysCall.getline = sys_user_base + 15
sysnum SysCall.exec = sys_user_base + 16
sysnum SysCall.open_file = sys_user_base + 17
sysnum SysCall.read = sys_user_base + 18
sysnum SysCall.write = sys_user_base + 19
sysnum SysCall.close = sys_user_base + 20
sysnum SysCall.getinfo = sys_user_base + 21

-- The branch of the `switch` that a number selects.
unfoldable pub decode : (a0 : ℕ) → Option SysCall
decode a0 =
    if a0 == sysnum SysCall.print
    then some SysCall.print
    else if a0 == sysnum SysCall.exit
    then some SysCall.exit
    else if a0 == sysnum SysCall.allocate_page
    then some SysCall.allocate_page
    else if a0 == sysnum SysCall.free_page
    then some SysCall.free_page
    else if a0 == sysnum SysCall.fork
    then some SysCall.fork
    else if a0 == sysnum SysCall.yield
    then some SysCall.yield
    else if a0 == sysnum SysCall.wait
    then some SysCall.wait
    else if a0 == sysnum SysCall.getline
    then some SysCall.getline
    else if a0 == sysnum SysCall.exec
    then some SysCall.exec
    else if a0 == sysnum SysCall.open_file
    then some SysCall.open_file
    else if a0 == sysnum SysCall.read
    then some SysCall.read
    else if a0 == sysnum SysCall.write
    then some SysCall.write
    else if a0 == sysnum SysCall.close
    then some SysCall.close
    else if a0 == sysnum SysCall.getinfo
    then some SysCall.getinfo
    else none

-- The function of a branch; an argument of type `int` is the low half of a register.
unfoldable pub run_call : World → SysCall → (a1 a2 a3 : ℕ) → K ℕ
run_call world SysCall.print a1 a2 a3 = sys_user_print world.console a1 a2
run_call world SysCall.exit a1 a2 a3 = sys_user_exit world.img a1
run_call world SysCall.allocate_page a1 a2 a3 = sys_user_allocate_page
run_call world SysCall.free_page a1 a2 a3 = sys_user_free_page a1
run_call world SysCall.fork a1 a2 a3 = sys_user_fork world.img world.spike_files
run_call world SysCall.yield a1 a2 a3 = sys_user_yield world.img
run_call world SysCall.wait a1 a2 a3 = sys_user_wait (a1 % 2 ^ 32)
run_call world SysCall.getline a1 a2 a3 = sys_user_getline world.console a1 (a2 % 2 ^ 32)
run_call world SysCall.exec a1 a2 a3 = sys_user_exec world a1 a2
run_call world SysCall.open_file a1 a2 a3 =
    sys_user_open world.code world.host world.fuel world.stale a1 (a2 % 2 ^ 32)
run_call world SysCall.read a1 a2 a3 = sys_user_read world.fuel (a1 % 2 ^ 32) a2 a3
run_call world SysCall.write a1 a2 a3 = sys_user_write world.fuel (a1 % 2 ^ 32) a2 a3
run_call world SysCall.close a1 a2 a3 = sys_user_close (a1 % 2 ^ 32)
run_call world SysCall.getinfo a1 a2 a3 = sys_user_getinfo

-- The branch that was selected, or the default.
abbrev dispatch : World → Option SysCall → (a1 a2 a3 : ℕ) → K ℕ
dispatch world none a1 a2 a3 = stop panic
dispatch world (some call) a1 a2 a3 = run_call world call a1 a2 a3

-- The registers a4 to a7 are not used.
unfoldable pub do_syscall : World → (a0 a1 a2 a3 : ℕ) → K ℕ
do_syscall world a0 a1 a2 a3 = dispatch world (decode a0) a1 a2 a3

-- The numbers that the user programs pass select their calls.
pub decode-sysnum : (call : SysCall) → decode (sysnum call) ≡ some call
unfolding decode
decode-sysnum SysCall.print = refl
decode-sysnum SysCall.exit = refl
decode-sysnum SysCall.allocate_page = refl
decode-sysnum SysCall.free_page = refl
decode-sysnum SysCall.fork = refl
decode-sysnum SysCall.yield = refl
decode-sysnum SysCall.wait = refl
decode-sysnum SysCall.getline = refl
decode-sysnum SysCall.exec = refl
decode-sysnum SysCall.open_file = refl
decode-sysnum SysCall.read = refl
decode-sysnum SysCall.write = refl
decode-sysnum SysCall.close = refl
decode-sysnum SysCall.getinfo = refl

-- So `do_syscall` runs them.
pub do_syscall-sysnum :
    (world : World) (call : SysCall) (a1 a2 a3 : ℕ) (s : Kernel)
    → do_syscall world (sysnum call) a1 a2 a3 s ≡ run_call world call a1 a2 a3 s
unfolding do_syscall
do_syscall-sysnum world call a1 a2 a3 s = ap (λ o. dispatch world o a1 a2 a3 s) (decode-sysnum call)
