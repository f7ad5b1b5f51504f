-- ===== src/Elf/Exec.antt =====
-- `load_shell_bincode_from_host_elf` of kernel/elf.c. A string of the kernel is read on fuel.
use testcode.Base.{
  ℕ, zero, suc, ◌+◌, ◌-◌, ◌*◌, not, ◌==◌, leb, if◌then◌else◌, List, [], ◌∷◌, ◌++◌, length, update,
}
use testcode.Elf.{ElfFile, load_program}
use testcode.Machine.{
  Symbols, K, pure, ◌>>=◌, ◌>>◌, stop, fault, out_of_fuel, get, deref, load, store,
}
use testcode.Machine.Bytes.{load8, store8}
use testcode.Machine.Word.{add64, sub64}
use testcode.Process.Create.{regs_sp, regs_a0, regs_a1, realloc_process}
use testcode.Vmm.{user_va_to_pa}

-- MAXARGS of kernel/elf.c.
abbrev pub max_args : ℕ
max_args = 10

-- "./obj/"
abbrev pub obj_dir : List ℕ
obj_dir = b'.' ∷ b'/' ∷ b'o' ∷ b'b' ∷ b'j' ∷ b'/' ∷ []

-- The size of the array `path`.
abbrev pub path_size : ℕ
path_size = 30

-- The bytes of the string at `a`.
unfoldable pub read_string : ℕ → (a : ℕ) → K (List ℕ)
unfolding load8
read_string zero a = stop out_of_fuel
read_string (suc n) a = do
  c ← load8 a
  let rest : K (List ℕ) = read_string n (a + 1)
  if c == 0 then pure [] else do xs ← rest; pure (c ∷ xs)

-- `strcpy(dest, src)` on the memory of the kernel.
unfoldable pub copy_string : ℕ → (dest src : ℕ) → K (Unit {0})
unfolding load8 store8
copy_string zero dest src = stop out_of_fuel
copy_string (suc n) dest src = do
  c ← load8 src
  store8 dest c
  let rest : K (Unit {0}) = copy_string n (dest + 1) (src + 1)
  if c == 0 then pure tt else rest

-- `user_va_to_pa(current->pagetable, va)`
unfoldable pub current_pa : (va : ℕ) → K ℕ
current_pa va = do s ← get; i ← deref s.current; user_va_to_pa (s.procs i).pagetable va

-- The array `path`; a name that does not fit is written past its end, which is undefined.
unfoldable pub shell_path : (fuel argv : ℕ) → K (List ℕ)
unfolding load
shell_path fuel argv = do
  name_va ← load argv
  name_pa ← current_pa name_va
  name ← read_string fuel name_pa
  if leb path_size (length (obj_dir ++ name)) then stop fault else pure (obj_dir ++ name)

-- `argc` and the array `oldargv`, when `n` of its entries are left.
unfoldable pub old_args : ℕ → (argv argc : ℕ) → (oldargv : ℕ → ℕ) → K (ℕ × (ℕ → ℕ))
unfolding load
old_args zero argv argc oldargv = stop fault
old_args (suc n) argv argc oldargv = do
  va ← load (add64 argv (8 * argc))
  pa ← current_pa va
  let rest : K (ℕ × (ℕ → ℕ)) = old_args n argv (argc + 1) (update oldargv argc pa)
  if pa == 0 then pure (argc, update oldargv argc 0) else rest

-- `n` rounds of the loop that copies the arguments to the stack, from the argument `i` on.
unfoldable pub put_args : ℕ → (fuel argc i sp : ℕ) → (oldargv : ℕ → ℕ) → K (ℕ × (ℕ → ℕ))
unfolding store
put_args zero fuel argc i sp oldargv = pure (sp, oldargv)
put_args (suc n) fuel argc i sp oldargv = do
  pa ← current_pa (sub64 sp 8)
  if not (i == argc) then copy_string fuel pa (oldargv i) else store pa (oldargv i)
  put_args n fuel argc (i + 1) (sub64 sp 8) (update oldargv i (sub64 sp 8))

-- `n` rounds of the loop that puts the pointers to them on the stack.
unfoldable pub put_pointers : ℕ → (argc i sp : ℕ) → (oldargv : ℕ → ℕ) → K ℕ
unfolding store
put_pointers zero argc i sp oldargv = pure sp
put_pointers (suc n) argc i sp oldargv = do
  pa ← current_pa (sub64 sp 8)
  store pa (oldargv (argc - i))
  put_pointers n argc (i + 1) (sub64 sp 8) oldargv

-- The arguments of `main`: the stack pointer, `a0` and `a1`.
unfoldable pub set_main_args : (p sp argc : ℕ) → K (Unit {0})
unfolding store
set_main_args p sp argc = do
  s ← get
  let tf : ℕ = (s.procs p).trapframe
  store (add64 tf regs_sp) sp
  store (add64 tf regs_a0) argc
  store (add64 tf regs_a1) sp

unfoldable pub load_shell_bincode_from_host_elf : Symbols → ElfFile → (fuel argv : ℕ) → K (Unit {0})
unfolding load
load_shell_bincode_from_host_elf img file fuel argv = do
  path ← shell_path fuel argv
  (argc, oldargv) ← old_args (max_args + 1) argv 0 (λ _. 0)
  s ← get
  p ← deref s.current
  realloc_process img (s.procs p).pid
  s ← get
  sp ← load (add64 (s.procs p).trapframe regs_sp)
  (sp, oldargv) ← put_args (argc + 1) fuel argc 0 sp oldargv
  sp ← put_pointers (argc + 1) argc 0 sp oldargv
  set_main_args p sp argc
  f ← file.local_open path 0 0
  load_program file f p

-- The result of `do_exec` of kernel/process.c is 1; its path is not used.
unfoldable pub do_exec : Symbols → ElfFile → (fuel argv : ℕ) → K ℕ
do_exec img file fuel argv = do
  pa ← current_pa argv
  load_shell_bincode_from_host_elf img file fuel pa
  pure 1
