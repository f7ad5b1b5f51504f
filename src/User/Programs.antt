-- ===== src/User/Programs.antt =====
-- user/cat.c, user/createproc.c and user/top.c, less what they print.
use testcode.Base.{
  ℕ, zero, suc, ◌+◌, ◌-◌, ◌^◌, none, some, Bool, true, false, leb, ltb, ◌==◌, if◌then◌else◌,
}
use testcode.Machine.Word.{sext32, slt32}
use testcode.Str.{atol}
use testcode.User.{
  Code, ◌>>=◌, ◌>>◌, pure, no_fuel, memory, exit, fork, open_file, read, write, close, getinfo,
}

-- `if (test) exit(0);`
abbrev exit_if : Bool → Code (Unit {0})
exit_if true = do ret ← exit 0; pure tt
exit_if false = pure tt

abbrev max_buf : ℕ
max_buf = 512

-- `n` files, from the argument `i` on; `buf` is the buffer on the stack.
unfoldable pub cat_files : ℕ → (i buf : ℕ) → (argv : ℕ → ℕ) → Code (Unit {0})
cat_files zero i buf argv = pure tt
cat_files (suc n) i buf argv = do
  fd ← open_file (argv i) 0
  exit_if (slt32 fd 0)
  count ← read fd buf max_buf
  written ← write 1 buf (sext32 count)
  closed ← close fd
  cat_files n (i + 1) buf argv

-- `argc` is below 2^31.
unfoldable pub cat : (argc buf : ℕ) → (argv : ℕ → ℕ) → Code ℕ
cat argc buf argv = do exit_if (leb argc 1); cat_files (argc - 1) 1 buf argv; code ← exit 0; pure 0

-- The children count to 50000000 and exit.
unfoldable pub create_children : ℕ → Code (Unit {0})
create_children zero = pure tt
create_children (suc n) = do rc ← fork; exit_if (rc == 0); create_children n

-- The signed number of children, with `n` as the fuel of `atol`.
unfoldable pub createproc : ℕ → (argc : ℕ) → (argv : ℕ → ℕ) → Code ℕ
createproc n argc argv = do
  m ← memory
  elim (if leb argc 1 then some 2 else atol n m (argv 1)) [
    | none ↦ no_fuel
    | some nproc ↦ do
      create_children (if ltb nproc (2 ^ 63) then nproc else 0)
      code ← exit 0
      pure 0
  ]

unfoldable pub top : Code ℕ
top = do ret ← getinfo; code ← exit 0; pure 0
