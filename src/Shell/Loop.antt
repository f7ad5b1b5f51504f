-- ===== src/Shell/Loop.antt =====
-- `mysh` of user/sh.c, less its prompt: lines are read, and children run them.
use testcode.Base.{ℕ, zero, suc, ◌-◌, ◌^◌, none, some, true, false, List, ◌==◌, if◌then◌else◌}
use testcode.Shell.{
  ExecCmd, Outcome, Reason, done, panics, overrun, Call, calls_exec, calls_exit, max_args, parsecmd,
  runcmd, is_exit,
}
use testcode.User.{
  Code, ◌>>=◌, ◌>>◌, pure, memory, no_fuel, returned, naive_malloc, fork, wait, getlineu,
}

abbrev pub max_len : ℕ
max_len = 256

-- The shell returns, or it is a child that runs a command, or panics on its line, or stores outside
-- of an array.
pub data Ending : Type 0 where
  leaves : Ending
  runs : List Call → Ending
  gives_up : Reason → Ending
  overruns : Ending

-- `runcmd(parsecmd(buf))`, which does not come back. `parsecmd` takes a page for the command; the
-- page is apart from the line, so it is asked for first.
unfoldable pub run_child : ℕ → (buf : ℕ) → Code Ending
run_child fuel buf = do
  page ← naive_malloc
  m ← memory
  elim (parsecmd fuel m buf) [
    | done (cmd, m') ↦ (λ _. returned (runs (runcmd (some cmd))) m')
    | panics r ↦ pure (gives_up r)
    | overrun ↦ pure overruns
    | testcode.Shell.out_of_fuel ↦ no_fuel
  ]

-- The loop gets `n` rounds; `fuel` is for `wait` and for the length of the line.
unfoldable pub mysh : ℕ → (fuel buf : ℕ) → Code Ending
mysh zero fuel buf = no_fuel
mysh (suc n) fuel buf = do
  read ← getlineu buf max_len
  m ← memory
  elim (is_exit fuel m buf) [
    | none ↦ no_fuel
    | some true ↦ pure leaves
    | some false ↦ do
      rc ← fork
      if rc == 0 then run_child fuel buf else (wait fuel (2 ^ 32 - 1) >> mysh n fuel buf)
  ]
