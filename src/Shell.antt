-- ===== src/Shell.antt =====
-- user/sh.c: the tokens of a command line, the parser, and what a parsed command runs.
pub mod Arguments
pub mod Scanner
pub mod Session
pub mod Bounds
pub mod Line
pub mod Loop
pub mod Parse
pub mod Run
pub mod Terminate
use testcode.Base.{
  ℕ, zero, suc, ◌+◌, ◌-◌, ◌^◌, Option, none, some, Bool, true, false, ◌&&◌, ◌||◌, not, List, [],
  ◌∷◌, ◌==◌, leb, ltb, if◌then◌else◌, update, mem,
}
use testcode.Str.{Bytes, strlen}

-- `strchr(t, c)` is not null, for a string `t` of these bytes.
abbrev pub is_blank : ℕ → Bool
is_blank c = c == b' ' || c == b'\t' || c == b'\r' || c == b'\n' || c == 11

abbrev pub is_symbol : ℕ → Bool
is_symbol c =
    c == b'<' || c == b'|' || c == b'>' || c == b'&' || c == b';' || c == b'(' || c == b')'

-- Bytes of a word.
abbrev pub is_plain : ℕ → Bool
is_plain c = not (is_blank c) && not (is_symbol c)

-- `while (s < es && test(*s)) s++`, when `n` bytes are left up to `es`.
unfoldable pub skip : (ℕ → Bool) → ℕ → Bytes → ℕ → ℕ
skip test zero m s = s
skip test (suc n) m s = let rest = skip test n m (s + 1) in if test (m s) then rest else s

abbrev pub skip_to : (ℕ → Bool) → (es : ℕ) → Bytes → ℕ → ℕ
skip_to test es m s = skip test (es - s) m s

-- What `gettoken` returns, and stores through its pointers.
pub record Token : Type 0 where
  pub ret : ℕ
  pub q : ℕ
  pub eq : ℕ
  pub next : ℕ

-- The `switch` on the byte at `q`: the result and the end of the token.
unfoldable pub token_at : (es : ℕ) → Bytes → (q : ℕ) → ℕ × ℕ
token_at es m q =
    if m q == 0
    then (0, q)
    else if m q == b'|' || m q == b'(' || m q == b')' || m q == b';' || m q == b'&' || m q == b'<'
    then (m q, q + 1)
    else if m q == b'>'
    then (if m (q + 1) == b'>' then (b'+', q + 2) else (m q, q + 1))
    else (b'a', skip_to is_plain es m q)

unfoldable pub gettoken : (es : ℕ) → Bytes → (s : ℕ) → Token
gettoken es m s =
    let q = skip_to is_blank es m s in
    let (ret, eq) = token_at es m q in
    record { ret = ret; q = q; eq = eq; next = skip_to is_blank es m eq }

-- The byte is one of `toks`, which are not NUL.
abbrev pub is_one_of : List ℕ → ℕ → Bool
is_one_of toks c = not (c == 0) && mem c toks

-- The result, and the new `*ps`.
unfoldable pub peek : (es : ℕ) → Bytes → (s : ℕ) → (toks : List ℕ) → Bool × ℕ
peek es m s toks = let s' = skip_to is_blank es m s in (is_one_of toks (m s'), s')

abbrev pub max_args : ℕ
max_args = 10

abbrev pub exec_type : ℕ
exec_type = 1

-- `struct execcmd`, on a page of its own.
pub record ExecCmd : Type 0 where
  pub cmd_type : ℕ
  pub argv : ℕ → ℕ
  pub eargv : ℕ → ℕ

abbrev pub execcmd : ExecCmd
execcmd = record { cmd_type = exec_type; argv = λ i. 0; eargv = λ i. 0 }

pub data Reason : Type 0 where
  syntax_error too_many_args unknown_command : Reason

-- `panics` is `panic`, which exits with -1; `overrun` is a store outside of an array.
pub data Outcome {ℓ} (A : Type ℓ) : Type ℓ where
  done : A → Outcome A
  panics : Reason → Outcome A
  overrun : Outcome A
  out_of_fuel : Outcome A

infixl 5 ◌>>=◌
abbrev pub ◌>>=◌ {ℓ κ} : {A : Type ℓ} {B : Type κ} → Outcome A → (A → Outcome B) → Outcome B
done a >>= f = f a
panics r >>= f = panics r
overrun >>= f = overrun
out_of_fuel >>= f = out_of_fuel

-- `cmd->argv[argc] = q; cmd->eargv[argc] = eq`
abbrev pub put : (argc q eq : ℕ) → ExecCmd → Outcome ExecCmd
put argc q eq cmd =
    if ltb argc max_args
    then done (record cmd { argv = update cmd.argv argc q; eargv = update cmd.eargv argc eq })
    else overrun

-- The bytes "|)&;".
abbrev pub stop_symbols : List ℕ
stop_symbols = b'|' ∷ b')' ∷ b'&' ∷ b';' ∷ []

-- The end of the loop of `parseexec`: `*ps`, `argc` and the command.
abbrev pub Arguments : Type 0
Arguments = ℕ × ℕ × ExecCmd

unfoldable pub parse_loop : ℕ → (es : ℕ) → Bytes → (s argc : ℕ) → ExecCmd → Outcome Arguments
parse_loop zero es m s argc cmd = out_of_fuel
parse_loop (suc n) es m s argc cmd =
    let (found, s') = peek es m s stop_symbols in
    let t = gettoken es m s' in
    let rest = parse_loop n es m t.next (argc + 1) in
    if found
    then done (s', argc, cmd)
    else if t.ret == 0
    then done (t.next, argc, cmd)
    else if not (t.ret == b'a')
    then panics syntax_error
    else do
      cmd' ← put argc t.q t.eq cmd
      if leb max_args (argc + 1) then panics too_many_args else rest cmd'

-- The new `*ps` and the command; `parsepipe` and `parseline` only call it.
unfoldable pub parseexec : ℕ → (es : ℕ) → Bytes → (s : ℕ) → Outcome (ℕ × ExecCmd)
unfolding parse_loop
parseexec n es m s = do
  (s', argc, cmd) ← parse_loop n es m s 0 execcmd
  cmd' ← put argc 0 0 cmd
  done (s', cmd')

unfoldable pub parsepipe : ℕ → (es : ℕ) → Bytes → (s : ℕ) → Outcome (ℕ × ExecCmd)
parsepipe n es m s = parseexec n es m s

unfoldable pub parseline : ℕ → (es : ℕ) → Bytes → (s : ℕ) → Outcome (ℕ × ExecCmd)
parseline n es m s = parsepipe n es m s

-- `for (i = 0; ecmd->argv[i]; ++i) *ecmd->eargv[i] = 0`, when `n` entries of the arrays are left.
unfoldable pub terminate_from : ℕ → (i : ℕ) → ExecCmd → Bytes → Outcome Bytes
terminate_from zero i cmd m = overrun
terminate_from (suc n) i cmd m =
    let rest = terminate_from n (i + 1) cmd (update m (cmd.eargv i) 0) in
    if cmd.argv i == 0 then done m else rest

unfoldable pub nulterminate : ExecCmd → Bytes → Outcome Bytes
nulterminate cmd m = if cmd.cmd_type == exec_type then terminate_from max_args 0 cmd m else done m

-- The command, and memory after it was terminated.
unfoldable pub parsecmd : ℕ → Bytes → (s : ℕ) → Outcome (ExecCmd × Bytes)
parsecmd n m s = elim (strlen n m s) [
  | none ↦ out_of_fuel
  | some size ↦ do
    (s', cmd) ← parseline n (s + size) m s
    let end : ℕ = skip_to is_blank (s + size) m s'
    if not (end == s + size)
        then panics syntax_error
        else do m' ← nulterminate cmd m; done (cmd, m')
]

-- What the child process asks of the kernel; `exec` is given the path and the arguments.
pub data Call : Type 0 where
  calls_exec : (path : ℕ) → (argv : ℕ → ℕ) → Call
  calls_exit : (code : ℕ) → Call

-- A null command is `none`; an `exec` that returns has failed.
unfoldable pub runcmd : Option ExecCmd → List Call
runcmd none = calls_exit 0 ∷ []
runcmd (some cmd) =
    if not (cmd.cmd_type == exec_type)
    then calls_exit (2 ^ 32 - 1) ∷ []
    else if cmd.argv 0 == 0
    then calls_exit 0 ∷ []
    else (calls_exec (cmd.argv 0) cmd.argv ∷ (calls_exit 0 ∷ []))

-- The line is the command `exit`, or begins with it.
unfoldable pub is_exit : ℕ → Bytes → (s : ℕ) → Option Bool
is_exit n m s = elim (strlen n m s) [
  | none ↦ none
  | some size ↦
      let s' = skip_to is_blank (s + size) m s in
      some (m s' == b'e' && m (s' + 1) == b'x' && m (s' + 2) == b'i' && m (s' + 3) == b't')
]
