-- ===== src/Shell/Session.antt =====
-- Sessions of `mysh` of user/sh.c: lines that children run, and a last line.
use testcode.Base.{
  ℕ, suc, ◌+◌, ◌-◌, ◌^◌, ◌<◌, ◌≡◌, ◌≢◌, refl, some, true, false, List, [], ◌∷◌, ◌++◌, length, All,
  arith, ◌==◌,
}
use mathlib.Core.List.{map}
use testcode.Machine.Word.{sext32}
use testcode.Process.{minus_two}
use testcode.Shell.{
  ExecCmd, exec_type, calls_exec, calls_exit, max_args, done, parsecmd, runcmd, is_exit,
}
use testcode.Shell.Line.{Piece, text, IsBlank, IsLine}
use testcode.Shell.Loop.{Ending, leaves, runs, run_child, mysh, max_len}
use testcode.Shell.Run.{parsecmd-ParsedLine}
use testcode.Shell.Terminate.{HasArguments}
use testcode.Str.{Bytes}
use testcode.Str.Text.{IsString}
use testcode.Syscall.Table.{SysCall, sysnum}
use testcode.User.{Request, then_run, do_user_call, naive_malloc, fork, getlineu}
use testcode.User.Serve.{
  Answer, Round, End, returns, serve, int_of, answers, wait_requests, wait-then_run, int_sext,
}

-- A line is read, `fork` answers, and `wait` answers -2 for some rounds, and then something else.
pub record Turn : Type 0 where
  pub line : Answer
  pub forked : Answer
  pub rounds : List Round
  pub last : Answer

-- The line is not the command `exit`, and this process is the parent.
pub record IsTurn (fuel buf : ℕ) (t : Turn) : Type 0 where
  pub stays : is_exit fuel t.line.memory buf ≡ some false
  pub parent : int_of t.forked ≢ 0
  pub waiting : All (λ r. int_of r.waited ≡ minus_two) t.rounds
  pub over : int_of t.last ≢ minus_two
  pub enough : length t.rounds < fuel

abbrev pub turn_answers : List Turn → List Answer → List Answer
turn_answers [] xs = xs
turn_answers (t ∷ ts) xs = t.line ∷ (t.forked ∷ answers t.rounds (t.last ∷ turn_answers ts xs))

abbrev pub getline_request : (buf : ℕ) → Request
getline_request buf = record {
  number = sysnum SysCall.getline;
  a1 = buf;
  a2 = sext32 max_len;
  a3 = 0;
}

abbrev pub fork_request : Request
fork_request = record { number = sysnum SysCall.fork; a1 = 0; a2 = 0; a3 = 0 }

abbrev pub malloc_request : Request
malloc_request = record { number = sysnum SysCall.allocate_page; a1 = 0; a2 = 0; a3 = 0 }

-- A line is read, and a child is made and waited for; the rest is behind.
abbrev pub turn_requests : (buf : ℕ) → List Turn → List Request → List Request
turn_requests buf [] rs = rs
turn_requests buf (t ∷ ts) rs =
    getline_request buf
    ∷ (fork_request ∷ wait_requests (2 ^ 32 - 1) t.rounds (turn_requests buf ts rs))

-- Memory after the turns.
abbrev pub memory_after : Bytes → List Turn → Bytes
memory_after m [] = m
memory_after m (t ∷ ts) = memory_after t.last.memory ts

turn_run :
    (n fuel buf : ℕ) (t : Turn) (xs : List Answer) (m : Bytes)
    → IsTurn fuel buf t
    → serve (t.line ∷ (t.forked ∷ answers t.rounds (t.last ∷ xs))) (mysh (suc n) fuel buf m) ≡ (
        let (rs, e) = serve xs (mysh n fuel buf t.last.memory) in
        (getline_request buf ∷ (fork_request ∷ wait_requests (2 ^ 32 - 1) t.rounds rs), e))
unfolding mysh do_user_call then_run serve fork getlineu
turn_run n fuel buf t xs m k =
    let differs : (int_of t.forked == 0) ≡ false = ground (arith, k.parent) in
    rw (k.stays, int_sext t.forked.ret, differs)
      (rw
        (wait-then_run fuel (2 ^ 32 - 1) t.rounds t.last xs t.forked.memory (λ a. mysh n fuel buf)
          k.waiting k.over k.enough)
        refl)

-- After the turns the shell goes on with `n` rounds left.
turns_run :
    (n fuel buf : ℕ) (ts : List Turn) (xs : List Answer) (m : Bytes)
    → All (IsTurn fuel buf) ts
    → serve (turn_answers ts xs) (mysh (length ts + n) fuel buf m) ≡ (
        let (rs, e) = serve xs (mysh n fuel buf (memory_after m ts)) in
        (turn_requests buf ts rs, e))
turns_run n fuel buf [] xs m k = let all : length {A = Turn} [] + n ≡ n = omega arith in rw all refl
turns_run n fuel buf (t ∷ ts) xs m k =
    let less : length (t ∷ ts) + n ≡ suc (length ts + n) = omega arith in
    rw
      (
        less,
        turn_run (length ts + n) fuel buf t (turn_answers ts xs) m k.0,
        turns_run n fuel buf ts xs t.last.memory k.1,
      )
      refl

exit_run :
    (n fuel buf : ℕ) (line : Answer) (m : Bytes)
    → is_exit fuel line.memory buf ≡ some true
    → serve (line ∷ []) (mysh (suc n) fuel buf m)
      ≡ (getline_request buf ∷ [], returns leaves line.memory)
unfolding mysh do_user_call then_run serve getlineu
exit_run n fuel buf line m e = rw e refl

-- If `mysh` reads lines that are not `exit`, is the parent of a child for each, and `wait`
-- answers -2 fewer times than it has rounds and then something else, and after them it reads the
-- line `exit`, then it returns, with one round of its loop for each line: it asked for a line, a
-- fork and the waits with their yields for each of them, and for the last line, in this order.
pub mysh-leaves :
    (n fuel buf : ℕ) (ts : List Turn) (line : Answer) (m : Bytes)
    → All (IsTurn fuel buf) ts
    → is_exit fuel line.memory buf ≡ some true
    → serve (turn_answers ts (line ∷ [])) (mysh (length ts + suc n) fuel buf m)
      ≡ (turn_requests buf ts (getline_request buf ∷ []), returns leaves line.memory)
mysh-leaves n fuel buf ts line m k e =
    rw
      (
        turns_run (suc n) fuel buf ts (line ∷ []) m k,
        exit_run n fuel buf line (memory_after m ts) e,
      )
      refl

-- The child runs its line: it asks for `exec` of the first word with all words, and exits after it.
pub record Execs (fuel buf : ℕ) (words : List (List ℕ)) (requests : List Request)
    (shell : List Request × End Ending) : Type 0 where
  pub cmd : ExecCmd
  pub memory : Bytes
  pub run :
      shell
      ≡ (requests, returns (runs (calls_exec (cmd.argv 0) cmd.argv ∷ (calls_exit 0 ∷ []))) memory)
  pub arguments : HasArguments cmd memory 0 words

runcmd_exec :
    (cmd : ExecCmd)
    → cmd.cmd_type ≡ exec_type
    → cmd.argv 0 ≢ 0
    → runcmd (some cmd) ≡ calls_exec (cmd.argv 0) cmd.argv ∷ (calls_exit 0 ∷ [])
unfolding runcmd
runcmd_exec cmd kind there =
    let is_exec : (cmd.cmd_type == exec_type) ≡ true = ground (arith, kind) in
    let some_word : (cmd.argv 0 == 0) ≡ false = ground (arith, there) in
    rw (is_exec, some_word) refl

child_run :
    (n fuel buf : ℕ) (line forked page : Answer) (m : Bytes) (cmd : ExecCmd) (m' : Bytes)
    → is_exit fuel line.memory buf ≡ some false
    → int_of forked ≡ 0
    → parsecmd fuel page.memory buf ≡ done (cmd, m')
    → runcmd (some cmd) ≡ calls_exec (cmd.argv 0) cmd.argv ∷ (calls_exit 0 ∷ [])
    → serve (line ∷ (forked ∷ (page ∷ []))) (mysh (suc n) fuel buf m) ≡ (
      getline_request buf ∷ (fork_request ∷ (malloc_request ∷ [])),
      returns (runs (calls_exec (cmd.argv 0) cmd.argv ∷ (calls_exit 0 ∷ []))) m',
    )
unfolding mysh do_user_call then_run serve fork getlineu run_child naive_malloc
child_run n fuel buf line forked page m cmd m' stays zero_pid parsed calls =
    let same : (int_of forked == 0) ≡ true = ground (arith, zero_pid) in
    rw (stays, int_sext forked.ret, same, parsed, calls) refl

-- If `mysh` reads lines that are not `exit`, is the parent of a child for each, and `wait`
-- answers -2 fewer times than it has rounds and then something else, and after them it reads a
-- line of one to nine words that is not `exit`, and is the child of the `fork`, then it asks for
-- a line, a fork and the waits with their yields for each line, then for a line and a fork, and
-- as the child it takes a page and runs `exec` on the first word, with the words of the line as
-- arguments and a null pointer behind them, and `exit` after it.
pub mysh-Execs :
    (n fuel buf : ℕ) (ts : List Turn) (line forked page : Answer) (lead : List ℕ) (p : Piece)
    (ps : List Piece) (m : Bytes)
    → All (IsTurn fuel buf) ts
    → is_exit fuel line.memory buf ≡ some false
    → int_of forked ≡ 0
    → IsString page.memory buf (lead ++ text (p ∷ ps))
    → All IsBlank lead
    → IsLine (p ∷ ps)
    → length (p ∷ ps) < max_args
    → 0 < buf
    → length (lead ++ text (p ∷ ps)) < fuel
    → Execs fuel buf
        (map (λ q. q.word) (p ∷ ps))
        (turn_requests buf ts (getline_request buf ∷ (fork_request ∷ (malloc_request ∷ []))))
        (serve
          (turn_answers ts (line ∷ (forked ∷ (page ∷ []))))
          (mysh (length ts + suc n) fuel buf m))
mysh-Execs n fuel buf ts line forked page lead p ps m k stays zero_pid str blank words few pos
      enough =
    let pl =
      parsecmd-ParsedLine fuel page.memory buf lead (p ∷ ps) str blank words few pos enough in
    let calls = runcmd_exec pl.cmd pl.cmd_type pl.arguments.1 in
    record {
      cmd = pl.cmd;
      memory = pl.memory;
      run =
          rw
            (
              turns_run (suc n) fuel buf ts (line ∷ (forked ∷ (page ∷ []))) m k,
              child_run n fuel buf line forked page (memory_after m ts) pl.cmd pl.memory stays
                  zero_pid pl.run calls,
            )
            refl;
      arguments = pl.arguments;
    }
