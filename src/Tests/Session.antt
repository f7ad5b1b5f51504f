-- ===== src/Tests/Session.antt =====
-- The theorems on `wait` and `mysh`, on the lines " ls a" and "exit".
use testcode.Base.{
  ℕ, ◌-◌, ◌^◌, ◌≡◌, refl, List, [], ◌∷◌, arith, some, true, false, ◌==◌, if◌then◌else◌,
}
use testcode.Shell.{is_exit, skip}
use testcode.Shell.Loop.{mysh, leaves}
use testcode.Shell.Session.{
  Turn, IsTurn, Execs, turn_answers, turn_requests, getline_request, fork_request, malloc_request,
  mysh-leaves, mysh-Execs,
}
use testcode.Str.{Bytes, strlen, end_of}
use testcode.Tests.CommandLine.{line, line_string, pieces-IsLine}
use testcode.User.{wait}
use testcode.User.Serve.{Answer, Round, returns, serve, answers, wait_requests, wait-Waited}

abbrev answer : ℕ → Bytes → Answer
answer ret m = record { ret = ret; memory = m }

-- The child has not ended at the first question.
abbrev one_round : List Round
one_round = record { waited = answer (2 ^ 64 - 2) line; yielded = answer 69 line } ∷ []

abbrev turn : Turn
turn = record {
  line = answer 0 line;
  forked = answer 3 line;
  rounds = one_round;
  last = answer 3 line;
}

abbrev exit_line : Bytes
exit_line a =
    if a == 100
    then b'e'
    else if a == 101
    then b'x'
    else if a == 102
    then b'i'
    else if a == 103
    then b't'
    else 0

is_exit-line : is_exit 6 line 100 ≡ some false
unfolding is_exit strlen end_of skip
is_exit-line = refl

is_exit-exit_line : is_exit 6 exit_line 100 ≡ some true
unfolding is_exit strlen end_of skip
is_exit-exit_line = refl

turn-IsTurn : IsTurn 6 100 turn
turn-IsTurn = record {
  stays = is_exit-line;
  parent = omega arith;
  waiting = (refl, tt);
  over = omega arith;
  enough = omega arith;
}

wait-Waited_example :
    serve (answers one_round (answer 3 line ∷ [])) (wait 2 3 line)
    ≡ (wait_requests 3 one_round [], returns 3 line)
wait-Waited_example =
    wait-Waited 2 3 one_round (answer 3 line) line (refl, tt) (omega arith) (omega arith)

mysh-leaves_example :
    serve (turn_answers (turn ∷ []) (answer 0 exit_line ∷ [])) (mysh 2 6 100 line)
    ≡ (turn_requests 100 (turn ∷ []) (getline_request 100 ∷ []), returns leaves exit_line)
mysh-leaves_example =
    mysh-leaves 0 6 100 (turn ∷ []) (answer 0 exit_line) line (turn-IsTurn, tt) is_exit-exit_line

mysh-Execs_example :
    Execs 6 100
      ((b'l' ∷ b's' ∷ []) ∷ (b'a' ∷ []) ∷ [])
      (turn_requests 100 (turn ∷ []) (getline_request 100 ∷ (fork_request ∷ (malloc_request ∷ []))))
      (serve
        (turn_answers (turn ∷ []) (answer 0 line ∷ (answer 0 line ∷ (answer 0x400000 line ∷ []))))
        (mysh 2 6 100 line))
mysh-Execs_example =
    mysh-Execs 0 6 100 (turn ∷ []) (answer 0 line) (answer 0 line) (answer 0x400000 line)
      (b' ' ∷ []) (record { word = b'l' ∷ b's' ∷ []; gap = b' ' ∷ [] })
      (record { word = b'a' ∷ []; gap = [] } ∷ []) line (turn-IsTurn, tt) is_exit-line refl
      line_string (refl, tt) pieces-IsLine (omega arith) (omega arith) (omega arith)
