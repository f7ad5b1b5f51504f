-- ===== src/Shell/Parse.antt =====
-- `parsecmd` of user/sh.c on a line of words.
use testcode.Base.{
  ℕ, zero, suc, ◌+◌, ◌-◌, ◌<◌, ◌≡◌, refl, ◌∙◌, Bool, true, false, List, [], ◌∷◌, length, arith, leb,
  ltb, update, update_self, update_ne, lt→ltb,
}
use testcode.Str.{Bytes}
use testcode.Shell.{
  is_blank, stop_symbols, skip_to, skip, token_at, gettoken, peek, max_args, ExecCmd, Outcome, done,
  ◌>>=◌, put, Arguments, parse_loop,
}
use testcode.Shell.Scanner.{Segment}
use testcode.Shell.Line.{Piece, text, IsLine, rest_seg, size_parts, gettoken-piece, peek-piece}

-- From the index `i` on the arrays hold the places of the words of a line at `a`, then null.
abbrev pub Stored : ExecCmd → (i a : ℕ) → List Piece → Type 0
Stored cmd i a [] = cmd.argv i ≡ 0
Stored cmd i a (p ∷ ps) =
    (cmd.argv i ≡ a)
    × (cmd.eargv i ≡ a + length p.word)
    × Stored cmd (i + 1) (a + length p.word + length p.gap) ps

-- The entries below `i` are the same.
abbrev pub SameBelow : (i : ℕ) → ExecCmd → ExecCmd → Type 0
SameBelow i cmd cmd' = (j : ℕ) → j < i → (cmd'.argv j ≡ cmd.argv j) × (cmd'.eargv j ≡ cmd.eargv j)

pub record Collected (cmd : ExecCmd) (i a : ℕ) (ps : List Piece) (cmd' : ExecCmd) : Type 0 where
  pub stored : Stored cmd' i a ps
  pub below : SameBelow i cmd cmd'
  pub kind : cmd'.cmd_type ≡ cmd.cmd_type

-- `parse_loop`, and the null pointer behind the arguments.
abbrev pub finish : Arguments → Outcome (ℕ × ExecCmd)
finish (s', argc, cmd) = put argc 0 0 cmd >>= λ cmd'. done (s', cmd')

pub skip_to_end : (test : ℕ → Bool) (m : Bytes) (es : ℕ) → skip_to test es m es ≡ es
unfolding skip
skip_to_end test m es = let none_left : es - es ≡ 0 = omega arith in rw none_left refl

pub peek_end : (m : Bytes) (es : ℕ) → m es ≡ 0 → peek es m es stop_symbols ≡ (false, es)
unfolding peek
peek_end m es end = rw (skip_to_end is_blank m es, end) refl

gettoken_end :
    (m : Bytes) (es : ℕ)
    → m es ≡ 0
    → gettoken es m es ≡ record { ret = 0; q = es; eq = es; next = es }
unfolding gettoken token_at
gettoken_end m es end = rw (skip_to_end is_blank m es, end, skip_to_end is_blank m es) refl

loop_end :
    (n es : ℕ) (m : Bytes) (i : ℕ) (cmd : ExecCmd)
    → m es ≡ 0
    → parse_loop (suc n) es m es i cmd ≡ done (es, i, cmd)
unfolding parse_loop
loop_end n es m i cmd end = rw (peek_end m es end, gettoken_end m es end) refl

-- One round on a word.
abbrev with_argument : (i q eq : ℕ) → ExecCmd → ExecCmd
with_argument i q eq cmd = record cmd { argv = update cmd.argv i q; eargv = update cmd.eargv i eq }

loop_word :
    (n es : ℕ) (m : Bytes) (a i : ℕ) (cmd : ExecCmd) (p : Piece) (ps : List Piece)
    → Segment m a (text (p ∷ ps))
    → IsLine (p ∷ ps)
    → m es ≡ 0
    → a + length (text (p ∷ ps)) ≡ es
    → i + 1 < max_args
    → parse_loop (suc n) es m a i cmd
      ≡ parse_loop n es m
          (a + length p.word + length p.gap)
          (i + 1)
          (with_argument i a (a + length p.word) cmd)
unfolding parse_loop
loop_word n es m a i cmd p ps seg line end size room =
    let first : ltb i max_args ≡ true = lt→ltb i max_args (omega arith) in
    let more : leb max_args (i + 1) ≡ false = ground arith in
    rw
      (
        peek-piece m a es p ps seg line end size,
        gettoken-piece m a es p ps seg line end size,
        first,
        more,
      )
      refl

pub collect :
    (n es : ℕ) (m : Bytes) (a i : ℕ) (cmd : ExecCmd) (ps : List Piece)
    → Segment m a (text ps)
    → IsLine ps
    → m es ≡ 0
    → a + length (text ps) ≡ es
    → i + length ps < max_args
    → length ps < n
    → (cmd' : ExecCmd) × ((parse_loop n es m a i cmd >>= finish) ≡ done (es, cmd'))
      × Collected cmd i a ps cmd'
collect zero es m a i cmd ps seg line end size room fuel = absurd (omega arith)
collect (suc n) es m a i cmd [] seg line end size room fuel =
    let at : a ≡ es = omega (arith, size) in
    let first : ltb i max_args ≡ true = lt→ltb i max_args (omega arith) in
    (
      with_argument i 0 0 cmd,
      rw (at, loop_end n es m i cmd end, first) refl,
      record { stored = ground arith; below = λ j lt. ground arith; kind = refl },
    )
collect (suc n) es m a i cmd (p ∷ ps) seg line end size room fuel =
    let next = a + length p.word + length p.gap in
    let cmd1 : ExecCmd = with_argument i a (a + length p.word) cmd in
    let (cmd', run, c) =
      collect n es m next (i + 1) cmd1 ps (rest_seg m a es p ps seg line end size) line.4 end
        (size_parts m a es p ps seg line end size) (omega arith) (omega arith) in
    (
      cmd',
      rw (loop_word n es m a i cmd p ps seg line end size (omega arith)) run,
      record {
        stored = (
          (c.below i (omega arith)).0 ∙ update_self cmd.argv i a,
          (c.below i (omega arith)).1 ∙ update_self cmd.eargv i (a + length p.word),
          c.stored,
        );
        below = λ j lt. (
          (c.below j (omega arith)).0 ∙ update_ne cmd.argv a (omega arith),
          (c.below j (omega arith)).1 ∙ update_ne cmd.eargv (a + length p.word) (omega arith),
        );
        kind = c.kind;
      },
    )
