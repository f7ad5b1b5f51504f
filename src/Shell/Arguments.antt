-- ===== src/Shell/Arguments.antt =====
-- The loop of `parseexec` of user/sh.c on any line: the arguments stand in the line, and the arrays
-- are not overrun.
use testcode.Base.{
  ℕ, zero, suc, ◌+◌, ◌-◌, ◌<◌, ◌≤◌, ◌≡◌, inl, inr, refl, update_ne, update_self, true, arith, ◌==◌,
  leb, ltb, Bool-cases, update, lt→ltb,
}
use testcode.Str.{Bytes}
use testcode.Shell.{
  is_blank, is_one_of, stop_symbols, skip_to, gettoken, peek, max_args, exec_type, ExecCmd, execcmd,
  Outcome, done, panics, overrun, out_of_fuel, ◌>>=◌, put, Arguments, parse_loop, parseexec,
}
use testcode.Shell.Bounds.{gettoken-InLine, skip_to-range}

-- The first `argc` arguments of a command are not empty, and stand one behind the other from `lo`
-- on up to `hi`.
pub record Placed (lo hi argc : ℕ) (cmd : ExecCmd) : Type 0 where
  pub start : (j : ℕ) → j < argc → lo ≤ cmd.argv j
  pub some_bytes : (j : ℕ) → j < argc → cmd.argv j < cmd.eargv j
  pub end : (j : ℕ) → j < argc → cmd.eargv j ≤ hi
  pub order : (j k : ℕ) → j < k → k < argc → cmd.eargv j ≤ cmd.argv k
  pub kind : cmd.cmd_type ≡ exec_type

no_arguments : (lo : ℕ) (cmd : ExecCmd) → cmd.cmd_type ≡ exec_type → Placed lo lo 0 cmd
no_arguments lo cmd kind = record {
  start = λ j h. absurd (omega arith);
  some_bytes = λ j h. absurd (omega arith);
  end = λ j h. absurd (omega arith);
  order = λ j k h h'. absurd (omega arith);
  kind = kind;
}

Placed-later :
    {lo hi hi' argc : ℕ} {cmd : ExecCmd} → Placed lo hi argc cmd → hi ≤ hi' → Placed lo hi' argc cmd
Placed-later p h = record {
  start = p.start;
  some_bytes = p.some_bytes;
  end = λ j b. omega (arith, p.end j b, h);
  order = p.order;
  kind = p.kind;
}

-- The loop stores the token from `q` to `eq` behind the arguments that it has.
abbrev stored : (argc q eq : ℕ) → ExecCmd → ExecCmd
stored argc q eq cmd = record cmd {
  argv = update cmd.argv argc q;
  eargv = update cmd.eargv argc eq;
}

module _ {lo hi argc : ℕ} {cmd : ExecCmd} (p : Placed lo hi argc cmd) (q eq : ℕ) where
  kept_end : (j : ℕ) → j < argc → (stored argc q eq cmd).eargv j ≡ cmd.eargv j
  kept_end j h = update_ne cmd.eargv eq (λ e. omega (arith, e, h))

  -- A statement on each argument, for the new one and for the others.
  each :
      (P : ℕ → ℕ → Type 0)
      → ((j : ℕ) → j < argc → P (cmd.argv j) (cmd.eargv j))
      → P q eq
      → (j : ℕ) → j < argc + 1
      → P ((stored argc q eq cmd).argv j) ((stored argc q eq cmd).eargv j)
  each P old new j h = elim (Bool-cases (j == argc)) [
    | inl e ↦ rw e new
    | inr e ↦ let before : j < argc = ground (arith, e, h) in rw e (old j before)
  ]

  Placed-stored : lo ≤ hi → hi ≤ q → q < eq → Placed lo eq (argc + 1) (stored argc q eq cmd)
  Placed-stored h1 h2 h3 = record {
    start = each (λ a b. lo ≤ a) p.start (omega arith);
    some_bytes = each (λ a b. a < b) p.some_bytes h3;
    end = each (λ a b. b ≤ eq) (λ j h. omega (arith, p.end j h)) (omega arith);
    order = λ j k h h'.
        let j_old : j < argc = omega arith in
        rw (kept_end j j_old) (elim (Bool-cases (k == argc)) [
          | inl e ↦ rw e (omega (arith, p.end j j_old))
          | inr e ↦ let k_old : k < argc = ground (arith, e, h') in rw e (p.order j k h k_old)
        ]);
    kind = p.kind;
  }

-- The null pointers behind the arguments.
Placed-null :
    {lo hi argc : ℕ} {cmd : ExecCmd}
    → Placed lo hi argc cmd
    → Placed lo hi argc (stored argc 0 0 cmd)
Placed-null {lo} {hi} {argc} {cmd} p = record {
  start = λ j h. rw (null_arg j h) (p.start j h);
  some_bytes = λ j h. rw (null_arg j h, null_end j h) (p.some_bytes j h);
  end = λ j h. rw (null_end j h) (p.end j h);
  order = λ j k h h'. rw (null_end j (omega arith), null_arg k h') (p.order j k h h');
  kind = p.kind;
}
  where
    null_arg : (j : ℕ) → j < argc → (stored argc 0 0 cmd).argv j ≡ cmd.argv j
    null_arg j h = update_ne cmd.argv 0 (λ e. omega (arith, e, h))

    null_end : (j : ℕ) → j < argc → (stored argc 0 0 cmd).eargv j ≡ cmd.eargv j
    null_end j h = update_ne cmd.eargv 0 (λ e. omega (arith, e, h))

-- What `parse_loop` may end in: the arguments fit and stand in the line, or the shell panics.
abbrev pub Bounded : (lo es : ℕ) → Outcome Arguments → Type 0
Bounded lo es (done (s', argc, cmd)) =
    (lo ≤ s') × (s' ≤ es) × (argc < max_args) × Placed lo s' argc cmd
Bounded lo es (panics r) = Unit
Bounded lo es overrun = ⊥
Bounded lo es out_of_fuel = ⊥

parse_loop-Bounded :
    (n lo es : ℕ) (m : Bytes) (s argc : ℕ) (cmd : ExecCmd)
    → m es ≡ 0
    → lo ≤ s
    → s ≤ es
    → argc < max_args
    → Placed lo s argc cmd
    → es - s < n
    → Bounded lo es (parse_loop n es m s argc cmd)
unfolding parse_loop peek
parse_loop-Bounded zero lo es m s argc cmd end ge le few placed fuel = absurd (omega arith)
parse_loop-Bounded (suc n) lo es m s argc cmd end ge le few placed fuel =
    let s' = skip_to is_blank es m s in
    let (first, hi) = skip_to-range is_blank es m s le in
    let t = gettoken es m s' in
    let i = gettoken-InLine es s' m end hi in
    elim (Bool-cases (is_one_of stop_symbols (m s'))) [
      | inl found ↦ rw found (omega (arith, first), hi, few, Placed-later placed first)
      | inr more ↦ elim (Bool-cases (t.ret == 0)) [
        | inl over ↦
            let later : s ≤ t.next = omega (arith, first, i.start, i.order, i.next) in
            rw (more, over) (omega (arith, later), i.end, few, Placed-later placed later)
        | inr some_token ↦ elim (Bool-cases (t.ret == b'a')) [
          | inl word ↦
              let room : ltb argc max_args ≡ true = lt→ltb argc max_args few in
              let some_bytes : t.q < t.eq = ground (arith, i.progress, some_token) in
              let after : s ≤ t.q = omega (arith, first, i.start) in
              elim (Bool-cases (leb max_args (argc + 1))) [
                | inl full ↦ rw (more, some_token, word, room, full) tt
                | inr free ↦
                    rw (more, some_token, word, room, free)
                      (parse_loop-Bounded n lo es m t.next (argc + 1) (stored argc t.q t.eq cmd) end
                        (omega (arith, after, i.order, i.next)) i.end (ground (arith, free))
                        (Placed-later (Placed-stored placed t.q t.eq ge after some_bytes) i.next)
                        (omega (arith, after, some_bytes, i.next, i.end, fuel)))
              ]
          | inr other ↦ rw (more, some_token, other) tt
        ]
      ]
    ]

-- A command of `argc` arguments, which stand in the line from `lo` up to `s'`, with null pointers
-- behind them, inside of the arrays.
pub record Parsed (lo es s' : ℕ) (cmd : ExecCmd) : Type 0 where
  pub argc : ℕ
  pub few : argc < max_args
  pub placed : Placed lo s' argc cmd
  pub null_arg : cmd.argv argc ≡ 0
  pub null_end : cmd.eargv argc ≡ 0
  pub forward : lo ≤ s'
  pub in_line : s' ≤ es

abbrev pub Parses : (lo es : ℕ) → Outcome (ℕ × ExecCmd) → Type 0
Parses lo es (done (s', cmd)) = Parsed lo es s' cmd
Parses lo es (panics r) = Unit
Parses lo es overrun = ⊥
Parses lo es out_of_fuel = ⊥

last_argument :
    (lo es : ℕ) (r : Outcome Arguments)
    → Bounded lo es r
    → Parses lo es (r >>= λ (s', argc, cmd). put argc 0 0 cmd >>= λ cmd'. done (s', cmd'))
last_argument lo es (done (s', argc, cmd)) (ge, le, few, placed) =
    rw (lt→ltb argc max_args few) (record {
      argc = argc;
      few = few;
      placed = Placed-null placed;
      null_arg = update_self cmd.argv argc 0;
      null_end = update_self cmd.eargv argc 0;
      forward = ge;
      in_line = le;
    })
last_argument lo es (panics r) b = tt
last_argument lo es overrun b = b
last_argument lo es out_of_fuel b = b

-- If a NUL byte ends the line and the fuel is more than its length, `parseexec` ends, by a panic
-- or with a command and a new position in the rest of the line: it never stores outside of `argv`
-- and `eargv` and never runs out of fuel, the arguments are fewer than ten, each has a byte, and
-- they stand one behind the other between the old position and the new one, with null pointers
-- behind them.
pub parseexec-Parses :
    (n es s : ℕ) (m : Bytes) → m es ≡ 0 → s ≤ es → es - s < n → Parses s es (parseexec n es m s)
unfolding parseexec
parseexec-Parses n es s m end le fuel = last_argument s es (parse_loop n es m s 0 execcmd) (
    parse_loop-Bounded n s es m s 0 execcmd end (omega arith) le (omega arith)
      (no_arguments s execcmd refl) fuel)
