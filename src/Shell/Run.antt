-- ===== src/Shell/Run.antt =====
-- `parsecmd` of user/sh.c on a line of words.
use testcode.Base.{
  ℕ, zero, suc, ◌+◌, ◌-◌, ◌<◌, ◌≤◌, ◌≡◌, ◌⊎◌, inl, inr, refl, ◌∙◌, true, false, List, [], ◌∷◌, ◌++◌,
  length, length-append, arith, All, ◌==◌, some,
}
use mathlib.Core.List.{map}
use testcode.Str.{Bytes, strlen}
use testcode.Str.Scan.{strlen-length}
use testcode.Str.Text.{IsString}
use testcode.Shell.{
  is_blank, stop_symbols, skip_to, peek, max_args, exec_type, ExecCmd, execcmd, done, ◌>>=◌,
  parse_loop, parseexec, parsepipe, parseline, terminate_from, nulterminate, parsecmd,
}
use testcode.Shell.Scanner.{Segment, skip-Segment}
use testcode.Shell.Line.{Piece, text, IsBlank, IsLine, Segment-append, Segment-IsString, plain_head}
use testcode.Shell.Parse.{collect, finish, skip_to_end}
use testcode.Shell.Terminate.{HasArguments, terminate_run}

-- The blanks before the first word change nothing but the start.
module _ (n es : ℕ) (m : Bytes) (s : ℕ) (lead : List ℕ) (ps : List Piece)
    (seg : Segment m s (lead ++ text ps)) (blank : All IsBlank lead) (line : IsLine ps)
    (end : m es ≡ 0) (size : s + length (lead ++ text ps) ≡ es) where
  pub line_seg : Segment m (s + length lead) (text ps)
  line_seg = (Segment-append m s lead (text ps) seg).1

  pub line_size : s + length lead + length (text ps) ≡ es
  line_size = omega (arith, size, length-append {0} lead (text ps))

  lead_skipped : skip_to is_blank es m s ≡ s + length lead
  lead_skipped =
      skip-Segment is_blank (es - s) m s lead (Segment-append m s lead (text ps) seg).0 blank
        (omega (arith, line_size)) (ends ps line_seg line line_size)
    where
      ends :
          (qs : List Piece)
          → Segment m (s + length lead) (text qs)
          → IsLine qs
          → s + length lead + length (text qs) ≡ es
          → (es - s ≡ length lead) ⊎ (is_blank (m (s + length lead)) ≡ false)
      ends [] sg l total = inl (omega (arith, total))
      ends (q ∷ qs) sg l total = inr (plain_head m (s + length lead) es q qs sg l end total)

  first_stays : skip_to is_blank es m (s + length lead) ≡ s + length lead
  first_stays = by_rest ps line_seg line line_size
    where
      by_rest :
          (qs : List Piece)
          → Segment m (s + length lead) (text qs)
          → IsLine qs
          → s + length lead + length (text qs) ≡ es
          → skip_to is_blank es m (s + length lead) ≡ s + length lead
      by_rest [] sg l total =
          let at : s + length lead ≡ es = omega (arith, total) in rw at (skip_to_end is_blank m es)
      by_rest (q ∷ qs) sg l total =
          skip-Segment is_blank (es - (s + length lead)) m (s + length lead) [] tt tt (omega arith)
            (inr (
              let e : s + length lead + 0 ≡ s + length lead = omega arith in
              rw e (plain_head m (s + length lead) es q qs sg l end total)))
          ∙ omega arith

  peek_lead : peek es m s stop_symbols ≡ peek es m (s + length lead) stop_symbols
  unfolding peek
  peek_lead = rw (lead_skipped, first_stays) refl

  pub loop_lead :
      (cmd : ExecCmd)
      → parse_loop (suc n) es m s 0 cmd ≡ parse_loop (suc n) es m (s + length lead) 0 cmd
  unfolding parse_loop
  loop_lead cmd = rw peek_lead refl

-- `parsecmd` gives the command `cmd` and leaves the memory `m'`.
pub record ParsedLine (n : ℕ) (m : Bytes) (s : ℕ) (line : List ℕ) (ws : List (List ℕ))
    : Type 0 where
  pub cmd : ExecCmd
  pub memory : Bytes
  pub run : parsecmd n m s ≡ done (cmd, memory)
  pub cmd_type : cmd.cmd_type ≡ exec_type
  pub arguments : HasArguments cmd memory 0 ws
  pub outside : (a : ℕ) → (a < s) ⊎ (s + length line < a) → memory a ≡ m a

count_words : (ps : List Piece) → IsLine ps → length ps ≤ length (text ps)
count_words [] line = omega arith
count_words (p ∷ ps) line = omega (
  arith,
  count_words ps line.4,
  line.0,
  length-append {0} p.word (p.gap ++ text ps),
  length-append {0} p.gap (text ps),
)

parseline_run :
    (n es : ℕ) (m : Bytes) (s : ℕ) (cmd : ExecCmd)
    → (parse_loop n es m s 0 execcmd >>= finish) ≡ done (es, cmd)
    → parseline n es m s ≡ done (es, cmd)
unfolding parseline parsepipe parseexec
parseline_run n es m s cmd e = e

parsecmd_run :
    (n : ℕ) (m m' : Bytes) (s size : ℕ) (cmd : ExecCmd)
    → strlen n m s ≡ some size
    → parseline n (s + size) m s ≡ done (s + size, cmd)
    → cmd.cmd_type ≡ exec_type
    → terminate_from max_args 0 cmd m ≡ done m'
    → parsecmd n m s ≡ done (cmd, m')
unfolding parsecmd nulterminate
parsecmd_run n m m' s size cmd len parsed kind terminated =
    let there : (s + size == s + size) ≡ true = ground arith in
    let is_exec : (cmd.cmd_type == exec_type) ≡ true = ground arith in
    ground (arith, len, parsed, skip_to_end is_blank m (s + size), there, is_exec, terminated)

-- If a line in memory, not at address 0, is blanks, then fewer than ten words of bytes that are
-- neither blanks nor symbols, with blanks between them, then `parsecmd` returns, with enough
-- fuel: the arguments of its command are these words as strings in the memory it leaves, with a
-- null pointer behind the last one, and memory outside of the line stays.
pub parsecmd-ParsedLine :
    (n : ℕ) (m : Bytes) (s : ℕ) (lead : List ℕ) (ps : List Piece)
    → IsString m s (lead ++ text ps)
    → All IsBlank lead
    → IsLine ps
    → length ps < max_args
    → 0 < s
    → length (lead ++ text ps) < n
    → ParsedLine n m s (lead ++ text ps) (map (λ p. p.word) ps)
parsecmd-ParsedLine zero m s lead ps str blank line few pos fuel = absurd (omega arith)
parsecmd-ParsedLine (suc n) m s lead ps str blank line few pos fuel =
    let size = length (lead ++ text ps) in
    let es = s + size in
    let (seg, end) = Segment-IsString m s (lead ++ text ps) str in
    let seg' = line_seg n es m s lead ps seg blank line end refl in
    let total = line_size n es m s lead ps seg blank line end refl in
    let sum = length-append {0} lead (text ps) in
    let (cmd, run, c) =
      collect (suc n) es m (s + length lead) 0 execcmd ps seg' line end total (omega arith)
        (omega (arith, count_words ps line, sum)) in
    let (m', terminated, t) =
      terminate_run max_args 0 cmd m (s + length lead) ps c.stored seg' line (omega arith) few in
    record {
      cmd = cmd;
      memory = m';
      run =
          parsecmd_run (suc n) m m' s size cmd
            (strlen-length (suc n) m s (lead ++ text ps) str fuel)
            (parseline_run (suc n) es m s cmd
              (rw (loop_lead n es m s lead ps seg blank line end refl execcmd) run))
            c.kind terminated;
      cmd_type = c.kind;
      arguments = t.arguments;
      outside = λ a out. elim out [
        | inl lt ↦ t.before a (omega arith)
        | inr gt ↦ t.behind a (omega (arith, gt, sum))
      ];
    }
