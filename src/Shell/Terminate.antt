-- ===== src/Shell/Terminate.antt =====
-- `nulterminate` of user/sh.c on a line of words.
use testcode.Base.{
  ℕ, zero, suc, ◌+◌, ◌<◌, ◌≤◌, ◌≡◌, ◌≢◌, inl, inr, refl, sym, ap, ◌∙◌, false, List, [], ◌∷◌, ◌++◌,
  length, length-append, arith, All, ◌==◌, update, update_self, update_ne,
}
use mathlib.Core.Path.{subst}
use mathlib.Core.List.{map, cons-ne-nil}
use testcode.Str.{Bytes}
use testcode.Str.Text.{IsString}
use testcode.Shell.{ExecCmd, done, terminate_from}
use testcode.Shell.Scanner.{Segment}
use testcode.Shell.Line.{Piece, text, IsPlain, IsLine, Segment-append}
use testcode.Shell.Parse.{Stored}

-- From the index `i` on, the arguments are the strings `ws`, then null.
abbrev pub HasArguments : ExecCmd → Bytes → (i : ℕ) → List (List ℕ) → Type 0
HasArguments cmd m i [] = cmd.argv i ≡ 0
HasArguments cmd m i (w ∷ ws) =
    IsString m (cmd.argv i) w × (cmd.argv i ≢ 0) × HasArguments cmd m (i + 1) ws

-- The words of a line at `a` are terminated, and memory around the line is the same.
pub record Terminated (m : Bytes) (a : ℕ) (ps : List Piece) (cmd : ExecCmd) (i : ℕ) (m' : Bytes)
    : Type 0 where
  pub arguments : HasArguments cmd m' i (map (λ p. p.word) ps)
  pub before : (b : ℕ) → b < a → m' b ≡ m b
  pub behind : (b : ℕ) → a + length (text ps) < b → m' b ≡ m b
  pub idle : ps ≡ [] → (b : ℕ) → m' b ≡ m b

word-IsString :
    (m m' : Bytes) (a : ℕ) (w : List ℕ)
    → Segment m a w
    → All IsPlain w
    → ((b : ℕ) → b < a + length w → m' b ≡ m b)
    → m' (a + length w) ≡ 0
    → IsString m' a w
word-IsString m m' a [] s h same end = let e : a + 0 ≡ a = omega arith in rw e at end
word-IsString m m' a (x ∷ xs) s h same end =
    let e : a + suc (length xs) ≡ a + 1 + length xs = omega arith in
    (
      same a (omega arith) ∙ s.0,
      h.0.1,
      word-IsString m m' (a + 1) xs s.1 h.1 (λ b lt. same b (omega arith)) (rw e at end),
    )

Segment-frame :
    (m m' : Bytes) (a : ℕ) (xs : List ℕ)
    → ((b : ℕ) → a ≤ b → b < a + length xs → m' b ≡ m b)
    → Segment m a xs
    → Segment m' a xs
Segment-frame m m' a [] same s = tt
Segment-frame m m' a (x ∷ xs) same s = (
  same a (omega arith) (omega arith) ∙ s.0,
  Segment-frame m m' (a + 1) xs (λ b lo hi. same b (omega arith) (omega arith)) s.1,
)

pub terminate_run :
    (n i : ℕ) (cmd : ExecCmd) (m : Bytes) (a : ℕ) (ps : List Piece)
    → Stored cmd i a ps
    → Segment m a (text ps)
    → IsLine ps
    → 0 < a
    → length ps < n
    → (m' : Bytes) × (terminate_from n i cmd m ≡ done m') × Terminated m a ps cmd i m'
unfolding terminate_from
terminate_run zero i cmd m a ps st seg line pos fuel = absurd (omega arith)
terminate_run (suc n) i cmd m a [] st seg line pos fuel = (
  m,
  rw st refl,
  record { arguments = st; before = λ b lt. refl; behind = λ b lt. refl; idle = λ e b. refl },
)
terminate_run (suc n) i cmd m a (p ∷ ps) st seg line pos fuel =
    let end : ℕ = a + length p.word in
    let next : ℕ = end + length p.gap in
    let m1 : Bytes = update m (cmd.eargv i) 0 in
    let off = λ (b : ℕ) (ne : end ≢ b). update_ne m 0 (λ e. ne (sym st.1 ∙ e)) in
    let (word, rest) = Segment-append m a p.word (p.gap ++ text ps) seg in
    let (gap, later) = Segment-append m end p.gap (text ps) rest in
    let total = length-append {0} p.word (p.gap ++ text ps) in
    let total' = length-append {0} p.gap (text ps) in
    let moved : Segment m1 next (text ps) = elim (line.3) [
      | inl e ↦ subst (λ qs. Segment m1 next (text qs)) (sym e) tt
      | inr l ↦ Segment-frame m m1 next (text ps) (λ b lo hi. off b (omega (arith, l))) later
    ] in
    let (m', run, t) =
      terminate_run n (i + 1) cmd m1 next ps st.2 moved line.4 (omega arith) (omega arith) in
    let zero_there : m' end ≡ 0 = elim (line.3) [
      | inl e ↦ t.idle e end ∙ (ap m1 (sym st.1) ∙ update_self m (cmd.eargv i) 0)
      | inr l ↦ t.before end (omega (arith, l)) ∙ (ap m1 (sym st.1) ∙ update_self m (cmd.eargv i) 0)
    ] in
    let set : (cmd.argv i == 0) ≡ false = ground (arith, st.0, pos) in
    (
      m',
      rw set run,
      record {
        arguments = (
          subst (λ q. IsString m' q p.word) (sym st.0)
              (word-IsString m m' a p.word word line.1
                (λ b lt. t.before b (omega arith) ∙ off b (omega arith)) zero_there),
          omega (arith, st.0, pos),
          t.arguments,
        );
        before = λ b lt. t.before b (omega arith) ∙ off b (omega arith);
        behind = λ b gt.
            t.behind b (omega (arith, total, total')) ∙ off b (omega (arith, total, total'));
        idle = λ e. absurd (cons-ne-nil p ps e);
      },
    )
