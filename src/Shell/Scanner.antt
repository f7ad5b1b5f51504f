-- ===== src/Shell/Scanner.antt =====
-- The loops and the tokens of user/sh.c.
use testcode.Base.{
  ℕ, zero, suc, ◌+◌, ◌≤◌, ◌≡◌, ◌⊎◌, inl, inr, ap, ◌∙◌, Bool, true, false, List, [], ◌∷◌, length,
  arith, All,
}
use testcode.Str.{Bytes}
use testcode.Shell.{skip}

-- `skip` ends in its range, past bytes of the test, and before one that fails it.
pub skip-range :
    (test : ℕ → Bool) (n : ℕ) (m : Bytes) (s : ℕ)
    → (s ≤ skip test n m s) × (skip test n m s ≤ s + n)
unfolding skip
skip-range test zero m s = (omega arith, omega arith)
skip-range test (suc n) m s = ground (arith, skip-range test n m (s + 1))

pub skip_ends :
    (test : ℕ → Bool) (n : ℕ) (m : Bytes) (s : ℕ)
    → (skip test n m s ≡ s + n) ⊎ (test (m (skip test n m s)) ≡ false)
unfolding skip
skip_ends test zero m s = inl (omega arith)
skip_ends test (suc n) m s = ground (arith, skip_ends test n m (s + 1))

-- The bytes `xs` stand at `a`.
abbrev pub Segment : Bytes → ℕ → List ℕ → Type 0
Segment m a [] = Unit
Segment m a (x ∷ xs) = (m a ≡ x) × Segment m (a + 1) xs

-- `skip` passes exactly the bytes `xs`, which pass the test, if the next one fails it or is out of
-- range.
pub skip-Segment :
    (test : ℕ → Bool) (n : ℕ) (m : Bytes) (s : ℕ) (xs : List ℕ)
    → Segment m s xs
    → All (λ c. test c ≡ true) xs
    → length xs ≤ n
    → (n ≡ length xs) ⊎ (test (m (s + length xs)) ≡ false)
    → skip test n m s ≡ s + length xs
unfolding skip
skip-Segment test zero m s [] h a le ends = omega arith
skip-Segment test zero m s (x ∷ xs) h a le ends = absurd (omega arith)
skip-Segment test (suc n) m s [] h a le ends = elim ends [
  | inl e ↦ absurd (omega (arith, e))
  | inr e ↦ let here : s + 0 ≡ s = omega arith in ground (arith, rw here at e)
]
skip-Segment test (suc n) m s (x ∷ xs) h a le ends =
    let next : s + 1 + length xs ≡ s + suc (length xs) = omega arith in
    let pass : test (m s) ≡ true = ap test h.0 ∙ a.0 in
    rw pass (
      skip-Segment test n m (s + 1) xs h.1 a.1 (omega arith) (rw next (ground (arith, ends)))
      ∙ next)
