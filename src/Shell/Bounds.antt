-- ===== src/Shell/Bounds.antt =====
-- The scanner of user/sh.c on any line: its pointers stay in the line.
use testcode.Base.{
  ℕ, suc, ◌+◌, ◌-◌, ◌<◌, ◌≤◌, ◌≡◌, ◌≢◌, ◌⊎◌, inl, inr, ap, ◌∙◌, Bool, true, false, arith, ◌==◌,
  Bool-cases,
}
use testcode.Str.{Bytes}
use testcode.Shell.{is_blank, is_plain, skip, skip_to, Token, token_at, gettoken}
use testcode.Shell.Scanner.{skip-range, skip_ends}

skip_plain : (n : ℕ) (m : Bytes) (q : ℕ) → is_plain (m q) ≡ true → q < skip is_plain (suc n) m q
unfolding skip
skip_plain n m q e = rw e (omega (arith, skip-range is_plain n m (q + 1)))

-- A byte that ends up in the default case.
module _ (es : ℕ) (m : Bytes) (q : ℕ) (end : m es ≡ 0) (le : q ≤ es)
    (stop : (q ≡ es) ⊎ (is_blank (m q) ≡ false)) where
  before_end : m q ≢ 0 → q < es
  before_end ne = elim (Bool-cases (q == es)) [
    | inl e ↦ let at : q ≡ es = ground (arith, e) in absurd (ne (ap m at ∙ end))
    | inr e ↦ ground (arith, e, le)
  ]

  not_blank : m q ≢ 0 → is_blank (m q) ≡ false
  not_blank ne = elim stop [ inl e ↦ absurd (ne (ap m e ∙ end)) | inr e ↦ e ]

  second_before : m q ≢ 0 → m (q + 1) ≢ 0 → q + 1 < es
  second_before ne ne' = elim (Bool-cases (q + 1 == es)) [
    | inl e ↦ let at : q + 1 ≡ es = ground (arith, e) in absurd (ne' (ap m at ∙ end))
    | inr e ↦ ground (arith, e, before_end ne)
  ]

  word_end :
      is_plain (m q) ≡ true
      → m q ≢ 0
      → (q < skip_to is_plain es m q) × (skip_to is_plain es m q ≤ es)
  word_end plain ne =
      let more : es - q ≡ suc (es - q - 1) = omega (arith, before_end ne) in
      (
        rw more (skip_plain (es - q - 1) m q plain),
        omega (arith, skip-range is_plain (es - q) m q, le),
      )

  token_at-range :
      (q ≤ (token_at es m q).1)
      × ((token_at es m q).1 ≤ es)
      × (((token_at es m q).0 ≡ 0) ⊎ (q < (token_at es m q).1))
  unfolding token_at
  token_at-range = ground (arith, before_end, not_blank, second_before, word_end)

-- The places of a token in order, and the end of it not at its start unless the line is over.
pub record InLine (es s : ℕ) (t : Token) : Type 0 where
  pub start : s ≤ t.q
  pub order : t.q ≤ t.eq
  pub next : t.eq ≤ t.next
  pub end : t.next ≤ es
  pub progress : (t.ret ≡ 0) ⊎ (t.q < t.eq)

pub skip_to-range :
    (test : ℕ → Bool) (es : ℕ) (m : Bytes) (s : ℕ)
    → s ≤ es
    → (s ≤ skip_to test es m s) × (skip_to test es m s ≤ es)
skip_to-range test es m s le = omega (arith, skip-range test (es - s) m s, le)

skip_to_stops :
    (test : ℕ → Bool) (es : ℕ) (m : Bytes) (s : ℕ)
    → s ≤ es
    → (skip_to test es m s ≡ es) ⊎ (test (m (skip_to test es m s)) ≡ false)
skip_to_stops test es m s le = elim (skip_ends test (es - s) m s) [
  | inl e ↦ inl (omega (arith, e, le))
  | inr e ↦ inr e
]

-- If a NUL byte ends the line, the token that `gettoken` returns and its new position are in the
-- rest of the line, and the token has a byte or the result is 0.
pub gettoken-InLine : (es s : ℕ) (m : Bytes) → m es ≡ 0 → s ≤ es → InLine es s (gettoken es m s)
unfolding gettoken
gettoken-InLine es s m end le =
    let q = skip_to is_blank es m s in
    let (lo, hi) = skip_to-range is_blank es m s le in
    let (order, below, progress) =
      token_at-range es m q end hi (skip_to_stops is_blank es m s le) in
    let (later, last) = skip_to-range is_blank es m (token_at es m q).1 below in
    record { start = lo; order = order; next = later; end = last; progress = progress }
