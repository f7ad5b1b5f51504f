-- ===== src/Str/Text.antt =====
-- Strings of bytes in memory, for util/string.c.
use testcode.Base.{ℕ, zero, suc, ◌+◌, ◌<◌, ◌≤◌, ◌≡◌, ◌≢◌, List, [], ◌∷◌, ◌++◌, length, arith, ◌∙◌}
use mathlib.Core.Path.{subst}
use testcode.Str.{Bytes}

-- The bytes `xs`, none of them NUL, and a NUL behind them.
abbrev pub IsString : Bytes → ℕ → List ℕ → Type 0
IsString m a [] = m a ≡ 0
IsString m a (x ∷ xs) = (m a ≡ x) × (x ≢ 0) × IsString m (a + 1) xs

abbrev pub IsByte : ℕ → Type 0
IsByte c = c < 256

-- A string stands in memory that has the same bytes in its place.
pub IsString-frame :
    (m m' : Bytes) (a : ℕ) (xs : List ℕ)
    → ((b : ℕ) → a ≤ b → b ≤ a + length xs → m' b ≡ m b)
    → IsString m a xs
    → IsString m' a xs
IsString-frame m m' a [] same h = same a (omega arith) (omega arith) ∙ h
IsString-frame m m' a (x ∷ xs) same h = (
  same a (omega arith) (omega arith) ∙ h.0,
  h.1,
  IsString-frame m m' (a + 1) xs (λ b lo hi. same b (omega arith) (omega arith)) h.2,
)

-- A prefix that memory keeps, and a string behind it.
pub IsString-append :
    (m m' : Bytes) (a : ℕ) (xs ys : List ℕ)
    → IsString m a xs
    → ((b : ℕ) → a ≤ b → b < a + length xs → m' b ≡ m b)
    → IsString m' (a + length xs) ys
    → IsString m' a (xs ++ ys)
IsString-append m m' a [] ys h same k =
    let e : a + 0 ≡ a = omega arith in subst (λ p. IsString m' p ys) e k
IsString-append m m' a (x ∷ xs) ys h same k =
    let e : a + suc (length xs) ≡ a + 1 + length xs = omega arith in
    (
      same a (omega arith) (omega arith) ∙ h.0,
      h.1,
      IsString-append m m' (a + 1) xs ys h.2 (λ b lo hi. same b (omega arith) (omega arith))
          (subst (λ p. IsString m' p ys) e k),
    )

abbrev pub take {ℓ} : {A : Type ℓ} → ℕ → List A → List A
take zero xs = []
take (suc n) [] = []
take (suc n) (x ∷ xs) = x ∷ take n xs

pub length-take {ℓ} : {A : Type ℓ} (n : ℕ) (xs : List A) → length (take n xs) ≤ n
length-take zero xs = omega arith
length-take (suc n) [] = omega arith
length-take (suc n) (x ∷ xs) = omega (arith, length-take n xs)
