-- ===== src/Base/Lists.antt =====
-- Lists measured by native numbers, membership of numbers, and the pigeonhole bound.
use Prim.Native.Nat.{ℕ, zero, suc, ◌+◌, ◌≤◌, ◌<◌}
use mathlib.Core.Path.{◌≡◌, refl, sym, subst, ap, ◌∙◌}
use mathlib.Core.Bool.{Bool, true, false, ◌||◌, false≢true}
use mathlib.Core.List.{List, [], ◌∷◌, ◌++◌}
use native.Mathlib.Omega.{arith}
use mathlib.Core.Logic.{◌≢◌, inl, inr}
use testcode.Base.Tests.{◌==◌, ==_iff, if◌then◌else◌, Bool-cases}

module _ {ℓ} {A : Type ℓ} where
  abbrev pub length : List A → ℕ
  length [] = 0
  length (x ∷ xs) = suc (length xs)

  pub length-append : (xs ys : List A) → length (xs ++ ys) ≡ length xs + length ys
  length-append [] ys = omega arith
  length-append (x ∷ xs) ys = omega (arith, length-append xs ys)

-- Every element satisfies the predicate.
abbrev pub All {ℓ κ} : {A : Type ℓ} → (A → Type κ) → List A → Type κ
All P [] = Unit
All P (x ∷ xs) = P x × All P xs

abbrev pub mem : ℕ → List ℕ → Bool
mem a [] = false
mem a (x ∷ xs) = (a == x) || mem a xs

-- No element occurs twice.
abbrev pub Distinct : List ℕ → Type 0
Distinct [] = Unit
Distinct (x ∷ xs) = (mem x xs ≡ false) × Distinct xs

pub mem-append : (a : ℕ) (xs ys : List ℕ) → mem a (xs ++ ys) ≡ (mem a xs || mem a ys)
mem-append a [] ys = refl
mem-append a (x ∷ xs) ys = ground (arith, mem-append a xs ys)

pub All-mem {ℓ} : (P : ℕ → Type ℓ) (a : ℕ) (xs : List ℕ) → All P xs → mem a xs ≡ true → P a
All-mem P a [] h m = absurd (false≢true m)
All-mem P a (x ∷ xs) h m = elim (Bool-cases (a == x)) [
  | inl e ↦ subst P (sym ((==_iff a x).0 e)) h.0
  | inr e ↦ All-mem P a xs h.1 (rw e at m)
]

pub All-append {ℓ κ} :
    {A : Type ℓ} (P : A → Type κ) (xs ys : List A) → All P xs → All P ys → All P (xs ++ ys)
All-append P [] ys h k = k
All-append P (x ∷ xs) ys h k = (h.0, All-append P xs ys h.1 k)

pub Distinct-snoc :
    (xs : List ℕ) (a : ℕ) → Distinct xs → mem a xs ≡ false → Distinct (xs ++ (a ∷ []))
Distinct-snoc [] a d out = (refl, tt)
Distinct-snoc (x ∷ xs) a d out =
    (ground (arith, mem-append x xs (a ∷ [])), Distinct-snoc xs a d.1 (ground arith))

-- `xs` without the occurrences of `a`.
without : ℕ → List ℕ → List ℕ
without a [] = []
without a (x ∷ xs) = if x == a then without a xs else (x ∷ without a xs)

mem-without : (a b : ℕ) (xs : List ℕ) → mem b xs ≡ false → mem b (without a xs) ≡ false
unfolding without
mem-without a b [] h = refl
mem-without a b (x ∷ xs) h = ground (arith, mem-without a b xs)

without_absent : (a : ℕ) (xs : List ℕ) → mem a xs ≡ false → without a xs ≡ xs
unfolding without
without_absent a [] h = refl
without_absent a (x ∷ xs) h = ground (arith, without_absent a xs)

length-without : (a : ℕ) (xs : List ℕ) → Distinct xs → length xs ≤ suc (length (without a xs))
unfolding without
length-without a [] d = omega arith
length-without a (x ∷ xs) d = ground (arith, length-without a xs d.1, without_absent a xs)

without-Distinct : (a : ℕ) (xs : List ℕ) → Distinct xs → Distinct (without a xs)
unfolding without
without-Distinct a [] d = tt
without-Distinct a (x ∷ xs) d = elim (Bool-cases (x == a)) [
  | inl e ↦ rw e (without-Distinct a xs d.1)
  | inr e ↦ rw e (mem-without a x xs d.0, without-Distinct a xs d.1)
]

without-All-lt : (n : ℕ) (xs : List ℕ) → All (λ x. x < suc n) xs → All (λ x. x < n) (without n xs)
unfolding without
without-All-lt n [] h = tt
without-All-lt n (x ∷ xs) h = elim (Bool-cases (x == n)) [
  | inl e ↦ rw e (without-All-lt n xs h.1)
  | inr e ↦ rw e (ground arith, without-All-lt n xs h.1)
]

-- Distinct numbers below `n` are at most `n` many.
pub length-le_of_Distinct :
    (n : ℕ) (xs : List ℕ) → Distinct xs → All (λ x. x < n) xs → length xs ≤ n
length-le_of_Distinct zero [] d h = omega arith
length-le_of_Distinct zero (x ∷ xs) d h = absurd (omega arith)
length-le_of_Distinct (suc n) xs d h = omega (
  arith,
  length-without n xs d,
  length-le_of_Distinct n (without n xs) (without-Distinct n xs d) (without-All-lt n xs h),
)

pub mem_of_below : (a : ℕ) (xs : List ℕ) → All (λ x. x < a) xs → mem a xs ≡ false
mem_of_below a [] h = refl
mem_of_below a (x ∷ xs) h = ground (arith, mem_of_below a xs h.1)

pub All-lt_mono : (a b : ℕ) (xs : List ℕ) → a ≤ b → All (λ x. x < a) xs → All (λ x. x < b) xs
All-lt_mono a b [] le h = tt
All-lt_mono a b (x ∷ xs) le h = (omega arith, All-lt_mono a b xs le h.1)

pub mem-head : (x : ℕ) (xs : List ℕ) → mem x (x ∷ xs) ≡ true
mem-head x xs = ground arith

pub mem-tail : (y x : ℕ) (xs : List ℕ) → mem y xs ≡ true → mem y (x ∷ xs) ≡ true
mem-tail y x xs h = ground arith

pub ne_of_mem : (a b : ℕ) (xs : List ℕ) → mem a xs ≡ true → mem b xs ≡ false → a ≢ b
ne_of_mem a b xs h k same = false≢true (sym k ∙ (ap (λ x. mem x xs) (sym same) ∙ h))
