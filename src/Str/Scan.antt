-- ===== src/Str/Scan.antt =====
-- `strlen`, `strcmp` and `strchr` of util/string.c.
use testcode.Base.{
  ℕ, zero, suc, ◌+◌, ◌<◌, ◌≡◌, ◌≢◌, refl, some, ◌↔◌, List, [], ◌∷◌, length, arith, All, ◌==◌,
  if◌then◌else◌,
}
use testcode.Machine.Word.{sub32}
use testcode.Str.{Bytes, end_of, strlen, strcmp, strchr}
use testcode.Str.Text.{IsString, IsByte}

pub end_of-length :
    (n : ℕ) (m : Bytes) (a : ℕ) (xs : List ℕ)
    → IsString m a xs
    → length xs < n
    → end_of n m a ≡ some (a + length xs)
unfolding end_of
end_of-length zero m a xs h fuel = absurd (omega arith)
end_of-length (suc n) m a [] h fuel = ground arith
end_of-length (suc n) m a (x ∷ xs) h fuel =
    ground (arith, end_of-length n m (a + 1) xs h.2 (omega arith))

pub strlen-length :
    (n : ℕ) (m : Bytes) (s : ℕ) (xs : List ℕ)
    → IsString m s xs
    → length xs < n
    → strlen n m s ≡ some (length xs)
unfolding strlen
strlen-length n m s xs h fuel = ground (arith, end_of-length n m s xs h fuel)

-- The difference at the first place where two strings differ.
abbrev pub difference : (xs ys : List ℕ) → ℕ
difference [] [] = 0
difference [] (y ∷ ys) = sub32 0 y
difference (x ∷ xs) [] = x
difference (x ∷ xs) (y ∷ ys) = if x == y then difference xs ys else sub32 x y

difference_iff :
    (xs ys : List ℕ)
    → All (λ c. IsByte c × (c ≢ 0)) xs
    → All (λ c. IsByte c × (c ≢ 0)) ys
    → (difference xs ys ≡ 0) ↔ (xs ≡ ys)
difference_iff [] [] h k = (λ e. refl, λ e. refl)
difference_iff [] (y ∷ ys) h k = ground arith
difference_iff (x ∷ xs) [] h k = ground arith
difference_iff (x ∷ xs) (y ∷ ys) h k = ground (arith, difference_iff xs ys h.1 k.1)

strcmp_run :
    (n : ℕ) (m : Bytes) (a b : ℕ) (xs ys : List ℕ)
    → IsString m a xs
    → IsString m b ys
    → All IsByte xs
    → All IsByte ys
    → length xs < n
    → strcmp n m a b ≡ some (difference xs ys)
unfolding strcmp
strcmp_run zero m a b xs ys h k hx hy fuel = absurd (omega arith)
strcmp_run (suc n) m a b [] [] h k hx hy fuel = ground arith
strcmp_run (suc n) m a b [] (y ∷ ys) h k hx hy fuel = ground arith
strcmp_run (suc n) m a b (x ∷ xs) [] h k hx hy fuel = ground arith
strcmp_run (suc n) m a b (x ∷ xs) (y ∷ ys) h k hx hy fuel =
    ground (arith, strcmp_run n m (a + 1) (b + 1) xs ys h.2 k.2 hx.1 hy.1 (omega arith))

-- The address of the first `c` in a string at `a`, 0 if there is none.
abbrev pub position : (a c : ℕ) → List ℕ → ℕ
position a c [] = 0
position a c (x ∷ xs) = if x == c then a else position (a + 1) c xs

-- If a string stands in memory and the fuel is more than its length, `strchr` returns the address
-- of the first byte of the string that is `c`, or 0 if there is none.
pub strchr-position :
    (n : ℕ) (m : Bytes) (s c : ℕ) (xs : List ℕ)
    → IsString m s xs
    → length xs < n
    → strchr n m s c ≡ some (position s c xs)
unfolding strchr
strchr-position zero m s c xs h fuel = absurd (omega arith)
strchr-position (suc n) m s c [] h fuel = ground arith
strchr-position (suc n) m s c (x ∷ xs) h fuel =
    ground (arith, strchr-position n m (s + 1) c xs h.2 (omega arith))

nonzero_bytes :
    (m : Bytes) (a : ℕ) (xs : List ℕ)
    → IsString m a xs
    → All IsByte xs
    → All (λ c. IsByte c × (c ≢ 0)) xs
nonzero_bytes m a [] h b = tt
nonzero_bytes m a (x ∷ xs) h b = ((b.0, h.1), nonzero_bytes m (a + 1) xs h.2 b.1)

-- If two strings of bytes stand in memory and the fuel is more than the length of the first,
-- `strcmp` returns the difference of their bytes at the first place where they differ, and it is
-- 0 if and only if they are equal.
pub strcmp-difference :
    (n : ℕ) (m : Bytes) (s1 s2 : ℕ) (xs ys : List ℕ)
    → IsString m s1 xs
    → IsString m s2 ys
    → All IsByte xs
    → All IsByte ys
    → length xs < n
    → (strcmp n m s1 s2 ≡ some (difference xs ys)) × ((difference xs ys ≡ 0) ↔ (xs ≡ ys))
strcmp-difference n m s1 s2 xs ys h k hx hy fuel = (
  strcmp_run n m s1 s2 xs ys h k hx hy fuel,
  difference_iff xs ys (nonzero_bytes m s1 xs h hx) (nonzero_bytes m s2 ys k hy),
)
