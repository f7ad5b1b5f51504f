-- ===== src/Str/Copy.antt =====
-- `strcpy`, `strcat` and `safestrcpy` of util/string.c.
use testcode.Base.{
  ℕ, zero, suc, ◌+◌, ◌-◌, ◌^◌, ◌<◌, ◌≤◌, ◌≡◌, ◌⊎◌, inl, ◌∙◌, some, false, ◌||◌, List, [], ◌∷◌, ◌++◌,
  length, length-append, arith, ◌==◌, leb, update, update_self,
}
use testcode.Str.{Bytes, strcpy, strcat, copy_terminated, safestrcpy}
use testcode.Str.Text.{IsString, IsString-frame, IsString-append, take}
use mathlib.Core.Path.{subst}
use testcode.Str.Scan.{strlen-length}

-- The memory `m'` has the string `xs` at `d`, and is `m` outside of it.
pub record Copied (m : Bytes) (d : ℕ) (xs : List ℕ) (m' : Bytes) : Type 0 where
  pub text : IsString m' d xs
  pub rest : (a : ℕ) → (a < d) ⊎ (d + length xs < a) → m' a ≡ m a

-- The `n` bytes from `a` on and those from `b` on are apart.
abbrev pub Apart : (a b n : ℕ) → Type 0
Apart a b n = (a + n ≤ b) ⊎ (b + n ≤ a)

pub strcpy-Copied :
    (n : ℕ) (m : Bytes) (d s : ℕ) (xs : List ℕ)
    → IsString m s xs
    → Apart d s (length xs + 1)
    → length xs < n
    → (m' : Bytes) × (strcpy n m d s ≡ some m') × Copied m d xs m'
unfolding strcpy
strcpy-Copied zero m d s xs h apart fuel = absurd (omega arith)
strcpy-Copied (suc n) m d s [] h apart fuel = (
  update m d (m s),
  ground arith,
  record { text = ground arith; rest = λ a out. ground (arith, out) },
)
strcpy-Copied (suc n) m d s (x ∷ xs) h apart fuel =
    let m1 : Bytes = update m d (m s) in
    let later : Apart (d + 1) (s + 1) (length xs + 1) = ground (arith, apart) in
    let same : IsString m1 (s + 1) xs =
      IsString-frame m m1 (s + 1) xs (λ b lo hi. ground (arith, apart)) h.2 in
    let (m', run, c) = strcpy-Copied n m1 (d + 1) (s + 1) xs same later (omega arith) in
    (
      m',
      ground (arith, run),
      record {
        text = (c.rest d (inl (omega arith)) ∙ ground arith, h.1, c.text);
        rest = λ a out. c.rest a (ground (arith, out)) ∙ ground (arith, out);
      },
    )

-- If two strings stand in memory, the result of appending the second to the first does not
-- overlap the second, and the fuel is more than the length of each, `strcat` returns and leaves
-- the first string with the second behind it at `dst`, and memory outside of it stays.
pub strcat-append :
    (n : ℕ) (m : Bytes) (dst src : ℕ) (xs ys : List ℕ)
    → IsString m dst xs
    → IsString m src ys
    → (dst + length xs + length ys < src) ⊎ (src + length ys < dst)
    → length xs < n
    → length ys < n
    → (m' : Bytes) × (strcat n m dst src ≡ some m') × Copied m dst (xs ++ ys) m'
unfolding strcat
strcat-append n m dst src xs ys h k apart fx fy =
    let far : Apart (dst + length xs) src (length ys + 1) = ground (arith, apart) in
    let (m', run, c) = strcpy-Copied n m (dst + length xs) src ys k far fy in
    (
      m',
      rw (strlen-length n m dst xs h fx) run,
      record {
        text = IsString-append m m' dst xs ys h (λ b lo hi. c.rest b (inl hi)) c.text;
        rest = λ a out. c.rest a (ground (arith, out, length-append {0} xs ys));
      },
    )

-- The memory `m'` has the string `xs` at `s`, and is `m` outside of the `n` bytes from `s` on.
pub record Fits (m : Bytes) (s n : ℕ) (xs : List ℕ) (m' : Bytes) : Type 0 where
  pub text : IsString m' s xs
  pub rest : (a : ℕ) → (a < s) ⊎ (s + n ≤ a) → m' a ≡ m a

copy_terminated_run :
    (k s t : ℕ) (m : Bytes) (xs : List ℕ)
    → IsString m t xs
    → (s + k < t) ⊎ (t + length xs < s)
    → Fits m s (suc k) (take k xs) (copy_terminated k s t m)
unfolding copy_terminated
copy_terminated_run zero s t m xs h apart = record {
  text = update_self m s 0;
  rest = λ a out. ground (arith, out);
}
copy_terminated_run (suc k) s t m [] h apart = record {
  text = ground arith;
  rest = λ a out. ground (arith, out);
}
copy_terminated_run (suc k) s t m (x ∷ xs) h apart =
    let m1 : Bytes = update m s (m t) in
    let same : IsString m1 (t + 1) xs =
      IsString-frame m m1 (t + 1) xs (λ b lo hi. ground (arith, apart)) h.2 in
    let f = copy_terminated_run k (s + 1) (t + 1) m1 xs same (ground (arith, apart)) in
    let test : (m t == 0) ≡ false = ground arith in
    rw test (record {
      text = (f.rest s (inl (omega arith)) ∙ ground arith, h.1, f.text);
      rest = λ a out. f.rest a (ground (arith, out)) ∙ ground (arith, out);
    })

-- If a string stands at `t`, `n` is a positive `int`, and the `n` bytes at `s` and the string do
-- not overlap, `safestrcpy` writes the first `n - 1` bytes of the string, or all if it is
-- shorter, and a NUL behind them, and no byte outside of the `n` bytes at `s`.
pub safestrcpy-take :
    (s t n : ℕ) (m : Bytes) (xs : List ℕ)
    → IsString m t xs
    → 0 < n
    → n < 2 ^ 31
    → (s + n ≤ t) ⊎ (t + length xs < s)
    → Fits m s n (take (n - 1) xs) (safestrcpy s t n m)
unfolding safestrcpy
safestrcpy-take s t n m xs h lo hi apart =
    let test : (n == 0 || leb (2 ^ 31) n) ≡ false = ground arith in
    let size : suc (n - 1) ≡ n = omega arith in
    rw test (
      subst (λ k. Fits m s k (take (n - 1) xs) (copy_terminated (n - 1) s t m)) size
        (copy_terminated_run (n - 1) s t m xs h (ground (arith, apart))))
