-- ===== src/Str/Number.antt =====
-- `atol` of util/string.c.
use testcode.Base.{
  ℕ, zero, suc, ◌+◌, ◌-◌, ◌*◌, ◌%◌, ◌^◌, ◌<◌, ◌≤◌, ◌≡◌, refl, ap, ◌∙◌, some, false, List, [], ◌∷◌,
  ◌++◌, length, arith, All, ◌==◌,
}
use mathlib.Core.Path.{subst}
use testcode.Machine.Word.{sub64}
use testcode.Str.{Bytes, skip_spaces, add_digit, read_digits, is_sign, read_number, atol}
use testcode.Str.Text.{IsString}

abbrev pub IsDigit : ℕ → Type 0
IsDigit c = (b'0' ≤ c) × (c ≤ b'9')

-- The number that the digits spell behind `r`.
abbrev pub spelled : (r : ℕ) → List ℕ → ℕ
spelled r [] = r
spelled r (d ∷ ds) = spelled (r * 10 + (d - b'0')) ds

spelled-mod :
    (ds : List ℕ) (r r' : ℕ)
    → r % 2 ^ 64 ≡ r' % 2 ^ 64
    → spelled r ds % 2 ^ 64 ≡ spelled r' ds % 2 ^ 64
spelled-mod [] r r' e = e
spelled-mod (d ∷ ds) r r' e =
    spelled-mod ds (r * 10 + (d - b'0')) (r' * 10 + (d - b'0')) (omega (arith, e))

read_digits-spelled :
    (n : ℕ) (m : Bytes) (p r : ℕ) (ds : List ℕ)
    → IsString m p ds
    → All IsDigit ds
    → r < 2 ^ 64
    → length ds < n
    → read_digits n m p r ≡ some (spelled r ds % 2 ^ 64)
unfolding read_digits add_digit
read_digits-spelled zero m p r ds h a small fuel = absurd (omega arith)
read_digits-spelled (suc n) m p r [] h a small fuel = ground arith
read_digits-spelled (suc n) m p r (d ∷ ds) h a small fuel =
    let test : (m p == 0) ≡ false = ground arith in
    rw (test, h.0)
      (read_digits-spelled n m (p + 1) (add_digit r d) ds h.2 a.1 (omega arith) (omega arith)
        ∙ ap some (spelled-mod ds (add_digit r d) (r * 10 + (d - b'0')) (omega (arith, a.0))))

abbrev pub blanks : ℕ → List ℕ
blanks zero = []
blanks (suc k) = b' ' ∷ blanks k

pub data Sign : Type 0 where
  unsigned plus minus : Sign

abbrev pub sign_text : Sign → List ℕ
sign_text unsigned = []
sign_text plus = b'+' ∷ []
sign_text minus = b'-' ∷ []

-- The `long` that a sign and a number stand for.
abbrev pub signed : Sign → ℕ → ℕ
signed minus r = sub64 0 (r % 2 ^ 64)
signed _ r = r % 2 ^ 64

-- Behind the blanks stands something else.
skip_spaces-blanks :
    (n : ℕ) (m : Bytes) (p k : ℕ) (xs : List ℕ)
    → IsString m p (blanks k ++ xs)
    → ((q : ℕ) → IsString m q xs → (m q == b' ') ≡ false)
    → k < n
    → (skip_spaces n m p ≡ some (p + k)) × IsString m (p + k) xs
unfolding skip_spaces
skip_spaces-blanks zero m p k xs h other fuel = absurd (omega arith)
skip_spaces-blanks (suc n) m p zero xs h other fuel =
    let e : p ≡ p + 0 = omega arith in
    (rw (other p h) (ap some e), subst (λ q. IsString m q xs) e h)
skip_spaces-blanks (suc n) m p (suc k) xs h other fuel =
    let e : p + 1 + k ≡ p + suc k = omega arith in
    let (run, here) = skip_spaces-blanks n m (p + 1) k xs h.2 other (omega arith) in
    (ground (arith, run), subst (λ q. IsString m q xs) e here)

no_space :
    (m : Bytes) (q : ℕ) (sign : Sign) (ds : List ℕ)
    → All IsDigit ds
    → IsString m q (sign_text sign ++ ds)
    → (m q == b' ') ≡ false
no_space m q unsigned [] a h = ground arith
no_space m q unsigned (d ∷ ds) a h = ground arith
no_space m q plus ds a h = ground arith
no_space m q minus ds a h = ground arith

no_sign :
    (m : Bytes) (q : ℕ) (ds : List ℕ)
    → All IsDigit ds
    → IsString m q ds
    → ((m q == b'-') ≡ false) × (is_sign (m q) ≡ false)
no_sign m q [] a h = ground arith
no_sign m q (d ∷ ds) a h = ground arith

read_number-signed :
    (n : ℕ) (m : Bytes) (p : ℕ) (sign : Sign) (ds : List ℕ)
    → IsString m p (sign_text sign ++ ds)
    → All IsDigit ds
    → length ds < n
    → read_number n m p ≡ some (signed sign (spelled 0 ds))
unfolding read_number
read_number-signed n m p unsigned ds h a fuel =
    let (no_minus, none_set) = no_sign m p ds a h in
    rw (none_set, no_minus, read_digits-spelled n m p 0 ds h a (omega arith) fuel) refl
read_number-signed n m p plus ds h a fuel =
    rw (h.0, read_digits-spelled n m (p + 1) 0 ds h.2 a (omega arith) fuel) refl
read_number-signed n m p minus ds h a fuel =
    rw (h.0, read_digits-spelled n m (p + 1) 0 ds h.2 a (omega arith) fuel) refl

-- If a string in memory is blanks, a sign or none, and digits, and the fuel is more than the
-- blanks and digits, `atol` returns the number that the digits spell, modulo 2^64, negated for a
-- minus sign.
pub atol-signed :
    (n : ℕ) (m : Bytes) (s k : ℕ) (sign : Sign) (ds : List ℕ)
    → IsString m s (blanks k ++ (sign_text sign ++ ds))
    → All IsDigit ds
    → k + length ds < n
    → atol n m s ≡ some (signed sign (spelled 0 ds))
unfolding atol
atol-signed n m s k sign ds h a fuel =
    let (run, here) =
      skip_spaces-blanks n m s k (sign_text sign ++ ds) h (λ q t. no_space m q sign ds a t)
        (omega arith) in
    rw run (read_number-signed n m (s + k) sign ds here a (omega arith))
