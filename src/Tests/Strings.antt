-- ===== src/Tests/Strings.antt =====
-- The theorems on util/string.c, on short strings.
use testcode.Base.{ℕ, ◌≡◌, inl, inr, ◌↔◌, refl, some, List, [], ◌∷◌, arith, ◌==◌, if◌then◌else◌}
use testcode.Str.{Bytes, strlen, strcmp, strcpy, strcat, memmove, memset, atol, safestrcpy, blit}
use testcode.Str.Copy.{Copied, Fits, strcpy-Copied, strcat-append, safestrcpy-take}
use testcode.Str.Fill.{filled_bytes, memset-filled_bytes}
use testcode.Str.Move.{memmove-blit}
use testcode.Str.Number.{minus, signed, spelled, atol-signed}
use testcode.Str.Scan.{difference, strlen-length, strcmp-difference}
use testcode.Str.Text.{IsString}

abbrev word_ls : List ℕ
word_ls = b'l' ∷ b's' ∷ []

abbrev word_lt : List ℕ
word_lt = b'l' ∷ b't' ∷ []

-- "ls" at 100, "lt" at 200 and " -42" at 300.
abbrev strings : Bytes
strings a =
    if a == 100
    then b'l'
    else if a == 101
    then b's'
    else if a == 200
    then b'l'
    else if a == 201
    then b't'
    else if a == 300
    then b' '
    else if a == 301
    then b'-'
    else if a == 302
    then b'4'
    else if a == 303
    then b'2'
    else 0

ls_string : IsString strings 100 word_ls
ls_string = (refl, omega arith, (refl, omega arith, refl))

lt_string : IsString strings 200 word_lt
lt_string = (refl, omega arith, (refl, omega arith, refl))

number_string : IsString strings 300 (b' ' ∷ b'-' ∷ b'4' ∷ b'2' ∷ [])
number_string =
    (refl, omega arith, (refl, omega arith, (refl, omega arith, (refl, omega arith, refl))))

strlen-length_example : strlen 3 strings 100 ≡ some 2
strlen-length_example = strlen-length 3 strings 100 word_ls ls_string (omega arith)

strcmp-difference_example :
    (strcmp 3 strings 100 200 ≡ some (difference word_ls word_lt))
    × ((difference word_ls word_lt ≡ 0) ↔ (word_ls ≡ word_lt))
strcmp-difference_example =
    strcmp-difference 3 strings 100 200 word_ls word_lt ls_string lt_string
      (omega arith, (omega arith, tt)) (omega arith, (omega arith, tt)) (omega arith)

strcpy-Copied_example :
    (m' : Bytes) × (strcpy 3 strings 150 100 ≡ some m') × Copied strings 150 word_ls m'
strcpy-Copied_example =
    strcpy-Copied 3 strings 150 100 word_ls ls_string (inr (omega arith)) (omega arith)

strcat-append_example :
    (m' : Bytes) × (strcat 3 strings 100 200 ≡ some m')
    × Copied strings 100 (b'l' ∷ b's' ∷ b'l' ∷ b't' ∷ []) m'
strcat-append_example =
    strcat-append 3 strings 100 200 word_ls word_lt ls_string lt_string (inl (omega arith))
      (omega arith) (omega arith)

safestrcpy-take_example : Fits strings 150 2 (b'l' ∷ []) (safestrcpy 150 100 2 strings)
safestrcpy-take_example =
    safestrcpy-take 150 100 2 strings word_ls ls_string (omega arith) (omega arith)
      (inr (omega arith))

memmove-blit_example : memmove 101 100 2 strings 102 ≡ blit 2 101 100 strings 102
memmove-blit_example = memmove-blit 101 100 2 strings 102

memset-filled_bytes_example : memset 96 7 16 strings 100 ≡ filled_bytes 16 96 7 strings 100
memset-filled_bytes_example = memset-filled_bytes 96 7 16 strings 100

atol-signed_example : atol 4 strings 300 ≡ some (signed minus (spelled 0 (b'4' ∷ b'2' ∷ [])))
atol-signed_example =
    atol-signed 4 strings 300 1 minus (b'4' ∷ b'2' ∷ []) number_string
      ((omega arith, omega arith), ((omega arith, omega arith), tt)) (omega arith)
