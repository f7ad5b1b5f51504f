-- ===== src/Str.antt =====
-- util/string.c on memory as bytes. A loop that ends at a NUL byte runs on fuel, and `none` means
-- that the fuel ran out; a null pointer is 0.
pub mod Text
pub mod Scan
pub mod Copy
pub mod Fill
pub mod Move
pub mod Number
use testcode.Base.{
  ℕ, zero, suc, ◌+◌, ◌-◌, ◌*◌, ◌/◌, ◌%◌, ◌^◌, bit_or, Option, none, some, Bool, true, false, ◌&&◌,
  ◌||◌, not, ◌==◌, leb, ltb, if◌then◌else◌, update,
}
use testcode.Machine.Bytes.{byte_of}
use testcode.Machine.Word.{sub32, sub64, add64}

-- The byte at each address.
abbrev pub Bytes : Type 0
Bytes = ℕ → ℕ

infixl 5 ◌>>=◌
abbrev ◌>>=◌ {ℓ κ} : {A : Type ℓ} {B : Type κ} → Option A → (A → Option B) → Option B
none >>= f = none
some a >>= f = f a

-- `while (*p) p++`
unfoldable pub end_of : ℕ → Bytes → ℕ → Option ℕ
end_of zero m p = none
end_of (suc n) m p = let rest = end_of n m (p + 1) in if m p == 0 then some p else rest

unfoldable pub strlen : ℕ → Bytes → ℕ → Option ℕ
strlen n m s = do p ← end_of n m s; some (p - s)

-- The difference of two `unsigned char`, as an `int`.
unfoldable pub strcmp : ℕ → Bytes → (s1 s2 : ℕ) → Option ℕ
strcmp zero m s1 s2 = none
strcmp (suc n) m s1 s2 =
    let rest = strcmp n m (s1 + 1) (s2 + 1) in
    if not (m s1 == 0) && m s1 == m s2 then rest else some (sub32 (m s1) (m s2))

-- The memory after the copy.
unfoldable pub strcpy : ℕ → Bytes → (dest src : ℕ) → Option Bytes
strcpy zero m dest src = none
strcpy (suc n) m dest src =
    let rest = strcpy n (update m dest (m src)) (dest + 1) (src + 1) in
    if m src == 0 then some (update m dest (m src)) else rest

unfoldable pub strchr : ℕ → Bytes → (s c : ℕ) → Option ℕ
strchr zero m s c = none
strchr (suc n) m s c =
    let rest = strchr n m (s + 1) c in
    if m s == 0 then some 0 else if m s == c then some s else rest

unfoldable pub strcat : ℕ → Bytes → (dst src : ℕ) → Option Bytes
strcat n m dst src = do k ← strlen n m dst; strcpy n m (dst + k) src

-- `while (*str == ' ') str++`
unfoldable pub skip_spaces : ℕ → Bytes → ℕ → Option ℕ
skip_spaces zero m str = none
skip_spaces (suc n) m str =
    let rest = skip_spaces n m (str + 1) in if m str == b' ' then rest else some str

-- `res *= 10; res += *str++ - '0'` on `long`.
unfoldable pub add_digit : (res c : ℕ) → ℕ
add_digit res c = add64 (res * 10) (sub64 c b'0')

unfoldable pub read_digits : ℕ → Bytes → (str res : ℕ) → Option ℕ
read_digits zero m str res = none
read_digits (suc n) m str res =
    let rest = read_digits n m (str + 1) (add_digit res (m str)) in
    if m str == 0 then some res else rest

abbrev pub is_sign : ℕ → Bool
is_sign c = c == b'-' || c == b'+'

-- The sign and the digits.
unfoldable pub read_number : ℕ → Bytes → ℕ → Option ℕ
read_number n m str = do
  res ← read_digits n m (if is_sign (m str) then str + 1 else str) 0
  some (if m str == b'-' then sub64 0 res else res)

unfoldable pub atol : ℕ → Bytes → ℕ → Option ℕ
atol n m s = do str ← skip_spaces n m s; read_number n m str

-- `n` bytes from `s` on, read at once and written to `d`: a load and a store of `n` bytes.
abbrev pub blit : (n d s : ℕ) → Bytes → Bytes
blit n d s m a = if leb d a && ltb a (d + n) then m (s + (a - d)) else m a

-- `while (n-- > 0) *d++ = *s++`
unfoldable pub copy_forward : ℕ → (d s : ℕ) → Bytes → Bytes
copy_forward zero d s m = m
copy_forward (suc n) d s m = copy_forward n (d + 1) (s + 1) (update m d (m s))

-- `while (n-- > 0) *--d = *--s` from `d + n` and `s + n`.
unfoldable pub copy_backward : ℕ → (d s : ℕ) → Bytes → Bytes
copy_backward zero d s m = m
copy_backward (suc n) d s m = copy_backward n d s (update m (d + n) (m (s + n)))

-- The rounds of `while (d < dest + len - 7)`, on words.
unfoldable pub copy_words : ℕ → (d s : ℕ) → Bytes → Bytes
copy_words zero d s m = m
copy_words (suc n) d s m = copy_words n (d + 8) (s + 8) (blit 8 d s m)

-- `((uintptr_t)dest | (uintptr_t)src) & 7` is 0.
abbrev pub both_aligned : ℕ → ℕ → Bool
both_aligned a b = bit_or a b % 8 == 0

unfoldable pub memcpy : (dest src len : ℕ) → Bytes → Bytes
memcpy dest src len m =
    let words : ℕ = if both_aligned dest src then len / 8 else 0 in
    copy_forward (len - words * 8) (dest + words * 8) (src + words * 8)
      (copy_words words dest src m)

unfoldable pub memmove : (dst src n : ℕ) → Bytes → Bytes
memmove dst src n m =
    if ltb src dst && ltb dst (src + n) then copy_backward n dst src m else copy_forward n dst src m

abbrev pub store_word : (d word : ℕ) → Bytes → Bytes
store_word d word m a = if leb d a && ltb a (d + 8) then byte_of word (a - d) else m a

unfoldable pub fill_words : ℕ → (d word : ℕ) → Bytes → Bytes
fill_words zero d word m = m
fill_words (suc n) d word m = fill_words n (d + 8) word (store_word d word m)

unfoldable pub fill_bytes : ℕ → (d byte : ℕ) → Bytes → Bytes
fill_bytes zero d byte m = m
fill_bytes (suc n) d byte m = fill_bytes n (d + 1) byte (update m d byte)

-- `word |= word << k` on `uintptr_t`.
abbrev pub or_shifted : (word k : ℕ) → ℕ
or_shifted word k = bit_or (word * 2 ^ k % 2 ^ 64) word

abbrev pub repeated : ℕ → ℕ
repeated byte = or_shifted (or_shifted (or_shifted (byte % 256) 8) 16) 32

-- `byte` is the pattern of an `int`, of which a store to a `char` keeps the low byte.
unfoldable pub memset : (dest byte len : ℕ) → Bytes → Bytes
memset dest byte len m =
    if both_aligned dest len
    then fill_words (len / 8) dest (repeated byte) m
    else fill_bytes len dest (byte % 256) m

-- `while (--n > 0 && (*s++ = *t++) != 0); *s = 0` when `k` is left of `n` after the decrement.
unfoldable pub copy_terminated : ℕ → (s t : ℕ) → Bytes → Bytes
copy_terminated zero s t m = update m s 0
copy_terminated (suc k) s t m =
    let rest = copy_terminated k (s + 1) (t + 1) (update m s (m t)) in
    if m t == 0 then update (update m s (m t)) (s + 1) 0 else rest

-- `n` is the pattern of an `int`.
unfoldable pub safestrcpy : (s t n : ℕ) → Bytes → Bytes
safestrcpy s t n m = if n == 0 || leb (2 ^ 31) n then m else copy_terminated (n - 1) s t m
