-- ===== src/Str/Fill.antt =====
-- `memset` of util/string.c.
use testcode.Base.{
  ℕ, zero, suc, ◌+◌, ◌-◌, ◌*◌, ◌/◌, ◌%◌, ◌^◌, ◌<◌, ◌≡◌, ap, ◌∙◌, ◌&&◌, inl, inr, arith, leb, ltb,
  if◌then◌else◌, update, bit_or, Bool-cases,
}
use testcode.Base.Bits.{bit_or-fields, bit_or_step}
use testcode.Machine.Bytes.{byte_of}
use testcode.Str.{
  Bytes, both_aligned, store_word, fill_words, fill_bytes, repeated, or_shifted, memset,
}

-- `n` bytes at `d` are `byte`.
abbrev pub filled_bytes : (n d byte : ℕ) → Bytes → Bytes
filled_bytes n d byte m a = if leb d a && ltb a (d + n) then byte else m a

or_shifted_sum :
    (k word : ℕ) → word * 2 ^ k < 2 ^ 64 → word < 2 ^ k → or_shifted word k ≡ word * 2 ^ k + word
or_shifted_sum k word wide low =
    let whole : word * 2 ^ k % 2 ^ 64 ≡ word * 2 ^ k = omega (arith, wide) in
    rw whole (bit_or-fields k word word low)

repeated_sum : (byte : ℕ) → repeated byte ≡ byte % 256 * 0x0101010101010101
repeated_sum byte =
    let w = byte % 256 in
    let small : w < 256 = omega arith in
    let one : or_shifted w 8 ≡ w * 257 =
      or_shifted_sum 8 w (omega arith) (omega arith) ∙ omega arith in
    let two : or_shifted (w * 257) 16 ≡ w * 257 * 65537 =
      or_shifted_sum 16 (w * 257) (omega arith) (omega arith) ∙ omega arith in
    let four : or_shifted (w * 257 * 65537) 32 ≡ w * 257 * 65537 * 4294967297 =
      or_shifted_sum 32 (w * 257 * 65537) (omega arith) (omega arith) ∙ omega arith in
    rw (one, two, four) (omega arith)

byte_of-repeated : (byte i : ℕ) → i < 8 → byte_of (repeated byte) i ≡ byte % 256
unfolding byte_of
byte_of-repeated byte i h = rw (repeated_sum byte) (by_index i h)
  where
    by_index : (i : ℕ) → i < 8 → byte_of (byte % 256 * 0x0101010101010101) i ≡ byte % 256
    by_index zero h = omega arith
    by_index (suc zero) h = omega arith
    by_index (suc (suc zero)) h = omega arith
    by_index (suc (suc (suc zero))) h = omega arith
    by_index (suc (suc (suc (suc zero)))) h = omega arith
    by_index (suc (suc (suc (suc (suc zero))))) h = omega arith
    by_index (suc (suc (suc (suc (suc (suc zero)))))) h = omega arith
    by_index (suc (suc (suc (suc (suc (suc (suc zero))))))) h = omega arith
    by_index (suc (suc (suc (suc (suc (suc (suc (suc i)))))))) h = absurd (omega arith)

fill_bytes_lem :
    (n d byte : ℕ) (m : Bytes) (a : ℕ) → fill_bytes n d byte m a ≡ filled_bytes n d byte m a
unfolding fill_bytes
fill_bytes_lem zero d byte m a = ground arith
fill_bytes_lem (suc n) d byte m a = fill_bytes_lem n (d + 1) byte (update m d byte) a ∙ ground arith

store_word-repeated :
    (d byte : ℕ) (m : Bytes) (a : ℕ)
    → store_word d (repeated byte) m a ≡ filled_bytes 8 d (byte % 256) m a
store_word-repeated d byte m a = ground (arith, byte_of-repeated byte (a - d))

fill_words_lem :
    (n d byte : ℕ) (m : Bytes) (a : ℕ)
    → fill_words n d (repeated byte) m a ≡ filled_bytes (n * 8) d (byte % 256) m a
unfolding fill_words
fill_words_lem zero d byte m a = ground arith
fill_words_lem (suc n) d byte m a =
    fill_words_lem n (d + 8) byte (store_word d (repeated byte) m) a
    ∙ ground (arith, store_word-repeated d byte m a)

low_bits : (a b : ℕ) → bit_or a b % 8 ≡ 0 → b % 8 ≡ 0
low_bits a b h =
    omega
      (arith, h, bit_or_step a b, bit_or_step (a / 2) (b / 2), bit_or_step (a / 2 / 2) (b / 2 / 2))

-- `memset` sets each byte of the range to the low byte of `byte` and leaves the others, whether
-- it stores words or bytes.
pub memset-filled_bytes :
    (dest byte len : ℕ) (m : Bytes) (a : ℕ)
    → memset dest byte len m a ≡ filled_bytes len dest (byte % 256) m a
unfolding memset
memset-filled_bytes dest byte len m a = elim (Bool-cases (both_aligned dest len)) [
  | inl words ↦
      let whole : len / 8 * 8 ≡ len = omega (arith, low_bits dest len (ground (arith, words))) in
      rw words (
        fill_words_lem (len / 8) dest byte m a
        ∙ ap (λ n. filled_bytes n dest (byte % 256) m a) whole)
  | inr bytes ↦ rw bytes (fill_bytes_lem len dest (byte % 256) m a)
]
