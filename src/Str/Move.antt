-- ===== src/Str/Move.antt =====
-- `memcpy` and `memmove` of util/string.c.
use testcode.Base.{
  ℕ, zero, suc, ◌+◌, ◌-◌, ◌*◌, ◌/◌, ◌<◌, ◌≤◌, ◌≡◌, ◌⊎◌, inl, inr, ap, ◌∙◌, ◌&&◌, arith, ◌==◌, leb,
  ltb, if◌then◌else◌, update, Bool-cases,
}
use testcode.Str.{
  Bytes, blit, copy_forward, copy_backward, copy_words, both_aligned, memcpy, memmove,
}
use testcode.Str.Copy.{Apart}

-- A first byte, then `n` more.
blit_first :
    (n d s : ℕ) (m : Bytes) (a : ℕ)
    → (d ≤ s) ⊎ (s + suc n ≤ d)
    → blit n (d + 1) (s + 1) (update m d (m s)) a ≡ blit (suc n) d s m a
blit_first n d s m a way = elim (Bool-cases (a == d)) [
  | inl e ↦ let here : s + (a - d) ≡ s = ground (arith, e) in ground (arith, e, way, ap m here)
  | inr e ↦ elim (Bool-cases (leb (d + 1) a)) [
    | inl above ↦
        let there : s + 1 + (a - (d + 1)) ≡ s + (a - d) = ground (arith, above) in
        ground (arith, e, way, ap m there)
    | inr below ↦ ground (arith, e, below)
  ]
]

copy_forward_lem :
    (n d s : ℕ) (m : Bytes)
    → (d ≤ s) ⊎ (s + n ≤ d)
    → (a : ℕ) → copy_forward n d s m a ≡ blit n d s m a
unfolding copy_forward
copy_forward_lem zero d s m way a = ground arith
copy_forward_lem (suc n) d s m way a =
    copy_forward_lem n (d + 1) (s + 1) (update m d (m s)) (ground (arith, way)) a
    ∙ blit_first n d s m a way

-- The last byte, then `n` before it.
blit_last :
    (n d s : ℕ) (m : Bytes) (a : ℕ)
    → s < d
    → blit n d s (update m (d + n) (m (s + n))) a ≡ blit (suc n) d s m a
blit_last n d s m a way = elim (Bool-cases (a == d + n)) [
  | inl e ↦ let here : s + (a - d) ≡ s + n = ground (arith, e) in ground (arith, e, ap m here)
  | inr e ↦ ground (arith, e, way)
]

copy_backward_lem :
    (n d s : ℕ) (m : Bytes) → s < d → (a : ℕ) → copy_backward n d s m a ≡ blit n d s m a
unfolding copy_backward
copy_backward_lem zero d s m way a = ground arith
copy_backward_lem (suc n) d s m way a =
    copy_backward_lem n d s (update m (d + n) (m (s + n))) way a ∙ blit_last n d s m a way

-- `memmove` leaves the memory that a copy of all bytes at once leaves, also when the two ranges
-- overlap.
pub memmove-blit :
    (dst src n : ℕ) (m : Bytes) → (a : ℕ) → memmove dst src n m a ≡ blit n dst src m a
unfolding memmove
memmove-blit dst src n m a = elim (Bool-cases (ltb src dst && ltb dst (src + n))) [
  | inl overlap ↦ rw overlap (copy_backward_lem n dst src m (ground (arith, overlap)) a)
  | inr apart ↦ rw apart (copy_forward_lem n dst src m (ground (arith, apart)) a)
]

-- Words, then the rest.
blit-blit :
    (j k d s : ℕ) (m : Bytes) (a : ℕ)
    → Apart d s (j + k)
    → blit k (d + j) (s + j) (blit j d s m) a ≡ blit (j + k) d s m a
blit-blit j k d s m a apart = elim (Bool-cases (leb (d + j) a)) [
  | inl above ↦
      let there : s + j + (a - (d + j)) ≡ s + (a - d) = ground (arith, above) in
      ground (arith, above, apart, ap m there)
  | inr below ↦ ground (arith, below)
]

blit-ext :
    (n d s : ℕ) (m m' : Bytes) (a : ℕ) → ((b : ℕ) → m' b ≡ m b) → blit n d s m' a ≡ blit n d s m a
blit-ext n d s m m' a same = ground (arith, same (s + (a - d)), same a)

copy_words_lem :
    (n d s : ℕ) (m : Bytes)
    → Apart d s (n * 8)
    → (a : ℕ) → copy_words n d s m a ≡ blit (n * 8) d s m a
unfolding copy_words
copy_words_lem zero d s m apart a = ground arith
copy_words_lem (suc n) d s m apart a =
    let size : suc n * 8 ≡ 8 + n * 8 = omega arith in
    rw size (
      copy_words_lem n (d + 8) (s + 8) (blit 8 d s m) (ground (arith, apart)) a
      ∙ blit-blit 8 (n * 8) d s m a (ground (arith, apart)))

-- If the two ranges do not overlap, `memcpy` leaves the memory that a copy of all bytes at once
-- leaves, whether it copies words or bytes.
pub memcpy-blit :
    (dest src len : ℕ) (m : Bytes)
    → Apart dest src len
    → (a : ℕ) → memcpy dest src len m a ≡ blit len dest src m a
unfolding memcpy
memcpy-blit dest src len m apart a =
    by_words (if both_aligned dest src then len / 8 else 0) (ground arith)
  where
    by_words :
        (w : ℕ)
        → w * 8 ≤ len
        → copy_forward (len - w * 8) (dest + w * 8) (src + w * 8) (copy_words w dest src m) a
          ≡ blit len dest src m a
    by_words w le =
        let all : w * 8 + (len - w * 8) ≡ len = omega arith in
        copy_forward_lem (len - w * 8) (dest + w * 8) (src + w * 8) (copy_words w dest src m)
          (ground (arith, apart)) a
        ∙ (blit-ext (len - w * 8) (dest + w * 8) (src + w * 8) (blit (w * 8) dest src m)
              (copy_words w dest src m) a (copy_words_lem w dest src m (ground (arith, apart)))
            ∙ (blit-blit (w * 8) (len - w * 8) dest src m a (ground (arith, apart))
                ∙ ap (λ k. blit k dest src m a) all))
