-- ===== src/Dev/Disk.antt =====
-- The blocks of the RAM disk of kernel/dev.c.
use testcode.Base.{
  ℕ, zero, suc, ◌+◌, ◌-◌, ◌*◌, ◌%◌, ◌^◌, ◌≤◌, ◌<◌, ◌≡◌, ◌⊎◌, inl, inr, refl, ap, ◌∙◌, true, false,
  ◌&&◌, ◌==◌, leb, ltb, if◌then◌else◌, update, arith, Bool-cases,
}
use testcode.Dev.{is_block, block_addr, ramdisk0_input, ramdisk0_output, ramdisk0_block}
use testcode.Machine.{Kernel, ok, panic, dram_base, phys_top}
use testcode.Machine.Memory.{copy, copy_block}
use testcode.Machine.Word.{pgsize}

-- `n` words from `s` on, moved to `d`.
abbrev pub moved : (n d s : ℕ) → (ℕ → ℕ) → ℕ → ℕ
moved n d s m a =
    if leb d a && ltb a (d + 8 * n) && ((a - d) % 8 == 0) then m (s + (a - d)) else m a

-- `n` words of RAM from `a` on.
abbrev pub InRam : (n a : ℕ) → Type 0
InRam n a = (a % 8 ≡ 0) × (dram_base ≤ a) × (a + 8 * n ≤ phys_top)

abbrev pub Apart : (n a b : ℕ) → Type 0
Apart n a b = (a + 8 * n ≤ b) ⊎ (b + 8 * n ≤ a)

-- Memory after the copy, as the code makes it.
unfoldable pub copied : ℕ → (d s : ℕ) → (ℕ → ℕ) → ℕ → ℕ
copied zero d s m = m
copied (suc n) d s m = copied n (d + 8) (s + 8) (update m d (m s))

copy_run :
    (n d s : ℕ) (k : Kernel)
    → InRam n d
    → InRam n s
    → copy n d s k ≡ ok tt (record k { mem = copied n d s k.mem })
unfolding copy copied
copy_run zero d s k (al, lo, hi) (al', lo', hi') = refl
copy_run (suc n) d s k (al, lo, hi) (al', lo', hi') = ground (
  arith,
  copy_run n (d + 8) (s + 8) (record k { mem = update k.mem d (k.mem s) })
      (omega arith, omega arith, omega arith) (omega arith, omega arith, omega arith),
)

moved_first :
    (n d s : ℕ) (m : ℕ → ℕ) (a : ℕ)
    → Apart (suc n) d s
    → moved n (d + 8) (s + 8) (update m d (m s)) a ≡ moved (suc n) d s m a
moved_first n d s m a apart = elim (Bool-cases (a == d)) [
  | inl e ↦ let here : s + (a - d) ≡ s = ground (arith, e) in ground (arith, e, apart, ap m here)
  | inr e ↦ elim (Bool-cases (leb (d + 8) a)) [
    | inl above ↦
        let there : s + 8 + (a - (d + 8)) ≡ s + (a - d) = ground (arith, above) in
        ground (arith, e, above, apart, ap m there)
    | inr below ↦ ground (arith, e, below)
  ]
]

pub copied-moved :
    (n d s : ℕ) (m : ℕ → ℕ) (a : ℕ) → Apart n d s → copied n d s m a ≡ moved n d s m a
unfolding copied
copied-moved zero d s m a apart = ground arith
copied-moved (suc n) d s m a apart =
    copied-moved n (d + 8) (s + 8) (update m d (m s)) a (ground (arith, apart))
    ∙ moved_first n d s m a apart

-- The block `n` of the disk.
abbrev pub block : Kernel → (n : ℕ) → ℕ
block s n = s.ramdisk0_base_addr + n * pgsize

is_block-true : (n : ℕ) → n < ramdisk0_block → is_block n ≡ true
is_block-true n h = ground arith

block_addr-sum : (base n : ℕ) → base + n * pgsize < 2 ^ 64 → block_addr base n ≡ base + n * pgsize
block_addr-sum base n h = omega (arith, h)

copy_block_run :
    (d s : ℕ) (k : Kernel)
    → InRam 512 d
    → InRam 512 s
    → copy_block d s k ≡ ok tt (record k { mem = copied 512 d s k.mem })
unfolding copy_block
copy_block_run d s k = copy_run 512 d s k

module _ (buffer n : ℕ) (s : Kernel) (valid : n < ramdisk0_block) (ram : InRam 512 buffer)
    (ram' : InRam 512 (block s n)) where
  pub input_run :
      ramdisk0_input buffer n s ≡ ok 0 (record s { mem = copied 512 (block s n) buffer s.mem })
  unfolding ramdisk0_input
  input_run =
      rw
        (
          is_block-true n valid,
          block_addr-sum s.ramdisk0_base_addr n (omega (arith, ram'.2)),
          copy_block_run (block s n) buffer s ram' ram,
        )
        refl

  pub output_run :
      ramdisk0_output buffer n s ≡ ok 0 (record s { mem = copied 512 buffer (block s n) s.mem })
  unfolding ramdisk0_output
  output_run =
      rw
        (
          is_block-true n valid,
          block_addr-sum s.ramdisk0_base_addr n (omega (arith, ram'.2)),
          copy_block_run buffer (block s n) s ram ram',
        )
        refl

moved_word : (n d s : ℕ) (m : ℕ → ℕ) (i : ℕ) → i < n → moved n d s m (d + 8 * i) ≡ m (s + 8 * i)
moved_word n d s m i h =
    let at : d + 8 * i - d ≡ 8 * i = omega arith in
    let low : leb d (d + 8 * i) ≡ true = ground arith in
    let high : ltb (d + 8 * i) (d + 8 * n) ≡ true = ground arith in
    let step : (8 * i % 8 == 0) ≡ true = ground arith in rw (at, low, high, step) refl

-- What `ramdisk0_input` and then `ramdisk0_output` on the same block do.
pub record Stored (buffer buffer' n : ℕ) (s s' : Kernel) : Type 0 where
  pub words : (i : ℕ) → i < 512 → s'.mem (buffer' + 8 * i) ≡ s.mem (buffer + 8 * i)
  pub on_disk : (i : ℕ) → i < 512 → s'.mem (block s n + 8 * i) ≡ s.mem (buffer + 8 * i)
  pub rest :
      (a : ℕ)
      → (a < buffer') ⊎ (buffer' + pgsize ≤ a)
      → (a < block s n) ⊎ (block s n + pgsize ≤ a)
      → s'.mem a ≡ s.mem a

-- If the block number is in range, the block and both buffers are aligned and in memory, and the
-- buffers do not overlap the block, then `ramdisk0_input` of a buffer and then `ramdisk0_output`
-- of the same block into another buffer return 0: the other buffer and the block hold the words
-- of the first buffer, and words outside of them stay.
pub ramdisk0_output-ramdisk0_input :
    (buffer buffer' n : ℕ) (s : Kernel)
    → n < ramdisk0_block
    → InRam 512 buffer
    → InRam 512 buffer'
    → InRam 512 (block s n)
    → Apart 512 buffer (block s n)
    → Apart 512 buffer' (block s n)
    → (s1 : Kernel) × (s' : Kernel) × (ramdisk0_input buffer n s ≡ ok 0 s1)
      × (ramdisk0_output buffer' n s1 ≡ ok 0 s')
      × Stored buffer buffer' n s s'
ramdisk0_output-ramdisk0_input buffer buffer' n s valid ram ram' disk apart apart' =
    let s1 : Kernel = record s { mem = copied 512 (block s n) buffer s.mem } in
    let flip : Apart 512 (block s n) buffer = ground (arith, apart) in
    let written = λ (a : ℕ). copied-moved 512 (block s n) buffer s.mem a flip in
    let read = λ (a : ℕ). copied-moved 512 buffer' (block s n) s1.mem a apart' in
    let on_block = λ (i : ℕ) (h : i < 512).
      written (block s n + 8 * i) ∙ moved_word 512 (block s n) buffer s.mem i h in
    (
      s1,
      record s1 { mem = copied 512 buffer' (block s n) s1.mem },
      input_run buffer n s valid ram disk,
      output_run buffer' n s1 valid ram' disk,
      record {
        words = λ i h.
            read (buffer' + 8 * i) ∙ (moved_word 512 buffer' (block s n) s1.mem i h ∙ on_block i h);
        on_disk = λ i h.
            read (block s n + 8 * i)
            ∙ (unmoved buffer' (block s n) s1.mem i h apart' ∙ on_block i h);
        rest = λ a out out'. read a ∙ (ground (arith, out) ∙ (written a ∙ ground (arith, out')));
      },
    )
  where
    unmoved :
        (d b : ℕ) (m : ℕ → ℕ) (i : ℕ)
        → i < 512
        → Apart 512 d b
        → moved 512 d b m (b + 8 * i) ≡ m (b + 8 * i)
    unmoved d b m i h apart = ground (arith, apart)

-- If the number of a block, as a pattern of 32 bits, is at least 128, negative numbers included,
-- `ramdisk0_input` and `ramdisk0_output` panic.
ramdisk0_panic :
    (buffer n : ℕ) (s : Kernel)
    → ramdisk0_block ≤ n
    → n < 2 ^ 32
    → (ramdisk0_input buffer n s ≡ panic) × (ramdisk0_output buffer n s ≡ panic)
unfolding ramdisk0_input ramdisk0_output
ramdisk0_panic buffer n s lo hi =
    let out : is_block n ≡ false = ground arith in (rw out refl, rw out refl)
