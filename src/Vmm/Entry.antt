-- ===== src/Vmm/Entry.antt =====
-- Page table entries: what PA2PTE, PTE2PA and the flag bits do to one another.
use testcode.Base.{
  ℕ, ◌+◌, ◌*◌, ◌/◌, ◌%◌, ◌^◌, ◌<◌, ◌≡◌, true, ◌&&◌, ◌||◌, arith, if◌then◌else◌, bit_or, ◌∙◌,
}
use testcode.Base.Bits.{has_bit, bit_or-fields, bit_or-div, bit_or-zero, has_bit-bit_or}
use testcode.Machine.Word.{pgsize}
use testcode.Vmm.{pa_to_pte, pte_to_pa, bit_v, bit_r, bit_w}

-- The entry that `page_walk` writes for a new table.
abbrev pub table_entry : ℕ → ℕ
table_entry q = bit_or (pa_to_pte q) 1

-- The entry that `map_pages` writes.
abbrev pub leaf_entry : (pa perm : ℕ) → ℕ
leaf_entry pa perm = bit_or (bit_or (pa_to_pte pa) perm) 1

-- The page that an entry maps, and 0 for one that maps none.
abbrev pub page_of : ℕ → ℕ
page_of e = if has_bit e bit_v && (has_bit e bit_r || has_bit e bit_w) then pte_to_pa e else 0

table_entry_sum : (q : ℕ) → table_entry q ≡ q / 4096 * 1024 + 1
table_entry_sum q = bit_or-fields 10 (q / 4096) 1 (omega arith)

pub table_entry_target : (q : ℕ) → q % pgsize ≡ 0 → q < 2 ^ 56 → pte_to_pa (table_entry q) ≡ q
table_entry_target q al h = rw (table_entry_sum q) (omega arith)

pub table_entry_valid : (q : ℕ) → has_bit (table_entry q) 0 ≡ true
table_entry_valid q = rw (table_entry_sum q) (ground arith)

leaf_entry-div : (pa perm : ℕ) → perm < 1024 → leaf_entry pa perm / 1024 ≡ pa / 4096
leaf_entry-div pa perm h =
    let high : pa_to_pte pa / 2 ^ 10 ≡ pa / 4096 = omega arith in
    let low : perm / 2 ^ 10 ≡ 0 = omega arith in
    let shifted : bit_or (pa_to_pte pa / 2 ^ 10) (perm / 2 ^ 10) ≡ pa / 4096 =
      rw (high, low) (bit_or-zero (pa / 4096)) in
    bit_or-div 10 (bit_or (pa_to_pte pa) perm) 1
    ∙ (bit_or-zero _ ∙ (bit_or-div 10 (pa_to_pte pa) perm ∙ shifted))

pub leaf_entry_target :
    (pa perm : ℕ)
    → pa % pgsize ≡ 0
    → pa < 2 ^ 56
    → perm < 1024
    → pte_to_pa (leaf_entry pa perm) ≡ pa
leaf_entry_target pa perm al h small = rw (leaf_entry-div pa perm small) (omega arith)

pub leaf_entry_valid : (pa perm : ℕ) → has_bit (leaf_entry pa perm) 0 ≡ true
leaf_entry_valid pa perm = ground (arith, has_bit-bit_or 0 (bit_or (pa_to_pte pa) perm) 1)

pub leaf_entry_flag :
    (pa perm k : ℕ) → has_bit perm k ≡ true → has_bit (leaf_entry pa perm) k ≡ true
leaf_entry_flag pa perm k h =
    ground
      (arith, has_bit-bit_or k (bit_or (pa_to_pte pa) perm) 1, has_bit-bit_or k (pa_to_pte pa) perm)

-- If a page is aligned and below 2^56, and the flags are below 2^10 with PTE_R or PTE_W among
-- them, the page read back from the entry that `map_pages` writes is that page.
pub page_of-leaf_entry :
    (pa perm : ℕ)
    → pa % pgsize ≡ 0
    → pa < 2 ^ 56
    → perm < 1024
    → (has_bit perm bit_r || has_bit perm bit_w) ≡ true
    → page_of (leaf_entry pa perm) ≡ pa
page_of-leaf_entry pa perm al h small rw_bits =
    let readable : (has_bit (leaf_entry pa perm) bit_r || has_bit (leaf_entry pa perm) bit_w)
        ≡ true =
      ground (arith, leaf_entry_flag pa perm bit_r, leaf_entry_flag pa perm bit_w) in
    rw (leaf_entry_valid pa perm, readable) (leaf_entry_target pa perm al h small)
