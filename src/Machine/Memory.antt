-- ===== src/Machine/Memory.antt =====
-- `memset` of util/string.c on whole words, as the kernel calls it to clear a page.
use testcode.Base.{ℕ, zero, suc, ◌+◌, ◌*◌, ◌%◌, ◌≤◌, ◌<◌, ◌≡◌, refl, arith, update, ◌⊎◌, inl, inr}
use testcode.Machine.{Kernel, K, ok, pure, ◌>>=◌, ◌>>◌, load, store, dram_base, phys_top}

-- `n` words from the address `a` on are set to `w`.
unfoldable pub fill : ℕ → (a w : ℕ) → K (Unit {0})
unfolding store
fill zero a w = pure tt
fill (suc n) a w = store a w >> fill n (a + 8) w

-- `memset(page, 0, PGSIZE)`.
pub clear_page : ℕ → K (Unit {0})
clear_page p = fill 512 p 0

-- `n` words are copied, one by one: `memcpy` on words, and an assignment of a structure.
unfoldable pub copy : ℕ → (dest src : ℕ) → K (Unit {0})
unfolding load store
copy zero dest src = pure tt
copy (suc n) dest src = do w ← load src; store dest w; copy n (dest + 8) (src + 8)

-- An aligned block of the RAM disk, or a page, is copied.
unfoldable pub copy_block : (dest src : ℕ) → K (Unit {0})
copy_block dest src = copy 512 dest src

-- What `fill` makes of memory.
unfoldable pub filled : ℕ → (a w : ℕ) → (ℕ → ℕ) → ℕ → ℕ
filled zero a w m = m
filled (suc n) a w m = filled n (a + 8) w (update m a w)

pub fill_lem :
    (n a w : ℕ) (s : Kernel)
    → a % 8 ≡ 0
    → dram_base ≤ a
    → a + 8 * n ≤ phys_top
    → fill n a w s ≡ ok tt (record s { mem = filled n a w s.mem })
unfolding fill filled
fill_lem zero a w s al lo hi = refl
fill_lem (suc n) a w s al lo hi = ground (
  arith,
  fill_lem n (a + 8) w (record s { mem = update s.mem a w }) (omega arith) (omega arith)
      (omega arith),
)

pub clear_page_lem :
    (p : ℕ) (s : Kernel)
    → p % 4096 ≡ 0
    → dram_base ≤ p
    → p + 4096 ≤ phys_top
    → clear_page p s ≡ ok tt (record s { mem = filled 512 p 0 s.mem })
unfolding clear_page
clear_page_lem p s al lo hi = fill_lem 512 p 0 s (omega arith) lo (omega arith)

-- Words below the range are left alone.
filled_below : (n a w : ℕ) (m : ℕ → ℕ) (b : ℕ) → b < a → filled n a w m b ≡ m b
unfolding filled
filled_below zero a w m b h = refl
filled_below (suc n) a w m b h =
    ground (arith, filled_below n (a + 8) w (update m a w) b (omega arith))

pub filled_outside :
    (n a w : ℕ) (m : ℕ → ℕ) (b : ℕ) → (b < a) ⊎ (a + 8 * n ≤ b) → filled n a w m b ≡ m b
unfolding filled
filled_outside zero a w m b h = refl
filled_outside (suc n) a w m b (inl h) = filled_below (suc n) a w m b h
filled_outside (suc n) a w m b (inr h) =
    ground (arith, filled_outside n (a + 8) w (update m a w) b (inr (omega arith)))

pub filled_inside : (n a w : ℕ) (m : ℕ → ℕ) (i : ℕ) → i < n → filled n a w m (a + 8 * i) ≡ w
unfolding filled
filled_inside zero a w m i h = absurd (omega arith)
filled_inside (suc n) a w m zero h =
    ground (arith, filled_below n (a + 8) w (update m a w) (a + 8 * 0) (omega arith))
filled_inside (suc n) a w m (suc i) h =
    let shift : a + 8 * suc i ≡ a + 8 + 8 * i = omega arith in
    rw shift (filled_inside n (a + 8) w (update m a w) i (omega arith))
