-- ===== src/Machine/Access.antt =====
-- Loads and stores in the direct map of physical memory.
use testcode.Base.{ℕ, ◌+◌, ◌*◌, ◌/◌, ◌%◌, ◌^◌, ◌≤◌, ◌<◌, ◌≡◌, arith, ap, some, update}
use testcode.Machine.{
  Kernel, ok, deref, load, store, load32, store32, dram_base, phys_top, with_half,
}

module _ (a : ℕ) (k : Kernel) (aligned : a % 8 ≡ 0) (low : dram_base ≤ a)
    (high : a < phys_top) where
  pub load_run : load a k ≡ ok (k.mem a) k
  unfolding load
  load_run = ground arith

  pub store_run : (v : ℕ) → store a v k ≡ ok tt (record k { mem = update k.mem a v })
  unfolding store
  store_run v = ground arith

  pub load32_low : load32 a k ≡ ok (k.mem a % 2 ^ 32) k
  unfolding load32 load
  load32_low = let whole : a / 8 * 8 ≡ a = omega arith in ground (arith, whole)

  pub load32_high : load32 (a + 4) k ≡ ok (k.mem a / 2 ^ 32 % 2 ^ 32) k
  unfolding load32 load
  load32_high =
      let whole : (a + 4) / 8 * 8 ≡ a = omega arith in
      let odd : (a + 4) % 8 ≡ 4 = omega arith in ground (arith, whole, odd)

  pub store32_run :
      (v : ℕ) → store32 a v k ≡ ok tt (record k { mem = update k.mem a (with_half a (k.mem a) v) })
  unfolding store32 load store
  store32_run v = let whole : a / 8 * 8 ≡ a = omega arith in ground (arith, whole)

  pub store32_low :
      (v : ℕ)
      → store32 a v k
        ≡ ok tt (record k { mem = update k.mem a (k.mem a / 2 ^ 32 * 2 ^ 32 + v % 2 ^ 32) })
  unfolding store32 load store
  store32_low v = let whole : a / 8 * 8 ≡ a = omega arith in ground (arith, whole)

  pub store32_high :
      (v : ℕ)
      → store32 (a + 4) v k
        ≡ ok tt (record k { mem = update k.mem a (k.mem a % 2 ^ 32 + v % 2 ^ 32 * 2 ^ 32) })
  unfolding store32 load store
  store32_high v =
      let whole : (a + 4) / 8 * 8 ≡ a = omega arith in
      let odd : (a + 4) % 8 ≡ 4 = omega arith in ground (arith, whole, odd)

pub current_run : (p : ℕ) (s : Kernel) → s.current ≡ some p → deref s.current s ≡ ok p s
current_run p s c = ap (λ i. deref i s) c
