-- ===== src/Vfs/Device.antt =====
-- The search for a device in `vfs_mount` and `vfs_get_root` of kernel/vfs.c.
use testcode.Base.{
  ℕ, zero, suc, ◌+◌, ◌≤◌, ◌<◌, ◌≡◌, ◌≢◌, refl, sym, ◌∙◌, if◌then◌else◌, true, false, ◌==◌, arith,
  Bool-cases, inl, inr,
}
use testcode.Machine.{Kernel, Run, ok, panic, fault, load, in_ram, pure, and_then}
use testcode.Machine.Bytes.{compare_strings}
use testcode.Vfs.{max_dev, find_device, get_entry}

-- The result of comparing the name of the device `i` with the one that is asked for.
pub record Compared (fuel devname : ℕ) (s : Kernel) (i : ℕ) : Type 0 where
  pub name : ℕ
  pub difference : ℕ
  pub load_run : load (s.vdev_list i) s ≡ ok name s
  pub compare_run : compare_strings fuel name devname s ≡ ok difference s

pub record Differs (fuel devname : ℕ) (s : Kernel) (i : ℕ) : Type 0 where
  pub compared : Compared fuel devname s i
  pub other : compared.difference ≢ 0

-- Where the search ends, and how: at the first match, at the last device, or at a pointer that is
-- not one to memory, such as the null pointer of a place without a device.
pub data Stops (fuel devname : ℕ) (s : Kernel) (i : ℕ) : Run ℕ → Type 0 where
  at_match :
      (c : Compared fuel devname s i)
      → c.difference ≡ 0
      → Stops fuel devname s i (ok (s.vdev_list i) s)
  at_last :
      Differs fuel devname s i → i + 1 ≡ max_dev → Stops fuel devname s i (ok (s.vdev_list i) s)
  at_no_device : in_ram (s.vdev_list i) ≡ false → Stops fuel devname s i fault

module _ (fuel devname : ℕ) (s : Kernel) where
  passed_run :
      (n i found : ℕ)
      → Differs fuel devname s i
      → find_device (suc n) fuel devname i found s
        ≡ find_device n fuel devname (i + 1) (s.vdev_list i) s
  unfolding find_device
  passed_run n i found d =
      let no_match : (d.compared.difference == 0) ≡ false = ground (arith, d.other) in
      rw (d.compared.load_run, d.compared.compare_run, no_match) refl

  ended_run :
      (n i found : ℕ) (r : Run ℕ)
      → i + suc n ≡ max_dev
      → Stops fuel devname s i r
      → find_device (suc n) fuel devname i found s ≡ r
  unfolding find_device load
  ended_run n i found r sum (at_match c same) =
      let match : (c.difference == 0) ≡ true = ground (arith, same) in
      rw (c.load_run, c.compare_run, match) refl
  ended_run n i found r sum (at_last d last) =
      let none_left : n ≡ 0 = omega arith in rw none_left (passed_run 0 i found d)
  ended_run n i found r sum (at_no_device out) = rw out refl

  search_run :
      (n i found k : ℕ) (r : Run ℕ)
      → i + n ≡ max_dev
      → i ≤ k
      → k < max_dev
      → ((j : ℕ) → i ≤ j → j < k → Differs fuel devname s j)
      → Stops fuel devname s k r
      → find_device n fuel devname i found s ≡ r
  search_run zero i found k r sum from below differ stop = absurd (omega arith)
  search_run (suc n) i found k r sum from below differ stop = elim (Bool-cases (i == k)) [
    | inl e ↦ let here : i ≡ k = ground (arith, e) in ended_run n i found r sum (rw here stop)
    | inr e ↦
        let before : i < k = ground (arith, e, from) in
        passed_run n i found (differ i (omega arith) before)
        ∙ search_run n (i + 1) (s.vdev_list i) k r (omega arith) (omega arith) below
            (λ j lo hi. differ j (omega arith) hi) stop
  ]

  not_null : (i : ℕ) → Compared fuel devname s i → (s.vdev_list i == 0) ≡ false
  unfolding load
  not_null i c = elim (Bool-cases (in_ram (s.vdev_list i))) [
    | inl inside ↦ ground (arith, inside)
    | inr outside ↦
        let stopped : load (s.vdev_list i) s ≡ fault = rw outside refl in
        let clash : fault ≡ ok c.name s = sym stopped ∙ c.load_run in ground (arith, clash)
  ]

  -- If the devices before the one at `k` have other names than the one that is asked for, the
  -- search for a device returns the entry at `k` when its name is the same, or when it is the
  -- last one and its name differs as well, and leaves the state as it was; and it faults when the
  -- entry at `k` is no pointer to memory, as the null pointer of a place without a device.
  pub get_entry-Stops :
      (k : ℕ) (r : Run ℕ)
      → k < max_dev
      → ((j : ℕ) → j < k → Differs fuel devname s j)
      → Stops fuel devname s k r
      → get_entry fuel devname s ≡ r
  unfolding get_entry
  get_entry-Stops k r below differ stop =
      rw
        (search_run max_dev 0 0 k r (omega arith) (omega arith) below (λ j lo hi. differ j hi) stop)
        (checked r stop)
    where
      checked :
          (r : Run ℕ)
          → Stops fuel devname s k r
          → and_then r (λ pdev. if pdev == 0 then (testcode.Machine.stop panic) else pure pdev) ≡ r
      checked r (at_match c same) = rw (not_null k c) refl
      checked r (at_last d last) = rw (not_null k d.compared) refl
      checked r (at_no_device out) = refl
