-- ===== src/Vfs/HostEntries.antt =====
-- The first loop of `files_create` of kernel/file.c, which takes over the open files of the host.
use testcode.Base.{
  ℕ, zero, suc, ◌+◌, ◌*◌, ◌%◌, ◌≤◌, ◌<◌, ◌≡◌, ◌≢◌, refl, ◌∙◌, sym, ap, false, Bool-cases, ◌==◌,
  true, ◌/◌, ◌^◌, ◌⊎◌, inl, inr, if◌then◌else◌, arith, update,
}
use mathlib.Core.Bool.{false≢true}
use testcode.File.{
  SpikeFiles, is_open, file_fd, file_ref, host_entry, max_files, ofile, nfile, host_entries,
}
use testcode.Machine.{Kernel, ok, dram_base, phys_top}
use testcode.Machine.Access.{store32_low, store32_high, load32_low}
use testcode.Machine.Word.{add64, add32}

pub nfile_sum : (p : ℕ) → p + 8192 ≤ phys_top → nfile p ≡ p + 4104
nfile_sum p h = omega arith

pub ofile_sum : (p j : ℕ) → p + 8192 ≤ phys_top → j < max_files → ofile p j ≡ p + (8 + 32 * j)
ofile_sum p j h k = omega arith

-- The number of open files of the host among the `n` from `i` on.
abbrev pub opened : ℕ → SpikeFiles → (i : ℕ) → ℕ
opened zero files i = 0
opened (suc n) files i = (if is_open files i then 1 else 0) + opened n files (i + 1)

pub opened-le : (n : ℕ) (files : SpikeFiles) (i : ℕ) → opened n files i ≤ n
opened-le zero files i = omega arith
opened-le (suc n) files i = ground (arith, opened-le n files (i + 1))

pub fd_sum :
    (p j : ℕ)
    → p + 8192 ≤ phys_top
    → j < max_files
    → add64 (ofile p j) file_fd ≡ p + (8 + 32 * j) + 8 + 4
fd_sum p j h k = omega arith

-- What the first loop of `files_create` does to memory, for `n` entries from `i` on.
pub record Written (files : SpikeFiles) (p n i : ℕ) (m m' : ℕ → ℕ) : Type 0 where
  pub outside :
      (a : ℕ) → (a < p + (8 + 32 * i)) ⊎ (p + (8 + 32 * (i + n)) ≤ a) → a ≢ p + 4104 → m' a ≡ m a
  pub status :
      (j : ℕ)
      → i ≤ j
      → j < i + n
      → m (p + (8 + 32 * j)) % 2 ^ 32 ≡ 0
      → m' (p + (8 + 32 * j)) % 2 ^ 32 ≡ 0
  pub fds :
      (j : ℕ)
      → i ≤ j
      → j < i + n
      → is_open files j ≡ true
      → m' (p + (8 + 32 * j) + 8) / 2 ^ 32 % 2 ^ 32 ≡ files.kfd j % 2 ^ 32
  pub count : m' (p + 4104) % 2 ^ 32 ≡ (m (p + 4104) + opened n files i) % 2 ^ 32

-- Memory after the entry at `a` became a file of the host, with the number of files at `nf`.
abbrev entered : (kfd refcnt a nf : ℕ) → (ℕ → ℕ) → ℕ → ℕ
entered kfd refcnt a nf m =
    let m : ℕ → ℕ = update m a (m a / 2 ^ 32 * 2 ^ 32 + 0 % 2 ^ 32) in
    let m : ℕ → ℕ = update m (a + 8) (m (a + 8) % 2 ^ 32 + kfd % 2 ^ 32 * 2 ^ 32) in
    let m : ℕ → ℕ = update m (a + 16) (m (a + 16) % 2 ^ 32 + refcnt % 2 ^ 32 * 2 ^ 32) in
    update m nf (m nf / 2 ^ 32 * 2 ^ 32 + add32 (m nf % 2 ^ 32) 1 % 2 ^ 32)

module _ (files : SpikeFiles) (p : ℕ) (al : p % 4096 ≡ 0) (lo : dram_base ≤ p)
    (top : p + 8192 ≤ phys_top) where
  host_entry_run :
      (i : ℕ) (s : Kernel)
      → i < max_files
      → host_entry files p i s
        ≡ ok tt (record s {
          mem = entered (files.kfd i) (files.refcnt i) (p + (8 + 32 * i)) (p + 4104) s.mem;
        })
  unfolding host_entry
  host_entry_run i s h =
      let a : ℕ = p + (8 + 32 * i) in
      let fd : add64 (ofile p i) file_fd ≡ a + 8 + 4 = omega arith in
      let ref : add64 (ofile p i) file_ref ≡ a + 16 + 4 = omega arith in
      let s1 : Kernel = record s {
        mem = update s.mem a (s.mem a / 2 ^ 32 * 2 ^ 32 + 0 % 2 ^ 32);
      } in
      let s2 : Kernel = record s1 {
        mem = update s1.mem (a + 8) (s1.mem (a + 8) % 2 ^ 32 + files.kfd i % 2 ^ 32 * 2 ^ 32);
      } in
      let s3 : Kernel = record s2 {
        mem = update s2.mem (a + 16) (s2.mem (a + 16) % 2 ^ 32 + files.refcnt i % 2 ^ 32 * 2 ^ 32);
      } in
      rw
        (
          fd,
          ref,
          ofile_sum p i top h,
          nfile_sum p top,
          store32_low a s (omega arith) (omega arith) (omega arith) 0,
          store32_high (a + 8) s1 (omega arith) (omega arith) (omega arith) (files.kfd i),
          store32_high (a + 16) s2 (omega arith) (omega arith) (omega arith) (files.refcnt i),
          load32_low (p + 4104) s3 (omega arith) (omega arith) (omega arith),
          store32_low (p + 4104) s3 (omega arith) (omega arith) (omega arith)
              (add32 (s3.mem (p + 4104) % 2 ^ 32) 1),
        )
        refl

  -- One open file.
  Written-entered :
      (i : ℕ) (m : ℕ → ℕ)
      → i < max_files
      → is_open files i ≡ true
      → Written files p 1 i m
          (entered (files.kfd i) (files.refcnt i) (p + (8 + 32 * i)) (p + 4104) m)
  Written-entered i m h has_file = record {
    outside = λ b out ne. away b out ne;
    status = λ j lo' hi' z. let here : j ≡ i = omega arith in rw here low_half;
    fds = λ j lo' hi' o. let here : j ≡ i = omega arith in rw here high_half;
    count = rw has_file number;
  }
    where
      away :
          (b : ℕ)
          → (b < p + (8 + 32 * i)) ⊎ (p + (8 + 32 * (i + 1)) ≤ b)
          → b ≢ p + 4104
          → entered (files.kfd i) (files.refcnt i) (p + (8 + 32 * i)) (p + 4104) m b ≡ m b
      away b out ne = ground (arith, out, ne)

      low_half :
          entered (files.kfd i) (files.refcnt i) (p + (8 + 32 * i)) (p + 4104) m (p + (8 + 32 * i))
            % 2 ^ 32
          ≡ 0
      low_half = ground (arith, h)

      high_half :
          entered
              (files.kfd i)
              (files.refcnt i)
              (p + (8 + 32 * i))
              (p + 4104)
              m
              (p + (8 + 32 * i) + 8)
            / 2 ^ 32
            % 2 ^ 32
          ≡ files.kfd i % 2 ^ 32
      high_half = ground (arith, h)

      number :
          entered (files.kfd i) (files.refcnt i) (p + (8 + 32 * i)) (p + 4104) m (p + 4104) % 2 ^ 32
          ≡ (m (p + 4104) + 1) % 2 ^ 32
      number = ground (arith, h)

  -- One entry without a file.
  Written-skipped : (i : ℕ) (m : ℕ → ℕ) → is_open files i ≡ false → Written files p 1 i m m
  Written-skipped i m closed = record {
    outside = λ b out ne. refl;
    status = λ j lo' hi' z. z;
    fds = λ j lo' hi' o.
        let here : j ≡ i = omega arith in
        absurd (false≢true (sym closed ∙ (ap (is_open files) (sym here) ∙ o)));
    count = rw closed (ground arith);
  }

  Written-cons :
      (n i : ℕ) (m m1 m' : ℕ → ℕ)
      → i + suc n ≤ max_files
      → Written files p 1 i m m1
      → Written files p n (i + 1) m1 m'
      → Written files p (suc n) i m m'
  Written-cons n i m m1 m' h w1 w = record {
    outside =
        λ b out ne. w.outside b (omega (arith, out)) ne ∙ w1.outside b (omega (arith, out)) ne;
    status = λ j lo' hi' z. elim (Bool-cases (j == i)) [
      | inl e ↦
          let here : j ≡ i = ground (arith, e) in
          rw (w.outside (p + (8 + 32 * j)) (inl (omega arith)) (omega arith))
            (w1.status j lo' (omega arith) z)
      | inr e ↦
          let later : i < j = ground (arith, e, lo') in
          w.status j (omega arith) (omega arith)
            (rw (w1.outside (p + (8 + 32 * j)) (inr (omega arith)) (omega arith)) z)
    ];
    fds = λ j lo' hi' o. elim (Bool-cases (j == i)) [
      | inl e ↦
          let here : j ≡ i = ground (arith, e) in
          rw (w.outside (p + (8 + 32 * j) + 8) (inl (omega arith)) (omega arith))
            (w1.fds j lo' (omega arith) o)
      | inr e ↦ let later : i < j = ground (arith, e, lo') in w.fds j (omega arith) (omega arith) o
    ];
    count = omega (arith, w.count, w1.count);
  }

  pub host_entries-Written :
      (n i : ℕ) (s : Kernel)
      → i + n ≤ max_files
      → (m' : ℕ → ℕ) × (host_entries n files p i s ≡ ok tt (record s { mem = m' }))
        × Written files p n i s.mem m'
  unfolding host_entries
  host_entries-Written zero i s h = (
    s.mem,
    refl,
    record {
      outside = λ b out ne. refl;
      status = λ j lo' hi' z. absurd (omega arith);
      fds = λ j lo' hi' o. absurd (omega arith);
      count = ground arith;
    },
  )
  host_entries-Written (suc n) i s h = elim (Bool-cases (is_open files i)) [
    | inl o ↦
        let s1 : Kernel = record s {
          mem = entered (files.kfd i) (files.refcnt i) (p + (8 + 32 * i)) (p + 4104) s.mem;
        } in
        let (m', run, w) = host_entries-Written n (i + 1) s1 (omega arith) in
        (
          m',
          rw (o, host_entry_run i s (omega arith)) run,
          Written-cons n i s.mem s1.mem m' h (Written-entered i s.mem (omega arith) o) w,
        )
    | inr c ↦
        let (m', run, w) = host_entries-Written n (i + 1) s (omega arith) in
        (m', rw c run, Written-cons n i s.mem s.mem m' h (Written-skipped i s.mem c) w)
  ]
