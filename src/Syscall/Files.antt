-- ===== src/Syscall/Files.antt =====
-- The system calls on files and on processes of kernel/syscall.c. The loops of `read` and `write` are the
-- same but for the function that they call, and run on fuel.
use testcode.Base.{
  ℕ, zero, suc, ◌+◌, ◌-◌, ◌%◌, ◌^◌, ◌<◌, ◌≡◌, inl, inr, refl, some, false, not, ltb, arith,
  if◌then◌else◌, Bool-cases,
}
use testcode.Dev.{Code}
use testcode.File.{SpikeFiles, do_read, do_write, do_close}
use testcode.Hostfs.{Host}
use testcode.Machine.{Kernel, Symbols, K, ok, pure, ◌>>=◌, stop, out_of_fuel, get, deref, max_va}
use testcode.Machine.Access.{current_run}
use testcode.Machine.Word.{add64, sub64, sext32, round_down, pgsize}
use testcode.Process.{do_wait}
use testcode.Process.Fork.{do_fork}
use testcode.Vfs.Open.{do_open}
use testcode.Vmm.{lookup_pa, user_va_to_pa, minus_one}
use testcode.Vmm.Lookup.{translate, lookup_pa-translate, lookup_pa-beyond}
use testcode.Vmm.Tables.{Role, Tables, IsRoot}

pub sys_user_fork : Symbols → SpikeFiles → K ℕ
sys_user_fork img files = do
  s ← get
  parent ← deref s.current
  ret ← do_fork img files parent
  pure (sext32 ret)

pub sys_user_wait : (pid : ℕ) → K ℕ
sys_user_wait pid = do ret ← do_wait pid; pure (sext32 ret)

pub sys_user_open : Code → Host → (fuel stale pathva flags : ℕ) → K ℕ
sys_user_open code host fuel stale pathva flags = do
  s ← get
  p ← deref s.current
  pathpa ← user_va_to_pa (s.procs p).pagetable pathva
  ret ← do_open code host fuel stale pathpa flags
  pure (sext32 ret)

pub sys_user_close : (fd : ℕ) → K ℕ
sys_user_close fd = do ret ← do_close fd; pure (sext32 ret)

-- The bytes of the next round: up to the end of the page.
abbrev pub round_len : (addr left : ℕ) → ℕ
round_len addr left =
    let room : ℕ = sub64 pgsize (sub64 addr (round_down addr)) in
    if ltb left room then left else room

-- The rounds from `i` on, which is a pattern of type `int`.
unfoldable pub io_loop : ℕ → (io : (fd buf len : ℕ) → K ℕ) → (fd bufva count i : ℕ) → K ℕ
io_loop zero io fd bufva count i = stop out_of_fuel
io_loop (suc n) io fd bufva count i = do
  s ← get
  if not (ltb (sext32 i) count) then pure count else do
    p ← deref s.current
    let addr : ℕ = add64 bufva (sext32 i)
    pa ← lookup_pa (s.procs p).pagetable addr
    let len : ℕ = round_len addr (sub64 count (sext32 i))
    ret ← io fd (add64 pa (sub64 addr (round_down addr))) len
    let r : ℕ = sext32 ret
    let i' : ℕ = (sext32 i + r) % 2 ^ 32
    let rest : K ℕ = io_loop n io fd bufva count i'
    if ltb r len then pure (sext32 i') else rest

unfoldable pub sys_user_read : (fuel fd bufva count : ℕ) → K ℕ
sys_user_read fuel fd bufva count = io_loop fuel do_read fd bufva count 0

unfoldable pub sys_user_write : (fuel fd bufva count : ℕ) → K ℕ
sys_user_write fuel fd bufva count = io_loop fuel do_write fd bufva count 0

looked_up :
    {s : Kernel} {role : Role} (pd va : ℕ)
    → Tables s.mem role
    → IsRoot role pd
    → (pa : ℕ) × (lookup_pa pd va s ≡ ok pa s)
looked_up {s} pd va t at = elim (Bool-cases (ltb va max_va)) [
  | inl below ↦
      (translate s.mem pd va, lookup_pa-translate {s = s} pd va t at (ground (arith, below)))
  | inr beyond ↦ (0, lookup_pa-beyond pd va s (ground (arith, beyond)))
]

len_fits : (addr left : ℕ) → ltb (2 ^ 64 - 1) (round_len addr (sub64 left 0)) ≡ false
len_fits addr left = ground arith

-- A function that fails in each round.
module _ (io : (fd buf len : ℕ) → K ℕ)
    (fails : (fd buf len : ℕ) (s : Kernel) → io fd buf len s ≡ ok minus_one s) where
  io_loop-count :
      {s : Kernel} {role : Role} (n p fd bufva count : ℕ)
      → s.current ≡ some p
      → Tables s.mem role
      → IsRoot role (s.procs p).pagetable
      → count < 2 ^ 64
      → io_loop (suc (suc n)) io fd bufva count 0 s ≡ ok count s
  unfolding io_loop
  io_loop-count {s} n p fd bufva count cur t at fits = elim (Bool-cases (ltb 0 count)) [
    | inl more ↦
        let (pa, run) = looked_up {s = s} (s.procs p).pagetable (add64 bufva 0) t at in
        let over : ltb (2 ^ 64 - 1) count ≡ false = ground (arith, fits) in
        rw
          (
            more,
            current_run p s cur,
            run,
            fails fd (add64 pa (sub64 (add64 bufva 0) (round_down (add64 bufva 0))))
                (round_len (add64 bufva 0) (sub64 count 0)) s,
            len_fits (add64 bufva 0) count,
            over,
          )
          refl
    | inr none_left ↦ rw none_left refl
  ]

module _ {s : Kernel} {role : Role} (n p fd bufva count : ℕ) (cur : s.current ≡ some p)
    (t : Tables s.mem role) (at : IsRoot role (s.procs p).pagetable) (fits : count < 2 ^ 64) where
  -- If a process is current, the tables are well formed with its directory as one of an address
  -- space, and the fuel is at least 2, `sys_user_read` and `sys_user_write` return `count` and
  -- change nothing, for every buffer and every `count` below 2^64.
  pub sys_user_read-count :
      (sys_user_read (suc (suc n)) fd bufva count s ≡ ok count s)
      × (sys_user_write (suc (suc n)) fd bufva count s ≡ ok count s)
  unfolding sys_user_read sys_user_write do_read do_write
  sys_user_read-count = (
    io_loop-count do_read (λ fd buf len s. refl) n p fd bufva count cur t at fits,
    io_loop-count do_write (λ fd buf len s. refl) n p fd bufva count cur t at fits,
  )
