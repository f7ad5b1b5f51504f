-- ===== src/Process/Wait.antt =====
-- The search of `do_wait` of kernel/process.c.
use testcode.Base.{
  ℕ, zero, suc, ◌+◌, ◌≤◌, ◌<◌, ◌≡◌, refl, ◌∙◌, Bool, true, false, ◌&&◌, ◌||◌, ◌⊎◌, inl, inr, arith,
  Bool-cases, if◌then◌else◌,
}
use mathlib.Core.Path.{subst}
use mathlib.Core.Bool.{false≢true}
use native.Mathlib.Decide.{dec_lt}
use testcode.Machine.{Kernel, ok, nproc}
use testcode.Process.{is_zombie, is_wanted, reclaim, wait_loop, do_wait, minus_two}
use testcode.Vmm.{minus_one}

-- The process `i` is a zombie that `do_wait(pid)` asks for.
abbrev pub is_reclaimed : Kernel → (pid i : ℕ) → Bool
is_reclaimed s pid i = is_wanted s pid i && is_zombie (s.procs i).status

-- The first process from `lo` on, below `hi`, that is reclaimed.
pub record FirstZombie (s : Kernel) (pid lo hi i : ℕ) : Type 0 where
  pub from : lo ≤ i
  pub below : i < hi
  pub reclaimed : is_reclaimed s pid i ≡ true
  pub first : (j : ℕ) → lo ≤ j → j < i → is_reclaimed s pid j ≡ false

-- No process from `lo` on, below `hi`, is reclaimed.
abbrev pub NoZombie : Kernel → (pid lo hi : ℕ) → Type 0
NoZombie s pid lo hi = (j : ℕ) → lo ≤ j → j < hi → is_reclaimed s pid j ≡ false

-- A process from `lo` on, below `hi`, is a child that is asked for.
abbrev pub HasKid : Kernel → (pid lo hi : ℕ) → Type 0
HasKid s pid lo hi = (j : ℕ) × (lo ≤ j) × (j < hi) × (is_wanted s pid j ≡ true)

abbrev pub NoKid : Kernel → (pid lo hi : ℕ) → Type 0
NoKid s pid lo hi = (j : ℕ) → lo ≤ j → j < hi → is_wanted s pid j ≡ false

wait_last :
    (pid lo : ℕ) (have : Bool) (s : Kernel)
    → wait_loop 0 pid lo have s ≡ ok (if have then minus_two else minus_one) s
unfolding wait_loop
wait_last pid lo have s = ground arith

wait_here :
    (n pid lo : ℕ) (have : Bool) (s : Kernel)
    → is_reclaimed s pid lo ≡ true
    → wait_loop (suc n) pid lo have s ≡ reclaim lo s
unfolding wait_loop
wait_here n pid lo have s e = rw e refl

wait_on :
    (n pid lo : ℕ) (have : Bool) (s : Kernel)
    → is_reclaimed s pid lo ≡ false
    → wait_loop (suc n) pid lo have s ≡ wait_loop n pid (lo + 1) (have || is_wanted s pid lo) s
unfolding wait_loop
wait_on n pid lo have s e = rw e refl

-- A property of `lo` and of all from the next on is one of all from `lo` on.
from_next :
    {P : ℕ → Type 0} (lo hi : ℕ)
    → P lo
    → ((j : ℕ) → lo + 1 ≤ j → j < hi → P j)
    → (j : ℕ) → lo ≤ j
    → j < hi
    → P j
from_next {P} lo hi here later j ge lt = elim (dec_lt lo j) [
  | yes more ↦ later j (omega arith) lt
  | no same ↦ let e : lo ≡ j = omega arith in subst P e here
]

or_cases : (a b : Bool) → (a || b) ≡ true → (a ≡ true) ⊎ (b ≡ true)
or_cases true b e = inl refl
or_cases false b e = inr e

kids_from :
    (n pid lo : ℕ) (have : Bool) (s : Kernel)
    → ((have || is_wanted s pid lo) ≡ true) ⊎ HasKid s pid (lo + 1) (lo + 1 + n)
    → (have ≡ true) ⊎ HasKid s pid lo (lo + suc n)
kids_from n pid lo have s (inr (j, ge, lt, w)) = inr (j, omega arith, omega arith, w)
kids_from n pid lo have s (inl e) = elim (or_cases have (is_wanted s pid lo) e) [
  | inl h ↦ inl h
  | inr w ↦ inr (lo, omega arith, omega arith, w)
]

wait_loop_cases :
    (n pid lo : ℕ) (have : Bool) (s : Kernel)
    → ((i : ℕ) × FirstZombie s pid lo (lo + n) i × (wait_loop n pid lo have s ≡ reclaim i s))
      ⊎ ((NoZombie s pid lo (lo + n)
            × ((have ≡ true) ⊎ HasKid s pid lo (lo + n))
            × (wait_loop n pid lo have s ≡ ok minus_two s))
          ⊎ (NoZombie s pid lo (lo + n)
              × (have ≡ false)
              × NoKid s pid lo (lo + n)
              × (wait_loop n pid lo have s ≡ ok minus_one s)))
wait_loop_cases zero pid lo true s =
    inr (inl ((λ j ge lt. absurd (omega arith)), inl refl, wait_last pid lo true s))
wait_loop_cases zero pid lo false s = inr (
    inr (
      (λ j ge lt. absurd (omega arith)),
      refl,
      (λ j ge lt. absurd (omega arith)),
      wait_last pid lo false s,
    ))
wait_loop_cases (suc n) pid lo have s = elim (Bool-cases (is_reclaimed s pid lo)) [
  | inl e ↦ inl (
    lo,
    record {
      from = omega arith;
      below = omega arith;
      reclaimed = e;
      first = λ j ge lt. absurd (omega arith);
    },
    wait_here n pid lo have s e,
  )
  | inr e ↦
      let step = wait_on n pid lo have s e in
      elim (wait_loop_cases n pid (lo + 1) (have || is_wanted s pid lo) s) [
        | inl (i, f, run) ↦ inl (
          i,
          record {
            from = omega (arith, f.from);
            below = omega (arith, f.below);
            reclaimed = f.reclaimed;
            first = from_next lo i e f.first;
          },
          step ∙ run,
        )
        | inr (inl (z, kids, run)) ↦ inr (
            inl (
              from_next lo (lo + suc n) e (λ j ge lt. z j ge (omega arith)),
              kids_from n pid lo have s kids,
              step ∙ run,
            ))
        | inr (inr (z, over, kids, run)) ↦ inr (
            inr (
              from_next lo (lo + suc n) e (λ j ge lt. z j ge (omega arith)),
              ground (arith, over),
              from_next lo (lo + suc n) (ground (arith, over)) (λ j ge lt. kids j ge (omega arith)),
              step ∙ run,
            ))
      ]
]

-- `do_wait` does one of three things. It reclaims the first process in the table that is a zombie
-- child of the current process which the call asks for; or no such process is a zombie and there
-- is a child that is asked for, and it returns -2 and changes nothing; or there is no such child,
-- and it returns -1 and changes nothing.
pub do_wait_cases :
    (pid : ℕ) (s : Kernel)
    → ((i : ℕ) × FirstZombie s pid 0 nproc i × (do_wait pid s ≡ reclaim i s))
      ⊎ ((NoZombie s pid 0 nproc × HasKid s pid 0 nproc × (do_wait pid s ≡ ok minus_two s))
          ⊎ (NoKid s pid 0 nproc × (do_wait pid s ≡ ok minus_one s)))
unfolding do_wait
do_wait_cases pid s = elim (wait_loop_cases nproc pid 0 false s) [
  | inl first ↦ inl first
  | inr (inl (z, inl bad, run)) ↦ absurd (false≢true bad)
  | inr (inl (z, inr kid, run)) ↦ inr (inl (z, kid, run))
  | inr (inr (z, over, kids, run)) ↦ inr (inr (kids, run))
]
