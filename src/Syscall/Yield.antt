-- ===== src/Syscall/Yield.antt =====
-- `sys_user_yield` of kernel/syscall.c.
use testcode.Base.{ℕ, ◌<◌, ◌≡◌, refl, ◌∙◌, ap, some, false, List, [], ◌∷◌, ◌++◌, mem}
use testcode.Machine.{
  Kernel, Run, Symbols, ok, panic, fault, to_user, shutdown, out_of_fuel, nproc, and_then, pure,
  ◌>>=◌,
}
use testcode.Machine.Access.{current_run}
use testcode.Sched.{insert_to_ready_queue, schedule}
use testcode.Sched.Queue.{IsQueue}
use testcode.Sched.Rotate.{Rotation, requeue-Rotation}
use testcode.Sched.Schedule.{HasTrapframe}
use testcode.Syscall.{sys_user_yield}

yield_run :
    (img : Symbols) (p : ℕ) (s : Kernel)
    → s.current ≡ some p
    → sys_user_yield img s
      ≡ and_then (and_then (insert_to_ready_queue p s) (λ _. schedule img)) (λ _. pure 0)
unfolding sys_user_yield
yield_run img p s c = rw (current_run p s c) (by_run (insert_to_ready_queue p s))
  where
    by_run :
        (r : Run (Unit {0}))
        → and_then r (λ _. schedule img >>= λ _. pure 0)
          ≡ and_then {B = ℕ} (and_then r (λ _. schedule img)) (λ _. pure 0)
    by_run (ok a t) = refl
    by_run panic = refl
    by_run fault = refl
    by_run (to_user t) = refl
    by_run (shutdown c) = refl
    by_run out_of_fuel = refl

pub sys_user_yield-Rotation :
    (img : Symbols) (p q : ℕ) (xs ys : List ℕ) (s : Kernel)
    → s.current ≡ some p
    → IsQueue s xs
    → p < nproc
    → mem p xs ≡ false
    → xs ++ (p ∷ []) ≡ q ∷ ys
    → HasTrapframe s q
    → (s' : Kernel) × (sys_user_yield img s ≡ to_user s') × Rotation q ys s s'
sys_user_yield-Rotation img p q xs ys s c v below out split tf =
    let (s', run, r) = requeue-Rotation img p q xs ys s v below out split tf in
    (s', yield_run img p s c ∙ ap (λ r. and_then r (λ _. pure 0)) run, r)
