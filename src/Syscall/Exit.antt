-- ===== src/Syscall/Exit.antt =====
-- `sys_user_exit` of kernel/syscall.c.
use testcode.Base.{ℕ, ◌+◌, ◌≡◌, ◌≢◌, refl, ◌∙◌, ap, some, false, List, ◌∷◌, arith, mem}
use testcode.Machine.{Kernel, ProcStatus, Symbols, to_user, and_then, pure, set_proc}
use testcode.Sched.{schedule, epc}
use testcode.Sched.Queue.{IsQueue, next_of, Links-same, All-change}
use testcode.Sched.Schedule.{HasTrapframe, Dispatched, schedule-Dispatched}
use testcode.Process.{free_process}
use testcode.Syscall.{sys_user_exit}

-- `p` is a zombie, `q` runs and `ys` wait.
pub record Exited (p q : ℕ) (ys : List ℕ) (s s' : Kernel) : Type 0 where
  pub current : s'.current ≡ some q
  pub queue : IsQueue s' ys
  pub zombie : (s'.procs p).status ≡ ProcStatus.zombie
  pub others : (i : ℕ) → i ≢ p → (s'.procs i).status ≡ (s.procs i).status
  pub pc : s'.csr.sepc ≡ s.mem ((s.procs q).trapframe + epc)

abbrev ended : ℕ → Kernel → Kernel
ended p s = set_proc s p (record (s.procs p) { status = ProcStatus.zombie })

next_ended : (p : ℕ) (s : Kernel) (i : ℕ) → next_of (ended p s) i ≡ next_of s i
next_ended p s i = ground arith

trapframe_ended :
    (p : ℕ) (s : Kernel) (i : ℕ) → ((ended p s).procs i).trapframe ≡ (s.procs i).trapframe
trapframe_ended p s i = ground arith

status_ended :
    (p : ℕ) (s : Kernel) (i : ℕ) → i ≢ p → ((ended p s).procs i).status ≡ (s.procs i).status
status_ended p s i ne = ground arith

zombie_ended : (p : ℕ) (s : Kernel) → ((ended p s).procs p).status ≡ ProcStatus.zombie
zombie_ended p s = ground arith

ended-IsQueue :
    (p : ℕ) (xs : List ℕ) (s : Kernel) → mem p xs ≡ false → IsQueue s xs → IsQueue (ended p s) xs
ended-IsQueue p xs s out v = record {
  links =
      Links-same (next_of s) (next_of (ended p s)) s.ready_queue_head xs (next_ended p s) v.links;
  distinct = v.distinct;
  below = v.below;
  ready = All-change p xs (λ i ne r. status_ended p s i ne ∙ r) out v.ready;
}

exit_run :
    (img : Symbols) (code p : ℕ) (s : Kernel)
    → s.current ≡ some p
    → sys_user_exit img code s ≡ and_then (schedule img (ended p s)) (λ _. pure 0)
unfolding sys_user_exit free_process
exit_run img code p s c = rw c refl

-- If the current process does not wait and the first process of the queue has its trap frame in
-- memory, `sys_user_exit` makes the current process a zombie, leaves the status of the others,
-- and passes control to the first of the queue, at the program counter in its trap frame, while
-- the others wait in their order.
pub sys_user_exit-Exited :
    (img : Symbols) (code p q : ℕ) (ys : List ℕ) (s : Kernel)
    → s.current ≡ some p
    → IsQueue s (q ∷ ys)
    → mem p (q ∷ ys) ≡ false
    → HasTrapframe s q
    → (s' : Kernel) × (sys_user_exit img code s ≡ to_user s') × Exited p q ys s s'
sys_user_exit-Exited img code p q ys s c v out tf =
    let t : Kernel = ended p s in
    let frame = trapframe_ended p s q in
    let run = schedule-Dispatched img q ys t (ended-IsQueue p (q ∷ ys) s out v) (rw frame tf) in
    let d : Dispatched img q ys t run.0 = run.2 in
    (
      run.0,
      exit_run img code p s c ∙ ap (λ r. and_then r (λ _. pure 0)) run.1,
      record {
        current = d.resumes.current;
        queue = d.queue;
        zombie = rw d.resumes.procs (zombie_ended p s);
        others = λ i ne. rw d.resumes.procs (status_ended p s i ne);
        pc = d.resumes.pc ∙ ap (λ a. s.mem (a + epc)) frame;
      },
    )
