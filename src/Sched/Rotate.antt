-- ===== src/Sched/Rotate.antt =====
-- A process is queued and the first one of the queue runs: `insert_to_ready_queue` and then `schedule`
-- of kernel/sched.c.
use testcode.Base.{ℕ, ◌+◌, ◌<◌, ◌≡◌, ◌≢◌, ◌∙◌, ap, some, false, List, [], ◌∷◌, ◌++◌, mem}
use mathlib.Core.Path.{subst}
use testcode.Machine.{Kernel, Symbols, ok, to_user, nproc, and_then}
use testcode.Machine.Returns.{outcome}
use testcode.Sched.{insert_to_ready_queue, schedule, epc, kernel_sp, kernel_satp, kernel_trap}
use testcode.Sched.Queue.{IsQueue, Inserted, insert_to_ready_queue-Inserted}
use testcode.Sched.Schedule.{HasTrapframe, Dispatched, schedule-Dispatched}

-- `q` runs from the program counter in its trap frame, and `ys` wait.
pub record Rotation (q : ℕ) (ys : List ℕ) (s s' : Kernel) : Type 0 where
  pub current : s'.current ≡ some q
  pub queue : IsQueue s' ys
  pub below : q < nproc
  pub out : mem q ys ≡ false
  pub pc : s'.csr.sepc ≡ s.mem ((s.procs q).trapframe + epc)
  pub frames : (i : ℕ) → (s'.procs i).trapframe ≡ (s.procs i).trapframe
  pub ticks : (i : ℕ) → (s'.procs i).tick_count ≡ (s.procs i).tick_count
  pub rest :
      (a : ℕ)
      → a ≢ (s.procs q).trapframe + kernel_sp
      → a ≢ (s.procs q).trapframe + kernel_satp
      → a ≢ (s.procs q).trapframe + kernel_trap
      → s'.mem a ≡ s.mem a

pub requeue-Rotation :
    (img : Symbols) (p q : ℕ) (xs ys : List ℕ) (s : Kernel)
    → IsQueue s xs
    → p < nproc
    → mem p xs ≡ false
    → xs ++ (p ∷ []) ≡ q ∷ ys
    → HasTrapframe s q
    → (s' : Kernel) × (and_then (insert_to_ready_queue p s) (λ _. schedule img) ≡ to_user s')
      × Rotation q ys s s'
requeue-Rotation img p q xs ys s v below out split tf =
    let inserted = outcome (insert_to_ready_queue-Inserted p xs s v below out) in
    let t : Kernel = inserted.1 in
    let step : insert_to_ready_queue p s ≡ ok inserted.0 t = inserted.2 in
    let i : Inserted s p xs t = inserted.3 in
    let frame = i.trapframe q in
    let ready : IsQueue t (q ∷ ys) = subst (λ l. IsQueue t l) split i.queue in
    let run = schedule-Dispatched img q ys t ready (rw frame tf) in
    let d : Dispatched img q ys t run.0 = run.2 in
    (
      run.0,
      ap (λ r. and_then r (λ _. schedule img)) step ∙ run.1,
      record {
        current = d.resumes.current;
        queue = d.queue;
        below = ready.below.0;
        out = ready.distinct.0;
        pc =
            d.resumes.pc
            ∙ (ap (λ m. m ((t.procs q).trapframe + epc)) i.mem ∙ ap (λ a. s.mem (a + epc)) frame);
        frames = λ j. rw d.resumes.procs (i.trapframe j);
        ticks = λ j. rw d.resumes.procs (i.tick j);
        rest = λ a x y z.
            d.resumes.rest a (rw frame x) (rw frame y) (rw frame z) ∙ ap (λ m. m a) i.mem;
      },
    )
