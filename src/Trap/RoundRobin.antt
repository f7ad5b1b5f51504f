-- ===== src/Trap/RoundRobin.antt =====
-- The time slices of `rrsched` of kernel/strap.c.
use testcode.Base.{
  ℕ, ◌+◌, ◌^◌, ◌≤◌, ◌<◌, ◌≡◌, ◌≢◌, refl, ◌∙◌, ap, some, false, List, [], ◌∷◌, ◌++◌, arith, mem,
}
use testcode.Machine.{Kernel, Symbols, ok, to_user, nproc, and_then, time_slice_len}
use testcode.Machine.Word.{slt32}
use testcode.Sched.{insert_to_ready_queue, schedule, epc}
use testcode.Sched.Queue.{IsQueue, next_of, Links-same, All-mono}
use testcode.Sched.Rotate.{requeue-Rotation}
use testcode.Sched.Schedule.{HasTrapframe}
use testcode.Trap.{rrsched, count_tick, reset_tick}

-- `q` runs, `ys` wait, and `p` starts a new slice.
pub record Rotated (p q : ℕ) (ys : List ℕ) (s s' : Kernel) : Type 0 where
  pub current : s'.current ≡ some q
  pub queue : IsQueue s' ys
  pub below : q < nproc
  pub out : mem q ys ≡ false
  pub slice : (s'.procs p).tick_count ≡ 0
  pub others : (i : ℕ) → i ≢ p → (s'.procs i).tick_count ≡ (s.procs i).tick_count
  pub frames : (i : ℕ) → (s'.procs i).trapframe ≡ (s.procs i).trapframe
  pub pc : s'.csr.sepc ≡ s.mem ((s.procs q).trapframe + epc)

-- The slice of the process `p` is over, and it is not queued yet.
abbrev ended : ℕ → Kernel → Kernel
ended p s = reset_tick p (count_tick p s)

next_ended : (p : ℕ) (s : Kernel) (i : ℕ) → next_of (ended p s) i ≡ next_of s i
next_ended p s i = ground arith

status_ended : (p : ℕ) (s : Kernel) (i : ℕ) → ((ended p s).procs i).status ≡ (s.procs i).status
status_ended p s i = ground arith

trapframe_ended :
    (p : ℕ) (s : Kernel) (i : ℕ) → ((ended p s).procs i).trapframe ≡ (s.procs i).trapframe
trapframe_ended p s i = ground arith

tick_ended :
    (p : ℕ) (s : Kernel) (i : ℕ) → i ≢ p → ((ended p s).procs i).tick_count ≡ (s.procs i).tick_count
tick_ended p s i ne = ground arith

tick_zero : (p : ℕ) (s : Kernel) → ((ended p s).procs p).tick_count ≡ 0
tick_zero p s = ground arith

ended-IsQueue : (p : ℕ) (xs : List ℕ) (s : Kernel) → IsQueue s xs → IsQueue (ended p s) xs
ended-IsQueue p xs s v = record {
  links =
      Links-same (next_of s) (next_of (ended p s)) s.ready_queue_head xs (next_ended p s) v.links;
  distinct = v.distinct;
  below = v.below;
  ready = All-mono xs (λ i r. status_ended p s i ∙ r) v.ready;
}

rrsched_ends :
    (img : Symbols) (p : ℕ) (s : Kernel)
    → s.current ≡ some p
    → 1 ≤ (s.procs p).tick_count
    → (s.procs p).tick_count + 1 < 2 ^ 31
    → rrsched img s ≡ and_then (insert_to_ready_queue p (ended p s)) (λ _. schedule img)
unfolding rrsched
rrsched_ends img p s c lo hi =
    let tick : ((count_tick p s).procs p).tick_count ≡ (s.procs p).tick_count + 1 = ground arith in
    let over : slt32 ((s.procs p).tick_count + 1) time_slice_len ≡ false = ground arith in
    rw (c, tick, over) refl

pub rrsched_stays :
    (img : Symbols) (p : ℕ) (s : Kernel)
    → s.current ≡ some p
    → (s.procs p).tick_count ≡ 0
    → rrsched img s ≡ ok tt (count_tick p s)
unfolding rrsched
rrsched_stays img p s c none_yet =
    let tick : ((count_tick p s).procs p).tick_count ≡ 1 = ground (arith, none_yet) in
    rw (c, tick) refl

-- If the current process is one of the 32, does not wait, and this tick is at least the second of
-- its slice, and the first process to wait after it is queued has its trap frame in memory, then
-- `rrsched` passes control to that process, at the program counter in its trap frame; the current
-- process waits last and its tick count is 0; the others keep their order and their tick counts.
pub rrsched-Rotated :
    (img : Symbols) (p q : ℕ) (xs ys : List ℕ) (s : Kernel)
    → s.current ≡ some p
    → IsQueue s xs
    → p < nproc
    → mem p xs ≡ false
    → xs ++ (p ∷ []) ≡ q ∷ ys
    → HasTrapframe s q
    → 1 ≤ (s.procs p).tick_count
    → (s.procs p).tick_count + 1 < 2 ^ 31
    → (s' : Kernel) × (rrsched img s ≡ to_user s') × Rotated p q ys s s'
rrsched-Rotated img p q xs ys s c v below out split tf lo hi =
    let (s', run, r) =
      requeue-Rotation img p q xs ys (ended p s) (ended-IsQueue p xs s v) below out split
        (rw (trapframe_ended p s q) tf) in
    (
      s',
      rrsched_ends img p s c lo hi ∙ run,
      record {
        current = r.current;
        queue = r.queue;
        below = r.below;
        out = r.out;
        slice = r.ticks p ∙ tick_zero p s;
        others = λ j ne. r.ticks j ∙ tick_ended p s j ne;
        frames = λ j. r.frames j ∙ trapframe_ended p s j;
        pc = r.pc ∙ ap (λ a. s.mem (a + epc)) (trapframe_ended p s q);
      },
    )
