-- ===== src/Trap/Turns.antt =====
-- Processes take turns: traps of user processes as steps of the machine, with kernel/strap.c between
-- them.
use testcode.Base.{
  ℕ, zero, suc, ◌+◌, ◌≤◌, ◌<◌, ◌≡◌, ◌≢◌, ◌⊎◌, inl, inr, refl, sym, ap, ◌∙◌, some, false, ◌==◌, List,
  [], ◌∷◌, ◌++◌, arith, mem, bit_and, All, All-append, Bool-cases,
}
use mathlib.Core.Path.{subst}
use testcode.Machine.{Kernel, Run, to_user, nproc}
use testcode.Process.Create.{regs_a0}
use testcode.Sched.Queue.{IsQueue, next_of, Links-same, All-mono}
use testcode.Sched.Schedule.{HasTrapframe}
use testcode.Syscall.Table.{World, SysCall, sysnum}
use testcode.Trap.Ecall.{Resumed, smode_trap_handler-Resumed}
use testcode.Trap.Handler.{smode_trap_handler, cause_user_ecall, cause_mtimer_s_trap, sstatus_spp}
use testcode.Trap.RoundRobin.{Rotated}
use testcode.Trap.Timer.{ticked, Stayed, smode_trap_handler-Stayed, smode_trap_handler-Rotated}

-- What user mode leaves as it is; memory and the other registers are its own.
pub record UserRun (s t : Kernel) : Type 0 where
  pub current : t.current ≡ s.current
  pub head : t.ready_queue_head ≡ s.ready_queue_head
  pub procs : t.procs ≡ s.procs
  pub mode : bit_and t.csr.sstatus sstatus_spp ≡ 0

-- From one return to user mode to the next: the process that runs yields, or its time ticks.
pub data Turn (world : World) (s s' : Kernel) : Type 0 where
  yields :
      (t : Kernel)
      → UserRun s t
      → t.csr.scause ≡ cause_user_ecall
      → ((p : ℕ)
          → t.current ≡ some p
          → t.mem ((t.procs p).trapframe + regs_a0) ≡ sysnum SysCall.yield)
      → smode_trap_handler world t ≡ to_user s'
      → Turn world s s'
  ticks :
      (t : Kernel)
      → UserRun s t
      → t.csr.scause ≡ cause_mtimer_s_trap
      → smode_trap_handler world t ≡ to_user s'
      → Turn world s s'

pub data Turns (world : World) : ℕ → Kernel → Kernel → Type 0 where
  here : {s : Kernel} → Turns world 0 s s
  next :
      {n : ℕ} {s s1 s' : Kernel} → Turn world s s1 → Turns world n s1 s' → Turns world (suc n) s s'

-- `p` runs and `xs` wait, all of them with trap frames in memory, and no slice is used up.
pub record Running (p : ℕ) (xs : List ℕ) (s : Kernel) : Type 0 where
  pub current : s.current ≡ some p
  pub queue : IsQueue s xs
  pub below : p < nproc
  pub out : mem p xs ≡ false
  pub frames : All (HasTrapframe s) (p ∷ xs)
  pub slices : (i : ℕ) → (s.procs i).tick_count ≤ 1

-- A run ends in one state.
to_user-injective : {s t : Kernel} {r : Run (Unit {0})} → r ≡ to_user s → r ≡ to_user t → t ≡ s
to_user-injective {s} {t} {r} e e' = ap state (sym e' ∙ e)
  where
    state : Run (Unit {0}) → Kernel
    state (to_user k) = k
    state _ = s

pub Running-UserRun :
    (p : ℕ) (xs : List ℕ) (s t : Kernel) → UserRun s t → Running p xs s → Running p xs t
Running-UserRun p xs s t u r = record {
  current = u.current ∙ r.current;
  queue = record {
    links = rw (u.procs, u.head) r.queue.links;
    distinct = r.queue.distinct;
    below = r.queue.below;
    ready = rw u.procs r.queue.ready;
  };
  below = r.below;
  out = r.out;
  frames = All-mono (p ∷ xs) (λ i h. rw u.procs h) r.frames;
  slices = rw u.procs r.slices;
}

-- The trap frames of those who wait when `p` is queued.
frames_after :
    (p q : ℕ) (xs ys : List ℕ) (s s' : Kernel)
    → xs ++ (p ∷ []) ≡ q ∷ ys
    → ((i : ℕ) → (s'.procs i).trapframe ≡ (s.procs i).trapframe)
    → All (HasTrapframe s) (p ∷ xs)
    → All (HasTrapframe s') (q ∷ ys)
frames_after p q xs ys s s' split same frames =
    subst (λ l. All (HasTrapframe s') l) split
      (All-mono (xs ++ (p ∷ [])) (λ i h. rw (same i) h)
        (All-append (HasTrapframe s) xs (p ∷ []) frames.1 (frames.0, tt)))

pub first_frame :
    (p q : ℕ) (xs ys : List ℕ) (s : Kernel)
    → xs ++ (p ∷ []) ≡ q ∷ ys
    → All (HasTrapframe s) (p ∷ xs)
    → HasTrapframe s q
first_frame p q xs ys s split frames = (frames_after p q xs ys s s split (λ i. refl) frames).0

-- After a turn `p` runs on in the last tick of its slice, or it waits last and `q` runs.
abbrev pub After : (p q : ℕ) (xs ys : List ℕ) (s s' : Kernel) → Type 0
After p q xs ys s s' =
    (Running p xs s' × ((s.procs p).tick_count ≡ 0) × ((s'.procs p).tick_count ≡ 1))
    ⊎ Running q ys s'

Stayed-Running :
    (world : World) (p : ℕ) (xs : List ℕ) (s s' : Kernel) (cur : s.current ≡ some p)
    (frame : HasTrapframe s p) (user : bit_and s.csr.sstatus sstatus_spp ≡ 0)
    (cause : s.csr.scause ≡ cause_mtimer_s_trap)
    → Running p xs s
    → Stayed world p s cur frame user cause s'
    → Running p xs s'
Stayed-Running world p xs s s' cur frame user cause r k = record {
  current = k.current;
  queue = record {
    links =
        rw k.head (Links-same (next_of s) (next_of s') s.ready_queue_head xs k.links r.queue.links);
    distinct = r.queue.distinct;
    below = r.queue.below;
    ready = All-mono xs (λ i h. k.status i ∙ h) r.queue.ready;
  };
  below = r.below;
  out = r.out;
  frames = All-mono (p ∷ xs) (λ i h. rw (k.frames i) h) r.frames;
  slices = λ i. elim (Bool-cases (i == p)) [
    | inl e ↦ let same : i ≡ p = ground (arith, e) in rw same (omega (arith, k.slice))
    | inr e ↦ let ne : i ≢ p = ground (arith, e) in omega (arith, k.others i ne, r.slices i)
  ];
}

module _ (world : World) (p q : ℕ) (xs ys : List ℕ) (split : xs ++ (p ∷ []) ≡ q ∷ ys) where
  Resumed-Running : (s s' : Kernel) → Running p xs s → Resumed p q ys s s' → Running q ys s'
  Resumed-Running s s' r k = record {
    current = k.current;
    queue = k.queue;
    below = k.below;
    out = k.out;
    frames = frames_after p q xs ys s s' split k.frames r.frames;
    slices = λ i. omega (arith, k.ticks i, r.slices i);
  }

  Rotated-Running :
      (s s' : Kernel) → Running p xs s → Rotated p q ys (ticked p s) s' → Running q ys s'
  Rotated-Running s s' r k = record {
    current = k.current;
    queue = k.queue;
    below = k.below;
    out = k.out;
    frames = frames_after p q xs ys s s' split k.frames r.frames;
    slices = λ i. elim (Bool-cases (i == p)) [
      | inl e ↦ let same : i ≡ p = ground (arith, e) in rw same (omega (arith, k.slice))
      | inr e ↦ let ne : i ≢ p = ground (arith, e) in omega (arith, k.others i ne, r.slices i)
    ];
  }

  ticks_turn :
      (s s' : Kernel)
      → Running p xs s
      → bit_and s.csr.sstatus sstatus_spp ≡ 0
      → s.csr.scause ≡ cause_mtimer_s_trap
      → smode_trap_handler world s ≡ to_user s'
      → After p q xs ys s s'
  ticks_turn s s' r user cause run =
      let frame = first_frame p q xs ys s split r.frames in
      elim (Bool-cases ((s.procs p).tick_count == 0)) [
        | inl e ↦
            let first : (s.procs p).tick_count ≡ 0 = ground (arith, e) in
            let (t, run', k) =
              smode_trap_handler-Stayed world p s r.current r.frames.0 user cause first in
            let same = to_user-injective run' run in
            inl (
              rw same (Stayed-Running world p xs s t r.current r.frames.0 user cause r k),
              first,
              rw same k.slice,
            )
        | inr e ↦
            let last : (s.procs p).tick_count ≡ 1 = ground (arith, e, r.slices p) in
            let (t, run', k) =
              smode_trap_handler-Rotated world p s r.current r.frames.0 user cause q xs ys r.queue
                r.below r.out split frame last in
            inr (rw (to_user-injective run' run) (Rotated-Running s t r k))
      ]

  pub Turn-After : (s s' : Kernel) → Running p xs s → Turn world s s' → After p q xs ys s s'
  Turn-After s s' r (yields t u cause call run) =
      let rt = Running-UserRun p xs s t u r in
      let (t', run', k) =
        smode_trap_handler-Resumed world p q xs ys t rt.current rt.queue rt.below rt.out split
          rt.frames.0 (first_frame p q xs ys t split rt.frames) u.mode cause (call p rt.current) in
      inr (rw (to_user-injective run' run) (Resumed-Running t t' rt k))
  Turn-After s s' r (ticks t u cause run) =
      rw⁻¹ (ap (λ f. (f p).tick_count) u.procs)
        (ticks_turn t s' (Running-UserRun p xs s t u r) u.mode cause run)

pub queue_split : (p : ℕ) (xs : List ℕ) → (q : ℕ) × (ys : List ℕ) × (xs ++ (p ∷ []) ≡ q ∷ ys)
queue_split p [] = (p, [], refl)
queue_split p (x ∷ xs) = (x, xs ++ (p ∷ []), refl)

-- If a process runs and others wait, without repetitions, ready, among the 32, with trap frames
-- in memory and no slice used up, then this holds after any number of traps of a yield or of the
-- timer, with user mode between them changing neither the processes nor the queue.
pub Turns-Running :
    (world : World) (n p : ℕ) (xs : List ℕ) (s s' : Kernel)
    → Running p xs s
    → Turns world n s s'
    → (q : ℕ) × (ys : List ℕ) × Running q ys s'
Turns-Running world zero p xs s s' r here = (p, xs, r)
Turns-Running world (suc n) p xs s s' r (next {s1 = s1} turn rest) =
    let (q, ys, split) = queue_split p xs in
    elim (Turn-After world p q xs ys split s s1 r turn) [
      | inl (r', first, last) ↦ Turns-Running world n p xs s1 s' r' rest
      | inr r' ↦ Turns-Running world n q ys s1 s' r' rest
    ]
