-- ===== src/Trap/Timer.antt =====
-- A timer interrupt, from the trap to the process that runs next: `smode_trap_handler` of
-- kernel/strap.c.
use testcode.Base.{
  ℕ, ◌+◌, ◌-◌, ◌^◌, ◌<◌, ◌≡◌, ◌≢◌, refl, ap, ◌∙◌, some, true, false, List, [], ◌∷◌, ◌++◌, arith,
  mem, bit_and, update, update_self,
}
use testcode.Machine.{Kernel, to_user, nproc, and_then, deref}
use testcode.Machine.Access.{current_run, store_run}
use testcode.Machine.Word.{add64}
use testcode.Sched.{epc, switch_to}
use testcode.Sched.Queue.{IsQueue}
use testcode.Sched.Schedule.{HasTrapframe, switch_to-Resumes}
use testcode.Syscall.Table.{World, has_current}
use testcode.Trap.{rrsched, handle_mtimer_trap, count_tick}
use testcode.Trap.Handler.{handle_cause, smode_trap_handler, cause_mtimer_s_trap, sstatus_spp}
use testcode.Trap.RoundRobin.{Rotated, rrsched-Rotated, rrsched_stays}

-- The state after `handle_mtimer_trap`, with the saved program counter of `p`.
abbrev pub ticked : (p : ℕ) → Kernel → Kernel
ticked p s = record s {
  mem = update s.mem ((s.procs p).trapframe + epc) s.csr.sepc;
  g_ticks = add64 s.g_ticks 1;
  csr = record s.csr { sip = bit_and s.csr.sip (2 ^ 64 - 1 - 2) };
}

module _ (world : World) (p : ℕ) (s : Kernel) (cur : s.current ≡ some p) (frame : HasTrapframe s p)
    (user : bit_and s.csr.sstatus sstatus_spp ≡ 0)
    (cause : s.csr.scause ≡ cause_mtimer_s_trap) where
  saved : Kernel
  saved = record s { mem = update s.mem ((s.procs p).trapframe + epc) s.csr.sepc }

  cause_run :
      handle_cause world s.csr.scause (s.procs p).trapframe saved ≡ rrsched world.img (ticked p s)
  unfolding handle_cause saved handle_mtimer_trap
  cause_run = ap (λ c. handle_cause world c (s.procs p).trapframe saved) cause

  handler_run :
      smode_trap_handler world s
      ≡ and_then
          (rrsched world.img (ticked p s))
          (λ _ t. and_then (deref t.current t) (λ i. switch_to world.img i))
  unfolding smode_trap_handler saved
  handler_run =
      let has : has_current s ≡ true = ground (arith, cur) in
      let at : add64 (s.procs p).trapframe epc ≡ (s.procs p).trapframe + epc =
        omega (arith, frame) in
      rw
        (
          user,
          has,
          current_run p s cur,
          at,
          store_run ((s.procs p).trapframe + epc) s (omega (arith, frame)) (omega (arith, frame))
              (omega (arith, frame)) s.csr.sepc,
          cause_run,
        )
        refl

  -- The first tick of the slice: `p` runs on.
  pub record Stayed (s' : Kernel) : Type 0 where
    pub current : s'.current ≡ some p
    pub head : s'.ready_queue_head ≡ s.ready_queue_head
    pub links : (i : ℕ) → (s'.procs i).queue_next ≡ (s.procs i).queue_next
    pub status : (i : ℕ) → (s'.procs i).status ≡ (s.procs i).status
    pub frames : (i : ℕ) → (s'.procs i).trapframe ≡ (s.procs i).trapframe
    pub slice : (s'.procs p).tick_count ≡ 1
    pub others : (i : ℕ) → i ≢ p → (s'.procs i).tick_count ≡ (s.procs i).tick_count
    pub pc : s'.csr.sepc ≡ s.csr.sepc

  pub smode_trap_handler-Stayed :
      (s.procs p).tick_count ≡ 0
      → (s' : Kernel) × (smode_trap_handler world s ≡ to_user s') × Stayed s'
  smode_trap_handler-Stayed first =
      let t : Kernel = count_tick p (ticked p s) in
      let same : (t.procs p).trapframe ≡ (s.procs p).trapframe = ground arith in
      let (s', run, r) = switch_to-Resumes world.img p t (rw same frame) in
      (
        s',
        handler_run
            ∙ (ap
                  (λ r.
                    and_then r (λ _ t. and_then (deref t.current t) (λ i. switch_to world.img i)))
                  (rrsched_stays world.img p (ticked p s) cur first)
                ∙ (ap (λ r. and_then r (λ i. switch_to world.img i)) (current_run p t cur) ∙ run)),
        record {
          current = r.current;
          head = r.queue;
          links = λ i. rw r.procs (ground arith);
          status = λ i. rw r.procs (ground arith);
          frames = λ i. rw r.procs (ground arith);
          slice = rw r.procs (ground (arith, first));
          others = λ i ne. rw r.procs (ground (arith, ne));
          pc =
              r.pc
              ∙ (ap t.mem (ap (λ a. a + epc) same)
                  ∙ update_self s.mem ((s.procs p).trapframe + epc) s.csr.sepc);
        },
      )

  pub smode_trap_handler-Rotated :
      (q : ℕ) (xs ys : List ℕ)
      → IsQueue s xs
      → p < nproc
      → mem p xs ≡ false
      → xs ++ (p ∷ []) ≡ q ∷ ys
      → HasTrapframe s q
      → (s.procs p).tick_count ≡ 1
      → (s' : Kernel) × (smode_trap_handler world s ≡ to_user s') × Rotated p q ys (ticked p s) s'
  smode_trap_handler-Rotated q xs ys v below out split frame' over =
      let (s', run, r) =
        rrsched-Rotated world.img p q xs ys (ticked p s) cur
          (record { links = v.links; distinct = v.distinct; below = v.below; ready = v.ready })
          below out split frame' (omega (arith, over)) (omega (arith, over)) in
      (
        s',
        handler_run
            ∙ ap
                (λ r. and_then r (λ _ t. and_then (deref t.current t) (λ i. switch_to world.img i)))
                run,
        r,
      )
