-- ===== src/Trap/Ecall.antt =====
-- A `yield` of the user, from the trap to the process that runs next: `smode_trap_handler` of
-- kernel/strap.c.
use testcode.Base.{
  ℕ, ◌+◌, ◌%◌, ◌<◌, ◌≡◌, ◌≢◌, refl, sym, ap, ◌∙◌, some, true, false, List, [], ◌∷◌, ◌++◌, arith,
  mem, bit_and, update, update_self, update_ne,
}
use testcode.Machine.{Kernel, ok, to_user, nproc, and_then, load, store}
use testcode.Machine.Access.{current_run, load_run, store_run}
use testcode.Machine.Word.{add64, pgsize}
use testcode.Process.Create.{regs_a0, regs_a1}
use testcode.Sched.{epc, kernel_sp, kernel_satp, kernel_trap}
use testcode.Sched.Queue.{IsQueue}
use testcode.Sched.Schedule.{HasTrapframe}
use testcode.Syscall.Table.{
  World, SysCall, sysnum, do_syscall-sysnum, do_syscall, run_call, has_current,
}
use testcode.Syscall.Yield.{sys_user_yield-Rotation}
use testcode.Sched.Rotate.{Rotation}
use testcode.Trap.Handler.{
  handle_syscall, handle_cause, smode_trap_handler, cause_user_ecall, sstatus_spp, regs_a2, regs_a3,
}

-- The state with the saved program counter of `p`, and with the next one.
abbrev saved : (p : ℕ) → Kernel → Kernel
saved p s = record s { mem = update s.mem ((s.procs p).trapframe + epc) s.csr.sepc }

abbrev entered : (p : ℕ) → Kernel → Kernel
entered p s = record s {
  mem = update (saved p s).mem ((s.procs p).trapframe + epc) (add64 s.csr.sepc 4);
}

-- `p` waits behind `ys` at the next instruction, and `q` runs at the program counter of its trap frame.
pub record Resumed (p q : ℕ) (ys : List ℕ) (s s' : Kernel) : Type 0 where
  pub current : s'.current ≡ some q
  pub queue : IsQueue s' ys
  pub below : q < nproc
  pub out : mem q ys ≡ false
  pub frames : (i : ℕ) → (s'.procs i).trapframe ≡ (s.procs i).trapframe
  pub ticks : (i : ℕ) → (s'.procs i).tick_count ≡ (s.procs i).tick_count
  pub pc : s'.csr.sepc ≡ s'.mem ((s.procs q).trapframe + epc)
  pub next_pc : s'.mem ((s.procs p).trapframe + epc) ≡ add64 s.csr.sepc 4
  pub result : s'.mem ((s.procs p).trapframe + regs_a0) ≡ sysnum SysCall.yield
  pub rest :
      (a : ℕ)
      → a ≢ (s.procs p).trapframe + epc
      → a ≢ (s.procs q).trapframe + kernel_sp
      → a ≢ (s.procs q).trapframe + kernel_satp
      → a ≢ (s.procs q).trapframe + kernel_trap
      → s'.mem a ≡ s.mem a

module _ (world : World) (p q : ℕ) (xs ys : List ℕ) (s : Kernel) (cur : s.current ≡ some p)
    (v : IsQueue s xs) (below : p < nproc) (out : mem p xs ≡ false)
    (split : xs ++ (p ∷ []) ≡ q ∷ ys) (frame : HasTrapframe s p) (frame' : HasTrapframe s q)
    (user : bit_and s.csr.sstatus sstatus_spp ≡ 0) (cause : s.csr.scause ≡ cause_user_ecall)
    (call : s.mem ((s.procs p).trapframe + regs_a0) ≡ sysnum SysCall.yield) where
  yielded :
      (s' : Kernel) × (run_call world SysCall.yield 0 0 0 (entered p s) ≡ to_user s')
      × Rotation q ys (entered p s) s'
  unfolding run_call
  yielded =
      sys_user_yield-Rotation world.img p q xs ys (entered p s) cur
        (record { links = v.links; distinct = v.distinct; below = v.below; ready = v.ready }) below
        out split frame'

  syscall_run :
      (a1 a2 a3 : ℕ)
      → do_syscall world (sysnum SysCall.yield) a1 a2 a3 (entered p s) ≡ to_user yielded.0
  unfolding run_call
  syscall_run a1 a2 a3 = do_syscall-sysnum world SysCall.yield a1 a2 a3 (entered p s) ∙ yielded.1

  in_frame : (o : ℕ) → o < pgsize → add64 (s.procs p).trapframe o ≡ (s.procs p).trapframe + o
  in_frame o h = omega (arith, frame)

  -- A word of the trap frame, in a state with other memory.
  word_run :
      (m : ℕ → ℕ) (o : ℕ)
      → o % 8 ≡ 0
      → o < pgsize
      → load (add64 (s.procs p).trapframe o) (record s { mem = m })
        ≡ ok (m ((s.procs p).trapframe + o)) (record s { mem = m })
  word_run m o al h = rw (in_frame o h) (
      load_run ((s.procs p).trapframe + o) (record s { mem = m }) (omega (arith, frame))
        (omega (arith, frame)) (omega (arith, frame)))

  set_word_run :
      (m : ℕ → ℕ) (o w : ℕ)
      → o % 8 ≡ 0
      → o < pgsize
      → store (add64 (s.procs p).trapframe o) w (record s { mem = m })
        ≡ ok tt (record s { mem = update m ((s.procs p).trapframe + o) w })
  set_word_run m o w al h = rw (in_frame o h) (
      store_run ((s.procs p).trapframe + o) (record s { mem = m }) (omega (arith, frame))
        (omega (arith, frame)) (omega (arith, frame)) w)

  call_run : handle_syscall world (s.procs p).trapframe (saved p s) ≡ to_user yielded.0
  unfolding handle_syscall
  call_run =
      let a0 : (entered p s).mem ((s.procs p).trapframe + regs_a0) ≡ sysnum SysCall.yield =
        ground (arith, call) in
      rw
        (
          word_run (saved p s).mem epc refl (omega arith),
          update_self s.mem ((s.procs p).trapframe + epc) s.csr.sepc,
          set_word_run (saved p s).mem epc (add64 s.csr.sepc 4) refl (omega arith),
          word_run (entered p s).mem regs_a0 refl (omega arith),
          word_run (entered p s).mem regs_a1 refl (omega arith),
          word_run (entered p s).mem regs_a2 refl (omega arith),
          word_run (entered p s).mem regs_a3 refl (omega arith),
          a0,
        )
        (ap (λ r. and_then r (λ ret. store (add64 (s.procs p).trapframe regs_a0) ret))
          (syscall_run _ _ _))

  cause_run : handle_cause world s.csr.scause (s.procs p).trapframe (saved p s) ≡ to_user yielded.0
  unfolding handle_cause
  cause_run = ap (λ c. handle_cause world c (s.procs p).trapframe (saved p s)) cause ∙ call_run

  handler_run : smode_trap_handler world s ≡ to_user yielded.0
  unfolding smode_trap_handler
  handler_run =
      let has : has_current s ≡ true = ground (arith, cur) in
      rw
        (
          user,
          has,
          current_run p s cur,
          set_word_run s.mem epc s.csr.sepc refl (omega arith),
          cause_run,
        )
        refl

  -- If a trap comes from user mode by the system call `yield`, the current process is one of the
  -- 32 and does not wait, and it and the process that is first when it is queued have their trap
  -- frames in memory, then `smode_trap_handler` passes control to that process, at the program
  -- counter in its trap frame; the others wait in their order with the current process last,
  -- whose trap frame has the address of the next instruction and, where the result belongs, the
  -- number of the call still; trap frames and tick counts of all processes and other words of
  -- memory stay.
  pub smode_trap_handler-Resumed :
      (s' : Kernel) × (smode_trap_handler world s ≡ to_user s') × Resumed p q ys s s'
  smode_trap_handler-Resumed =
      let y = yielded.2 in
      let kept = λ (a : ℕ) (ne : a ≢ (s.procs p).trapframe + epc).
        update_ne (saved p s).mem (add64 s.csr.sepc 4) (λ e. ne (sym e))
        ∙ update_ne s.mem s.csr.sepc (λ e. ne (sym e)) in
      (
        yielded.0,
        handler_run,
        record {
          current = y.current;
          queue = y.queue;
          below = y.below;
          out = y.out;
          frames = y.frames;
          ticks = y.ticks;
          pc =
              y.pc
              ∙ sym
                  (y.rest ((s.procs q).trapframe + epc) (omega arith) (omega arith) (omega arith));
          next_pc =
              y.rest ((s.procs p).trapframe + epc) (omega (arith, frame, frame'))
                (omega (arith, frame, frame')) (omega (arith, frame, frame'))
              ∙ update_self (saved p s).mem ((s.procs p).trapframe + epc) (add64 s.csr.sepc 4);
          result =
              y.rest ((s.procs p).trapframe + regs_a0) (omega (arith, frame, frame'))
                (omega (arith, frame, frame')) (omega (arith, frame, frame'))
              ∙ (kept ((s.procs p).trapframe + regs_a0) (omega arith) ∙ call);
          rest = λ a ne x y' z. y.rest a x y' z ∙ kept a ne;
        },
      )
