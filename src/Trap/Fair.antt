-- ===== src/Trap/Fair.antt =====
-- Turns can follow each other, and everyone who waits runs: kernel/strap.c and kernel/sched.c.
use testcode.Base.{
  ℕ, zero, suc, ◌+◌, ◌*◌, ◌≤◌, ◌≡◌, ◌⊎◌, inl, inr, refl, ap, ◌∙◌, update, update_self, some, ◌==◌,
  List, [], ◌∷◌, ◌++◌, length, arith, Bool-cases,
}
use mathlib.Core.List.{append_assoc}
use mathlib.Core.Path.{subst}
use testcode.Machine.{Kernel}
use testcode.Process.Create.{regs_a0}
use testcode.Syscall.Table.{World, SysCall, sysnum}
use testcode.Trap.Ecall.{smode_trap_handler-Resumed}
use testcode.Trap.Handler.{cause_user_ecall, cause_mtimer_s_trap}
use testcode.Trap.Timer.{smode_trap_handler-Stayed, smode_trap_handler-Rotated}
use testcode.Trap.Turns.{
  UserRun, Turn, Turns, Running, Running-UserRun, first_frame, Turn-After, queue_split, yields,
  ticks, here, next,
}

-- What the trap of a turn is.
pub data Cause : Type 0 where
  yielded ticked : Cause

abbrev pub cause_of : {world : World} {s s' : Kernel} → Turn world s s' → Cause
cause_of (yields t u cause call run) = yielded
cause_of (ticks t u cause run) = ticked

abbrev pub causes : {world : World} {n : ℕ} {s s' : Kernel} → Turns world n s s' → List Cause
causes here = []
causes (next turn rest) = cause_of turn ∷ causes rest

-- The process `q` is current after one of these turns.
abbrev pub RunsIn : {world : World} {n : ℕ} {s s' : Kernel} → (q : ℕ) → Turns world n s s' → Type 0
RunsIn q here = ⊥
RunsIn q (next {s1 = s1} turn rest) = (s1.current ≡ some q) ⊎ RunsIn q rest

reached :
    (world : World) (n p q : ℕ) (before behind : List ℕ) (s s' : Kernel)
    → Running p (before ++ (q ∷ behind)) s
    → (turns : Turns world n s s') → 2 * length before + 2 ≤ n + (s.procs p).tick_count
    → RunsIn q turns
reached world zero p q before behind s s' r here enough = absurd (omega (arith, r.slices p))
reached world (suc n) p q [] behind s s' r (next {s1 = s1} turn rest) enough =
    elim (Turn-After world p q (q ∷ behind) (behind ++ (p ∷ [])) refl s s1 r turn) [
      | inl (r', first, last) ↦
          inr (reached world n p q [] behind s1 s' r' rest (omega (arith, enough, first, last)))
      | inr r' ↦ inl r'.current
    ]
reached world (suc n) p q (b ∷ before) behind s s' r (next {s1 = s1} turn rest) enough =
    elim (Turn-After world p b (b ∷ (before ++ (q ∷ behind))) ((before ++ (q ∷ behind)) ++ (p ∷ []))
      refl s s1 r turn) [
        | inl (r', first, last) ↦ inr (
            reached world n p q (b ∷ before) behind s1 s' r' rest
              (omega (arith, enough, first, last)))
        | inr r' ↦ inr (
            reached world n b q before (behind ++ (p ∷ [])) s1 s'
              (subst (λ l. Running b l s1) (append_assoc before (q ∷ behind) (p ∷ [])) r') rest
              (omega (arith, enough, r.slices p)))
      ]

-- A tick in user mode.
abbrev interrupted : Kernel → Kernel
interrupted s = record s { csr = record s.csr { sstatus = 0; scause = cause_mtimer_s_trap } }

-- The process `p` calls `yield`.
abbrev yielding : (p : ℕ) → Kernel → Kernel
yielding p s = record s {
  mem = update s.mem ((s.procs p).trapframe + regs_a0) (sysnum SysCall.yield);
  csr = record s.csr { sstatus = 0; scause = cause_user_ecall };
}

-- A turn of the cause, after which one process runs and the others wait again.
record NextTurn (world : World) (s : Kernel) (cause : Cause) : Type 0 where
  state : Kernel
  turn : Turn world s state
  same : cause_of turn ≡ cause
  running : ℕ
  waiting : List ℕ
  after : Running running waiting state

next_turn :
    (world : World) (p : ℕ) (xs : List ℕ) (s s' : Kernel) (turn : Turn world s s')
    → Running p xs s
    → NextTurn world s (cause_of turn)
next_turn world p xs s s' turn r =
    let (q, ys, split) = queue_split p xs in
    elim (Turn-After world p q xs ys split s s' r turn) [
      | inl (r', first, last) ↦ record {
        state = s';
        turn = turn;
        same = refl;
        running = p;
        waiting = xs;
        after = r';
      }
      | inr r' ↦ record {
        state = s';
        turn = turn;
        same = refl;
        running = q;
        waiting = ys;
        after = r';
      }
    ]

NextTurn-exists :
    (world : World) (p : ℕ) (xs : List ℕ) (s : Kernel) (cause : Cause)
    → Running p xs s
    → NextTurn world s cause
NextTurn-exists world p xs s yielded r =
    let t : Kernel = yielding p s in
    let u : UserRun s t = record { current = refl; head = refl; procs = refl; mode = refl } in
    let (q, ys, split) = queue_split p xs in
    let rt = Running-UserRun p xs s t u r in
    let call = update_self s.mem ((s.procs p).trapframe + regs_a0) (sysnum SysCall.yield) in
    let (s', run, k) =
      smode_trap_handler-Resumed world p q xs ys t rt.current rt.queue rt.below rt.out split
        rt.frames.0 (first_frame p q xs ys t split rt.frames) refl refl call in
    next_turn world p xs s s'
      (yields t u refl (λ i c. let same : i ≡ p = ground (arith, c, r.current) in rw same call) run)
      r
NextTurn-exists world p xs s ticked r =
    let t : Kernel = interrupted s in
    let u : UserRun s t = record { current = refl; head = refl; procs = refl; mode = refl } in
    let (q, ys, split) = queue_split p xs in
    let rt = Running-UserRun p xs s t u r in
    elim (Bool-cases ((s.procs p).tick_count == 0)) [
      | inl e ↦
          let first : (s.procs p).tick_count ≡ 0 = ground (arith, e) in
          let (s', run, k) =
            smode_trap_handler-Stayed world p t rt.current rt.frames.0 refl refl first in
          next_turn world p xs s s' (ticks t u refl run) r
      | inr e ↦
          let last : (s.procs p).tick_count ≡ 1 = ground (arith, e, r.slices p) in
          let (s', run, k) =
            smode_trap_handler-Rotated world p t rt.current rt.frames.0 refl refl q xs ys rt.queue
              rt.below rt.out split (first_frame p q xs ys t split rt.frames) last in
          next_turn world p xs s s' (ticks t u refl run) r
    ]

-- Turns of these causes from the state `s` on.
abbrev pub TurnsOf : World → List Cause → Kernel → Type 0
TurnsOf world cs s = (s' : Kernel) × (turns : Turns world (length cs) s s') × (causes turns ≡ cs)

pub turns_exist :
    (world : World) (cs : List Cause) (p : ℕ) (xs : List ℕ) (s : Kernel)
    → Running p xs s
    → TurnsOf world cs s
turns_exist world [] p xs s r = (s, here, refl)
turns_exist world (c ∷ cs) p xs s r =
    let n = NextTurn-exists world p xs s c r in
    let (s', rest, same) = turns_exist world cs n.running n.waiting n.state n.after in
    (s', next n.turn rest, ap (λ d. d ∷ causes rest) n.same ∙ ap (λ l. c ∷ l) same)

-- If a process runs and others wait, all with trap frames in memory and no slice used up, then
-- traps of a yield and of the timer can follow each other in any order, with user mode between
-- them changing neither the processes nor the queue; and in every sequence of `2 * (k + 1)` or
-- more of them, a process that waits behind `k` others is current after one of them.
pub Turns-RunsIn :
    (world : World) (n p q : ℕ) (before behind : List ℕ) (s : Kernel)
    → Running p (before ++ (q ∷ behind)) s
    → 2 * (length before + 1) ≤ n
    → ((cs : List Cause) → TurnsOf world cs s)
      × ((s' : Kernel) (turns : Turns world n s s') → RunsIn q turns)
Turns-RunsIn world n p q before behind s r enough = (
  λ cs. turns_exist world cs p (before ++ (q ∷ behind)) s r,
  λ s' turns. reached world n p q before behind s s' r turns (omega (arith, enough)),
)
