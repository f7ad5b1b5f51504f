-- ===== src/Tests/Turns.antt =====
-- The theorems on traps and turns, on the small state.
use testcode.Base.{ℕ, ◌+◌, ◌≡◌, refl, List, [], ◌∷◌, arith, update}
use testcode.Machine.{Kernel, to_user, pure}
use testcode.Syscall.Table.{World}
use testcode.Tests.Demo.{demo, image, demo-IsQueue}
use testcode.Tests.Disk.{code, host, std_files}
use testcode.User.Interface.{lib_read, program_of, kernel_of, Agrees, program_of-Agrees}
use testcode.Trap.Ecall.{Resumed, smode_trap_handler-Resumed}
use testcode.Trap.Handler.{smode_trap_handler, cause_user_ecall}
use testcode.Trap.Fair.{Cause, yielded, ticked, TurnsOf, RunsIn, turns_exist, Turns-RunsIn}
use testcode.Trap.Turns.{Running, Turns, Turns-Running}

abbrev world : World
world = record {
  img = image;
  code = code;
  spike_files = std_files;
  host = host;
  elf = record {
    spike_file_open = λ path flags mode. pure 0x1000;
    local_open = λ path flags mode. pure 0x1000;
    spike_file_close = λ f. pure 0;
    spike_file_pread = λ f dest nb offset. pure 0;
    local_pread = λ f nb offset. pure (0, λ i. 0);
    main_vars = pure (0, λ i. 0);
  };
  console = record { sprint = λ pa. pure tt; sgetline = λ pa size. pure tt };
  stale = 0;
  fuel = 8;
}

demo-Running : Running 0 (1 ∷ []) demo
demo-Running = record {
  current = refl;
  queue = demo-IsQueue;
  below = omega arith;
  out = refl;
  frames = ((refl, omega arith, omega arith), ((refl, omega arith, omega arith), tt));
  slices = λ i. ground arith;
}

Turns-RunsIn_example :
    ((cs : List Cause) → TurnsOf world cs demo)
    × ((s' : Kernel) (turns : Turns world 2 demo s') → RunsIn 1 turns)
Turns-RunsIn_example = Turns-RunsIn world 2 0 1 [] [] demo demo-Running (omega arith)

-- Five turns, some of them yields.
mixed : TurnsOf world (ticked ∷ (yielded ∷ (yielded ∷ (ticked ∷ (yielded ∷ []))))) demo
mixed =
    turns_exist world (ticked ∷ (yielded ∷ (yielded ∷ (ticked ∷ (yielded ∷ []))))) 0 (1 ∷ []) demo
      demo-Running

Turns-Running_example : (q : ℕ) × (ys : List ℕ) × Running q ys mixed.0
Turns-Running_example = Turns-Running world 5 0 (1 ∷ []) demo mixed.0 demo-Running mixed.1

-- The process 0 yields.
abbrev yielding : Kernel
yielding = record demo {
  mem = update demo.mem (0x80015000 + 72) 69;
  csr = record demo.csr { scause = cause_user_ecall; sepc = 0x2000 };
}

smode_trap_handler-Resumed_example :
    (s' : Kernel) × (smode_trap_handler world yielding ≡ to_user s')
    × Resumed 0 1 (0 ∷ []) yielding s'
smode_trap_handler-Resumed_example =
    smode_trap_handler-Resumed world 0 1 (1 ∷ []) (0 ∷ []) yielding refl
      (record {
        links = demo-IsQueue.links;
        distinct = demo-IsQueue.distinct;
        below = demo-IsQueue.below;
        ready = demo-IsQueue.ready;
      })
      (omega arith) refl refl (refl, omega arith, omega arith) (refl, omega arith, omega arith) refl
      refl refl

program_of-Agrees_example :
    Agrees world
      (λ a. 0)
      (program_of (lib_read 3 0x1000 16) (λ a. 0))
      (kernel_of world (lib_read 3 0x1000 16))
program_of-Agrees_example = program_of-Agrees world (lib_read 3 0x1000 16) (λ a. 0) (omega arith)
