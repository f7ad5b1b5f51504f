-- ===== src/Tests/Run.antt =====
-- The theorems on the ready queue, on the small state.
use testcode.Base.{◌==◌, if◌then◌else◌, some, ℕ, ◌<◌, ◌≡◌, refl, none, true, ◌⊎◌, [], ◌∷◌, arith}
use testcode.Machine.{ProcStatus, Kernel, ok, to_user, shutdown, panic, nproc}
use testcode.Machine.Returns.{Returns}
use testcode.Sched.{insert_to_ready_queue, schedule, is_over}
use testcode.Sched.Queue.{Inserted, insert_to_ready_queue-Inserted}
use testcode.Sched.Schedule.{HasTrapframe, Dispatched, schedule-Dispatched, schedule_idle}
use testcode.Process.{do_wait, reclaim, minus_two}
use testcode.Process.Wait.{FirstZombie, NoZombie, HasKid, NoKid, do_wait_cases}
use testcode.Vmm.{minus_one}
use testcode.Syscall.{sys_user_exit}
use testcode.Syscall.Exit.{Exited, sys_user_exit-Exited}
use testcode.Tests.Demo.{demo, image, demo-IsQueue}
use testcode.Trap.{rrsched}
use testcode.Trap.RoundRobin.{Rotated, rrsched-Rotated}

frame_of_next : HasTrapframe demo 1
frame_of_next = (refl, omega arith, omega arith)

rrsched-Rotated_example :
    (s' : Kernel) × (rrsched image demo ≡ to_user s') × Rotated 0 1 (0 ∷ []) demo s'
rrsched-Rotated_example =
    rrsched-Rotated image 0 1 (1 ∷ []) (0 ∷ []) demo refl demo-IsQueue (omega arith) refl refl
      frame_of_next (omega arith) (omega arith)

schedule-Dispatched_example :
    (s' : Kernel) × (schedule image demo ≡ to_user s') × Dispatched image 1 [] demo s'
schedule-Dispatched_example = schedule-Dispatched image 1 [] demo demo-IsQueue frame_of_next

-- No process waits.
abbrev empty_queue : Kernel
empty_queue = record demo { ready_queue_head = none }

schedule_idle_example :
    ((schedule image empty_queue ≡ shutdown 0)
      × ((i : ℕ) → i < nproc → is_over (empty_queue.procs i).status ≡ true))
    ⊎ ((schedule image empty_queue ≡ panic)
        × ¬ ((i : ℕ) → i < nproc → is_over (empty_queue.procs i).status ≡ true))
schedule_idle_example = schedule_idle image empty_queue refl

insert_to_ready_queue-Inserted_example :
    Returns (λ _. Inserted demo 0 (1 ∷ [])) (insert_to_ready_queue 0 demo)
insert_to_ready_queue-Inserted_example =
    insert_to_ready_queue-Inserted 0 (1 ∷ []) demo demo-IsQueue (omega arith) refl

sys_user_exit-Exited_example :
    (s' : Kernel) × (sys_user_exit image 0 demo ≡ to_user s') × Exited 0 1 [] demo s'
sys_user_exit-Exited_example =
    sys_user_exit-Exited image 0 0 1 [] demo refl demo-IsQueue refl frame_of_next

-- The process 1 is a child of the process 0 that has ended.
abbrev with_zombie : Kernel
with_zombie = record demo {
  procs = λ i.
      if i == 1
      then record (demo.procs 1) { status = ProcStatus.zombie; parent = some 0 }
      else demo.procs i;
}

do_wait_cases_example :
    ((i : ℕ) × FirstZombie with_zombie 0 0 nproc i
      × (do_wait 0 with_zombie ≡ reclaim i with_zombie))
    ⊎ ((NoZombie with_zombie 0 0 nproc
          × HasKid with_zombie 0 0 nproc
          × (do_wait 0 with_zombie ≡ ok minus_two with_zombie))
        ⊎ (NoKid with_zombie 0 0 nproc × (do_wait 0 with_zombie ≡ ok minus_one with_zombie)))
do_wait_cases_example = do_wait_cases 0 with_zombie
