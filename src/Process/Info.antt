-- ===== src/Process/Info.antt =====
-- `do_getinfo` of kernel/process.c: what it prints is a report, and the state stays.
use testcode.Base.{ℕ, zero, suc, ◌+◌, ◌*◌, ◌/◌, ◌%◌, ◌^◌, if◌then◌else◌, List, [], ◌∷◌}
use testcode.Machine.{Kernel, Process, ProcStatus, K, pure, nproc}
use testcode.Process.Create.{is_free}

-- The line of a process: `pid`, `stat`, `mem` and `tick`.
pub record Row : Type 0 where
  pub pid : ℕ
  pub stat : ℕ
  pub mem : ℕ
  pub tick : ℕ

abbrev pub stat_char : ProcStatus → ℕ
stat_char ProcStatus.free = b'/'
stat_char ProcStatus.ready = b'S'
stat_char ProcStatus.running = b'R'
stat_char ProcStatus.blocked = b'B'
stat_char ProcStatus.zombie = b'Z'

abbrev pub row : Process → Row
row p = record {
  pid = p.pid % 2 ^ 32;
  stat = stat_char p.status;
  mem = p.total_mem_count * 4 % 2 ^ 32;
  tick = p.total_tick_count % 2 ^ 32;
}

-- The lines of the `n` processes from `i` on.
unfoldable pub rows : ℕ → (i : ℕ) → (ℕ → Process) → List Row
rows zero i procs = []
rows (suc n) i procs =
    let rest = rows n (i + 1) procs in
    if is_free (procs i).status then rest else (row (procs i) ∷ rest)

-- `nprocs`: all tasks, and those of each status.
pub record Counts : Type 0 where
  pub total : ℕ
  pub ready : ℕ
  pub running : ℕ
  pub blocked : ℕ
  pub zombie : ℕ

abbrev pub no_tasks : Counts
no_tasks = record { total = 0; ready = 0; running = 0; blocked = 0; zombie = 0 }

-- `++ nprocs[0]; ++ nprocs[status]` for a status that is not FREE.
abbrev pub count_task : ProcStatus → Counts → Counts
count_task ProcStatus.free c = c
count_task ProcStatus.ready c = record c { total = c.total + 1; ready = c.ready + 1 }
count_task ProcStatus.running c = record c { total = c.total + 1; running = c.running + 1 }
count_task ProcStatus.blocked c = record c { total = c.total + 1; blocked = c.blocked + 1 }
count_task ProcStatus.zombie c = record c { total = c.total + 1; zombie = c.zombie + 1 }

unfoldable pub count_tasks : ℕ → (i : ℕ) → (ℕ → Process) → Counts → Counts
count_tasks zero i procs c = c
count_tasks (suc n) i procs c = count_tasks n (i + 1) procs (count_task (procs i).status c)

-- The ticks, the memory in KiB, and the tasks.
pub record Report : Type 0 where
  pub tasks : Counts
  pub ticks : ℕ
  pub memory : ℕ
  pub lines : List Row

abbrev pub report : Kernel → Report
report s = record {
  tasks = count_tasks nproc 0 s.procs no_tasks;
  ticks = s.g_ticks % 2 ^ 32;
  memory = s.g_mem_size / 2 ^ 10 % 2 ^ 32;
  lines = rows nproc 0 s.procs;
}

pub do_getinfo : K ℕ
do_getinfo = pure 1
