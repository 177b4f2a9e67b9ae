-- ===== src/Process.antt =====
-- kernel/process.c: the process table, the round-robin scheduler and the timer's handler.
pub mod Table
pub mod Schedule
pub mod Timer
pub mod Listing
mod Tests
use krnel.Base.{
  ℕ, zero, suc, ◌+◌, ◌*◌, ◌%◌, ◌^◌, ◌≤◌, ◌<◌, ◌≡◌, Bool, true, false, Option, none, some, List, [],
  ◌∷◌, ◌++◌, ◌==◌, leb, if◌then◌else◌, get_or, set, replicate,
}
use krnel.Base.Int.{ℤ, pos, negsuc}
use krnel.CString.{Buffer, strcpy}

abbrev pub max_processes : ℕ
max_processes = 32

abbrev pub time_slice : ℕ
time_slice = 10

-- `process_state_t`
pub data State : Type 0 where
  unused : State
  ready : State
  running : State
  waiting : State
  zombie : State

-- `process_t`
pub record Process : Type 0 where
  pub pid : ℕ
  pub ppid : ℕ
  pub state : State
  pub name : Buffer
  pub esp : ℕ
  pub ebp : ℕ
  pub eip : ℕ
  pub stack : List ℕ
  pub time_used : ℕ
  pub priority : ℕ
  pub uid : ℕ
  pub gid : ℕ
  pub is_user : Bool

-- The variables of the file, and `system_uptime` of kernel/kernel.c.
pub record Kernel : Type 0 where
  pub processes : List Process
  pub current_pid : ℕ
  pub next_pid : ℕ
  pub uptime : ℕ

-- A process whose bytes are all 0.
abbrev pub zeroed : Process
zeroed = record {
  pid = 0;
  ppid = 0;
  state = State.unused;
  name = replicate 32 0;
  esp = 0;
  ebp = 0;
  eip = 0;
  stack = replicate 1024 0;
  time_used = 0;
  priority = 0;
  uid = 0;
  gid = 0;
  is_user = false;
}

abbrev pub process : Kernel → ℕ → Process
process s i = get_or s.processes i zeroed

abbrev pub put_process : Kernel → ℕ → Process → Kernel
put_process s i p = record s { processes = set s.processes i p }

-- The slot of a new process, its name copied. `stack_top i` is the address of the last word of the stack
-- of process `i`, which the linker chooses.
abbrev pub new_process : (ℕ → ℕ) → Kernel → ℕ → Bool → Buffer → Process
new_process stack_top s entry is_user copied = record zeroed {
  pid = s.next_pid;
  ppid = s.current_pid;
  state = State.ready;
  eip = entry;
  is_user = is_user;
  uid = if is_user then 1000 else 0;
  name = copied;
  esp = stack_top s.next_pid;
  ebp = stack_top s.next_pid;
}

abbrev pub add_process : Kernel → Process → Kernel
add_process s p = record s { next_pid = s.next_pid + 1; processes = set s.processes s.next_pid p }

-- `none`: the name and its NUL do not fit in the 32 bytes of `proc->name`.
pub proc_create_user : (ℕ → ℕ) → Kernel → Buffer → ℕ → Bool → Option (Kernel × ℤ)
proc_create_user stack_top s name entry is_user =
    if leb max_processes s.next_pid then some (s, negsuc 0) else elim (strcpy zeroed.name name) [
      | none ↦ none
      | some copied ↦
          some (add_process s (new_process stack_top s entry is_user copied), pos s.next_pid)
    ]

-- `entry` has 64 bits and is cut to 32.
abbrev pub proc_create : (ℕ → ℕ) → Kernel → Buffer → ℕ → Option (Kernel × ℤ)
proc_create stack_top s name entry = proc_create_user stack_top s name (entry % 2 ^ 32) true

-- `"idle"` and `"ksh"`
abbrev pub idle_name : Buffer
idle_name = b'i' ∷ b'd' ∷ b'l' ∷ b'e' ∷ 0 ∷ []

abbrev pub ksh_name : Buffer
ksh_name = b'k' ∷ b's' ∷ b'h' ∷ 0 ∷ []

-- The table with the idle process alone.
abbrev pub idle_table : List Process
idle_table =
    set (replicate max_processes zeroed) 0
      (record zeroed { state = State.ready; name = idle_name ++ replicate 27 0 })

pub proc_init : (ℕ → ℕ) → Kernel → Option Kernel
proc_init stack_top s =
    elim (proc_create_user stack_top (record s { processes = idle_table }) ksh_name 0 true) [
      | none ↦ none
      | some r ↦ some r.0
    ]

-- `yield` is what the interrupt 0x20 of `proc_yield` does: its handler is not in the code.
pub proc_exit : (Kernel → Kernel) → Kernel → Kernel
proc_exit yield s =
    yield (put_process s s.current_pid (record (process s s.current_pid) { state = State.zombie }))

abbrev pub runnable : State → Bool
runnable State.unused = false
runnable State.ready = true
runnable State.running = true
runnable State.waiting = false
runnable State.zombie = false

-- `processes[i].state = PROC_RUNNING; current_pid = i;`
abbrev pub run : Kernel → ℕ → Kernel
run s i = record s {
  processes = set s.processes i (record (process s i) { state = State.running });
  current_pid = i;
}

-- The `do … while (next != start)` of `schedule`, and the two lines behind it; `none`: out of fuel.
pub schedule_loop : ℕ → Kernel → ℕ → ℕ → Option Kernel
schedule_loop zero s next start = none
schedule_loop (suc fuel) s next start =
    let after = (next + 1) % max_processes in
    let rest = schedule_loop fuel s after start in
    if runnable (process s next).state
    then some (run s next)
    else if after == start
    then some (run s 0)
    else rest

-- The loop goes round the table at most once.
pub schedule : Kernel → Option Kernel
schedule s =
    let next = (s.current_pid + 1) % max_processes in schedule_loop max_processes s next next

pub timer_handler : Kernel → Option Kernel
timer_handler s =
    let t = record s { uptime = (s.uptime + 1) % 2 ^ 32 } in
    let p = process s s.current_pid in
    let used = (p.time_used + 1) % 2 ^ 32 in
    if p.pid == 0
    then some t
    else if leb time_slice used
    then schedule (put_process t s.current_pid (record p { state = State.ready; time_used = 0 }))
    else some (put_process t s.current_pid (record p { time_used = used }))

pub proc_get_pid : Kernel → ℕ
proc_get_pid s = (process s s.current_pid).pid
