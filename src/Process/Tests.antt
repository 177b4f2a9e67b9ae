-- ===== src/Process/Tests.antt =====
-- Instances of what is proved of kernel/process.c, on the table that the kernel starts with.
use krnel.Base.{
  ℕ, zero, suc, ◌+◌, ◌≤◌, ◌<◌, ◌≡◌, ◌≢◌, refl, ap, true, some, [], ◌++◌, ◌⊎◌, set, replicate,
  get_or-replicate, arith,
}
use krnel.Base.Int.{ℤ, pos, negsuc}
use krnel.Process.{
  max_processes, time_slice, State, Kernel, process, zeroed, new_process, idle_table, ksh_name, run,
  schedule, proc_create_user, timer_handler,
}
use krnel.Process.Schedule.{Picks, schedule-Picks, RunsWithin, schedules_fair}
use krnel.Process.Table.{IsTable, proc_create_user-IsTable}
use krnel.Process.Timer.{ticks, OnlyCurrent, stop, ticks_slice, timer_handler-IsTable}

abbrev stack_top : ℕ → ℕ
stack_top i = 0x200000 + i

abbrev linked : Kernel
linked = record { processes = []; current_pid = 0; next_pid = 1; uptime = 0 }

-- The idle process and the shell.
abbrev booted : Kernel
booted = record {
  processes = set idle_table 1 (new_process stack_top linked 0 true (ksh_name ++ replicate 28 0));
  current_pid = 0;
  next_pid = 2;
  uptime = 0;
}

booted_pids : (i : ℕ) → i < 2 → (process booted i).pid ≡ i
booted_pids zero lt = refl
booted_pids (suc zero) lt = refl
booted_pids (suc (suc i)) lt = absurd (omega arith)

booted_free : (i : ℕ) → 2 ≤ i → (process booted i).state ≡ State.unused
booted_free zero le = absurd (omega arith)
booted_free (suc zero) le = absurd (omega arith)
booted_free (suc (suc i)) le = ap (λ p. p.state) (get_or-replicate 30 i zeroed)

booted-IsTable : IsTable booted
booted-IsTable = record {
  count = refl;
  current_lt = omega arith;
  next_le = omega arith;
  pids = booted_pids;
  free = booted_free;
}

-- The same, with the shell running.
abbrev in_ksh : Kernel
in_ksh = record booted { current_pid = 1 }

schedule-Picks_example : (i : ℕ) × (schedule booted ≡ some (run booted i)) × Picks booted i
schedule-Picks_example = schedule-Picks booted (omega arith)

schedules_fair_example : RunsWithin max_processes booted 1
schedules_fair_example = schedules_fair booted 1 (omega arith) refl (omega arith) refl

timer_handler-IsTable_example : (t : Kernel) × (timer_handler booted ≡ some t) × IsTable t
timer_handler-IsTable_example = timer_handler-IsTable booted booted-IsTable

ticks_slice_example :
    (t : Kernel) × (ticks time_slice in_ksh ≡ schedule t)
    × OnlyCurrent in_ksh (stop (process in_ksh in_ksh.current_pid)) t
ticks_slice_example = ticks_slice in_ksh (omega arith) (omega arith) refl

proc_create_user-IsTable_example :
    (t : Kernel) × (r : ℤ) × (proc_create_user stack_top booted ksh_name 0 true ≡ some (t, r))
    × IsTable t
    × ((booted.next_pid ≡ max_processes) × (r ≡ negsuc 0) × (t ≡ booted)
        ⊎ (r ≡ pos booted.next_pid)
          × ((process t booted.next_pid).state ≡ State.ready)
          × ((process t booted.next_pid).eip ≡ 0)
          × ((i : ℕ) → i ≢ booted.next_pid → process t i ≡ process booted i))
proc_create_user-IsTable_example =
    proc_create_user-IsTable stack_top booted ksh_name 0 true booted-IsTable refl (omega arith)
