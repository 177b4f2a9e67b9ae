-- ===== src/Process/Schedule.antt =====
-- The loop of `schedule` (kernel/process.c).
use krnel.Base.{
  ℕ, zero, suc, ◌+◌, ◌-◌, ◌%◌, ◌≤◌, ◌<◌, ◌≡◌, refl, ◌∙◌, ap, subst, Bool, true, false, Option, none,
  some, ◌==◌, length, get_or, set, length-set, get_or-set_self, get_or-set_ne, arith, Bool-cases,
  inl, inr, ◌⊎◌,
}
use krnel.Process.{
  max_processes, State, Kernel, process, zeroed, runnable, run, schedule_loop, schedule,
}

abbrev pub can_run : Kernel → ℕ → Bool
can_run s i = runnable (process s i).state

-- How many processes come before process `i` in the round that begins behind the current one.
abbrev pub turn : ℕ → ℕ → ℕ
turn current i = (i + 31 - current) % max_processes

-- Process `i` is the first of the round that can run.
abbrev pub IsNext : Kernel → ℕ → Type 0
IsNext s i =
    (i < max_processes)
    × (can_run s i ≡ true)
    × ((j : ℕ)
        → j < max_processes
        → turn s.current_pid j < turn s.current_pid i
        → can_run s j ≡ false)

abbrev pub Idle : Kernel → Type 0
Idle s = (i : ℕ) → i < max_processes → can_run s i ≡ false

-- What `schedule` promises: the first process of the round that can run, and the idle one if there is none.
abbrev pub Picks : Kernel → ℕ → Type 0
Picks s i = IsNext s i ⊎ (i ≡ 0) × Idle s

schedule_loop-Picks :
    (fuel k : ℕ) (s : Kernel) (next start : ℕ)
    → s.current_pid < max_processes
    → fuel + k ≡ max_processes
    → 0 < fuel
    → next < max_processes
    → turn s.current_pid next ≡ k
    → start ≡ (s.current_pid + 1) % max_processes
    → ((j : ℕ) → j < max_processes → turn s.current_pid j < k → can_run s j ≡ false)
    → (i : ℕ) × (schedule_loop fuel s next start ≡ some (run s i)) × Picks s i
unfolding schedule_loop
schedule_loop-Picks zero k s next start c f p n t st before = absurd (omega arith)
schedule_loop-Picks (suc fuel) k s next start c f p n t st before =
    elim (Bool-cases (can_run s next)) [
      | inl y ↦ (next, rw y refl, inl (n, y, λ j l lt. before j l (omega arith)))
      | inr not_this ↦
          let passed : (j : ℕ)
              → j < max_processes
              → turn s.current_pid j < suc k
              → can_run s j ≡ false =
            λ j l lt. elim (Bool-cases (j == next)) [
              | inl y ↦ subst (λ x. can_run s x ≡ false) (ground arith) not_this
              | inr other ↦ before j l (ground arith)
            ] in
          elim (Bool-cases ((next + 1) % max_processes == start)) [
            | inl y ↦ (0, rw (not_this, y) refl, inr (refl, λ i l. passed i l (ground arith)))
            | inr more ↦
                let r =
                  schedule_loop-Picks fuel (suc k) s ((next + 1) % max_processes) start c
                    (omega arith) (ground arith) (omega arith) (ground arith) st passed in
                (r.0, rw (not_this, more) r.1, r.2)
          ]
    ]

-- Scheduling ends, whatever the table holds: it runs the first process that can run, in the round that
-- begins behind the current process and ends with it, or the idle process if none can.
pub schedule-Picks :
    (s : Kernel)
    → s.current_pid < max_processes
    → (i : ℕ) × (schedule s ≡ some (run s i)) × Picks s i
unfolding schedule
schedule-Picks s c =
    let next = (s.current_pid + 1) % max_processes in
    schedule_loop-Picks max_processes 0 s next next c (omega arith) (omega arith) (omega arith)
      (omega arith) refl (λ j l lt. absurd (omega arith))

-- The switch to process `i` changes whether a process can run only for a process that could not.
pub can_run-run :
    (s : Kernel) (i j : ℕ)
    → i < length s.processes
    → can_run s j ≡ true
    → can_run (run s i) j ≡ true
can_run-run s i j lt y = elim (Bool-cases (i == j)) [
  | inl same ↦
      let e : i ≡ j = ground arith in
      let p = record (process s i) { state = State.running } in
      subst (λ k. runnable (get_or (set s.processes i p) k zeroed).state ≡ true) e
        (ap (λ q. runnable q.state) (get_or-set_self s.processes i p zeroed lt))
  | inr other ↦
      ap (λ q. runnable q.state)
        (get_or-set_ne s.processes i j (record (process s i) { state = State.running }) zeroed
          (ground arith))
      ∙ y
]

-- The kernel after `n` switches.
pub schedules : ℕ → Kernel → Option Kernel
schedules zero s = some s
schedules (suc n) s = elim (schedule s) [ none ↦ none | some t ↦ schedules n t ]

-- Process `i` is current after at least one and at most `n` switches.
abbrev pub RunsWithin : ℕ → Kernel → ℕ → Type 0
RunsWithin n s i =
    (m : ℕ) × (t : Kernel) × (0 < m) × (m ≤ n) × (schedules m s ≡ some t) × (t.current_pid ≡ i)

schedules-suc :
    (n : ℕ) (s t u : Kernel)
    → schedule s ≡ some t
    → schedules n t ≡ some u
    → schedules (suc n) s ≡ some u
unfolding schedules
schedules-suc n s t u e h = ap (λ o. elim o [ none ↦ none | some t ↦ schedules n t ]) e ∙ h

runs_within :
    (n : ℕ) (s : Kernel) (i : ℕ)
    → s.current_pid < max_processes
    → length s.processes ≡ max_processes
    → i < max_processes
    → can_run s i ≡ true
    → turn s.current_pid i < n
    → RunsWithin n s i
unfolding schedules
runs_within zero s i c l lt y h = absurd (omega arith)
runs_within (suc n) s i c l lt y h =
    let picked = schedule-Picks s c in
    elim picked.2 [
      | inl next ↦ elim (Bool-cases (picked.0 == i)) [
        | inl same ↦ (
          1,
          run s picked.0,
          omega arith,
          omega arith,
          schedules-suc 0 s (run s picked.0) (run s picked.0) picked.1 refl,
          ground arith,
        )
        | inr other ↦
            let sooner : turn s.current_pid picked.0 < turn s.current_pid i =
              ground (arith, next.2 i lt) in
            let r =
              runs_within n (run s picked.0) i next.0 (length-set s.processes picked.0 _ ∙ l) lt
                (can_run-run s picked.0 i (omega (arith, next.0)) y) (omega (arith, next.0)) in
            (
              suc r.0,
              r.1,
              omega arith,
              omega (arith, r.3),
              schedules-suc r.0 s (run s picked.0) r.1 picked.1 r.4,
              r.5,
            )
      ]
      | inr idle ↦ let never = idle.1 i lt in cc
    ]

-- A process that can run is the current one after at most 32 switches, if nothing but the scheduler acts.
pub schedules_fair :
    (s : Kernel) (i : ℕ)
    → s.current_pid < max_processes
    → length s.processes ≡ max_processes
    → i < max_processes
    → can_run s i ≡ true
    → RunsWithin max_processes s i
schedules_fair s i c l lt y = runs_within max_processes s i c l lt y (omega arith)
