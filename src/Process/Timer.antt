-- ===== src/Process/Timer.antt =====
-- `timer_handler` of kernel/process.c: the time slices.
use krnel.Base.{
  ℕ, zero, suc, ◌+◌, ◌%◌, ◌^◌, ◌≤◌, ◌<◌, ◌≡◌, ◌≢◌, refl, ◌∙◌, sym, ap, subst, true, false, Option,
  none, some, ◌==◌, leb, length, length-set, get_or-set_self, get_or-set_ne, arith, Bool-cases, inl,
  inr,
}
use krnel.Process.{
  time_slice, State, Process, Kernel, process, put_process, zeroed, schedule, timer_handler,
}
use krnel.Process.Table.{IsTable, put_IsTable, schedule-IsTable}

abbrev pub tick : Kernel → Kernel
tick s = record s { uptime = (s.uptime + 1) % 2 ^ 32 }

abbrev pub with_time : Process → ℕ → Process
with_time p n = record p { time_used = n }

abbrev pub stop : Process → Process
stop p = record p { state = State.ready; time_used = 0 }

abbrev pub used : Kernel → ℕ
used s = ((process s s.current_pid).time_used + 1) % 2 ^ 32

-- The current process is charged for a tick, or stopped.
abbrev pub charged : Kernel → Kernel
charged s =
    put_process (tick s) s.current_pid (record (process s s.current_pid) { time_used = used s })

abbrev pub stopped : Kernel → Kernel
stopped s =
    put_process (tick s) s.current_pid
      (record (process s s.current_pid) { state = State.ready; time_used = 0 })

timer_idle : (s : Kernel) → (process s s.current_pid).pid ≡ 0 → timer_handler s ≡ some (tick s)
unfolding timer_handler
timer_idle s e = let w : ((process s s.current_pid).pid == 0) ≡ true = ground arith in rw w refl

timer_charge :
    (s : Kernel)
    → (process s s.current_pid).pid ≢ 0
    → used s < time_slice
    → timer_handler s ≡ some (charged s)
unfolding timer_handler
timer_charge s ne lt =
    let w : ((process s s.current_pid).pid == 0) ≡ false = ground arith in
    let w' : leb time_slice (used s) ≡ false = ground arith in rw (w, w') refl

timer_stop :
    (s : Kernel)
    → (process s s.current_pid).pid ≢ 0
    → time_slice ≤ used s
    → timer_handler s ≡ schedule (stopped s)
unfolding timer_handler
timer_stop s ne le =
    let w : ((process s s.current_pid).pid == 0) ≡ false = ground arith in
    let w' : leb time_slice (used s) ≡ true = ground arith in rw (w, w') refl

tick-IsTable : (s : Kernel) → IsTable s → IsTable (tick s)
tick-IsTable s v = record {
  count = v.count;
  current_lt = v.current_lt;
  next_le = v.next_le;
  pids = v.pids;
  free = v.free;
}

-- A tick of the timer is handled on any well-formed table, and keeps it well-formed.
pub timer_handler-IsTable :
    (s : Kernel) → IsTable s → (t : Kernel) × (timer_handler s ≡ some t) × IsTable t
timer_handler-IsTable s v =
    let i = s.current_pid in
    let v' = tick-IsTable s v in
    let own = v.pids i v.current_lt in
    elim (Bool-cases ((process s i).pid == 0)) [
      | inl y ↦ (tick s, timer_idle s (ground arith), v')
      | inr user ↦
          let ne : (process s i).pid ≢ 0 = ground arith in
          elim (Bool-cases (leb time_slice (used s))) [
            | inl over ↦
                let p = record (process s i) { state = State.ready; time_used = 0 } in
                let r =
                  schedule-IsTable (stopped s) (put_IsTable (tick s) i p v' v.current_lt own) in
                (r.0, timer_stop s ne (ground arith) ∙ r.1, r.2)
            | inr more ↦ (
              charged s,
              timer_charge s ne (ground arith),
              put_IsTable (tick s) i (record (process s i) { time_used = used s }) v' v.current_lt
                  own,
            )
          ]
    ]

-- The kernel after `n` ticks.
pub ticks : ℕ → Kernel → Option Kernel
ticks zero s = some s
ticks (suc n) s = elim (timer_handler s) [ none ↦ none | some t ↦ ticks n t ]

ticks-suc :
    (n : ℕ) (s t : Kernel) (u : Option Kernel)
    → timer_handler s ≡ some t
    → ticks n t ≡ u
    → ticks (suc n) s ≡ u
unfolding ticks
ticks-suc n s t u e h = ap (λ o. elim o [ none ↦ none | some t ↦ ticks n t ]) e ∙ h

-- What ticks may change of the table: the current process, which is `p` now.
abbrev pub OnlyCurrent : Kernel → Process → Kernel → Type 0
OnlyCurrent s p t =
    (t.current_pid ≡ s.current_pid)
    × (length t.processes ≡ length s.processes)
    × (process t s.current_pid ≡ p)
    × ((j : ℕ) → s.current_pid ≢ j → process t j ≡ process s j)

put_OnlyCurrent :
    (s : Kernel) (p : Process)
    → s.current_pid < length s.processes
    → OnlyCurrent s p (put_process (tick s) s.current_pid p)
put_OnlyCurrent s p lt = (
  refl,
  length-set s.processes s.current_pid p,
  get_or-set_self s.processes s.current_pid p zeroed lt,
  λ j ne. get_or-set_ne s.processes s.current_pid j p zeroed ne,
)

OnlyCurrent-then :
    (s t u : Kernel) (p q : Process) → OnlyCurrent s p t → OnlyCurrent t q u → OnlyCurrent s q u
OnlyCurrent-then s t u p q a b = (
  b.0 ∙ a.0,
  b.1 ∙ a.1,
  subst (λ i. process u i ≡ q) a.0 b.2,
  λ j ne. b.3 j (λ e. ne (sym a.0 ∙ e)) ∙ a.3 j ne,
)

-- Within its time slice a process that is not idle is charged for each tick and stays the current one.
pub ticks_charge :
    (n : ℕ) (s : Kernel)
    → s.current_pid < length s.processes
    → (process s s.current_pid).pid ≢ 0
    → (process s s.current_pid).time_used + n < time_slice
    → (t : Kernel) × (ticks n s ≡ some t)
      × OnlyCurrent s
          (with_time (process s s.current_pid) ((process s s.current_pid).time_used + n))
          t
unfolding ticks
ticks_charge zero s c ne lt = (
  s,
  refl,
  (
    refl,
    refl,
    ap (λ u. record (process s s.current_pid) { time_used = u }) (omega arith),
    λ j h. refl,
  ),
)
ticks_charge (suc n) s c ne lt =
    let p = process s s.current_pid in
    let q = record p { time_used = used s } in
    let one = put_OnlyCurrent s q c in
    let r =
      ticks_charge n (charged s) (omega (arith, one.1)) (subst (λ x. x.pid ≢ 0) (sym one.2) ne)
        (subst (λ x. x.time_used + n < time_slice) (sym one.2) (omega arith)) in
    (
      r.0,
      ticks-suc n s (charged s) (some r.0) (timer_charge s ne (omega arith)) r.1,
      subst (λ x. OnlyCurrent s x r.0)
          (ap (λ x. with_time x (x.time_used + n)) one.2 ∙ ap (with_time p) (omega arith))
          (OnlyCurrent-then s (charged s) r.0 q
            (with_time (process (charged s) s.current_pid)
              ((process (charged s) s.current_pid).time_used + n))
            one r.2),
    )

some_again : (o : Option Kernel) → (elim o [ none ↦ none | some t ↦ some t ]) ≡ o
some_again none = refl
some_again (some t) = refl

ticks_one : (s : Kernel) → ticks 1 s ≡ timer_handler s
unfolding ticks
ticks_one s = some_again (timer_handler s)

slice :
    (n : ℕ) (s : Kernel)
    → s.current_pid < length s.processes
    → (process s s.current_pid).pid ≢ 0
    → (process s s.current_pid).time_used + suc n ≡ time_slice
    → (t : Kernel) × (ticks (suc n) s ≡ schedule t)
      × OnlyCurrent s (stop (process s s.current_pid)) t
slice zero s c ne e = (
  stopped s,
  ticks_one s ∙ timer_stop s ne (omega arith),
  put_OnlyCurrent s (stop (process s s.current_pid)) c,
)
slice (suc n) s c ne e =
    let q = with_time (process s s.current_pid) (used s) in
    let one = put_OnlyCurrent s q c in
    let (t, r, changed) =
      slice n (charged s) (omega (arith, one.1)) (subst (λ x. x.pid ≢ 0) (sym one.2) ne)
        (subst (λ x. x.time_used + suc n ≡ time_slice) (sym one.2) (omega arith)) in
    (
      t,
      ticks-suc (suc n) s (charged s) (schedule t) (timer_charge s ne (omega arith)) r,
      subst (λ x. OnlyCurrent s x t) (ap stop one.2)
          (OnlyCurrent-then s (charged s) t q (stop (process (charged s) s.current_pid)) one
            changed),
    )

-- A process that is not idle and begins its time slice runs for ten ticks, then the scheduler is called with
-- the process ready, its slice reset, and the rest of the table as it was.
pub ticks_slice :
    (s : Kernel)
    → s.current_pid < length s.processes
    → (process s s.current_pid).pid ≢ 0
    → (process s s.current_pid).time_used ≡ 0
    → (t : Kernel) × (ticks time_slice s ≡ schedule t)
      × OnlyCurrent s (stop (process s s.current_pid)) t
ticks_slice s c ne fresh = slice 9 s c ne (omega arith)
