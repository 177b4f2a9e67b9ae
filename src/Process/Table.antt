-- ===== src/Process/Table.antt =====
-- The well-formed process tables of kernel/process.c, with slots used in order and process `i` in slot `i`.
use krnel.Base.{
  ℕ, suc, ◌≤◌, ◌<◌, ◌≡◌, ◌≢◌, refl, ◌∙◌, sym, ap, subst, Bool, true, false, none, some, ◌∷◌, ◌==◌,
  ltb, leb, length, get_or, length-set, get_or-set_self, get_or-set_ne, length-replicate, replicate,
  get_or-replicate, ◌++◌, drop, arith, Bool-cases, inl, inr, ◌⊎◌,
}
use krnel.Base.Int.{ℤ, pos, negsuc}
use krnel.CString.{Buffer, text, terminated, strcpy}
use krnel.CString.Copy.{strcpy_fits}
use krnel.Process.{
  max_processes, State, Process, Kernel, process, put_process, zeroed, new_process, add_process,
  runnable, run, schedule, proc_create_user, proc_init, proc_exit, proc_get_pid, idle_table,
  ksh_name,
}
use krnel.Process.Schedule.{schedule-Picks, can_run}

pub record IsTable (s : Kernel) : Type 0 where
  pub count : length s.processes ≡ max_processes
  pub current_lt : s.current_pid < s.next_pid
  pub next_le : s.next_pid ≤ max_processes
  pub pids : (i : ℕ) → i < s.next_pid → (process s i).pid ≡ i
  pub free : (i : ℕ) → s.next_pid ≤ i → (process s i).state ≡ State.unused

process-put_self :
    (s : Kernel) (i : ℕ) (p : Process) → i < length s.processes → process (put_process s i p) i ≡ p
process-put_self s i p lt = get_or-set_self s.processes i p zeroed lt

process-put_ne :
    (s : Kernel) (i j : ℕ) (p : Process) → i ≢ j → process (put_process s i p) j ≡ process s j
process-put_ne s i j p ne = get_or-set_ne s.processes i j p zeroed ne

-- A change of a process in use that keeps its pid.
pub put_IsTable :
    (s : Kernel) (i : ℕ) (p : Process)
    → IsTable s
    → i < s.next_pid
    → p.pid ≡ i
    → IsTable (put_process s i p)
put_IsTable s i p v lt e = record {
  count = length-set s.processes i p ∙ v.count;
  current_lt = v.current_lt;
  next_le = v.next_le;
  pids = λ j j_lt. elim (Bool-cases (i == j)) [
    | inl y ↦
        subst (λ k. (process (put_process s i p) k).pid ≡ k) (ground arith)
          (ap (λ q. q.pid) (process-put_self s i p (omega (arith, v.count, v.next_le))) ∙ e)
    | inr other ↦ ap (λ q. q.pid) (process-put_ne s i j p (ground arith)) ∙ v.pids j j_lt
  ];
  free = λ j le. ap (λ q. q.state) (process-put_ne s i j p (omega arith)) ∙ v.free j le;
}

current_IsTable :
    (s : Kernel) (i : ℕ) → IsTable s → i < s.next_pid → IsTable (record s { current_pid = i })
current_IsTable s i v lt = record {
  count = v.count;
  current_lt = lt;
  next_le = v.next_le;
  pids = v.pids;
  free = v.free;
}

-- Only a process in use can run.
can_run_lt : (s : Kernel) (i : ℕ) → IsTable s → can_run s i ≡ true → i < s.next_pid
can_run_lt s i v y = elim (Bool-cases (ltb i s.next_pid)) [
  | inl lt ↦ ground arith
  | inr ge ↦ let never : can_run s i ≡ false = ap runnable (v.free i (ground arith)) in cc
]

-- Scheduling ends on any well-formed table, and keeps it well-formed.
pub schedule-IsTable : (s : Kernel) → IsTable s → (t : Kernel) × (schedule s ≡ some t) × IsTable t
schedule-IsTable s v =
    let (i, e, picks) = schedule-Picks s (omega (arith, v.current_lt, v.next_le)) in
    let lt : i < s.next_pid = elim picks [
      | inl next ↦ can_run_lt s i v next.1
      | inr idle ↦ omega (arith, idle.0, v.current_lt)
    ] in
    (
      run s i,
      e,
      current_IsTable (put_process s i (record (process s i) { state = State.running })) i
          (put_IsTable s i (record (process s i) { state = State.running }) v lt (v.pids i lt)) lt,
    )

add_IsTable :
    (s : Kernel) (p : Process)
    → IsTable s
    → s.next_pid < max_processes
    → p.pid ≡ s.next_pid
    → IsTable (add_process s p)
add_IsTable s p v room e =
    let n = s.next_pid in
    let kept : (i : ℕ) → n ≢ i → process (add_process s p) i ≡ process s i =
      λ i ne. get_or-set_ne s.processes n i p zeroed ne in
    record {
      count = length-set s.processes n p ∙ v.count;
      current_lt = omega (arith, v.current_lt);
      next_le = omega arith;
      pids = λ i lt. elim (Bool-cases (n == i)) [
        | inl y ↦
            subst (λ k. (process (add_process s p) k).pid ≡ k) (ground arith)
              (ap (λ q. q.pid) (get_or-set_self s.processes n p zeroed (omega (arith, v.count)))
                ∙ e)
        | inr other ↦ ap (λ q. q.pid) (kept i (ground arith)) ∙ v.pids i (ground arith)
      ];
      free = λ i le. ap (λ q. q.state) (kept i (omega arith)) ∙ v.free i (omega arith);
    }

created :
    (stack_top : ℕ → ℕ) (s : Kernel) (name : Buffer) (entry : ℕ) (is_user : Bool) (copied : Buffer)
    → leb max_processes s.next_pid ≡ false
    → strcpy zeroed.name name ≡ some copied
    → proc_create_user stack_top s name entry is_user
      ≡ some (add_process s (new_process stack_top s entry is_user copied), pos s.next_pid)
unfolding proc_create_user
created stack_top s name entry is_user copied room fits = rw (room, fits) refl

-- Creating a process on a well-formed table keeps it well-formed and never fails but for a name that does
-- not fit. With 31 processes created the answer is -1 and nothing changes; else it is the next number,
-- under which there is now a ready process, and every other process is as it was.
pub proc_create_user-IsTable :
    (stack_top : ℕ → ℕ) (s : Kernel) (name : Buffer) (entry : ℕ) (is_user : Bool)
    → IsTable s
    → terminated name ≡ true
    → length (text name) < 32
    → (t : Kernel) × (r : ℤ) × (proc_create_user stack_top s name entry is_user ≡ some (t, r))
      × IsTable t
      × ((s.next_pid ≡ max_processes) × (r ≡ negsuc 0) × (t ≡ s)
          ⊎ (r ≡ pos s.next_pid)
            × ((process t s.next_pid).state ≡ State.ready)
            × ((process t s.next_pid).eip ≡ entry)
            × ((i : ℕ) → i ≢ s.next_pid → process t i ≡ process s i))
unfolding proc_create_user
proc_create_user-IsTable stack_top s name entry is_user v z short =
    elim (Bool-cases (leb max_processes s.next_pid)) [
      | inl full ↦ (s, negsuc 0, rw full refl, v, inl (ground (arith, v.next_le), refl, refl))
      | inr room ↦
          let copied = text name ++ 0 ∷ drop (suc (length (text name))) zeroed.name in
          let fits : strcpy zeroed.name name ≡ some copied = strcpy_fits zeroed.name name z short in
          let p = new_process stack_top s entry is_user copied in
          let kept : (i : ℕ) → i ≢ s.next_pid → process (add_process s p) i ≡ process s i =
            λ i ne. get_or-set_ne s.processes s.next_pid i p zeroed (λ e. ne (sym e)) in
          let own : process (add_process s p) s.next_pid ≡ p =
            get_or-set_self s.processes s.next_pid p zeroed (ground (arith, v.count)) in
          (
            add_process s p,
            pos s.next_pid,
            created stack_top s name entry is_user copied room fits,
            add_IsTable s p v (ground arith) refl,
            inr (refl, ap (λ q. q.state) own, ap (λ q. q.eip) own, kept),
          )
    ]

-- A kernel as it is linked: no process is made yet.
abbrev pub IsFresh : Kernel → Type 0
IsFresh s = (s.current_pid ≡ 0) × (s.next_pid ≡ 1)

idle_table-IsTable : (s : Kernel) → IsFresh s → IsTable (record s { processes = idle_table })
idle_table-IsTable s f =
    let idle = get_or idle_table 0 zeroed in
    let empty = replicate max_processes zeroed in
    record {
      count = length-set empty 0 idle ∙ length-replicate max_processes zeroed;
      current_lt = omega (arith, f.0, f.1);
      next_le = omega (arith, f.1);
      pids = λ i lt.
          let first : 0 ≡ i = omega (arith, f.1) in
          subst (λ k. (get_or idle_table k zeroed).pid ≡ k) first refl;
      free = λ i le.
          ap (λ q. q.state)
            (get_or-set_ne empty 0 i idle zeroed (omega (arith, f.1))
              ∙ get_or-replicate max_processes i zeroed);
    }

-- `proc_init` succeeds and makes a well-formed table, with the idle process current and process 1 ready.
pub proc_init-IsTable :
    (stack_top : ℕ → ℕ) (s : Kernel)
    → IsFresh s
    → (t : Kernel) × (proc_init stack_top s ≡ some t)
      × IsTable t
      × (t.current_pid ≡ 0)
      × (can_run t 1 ≡ true)
unfolding proc_init
proc_init-IsTable stack_top s f =
    let s0 = record s { processes = idle_table } in
    let v = idle_table-IsTable s f in
    let copied = text ksh_name ++ 0 ∷ drop 4 zeroed.name in
    let p = new_process stack_top s0 0 true copied in
    let made =
      created stack_top s0 ksh_name 0 true copied (ground (arith, f.1))
        (strcpy_fits zeroed.name ksh_name refl (omega arith)) in
    (
      add_process s0 p,
      ap (λ o. elim o [ none ↦ none | some r ↦ some r.0 ]) made,
      add_IsTable s0 p v (omega (arith, f.1)) refl,
      f.0,
      subst (λ k. can_run (add_process s0 p) k ≡ true) f.1
          (ap (λ q. runnable q.state)
            (get_or-set_self idle_table s.next_pid p zeroed (omega (arith, f.1, v.count)))),
    )

-- Ending the current process keeps the table well-formed, if the interrupt of `proc_yield` does.
pub proc_exit-IsTable :
    (yield : Kernel → Kernel) (s : Kernel)
    → ((s : Kernel) → IsTable s → IsTable (yield s))
    → IsTable s
    → IsTable (proc_exit yield s)
unfolding proc_exit
proc_exit-IsTable yield s keeps v =
    let i = s.current_pid in
    let p = record (process s i) { state = State.zombie } in
    keeps (put_process s i p) (put_IsTable s i p v v.current_lt (v.pids i v.current_lt))

-- On a well-formed table the pid of the current process is its place.
pub proc_get_pid_lem : (s : Kernel) → IsTable s → proc_get_pid s ≡ s.current_pid
unfolding proc_get_pid
proc_get_pid_lem s v = v.pids s.current_pid v.current_lt
