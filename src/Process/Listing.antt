-- ===== src/Process/Listing.antt =====
-- `proc_get_list` of kernel/process.c, which prints the process table.
use krnel.Base.{
  ℕ, zero, suc, ◌+◌, ◌-◌, ◌≡◌, refl, Bool, true, false, Option, none, some, List, [], ◌∷◌, ◌++◌,
  take, drop, if◌then◌else◌,
}
use krnel.Base.Int.{pos}
use krnel.CString.{Buffer}
use krnel.CString.Format.{Arg, vsnprintf}
use krnel.Process.{max_processes, State, Process, Kernel, process}

-- "  PID PPID STATE     USER COMMAND\n"
abbrev pub titles : Buffer
titles =
    b' ' ∷ b' ' ∷ b'P' ∷ b'I' ∷ b'D' ∷ b' ' ∷ b'P' ∷ b'P' ∷ b'I' ∷ b'D' ∷ b' ' ∷ b'S' ∷ b'T' ∷ b'A'
    ∷ b'T' ∷ b'E' ∷ b' ' ∷ b' ' ∷ b' ' ∷ b' ' ∷ b' ' ∷ b'U' ∷ b'S' ∷ b'E' ∷ b'R' ∷ b' ' ∷ b'C'
    ∷ b'O' ∷ b'M' ∷ b'M' ∷ b'A' ∷ b'N' ∷ b'D' ∷ b'\n' ∷ 0 ∷ []

-- "--------------------------------\n"
abbrev pub dashes : Buffer
dashes =
    b'-' ∷ b'-' ∷ b'-' ∷ b'-' ∷ b'-' ∷ b'-' ∷ b'-' ∷ b'-' ∷ b'-' ∷ b'-' ∷ b'-' ∷ b'-' ∷ b'-' ∷ b'-'
    ∷ b'-' ∷ b'-' ∷ b'-' ∷ b'-' ∷ b'-' ∷ b'-' ∷ b'-' ∷ b'-' ∷ b'-' ∷ b'-' ∷ b'-' ∷ b'-' ∷ b'-'
    ∷ b'-' ∷ b'-' ∷ b'-' ∷ b'-' ∷ b'-' ∷ b'\n' ∷ 0 ∷ []

-- "%5d %5d %s %5d %s\n"
abbrev pub row_format : Buffer
row_format =
    b'%' ∷ b'5' ∷ b'd' ∷ b' ' ∷ b'%' ∷ b'5' ∷ b'd' ∷ b' ' ∷ b'%' ∷ b's' ∷ b' ' ∷ b'%' ∷ b'5' ∷ b'd'
    ∷ b' ' ∷ b'%' ∷ b's' ∷ b'\n' ∷ 0 ∷ []

-- `state_str`; a slot that is not used is never printed.
abbrev pub state_text : State → Buffer
state_text State.ready = b'R' ∷ b'E' ∷ b'A' ∷ b'D' ∷ b'Y' ∷ b' ' ∷ b' ' ∷ b' ' ∷ 0 ∷ []
state_text State.running = b'R' ∷ b'U' ∷ b'N' ∷ b'N' ∷ b'I' ∷ b'N' ∷ b'G' ∷ b' ' ∷ 0 ∷ []
state_text State.waiting = b'W' ∷ b'A' ∷ b'I' ∷ b'T' ∷ b'I' ∷ b'N' ∷ b'G' ∷ b' ' ∷ 0 ∷ []
state_text State.zombie = b'Z' ∷ b'O' ∷ b'M' ∷ b'B' ∷ b'I' ∷ b'E' ∷ b' ' ∷ b' ' ∷ 0 ∷ []
state_text State.unused = b'U' ∷ b'N' ∷ b'K' ∷ b'N' ∷ b'O' ∷ b'W' ∷ b'N' ∷ b' ' ∷ 0 ∷ []

abbrev pub is_unused : State → Bool
is_unused State.unused = true
is_unused _ = false

-- `pos += snprintf(buffer + pos, size - pos, …)`; `size - pos` never wraps, since each call writes less than
-- its size.
abbrev pub print_at : ℕ → Buffer → List Arg → Buffer × ℕ → Option (Buffer × ℕ)
print_at size format args (buffer, at) = elim (vsnprintf (drop at buffer) (size - at) format args) [
  | none ↦ none
  | some r ↦ some (take at buffer ++ r.0, at + r.1)
]

abbrev pub row_args : Process → List Arg
row_args p =
    Arg.int (pos p.pid)
    ∷ Arg.int (pos p.ppid)
    ∷ Arg.string (some (state_text p.state))
    ∷ Arg.int (pos p.uid)
    ∷ Arg.string (some p.name)
    ∷ []

pub print_rows : ℕ → Kernel → ℕ → ℕ → Buffer × ℕ → Option (Buffer × ℕ)
print_rows zero s size i r = some r
print_rows (suc n) s size i r =
    let p = process s i in
    if is_unused p.state
    then print_rows n s size (i + 1) r
    else elim (print_at size row_format (row_args p) r) [
      | none ↦ none
      | some r' ↦ print_rows n s size (i + 1) r'
    ]

-- The buffer, and how many bytes it holds in front of the NUL.
abbrev pub proc_get_list : Kernel → Buffer → ℕ → Option (Buffer × ℕ)
proc_get_list s buffer size = elim (print_at size titles [] (buffer, 0)) [
  | none ↦ none
  | some r ↦ elim (print_at size dashes [] r) [
    | none ↦ none
    | some r' ↦ print_rows max_processes s size 0 r'
  ]
]

-- Without room for a byte nothing is printed.
test_print_rows :
    print_rows 0 (record { processes = []; current_pid = 0; next_pid = 1; uptime = 0 }) 0 0 ([], 0)
    ≡ some ([], 0)
unfolding print_rows
test_print_rows = refl
