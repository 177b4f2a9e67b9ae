-- ===== src/Tty.antt =====
-- kernel/tty.c: four terminals on one screen, each with a saved screen and a ring of input bytes.
pub mod Input
pub mod Switch
mod Tests
use krnel.Base.{
  ℕ, zero, suc, ◌+◌, ◌-◌, ◌*◌, ◌%◌, ◌^◌, ◌≡◌, Bool, true, false, ◌||◌, Option, none, some, List, [],
  ◌∷◌, ◌++◌, ◌==◌, leb, if◌then◌else◌, length, get_or, set, replicate,
}
use krnel.Base.Int.{ℤ, pos, negsuc, low_byte}
use krnel.Vga
use krnel.Vga.{Screen, screen_cells, vga_set_pos, vga_write}

abbrev pub max_ttys : ℕ
max_ttys = 4

abbrev pub tty_buf_size : ℕ
tty_buf_size = 1024

-- `struct tty`. The ring's indices are never negative in the code.
pub record Tty : Type 0 where
  pub id : ℕ
  pub input_buf : List ℕ
  pub in_head : ℕ
  pub in_tail : ℕ
  pub screen_buf : List ℕ
  pub cursor_x : ℕ
  pub cursor_y : ℕ
  pub active : Bool

pub record Console : Type 0 where
  pub ttys : List Tty
  pub current_tty : ℕ
  pub screen : Screen

-- What a terminal out of the table would hold: it is never read.
abbrev pub no_tty : Tty
no_tty = record {
  id = 0;
  input_buf = [];
  in_head = 0;
  in_tail = 0;
  screen_buf = [];
  cursor_x = 0;
  cursor_y = 0;
  active = false;
}

abbrev pub tty : Console → ℕ → Tty
tty s i = get_or s.ttys i no_tty

-- `for (i = 0; i < SCREEN_WIDTH * SCREEN_HEIGHT; i++) to[i] = from[i];`
pub copy_cells : ℕ → List ℕ → List ℕ → ℕ → List ℕ
copy_cells zero to from i = to
copy_cells (suc n) to from i = copy_cells n (set to i (get_or from i 0)) from (i + 1)

pub tty_save_screen : Screen → Tty → Tty
tty_save_screen s t = record t {
  screen_buf = copy_cells screen_cells t.screen_buf s.video 0;
  cursor_x = s.cursor_x;
  cursor_y = s.cursor_y;
}

pub tty_restore_screen : Tty → Screen → Screen
tty_restore_screen t s =
    vga_set_pos (record s { video = copy_cells screen_cells s.video t.screen_buf 0 })
      (pos t.cursor_x) (pos t.cursor_y)

-- One round of the loop of `tty_init`; `(COLOUR_WHITE << 8) | ' '` is 0x0F20.
abbrev pub fresh_tty : Tty → ℕ → Tty
fresh_tty t i = record t {
  id = i;
  in_head = 0;
  in_tail = 0;
  cursor_x = 0;
  cursor_y = 0;
  active = i == 0;
  screen_buf = replicate screen_cells 0x0F20;
}

pub init_loop : ℕ → List Tty → ℕ → List Tty
init_loop zero ts i = ts
init_loop (suc n) ts i = init_loop n (set ts i (fresh_tty (get_or ts i no_tty) i)) (i + 1)

pub tty_init : Console → Console
tty_init s =
    let ts = init_loop max_ttys s.ttys 0 in
    record s { ttys = set ts 0 (tty_save_screen s.screen (get_or ts 0 no_tty)) }

-- The function of kernel/shell.c that `tty_switch` ends by calling.
pub data ShellCall : Type 0 where
  prompt_redraw : ShellCall
  init : ShellCall

-- The part of `tty_switch` between its guard and its call of the shell.
pub swap_screens : Console → ℕ → Console
swap_screens s n =
    let ts = set s.ttys s.current_tty (tty_save_screen s.screen (tty s s.current_tty)) in
    record { ttys = ts; current_tty = n; screen = tty_restore_screen (get_or ts n no_tty) s.screen }

-- The state in which `tty_switch` hands over to the shell, and the call that it makes there; `none` if it returns
-- at its guard. `logged_in` is what `shell_logged_in` answers.
unfoldable pub tty_switch : Bool → Console → ℤ → Console × Option ShellCall
tty_switch logged_in s (negsuc n) = (s, none)
tty_switch logged_in s (pos n) =
    if leb max_ttys n || n == s.current_tty
    then (s, none)
    else (swap_screens s n, some (if logged_in then ShellCall.prompt_redraw else ShellCall.init))

abbrev pub tty_write : Screen → List ℕ → ℕ → Screen
tty_write s [] color = s
tty_write s (c ∷ str) color = tty_write (Vga.putchar s c color) str color

-- `tty_getc` on the current terminal: 0 if its ring is empty.
pub getc : Tty → Tty × ℕ
getc t =
    if t.in_head == t.in_tail
    then (t, 0)
    else (record t { in_tail = (t.in_tail + 1) % tty_buf_size }, get_or t.input_buf t.in_tail 0)

abbrev pub tty_getc : Console → Console × ℕ
tty_getc s =
    let (t, c) = getc (tty s s.current_tty) in (record s { ttys = set s.ttys s.current_tty t }, c)

-- `tty_feed_key` on the current terminal: a full ring drops the key.
pub feed : Tty → ℤ → Tty
feed t key =
    let next = (t.in_head + 1) % tty_buf_size in
    if next == t.in_tail
    then t
    else record t { input_buf = set t.input_buf t.in_head (low_byte key); in_head = next }

abbrev pub tty_feed_key : Console → ℤ → Console
tty_feed_key s key = record s { ttys = set s.ttys s.current_tty (feed (tty s s.current_tty) key) }

-- The loop of `tty_read` with room for `n` more bytes, and the bytes it has taken; `none`: the ring is empty
-- and the loop waits.
abbrev pub read_bytes : ℕ → Tty → Option (Tty × List ℕ)
read_bytes zero t = some (t, [])
read_bytes (suc n) t =
    let (t', c) = getc t in
    let rest = read_bytes n t' in
    if c == 0
    then none
    else if c == b'\n' || c == b'\r'
    then some (t', [])
    else elim rest [ none ↦ none | some r ↦ some (r.0, c ∷ r.1) ]

-- `tty_read` on the current terminal: the bytes put into the buffer, and their number without the NUL.
abbrev pub tty_read : Console → ℕ → Option (Console × List ℕ × ℕ)
tty_read s zero = some (s, [], 0)
tty_read s (suc n) = elim (read_bytes n (tty s s.current_tty)) [
  | none ↦ none
  | some r ↦ some (record s { ttys = set s.ttys s.current_tty r.0 }, r.1 ++ 0 ∷ [], length r.1)
]
