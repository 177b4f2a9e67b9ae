-- ===== src/Keyboard.antt =====
-- kernel/keyboard.c: from scan codes to characters, with the modifier keys and the terminal switches.
pub mod Read
mod Tests
use krnel.Base.{
  ℕ, ◌+◌, ◌-◌, ◌/◌, ◌%◌, ◌≡◌, Bool, true, false, not, ◌&&◌, ◌||◌, Option, none, some, List, [], ◌∷◌,
  ◌==◌, leb, if◌then◌else◌, get_or,
}
use krnel.Base.Int.{ℤ, pos, negsuc}
use krnel.Tty.{Console, ShellCall, tty_switch, tty_feed_key}

-- The variables of the file, and the terminals that `read_key` feeds and switches.
pub record Keyboard : Type 0 where
  pub shift_pressed : Bool
  pub caps_lock : Bool
  pub ctrl_pressed : Bool
  pub alt_pressed : Bool
  pub console : Console

-- The maps end in NULs up to 128 entries; a scan code that indexes them is below 128.
abbrev pub keymap_normal : List ℕ
keymap_normal =
    0 ∷ 0 ∷ b'1' ∷ b'2' ∷ b'3' ∷ b'4' ∷ b'5' ∷ b'6' ∷ b'7' ∷ b'8' ∷ b'9' ∷ b'0' ∷ b'-' ∷ b'=' ∷ 8
    ∷ b'\t' ∷ b'q' ∷ b'w' ∷ b'e' ∷ b'r' ∷ b't' ∷ b'y' ∷ b'u' ∷ b'i' ∷ b'o' ∷ b'p' ∷ b'[' ∷ b']'
    ∷ b'\n' ∷ 0 ∷ b'a' ∷ b's' ∷ b'd' ∷ b'f' ∷ b'g' ∷ b'h' ∷ b'j' ∷ b'k' ∷ b'l' ∷ b';' ∷ 39 ∷ b'`'
    ∷ 0 ∷ 92 ∷ b'z' ∷ b'x' ∷ b'c' ∷ b'v' ∷ b'b' ∷ b'n' ∷ b'm' ∷ b',' ∷ b'.' ∷ b'/' ∷ 0 ∷ b'*' ∷ 0
    ∷ b' ' ∷ 0 ∷ []

abbrev pub keymap_shift : List ℕ
keymap_shift =
    0 ∷ 0 ∷ b'!' ∷ b'@' ∷ b'#' ∷ b'$' ∷ b'%' ∷ b'^' ∷ b'&' ∷ b'*' ∷ b'(' ∷ b')' ∷ b'_' ∷ b'+' ∷ 8
    ∷ b'\t' ∷ b'Q' ∷ b'W' ∷ b'E' ∷ b'R' ∷ b'T' ∷ b'Y' ∷ b'U' ∷ b'I' ∷ b'O' ∷ b'P' ∷ b'{' ∷ b'}'
    ∷ b'\n' ∷ 0 ∷ b'A' ∷ b'S' ∷ b'D' ∷ b'F' ∷ b'G' ∷ b'H' ∷ b'J' ∷ b'K' ∷ b'L' ∷ b':' ∷ 34 ∷ b'~'
    ∷ 0 ∷ b'|' ∷ b'Z' ∷ b'X' ∷ b'C' ∷ b'V' ∷ b'B' ∷ b'N' ∷ b'M' ∷ b'<' ∷ b'>' ∷ b'?' ∷ 0 ∷ b'*' ∷ 0
    ∷ b' ' ∷ 0 ∷ []

-- What `read_key` waits for: a scan code, or the second byte behind the prefix 0xE0.
pub data Mode : Type 0 where
  plain : Mode
  extended : Mode

-- One byte makes `read_key` wait for the next one, return, or hand over to the shell in `tty_switch`.
pub data Action : Type 0 where
  wait : Mode → Keyboard → Action
  key : Keyboard → ℤ → Action
  call : Keyboard → ShellCall → Action

-- `sc & 0x80`
abbrev pub is_release : ℕ → Bool
is_release sc = sc / 128 % 2 == 1

-- `code` is `sc & 0x7F`.
abbrev pub released : Keyboard → ℕ → Keyboard
released k code = record k {
  shift_pressed = if code == 0x2A || code == 0x36 then false else k.shift_pressed;
  ctrl_pressed = if code == 0x1D then false else k.ctrl_pressed;
  alt_pressed = if code == 0x38 then false else k.alt_pressed;
}

-- From `int use_shift` on.
abbrev pub character : Keyboard → ℕ → Action
character k sc =
    let use_shift = if k.shift_pressed then not k.caps_lock else k.caps_lock in
    let c = get_or (if use_shift then keymap_shift else keymap_normal) sc 0 in
    if c == 0
    then Action.wait Mode.plain k
    else if k.ctrl_pressed && leb b'a' c && leb c b'z'
    then Action.key k (pos (c - b'a' + 1))
    else if k.ctrl_pressed && leb b'A' c && leb c b'Z'
    then Action.key k (pos (c - b'A' + 1))
    else Action.key (record k { console = tty_feed_key k.console (pos c) }) (pos c)

-- A switch that returns at its guard is followed by `continue`.
abbrev pub switched : Keyboard → Console × Option ShellCall → Action
switched k (s, none) = Action.wait Mode.plain (record k { console = s })
switched k (s, some shell) = Action.call (record k { console = s }) shell

-- The body of the loop of `read_key`, for the scan code `sc`; `logged_in` as for `tty_switch`.
pub scan : Bool → Keyboard → ℕ → Action
scan logged_in k sc =
    if is_release sc
    then Action.wait Mode.plain (released k (sc % 128))
    else if sc == 0xE0
    then Action.wait Mode.extended k
    else if sc == 0x2A || sc == 0x36
    then Action.wait Mode.plain (record k { shift_pressed = true })
    else if sc == 0x1D
    then Action.wait Mode.plain (record k { ctrl_pressed = true })
    else if sc == 0x38
    then Action.wait Mode.plain (record k { alt_pressed = true })
    else if sc == 0x3A
    then Action.wait Mode.plain (record k { caps_lock = not k.caps_lock })
    else if k.alt_pressed && leb 0x3B sc && leb sc 0x3E
    then switched k (tty_switch logged_in k.console (pos (sc - 0x3B)))
    else if k.alt_pressed && leb 0x02 sc && leb sc 0x05
    then switched k (tty_switch logged_in k.console (pos (sc - 0x02)))
    else character k sc

-- The second byte behind 0xE0; `KEY_LEFT_VAL` is -30, and so on to `KEY_END_VAL`, -36.
pub scan_extended : Keyboard → ℕ → Action
scan_extended k ext =
    if is_release ext
    then Action.wait Mode.plain k
    else if ext == 0x48
    then Action.key k (negsuc 31)
    else if ext == 0x50
    then Action.key k (negsuc 32)
    else if ext == 0x4B
    then Action.key k (negsuc 29)
    else if ext == 0x4D
    then Action.key k (negsuc 30)
    else if ext == 0x47
    then Action.key k (negsuc 34)
    else if ext == 0x4F
    then Action.key k (negsuc 35)
    else if ext == 0x53
    then Action.key k (negsuc 33)
    else if ext == 0x1D
    then Action.wait Mode.plain (record k { ctrl_pressed = true })
    else Action.wait Mode.plain k

abbrev pub scan_in : Bool → Mode → Keyboard → ℕ → Action
scan_in logged_in Mode.plain k sc = scan logged_in k sc
scan_in logged_in Mode.extended k ext = scan_extended k ext

-- How far `read_key` comes with the bytes that the controller has delivered: it waits for more; it returns, with
-- the bytes behind the last one read; or it hands over to the shell, which may read keys itself. When the shell
-- is back, the loop goes on from its head: `read_key` again, on what the shell leaves.
pub data Outcome : Type 0 where
  waits : Mode → Keyboard → Outcome
  returns : Keyboard → List ℕ → ℤ → Outcome
  calls : Keyboard → List ℕ → ShellCall → Outcome

pub read_in : Bool → Mode → Keyboard → List ℕ → Outcome
read_in logged_in mode k [] = Outcome.waits mode k
read_in logged_in mode k (sc ∷ codes) = elim (scan_in logged_in mode k sc) [
  | Action.wait mode' k' ↦ read_in logged_in mode' k' codes
  | Action.key k' c ↦ Outcome.returns k' codes c
  | Action.call k' shell ↦ Outcome.calls k' codes shell
]

pub read_key : Bool → Keyboard → List ℕ → Outcome
read_key logged_in k codes = read_in logged_in Mode.plain k codes

abbrev pub get_shift_state : Keyboard → Bool
get_shift_state k = k.shift_pressed

abbrev pub get_caps_state : Keyboard → Bool
get_caps_state k = k.caps_lock
