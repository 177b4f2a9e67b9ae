-- ===== src/Keyboard/Tests.antt =====
-- Runs of kernel/keyboard.c, and an instance of what is proved of it.
use krnel.Base.{ℕ, ◌≡◌, refl, true, false, List, [], ◌∷◌, arith}
use krnel.Base.Int.{negsuc}
use krnel.Tty.{Console, ShellCall, swap_screens, tty_switch}
use krnel.Keyboard.{Keyboard, Action, Outcome, scan, scan_extended, read_in, read_key}
use krnel.Keyboard.Read.{Reads, read_key-Reads}

abbrev console : Console
console = record {
  ttys = [];
  current_tty = 0;
  screen = record { video = []; cursor_x = 0; cursor_y = 0; port = 0 };
}

abbrev keyboard : Keyboard
keyboard = record {
  shift_pressed = false;
  caps_lock = false;
  ctrl_pressed = false;
  alt_pressed = false;
  console = console;
}

-- The second byte of the up arrow.
test_extended : scan_extended keyboard 0x48 ≡ Action.key keyboard (negsuc 31)
unfolding scan_extended
test_extended = refl

-- Shift is pressed, then the key `a`, which is released; then the up arrow is pressed.
abbrev codes : List ℕ
codes = 0x2A ∷ 0x1E ∷ 0x9E ∷ 0xE0 ∷ 0x48 ∷ []

-- Alt and F2 switch to the second terminal and hand over to the login; the byte behind them is not read.
test_calls :
    read_key false keyboard (0x38 ∷ 0x3C ∷ 0x1E ∷ [])
    ≡ Outcome.calls
        (record keyboard { alt_pressed = true; console = swap_screens console 1 })
        (0x1E ∷ [])
        ShellCall.init
unfolding read_key read_in scan tty_switch
test_calls = refl

read_key-Reads_example : Reads keyboard codes (read_key false keyboard codes)
read_key-Reads_example =
    read_key-Reads false codes keyboard
      (omega arith, (omega arith, (omega arith, (omega arith, (omega arith, omega arith)))))
