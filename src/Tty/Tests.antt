-- ===== src/Tty/Tests.antt =====
-- Instances of what is proved of kernel/tty.c, on four terminals with blank screens.
use krnel.Base.{
  ℕ, zero, suc, ◌<◌, ◌≡◌, refl, ◌⊎◌, true, false, some, [], ◌∷◌, ◌++◌, ◌==◌, if◌then◌else◌, length,
  replicate, length-replicate, arith,
}
use krnel.Base.Int.{pos, low_byte}
use krnel.Vga.{Screen, IsValid, screen_cells}
use krnel.Tty.{
  Tty, Console, tty, tty_buf_size, init_loop, tty_init, swap_screens, tty_switch, getc, feed,
}
use krnel.Tty.Input.{IsRing, input, feed-input, getc-input}
use krnel.Tty.Switch.{IsSaved, IsConsole, Looks, call_of, tty_switch-tty_switch}

abbrev blank_tty : ℕ → Tty
blank_tty i = record {
  id = i;
  input_buf = replicate tty_buf_size 0;
  in_head = 0;
  in_tail = 0;
  screen_buf = replicate screen_cells 0x0F20;
  cursor_x = 0;
  cursor_y = 0;
  active = i == 0;
}

abbrev screen : Screen
screen = record { video = replicate screen_cells 0x0F20; cursor_x = 3; cursor_y = 4; port = 323 }

abbrev console : Console
console = record {
  ttys = blank_tty 0 ∷ blank_tty 1 ∷ blank_tty 2 ∷ blank_tty 3 ∷ [];
  current_tty = 0;
  screen = screen;
}

screen-IsValid : IsValid screen
screen-IsValid = record {
  video_length = length-replicate {A = ℕ} screen_cells 0x0F20;
  x_lt = omega arith;
  y_lt = omega arith;
}

blank_tty-IsSaved : (i : ℕ) → IsSaved (blank_tty i)
blank_tty-IsSaved i = record {
  saved_length = length-replicate {A = ℕ} screen_cells 0x0F20;
  x_lt = omega arith;
  y_lt = omega arith;
}

console_saved : (i : ℕ) → i < 4 → IsSaved (tty console i)
console_saved zero lt = blank_tty-IsSaved 0
console_saved (suc zero) lt = blank_tty-IsSaved 1
console_saved (suc (suc zero)) lt = blank_tty-IsSaved 2
console_saved (suc (suc (suc zero))) lt = blank_tty-IsSaved 3
console_saved (suc (suc (suc (suc i)))) lt = absurd (omega arith)

console-IsConsole : IsConsole console
console-IsConsole = record {
  tty_count = refl;
  current_lt = omega arith;
  saved = console_saved;
  screen_valid = screen-IsValid;
}

blank_tty-IsRing : IsRing (blank_tty 0)
blank_tty-IsRing = record {
  buf_length = length-replicate {A = ℕ} tty_buf_size 0;
  head_lt = omega arith;
  tail_lt = omega arith;
}

test_tty_init : (tty (tty_init console) 1).active ≡ false
unfolding tty_init init_loop
test_tty_init = refl

feed-input_example :
    IsRing (feed (blank_tty 0) (pos b'a'))
    × (input (feed (blank_tty 0) (pos b'a')) ≡ (
        if length (input (blank_tty 0)) == 1023
        then input (blank_tty 0)
        else input (blank_tty 0) ++ (low_byte (pos b'a')) ∷ []))
feed-input_example = feed-input (blank_tty 0) (pos b'a') blank_tty-IsRing

-- A terminal with one byte of input.
abbrev fed_tty : Tty
fed_tty = feed (blank_tty 0) (pos b'a')

getc-input_example :
    IsRing (getc fed_tty).0
    × ((input fed_tty ≡ []) × ((getc fed_tty).1 ≡ 0) × ((getc fed_tty).0 ≡ fed_tty)
        ⊎ (input fed_tty ≡ (getc fed_tty).1 ∷ input (getc fed_tty).0))
getc-input_example = getc-input fed_tty (feed-input (blank_tty 0) (pos b'a') blank_tty-IsRing).0

-- On the third terminal the shell has written a cell and moved the cursor.
abbrev there : Console
there = record (swap_screens console 2) {
  screen = record screen { video = 0x0741 ∷ replicate 1999 0x0F20; cursor_x = 1; cursor_y = 0 };
}

tty_switch-tty_switch_example :
    ((tty_switch true console (pos 2)).1 ≡ some (call_of true))
    × ((tty_switch true there (pos 0)).1 ≡ some (call_of true))
    × ((tty_switch true there (pos 0)).0.current_tty ≡ 0)
    × Looks (tty_switch true there (pos 0)).0.screen console.screen
unfolding tty_switch swap_screens
tty_switch-tty_switch_example =
    tty_switch-tty_switch true true console there 2 console-IsConsole (omega arith) (omega arith)
      refl refl
      (record {
        video_length = omega (arith, length-replicate {A = ℕ} 1999 0x0F20);
        x_lt = omega arith;
        y_lt = omega arith;
      })
