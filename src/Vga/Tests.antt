-- ===== src/Vga/Tests.antt =====
-- Instances of what is proved of kernel/vga.c, on a blank screen.
use krnel.Base.{
  ℕ, ◌+◌, ◌-◌, ◌*◌, ◌≤◌, ◌<◌, ◌≡◌, some, [], ◌∷◌, if◌then◌else◌, ltb, get_or, replicate,
  length-replicate, arith,
}
use krnel.Base.Int.{pos}
use krnel.Vga.{
  Screen, IsValid, screen_width, screen_cells, blank, cell_of, cursor, columns, putchar,
  vga_draw_row,
}
use krnel.Vga.Cells.{drawn}
use krnel.Vga.Putchar.{IsSynced, printed, putchar-IsValid, putchar_moves, putchar_scrolls}
use krnel.Vga.DrawRow.{in_row, vga_draw_row_lem}

-- A blank screen with the cursor at (x, y).
abbrev screen_at : ℕ → ℕ → Screen
screen_at x y = record {
  video = replicate screen_cells blank;
  cursor_x = x;
  cursor_y = y;
  port = 0;
}

screen_at-IsValid : (x y : ℕ) → x < 80 → y < 25 → IsValid (screen_at x y)
screen_at-IsValid x y lt lt' = record {
  video_length = length-replicate screen_cells blank;
  x_lt = lt;
  y_lt = lt';
}

putchar-IsValid_example :
    IsValid (putchar (screen_at 79 24) b'a' 7) × IsSynced (putchar (screen_at 79 24) b'a' 7)
putchar-IsValid_example =
    putchar-IsValid (screen_at 79 24) b'a' 7 (screen_at-IsValid 79 24 (omega arith) (omega arith))

putchar_moves_example :
    (get_or (putchar (screen_at 3 4) b'a' 7).video 323 0
      ≡ printed (screen_at 3 4).video (cursor (screen_at 3 4)) (cell_of 7 b'a') 323)
    × (cursor (putchar (screen_at 3 4) b'a' 7) ≡ cursor (screen_at 3 4) + 1)
putchar_moves_example =
    putchar_moves (screen_at 3 4) b'a' 7 323 (screen_at-IsValid 3 4 (omega arith) (omega arith))
      (omega arith) (omega arith) (omega arith) (omega arith)

putchar_scrolls_example :
    (get_or (putchar (screen_at 79 24) b'a' 7).video 1919 0 ≡ (
      if ltb 1919 1920
      then printed (screen_at 79 24).video 1999 (cell_of 7 b'a') (1919 + screen_width)
      else blank))
    × (cursor (putchar (screen_at 79 24) b'a' 7) ≡ 1920)
putchar_scrolls_example =
    putchar_scrolls (screen_at 79 24) b'a' 7 1919
      (screen_at-IsValid 79 24 (omega arith) (omega arith)) (omega arith) (omega arith)
      (omega arith) (omega arith)

vga_draw_row_lem_example :
    (s : Screen) × (vga_draw_row
        (screen_at 3 4)
        (pos 2)
        (pos 70)
        (pos 20)
        (b'h' ∷ b'i' ∷ [])
        (pos 2)
        7
      ≡ some s)
    × ((j : ℕ)
        → get_or s.video j 0 ≡ (
            if in_row 2 70 (columns 70 (pos 20)) j
            then drawn (b'h' ∷ b'i' ∷ []) 2 7 (j - (2 * screen_width + 70))
            else get_or (screen_at 3 4).video j 0))
    × (70 + columns 70 (pos 20) ≤ screen_width)
    × (s.cursor_x ≡ (screen_at 3 4).cursor_x)
    × (s.cursor_y ≡ (screen_at 3 4).cursor_y)
vga_draw_row_lem_example =
    vga_draw_row_lem (screen_at 3 4) 2 70 20 2 7 (b'h' ∷ b'i' ∷ [])
      (length-replicate screen_cells blank) (omega arith) (omega arith) (omega arith)
