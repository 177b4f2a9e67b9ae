-- ===== src/Vga.antt =====
-- kernel/vga.c: the text screen, 25 rows of 80 cells of 16 bits, and its cursor.
pub mod Cells
pub mod Putchar
pub mod DrawRow
mod Tests
use krnel.Base.{
  ℕ, zero, suc, ◌+◌, ◌-◌, ◌*◌, ◌/◌, ◌%◌, ◌^◌, ◌≤◌, ◌<◌, ◌≡◌, Bool, true, false, ◌&&◌, ◌||◌, Option,
  none, some, List, [], ◌∷◌, ◌==◌, ltb, leb, if◌then◌else◌, length, get_elem?, get_or, set, arith,
}
use krnel.Base.Int.{ℤ, pos, negsuc, pos_part}
use krnel.CString.{Buffer, ◌>>=◌}

abbrev pub screen_width : ℕ
screen_width = 80

abbrev pub screen_height : ℕ
screen_height = 25

abbrev pub screen_cells : ℕ
screen_cells = 2000

-- `(color << 8) | c`
abbrev pub cell_of : ℕ → ℕ → ℕ
cell_of color c = color * 256 + c

-- `(DEFAULT_ATTR << 8) | ' '`
abbrev pub blank : ℕ
blank = 0x0F20

-- `video` is the memory at 0xB8000, `port` the cursor position last sent to the display controller.
-- The cursor's coordinates are never negative in the code.
pub record Screen : Type 0 where
  pub video : List ℕ
  pub cursor_x : ℕ
  pub cursor_y : ℕ
  pub port : ℕ

abbrev pub update_cursor : Screen → Screen
update_cursor s = record s { port = (s.cursor_y * screen_width + s.cursor_x) % 2 ^ 16 }

-- `for (i = start; i < start + n; i++) video[i] = cell;`
pub fill : ℕ → List ℕ → ℕ → ℕ → List ℕ
fill zero video i cell = video
fill (suc n) video i cell = fill n (set video i cell) (i + 1) cell

-- The first loop of `scroll_up`: `video[i] = video[i + SCREEN_WIDTH];`
pub shift_rows : ℕ → List ℕ → ℕ → List ℕ
shift_rows zero video i = video
shift_rows (suc n) video i = shift_rows n (set video i (get_or video (i + screen_width) 0)) (i + 1)

pub scroll_up : Screen → Screen
scroll_up s = record s {
  video = fill screen_width (shift_rows (screen_cells - screen_width) s.video 0) 1920 blank;
  cursor_y = screen_height - 1;
}

pub clear_screen : Screen → Screen
clear_screen s =
    update_cursor
      (record s { video = fill screen_cells s.video 0 blank; cursor_x = 0; cursor_y = 0 })

abbrev pub vga_clear_row : Screen → ℤ → Screen
vga_clear_row s (negsuc y) = s
vga_clear_row s (pos y) =
    if leb screen_height y
    then s
    else record s { video = fill screen_width s.video (y * screen_width) blank }

-- The position of the cursor in the video memory.
abbrev pub cursor : Screen → ℕ
cursor s = s.cursor_y * screen_width + s.cursor_x

-- The `if` chain of `putchar`. A `char` is signed: of the bytes from 32 on it prints those below 128.
pub put : Screen → ℕ → ℕ → Screen
put s c color =
    if c == b'\n'
    then record s { cursor_x = 0; cursor_y = s.cursor_y + 1 }
    else if c == b'\r'
    then record s { cursor_x = 0 }
    else if c == b'\t'
    then record s { cursor_x = (s.cursor_x + 8) / 8 * 8 }
    else if c == 8
    then (if ltb 0 s.cursor_x
        then record s {
          cursor_x = s.cursor_x - 1;
          video = set s.video (s.cursor_y * screen_width + (s.cursor_x - 1)) (cell_of color b' ');
        }
        else s)
    else if leb 32 c && ltb c 128
    then record s { video = set s.video (cursor s) (cell_of color c); cursor_x = s.cursor_x + 1 }
    else s

-- The two tests behind the chain.
pub wrap_line : Screen → Screen
wrap_line s =
    if leb screen_width s.cursor_x then record s { cursor_x = 0; cursor_y = s.cursor_y + 1 } else s

pub scroll : Screen → Screen
scroll s = if leb screen_height s.cursor_y then scroll_up s else s

pub putchar : Screen → ℕ → ℕ → Screen
putchar s c color = update_cursor (scroll (wrap_line (put s c color)))

-- The text is that of a C string.
pub vga_write : Screen → List ℕ → ℕ → Screen
vga_write s [] color = s
vga_write s (c ∷ str) color = vga_write (putchar s c color) str color

-- The nearest of six colours: the largest part decides, and whether any is above 127.
abbrev pub nearest_color : ℕ → ℕ → ℕ → ℕ
nearest_color r g b =
    let bright = ltb 127 r || ltb 127 g || ltb 127 b in
    if leb g r && leb b r
    then (if bright then 0x0C else 0x04)
    else if leb r g && leb b g
    then (if bright then 0x0A else 0x02)
    else if bright
    then 0x09
    else 0x01

abbrev pub vga_write_rgb : Screen → List ℕ → ℕ → ℕ → ℕ → Screen
vga_write_rgb s str r g b = vga_write s str (nearest_color r g b)

abbrev pub vga_get_pos : Screen → ℕ × ℕ
vga_get_pos s = (s.cursor_x, s.cursor_y)

-- A coordinate clamped to `0 .. limit - 1`.
abbrev pub clamp : ℤ → ℕ → ℕ
clamp (negsuc n) limit = 0
clamp (pos n) limit = if leb limit n then limit - 1 else n

unfoldable pub vga_set_pos : Screen → ℤ → ℤ → Screen
vga_set_pos s x y =
    update_cursor (record s { cursor_x = clamp x screen_width; cursor_y = clamp y screen_height })

abbrev pub inside : ℤ → ℕ → Bool
inside (negsuc n) limit = false
inside (pos n) limit = ltb n limit

abbrev pub vga_put_char_at : Screen → ℤ → ℤ → ℕ → ℕ → Screen
vga_put_char_at s x y c color =
    if inside x screen_width && inside y screen_height
    then record s { video = set s.video (pos_part y * screen_width + pos_part x) (cell_of color c) }
    else s

-- The character of column `i`: of the text in front of `len`, then a space; `none` outside of `str`.
abbrev pub char_at : Buffer → ℕ → ℕ → Option ℕ
char_at str len i = if ltb i len then get_elem? str i else some b' '

-- The loop of `vga_draw_row` from column `i` on.
pub draw_cells : ℕ → List ℕ → ℕ → ℕ → Buffer → ℕ → ℕ → Option (List ℕ)
draw_cells zero video start i str len color = some video
draw_cells (suc n) video start i str len color = char_at str len i >>= λ ch.
    draw_cells n (set video (start + i) (cell_of color ch)) start (i + 1) str len color

-- The columns that `vga_draw_row` draws: a negative width, or a start behind the row, draws none.
abbrev pub columns : ℕ → ℤ → ℕ
columns start width =
    if ltb screen_width (start + pos_part width) then screen_width - start else pos_part width

pub vga_draw_row : Screen → ℤ → ℤ → ℤ → Buffer → ℤ → ℕ → Option Screen
vga_draw_row s (negsuc y) start_x width str len color = some s
vga_draw_row s (pos y) start_x width str len color =
    if leb screen_height y
    then some s
    else (draw_cells (columns (pos_part start_x) width) s.video
          (y * screen_width + pos_part start_x) 0 str (pos_part len) color
        >>= λ video. some (record s { video = video }))

pub record IsValid (s : Screen) : Type 0 where
  pub video_length : length s.video ≡ screen_cells
  pub x_lt : s.cursor_x < screen_width
  pub y_lt : s.cursor_y < screen_height
