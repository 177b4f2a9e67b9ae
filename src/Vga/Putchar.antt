-- ===== src/Vga/Putchar.antt =====
-- `putchar` and `vga_write` of kernel/vga.c.
use krnel.Base.{
  ℕ, ◌+◌, ◌-◌, ◌*◌, ◌≤◌, ◌<◌, ◌≡◌, refl, ◌∙◌, ap, true, false, ◌&&◌, List, [], ◌∷◌, ◌==◌, ltb, leb,
  if◌then◌else◌, length, get_or, set, length-set, arith, Bool-cases, inl, inr,
}
use krnel.Base.Int.{ℤ}
use krnel.Vga.{
  Screen, IsValid, screen_width, screen_height, screen_cells, blank, cell_of, cursor, shift_rows,
  scroll_up, put, wrap_line, scroll, putchar, vga_write, clear_screen, vga_set_pos,
}
use krnel.Vga.Cells.{get-set, length-fill, get-fill, length-shift_rows, get-shift_rows}

-- What holds between the steps of `putchar`: the cursor may stand just behind the row or the screen.
record IsNear (s : Screen) : Type 0 where
  video_length : length s.video ≡ screen_cells
  x_le : s.cursor_x ≤ screen_width
  y_le : s.cursor_y ≤ screen_height
  corner : s.cursor_y ≡ screen_height → s.cursor_x < screen_width

put-IsNear : (s : Screen) (c color : ℕ) → IsValid s → IsNear (put s c color)
unfolding put
put-IsNear s c color v = ground (
  arith,
  length-set s.video (cursor s) (cell_of color c),
  length-set s.video (s.cursor_y * screen_width + (s.cursor_x - 1)) (cell_of color b' '),
)

wrap_line-IsNear :
    (s : Screen) → IsNear s → IsNear (wrap_line s) × ((wrap_line s).cursor_x < screen_width)
unfolding wrap_line
wrap_line-IsNear s v = ground arith

scroll_up-video :
    (s : Screen) (j : ℕ)
    → length s.video ≡ screen_cells
    → (length (scroll_up s).video ≡ screen_cells)
      × (get_or (scroll_up s).video j 0 ≡ (
          if ltb j 1920
          then get_or s.video (j + screen_width) 0
          else if ltb j screen_cells
          then blank
          else get_or s.video j 0))
unfolding scroll_up
scroll_up-video s j l =
    let shifted = shift_rows (screen_cells - screen_width) s.video 0 in
    let l' : length shifted ≡ screen_cells =
      length-shift_rows (screen_cells - screen_width) s.video 0 ∙ l in
    (
      length-fill screen_width shifted 1920 blank ∙ l',
      get-fill screen_width shifted 1920 blank j (omega arith)
          ∙ ground (arith, get-shift_rows (screen_cells - screen_width) s.video 0 j (omega arith)),
    )

scroll-IsValid : (s : Screen) → IsNear s → s.cursor_x < screen_width → IsValid (scroll s)
unfolding scroll
scroll-IsValid s v lt = elim (Bool-cases (leb screen_height s.cursor_y)) [
  | inl y ↦ rw y (record {
    video_length = (scroll_up-video s 0 v.video_length).0;
    x_lt = unfold scroll_up in lt;
    y_lt = unfold scroll_up in omega arith;
  })
  | inr n ↦ rw n (record { video_length = v.video_length; x_lt = lt; y_lt = ground arith })
]

-- The display controller has been told where the cursor is.
abbrev pub IsSynced : Screen → Type 0
IsSynced s = s.port ≡ cursor s

-- `putchar` of any byte keeps the cursor on the screen and tells the controller where it is.
pub putchar-IsValid :
    (s : Screen) (c color : ℕ)
    → IsValid s
    → IsValid (putchar s c color) × IsSynced (putchar s c color)
unfolding putchar
putchar-IsValid s c color v =
    let (near, lt) = wrap_line-IsNear (put s c color) (put-IsNear s c color v) in
    let w = scroll-IsValid (wrap_line (put s c color)) near lt in
    (
      record { video_length = w.video_length; x_lt = w.x_lt; y_lt = w.y_lt },
      omega (arith, w.x_lt, w.y_lt),
    )

-- `vga_write` of any text keeps the cursor on the screen.
pub vga_write-IsValid :
    (s : Screen) (str : List ℕ) (color : ℕ) → IsValid s → IsValid (vga_write s str color)
unfolding vga_write
vga_write-IsValid s [] color v = v
vga_write-IsValid s (c ∷ str) color v =
    vga_write-IsValid (putchar s c color) str color (putchar-IsValid s c color v).0

-- `clear_screen` makes a screen of blanks with its cursor in the first cell, wherever the cursor was, and
-- tells the controller.
pub clear_screen-IsValid :
    (s : Screen)
    → length s.video ≡ screen_cells
    → IsValid (clear_screen s)
      × IsSynced (clear_screen s)
      × (cursor (clear_screen s) ≡ 0)
      × ((j : ℕ) → j < screen_cells → get_or (clear_screen s).video j 0 ≡ blank)
unfolding clear_screen
clear_screen-IsValid s l = (
  record {
    video_length = length-fill screen_cells s.video 0 blank ∙ l;
    x_lt = omega arith;
    y_lt = omega arith;
  },
  refl,
  refl,
  λ j lt. get-fill screen_cells s.video 0 blank j (omega arith) ∙ ground arith,
)

-- `vga_set_pos` brings the cursor onto the screen for any position it is given, tells the controller, and
-- changes no cell.
pub vga_set_pos-IsValid :
    (s : Screen) (x y : ℤ)
    → length s.video ≡ screen_cells
    → IsValid (vga_set_pos s x y)
      × IsSynced (vga_set_pos s x y)
      × ((vga_set_pos s x y).video ≡ s.video)
unfolding vga_set_pos
vga_set_pos-IsValid s x y l = ground arith

-- The cell `j` after a printable byte was put at the position `p` of the old video memory.
abbrev pub printed : List ℕ → ℕ → ℕ → ℕ → ℕ
printed video p cell j = if j == p then cell else get_or video j 0

-- The state behind the `if` chain, for a printable byte.
abbrev shown : Screen → ℕ → ℕ → Screen
shown s c color = record s {
  video = set s.video (cursor s) (cell_of color c);
  cursor_x = s.cursor_x + 1;
}

put-shown : (s : Screen) (c color : ℕ) → 32 ≤ c → c < 128 → put s c color ≡ shown s c color
unfolding put
put-shown s c color lo hi =
    let a : (c == b'\n') ≡ false = ground arith in
    let b : (c == b'\r') ≡ false = ground arith in
    let d : (c == b'\t') ≡ false = ground arith in
    let e : (c == 8) ≡ false = ground arith in
    let f : (leb 32 c && ltb c 128) ≡ true = ground arith in rw (a, b, d, e, f)

-- No scrolling is needed in front of the last cell.
stay :
    (s : Screen)
    → s.cursor_x ≤ screen_width
    → s.cursor_y < screen_height
    → cursor s < 2000
    → ((scroll (wrap_line s)).video ≡ s.video) × (cursor (scroll (wrap_line s)) ≡ cursor s)
unfolding wrap_line scroll
stay s x y lt = ground arith

roll :
    (s : Screen)
    → s.cursor_x ≡ screen_width
    → s.cursor_y ≡ 24
    → ((scroll (wrap_line s)).video ≡ (scroll_up s).video) × (cursor (scroll (wrap_line s)) ≡ 1920)
unfolding wrap_line scroll scroll_up
roll s x y = ground arith

-- Both cases of a printable byte: in front of the last cell, and in it.
putchar_printable :
    (s : Screen) (c color j : ℕ)
    → IsValid s
    → 32 ≤ c
    → c < 128
    → j < screen_cells
    → (cursor s < 1999
        → (get_or (putchar s c color).video j 0 ≡ printed s.video (cursor s) (cell_of color c) j)
          × (cursor (putchar s c color) ≡ cursor s + 1))
      × (cursor s ≡ 1999
          → (get_or (putchar s c color).video j 0 ≡ (
              if ltb j 1920
              then printed s.video 1999 (cell_of color c) (j + screen_width)
              else blank))
            × (cursor (putchar s c color) ≡ 1920))
unfolding putchar
putchar_printable s c color j v lo hi lt = rw (put-shown s c color lo hi) (
  λ more.
      let (same, at) =
        stay (shown s c color) (omega (arith, v.x_lt)) v.y_lt (omega (arith, v.x_lt, v.y_lt)) in
      (
        ap (λ w. get_or w j 0) same
            ∙ get-set s.video (cursor s) j (cell_of color c) (omega (arith, v.video_length)),
        at ∙ omega arith,
      ),
  λ last.
      let (same, at) =
        roll (shown s c color) (omega (arith, v.x_lt, v.y_lt)) (omega (arith, v.x_lt, v.y_lt)) in
      (
        ap (λ w. get_or w j 0) same
            ∙ (scroll_up-video (shown s c color) j
                (length-set s.video (cursor s) (cell_of color c) ∙ v.video_length)).1
            ∙ ground (
              arith,
              get-set s.video (cursor s) (j + screen_width) (cell_of color c)
                  (omega (arith, v.video_length)),
            ),
        at,
      ),
)

-- A printable byte in front of the screen's last cell goes to the cursor's cell, all other cells stay, and the
-- cursor moves on by one.
pub putchar_moves :
    (s : Screen) (c color j : ℕ)
    → IsValid s
    → 32 ≤ c
    → c < 128
    → j < screen_cells
    → cursor s < 1999
    → (get_or (putchar s c color).video j 0 ≡ printed s.video (cursor s) (cell_of color c) j)
      × (cursor (putchar s c color) ≡ cursor s + 1)
putchar_moves s c color j v lo hi lt front = (putchar_printable s c color j v lo hi lt).0 front

-- A printable byte in the screen's last cell is written and the screen scrolls: each row takes the one below,
-- the last row is blank, and the cursor is at its start.
pub putchar_scrolls :
    (s : Screen) (c color j : ℕ)
    → IsValid s
    → 32 ≤ c
    → c < 128
    → j < screen_cells
    → cursor s ≡ 1999
    → (get_or (putchar s c color).video j 0
        ≡ (if ltb j 1920 then printed s.video 1999 (cell_of color c) (j + screen_width) else blank))
      × (cursor (putchar s c color) ≡ 1920)
putchar_scrolls s c color j v lo hi lt last = (putchar_printable s c color j v lo hi lt).1 last
