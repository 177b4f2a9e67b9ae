-- ===== src/Vga/DrawRow.antt =====
-- `vga_draw_row` of kernel/vga.c.
use krnel.Base.{
  ℕ, ◌+◌, ◌-◌, ◌*◌, ◌≤◌, ◌<◌, ◌≡◌, refl, ◌∙◌, ap, Bool, Bool-cases, inl, inr, Option, none, some,
  List, false, ◌&&◌, ltb, leb, if◌then◌else◌, length, get_or, arith,
}
use krnel.Base.Int.{ℤ, pos, negsuc, pos_part}
use krnel.CString.{Buffer, ◌>>=◌}
use krnel.Vga.{
  Screen, IsValid, screen_width, screen_height, screen_cells, columns, draw_cells, vga_draw_row,
}
use krnel.Vga.Cells.{
  get-drawn_cells, drawn_cells, draw_cells-drawn_cells, IsLong, draw_cells-IsLong, drawn,
}

-- The cells of a row of the screen from column `start` on, `n` of them.
abbrev pub in_row : ℕ → ℕ → ℕ → ℕ → Bool
in_row y start n j = leb (y * screen_width + start) j && ltb j (y * screen_width + start + n)

abbrev pub Valid : Option Screen → Type 0
Valid none = Unit {0}
Valid (some s) = IsValid s

-- On a row of the screen, from a column of it or the one behind it, with a length of no more than the bytes of
-- `str` and no negative argument, `vga_draw_row` stays in `str`; it draws the text and then spaces into the
-- columns from `start_x` on, at most up to the row's end; all other cells and the cursor stay.
pub vga_draw_row_lem :
    (s : Screen) (y start width len color : ℕ) (str : Buffer)
    → length s.video ≡ screen_cells
    → y < screen_height
    → start ≤ screen_width
    → len ≤ length str
    → (s' : Screen) × (vga_draw_row s (pos y) (pos start) (pos width) str (pos len) color ≡ some s')
      × ((j : ℕ)
          → get_or s'.video j 0 ≡ (
              if in_row y start (columns start (pos width)) j
              then drawn str len color (j - (y * screen_width + start))
              else get_or s.video j 0))
      × (start + columns start (pos width) ≤ screen_width)
      × (s'.cursor_x ≡ s.cursor_x)
      × (s'.cursor_y ≡ s.cursor_y)
unfolding vga_draw_row
vga_draw_row_lem s y start width len color str l lt le inside =
    let row : leb screen_height y ≡ false = ground arith in
    let n : ℕ = columns start (pos width) in
    let fits : start + n ≤ screen_width = ground arith in
    let at : ℕ = y * screen_width + start in
    (
      record s { video = drawn_cells n s.video at 0 str len color },
      rw row (
          ap (λ o. o >>= λ video. some (record s { video = video }))
            (draw_cells-drawn_cells n s.video at 0 str len color inside)),
      λ j.
          get-drawn_cells n s.video at 0 str len color j (omega arith)
          ∙ edges at n j (drawn str len color (j - at)) (get_or s.video j 0),
      fits,
      refl,
      refl,
    )
  where
    edges :
        (a n j x z : ℕ)
        → (if leb (a + 0) j && ltb j (a + 0 + n) then x else z)
          ≡ (if leb a j && ltb j (a + n) then x else z)
    edges a n j x z = ground arith

-- What `vga_draw_row` makes of a valid screen is one, whatever its arguments are.
pub vga_draw_row-IsValid :
    (s : Screen) (y start_x width len : ℤ) (color : ℕ) (str : Buffer)
    → IsValid s
    → Valid (vga_draw_row s y start_x width str len color)
unfolding vga_draw_row
vga_draw_row-IsValid s (negsuc y) start_x width len color str v = v
vga_draw_row-IsValid s (pos y) start_x width len color str v =
    elim (Bool-cases (leb screen_height y)) [
      | inl e ↦ rw e v
      | inr e ↦
          let n : ℕ = columns (pos_part start_x) width in
          let at : ℕ = y * screen_width + pos_part start_x in
          rw e (
            shown (draw_cells n s.video at 0 str (pos_part len) color)
              (draw_cells-IsLong n s.video at 0 str (pos_part len) color))
    ]
  where
    shown :
        (o : Option (List ℕ))
        → IsLong (length s.video) o
        → Valid (o >>= λ video. some (record s { video = video }))
    shown none h = tt
    shown (some video) h = record {
      video_length = h ∙ v.video_length;
      x_lt = v.x_lt;
      y_lt = v.y_lt;
    }
