-- ===== src/Editor/Cursor.antt =====
-- The keys of kernel/kittywrite.c that move the cursor.
use krnel.Base.{
  ℕ, ◌+◌, ◌-◌, ◌≤◌, ◌<◌, ◌≡◌, refl, true, Option, some, ltb, leb, length, arith, Bool-cases, inl,
  inr,
}
use krnel.CString.{text, terminated, strlen}
use krnel.CString.Copy.{strlen-text}
use krnel.Editor.{
  Editor, line, edit_rows, go_to, key_left, key_right, key_up, key_down, key_home, key_end, Motion,
  motion,
}

pub record IsEditor (e : Editor) : Type 0 where
  pub ends : (i : ℕ) → i < e.num_lines → terminated (line e i) ≡ true
  pub line_lt : e.cur_line < e.num_lines
  pub col_le : e.cur_col ≤ length (text (line e e.cur_line))
  pub scroll_le : e.scroll ≤ e.cur_line
  pub visible : e.cur_line < e.scroll + edit_rows

-- The text is as it was, and the cursor is in it and on the screen.
abbrev pub Moves : Editor → Option Editor → Type 0
Moves e r =
    (e' : Editor) × (r ≡ some e')
    × IsEditor e'
    × (e'.lines ≡ e.lines)
    × (e'.num_lines ≡ e.num_lines)

go_to-Moves :
    (e : Editor) (l c : ℕ)
    → IsEditor e
    → l < e.num_lines
    → c ≤ length (text (line e l))
    → Moves e (some (go_to e l c))
go_to-Moves e l c v lt le = elim (Bool-cases (ltb l e.scroll)) [
  | inl y ↦ rw y (
    record e { cur_line = l; cur_col = c; scroll = l },
    refl,
    record {
      ends = v.ends;
      line_lt = lt;
      col_le = le;
      scroll_le = omega arith;
      visible = omega arith;
    },
    refl,
    refl,
  )
  | inr x ↦ elim (Bool-cases (leb (e.scroll + edit_rows) l)) [
    | inl y ↦
        rw (x, y)
          (
            record e { cur_line = l; cur_col = c; scroll = l - edit_rows + 1 },
            refl,
            record {
              ends = v.ends;
              line_lt = lt;
              col_le = le;
              scroll_le = ground arith;
              visible = ground arith;
            },
            refl,
            refl,
          )
    | inr z ↦
        rw (x, z)
          (
            record e { cur_line = l; cur_col = c },
            refl,
            record {
              ends = v.ends;
              line_lt = lt;
              col_le = le;
              scroll_le = ground arith;
              visible = ground arith;
            },
            refl,
            refl,
          )
  ]
]

col-Moves :
    (e : Editor) (c : ℕ)
    → IsEditor e
    → c ≤ length (text (line e e.cur_line))
    → Moves e (some (record e { cur_col = c }))
col-Moves e c v le = (
  record e { cur_col = c },
  refl,
  record {
    ends = v.ends;
    line_lt = v.line_lt;
    col_le = le;
    scroll_le = v.scroll_le;
    visible = v.visible;
  },
  refl,
  refl,
)

stay-Moves : (e : Editor) → IsEditor e → Moves e (some e)
stay-Moves e v = (e, refl, v, refl, refl)

line_fits :
    (e : Editor) (i : ℕ)
    → IsEditor e
    → i < e.num_lines
    → strlen (line e i) ≡ some (length (text (line e i)))
line_fits e i v lt = (strlen-text (line e i) (v.ends i lt)).0

-- The arrow keys, Home and End find every line's end, change no line, and keep the cursor in the text and on
-- the screen.
pub motion-Moves : (m : Motion) (e : Editor) → IsEditor e → Moves e (motion m e)
unfolding key_left key_right key_up key_down key_home key_end
motion-Moves Motion.home e v = col-Moves e 0 v (omega arith)
motion-Moves Motion.end_of_line e v =
    rw (line_fits e e.cur_line v v.line_lt)
      (col-Moves e (length (text (line e e.cur_line))) v (omega arith))
motion-Moves Motion.left e v = elim (Bool-cases (ltb 0 e.cur_col)) [
  | inl y ↦ rw y (col-Moves e (e.cur_col - 1) v (omega (arith, v.col_le)))
  | inr x ↦ elim (Bool-cases (ltb 0 e.cur_line)) [
    | inl y ↦
        let lt : e.cur_line - 1 < e.num_lines = omega (arith, v.line_lt) in
        rw (x, y, line_fits e (e.cur_line - 1) v lt)
          (go_to-Moves e (e.cur_line - 1) (length (text (line e (e.cur_line - 1)))) v lt
            (omega arith))
    | inr z ↦ rw (x, z) (stay-Moves e v)
  ]
]
motion-Moves Motion.right e v =
    rw (line_fits e e.cur_line v v.line_lt)
      (elim (Bool-cases (ltb e.cur_col (length (text (line e e.cur_line))))) [
        | inl y ↦ rw y (col-Moves e (e.cur_col + 1) v (ground arith))
        | inr x ↦ elim (Bool-cases (ltb (e.cur_line + 1) e.num_lines)) [
          | inl y ↦ rw (x, y) (go_to-Moves e (e.cur_line + 1) 0 v (ground arith) (omega arith))
          | inr z ↦ rw (x, z) (stay-Moves e v)
        ]
      ])
motion-Moves Motion.up e v = elim (Bool-cases (ltb 0 e.cur_line)) [
  | inl y ↦
      let lt : e.cur_line - 1 < e.num_lines = omega (arith, v.line_lt) in
      rw (y, line_fits e (e.cur_line - 1) v lt)
        (go_to-Moves e (e.cur_line - 1) _ v lt (ground arith))
  | inr z ↦ rw z (stay-Moves e v)
]
motion-Moves Motion.down e v = elim (Bool-cases (ltb (e.cur_line + 1) e.num_lines)) [
  | inl y ↦
      let lt : e.cur_line + 1 < e.num_lines = ground arith in
      rw (y, line_fits e (e.cur_line + 1) v lt)
        (go_to-Moves e (e.cur_line + 1) _ v lt (ground arith))
  | inr z ↦ rw z (stay-Moves e v)
]
