-- ===== src/Editor.antt =====
-- kernel/kittywrite.c: the editor's lines, its cursor, and what each key makes of them. Drawing is left out.
pub mod Cursor
pub mod File
mod Tests
use krnel.Base.{
  ℕ, zero, suc, ◌+◌, ◌-◌, ◌≤◌, ◌<◌, ◌≡◌, Bool, true, false, ◌&&◌, ◌||◌, Option, none, some, List,
  [], ◌∷◌, ◌++◌, ◌==◌, ltb, leb, if◌then◌else◌, length, get_or, set, take, drop,
}
use krnel.CString.{Buffer, ◌>>=◌, text, terminated, strlen, strcpy, memcpy}
use krnel.CString.Move.{memmove}

abbrev pub max_lines : ℕ
max_lines = 200

abbrev pub max_col : ℕ
max_col = 79

abbrev pub edit_rows : ℕ
edit_rows = 22

-- The variables of the file; none of the numbers is ever negative.
pub record Editor : Type 0 where
  pub lines : List Buffer
  pub num_lines : ℕ
  pub cur_line : ℕ
  pub cur_col : ℕ
  pub scroll : ℕ
  pub modified : Bool

abbrev pub line : Editor → ℕ → Buffer
line e i = get_or e.lines i []

abbrev pub put_line : Editor → ℕ → Buffer → Editor
put_line e i s = record e { lines = set e.lines i s; modified = true }

abbrev pub ensure_visible : Editor → Editor
ensure_visible e =
    if ltb e.cur_line e.scroll
    then record e { scroll = e.cur_line }
    else if leb (e.scroll + edit_rows) e.cur_line
    then record e { scroll = e.cur_line - edit_rows + 1 }
    else e

abbrev pub go_to : Editor → ℕ → ℕ → Editor
go_to e l c = ensure_visible (record e { cur_line = l; cur_col = c })

-- `KEY_LEFT`; `none` is a line without its NUL, here as below.
pub key_left : Editor → Option Editor
key_left e =
    if ltb 0 e.cur_col
    then some (record e { cur_col = e.cur_col - 1 })
    else if ltb 0 e.cur_line
    then (strlen (line e (e.cur_line - 1)) >>= λ n. some (go_to e (e.cur_line - 1) n))
    else some e

pub key_right : Editor → Option Editor
key_right e = strlen (line e e.cur_line) >>= λ n.
    if ltb e.cur_col n
    then some (record e { cur_col = e.cur_col + 1 })
    else if ltb (e.cur_line + 1) e.num_lines
    then some (go_to e (e.cur_line + 1) 0)
    else some e

-- The column in a line of `n` bytes.
abbrev pub cut_col : ℕ → ℕ → ℕ
cut_col col n = if ltb n col then n else col

pub key_up : Editor → Option Editor
key_up e =
    if ltb 0 e.cur_line
    then (strlen (line e (e.cur_line - 1)) >>= λ n.
        some (go_to e (e.cur_line - 1) (cut_col e.cur_col n)))
    else some e

pub key_down : Editor → Option Editor
key_down e =
    if ltb (e.cur_line + 1) e.num_lines
    then (strlen (line e (e.cur_line + 1)) >>= λ n.
        some (go_to e (e.cur_line + 1) (cut_col e.cur_col n)))
    else some e

pub key_home : Editor → Option Editor
key_home e = some (record e { cur_col = 0 })

pub key_end : Editor → Option Editor
key_end e = strlen (line e e.cur_line) >>= λ n. some (record e { cur_col = n })

-- `for (i = num_lines; i > first; i--)` copies line `i - 1` to line `i`.
pub shift_down : ℕ → List Buffer → ℕ → List Buffer
shift_down zero lines i = lines
shift_down (suc n) lines i = shift_down n (set lines i (get_or lines (i - 1) [])) (i - 1)

-- `for (; i < num_lines - 1; i++)` copies line `i + 1` to line `i`.
pub shift_up : ℕ → List Buffer → ℕ → List Buffer
shift_up zero lines i = lines
shift_up (suc n) lines i = shift_up n (set lines i (get_or lines (i + 1) [])) (i + 1)

pub key_enter : Editor → Option Editor
key_enter e =
    if leb max_lines e.num_lines
    then some e
    else (let l = e.cur_line in
        let cur = line e l in
        let lines = shift_down (e.num_lines - (l + 1)) e.lines e.num_lines in
        strcpy (get_or lines (l + 1) []) (drop e.cur_col cur) >>= λ nxt. some (
          ensure_visible (record {
            lines = set (set lines (l + 1) nxt) l (set cur e.cur_col 0);
            num_lines = e.num_lines + 1;
            cur_line = l + 1;
            cur_col = 0;
            scroll = e.scroll;
            modified = true;
          })))

-- Line `l + 1` is appended to line `l`, of `pl` bytes, and taken out.
abbrev pub join : Editor → ℕ → ℕ → ℕ → Option Editor
join e l pl cl = memcpy (drop pl (line e l)) (line e (l + 1)) (cl + 1) >>= λ tail. some (record e {
  lines = shift_up (e.num_lines - 1 - (l + 1)) (set e.lines l (take pl (line e l) ++ tail)) (l + 1);
  num_lines = e.num_lines - 1;
  modified = true;
})

pub key_backspace : Editor → Option Editor
key_backspace e =
    let l = e.cur_line in
    if ltb 0 e.cur_col
    then (strlen (line e l) >>= λ ll.
        some
          (record (put_line e l
            (memmove (line e l) (e.cur_col - 1) e.cur_col (ll - e.cur_col + 1))) {
              cur_col = e.cur_col - 1;
            }))
    else if ltb 0 l
    then (strlen (line e (l - 1)) >>= λ pl. strlen (line e l) >>= λ cl.
        if ltb (pl + cl) max_col
        then (join e (l - 1) pl cl >>= λ e'. some (go_to e' (l - 1) pl))
        else some e)
    else some e

pub key_delete : Editor → Option Editor
key_delete e =
    let l = e.cur_line in
    strlen (line e l) >>= λ ll.
    if ltb e.cur_col ll
    then some (put_line e l (memmove (line e l) e.cur_col (e.cur_col + 1) (ll - e.cur_col)))
    else if ltb (l + 1) e.num_lines
    then (strlen (line e (l + 1)) >>= λ nl.
        if ltb (ll + nl) max_col then join e l ll nl else some e)
    else some e

-- A printable byte: 32 to 126.
pub key_char : Editor → ℕ → Option Editor
key_char e c =
    let l = e.cur_line in
    strlen (line e l) >>= λ ll.
    if ltb ll (max_col - 1)
    then some
        (record (put_line e l
          (set (memmove (line e l) (e.cur_col + 1) e.cur_col (ll - e.cur_col + 1)) e.cur_col c)) {
            cur_col = e.cur_col + 1;
          })
    else some e

-- The keys that move the cursor alone.
pub data Motion : Type 0 where
  left : Motion
  right : Motion
  up : Motion
  down : Motion
  home : Motion
  end_of_line : Motion

abbrev pub motion : Motion → Editor → Option Editor
motion Motion.left e = key_left e
motion Motion.right e = key_right e
motion Motion.up e = key_up e
motion Motion.down e = key_down e
motion Motion.home e = key_home e
motion Motion.end_of_line e = key_end e
