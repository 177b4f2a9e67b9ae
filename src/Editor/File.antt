-- ===== src/Editor/File.antt =====
-- `kw_load` and `kw_save` of kernel/kittywrite.c: the editor's lines and the bytes of a file.
use krnel.Base.{
  ℕ, zero, suc, ◌+◌, false, Option, none, some, List, [], ◌∷◌, ◌++◌, ◌==◌, leb, if◌then◌else◌,
  get_or, set, take, drop, replicate,
}
use krnel.CString.{Buffer, ◌>>=◌, strlen, memcpy}
use krnel.Base.Int.{pos}
use krnel.CString.Compare.{strchr}
use krnel.Editor.{Editor, max_lines}

abbrev pub Lines : Type 0
Lines = List Buffer × ℕ

-- The loop of `kw_load` at `p`, with `room` lines of the table left behind line `n`; a line is cut to 79 bytes.
unfoldable pub load_loop : ℕ → Buffer → List Buffer → ℕ → Option Lines
load_loop zero p lines n = some (lines, n)
load_loop (suc room) [] lines n = none
load_loop (suc room) (c ∷ p) lines n =
    if c == 0
    then some (lines, n)
    else ◌>>=◌ {B = Lines} (strchr (c ∷ p) (pos b'\n')) (λ nl.
      ◌>>=◌ {B = Lines} (elim nl [ none ↦ strlen (c ∷ p) | some i ↦ some i ])
        (λ l.
          let len = if leb 80 l then 79 else l in
          ◌>>=◌ {B = Lines} (memcpy (get_or lines n []) (c ∷ p) len) (λ copied.
            let lines' = set lines n (set copied len 0) in
            elim nl [
              | none ↦ some (lines', n + 1)
              | some i ↦ load_loop room (drop (i + 1) (c ∷ p)) lines' (n + 1)
            ])))

-- The table with an empty first line.
abbrev pub no_text : List Buffer → List Buffer
no_text lines = set lines 0 (set (get_or lines 0 []) 0 0)

abbrev pub loaded : List Buffer → ℕ → Editor
loaded lines n = record {
  lines = lines;
  num_lines = n;
  cur_line = 0;
  cur_col = 0;
  scroll = 0;
  modified = false;
}

-- `file` is the content that `fs_read` gave, with its NUL, and `none` if it gave none.
abbrev pub kw_load : Option Buffer → Editor → Option Editor
kw_load none e = some (loaded (no_text e.lines) 1)
kw_load (some raw) e = elim (load_loop max_lines raw (no_text e.lines) 0) [
  | none ↦ none
  | some r ↦ some (if r.1 == 0 then loaded (no_text r.0) 1 else loaded r.0 r.1)
]

-- The loop of `kw_save` from line `i` on, with `raw` and `pos`.
unfoldable pub save_lines : ℕ → List Buffer → ℕ → Buffer → ℕ → Option (Buffer × ℕ)
save_lines zero lines i raw at = some (raw, at)
save_lines (suc n) lines i raw at =
    let l = get_or lines i [] in
    elim (strlen l) [
      | none ↦ none
      | some ll ↦ elim (memcpy (drop at raw) l ll) [
        | none ↦ none
        | some tail ↦
            save_lines n lines (i + 1) (set (take at raw ++ tail) (at + ll) b'\n') (at + ll + 1)
      ]
    ]

-- What `kw_save` passes to `fs_write`: the buffer and the number of bytes of it.
abbrev pub kw_save : Editor → Option (Buffer × ℕ)
kw_save e = save_lines e.num_lines e.lines 0 (replicate 16200 0) 0
