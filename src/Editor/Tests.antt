-- ===== src/Editor/Tests.antt =====
-- Runs of the keys of kernel/kittywrite.c on two short lines, and an instance of what is proved of them.
use krnel.Base.{ℕ, zero, suc, ◌<◌, List, ◌≡◌, refl, true, some, [], ◌∷◌, replicate, arith}
use krnel.CString.{Buffer, terminated, strlen, strcpy, memcpy}
use krnel.CString.Move.{memmove}
use krnel.Editor.{
  Editor, line, Motion, motion, key_enter, key_backspace, key_delete, key_char, shift_down,
  shift_up,
}
use krnel.CString.Compare.{strchr}
use krnel.Editor.File.{load_loop, save_lines}
use krnel.Editor.Cursor.{IsEditor, Moves, motion-Moves}

-- The lines "ab" and "c", and two that are not used yet; the cursor is behind the `a`.
abbrev two_lines : Editor
two_lines = record {
  lines =
      (b'a' ∷ b'b' ∷ 0 ∷ 0 ∷ 0 ∷ []) ∷ (b'c' ∷ 0 ∷ 0 ∷ 0 ∷ 0 ∷ []) ∷ replicate 2 (replicate 5 0);
  num_lines = 2;
  cur_line = 0;
  cur_col = 1;
  scroll = 0;
  modified = true;
}

test_key_enter :
    key_enter two_lines
    ≡ some (record two_lines {
      lines =
          (b'a' ∷ 0 ∷ 0 ∷ 0 ∷ 0 ∷ [])
          ∷ (b'b' ∷ 0 ∷ 0 ∷ 0 ∷ 0 ∷ [])
          ∷ (b'c' ∷ 0 ∷ 0 ∷ 0 ∷ 0 ∷ [])
          ∷ replicate 5 0
          ∷ [];
      num_lines = 3;
      cur_line = 1;
      cur_col = 0;
    })
unfolding key_enter shift_down strcpy
test_key_enter = refl

test_key_char :
    key_char two_lines b'x'
    ≡ some (record two_lines {
      lines =
          (b'a' ∷ b'x' ∷ b'b' ∷ 0 ∷ 0 ∷ [])
          ∷ (b'c' ∷ 0 ∷ 0 ∷ 0 ∷ 0 ∷ [])
          ∷ replicate 2 (replicate 5 0);
      cur_col = 2;
    })
unfolding key_char strlen memmove
test_key_char = refl

test_key_delete :
    key_delete (record two_lines { cur_col = 2 })
    ≡ some (record two_lines {
      lines =
          (b'a' ∷ b'b' ∷ b'c' ∷ 0 ∷ 0 ∷ [])
          ∷ (b'c' ∷ 0 ∷ 0 ∷ 0 ∷ 0 ∷ [])
          ∷ replicate 2 (replicate 5 0);
      num_lines = 1;
      cur_col = 2;
    })
unfolding key_delete strlen memcpy shift_up
test_key_delete = refl

test_key_backspace :
    key_backspace two_lines
    ≡ some (record two_lines {
      lines =
          (b'b' ∷ 0 ∷ 0 ∷ 0 ∷ 0 ∷ []) ∷ (b'c' ∷ 0 ∷ 0 ∷ 0 ∷ 0 ∷ []) ∷ replicate 2 (replicate 5 0);
      cur_col = 0;
    })
unfolding key_backspace strlen memmove
test_key_backspace = refl

abbrev four_empty : List Buffer
four_empty = replicate 4 (replicate 5 0)

test_load_loop :
    load_loop 4 (b'a' ∷ b'b' ∷ b'\n' ∷ b'c' ∷ 0 ∷ []) four_empty 0 ≡ some (two_lines.lines, 2)
unfolding load_loop strchr strlen memcpy
test_load_loop = refl

test_save_lines :
    save_lines 2 two_lines.lines 0 (replicate 6 0) 0
    ≡ some (b'a' ∷ b'b' ∷ b'\n' ∷ b'c' ∷ b'\n' ∷ 0 ∷ [], 5)
unfolding save_lines strlen memcpy
test_save_lines = refl

two_lines_end : (i : ℕ) → i < 2 → terminated (line two_lines i) ≡ true
two_lines_end zero lt = refl
two_lines_end (suc zero) lt = refl
two_lines_end (suc (suc i)) lt = absurd (omega arith)

two_lines-IsEditor : IsEditor two_lines
two_lines-IsEditor = record {
  ends = two_lines_end;
  line_lt = omega arith;
  col_le = omega arith;
  scroll_le = omega arith;
  visible = omega arith;
}

motion-Moves_example : Moves two_lines (motion Motion.down two_lines)
motion-Moves_example = motion-Moves Motion.down two_lines two_lines-IsEditor
