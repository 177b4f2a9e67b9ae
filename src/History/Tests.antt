-- ===== src/History/Tests.antt =====
-- Instances of what is proved of kernel/history.c, on the history that the kernel starts with and on one of
-- two lines.
use krnel.Base.{
  ℕ, zero, suc, ◌+◌, ◌<◌, ◌≡◌, refl, inr, true, some, [], ◌∷◌, length, replicate, get_or, arith,
}
use krnel.Base.Int.{pos}
use krnel.CString.{Buffer, text, terminated}
use krnel.History.{History, IsValid, slot, show_from, history_add, history_prev, history_next}
use krnel.History.Add.{Added, history_add-Added}
use krnel.History.Walk.{Shows, older, history_prev-Shows, history_next-Shows}

abbrev line : ℕ → Buffer
line c = c ∷ replicate 255 0

abbrev two_lines : History
two_lines = record {
  slots = line b'a' ∷ line b'b' ∷ replicate 48 (replicate 256 0);
  count = 2;
  current = pos 0;
  index = 2;
}

abbrev IsLine : Buffer → Type 0
IsLine s = (length s ≡ 256) × (terminated s ≡ true)

empty_lines : (n i : ℕ) → i < n → IsLine (get_or (replicate n (replicate 256 0)) i [])
empty_lines zero i lt = absurd (omega arith)
empty_lines (suc n) zero lt = (refl, refl)
empty_lines (suc n) (suc i) lt = empty_lines n i (omega arith)

two_lines_ok : (i : ℕ) → i < 50 → IsLine (slot two_lines i)
two_lines_ok zero lt = (refl, refl)
two_lines_ok (suc zero) lt = (refl, refl)
two_lines_ok (suc (suc i)) lt = empty_lines 48 i (omega arith)

two_lines-IsValid : IsValid two_lines
two_lines-IsValid = record {
  slots_length = refl;
  slot_length = λ i lt. (two_lines_ok i lt).0;
  slot_terminated = λ i lt. (two_lines_ok i lt).1;
  count_le = omega arith;
  index_lt = omega arith;
  current_ok = inr (0, refl, omega arith);
}

test_show_from : show_from two_lines 0 0 ≡ []
unfolding show_from
test_show_from = refl

history_add-Added_example :
    (h : History) × (history_add two_lines (some (line b'c')) ≡ some h)
    × IsValid h
    × Added two_lines (text (line b'c')) h
history_add-Added_example = history_add-Added two_lines (line b'c') two_lines-IsValid refl

history_prev-Shows_example :
    (older two_lines.count two_lines.current < two_lines.count)
    × Shows two_lines
        (line 0)
        (older two_lines.count two_lines.current)
        (history_prev two_lines (line 0) (length (line 0)))
history_prev-Shows_example =
    history_prev-Shows two_lines (line 0) two_lines-IsValid (omega arith) (omega arith)
      (omega arith)

history_next-Shows_example :
    Shows two_lines (line 0) (0 + 1) (history_next two_lines (line 0) (length (line 0)))
history_next-Shows_example =
    history_next-Shows two_lines (line 0) two_lines-IsValid 0 refl (omega arith) (omega arith)
      (omega arith)
