-- ===== src/CString/Format/Bounds.antt =====
-- The text of a format, and what `vsnprintf` (kernel/string.c) writes of it.
use krnel.Base.{ℕ, suc, ◌-◌, ◌≡◌, Option, none, some, List, [], ◌∷◌, ◌++◌, length, take, drop}
use krnel.CString.{Buffer}
use krnel.CString.Format.{Arg, Out, convert, Mode, Move, move, format_loop}

-- The whole text of a format, of any length.
unfoldable pub render : Mode → Buffer → List Arg → Option (List ℕ)
render mode [] args = none
render mode (c ∷ f) args = elim (move mode c) [
  | Move.stop ↦ some []
  | Move.next mode' ↦ render mode' f args
  | Move.literal c' ↦ elim (render Mode.plain f args) [ none ↦ none | some t ↦ some (c' ∷ t) ]
  | Move.conversion c' z l w ↦ elim (convert c' z l w args) [
    | none ↦ none
    | some r ↦ elim (render Mode.plain f r.1) [ none ↦ none | some t ↦ some (r.0 ++ t) ]
  ]
]

abbrev out : List ℕ → ℕ → Out
out s m = record { written = s; left = m }

-- What `PUT` makes of the bytes of a text.
abbrev pub cut : Out → List ℕ → Out
cut o t = record { written = o.written ++ take o.left t; left = o.left - length t }

-- The loop writes the text of the format, cut to the room left.
abbrev after : Out → Option (List ℕ) → Option Out
after o none = none
after o (some t) = some (cut o t)

abbrev prefix_of : List ℕ → Option (List ℕ) → Option (List ℕ)
prefix_of s none = none
prefix_of s (some t) = some (s ++ t)

-- The rest of a format is written as it is rendered.
abbrev Follows : Buffer → Type 0
Follows f =
    (mode : Mode) (args : List Arg) (o : Out)
    → format_loop mode f args o ≡ after o (render mode f args)

abbrev ended : Buffer → List ℕ → Buffer × ℕ
ended str shown = (shown ++ 0 ∷ drop (suc (length shown)) str, length shown)

-- What a call with a buffer of `size` bytes leaves in it, and answers, if the whole text is `t`.
abbrev pub truncated : Buffer → ℕ → List ℕ → Buffer × ℕ
truncated str size t = ended str (take (size - 1) t)
