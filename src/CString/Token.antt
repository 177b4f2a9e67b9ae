-- ===== src/CString/Token.antt =====
-- `strtok` of kernel/string.c. What it saves between two calls is a result and an argument here; the token is
-- the string from its start, which ends where the code has written a NUL.
use krnel.Base.{Option, none, some, Bool, true, false, [], ◌∷◌, ◌==◌, if◌then◌else◌, ℕ}
use krnel.CString.{Buffer, ◌>>=◌}

-- The search for a byte in the delimiters.
unfoldable pub is_delimiter : Buffer → ℕ → Option Bool
is_delimiter [] c = none
is_delimiter (d ∷ delim) c =
    let rest = is_delimiter delim c in
    if d == 0 then some false else if c == d then some true else rest

-- The first loop: leading delimiters are skipped.
unfoldable pub skip_delimiters : Buffer → Buffer → Option Buffer
unfolding is_delimiter
skip_delimiters [] delim = none
skip_delimiters (c ∷ s) delim =
    let rest = skip_delimiters s delim in
    let found = is_delimiter delim c in
    if c == 0
    then some (c ∷ s)
    else elim found [ none ↦ none | some f ↦ elim f [ true ↦ rest | false ↦ some (c ∷ s) ] ]

-- The second loop: the token, and what is saved, `none` for NULL.
unfoldable pub token_end : Buffer → Buffer → Option (Buffer × Option Buffer)
unfolding is_delimiter
token_end [] delim = none
token_end (c ∷ s) delim =
    let rest = token_end s delim in
    let found = is_delimiter delim c in
    if c == 0 then some (c ∷ s, none) else elim found [
      | none ↦ none
      | some f ↦ elim f [
        | true ↦ some (0 ∷ s, some s)
        | false ↦ elim rest [ none ↦ none | some r ↦ some (c ∷ r.0, r.1) ]
      ]
    ]

abbrev pub at_end : Buffer → Option Bool
at_end [] = none
at_end (c ∷ s) = some (c == 0)

-- `str` is the argument, or what was saved if that is NULL; the token, `none` for NULL, and what is saved.
abbrev pub strtok : Option Buffer → Buffer → Option (Option Buffer × Option Buffer)
strtok none delim = some (none, none)
strtok (some str) delim = ◌>>=◌ {B = Option Buffer × Option Buffer} (at_end str) (λ e.
    if e
    then some (none, none)
    else ◌>>=◌ {B = Option Buffer × Option Buffer} (skip_delimiters str delim) (λ start.
      ◌>>=◌ {B = Option Buffer × Option Buffer} (at_end start) (λ e'.
        if e'
        then some (none, none)
        else elim (token_end start delim) [ none ↦ none | some r ↦ some (some r.0, r.1) ])))
