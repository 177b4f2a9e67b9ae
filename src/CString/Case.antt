-- ===== src/CString/Case.antt =====
-- `strcasecmp`, `strstr`, `memccpy`, `strlwr` and `strupr` of kernel/string.c.
use krnel.Base.{
  ℕ, zero, suc, ◌+◌, ◌-◌, ◌%◌, Bool, true, false, ◌&&◌, ◌||◌, Option, none, some, [], ◌∷◌, ◌==◌,
  leb, if◌then◌else◌,
}
use krnel.Base.Int.{ℤ, sub_ℕ, low_byte}
use krnel.CString.{Buffer, push}
use krnel.CString.Compare.{later}

abbrev pub to_lower : ℕ → ℕ
to_lower c = if leb b'A' c && leb c b'Z' then c - b'A' + b'a' else c

abbrev pub to_upper : ℕ → ℕ
to_upper c = if leb b'a' c && leb c b'z' then c - b'a' + b'A' else c

-- The difference of two values of type `char`, which is signed.
abbrev pub sub_char : ℕ → ℕ → ℤ
sub_char a b = sub_ℕ ((a + 128) % 256) ((b + 128) % 256)

unfoldable pub strcasecmp : Buffer → Buffer → Option ℤ
strcasecmp [] t = none
strcasecmp (a ∷ s) [] = none
strcasecmp (a ∷ s) (b ∷ t) =
    let rest = strcasecmp s t in
    if a == 0 || b == 0
    then some (sub_char a b)
    else if to_lower a == to_lower b
    then rest
    else some (sub_char (to_lower a) (to_lower b))

-- The inner loop of `strstr`, and its test behind the loop.
unfoldable pub starts : Buffer → Buffer → Option Bool
starts [] n = none
starts (a ∷ h) [] = none
starts (a ∷ h) (b ∷ n) =
    let rest = starts h n in
    if a == 0 || b == 0 then some (b == 0) else if a == b then rest else some false

unfoldable pub strstr_loop : Buffer → Buffer → Option (Option ℕ)
unfolding starts
strstr_loop [] n = none
strstr_loop (a ∷ h) n =
    let here = starts (a ∷ h) n in
    let rest = later (strstr_loop h n) in
    if a == 0
    then some none
    else elim here [ none ↦ none | some found ↦ elim found [ true ↦ some (some 0) | false ↦ rest ] ]

unfoldable pub strstr : Buffer → Buffer → Option (Option ℕ)
unfolding strstr_loop
strstr h [] = none
strstr h (b ∷ n) = if b == 0 then some (some 0) else strstr_loop h (b ∷ n)

-- The place behind a `c` that was copied, as an offset; `none` there for NULL.
unfoldable pub memccpy : Buffer → Buffer → ℤ → ℕ → Option (Buffer × Option ℕ)
memccpy d s c zero = some (d, none)
memccpy [] s c (suc n) = none
memccpy (x ∷ d) [] c (suc n) = none
memccpy (x ∷ d) (b ∷ s) c (suc n) =
    let rest = memccpy d s c n in
    if b == low_byte c then some (b ∷ d, some 1) else elim rest [
      | none ↦ none
      | some r ↦ some (b ∷ r.0, elim r.1 [ none ↦ none | some i ↦ some (suc i) ])
    ]

unfoldable pub strlwr : Buffer → Option Buffer
strlwr [] = none
strlwr (c ∷ s) = let rest = push (to_lower c) (strlwr s) in if c == 0 then some (c ∷ s) else rest

unfoldable pub strupr : Buffer → Option Buffer
strupr [] = none
strupr (c ∷ s) = let rest = push (to_upper c) (strupr s) in if c == 0 then some (c ∷ s) else rest
