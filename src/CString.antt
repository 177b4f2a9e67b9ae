-- ===== src/CString.antt =====
-- kernel/string.c: byte buffers and C strings. A pointer is the list of the bytes from where it points
-- to the end of its object, and `none` is an access outside the object.
pub mod Copy
pub mod Compare
pub mod Move
pub mod Number
pub mod Format
pub mod Case
pub mod Token
mod Tests
use krnel.Base.{
  ℕ, zero, suc, ◌+◌, Bool, true, false, Option, none, some, List, [], ◌∷◌, ◌≡◌, ◌≢◌, ◌==◌,
  if◌then◌else◌,
}
use krnel.Base.Int.{ℤ, low_byte}

abbrev pub Buffer : Type 0
Buffer = List ℕ

infixl 5 ◌>>=◌
abbrev pub ◌>>=◌ : {A B : Type 0} → Option A → (A → Option B) → Option B
none >>= f = none
some a >>= f = f a

abbrev pub push : ℕ → Option Buffer → Option Buffer
push c none = none
push c (some d) = some (c ∷ d)

-- The bytes in front of the first NUL: the text of a C string.
abbrev pub text : Buffer → List ℕ
text [] = []
text (c ∷ s) = let rest = text s in if c == 0 then [] else c ∷ rest

-- The buffer holds a NUL.
abbrev pub terminated : Buffer → Bool
terminated [] = false
terminated (c ∷ s) = let rest = terminated s in if c == 0 then true else rest

abbrev pub add_one : Option ℕ → Option ℕ
add_one none = none
add_one (some n) = some (suc n)

unfoldable pub strlen : Buffer → Option ℕ
strlen [] = none
strlen (c ∷ s) = let rest = add_one (strlen s) in if c == 0 then some 0 else rest

pub strnlen : Buffer → ℕ → Option ℕ
strnlen s zero = some 0
strnlen [] (suc n) = none
strnlen (c ∷ s) (suc n) = let rest = add_one (strnlen s n) in if c == 0 then some 0 else rest

unfoldable pub strcpy : Buffer → Buffer → Option Buffer
strcpy d [] = none
strcpy [] (c ∷ s) = none
strcpy (x ∷ d) (c ∷ s) = let rest = push c (strcpy d s) in if c == 0 then some (0 ∷ d) else rest

-- The loop `while (n--) *d++ = '\0'`.
unfoldable pub pad : Buffer → ℕ → Option Buffer
pad d zero = some d
pad [] (suc n) = none
pad (x ∷ d) (suc n) = push 0 (pad d n)

-- The first loop writes the NUL of a short source without counting it in `n`.
unfoldable pub strncpy : Buffer → Buffer → ℕ → Option Buffer
unfolding pad
strncpy d s zero = some d
strncpy d [] (suc n) = none
strncpy [] (c ∷ s) (suc n) = none
strncpy (x ∷ d) (c ∷ s) (suc n) =
    let short = push 0 (pad d (suc n)) in
    let rest = push c (strncpy d s n) in if c == 0 then short else rest

pub strcat : Buffer → Buffer → Option Buffer
unfolding strcpy
strcat [] s = none
strcat (c ∷ d) s =
    let end = strcpy (c ∷ d) s in let rest = push c (strcat d s) in if c == 0 then end else rest

unfoldable pub memset : Buffer → ℤ → ℕ → Option Buffer
memset d value zero = some d
memset [] value (suc n) = none
memset (x ∷ d) value (suc n) = push (low_byte value) (memset d value n)

-- `memcpy` between two objects.
unfoldable pub memcpy : Buffer → Buffer → ℕ → Option Buffer
memcpy d s zero = some d
memcpy d [] (suc n) = none
memcpy [] (c ∷ s) (suc n) = none
memcpy (x ∷ d) (c ∷ s) (suc n) = push c (memcpy d s n)
