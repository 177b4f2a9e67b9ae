-- ===== src/CString/Tests.antt =====
-- Runs of the functions of kernel/string.c, and instances of what is proved of them.
use krnel.Base.{false, ◌↔◌, ◌≡◌, refl, true, none, some, [], ◌∷◌, arith, length, get_or, replicate}
use krnel.Base.Int.{pos, negsuc}
use krnel.CString.{Buffer, text, strnlen, strlen, strncpy, strcat, memset, memcpy}
use krnel.CString.Case.{strcasecmp, starts, strstr, strstr_loop, memccpy, strlwr, strupr}
use krnel.CString.Token.{strtok, is_delimiter, skip_delimiters, token_end}
use krnel.CString.Compare.{strcmp, strncmp, memcmp, strrchr, memchr, strcmp-eq}
use krnel.CString.Copy.{strncpy_overruns, Copied, strncpy-Copied}
use krnel.CString.Move.{memmove, snapshot, memmove-snapshot}
use krnel.CString.Number.{strrev, atoi, itoa}
use krnel.CString.Number.RoundTrip.{atoi-itoa}
use krnel.CString.Format.{
  Arg, number, radix_loop, convert, convert_pointer, convert_string, convert_char, move, Mode, Move,
}

-- "abc", and eight bytes to write to.
abbrev abc : Buffer
abc = b'a' ∷ b'b' ∷ b'c' ∷ 0 ∷ []

abbrev room : Buffer
room = replicate 8 1

test_strnlen : strnlen abc 2 ≡ some 2
unfolding strnlen
test_strnlen = refl

test_strcat : strcat (b'x' ∷ 0 ∷ 1 ∷ 1 ∷ 1 ∷ []) abc ≡ some (b'x' ∷ abc)
unfolding strcat
test_strcat = refl

test_memset : memset abc (pos 7) 2 ≡ some (7 ∷ 7 ∷ b'c' ∷ 0 ∷ [])
unfolding memset
test_memset = refl

test_memcpy : memcpy room abc 2 ≡ some (b'a' ∷ b'b' ∷ replicate 6 1)
unfolding memcpy
test_memcpy = refl

test_memcpy_overruns : memcpy abc room 5 ≡ none
unfolding memcpy
test_memcpy_overruns = refl

test_strncmp : strncmp abc (b'a' ∷ b'b' ∷ b'd' ∷ 0 ∷ []) 3 ≡ some (negsuc 0)
unfolding strncmp
test_strncmp = refl

test_memcmp : memcmp abc abc 4 ≡ some (pos 0)
unfolding memcmp
test_memcmp = refl

test_strrchr : strrchr (b'a' ∷ abc) (pos b'a') ≡ some (some 1)
unfolding strrchr
test_strrchr = refl

test_memchr : memchr abc (pos b'c') 3 ≡ some (some 2)
unfolding memchr
test_memchr = refl

test_strrev : strrev abc ≡ some (b'c' ∷ b'b' ∷ b'a' ∷ 0 ∷ [])
unfolding strrev
test_strrev = refl

test_strcasecmp : strcasecmp abc (b'A' ∷ b'b' ∷ b'C' ∷ 0 ∷ []) ≡ some (pos 0)
unfolding strcasecmp
test_strcasecmp = refl

test_strstr : strstr abc (b'b' ∷ b'c' ∷ 0 ∷ []) ≡ some (some 1)
unfolding strstr strstr_loop starts
test_strstr = refl

test_memccpy : memccpy room abc (pos b'b') 8 ≡ some (b'a' ∷ b'b' ∷ replicate 6 1, some 2)
unfolding memccpy
test_memccpy = refl

test_strupr : strupr abc ≡ some (b'A' ∷ b'B' ∷ b'C' ∷ 0 ∷ [])
unfolding strupr
test_strupr = refl

test_strlwr : strlwr (b'A' ∷ abc) ≡ some (b'a' ∷ abc)
unfolding strlwr
test_strlwr = refl

-- ":ab:c" split at its colons.
test_strtok :
    strtok (some (b':' ∷ b'a' ∷ b'b' ∷ b':' ∷ b'c' ∷ 0 ∷ [])) (b':' ∷ 0 ∷ [])
    ≡ some (some (b'a' ∷ b'b' ∷ 0 ∷ b'c' ∷ 0 ∷ []), some (b'c' ∷ 0 ∷ []))
unfolding is_delimiter skip_delimiters token_end
test_strtok = refl

-- Reversing the empty string leaves its object.
test_strrev_empty : strrev (0 ∷ []) ≡ none
unfolding strrev
test_strrev_empty = refl

test_move : move Mode.percent b'-' ≡ Move.next (Mode.width false true 0)
unfolding move
test_move = refl

test_convert_string :
    convert b's' false true 5 (Arg.string (some abc) ∷ [])
    ≡ some (b'a' ∷ b'b' ∷ b'c' ∷ b' ' ∷ b' ' ∷ [], [])
unfolding convert convert_string strlen
test_convert_string = refl

test_convert_char : convert b'c' false false 0 (Arg.int (pos 321) ∷ []) ≡ some (b'A' ∷ [], [])
unfolding convert convert_char
test_convert_char = refl

test_convert_pointer :
    convert b'p' false false 0 (Arg.unsigned 0xAB ∷ [])
    ≡ some (b'0' ∷ b'x' ∷ b'0' ∷ b'0' ∷ b'0' ∷ b'0' ∷ b'0' ∷ b'0' ∷ b'a' ∷ b'b' ∷ [], [])
unfolding convert convert_pointer number radix_loop strrev strlen
test_convert_pointer = refl

strncpy_overruns_example : strncpy abc (b'x' ∷ 0 ∷ []) 4 ≡ none
strncpy_overruns_example = strncpy_overruns abc (b'x' ∷ 0 ∷ []) 4 refl (omega arith) refl

strncpy-Copied_example : (d : Buffer) × (strncpy room abc 2 ≡ some d) × Copied room abc 2 d
strncpy-Copied_example = strncpy-Copied room abc 2 refl (omega arith)

strcmp-eq_example : (strcmp abc abc ≡ some (pos 0)) ↔ (text abc ≡ text abc)
strcmp-eq_example = strcmp-eq abc abc refl refl

memmove-snapshot_example :
    (get_or (memmove abc 1 0 2) 2 0 ≡ snapshot abc 1 0 2 2)
    × (length (memmove abc 1 0 2) ≡ length abc)
memmove-snapshot_example = memmove-snapshot abc 1 0 2 2 (omega arith) (omega arith)

atoi-itoa_example : atoi (itoa (negsuc 41)) ≡ some (negsuc 41)
atoi-itoa_example = atoi-itoa (negsuc 41) (omega arith) (omega arith)

-- "<%4s>"
abbrev string_format : Buffer
string_format = b'<' ∷ b'%' ∷ b'4' ∷ b's' ∷ b'>' ∷ 0 ∷ []
