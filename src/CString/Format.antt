-- ===== src/CString/Format.antt =====
-- `vsnprintf` of kernel/string.c, on the arguments that `va_arg` takes one after the other.
pub mod Bounds
use krnel.Base.{
  ℕ, zero, suc, ◌+◌, ◌-◌, ◌*◌, ◌/◌, ◌%◌, ◌^◌, ◌≤◌, ◌<◌, ◌≡◌, Bool, true, false, ◌&&◌, ◌||◌, Option,
  none, some, List, [], ◌∷◌, ◌++◌, ◌==◌, leb, ltb, if◌then◌else◌, length, drop, replicate,
}
use krnel.Base.Int.{ℤ, pos, negsuc, low_byte}
use krnel.CString.{Buffer, ◌>>=◌, text, strlen}
use krnel.CString.Number.{strrev, itoa, is_digit}

-- A variable argument; one of another type than the format asks for is undefined in C, and `none` here.
pub data Arg : Type 0 where
  int : ℤ → Arg
  unsigned : ℕ → Arg
  string : Option Buffer → Arg

-- What `PUT` has written, and how many more bytes it may.
pub record Out : Type 0 where
  pub written : List ℕ
  pub left : ℕ

abbrev pub put_char : Out → ℕ → Out
put_char o ch =
    if ltb 0 o.left then record { written = o.written ++ ch ∷ []; left = o.left - 1 } else o

abbrev pub puts : Out → List ℕ → Out
puts o [] = o
puts o (ch ∷ chs) = puts (put_char o ch) chs

-- `hex[d]`; `a` is the digit for ten.
abbrev pub digit_of : ℕ → ℕ → ℕ
digit_of a d = if ltb d 10 then b'0' + d else a + (d - 10)

-- `while (val) { buf[i++] = …; val /= base; }`: a 32-bit value has at most ten digits.
unfoldable pub radix_loop : ℕ → ℕ → ℕ → ℕ → List ℕ
radix_loop zero base a val = []
radix_loop (suc fuel) base a val =
    let rest = radix_loop fuel base a (val / base) in
    if val == 0 then [] else digit_of a (val % base) ∷ rest

-- `buf` after `strrev`.
unfoldable pub number : ℕ → ℕ → ℕ → Option (List ℕ)
number base a val =
    let buf = if val == 0 then b'0' ∷ [] else radix_loop 10 base a val in
    strrev (buf ++ 0 ∷ []) >>= λ r. some (text r)

-- The padding in front of the text or behind it.
abbrev pub field : Bool → Bool → ℕ → List ℕ → List ℕ
field zero_pad left_align width t =
    if left_align
    then t ++ replicate (width - length t) b' '
    else replicate (width - length t) (if zero_pad then b'0' else b' ') ++ t

-- The bytes that a conversion passes to `PUT`, and the arguments left.
abbrev pub Converted : Type 0
Converted = Option (List ℕ × List Arg)

abbrev pub shown : List Arg → Option (List ℕ) → Converted
shown args none = none
shown args (some t) = some (t, args)

abbrev pub mapped : (List ℕ → List ℕ) → Option (List ℕ) → Option (List ℕ)
mapped f none = none
mapped f (some t) = some (f t)

unfoldable pub convert_int : Bool → Bool → ℕ → List Arg → Converted
convert_int z l w (Arg.int n ∷ args) = some (field z l w (text (itoa n)), args)
convert_int z l w args = none

unfoldable pub convert_unsigned : Bool → Bool → ℕ → ℕ → ℕ → List Arg → Converted
unfolding number
convert_unsigned z l w base a (Arg.unsigned n ∷ args) =
    shown args (mapped (field z l w) (number base a n))
convert_unsigned z l w base a args = none

unfoldable pub convert_pointer : List Arg → Converted
unfolding number
convert_pointer (Arg.unsigned n ∷ args) =
    shown args (mapped (λ t. b'0' ∷ b'x' ∷ replicate (8 - length t) b'0' ++ t) (number 16 b'a' n))
convert_pointer args = none

-- "(null)"
abbrev pub null_text : List ℕ
null_text = b'(' ∷ b'n' ∷ b'u' ∷ b'l' ∷ b'l' ∷ b')' ∷ []

unfoldable pub convert_string : Bool → ℕ → List Arg → Converted
convert_string l w (Arg.string none ∷ args) = some (field false l w null_text, args)
convert_string l w (Arg.string (some s) ∷ args) = elim (strlen s) [
  | none ↦ none
  | some n ↦ some (field false l w (text s), args)
]
convert_string l w args = none

-- `(char)va_arg(args, int)`
unfoldable pub convert_char : List Arg → Converted
convert_char (Arg.int n ∷ args) = some (low_byte n ∷ [], args)
convert_char args = none

-- The `switch`.
unfoldable pub convert : ℕ → Bool → Bool → ℕ → List Arg → Converted
convert c z l w args =
    if c == b'd' || c == b'i'
    then convert_int z l w args
    else if c == b'u'
    then convert_unsigned z l w 10 b'a' args
    else if c == b'x'
    then convert_unsigned z l w 16 b'a' args
    else if c == b'X'
    then convert_unsigned z l w 16 b'A' args
    else if c == b'p'
    then convert_pointer args
    else if c == b's'
    then convert_string l w args
    else if c == b'c'
    then convert_char args
    else if c == b'%'
    then some (b'%' ∷ [], args)
    else some (b'%' ∷ c ∷ [], args)

-- Where in the format the loop stands: in text, behind `%`, behind its `0`, or in its width.
pub data Mode : Type 0 where
  plain : Mode
  percent : Mode
  padded : Bool → Mode
  width : Bool → Bool → ℕ → Mode

-- What a byte of the format makes the loop do.
pub data Move : Type 0 where
  stop : Move
  next : Mode → Move
  literal : ℕ → Move
  conversion : ℕ → Bool → Bool → ℕ → Move

abbrev pub in_width : Bool → Bool → ℕ → ℕ → Move
in_width z l w c =
    if is_digit c then Move.next (Mode.width z l (w * 10 + (c - b'0'))) else Move.conversion c z l w

abbrev pub in_align : Bool → ℕ → Move
in_align z c = if c == b'-' then Move.next (Mode.width z true 0) else in_width z false 0 c

unfoldable pub move : Mode → ℕ → Move
move Mode.plain c =
    if c == 0 then Move.stop else if c == b'%' then Move.next Mode.percent else Move.literal c
move Mode.percent c = if c == b'0' then Move.next (Mode.padded true) else in_align false c
move (Mode.padded z) c = in_align z c
move (Mode.width z l w) c = in_width z l w c

-- `while (*f)`; a format that ends behind a `%` is read on behind its NUL.
unfoldable pub format_loop : Mode → Buffer → List Arg → Out → Option Out
format_loop mode [] args o = none
format_loop mode (c ∷ f) args o = elim (move mode c) [
  | Move.stop ↦ some o
  | Move.next mode' ↦ format_loop mode' f args o
  | Move.literal c' ↦ format_loop Mode.plain f args (put_char o c')
  | Move.conversion c' z l w ↦ elim (convert c' z l w args) [
    | none ↦ none
    | some r ↦ format_loop Mode.plain f r.1 (puts o r.0)
  ]
]

-- `*out = '\0'`, and the number of bytes in front of it; `none`: it does not fit in `str`.
abbrev pub finish : Buffer → Out → Option (Buffer × ℕ)
finish str o =
    let n = length o.written in
    if ltb n (length str) then some (o.written ++ 0 ∷ drop (suc n) str, n) else none

unfoldable pub vsnprintf : Buffer → ℕ → Buffer → List Arg → Option (Buffer × ℕ)
vsnprintf str zero format args = some (str, 0)
vsnprintf str (suc size) format args =
    elim (format_loop Mode.plain format args (record { written = []; left = size })) [
      | none ↦ none
      | some o ↦ finish str o
    ]
