-- ===== src/CString/Number/RoundTrip.antt =====
-- `itoa` of kernel/string.c, and `atoi` after it.
use mathlib.Core.List.{reverse, reverse-cons, reverse-append, append_assoc}
use krnel.Base.{
  ℕ, zero, suc, ◌+◌, ◌-◌, ◌*◌, ◌/◌, ◌^◌, ◌≤◌, ◌<◌, ◌≡◌, refl, ◌∙◌, true, false, some, List, [], ◌∷◌,
  ◌++◌, arith, ap, ◌==◌, ltb, if◌then◌else◌, length, get_or, length-append, get_or_ext, Bool-cases,
  inl, inr,
}
use krnel.Base.Int.{ℤ, pos, negsuc, pos_part, neg_part}
use krnel.CString.{◌>>=◌}
use krnel.CString.Number.{
  swaps, length-swaps, get-swaps, digits, int_digits, reversed, itoa, is_digit, atoi_loop, negate,
  atoi,
}

length-reverse : (xs : List ℕ) → length (reverse xs) ≡ length xs
length-reverse [] = refl
length-reverse (x ∷ xs) =
    rw reverse-cons (omega (arith, length-append (reverse xs) (x ∷ []), length-reverse xs))

at : (m : List ℕ) (i j : ℕ) → i ≡ j → get_or m i 0 ≡ get_or m j 0
at m i j e = ap (λ k. get_or m k 0) e

get_or-append :
    (xs ys : List ℕ) (i : ℕ)
    → get_or (xs ++ ys) i 0
      ≡ (if ltb i (length xs) then get_or xs i 0 else get_or ys (i - length xs) 0)
get_or-append [] ys i = ground (arith, at ys (i - 0) i (omega arith))
get_or-append (x ∷ xs) ys zero = ground arith
get_or-append (x ∷ xs) ys (suc i) = ground (arith, get_or-append xs ys i)

get_or-reverse :
    (xs : List ℕ) (i : ℕ)
    → i < length xs
    → get_or (reverse xs) i 0 ≡ get_or xs (length xs - 1 - i) 0
get_or-reverse [] i h = absurd (omega arith)
get_or-reverse (x ∷ xs) i h = rw reverse-cons (
    get_or-append (reverse xs) (x ∷ []) i ∙ elim (Bool-cases (ltb i (length xs))) [
      | inl y ↦ ground (
        arith,
        length-reverse xs,
        get_or-reverse xs i,
        at (x ∷ xs) (suc (length xs) - 1 - i) (suc (length xs - 1 - i)) (ground arith),
      )
      | inr n ↦ ground (
        arith,
        length-reverse xs,
        at (x ∷ xs) (suc (length xs) - 1 - i) 0 (ground arith),
        at (x ∷ []) (i - length (reverse xs)) 0 (ground (arith, length-reverse xs)),
      )
    ])

-- The in-place loop over a whole text reverses it.
pub reversed-eq-reverse : (m : List ℕ) → reversed m ≡ reverse m
reversed-eq-reverse [] = unfold swaps in refl
reversed-eq-reverse (x ∷ xs) =
    get_or_ext (reversed (x ∷ xs)) (reverse (x ∷ xs)) 0
      (omega (
        arith,
        length-swaps (suc (length xs)) (x ∷ xs) 0 (suc (length xs) - 1),
        length-reverse (x ∷ xs),
      ))
      (λ i h.
        let h' : i < suc (length xs) =
          omega (arith, length-swaps (suc (length xs)) (x ∷ xs) 0 (suc (length xs) - 1)) in
        get-swaps (suc (length xs)) (x ∷ xs) 0 (suc (length xs) - 1) i (omega arith) (omega arith)
        ∙ ground (
          arith,
          get_or-reverse (x ∷ xs) i h',
          at (x ∷ xs) (0 + (suc (length xs) - 1) - i) (suc (length xs) - 1 - i) (omega arith),
        ))

abbrev pow10 : ℕ → ℕ
pow10 zero = 1
pow10 (suc n) = 10 * pow10 n

-- The number that the digits stand for, last digit first.
abbrev value : List ℕ → ℕ
value [] = 0
value (d ∷ ds) = (d - b'0') + 10 * value ds

abbrev Digits : List ℕ → Type 0
Digits [] = Unit {0}
Digits (d ∷ ds) = (b'0' ≤ d) × (d ≤ b'9') × Digits ds

digits-value :
    (f n : ℕ)
    → n < pow10 f
    → 0 < f
    → (value (digits f n) ≡ n) × Digits (digits f n) × (0 < length (digits f n))
unfolding digits
digits-value zero n h p = absurd (omega arith)
digits-value (suc zero) n h p = elim (Bool-cases (ltb 0 (n / 10))) [
  | inl y ↦ absurd (ground arith)
  | inr x ↦ rw x (omega arith, (omega arith, omega arith, tt), omega arith)
]
digits-value (suc (suc f)) n h p = elim (Bool-cases (ltb 0 (n / 10))) [
  | inl y ↦ rw y (
      let (v, ds, l) = digits-value (suc f) (n / 10) (omega arith) (omega arith) in
      (omega arith, (omega arith, omega arith, ds), omega arith))
  | inr x ↦ rw x (ground arith, (omega arith, omega arith, tt), omega arith)
]

atoi_loop-reverse :
    (ds z : List ℕ) (acc : ℕ)
    → Digits ds
    → atoi_loop acc (reverse ds ++ z) ≡ atoi_loop (acc * pow10 (length ds) + value ds) z
unfolding atoi_loop
atoi_loop-reverse [] z acc d = ap (λ n. atoi_loop n z) (omega arith)
atoi_loop-reverse (d ∷ ds) z acc (lo, hi, r) =
    let isd : is_digit d ≡ true = ground arith in
    rw (reverse-cons, append_assoc, atoi_loop-reverse ds (d ∷ z) acc r, isd)
      (ap (λ n. atoi_loop n z) (omega arith))

Digits-append : (xs ys : List ℕ) → Digits xs → Digits ys → Digits (xs ++ ys)
Digits-append [] ys d e = e
Digits-append (x ∷ xs) ys (lo, hi, d) e = (lo, hi, Digits-append xs ys d e)

Digits-reverse : (xs : List ℕ) → Digits xs → Digits (reverse xs)
Digits-reverse [] d = tt
Digits-reverse (x ∷ xs) (lo, hi, d) =
    rw reverse-cons (Digits-append (reverse xs) (x ∷ []) (Digits-reverse xs d) (lo, hi, tt))

atoi_unsigned :
    (xs z : List ℕ)
    → Digits xs
    → 0 < length xs
    → atoi (xs ++ z) ≡ (atoi_loop 0 (xs ++ z) >>= λ n. some (pos n))
unfolding atoi
atoi_unsigned [] z d l = absurd (omega arith)
atoi_unsigned (x ∷ xs) z (lo, hi, d) l = let w : (x == b'-') ≡ false = ground arith in rw w

loop_stop : (acc : ℕ) → atoi_loop acc (0 ∷ []) ≡ some acc
unfolding atoi_loop
loop_stop acc = refl

-- What the loop of `atoi` reads from the reversed digits of `n`.
atoi_loop-digits :
    (n : ℕ) → n < 2 ^ 31 → atoi_loop 0 (reverse (digits int_digits n) ++ 0 ∷ []) ≡ some n
atoi_loop-digits n lt =
    let (v, ds, l) = digits-value int_digits n (omega arith) (omega arith) in
    atoi_loop-reverse (digits int_digits n) (0 ∷ []) 0 ds
    ∙ loop_stop (0 * pow10 (length (digits int_digits n)) + value (digits int_digits n))
    ∙ ap some (omega arith)

atoi-pos : (n : ℕ) → n < 2 ^ 31 → atoi (itoa (pos n)) ≡ some (pos n)
unfolding itoa
atoi-pos n lt =
    let (v, ds, l) = digits-value int_digits n (omega arith) (omega arith) in
    rw (reversed-eq-reverse (digits int_digits n)) (
      atoi_unsigned (reverse (digits int_digits n)) (0 ∷ []) (Digits-reverse _ ds)
        (omega (arith, length-reverse (digits int_digits n)))
      ∙ ap (λ o. o >>= λ k. some (pos k)) (atoi_loop-digits n lt))

reverse-snoc : (xs : List ℕ) (x : ℕ) → reverse (xs ++ x ∷ []) ≡ x ∷ reverse xs
reverse-snoc xs x = reverse-append xs (x ∷ [])

atoi-neg : (n : ℕ) → suc n < 2 ^ 31 → atoi (itoa (negsuc n)) ≡ some (negsuc n)
unfolding itoa atoi
atoi-neg n lt =
    rw
      (
        reversed-eq-reverse (digits int_digits (suc n) ++ b'-' ∷ []),
        reverse-snoc (digits int_digits (suc n)) b'-',
      )
      (ap (λ o. o >>= λ k. some (negate k)) (atoi_loop-digits (suc n) lt))

-- `atoi` reads back what `itoa` writes, for every `int` but the least one.
pub atoi-itoa : (n : ℤ) → pos_part n < 2 ^ 31 → neg_part n < 2 ^ 31 → atoi (itoa n) ≡ some n
atoi-itoa (pos n) lt lt' = atoi-pos n lt
atoi-itoa (negsuc n) lt lt' = atoi-neg n lt'
