-- ===== src/CString/Number.antt =====
-- `strrev`, `itoa` and `atoi` of kernel/string.c. A value of type `int` is an integer of absolute value
-- below 2 ^ 31; for others the code's own arithmetic overflows, which C leaves undefined.
pub mod RoundTrip
use krnel.Base.{
  ℕ, zero, suc, ◌+◌, ◌-◌, ◌*◌, ◌/◌, ◌%◌, ◌^◌, ◌≤◌, ◌<◌, ◌≡◌, refl, ◌∙◌, Bool, true, false, ◌&&◌,
  Option, none, some, List, [], ◌∷◌, ◌++◌, arith, ap, ◌==◌, leb, ltb, if◌then◌else◌, length, get_or,
  set, length-set, get_or-set_self, get_or-set_ne, Bool-cases, inl, inr,
}
use krnel.Base.Int.{ℤ, pos, negsuc}
use krnel.CString.{Buffer, ◌>>=◌, strlen}

abbrev pub swap : Buffer → ℕ → ℕ → Buffer
swap m j k = set (set m j (get_or m k 0)) k (get_or m j 0)

-- `for (…; j < k; j++, k--)` over the two ends; every round shortens the gap, so its length is fuel
-- enough.
pub swaps : ℕ → Buffer → ℕ → ℕ → Buffer
swaps zero m j k = m
swaps (suc fuel) m j k =
    let rest = swaps fuel (swap m j k) (j + 1) (k - 1) in if ltb j k then rest else m

-- `strlen(str) - 1` wraps for the empty string, and the loop starts by writing there.
unfoldable pub strrev : Buffer → Option Buffer
unfolding swaps strlen
strrev s = strlen s >>= λ l.
    let j = (l + 2 ^ 32 - 1) % 2 ^ 32 in
    if ltb 0 j then (if ltb j (length s) then some (swaps l s 0 j) else none) else some s

-- The digits of `n`, last first: `do { … n % 10 + '0' … } while ((n /= 10) > 0)`.
unfoldable pub digits : ℕ → ℕ → List ℕ
digits zero n = []
digits (suc fuel) n =
    let rest = digits fuel (n / 10) in (n % 10 + b'0') ∷ (if ltb 0 (n / 10) then rest else [])

-- An `int` has at most ten digits.
abbrev pub int_digits : ℕ
int_digits = 10

abbrev pub reversed : List ℕ → Buffer
reversed m = swaps (length m) m 0 (length m - 1)

-- The bytes that `itoa` writes.
unfoldable pub itoa : ℤ → Buffer
itoa (pos n) = reversed (digits int_digits n) ++ 0 ∷ []
itoa (negsuc n) = reversed (digits int_digits (suc n) ++ b'-' ∷ []) ++ 0 ∷ []

abbrev pub is_digit : ℕ → Bool
is_digit c = leb b'0' c && leb c b'9'

pub atoi_loop : ℕ → Buffer → Option ℕ
atoi_loop acc [] = none
atoi_loop acc (c ∷ s) =
    let rest = atoi_loop (acc * 10 + (c - b'0')) s in if is_digit c then rest else some acc

-- `sign * result`
abbrev pub negate : ℕ → ℤ
negate zero = pos 0
negate (suc n) = negsuc n

pub atoi : Buffer → Option ℤ
atoi [] = none
atoi (c ∷ s) =
    if c == b'-'
    then (atoi_loop 0 s >>= λ n. some (negate n))
    else atoi_loop 0 (c ∷ s) >>= λ n. some (pos n)

pub length-swaps : (f : ℕ) (m : Buffer) (j k : ℕ) → length (swaps f m j k) ≡ length m
unfolding swaps
length-swaps zero m j k = refl
length-swaps (suc f) m j k = elim (Bool-cases (ltb j k)) [
  | inl y ↦ rw y (
      length-swaps f (swap m j k) (j + 1) (k - 1)
      ∙ length-set (set m j (get_or m k 0)) k (get_or m j 0)
      ∙ length-set m j (get_or m k 0))
  | inr n ↦ rw n
]

get-swap :
    (m : Buffer) (j k i : ℕ)
    → j < k
    → k < length m
    → get_or (swap m j k) i 0
      ≡ (if i == k then get_or m j 0 else if i == j then get_or m k 0 else get_or m i 0)
get-swap m j k i lt fit =
    let fit' : k < length (set m j (get_or m k 0)) = omega (arith, length-set m j (get_or m k 0)) in
    elim (Bool-cases (i == k)) [
      | inl y ↦
          let e : k ≡ i = ground arith in
          rw (y, ← e) (get_or-set_self (set m j (get_or m k 0)) k (get_or m j 0) 0 fit')
      | inr n ↦ rw n (
          get_or-set_ne (set m j (get_or m k 0)) k i (get_or m j 0) 0 (ground arith)
          ∙ elim (Bool-cases (i == j)) [
            | inl y ↦
                let e : j ≡ i = ground arith in
                rw (y, ← e) (get_or-set_self m j (get_or m k 0) 0 (omega arith))
            | inr x ↦ rw x (get_or-set_ne m j i (get_or m k 0) 0 (ground arith))
          ])
    ]

at : (m : Buffer) (i j : ℕ) → i ≡ j → get_or m i 0 ≡ get_or m j 0
at m i j e = ap (λ k. get_or m k 0) e

swaps_done :
    (m : Buffer) (j k i : ℕ)
    → k ≤ j
    → get_or m i 0 ≡ (if leb j i && leb i k then get_or m (j + k - i) 0 else get_or m i 0)
swaps_done m j k i h = elim (Bool-cases (leb j i && leb i k)) [
  | inl y ↦ rw y (at m i (j + k - i) (ground arith))
  | inr n ↦ rw n
]

swaps_step :
    (m : Buffer) (j k i : ℕ)
    → j < k
    → k < length m
    → (if leb (j + 1) i && leb i (k - 1)
        then get_or (swap m j k) (j + 1 + (k - 1) - i) 0
        else get_or (swap m j k) i 0)
      ≡ (if leb j i && leb i k then get_or m (j + k - i) 0 else get_or m i 0)
swaps_step m j k i lt fit = elim (Bool-cases (i == k)) [
  | inl y ↦ ground (arith, get-swap m j k i lt fit, at m (j + k - i) j (ground arith))
  | inr n ↦ elim (Bool-cases (i == j)) [
    | inl y ↦ ground (arith, get-swap m j k i lt fit, at m (j + k - i) k (ground arith))
    | inr x ↦ ground (
      arith,
      get-swap m j k i lt fit,
      get-swap m j k (j + 1 + (k - 1) - i) lt fit,
      at m (j + 1 + (k - 1) - i) (j + k - i) (omega arith),
    )
  ]
]

-- The loop turns round the bytes from `j` to `k`.
pub get-swaps :
    (f : ℕ) (m : Buffer) (j k i : ℕ)
    → k < length m
    → k < j + f
    → get_or (swaps f m j k) i 0
      ≡ (if leb j i && leb i k then get_or m (j + k - i) 0 else get_or m i 0)
unfolding swaps
get-swaps zero m j k i fit lt = ground arith
get-swaps (suc f) m j k i fit lt = elim (Bool-cases (ltb j k)) [
  | inl y ↦ rw y (
      get-swaps f (swap m j k) (j + 1) (k - 1) i
        (omega (
          arith,
          length-set (set m j (get_or m k 0)) k (get_or m j 0),
          length-set m j (get_or m k 0),
        ))
        (ground arith)
      ∙ swaps_step m j k i (ground arith) fit)
  | inr n ↦ rw n (swaps_done m j k i (ground arith))
]
