-- ===== src/CString/Compare.antt =====
-- The comparing and searching functions of kernel/string.c. A byte is a number below 256, compared as
-- the `u8` or `char` of the code; a position found is an offset from the pointer, `none` for NULL.
use krnel.Base.{
  ℕ, zero, suc, ◌+◌, ◌<◌, ◌≡◌, ◌≢◌, ◌↔◌, refl, ◌∙◌, subst, Bool, true, false, ◌&&◌, ltb, leb,
  Option, none, some, List, [], ◌∷◌, arith, ap, ◌==◌, if◌then◌else◌, length, get_or, Bool-cases,
  inl, inr,
}
use krnel.Base.Int.{ℤ, pos, negsuc, sub_ℕ, low_byte}
use krnel.CString.{Buffer, text, terminated}

unfoldable pub strcmp : Buffer → Buffer → Option ℤ
strcmp [] t = none
strcmp (a ∷ s) [] = none
strcmp (a ∷ s) (b ∷ t) =
    let rest = strcmp s t in
    if a == 0 then some (sub_ℕ a b) else if a == b then rest else some (sub_ℕ a b)

unfoldable pub strncmp : Buffer → Buffer → ℕ → Option ℤ
strncmp s t zero = some (pos 0)
strncmp [] t (suc n) = none
strncmp (a ∷ s) [] (suc n) = none
strncmp (a ∷ s) (b ∷ t) (suc n) =
    let rest = strncmp s t n in
    if a == 0 then some (sub_ℕ a b) else if a == b then rest else some (sub_ℕ a b)

unfoldable pub memcmp : Buffer → Buffer → ℕ → Option ℤ
memcmp s t zero = some (pos 0)
memcmp [] t (suc n) = none
memcmp (a ∷ s) [] (suc n) = none
memcmp (a ∷ s) (b ∷ t) (suc n) =
    let rest = memcmp s t n in if a == b then rest else some (sub_ℕ a b)

abbrev pub later : Option (Option ℕ) → Option (Option ℕ)
later none = none
later (some none) = some none
later (some (some i)) = some (some (suc i))

-- `*str == c`: a `char` has a sign, so a byte `b` from 128 on is `b - 256` there.
abbrev pub is_char : ℤ → ℕ → Bool
is_char (pos n) b = b == n && ltb b 128
is_char (negsuc n) b = leb 128 b && b + n == 255

unfoldable pub strchr : Buffer → ℤ → Option (Option ℕ)
strchr [] c = none
strchr (a ∷ s) c =
    let rest = later (strchr s c) in
    if a == 0 then some none else if is_char c a then some (some 0) else rest

-- `last` is the last match so far, and `i` the offset of the pointer.
strrchr_loop : Buffer → ℤ → ℕ → Option ℕ → Option (Option ℕ)
strrchr_loop [] c i last = none
strrchr_loop (a ∷ s) c i last =
    let rest = strrchr_loop s c (suc i) (if is_char c a then some i else last) in
    if a == 0 then some last else rest

unfoldable pub strrchr : Buffer → ℤ → Option (Option ℕ)
unfolding strrchr_loop
strrchr s c = strrchr_loop s c 0 none

unfoldable pub memchr : Buffer → ℤ → ℕ → Option (Option ℕ)
memchr s c zero = some none
memchr [] c (suc n) = none
memchr (a ∷ s) c (suc n) =
    let rest = later (memchr s c n) in if a == low_byte c then some (some 0) else rest

-- The order of two texts: the difference of their first bytes that differ, where the end counts as 0.
abbrev pub order : List ℕ → List ℕ → ℤ
order [] [] = pos 0
order [] (b ∷ t) = sub_ℕ 0 b
order (a ∷ s) [] = pos a
order (a ∷ s) (b ∷ t) = let rest = order s t in if a == b then rest else sub_ℕ a b

-- `strcmp` of two C strings stays in them, and is the difference at the first place where their texts
-- differ.
pub strcmp-order :
    (s t : Buffer)
    → terminated s ≡ true
    → terminated t ≡ true
    → strcmp s t ≡ some (order (text s) (text t))
unfolding strcmp
strcmp-order [] t h k = cc
strcmp-order (a ∷ s) [] h k = cc
strcmp-order (a ∷ s) (b ∷ t) h k = ground (arith, strcmp-order s t)

abbrev Nonzero : List ℕ → Type 0
Nonzero [] = Unit {0}
Nonzero (a ∷ s) = (a ≢ 0) × Nonzero s

text-Nonzero : (s : Buffer) → Nonzero (text s)
text-Nonzero [] = tt
text-Nonzero (a ∷ s) = elim (Bool-cases (a == 0)) [
  | inl y ↦ rw y tt
  | inr n ↦ rw n (ground arith, text-Nonzero s)
]

order-zero : (s t : List ℕ) → Nonzero s → Nonzero t → order s t ≡ pos 0 → s ≡ t
order-zero [] [] p q h = refl
order-zero [] (b ∷ t) p q h = absurd (ground arith)
order-zero (a ∷ s) [] p q h = absurd (ground arith)
order-zero (a ∷ s) (b ∷ t) p q h = ground (arith, order-zero s t)

order_self : (s : List ℕ) → order s s ≡ pos 0
order_self [] = refl
order_self (a ∷ s) = ground (arith, order_self s)

-- `strcmp` returns 0 exactly when the two C strings have the same text.
pub strcmp-eq :
    (s t : Buffer)
    → terminated s ≡ true
    → terminated t ≡ true
    → (strcmp s t ≡ some (pos 0)) ↔ (text s ≡ text t)
strcmp-eq s t h k = (to, from)
  where
    to : strcmp s t ≡ some (pos 0) → text s ≡ text t
    to e =
        order-zero (text s) (text t) (text-Nonzero s) (text-Nonzero t)
          (ground (arith, strcmp-order s t h k))

    from : text s ≡ text t → strcmp s t ≡ some (pos 0)
    from e =
        strcmp-order s t h k
        ∙ ap some (subst (λ x. order (text s) x ≡ pos 0) e (order_self (text s)))

-- `r` is the offset of the first `c` of the text, or NULL if it has none.
abbrev pub First : ℤ → List ℕ → Option ℕ → Type 0
First c t none = (j : ℕ) → j < length t → is_char c (get_or t j 0) ≡ false
First c t (some i) =
    (i < length t)
    × (is_char c (get_or t i 0) ≡ true)
    × ((j : ℕ) → j < i → is_char c (get_or t j 0) ≡ false)

First-cons :
    (a : ℕ) (c : ℤ) (t : List ℕ) (o : Option (Option ℕ))
    → is_char c a ≡ false
    → (r : Option ℕ) × (o ≡ some r) × First c t r
    → (r : Option ℕ) × (later o ≡ some r) × First c (a ∷ t) r
First-cons a c t o ne (none, e, f) = (none, ap later e, outside)
  where
    outside : (j : ℕ) → j < length (a ∷ t) → is_char c (get_or (a ∷ t) j 0) ≡ false
    outside zero h = ne
    outside (suc j) h = f j (omega arith)
First-cons a c t o ne (some i, e, (lt, at, f)) =
    (some (suc i), ap later e, (omega arith, at, before))
  where
    before : (j : ℕ) → j < suc i → is_char c (get_or (a ∷ t) j 0) ≡ false
    before zero h = ne
    before (suc j) h = f j (omega arith)

-- `strchr` stays in the string; it returns the offset of the first `c` of the text, or NULL if the text
-- has none.
pub strchr-First :
    (s : Buffer) (c : ℤ)
    → terminated s ≡ true
    → (r : Option ℕ) × (strchr s c ≡ some r) × First c (text s) r
unfolding strchr
strchr-First [] c h = cc
strchr-First (a ∷ s) c h = elim (Bool-cases (a == 0)) [
  | inl y ↦ rw y (none, refl, λ j k. absurd (omega arith))
  | inr n ↦ elim (Bool-cases (is_char c a)) [
    | inl y ↦ rw (n, y) (some 0, refl, (omega arith, y, λ j k. absurd (omega arith)))
    | inr m ↦ rw (n, m) (First-cons a c (text s) (strchr s c) m (strchr-First s c (rw n at h)))
  ]
]
