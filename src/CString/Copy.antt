-- ===== src/CString/Copy.antt =====
-- The copying functions of kernel/string.c.
use krnel.Base.{
  ℕ, zero, suc, ◌-◌, ◌≤◌, ◌<◌, ◌≡◌, refl, true, false, none, some, [], ◌∷◌, ◌++◌, arith, ap, ◌==◌,
  length, take, drop, replicate, Bool-cases, inl, inr, set, length-append, length-replicate,
  length-drop,
}
use krnel.CString.{Buffer, text, terminated, strlen, strcpy, pad, strncpy}

-- `strlen` of a terminated buffer is the length of its text, and stays inside the buffer.
pub strlen-text :
    (s : Buffer)
    → terminated s ≡ true
    → (strlen s ≡ some (length (text s))) × (length (text s) < length s)
unfolding strlen
strlen-text [] h = cc
strlen-text (c ∷ s) h = ground (arith, strlen-text s)

-- Without a NUL, `strlen` runs out of the buffer.
pub strlen-none : (s : Buffer) → terminated s ≡ false → strlen s ≡ none
unfolding strlen
strlen-none [] h = refl
strlen-none (c ∷ s) h = ground (arith, strlen-none s)

-- `strcpy` of a terminated source writes its text and a NUL over the front of the destination, if they
-- fit.
pub strcpy_fits :
    (d s : Buffer)
    → terminated s ≡ true
    → length (text s) < length d
    → strcpy d s ≡ some (text s ++ 0 ∷ drop (suc (length (text s))) d)
unfolding strcpy
strcpy_fits d [] t h = cc
strcpy_fits [] (c ∷ s) t h = absurd (omega arith)
strcpy_fits (x ∷ d) (c ∷ s) t h = ground (arith, strcpy_fits d s)

-- A text that does not fit with its NUL makes `strcpy` leave the destination.
pub strcpy_overflows : (d s : Buffer) → length d ≤ length (text s) → strcpy d s ≡ none
unfolding strcpy
strcpy_overflows d [] h = refl
strcpy_overflows [] (c ∷ s) h = refl
strcpy_overflows (x ∷ d) (c ∷ s) h = ground (arith, strcpy_overflows d s)

pad_lem : (d : Buffer) (n : ℕ) → n ≤ length d → pad d n ≡ some (replicate n 0 ++ drop n d)
unfolding pad
pad_lem d zero h = refl
pad_lem [] (suc n) h = absurd (omega arith)
pad_lem (x ∷ d) (suc n) h = rw (pad_lem d n (omega arith))

-- `strncpy` of a text shorter than `n` writes `n + 1` bytes: the text, then zeros.
pub strncpy_short :
    (d s : Buffer) (n : ℕ)
    → terminated s ≡ true
    → length (text s) < n
    → n < length d
    → strncpy d s n ≡ some (text s ++ replicate (suc n - length (text s)) 0 ++ drop (suc n) d)
unfolding strncpy
strncpy_short d [] n t lt fit = cc
strncpy_short d (c ∷ s) zero t lt fit = absurd (omega arith)
strncpy_short [] (c ∷ s) (suc n) t lt fit = absurd (omega arith)
strncpy_short (x ∷ d) (c ∷ s) (suc n) t lt fit =
    ground (arith, strncpy_short d s n, pad_lem d (suc n))

-- `strncpy` of a text of at least `n` bytes writes its first `n` bytes, and no NUL.
pub strncpy_long :
    (d s : Buffer) (n : ℕ)
    → n ≤ length (text s)
    → n ≤ length d
    → strncpy d s n ≡ some (take n (text s) ++ drop n d)
unfolding strncpy
strncpy_long d s zero lt fit = refl
strncpy_long d [] (suc n) lt fit = absurd (omega arith)
strncpy_long [] (c ∷ s) (suc n) lt fit = absurd (omega arith)
strncpy_long (x ∷ d) (c ∷ s) (suc n) lt fit = ground (arith, strncpy_long d s n)

-- A destination of exactly `n` bytes is overrun by a shorter text.
pub strncpy_overruns :
    (d s : Buffer) (n : ℕ)
    → terminated s ≡ true
    → length (text s) < n
    → length d ≡ n
    → strncpy d s n ≡ none
unfolding strncpy
strncpy_overruns d [] n t lt fit = cc
strncpy_overruns d (c ∷ s) zero t lt fit = absurd (omega arith)
strncpy_overruns [] (c ∷ s) (suc n) t lt fit = refl
strncpy_overruns (x ∷ d) (c ∷ s) (suc n) t lt fit =
    ground (arith, strncpy_overruns d s n, pad_overruns d (suc n))
  where
    pad_overruns : (d : Buffer) (n : ℕ) → length d < n → pad d n ≡ none
    pad_overruns d zero h = absurd (omega arith)
    pad_overruns [] (suc n) h = refl
    pad_overruns (x ∷ d) (suc n) h = unfold pad in rw (pad_overruns d n (omega arith))

-- Copying with room for one byte more and writing a NUL at `n`, as the kernel does throughout, leaves
-- a terminated buffer of the same length that holds the first `n` bytes of the source's text.
pub record Copied (d s : Buffer) (n : ℕ) (d' : Buffer) : Type 0 where
  pub same_length : length d' ≡ length d
  pub copies : text (set d' n 0) ≡ take n (text s)
  pub ends : terminated (set d' n 0) ≡ true

pub strncpy-Copied :
    (d s : Buffer) (n : ℕ)
    → terminated s ≡ true
    → n < length d
    → (d' : Buffer) × (strncpy d s n ≡ some d') × Copied d s n d'
unfolding strncpy
strncpy-Copied [] s n t fit = absurd (omega arith)
strncpy-Copied (x ∷ d) s zero t fit =
    (x ∷ d, refl, record { same_length = refl; copies = refl; ends = refl })
strncpy-Copied (x ∷ d) [] (suc n) t fit = cc
strncpy-Copied (x ∷ d) (c ∷ s) (suc n) t fit = elim (Bool-cases (c == 0)) [
  | inl y ↦ rw y (
      rw (pad_lem d (suc n) (omega arith)) (
        0 ∷ replicate (suc n) 0 ++ drop (suc n) d,
        refl,
        record {
          same_length = omega (
            arith,
            length-append {A = ℕ} (replicate (suc n) 0) (drop (suc n) d),
            length-replicate {A = ℕ} (suc n) 0,
            length-drop {A = ℕ} (suc n) d,
          );
          copies = rw y;
          ends = refl;
        },
      ))
  | inr x' ↦
      let (d', e, r) = strncpy-Copied d s n (ground arith) (omega arith) in
      rw x' (
        rw e (
          c ∷ d',
          refl,
          record {
            same_length = omega (arith, r.same_length);
            copies = rw x' (ap (λ l. c ∷ l) r.copies);
            ends = rw x' r.ends;
          },
        ))
]
