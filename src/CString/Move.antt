-- ===== src/CString/Move.antt =====
-- `memmove` of kernel/string.c, which works in place: offsets into one object.
use krnel.Base.{
  ℕ, zero, suc, ◌+◌, ◌-◌, ◌≤◌, ◌<◌, ◌≡◌, refl, ◌∙◌, ◌&&◌, arith, ap, ◌==◌, leb, ltb, if◌then◌else◌,
  length, get_or, set, length-set, get_or-set_self, get_or-set_ne, Bool-cases, inl, inr,
}
use krnel.CString.{Buffer}

-- `*d = *s`; an access outside the object changes nothing, which `memmove-snapshot` rules out.
abbrev pub copy_byte : Buffer → ℕ → ℕ → Buffer
copy_byte m d s = set m d (get_or m s 0)

-- `while (num--) *d++ = *s++`
pub forward : ℕ → Buffer → ℕ → ℕ → Buffer
forward zero m d s = m
forward (suc n) m d s = forward n (copy_byte m d s) (d + 1) (s + 1)

-- `while (num--) *--d = *--s`
pub backward : ℕ → Buffer → ℕ → ℕ → Buffer
backward zero m d s = m
backward (suc n) m d s = backward n (copy_byte m (d - 1) (s - 1)) (d - 1) (s - 1)

-- `dest` and `src` are offsets into the same object `m`.
unfoldable pub memmove : Buffer → ℕ → ℕ → ℕ → Buffer
unfolding forward backward
memmove m d s n = if ltb d s then forward n m d s else backward n m (d + n) (s + n)

pub length-forward : (n : ℕ) (m : Buffer) (d s : ℕ) → length (forward n m d s) ≡ length m
unfolding forward
length-forward zero m d s = refl
length-forward (suc n) m d s =
    length-forward n (copy_byte m d s) (d + 1) (s + 1) ∙ length-set m d (get_or m s 0)

pub length-backward : (n : ℕ) (m : Buffer) (d s : ℕ) → length (backward n m d s) ≡ length m
unfolding backward
length-backward zero m d s = refl
length-backward (suc n) m d s =
    length-backward n (copy_byte m (d - 1) (s - 1)) (d - 1) (s - 1)
    ∙ length-set m (d - 1) (get_or m (s - 1) 0)

-- The bytes of `m` with `n` bytes from `s` on copied to `d` at once.
abbrev pub snapshot : Buffer → ℕ → ℕ → ℕ → ℕ → ℕ
snapshot m d s n i = if leb d i && ltb i (d + n) then get_or m (s + i - d) 0 else get_or m i 0

get-copy_byte :
    (m : Buffer) (d s i : ℕ)
    → d < length m
    → get_or (copy_byte m d s) i 0 ≡ (if i == d then get_or m s 0 else get_or m i 0)
get-copy_byte m d s i lt = elim (Bool-cases (i == d)) [
  | inl y ↦ let e : d ≡ i = ground arith in rw (y, ← e) (get_or-set_self m d (get_or m s 0) 0 lt)
  | inr n ↦ rw n (get_or-set_ne m d i (get_or m s 0) 0 (ground arith))
]

forward_step :
    (m : Buffer) (d s n i : ℕ)
    → d < s
    → d < length m
    → snapshot (copy_byte m d s) (d + 1) (s + 1) n i ≡ snapshot m d s (suc n) i
forward_step m d s n i lt fit =
    let e1 : get_or m (s + 1 + i - (d + 1)) 0 ≡ get_or m (s + i - d) 0 =
      ap (λ k. get_or m k 0) (omega arith) in
    elim (Bool-cases (i == d)) [
      | inl y ↦
          let w : get_or m (s + i - d) 0 ≡ get_or m s 0 = ap (λ k. get_or m k 0) (ground arith) in
          ground (arith, get-copy_byte m d s i fit)
      | inr x ↦
          ground (arith, get-copy_byte m d s i fit, get-copy_byte m d s (s + 1 + i - (d + 1)) fit)
    ]

backward_step :
    (m : Buffer) (d s n i : ℕ)
    → s ≤ d
    → d + n < length m
    → snapshot (copy_byte m (d + n) (s + n)) d s n i ≡ snapshot m d s (suc n) i
backward_step m d s n i lt fit = elim (Bool-cases (i == d + n)) [
  | inl y ↦
      let w : get_or m (s + i - d) 0 ≡ get_or m (s + n) 0 = ap (λ k. get_or m k 0) (ground arith) in
      ground (arith, get-copy_byte m (d + n) (s + n) i fit)
  | inr x ↦ ground (
    arith,
    get-copy_byte m (d + n) (s + n) i fit,
    get-copy_byte m (d + n) (s + n) (s + i - d) fit,
  )
]

forward_lem :
    (n : ℕ) (m : Buffer) (d s i : ℕ)
    → d < s
    → s + n ≤ length m
    → get_or (forward n m d s) i 0 ≡ snapshot m d s n i
unfolding forward
forward_lem zero m d s i lt fit = ground arith
forward_lem (suc n) m d s i lt fit =
    let fit' : s + 1 + n ≤ length (copy_byte m d s) =
      omega (arith, length-set m d (get_or m s 0)) in
    forward_lem n (copy_byte m d s) (d + 1) (s + 1) i (omega arith) fit'
    ∙ forward_step m d s n i lt (omega arith)

backward_lem :
    (n : ℕ) (m : Buffer) (d s i : ℕ)
    → s ≤ d
    → d + n ≤ length m
    → get_or (backward n m (d + n) (s + n)) i 0 ≡ snapshot m d s n i
unfolding backward
backward_lem zero m d s i lt fit = ground arith
backward_lem (suc n) m d s i lt fit =
    let fit' : d + n ≤ length (copy_byte m (d + n) (s + n)) =
      omega (arith, length-set m (d + n) (get_or m (s + n) 0)) in
    let e : d + suc n - 1 ≡ d + n = omega arith in
    let e' : s + suc n - 1 ≡ s + n = omega arith in
    rw (e, e')
      (backward_lem n (copy_byte m (d + n) (s + n)) d s i lt fit'
        ∙ backward_step m d s n i lt (omega arith))

-- `memmove` copies as if from a snapshot, however the two ranges overlap: the `n` bytes at `d` become
-- the `n` bytes that stood at `s`, and every other byte stays.
pub memmove-snapshot :
    (m : Buffer) (d s n i : ℕ)
    → d + n ≤ length m
    → s + n ≤ length m
    → (get_or (memmove m d s n) i 0 ≡ snapshot m d s n i) × (length (memmove m d s n) ≡ length m)
unfolding memmove
memmove-snapshot m d s n i fd fs = elim (Bool-cases (ltb d s)) [
  | inl y ↦ rw y (forward_lem n m d s i (ground arith) fs, length-forward n m d s)
  | inr x ↦ rw x (backward_lem n m d s i (ground arith) fd, length-backward n m (d + n) (s + n))
]
