-- ===== src/Tty/Input.antt =====
-- The input ring of kernel/tty.c, and the bytes that wait in it.
use krnel.Base.{
  ℕ, zero, suc, ◌+◌, ◌-◌, ◌%◌, ◌<◌, ◌≡◌, ◌≢◌, refl, ◌∙◌, ap, ap₂, true, false, List, [], ◌∷◌, ◌++◌,
  ◌==◌, if◌then◌else◌, length, get_or, set, length-set, get_or-set_self, get_or-set_ne, arith,
  Bool-cases, inl, inr, ◌⊎◌,
}
use krnel.Base.Int.{ℤ, low_byte}
use krnel.Tty.{Tty, tty_buf_size, getc, feed}

-- The `n` bytes from index `i` on, going round at the end of the ring.
abbrev pub stored : List ℕ → ℕ → ℕ → List ℕ
stored buf i zero = []
stored buf i (suc n) = get_or buf i 0 ∷ stored buf ((i + 1) % tty_buf_size) n

abbrev pub pending : Tty → ℕ
pending t = (t.in_head + tty_buf_size - t.in_tail) % tty_buf_size

-- The bytes fed and not yet read, oldest first.
abbrev pub input : Tty → List ℕ
input t = stored t.input_buf t.in_tail (pending t)

pub record IsRing (t : Tty) : Type 0 where
  pub buf_length : length t.input_buf ≡ tty_buf_size
  pub head_lt : t.in_head < tty_buf_size
  pub tail_lt : t.in_tail < tty_buf_size

pub length-stored : (buf : List ℕ) (i n : ℕ) → length (stored buf i n) ≡ n
length-stored buf i zero = refl
length-stored buf i (suc n) = ap suc (length-stored buf ((i + 1) % tty_buf_size) n)

-- A byte written just behind the stored ones is the next of them.
stored-set :
    (n : ℕ) (buf : List ℕ) (i j x : ℕ)
    → length buf ≡ tty_buf_size
    → i < tty_buf_size
    → n < tty_buf_size
    → j ≡ (i + n) % tty_buf_size
    → stored (set buf j x) i (suc n) ≡ stored buf i n ++ x ∷ []
stored-set zero buf i j x l lt small e =
    let w : i ≡ j = omega arith in
    ap (λ z. z ∷ [])
      (ap (λ k. get_or (set buf j x) k 0) w ∙ get_or-set_self buf j x 0 (omega arith))
stored-set (suc n) buf i j x l lt small e =
    ap₂ ◌∷◌ (get_or-set_ne buf j i x 0 (omega arith))
      (stored-set n buf ((i + 1) % tty_buf_size) j x l (omega arith) (omega arith) (omega arith))

stored_next :
    (buf : List ℕ) (i n : ℕ)
    → 0 < n
    → stored buf i n ≡ get_or buf i 0 ∷ stored buf ((i + 1) % tty_buf_size) (n - 1)
stored_next buf i zero lt = absurd (omega arith)
stored_next buf i (suc n) lt = ap (λ k. stored buf i (suc k)) (omega arith)

stored_eq : (buf : List ℕ) (i n m : ℕ) → n ≡ m → stored buf i n ≡ stored buf i m
stored_eq buf i n m e = ap (λ k. stored buf i k) e

abbrev fed : Tty → ℕ → Tty
fed t x = record t {
  input_buf = set t.input_buf t.in_head x;
  in_head = (t.in_head + 1) % tty_buf_size;
}

fed-IsRing : (t : Tty) (x : ℕ) → IsRing t → IsRing (fed t x)
fed-IsRing t x v = record {
  buf_length = length-set t.input_buf t.in_head x ∙ v.buf_length;
  head_lt = omega arith;
  tail_lt = v.tail_lt;
}

input-fed :
    (t : Tty) (x : ℕ)
    → IsRing t
    → ((t.in_head + 1) % tty_buf_size) ≢ t.in_tail
    → input (fed t x) ≡ input t ++ x ∷ []
input-fed t x v room =
    let h : t.in_head < tty_buf_size = v.head_lt in
    let l : t.in_tail < tty_buf_size = v.tail_lt in
    stored_eq (fed t x).input_buf t.in_tail (pending (fed t x)) (suc (pending t)) (omega arith)
    ∙ stored-set (pending t) t.input_buf t.in_tail t.in_head x v.buf_length l (omega arith)
        (omega arith)

-- Feeding a key to the ring appends its byte to the input, unless 1023 bytes wait already: then the key is
-- dropped and nothing changes.
pub feed-input :
    (t : Tty) (key : ℤ)
    → IsRing t
    → IsRing (feed t key)
      × (input (feed t key)
          ≡ (if length (input t) == 1023 then input t else input t ++ (low_byte key) ∷ []))
unfolding feed
feed-input t key v = elim (Bool-cases ((t.in_head + 1) % tty_buf_size == t.in_tail)) [
  | inl y ↦
      let w : (length (input t) == 1023) ≡ true =
        ground (arith, length-stored t.input_buf t.in_tail (pending t), v.head_lt, v.tail_lt) in
      rw (y, w) (v, refl)
  | inr n ↦
      let w : (length (input t) == 1023) ≡ false =
        ground (arith, length-stored t.input_buf t.in_tail (pending t), v.head_lt, v.tail_lt) in
      let differs : ((t.in_head + 1) % tty_buf_size) ≢ t.in_tail = ground arith in
      rw (n, w) (fed-IsRing t (low_byte key) v, input-fed t (low_byte key) v differs)
]

-- Reading takes the oldest byte of the input, or returns 0 and changes nothing.
pub getc-input :
    (t : Tty)
    → IsRing t
    → IsRing (getc t).0
      × ((input t ≡ []) × ((getc t).1 ≡ 0) × ((getc t).0 ≡ t)
          ⊎ (input t ≡ (getc t).1 ∷ input (getc t).0))
unfolding getc
getc-input t v = elim (Bool-cases (t.in_head == t.in_tail)) [
  | inl y ↦
      let h : t.in_head < tty_buf_size = v.head_lt in
      let l : t.in_tail < tty_buf_size = v.tail_lt in
      let none : input t ≡ [] = stored_eq t.input_buf t.in_tail (pending t) 0 (ground arith) in
      rw y (v, inl (none, refl, refl))
  | inr n ↦
      let h : t.in_head < tty_buf_size = v.head_lt in
      let l : t.in_tail < tty_buf_size = v.tail_lt in
      let some_input : 0 < pending t = ground arith in
      rw n (
        record { buf_length = v.buf_length; head_lt = h; tail_lt = omega arith },
        inr (
            stored_next t.input_buf t.in_tail (pending t) some_input
            ∙ ap (◌∷◌ (get_or t.input_buf t.in_tail 0)) (
                stored_eq t.input_buf ((t.in_tail + 1) % tty_buf_size) (pending t - 1)
                  ((t.in_head + tty_buf_size - (t.in_tail + 1) % tty_buf_size) % tty_buf_size)
                  (ground arith))),
      )
]
