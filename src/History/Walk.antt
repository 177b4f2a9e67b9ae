-- ===== src/History/Walk.antt =====
-- `history_prev` and `history_next` of kernel/history.c.
use krnel.Base.{
  ℕ, zero, suc, ◌+◌, ◌-◌, ◌%◌, ◌^◌, ◌≤◌, ◌<◌, ◌≡◌, refl, ◌∙◌, sym, ap, subst, ◌⊎◌, inl, inr, true,
  false, Option, some, ◌==◌, length, set, length-set, take, arith,
}
use krnel.Base.Int.{ℤ, pos, negsuc, sub_ℕ, ◌+ℤ◌, ltb_ℤ}
use krnel.CString.{Buffer, ◌>>=◌, text, terminated, strncpy}
use krnel.CString.Copy.{strncpy-Copied}
use krnel.History.{
  History, history_size, slot, slot_of, entry, IsValid, show_entry, prev_current, is_minus_one,
  history_prev, history_next,
}

-- The shell now shows entry `k`, in a buffer of the same size.
abbrev pub Shows : History → Buffer → ℕ → Option (History × Buffer) → Type 0
Shows h buffer k r =
    (b : Buffer) × (r ≡ some (record h { current = pos k }, b))
    × (text b ≡ take (length buffer - 1) (entry h k))
    × (terminated b ≡ true)
    × (length b ≡ length buffer)

slot_of-entry :
    (h : History) (k : ℕ)
    → h.count ≤ history_size
    → h.index < history_size
    → k < h.count
    → slot_of h (pos k) ≡ (h.index + history_size - h.count + k) % history_size
slot_of-entry h k c i lt = ground arith

copy_out :
    (h h' : History) (buffer : Buffer) (i last : ℕ)
    → terminated (slot h i) ≡ true
    → last < length buffer
    → (b : Buffer) × (◌>>=◌ {B = History × Buffer}
          (strncpy buffer (slot h i) last)
          (λ line. some (h', set line last 0))
        ≡ some (h', b))
      × (text b ≡ take last (text (slot h i)))
      × (terminated b ≡ true)
      × (length b ≡ length buffer)
copy_out h h' buffer i last t lt =
    let (line, e, c) = strncpy-Copied buffer (slot h i) last t lt in
    rw e (set line last 0, refl, c.copies, c.ends, length-set line last 0 ∙ c.same_length)

show_entry-Shows :
    (h : History) (buffer : Buffer) (k : ℕ)
    → IsValid h
    → k < h.count
    → 0 < length buffer
    → length buffer < 2 ^ 32
    → Shows h buffer k (show_entry h (pos k) buffer (length buffer))
unfolding show_entry
show_entry-Shows h buffer k v lt some_room small =
    let i = (h.index + history_size - h.count + k) % history_size in
    let w : (length buffer + 2 ^ 32 - 1) % 2 ^ 32 ≡ length buffer - 1 = omega arith in
    let w' = slot_of-entry h k v.count_le v.index_lt lt in
    subst
      (λ j. Shows h buffer k (
        strncpy buffer (slot h j) ((length buffer + 2 ^ 32 - 1) % 2 ^ 32) >>= λ line.
        some (record h { current = pos k }, set line ((length buffer + 2 ^ 32 - 1) % 2 ^ 32) 0)))
      (sym w')
      (rw w (
        copy_out h (record h { current = pos k }) buffer i (length buffer - 1)
          (v.slot_terminated i (omega arith)) (omega arith)))

-- The entry that `history_prev` goes to: the newest at first, then the one before, down to the oldest.
abbrev pub older : ℕ → ℤ → ℕ
older count (pos zero) = 0
older count (pos (suc k)) = k
older count (negsuc n) = count - 1

prev_current-older :
    (count : ℕ) (current : ℤ)
    → 0 < count
    → (current ≡ negsuc 0) ⊎ ((k : ℕ) × (current ≡ pos k) × (k < count))
    → (prev_current count current ≡ pos (older count current)) × (older count current < count)
unfolding prev_current
prev_current-older count (pos zero) p (inl e) = cc
prev_current-older count (pos (suc k)) p (inl e) = cc
prev_current-older count (negsuc n) p (inl e) = ground arith
prev_current-older count (pos zero) p (inr (j, e, lt)) = ground arith
prev_current-older count (pos (suc k)) p (inr (j, e, lt)) = ground arith
prev_current-older count (negsuc n) p (inr (j, e, lt)) = cc

module _ (h : History) (buffer : Buffer) (v : IsValid h) where
  -- On a history with entries `history_prev` fills the buffer with the text of the next older entry, cut
  -- to the buffer's size, starting from the newest and staying at the oldest.
  pub history_prev-Shows :
      0 < h.count
      → 0 < length buffer
      → length buffer < 2 ^ 32
      → (older h.count h.current < h.count)
        × Shows h buffer (older h.count h.current) (history_prev h buffer (length buffer))
  unfolding history_prev
  history_prev-Shows some_entry some_room small =
      let (e, lt) = prev_current-older h.count h.current some_entry v.current_ok in
      let nz : (h.count == 0) ≡ false = ground arith in
      (
        lt,
        rw nz (
            subst
              (λ c.
                Shows h buffer (older h.count h.current) (show_entry h c buffer (length buffer)))
              (sym e) (show_entry-Shows h buffer (older h.count h.current) v lt some_room small)),
      )

  -- Without an entry, `history_prev` returns without writing the buffer, and so does `history_next`
  -- while no entry is shown.
  pub history_unwritten :
      (size : ℕ)
      → (h.count ≡ 0 → history_prev h buffer size ≡ some (h, buffer))
        × (h.current ≡ negsuc 0 → history_next h buffer size ≡ some (h, buffer))
  unfolding history_prev history_next
  history_unwritten size = (
    λ e. let z : (h.count == 0) ≡ true = ground arith in rw z,
    λ e. let z : is_minus_one h.current ≡ true = ap is_minus_one e in rw z,
  )

  -- While entry `k` is shown and is not the newest, `history_next` fills the buffer with the text of entry
  -- `k + 1`, cut to the buffer's size.
  pub history_next-Shows :
      (k : ℕ)
      → h.current ≡ pos k
      → k + 1 < h.count
      → 0 < length buffer
      → length buffer < 2 ^ 32
      → Shows h buffer (k + 1) (history_next h buffer (length buffer))
  unfolding history_next
  history_next-Shows k e more some_room small =
      let m : is_minus_one h.current ≡ false = ap is_minus_one e in
      let c : ltb_ℤ h.current (sub_ℕ h.count 1) ≡ true =
        ap (λ x. ltb_ℤ x (sub_ℕ h.count 1)) e ∙ ground arith in
      let n : h.current +ℤ pos 1 ≡ pos (k + 1) = ap (λ x. x +ℤ pos 1) e ∙ ground arith in
      rw (m, c, n) (show_entry-Shows h buffer (k + 1) v more some_room small)

  -- At the newest entry `history_next` stops showing entries and empties the buffer.
  pub history_next_newest :
      (k size : ℕ)
      → h.current ≡ pos k
      → k + 1 ≡ h.count
      → history_next h buffer size ≡ some (record h { current = negsuc 0 }, set buffer 0 0)
  unfolding history_next
  history_next_newest k size e last =
      let m : is_minus_one h.current ≡ false = ap is_minus_one e in
      let c : ltb_ℤ h.current (sub_ℕ h.count 1) ≡ false =
        ap (λ x. ltb_ℤ x (sub_ℕ h.count 1)) e ∙ ground arith in
      rw (m, c)
