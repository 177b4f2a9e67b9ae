-- ===== src/History/Add.antt =====
-- `history_add` of kernel/history.c.
use krnel.Base.{
  ℕ, ◌+◌, ◌-◌, ◌%◌, ◌<◌, ◌≡◌, ◌≢◌, refl, ◌∙◌, sym, ap, subst, ◌⊎◌, inl, inr, Bool, true, false,
  some, List, [], ◌∷◌, ◌==◌, ltb, if◌then◌else◌, length, set, take, length-set, get_or-set_self,
  get_or-set_ne, arith, Bool-cases,
}
use krnel.Base.Int.{ℤ, pos, negsuc}
use krnel.CString.{Buffer, text, terminated}
use krnel.CString.Copy.{strlen-text, strncpy-Copied}
use krnel.CString.Compare.{order, strcmp-order, strcmp-eq}
use krnel.History.{
  History, is_zero, history_size, buffer_size, slot, entry, IsValid, is_repeated, store,
  history_add,
}

-- `h'` is `h` with one more line: the text `t`. In a full ring the oldest line is gone.
pub record Appends (h : History) (t : List ℕ) (h' : History) : Type 0 where
  pub count : h'.count ≡ (if ltb h.count history_size then h.count + 1 else h.count)
  pub newest : entry h' (h'.count - 1) ≡ t
  pub older_partial : (i : ℕ) → h.count < history_size → i < h.count → entry h' i ≡ entry h i
  pub older_full : (i : ℕ) → h.count ≡ history_size → i + 1 < h.count → entry h' i ≡ entry h (i + 1)
  pub current : h'.current ≡ negsuc 0

-- The state that `store` leaves, with the new line at the index.
abbrev stored : History → Buffer → History
stored h line = record h {
  slots = set h.slots h.index line;
  index = (h.index + 1) % history_size;
  count = if ltb h.count history_size then h.count + 1 else h.count;
  current = negsuc 0;
}

module _ (h : History) (line : Buffer) (v : IsValid h) where
  slot_new : (i : ℕ) → i ≡ h.index → slot (stored h line) i ≡ line
  slot_new i e =
      rw e (get_or-set_self h.slots h.index line [] (omega (arith, v.slots_length, v.index_lt)))

  slot_old : (i : ℕ) → i ≢ h.index → slot (stored h line) i ≡ slot h i
  slot_old i ne = get_or-set_ne h.slots h.index i line [] (λ e. ne (sym e))

  stored-IsValid : length line ≡ buffer_size → terminated line ≡ true → IsValid (stored h line)
  stored-IsValid l t = record {
    slots_length = length-set h.slots h.index line ∙ v.slots_length;
    slot_length = λ i lt. elim (Bool-cases (i == h.index)) [
      | inl y ↦ ap length (slot_new i (ground arith)) ∙ l
      | inr n ↦ ap length (slot_old i (ground arith)) ∙ v.slot_length i lt
    ];
    slot_terminated = λ i lt. elim (Bool-cases (i == h.index)) [
      | inl y ↦ ap terminated (slot_new i (ground arith)) ∙ t
      | inr n ↦ ap terminated (slot_old i (ground arith)) ∙ v.slot_terminated i lt
    ];
    count_le = ground (arith, v.count_le);
    index_lt = omega arith;
    current_ok = inl refl;
  }

  entry_at : (i j : ℕ) → i ≡ j → text (slot h i) ≡ text (slot h j)
  entry_at i j e = ap (λ k. text (slot h k)) e

  stored-Appends : Appends h (text line) (stored h line)
  stored-Appends = record {
    count = refl;
    newest = ap text (slot_new _ (ground (arith, v.count_le, v.index_lt)));
    older_partial = λ i lt p.
        ap text (slot_old _ (ground (arith, v.count_le, v.index_lt)))
        ∙ entry_at _ _ (ground (arith, v.count_le, v.index_lt));
    older_full = λ i full p.
        ap text (slot_old _ (ground (arith, v.count_le, v.index_lt)))
        ∙ entry_at _ _ (ground (arith, v.count_le, v.index_lt));
    current = refl;
  }

store-Appends :
    (h : History) (command : Buffer)
    → IsValid h
    → terminated command ≡ true
    → (h' : History) × (store h command ≡ some h')
      × IsValid h'
      × Appends h (take (buffer_size - 1) (text command)) h'
unfolding store
store-Appends h command v t =
    let len = v.slot_length h.index v.index_lt in
    let (line, e, c) =
      strncpy-Copied (slot h h.index) command (buffer_size - 1) t (omega (arith, len)) in
    rw e (
      stored h (set line (buffer_size - 1) 0),
      refl,
      stored-IsValid h (set line (buffer_size - 1) 0) v
          (length-set line (buffer_size - 1) 0 ∙ c.same_length ∙ len) c.ends,
      subst (λ x. Appends h x (stored h (set line (buffer_size - 1) 0))) c.copies
          (stored-Appends h (set line (buffer_size - 1) 0) v),
    )

unsome : {a b : ℤ} → some a ≡ some b → a ≡ b
unsome e = cc

zero_of : (r : ℤ) → is_zero r ≡ true → r ≡ pos 0
zero_of (pos n) z = ground arith
zero_of (negsuc n) z = cc

is_zero_of : (r : ℤ) → r ≡ pos 0 → is_zero r ≡ true
is_zero_of r e = rw e

nil_of : (t : List ℕ) → length t ≡ 0 → t ≡ []
nil_of [] e = refl
nil_of (c ∷ t) e = absurd (omega arith)

cons_of : (t : List ℕ) → length t ≢ 0 → t ≢ []
cons_of t ne e = ne (ap length e)

differ : (b : Bool) → b ≡ false → b ≡ true → ⊥
differ b x y = cc

-- The newest entry equals the text `t`.
abbrev IsNewest : History → List ℕ → Type 0
IsNewest h t = (0 < h.count) × (entry h (h.count - 1) ≡ t)

is_repeated_lem :
    (h : History) (command : Buffer)
    → IsValid h
    → terminated command ≡ true
    → (b : Bool) × (is_repeated h command ≡ some b)
      × (b ≡ true → IsNewest h (text command))
      × (IsNewest h (text command) → b ≡ true)
unfolding is_repeated
is_repeated_lem h command v t = elim (Bool-cases (ltb 0 h.count)) [
  | inr n ↦ rw n (false, refl, (λ e. cc), λ (p, e). absurd (ground arith))
  | inl y ↦
      let last = (h.index + history_size - 1) % history_size in
      let ends = v.slot_terminated last (omega arith) in
      let same : text (slot h last) ≡ entry h (h.count - 1) =
        ap (λ k. text (slot h k)) (ground (arith, v.count_le, v.index_lt)) in
      let (to, from) = strcmp-eq (slot h last) command ends t in
      let r = order (text (slot h last)) (text command) in
      let e = strcmp-order (slot h last) command ends t in
      rw (y, e)
        (
          is_zero r,
          refl,
          λ z. (ground arith, sym same ∙ to (e ∙ ap some (zero_of r z))),
          λ (p, q). is_zero_of r (unsome (sym e ∙ from (same ∙ q))),
        )
]

-- What `history_add` does with a line of text `t`.
abbrev pub Added : History → List ℕ → History → Type 0
Added h t h' =
    (((t ≡ []) ⊎ IsNewest h t) × (h' ≡ h))
    ⊎ ((t ≢ []) × (¬ IsNewest h t) × Appends h (take (buffer_size - 1) t) h')

-- `history_add` of a C string stays inside its objects and keeps the ring well formed. An empty line and
-- a repetition of the newest entry leave the history as it is; any other line becomes the newest entry,
-- cut to 255 bytes, the older entries stay in order, and of 50 entries the oldest goes.
pub history_add-Added :
    (h : History) (command : Buffer)
    → IsValid h
    → terminated command ≡ true
    → (h' : History) × (history_add h (some command) ≡ some h')
      × IsValid h'
      × Added h (text command) h'
unfolding history_add
history_add-Added h command v t =
    rw (strlen-text command t).0 (elim (Bool-cases (length (text command) == 0)) [
      | inl y ↦ rw y (h, refl, v, inl (inl (nil_of (text command) (ground arith)), refl))
      | inr n ↦
          let (b, e, to, from) = is_repeated_lem h command v t in
          rw (n, e)
            (elim (Bool-cases b) [
              | inl y ↦ rw y (h, refl, v, inl (inr (to y), refl))
              | inr x ↦ rw x (
                  let (h', st, v', ap') = store-Appends h command v t in
                  (
                    h',
                    st,
                    v',
                    inr (cons_of (text command) (ground arith), (λ q. differ b x (from q)), ap'),
                  ))
            ])
    ])
