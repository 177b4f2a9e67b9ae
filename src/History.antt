-- ===== src/History.antt =====
-- kernel/history.c: the shell's command history, a ring of 50 lines of 256 bytes.
pub mod Add
pub mod Walk
mod Tests
use krnel.Base.{
  ℕ, zero, suc, ◌+◌, ◌-◌, ◌%◌, ◌^◌, ◌≤◌, ◌<◌, ◌≡◌, ◌≢◌, ◌⊎◌, Bool, true, false, Option, none, some,
  List, [], ◌∷◌, ◌==◌, ltb, if◌then◌else◌, length, get_or, set,
}
use krnel.Base.Int.{ℤ, pos, negsuc, sub_ℕ, ◌+ℤ◌, ltb_ℤ, rem}
use krnel.CString.{Buffer, ◌>>=◌, text, terminated, strlen, strncpy}
use krnel.CString.Compare.{strcmp}
use krnel.CString.Number.{itoa}

abbrev pub history_size : ℕ
history_size = 50

abbrev pub buffer_size : ℕ
buffer_size = 256

-- `history_current` is -1, or the entry that the shell shows.
pub record History : Type 0 where
  pub slots : List Buffer
  pub count : ℕ
  pub current : ℤ
  pub index : ℕ

abbrev pub slot : History → ℕ → Buffer
slot h i = get_or h.slots i []

abbrev pub is_zero : ℤ → Bool
is_zero (pos n) = n == 0
is_zero (negsuc n) = false

abbrev pub is_minus_one : ℤ → Bool
is_minus_one (pos n) = false
is_minus_one (negsuc n) = n == 0

-- The newest line is the command.
pub is_repeated : History → Buffer → Option Bool
is_repeated h command =
    if ltb 0 h.count
    then (strcmp (slot h ((h.index + history_size - 1) % history_size)) command >>= λ r.
        some (is_zero r))
    else some false

pub store : History → Buffer → Option History
store h command = strncpy (slot h h.index) command (buffer_size - 1) >>= λ line. some (record h {
  slots = set h.slots h.index (set line (buffer_size - 1) 0);
  index = (h.index + 1) % history_size;
  count = if ltb h.count history_size then h.count + 1 else h.count;
  current = negsuc 0;
})

-- `none` for the command is NULL; `none` for the result is an access outside an object.
pub history_add : History → Option Buffer → Option History
history_add h none = some h
history_add h (some command) = strlen command >>= λ l.
    if l == 0
    then some h
    else is_repeated h command >>= λ same. if same then some h else store h command

-- `(history_index - history_count + current) % HISTORY_SIZE`, made positive.
abbrev pub wrap : ℤ → ℕ
wrap (pos n) = n
wrap (negsuc n) = history_size - suc n

abbrev pub slot_of : History → ℤ → ℕ
slot_of h current = wrap (rem (sub_ℕ h.index h.count +ℤ current) history_size)

-- `strncpy(buffer, history[idx], size - 1); buffer[size - 1] = '\0';`
pub show_entry : History → ℤ → Buffer → ℕ → Option (History × Buffer)
show_entry h current buffer size =
    let last = (size + 2 ^ 32 - 1) % 2 ^ 32 in
    strncpy buffer (slot h (slot_of h current)) last >>= λ line.
    some (record h { current = current }, set line last 0)

-- `history_current` after `history_prev`.
pub prev_current : ℕ → ℤ → ℤ
prev_current count current =
    if is_minus_one current
    then sub_ℕ count 1
    else if ltb_ℤ (pos 0) current
    then current +ℤ negsuc 0
    else current

pub history_prev : History → Buffer → ℕ → Option (History × Buffer)
history_prev h buffer size =
    if h.count == 0
    then some (h, buffer)
    else show_entry h (prev_current h.count h.current) buffer size

pub history_next : History → Buffer → ℕ → Option (History × Buffer)
history_next h buffer size =
    if is_minus_one h.current
    then some (h, buffer)
    else if ltb_ℤ h.current (sub_ℕ h.count 1)
    then show_entry h (h.current +ℤ pos 1) buffer size
    else some (record h { current = negsuc 0 }, set buffer 0 0)

-- The numbered lines that `history_show` prints from entry `i` on.
pub show_from : History → ℕ → ℕ → List (Buffer × Buffer)
show_from h i zero = []
show_from h i (suc n) = (itoa (pos (i + 1)), slot h (slot_of h (pos i))) ∷ show_from h (i + 1) n

abbrev pub history_show : History → List (Buffer × Buffer)
history_show h = show_from h 0 h.count

-- The text of entry `i`, from the oldest.
abbrev pub entry : History → ℕ → List ℕ
entry h i = text (slot h ((h.index + history_size - h.count + i) % history_size))

pub record IsValid (h : History) : Type 0 where
  pub slots_length : length h.slots ≡ history_size
  pub slot_length : (i : ℕ) → i < history_size → length (slot h i) ≡ buffer_size
  pub slot_terminated : (i : ℕ) → i < history_size → terminated (slot h i) ≡ true
  pub count_le : h.count ≤ history_size
  pub index_lt : h.index < history_size
  pub current_ok : (h.current ≡ negsuc 0) ⊎ ((k : ℕ) × (h.current ≡ pos k) × (k < h.count))
