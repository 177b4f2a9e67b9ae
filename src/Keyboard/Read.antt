-- ===== src/Keyboard/Read.antt =====
-- What `read_key` (kernel/keyboard.c) makes of a stream of scan codes.
use krnel.Base.{
  ℕ, zero, suc, ◌-◌, ◌%◌, ◌≤◌, ◌<◌, ◌≡◌, ◌≢◌, refl, ◌∙◌, sym, ap, subst, Bool, true, false, not,
  ◌&&◌, ◌||◌, Option, none, some, List, [], ◌∷◌, ◌++◌, ◌==◌, ltb, leb, if◌then◌else◌, get_or, arith,
}
use krnel.Base.Int.{ℤ, pos, negsuc}
use krnel.Tty.{Console, ShellCall, tty_switch}
use krnel.Keyboard.{
  Keyboard, keymap_normal, keymap_shift, Mode, Action, Outcome, is_release, released, character,
  switched, scan, read_in, read_key,
}

-- What a scan code makes of the flag of the modifier key with these codes.
abbrev pub moved : (ℕ → Bool) → ℕ → Bool → Bool
moved mine sc b = if mine (sc % 128) then not (is_release sc) else b

abbrev pub is_shift : ℕ → Bool
is_shift code = code == 0x2A || code == 0x36

abbrev pub is_ctrl : ℕ → Bool
is_ctrl code = code == 0x1D

abbrev pub is_alt : ℕ → Bool
is_alt code = code == 0x38

abbrev pub Moves : Keyboard → ℕ → Keyboard → Type 0
Moves k sc k' =
    (k'.shift_pressed ≡ moved is_shift sc k.shift_pressed)
    × (k'.ctrl_pressed ≡ moved is_ctrl sc k.ctrl_pressed)
    × (k'.alt_pressed ≡ moved is_alt sc k.alt_pressed)
    × (k'.caps_lock ≡ (if sc == 0x3A then not k.caps_lock else k.caps_lock))

-- A character of ASCII but NUL.
abbrev pub IsAscii : ℤ → Type 0
IsAscii (pos n) = (0 < n) × (n < 128)
IsAscii (negsuc n) = 1 ≤ 0

abbrev Scanned : Keyboard → ℕ → Action → Type 0
Scanned k sc (Action.wait mode k') = (mode ≡ Mode.plain) × Moves k sc k'
Scanned k sc (Action.key k' c) = Moves k sc k' × IsAscii c
Scanned k sc (Action.call k' shell) = Moves k sc k' × (k'.alt_pressed ≡ true)

if_lem {ℓ κ} :
    {A : Type ℓ} (P : A → Type κ) (b : Bool) (x y : A)
    → (b ≡ true → P x)
    → (b ≡ false → P y)
    → P (if b then x else y)
if_lem P true x y t f = t refl
if_lem P false x y t f = f refl

all_below : List ℕ → Bool
all_below [] = true
all_below (c ∷ cs) = ltb c 128 && all_below cs

get_or-all_below : (cs : List ℕ) (i : ℕ) → all_below cs ≡ true → get_or cs i 0 < 128
unfolding all_below
get_or-all_below [] i h = omega arith
get_or-all_below (c ∷ cs) zero h = ground arith
get_or-all_below (c ∷ cs) (suc i) h = get_or-all_below cs i (ground arith)

keymap_lt : (b : Bool) (sc : ℕ) → get_or (if b then keymap_shift else keymap_normal) sc 0 < 128
unfolding all_below
keymap_lt true sc = get_or-all_below keymap_shift sc refl
keymap_lt false sc = get_or-all_below keymap_normal sc refl

stays :
    (k : Keyboard) (sc : ℕ)
    → is_release sc ≡ false
    → sc < 256
    → sc ≢ 0x2A
    → sc ≢ 0x36
    → sc ≢ 0x1D
    → sc ≢ 0x38
    → sc ≢ 0x3A
    → Moves k sc k
stays k sc r lt a b c d e = (ground arith, ground arith, ground arith, ground arith)

character-Scanned : (k : Keyboard) (sc : ℕ) → Moves k sc k → Scanned k sc (character k sc)
character-Scanned k sc m =
    let use_shift = if k.shift_pressed then not k.caps_lock else k.caps_lock in
    let c = get_or (if use_shift then keymap_shift else keymap_normal) sc 0 in
    let lt = keymap_lt use_shift sc in
    if_lem (Scanned k sc) (c == 0) _ _ (λ z. (refl, m))
      (λ z.
        if_lem (Scanned k sc) (k.ctrl_pressed && leb b'a' c && leb c b'z') _ _
          (λ y. (m, (ground arith, ground arith)))
          (λ n.
            if_lem (Scanned k sc) (k.ctrl_pressed && leb b'A' c && leb c b'Z') _ _
              (λ y. (m, (ground arith, ground arith))) (λ n'. (m, (ground arith, lt)))))

release_Moves : (k : Keyboard) (sc : ℕ) → is_release sc ≡ true → Moves k sc (released k (sc % 128))
release_Moves k sc r = (ground arith, ground arith, ground arith, ground arith)

switched-Scanned :
    (k : Keyboard) (sc : ℕ) (o : Console × Option ShellCall)
    → Moves k sc k
    → k.alt_pressed ≡ true
    → Scanned k sc (switched k o)
switched-Scanned k sc (s, none) m alt = (refl, m)
switched-Scanned k sc (s, some shell) m alt = (m, alt)

scan-Scanned :
    (logged_in : Bool) (k : Keyboard) (sc : ℕ) → sc < 256 → Scanned k sc (scan logged_in k sc)
unfolding scan
scan-Scanned logged_in k sc lt =
    let P = Scanned k sc in
    if_lem P (is_release sc) _ _ (λ r. (refl, release_Moves k sc r))
      (λ r.
        if_lem P (sc == 0xE0) _ _ (λ e. absurd (ground arith))
          (λ e.
            if_lem P (sc == 0x2A || sc == 0x36) _ _
              (λ y. (refl, (ground arith, ground arith, ground arith, ground arith)))
              (λ a.
                if_lem P (sc == 0x1D) _ _
                  (λ y. (refl, (ground arith, ground arith, ground arith, ground arith)))
                  (λ b.
                    if_lem P (sc == 0x38) _ _
                      (λ y. (refl, (ground arith, ground arith, ground arith, ground arith)))
                      (λ c.
                        if_lem P (sc == 0x3A) _ _
                          (λ y. (refl, (ground arith, ground arith, ground arith, ground arith)))
                          (λ d.
                            let m =
                              stays k sc r lt (ground arith) (ground arith) (ground arith)
                                (ground arith) (ground arith) in
                            if_lem P (k.alt_pressed && leb 0x3B sc && leb sc 0x3E) _ _
                              (λ y.
                                switched-Scanned k sc
                                  (tty_switch logged_in k.console (pos (sc - 0x3B))) m
                                  (ground arith))
                              (λ f.
                                if_lem P (k.alt_pressed && leb 0x02 sc && leb sc 0x05) _ _
                                  (λ y.
                                    switched-Scanned k sc
                                      (tty_switch logged_in k.console (pos (sc - 0x02))) m
                                      (ground arith))
                                  (λ g. character-Scanned k sc m))))))))

-- What the scan codes make of a flag, one after the other.
abbrev pub held : (ℕ → Bool) → List ℕ → Bool → Bool
held mine [] b = b
held mine (sc ∷ codes) b = held mine codes (moved mine sc b)

abbrev pub locked : List ℕ → Bool → Bool
locked [] b = b
locked (sc ∷ codes) b = locked codes (if sc == 0x3A then not b else b)

abbrev pub Tracks : Keyboard → List ℕ → Keyboard → Type 0
Tracks k codes k' =
    (k'.shift_pressed ≡ held is_shift codes k.shift_pressed)
    × (k'.ctrl_pressed ≡ held is_ctrl codes k.ctrl_pressed)
    × (k'.alt_pressed ≡ held is_alt codes k.alt_pressed)
    × (k'.caps_lock ≡ locked codes k.caps_lock)

Tracks-cons :
    (k k' k'' : Keyboard) (sc : ℕ) (codes : List ℕ)
    → Moves k sc k'
    → Tracks k' codes k''
    → Tracks k (sc ∷ codes) k''
Tracks-cons k k' k'' sc codes m t = (
  t.0 ∙ ap (held is_shift codes) m.0,
  t.1 ∙ ap (held is_ctrl codes) m.1,
  t.2 ∙ ap (held is_alt codes) m.2,
  t.3 ∙ ap (locked codes) m.3,
)

abbrev pub AllBytes : List ℕ → Type 0
AllBytes [] = 0 ≤ 0
AllBytes (c ∷ cs) = (c < 256) × AllBytes cs

-- What a call of `read_key` comes to, by the bytes that it has used.
abbrev pub Reads : Keyboard → List ℕ → Outcome → Type 0
Reads k codes (Outcome.waits mode k') = (mode ≡ Mode.plain) × Tracks k codes k'
Reads k codes (Outcome.returns k' rest c) =
    (used : List ℕ) × (codes ≡ used ++ rest) × Tracks k used k' × IsAscii c
Reads k codes (Outcome.calls k' rest shell) =
    (used : List ℕ) × (codes ≡ used ++ rest) × Tracks k used k' × (k'.alt_pressed ≡ true)

Reads-on :
    (k k' : Keyboard) (sc : ℕ) (codes : List ℕ) (o : Outcome)
    → Moves k sc k'
    → Reads k' codes o
    → Reads k (sc ∷ codes) o
Reads-on k k' sc codes (Outcome.waits mode l) m (plain, t) =
    (plain, Tracks-cons k k' l sc codes m t)
Reads-on k k' sc codes (Outcome.returns l rest c) m (used, split, t, ascii) =
    (sc ∷ used, ap (◌∷◌ sc) split, Tracks-cons k k' l sc used m t, ascii)
Reads-on k k' sc codes (Outcome.calls l rest shell) m (used, split, t, alt) =
    (sc ∷ used, ap (◌∷◌ sc) split, Tracks-cons k k' l sc used m t, alt)

act :
    (logged_in : Bool) (k : Keyboard) (sc : ℕ) (codes : List ℕ) (a : Action)
    → Scanned k sc a
    → ((k' : Keyboard) → Reads k' codes (read_in logged_in Mode.plain k' codes))
    → Reads k (sc ∷ codes) (elim a [
      | Action.wait mode' k' ↦ read_in logged_in mode' k' codes
      | Action.key k' c ↦ Outcome.returns k' codes c
      | Action.call k' shell ↦ Outcome.calls k' codes shell
    ])
act logged_in k sc codes (Action.wait mode k') h more =
    subst (λ m. Reads k (sc ∷ codes) (read_in logged_in m k' codes)) (sym h.0)
      (Reads-on k k' sc codes (read_in logged_in Mode.plain k' codes) h.1 (more k'))
act logged_in k sc codes (Action.key k' c) h more = (sc ∷ [], refl, h.0, h.1)
act logged_in k sc codes (Action.call k' shell) h more = (sc ∷ [], refl, h.0, h.1)

-- On any bytes `read_key` waits for more with all of them used, or returns an ASCII character: never NUL, and
-- never one of the negative codes of the arrow and edit keys, though the code for the prefix 0xE0 makes them;
-- or it hands over to the shell for a switch of terminals, with Alt pressed. The modifier flags are then what
-- the bytes it has used say: pressed if the key's last code was a press, caps lock switched by each press.
pub read_key-Reads :
    (logged_in : Bool) (codes : List ℕ) (k : Keyboard)
    → AllBytes codes
    → Reads k codes (read_key logged_in k codes)
unfolding read_key read_in
read_key-Reads logged_in [] k b = (refl, (refl, refl, refl, refl))
read_key-Reads logged_in (sc ∷ codes) k b =
    act logged_in k sc codes (scan logged_in k sc) (scan-Scanned logged_in k sc b.0)
      (λ k'. read_key-Reads logged_in codes k' b.1)
